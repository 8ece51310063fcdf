-- ===== src/Bbr1/Phases.antt =====
-- quic-go-bbr/internal/congestion/bbrv1.go: how the state moves.
use moq_quic_bbrv3_go.Prelude.{
  ℕ, ◌-◌, ◌≤◌, ◌≡◌, arith, All, Bool, true, false, leb, if◌then◌else◌, List, [], ◌∷◌, none, set,
}
use moq_quic_bbrv3_go.Bbr1.Float.{Float}
use moq_quic_bbrv3_go.Bbr1.State.{
  State, startup, drain, probe_bw, probe_rtt, Sender, is_probe_rtt, entry_probe_bw,
  may_exit_probe_rtt, update_maxbandwidth_filter, exit_recover,
}
use moq_quic_bbrv3_go.Bbr1.Calls.{
  on_packet_sent, update_lastbandwidth_filter, has_pacing_budget, record_ack, note_growth,
  check_startup_done, next_round, check_drain_done, raise_bandwidth, check_probe_rtt, process_ack,
  on_packet_acked, on_congestion_event, on_retransmission_timeout, set_max_datagram_size, Event,
  packet_acked, retransmission_timeout, pacing_budget, step, run,
}

-- STARTUP, then DRAIN, then the two that take turns.
abbrev pub rank : State → ℕ
rank startup = 0
rank drain = 1
rank probe_bw = 2
rank probe_rtt = 2

-- Any call but a retransmission timeout that rebuilds the sender.
abbrev pub NoRebuild : Event → Type 0
NoRebuild (retransmission_timeout now now' r) = r ≡ false
NoRebuild _ = Unit

record Onward {F : Type 0} (a b : Sender F) : Type 0 where
  state : rank a.state ≤ rank b.state
  round : a.round ≤ b.round

Onward-trans : {F : Type 0} (a b c : Sender F) → Onward a b → Onward b c → Onward a c
Onward-trans a b c p q = record {
  state = omega (arith, p.state, q.state);
  round = omega (arith, p.round, q.round);
}

Onward-refl : {F : Type 0} (a : Sender F) → Onward a a
Onward-refl a = record { state = omega arith; round = omega arith }

Onward-if :
    {F : Type 0} (c : Bool) (a : Sender F) {b : Sender F}
    → Onward a b
    → Onward a (if c then b else a)
Onward-if true a p = p
Onward-if false a p = Onward-refl a

Onward-unless :
    {F : Type 0} (c : Bool) (a : Sender F) {b : Sender F}
    → Onward a b
    → Onward a (if c then a else b)
Onward-unless true a p = Onward-refl a
Onward-unless false a p = p

module _ {F : Type 0} (fl : Float F) where
  may_exit_probe_rtt-Onward : (now : ℕ) (b : Sender F) → Onward b (may_exit_probe_rtt fl now b)
  unfolding may_exit_probe_rtt entry_probe_bw
  may_exit_probe_rtt-Onward now b = ground arith

  next_round-Onward : (rate now : ℕ) (b : Sender F) → Onward b (next_round fl rate now b)
  unfolding next_round exit_recover check_startup_done note_growth update_maxbandwidth_filter
  next_round-Onward rate now b = ground arith

  finish-Onward :
      (p rate now : ℕ) (b : Sender F)
      → Onward b (check_probe_rtt fl now (raise_bandwidth fl p rate (check_drain_done fl p b)))
  unfolding check_probe_rtt raise_bandwidth check_drain_done entry_probe_bw
  finish-Onward p rate now b = ground arith

  process_ack-Onward : (p now : ℕ) (b : Sender F) → Onward b (process_ack fl p now b)
  unfolding process_ack update_lastbandwidth_filter
  process_ack-Onward p now b =
      let (u, rate) = update_lastbandwidth_filter fl now b in
      let same : Onward b u = record { state = omega arith; round = omega arith } in
      Onward-trans b _ _
        (Onward-trans b u _ same (
          Onward-if (leb u.last_new_min_rtt (now - u.round_start_time)) u
            (next_round-Onward rate now u)))
        (finish-Onward p rate now _)

  record_ack-Onward : (number k now : ℕ) (b : Sender F) → Onward b (record_ack fl number k now b)
  unfolding record_ack
  record_ack-Onward number k now b =
      let m =
        may_exit_probe_rtt-Onward now (record b { sent_times = set number none b.sent_times }) in
      record { state = m.state; round = m.round }

  step-Onward : (e : Event) (b : Sender F) → NoRebuild e → Onward b (step fl e b)
  unfolding step on_packet_sent on_packet_acked on_congestion_event on_retransmission_timeout
      set_max_datagram_size has_pacing_budget update_lastbandwidth_filter
  step-Onward (packet_acked n k p now) b ok =
      let r = record_ack fl n k now b in
      Onward-trans b r _ (record_ack-Onward n k now b)
        (Onward-unless (is_probe_rtt r.state) r (process_ack-Onward p now r))
  step-Onward (retransmission_timeout s s' r) b ok = rw ok (Onward-refl b)
  step-Onward (pacing_budget now) b ok =
      let m = may_exit_probe_rtt-Onward now b in ground (arith, m.state, m.round)
  step-Onward e b ok = record { state = omega arith; round = omega arith }

  run-moves : (es : List Event) (b : Sender F) → All NoRebuild es → Onward b (run fl es b)
  unfolding run
  run-moves [] b ok = Onward-refl b
  run-moves (e ∷ es) b (ok, oks) =
      Onward-trans b _ _ (step-Onward e b ok) (run-moves es (step fl e b) oks)

  -- Without a retransmission timeout that rebuilds the sender, no sequence of calls leads back from
  -- DRAIN to STARTUP, or from PROBE_BW or PROBE_RTT to either, and the count of rounds never falls.
  pub run-Onward :
      (es : List Event) (b : Sender F)
      → All NoRebuild es
      → (rank b.state ≤ rank (run fl es b).state) × (b.round ≤ (run fl es b).round)
  run-Onward es b ok = let m = run-moves es b ok in (m.state, m.round)
