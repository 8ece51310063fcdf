-- ===== src/Bbr1/Gains.antt =====
-- quic-go-bbr/internal/congestion/bbrv1.go: the gains, which go with the state at every moment.
use moq_quic_bbrv3_go.Prelude.{
  ℕ, ◌≡◌, refl, arith, Bool, true, false, if◌then◌else◌, List, [], ◌∷◌, none, set,
}
use moq_quic_bbrv3_go.Bbr1.Float.{Float}
use moq_quic_bbrv3_go.Bbr1.State.{
  State, startup, drain, probe_bw, probe_rtt, Sender, cycle_gain, new_sender, entry_probe_bw,
  may_exit_probe_rtt, update_maxbandwidth_filter, exit_recover,
}
use moq_quic_bbrv3_go.Bbr1.Calls.{
  on_packet_sent, update_lastbandwidth_filter, has_pacing_budget, record_ack, note_growth,
  check_startup_done, next_round, check_drain_done, raise_bandwidth, check_probe_rtt, process_ack,
  on_packet_acked, on_congestion_event, on_retransmission_timeout, set_max_datagram_size, Event,
  packet_sent, packet_acked, congestion, retransmission_timeout, datagram_size, pacing_budget, step,
  run,
}

module _ {F : Type 0} (fl : Float F) where
  open fl use {lit}

  -- The gains of a state in a round.
  abbrev pub pacing_gain_of : State → ℕ → F
  pacing_gain_of startup round = lit 289 100
  pacing_gain_of drain round = lit 345 1000
  pacing_gain_of probe_bw round = cycle_gain fl round
  pacing_gain_of probe_rtt round = lit 1 1

  abbrev pub cwnd_gain_of : State → F
  cwnd_gain_of startup = lit 289 100
  cwnd_gain_of drain = lit 1 1
  cwnd_gain_of probe_bw = lit 2 1
  cwnd_gain_of probe_rtt = lit 1 1

  pub record Geared (b : Sender F) : Type 0 where
    pub pacing : b.pacing_gain ≡ pacing_gain_of b.state b.round
    pub window : b.cwnd_gain ≡ cwnd_gain_of b.state
    pub open_loop : b.in_recovery ≡ false

  may_exit_probe_rtt-Geared :
      (now : ℕ) (b : Sender F) → Geared b → Geared (may_exit_probe_rtt fl now b)
  unfolding may_exit_probe_rtt entry_probe_bw
  may_exit_probe_rtt-Geared now b h = ground arith

  next_round-Geared : (rate now : ℕ) (b : Sender F) → Geared b → Geared (next_round fl rate now b)
  unfolding next_round exit_recover check_startup_done note_growth update_maxbandwidth_filter
  next_round-Geared rate now b h = ground arith

  update_lastbandwidth_filter-Geared :
      (now : ℕ) (b : Sender F) → Geared b → Geared (update_lastbandwidth_filter fl now b).0
  unfolding update_lastbandwidth_filter
  update_lastbandwidth_filter-Geared now b h = record {
    pacing = h.pacing;
    window = h.window;
    open_loop = h.open_loop;
  }

  record_ack-Geared :
      (number k now : ℕ) (b : Sender F) → Geared b → Geared (record_ack fl number k now b)
  unfolding record_ack
  record_ack-Geared number k now b h =
      let b0 = record b { sent_times = set number none b.sent_times } in
      let m =
        may_exit_probe_rtt-Geared now b0
          (record { pacing = h.pacing; window = h.window; open_loop = h.open_loop }) in
      record { pacing = m.pacing; window = m.window; open_loop = m.open_loop }

  check_drain_done-Geared : (p : ℕ) (b : Sender F) → Geared b → Geared (check_drain_done fl p b)
  unfolding check_drain_done entry_probe_bw
  check_drain_done-Geared p b h = ground arith

  raise_bandwidth-Geared :
      (p rate : ℕ) (b : Sender F) → Geared b → Geared (raise_bandwidth fl p rate b)
  unfolding raise_bandwidth
  raise_bandwidth-Geared p rate b h = ground arith

  check_probe_rtt-Geared : (now : ℕ) (b : Sender F) → Geared b → Geared (check_probe_rtt fl now b)
  unfolding check_probe_rtt
  check_probe_rtt-Geared now b h = ground arith

  Geared-if : (c : Bool) {a b : Sender F} → Geared a → Geared b → Geared (if c then a else b)
  Geared-if true p q = p
  Geared-if false p q = q

  process_ack-Geared : (p now : ℕ) (b : Sender F) → Geared b → Geared (process_ack fl p now b)
  unfolding process_ack
  process_ack-Geared p now b h =
      let u = update_lastbandwidth_filter-Geared now b h in
      check_probe_rtt-Geared now _ (
        raise_bandwidth-Geared p _ _
          (check_drain_done-Geared p _ (Geared-if _ (next_round-Geared _ now _ u) u)))

  step-Geared : (e : Event) (b : Sender F) → Geared b → Geared (step fl e b)
  unfolding step on_packet_sent on_packet_acked on_congestion_event on_retransmission_timeout
      set_max_datagram_size has_pacing_budget new_sender
  step-Geared (packet_sent t n k) b h = record {
    pacing = h.pacing;
    window = h.window;
    open_loop = h.open_loop;
  }
  step-Geared (packet_acked n k p t) b h =
      let r = record_ack-Geared n k t b h in Geared-if _ r (process_ack-Geared p t _ r)
  step-Geared (congestion n k p) b h = h
  step-Geared (retransmission_timeout t t' true) b h = record {
    pacing = refl;
    window = refl;
    open_loop = refl;
  }
  step-Geared (retransmission_timeout t t' false) b h = h
  step-Geared (datagram_size s) b h = record {
    pacing = h.pacing;
    window = h.window;
    open_loop = h.open_loop;
  }
  step-Geared (pacing_budget t) b h =
      let m = may_exit_probe_rtt-Geared t b h in
      ground (arith, update_lastbandwidth_filter-Geared t _ m)

  run-keeps_Geared : (es : List Event) (b : Sender F) → Geared b → Geared (run fl es b)
  unfolding run
  run-keeps_Geared [] b h = h
  run-keeps_Geared (e ∷ es) b h = run-keeps_Geared es _ (step-Geared e b h)

  -- After any sequence of calls on a new sender the pacing gain and the window gain are those of its
  -- state, in PROBE_BW the pacing gain being the entry of the cycle for the round, and the sender is not
  -- in recovery, whatever was lost.
  pub run-Geared :
      (es : List Event) (now now' size : ℕ) → Geared (run fl es (new_sender fl now now' size))
  unfolding new_sender
  run-Geared es now now' size =
      run-keeps_Geared es _ (record { pacing = refl; window = refl; open_loop = refl })
