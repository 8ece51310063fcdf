-- ===== src/Bbr1/ProbeRtt.antt =====
-- quic-go-bbr/internal/congestion/bbrv1.go: how PROBE_RTT ends.
use moq_quic_bbrv3_go.Prelude.{
  ℕ, ◌-◌, ◌<◌, ◌≡◌, refl, ap, ◌∙◌, inl, inr, arith, leb, if◌then◌else◌, Bool-cases,
}
use moq_quic_bbrv3_go.Bbr1.Float.{Float}
use moq_quic_bbrv3_go.Bbr1.State.{
  probe_bw, probe_rtt, Sender, ten_seconds, is_probe_rtt, entry_probe_bw, may_exit_probe_rtt,
  update_maxbandwidth_filter, exit_recover,
}
use moq_quic_bbrv3_go.Bbr1.Calls.{
  update_lastbandwidth_filter, has_pacing_budget, record_ack, note_growth, check_startup_done,
  next_round, check_drain_done, raise_bandwidth, check_probe_rtt, process_ack, on_packet_acked,
}

module _ {F : Type 0} (fl : Float F) where
  record_ack-phase :
      (number k now : ℕ) (b : Sender F)
      → b.state ≡ probe_rtt
      → let b' = record_ack fl number k now b in
        (b'.state
          ≡ (if leb 200_000_000 (now - b.last_probe_rtt_start) then probe_bw else probe_rtt))
        × (b'.last_probe_rtt_start ≡ b.last_probe_rtt_start)
  unfolding record_ack may_exit_probe_rtt entry_probe_bw
  record_ack-phase number k now b s = (ground arith, ground arith)

  next_round-phase :
      (rate now : ℕ) (b : Sender F)
      → b.state ≡ probe_bw
      → let b' = next_round fl rate now b in
        (b'.state ≡ probe_bw) × (b'.last_probe_rtt_start ≡ b.last_probe_rtt_start)
  unfolding next_round exit_recover check_startup_done note_growth update_maxbandwidth_filter
  next_round-phase rate now b s = (ground arith, ground arith)

  finish-phase :
      (p rate now : ℕ) (b : Sender F)
      → b.state ≡ probe_bw
      → now - b.last_probe_rtt_start < ten_seconds
      → let b' = check_probe_rtt fl now (raise_bandwidth fl p rate (check_drain_done fl p b)) in
        (b'.state ≡ probe_bw) × (b'.last_probe_rtt_start ≡ b.last_probe_rtt_start)
  unfolding check_probe_rtt raise_bandwidth check_drain_done entry_probe_bw
  finish-phase p rate now b s l = (ground arith, ground arith)

  process_ack-phase :
      (p now : ℕ) (b : Sender F)
      → b.state ≡ probe_bw
      → now - b.last_probe_rtt_start < ten_seconds
      → let b' = process_ack fl p now b in
        (b'.state ≡ probe_bw) × (b'.last_probe_rtt_start ≡ b.last_probe_rtt_start)
  unfolding process_ack update_lastbandwidth_filter
  process_ack-phase p now b s l =
      let (u, rate) = update_lastbandwidth_filter fl now b in
      elim (Bool-cases (leb u.last_new_min_rtt (now - u.round_start_time))) [
        | inl due ↦
            let n = next_round-phase rate now u s in
            let f = finish-phase p rate now (next_round fl rate now u) n.0 (rw n.1 l) in
            rw (due, process_ack) (f.0, f.1 ∙ n.1)
        | inr early ↦ rw (early, process_ack) (finish-phase p rate now u s l)
      ]

  -- What a call at the time `now` in PROBE_RTT leaves.
  abbrev pub EndsInTime : ℕ → Sender F → Sender F → Type 0
  EndsInTime now b b' =
      (b'.state ≡ (if leb 200_000_000 (now - b.last_probe_rtt_start) then probe_bw else probe_rtt))
      × (b'.last_probe_rtt_start ≡ b.last_probe_rtt_start)

  has_pacing_budget-phase :
      (now : ℕ) (b : Sender F)
      → b.state ≡ probe_rtt
      → EndsInTime now b (has_pacing_budget fl now b).0
  unfolding has_pacing_budget may_exit_probe_rtt update_lastbandwidth_filter entry_probe_bw
  has_pacing_budget-phase now b s = (ground arith, ground arith)

  acked-phase :
      (number k p now : ℕ) (b : Sender F)
      → b.state ≡ probe_rtt
      → now - b.last_probe_rtt_start < ten_seconds
      → EndsInTime now b (on_packet_acked fl number k p now b)
  unfolding on_packet_acked
  acked-phase number k p now b s l =
      let r = record_ack fl number k now b in
      let (q, t) = record_ack-phase number k now b s in
      elim (Bool-cases (leb 200_000_000 (now - b.last_probe_rtt_start))) [
        | inl over ↦
            let bw : r.state ≡ probe_bw = q ∙ rw over refl in
            let f = process_ack-phase p now r bw (rw t l) in
            rw (over, on_packet_acked, ap is_probe_rtt bw) (f.0, f.1 ∙ t)
        | inr young ↦
            let rtt : r.state ≡ probe_rtt = q ∙ rw young refl in
            rw (young, on_packet_acked, ap is_probe_rtt rtt) (rtt, t)
      ]

  record_ack-steady :
      (number k now : ℕ) (b : Sender F)
      → b.state ≡ probe_bw
      → let b' = record_ack fl number k now b in
        (b'.state ≡ probe_bw) × (b'.last_probe_rtt_start ≡ b.last_probe_rtt_start)
  unfolding record_ack may_exit_probe_rtt
  record_ack-steady number k now b s = (ground arith, ground arith)

  acked-steady :
      (number k p now : ℕ) (b : Sender F)
      → b.state ≡ probe_bw
      → now - b.last_probe_rtt_start < ten_seconds
      → let b' = on_packet_acked fl number k p now b in
        (b'.state ≡ probe_bw) × (b'.last_probe_rtt_start ≡ b.last_probe_rtt_start)
  unfolding on_packet_acked
  acked-steady number k p now b s l =
      let r = record_ack fl number k now b in
      let (bw, t) = record_ack-steady number k now b s in
      let f = process_ack-phase p now r bw (rw t l) in
      rw (on_packet_acked, ap is_probe_rtt bw) (f.0, f.1 ∙ t)

  asked-phase :
      (number k p now : ℕ) (b a : Sender F)
      → now - b.last_probe_rtt_start < ten_seconds
      → EndsInTime now b a
      → EndsInTime now b (on_packet_acked fl number k p now a)
  asked-phase number k p now b a l (q, t) =
      elim (Bool-cases (leb 200_000_000 (now - b.last_probe_rtt_start))) [
        | inl over ↦
            let f = acked-steady number k p now a (q ∙ rw over refl) (rw t l) in
            (rw over f.0, f.1 ∙ t)
        | inr young ↦
            let f = acked-phase number k p now a (q ∙ rw young refl) (rw t l) in
            (f.0 ∙ rw t refl, f.1 ∙ t)
      ]

  -- In PROBE_RTT the question whether the pacer has a budget ends the phase when 200 ms have passed
  -- since it began and keeps it before. An acknowledgement that comes less than ten seconds after the
  -- beginning does the same, whether that question was asked just before or not. Both keep the time of
  -- the beginning.
  pub leaves_probe_rtt :
      (number k p now : ℕ) (b : Sender F)
      → b.state ≡ probe_rtt
      → now - b.last_probe_rtt_start < ten_seconds
      → let asked = (has_pacing_budget fl now b).0 in
        EndsInTime now b asked
        × EndsInTime now b (on_packet_acked fl number k p now b)
        × EndsInTime now b (on_packet_acked fl number k p now asked)
  leaves_probe_rtt number k p now b s l =
      let asked = has_pacing_budget-phase now b s in
      (
        asked,
        acked-phase number k p now b s l,
        asked-phase number k p now b (has_pacing_budget fl now b).0 l asked,
      )
