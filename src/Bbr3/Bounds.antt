-- ===== src/Bbr3/Bounds.antt =====
-- bbrv3.go: bounds on the congestion window, the send quantum and the bandwidth, and the filters.
use Prim.Native.Nat.{min, max}
use moq_quic_bbrv3_go.Prelude.{
  ℕ, ◌+◌, ◌-◌, ◌≤◌, ◌<◌, ◌≡◌, ap, ◌∙◌, arith, true, false, ◌&&◌, ◌||◌, not, ltb, if◌then◌else◌,
  wrap64,
}
use moq_quic_bbrv3_go.Bbr3.Float.{Float}
use moq_quic_bbrv3_go.Bbr3.Filters.{get}
use moq_quic_bbrv3_go.Bbr3.State.{probe_rtt, Config, Sender}
use moq_quic_bbrv3_go.Bbr3.Signals.{
  is_startup, is_probe_rtt, is_cruise, is_in_probe_bw, start_round, bound_bw_for_model, save_cwnd,
  enter_recovery, set_send_quantum, modulate_cwnd_for_recovery,
}
use moq_quic_bbrv3_go.Bbr3.Estimate.{
  bdp, quantization_budget, probe_rtt_cwnd, update_max_inflight, raise_to_min_cwnd,
  bound_cwnd_for_probe_rtt, model_cap, bound_cwnd_for_model, set_cwnd,
}
use moq_quic_bbrv3_go.Bbr3.Events.{on_congestion_event}

module _ {F : Type 0} where
  -- The bandwidth of the model is the least of the measured one and the two bounds, and nothing of
  -- the estimates it comes from changes.
  pub bound_bw_for_model-min :
      (b : Sender F)
      → let b' = bound_bw_for_model b in
        (b'.bw ≡ min b.max_bw (min b.bw_lo b.bw_hi))
        × (b'.max_bw ≡ b.max_bw)
        × (b'.bw_lo ≡ b.bw_lo)
        × (b'.bw_hi ≡ b.bw_hi)
  unfolding bound_bw_for_model
  bound_bw_for_model-min b = ground arith

  -- For datagrams of at most 32768 bytes the send quantum is at least one datagram and at most 64
  -- KiB, at every pacing rate.
  pub set_send_quantum_bounds :
      (b : Sender F)
      → b.config.max_datagram_size ≤ 32768
      → let q = (set_send_quantum b).send_quantum in (b.config.max_datagram_size ≤ q) × (q ≤ 65536)
  unfolding set_send_quantum
  set_send_quantum_bounds b h = ground arith

  -- In recovery, Startup and ProbeRTT the report of a loss of one byte less than the congestion
  -- window takes a window above one byte down to one byte, whatever the least window is, and that
  -- stays as it was: the subtraction is not bounded by it.
  pub on_congestion_event_below_min :
      (mono : ℕ) (gain : F) (b : Sender F)
      → 1 < b.cwnd
      → b.in_recovery_mode || is_startup b.state || is_probe_rtt b.state ≡ true
      → let b' = on_congestion_event mono (b.cwnd - 1) b gain in
        (b'.cwnd ≡ 1) × (b'.config.min_cwnd ≡ b.config.min_cwnd)
  unfolding on_congestion_event enter_recovery start_round save_cwnd
  on_congestion_event_below_min mono gain b h s = ground arith

  -- The first loss outside Startup, ProbeRTT and recovery starts recovery and packet conservation
  -- now, in the same state, with a window of one datagram above the least window, less the lost
  -- bytes, or of the least window where that many are lost. The window to be restored is the
  -- larger of the current one and the one saved before, since recovery is already marked when the
  -- window is saved.
  pub on_congestion_event_enters_recovery :
      (mono k : ℕ) (gain : F) (b : Sender F)
      → b.in_recovery_mode || is_startup b.state || is_probe_rtt b.state ≡ false
      → let b' = on_congestion_event mono k b gain in
        let w = wrap64 (b.config.min_cwnd + b.config.max_datagram_size) in
        (b'.cwnd ≡ (if ltb k w then w - k else b.config.min_cwnd))
        × (b'.prior_cwnd ≡ max b.prior_cwnd b.cwnd)
        × (b'.in_recovery_mode ≡ true)
        × (b'.packet_conservation ≡ true)
        × (b'.recovery_epoch_start ≡ mono)
        × (b'.state ≡ b.state)
  unfolding on_congestion_event enter_recovery start_round save_cwnd
  on_congestion_event_enters_recovery mono k gain b s = ground arith

  -- The inflight bound of the state: both in the phases of ProbeBW that probe, else the lower one.
  abbrev pub inflight_cap : Sender F → ℕ
  inflight_cap b =
      if is_in_probe_bw b.state && not (is_cruise b.state)
      then min b.inflight_lo b.inflight_hi
      else b.inflight_lo

  -- The bounds of a window in the state of `b`.
  abbrev pub WindowWithin : Sender F → ℕ → Type 0
  WindowWithin b w = (b.config.min_cwnd ≤ w) × (w ≤ max (inflight_cap b) b.config.min_cwnd)

module _ {F : Type 0} (fl : Float F) where
  -- What the bounds of the window read.
  abbrev Kept : Sender F → Sender F → Type 0
  Kept b b' =
      (b'.state ≡ b.state)
      × (b'.config ≡ b.config)
      × (b'.packet_conservation ≡ b.packet_conservation)
      × (b'.inflight_lo ≡ b.inflight_lo)
      × (b'.inflight_hi ≡ b.inflight_hi)

  update_max_inflight-Kept : (b : Sender F) → Kept b (update_max_inflight fl b)
  unfolding update_max_inflight bdp quantization_budget get
  update_max_inflight-Kept b = ground arith

  modulate_cwnd_for_recovery-skips :
      (n : ℕ) (b : Sender F) → b.packet_conservation ≡ false → modulate_cwnd_for_recovery n b ≡ b
  unfolding modulate_cwnd_for_recovery
  modulate_cwnd_for_recovery-skips n b h = rw h

  raise_to_min_cwnd-Kept :
      (b : Sender F)
      → b.packet_conservation ≡ false
      → Kept b (raise_to_min_cwnd fl b) × (b.config.min_cwnd ≤ (raise_to_min_cwnd fl b).cwnd)
  unfolding raise_to_min_cwnd
  raise_to_min_cwnd-Kept b h = (ground arith, ground arith)

  bound_cwnd_for_probe_rtt-skips :
      (b : Sender F) → is_probe_rtt b.state ≡ false → bound_cwnd_for_probe_rtt fl b ≡ b
  unfolding bound_cwnd_for_probe_rtt
  bound_cwnd_for_probe_rtt-skips b h = rw h

  model_cap-within : (b : Sender F) → is_probe_rtt b.state ≡ false → WindowWithin b (model_cap fl b)
  unfolding model_cap
  model_cap-within b h = (ground arith, ground arith)

  bound_cwnd_for_model-within :
      (b : Sender F)
      → is_probe_rtt b.state ≡ false
      → b.config.min_cwnd ≤ b.cwnd
      → WindowWithin b (bound_cwnd_for_model fl b).cwnd
  unfolding bound_cwnd_for_model
  bound_cwnd_for_model-within b h m =
      let (p, q) = model_cap-within b h in (ground (arith, p), ground (arith, q))

  inflight_cap-Kept : (b b' : Sender F) → Kept b b' → inflight_cap b' ≡ inflight_cap b
  inflight_cap-Kept b b' (s, c, p, lo, hi) = rw (s, lo, hi)

  within-Kept : (b b' : Sender F) (w : ℕ) → Kept b b' → WindowWithin b' w → WindowWithin b w
  within-Kept b b' w k (p, q) =
      let m : b'.config.min_cwnd ≡ b.config.min_cwnd = ap (λ (c : Config F). c.min_cwnd) k.1 in
      (omega arith, omega (arith, inflight_cap-Kept b b' k))

  -- Outside ProbeRTT and packet conservation the new window is at least the least window and at
  -- most the inflight bound raised to the least window. The bound is the lower inflight bound, and
  -- in ProbeBW except Cruise the smaller of the lower and the upper one.
  pub set_cwnd_bounds :
      (n : ℕ) (b : Sender F)
      → is_probe_rtt b.state ≡ false
      → b.packet_conservation ≡ false
      → WindowWithin b (set_cwnd fl n b).cwnd
  unfolding set_cwnd
  set_cwnd_bounds n b active free =
      let b1 = update_max_inflight fl b in
      let k1 = update_max_inflight-Kept b in
      let b2 = raise_to_min_cwnd fl b1 in
      let (k2, low) = raise_to_min_cwnd-Kept b1 (k1.2 ∙ free) in
      let active2 : is_probe_rtt b2.state ≡ false = rw (k2.0, k1.0) active in
      let low2 : b2.config.min_cwnd ≤ b2.cwnd = rw k2.1 low in
      let w = (bound_cwnd_for_model fl b2).cwnd in
      rw
        (
          modulate_cwnd_for_recovery-skips n b1 (k1.2 ∙ free),
          bound_cwnd_for_probe_rtt-skips b2 active2,
        )
        (within-Kept b b1 w k1
          (within-Kept b1 b2 w k2 (bound_cwnd_for_model-within b2 active2 low2)))

  -- The state, and the window that ProbeRTT would allow.
  abbrev SameLimit : Sender F → Sender F → Type 0
  SameLimit b b' = (b'.state ≡ b.state) × ((probe_rtt_cwnd fl b').1 ≡ (probe_rtt_cwnd fl b).1)

  update_max_inflight-SameLimit : (b : Sender F) → SameLimit b (update_max_inflight fl b)
  unfolding update_max_inflight bdp quantization_budget get probe_rtt_cwnd
  update_max_inflight-SameLimit b = ground arith

  modulate_cwnd_for_recovery-SameLimit :
      (n : ℕ) (b : Sender F) → SameLimit b (modulate_cwnd_for_recovery n b)
  unfolding modulate_cwnd_for_recovery bdp probe_rtt_cwnd
  modulate_cwnd_for_recovery-SameLimit n b = ground arith

  raise_to_min_cwnd-SameLimit : (b : Sender F) → SameLimit b (raise_to_min_cwnd fl b)
  unfolding raise_to_min_cwnd bdp probe_rtt_cwnd
  raise_to_min_cwnd-SameLimit b = ground arith

  bound_cwnd_for_probe_rtt-le :
      (b : Sender F)
      → b.state ≡ probe_rtt
      → (bound_cwnd_for_probe_rtt fl b).cwnd ≤ (probe_rtt_cwnd fl b).1
  unfolding bound_cwnd_for_probe_rtt
  bound_cwnd_for_probe_rtt-le b s = rw s (ground arith)

  bound_cwnd_for_model-le : (b : Sender F) → (bound_cwnd_for_model fl b).cwnd ≤ b.cwnd
  unfolding bound_cwnd_for_model
  bound_cwnd_for_model-le b = ground arith

  -- In ProbeRTT the window is cut to ProbeRTT's own, and not raised again: where that is below the
  -- least window, so is the result.
  pub set_cwnd_below_min :
      (n : ℕ) (b : Sender F)
      → b.state ≡ probe_rtt
      → (probe_rtt_cwnd fl b).1 < b.config.min_cwnd
      → let b' = set_cwnd fl n b in
        (b'.cwnd < b.config.min_cwnd) × (b'.cwnd ≤ (probe_rtt_cwnd fl b).1)
  unfolding set_cwnd
  set_cwnd_below_min n b s low =
      let b1 = update_max_inflight fl b in
      let b2 = modulate_cwnd_for_recovery n b1 in
      let b3 = raise_to_min_cwnd fl b2 in
      let (p, p') = update_max_inflight-SameLimit b in
      let (q, q') = modulate_cwnd_for_recovery-SameLimit n b1 in
      let (r, r') = raise_to_min_cwnd-SameLimit b2 in
      let limit = bound_cwnd_for_probe_rtt-le b3 (r ∙ q ∙ p ∙ s) in
      let final = bound_cwnd_for_model-le (bound_cwnd_for_probe_rtt fl b3) in
      (omega arith, omega arith)
