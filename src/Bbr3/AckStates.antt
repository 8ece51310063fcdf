-- ===== src/Bbr3/AckStates.antt =====
-- bbrv3.go: the states that `OnPacketAcked` can reach, and the stamp of the last ProbeRTT, which it
-- never renews.
use moq_quic_bbrv3_go.Prelude.{
  ℕ, ◌≡◌, refl, ◌∙◌, ◌⊎◌, inl, inr, arith, true, false, ◌&&◌, ◌||◌, not, if◌then◌else◌, Bool-cases,
  Option-cases,
}
use moq_quic_bbrv3_go.Bbr3.Float.{Float}
use moq_quic_bbrv3_go.Bbr3.Filters.{get}
use moq_quic_bbrv3_go.Bbr3.State.{State, startup, probe_bw_cruise, probe_rtt, Sender}
use moq_quic_bbrv3_go.Bbr3.Signals.{
  is_startup, is_cruise, is_probe_rtt, start_round, update_round, bound_bw_for_model,
  start_probe_bw_down, start_probe_bw_cruise, update_min_rtt, save_cwnd, exit_recovery,
  update_max_bw_filter, modulate_cwnd_for_recovery,
}
use moq_quic_bbrv3_go.Bbr3.Estimate.{
  update_gains, enter_startup, enter_probe_rtt, bdp, quantization_budget, check_startup_done,
  check_drain, check_drain_acked, set_pacing_rate_with_gain, update_control_parameters,
  probe_rtt_cwnd, update_max_inflight, raise_to_min_cwnd, bound_cwnd_for_probe_rtt,
  bound_cwnd_for_model, set_cwnd,
}
use moq_quic_bbrv3_go.Bbr3.Cycle.{
  update_probe_bw_cycle_phase, exit_probe_rtt_from_above, handle_probe_rtt, try_enter_probe_rtt,
  check_probe_rtt, update_model_and_state,
}
use moq_quic_bbrv3_go.Bbr3.Events.{
  update_and_log_stats, record_rtt, record_delivery, maybe_exit_probe_rtt, update_bandwidth,
  force_probe_rtt, process_round, process_ack, register_ack, on_packet_acked,
}
use moq_quic_bbrv3_go.Bbr3.Transitions.{
  early, turn, follows, Same, By, update_min_rtt-Same, exit_recovery-Same, update_round-Same,
  update_max_bw_filter-Same, set_send_quantum-Same, modulate_cwnd_for_recovery-Same,
  check_startup_done-By, check_drain-By, check_drain_acked-By, update_probe_bw_cycle_phase-By,
}

early-early-turn :
    (s t u v : State)
    → early s t ≡ true
    → early t u ≡ true
    → turn u v ≡ true
    → follows s v && not (is_probe_rtt v && not (is_probe_rtt s)) ≡ true
early-early-turn startup t u v p q r = ground arith
early-early-turn _ t u v p q r = ground arith

-- A state, or ProbeRTT in its place.
abbrev OrProbeRtt : State → State → Type 0
OrProbeRtt s t = (t ≡ s) ⊎ (t ≡ probe_rtt)

follows-early : (s t u : State) → follows s t ≡ true → early t u ≡ true → follows s u ≡ true
follows-early startup t u p q = ground arith
follows-early _ t u p q = ground arith

follows-or :
    (s t u : State)
    → is_probe_rtt s ≡ false
    → follows s t ≡ true
    → OrProbeRtt t u
    → follows s u ≡ true
follows-or startup t u a p (inl e) = ground arith
follows-or startup t u a p (inr e) = ground arith
follows-or _ t u a p (inl e) = rw e p
follows-or _ t u a p (inr e) = ground arith

follows_refl : (s : State) → follows s s ≡ true
follows_refl startup = refl
follows_refl _ = refl

follows-move : (s s' t t' : State) → s' ≡ s → t' ≡ t → follows s' t ≡ true → follows s t' ≡ true
follows-move s s' t t' e e' h = rw (← e, e') h

-- What the check for the end of ProbeRTT can do.
abbrev Exits : State → State → Type 0
Exits s t = (t ≡ s) ⊎ (is_probe_rtt s && (is_cruise t || is_startup t) ≡ true)

-- One acknowledgement, from any state.
abbrev pub AckMoves : State → State → Type 0
AckMoves s t =
    (follows s t ≡ true)
    ⊎ (is_probe_rtt s && (follows probe_bw_cruise t || follows startup t) ≡ true)

idle-AckMoves : (s t : State) → Exits s t → is_probe_rtt t ≡ true → AckMoves s t
idle-AckMoves s t (inl e) h = inl (rw (← e) (follows_refl t))
idle-AckMoves s startup (inr e) h = ground arith
idle-AckMoves s _ (inr e) h = ground arith

active-AckMoves :
    (s t u : State) → Exits s t → is_probe_rtt t ≡ false → follows t u ≡ true → AckMoves s u
active-AckMoves s t u (inl e) h f = inl (rw (← e) f)
active-AckMoves s startup u (inr e) h f = ground arith
active-AckMoves s probe_bw_cruise u (inr e) h f = ground arith
active-AckMoves s _ u (inr e) h f = ground arith

module _ {F : Type 0} (fl : Float F) where
  check_probe_rtt-OrProbeRtt :
      (now n : ℕ) (b : Sender F)
      → is_probe_rtt b.state ≡ false
      → OrProbeRtt b.state (check_probe_rtt fl now n b).state
        × ((check_probe_rtt fl now n b).probe_rtt_min_stamp ≡ b.probe_rtt_min_stamp)
  unfolding check_probe_rtt try_enter_probe_rtt handle_probe_rtt probe_rtt_cwnd bdp enter_probe_rtt
      save_cwnd start_round
  check_probe_rtt-OrProbeRtt now n b active = (ground arith, ground arith)

  update_model_and_state-By :
      (mono now n : ℕ) (b : Sender F)
      → is_probe_rtt b.state ≡ false
      → By follows b (update_model_and_state fl mono now n b)
  unfolding update_model_and_state bound_bw_for_model
  update_model_and_state-By mono now n b active =
      let b1 : Sender F = record b { loss_round_start = false; extra_acked = 0 } in
      let b2 = check_startup_done fl b1 in
      let b3 = check_drain fl mono n b2 in
      let b4 = update_probe_bw_cycle_phase fl now n b3 in
      let b5 = update_min_rtt now b4 in
      let (p, p') = check_startup_done-By fl b1 in
      let (q, q') = check_drain-By fl mono n b2 in
      let (r, r') = update_probe_bw_cycle_phase-By fl now n b3 in
      let (s, s') = update_min_rtt-Same now b4 in
      let t = early-early-turn b.state b2.state b3.state b4.state p q r in
      let follow : follows b.state b4.state ≡ true = ground (arith, t) in
      let still : is_probe_rtt b4.state ≡ false = ground (arith, t) in
      let still5 : is_probe_rtt b5.state ≡ false = rw s still in
      let (u, u') = check_probe_rtt-OrProbeRtt now n b5 still5 in
      (follows-or b.state b5.state _ active (rw s follow) u, u' ∙ s' ∙ r' ∙ q' ∙ p')

  update_max_inflight-Same : (b : Sender F) → Same b (update_max_inflight fl b)
  unfolding update_max_inflight bdp quantization_budget get
  update_max_inflight-Same b = ground arith

  raise_to_min_cwnd-Same : (b : Sender F) → Same b (raise_to_min_cwnd fl b)
  unfolding raise_to_min_cwnd
  raise_to_min_cwnd-Same b = ground arith

  bound_cwnd_for_probe_rtt-Same : (b : Sender F) → Same b (bound_cwnd_for_probe_rtt fl b)
  unfolding bound_cwnd_for_probe_rtt probe_rtt_cwnd bdp
  bound_cwnd_for_probe_rtt-Same b = ground arith

  bound_cwnd_for_model-Same : (b : Sender F) → Same b (bound_cwnd_for_model fl b)
  unfolding bound_cwnd_for_model
  bound_cwnd_for_model-Same b = ground arith

  set_cwnd-Same : (n : ℕ) (b : Sender F) → Same b (set_cwnd fl n b)
  unfolding set_cwnd
  set_cwnd-Same n b =
      let b1 = update_max_inflight fl b in
      let b2 = modulate_cwnd_for_recovery n b1 in
      let b3 = raise_to_min_cwnd fl b2 in
      let b4 = bound_cwnd_for_probe_rtt fl b3 in
      let (p, p') = update_max_inflight-Same b in
      let (q, q') = modulate_cwnd_for_recovery-Same n b1 in
      let (r, r') = raise_to_min_cwnd-Same b2 in
      let (s, s') = bound_cwnd_for_probe_rtt-Same b3 in
      let (t, t') = bound_cwnd_for_model-Same b4 in (t ∙ s ∙ r ∙ q ∙ p, t' ∙ s' ∙ r' ∙ q' ∙ p')

  update_control_parameters-Same : (b : Sender F) → Same b (update_control_parameters fl b)
  unfolding update_control_parameters set_pacing_rate_with_gain
  update_control_parameters-Same b =
      ground (arith, set_send_quantum-Same (set_pacing_rate_with_gain fl b.pacing_gain b))

  force_probe_rtt-OrProbeRtt :
      (now : ℕ) (b : Sender F)
      → OrProbeRtt b.state (force_probe_rtt fl now b).state
        × ((force_probe_rtt fl now b).probe_rtt_min_stamp ≡ b.probe_rtt_min_stamp)
  unfolding force_probe_rtt
  force_probe_rtt-OrProbeRtt now b = (ground arith, ground arith)

  process_round-By :
      (mono now n : ℕ) (b : Sender F)
      → is_probe_rtt b.state ≡ false
      → By follows b (process_round fl mono now n b)
  unfolding process_round update_gains
  process_round-By mono now n b active =
      let b1 = if b.in_recovery_mode then exit_recovery b else b in
      let b2 = update_gains fl (update_model_and_state fl mono now n b1) in
      let b3 = set_cwnd fl n (update_control_parameters fl b2) in
      let b4 = check_startup_done fl b3 in
      let b5 = check_drain_acked fl mono n b4 in
      let b6 = update_max_bw_filter b5 in
      let entered : Same b b1 = ground (arith, exit_recovery-Same b) in
      let (o, o') = entered in
      let (p, p') = update_model_and_state-By mono now n b1 (rw o active) in
      let (c, c') = update_control_parameters-Same b2 in
      let (w, w') = set_cwnd-Same n (update_control_parameters fl b2) in
      let q : b3.state ≡ b2.state = w ∙ c in
      let (r, r') = check_startup_done-By fl b3 in
      let (s, s') = check_drain_acked-By fl mono n b4 in
      let (t, t') = update_max_bw_filter-Same b5 in
      let (u, u') = force_probe_rtt-OrProbeRtt now b6 in
      let f3 : follows b.state b3.state ≡ true = follows-move _ _ _ _ o q p in
      let f4 = follows-early b.state b3.state b4.state f3 r in
      let f5 = follows-early b.state b4.state b5.state f4 s in
      (follows-or b.state b6.state _ active (rw t f5) u, u' ∙ t' ∙ s' ∙ r' ∙ w' ∙ c' ∙ p' ∙ o')

  update_bandwidth-Same : (now : ℕ) (b : Sender F) → Same b (update_bandwidth fl now b)
  unfolding update_bandwidth
  update_bandwidth-Same now b = ground arith

  process_ack-By :
      (mono now n : ℕ) (b : Sender F)
      → is_probe_rtt b.state ≡ false
      → By follows b (process_ack fl mono now n b)
  unfolding process_ack
  process_ack-By mono now n b active =
      let b1 = update_round b in
      let b2 = update_bandwidth fl now b1 in
      let (p, p') = update_round-Same b in
      let (q, q') = update_bandwidth-Same now b1 in
      let e : b2.state ≡ b.state = q ∙ p in
      let (r, r') = process_round-By mono now n b2 (rw e active) in
      let moved = follows-move _ _ _ _ e refl r in
      let stays = follows-move _ _ _ _ refl e (follows_refl b.state) in ground (arith, moved, stays)

  register_ack-cases :
      (sent number k now : ℕ) (b : Sender F)
      → let b' = register_ack fl sent number k now b in
        ((b'.state ≡ b.state)
          ⊎ (is_probe_rtt b.state && (is_cruise b'.state || is_startup b'.state) ≡ true))
        × (b'.probe_rtt_min_stamp ≡ b.probe_rtt_min_stamp)
  unfolding register_ack maybe_exit_probe_rtt exit_probe_rtt_from_above record_delivery record_rtt
      start_probe_bw_down start_probe_bw_cruise enter_startup
  register_ack-cases sent number k now b = (ground arith, ground arith)

  -- One acknowledgement keeps the state or moves it along the edges of `follows`: Startup to
  -- Drain, ProbeBW-Down, -Cruise or -Refill; Drain to ProbeBW-Down, -Cruise or -Refill; Down to
  -- Cruise or Refill; Cruise to Refill; Refill to Up; Up to Down; and any of them to ProbeRTT. It
  -- leaves ProbeRTT only for Startup or Cruise, or for what follows these. The stamp of the last
  -- ProbeRTT is not renewed, on any branch.
  pub on_packet_acked_transitions :
      (mono wall number k n now : ℕ) (b : Sender F)
      → let b' = on_packet_acked fl mono wall number k n now b in
        AckMoves b.state b'.state × (b'.probe_rtt_min_stamp ≡ b.probe_rtt_min_stamp)
  unfolding on_packet_acked update_and_log_stats
  on_packet_acked_transitions mono wall number k n now b =
      elim (Option-cases (b.sent_times number)) [
        | inl e ↦ rw (e, on_packet_acked) (inl (follows_refl b.state), refl)
        | inr (sent, e) ↦ rw (e, on_packet_acked) (tracked sent)
      ]
    where
      tracked :
          (sent : ℕ)
          → let b1 = register_ack fl sent number k now b in
            let b2 = if is_probe_rtt b1.state then b1 else process_ack fl mono now n b1 in
            AckMoves b.state b2.state × (b2.probe_rtt_min_stamp ≡ b.probe_rtt_min_stamp)
      tracked sent =
          let b1 = register_ack fl sent number k now b in
          let (p, p') = register_ack-cases sent number k now b in
          elim (Bool-cases (is_probe_rtt b1.state)) [
            | inl idle ↦ rw idle (idle-AckMoves b.state b1.state p idle, p')
            | inr active ↦
                let (q, q') = process_ack-By mono now n b1 active in
                rw active (active-AckMoves b.state b1.state _ p active q, q' ∙ p')
          ]
