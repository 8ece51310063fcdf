-- ===== src/Bbr3/Signals/Counting.antt =====
-- bbrv3.go: tests of the state, round counting, congestion signals and the lower bounds.
use moq_quic_bbrv3_go.Prelude.{
  ℕ, ◌+◌, Bool, true, false, ltb, leb, ◌==◌, if◌then◌else◌, List, [], ◌∷◌, wrap64, max_u64,
}
use moq_quic_bbrv3_go.Bbr3.State.{
  State, startup, drain, probe_bw_down, probe_bw_cruise, probe_bw_refill, probe_bw_up, probe_rtt,
  AckProbePhase, phase_stopping, phase_starting, AckInfo, Sender,
}

abbrev pub is_startup : State → Bool
is_startup startup = true
is_startup _ = false

abbrev pub is_drain : State → Bool
is_drain drain = true
is_drain _ = false

abbrev pub is_cruise : State → Bool
is_cruise probe_bw_cruise = true
is_cruise _ = false

abbrev pub is_up : State → Bool
is_up probe_bw_up = true
is_up _ = false

abbrev pub is_probe_rtt : State → Bool
is_probe_rtt probe_rtt = true
is_probe_rtt _ = false

abbrev pub is_in_probe_bw : State → Bool
is_in_probe_bw probe_bw_down = true
is_in_probe_bw probe_bw_cruise = true
is_in_probe_bw probe_bw_refill = true
is_in_probe_bw probe_bw_up = true
is_in_probe_bw _ = false

abbrev pub is_starting : AckProbePhase → Bool
is_starting phase_starting = true
is_starting _ = false

abbrev pub is_stopping : AckProbePhase → Bool
is_stopping phase_stopping = true
is_stopping _ = false

-- The loop of `updateRound` over `ackinfo`.
abbrev pub max_delivered : ℕ → List AckInfo → ℕ
max_delivered acc [] = acc
max_delivered acc (info ∷ infos) =
    max_delivered (if ltb acc info.delivered then info.delivered else acc) infos

module _ {F : Type 0} where
  unfoldable pub init_round_counting : Sender F → Sender F
  init_round_counting b = record b {
    round = record { round_count = 0; is_round_start = false; next_round_delivered = b.delivered };
  }

  unfoldable pub start_round : Sender F → Sender F
  start_round b = record b { round = record b.round { next_round_delivered = b.delivered } }

  unfoldable pub update_round : Sender F → Sender F
  update_round b =
      if leb b.round.next_round_delivered (max_delivered 0 b.ackinfo)
      then record b {
        round = record {
          round_count = wrap64 (b.round.round_count + 1);
          is_round_start = true;
          next_round_delivered = b.delivered;
        };
        rounds_since_bw_probe = wrap64 (b.rounds_since_bw_probe + 1);
        packet_conservation = false;
      }
      else record b { round = record b.round { is_round_start = false } }

  unfoldable pub init_full_pipe : Sender F → Sender F
  init_full_pipe b = record b {
    full_pipe = record { is_filled_pipe = false; full_bw = 0; full_bw_count = 0 };
  }

  unfoldable pub reset_congestion_signals : Sender F → Sender F
  reset_congestion_signals b = record b {
    loss_in_round = false;
    bw_latest = 0;
    inflight_latest = 0;
  }

  unfoldable pub reset_lower_bounds : Sender F → Sender F
  reset_lower_bounds b = record b { bw_lo = max_u64; inflight_lo = max_u64 }

  unfoldable pub init_lower_bounds : Sender F → Sender F
  init_lower_bounds b = record b {
    bw_lo = if b.bw_lo == max_u64 then b.max_bw else b.bw_lo;
    inflight_lo = if b.inflight_lo == max_u64 then b.cwnd else b.inflight_lo;
  }

  -- The three assignments of `boundBwForModel`, the later ones on the value of the earlier.
  unfoldable pub bound_bw_for_model : Sender F → Sender F
  bound_bw_for_model b =
      let low = if ltb b.bw_lo b.max_bw then b.bw_lo else b.max_bw in
      record b { bw = if ltb b.bw_hi low then b.bw_hi else low }

  unfoldable pub target_inflight : Sender F → ℕ
  target_inflight b = if ltb b.bdp_val b.cwnd then b.bdp_val else b.cwnd

  abbrev pub is_filled_pipe : Sender F → Bool
  is_filled_pipe b = b.full_pipe.is_filled_pipe

  abbrev pub is_in_probe_bw_state : Sender F → Bool
  is_in_probe_bw_state b = is_in_probe_bw b.state
