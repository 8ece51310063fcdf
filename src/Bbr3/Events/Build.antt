-- ===== src/Bbr3/Events/Build.antt =====
-- bbrv3.go: `NewBBRv3Sender`, its configuration, `init`, and the rebuild by `OnRetransmissionTimeout`.
use moq_quic_bbrv3_go.Prelude.{ℕ, ◌*◌, Bool, false, ◌==◌, if◌then◌else◌, [], none, wrap64, max_u64}
use moq_quic_bbrv3_go.Bbr3.Float.{Float}
use moq_quic_bbrv3_go.Bbr3.Filters.{new_simple_max_filter, new_min_max_filter}
use moq_quic_bbrv3_go.Bbr3.State.{startup, phase_init, Config, Sender}
use moq_quic_bbrv3_go.Bbr3.Signals.{
  init_round_counting, init_full_pipe, reset_congestion_signals, reset_lower_bounds,
}
use moq_quic_bbrv3_go.Bbr3.Estimate.{enter_startup, init_pacing_rate}
use moq_quic_bbrv3_go.Bbr3.Events.Calls.{ten_seconds}

module _ {F : Type 0} (fl : Float F) where
  open fl use {of_u64, to_u64, lit, mul, div, seconds}

  unfoldable pub new_config : ℕ → Config F
  new_config size = record {
    min_cwnd = wrap64 (4 * size);
    initial_cwnd = wrap64 (10 * size);
    initial_rtt = 100_000_000;
    max_datagram_size = size;
    full_bw_count_threshold = 3;
    full_bw_growth_rate = lit 25 100;
    probe_rtt_duration = 200_000_000;
    probe_rtt_interval = 5_000_000_000;
    loss_threshold = lit 2 100;
    full_loss_count = 6;
    beta = lit 7 10;
    headroom = lit 85 100;
  }

  unfoldable pub init_sender : ℕ → Sender F → Sender F
  unfolding reset_congestion_signals reset_lower_bounds init_round_counting init_full_pipe
      init_pacing_rate enter_startup
  init_sender mono b =
      let b1 = record b {
        min_rtt = if b.config.initial_rtt == 0 then 1_000 else b.config.initial_rtt;
        min_rtt_stamp = mono;
        probe_rtt_done_stamp = 0;
        probe_rtt_round_done = false;
        prior_cwnd = 0;
        idle_restart = false;
        extra_acked_interval_start = mono;
        extra_acked_delivered = 0;
        ack_phase = phase_init;
        bw_hi = max_u64;
        inflight_hi = max_u64;
      } in
      let b2 = init_round_counting (reset_lower_bounds (reset_congestion_signals b1)) in
      enter_startup fl (init_pacing_rate fl (init_full_pipe b2))

  -- The literal of `NewBBRv3Sender`; a field that it leaves out is Go's zero value.
  unfoldable pub blank_sender : ℕ → ℕ → Sender F
  blank_sender mono initial_max_datagram_size =
      let size : ℕ = if initial_max_datagram_size == 0 then 1200 else initial_max_datagram_size in
      let config = new_config size in
      record {
        config = config;
        state = startup;
        pacing_rate = 0;
        pacing_gain = lit 277 100;
        send_quantum = 0;
        cwnd = config.initial_cwnd;
        cwnd_gain = lit 2 1;
        packet_conservation = false;
        prior_cwnd = 0;
        round = record { round_count = 0; is_round_start = false; next_round_delivered = 0 };
        idle_restart = false;
        max_bw = 0;
        bw_hi = max_u64;
        bw_lo = 0;
        bw = 0;
        min_rtt = ten_seconds;
        min_rtt_stamp = mono;
        probe_rtt_min_delay = ten_seconds;
        probe_rtt_min_stamp = mono;
        probe_rtt_expired = false;
        bdp_val = 0;
        extra_acked = 0;
        offload_budget = 0;
        max_inflight = 0;
        inflight_hi = max_u64;
        inflight_lo = 0;
        bw_latest = 0;
        inflight_latest = 0;
        max_bw_filter = new_simple_max_filter;
        extra_acked_filter = new_min_max_filter 10;
        cycle_count = 0;
        cycle_stamp = mono;
        ack_phase = phase_init;
        extra_acked_interval_start = mono;
        extra_acked_delivered = 0;
        full_pipe = record { is_filled_pipe = false; full_bw = 0; full_bw_count = 0 };
        probe_rtt_done_stamp = mono;
        probe_rtt_round_done = false;
        rounds_since_bw_probe = 0;
        bw_probe_wait = 1_000_000_000;
        bw_probe_up_cnt = max_u64;
        bw_probe_up_acks = 0;
        bw_probe_up_rounds = 0;
        bw_probe_samples = false;
        loss_round_start = false;
        loss_in_round = false;
        in_recovery_mode = false;
        loss_round_delivered = 0;
        loss_events_in_round = 0;
        recovery_epoch_start = mono;
        sent_times = λ _. none;
        delivered = 0;
        ackinfo = [];
        max_datagram_size = initial_max_datagram_size;
        next_send_time = 0;
        last_new_min_rtt = ten_seconds;
        last_new_min_rtt_time = mono;
        stats = none;
        total_bytes_sent = 0;
        total_bytes_lost = 0;
        retransmit_count = 0;
      }

  -- `mono` is the constructor's reading of the clock, `mono'` that of `init`.
  unfoldable pub new_sender : ℕ → ℕ → ℕ → Sender F
  unfolding blank_sender init_sender new_config
  new_sender mono mono' size = init_sender mono' (blank_sender mono size)

  unfoldable pub on_retransmission_timeout : ℕ → ℕ → Bool → Sender F → Sender F
  on_retransmission_timeout mono mono' packets_retransmitted b =
      if packets_retransmitted
      then record (new_sender mono mono' b.max_datagram_size) {
        config = b.config;
        max_datagram_size = b.max_datagram_size;
      }
      else b
