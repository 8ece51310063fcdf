-- ===== src/Bbr3/Estimate.antt =====
-- quic-go-bbr/internal/congestion/bbrv3.go: the bandwidth-delay product, the gains, pacing, and the
-- congestion window. `bdp` and `quantizationBudget` write a field of the sender, so they return the
-- new sender with their result, and so does each test that calls them.
use Prim.Native.Nat.{min, max}
use moq_quic_bbrv3_go.Prelude.{
  ℕ, ◌+◌, ◌-◌, ◌*◌, Bool, false, ◌&&◌, ◌||◌, not, ltb, leb, ◌==◌, if◌then◌else◌, wrap64, max_u64,
}
use moq_quic_bbrv3_go.Bbr3.Float.{Float}
use moq_quic_bbrv3_go.Bbr3.Filters.{get}
use moq_quic_bbrv3_go.Bbr3.State.{
  State, startup, drain, probe_bw_down, probe_bw_cruise, probe_bw_refill, probe_bw_up, probe_rtt,
  Sender,
}
use moq_quic_bbrv3_go.Bbr3.Signals.{
  is_startup, is_drain, is_cruise, is_up, is_probe_rtt, is_in_probe_bw_state, is_filled_pipe,
  modulate_cwnd_for_recovery, start_probe_bw_down, set_send_quantum,
}

module _ {F : Type 0} (fl : Float F) where
  open fl use {of_u64, to_u64, lit, mul, div, add, sub, seconds}

  -- The two tables of `updateGains`.
  unfoldable pub pacing_gain_of : State → F
  pacing_gain_of startup = lit 277 100
  pacing_gain_of drain = lit 5 10
  pacing_gain_of probe_bw_down = lit 9 10
  pacing_gain_of probe_bw_cruise = lit 1 1
  pacing_gain_of probe_bw_refill = lit 1 1
  pacing_gain_of probe_bw_up = lit 125 100
  pacing_gain_of probe_rtt = lit 1 1

  unfoldable pub cwnd_gain_of : State → F
  cwnd_gain_of startup = lit 2 1
  cwnd_gain_of drain = lit 2 1
  cwnd_gain_of probe_bw_down = lit 2 1
  cwnd_gain_of probe_bw_cruise = lit 2 1
  cwnd_gain_of probe_bw_refill = lit 2 1
  cwnd_gain_of probe_bw_up = lit 225 100
  cwnd_gain_of probe_rtt = lit 5 10

  unfoldable pub update_gains : Sender F → Sender F
  update_gains b = record b {
    pacing_gain = pacing_gain_of b.state;
    cwnd_gain = cwnd_gain_of b.state;
  }

  unfoldable pub enter_startup : Sender F → Sender F
  unfolding update_gains
  enter_startup b = update_gains (record b { state = startup })

  unfoldable pub enter_drain : Sender F → Sender F
  unfolding update_gains
  enter_drain b = update_gains (record b { state = drain })

  unfoldable pub enter_probe_rtt : Sender F → Sender F
  unfolding update_gains
  enter_probe_rtt b = update_gains (record b { state = probe_rtt })

  -- `mono` is what `monotime.Now()` reads.
  unfoldable pub enter_probe_bw : ℕ → Sender F → Sender F
  unfolding start_probe_bw_down
  enter_probe_bw mono b = start_probe_bw_down mono b

  unfoldable pub init_pacing_rate : Sender F → Sender F
  init_pacing_rate b =
      let nominal = div (of_u64 b.config.initial_cwnd) (seconds b.config.initial_rtt) in
      let rate = to_u64 (mul (lit 277 100) nominal) in
      record b { pacing_rate = rate; bw = rate; max_bw = rate }

  unfoldable pub loss_lower_bounds : Sender F → Sender F
  loss_lower_bounds b = record b {
    bw_lo =
        if ltb b.bw_lo b.bw_latest
        then b.bw_latest
        else to_u64 (mul (of_u64 b.bw_lo) b.config.beta);
    inflight_lo =
        if ltb b.inflight_lo b.inflight_latest
        then b.inflight_latest
        else to_u64 (mul (of_u64 b.inflight_lo) b.config.beta);
  }

  unfoldable pub bdp : ℕ → F → Sender F → Sender F × ℕ
  bdp bw gain b =
      if b.min_rtt == 0
      then (b, b.config.initial_cwnd)
      else (let product = mul (of_u64 bw) (seconds b.min_rtt) in
          (record b { bdp_val = to_u64 product }, to_u64 (mul gain product)))

  unfoldable pub quantization_budget : ℕ → Sender F → Sender F × ℕ
  quantization_budget inflight b =
      let b1 = record b { offload_budget = wrap64 (3 * b.send_quantum) } in
      let raised = max (max inflight b1.offload_budget) b.config.min_cwnd in
      (
        b1,
        if is_up b.state then wrap64 (raised + wrap64 (2 * b.config.max_datagram_size)) else raised,
      )

  unfoldable pub inflight : F → Sender F → Sender F × ℕ
  inflight gain b = let (b1, n) = bdp b.max_bw gain b in quantization_budget n b1

  unfoldable pub inflight_with_headroom : Sender F → ℕ
  inflight_with_headroom b =
      let scaled = to_u64 (mul (of_u64 b.inflight_hi) b.config.headroom) in
      let headroom = if ltb scaled 1 then 1 else scaled in
      if b.inflight_hi == max_u64
      then max_u64
      else if ltb headroom b.inflight_hi
      then max (b.inflight_hi - headroom) b.config.min_cwnd
      else b.config.min_cwnd

  unfoldable pub check_startup_full_bandwidth : Sender F → Sender F
  check_startup_full_bandwidth b =
      let target =
        to_u64 (mul (of_u64 b.full_pipe.full_bw) (add (lit 1 1) b.config.full_bw_growth_rate)) in
      if is_filled_pipe b || not b.round.is_round_start
      then b
      else if leb target b.max_bw
      then record b { full_pipe = record b.full_pipe { full_bw = b.max_bw; full_bw_count = 0 } }
      else (let count = wrap64 (b.full_pipe.full_bw_count + 1) in
          record b {
            full_pipe = record b.full_pipe {
              full_bw_count = count;
              is_filled_pipe = leb b.config.full_bw_count_threshold count;
            };
          })

  -- `checkStartupHighLoss` is empty in the source.
  unfoldable pub check_startup_done : Sender F → Sender F
  check_startup_done b =
      let b1 = check_startup_full_bandwidth b in
      if is_startup b1.state && is_filled_pipe b1 then enter_drain b1 else b1

  unfoldable pub check_drain : ℕ → ℕ → Sender F → Sender F
  check_drain mono bytes_in_flight b =
      let (b1, room) = inflight (lit 1 1) b in
      if is_drain b.state
      then if leb bytes_in_flight room then enter_probe_bw mono b1 else b1
      else b

  -- The test that `OnPacketAcked` repeats with `<`. `ByteCount` is signed: a result from 2 ^ 63 on
  -- turns negative, and the test fails.
  unfoldable pub check_drain_acked : ℕ → ℕ → Sender F → Sender F
  check_drain_acked mono prior_in_flight b =
      let (b1, room) = inflight (lit 1 1) b in
      if is_drain b.state
      then if ltb room 9_223_372_036_854_775_808 && ltb prior_in_flight room
        then enter_probe_bw mono b1
        else b1
      else b

  unfoldable pub check_time_to_cruise : ℕ → Sender F → Sender F × Bool
  check_time_to_cruise bytes_in_flight b =
      let (b1, room) = inflight (lit 1 1) b in
      if ltb (inflight_with_headroom b) bytes_in_flight
      then (b, false)
      else (b1, leb bytes_in_flight room)

  unfoldable pub set_pacing_rate_with_gain : F → Sender F → Sender F
  set_pacing_rate_with_gain gain b =
      let rate = to_u64 (mul (mul gain (of_u64 b.bw)) (sub (lit 1 1) (lit 1 100))) in
      if is_filled_pipe b || ltb b.pacing_rate rate then record b { pacing_rate = rate } else b

  unfoldable pub update_control_parameters : Sender F → Sender F
  update_control_parameters b = set_send_quantum (set_pacing_rate_with_gain b.pacing_gain b)

  unfoldable pub probe_rtt_cwnd : Sender F → Sender F × ℕ
  probe_rtt_cwnd b = bdp b.bw b.cwnd_gain b

  -- `extraAckedFilter.get()` stores the maximum that it returns.
  unfoldable pub update_max_inflight : Sender F → Sender F
  update_max_inflight b =
      let (b1, n) = bdp b.max_bw b.cwnd_gain b in
      let (filter, extra) = get b1.extra_acked_filter in
      let (b2, total) =
        quantization_budget (wrap64 (n + extra)) (record b1 { extra_acked_filter = filter }) in
      record b2 { max_inflight = total }

  -- The branches of `setCwnd` that should add the acknowledged bytes hold comments only.
  unfoldable pub raise_to_min_cwnd : Sender F → Sender F
  raise_to_min_cwnd b =
      if not b.packet_conservation && ltb b.cwnd b.config.min_cwnd
      then record b { cwnd = b.config.min_cwnd }
      else b

  unfoldable pub bound_cwnd_for_probe_rtt : Sender F → Sender F
  bound_cwnd_for_probe_rtt b =
      let (b1, limit) = probe_rtt_cwnd b in
      if is_probe_rtt b.state
      then if ltb limit b1.cwnd then record b1 { cwnd = limit } else b1
      else b

  unfoldable pub model_cap : Sender F → ℕ
  model_cap b =
      let first =
        if is_in_probe_bw_state b && not (is_cruise b.state)
        then min max_u64 b.inflight_hi
        else if is_probe_rtt b.state || is_cruise b.state
        then min max_u64 (inflight_with_headroom b)
        else max_u64 in
      max (min first b.inflight_lo) b.config.min_cwnd

  unfoldable pub bound_cwnd_for_model : Sender F → Sender F
  bound_cwnd_for_model b = if ltb (model_cap b) b.cwnd then record b { cwnd = model_cap b } else b

  unfoldable pub set_cwnd : ℕ → Sender F → Sender F
  set_cwnd bytes_in_flight b = bound_cwnd_for_model (
      bound_cwnd_for_probe_rtt
        (raise_to_min_cwnd (modulate_cwnd_for_recovery bytes_in_flight (update_max_inflight b))))
