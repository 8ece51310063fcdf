-- ===== src/Bbr3/Events/Calls.antt =====
-- bbrv3.go: the calls that need no float arithmetic: statistics, loss reports, datagram sizes, and
-- the bookkeeping of an acknowledgement.
use Prim.Native.String.{String}
use moq_quic_bbrv3_go.Prelude.{
  ℕ, ◌+◌, ◌-◌, ◌*◌, Bool, true, false, ◌&&◌, ◌||◌, not, ltb, ◌==◌, if◌then◌else◌, List, [], ◌∷◌,
  ◌++◌, Option, none, some, length, drop, wrap64,
}
use moq_quic_bbrv3_go.Bbr3.Stats
use moq_quic_bbrv3_go.Bbr3.Stats.{StatsConfig}
use moq_quic_bbrv3_go.Bbr3.State.{
  State, startup, drain, probe_bw_down, probe_bw_cruise, probe_bw_refill, probe_bw_up, probe_rtt,
  AckInfo, Sender,
}
use moq_quic_bbrv3_go.Bbr3.Signals.{is_startup, is_probe_rtt, enter_recovery}

abbrev pub ten_seconds : ℕ
ten_seconds = 10_000_000_000

-- The strings of `updateAndLogStats`.
unfoldable pub state_name : State → String
state_name startup = "Startup"
state_name drain = "Drain"
state_name probe_bw_down = "ProbeBW-Down"
state_name probe_bw_cruise = "ProbeBW-Cruise"
state_name probe_bw_refill = "ProbeBW-Refill"
state_name probe_bw_up = "ProbeBW-Up"
state_name probe_rtt = "ProbeRTT"

-- The sum of `ackedBytes` in `calculateDeliveryRate`.
abbrev pub total_acked : List AckInfo → ℕ
total_acked [] = 0
total_acked (info ∷ infos) = info.acked_bytes + total_acked infos

-- `if len(ackinfo) > 16 { ackinfo = ackinfo[len(ackinfo)-16:] }`
unfoldable pub last_16 : List AckInfo → List AckInfo
last_16 infos = if ltb 16 (length infos) then drop (length infos - 16) infos else infos

-- A call through the pointer `stats`, where it is not nil.
abbrev pub with_stats : (Stats.Stats → Stats.Stats) → Option Stats.Stats → Option Stats.Stats
with_stats f none = none
with_stats f (some s) = some (f s)

module _ {F : Type 0} where
  unfoldable pub enable_stats : StatsConfig → ℕ → Sender F → Sender F
  enable_stats config wall b = record b { stats = some (Stats.new_stats config wall) }

  unfoldable pub disable_stats : Sender F → Sender F
  disable_stats b = record b { stats = with_stats (Stats.set_enabled false) b.stats }

  unfoldable pub update_and_log_stats : ℕ → Sender F → Sender F
  update_and_log_stats wall b = record b {
    stats =
        with_stats
          (λ s0.
            let s1 = Stats.update_ssthresh b.config.min_cwnd (Stats.update_cwnd b.cwnd s0) in
            let s2 = Stats.update_transmission_rate b.pacing_rate s1 in
            let s3 = Stats.update_state (state_name b.state) s2 in
            let s4 = Stats.update_pacing_rate b.pacing_rate s3 in
            let s5 = Stats.update_max_bandwidth b.max_bw (Stats.update_bandwidth b.bw s4) in
            if Stats.should_log wall s5 then Stats.log wall s5 else s5)
          b.stats;
  }

  -- A round-trip time that is not positive is 0 here, and changes nothing.
  unfoldable pub record_rtt : ℕ → ℕ → Sender F → Sender F
  record_rtt rtt now b =
      let b1 = record b { stats = with_stats (Stats.update_rtt rtt) b.stats } in
      if ltb 0 rtt && (b.last_new_min_rtt == 0 || ltb rtt b.last_new_min_rtt)
      then record b1 {
        last_new_min_rtt = rtt;
        last_new_min_rtt_time = now;
        min_rtt = rtt;
        min_rtt_stamp = now;
      }
      else b1

  unfoldable pub record_delivery : ℕ → ℕ → Sender F → Sender F
  record_delivery acked_bytes now b =
      let total = wrap64 (b.delivered + acked_bytes) in
      record b {
        delivered = total;
        ackinfo = last_16 (
            b.ackinfo
            ++ (record { acked_bytes = acked_bytes; record_time = now; delivered = total } ∷ []));
      }

  unfoldable pub can_send : ℕ → Sender F → Bool
  can_send bytes_in_flight b = ltb bytes_in_flight b.cwnd

  unfoldable pub time_until_send : ℕ → Sender F → ℕ
  time_until_send bytes_in_flight b = b.next_send_time

  unfoldable pub on_congestion_event : ℕ → ℕ → Sender F → F → Sender F
  on_congestion_event mono lost_bytes b unit_gain =
      let b1 = record b {
        total_bytes_lost = wrap64 (b.total_bytes_lost + lost_bytes);
        retransmit_count = wrap64 (b.retransmit_count + 1);
        stats =
            with_stats (λ s. Stats.increment_retransmit (Stats.add_bytes_lost lost_bytes s))
              b.stats;
      } in
      let b2 =
        if not b1.in_recovery_mode && not (is_startup b1.state) && not (is_probe_rtt b1.state)
        then enter_recovery mono (record b1 { in_recovery_mode = true; pacing_gain = unit_gain })
        else b1 in
      record b2 {
        cwnd = if ltb lost_bytes b2.cwnd then b2.cwnd - lost_bytes else b2.config.min_cwnd;
      }

  unfoldable pub set_max_datagram_size : ℕ → Sender F → Sender F
  set_max_datagram_size size b = record b {
    max_datagram_size = size;
    config = record b.config { max_datagram_size = size; min_cwnd = wrap64 (4 * size) };
  }

  unfoldable pub get_congestion_window : Sender F → ℕ
  get_congestion_window b = b.cwnd

  unfoldable pub in_recovery : Sender F → Bool
  in_recovery b = b.in_recovery_mode

  unfoldable pub in_slow_start : Sender F → Bool
  in_slow_start b = is_startup b.state
