-- ===== src/Bbr1/State.antt =====
-- quic-go-bbr/internal/congestion/bbrv1.go: the state of a sender, and what is computed of it. Times and
-- durations are nanoseconds, at or above 0; byte counts and rounds are `int64` in the code and stay
-- below the 2^62 bytes that a connection can carry. A difference of times is only compared with
-- durations above 0, or tested for being above 0, so that it may stop at 0. The map `sentTimes` is a
-- function to an option, and the array `latelybandwidth` a function of the index.
use moq_quic_bbrv3_go.Prelude.{
  ℕ, zero, suc, ◌+◌, ◌-◌, ◌*◌, ◌%◌, max, Bool, true, false, ◌&&◌, ltb, leb, ◌==◌, if◌then◌else◌,
  List, [], ◌∷◌, Option, none,
}
use moq_quic_bbrv3_go.Bbr1.Float.{Float}

pub data State : Type 0 where
  startup drain probe_bw probe_rtt : State

abbrev pub is_startup : State → Bool
is_startup startup = true
is_startup _ = false

abbrev pub is_drain : State → Bool
is_drain drain = true
is_drain _ = false

abbrev pub is_probe_bw : State → Bool
is_probe_bw probe_bw = true
is_probe_bw _ = false

abbrev pub is_probe_rtt : State → Bool
is_probe_rtt probe_rtt = true
is_probe_rtt _ = false

pub record AckInfo : Type 0 where
  pub acked_bytes : ℕ
  pub record_time : ℕ

pub record Sender (F : Type 0) : Type 0 where
  pub state : State
  pub round : ℕ
  pub round_start_time : ℕ
  pub startup_last_bw_grow25_round : ℕ
  pub startup_last_bw : ℕ
  pub pacing_gain : F
  pub cwnd_gain : F
  pub sent_times : ℕ → Option ℕ
  pub last_new_min_rtt : ℕ
  pub last_new_min_rtt_time : ℕ
  pub last_probe_rtt_start : ℕ
  pub max_bandwidth : ℕ
  pub delivered : ℕ
  pub ackinfo : List AckInfo
  pub lately_bandwidth : ℕ → ℕ
  pub next_send_time : ℕ
  pub max_datagram_size : ℕ
  pub in_recovery : Bool

abbrev pub second : ℕ
second = 1_000_000_000

abbrev pub ten_seconds : ℕ
ten_seconds = 10_000_000_000

abbrev pub bw_win : ℕ
bw_win = 16

abbrev pub min_bdp : ℕ
min_bdp = 32

-- The loop over `latelybandwidth`, from the index `i` on.
abbrev pub widest : ℕ → ℕ → (ℕ → ℕ) → ℕ → ℕ
widest zero i bws acc = acc
widest (suc n) i bws acc = widest n (i + 1) bws (max acc (bws i))

-- The loop of `update_lastbandwidth_filter` from the index `i` on: the index behind the last entry that
-- is older than the round trip, and the bytes of the entries that are.
unfoldable pub expired : (now rtt i start sum : ℕ) → List AckInfo → ℕ × ℕ
expired now rtt i start sum [] = (start, sum)
expired now rtt i start sum (a ∷ infos) =
    let old = ltb rtt (now - a.record_time) in
    expired now rtt (i + 1) (if old then i + 1 else start)
      (if old then sum + a.acked_bytes else sum) infos

module _ {F : Type 0} (fl : Float F) where
  open fl use {of_int, to_int, lit, mul, div, sub, larger, lt, ge}

  -- `probeBWCycleGain[round%8]`: 1.25, 0.75, and 1.0 six times.
  abbrev pub cycle_gain : ℕ → F
  cycle_gain round =
      let i = round % 8 in if i == 0 then lit 5 4 else if i == 1 then lit 3 4 else lit 1 1

  -- `float64(lastNewMinRTT) / float64(time.Second)`
  abbrev pub rtt_seconds : Sender F → F
  rtt_seconds b = div (of_int b.last_new_min_rtt) (of_int second)

  unfoldable pub min_maxbandwidth : Sender F → ℕ
  min_maxbandwidth b = to_int (
      mul (of_int (min_bdp * b.max_datagram_size))
        (div (of_int second) (of_int b.last_new_min_rtt)))

  -- `now` is what the two calls of `monotime.Now()` read.
  unfoldable pub new_sender : (now now' max_datagram_size : ℕ) → Sender F
  unfolding min_maxbandwidth
  new_sender now now' size =
      let made : Sender F = record {
        state = startup;
        round = 0;
        round_start_time = now;
        startup_last_bw_grow25_round = 0;
        startup_last_bw = 0;
        pacing_gain = lit 289 100;
        cwnd_gain = lit 289 100;
        sent_times = λ _. none;
        last_new_min_rtt = ten_seconds;
        last_new_min_rtt_time = now';
        last_probe_rtt_start = 0;
        max_bandwidth = 0;
        delivered = 0;
        ackinfo = [];
        lately_bandwidth = λ _. 0;
        next_send_time = 0;
        max_datagram_size = size;
        in_recovery = false;
      } in
      record made { max_bandwidth = min_maxbandwidth made }

  unfoldable pub bdp : Sender F → F
  bdp b =
      larger (mul (of_int b.max_bandwidth) (rtt_seconds b)) (of_int (min_bdp * b.max_datagram_size))

  unfoldable pub cwnd : Sender F → ℕ
  cwnd b =
      if is_probe_rtt b.state then 4 * b.max_datagram_size else to_int (mul (bdp b) b.cwnd_gain)

  unfoldable pub can_send : ℕ → Sender F → Bool
  can_send bytes_in_flight b = ltb bytes_in_flight (cwnd b)

  unfoldable pub entry_probe_bw : Sender F → Sender F
  entry_probe_bw b = record b {
    state = probe_bw;
    pacing_gain = cycle_gain b.round;
    cwnd_gain = lit 2 1;
  }

  unfoldable pub may_exit_probe_rtt : ℕ → Sender F → Sender F
  may_exit_probe_rtt now b =
      if is_probe_rtt b.state && leb 200_000_000 (now - b.last_probe_rtt_start)
      then entry_probe_bw b
      else b

  unfoldable pub update_maxbandwidth_filter : Sender F → Sender F
  update_maxbandwidth_filter b = record b {
    max_bandwidth = widest bw_win 0 b.lately_bandwidth (min_maxbandwidth b);
  }

  unfoldable pub exit_recover : Sender F → Sender F
  exit_recover b = record b {
    in_recovery = false;
    pacing_gain = elim b.state [
      | startup ↦ lit 289 100
      | drain ↦ lit 345 1000
      | probe_bw ↦ b.pacing_gain
      | probe_rtt ↦ lit 1 1
    ];
  }
