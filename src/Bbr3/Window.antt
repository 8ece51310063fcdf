-- ===== src/Bbr3/Window.antt =====
-- bbrv3.go: every acknowledgement starts a round, and the congestion window never grows.
use moq_quic_bbrv3_go.Prelude.{
  ℕ, ◌+◌, ◌-◌, ◌*◌, ◌^◌, ◌≤◌, ◌<◌, ◌≡◌, ap, ◌∙◌, inl, inr, arith, true, false, ◌==◌, if◌then◌else◌,
  Bool-cases, List, [], ◌∷◌, Option, none, some, wrap64,
}
use moq_quic_bbrv3_go.Bbr3.Float.{Float}
use moq_quic_bbrv3_go.Bbr3.State.{Config, Sender, delete_time}
use moq_quic_bbrv3_go.Bbr3.Signals.{is_probe_rtt}
use moq_quic_bbrv3_go.Bbr3.Events.{
  Event, packet_acked, datagram_size, update_and_log_stats, record_rtt, record_delivery,
  maybe_exit_probe_rtt, process_ack, register_ack, on_packet_acked,
}
use moq_quic_bbrv3_go.Bbr3.Calm.{Calm, Calm-trans}
use moq_quic_bbrv3_go.Bbr3.Rounds.{
  NextWithin, NewestSeen, round_started, record_delivery-NewestSeen, update_and_log_stats-Calm,
  maybe_exit_probe_rtt-Calm, maybe_exit_probe_rtt-ackinfo, process_ack-Calm,
}

-- The bytes that a call acknowledges.
abbrev pub acked_of : Event → ℕ
acked_of (packet_acked m w n k p t) = k
acked_of _ = 0

abbrev pub acked_total : List Event → ℕ
acked_total [] = 0
acked_total (e ∷ es) = acked_of e + acked_total es

-- A datagram size that a call sets is at most `s`.
abbrev pub SizeWithin : ℕ → Event → Type 0
SizeWithin s (datagram_size k) = k ≤ s
SizeWithin s _ = Unit {0}

-- What holds between calls while the datagram size is at most `s`.
pub record Held {F : Type 0} (s : ℕ) (b : Sender F) : Type 0 where
  pub window_le : b.cwnd ≤ 10 * s
  pub saved_le : b.prior_cwnd ≤ 10 * s
  pub least_le : b.config.min_cwnd ≤ 4 * s
  pub datagram_le : b.config.max_datagram_size ≤ s
  pub size_le : b.max_datagram_size ≤ s
  pub next_le : b.round.next_round_delivered ≤ b.delivered
  pub divisor_pos : 0 < b.bw_probe_up_cnt

module _ {F : Type 0} where
  pub Calm-Held : (s : ℕ) {b b' : Sender F} → Calm b b' → Held s b → Held s b'
  Calm-Held s c h = record {
    window_le = omega (arith, c.cwnd_le, h.window_le, h.saved_le, h.least_le);
    saved_le = omega (arith, c.prior_le, h.window_le, h.saved_le, h.least_le);
    least_le = omega (arith, ap (λ (c : Config F). c.min_cwnd) c.config_eq, h.least_le);
    datagram_le =
        omega (arith, ap (λ (c : Config F). c.max_datagram_size) c.config_eq, h.datagram_le);
    size_le = omega (arith, c.size_eq, h.size_le);
    next_le = c.next_le h.next_le;
    divisor_pos = c.divisor_pos h.divisor_pos;
  }

  pub round_started-Held : (s : ℕ) (b : Sender F) → Held s b → Held s (round_started b)
  round_started-Held s b h = ground arith

  -- The sender with a packet forgotten and its bytes delivered, before anything else is done.
  abbrev pub delivering : (number k : ℕ) → Sender F → Sender F
  delivering number k b = record b {
    sent_times = delete_time number b.sent_times;
    delivered = wrap64 (b.delivered + k);
  }

  pub delivering-Held :
      (s number k : ℕ) (b : Sender F)
      → b.delivered + k < 2 ^ 64
      → Held s b
      → Held s (delivering number k b)
  delivering-Held s number k b small h = ground arith

  -- The sender that `register_ack` hands to the check of ProbeRTT.
  abbrev recorded : (sent number k now : ℕ) → Sender F → Sender F
  recorded sent number k now b =
      record_delivery k now
        (record_rtt (now - sent) now (record b { sent_times = delete_time number b.sent_times }))

  recorded-Calm :
      (sent number k now : ℕ) (b : Sender F)
      → Calm (delivering number k b) (recorded sent number k now b)
  unfolding record_delivery record_rtt
  recorded-Calm sent number k now b = ground arith

  recorded-state :
      (sent number k now : ℕ) (b : Sender F) → (recorded sent number k now b).state ≡ b.state
  unfolding record_delivery record_rtt
  recorded-state sent number k now b = ground arith

module _ {F : Type 0} (fl : Float F) where
  pub register_ack-Calm :
      (sent number k now : ℕ) (b : Sender F)
      → Calm (delivering number k b) (register_ack fl sent number k now b)
  unfolding register_ack
  register_ack-Calm sent number k now b =
      Calm-trans (recorded-Calm sent number k now b) (maybe_exit_probe_rtt-Calm fl now _)

  pub register_ack-NewestSeen :
      (sent number k now : ℕ) (b : Sender F) → NewestSeen (register_ack fl sent number k now b)
  unfolding register_ack
  register_ack-NewestSeen sent number k now b =
      let b2 = recorded sent number k now b in
      let c = maybe_exit_probe_rtt-Calm fl now b2 in
      rw (maybe_exit_probe_rtt-ackinfo fl now b2, c.delivered_eq)
        (record_delivery-NewestSeen k now _)

  -- Outside ProbeRTT the check for its end does nothing.
  register_ack-active :
      (sent number k now : ℕ) (b : Sender F)
      → is_probe_rtt b.state ≡ false
      → is_probe_rtt (register_ack fl sent number k now b).state ≡ false
  unfolding register_ack maybe_exit_probe_rtt
  register_ack-active sent number k now b h =
      let e = recorded-state sent number k now b in
      let f : is_probe_rtt (recorded sent number k now b).state ≡ false = rw e h in rw f f

  -- The rest of an acknowledgement outside ProbeRTT, as one calm step after the round's start.
  pub active-Calm :
      (mono wall n now : ℕ) (b : Sender F)
      → NextWithin b
      → NewestSeen b
      → Calm (round_started b) (update_and_log_stats wall (process_ack fl mono now n b))
  active-Calm mono wall n now b p q =
      Calm-trans (process_ack-Calm fl mono now n b p q) (update_and_log_stats-Calm wall _)

  -- Every acknowledgement of a tracked packet outside ProbeRTT starts a round and counts it,
  -- whichever packet it is for, when the invariant between calls holds and the delivered bytes fit
  -- 64 bits.
  pub on_packet_acked_starts_round :
      (mono wall number k n now sent : ℕ) (b : Sender F)
      → b.sent_times number ≡ some sent
      → is_probe_rtt b.state ≡ false
      → NextWithin b
      → b.delivered + k < 2 ^ 64
      → let b' = on_packet_acked fl mono wall number k n now b in
        (b'.round.is_round_start ≡ true)
        × (b'.round.round_count ≡ wrap64 (b.round.round_count + 1))
        × NextWithin b'
  unfolding on_packet_acked
  on_packet_acked_starts_round mono wall number k n now sent b tracked active next small =
      let b1 = register_ack fl sent number k now b in
      let c = register_ack-Calm sent number k now b in
      let within : NextWithin b1 = c.next_le (omega arith) in
      let d = active-Calm mono wall n now b1 within (register_ack-NewestSeen sent number k now b) in
      rw (tracked, on_packet_acked, register_ack-active sent number k now b active)
        (
          d.round_eq,
          d.count_eq ∙ ap (λ (m : ℕ). wrap64 (m + 1)) c.count_eq,
          d.next_le (omega arith),
        )

  -- An acknowledgement of a packet that is not tracked changes nothing.
  on_packet_acked_untracked :
      (mono wall number k n now : ℕ) (b : Sender F)
      → b.sent_times number ≡ none
      → on_packet_acked fl mono wall number k n now b ≡ b
  unfolding on_packet_acked
  on_packet_acked_untracked mono wall number k n now b e = rw (e, on_packet_acked)

  on_packet_acked_effect :
      (mono wall number k n now sent : ℕ) (b : Sender F)
      → b.sent_times number ≡ some sent
      → NextWithin b
      → b.delivered + k < 2 ^ 64
      → let b' = on_packet_acked fl mono wall number k n now b in
        (b'.delivered ≡ b.delivered + k) × (b'.sent_times ≡ delete_time number b.sent_times)
  unfolding on_packet_acked
  on_packet_acked_effect mono wall number k n now sent b tracked next small =
      let b1 = register_ack fl sent number k now b in
      let c = register_ack-Calm sent number k now b in
      let within : NextWithin b1 = c.next_le (omega arith) in
      let d = active-Calm mono wall n now b1 within (register_ack-NewestSeen sent number k now b) in
      let g = update_and_log_stats-Calm wall b1 in
      elim (Bool-cases (is_probe_rtt b1.state)) [
        | inl idle ↦
            rw (tracked, on_packet_acked, idle)
              (omega (arith, g.delivered_eq, c.delivered_eq), g.times_eq ∙ c.times_eq)
        | inr active ↦
            rw (tracked, on_packet_acked, active)
              (omega (arith, d.delivered_eq, c.delivered_eq), d.times_eq ∙ c.times_eq)
      ]

  -- An acknowledgement of a tracked packet delivers its bytes once, when the invariant between
  -- calls holds and the delivered bytes fit 64 bits: the packet is forgotten and every other
  -- stays tracked, and a second acknowledgement of it, at whatever time, changes nothing.
  pub on_packet_acked_once :
      (mono wall number k n now sent : ℕ) (b : Sender F)
      → b.sent_times number ≡ some sent
      → NextWithin b
      → b.delivered + k < 2 ^ 64
      → let b' = on_packet_acked fl mono wall number k n now b in
        (b'.delivered ≡ b.delivered + k)
        × ((j : ℕ) → b'.sent_times j ≡ (if j == number then none else b.sent_times j))
        × ((mono' wall' k' n' now' : ℕ) → on_packet_acked fl mono' wall' number k' n' now' b' ≡ b')
  unfolding delete_time
  on_packet_acked_once mono wall number k n now sent b tracked next small =
      let (d, t) = on_packet_acked_effect mono wall number k n now sent b tracked next small in
      (
        d,
        λ j. ap (λ (m : ℕ → Option ℕ). m j) t,
        λ mono' wall' k' n' now'.
            on_packet_acked_untracked mono' wall' number k' n' now' _
              (ap (λ (m : ℕ → Option ℕ). m number) t ∙ ground arith),
      )
