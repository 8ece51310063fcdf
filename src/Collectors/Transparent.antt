-- ===== src/Collectors/Transparent.antt =====
-- quic-go-bbr/internal/congestion/stats_wrapper.go: a wrapper does not disturb its controller, and
-- what it counts.
use moq_quic_bbrv3_go.Prelude.{
  ℕ, ◌+◌, ◌≡◌, refl, ap, ◌∙◌, List, [], ◌∷◌, if◌then◌else◌, wrap64, arith,
}
use moq_quic_bbrv3_go.Collectors.Atomic.{
  StatsCollector, CollectorConfig, collect, should_log, new_stats_collector,
}
use moq_quic_bbrv3_go.Collectors.Wrapped.{
  SendAlgorithm, AlgorithmWithStats, AlgorithmEvent, asked_time, asked_budget, sent, asked_send,
  exit_slow_start, acked, congested, timed_out, resized, asked_window, Answer, nothing, number,
  verdict, wrap_with_stats, wrapped_step, wrapped_run,
}

-- What an event adds to the bytes sent, to the bytes lost and to the losses.
abbrev pub sent_bytes : AlgorithmEvent → ℕ
sent_bytes (sent t f n k r) = if r then k else 0
sent_bytes e = 0

abbrev pub lost_bytes : AlgorithmEvent → ℕ
lost_bytes (congested n k p) = k
lost_bytes e = 0

abbrev pub losses : AlgorithmEvent → ℕ
losses (congested n k p) = 1
losses e = 0

abbrev pub over : (AlgorithmEvent → ℕ) → List AlgorithmEvent → ℕ
over f [] = 0
over f (e ∷ es) = f e + over f es

module _ {S : Type 0} (alg : SendAlgorithm S) where
  -- The same calls on the controller alone.
  abbrev bare_step : AlgorithmEvent → S → S × Answer
  bare_step (asked_time f) s = (s, number (alg.time_until_send f s))
  bare_step (asked_budget t) s = let (s', b) = alg.has_pacing_budget t s in (s', verdict b)
  bare_step (sent t f n k r) s = (alg.on_packet_sent t f n k r s, nothing)
  bare_step (asked_send f) s = (s, verdict (alg.can_send f s))
  bare_step exit_slow_start s = (alg.maybe_exit_slow_start s, nothing)
  bare_step (acked wall n k p t) s = (alg.on_packet_acked n k p t s, nothing)
  bare_step (congested n k p) s = (alg.on_congestion_event n k p s, nothing)
  bare_step (timed_out r) s = (alg.on_retransmission_timeout r s, nothing)
  bare_step (resized k) s = (alg.set_max_datagram_size k s, nothing)
  bare_step asked_window s = (s, number (alg.get_congestion_window s))

  abbrev pub bare_run : List AlgorithmEvent → S → S × List Answer
  bare_run [] s = (s, [])
  bare_run (e ∷ es) s = let (s1, x) = bare_step e s in let (s2, xs) = bare_run es s1 in (s2, x ∷ xs)

module _ {S V : Type 0} (alg : SendAlgorithm S) where
  wrapped_step-bare :
      (e : AlgorithmEvent) (a : AlgorithmWithStats S V)
      → ((wrapped_step alg e a).0.inner ≡ (bare_step alg e a.inner).0)
        × ((wrapped_step alg e a).1 ≡ (bare_step alg e a.inner).1)
  unfolding wrapped_step
  wrapped_step-bare (asked_time f) a = (refl, refl)
  wrapped_step-bare e a = (refl, refl)

  wrapped_run-bare :
      (es : List AlgorithmEvent) (a : AlgorithmWithStats S V)
      → ((wrapped_run alg es a).0.inner ≡ (bare_run alg es a.inner).0)
        × ((wrapped_run alg es a).1 ≡ (bare_run alg es a.inner).1)
  unfolding wrapped_run
  wrapped_run-bare [] a = (refl, refl)
  wrapped_run-bare (e ∷ es) a =
      let (p, q) = wrapped_step-bare e a in
      let (r, t) = wrapped_run-bare es (wrapped_step alg e a).0 in
      rw (← p) rw (← q) (r, ap (◌∷◌ (wrapped_step alg e a).1) t)

  record Counts (s : StatsCollector V) (b l n : ℕ) : Type 0 where
    sent_so_far : s.bytes_sent ≡ wrap64 b
    lost_so_far : s.bytes_lost ≡ wrap64 l
    losses_so_far : s.retransmit_count ≡ wrap64 n

  wrapped_step-Counts :
      (e : AlgorithmEvent) (a : AlgorithmWithStats S V) (b l n : ℕ)
      → Counts a.stats b l n
      → Counts (wrapped_step alg e a).0.stats (b + sent_bytes e) (l + lost_bytes e) (n + losses e)
  unfolding wrapped_step collect should_log
  wrapped_step-Counts (asked_time f) a b l n c = ground arith
  wrapped_step-Counts e a b l n c = ground arith

  wrapped_run-Counts :
      (es : List AlgorithmEvent) (a : AlgorithmWithStats S V) (b l n : ℕ)
      → Counts a.stats b l n
      → Counts
          (wrapped_run alg es a).0.stats
          (b + over sent_bytes es)
          (l + over lost_bytes es)
          (n + over losses es)
  unfolding wrapped_run
  wrapped_run-Counts [] a b l n c = ground arith
  wrapped_run-Counts (e ∷ es) a b l n c =
      let f =
        wrapped_run-Counts es (wrapped_step alg e a).0 _ _ _ (wrapped_step-Counts e a b l n c) in
      ground arith

module _ {S : Type 0} (V : Type 0) (alg : SendAlgorithm S) where
  -- After any calls a controller that WrapWithStats wrapped is in the state in which the same calls
  -- leave it alone, and has answered what it would; its collector counts, modulo 2 ^ 64, the bytes of
  -- the retransmittable packets, the bytes that were reported lost, and one retransmission for each
  -- such report.
  pub wrap_with_stats-bare :
      (inner : S) (config : CollectorConfig) (wall : ℕ) (es : List AlgorithmEvent)
      → let (a, answers) = wrapped_run {V = V} alg es (wrap_with_stats inner config wall) in
        (a.inner ≡ (bare_run alg es inner).0)
        × (answers ≡ (bare_run alg es inner).1)
        × (a.stats.bytes_sent ≡ wrap64 (over sent_bytes es))
        × (a.stats.bytes_lost ≡ wrap64 (over lost_bytes es))
        × (a.stats.retransmit_count ≡ wrap64 (over losses es))
  unfolding wrap_with_stats new_stats_collector
  wrap_with_stats-bare inner config wall es =
      let (state, answers) = wrapped_run-bare {V = V} alg es (wrap_with_stats inner config wall) in
      let c =
        wrapped_run-Counts {V = V} alg es (wrap_with_stats inner config wall) 0 0 0
          (record { sent_so_far = refl; lost_so_far = refl; losses_so_far = refl }) in
      (
        state,
        answers,
        c.sent_so_far ∙ ap wrap64 (omega arith),
        c.lost_so_far ∙ ap wrap64 (omega arith),
        c.losses_so_far ∙ ap wrap64 (omega arith),
      )
