-- ===== src/Bbr1/Recent.antt =====
-- quic-go-bbr/internal/congestion/bbrv1.go: the sliding window of `update_lastbandwidth_filter`, which
-- keeps a sum up to date by subtracting, against a filter of the acknowledgements.
use moq_quic_bbrv3_go.Prelude.{
  ℕ, suc, ◌+◌, ◌-◌, ◌≤◌, ◌≡◌, refl, ap, ◌∙◌, inl, inr, arith, Bool, true, false, ltb, if◌then◌else◌,
  List, [], ◌∷◌, ◌++◌, drop, Bool-cases,
}
use moq_quic_bbrv3_go.Bbr1.Float.{Float}
use moq_quic_bbrv3_go.Bbr1.State.{AckInfo, Sender, expired, rtt_seconds}
use moq_quic_bbrv3_go.Bbr1.Calls.{update_lastbandwidth_filter}

-- The bytes of acknowledgements.
abbrev pub total : List AckInfo → ℕ
total [] = 0
total (a ∷ infos) = a.acked_bytes + total infos

-- The acknowledgements that are recent, by a filter.
abbrev pub recent : ℕ → ℕ → List AckInfo → List AckInfo
recent now rtt [] = []
recent now rtt (a ∷ infos) =
    let rest = recent now rtt infos in if ltb rtt (now - a.record_time) then rest else a ∷ rest

-- In the order of their times, none of them behind `now`.
abbrev pub Sorted : ℕ → List AckInfo → Type 0
Sorted t [] = Unit
Sorted t (a ∷ infos) = (t ≤ a.record_time) × Sorted a.record_time infos

recent-all :
    (now rtt t : ℕ) (infos : List AckInfo)
    → Sorted t infos
    → now - t ≤ rtt
    → recent now rtt infos ≡ infos
recent-all now rtt t [] s h = refl
recent-all now rtt t (a ∷ infos) s h = ground (arith, recent-all now rtt a.record_time infos)

expired-none :
    (now rtt i start sum t : ℕ) (infos : List AckInfo)
    → Sorted t infos
    → now - t ≤ rtt
    → expired now rtt i start sum infos ≡ (start, sum)
unfolding expired
expired-none now rtt i start sum t [] s h = refl
expired-none now rtt i start sum t (a ∷ infos) s h =
    ground (arith, expired-none now rtt (i + 1) start sum a.record_time infos)

drop_behind :
    (n i : ℕ)
    → i + 1 ≤ n
    → (a : AckInfo) (infos : List AckInfo) → drop (n - i) (a ∷ infos) ≡ drop (n - (i + 1)) infos
drop_behind n i h a infos =
    ap (λ k. drop k (a ∷ infos)) {x = n - i} {y = suc (n - (i + 1))} (omega arith)

-- What the loop finds of sorted acknowledgements, from an index on where it has found all before.
record Splits (now rtt i sum : ℕ) (infos : List AckInfo) (found : ℕ × ℕ) : Type 0 where
  behind : i ≤ found.0
  kept : drop (found.0 - i) infos ≡ recent now rtt infos
  split : found.1 + total (recent now rtt infos) ≡ sum + total infos

expired-Splits :
    (now rtt i sum t : ℕ) (infos : List AckInfo)
    → Sorted t infos
    → Splits now rtt i sum infos (expired now rtt i i sum infos)
unfolding expired
expired-Splits now rtt i sum t [] s = record {
  behind = omega arith;
  kept = ground arith;
  split = refl;
}
expired-Splits now rtt i sum t (a ∷ infos) (l, s) =
    elim (Bool-cases (ltb rtt (now - a.record_time))) [
      | inl old ↦
          let h = expired-Splits now rtt (i + 1) (sum + a.acked_bytes) a.record_time infos s in
          record {
            behind = ground (arith, h.behind);
            kept = rw (old, expired) (drop_behind _ i h.behind a infos ∙ h.kept);
            split = ground (arith, h.split);
          }
      | inr young ↦
          let n = expired-none now rtt (i + 1) i sum a.record_time infos s (ground arith) in
          let r = recent-all now rtt a.record_time infos s (ground arith) in
          record {
            behind = ground (arith, n);
            kept =
                rw (young, expired, n, r)
                  (ap (λ k. drop k (a ∷ infos)) {x = i - i} {y = 0} (omega arith));
            split = rw (young, expired, n, r) refl;
          }
    ]

-- No acknowledgement is behind `t`.
abbrev pub Before : ℕ → List AckInfo → Type 0
Before t [] = Unit
Before t (a ∷ infos) = (a.record_time ≤ t) × Before t infos

-- What holds of a sender whose last acknowledgement came at `t`, or earlier.
pub record Summed {F : Type 0} (t : ℕ) (b : Sender F) : Type 0 where
  pub sum : b.delivered ≡ total b.ackinfo
  pub sorted : Sorted 0 b.ackinfo
  pub past : Before t b.ackinfo

Sorted-weaken : (s t : ℕ) (infos : List AckInfo) → s ≤ t → Sorted t infos → Sorted s infos
Sorted-weaken s t [] l h = tt
Sorted-weaken s t (a ∷ infos) l (h, r) = (omega arith, r)

recent-Sorted :
    (now rtt t : ℕ) (infos : List AckInfo) → Sorted t infos → Sorted t (recent now rtt infos)
recent-Sorted now rtt t [] h = tt
recent-Sorted now rtt t (a ∷ infos) (l, h) = elim (Bool-cases (ltb rtt (now - a.record_time))) [
  | inl old ↦
      rw old (Sorted-weaken t a.record_time _ l (recent-Sorted now rtt a.record_time infos h))
  | inr young ↦ rw young (l, recent-Sorted now rtt a.record_time infos h)
]

recent-Before :
    (now rtt t : ℕ) (infos : List AckInfo) → Before t infos → Before t (recent now rtt infos)
recent-Before now rtt t [] h = tt
recent-Before now rtt t (a ∷ infos) (l, h) = elim (Bool-cases (ltb rtt (now - a.record_time))) [
  | inl old ↦ rw old (recent-Before now rtt t infos h)
  | inr young ↦ rw young (l, recent-Before now rtt t infos h)
]

pub append-Sorted :
    (s k now : ℕ) (infos : List AckInfo)
    → s ≤ now
    → Before now infos
    → Sorted s infos
    → Sorted s (infos ++ (record { acked_bytes = k; record_time = now } ∷ []))
append-Sorted s k now [] l p h = (l, tt)
append-Sorted s k now (a ∷ infos) l (p, q) (h, r) =
    (h, append-Sorted a.record_time k now infos p q r)

pub append-Before :
    (k now : ℕ) (infos : List AckInfo)
    → Before now infos
    → Before now (infos ++ (record { acked_bytes = k; record_time = now } ∷ []))
append-Before k now [] p = (omega arith, tt)
append-Before k now (a ∷ infos) (p, q) = (p, append-Before k now infos q)

pub total-append :
    (k now : ℕ) (infos : List AckInfo)
    → total (infos ++ (record { acked_bytes = k; record_time = now } ∷ [])) ≡ total infos + k
total-append k now [] = omega arith
total-append k now (a ∷ infos) = omega (arith, total-append k now infos)

pub Before-weaken : (s t : ℕ) (infos : List AckInfo) → s ≤ t → Before s infos → Before t infos
Before-weaken s t [] l h = tt
Before-weaken s t (a ∷ infos) l (p, q) = (omega arith, Before-weaken s t infos l q)

module _ {F : Type 0} (fl : Float F) where
  open fl use {of_int, to_int, div}

  -- On acknowledgements in the order of their times, whose bytes `delivered` sums up, the sliding window
  -- keeps those that are not older than the round trip, whatever the time, subtracts the bytes of the
  -- others exactly, and answers the rate of the bytes that it keeps.
  pub update_lastbandwidth_filter-recent :
      (now : ℕ) (b : Sender F)
      → b.delivered ≡ total b.ackinfo
      → Sorted 0 b.ackinfo
      → let kept = recent now b.last_new_min_rtt b.ackinfo in
        update_lastbandwidth_filter fl now b ≡ (
          record b { ackinfo = kept; delivered = total kept },
          to_int (div (of_int (total kept)) (rtt_seconds fl b)),
        )
  unfolding update_lastbandwidth_filter
  update_lastbandwidth_filter-recent now b d s =
      let h = expired-Splits now b.last_new_min_rtt 0 0 0 b.ackinfo s in
      let (start, sum) = expired now b.last_new_min_rtt 0 0 0 b.ackinfo in
      let kept = recent now b.last_new_min_rtt b.ackinfo in
      let rate = λ (n : ℕ). to_int (div (of_int n) (rtt_seconds fl b)) in
      let e : drop start b.ackinfo ≡ kept =
        ap (λ k. drop k b.ackinfo) {x = start} {y = start - 0} (omega arith) ∙ h.kept in
      let n : b.delivered - sum ≡ total kept = omega (arith, h.split, d) in
      ap
        (λ infos.
          (record b { ackinfo = infos; delivered = b.delivered - sum }, rate (b.delivered - sum)))
        e
      ∙ ap (λ k. (record b { ackinfo = kept; delivered = k }, rate k)) n

  pub update_lastbandwidth_filter-Summed :
      (now t : ℕ) (b : Sender F) → Summed t b → Summed t (update_lastbandwidth_filter fl now b).0
  update_lastbandwidth_filter-Summed now t b h =
      rw (update_lastbandwidth_filter-recent now b h.sum h.sorted) (record {
        sum = refl;
        sorted = recent-Sorted now b.last_new_min_rtt 0 b.ackinfo h.sorted;
        past = recent-Before now b.last_new_min_rtt t b.ackinfo h.past;
      })

pub Summed-if :
    {F : Type 0} (t : ℕ) (c : Bool) {a b : Sender F}
    → Summed t a
    → Summed t b
    → Summed t (if c then a else b)
Summed-if t true p q = p
Summed-if t false p q = q
