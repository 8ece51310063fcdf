-- ===== src/Varint/Padding.antt =====
-- varint.go: `Read` reads back what `AppendWithLen` writes in a given width.
use mathlib.Core.List.{append_assoc}
use moq_quic_bbrv3_go.Prelude.{
  ℕ, ◌-◌, ◌*◌, ◌^◌, ◌≤◌, ◌<◌, ◌≡◌, refl, ap, ◌∙◌, ◌⊎◌, inl, inr, arith, true, false, not, ◌||◌,
  ◌==◌, List, [], ◌∷◌, ◌++◌, some, length,
}
use moq_quic_bbrv3_go.Varint.{
  ok, read, byte_at, len, append_zeros, append_low_bytes, length_bits, append_with_len,
}
use moq_quic_bbrv3_go.Varint.RoundTrip.{
  encoding, read-encoding, append-encoding, read_two, read_quad, read_oct,
}

-- Bytes that are added in the width and read back.
abbrev pub Padded : List ℕ → List ℕ → ℕ → ℕ → Type 0
Padded b rest i n =
    (code : List ℕ) × (append_with_len b i n ≡ some (b ++ code))
    × (length code ≡ n)
    × (read (code ++ rest) ≡ ok i rest)

-- No padding: the width is the number's own.
exact :
    (b rest : List ℕ) (i n : ℕ)
    → i < 2 ^ 62
    → len i ≡ some n
    → length (encoding i) ≡ n
    → not (n == 1 || n == 2 || n == 4 || n == 8) ≡ false
    → (n == n) ≡ true
    → Padded b rest i n
unfolding append_with_len
exact b rest i n h l e w q = (
  encoding i,
  rw (l, w, q, append_with_len) (append-encoding b i (omega arith)),
  e,
  read-encoding i rest (omega arith),
)

pad_two : (b rest : List ℕ) (i : ℕ) → i ≤ 63 → len i ≡ some 1 → Padded b rest i 2
unfolding append_with_len append_zeros append_low_bytes length_bits
pad_two b rest i h l = (
  64 ∷ byte_at i 0 ∷ [],
  rw (l, append_with_len) (simp append_assoc),
  refl,
  read_two 0 (byte_at i 0) rest (omega arith) ∙ ap (λ (v : ℕ). ok v rest) (omega arith),
)

pad_four_one : (b rest : List ℕ) (i : ℕ) → i ≤ 63 → len i ≡ some 1 → Padded b rest i 4
unfolding append_with_len append_zeros append_low_bytes length_bits
pad_four_one b rest i h l = (
  128 ∷ 0 ∷ 0 ∷ byte_at i 0 ∷ [],
  rw (l, append_with_len) (simp append_assoc),
  refl,
  read_quad 0 0 0 (byte_at i 0) rest (omega arith) ∙ ap (λ (v : ℕ). ok v rest) (omega arith),
)

pad_four_two : (b rest : List ℕ) (i : ℕ) → i ≤ 16383 → len i ≡ some 2 → Padded b rest i 4
unfolding append_with_len append_zeros append_low_bytes length_bits
pad_four_two b rest i h l = (
  128 ∷ 0 ∷ byte_at i 8 ∷ byte_at i 0 ∷ [],
  rw (l, append_with_len) (simp append_assoc),
  refl,
  read_quad 0 0 (byte_at i 8) (byte_at i 0) rest (omega arith)
      ∙ ap (λ (v : ℕ). ok v rest) (omega arith),
)

pad_eight_one : (b rest : List ℕ) (i : ℕ) → i ≤ 63 → len i ≡ some 1 → Padded b rest i 8
unfolding append_with_len append_zeros append_low_bytes length_bits
pad_eight_one b rest i h l = (
  192 ∷ 0 ∷ 0 ∷ 0 ∷ 0 ∷ 0 ∷ 0 ∷ byte_at i 0 ∷ [],
  rw (l, append_with_len) (simp append_assoc),
  refl,
  read_oct 0 0 0 0 0 0 0 (byte_at i 0) rest (omega arith) ∙ ap (λ (v : ℕ). ok v rest) (omega arith),
)

pad_eight_two : (b rest : List ℕ) (i : ℕ) → i ≤ 16383 → len i ≡ some 2 → Padded b rest i 8
unfolding append_with_len append_zeros append_low_bytes length_bits
pad_eight_two b rest i h l = (
  192 ∷ 0 ∷ 0 ∷ 0 ∷ 0 ∷ 0 ∷ byte_at i 8 ∷ byte_at i 0 ∷ [],
  rw (l, append_with_len) (simp append_assoc),
  refl,
  read_oct 0 0 0 0 0 0 (byte_at i 8) (byte_at i 0) rest (omega arith)
      ∙ ap (λ (v : ℕ). ok v rest) (omega arith),
)

pad_eight_four : (b rest : List ℕ) (i : ℕ) → i ≤ 1_073_741_823 → len i ≡ some 4 → Padded b rest i 8
unfolding append_with_len append_zeros append_low_bytes length_bits
pad_eight_four b rest i h l = (
  192 ∷ 0 ∷ 0 ∷ 0 ∷ byte_at i 24 ∷ byte_at i 16 ∷ byte_at i 8 ∷ byte_at i 0 ∷ [],
  rw (l, append_with_len) (simp append_assoc),
  refl,
  read_oct 0 0 0 0 (byte_at i 24) (byte_at i 16) (byte_at i 8) (byte_at i 0) rest (omega arith)
      ∙ ap (λ (v : ℕ). ok v rest) (omega arith),
)

-- The number's own width, with its encoding in that many bytes.
abbrev Width : ℕ → ℕ → Type 0
Width i n = (len i ≡ some n) × (length (encoding i) ≡ n)

Width-one : (i : ℕ) → i ≤ 63 → Width i 1
unfolding len encoding
Width-one i h = (ground arith, ground arith)

Width-two : (i : ℕ) → 63 < i → i ≤ 16383 → Width i 2
unfolding len encoding
Width-two i h g = (ground arith, ground arith)

Width-four : (i : ℕ) → 16383 < i → i ≤ 1_073_741_823 → Width i 4
unfolding len encoding
Width-four i h g = (ground arith, ground arith)

Width-eight : (i : ℕ) → 1_073_741_823 < i → i < 2 ^ 62 → Width i 8
unfolding len encoding
Width-eight i h g = (ground arith, ground arith)

le_or_lt : (i n : ℕ) → (i ≤ n) ⊎ (n < i)
le_or_lt i n = omega arith

in_two : (b rest : List ℕ) (i : ℕ) → i < 2 ^ 14 → Padded b rest i 2
in_two b rest i h = elim (le_or_lt i 63) [
  | inl one ↦ pad_two b rest i one (Width-one i one).0
  | inr more ↦
      let (l, e) = Width-two i more (omega arith) in exact b rest i 2 (omega arith) l e refl refl
]

in_four : (b rest : List ℕ) (i : ℕ) → i < 2 ^ 30 → Padded b rest i 4
in_four b rest i h = elim (le_or_lt i 63) [
  | inl one ↦ pad_four_one b rest i one (Width-one i one).0
  | inr more ↦ elim (le_or_lt i 16383) [
    | inl two ↦ pad_four_two b rest i two (Width-two i more two).0
    | inr many ↦
        let (l, e) = Width-four i many (omega arith) in exact b rest i 4 (omega arith) l e refl refl
  ]
]

in_eight : (b rest : List ℕ) (i : ℕ) → i < 2 ^ 62 → Padded b rest i 8
in_eight b rest i h = elim (le_or_lt i 63) [
  | inl one ↦ pad_eight_one b rest i one (Width-one i one).0
  | inr more ↦ elim (le_or_lt i 16383) [
    | inl two ↦ pad_eight_two b rest i two (Width-two i more two).0
    | inr many ↦ elim (le_or_lt i 1_073_741_823) [
      | inl four ↦ pad_eight_four b rest i four (Width-four i many four).0
      | inr most ↦ let (l, e) = Width-eight i most h in exact b rest i 8 h l e refl refl
    ]
  ]
]

fits : (i n k : ℕ) → n ≡ k → i < 2 ^ (8 * n - 2) → i < 2 ^ (8 * k - 2)
fits i n k e h = rw (← e) h

-- A number that fits one, two, four or eight bytes less their two bits of length is appended in
-- exactly that width without a panic, and `Read` reads it back and leaves what follows.
pub read-append_with_len :
    (b rest : List ℕ) (i n : ℕ)
    → (n ≡ 1) ⊎ (n ≡ 2) ⊎ (n ≡ 4) ⊎ (n ≡ 8)
    → i < 2 ^ (8 * n - 2)
    → Padded b rest i n
read-append_with_len b rest i n (inl e) h =
    let small = fits i n 1 e h in
    let (l, w) = Width-one i (omega arith) in rw e (exact b rest i 1 (omega arith) l w refl refl)
read-append_with_len b rest i n (inr (inl e)) h = rw e (in_two b rest i (fits i n 2 e h))
read-append_with_len b rest i n (inr (inr (inl e))) h = rw e (in_four b rest i (fits i n 4 e h))
read-append_with_len b rest i n (inr (inr (inr e))) h = rw e (in_eight b rest i (fits i n 8 e h))
