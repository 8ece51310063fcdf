-- ===== src/Varint/RoundTrip.antt =====
-- varint.go: `Read` reads back what `Append` writes, and `Len` is its length.
use Prim.Native.Nat.{bit_and}
use moq_quic_bbrv3_go.Prelude.{
  ℕ, ◌+◌, ◌*◌, ◌/◌, ◌^◌, ◌≤◌, ◌<◌, ◌≡◌, ap, ◌∙◌, ◌⊎◌, inl, inr, arith, leb, if◌then◌else◌,
  Bool-cases, List, [], ◌∷◌, ◌++◌, none, some, length,
}
use moq_quic_bbrv3_go.Varint.{ok, max_varint, read_eight, read_four, read, byte_at, append, len}
use moq_quic_bbrv3_go.Varint.Bytes.{low_six, top_two, tag_two, tag_four, tag_eight}

read_one : (x : ℕ) (r : List ℕ) → x < 64 → read (x ∷ r) ≡ ok x r
unfolding read
read_one x r h = ground (arith, low_six x, top_two x)

pub read_two :
    (hi lo : ℕ) (r : List ℕ) → hi < 64 → read ((hi + 64) ∷ lo ∷ r) ≡ ok (lo + hi * 2 ^ 8) r
unfolding read
read_two hi lo r h =
    let m : bit_and (hi + 64) 0x3f ≡ hi = low_six (hi + 64) (omega arith) ∙ omega arith in
    let t : bit_and (hi + 64) 0xc0 ≡ 64 = top_two (hi + 64) (omega arith) ∙ omega arith in rw (m, t)

pub read_quad :
    (hi a b c : ℕ) (r : List ℕ)
    → hi < 64
    → read ((hi + 128) ∷ a ∷ b ∷ c ∷ r) ≡ ok (c + b * 2 ^ 8 + a * 2 ^ 16 + hi * 2 ^ 24) r
unfolding read read_four
read_quad hi a b c r h =
    let m : bit_and (hi + 128) 0x3f ≡ hi = low_six (hi + 128) (omega arith) ∙ omega arith in
    let t : bit_and (hi + 128) 0xc0 ≡ 128 = top_two (hi + 128) (omega arith) ∙ omega arith in
    rw (m, t)

pub read_oct :
    (hi a b c d e f g : ℕ) (r : List ℕ)
    → hi < 64
    → read ((hi + 192) ∷ a ∷ b ∷ c ∷ d ∷ e ∷ f ∷ g ∷ r)
      ≡ ok
          (g
            + f * 2 ^ 8
            + e * 2 ^ 16
            + d * 2 ^ 24
            + c * 2 ^ 32
            + b * 2 ^ 40
            + a * 2 ^ 48
            + hi * 2 ^ 56)
          r
unfolding read read_four read_eight
read_oct hi a b c d e f g r h =
    let m : bit_and (hi + 192) 0x3f ≡ hi = low_six (hi + 192) (omega arith) ∙ omega arith in
    let t : bit_and (hi + 192) 0xc0 ≡ 192 = top_two (hi + 192) (omega arith) ∙ omega arith in
    rw (m, t)

-- What `Append` adds for a number in range, in plain arithmetic.
unfoldable pub encoding : ℕ → List ℕ
encoding i =
    if leb i 63
    then i ∷ []
    else if leb i 16383
    then (i / 2 ^ 8 + 64) ∷ byte_at i 0 ∷ []
    else if leb i 1_073_741_823
    then (i / 2 ^ 24 + 128) ∷ byte_at i 16 ∷ byte_at i 8 ∷ byte_at i 0 ∷ []
    else (i / 2 ^ 56 + 192)
      ∷ byte_at i 48
      ∷ byte_at i 40
      ∷ byte_at i 32
      ∷ byte_at i 24
      ∷ byte_at i 16
      ∷ byte_at i 8
      ∷ byte_at i 0
      ∷ []

pub read-encoding : (i : ℕ) (r : List ℕ) → i ≤ max_varint → read (encoding i ++ r) ≡ ok i r
unfolding encoding
read-encoding i r h = elim (Bool-cases (leb i 63)) [
  | inl one ↦ rw one (read_one i r (ground arith))
  | inr n1 ↦ elim (Bool-cases (leb i 16383)) [
    | inl two ↦
        rw (n1, two)
          (read_two (i / 2 ^ 8) (byte_at i 0) r (ground arith)
            ∙ ap (λ (v : ℕ). ok v r) (omega arith))
    | inr n2 ↦ elim (Bool-cases (leb i 1_073_741_823)) [
      | inl four ↦
          rw (n1, n2, four)
            (read_quad (i / 2 ^ 24) _ _ _ r (ground arith) ∙ ap (λ (v : ℕ). ok v r) (omega arith))
      | inr n4 ↦
          rw (n1, n2, n4)
            (read_oct (i / 2 ^ 56) _ _ _ _ _ _ _ r (omega arith)
              ∙ ap (λ (v : ℕ). ok v r) (omega arith))
    ]
  ]
]

pub append-encoding : (b : List ℕ) (i : ℕ) → i ≤ max_varint → append b i ≡ some (b ++ encoding i)
unfolding append encoding
append-encoding b i h =
    ground (arith, tag_two (byte_at i 8), tag_four (byte_at i 24), tag_eight (byte_at i 56))

pub append_panics : (b : List ℕ) (i : ℕ) → max_varint < i → append b i ≡ none
unfolding append
append_panics b i h = ground arith

pub len-encoding : (i : ℕ) → i ≤ max_varint → len i ≡ some (length (encoding i))
unfolding len encoding
len-encoding i h = ground arith

len_panics : (i : ℕ) → max_varint < i → len i ≡ none
unfolding len
len_panics i h = ground arith

le_or_lt : (i n : ℕ) → (i ≤ n) ⊎ (n < i)
le_or_lt i n = omega arith

-- A number below 2 ^ 62 is appended without a panic, `Read` reads it back from the bytes added and
-- leaves what follows them, and `Len` is their number. Any larger number panics in both.
pub read-append :
    (b rest : List ℕ) (i : ℕ)
    → ((i ≤ max_varint)
        × (code : List ℕ) × (append b i ≡ some (b ++ code))
        × (read (code ++ rest) ≡ ok i rest)
        × (len i ≡ some (length code)))
      ⊎ ((max_varint < i) × (append b i ≡ none) × (len i ≡ none))
read-append b rest i = elim (le_or_lt i max_varint) [
  | inl h ↦ inl (h, encoding i, append-encoding b i h, read-encoding i rest h, len-encoding i h)
  | inr h ↦ inr (h, append_panics b i h, len_panics i h)
]
