-- ===== src/Varint.antt =====
-- quic-go-bbr/quicvarint/varint.go: QUIC's variable-length integers. A byte slice is a list of
-- numbers below 256. A panic is `none`. A reader is the list of the bytes that it has left; it
-- answers `io.EOF` when there is none.
pub mod Bytes
pub mod RoundTrip
pub mod Padding
use moq_quic_bbrv3_go.Prelude.{
  ℕ, zero, suc, ◌+◌, ◌-◌, ◌*◌, ◌/◌, ◌%◌, ◌^◌, Bool, true, false, ◌&&◌, ◌||◌, not, ltb, leb, ◌==◌,
  if◌then◌else◌, List, [], ◌∷◌, ◌++◌, Option, none, some, length,
}
use Prim.Native.Nat.{bit_and, bit_or}

pub data Error : Type 0 where
  eof unexpected_eof unknown_param unknown_message unknown_header unknown_frame bad_fields : Error
  out_of_range : Error  -- no error of Go: `make` panics, and no caller goes on

abbrev pub panics : Option Error → Bool
panics none = false
panics (some e) = elim e [ out_of_range ↦ true | _ ↦ false ]

-- Go's `(value, error)` with the reader after the call. On an error the value is what the call left.
pub record Parsed (A : Type 0) : Type 0 where
  pub value : A
  pub error : Option Error
  pub rest : List ℕ

abbrev pub ok : {A : Type 0} → A → List ℕ → Parsed A
ok a r = record { value = a; error = none; rest = r }

abbrev pub err : {A : Type 0} → A → Error → List ℕ → Parsed A
err a e r = record { value = a; error = some e; rest = r }

-- `v, err := f(reader); if err != nil { return a, err }`, and the rest of the function.
abbrev pub check : {A B : Type 0} → Parsed A → B → (A → List ℕ → Parsed B) → Parsed B
check p a k = elim p.error [ none ↦ k p.value p.rest | some e ↦ err a e p.rest ]

-- `a, err := f(reader)`, with what follows if there is an error and if there is none.
abbrev pub either :
    {A : Type 0} {B : Type 0} → Parsed A → (Error → List ℕ → B) → (A → List ℕ → B) → B
either p f k = elim p.error [ none ↦ k p.value p.rest | some e ↦ f e p.rest ]

unfoldable pub read_byte : List ℕ → Parsed ℕ
read_byte [] = err 0 eof []
read_byte (b ∷ r) = ok b r

abbrev pub max_varint : ℕ
max_varint = 4_611_686_018_427_387_903

-- `Read`: the last four bytes of an eight-byte number.
unfoldable pub read_eight : (b1 b2 b3 b4 : ℕ) → List ℕ → Parsed ℕ
unfolding read_byte
read_eight b1 b2 b3 b4 r4 = check (read_byte r4) 0 λ b5 r5. check (read_byte r5) 0 λ b6 r6.
    check (read_byte r6) 0 λ b7 r7. check (read_byte r7) 0 λ b8 r8.
      ok
        (b8
          + b7 * 2 ^ 8
          + b6 * 2 ^ 16
          + b5 * 2 ^ 24
          + b4 * 2 ^ 32
          + b3 * 2 ^ 40
          + b2 * 2 ^ 48
          + b1 * 2 ^ 56)
        r8

-- `Read`: from the third byte on.
unfoldable pub read_four : (l b1 b2 : ℕ) → List ℕ → Parsed ℕ
unfolding read_byte
read_four l b1 b2 r2 = check (read_byte r2) 0 λ b3 r3. check (read_byte r3) 0 λ b4 r4.
    if l == 4
    then ok (b4 + b3 * 2 ^ 8 + b2 * 2 ^ 16 + b1 * 2 ^ 24) r4
    else read_eight b1 b2 b3 b4 r4

unfoldable pub read : List ℕ → Parsed ℕ
unfolding read_byte
read r = check (read_byte r) 0 λ first r1.
    let l = 2 ^ (bit_and first 0xc0 / 2 ^ 6) in
    let b1 = bit_and first 0x3f in
    if l == 1
    then ok b1 r1
    else (check (read_byte r1) 0
        λ b2 r2. if l == 2 then ok (b2 + b1 * 2 ^ 8) r2 else read_four l b1 b2 r2)

-- `uint8(i >> k)`
abbrev pub byte_at : ℕ → ℕ → ℕ
byte_at i k = i / 2 ^ k % 256

unfoldable pub append : List ℕ → ℕ → Option (List ℕ)
append b i =
    if leb i 63
    then some (b ++ (byte_at i 0 ∷ []))
    else if leb i 16383
    then some (b ++ (bit_or (byte_at i 8) 0x40 ∷ byte_at i 0 ∷ []))
    else if leb i 1_073_741_823
    then some (b ++ (bit_or (byte_at i 24) 0x80 ∷ byte_at i 16 ∷ byte_at i 8 ∷ byte_at i 0 ∷ []))
    else if leb i max_varint
    then some (
        b
        ++ (bit_or (byte_at i 56) 0xc0
            ∷ byte_at i 48
            ∷ byte_at i 40
            ∷ byte_at i 32
            ∷ byte_at i 24
            ∷ byte_at i 16
            ∷ byte_at i 8
            ∷ byte_at i 0
            ∷ []))
    else none

unfoldable pub len : ℕ → Option ℕ
len i =
    if leb i 63
    then some 1
    else if leb i 16383
    then some 2
    else if leb i 1_073_741_823
    then some 4
    else if leb i max_varint
    then some 8
    else none

-- The two loops of `AppendWithLen`: zeros, and the low `l` bytes with the highest first.
unfoldable pub append_zeros : ℕ → List ℕ → List ℕ
append_zeros zero b = b
append_zeros (suc n) b = append_zeros n (b ++ (0 ∷ []))

unfoldable pub append_low_bytes : ℕ → ℕ → List ℕ → List ℕ
append_low_bytes i zero b = b
append_low_bytes i (suc l) b = append_low_bytes i l (b ++ (byte_at i (8 * l) ∷ []))

-- The first byte of a padded number.
unfoldable pub length_bits : ℕ → List ℕ
length_bits n =
    if n == 2 then 0x40 ∷ [] else if n == 4 then 0x80 ∷ [] else if n == 8 then 0xc0 ∷ [] else []

unfoldable pub append_with_len : List ℕ → ℕ → ℕ → Option (List ℕ)
append_with_len b i n = elim (len i) [
  | none ↦ none
  | some l ↦
      if not (n == 1 || n == 2 || n == 4 || n == 8)
      then none
      else if l == n
      then append b i
      else if ltb n l
      then none
      else some (append_low_bytes i l (append_zeros (n - l - 1) (b ++ length_bits n)))
]
