-- ===== src/Wire/Codes.antt =====
-- moq-go/moqt/wire: strings and parameters survive a round trip. `codes` and the like say what is
-- written, in terms of `encoding` of a number.
use mathlib.Core.List.{append_assoc, append-nil}
use moq_quic_bbrv3_go.Prelude.{
  ℕ, ◌≤◌, ◌≡◌, refl, sym, ap, ◌∙◌, ◌≢◌, arith, List, [], ◌∷◌, ◌++◌, some, length, drop, take,
  length-append, le→leb, le→ltb_false,
}
use moq_quic_bbrv3_go.Varint.{ok, max_varint}
use moq_quic_bbrv3_go.Varint.RoundTrip.{encoding, read-encoding, append-encoding, len-encoding}
use moq_quic_bbrv3_go.Wire.Params.{
  max_make, read_full, parse_string, string_bytes, Param, int_param, string_param, Parameters,
  param_bytes, append_params,
}

take-append : (s r : List ℕ) → take (length s) (s ++ r) ≡ s
take-append [] r = refl
take-append (x ∷ s) r = ap (λ (t : List ℕ). x ∷ t) (take-append s r)

drop-append : (s r : List ℕ) → drop (length s) (s ++ r) ≡ r
drop-append [] r = refl
drop-append (x ∷ s) r = drop-append s r

pub read_full-append : (s r : List ℕ) → length s ≤ max_make → read_full (length s) (s ++ r) ≡ ok s r
unfolding read_full
read_full-append s r h =
    let fits : length s ≤ length (s ++ r) = omega (arith, length-append s r) in
    rw (le→ltb_false _ _ h, le→leb _ _ fits, take-append s r, drop-append s r)

-- A string's length and its bytes.
abbrev pub string_code : List ℕ → List ℕ
string_code s = encoding (length s) ++ s

pub parse_string-code :
    (s r : List ℕ) → length s ≤ max_make → parse_string (string_code s ++ r) ≡ ok s r
unfolding parse_string
parse_string-code s r h = rw (
  append_assoc (encoding (length s)) s r,
  read-encoding (length s) (s ++ r) (omega arith),
  read_full-append s r h,
)

pub string_bytes-code : (s : List ℕ) → length s ≤ max_make → string_bytes s ≡ some (string_code s)
unfolding string_bytes
string_bytes-code s h = rw (append-encoding [] (length s) (omega arith))

-- What is written of a parameter.
abbrev pub param_code : Param → List ℕ
param_code (int_param t v) = encoding t ++ (encoding (length (encoding v)) ++ encoding v)
param_code (string_param t s) = encoding t ++ string_code s

-- A parameter that the parser knows, under its key, with values that can be written and read.
abbrev pub ParamWritable : ℕ → Param → Type 0
ParamWritable k (int_param t v) = (k ≡ 0) × (t ≡ 0) × (v ≤ max_varint)
ParamWritable k (string_param t s) = (k ≡ 1) × (t ≡ 1) × (length s ≤ max_make)

-- No entry has the key.
abbrev pub Absent : ℕ → Parameters → Type 0
Absent k [] = Unit {0}
Absent k ((j, p) ∷ m) = (j ≢ k) × Absent k m

-- The entries of a map of known parameters.
abbrev pub ParamsWritable : Parameters → Type 0
ParamsWritable [] = Unit {0}
ParamsWritable ((k, p) ∷ m) = ParamWritable k p × Absent k m × ParamsWritable m

abbrev pub params_code : Parameters → List ℕ
params_code [] = []
params_code ((k, p) ∷ m) = param_code p ++ params_code m

pub small-encoding : (v : ℕ) → length (encoding v) ≤ max_varint
unfolding encoding
small-encoding v = ground arith

param_bytes-code : (k : ℕ) (p : Param) → ParamWritable k p → param_bytes p ≡ some (param_code p)
unfolding param_bytes
param_bytes-code k (int_param t v) (a, b, c) =
    rw
      (
        len-encoding v c,
        append-encoding [] t (omega arith),
        append-encoding (encoding t) (length (encoding v)) (small-encoding v),
        append-encoding _ v c,
      )
      (ap (λ (d : List ℕ). some d) (append_assoc (encoding t) _ _))
param_bytes-code k (string_param t s) (a, b, c) =
    rw (append-encoding [] t (omega arith), append-encoding (encoding t) (length s) (omega arith))
      (ap (λ (d : List ℕ). some d) (append_assoc (encoding t) _ _))

pub append_params-code :
    (d : List ℕ) (m : Parameters) → ParamsWritable m → append_params d m ≡ some (d ++ params_code m)
unfolding append_params
append_params-code d [] h = ap (λ (c : List ℕ). some c) (sym (append-nil d))
append_params-code d ((k, p) ∷ m) (a, b, c) = rw (param_bytes-code k p a) (
    append_params-code (d ++ param_code p) m c
    ∙ ap (λ (e : List ℕ). some e) (append_assoc d (param_code p) (params_code m)))
