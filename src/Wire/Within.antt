-- ===== src/Wire/Within.antt =====
-- moq-go/moqt/wire: no parser of a number, of a string or of parameters puts bytes back.
use moq_quic_bbrv3_go.Prelude.{ℕ, zero, suc, ◌≤◌, arith, List, [], ◌∷◌, length, length-drop}
use moq_quic_bbrv3_go.Varint.{Parsed, read_byte, read_eight, read_four, read}
use moq_quic_bbrv3_go.Wire.Params.{
  read_full, parse_string, Parameters, put, discard_param, parse_int_param, parse_string_param,
  parse_params_loop, parse_params,
}

-- At most `n` bytes are left.
abbrev pub Within : {A : Type 0} → ℕ → Parsed A → Type 0
Within n p = length p.rest ≤ n

pub read_byte-Within : (n : ℕ) (r : List ℕ) → length r ≤ n → Within n (read_byte r)
unfolding read_byte
read_byte-Within n [] h = h
read_byte-Within n (x ∷ r) h = omega arith

pub read-shorter : (b : ℕ) (r : List ℕ) → Within (length r) (read (b ∷ r))
unfolding read read_four read_eight read_byte
read-shorter b [] = ground arith
read-shorter b (b2 ∷ []) = ground arith
read-shorter b (b2 ∷ b3 ∷ []) = ground arith
read-shorter b (b2 ∷ b3 ∷ b4 ∷ []) = ground arith
read-shorter b (b2 ∷ b3 ∷ b4 ∷ b5 ∷ []) = ground arith
read-shorter b (b2 ∷ b3 ∷ b4 ∷ b5 ∷ b6 ∷ []) = ground arith
read-shorter b (b2 ∷ b3 ∷ b4 ∷ b5 ∷ b6 ∷ b7 ∷ []) = ground arith
read-shorter b (b2 ∷ b3 ∷ b4 ∷ b5 ∷ b6 ∷ b7 ∷ b8 ∷ r) = ground arith

pub read-Within : (n : ℕ) (r : List ℕ) → length r ≤ n → Within n (read r)
read-Within n [] h = unfold read read_byte in omega arith
read-Within n (b ∷ r) h = omega (arith, read-shorter b r)

pub read_full-Within : (n k : ℕ) (r : List ℕ) → length r ≤ n → Within n (read_full k r)
unfolding read_full
read_full-Within n k r h = ground (arith, length-drop k r)

pub parse_string-Within : (n : ℕ) (r : List ℕ) → length r ≤ n → Within n (parse_string r)
unfolding parse_string
parse_string-Within n r h =
    let a = read r in ground (arith, read-Within n r h, read_full-Within n a.value a.rest)

parse_int_param-Within : (n t : ℕ) (r : List ℕ) → length r ≤ n → Within n (parse_int_param t r)
unfolding parse_int_param
parse_int_param-Within n t r h = ground (arith, read-Within n r h, read-Within n (read r).rest)

parse_string_param-Within :
    (n t : ℕ) (r : List ℕ) → length r ≤ n → Within n (parse_string_param t r)
unfolding parse_string_param
parse_string_param-Within n t r h = ground (arith, parse_string-Within n r h)

discard_param-Within :
    (n : ℕ) (m : Parameters) (r : List ℕ) → length r ≤ n → Within n (discard_param m r)
unfolding discard_param
discard_param-Within n m r h =
    let a = read r in ground (arith, read-Within n r h, read_full-Within n a.value a.rest)

parse_params_loop-Within :
    (n k : ℕ) (m : Parameters) (r : List ℕ) → length r ≤ n → Within n (parse_params_loop k m r)
unfolding parse_params_loop
parse_params_loop-Within n zero m r h = h
parse_params_loop-Within n (suc k) m r h =
    let a = read r in
    let i = parse_int_param a.value a.rest in
    let s = parse_string_param a.value a.rest in
    ground (
      arith,
      read-Within n r h,
      parse_int_param-Within n a.value a.rest,
      parse_string_param-Within n a.value a.rest,
      discard_param-Within n m a.rest,
      parse_params_loop-Within n k (put a.value i.value m) i.rest,
      parse_params_loop-Within n k (put a.value s.value m) s.rest,
    )

pub parse_params-Within : (n : ℕ) (r : List ℕ) → length r ≤ n → Within n (parse_params r)
unfolding parse_params
parse_params-Within n r h =
    let a = read r in
    ground (arith, read-Within n r h, parse_params_loop-Within n a.value [] a.rest)
