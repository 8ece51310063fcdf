-- ===== src/Wire/ParamLoop.antt =====
-- moq-go/moqt/wire/parameter.go: the map that `Parameters.Parse` builds from what `GetBytes` wrote.
use mathlib.Core.List.{append_assoc, append-nil}
use moq_quic_bbrv3_go.Prelude.{
  ℕ, suc, ◌≤◌, ◌≡◌, refl, sym, ap, ◌∙◌, ◌≢◌, arith, List, [], ◌∷◌, ◌++◌, some, length,
}
use moq_quic_bbrv3_go.Varint.{ok, max_varint}
use moq_quic_bbrv3_go.Varint.RoundTrip.{encoding, read-encoding, append-encoding}
use moq_quic_bbrv3_go.Wire.Params.{
  max_make, Param, int_param, string_param, Parameters, parse_int_param, parse_string_param, put,
  parse_params_loop, parse_params, params_bytes,
}
use moq_quic_bbrv3_go.Wire.Codes.{
  string_code, parse_string-code, param_code, ParamWritable, Absent, ParamsWritable, params_code,
  small-encoding, append_params-code,
}

put-Absent : (k : ℕ) (p : Param) (m : Parameters) → Absent k m → put k p m ≡ m ++ ((k, p) ∷ [])
unfolding put
put-Absent k p [] h = refl
put-Absent k p ((j, q) ∷ m) h = ground (arith, h.0, put-Absent k p m h.1)

Absent-snoc :
    (j k : ℕ) (p : Param) (m : Parameters) → Absent j m → k ≢ j → Absent j (m ++ ((k, p) ∷ []))
Absent-snoc j k p [] h n = (n, tt)
Absent-snoc j k p (x ∷ m) h n = (h.0, Absent-snoc j k p m h.1 n)

-- No key of `m` is in `acc`.
abbrev Disjoint : Parameters → Parameters → Type 0
Disjoint acc [] = Unit {0}
Disjoint acc ((k, p) ∷ m) = Absent k acc × Disjoint acc m

Disjoint-snoc :
    (acc : Parameters) (k : ℕ) (p : Param) (m : Parameters)
    → Disjoint acc m
    → Absent k m
    → Disjoint (acc ++ ((k, p) ∷ [])) m
Disjoint-snoc acc k p [] h n = tt
Disjoint-snoc acc k p ((j, q) ∷ m) h n =
    (Absent-snoc j k p acc h.0 (λ e. n.0 (sym e)), Disjoint-snoc acc k p m h.1 n.1)

Disjoint-nil : (m : Parameters) → Disjoint [] m
Disjoint-nil [] = tt
Disjoint-nil (x ∷ m) = (tt, Disjoint-nil m)

parse_int_param-code :
    (t v : ℕ) (r : List ℕ)
    → v ≤ max_varint
    → parse_int_param t ((encoding (length (encoding v)) ++ encoding v) ++ r) ≡ ok (int_param t v) r
unfolding parse_int_param
parse_int_param-code t v r h = rw (
  append_assoc (encoding (length (encoding v))) (encoding v) r,
  read-encoding (length (encoding v)) (encoding v ++ r) (small-encoding v),
  read-encoding v r h,
)

parse_string_param-code :
    (t : ℕ) (s r : List ℕ)
    → length s ≤ max_make
    → parse_string_param t (string_code s ++ r) ≡ ok (string_param t s) r
unfolding parse_string_param
parse_string_param-code t s r h = rw (parse_string-code s r h)

-- One round of the loop, on a parameter that is written and whose key is new.
parse_params_loop-step :
    (k : ℕ) (p : Param) (n : ℕ) (acc : Parameters) (r : List ℕ)
    → ParamWritable k p
    → Absent k acc
    → parse_params_loop (suc n) acc (param_code p ++ r)
      ≡ parse_params_loop n (acc ++ ((k, p) ∷ [])) r
unfolding parse_params_loop
parse_params_loop-step k (int_param t v) n acc r (a, b, c) h =
    rw (append_assoc (encoding t) _ r, read-encoding t _ (omega arith), b)
      (rw (parse_int_param-code 0 v r c, ← a, put-Absent k (int_param k v) acc h))
parse_params_loop-step k (string_param t s) n acc r (a, b, c) h =
    rw (append_assoc (encoding t) _ r, read-encoding t _ (omega arith), b)
      (rw (parse_string_param-code 1 s r c, ← a, put-Absent k (string_param k s) acc h))

parse_params_loop-code :
    (m acc : Parameters) (r : List ℕ)
    → ParamsWritable m
    → Disjoint acc m
    → parse_params_loop (length m) acc (params_code m ++ r) ≡ ok (acc ++ m) r
parse_params_loop-code [] acc r h d =
    unfold parse_params_loop in ap (λ (x : Parameters). ok x r) (sym (append-nil acc))
parse_params_loop-code ((k, p) ∷ m) acc r (a, b, c) d =
    let acc' : Parameters = acc ++ ((k, p) ∷ []) in
    let next = parse_params_loop-code m acc' r c (Disjoint-snoc acc k p m d.1 b) in
    ap (parse_params_loop (suc (length m)) acc) (append_assoc (param_code p) (params_code m) r)
    ∙ parse_params_loop-step k p (length m) acc (params_code m ++ r) a d.0
    ∙ next
    ∙ ap (λ (x : Parameters). ok x r) (append_assoc acc ((k, p) ∷ []) m)

key_bound : (k : ℕ) (p : Param) → ParamWritable k p → k ≤ 1
key_bound k (int_param t v) h = omega arith
key_bound k (string_param t s) h = omega arith

three_keys : (i j k : ℕ) → j ≢ i → k ≢ i → k ≢ j → i ≤ 1 → j ≤ 1 → k ≤ 1 → ⊥
three_keys i j k a b c p q r = omega arith

-- There are two known keys.
pub length-params : (m : Parameters) → ParamsWritable m → length m ≤ 2
length-params [] h = omega arith
length-params (a ∷ []) h = omega arith
length-params (a ∷ b ∷ []) h = omega arith
length-params ((i, p) ∷ (j, q) ∷ (k, r) ∷ m) h = absurd (
    three_keys i j k h.1.0 h.1.1.0 h.2.1.0 (key_bound i p h.0) (key_bound j q h.2.0)
      (key_bound k r h.2.2.0))

-- A parameter map as it is written: the number of entries, and the entries.
abbrev pub map_code : Parameters → List ℕ
map_code m = encoding (length m) ++ params_code m

pub parse_params-code :
    (m : Parameters) (r : List ℕ) → ParamsWritable m → parse_params (map_code m ++ r) ≡ ok m r
unfolding parse_params
parse_params-code m r h =
    rw
      (
        append_assoc (encoding (length m)) (params_code m) r,
        read-encoding (length m) _ (omega (arith, length-params m h)),
      )
      (parse_params_loop-code m [] r h (Disjoint-nil m))

pub params_bytes-code : (m : Parameters) → ParamsWritable m → params_bytes m ≡ some (map_code m)
unfolding params_bytes
params_bytes-code m h =
    rw (append-encoding [] (length m) (omega (arith, length-params m h)))
      (append_params-code (encoding (length m)) m h)
