-- ===== src/Wire/Params.antt =====
-- moq-go/moqt/wire: parameter.go, intparameter.go, stringparameter.go and object.go. A Go map is the
-- list of its entries in the order in which `range` meets them; the source leaves that order open.
use moq_quic_bbrv3_go.Prelude.{
  ℕ, zero, suc, ◌-◌, true, false, ltb, leb, ◌==◌, if◌then◌else◌, List, [], ◌∷◌, ◌++◌, Option, none,
  some, length, drop, take,
}
use moq_quic_bbrv3_go.Varint.{
  eof, unexpected_eof, unknown_param, out_of_range, panics, Parsed, ok, err, check, read, append,
  len,
}

infixl 5 ◌>>=◌
abbrev pub ◌>>=◌ : {A B : Type 0} → Option A → (A → Option B) → Option B
none >>= f = none
some a >>= f = f a

abbrev pub replicate : ℕ → ℕ → List ℕ
replicate zero a = []
replicate (suc n) a = a ∷ replicate n a

-- The length above which `make([]byte, n)` panics, on 64 bits: `maxAlloc` of the runtime. A shorter slice
-- is taken to find its memory.
abbrev pub max_make : ℕ
max_make = 281_474_976_710_656

-- `data := make([]byte, n); io.ReadFull(reader, data)`: on an error the bytes read stand in front of
-- zeros.
unfoldable pub read_full : ℕ → List ℕ → Parsed (List ℕ)
read_full n r =
    if ltb max_make n
    then err [] out_of_range r
    else if leb n (length r)
    then ok (take n r) (drop n r)
    else err (r ++ replicate (n - length r) 0) (if length r == 0 then eof else unexpected_eof) []

-- ParseVarIntString
unfoldable pub parse_string : List ℕ → Parsed (List ℕ)
parse_string r = check (read r) [] λ n r1. check (read_full n r1) [] λ str r2. ok str r2

-- GetBytesVarIntString
unfoldable pub string_bytes : List ℕ → Option (List ℕ)
string_bytes str = do bytes ← append [] (length str); some (bytes ++ str)

-- IntParameter and StringParameter; the first field is the type.
pub data Param : Type 0 where
  int_param : ℕ → ℕ → Param
  string_param : ℕ → List ℕ → Param

abbrev pub Parameters : Type 0
Parameters = List (ℕ × Param)

abbrev pub role_param : ℕ
role_param = 0

abbrev pub role_path : ℕ
role_path = 1

unfoldable pub param_type : Param → ℕ
param_type (int_param t v) = t
param_type (string_param t s) = t

-- `Value().(uint64)`: the assertion panics on a string.
unfoldable pub uint_value : Param → Option ℕ
uint_value (int_param t v) = some v
uint_value (string_param t s) = none

-- The methods `Parse` of the two kinds, on a receiver with its type set.
unfoldable pub parse_int_param : ℕ → List ℕ → Parsed Param
parse_int_param t r =
    check (read r) (int_param t 0)
      λ n r1. check (read r1) (int_param t 0) λ v r2. ok (int_param t v) r2

unfoldable pub parse_string_param : ℕ → List ℕ → Parsed Param
parse_string_param t r = check (parse_string r) (string_param t []) λ s r1. ok (string_param t s) r1

unfoldable pub param_bytes : Param → Option (List ℕ)
param_bytes (int_param t v) = do n ← len v; d1 ← append [] t; d2 ← append d1 n; append d2 v
param_bytes (string_param t s) = do d1 ← append [] t; d2 ← append d1 (length s); some (d2 ++ s)

-- `params[ptype] = param`
unfoldable pub put : ℕ → Param → Parameters → Parameters
put k p [] = (k, p) ∷ []
put k p ((j, q) ∷ m) = if j == k then (k, p) ∷ m else (j, q) ∷ put k p m

-- The default branch of the switch: the value is read and thrown away, and the parse fails.
unfoldable pub discard_param : Parameters → List ℕ → Parsed Parameters
discard_param m r = check (read r) m λ n r1.
    let body = read_full n r1 in
    err m (if panics body.error then out_of_range else unknown_param) body.rest

-- The loop of `Parameters.Parse` over the announced number of parameters.
unfoldable pub parse_params_loop : ℕ → Parameters → List ℕ → Parsed Parameters
parse_params_loop zero m r = ok m r
parse_params_loop (suc n) m r = check (read r) m λ t r1. elim (t == role_param) [
  | true ↦ check (parse_int_param t r1) m λ p r2. parse_params_loop n (put t p m) r2
  | false ↦ elim (t == role_path) [
    | true ↦ check (parse_string_param t r1) m λ p r2. parse_params_loop n (put t p m) r2
    | false ↦ discard_param m r1
  ]
]

unfoldable pub parse_params : List ℕ → Parsed Parameters
parse_params r = check (read r) [] λ n r1. parse_params_loop n [] r1

-- GetParameter: the first entry, in the map's order, whose parameter has the type.
unfoldable pub get_parameter : ℕ → Parameters → Option Param
get_parameter key [] = none
get_parameter key ((k, p) ∷ m) = if param_type p == key then some p else get_parameter key m

-- The loop of `Parameters.GetBytes`.
unfoldable pub append_params : List ℕ → Parameters → Option (List ℕ)
append_params d [] = some d
append_params d ((k, p) ∷ m) = do bytes ← param_bytes p; append_params (d ++ bytes) m

unfoldable pub params_bytes : Parameters → Option (List ℕ)
params_bytes m = do d ← append [] (length m); append_params d m

-- object.go: the error of `io.ReadFull` is ignored.
pub record Object : Type 0 where
  pub group_id : ℕ
  pub id : ℕ
  pub payload : List ℕ

unfoldable pub parse_object : Object → List ℕ → Parsed Object
parse_object o r =
    check (read r) (record o { id = 0 })
      λ id r1.
        check (read r1) (record o { id = id })
          λ n r2.
            let body = read_full n r2 in
            let o1 : Object = record o { id = id; payload = body.value } in
            if panics body.error then err o1 out_of_range body.rest else ok o1 body.rest

unfoldable pub object_bytes : Object → Option (List ℕ)
object_bytes o = do d1 ← append [] o.id; d2 ← append d1 (length o.payload); some (d2 ++ o.payload)
