-- ===== src/Session/Typed.antt =====
-- moq-go/moqt/wire: the parameters that the parser builds under the role's key are numbers, so the type
-- assertion of `GetRoleParam` holds on every message that was parsed.
use moq_quic_bbrv3_go.Prelude.{ℕ, zero, suc, ◌≡◌, ◌≢◌, arith, List, [], ◌∷◌, Option, none, some}
use moq_quic_bbrv3_go.Varint.{read}
use moq_quic_bbrv3_go.Wire.Params.{
  Param, int_param, string_param, Parameters, param_type, uint_value, get_parameter, put,
  discard_param, parse_int_param, parse_string_param, parse_params_loop, parse_params,
}
use moq_quic_bbrv3_go.Wire.Messages.{
  Message, client_setup, server_setup, parse_client_setup, parse_server_setup, parse_versions,
  parse_body, parse_message,
}
use moq_quic_bbrv3_go.Session.State.{get_role_param}

-- A string does not have the role's type.
abbrev pub IsTyped : Param → Type 0
IsTyped (int_param t v) = Unit {0}
IsTyped (string_param t s) = t ≢ 0

abbrev pub AllTyped : Parameters → Type 0
AllTyped [] = Unit {0}
AllTyped ((k, p) ∷ m) = IsTyped p × AllTyped m

put-AllTyped : (k : ℕ) (p : Param) (m : Parameters) → IsTyped p → AllTyped m → AllTyped (put k p m)
unfolding put
put-AllTyped k p [] h hs = (h, tt)
put-AllTyped k p ((j, q) ∷ m) h hs = ground (arith, put-AllTyped k p m h hs.1)

parse_int_param-IsTyped : (t : ℕ) (r : List ℕ) → IsTyped (parse_int_param t r).value
unfolding parse_int_param
parse_int_param-IsTyped t r = ground arith

parse_string_param-IsTyped : (t : ℕ) (r : List ℕ) → t ≢ 0 → IsTyped (parse_string_param t r).value
unfolding parse_string_param
parse_string_param-IsTyped t r h = ground arith

discard_param-value : (m : Parameters) (r : List ℕ) → (discard_param m r).value ≡ m
unfolding discard_param
discard_param-value m r = ground arith

parse_params_loop-AllTyped :
    (n : ℕ) (m : Parameters) (r : List ℕ) → AllTyped m → AllTyped (parse_params_loop n m r).value
unfolding parse_params_loop
parse_params_loop-AllTyped zero m r h = h
parse_params_loop-AllTyped (suc n) m r h =
    let a = read r in
    let i = parse_int_param a.value a.rest in
    let s = parse_string_param a.value a.rest in
    grind (
      arith,
      parse_int_param-IsTyped a.value a.rest,
      parse_string_param-IsTyped a.value a.rest,
      put-AllTyped a.value i.value m,
      put-AllTyped a.value s.value m,
      discard_param-value m a.rest,
      parse_params_loop-AllTyped n (put a.value i.value m) i.rest,
      parse_params_loop-AllTyped n (put a.value s.value m) s.rest,
    )

parse_params-AllTyped : (r : List ℕ) → AllTyped (parse_params r).value
unfolding parse_params
parse_params-AllTyped r =
    let a = read r in ground (arith, parse_params_loop-AllTyped a.value [] a.rest tt)

-- The setup messages with typed parameters, and every other message.
abbrev pub MessageTyped : Message → Type 0
MessageTyped (client_setup s) = AllTyped s.params
MessageTyped (server_setup s) = AllTyped s.params
MessageTyped _ = Unit {0}

parse_client_setup-AllTyped : (r : List ℕ) → AllTyped (parse_client_setup r).value.params
unfolding parse_client_setup
parse_client_setup-AllTyped r =
    let v = parse_versions (read r).value [] (read r).rest in
    ground (arith, parse_params-AllTyped v.rest)

parse_server_setup-AllTyped : (r : List ℕ) → AllTyped (parse_server_setup r).value.params
unfolding parse_server_setup
parse_server_setup-AllTyped r = ground (arith, parse_params-AllTyped (read r).rest)

abbrev pub SomeTyped : Option Message → Type 0
SomeTyped none = ⊥
SomeTyped (some m) = MessageTyped m

parse_body-SomeTyped :
    (t : ℕ) (r : List ℕ) → (parse_body t r).error ≡ none → SomeTyped (parse_body t r).value
unfolding parse_body
parse_body-SomeTyped t r h =
    ground (arith, parse_client_setup-AllTyped r, parse_server_setup-AllTyped r)

-- What ParseMOQTMessage answers without an error is a message, and no string of a setup message among
-- them has the type of the role, so that its type assertion to a number holds.
pub parse_message-SomeTyped :
    (r : List ℕ) → (parse_message r).error ≡ none → SomeTyped (parse_message r).value
unfolding parse_message
parse_message-SomeTyped r h = ground (arith, parse_body-SomeTyped (read r).value (read r).rest)

pub get_role_param-returns : (m : Parameters) → AllTyped m → get_role_param m ≢ none
unfolding get_role_param get_parameter param_type uint_value
get_role_param-returns [] h = λ e. cc
get_role_param-returns ((k, int_param t v) ∷ m) h = ground (arith, get_role_param-returns m h.1)
get_role_param-returns ((k, string_param t v) ∷ m) h = ground (arith, get_role_param-returns m h.1)
