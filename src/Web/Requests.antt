-- ===== src/Web/Requests.antt =====
-- moq-go/h3/headerframe.go: `WrapRequest`, from the fields of a header frame to a request.
use moq_quic_bbrv3_go.Prelude.{
  ◌==◌, ◌&&◌, if◌then◌else◌, Bool, true, false, List, [], ◌∷◌, ◌++◌, Option, some, length, ltb,
}
use moq_quic_bbrv3_go.Wire.Params.{◌>>=◌}
use moq_quic_bbrv3_go.Web.Frames.{Text, HeaderField, Header, Http}

-- `==` on texts
abbrev pub text_eq : Text → Text → Bool
text_eq [] [] = true
text_eq (a ∷ s) (b ∷ t) = a == b && text_eq s t
text_eq s t = false

-- `:path`, `:method`, `:authority`, `:protocol`, `content-length`, `Cookie`, `CONNECT` and `; `
abbrev pub path_name : Text
path_name = 58 ∷ 112 ∷ 97 ∷ 116 ∷ 104 ∷ []

abbrev pub method_name : Text
method_name = 58 ∷ 109 ∷ 101 ∷ 116 ∷ 104 ∷ 111 ∷ 100 ∷ []

abbrev pub authority_name : Text
authority_name = 58 ∷ 97 ∷ 117 ∷ 116 ∷ 104 ∷ 111 ∷ 114 ∷ 105 ∷ 116 ∷ 121 ∷ []

abbrev pub protocol_name : Text
protocol_name = 58 ∷ 112 ∷ 114 ∷ 111 ∷ 116 ∷ 111 ∷ 99 ∷ 111 ∷ 108 ∷ []

abbrev pub content_length_name : Text
content_length_name =
    99 ∷ 111 ∷ 110 ∷ 116 ∷ 101 ∷ 110 ∷ 116 ∷ 45 ∷ 108 ∷ 101 ∷ 110 ∷ 103 ∷ 116 ∷ 104 ∷ []

abbrev pub cookie_name : Text
cookie_name = 67 ∷ 111 ∷ 111 ∷ 107 ∷ 105 ∷ 101 ∷ []

abbrev pub connect_method : Text
connect_method = 67 ∷ 79 ∷ 78 ∷ 78 ∷ 69 ∷ 67 ∷ 84 ∷ []

-- `https://`
abbrev pub https_prefix : Text
https_prefix = 104 ∷ 116 ∷ 116 ∷ 112 ∷ 115 ∷ 58 ∷ 47 ∷ 47 ∷ []

-- The local variables of the loop over the fields.
pub record Fields : Type 0 where
  pub path : Text
  pub authority : Text
  pub method : Text
  pub content_length : Text
  pub protocol : Text
  pub headers : Header

abbrev pub no_fields : Fields
no_fields = record {
  path = [];
  authority = [];
  method = [];
  content_length = [];
  protocol = [];
  headers = [];
}

-- The fields of `http.Request` that depend on the frame.
pub record Request (Url Int64 : Type 0) : Type 0 where
  pub method : Text
  pub url : Url
  pub header : Header
  pub content_length : Int64
  pub host : Text
  pub request_uri : Text

-- `h[k] = append(h[k], v)` and `h[k] = []string{v}`, on keys in canonical form
unfoldable pub add_value : Text → Text → Header → Header
add_value k v [] = (k, v ∷ []) ∷ []
add_value k v ((j, vs) ∷ h) =
    let rest = add_value k v h in if text_eq j k then (k, vs ++ v ∷ []) ∷ h else (j, vs) ∷ rest

unfoldable pub set_value : Text → Text → Header → Header
set_value k v [] = (k, v ∷ []) ∷ []
set_value k v ((j, vs) ∷ h) =
    let rest = set_value k v h in if text_eq j k then (k, v ∷ []) ∷ h else (j, vs) ∷ rest

unfoldable pub values_of : Text → Header → List Text
values_of k [] = []
values_of k ((j, vs) ∷ h) = let rest = values_of k h in if text_eq j k then vs else rest

-- `strings.Join(values, "; ")`
unfoldable pub join : List Text → Text
join [] = []
join (v ∷ []) = v
join (v ∷ w ∷ vs) = v ++ 59 ∷ 32 ∷ join (w ∷ vs)

unfoldable pub join_cookies : Header → Header
unfolding set_value values_of join
join_cookies h =
    let vs = values_of cookie_name h in
    if ltb 0 (length vs) then set_value cookie_name (join vs) h else h

module _ {Url Int64 : Type 0} (http : Http Url Int64) where
  open http use {is_pseudo, canonical, parse_int, parse_request_uri, zero_int}

  unfoldable pub take_field : HeaderField → Fields → Fields
  unfolding add_value
  take_field h f =
      if text_eq h.name path_name
      then record f { path = h.value }
      else if text_eq h.name method_name
      then record f { method = h.value }
      else if text_eq h.name authority_name
      then record f { authority = h.value }
      else if text_eq h.name protocol_name
      then record f { protocol = h.value }
      else if text_eq h.name content_length_name
      then record f { content_length = h.value }
      else if is_pseudo h.name
      then f
      else record f { headers = add_value (canonical h.name) h.value f.headers }

  unfoldable pub take_fields : List HeaderField → Fields → Fields
  unfolding take_field
  take_fields [] f = f
  take_fields (h ∷ hs) f = take_fields hs (take_field h f)

  unfoldable pub length_of : Text → Option Int64
  length_of [] = some zero_int
  length_of (a ∷ s) = parse_int (a ∷ s)

  -- The address that is parsed.
  unfoldable pub address : Fields → Text
  address f =
      if text_eq f.method connect_method then https_prefix ++ (f.authority ++ f.path) else f.path

  -- WrapRequest after its loop: the request and the protocol; none is an error of ParseInt or of
  -- ParseRequestURI.
  unfoldable pub request_of : Fields → Option (Request Url Int64 × Text)
  unfolding length_of address join_cookies
  request_of f = do
    n ← length_of f.content_length
    u ← parse_request_uri (address f)
    some (
      record {
        method = f.method;
        url = u;
        header = join_cookies f.headers;
        content_length = n;
        host = f.authority;
        request_uri = f.path;
      },
      f.protocol,
    )

  unfoldable pub wrap_request : List HeaderField → Option (Request Url Int64 × Text)
  unfolding take_fields request_of
  wrap_request hfs = request_of (take_fields hfs no_fields)
