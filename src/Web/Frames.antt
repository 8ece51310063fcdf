-- ===== src/Web/Frames.antt =====
-- moq-go/h3: frame.go, dataframe.go, headerframe.go and responsewriter.go. What the files call outside
-- the repository is the argument `Http`: the QPACK coder, net/http, net/url, strconv and strings.
-- Texts are lists of bytes.
use moq_quic_bbrv3_go.Prelude.{
  ℕ, ◌==◌, ◌||◌, if◌then◌else◌, Bool, List, [], ◌∷◌, ◌++◌, Option, none, some, length,
}
use moq_quic_bbrv3_go.Varint.{
  unknown_frame, bad_fields, out_of_range, panics, either, Parsed, ok, err, check, read, append,
}
use moq_quic_bbrv3_go.Wire.Params.{◌>>=◌, read_full}
use moq_quic_bbrv3_go.Web.Settings.{Setting, frame_settings, parse_settings, settings_bytes}

abbrev pub Text : Type 0
Text = List ℕ

-- `qpack.HeaderField`
pub record HeaderField : Type 0 where
  pub name : Text
  pub value : Text

-- `http.Header`, in the order of `range`: the values of each name.
abbrev pub Header : Type 0
Header = List (Text × List Text)

-- `decode` answers none where the decoder reports an error before the end. `Url` and `Int64` are what
-- ParseRequestURI and ParseInt give, `itoa` is strconv.Itoa, `text_eq` compares, `canonical` is the
-- form of a name that http.Header keeps.
pub record Http (Url Int64 : Type 0) : Type 0 where
  pub decode : List ℕ → Option (List HeaderField)
  pub encode : List HeaderField → List ℕ
  pub is_pseudo : Text → Bool
  pub canonical : Text → Text
  pub to_lower : Text → Text
  pub itoa : ℕ → Text
  pub parse_int : Text → Option Int64
  pub parse_request_uri : Text → Option Url
  pub zero_int : Int64

pub data Frame : Type 0 where
  settings_frame : List Setting → Frame
  header_frame : List HeaderField → Frame
  data_frame : List ℕ → Frame

abbrev pub frame_data : ℕ
frame_data = 0x00

abbrev pub frame_headers : ℕ
frame_headers = 0x01

abbrev pub frame_uni_stream : ℕ
frame_uni_stream = 0x54

abbrev pub frame_bi_stream : ℕ
frame_bi_stream = 0x41

-- `make` and `io.ReadFull`, whose error is not looked at: a payload that ends early is filled with
-- zeros.
unfoldable pub read_payload : List ℕ → Parsed (List ℕ)
read_payload r = check (read r) [] λ n r1.
    let p = read_full n r1 in
    if panics p.error then err [] out_of_range p.rest else ok p.value p.rest

unfoldable pub parse_data : List ℕ → Parsed (List ℕ)
unfolding read_payload
parse_data r = read_payload r

unfoldable pub data_bytes : List ℕ → Option (List ℕ)
data_bytes body = do d ← append [] frame_data; d1 ← append d (length body); some (d1 ++ body)

-- `ResponseWriter.Write`: the bytes that go to the stream.
unfoldable pub write_body : List ℕ → Option (List ℕ)
write_body body = data_bytes body

-- `:status`
abbrev pub status_name : Text
status_name = 58 ∷ 115 ∷ 116 ∷ 97 ∷ 116 ∷ 117 ∷ 115 ∷ []

-- A parsed frame under its type, or what the parser of its kind reported.
abbrev pub wrap_frame : {A : Type 0} → ℕ → (A → Frame) → Parsed A → Parsed (ℕ × Option Frame)
wrap_frame ftype f p = check p (ftype, none) λ a r. ok (ftype, some (f a)) r

module _ {Url Int64 : Type 0} (http : Http Url Int64) where
  open http use {decode, encode, to_lower, itoa}

  unfoldable pub parse_headers : List ℕ → Parsed (List HeaderField)
  unfolding read_payload
  parse_headers r =
      check (read_payload r) []
        λ body r1. elim (decode body) [ none ↦ err [] bad_fields r1 | some hfs ↦ ok hfs r1 ]

  unfoldable pub headers_bytes : List HeaderField → Option (List ℕ)
  headers_bytes hfs = do
    d ← append [] frame_headers
    let bytes = encode hfs
    d1 ← append d (length bytes)
    some (d1 ++ bytes)

  -- `fuel` is for the loop over the settings.
  unfoldable pub parse_frame_as : ℕ → ℕ → List ℕ → Option (Parsed (ℕ × Option Frame))
  parse_frame_as fuel ftype r =
      if ftype == frame_settings
      then (do p ← parse_settings fuel r; some (wrap_frame ftype settings_frame p))
      else if ftype == frame_headers
      then some (wrap_frame ftype header_frame (parse_headers r))
      else if ftype == frame_data || ftype == frame_bi_stream || ftype == frame_uni_stream
      then some (wrap_frame ftype data_frame (parse_data r))
      else some (check (read_payload r) (ftype, none) λ body r1. err (ftype, none) unknown_frame r1)

  unfoldable pub parse_frame : ℕ → List ℕ → Option (Parsed (ℕ × Option Frame))
  unfolding parse_frame_as
  parse_frame fuel r =
      either (read r) (λ e r1. some (err (0, none) e r1)) λ ftype r1. parse_frame_as fuel ftype r1

  -- The method `GetBytes` of each kind of frame.
  unfoldable pub frame_bytes : Frame → Option (List ℕ)
  unfolding headers_bytes
  frame_bytes (settings_frame ss) = settings_bytes ss
  frame_bytes (header_frame hfs) = headers_bytes hfs
  frame_bytes (data_frame body) = data_bytes body

  -- The loops over the values of a name, and over the names.
  unfoldable pub value_fields : Text → List Text → List HeaderField
  value_fields k [] = []
  value_fields k (v ∷ vs) = record { name = to_lower k; value = v } ∷ value_fields k vs

  unfoldable pub response_fields : Header → List HeaderField
  unfolding value_fields
  response_fields [] = []
  response_fields ((k, vs) ∷ h) = value_fields k vs ++ response_fields h

  -- `ResponseWriter.WriteHeader`: the bytes that go to the stream.
  unfoldable pub write_header : ℕ → Header → Option (List ℕ)
  unfolding response_fields headers_bytes
  write_header status header =
      headers_bytes (record { name = status_name; value = itoa status } ∷ response_fields header)
