-- ===== src/Web/Sessions.antt =====
-- moq-go/wt: header.go and wtsession.go. What a peer sends on a stream is the list of the bytes that
-- arrive before it ends or is read no further; the QUIC connection hands over streams in the order of
-- the lists.
use moq_quic_bbrv3_go.Prelude.{
  ℕ, ◌==◌, ◌||◌, if◌then◌else◌, Bool, List, [], ◌∷◌, ◌++◌, Option, none, some,
}
use moq_quic_bbrv3_go.Varint.{
  panics, either, Error, unknown_header, Parsed, ok, err, check, read, append,
}
use moq_quic_bbrv3_go.Wire.Params.{◌>>=◌}
use moq_quic_bbrv3_go.Web.Settings.{Setting, frame_settings, settings_bytes}
use moq_quic_bbrv3_go.Web.Frames.{
  Text, Header, Http, Frame, header_frame, frame_headers, parse_frame,
}
use moq_quic_bbrv3_go.Web.Requests.{Request, text_eq, wrap_request}

pub record StreamHeader : Type 0 where
  pub kind : ℕ
  pub id : ℕ

abbrev pub no_header : StreamHeader
no_header = record { kind = 0; id = 0 }

abbrev pub stream_control : ℕ
stream_control = 0x00

abbrev pub stream_push : ℕ
stream_push = 0x01

abbrev pub stream_qpack_encoder : ℕ
stream_qpack_encoder = 0x02

abbrev pub stream_qpack_decoder : ℕ
stream_qpack_decoder = 0x03

abbrev pub stream_uni : ℕ
stream_uni = 0x54

abbrev pub stream_bi : ℕ
stream_bi = 0x41

-- The cases of `Read` that have no id, and those that have one.
abbrev pub is_plain : ℕ → Bool
is_plain t = t == stream_control || t == stream_qpack_encoder || t == stream_qpack_decoder

abbrev pub has_id : ℕ → Bool
has_id t = t == stream_push || t == stream_uni || t == stream_bi

-- On an error the header keeps what was stored before it.
unfoldable pub read_header : List ℕ → Parsed StreamHeader
read_header r = check (read r) no_header λ t r1.
    let h : StreamHeader = record { kind = t; id = 0 } in
    if is_plain t
    then ok h r1
    else if has_id t
    then (check (read r1) h λ i r2. ok (record { kind = t; id = i }) r2)
    else err h unknown_header r1

unfoldable pub header_bytes : StreamHeader → Option (List ℕ)
header_bytes h = do
  d ← append [] h.kind
  (if h.kind == stream_push || h.kind == stream_uni then append d h.id else some d)

-- DEFAULT_SETTINGS
abbrev pub default_settings : List Setting
default_settings =
    record { key = 0x2b603742; value = 1 }
    ∷ record { key = 0x33; value = 1 }
    ∷ record { key = 0xc671706a; value = 1 }
    ∷ record { key = 0x08; value = 1 }
    ∷ record { key = 0xffd277; value = 1 }
    ∷ record { key = 0x1; value = 0 }
    ∷ record { key = 0x07; value = 0 }
    ∷ []

-- What UpgradeWTS writes on the control stream that it opens.
unfoldable pub control_bytes : Option (List ℕ)
unfolding header_bytes
control_bytes = do
  h ← header_bytes (record { kind = stream_control; id = 0 })
  s ← settings_bytes default_settings
  some (h ++ s)

-- `webtransport`
abbrev pub webtransport : Text
webtransport = 119 ∷ 101 ∷ 98 ∷ 116 ∷ 114 ∷ 97 ∷ 110 ∷ 115 ∷ 112 ∷ 111 ∷ 114 ∷ 116 ∷ []

-- `Sec-Webtransport-Http3-Draft` and `draft02`, which the response will have
abbrev pub draft_header : Header
draft_header =
    (
      83 ∷ 101 ∷ 99 ∷ 45 ∷ 87 ∷ 101 ∷ 98 ∷ 116 ∷ 114 ∷ 97 ∷ 110 ∷ 115 ∷ 112 ∷ 111 ∷ 114 ∷ 116 ∷ 45
          ∷ 72 ∷ 116 ∷ 116 ∷ 112 ∷ 51 ∷ 45 ∷ 68 ∷ 114 ∷ 97 ∷ 102 ∷ 116 ∷ [],
      (100 ∷ 114 ∷ 97 ∷ 102 ∷ 116 ∷ 48 ∷ 50 ∷ []) ∷ [],
    )
    ∷ []

pub data UpgradeError : Type 0 where
  wrong_control no_settings no_headers bad_request wrong_protocol : UpgradeError
  broken : Error → UpgradeError

pub data Upgraded (Url Int64 : Type 0) : Type 0 where
  session : Header → Request Url Int64 → Upgraded Url Int64
  refused : UpgradeError → Upgraded Url Int64

module _ {Url Int64 : Type 0} (http : Http Url Int64) where
  -- The request of a header frame. The type assertion on any other frame would panic, which is none.
  unfoldable pub upgrade_headers : Option Frame → Option (Upgraded Url Int64)
  unfolding wrap_request
  upgrade_headers (some (header_frame hfs)) = some (elim (wrap_request http hfs) [
    | none ↦ refused bad_request
    | some (req, protocol) ↦
        if text_eq protocol webtransport then session draft_header req else refused wrong_protocol
  ])
  upgrade_headers _ = none

  unfoldable pub upgrade_request : ℕ → List ℕ → Option (Upgraded Url Int64)
  unfolding upgrade_headers
  upgrade_request fuel request = do
    p ← parse_frame http fuel request
    either p (λ e r. if panics (some e) then none else some (refused (broken e)))
        λ f r. if f.0 == frame_headers then upgrade_headers f.1 else some (refused no_headers)

  -- UpgradeWTS, once both streams of the client are there: what the client sends on its control
  -- stream and on its request stream. The error of reading the stream header is not looked at.
  unfoldable pub upgrade : ℕ → List ℕ → List ℕ → Option (Upgraded Url Int64)
  unfolding upgrade_request
  upgrade fuel control request =
      let h = read_header control in
      let go = (do
        p ← parse_frame http fuel h.rest
        either p (λ e r. if panics (some e) then none else some (refused (broken e)))
            λ f r.
              if f.0 == frame_settings
              then upgrade_request fuel request
              else some (refused no_settings)) in
      if h.value.kind == stream_control then go else some (refused wrong_control)

-- OpenStream, OpenUniStream and OpenUniStreamSync: the bytes that open a stream.
unfoldable pub open_stream : Option (List ℕ)
unfolding header_bytes
open_stream = header_bytes (record { kind = stream_bi; id = 0 })

unfoldable pub open_uni_stream : Option (List ℕ)
unfolding header_bytes
open_uni_stream = header_bytes (record { kind = stream_uni; id = 0 })

-- AcceptStream on a stream that brings these bytes: those that its user will read. The error of
-- reading the header is not looked at.
unfoldable pub accept_stream : List ℕ → Option (List ℕ)
accept_stream r = let h = read_header r in if h.value.kind == stream_bi then some h.rest else none

-- A unidirectional stream: the bytes that it brings, or that it brings too few within a second.
pub data Arrival : Type 0 where
  bytes : List ℕ → Arrival
  silent : Arrival

-- ProcesUniStreams: the streams that it hands on, each as the bytes that are left of it.
unfoldable pub process_uni_streams : List Arrival → List (List ℕ)
process_uni_streams [] = []
process_uni_streams (silent ∷ xs) = process_uni_streams xs
process_uni_streams (bytes r ∷ xs) =
    let rest = process_uni_streams xs in either (read_header r) (λ e r1. []) λ h r1. r1 ∷ rest
