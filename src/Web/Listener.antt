-- ===== src/Web/Listener.antt =====
-- moq-go/moqt/moqlistener.go: the loop of a listener over the QUIC connections that come in. A
-- connection is the protocol that TLS chose and, for `h3`, what its client sends on the two streams that
-- UpgradeWTS waits for. A goroutine that is started runs at once, as far as the session is made. `none`
-- is a panic, or an upgrade that has not ended on its fuel. Addresses, certificates and the
-- configuration are left out.
use moq_quic_bbrv3_go.Prelude.{
  ℕ, Bool, true, false, if◌then◌else◌, List, [], ◌∷◌, Option, none, some,
}
use moq_quic_bbrv3_go.Wire.Params.{◌>>=◌}
use moq_quic_bbrv3_go.Session.State.{Session, create_session, internal_error}
use moq_quic_bbrv3_go.Web.Frames.{Text, Header, Http, write_header}
use moq_quic_bbrv3_go.Web.Requests.{Request, text_eq}
use moq_quic_bbrv3_go.Web.Sessions.{UpgradeError, Upgraded, session, refused, upgrade}

-- `moq-00` and `h3`
abbrev pub moq_protocol : Text
moq_protocol = 109 ∷ 111 ∷ 113 ∷ 45 ∷ 48 ∷ 48 ∷ []

abbrev pub h3_protocol : Text
h3_protocol = 104 ∷ 51 ∷ []

pub record Connection : Type 0 where
  pub alpn : Text
  pub control : List ℕ
  pub request : List ℕ

-- What becomes of a connection. A session is `none` if its role is unknown.
pub data Incoming (Url Int64 : Type 0) : Type 0 where
  plain : Option Session → Incoming Url Int64
  web_session : (response : List ℕ) → Request Url Int64 → Option Session → Incoming Url Int64
  not_upgraded : UpgradeError → Incoming Url Int64
  closed_with : (code : ℕ) → Incoming Url Int64

unfoldable pub handle_moq : {Url Int64 : Type 0} → ℕ → Incoming Url Int64
handle_moq role = plain (create_session role)

module _ {Url Int64 : Type 0} (http : Http Url Int64) where
  -- The handler of `Listen`: AcceptSession writes the response, 200.
  unfoldable pub serve_http : ℕ → Header → Request Url Int64 → Option (Incoming Url Int64)
  serve_http role h req = do
    response ← write_header http 200 h
    some (web_session response req (create_session role))

  unfoldable pub serve_upgraded : ℕ → Upgraded Url Int64 → Option (Incoming Url Int64)
  unfolding serve_http
  serve_upgraded role (session h req) = serve_http role h req
  serve_upgraded role (refused e) = some (not_upgraded e)

  unfoldable pub handle_web_transport : ℕ → ℕ → Connection → Option (Incoming Url Int64)
  unfolding serve_upgraded
  handle_web_transport fuel role c = do
    u ← upgrade http fuel c.control c.request
    serve_upgraded role u

  unfoldable pub handle_connection : ℕ → ℕ → Connection → Option (Incoming Url Int64)
  unfolding handle_moq handle_web_transport
  handle_connection fuel role c =
      if text_eq c.alpn moq_protocol
      then some (handle_moq role)
      else if text_eq c.alpn h3_protocol
      then handle_web_transport fuel role c
      else some (closed_with internal_error)

  -- What the loop does with a connection, and with those behind it; the Boolean says whether the
  -- loop still runs.
  abbrev pub go_on :
      Option (Incoming Url Int64)
      → List (Incoming Url Int64) × Bool
      → List (Incoming Url Int64) × Bool
  go_on none later = ([], false)
  go_on (some x) later = (x ∷ later.0, later.1)

  unfoldable pub listen : ℕ → ℕ → List Connection → List (Incoming Url Int64) × Bool
  unfolding handle_connection
  listen fuel role [] = ([], true)
  listen fuel role (c ∷ cs) = go_on (handle_connection fuel role c) (listen fuel role cs)
