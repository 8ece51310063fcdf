-- ===== src/Web/ListenerLaws.antt =====
-- moq-go/moqt/moqlistener.go: which connections a listener serves.
use moq_quic_bbrv3_go.Prelude.{
  ℕ, ◌≤◌, ◌≡◌, refl, true, false, if◌then◌else◌, List, [], ◌∷◌, ◌++◌, Option, none, some, All,
  length, arith, Option-cases, inl, inr,
}
use moq_quic_bbrv3_go.Session.State.{create_session, internal_error}
use moq_quic_bbrv3_go.Web.Settings.{Setting, frame_settings}
use moq_quic_bbrv3_go.Web.Frames.{
  Text, HeaderField, Http, settings_frame, header_frame, write_header,
}
use moq_quic_bbrv3_go.Web.FrameLaws.{FrameFits, frame_code, parse_frame_endless}
use moq_quic_bbrv3_go.Web.Requests.{Request, text_eq, wrap_request}
use moq_quic_bbrv3_go.Web.Sessions.{
  stream_control, webtransport, draft_header, bad_request, wrong_protocol, upgrade_headers, upgrade,
}
use moq_quic_bbrv3_go.Web.UpgradeLaws.{control_header, upgrade_read}
use moq_quic_bbrv3_go.Web.Listener.{
  moq_protocol, h3_protocol, Connection, Incoming, plain, web_session, not_upgraded, closed_with,
  handle_moq, serve_http, serve_upgraded, handle_web_transport, handle_connection, listen,
}

module _ {Url Int64 : Type 0} (http : Http Url Int64) where
  -- A WebTransport client whose settings are one byte.
  abbrev pub stuck : ℕ → List ℕ → List ℕ → Connection
  stuck b r request = record {
    alpn = h3_protocol;
    control = stream_control ∷ frame_settings ∷ 1 ∷ b ∷ r;
    request = request;
  }

  stuck-waits :
      (fuel role b : ℕ) (r request : List ℕ)
      → handle_connection http fuel role (stuck b r request) ≡ none
  unfolding handle_connection handle_web_transport upgrade
  stuck-waits fuel role b r request =
      rw (control_header (frame_settings ∷ 1 ∷ b ∷ r), parse_frame_endless http fuel b r)

  -- A client whose settings are one byte ends the service of a listener: whatever the fuel, none of
  -- the connections that come after it is served, and those before are served as without it.
  pub listen-stuck :
      (fuel role b : ℕ) (r request : List ℕ) (before later : List Connection)
      → listen http fuel role (before ++ stuck b r request ∷ later)
        ≡ ((listen http fuel role before).0, false)
  unfolding listen
  listen-stuck fuel role b r request [] later = rw (stuck-waits fuel role b r request)
  listen-stuck fuel role b r request (c ∷ before) later =
      elim (Option-cases (handle_connection http fuel role c)) [
        | inl q ↦ rw (q)
        | inr (x, q) ↦ rw (q, listen-stuck fuel role b r request before later)
      ]

  -- A client of MoQ, of WebTransport with the settings and header fields that it sends and what follows
  -- them, or of another protocol.
  pub data Client : Type 0 where
    moq_client : Client
    web_client : List Setting → List HeaderField → (r r' : List ℕ) → Client
    other_client : (alpn : Text) → Client

  abbrev pub connect : Client → Connection
  connect moq_client = record { alpn = moq_protocol; control = []; request = [] }
  connect (web_client ss hfs r r') = record {
    alpn = h3_protocol;
    control = stream_control ∷ (frame_code http (settings_frame ss) ++ r);
    request = frame_code http (header_frame hfs) ++ r';
  }
  connect (other_client a) = record { alpn = a; control = []; request = [] }

  -- What a client sends can be written and read, and another protocol is another one.
  abbrev pub Behaved : ℕ → Client → Type 0
  Behaved fuel moq_client = Unit
  Behaved fuel (web_client ss hfs r r') =
      FrameFits http (settings_frame ss) × FrameFits http (header_frame hfs) × (length ss ≤ fuel)
  Behaved fuel (other_client a) = (text_eq a moq_protocol ≡ false) × (text_eq a h3_protocol ≡ false)

  -- What a client with these header fields is due.
  abbrev requested : List ℕ → ℕ → Option (Request Url Int64 × Text) → Incoming Url Int64
  requested response role none = not_upgraded bad_request
  requested response role (some (req, p)) =
      if text_eq p webtransport
      then web_session response req (create_session role)
      else not_upgraded wrong_protocol

  abbrev pub due : List ℕ → ℕ → Client → Incoming Url Int64
  due response role moq_client = plain (create_session role)
  due response role (web_client ss hfs r r') = requested response role (wrap_request http hfs)
  due response role (other_client a) = closed_with internal_error

  abbrev pub connect_all : List Client → List Connection
  connect_all [] = []
  connect_all (c ∷ cs) = connect c ∷ connect_all cs

  abbrev pub due_all : List ℕ → ℕ → List Client → List (Incoming Url Int64)
  due_all response role [] = []
  due_all response role (c ∷ cs) = due response role c ∷ due_all response role cs

  handle_connection-due :
      (fuel role : ℕ) (response : List ℕ) (c : Client)
      → write_header http 200 draft_header ≡ some response
      → Behaved fuel c
      → handle_connection http fuel role (connect c) ≡ some (due response role c)
  unfolding handle_connection handle_web_transport serve_upgraded serve_http handle_moq
      upgrade_headers
  handle_connection-due fuel role response moq_client w b = refl
  handle_connection-due fuel role response (web_client ss hfs r r') w b =
      rw (upgrade_read http fuel ss hfs r r' b.0 b.1 b.2)
        (elim (Option-cases (wrap_request http hfs)) [
          | inl q ↦ ground (arith)
          | inr ((req, p), q) ↦ ground (arith)
        ])
  handle_connection-due fuel role response (other_client a) w b = rw (b.0, b.1) refl

  -- A listener serves plain clients, WebTransport clients whose settings and header frames are what
  -- `GetBytes` writes, so that each of their numbers is in its shortest form, and clients of another
  -- protocol, in the order in which they come, and goes on to listen: a plain client with a session in
  -- the listener's role, a WebTransport client with the response and a session for its request, or none
  -- if its header fields are no request for WebTransport, and any other with the close of its
  -- connection. The response can be written, the numbers and lengths of the frames fit, the QPACK coder
  -- reads back what it writes of them, and the fuel is at least the number of settings of each client.
  pub listen-due_all :
      (fuel role : ℕ) (response : List ℕ) (cs : List Client)
      → write_header http 200 draft_header ≡ some response
      → All (Behaved fuel) cs
      → listen http fuel role (connect_all cs) ≡ (due_all response role cs, true)
  unfolding listen
  listen-due_all fuel role response [] w b = refl
  listen-due_all fuel role response (c ∷ cs) w b =
      rw
        (
          handle_connection-due fuel role response c w b.0,
          listen-due_all fuel role response cs w b.1,
        )
        refl
