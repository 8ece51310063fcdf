-- ===== src/Web/Runs.antt =====
-- moq-go/h3 and moq-go/wt: the theorems at concrete inputs, and tests. The coder of `library` knows one
-- list of fields.
use moq_quic_bbrv3_go.Prelude.{ℕ, ◌≡◌, refl, arith, true, false, List, [], ◌∷◌, ◌++◌, none, some}
use moq_quic_bbrv3_go.Varint.{ok, append}
use moq_quic_bbrv3_go.Session.State.{role_relay}
use moq_quic_bbrv3_go.Varint.RoundTrip.{encoding}
use moq_quic_bbrv3_go.Web.Frames.{
  Text, HeaderField, Http, settings_frame, header_frame, frame_bytes, parse_frame, write_header,
  headers_bytes,
}
use moq_quic_bbrv3_go.Web.FrameLaws.{frame_type, frame_code, parse_frame-frame_bytes}
use moq_quic_bbrv3_go.Web.Requests.{
  Request, path_name, method_name, authority_name, protocol_name, connect_method, https_prefix,
  wrap_request, take_fields, take_field, request_of, address, length_of, join_cookies, values_of,
}
use moq_quic_bbrv3_go.Web.Sessions.{stream_control, webtransport, draft_header, default_settings}
use moq_quic_bbrv3_go.Web.UpgradeLaws.{Admitted, upgrade-session, upgrade-Admitted}
use moq_quic_bbrv3_go.Web.Listener.{Connection, moq_protocol, listen}
use moq_quic_bbrv3_go.Web.ListenerLaws.{
  stuck, Client, moq_client, web_client, other_client, connect_all, due_all, listen-stuck,
  listen-due_all,
}

-- CONNECT to "a" with the path "/b"
abbrev connect_fields : List HeaderField
connect_fields =
    record { name = method_name; value = connect_method }
    ∷ record { name = protocol_name; value = webtransport }
    ∷ record { name = authority_name; value = 97 ∷ [] }
    ∷ record { name = path_name; value = 47 ∷ 98 ∷ [] }
    ∷ []

abbrev library : Http Text ℕ
library = record {
  decode = λ b. some connect_fields;
  encode = λ hfs. 7 ∷ 8 ∷ [];
  is_pseudo = λ n. false;
  canonical = λ n. n;
  to_lower = λ n. n;
  itoa = λ n. n ∷ [];
  parse_int = λ s. none;
  parse_request_uri = λ s. some s;
  zero_int = 0;
}

abbrev connect_request : Request Text ℕ
connect_request = record {
  method = connect_method;
  url = https_prefix ++ 97 ∷ 47 ∷ 98 ∷ [];
  header = [];
  content_length = 0;
  host = 97 ∷ [];
  request_uri = 47 ∷ 98 ∷ [];
}

parse_frame-frame_bytes_example :
    let f = settings_frame default_settings in
    (code : List ℕ) × (frame_bytes library f ≡ some code)
    × (parse_frame library 7 (code ++ 1 ∷ []) ≡ some (ok (frame_type library f, some f) (1 ∷ [])))
unfolding encoding
parse_frame-frame_bytes_example =
    parse_frame-frame_bytes library 7 (settings_frame default_settings) (1 ∷ [])
      (
        (
          (omega arith, omega arith),
          (
            (omega arith, omega arith),
            (
              (omega arith, omega arith),
              (
                (omega arith, omega arith),
                (
                  (omega arith, omega arith),
                  ((omega arith, omega arith), ((omega arith, omega arith), tt)),
                ),
              ),
            ),
          ),
        ),
        omega arith,
      )
      (omega arith)

abbrev control : List ℕ
control = stream_control ∷ (frame_code library (settings_frame []) ++ [])

abbrev request : List ℕ
request = frame_code library (header_frame connect_fields) ++ []

upgrade-Admitted_example : Admitted library 0 control request connect_request
unfolding wrap_request take_fields take_field request_of address length_of join_cookies values_of
upgrade-Admitted_example = upgrade-Admitted library 0 control request draft_header connect_request (
    upgrade-session library 0 [] connect_fields [] [] connect_request (tt, omega arith)
      (refl, omega arith) (omega arith) refl)

-- A plain connection.
abbrev plain_one : Connection
plain_one = record { alpn = moq_protocol; control = []; request = [] }

listen-stuck_example :
    listen library 100 role_relay (plain_one ∷ stuck library 9 [] [] ∷ plain_one ∷ [])
    ≡ ((listen library 100 role_relay (plain_one ∷ [])).0, false)
listen-stuck_example = listen-stuck library 100 role_relay 9 [] [] (plain_one ∷ []) (plain_one ∷ [])

-- One of each kind, the second without settings, the last with the protocol "x".
abbrev clients : List (Client library)
clients = moq_client ∷ web_client [] connect_fields [] [] ∷ other_client (120 ∷ []) ∷ []

listen-due_all_example :
    listen library 0 role_relay (connect_all library clients)
    ≡ (due_all library (1 ∷ 2 ∷ 7 ∷ 8 ∷ []) role_relay clients, true)
unfolding write_header headers_bytes append
listen-due_all_example =
    listen-due_all library 0 role_relay (1 ∷ 2 ∷ 7 ∷ 8 ∷ []) clients refl
      (tt, (((tt, omega arith), (refl, omega arith), omega arith), ((refl, refl), tt)))
