-- ===== src/Wire/Opening.antt =====
-- moq-go/moqt/wire: ANNOUNCE, CLIENT_SETUP and SERVER_SETUP, read back from what is written of them.
use mathlib.Core.List.{append_assoc, append-nil}
use moq_quic_bbrv3_go.Prelude.{ℕ, ◌≤◌, ◌≡◌, ap, ◌∙◌, arith, List, [], ◌∷◌, ◌++◌, some, length, All}
use moq_quic_bbrv3_go.Wire.Params.{max_make}
use moq_quic_bbrv3_go.Varint.{ok, max_varint}
use moq_quic_bbrv3_go.Varint.RoundTrip.{encoding, read-encoding, append-encoding}
use moq_quic_bbrv3_go.Wire.Codes.{
  string_code, parse_string-code, ParamsWritable, append_params-code,
}
use moq_quic_bbrv3_go.Wire.ParamLoop.{map_code, parse_params-code, params_bytes-code, length-params}
use moq_quic_bbrv3_go.Wire.Messages.{
  Announce, ClientSetup, ServerSetup, parse_announce, announce_bytes, parse_versions,
  parse_client_setup, append_all, client_setup_bytes, parse_server_setup, server_setup_bytes,
}

abbrev pub AnnounceWritable : Announce → Type 0
AnnounceWritable a = (length a.track_namespace ≤ max_make) × ParamsWritable a.params

abbrev pub announce_code : Announce → List ℕ
announce_code a = string_code a.track_namespace ++ map_code a.params

pub parse_announce-code :
    (a : Announce) (r : List ℕ)
    → AnnounceWritable a
    → parse_announce (announce_code a ++ r) ≡ ok a r
unfolding parse_announce
parse_announce-code a r h = rw (
  append_assoc (string_code a.track_namespace) (map_code a.params) r,
  parse_string-code a.track_namespace (map_code a.params ++ r) h.0,
  parse_params-code a.params r h.1,
)

pub announce_bytes-code :
    (a : Announce) → AnnounceWritable a → announce_bytes a ≡ some (encoding 6 ++ announce_code a)
unfolding announce_bytes
announce_bytes-code a h =
    rw
      (
        append-encoding [] 6 (omega arith),
        append-encoding (encoding 6) (length a.track_namespace) (omega (arith, h.0)),
        params_bytes-code a.params h.1,
      )
      (simp append_assoc)

pub versions_code : List ℕ → List ℕ
versions_code [] = []
versions_code (v ∷ vs) = encoding v ++ versions_code vs

append_all-code :
    (d vs : List ℕ) → All (λ v. v ≤ max_varint) vs → append_all d vs ≡ some (d ++ versions_code vs)
unfolding append_all versions_code
append_all-code d [] h = rw append-nil
append_all-code d (v ∷ vs) h =
    rw (append-encoding d v h.0, append_all-code (d ++ encoding v) vs h.1, append_assoc)

parse_versions-code :
    (vs acc r : List ℕ)
    → All (λ v. v ≤ max_varint) vs
    → parse_versions (length vs) acc (versions_code vs ++ r) ≡ ok (acc ++ vs) r
unfolding parse_versions versions_code
parse_versions-code [] acc r h = rw append-nil
parse_versions-code (v ∷ vs) acc r h =
    rw (append_assoc (encoding v) (versions_code vs) r, read-encoding v _ h.0)
      (parse_versions-code vs (acc ++ (v ∷ [])) r h.1
        ∙ ap (λ (x : List ℕ). ok x r) (append_assoc acc (v ∷ []) vs))

abbrev pub ClientSetupWritable : ClientSetup → Type 0
ClientSetupWritable s =
    All (λ v. v ≤ max_varint) s.supported_versions
    × (length s.supported_versions ≤ max_varint)
    × ParamsWritable s.params

abbrev pub client_setup_code : ClientSetup → List ℕ
client_setup_code s =
    encoding (length s.supported_versions)
    ++ (versions_code s.supported_versions ++ map_code s.params)

pub parse_client_setup-code :
    (s : ClientSetup) (r : List ℕ)
    → ClientSetupWritable s
    → parse_client_setup (client_setup_code s ++ r) ≡ ok s r
unfolding parse_client_setup
parse_client_setup-code s r h =
    let vs = s.supported_versions in
    rw (
      append_assoc (encoding (length vs)) (versions_code vs ++ map_code s.params) r,
      append_assoc (versions_code vs) (map_code s.params) r,
      read-encoding (length vs) _ h.1,
      parse_versions-code vs [] (map_code s.params ++ r) h.0,
      parse_params-code s.params r h.2,
    )

pub client_setup_bytes-code :
    (s : ClientSetup)
    → ClientSetupWritable s
    → client_setup_bytes s ≡ some (encoding 64 ++ client_setup_code s)
unfolding client_setup_bytes
client_setup_bytes-code s h =
    let vs = s.supported_versions in
    rw
      (
        append-encoding [] 64 (omega arith),
        append-encoding (encoding 64) (length vs) h.1,
        append_all-code (encoding 64 ++ encoding (length vs)) vs h.0,
        append-encoding _ (length s.params) (omega (arith, length-params s.params h.2)),
        append_params-code _ s.params h.2,
      )
      (simp append_assoc)

abbrev pub ServerSetupWritable : ServerSetup → Type 0
ServerSetupWritable s = (s.selected_version ≤ max_varint) × ParamsWritable s.params

abbrev pub server_setup_code : ServerSetup → List ℕ
server_setup_code s = encoding s.selected_version ++ map_code s.params

pub parse_server_setup-code :
    (s : ServerSetup) (r : List ℕ)
    → ServerSetupWritable s
    → parse_server_setup (server_setup_code s ++ r) ≡ ok s r
unfolding parse_server_setup
parse_server_setup-code s r h = rw (
  append_assoc (encoding s.selected_version) (map_code s.params) r,
  read-encoding s.selected_version _ h.0,
  parse_params-code s.params r h.1,
)

pub server_setup_bytes-code :
    (s : ServerSetup)
    → ServerSetupWritable s
    → server_setup_bytes s ≡ some (encoding 65 ++ server_setup_code s)
unfolding server_setup_bytes
server_setup_bytes-code s h =
    rw
      (
        append-encoding [] 65 (omega arith),
        append-encoding (encoding 65) s.selected_version h.0,
        append-encoding _ (length s.params) (omega (arith, length-params s.params h.1)),
        append_params-code _ s.params h.1,
      )
      (simp append_assoc)
