-- ===== src/Wire/Messages/Opening.antt =====
-- moq-go/moqt/wire: announce.go, announceok.go, clientsetup.go and serversetup.go.
use moq_quic_bbrv3_go.Prelude.{
  ℕ, zero, suc, Bool, true, false, ◌==◌, if◌then◌else◌, List, [], ◌∷◌, ◌++◌, Option, some, length,
}
use moq_quic_bbrv3_go.Varint.{Parsed, ok, check, read, append}
use moq_quic_bbrv3_go.Wire.Params.{
  ◌>>=◌, parse_string, Parameters, parse_params, append_params, params_bytes,
}

pub record Announce : Type 0 where
  pub track_namespace : List ℕ
  pub params : Parameters

pub record ClientSetup : Type 0 where
  pub supported_versions : List ℕ
  pub params : Parameters

pub record ServerSetup : Type 0 where
  pub selected_version : ℕ
  pub params : Parameters

abbrev pub draft_04 : ℕ
draft_04 = 0xff000004

unfoldable pub parse_announce : List ℕ → Parsed Announce
parse_announce r =
    check (parse_string r) (record { track_namespace = []; params = [] })
      λ ns r1.
        check (parse_params r1) (record { track_namespace = ns; params = [] })
          λ m r2. ok (record { track_namespace = ns; params = m }) r2

unfoldable pub announce_bytes : Announce → Option (List ℕ)
announce_bytes a = do
  d1 ← append [] 0x6
  d2 ← append d1 (length a.track_namespace)
  bytes ← params_bytes a.params
  some ((d2 ++ a.track_namespace) ++ bytes)

unfoldable pub parse_announce_ok : List ℕ → Parsed (List ℕ)
parse_announce_ok r = check (parse_string r) [] λ ns r1. ok ns r1

unfoldable pub announce_ok_bytes : List ℕ → Option (List ℕ)
announce_ok_bytes ns = do d1 ← append [] 0x7; d2 ← append d1 (length ns); some (d2 ++ ns)

-- The loop over the announced number of versions.
unfoldable pub parse_versions : ℕ → List ℕ → List ℕ → Parsed (List ℕ)
parse_versions zero vs r = ok vs r
parse_versions (suc n) vs r = check (read r) vs λ v r1. parse_versions n (vs ++ (v ∷ [])) r1

-- The error of `params.Parse` is dropped, and so are the parameters after it.
unfoldable pub parse_client_setup : List ℕ → Parsed ClientSetup
parse_client_setup r =
    check (read r) (record { supported_versions = []; params = [] })
      λ n r1.
        let versions = parse_versions n [] r1 in
        check versions (record { supported_versions = versions.value; params = [] })
          λ vs r2.
            let m = parse_params r2 in
            ok (record { supported_versions = vs; params = m.value }) m.rest

unfoldable pub append_all : List ℕ → List ℕ → Option (List ℕ)
append_all d [] = some d
append_all d (v ∷ vs) = do d1 ← append d v; append_all d1 vs

unfoldable pub client_setup_bytes : ClientSetup → Option (List ℕ)
client_setup_bytes s = do
  d1 ← append [] 0x40
  d2 ← append d1 (length s.supported_versions)
  d3 ← append_all d2 s.supported_versions
  d4 ← append d3 (length s.params)
  append_params d4 s.params

unfoldable pub check_draft_support : List ℕ → Bool
check_draft_support [] = false
check_draft_support (v ∷ vs) = if v == draft_04 then true else check_draft_support vs

unfoldable pub parse_server_setup : List ℕ → Parsed ServerSetup
parse_server_setup r =
    check (read r) (record { selected_version = 0; params = [] })
      λ v r1.
        let m = parse_params r1 in ok (record { selected_version = v; params = m.value }) m.rest

unfoldable pub server_setup_bytes : ServerSetup → Option (List ℕ)
server_setup_bytes s = do
  d1 ← append [] 0x41
  d2 ← append d1 s.selected_version
  d3 ← append d2 (length s.params)
  append_params d3 s.params
