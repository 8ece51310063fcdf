-- ===== src/Web/UpgradeLaws.antt =====
-- moq-go/wt/wtsession.go: which clients get a WebTransport session.
use moq_quic_bbrv3_go.Prelude.{
  ℕ, ◌≤◌, ◌≡◌, refl, ◌==◌, ==_iff, Bool-cases, Option-cases, inl, inr, ◌⊎◌, List, [], ◌∷◌, ◌++◌,
  Option, none, some, arith, length,
}
use moq_quic_bbrv3_go.Varint.{eof, ok, err, read, read_byte, read_four, read_eight}
use moq_quic_bbrv3_go.Web.Settings.{Setting, frame_settings}
use moq_quic_bbrv3_go.Web.Frames.{
  HeaderField, Header, Http, Frame, settings_frame, header_frame, data_frame, frame_headers,
  parse_frame,
}
use moq_quic_bbrv3_go.Web.FrameLaws.{FrameFits, frame_code, parse_frame-code}
use moq_quic_bbrv3_go.Web.Requests.{Request, wrap_request}
use moq_quic_bbrv3_go.Web.RequestLaws.{text_eq-eq, IsRequestOf, wrap_request-IsRequestOf}
use moq_quic_bbrv3_go.Web.Sessions.{
  no_header, stream_control, read_header, webtransport, draft_header, session, upgrade_headers,
  upgrade_request, upgrade,
}

pub control_header : (r : List ℕ) → read_header (stream_control ∷ r) ≡ ok no_header r
unfolding read_header read read_byte
control_header r = refl

-- A number is missing only at the end of the bytes.
read-nothing_left : (r : List ℕ) → ((read r).error ≡ none) ⊎ ((read r).rest ≡ [])
unfolding read read_four read_eight read_byte
read-nothing_left [] = ground arith
read-nothing_left (a ∷ []) = ground arith
read-nothing_left (a ∷ b ∷ []) = ground arith
read-nothing_left (a ∷ b ∷ c ∷ []) = ground arith
read-nothing_left (a ∷ b ∷ c ∷ d ∷ []) = ground arith
read-nothing_left (a ∷ b ∷ c ∷ d ∷ e ∷ []) = ground arith
read-nothing_left (a ∷ b ∷ c ∷ d ∷ e ∷ f ∷ []) = ground arith
read-nothing_left (a ∷ b ∷ c ∷ d ∷ e ∷ f ∷ g ∷ []) = ground arith
read-nothing_left (a ∷ b ∷ c ∷ d ∷ e ∷ f ∷ g ∷ h ∷ r) = ground arith

-- The header of a control stream was read, or nothing is left.
read_header-control :
    (r : List ℕ)
    → (read_header r).value.kind ≡ stream_control
    → (read_header r ≡ ok no_header (read_header r).rest) ⊎ ((read_header r).rest ≡ [])
unfolding read_header
read_header-control r h = ground (arith, read-nothing_left r)

module _ {Url Int64 : Type 0} (http : Http Url Int64) where
  upgrade_headers-session :
      (o : Option Frame) (h : Header) (req : Request Url Int64)
      → upgrade_headers http o ≡ some (session h req)
      → (hfs : List HeaderField) × (o ≡ some (header_frame hfs))
        × (wrap_request http hfs ≡ some (req, webtransport))
  unfolding upgrade_headers
  upgrade_headers-session (some (header_frame hfs)) h req e =
      elim (Option-cases (wrap_request http hfs)) [
        | inl q ↦ absurd (ground arith)
        | inr ((req', p), q) ↦ (hfs, refl, ground (arith, text_eq-eq p webtransport))
      ]
  upgrade_headers-session none h req e = absurd (ground arith)
  upgrade_headers-session (some (settings_frame ss)) h req e = absurd (ground arith)
  upgrade_headers-session (some (data_frame b)) h req e = absurd (ground arith)

  upgrade_request-session :
      (fuel : ℕ) (request : List ℕ) (h : Header) (req : Request Url Int64)
      → upgrade_request http fuel request ≡ some (session h req)
      → (hfs : List HeaderField) × (r : List ℕ) × (parse_frame http fuel request
          ≡ some (ok (frame_headers, some (header_frame hfs)) r))
        × (wrap_request http hfs ≡ some (req, webtransport))
  unfolding upgrade_request
  upgrade_request-session fuel request h req e =
      elim (Option-cases (parse_frame http fuel request)) [
        | inl q ↦ absurd (ground arith)
        | inr (p, q) ↦ elim (Option-cases p.error) [
          | inr (x, q') ↦ absurd (ground arith)
          | inl q' ↦ elim (Bool-cases (p.value.0 == frame_headers)) [
            | inr n ↦ absurd (ground arith)
            | inl y ↦
                let (hfs, o, w) = upgrade_headers-session p.value.1 h req (ground arith) in
                (hfs, p.rest, ground (arith, ==_iff p.value.0 frame_headers), w)
          ]
        ]
      ]

  parse_frame_nothing : (fuel : ℕ) → parse_frame http fuel [] ≡ some (err (0, none) eof [])
  unfolding parse_frame read read_byte
  parse_frame_nothing fuel = refl

  -- What a client sent that got a session: on its control stream the type of a control stream and
  -- then a settings frame, on its request stream a header frame whose last `:protocol` is
  -- "webtransport"; its request is that of those fields.
  pub record Admitted (fuel : ℕ) (control request : List ℕ) (req : Request Url Int64) : Type 0 where
    pub on_control : read_header control ≡ ok no_header (read_header control).rest
    pub settings :
        (f : Option Frame) × (r : List ℕ) × (parse_frame http fuel (read_header control).rest
          ≡ some (ok (frame_settings, f) r))
    pub headers :
        (hfs : List HeaderField) × (r : List ℕ) × (parse_frame http fuel request
          ≡ some (ok (frame_headers, some (header_frame hfs)) r))
        × IsRequestOf http req webtransport hfs

  -- UpgradeWTS gives a session only to a client whose control stream starts with the type of a
  -- control stream and a settings frame, and whose request stream starts with a header frame with the
  -- protocol "webtransport"; the request that it returns is that of the fields of this frame.
  pub upgrade-Admitted :
      (fuel : ℕ) (control request : List ℕ) (h : Header) (req : Request Url Int64)
      → upgrade http fuel control request ≡ some (session h req)
      → Admitted fuel control request req
  unfolding upgrade
  upgrade-Admitted fuel control request h req e =
      elim (Bool-cases ((read_header control).value.kind == stream_control)) [
        | inr n ↦ absurd (ground arith)
        | inl y ↦ elim (Option-cases (parse_frame http fuel (read_header control).rest)) [
          | inl q ↦ absurd (ground arith)
          | inr (p, q) ↦ elim (Option-cases p.error) [
            | inr (x, q') ↦ absurd (ground arith)
            | inl q' ↦ elim (Bool-cases (p.value.0 == frame_settings)) [
              | inr n ↦ absurd (ground arith)
              | inl s ↦
                  let (hfs, r, pf, w) = upgrade_request-session fuel request h req (ground arith) in
                  let i = wrap_request-IsRequestOf http hfs req webtransport w in
                  record {
                    on_control = elim (read_header-control control ((==_iff _ _).0 y)) [
                      | inl k ↦ k
                      | inr n ↦ absurd (ground (arith, parse_frame_nothing fuel))
                    ];
                    settings = (p.value.1, p.rest, ground (arith, ==_iff p.value.0 frame_settings));
                    headers = (hfs, r, pf, i);
                  }
            ]
          ]
        ]
      ]

  pub upgrade_read :
      (fuel : ℕ) (ss : List Setting) (hfs : List HeaderField) (r r' : List ℕ)
      → FrameFits http (settings_frame ss)
      → FrameFits http (header_frame hfs)
      → length ss ≤ fuel
      → upgrade http fuel
          (stream_control ∷ (frame_code http (settings_frame ss) ++ r))
          (frame_code http (header_frame hfs) ++ r')
        ≡ upgrade_headers http (some (header_frame hfs))
  unfolding upgrade upgrade_request
  upgrade_read fuel ss hfs r r' f g b = rw (
    control_header (frame_code http (settings_frame ss) ++ r),
    parse_frame-code http fuel (settings_frame ss) r f b,
    parse_frame-code http fuel (header_frame hfs) r' g (omega arith),
  )

  -- A client that sends the header of a control stream, a settings frame and a header frame that fit,
  -- with fields that WrapRequest makes a request with the protocol "webtransport" of, gets a session
  -- with that request, whatever else it sends, if the fuel is at least the number of its settings.
  pub upgrade-session :
      (fuel : ℕ) (ss : List Setting) (hfs : List HeaderField) (r r' : List ℕ)
      (req : Request Url Int64)
      → FrameFits http (settings_frame ss)
      → FrameFits http (header_frame hfs)
      → length ss ≤ fuel
      → wrap_request http hfs ≡ some (req, webtransport)
      → upgrade http fuel
          (stream_control ∷ (frame_code http (settings_frame ss) ++ r))
          (frame_code http (header_frame hfs) ++ r')
        ≡ some (session draft_header req)
  unfolding upgrade_headers
  upgrade-session fuel ss hfs r r' req f g b w = rw (upgrade_read fuel ss hfs r r' f g b, w)
