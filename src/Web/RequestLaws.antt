-- ===== src/Web/RequestLaws.antt =====
-- moq-go/h3/headerframe.go: what WrapRequest takes from the fields.
use moq_quic_bbrv3_go.Prelude.{
  ◌≡◌, refl, ap, ◌∙◌, ==_iff, if◌then◌else◌, Option-cases, inl, inr, true, false, List, [], ◌∷◌,
  ◌++◌, some, arith,
}
use moq_quic_bbrv3_go.Web.Frames.{Text, HeaderField, Http}
use moq_quic_bbrv3_go.Web.Requests.{
  text_eq, path_name, method_name, authority_name, protocol_name, content_length_name, Fields,
  no_fields, take_field, take_fields, Request, wrap_request, request_of, address, length_of,
  connect_method, https_prefix,
}

-- The value of the last field with a name, or `d` if there is none.
abbrev pub last_of : Text → Text → List HeaderField → Text
last_of k d [] = d
last_of k d (h ∷ hs) = last_of k (if text_eq h.name k then h.value else d) hs

pub text_eq-eq : (s t : Text) → text_eq s t ≡ true → s ≡ t
text_eq-eq [] [] e = refl
text_eq-eq (a ∷ s) (b ∷ t) e = ground (arith, ==_iff a b, text_eq-eq s t)
text_eq-eq [] (b ∷ t) e = absurd (ground arith)
text_eq-eq (a ∷ s) [] e = absurd (ground arith)

-- A name is at most one of two that differ.
apart : (s t u : Text) → text_eq t u ≡ false → text_eq s t ≡ true → text_eq s u ≡ false
apart s t u d e = rw (text_eq-eq s t e) d

module _ {Url Int64 : Type 0} (http : Http Url Int64) where
  record Takes (f g : Fields) (h : HeaderField) : Type 0 where
    path : g.path ≡ (if text_eq h.name path_name then h.value else f.path)
    method : g.method ≡ (if text_eq h.name method_name then h.value else f.method)
    authority : g.authority ≡ (if text_eq h.name authority_name then h.value else f.authority)
    protocol : g.protocol ≡ (if text_eq h.name protocol_name then h.value else f.protocol)
    content_length :
        g.content_length
        ≡ (if text_eq h.name content_length_name then h.value else f.content_length)

  take_field-Takes : (h : HeaderField) (f : Fields) → Takes f (take_field http h f) h
  unfolding take_field
  take_field-Takes h f = ground (
    arith,
    apart h.name path_name method_name refl,
    apart h.name path_name authority_name refl,
    apart h.name path_name protocol_name refl,
    apart h.name path_name content_length_name refl,
    apart h.name method_name authority_name refl,
    apart h.name method_name protocol_name refl,
    apart h.name method_name content_length_name refl,
    apart h.name authority_name protocol_name refl,
    apart h.name authority_name content_length_name refl,
    apart h.name protocol_name content_length_name refl,
  )

  record TakesAll (f g : Fields) (hs : List HeaderField) : Type 0 where
    path : g.path ≡ last_of path_name f.path hs
    method : g.method ≡ last_of method_name f.method hs
    authority : g.authority ≡ last_of authority_name f.authority hs
    protocol : g.protocol ≡ last_of protocol_name f.protocol hs
    content_length : g.content_length ≡ last_of content_length_name f.content_length hs

  take_fields-TakesAll :
      (hs : List HeaderField) (f : Fields) → TakesAll f (take_fields http hs f) hs
  unfolding take_fields
  take_fields-TakesAll [] f = record {
    path = refl;
    method = refl;
    authority = refl;
    protocol = refl;
    content_length = refl;
  }
  take_fields-TakesAll (h ∷ hs) f =
      let one : Takes f (take_field http h f) h = take_field-Takes h f in
      let more : TakesAll (take_field http h f) (take_fields http hs (take_field http h f)) hs =
        take_fields-TakesAll hs (take_field http h f) in
      record {
        path = more.path ∙ ap (λ d. last_of path_name d hs) one.path;
        method = more.method ∙ ap (λ d. last_of method_name d hs) one.method;
        authority = more.authority ∙ ap (λ d. last_of authority_name d hs) one.authority;
        protocol = more.protocol ∙ ap (λ d. last_of protocol_name d hs) one.protocol;
        content_length =
            more.content_length ∙ ap (λ d. last_of content_length_name d hs) one.content_length;
      }

  -- What a request has of its fields.
  record IsMadeOf (req : Request Url Int64) (protocol : Text) (f : Fields) : Type 0 where
    method : req.method ≡ f.method
    host : req.host ≡ f.authority
    request_uri : req.request_uri ≡ f.path
    protocol_field : protocol ≡ f.protocol
    url : http.parse_request_uri (address http f) ≡ some req.url

  request_of-IsMadeOf :
      (f : Fields) (req : Request Url Int64) (protocol : Text)
      → request_of http f ≡ some (req, protocol)
      → IsMadeOf req protocol f
  unfolding request_of
  request_of-IsMadeOf f req protocol h = elim (Option-cases (length_of http f.content_length)) [
    | inl e ↦ absurd (ground arith)
    | inr (n, e) ↦ elim (Option-cases (http.parse_request_uri (address http f))) [
      | inl e' ↦ absurd (ground arith)
      | inr (u, e') ↦ ground arith
    ]
  ]

  -- The method, the host, the path and the protocol are the values of the last fields with their
  -- names, and the URL is parsed of these.
  pub record IsRequestOf (req : Request Url Int64) (protocol : Text) (hfs : List HeaderField)
      : Type 0 where
    pub method : req.method ≡ last_of method_name [] hfs
    pub host : req.host ≡ last_of authority_name [] hfs
    pub request_uri : req.request_uri ≡ last_of path_name [] hfs
    pub protocol_field : protocol ≡ last_of protocol_name [] hfs
    pub url :
        http.parse_request_uri (
          if text_eq (last_of method_name [] hfs) connect_method
          then https_prefix ++ (last_of authority_name [] hfs ++ last_of path_name [] hfs)
          else last_of path_name [] hfs)
        ≡ some req.url

  -- A request that WrapRequest makes of some fields has the values of the last fields with the names
  -- of its method, its host, its path and its protocol, and the URL is parsed of these.
  pub wrap_request-IsRequestOf :
      (hfs : List HeaderField) (req : Request Url Int64) (protocol : Text)
      → wrap_request http hfs ≡ some (req, protocol)
      → IsRequestOf req protocol hfs
  unfolding wrap_request address
  wrap_request-IsRequestOf hfs req protocol h =
      let f : TakesAll no_fields (take_fields http hfs no_fields) hfs =
        take_fields-TakesAll hfs no_fields in
      let r : IsMadeOf req protocol (take_fields http hfs no_fields) =
        request_of-IsMadeOf (take_fields http hfs no_fields) req protocol h in
      record {
        method = r.method ∙ f.method;
        host = r.host ∙ f.authority;
        request_uri = r.request_uri ∙ f.path;
        protocol_field = r.protocol_field ∙ f.protocol;
        url = rw (← f.method, ← f.authority, ← f.path) r.url;
      }
