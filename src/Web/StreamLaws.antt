-- ===== src/Web/StreamLaws.antt =====
-- moq-go/wt: the headers of streams, and which streams of a client reach the session.
use moq_quic_bbrv3_go.Prelude.{
  ℕ, ◌≤◌, ◌≡◌, refl, ◌==◌, ◌||◌, if◌then◌else◌, Bool-cases, inl, inr, true, List, [], ◌∷◌, ◌++◌,
  none, some, All, arith,
}
use mathlib.Core.List.{append_assoc}
use moq_quic_bbrv3_go.Varint.{Error, ok, read, read_byte, append, max_varint}
use moq_quic_bbrv3_go.Varint.RoundTrip.{encoding, read-encoding, append-encoding}
use moq_quic_bbrv3_go.Web.Sessions.{
  StreamHeader, is_plain, has_id, stream_bi, stream_uni, stream_push, read_header, header_bytes,
  open_stream, accept_stream, Arrival, bytes, silent, process_uni_streams,
}

-- A type that Read knows, but that of a bidirectional stream; a type without an id has the id 0.
abbrev pub HeaderFits : StreamHeader → Type 0
HeaderFits h =
    ((is_plain h.kind || h.kind == stream_push || h.kind == stream_uni) ≡ true)
    × (h.id ≤ max_varint)
    × (is_plain h.kind ≡ true → h.id ≡ 0)

abbrev header_code : StreamHeader → List ℕ
header_code h = if is_plain h.kind then encoding h.kind else encoding h.kind ++ encoding h.id

read_header-code :
    (h : StreamHeader) (r : List ℕ) → HeaderFits h → read_header (header_code h ++ r) ≡ ok h r
unfolding read_header
read_header-code h r f = elim (Bool-cases (is_plain h.kind)) [
  | inl p ↦ rw (p, read-encoding h.kind r (ground arith), p, f.2 p)
  | inr n ↦
      let known : has_id h.kind ≡ true = ground (arith, f.0) in
      rw (
        n,
        append_assoc (encoding h.kind) (encoding h.id) r,
        read-encoding h.kind (encoding h.id ++ r) (ground arith),
        n,
        known,
        read-encoding h.id r f.1,
      )
]

header_bytes-code : (h : StreamHeader) → HeaderFits h → header_bytes h ≡ some (header_code h)
unfolding header_bytes
header_bytes-code h f =
    let small : h.kind ≤ max_varint = ground (arith, f.0) in
    rw (append-encoding [] h.kind small) ground
      (arith, f.0, append-encoding (encoding h.kind) h.id f.1)

-- A stream header of each type that Read knows, but for that of a bidirectional stream, is written
-- and read back, with what follows it left on the stream.
pub read_header-header_bytes :
    (h : StreamHeader) (r : List ℕ)
    → HeaderFits h
    → (code : List ℕ) × (header_bytes h ≡ some code) × (read_header (code ++ r) ≡ ok h r)
read_header-header_bytes h r f = (header_code h, header_bytes-code h f, read_header-code h r f)

read_bi :
    (x : ℕ) (r : List ℕ)
    → x ≤ max_varint
    → read_header (0x40 ∷ 0x41 ∷ (encoding x ++ r)) ≡ ok (record { kind = stream_bi; id = x }) r
unfolding read_header read read_byte
read_bi x r h = rw (read-encoding x r h)

-- The stream header that OpenStream writes has no id, and AcceptStream reads one: of what is sent on
-- the stream the receiver's user misses the first number.
pub accept_stream-open_stream :
    (x : ℕ) (r : List ℕ)
    → x ≤ max_varint
    → (code : List ℕ) × (open_stream ≡ some code)
      × (accept_stream (code ++ (encoding x ++ r)) ≡ some r)
unfolding open_stream accept_stream read_header header_bytes append read read_byte
accept_stream-open_stream x r h = (0x40 ∷ 0x41 ∷ [], refl, rw (read_bi x r h))

-- The streams that ProcesUniStreams hands on, if each stream was one that it knows.
abbrev pub handed : List Arrival → List (List ℕ)
handed [] = []
handed (silent ∷ xs) = handed xs
handed (bytes r ∷ xs) = (read_header r).rest ∷ handed xs

abbrev pub IsKnown : Arrival → Type 0
IsKnown silent = Unit
IsKnown (bytes r) = (read_header r).error ≡ none

-- Up to the first stream with a header that cannot be read all streams that send in time are handed
-- on in their order; of that one and of all that come later none is.
pub process_uni_streams-append :
    (xs ys : List Arrival) (r : List ℕ) (e : Error)
    → All IsKnown xs
    → (read_header r).error ≡ some e
    → process_uni_streams (xs ++ bytes r ∷ ys) ≡ handed xs
unfolding process_uni_streams
process_uni_streams-append [] ys r e k h = ground arith
process_uni_streams-append (silent ∷ xs) ys r e k h = process_uni_streams-append xs ys r e k.1 h
process_uni_streams-append (bytes s ∷ xs) ys r e k h =
    ground (arith, k.0, process_uni_streams-append xs ys r e k.1 h)
