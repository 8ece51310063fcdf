-- ===== src/Wire/Relaying.antt =====
-- moq-go/moqt/wire: what a follower reads of the data that a stream of objects pipes to it.
use mathlib.Core.List.{append_assoc, append-nil}
use moq_quic_bbrv3_go.Prelude.{
  ℕ, zero, suc, ◌≤◌, ◌≡◌, sym, ap, ◌∙◌, arith, ltb, if◌then◌else◌, List, [], ◌∷◌, ◌++◌, some,
  length, drop, All, max, ◌<◌, ◌-◌, le→ltb_false, lt→leb_false,
}
use moq_quic_bbrv3_go.Varint.{Parsed, ok, read, max_varint}
use moq_quic_bbrv3_go.Varint.RoundTrip.{encoding, read-encoding, append-encoding}
use moq_quic_bbrv3_go.Wire.Params.{max_make, Object, parse_object, object_bytes}
use moq_quic_bbrv3_go.Wire.Codes.{read_full-append}
use moq_quic_bbrv3_go.Wire.Params.{read_full, replicate}
use moq_quic_bbrv3_go.Wire.Streams.{
  TrackStream, Outcome, got, zero_object, store_object, read_in_group, track_read_object,
  append_objects, track_pipe,
}

-- The numbers of the object fit a variable-length integer, and `make` accepts the length of its payload.
abbrev pub ObjectWritable : Object → Type 0
ObjectWritable o = (o.group_id ≤ max_varint) × (o.id ≤ max_varint) × (length o.payload ≤ max_make)

abbrev pub object_code : Object → List ℕ
object_code o = encoding o.id ++ (encoding (length o.payload) ++ o.payload)

pub object_bytes-code : (o : Object) → ObjectWritable o → object_bytes o ≡ some (object_code o)
unfolding object_bytes
object_bytes-code o (g, i, l) =
    rw (append-encoding [] o.id i, append-encoding (encoding o.id) (length o.payload) (omega arith))
      (simp append_assoc)

pub parse_object-code :
    (z o : Object) (r : List ℕ)
    → ObjectWritable o
    → parse_object z (object_code o ++ r) ≡ ok (record z { id = o.id; payload = o.payload }) r
unfolding parse_object
parse_object-code z o r (g, i, l) = rw (
  append_assoc (encoding o.id) _ r,
  append_assoc (encoding (length o.payload)) o.payload r,
  read-encoding o.id _ i,
  read-encoding (length o.payload) _ (omega arith),
  read_full-append o.payload r l,
)

unfoldable pub entries_code : List Object → List ℕ
entries_code [] = []
entries_code (o ∷ os) = encoding o.group_id ++ (object_code o ++ entries_code os)

pub append_objects-code :
    (d : List ℕ) (os : List Object)
    → All ObjectWritable os
    → append_objects d os ≡ some (d ++ entries_code os)
unfolding append_objects entries_code
append_objects-code d [] h = rw append-nil
append_objects-code d (o ∷ os) (h, hs) =
    rw (append-encoding d o.group_id h.0, object_bytes-code o h)
      (append_objects-code ((d ++ encoding o.group_id) ++ object_code o) os hs ∙ simp append_assoc)

pub read_in_group-code :
    (s : TrackStream) (o : Object) (r : List ℕ)
    → ObjectWritable o
    → read_in_group (read (encoding o.group_id ++ (object_code o ++ r))) s
      ≡ (record s { objects = s.objects ++ (o ∷ []); reader = some r }, got o.group_id o)
unfolding read_in_group store_object
read_in_group-code s o r h =
    ap (λ (p : Parsed ℕ). read_in_group p s) (read-encoding o.group_id (object_code o ++ r) h.0)
    ∙ ap (λ (p : Parsed Object). store_object o.group_id p s) (parse_object-code zero_object o r h)

-- That many calls of `ReadObject`.
unfoldable pub read_objects : ℕ → TrackStream → TrackStream
read_objects zero s = s
read_objects (suc n) s = read_objects n (track_read_object s).0

read_objects-code :
    (os : List Object) (s : TrackStream) (r : List ℕ)
    → All ObjectWritable os
    → read_objects (length os) (record s { reader = some (entries_code os ++ r) })
      ≡ record s { objects = s.objects ++ os; reader = some r }
unfolding read_objects entries_code track_read_object
read_objects-code [] s r h =
    ap (λ (x : List Object). record s { objects = x; reader = some r }) (sym (append-nil s.objects))
read_objects-code (o ∷ os) s r (h, hs) =
    let follower : List ℕ → TrackStream = λ x. record s { reader = some x } in
    let rest = entries_code os ++ r in
    let split : (encoding o.group_id ++ (object_code o ++ entries_code os)) ++ r
        ≡ encoding o.group_id ++ (object_code o ++ rest) =
      append_assoc (encoding o.group_id) _ r
      ∙ ap (λ (x : List ℕ). encoding o.group_id ++ x) (append_assoc (object_code o) _ r) in
    ap (λ (x : List ℕ). read_objects (suc (length os)) (follower x)) split
    ∙ ap (λ (p : TrackStream × Outcome). read_objects (length os) p.0)
        (read_in_group-code (follower (encoding o.group_id ++ (object_code o ++ rest))) o rest h)
    ∙ read_objects-code os (record s { objects = s.objects ++ (o ∷ []) }) r hs
    ∙ ap (λ (x : List Object). record s { objects = x; reader = some r })
        (append_assoc s.objects (o ∷ []) os)

pub All-drop : (i : ℕ) (os : List Object) → All ObjectWritable os → All ObjectWritable (drop i os)
All-drop zero os h = h
All-drop (suc i) [] h = h
All-drop (suc i) (o ∷ os) h = All-drop i os h.1

pub larger : (i n : ℕ) → (if ltb i n then n else i) ≡ max i n
larger i n = ground arith

-- The objects of a track from an index on, whose numbers fit a variable-length integer and whose
-- payloads have lengths that `make` accepts, are piped without a panic, and the index to go on from
-- is past them. A follower that reads the data with one `ReadObject` for each of them appends them
-- to its own, in order and with their groups, and is left with what follows the data.
pub read_objects-track_pipe :
    (i : ℕ) (s follower : TrackStream) (rest : List ℕ)
    → All ObjectWritable s.objects
    → (code : List ℕ) × (track_pipe i s ≡ some (code, max i (length s.objects)))
      × (read_objects (length (drop i s.objects)) (record follower { reader = some (code ++ rest) })
          ≡ record follower { objects = follower.objects ++ drop i s.objects; reader = some rest })
unfolding track_pipe
read_objects-track_pipe i s follower rest h =
    let fit = All-drop i s.objects h in
    (
      entries_code (drop i s.objects),
      rw (append_objects-code [] (drop i s.objects) fit, larger i (length s.objects)),
      read_objects-code (drop i s.objects) follower rest fit,
    )

-- An object whose payload is cut short is accepted without an error: the missing bytes are zeros,
-- and nothing of the reader is left.
pub parse_object_truncated :
    (z : Object) (i n : ℕ) (part : List ℕ)
    → i ≤ max_varint
    → n ≤ max_make
    → length part < n
    → parse_object z (encoding i ++ (encoding n ++ part))
      ≡ ok (record z { id = i; payload = part ++ replicate (n - length part) 0 }) []
unfolding parse_object read_full
parse_object_truncated z i n part a b short =
    rw
      (
        read-encoding i (encoding n ++ part) a,
        read-encoding n part (omega arith),
        le→ltb_false max_make n b,
        lt→leb_false n (length part) short,
      )
      (ground arith)
