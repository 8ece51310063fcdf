-- ===== src/Wire/Groups.antt =====
-- moq-go/moqt/wire/groupstream.go: `ReadObject` and `Pipe` of a stream of one group, whose objects carry
-- no group on the wire, and what a follower reads of the data that is piped.
use mathlib.Core.List.{append_assoc, append-nil}
use moq_quic_bbrv3_go.Prelude.{
  ℕ, zero, suc, ◌≡◌, sym, ap, ◌∙◌, max, ltb, if◌then◌else◌, List, [], ◌∷◌, ◌++◌, Option, none, some,
  length, drop, map, All,
}
use moq_quic_bbrv3_go.Varint.{Parsed}
use moq_quic_bbrv3_go.Wire.Params.{◌>>=◌, Object, parse_object, object_bytes}
use moq_quic_bbrv3_go.Wire.Streams.{
  GroupStream, Outcome, got, failed, no_reader, zero_object, closes,
}
use moq_quic_bbrv3_go.Wire.Relaying.{
  ObjectWritable, object_code, object_bytes-code, parse_object-code, All-drop, larger,
}

-- The rest of `ReadObject` behind `object.Parse`: the object keeps group 0, and the stream's is answered.
unfoldable pub store_group_object : Parsed Object → GroupStream → GroupStream × Outcome
store_group_object o s = elim o.error [
  | some e ↦ (record s { is_eof = closes e s.is_eof; reader = some o.rest }, failed e)
  | none ↦ (
    record s { objects = s.objects ++ (o.value ∷ []); reader = some o.rest },
    got s.group_id o.value,
  )
]

-- GroupStream.ReadObject
unfoldable pub group_read_object : GroupStream → GroupStream × Outcome
group_read_object s = elim s.reader [
  | none ↦ (s, no_reader)
  | some r ↦ store_group_object (parse_object zero_object r) s
]

-- The loop of GroupStream.Pipe over the objects that are new to the follower.
unfoldable pub append_group_objects : List ℕ → List Object → Option (List ℕ)
append_group_objects d [] = some d
append_group_objects d (o ∷ os) = do bytes ← object_bytes o; append_group_objects (d ++ bytes) os

-- GroupStream.Pipe up to the write: the data that is written and the index that is answered.
unfoldable pub group_pipe : ℕ → GroupStream → Option (List ℕ × ℕ)
group_pipe index s = do
  data' ← append_group_objects [] (drop index s.objects)
  some (data', (if ltb index (length s.objects) then length s.objects else index))

-- That many calls of `ReadObject`.
unfoldable pub read_group_objects : ℕ → GroupStream → GroupStream
read_group_objects zero s = s
read_group_objects (suc n) s = read_group_objects n (group_read_object s).0

-- An object as it arrives, without its group.
abbrev pub ungrouped : Object → Object
ungrouped o = record o { group_id = 0 }

group_code : List Object → List ℕ
group_code [] = []
group_code (o ∷ os) = object_code o ++ group_code os

append_group_objects-code :
    (d : List ℕ) (os : List Object)
    → All ObjectWritable os
    → append_group_objects d os ≡ some (d ++ group_code os)
unfolding append_group_objects group_code
append_group_objects-code d [] h = rw append-nil
append_group_objects-code d (o ∷ os) (h, hs) =
    rw (object_bytes-code o h)
      (append_group_objects-code (d ++ object_code o) os hs ∙ simp append_assoc)

read_group_objects-code :
    (os : List Object) (s : GroupStream) (r : List ℕ)
    → All ObjectWritable os
    → read_group_objects (length os) (record s { reader = some (group_code os ++ r) })
      ≡ record s { objects = s.objects ++ map ungrouped os; reader = some r }
unfolding read_group_objects group_code group_read_object store_group_object
read_group_objects-code [] s r h =
    ap (λ (x : List Object). record s { objects = x; reader = some r }) (sym (append-nil s.objects))
read_group_objects-code (o ∷ os) s r (h, hs) =
    let follower : List ℕ → GroupStream = λ x. record s { reader = some x } in
    let rest = group_code os ++ r in
    ap (λ (x : List ℕ). read_group_objects (suc (length os)) (follower x))
      (append_assoc (object_code o) (group_code os) r)
    ∙ ap (λ (p : Parsed Object). read_group_objects (length os) (store_group_object p s).0)
        (parse_object-code zero_object o rest h)
    ∙ read_group_objects-code os (record s { objects = s.objects ++ (ungrouped o ∷ []) }) r hs
    ∙ ap (λ (x : List Object). record s { objects = x; reader = some r })
        (append_assoc s.objects (ungrouped o ∷ []) (map ungrouped os))

-- The objects of a group from an index on, whose numbers fit a variable-length integer and whose
-- payloads have lengths that `make` accepts, are piped without a panic, and the index to go on from
-- is past them. A follower that reads the data with one `ReadObject` for each of them appends them
-- to its own, in order and with group 0, and is left with what follows the data.
pub read_group_objects-group_pipe :
    (i : ℕ) (s follower : GroupStream) (rest : List ℕ)
    → All ObjectWritable s.objects
    → (code : List ℕ) × (group_pipe i s ≡ some (code, max i (length s.objects)))
      × (read_group_objects
            (length (drop i s.objects))
            (record follower { reader = some (code ++ rest) })
          ≡ record follower {
            objects = follower.objects ++ map ungrouped (drop i s.objects);
            reader = some rest;
          })
unfolding group_pipe
read_group_objects-group_pipe i s follower rest h =
    let fit = All-drop i s.objects h in
    (
      group_code (drop i s.objects),
      rw (append_group_objects-code [] (drop i s.objects) fit, larger i (length s.objects)),
      read_group_objects-code (drop i s.objects) follower rest fit,
    )
