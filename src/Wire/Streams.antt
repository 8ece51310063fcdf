-- ===== src/Wire/Streams.antt =====
-- moq-go/moqt/wire: stream.go, trackstream.go and groupstream.go. The lock, the condition variable
-- and the wait group only order the calls of goroutines; a call is one step here. The reader of a
-- stream is the field's list of bytes. A panic of `make` is the error `out_of_range`.
use moq_quic_bbrv3_go.Prelude.{
  ℕ, ◌==◌, Bool, true, false, ltb, if◌then◌else◌, List, [], ◌∷◌, ◌++◌, Option, none, some, length,
  drop,
}
use moq_quic_bbrv3_go.Varint.{Error, eof, unknown_header, Parsed, ok, err, check, read, append}
use moq_quic_bbrv3_go.Wire.Params.{◌>>=◌, Object, parse_object, object_bytes}

pub record TrackStream : Type 0 where
  pub sub_id : ℕ
  pub track_alias : ℕ
  pub send_order : ℕ
  pub objects : List Object
  pub is_eof : Bool
  pub reader : Option (List ℕ)

pub record GroupStream : Type 0 where
  pub sub_id : ℕ
  pub track_alias : ℕ
  pub group_id : ℕ
  pub send_order : ℕ
  pub objects : List Object
  pub is_eof : Bool
  pub reader : Option (List ℕ)

-- The argument `alias` of `NewTrackStream` is not used.
unfoldable pub new_track_stream : ℕ → ℕ → TrackStream
new_track_stream subid alias = record {
  sub_id = subid;
  track_alias = 0;
  send_order = 0;
  objects = [];
  is_eof = false;
  reader = none;
}

unfoldable pub new_group_stream : ℕ → ℕ → ℕ → GroupStream
new_group_stream subid group alias = record {
  sub_id = subid;
  track_alias = alias;
  group_id = group;
  send_order = 0;
  objects = [];
  is_eof = false;
  reader = none;
}

-- The numbers of the two headers, read one by one; the stream keeps the reader.
unfoldable pub parse_track_header : TrackStream → List ℕ → Parsed TrackStream
parse_track_header s r = check (read r) s λ alias r1.
    let s1 : TrackStream = record s { track_alias = alias } in
    check (read r1) s1 λ order r2. ok (record s1 { send_order = order }) r2

unfoldable pub parse_track : ℕ → List ℕ → Parsed TrackStream
unfolding new_track_stream
parse_track subid r =
    let p = parse_track_header (new_track_stream subid 0) r in
    record p { value = record p.value { reader = some p.rest } }

unfoldable pub parse_group_header : GroupStream → List ℕ → Parsed GroupStream
parse_group_header s r = check (read r) s λ alias r1.
    let s1 : GroupStream = record s { track_alias = alias } in
    check (read r1) s1 λ group r2.
      let s2 : GroupStream = record s1 { group_id = group } in
      check (read r2) s2 λ order r3. ok (record s2 { send_order = order }) r3

unfoldable pub parse_group : ℕ → List ℕ → Parsed GroupStream
unfolding new_group_stream
parse_group subid r =
    let p = parse_group_header (new_group_stream subid 0 0) r in
    record p { value = record p.value { reader = some p.rest } }

-- `GetHeaderSubIDBytes`; `GetHeaderBytes` is the same with the stream's own identifier.
unfoldable pub track_header : ℕ → TrackStream → Option (List ℕ)
track_header subid s = do
  d1 ← append [] 0x50
  d2 ← append d1 subid
  d3 ← append d2 s.track_alias
  append d3 s.send_order

unfoldable pub group_header : ℕ → GroupStream → Option (List ℕ)
group_header subid s = do
  d1 ← append [] 0x51
  d2 ← append d1 subid
  d3 ← append d2 s.track_alias
  d4 ← append d3 s.group_id
  append d4 s.send_order

pub data Stream : Type 0 where
  no_stream : Stream
  track_stream : TrackStream → Stream
  group_stream : GroupStream → Stream

-- `ParseMOQTStream`: the subscription's identifier, and the stream.
unfoldable pub parse_stream : List ℕ → Parsed (ℕ × Stream)
parse_stream r =
    check (read r) (0, no_stream)
      λ t r1.
        if t == 0x51
        then (check (read r1) (0, no_stream)
            λ subid r2.
              let p = parse_group subid r2 in
              record { value = (subid, group_stream p.value); error = p.error; rest = p.rest })
        else if t == 0x50
        then (check (read r1) (0, no_stream)
            λ subid r2.
              let p = parse_track subid r2 in
              record { value = (subid, track_stream p.value); error = p.error; rest = p.rest })
        else err (0, no_stream) unknown_header r1

-- What `ReadObject` answers: the group and the object, an error, or that there is no reader.
pub data Outcome : Type 0 where
  got : ℕ → Object → Outcome
  failed : Error → Outcome
  no_reader : Outcome

abbrev pub zero_object : Object
zero_object = record { group_id = 0; id = 0; payload = [] }

-- `if err == io.EOF { ts.Close() }`, where `Close` sets `IsEOF`.
abbrev pub closes : Error → Bool → Bool
closes eof b = true
closes _ b = b

abbrev pub fail_track : Error → List ℕ → TrackStream → TrackStream × Outcome
fail_track e r s = (record s { is_eof = closes e s.is_eof; reader = some r }, failed e)

-- The rest of `ReadObject` behind `object.Parse`, and behind the group's number.
unfoldable pub store_object : ℕ → Parsed Object → TrackStream → TrackStream × Outcome
store_object group o s = elim o.error [
  | some e ↦ fail_track e o.rest s
  | none ↦
      let object : Object = record o.value { group_id = group } in
      (record s { objects = s.objects ++ (object ∷ []); reader = some o.rest }, got group object)
]

unfoldable pub read_in_group : Parsed ℕ → TrackStream → TrackStream × Outcome
read_in_group group s = elim group.error [
  | some e ↦ fail_track e group.rest s
  | none ↦ store_object group.value (parse_object zero_object group.rest) s
]

-- TrackStream.ReadObject
unfoldable pub track_read_object : TrackStream → TrackStream × Outcome
track_read_object s = elim s.reader [ none ↦ (s, no_reader) | some r ↦ read_in_group (read r) s ]

-- The loop of `Pipe` over the objects that are new to the follower.
unfoldable pub append_objects : List ℕ → List Object → Option (List ℕ)
append_objects d [] = some d
append_objects d (o ∷ os) = do
  d1 ← append d o.group_id
  bytes ← object_bytes o
  append_objects (d1 ++ bytes) os

-- TrackStream.Pipe up to the write: the data that is written and the index that is answered.
unfoldable pub track_pipe : ℕ → TrackStream → Option (List ℕ × ℕ)
track_pipe index s = do
  data' ← append_objects [] (drop index s.objects)
  some (data', (if ltb index (length s.objects) then length s.objects else index))
