-- ===== src/Wire/StreamRuns.antt =====
-- moq-go/moqt/wire: the theorems on concrete streams of objects, and tests.
use moq_quic_bbrv3_go.Prelude.{ℕ, ◌≡◌, refl, arith, List, [], ◌∷◌, ◌++◌, none, some}
use moq_quic_bbrv3_go.Prelude.{refl}
use moq_quic_bbrv3_go.Prelude.{false}
use moq_quic_bbrv3_go.Wire.Params.{Object}
use moq_quic_bbrv3_go.Wire.Streams.{TrackStream, track_pipe}
use moq_quic_bbrv3_go.Wire.Relaying.{read_objects, read_objects-track_pipe}
use moq_quic_bbrv3_go.Prelude.{true}
use moq_quic_bbrv3_go.Wire.Piping.{
  Piping, write_object, wait, collect, send, Follow, waits, collects, sends, ended, opened, Reach,
  start, writes, follows, Orderly, Reach-Orderly, drained, drained-written,
}
use moq_quic_bbrv3_go.Wire.Losing.{too_late, lost_wakeup, cut_short, cut_short-loses}

abbrev first : Object
first = record { group_id = 1; id = 0; payload = 65 ∷ 66 ∷ [] }

abbrev second : Object
second = record { group_id = 2; id = 300; payload = [] }

abbrev track : TrackStream
track = record {
  sub_id = 4;
  track_alias = 70_000;
  send_order = 1;
  objects = first ∷ second ∷ [];
  is_eof = false;
  reader = none;
}

abbrev empty : TrackStream
empty = record track { objects = [] }

read_objects-track_pipe_example :
    (code : List ℕ) × (track_pipe 1 track ≡ some (code, 2))
    × (read_objects 1 (record empty { reader = some (code ++ (9 ∷ [])) })
        ≡ record empty { objects = second ∷ []; reader = some (9 ∷ []) })
read_objects-track_pipe_example =
    read_objects-track_pipe 1 track empty (9 ∷ [])
      ((omega arith, omega arith, omega arith), ((omega arith, omega arith, omega arith), tt))

-- A follower that waits for one object.
abbrev waiting_follower : Piping
waiting_follower = wait opened

waiting_follower-Reach : Reach waiting_follower
waiting_follower-Reach = follows start (waits refl)

Reach-Orderly_example : Orderly (write_object second waiting_follower)
Reach-Orderly_example = Reach-Orderly (writes second waiting_follower-Reach)

abbrev collecting : Piping
collecting = wait (send (second ∷ []) (collect (write_object second waiting_follower)))

collecting-Reach : Reach collecting
unfolding wait write_object collect send
collecting-Reach =
    follows
      (follows (follows (writes second waiting_follower-Reach) (collects refl))
        (sends (second ∷ []) refl))
      (waits refl)

drained-written_example :
    Reach (drained collecting)
    × ((drained collecting).phase ≡ ended)
    × ((drained collecting).written ≡ collecting.objects)
unfolding wait
drained-written_example = drained-written collecting-Reach refl

lost_wakeup_example :
    Reach (too_late (second ∷ []))
    × ((too_late (second ∷ [])).objects ≡ second ∷ [])
    × ((too_late (second ∷ [])).is_eof ≡ true)
    × ((too_late (second ∷ [])).written ≡ [])
    × ((t : Piping) → ¬ (Follow (too_late (second ∷ [])) t))
lost_wakeup_example = lost_wakeup (second ∷ [])

cut_short-loses_example :
    Reach (cut_short second [] second)
    × ((cut_short second [] second).phase ≡ ended)
    × ((cut_short second [] second).objects ≡ second ∷ second ∷ [])
    × ((cut_short second [] second).written ≡ second ∷ [])
cut_short-loses_example = cut_short-loses second [] second
