-- ===== src/Wire/Losing.antt =====
-- moq-go/moqt/wire: orders of the steps of a producer and a follower in which objects stay unwritten.
use moq_quic_bbrv3_go.Prelude.{◌≡◌, refl, sym, ap, ◌∙◌, true, List, [], ◌∷◌, ◌++◌, drop}
use mathlib.Core.List.{append_assoc, append-nil}
use moq_quic_bbrv3_go.Wire.Params.{Object}
use moq_quic_bbrv3_go.Wire.Piping.{
  entering, waiting, woken, ended, Piping, broadcast, write_object, close_stream, wait, collect,
  send, Follow, waits, collects, sends, opened, Reach, start, writes, closes, follows,
}

abbrev pub write_all : List Object → Piping → Piping
write_all [] s = s
write_all (o ∷ os) s = write_all os (write_object o s)

write_all-Reach : (os : List Object) (s : Piping) → Reach s → Reach (write_all os s)
write_all-Reach [] s r = r
write_all-Reach (o ∷ os) s r = write_all-Reach os (write_object o s) (writes o r)

write_all-objects : (os : List Object) (s : Piping) → (write_all os s).objects ≡ s.objects ++ os
unfolding write_object
write_all-objects [] s = sym (append-nil s.objects)
write_all-objects (o ∷ os) s = write_all-objects os _ ∙ append_assoc s.objects (o ∷ []) os

-- A producer that has written all and closed before the follower of a new stream calls `Wait`.
abbrev pub too_late : List Object → Piping
too_late os = wait (close_stream (write_all os opened))

-- What writing leaves as it is, unless the follower waits.
write_all-entering :
    (os : List Object) (s : Piping) → s.phase ≡ entering → (write_all os s).phase ≡ entering
unfolding write_object
write_all-entering [] s e = e
write_all-entering (o ∷ os) s e = write_all-entering os _ (ap broadcast e)

write_all-woken : (os : List Object) (s : Piping) → s.phase ≡ woken → (write_all os s).phase ≡ woken
unfolding write_object
write_all-woken [] s e = e
write_all-woken (o ∷ os) s e = write_all-woken os _ (ap broadcast e)

write_all-written : (os : List Object) (s : Piping) → (write_all os s).written ≡ s.written
unfolding write_object
write_all-written [] s = refl
write_all-written (o ∷ os) s = write_all-written os (write_object o s)

write_all-index : (os : List Object) (s : Piping) → (write_all os s).index ≡ s.index
unfolding write_object
write_all-index [] s = refl
write_all-index (o ∷ os) s = write_all-index os (write_object o s)

waiting-stuck : (s : Piping) → s.phase ≡ waiting → (t : Piping) → ¬ (Follow s t)
waiting-stuck s e t (waits f) = cc
waiting-stuck s e t (collects f) = cc
waiting-stuck s e t (sends d f) = cc

-- The follower of a stream can come to wait on it when all objects have been written to it and it has
-- been closed: it has then written none of them and has no step of its own left.
pub lost_wakeup :
    (os : List Object)
    → Reach (too_late os)
      × ((too_late os).objects ≡ os)
      × ((too_late os).is_eof ≡ true)
      × ((too_late os).written ≡ [])
      × ((t : Piping) → ¬ (Follow (too_late os) t))
unfolding wait close_stream
lost_wakeup os = (
  follows (closes (write_all-Reach os opened start))
      (waits (ap broadcast (write_all-entering os opened refl))),
  write_all-objects os opened,
  refl,
  write_all-written os opened,
  waiting-stuck (too_late os) refl,
)

-- A follower that waits is woken by objects, and has collected them when the last object is written and
-- the stream is closed; then it writes what it has collected.
abbrev pub woken_by : Object → List Object → Piping
woken_by o os = write_all (o ∷ os) (wait opened)

abbrev pub cut_short : Object → List Object → Object → Piping
cut_short o os last =
    let s = woken_by o os in
    send (drop s.index s.objects) (close_stream (write_object last (collect s)))

-- The loop of a follower can end with the last object of the stream unwritten.
pub cut_short-loses :
    (o : Object) (os : List Object) (last : Object)
    → let s = cut_short o os last in
      Reach s × (s.phase ≡ ended) × (s.objects ≡ (o ∷ os) ++ (last ∷ [])) × (s.written ≡ o ∷ os)
unfolding wait close_stream collect send write_object
cut_short-loses o os last =
    let s = woken_by o os in
    let r = write_all-Reach (o ∷ os) (wait opened) (follows start (waits refl)) in
    let w = write_all-woken os (write_object o (wait opened)) refl in
    let all = write_all-objects (o ∷ os) (wait opened) in
    (
      follows (closes (writes last (follows r (collects w)))) (sends (drop s.index s.objects) refl),
      refl,
      ap (λ v. v ++ (last ∷ [])) all,
      ap (λ v. v ++ drop s.index s.objects) (write_all-written (o ∷ os) (wait opened))
          ∙ ap (λ k. drop k s.objects) (write_all-index (o ∷ os) (wait opened))
          ∙ all,
    )
