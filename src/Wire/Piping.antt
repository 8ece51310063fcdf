-- ===== src/Wire/Piping.antt =====
-- moq-go/moqt/wire: `Pipe`, `WriteObject` and `Close` of trackstream.go and groupstream.go as steps
-- of two goroutines. A producer appends objects and closes; a follower calls `Pipe` again and
-- again, as the loops of pubstream.go and relayhandler.go do. `Wait` gives up the lock until a
-- broadcast comes, and a broadcast wakes only a follower that waits. What a follower writes is
-- shown as objects, and the writes succeed. Another follower has its own phase and touches nothing
-- of this one's.
use moq_quic_bbrv3_go.Prelude.{
  ℕ, ◌≤◌, ◌≡◌, refl, sym, ap, ◌∙◌, arith, Bool, true, false, ltb, if◌then◌else◌, List, [], ◌∷◌,
  ◌++◌, length, drop, length-append, drop-append_le,
}
use mathlib.Core.List.{append_assoc, append-nil}
use moq_quic_bbrv3_go.Wire.Params.{Object}

-- Before `Wait`, in it, behind a broadcast, behind the unlock with the data to write, and behind
-- the loop.
pub data Phase : Type 0 where
  entering waiting woken ended : Phase
  sending : List Object → Phase

pub record Piping : Type 0 where
  pub objects : List Object
  pub is_eof : Bool
  pub phase : Phase
  pub index : ℕ
  pub written : List Object

-- `ObjectCond.Broadcast()`
abbrev pub broadcast : Phase → Phase
broadcast waiting = woken
broadcast p = p

unfoldable pub write_object : Object → Piping → Piping
write_object o s = record s { objects = s.objects ++ (o ∷ []); phase = broadcast s.phase }

unfoldable pub close_stream : Piping → Piping
close_stream s = record s { is_eof = true; phase = broadcast s.phase }

unfoldable pub wait : Piping → Piping
wait s = record s { phase = waiting }

-- The loop of `Pipe`, with the lock.
unfoldable pub collect : Piping → Piping
collect s = record s {
  phase = sending (drop s.index s.objects);
  index = if ltb s.index (length s.objects) then length s.objects else s.index;
}

-- The write, and the test of `IsEOF`, without the lock.
unfoldable pub send : List Object → Piping → Piping
send data' s = record s {
  phase = if s.is_eof then ended else entering;
  written = s.written ++ data';
}

pub data Follow (s : Piping) : Piping → Type 0 where
  waits : s.phase ≡ entering → Follow s (wait s)
  collects : s.phase ≡ woken → Follow s (collect s)
  sends : (data' : List Object) → s.phase ≡ sending data' → Follow s (send data' s)

abbrev pub opened : Piping
opened = record { objects = []; is_eof = false; phase = entering; index = 0; written = [] }

pub data Reach : Piping → Type 0 where
  start : Reach opened
  writes : {s : Piping} → (o : Object) → Reach s → Reach (write_object o s)
  closes : {s : Piping} → Reach s → Reach (close_stream s)
  follows : {s t : Piping} → Reach s → Follow s t → Reach t

-- What the follower has collected and not written yet.
abbrev pub pending : Phase → List Object
pending (sending data') = data'
pending _ = []

abbrev pub Finished : Phase → Bool → Type 0
Finished ended eof = eof ≡ true
Finished _ eof = Unit

pub record Orderly (s : Piping) : Type 0 where
  pub split : (s.written ++ pending s.phase) ++ drop s.index s.objects ≡ s.objects
  pub inside : s.index ≤ length s.objects
  pub finished : Finished s.phase s.is_eof

pending-broadcast : (p : Phase) → pending (broadcast p) ≡ pending p
pending-broadcast entering = refl
pending-broadcast waiting = refl
pending-broadcast woken = refl
pending-broadcast ended = refl
pending-broadcast (sending d) = refl

Finished-broadcast : (p : Phase) (b : Bool) → Finished p b → Finished (broadcast p) b
Finished-broadcast entering b f = f
Finished-broadcast waiting b f = tt
Finished-broadcast woken b f = f
Finished-broadcast ended b f = f
Finished-broadcast (sending d) b f = f

Finished-true : (p : Phase) → Finished (broadcast p) true
Finished-true entering = tt
Finished-true waiting = tt
Finished-true woken = tt
Finished-true ended = refl
Finished-true (sending d) = tt

Finished-if : (b : Bool) → Finished (if b then ended else entering) b
Finished-if true = refl
Finished-if false = tt

pending-if : (b : Bool) → pending (if b then ended else entering) ≡ []
pending-if true = refl
pending-if false = refl

drop-length : {A : Type 0} (xs : List A) → drop (length xs) xs ≡ []
drop-length [] = refl
drop-length (x ∷ xs) = drop-length xs

drop-all :
    {A : Type 0} (n : ℕ) (xs : List A)
    → n ≤ length xs
    → drop (if ltb n (length xs) then length xs else n) xs ≡ []
drop-all n xs h = ap (λ k. drop k xs) {y = length xs} (ground arith) ∙ drop-length xs

-- The split with the phase's pending objects named.
split_at :
    (s : Piping) (p : List Object)
    → Orderly s
    → pending s.phase ≡ p
    → (s.written ++ p) ++ drop s.index s.objects ≡ s.objects
split_at s p h e = ap (λ d. (s.written ++ d) ++ drop s.index s.objects) (sym e) ∙ h.split

Follow-Orderly : {s t : Piping} → Follow s t → Orderly s → Orderly t
unfolding wait collect send
Follow-Orderly {s} (waits e) h = record {
  split = split_at s [] h (ap pending e);
  inside = h.inside;
  finished = tt;
}
Follow-Orderly {s} (collects e) h = record {
  split =
      ap (λ r. (s.written ++ drop s.index s.objects) ++ r) (drop-all s.index s.objects h.inside)
      ∙ append-nil _
      ∙ ap (λ w. w ++ drop s.index s.objects) (sym (append-nil s.written))
      ∙ split_at s [] h (ap pending e);
  inside = ground (arith, h.inside);
  finished = tt;
}
Follow-Orderly {s} (sends d e) h = record {
  split =
      ap (λ r. ((s.written ++ d) ++ r) ++ drop s.index s.objects) (pending-if s.is_eof)
      ∙ ap (λ w. w ++ drop s.index s.objects) (append-nil (s.written ++ d))
      ∙ split_at s d h (ap pending e);
  inside = h.inside;
  finished = Finished-if s.is_eof;
}

-- Whatever the order of the calls on a stream and of the steps of its follower, what the follower has
-- written, with what it has collected and what it has still to collect, is the objects of the stream in
-- their order, and its loop ends only on a closed stream.
pub Reach-Orderly : {s : Piping} → Reach s → Orderly s
unfolding write_object close_stream
Reach-Orderly start = record { split = refl; inside = omega arith; finished = tt }
Reach-Orderly (writes {s} o r) =
    let h = Reach-Orderly r in
    record {
      split =
          ap (λ d. (s.written ++ d) ++ drop s.index (s.objects ++ (o ∷ [])))
            (pending-broadcast s.phase)
          ∙ ap (λ d. (s.written ++ pending s.phase) ++ d)
              (drop-append_le s.index s.objects (o ∷ []) h.inside)
          ∙ sym (append_assoc (s.written ++ pending s.phase) (drop s.index s.objects) (o ∷ []))
          ∙ ap (λ os. os ++ (o ∷ [])) h.split;
      inside = omega (arith, h.inside, length-append s.objects (o ∷ []));
      finished = Finished-broadcast s.phase s.is_eof h.finished;
    }
Reach-Orderly (closes {s} r) =
    let h = Reach-Orderly r in
    record {
      split =
          ap (λ d. (s.written ++ d) ++ drop s.index s.objects) (pending-broadcast s.phase)
          ∙ h.split;
      inside = h.inside;
      finished = Finished-true s.phase;
    }
Reach-Orderly (follows r f) = Follow-Orderly f (Reach-Orderly r)

-- The steps that are left to a follower that waits when the stream is closed.
abbrev pub drained : Piping → Piping
drained s = send (drop s.index s.objects) (collect (close_stream s))

-- A follower that waits when the stream is closed collects, writes and ends its loop, and has then
-- written every object of the stream.
pub drained-written :
    {s : Piping}
    → Reach s
    → s.phase ≡ waiting
    → Reach (drained s) × ((drained s).phase ≡ ended) × ((drained s).written ≡ s.objects)
unfolding close_stream collect send
drained-written {s} r e =
    let c : Follow (close_stream s) (collect (close_stream s)) = collects (ap broadcast e) in
    (
      follows (follows (closes r) c) (sends (drop s.index s.objects) refl),
      refl,
      ap (λ w. w ++ drop s.index s.objects) (sym (append-nil s.written))
          ∙ split_at s [] (Reach-Orderly r) (ap pending e),
    )
