-- ===== src/Serial/Router/Enqueue.antt =====
-- The fan-out of deck_serial_router.cpp: a block is put behind the queue of each sink.
use mathlib.Core.Path.{subst}
use s3_rlcd_deck.Base.{
  ℕ, zero, suc, ◌+◌, ◌%◌, ◌≤◌, ◌<◌, ◌≡◌, ◌∙◌, sym, ap, refl, List, [], ◌∷◌, ◌++◌, inl, inr, map,
  length, length-set_elem, get_or, set_elem, ◌==◌, if◌then◌else◌, arith, Bool-cases,
}
use s3_rlcd_deck.Serial.Router.{Sink, blank_sink}
use s3_rlcd_deck.Serial.Router.Calls.{enqueue, takers}
use s3_rlcd_deck.Serial.Router.Ring.{items, items-push}
use s3_rlcd_deck.Serial.Router.Chain.{occurs}
use s3_rlcd_deck.Serial.Router.Shares.{queue, IsSink, IsSink-IsReady, uses_of, AllSinks}
use s3_rlcd_deck.Serial.Router.Drops.{HasRoom, AllRoom}

occurs_append :
    (j k : ℕ) (xs : List ℕ) → occurs j (xs ++ k ∷ []) ≡ occurs j xs + (if j == k then 1 else 0)
unfolding occurs
occurs_append j k [] = ground arith
occurs_append j k (x ∷ xs) = ground (arith, occurs_append j k xs)

pub queue-enqueue :
    (k n : ℕ) (s t : Sink)
    → HasRoom s t
    → queue (enqueue k n t) ≡ (if t.registered then queue t ++ k ∷ [] else queue t)
unfolding enqueue
queue-enqueue k n s t room = elim (Bool-cases t.registered) [
  | inr off ↦ rw off refl
  | inl on ↦
      let r = IsSink-IsReady t room.sink on in
      let more : t.count + 1 ≡ suc t.count = omega arith in
      let ring = set_elem t.blocks ((t.head + t.count) % t.capacity_blocks) k in
      rw on (
        ap (λ m. items ring t.capacity_blocks t.head m) more
        ∙ items-push t.blocks t.capacity_blocks t.head t.count k r.head (room.space on) r.ring)
]

enqueue-IsSink : (k n : ℕ) (s t : Sink) → HasRoom s t → IsSink (enqueue k n t)
unfolding enqueue
enqueue-IsSink k n s t room = elim (Bool-cases t.registered) [
  | inr off ↦
      let same : enqueue k n t ≡ t = ground arith in subst (λ x. IsSink x) (sym same) room.sink
  | inl on ↦
      let r = IsSink-IsReady t room.sink on in
      rw on (record {
        ready = λ e. (
          r.head,
          omega (arith, room.space on),
          length-set_elem t.blocks ((t.head + t.count) % t.capacity_blocks) k ∙ r.ring,
        );
        off = λ e. absurd (ground (arith, e));
      })
]

occurs-enqueue :
    (j k n : ℕ) (s t : Sink)
    → HasRoom s t
    → occurs j (queue (enqueue k n t))
      ≡ occurs j (queue t) + (if t.registered then (if j == k then 1 else 0) else 0)
occurs-enqueue j k n s t room = elim (Bool-cases t.registered) [
  | inr off ↦ ap (λ l. occurs j l) (queue-enqueue k n s t room) ∙ rw off (omega arith)
  | inl on ↦ ap (λ l. occurs j l) (queue-enqueue k n s t room) ∙ rw on (occurs_append j k (queue t))
]

-- After the fan-out each sink in use has the block once more.
pub uses_of-enqueue :
    (j k n : ℕ) (sinks others : List Sink)
    → AllRoom sinks others
    → uses_of (map (λ s. enqueue k n s) others) j
      ≡ uses_of others j + (if j == k then takers others else 0)
unfolding uses_of takers
uses_of-enqueue j k n [] [] rooms = ground arith
uses_of-enqueue j k n [] (t ∷ others) rooms = absurd rooms
uses_of-enqueue j k n (s ∷ sinks) [] rooms = absurd rooms
uses_of-enqueue j k n (s ∷ sinks) (t ∷ others) (room, rooms) =
    ground (arith, occurs-enqueue j k n s t room, uses_of-enqueue j k n sinks others rooms)

pub enqueue-AllSinks :
    (k n : ℕ) (sinks others : List Sink)
    → AllRoom sinks others
    → AllSinks (map (λ s. enqueue k n s) others)
enqueue-AllSinks k n [] [] rooms = tt
enqueue-AllSinks k n [] (t ∷ others) rooms = absurd rooms
enqueue-AllSinks k n (s ∷ sinks) [] rooms = absurd rooms
enqueue-AllSinks k n (s ∷ sinks) (t ∷ others) (room, rooms) =
    (enqueue-IsSink k n s t room, enqueue-AllSinks k n sinks others rooms)

pub AllRoom-AllSinks : (sinks others : List Sink) → AllRoom sinks others → AllSinks others
AllRoom-AllSinks [] [] rooms = tt
AllRoom-AllSinks [] (t ∷ others) rooms = absurd rooms
AllRoom-AllSinks (s ∷ sinks) [] rooms = absurd rooms
AllRoom-AllSinks (s ∷ sinks) (t ∷ others) (room, rooms) =
    (room.sink, AllRoom-AllSinks sinks others rooms)

pub AllRoom-length :
    (sinks others : List Sink) → AllRoom sinks others → length others ≡ length sinks
AllRoom-length [] [] rooms = refl
AllRoom-length [] (t ∷ others) rooms = absurd rooms
AllRoom-length (s ∷ sinks) [] rooms = absurd rooms
AllRoom-length (s ∷ sinks) (t ∷ others) (room, rooms) =
    ap (λ n. suc n) (AllRoom-length sinks others rooms)

-- A sink of the list, and the list where it is another one.
pub AllRoom-at :
    (sinks others : List Sink) (id : ℕ)
    → AllRoom sinks others
    → id < length sinks
    → HasRoom (get_or sinks id blank_sink) (get_or others id blank_sink)
AllRoom-at [] others id rooms h = absurd (omega arith)
AllRoom-at (s ∷ sinks) [] id rooms h = absurd rooms
AllRoom-at (s ∷ sinks) (t ∷ others) zero (room, rooms) h = room
AllRoom-at (s ∷ sinks) (t ∷ others) (suc id) (room, rooms) h =
    AllRoom-at sinks others id rooms (omega arith)

pub get_or-map :
    (k n id : ℕ) (sinks : List Sink)
    → id < length sinks
    → get_or (map (λ s. enqueue k n s) sinks) id blank_sink
      ≡ enqueue k n (get_or sinks id blank_sink)
get_or-map k n id [] h = absurd (omega arith)
get_or-map k n zero (s ∷ sinks) h = refl
get_or-map k n (suc id) (s ∷ sinks) h = get_or-map k n id sinks (omega arith)

pub occurs-le-uses_of :
    (j id : ℕ) (sinks : List Sink)
    → id < length sinks
    → occurs j (queue (get_or sinks id blank_sink)) ≤ uses_of sinks j
unfolding uses_of
occurs-le-uses_of j id [] h = absurd (omega arith)
occurs-le-uses_of j zero (s ∷ sinks) h = omega arith
occurs-le-uses_of j (suc id) (s ∷ sinks) h = omega (arith, occurs-le-uses_of j id sinks)
