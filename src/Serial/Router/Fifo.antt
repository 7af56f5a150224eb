-- ===== src/Serial/Router/Fifo.antt =====
-- What the sinks of deck_serial_router.cpp hold, as queues of blocks.
use mathlib.Core.Path.{subst}
use s3_rlcd_deck.Base.{
  ℕ, zero, suc, ◌+◌, ◌≤◌, ◌<◌, ◌≡◌, ◌≢◌, ◌∙◌, sym, ap, refl, true, false, ◌||◌, some, List, [], ◌∷◌,
  ◌++◌, inl, inr, map, length, get_or, ltb, ◌==◌, if◌then◌else◌, arith, Bool-cases,
  increment_nonzero,
}
use s3_rlcd_deck.Serial.Router.{
  Pool, Sink, Router, InputBlock, RoutedBlock, blank_sink, copy_block, no_block, block_bytes,
}
use s3_rlcd_deck.Serial.Router.Calls.{
  sink_at, has_sink, overwrite_full, enqueue, takers, fill_block, submit,
}
use s3_rlcd_deck.Serial.Router.Ring.{items}
use s3_rlcd_deck.Serial.Router.Chain.{occurs, IsPool, SameQueued}
use s3_rlcd_deck.Serial.Router.Filling.{routed, front_free, fill_block_lem}
use s3_rlcd_deck.Serial.Router.Shares.{queue, uses_of, AllSinks, IsPool-ext}
use s3_rlcd_deck.Serial.Router.Drops.{tail, HasRoom, HasDropped, overwrite_full-HasDropped}
use s3_rlcd_deck.Serial.Router.Enqueue.{
  queue-enqueue, uses_of-enqueue, AllRoom-length, AllRoom-at, get_or-map, occurs-le-uses_of,
}

-- The free list and the queues share out the blocks of the pool.
pub record Inv (r : Router) : Type 0 where
  pub free : List ℕ
  pub pool : IsPool r.pool free (uses_of r.sinks)
  pub sinks : AllSinks r.sinks
  pub four : length r.sinks ≡ 4

-- The blocks that a sink holds, the oldest one first.
unfoldable pub contents : Router → ℕ → List RoutedBlock
unfolding items
contents r id = map (λ k. copy_block r.session_id r.pool k) (queue (sink_at r id))

pub map-SameQueued :
    (p q : Pool) (uses : ℕ → ℕ) (session_id : ℕ) (xs : List ℕ)
    → SameQueued p q uses
    → ((j : ℕ) → occurs j xs ≤ uses j)
    → map (λ k. copy_block session_id q k) xs ≡ map (λ k. copy_block session_id p k) xs
unfolding occurs
map-SameQueued p q uses session_id [] same fits = refl
map-SameQueued p q uses session_id (x ∷ xs) same fits =
    let here : uses x ≢ 0 = λ e. ground (arith, fits x, e) in
    rw (same x session_id here) (
      ap (λ l. copy_block session_id p x ∷ l)
        (map-SameQueued p q uses session_id xs same (λ j. ground (arith, fits j))))

map_append :
    (f : ℕ → RoutedBlock) (xs : List ℕ) (k : ℕ) → map f (xs ++ k ∷ []) ≡ map f xs ++ f k ∷ []
map_append f [] k = refl
map_append f (x ∷ xs) k = ap (λ l. f x ∷ l) (map_append f xs k)

-- The list without its first block.
abbrev pub rest_of : List RoutedBlock → List RoutedBlock
rest_of [] = []
rest_of (b ∷ bs) = bs

map-tail : (f : ℕ → RoutedBlock) (xs : List ℕ) → map f (tail xs) ≡ rest_of (map f xs)
map-tail f [] = refl
map-tail f (x ∷ xs) = refl

takers-registered :
    (sinks : List Sink) (id : ℕ)
    → id < length sinks
    → (get_or sinks id blank_sink).registered ≡ true
    → takers sinks ≢ 0
unfolding takers
takers-registered [] id h on = absurd (omega arith)
takers-registered (s ∷ sinks) zero h on = λ e. ground (arith, e)
takers-registered (s ∷ sinks) (suc id) h on =
    λ e. ground (arith, takers-registered sinks id (omega arith) on, e)

-- What stands behind the free blocks, once full sinks have dropped their oldest.
unused_none :
    (p : Pool) (free : List ℕ) (uses : ℕ → ℕ)
    → IsPool p free uses
    → (p.free_head == no_block) ≡ false
    → (k : ℕ) × (rest : List ℕ) × (free ≡ k ∷ rest)
unused_none p [] uses i e = absurd (ground (arith, i.chain, e))
unused_none p (k ∷ rest) uses i e = (k, rest, refl)

-- After full sinks have lost their oldest blocks.
pub dropped :
    (r : Router) (i : Inv r)
    → let (p, sinks) = overwrite_full r.pool r.sinks in HasDropped r.pool p r.sinks sinks (λ j. 0)
dropped r i =
    overwrite_full-HasDropped r.pool r.sinks i.free (λ j. 0) i.sinks
      (IsPool-ext r.pool i.free (uses_of r.sinks) (λ j. 0 + uses_of r.sinks j) i.pool
        (λ j. omega arith))

-- The pool after the fan-out of a block.
pub fanned_out :
    (r : Router) (i : Inv r) (sequence n : ℕ) (input : InputBlock)
    → let (p, sinks) = overwrite_full r.pool r.sinks in
      let u = map (λ s. enqueue p.free_head n s) sinks in
      let q = fill_block p sinks sequence input in
      (p.free_head == no_block) ≡ false
      → (free : List ℕ) × IsPool q free (uses_of u)
        × SameQueued p q (uses_of sinks)
        × ((session_id : ℕ)
            → takers sinks ≢ 0
            → copy_block session_id q p.free_head ≡ routed session_id sequence input)
fanned_out r i sequence n input open_pool =
    let (p, sinks) = overwrite_full r.pool r.sinks in
    let u = map (λ s. enqueue p.free_head n s) sinks in
    let q = fill_block p sinks sequence input in
    let h = dropped r i in
    let zero_uses = λ (j : ℕ). 0 + uses_of sinks j in
    let (k, rest, is) = unused_none p h.free zero_uses h.pool open_pool in
    let pool = subst (λ l. IsPool p l zero_uses) is h.pool in
    let (unused, once, inside, head) = front_free p k rest zero_uses (uses_of u) pool in
    let counted = λ (j : ℕ). uses_of-enqueue j p.free_head n r.sinks sinks h.rooms in
    let (filled, same, new) =
      fill_block_lem p k rest zero_uses (uses_of u) pool sinks sequence input
        (ground (arith, counted k, unused, head)) (λ j ne. ground (arith, counted j, head, ne)) in
    (
      if takers sinks == 0 then k ∷ rest else rest,
      filled,
      λ j session_id used. same j session_id (λ e. used (omega (arith, e))),
      λ session_id some_there.
          subst (λ x. copy_block session_id q x ≡ routed session_id sequence input) (sym head)
            (new session_id some_there),
    )

-- What a block that is accepted changes.
record IsAccepted (r u : Router) (input : InputBlock) (sequence : ℕ) : Type 0 where
  pub open_pool : ((overwrite_full r.pool r.sinks).0.free_head == no_block) ≡ false
  pub pool :
      let (p, sinks) = overwrite_full r.pool r.sinks in u.pool ≡ fill_block p sinks sequence input
  pub sinks :
      let (p, sinks) = overwrite_full r.pool r.sinks in
      u.sinks ≡ map (λ s. enqueue p.free_head (length input.bytes) s) sinks
  pub session : u.session_id ≡ r.session_id

submit-IsAccepted :
    (r : Router) (input : InputBlock) (sequence : ℕ)
    → (submit r input).1 ≡ some sequence
    → IsAccepted r (submit r input).0 input sequence
unfolding submit
submit-IsAccepted r input sequence e =
    let n = length input.bytes in
    let (p, sinks) = overwrite_full r.pool r.sinks in
    let fits : (n == 0 || ltb block_bytes n) ≡ false = ground arith in
    let open_pool : (p.free_head == no_block) ≡ false = ground arith in
    let given : increment_nonzero r.stats.last_sequence ≡ sequence = ground arith in
    record {
      open_pool = open_pool;
      pool = rw (fits, open_pool, given) refl;
      sinks = rw (fits, open_pool) refl;
      session = rw (fits, open_pool) refl;
    }

-- A sink's blocks after the fan-out, in the pool before it.
enqueued-contents :
    (session_id k n : ℕ) (p q : Pool) (s t : Sink) (b : RoutedBlock)
    → HasRoom s t
    → t.registered ≡ true
    → copy_block session_id q k ≡ b
    → map (λ j. copy_block session_id q j) (queue t)
      ≡ map (λ j. copy_block session_id p j) (queue t)
    → map (λ j. copy_block session_id q j) (queue (enqueue k n t))
      ≡ (if s.count == s.capacity_blocks
          then rest_of (map (λ j. copy_block session_id p j) (queue s))
          else map (λ j. copy_block session_id p j) (queue s))
        ++ b ∷ []
enqueued-contents session_id k n p q s t b room on new same =
    let f = λ (j : ℕ). copy_block session_id p j in
    let g = λ (j : ℕ). copy_block session_id q j in
    let queued : queue (enqueue k n t) ≡ queue t ++ k ∷ [] =
      queue-enqueue k n s t room ∙ rw on refl in
    let was : s.registered ≡ true = sym room.registered ∙ on in
    let left : map f (queue t)
        ≡ (if s.count == s.capacity_blocks then rest_of (map f (queue s)) else map f (queue s)) =
      ap (λ l. map f l) room.left ∙ (elim (Bool-cases (s.count == s.capacity_blocks)) [
        | inl full ↦ rw (was, full) (map-tail f (queue s))
        | inr space ↦ rw (was, space) refl
      ]) in
    ap (λ l. map g l) queued
    ∙ map_append g (queue t) k
    ∙ ap (λ x. map g (queue t) ++ x ∷ []) new
    ∙ ap (λ l. l ++ b ∷ []) (same ∙ left)

-- A block that is accepted stands behind what each sink in use holds, which has lost its oldest block
-- where it was full; no block that is still queued has changed.
pub submit-contents :
    (r : Router) (input : InputBlock) (id sequence : ℕ)
    → Inv r
    → (submit r input).1 ≡ some sequence
    → has_sink r id ≡ true
    → contents (submit r input).0 id
      ≡ (if (sink_at r id).count == (sink_at r id).capacity_blocks
          then rest_of (contents r id)
          else contents r id)
        ++ routed r.session_id sequence input ∷ []
unfolding contents
submit-contents r input id sequence i e on =
    let a = submit-IsAccepted r input sequence e in
    let n = length input.bytes in
    let (p, sinks) = overwrite_full r.pool r.sinks in
    let q = fill_block p sinks sequence input in
    let h = dropped r i in
    let (free, pool, same, new) = fanned_out r i sequence n input a.open_pool in
    let inside : id < length r.sinks = ground (arith, on, i.four) in
    let inside' : id < length sinks = omega (arith, AllRoom-length r.sinks sinks h.rooms, inside) in
    let room = AllRoom-at r.sinks sinks id h.rooms inside in
    let t = get_or sinks id blank_sink in
    let registered : t.registered ≡ true = room.registered ∙ ground (arith, on) in
    let mine = λ (j : ℕ). occurs-le-uses_of j id sinks inside' in
    let both =
      map-SameQueued p q (uses_of sinks) r.session_id (queue t) same mine
      ∙ map-SameQueued r.pool p (λ j. 0 + uses_of sinks j) r.session_id (queue t) h.same
          (λ j. omega (arith, mine j)) in
    let some_there = takers-registered sinks id inside' registered in
    rw (a.pool, a.sinks, a.session, get_or-map p.free_head n id sinks inside')
      (enqueued-contents r.session_id p.free_head n r.pool q (sink_at r id) t
        (routed r.session_id sequence input) room registered (new r.session_id some_there) both)
