-- ===== src/Serial/Router/Steps.antt =====
-- Any calls of deck_serial_router.cpp, and what a take gives.
use mathlib.Core.Path.{subst}
use s3_rlcd_deck.Base.{
  ℕ, zero, suc, ◌+◌, ◌%◌, ◌≤◌, ◌<◌, ◌≡◌, ◌≢◌, ◌∙◌, sym, ap, refl, false, not, ◌||◌, List, [], ◌∷◌,
  map, length, length-set_elem, get_or, get_or-set_elem, get_or-set_elem_other, set_elem, ◌==◌,
  arith,
}
use s3_rlcd_deck.Serial.Router.{
  Pool, Sink, Router, RoutedBlock, blank_sink, copy_block, delivered, remove_front, sink_block_at,
  max_sinks,
}
use s3_rlcd_deck.Serial.Router.Calls.{copied, sink_at, has_sink, with_sink, take}
use s3_rlcd_deck.Serial.Router.Ring.{items, mod_small}
use s3_rlcd_deck.Serial.Router.Chain.{occurs, IsPool}
use s3_rlcd_deck.Serial.Router.Shares.{
  queue, IsSink, IsSink-IsReady, registered_of_count, uses_of, AllSinks, IsPool-ext,
  remove_front-HasLeft,
}
use s3_rlcd_deck.Serial.Router.Enqueue.{occurs-le-uses_of}
use s3_rlcd_deck.Serial.Router.Fifo.{Inv, contents, map-SameQueued}

-- How often a block is queued at the other sinks.
abbrev pub uses_but : List Sink → ℕ → ℕ → ℕ
uses_but sinks id j = uses_of (set_elem sinks id blank_sink) j

uses_of-set_elem :
    (sinks : List Sink) (id j : ℕ) (t : Sink)
    → id < length sinks
    → uses_of (set_elem sinks id t) j ≡ occurs j (queue t) + uses_but sinks id j
unfolding uses_of occurs items
uses_of-set_elem [] id j t h = absurd (omega arith)
uses_of-set_elem (s ∷ sinks) zero j t h = omega arith
uses_of-set_elem (s ∷ sinks) (suc id) j t h =
    omega (arith, uses_of-set_elem sinks id j t (omega arith))

set_elem-get_or :
    (sinks : List Sink) (id : ℕ) → set_elem sinks id (get_or sinks id blank_sink) ≡ sinks
set_elem-get_or [] id = refl
set_elem-get_or (s ∷ sinks) zero = refl
set_elem-get_or (s ∷ sinks) (suc id) = ap (λ l. s ∷ l) (set_elem-get_or sinks id)

uses_of-at :
    (sinks : List Sink) (id j : ℕ)
    → id < length sinks
    → uses_of sinks j ≡ occurs j (queue (get_or sinks id blank_sink)) + uses_but sinks id j
uses_of-at sinks id j h =
    ap (λ l. uses_of l j) (sym (set_elem-get_or sinks id))
    ∙ uses_of-set_elem sinks id j (get_or sinks id blank_sink) h

AllSinks-set_elem :
    (sinks : List Sink) (id : ℕ) (t : Sink)
    → AllSinks sinks
    → IsSink t
    → AllSinks (set_elem sinks id t)
AllSinks-set_elem [] id t is i = tt
AllSinks-set_elem (s ∷ sinks) zero t (first, is) i = (i, is)
AllSinks-set_elem (s ∷ sinks) (suc id) t (first, is) i = (first, AllSinks-set_elem sinks id t is i)

AllSinks-at :
    (sinks : List Sink) (id : ℕ)
    → AllSinks sinks
    → id < length sinks
    → IsSink (get_or sinks id blank_sink)
AllSinks-at [] id is h = absurd (omega arith)
AllSinks-at (s ∷ sinks) zero (i, is) h = i
AllSinks-at (s ∷ sinks) (suc id) (i, is) h = AllSinks-at sinks id is (omega arith)

-- What the invariant says of one sink, and how it is put together again.
module _ (r : Router) (id : ℕ) (i : Inv r) (h : id < 4) where
  pub inside : id < length r.sinks
  inside = omega (arith, h, i.four)

  pub pool_at : IsPool r.pool i.free (λ j. occurs j (queue (sink_at r id)) + uses_but r.sinks id j)
  pool_at =
      IsPool-ext r.pool i.free (uses_of r.sinks)
        (λ j. occurs j (queue (sink_at r id)) + uses_but r.sinks id j) i.pool
        (λ j. sym (uses_of-at r.sinks id j inside))

  pub sink_at-IsSink : IsSink (sink_at r id)
  sink_at-IsSink = AllSinks-at r.sinks id i.sinks inside

  pub with_sink-Inv :
      (p : Pool) (t : Sink) (free : List ℕ)
      → IsPool p free (λ j. occurs j (queue t) + uses_but r.sinks id j)
      → IsSink t
      → Inv (with_sink r p id t)
  with_sink-Inv p t free pool is = record {
    free = free;
    pool =
        IsPool-ext p free (λ j. occurs j (queue t) + uses_but r.sinks id j)
          (uses_of (set_elem r.sinks id t)) pool (λ j. uses_of-set_elem r.sinks id j t inside);
    sinks = AllSinks-set_elem r.sinks id t i.sinks is;
    four = length-set_elem r.sinks id t ∙ i.four;
  }

take-copied :
    (r : Router) (id : ℕ) (b : RoutedBlock)
    → (take r id).1 ≡ copied b
    → let s = sink_at r id in
      let (p, t) = remove_front r.pool s delivered in
      (id < 4)
      × (s.count ≢ 0)
      × ((take r id).0 ≡ with_sink r p id t)
      × (b ≡ copy_block r.session_id r.pool (sink_block_at s 0))
unfolding take
take-copied r id b e =
    let s = sink_at r id in
    let open_sink : (not (has_sink r id) || s.retained) ≡ false = ground arith in
    let some_there : (s.count == 0) ≡ false = ground arith in
    (
      ground (arith, open_sink),
      ground (arith, some_there),
      rw (open_sink, some_there) refl,
      ground (arith, e),
    )

-- A take gives the oldest block of its sink, which keeps the others in order; and no block that
-- another sink holds has changed.
pub take-contents :
    (r : Router) (id other : ℕ) (b : RoutedBlock)
    → Inv r
    → (take r id).1 ≡ copied b
    → other < max_sinks
    → other ≢ id
    → (contents r id ≡ b ∷ contents (take r id).0 id)
      × (contents (take r id).0 other ≡ contents r other)
unfolding contents
take-contents r id other b i e small apart =
    let s = sink_at r id in
    let (p, t) = remove_front r.pool s delivered in
    let (inside_id, some_there, becomes, is) = take-copied r id b e in
    let here = inside r id i inside_id in
    let left =
      remove_front-HasLeft r.pool s delivered i.free (uses_but r.sinks id)
        (sink_at-IsSink r id i inside_id) some_there (pool_at r id i inside_id) in
    let on = registered_of_count s (sink_at-IsSink r id i inside_id) some_there in
    let ready = IsSink-IsReady s (sink_at-IsSink r id i inside_id) on in
    let first : (s.head + 0) % s.capacity_blocks ≡ s.head =
      let same : s.head + 0 ≡ s.head = omega arith in
      ap (λ x. x % s.capacity_blocks) same ∙ mod_small s.head s.capacity_blocks ready.head in
    let given : b ≡ copy_block r.session_id r.pool left.front =
      is
      ∙ ap (λ k. copy_block r.session_id r.pool (get_or s.blocks k 0)) first
      ∙ ap (λ k. copy_block r.session_id r.pool k) (sym left.at) in
    let uses = λ (j : ℕ). occurs j (queue t) + uses_but r.sinks id j in
    let mine = map-SameQueued r.pool p uses r.session_id (queue t) left.same (λ j. omega arith) in
    let now : sink_at (with_sink r p id t) id ≡ t = get_or-set_elem r.sinks id t blank_sink here in
    let elsewhere : sink_at (with_sink r p id t) other ≡ sink_at r other =
      get_or-set_elem_other r.sinks id other t blank_sink (λ d. apart (sym d)) in
    let blank_there =
      get_or-set_elem_other r.sinks id other blank_sink blank_sink (λ d. apart (sym d)) in
    let bound = λ (j : ℕ).
      subst (λ (x : Sink). occurs j (queue x) ≤ uses_but r.sinks id j) blank_there
        (occurs-le-uses_of j other (set_elem r.sinks id blank_sink)
          (omega (arith, length-set_elem r.sinks id blank_sink, i.four, small))) in
    let theirs =
      map-SameQueued r.pool p uses r.session_id (queue (sink_at r other)) left.same
        (λ j. omega (arith, bound j)) in
    let f = λ (k : ℕ). copy_block r.session_id r.pool k in
    (
      ap (λ l. map f l) left.was
          ∙ ap (λ x. x ∷ map f (queue t)) (sym given)
          ∙ ap (λ l. b ∷ l) (sym mine)
          ∙ ap (λ (x : Sink). b ∷ map (λ k. copy_block r.session_id p k) (queue x)) (sym now)
          ∙ ap (λ u. b ∷ contents u id) (sym becomes),
      ap (λ u. contents u other) becomes
          ∙ ap (λ (x : Sink). map (λ k. copy_block r.session_id p k) (queue x)) elsewhere
          ∙ theirs,
    )
