-- ===== src/Serial/Router/Ring.antt =====
-- The ring of a sink of deck_serial_router.cpp, as the queue of its block numbers.
use native.Mathlib.Decide.{dec_lt}
use native.Mathlib.Nat.{mod-eq_of_lt, mod-eq-sub-mod, mod-add-mod}
use s3_rlcd_deck.Base.{
  ℕ, zero, suc, ◌+◌, ◌-◌, ◌%◌, ◌≤◌, ◌<◌, ◌≡◌, ◌≢◌, ◌⊎◌, inl, inr, ◌∙◌, sym, ap, refl, List, [], ◌∷◌,
  ◌++◌, length, get_or, set_elem, get_or-set_elem, get_or-set_elem_other, arith,
}

-- The blocks of a ring from a place on.
unfoldable pub items : List ℕ → ℕ → ℕ → ℕ → List ℕ
items ring room place zero = []
items ring room place (suc n) = get_or ring place 0 ∷ items ring room ((place + 1) % room) n

pub mod_small : (x room : ℕ) → x < room → x % room ≡ x
mod_small x room h = mod-eq_of_lt h

place_behind : (room place j : ℕ) → ((place + 1) % room + j) % room ≡ (place + suc j) % room
place_behind room place j =
    let e : place + 1 + j ≡ place + suc j = omega arith in
    mod-add-mod (place + 1) room j ∙ ap (λ x. x % room) e

pub next_place : (room place : ℕ) → place < room → (place + 1) % room < room
next_place room place h = grind arith

-- A place of a queue, before the end of the ring or behind it.
place_cases :
    (room place j : ℕ)
    → place < room
    → j ≤ room
    → ((place + j) % room ≡ place + j) × (place + j < room)
      ⊎ ((place + j) % room + room ≡ place + j)
place_cases room place j h k = elim (dec_lt (place + j) room) [
  | yes before ↦ inl (mod-eq_of_lt before, before)
  | no behind ↦
      let over : room ≤ place + j = omega (arith, behind) in
      let rest : place + j - room < room = omega arith in
      let e = mod-eq-sub-mod over ∙ mod-eq_of_lt rest in inr (omega (arith, e, over))
]

places_apart :
    (room place i j : ℕ) → place < room → i < j → j < room → (place + j) % room ≢ (place + i) % room
places_apart room place i j h less k =
    let a = place_cases room place i h (omega arith) in
    let b = place_cases room place j h (omega arith) in λ e. omega (arith, a, b, e)

items-set_elem_other :
    (ring : List ℕ) (room place n t v : ℕ)
    → place < room
    → ((j : ℕ) → j < n → t ≢ (place + j) % room)
    → items (set_elem ring t v) room place n ≡ items ring room place n
unfolding items
items-set_elem_other ring room place zero t v h away = refl
items-set_elem_other ring room place (suc n) t v h away =
    let next = (place + 1) % room in
    let first : (place + 0) % room ≡ place =
      let e : place + 0 ≡ place = omega arith in ap (λ x. x % room) e ∙ mod_small place room h in
    let here : t ≢ place = λ e. away 0 (omega arith) (e ∙ sym first) in
    let ih =
      items-set_elem_other ring room next n t v (next_place room place h)
        (λ j k e. away (suc j) (omega (arith, k)) (e ∙ place_behind room place j)) in
    rw (get_or-set_elem_other ring t place v 0 here, ih) refl

items_snoc :
    (ring : List ℕ) (room place n : ℕ)
    → place < room
    → items ring room place (suc n)
      ≡ items ring room place n ++ get_or ring ((place + n) % room) 0 ∷ []
unfolding items
items_snoc ring room place zero h =
    let e : place + 0 ≡ place = omega arith in
    ap (λ x. get_or ring x 0 ∷ []) (sym (ap (λ x. x % room) e ∙ mod_small place room h))
items_snoc ring room place (suc n) h =
    let next = (place + 1) % room in
    let ih = items_snoc ring room next n (next_place room place h) in
    ap (λ l. get_or ring place 0 ∷ l) ih
    ∙ ap (λ x. get_or ring place 0 ∷ (items ring room next n ++ get_or ring x 0 ∷ []))
        (place_behind room place n)

-- A block that is put behind a queue that is not full.
pub items-push :
    (ring : List ℕ) (room place n v : ℕ)
    → place < room
    → n < room
    → length ring ≡ room
    → items (set_elem ring ((place + n) % room) v) room place (suc n)
      ≡ items ring room place n ++ v ∷ []
items-push ring room place n v h less size =
    let t = (place + n) % room in
    let other =
      items-set_elem_other ring room place n t v h (λ j k. places_apart room place j n h k less) in
    let inside : t < length ring = grind (arith, size) in
    items_snoc (set_elem ring t v) room place n h
    ∙ ap (λ x. items (set_elem ring t v) room place n ++ x ∷ []) (get_or-set_elem ring t v 0 inside)
    ∙ ap (λ l. l ++ v ∷ []) other
