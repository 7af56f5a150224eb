-- ===== src/Base/Lists.antt =====
-- Lists measured and indexed by native numbers, under the library's names.
use Prim.Native.Nat.{ℕ, zero, suc, ◌+◌, ◌-◌, ◌<◌}
use mathlib.Core.Bool.{Bool, true, false, ◌&&◌}
use mathlib.Core.Logic.{◌↔◌, ◌≢◌}
use mathlib.Core.Path.{◌≡◌, refl, ap}
use mathlib.Core.List.{List, [], ◌∷◌, ◌++◌}
use mathlib.Core.Option.{Option, none, some}
use native.Mathlib.Omega.{arith}
use s3_rlcd_deck.Base.Tests.{◌==◌}

module _ {ℓ} {A : Type ℓ} where
  abbrev pub length : List A → ℕ
  length [] = 0
  length (x ∷ xs) = suc (length xs)

  abbrev pub get_elem? : List A → ℕ → Option A
  get_elem? [] i = none
  get_elem? (x ∷ xs) zero = some x
  get_elem? (x ∷ xs) (suc i) = get_elem? xs i

  pub length-append : (xs ys : List A) → length (xs ++ ys) ≡ length xs + length ys
  length-append [] ys = omega arith
  length-append (x ∷ xs) ys = omega (arith, length-append xs ys)

-- `strcmp(left, right) == 0` on the texts of two arrays.
unfoldable pub same_text : List ℕ → List ℕ → Bool
same_text [] [] = true
same_text [] (r ∷ right) = false
same_text (l ∷ left) [] = false
same_text (l ∷ left) (r ∷ right) = l == r && same_text left right

pub same_text_iff : (left right : List ℕ) → (same_text left right ≡ true) ↔ (left ≡ right)
unfolding same_text
same_text_iff [] [] = ground arith
same_text_iff [] (r ∷ right) = ground arith
same_text_iff (l ∷ left) [] = ground arith
same_text_iff (l ∷ left) (r ∷ right) = ground (arith, same_text_iff left right)

module _ {ℓ} {A : Type ℓ} where
  abbrev pub get_or : List A → ℕ → A → A
  get_or [] i d = d
  get_or (x ∷ xs) zero d = x
  get_or (x ∷ xs) (suc i) d = get_or xs i d

  abbrev pub take : ℕ → List A → List A
  take zero xs = []
  take (suc n) [] = []
  take (suc n) (x ∷ xs) = x ∷ take n xs

  abbrev pub drop : ℕ → List A → List A
  drop zero xs = xs
  drop (suc n) [] = []
  drop (suc n) (x ∷ xs) = drop n xs

  pub take-append : (xs ys : List A) → take (length xs) (xs ++ ys) ≡ xs
  take-append [] ys = refl
  take-append (x ∷ xs) ys = ap (λ l. x ∷ l) (take-append xs ys)

  pub drop-append : (xs ys : List A) → drop (length xs) (xs ++ ys) ≡ ys
  drop-append [] ys = refl
  drop-append (x ∷ xs) ys = drop-append xs ys

  pub length-drop : (n : ℕ) (xs : List A) → length (drop n xs) ≡ length xs - n
  length-drop zero xs = omega arith
  length-drop (suc n) [] = omega arith
  length-drop (suc n) (x ∷ xs) = omega (arith, length-drop n xs)

  -- A store past the end changes nothing.
  abbrev pub set_elem : List A → ℕ → A → List A
  set_elem [] i v = []
  set_elem (x ∷ xs) zero v = v ∷ xs
  set_elem (x ∷ xs) (suc i) v = x ∷ set_elem xs i v

  pub length-set_elem : (xs : List A) (i : ℕ) (v : A) → length (set_elem xs i v) ≡ length xs
  length-set_elem [] i v = refl
  length-set_elem (x ∷ xs) zero v = refl
  length-set_elem (x ∷ xs) (suc i) v = omega (arith, length-set_elem xs i v)

  pub get_or-set_elem :
      (xs : List A) (i : ℕ) (v d : A) → i < length xs → get_or (set_elem xs i v) i d ≡ v
  get_or-set_elem [] i v d h = absurd (omega arith)
  get_or-set_elem (x ∷ xs) zero v d h = refl
  get_or-set_elem (x ∷ xs) (suc i) v d h = get_or-set_elem xs i v d (omega arith)

  pub get_or-set_elem_other :
      (xs : List A) (i j : ℕ) (v d : A) → i ≢ j → get_or (set_elem xs i v) j d ≡ get_or xs j d
  get_or-set_elem_other [] i j v d h = refl
  get_or-set_elem_other (x ∷ xs) zero zero v d h = absurd (h refl)
  get_or-set_elem_other (x ∷ xs) zero (suc j) v d h = refl
  get_or-set_elem_other (x ∷ xs) (suc i) zero v d h = refl
  get_or-set_elem_other (x ∷ xs) (suc i) (suc j) v d h =
      get_or-set_elem_other xs i j v d (λ e. h (ap (λ n. suc n) e))

  abbrev pub replicate : ℕ → A → List A
  replicate zero v = []
  replicate (suc n) v = v ∷ replicate n v

  pub get_or-replicate : (n i : ℕ) (v : A) → get_or (replicate n v) i v ≡ v
  get_or-replicate zero i v = refl
  get_or-replicate (suc n) zero v = refl
  get_or-replicate (suc n) (suc i) v = get_or-replicate n i v
