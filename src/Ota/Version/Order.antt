-- ===== src/Ota/Version/Order.antt =====
-- The order of versions that guards against a downgrade (deck_ota_transaction.cpp).
use mathlib.Core.Path.{subst₂}
use mathlib.Core.Option.{some-injective}
use s3_rlcd_deck.Base.{
  ℕ, ◌<◌, ◌≡◌, ◌⊎◌, ◌↔◌, refl, sym, true, false, inl, inr, Bool-cases, List, Option, none, some,
  arith,
}
use s3_rlcd_deck.Ota.Version.{Core, parse_semantic_core, core_newer, newer_parts, strictly_newer}

-- The lexicographic order of the three numbers.
abbrev pub Newer : Core → Core → Type 0
Newer (a, b, c) (x, y, z) = (x < a) ⊎ ((a ≡ x) × ((y < b) ⊎ ((b ≡ y) × (z < c))))

core_newer_iff : (p q : Core) → (core_newer p q ≡ true) ↔ Newer p q
unfolding core_newer
core_newer_iff (a, b, c) (x, y, z) = ground arith

core_newer_irrefl : (p : Core) → core_newer p p ≡ false
unfolding core_newer
core_newer_irrefl (a, b, c) = ground arith

Newer-trans : (p q r : Core) → Newer p q → Newer q r → Newer p r
Newer-trans (a, b, c) (x, y, z) (u, v, w) h k = omega arith

core_newer_trans :
    (p q r : Core) → core_newer p q ≡ true → core_newer q r ≡ true → core_newer p r ≡ true
core_newer_trans p q r h k =
    (core_newer_iff p r).1 (Newer-trans p q r ((core_newer_iff p q).0 h) ((core_newer_iff q r).0 k))

newer_parts_iff :
    (m n : Option Core)
    → (newer_parts m n ≡ true) ↔ ((p : Core) × (q : Core) × (m ≡ some p) × (n ≡ some q) × Newer p q)
unfolding newer_parts
newer_parts_iff none n = (λ e. cc, λ h. cc (h.2))
newer_parts_iff (some p) none = (λ e. cc, λ h. cc (h.3))
newer_parts_iff (some p) (some q) = (
  λ e. (p, q, refl, refl, (core_newer_iff p q).0 e),
  λ h.
      (core_newer_iff p q).1
        (subst₂ Newer (sym (some-injective p h.0 h.2)) (sym (some-injective q h.1 h.3)) h.4),
)

-- A candidate is taken for newer exactly where both versions parse, and its three numbers come
-- after those of the running version in the lexicographic order.
pub strictly_newer_iff :
    (candidate running : List ℕ)
    → (strictly_newer candidate running ≡ true) ↔ (
        (p : Core) × (q : Core) × (parse_semantic_core candidate ≡ some p)
        × (parse_semantic_core running ≡ some q)
        × Newer p q)
unfolding strictly_newer
strictly_newer_iff candidate running =
    newer_parts_iff (parse_semantic_core candidate) (parse_semantic_core running)

newer_parts_irrefl : (m : Option Core) → newer_parts m m ≡ false
unfolding newer_parts
newer_parts_irrefl none = refl
newer_parts_irrefl (some p) = core_newer_irrefl p

newer_parts_trans :
    (l m n : Option Core) → newer_parts l m ≡ true → newer_parts m n ≡ true → newer_parts l n ≡ true
unfolding newer_parts
newer_parts_trans none m n h k = cc
newer_parts_trans (some p) none n h k = cc
newer_parts_trans (some p) (some q) none h k = cc
newer_parts_trans (some p) (some q) (some r) h k = core_newer_trans p q r h k

newer_parts_asymm : (m n : Option Core) → newer_parts m n ≡ true → newer_parts n m ≡ false
newer_parts_asymm m n h = elim (Bool-cases (newer_parts n m)) [
  | inl e ↦ cc (newer_parts_trans m n m h e, newer_parts_irrefl m)
  | inr e ↦ e
]

-- A version that is newer than one that is newer than a third is newer than the third, the third
-- is then not newer than it, and it is not newer than itself.
pub strictly_newer_order :
    (a b c : List ℕ)
    → strictly_newer a b ≡ true
    → strictly_newer b c ≡ true
    → (strictly_newer a c ≡ true) × (strictly_newer c a ≡ false) × (strictly_newer a a ≡ false)
unfolding strictly_newer
strictly_newer_order a b c h k =
    let p = parse_semantic_core a in
    let r = parse_semantic_core c in
    let e = newer_parts_trans p (parse_semantic_core b) r h k in
    (e, newer_parts_asymm p r e, newer_parts_irrefl p)
