-- ===== src/Base/Sort.antt =====
-- ORDER BY, as a stable insertion sort by a strict order, with what the proofs about sorted lists use.
use Prim.Native.Nat.{◌+◌}
use mathlib.Core.Path.{◌≡◌, refl}
use mathlib.Core.Logic.{inl, inr}
use mathlib.Core.Bool.{Bool, true, false, ◌||◌}
use mathlib.Core.List.{List, [], ◌∷◌}
use native.Mathlib.Omega.{arith}
use rsmc_engine.Base.Tests.{if◌then◌else◌, Bool-cases}
use rsmc_engine.Base.Rows.{length, any, any_mono}

module _ {ℓ} {A : Type ℓ} where
  -- `before y x` puts `y` ahead of `x`.
  abbrev pub place : (A → A → Bool) → A → List A → List A
  place before x [] = x ∷ []
  place before x (y ∷ ys) = if before y x then y ∷ place before x ys else x ∷ y ∷ ys

  abbrev pub order_by : (A → A → Bool) → List A → List A
  order_by before [] = []
  order_by before (x ∷ xs) = place before x (order_by before xs)

  -- Nothing that follows belongs before.
  abbrev pub Sorted : (A → A → Bool) → List A → Type 0
  Sorted before [] = Unit
  Sorted before (x ∷ xs) = (any (λ y. before y x) xs ≡ false) × Sorted before xs

  pub length-order_by :
      (before : A → A → Bool) (xs : List A) → length (order_by before xs) ≡ length xs
  length-order_by before [] = refl
  length-order_by before (x ∷ xs) =
      omega (arith, length-place x (order_by before xs), length-order_by before xs)
    where
      length-place : (x : A) (ys : List A) → length (place before x ys) ≡ length ys + 1
      length-place x [] = omega arith
      length-place x (y ∷ ys) = ground (arith, length-place x ys)

  pub any-place :
      (before : A → A → Bool) (p : A → Bool) (x : A) (xs : List A)
      → any p (place before x xs) ≡ (p x || any p xs)
  any-place before p x [] = refl
  any-place before p x (y ∷ ys) = ground (arith, any-place before p x ys)

  pub any-order_by :
      (before : A → A → Bool) (p : A → Bool) (xs : List A) → any p (order_by before xs) ≡ any p xs
  any-order_by before p [] = refl
  any-order_by before p (x ∷ xs) =
      ground (arith, any-place before p x (order_by before xs), any-order_by before p xs)

  -- What goes before all others is placed first.
  pub place_first :
      (before : A → A → Bool) (x : A) (xs : List A)
      → any (λ y. before y x) xs ≡ false
      → place before x xs ≡ x ∷ xs
  place_first before x [] h = refl
  place_first before x (y ∷ ys) h = ground (arith, h)

  module _ (before : A → A → Bool) (asym : (x y : A) → before y x ≡ true → before x y ≡ false)
      (negtrans : (x y z : A) → before z y ≡ false → before y x ≡ false → before z x ≡ false) where
    place-Sorted : (x : A) (xs : List A) → Sorted before xs → Sorted before (place before x xs)
    place-Sorted x [] s = (refl, tt)
    place-Sorted x (y ∷ ys) s = elim (Bool-cases (before y x)) [
      | inl e ↦ rw e (
        ground (arith, any-place before (λ z. before z y) x ys, s.0, asym x y),
        place-Sorted x ys s.1,
      )
      | inr e ↦ rw e (
        ground (
          arith,
          any_mono (λ z. before z y) (λ z. before z x) (λ z g. negtrans x y z g e) ys s.0,
        ),
        s,
      )
    ]

    pub order_by-Sorted : (xs : List A) → Sorted before (order_by before xs)
    order_by-Sorted [] = tt
    order_by-Sorted (x ∷ xs) = place-Sorted x (order_by before xs) (order_by-Sorted xs)
