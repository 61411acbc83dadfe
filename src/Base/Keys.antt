-- ===== src/Base/Keys.antt =====
-- Rows of a table under a unique index: at most one row to a key.
use Prim.Native.Nat.{◌≤◌}
use mathlib.Core.Path.{◌≡◌, refl}
use mathlib.Core.Logic.{inl, inr}
use mathlib.Core.Bool.{Bool, true, false}
use mathlib.Core.List.{List, [], ◌∷◌, ◌++◌}
use native.Mathlib.Omega.{arith}
use rsmc_engine.Base.Tests.{Bool-cases}
use rsmc_engine.Base.Rows.{any, count_where, count_where-append, delete_where, update_where}

module _ {ℓ} {A : Type ℓ} (p : A → Bool) where
  pub count_where_of_not_any : (xs : List A) → any p xs ≡ false → count_where p xs ≡ 0
  count_where_of_not_any [] h = refl
  count_where_of_not_any (x ∷ xs) h = ground (arith, count_where_of_not_any xs)

  pub count_where-delete_where-le :
      (q : A → Bool) (xs : List A) → count_where p (delete_where q xs) ≤ count_where p xs
  count_where-delete_where-le q [] = omega arith
  count_where-delete_where-le q (x ∷ xs) = ground (arith, count_where-delete_where-le q xs)

  pub count_where-update_where :
      (q : A → Bool) (f : A → A)
      → ((x : A) → p (f x) ≡ p x)
      → (xs : List A) → count_where p (update_where q f xs) ≡ count_where p xs
  count_where-update_where q f h [] = refl
  count_where-update_where q f h (x ∷ xs) = ground (arith, count_where-update_where q f h xs, h x)

module _ {ℓ} {K A : Type ℓ} (key : K → A → Bool) where
  abbrev pub AtMostOnce : List A → Type ℓ
  AtMostOnce xs = (k : K) → count_where (key k) xs ≤ 1

  pub append-AtMostOnce :
      (xs : List A) (x : A) (own : K)
      → ((k : K) → key k x ≡ true → k ≡ own)
      → any (key own) xs ≡ false
      → AtMostOnce xs
      → AtMostOnce (xs ++ x ∷ [])
  append-AtMostOnce xs x own only fresh h k = elim (Bool-cases (key k x)) [
    | inl e ↦ rw (only k e) (
        ground (
          arith,
          count_where-append (key own) xs (x ∷ []),
          count_where_of_not_any (key own) xs fresh,
        ))
    | inr e ↦ ground (arith, count_where-append (key k) xs (x ∷ []), h k)
  ]

  pub delete-AtMostOnce :
      (q : A → Bool) (xs : List A) → AtMostOnce xs → AtMostOnce (delete_where q xs)
  delete-AtMostOnce q xs h k = omega (arith, h k, count_where-delete_where-le (key k) q xs)

  pub update-AtMostOnce :
      (q : A → Bool) (f : A → A) (xs : List A)
      → ((k : K) (x : A) → key k (f x) ≡ key k x)
      → AtMostOnce xs
      → AtMostOnce (update_where q f xs)
  update-AtMostOnce q f xs same h k = rw (count_where-update_where (key k) q f (same k) xs) (h k)
