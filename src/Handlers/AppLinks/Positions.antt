-- ===== src/Handlers/AppLinks/Positions.antt =====
-- handlers/app_links.rs: the positions of the bookmarks and their order.
use rsmc_engine.Base.{
  ℕ, suc, ◌≤◌, ◌<◌, ◌≡◌, refl, ap, ◌∙◌, Bool, false, Option, none, some, List, [], ◌∷◌, ◌++◌, any,
  length, delete_where, order_by, place, place_first, arith, Bool-cases, inl, inr,
}
use rsmc_engine.Models.{AppLink}
use rsmc_engine.Handlers.AppLinks.{link_before, larger, max_position}

-- Each position is larger than the one before it, and none is below a bound.
abbrev pub Increasing : (lowest : ℕ) → List AppLink → Type 0
Increasing lowest [] = Unit
Increasing lowest (x ∷ xs) = (lowest ≤ x.position) × Increasing (suc x.position) xs

lower-Increasing : (a b : ℕ) (xs : List AppLink) → a ≤ b → Increasing b xs → Increasing a xs
lower-Increasing a b [] h s = tt
lower-Increasing a b (x ∷ xs) h s = (omega (arith, h, s.0), s.1)

-- Above every position.
abbrev pub IsFree : ℕ → Option ℕ → Type 0
IsFree p none = Unit
IsFree p (some q) = q < p

IsFree-larger : (p q : ℕ) (o : Option ℕ) → IsFree p (larger q o) → (q < p) × IsFree p o
IsFree-larger p q none h = (h, tt)
IsFree-larger p q (some r) h = (ground (arith, h), ground (arith, h))

IsFree-rest :
    (p : ℕ) (x : AppLink) (xs : List AppLink)
    → IsFree p (max_position (x ∷ xs))
    → (x.position < p) × IsFree p (max_position xs)
unfolding max_position
IsFree-rest p x xs h = IsFree-larger p x.position (max_position xs) h

pub append-Increasing :
    (lowest : ℕ) (xs : List AppLink) (x : AppLink)
    → lowest ≤ x.position
    → IsFree x.position (max_position xs)
    → Increasing lowest xs
    → Increasing lowest (xs ++ x ∷ [])
append-Increasing lowest [] x h free s = (h, tt)
append-Increasing lowest (y ∷ ys) x h free s =
    let (above, rest) = IsFree-rest x.position y ys free in
    (s.0, append-Increasing (suc y.position) ys x (omega (arith, above)) rest s.1)

pub delete-Increasing :
    (p : AppLink → Bool) (lowest : ℕ) (xs : List AppLink)
    → Increasing lowest xs
    → Increasing lowest (delete_where p xs)
delete-Increasing p lowest [] s = tt
delete-Increasing p lowest (x ∷ xs) s = elim (Bool-cases (p x)) [
  | inl gone ↦ rw gone (
      lower-Increasing lowest (suc x.position) _ (omega (arith, s.0))
        (delete-Increasing p (suc x.position) xs s.1))
  | inr kept ↦ rw kept (s.0, delete-Increasing p (suc x.position) xs s.1)
]

pub length-delete_where-le :
    (p : AppLink → Bool) (xs : List AppLink) → length (delete_where p xs) ≤ length xs
length-delete_where-le p [] = omega arith
length-delete_where-le p (x ∷ xs) = ground (arith, length-delete_where-le p xs)

pub Increasing-order :
    (lowest : ℕ) (xs : List AppLink) → Increasing lowest xs → order_by link_before xs ≡ xs
Increasing-order lowest [] s = refl
Increasing-order lowest (x ∷ xs) s =
    ap (place link_before x) (Increasing-order (suc x.position) xs s.1)
    ∙ place_first link_before x xs (later x (suc x.position) xs (omega arith) s.1)
  where
    later :
        (x : AppLink) (lowest : ℕ) (ys : List AppLink)
        → x.position < lowest
        → Increasing lowest ys
        → any (λ y. link_before y x) ys ≡ false
    later x lowest [] h s = refl
    later x lowest (y ∷ ys) h s =
        ground (arith, h, s.0, later x (suc y.position) ys (omega (arith, h, s.0)) s.1)
