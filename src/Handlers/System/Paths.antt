-- ===== src/Handlers/System/Paths.antt =====
-- handlers/system.rs and std::path: paths as texts, their components, and what lies below what.
use rsmc_engine.Base.{
  ℕ, ◌≡◌, refl, append_assoc, Bool, true, false, ◌&&◌, List, [], ◌∷◌, ◌++◌, ◌==◌, ap, subst,
  any-select, text_eq, text_eq_iff, text, any, select, text_eq_refl, Text, arith, Bool-cases, inl,
  inr, if◌then◌else◌,
}
use rsmc_engine.Handlers.System.{
  split_slashes, components, is_component, is_prefix, longer, ends_in_slash, has_slash, has_dots,
  is_absolute, starts_with, join,
}

longer-append :
    (c : ℕ) (ps qs : List Text)
    → any (λ p. true) ps ≡ true
    → longer c (ps ++ qs) ≡ longer c ps ++ qs
longer-append c [] qs h = cc
longer-append c (p ∷ ps) qs h = refl

longer-some : (c : ℕ) (ps : List Text) → any (λ p. true) (longer c ps) ≡ true
longer-some c [] = refl
longer-some c (p ∷ ps) = refl

split_slashes-some : (s : Text) → any (λ p. true) (split_slashes s) ≡ true
unfolding split_slashes
split_slashes-some [] = refl
split_slashes-some (c ∷ s) = elim (Bool-cases (c == b'/')) [
  | inl slash ↦ rw slash refl
  | inr other ↦ rw other (longer-some c (split_slashes s))
]

select-append :
    (p : Text → Bool) (xs ys : List Text) → select p (xs ++ ys) ≡ select p xs ++ select p ys
select-append p [] ys = refl
select-append p (x ∷ xs) ys = ground (arith, select-append p xs ys)

not_absolute : (s : Text) → has_slash s ≡ false → is_absolute s ≡ false
not_absolute [] h = refl
not_absolute (c ∷ s) h = ground (arith, h)

pub join-bare :
    (dir raw : Text)
    → ends_in_slash dir ≡ false
    → has_slash raw ≡ false
    → join dir raw ≡ dir ++ b'/' ∷ raw
unfolding join
join-bare dir raw h k = rw (not_absolute raw k, h) (append_assoc dir (b'/' ∷ []) raw)

split_slashes-append :
    (a b : Text) → split_slashes (a ++ b'/' ∷ b) ≡ split_slashes a ++ split_slashes b
unfolding split_slashes
split_slashes-append [] b = refl
split_slashes-append (c ∷ a) b = elim (Bool-cases (c == b'/')) [
  | inl slash ↦ rw slash (ap (λ ps. [] ∷ ps) (split_slashes-append a b))
  | inr other ↦
      rw (other, split_slashes-append a b)
        (longer-append c (split_slashes a) (split_slashes b) (split_slashes-some a))
]

is_prefix-append : (xs ys : List Text) → is_prefix xs (xs ++ ys) ≡ true
unfolding is_prefix
is_prefix-append [] ys = refl
is_prefix-append (x ∷ xs) ys = ground (arith, text_eq_refl x, is_prefix-append xs ys)

pub absolute-append : (a b : Text) → is_absolute a ≡ true → is_absolute (a ++ b) ≡ true
absolute-append [] b h = cc
absolute-append (c ∷ a) b h = h

-- What is put below an absolute directory starts with it.
pub below-starts_with :
    (dir raw : Text) → is_absolute dir ≡ true → starts_with (dir ++ b'/' ∷ raw) dir ≡ true
unfolding starts_with components is_prefix
below-starts_with dir raw h =
    rw
      (
        h,
        absolute-append dir (b'/' ∷ raw) h,
        split_slashes-append dir raw,
        select-append is_component (split_slashes dir) (split_slashes raw),
      )
      (is_prefix-append (select is_component (split_slashes dir))
        (select is_component (split_slashes raw)))

-- The name of the directory above.
abbrev pub is_parent : Text → Bool
is_parent p = text_eq p (text "..")

longer_twice :
    (c d : ℕ) (ps : List Text)
    → (c == b'.' && d == b'.') ≡ false
    → any is_parent (longer d ps) ≡ false
    → any is_parent (longer c (longer d ps)) ≡ false
longer_twice c d [] h k = ground (arith, h)
longer_twice c d (p ∷ ps) h k = ground (arith, h, k)

split_slashes-plain : (s : Text) → has_dots s ≡ false → any is_parent (split_slashes s) ≡ false
unfolding split_slashes has_dots
split_slashes-plain [] h = refl
split_slashes-plain (c ∷ []) h = elim (Bool-cases (c == b'/')) [
  | inl slash ↦ rw slash refl
  | inr other ↦ rw other (ground arith)
]
split_slashes-plain (c ∷ d ∷ s) h = elim (Bool-cases (c == b'/')) [
  | inl slash ↦ rw slash (split_slashes-plain (d ∷ s) (ground (arith, h)))
  | inr other ↦ rw other (elim (Bool-cases (d == b'/')) [
    | inl slash ↦
        let rest : any is_parent (split_slashes s) ≡ false =
          subst
            (λ b.
              any is_parent (if b then [] ∷ split_slashes s else longer d (split_slashes s))
              ≡ false)
            slash (split_slashes-plain (d ∷ s) (ground (arith, h))) in
        rw slash (ground (arith, rest))
    | inr name ↦
        let rest : any is_parent (longer d (split_slashes s)) ≡ false =
          subst
            (λ b.
              any is_parent (if b then [] ∷ split_slashes s else longer d (split_slashes s))
              ≡ false)
            name (split_slashes-plain (d ∷ s) (ground (arith, h))) in
        rw name (longer_twice c d (split_slashes s) (ground (arith, h)) rest)
  ])
]

pub has_dots-append :
    (dir raw : Text)
    → has_dots dir ≡ false
    → has_dots raw ≡ false
    → has_dots (dir ++ b'/' ∷ raw) ≡ false
unfolding has_dots
has_dots-append [] [] h k = refl
has_dots-append [] (r ∷ raw) h k = k
has_dots-append (c ∷ []) [] h k = ground arith
has_dots-append (c ∷ []) (r ∷ raw) h k = ground (arith, k)
has_dots-append (c ∷ d ∷ dir) raw h k =
    ground (arith, h, has_dots-append (d ∷ dir) raw (ground (arith, h)) k)

prefix_rest : (xs ys : List Text) → is_prefix xs ys ≡ true → (rest : List Text) × (ys ≡ xs ++ rest)
unfolding is_prefix
prefix_rest [] ys h = (ys, refl)
prefix_rest (x ∷ xs) [] h = cc
prefix_rest (x ∷ xs) (y ∷ ys) h =
    let (rest, e) = prefix_rest xs ys (ground (arith, h)) in
    let same : x ≡ y = (text_eq_iff x y).0 (ground (arith, h)) in (rest, cc)

-- The path lies in a directory, or is that directory: it goes on where the directory ends, and never
-- goes up.
abbrev pub IsWithin : (dir path : Text) → Type 0
IsWithin dir path =
    (rest : List Text) × (components path ≡ components dir ++ rest)
    × (any is_parent (components path) ≡ false)

pub within :
    (dir path : Text)
    → is_absolute path ≡ true
    → has_dots path ≡ false
    → starts_with path dir ≡ true
    → IsWithin dir path
unfolding starts_with components
within dir path rooted plain inside =
    let (rest, e) = prefix_rest (components dir) (components path) inside in
    (
      rest,
      e,
      rw rooted
          (any-select is_parent is_component (split_slashes path) (split_slashes-plain path plain)),
    )
