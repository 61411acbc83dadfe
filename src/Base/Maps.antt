-- ===== src/Base/Maps.antt =====
-- The hash maps and sets of the source: an association list, where an insert overwrites, and a
-- list without repetitions. The map laws are stated for every key, as conditionals.
use Prim.Native.Nat.{ℕ, suc}
use mathlib.Core.Path.{◌≡◌, refl}
use mathlib.Core.Logic.{◌≢◌}
use mathlib.Core.Bool.{Bool, true, false, not, ◌&&◌, ◌||◌}
use mathlib.Core.Option.{Option, none, some}
use mathlib.Core.List.{List, [], ◌∷◌}
use native.Mathlib.Omega.{arith}
use rsmc_engine.Base.Tests.{if◌then◌else◌, ◌==◌, is_some}
use rsmc_engine.Base.Rows.{length}

abbrev pub HashMap {ℓ} : Type ℓ → Type ℓ
HashMap V = List (ℕ × V)

module _ {ℓ} {V : Type ℓ} where
  unfoldable pub lookup : ℕ → HashMap V → Option V
  lookup id [] = none
  lookup id ((i, a) ∷ rest) = if i == id then some a else lookup id rest

  unfoldable pub remove : ℕ → HashMap V → HashMap V
  remove id [] = []
  remove id ((i, a) ∷ rest) = if i == id then remove id rest else (i, a) ∷ remove id rest

  pub lookup-remove :
      (id other : ℕ) (entries : HashMap V)
      → lookup other (remove id entries) ≡ (if id == other then none else lookup other entries)
  unfolding lookup remove
  lookup-remove id other [] = ground arith
  lookup-remove id other ((i, a) ∷ rest) = ground (arith, lookup-remove id other rest)

  unfoldable pub insert : ℕ → V → HashMap V → HashMap V
  insert id new [] = (id, new) ∷ []
  insert id new ((i, a) ∷ rest) = if i == id then (id, new) ∷ rest else (i, a) ∷ insert id new rest

  pub lookup-insert :
      (id other : ℕ) (new : V) (entries : HashMap V)
      → lookup other (insert id new entries)
        ≡ (if id == other then some new else lookup other entries)
  unfolding lookup insert
  lookup-insert id other new [] = refl
  lookup-insert id other new ((i, a) ∷ rest) = ground (arith, lookup-insert id other new rest)

module _ {ℓ} {V : Type ℓ} where
  -- No key has two entries.
  abbrev pub IsUnique : HashMap V → Type ℓ
  IsUnique [] = Unit
  IsUnique ((k, v) ∷ m) = (lookup k m ≡ none) × IsUnique m

  pub insert-IsUnique : (k : ℕ) (v : V) (m : HashMap V) → IsUnique m → IsUnique (insert k v m)
  unfolding insert lookup
  insert-IsUnique k v [] h = (refl, tt)
  insert-IsUnique k v ((j, w) ∷ m) h =
      ground (arith, insert-IsUnique k v m h.1, lookup-insert k j v m)

  pub remove-IsUnique : (k : ℕ) (m : HashMap V) → IsUnique m → IsUnique (remove k m)
  unfolding remove
  remove-IsUnique k [] h = tt
  remove-IsUnique k ((j, w) ∷ m) h = ground (arith, remove-IsUnique k m h.1, lookup-remove k j m)

  pub length-insert :
      (k : ℕ) (v : V) (m : HashMap V)
      → length (insert k v m) ≡ (if is_some (lookup k m) then length m else suc (length m))
  unfolding insert lookup
  length-insert k v [] = refl
  length-insert k v ((j, w) ∷ m) = ground (arith, length-insert k v m)

  remove_absent : (k : ℕ) (m : HashMap V) → lookup k m ≡ none → remove k m ≡ m
  unfolding remove lookup
  remove_absent k [] h = refl
  remove_absent k ((j, w) ∷ m) h = ground (arith, remove_absent k m)

  pub length-remove :
      (k : ℕ) (m : HashMap V)
      → IsUnique m
      → length m ≡ (if is_some (lookup k m) then suc (length (remove k m)) else length (remove k m))
  unfolding remove lookup
  length-remove k [] h = refl
  length-remove k ((j, w) ∷ m) h = ground (arith, length-remove k m h.1, remove_absent k m)

abbrev pub HashSet : Type 0
HashSet = List ℕ

unfoldable pub contains : ℕ → HashSet → Bool
contains a [] = false
contains a (x ∷ s) = x == a || contains a s

unfoldable pub set_insert : ℕ → HashSet → HashSet
set_insert a [] = a ∷ []
set_insert a (x ∷ s) = if x == a then x ∷ s else x ∷ set_insert a s

unfoldable pub set_remove : ℕ → HashSet → HashSet
set_remove a [] = []
set_remove a (x ∷ s) = if x == a then set_remove a s else x ∷ set_remove a s

pub contains-set_insert :
    (a b : ℕ) (s : HashSet) → contains b (set_insert a s) ≡ (a == b || contains b s)
unfolding contains set_insert
contains-set_insert a b [] = ground arith
contains-set_insert a b (x ∷ s) = ground (arith, contains-set_insert a b s)

pub contains-set_remove :
    (a b : ℕ) (s : HashSet) → contains b (set_remove a s) ≡ (not (a == b) && contains b s)
unfolding contains set_remove
contains-set_remove a b [] = ground arith
contains-set_remove a b (x ∷ s) = ground (arith, contains-set_remove a b s)

pub contains-empty : (a : ℕ) → contains a [] ≡ false
unfolding contains
contains-empty a = refl

abbrev pub is_empty : HashSet → Bool
is_empty [] = true
is_empty (x ∷ s) = false

-- A set in which nothing is contained is empty.
pub is_empty_of_contains : (s : HashSet) → ((a : ℕ) → contains a s ≡ false) → is_empty s ≡ true
unfolding contains
is_empty_of_contains [] h = refl
is_empty_of_contains (x ∷ s) h = ground (arith, h x)

pub set_insert-ne_nil : (a : ℕ) (s : HashSet) → set_insert a s ≢ []
unfolding set_insert
set_insert-ne_nil a [] e = cc
set_insert-ne_nil a (x ∷ s) e = ground arith

pub contains_of_is_empty : (s : HashSet) (a : ℕ) → is_empty s ≡ true → contains a s ≡ false
unfolding contains
contains_of_is_empty [] a h = refl
contains_of_is_empty (x ∷ s) a h = cc

pub nil_of_is_empty : (s : HashSet) → is_empty s ≡ true → s ≡ []
nil_of_is_empty [] h = refl
nil_of_is_empty (x ∷ s) h = cc
