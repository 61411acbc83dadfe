-- ===== src/Config/Origins.antt =====
-- config/mod.rs: the allowed origins, and what a loaded configuration satisfies.
use rsmc_engine.Base.{
  ℕ, ◌≤◌, ◌≡◌, refl, ◌∙◌, ap, subst, Bool, true, false, ◌==◌, Option, none, some, List, [], ◌∷◌,
  map, Text, All, any, select, arith, Bool-cases, inl, inr, is_whitespace, trim, trim_start,
  trim_end, trimmed, byte_len, ltb,
}
use rsmc_engine.Config.{
  prepend, validated, Settings, Override, Loaded, loaded, refused, split_commas, is_nonempty,
  origins, validate, load, overrides,
}

-- Blank, or a first character that is not white space.
abbrev StartsPlain : Text → Type 0
StartsPlain [] = Unit
StartsPlain (c ∷ s) = is_whitespace c ≡ false

trim_start-StartsPlain : (s : Text) → StartsPlain (trim_start s)
unfolding trim_start
trim_start-StartsPlain [] = tt
trim_start-StartsPlain (c ∷ s) = elim (Bool-cases (is_whitespace c)) [
  | inl blank ↦ rw blank (trim_start-StartsPlain s)
  | inr plain ↦ rw plain plain
]

trim_start_id : (s : Text) → StartsPlain s → trim_start s ≡ s
unfolding trim_start
trim_start_id [] h = refl
trim_start_id (c ∷ s) h = rw h refl

trimmed-StartsPlain : (c : ℕ) (s : Text) → is_whitespace c ≡ false → StartsPlain (trimmed c s)
trimmed-StartsPlain c [] h = rw h h
trimmed-StartsPlain c (d ∷ s) h = h

trim_end-StartsPlain : (s : Text) → StartsPlain s → StartsPlain (trim_end s)
unfolding trim_end
trim_end-StartsPlain [] h = tt
trim_end-StartsPlain (c ∷ s) h = trimmed-StartsPlain c (trim_end s) h

trim_end_again : (c : ℕ) (s : Text) → trim_end s ≡ s → trim_end (trimmed c s) ≡ trimmed c s
unfolding trim_end
trim_end_again c [] h = elim (Bool-cases (is_whitespace c)) [
  | inl blank ↦ rw blank refl
  | inr plain ↦ rw (plain, plain) refl
]
trim_end_again c (d ∷ s) h = ap (trimmed c) h

trim_end_idem : (s : Text) → trim_end (trim_end s) ≡ trim_end s
unfolding trim_end
trim_end_idem [] = refl
trim_end_idem (c ∷ s) = trim_end_again c (trim_end s) (trim_end_idem s)

trim_idem : (s : Text) → trim (trim s) ≡ trim s
unfolding trim
trim_idem s =
    ap trim_end (
      trim_start_id (trim_end (trim_start s))
        (trim_end-StartsPlain (trim_start s) (trim_start-StartsPlain s)))
    ∙ trim_end_idem (trim_start s)

abbrev pub is_comma : ℕ → Bool
is_comma c = c == b','

trim_start-comma : (s : Text) → any is_comma s ≡ false → any is_comma (trim_start s) ≡ false
unfolding trim_start
trim_start-comma [] h = refl
trim_start-comma (c ∷ s) h = ground (arith, h, trim_start-comma s)

trimmed-comma :
    (c : ℕ) (s : Text)
    → is_comma c ≡ false
    → any is_comma s ≡ false
    → any is_comma (trimmed c s) ≡ false
trimmed-comma c [] h k = ground (arith, h)
trimmed-comma c (d ∷ s) h k = ground (arith, h, k)

trim_end-comma : (s : Text) → any is_comma s ≡ false → any is_comma (trim_end s) ≡ false
unfolding trim_end
trim_end-comma [] h = refl
trim_end-comma (c ∷ s) h =
    trimmed-comma c (trim_end s) (ground (arith, h)) (trim_end-comma s (ground (arith, h)))

trim-comma : (s : Text) → any is_comma s ≡ false → any is_comma (trim s) ≡ false
unfolding trim
trim-comma s h = trim_end-comma (trim_start s) (trim_start-comma s h)

abbrev HasNoComma : Text → Type 0
HasNoComma p = any is_comma p ≡ false

prepend-comma :
    (c : ℕ) (ps : List Text)
    → is_comma c ≡ false
    → All HasNoComma ps
    → All HasNoComma (prepend c ps)
prepend-comma c [] h k = (ground (arith, h), tt)
prepend-comma c (p ∷ ps) h k = (ground (arith, h, k.0), k.1)

split_commas-apart : (s : Text) → All HasNoComma (split_commas s)
unfolding split_commas
split_commas-apart [] = (refl, tt)
split_commas-apart (c ∷ s) = elim (Bool-cases (is_comma c)) [
  | inl comma ↦ rw comma (refl, split_commas-apart s)
  | inr other ↦ rw other (prepend-comma c (split_commas s) other (split_commas-apart s))
]

-- Not blank, without a comma, and without white space at its ends.
abbrev pub IsOrigin : Text → Type 0
IsOrigin o = (is_nonempty o ≡ true) × (any is_comma o ≡ false) × (trim o ≡ o)

kept-IsOrigin :
    (ps : List Text) → All HasNoComma ps → All IsOrigin (select is_nonempty (map trim ps))
kept-IsOrigin [] h = tt
kept-IsOrigin (p ∷ ps) h = elim (Bool-cases (is_nonempty (trim p))) [
  | inl there ↦ rw there ((there, trim-comma p h.0, trim_idem p), kept-IsOrigin ps h.1)
  | inr blank ↦ rw blank (kept-IsOrigin ps h.1)
]

-- Every origin that is read from a comma-separated list is not blank, holds no comma and has no
-- white space at its ends, whatever the list is.
pub origins-IsOrigin : (raw : Text) → All IsOrigin (origins raw)
unfolding origins
origins-IsOrigin raw = kept-IsOrigin (split_commas raw) (split_commas-apart raw)

abbrev pub IsSafe : Settings → Type 0
IsSafe s = (16 ≤ byte_len s.auth.jwt_secret) × (is_nonempty s.database.url ≡ true)

abbrev Checks : Option Settings → Loaded Settings → Type 0
Checks o (loaded s) = (o ≡ some s) × IsSafe s
Checks o (refused x) = Unit

validated-Checks : (o : Option Settings) → Checks o (validated o)
unfolding validate
validated-Checks none = tt
validated-Checks (some s) = elim (Bool-cases (ltb (byte_len s.auth.jwt_secret) 16)) [
  | inl short ↦ rw short tt
  | inr long ↦ rw long (elim (Bool-cases (is_nonempty s.database.url)) [
    | inl there ↦ rw there (refl, (ground (arith, long), there))
    | inr blank ↦ rw blank tt
  ])
]

-- The settings that the program starts with are those that were built from the file, the
-- environment and the overrides, and have a signing secret of 16 bytes or more and a database.
pub load-IsSafe :
    (vars : Text → Option Text) (build : List Override → Option Settings) (s : Settings)
    → load vars build ≡ loaded s
    → (build (overrides vars) ≡ some s) × IsSafe s
unfolding load
load-IsSafe vars build s h =
    subst (Checks (build (overrides vars))) h (validated-Checks (build (overrides vars)))
