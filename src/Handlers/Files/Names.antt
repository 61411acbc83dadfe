-- ===== src/Handlers/Files/Names.antt =====
-- handlers/files.rs, `sanitize_filename`: what an uploaded file may be called.
use rsmc_engine.Base.{
  ℕ, suc, zero, ◌≤◌, ◌≡◌, refl, ap, Bool, false, not, ◌||◌, ◌==◌, [], ◌∷◌, Text, take, length,
  length-take-le, select, any, leb, arith, Bool-cases, inl, inr,
}
use rsmc_engine.Handlers.Files.{base_name, sanitize_filename}

-- A separator of paths, or a character below the space; DEL and the controls above it are not among them.
abbrev pub is_dangerous : ℕ → Bool
is_dangerous c = c == b'/' || c == b'\\' || leb c 0x1f

abbrev is_separator : ℕ → Bool
is_separator c = c == b'/' || c == b'\\'

base_name-plain : (s : Text) → any is_separator (base_name s) ≡ false
unfolding base_name
base_name-plain [] = refl
base_name-plain (c ∷ s) = ground (arith, base_name-plain s)

base_name_id : (s : Text) → any is_separator s ≡ false → base_name s ≡ s
unfolding base_name
base_name_id [] h = refl
base_name_id (c ∷ s) h = ground (arith, h)

abbrev is_visible : ℕ → Bool
is_visible c = not (leb c 0x1f)

visible-safe :
    (s : Text) → any is_separator s ≡ false → any is_dangerous (select is_visible s) ≡ false
visible-safe [] h = refl
visible-safe (c ∷ s) h = elim (Bool-cases (leb c 0x1f)) [
  | inl control ↦ rw control (visible-safe s (ground (arith, h)))
  | inr plain ↦ rw plain (ground (arith, h, plain, visible-safe s))
]

take-safe : (n : ℕ) (s : Text) → any is_dangerous s ≡ false → any is_dangerous (take n s) ≡ false
take-safe zero s h = refl
take-safe (suc n) [] h = refl
take-safe (suc n) (c ∷ s) h = ground (arith, h, take-safe n s)

take_all : (n : ℕ) (s : Text) → length s ≤ n → take n s ≡ s
take_all zero [] h = refl
take_all zero (c ∷ s) h = absurd (omega (arith, h))
take_all (suc n) [] h = refl
take_all (suc n) (c ∷ s) h = ap (λ t. c ∷ t) (take_all n s (omega (arith, h)))

safe_parts :
    (s : Text)
    → any is_dangerous s ≡ false
    → (any is_separator s ≡ false) × (select is_visible s ≡ s)
safe_parts [] h = (refl, refl)
safe_parts (c ∷ s) h =
    let (apart, visible) = safe_parts s (ground (arith, h)) in
    (ground (arith, h, apart), ground (arith, h, visible))

-- A sanitized name has no slash, no backslash and no character below the space (0x20), is at most
-- 255 characters long, and is not changed by sanitizing it again.
pub sanitize_filename-safe :
    (name : Text)
    → (any is_dangerous (sanitize_filename name) ≡ false)
      × (length (sanitize_filename name) ≤ 255)
      × (sanitize_filename (sanitize_filename name) ≡ sanitize_filename name)
unfolding sanitize_filename
sanitize_filename-safe name = (safe, short, again)
  where
    safe : any is_dangerous (take 255 (select is_visible (base_name name))) ≡ false
    safe =
        take-safe 255 (select is_visible (base_name name))
          (visible-safe (base_name name) (base_name-plain name))

    short : length (take 255 (select is_visible (base_name name))) ≤ 255
    short = length-take-le 255 (select is_visible (base_name name))

    again :
        take 255 (select is_visible (base_name (take 255 (select is_visible (base_name name)))))
        ≡ take 255 (select is_visible (base_name name))
    again =
        let t = take 255 (select is_visible (base_name name)) in
        let (apart, visible) = safe_parts t safe in
        rw (base_name_id t apart, visible) (take_all 255 t short)
