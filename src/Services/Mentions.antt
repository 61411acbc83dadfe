-- ===== src/Services/Mentions.antt =====
-- services/notifications.rs, `extract_mentions`: what it finds in a text.
use rsmc_engine.Base.{
  ◌≡◌, refl, ◌∙◌, Bool, true, false, not, ◌||◌, none, some, List, [], ◌∷◌, arith, inl, inr, Text,
  text_eq, text_lt, any, any_mono, any-order_by, Sorted, order_by-Sorted, Bool-cases, Option-cases,
  text_eq_iff, text_eq_refl,
}
use rsmc_engine.App.{Env}
use rsmc_engine.Services.Notifications.{tokens, mention_of, collect, ahead, dedup, extract_mentions}

-- A list of texts, each before all that follow it.
abbrev pub Increasing : List Text → Type 0
Increasing [] = Unit
Increasing (s ∷ ts) = (any (λ t. not (text_lt s t)) ts ≡ false) × Increasing ts

text_lt-asym : (s t : Text) → text_lt t s ≡ true → text_lt s t ≡ false
text_lt-asym [] t h = absurd cc
text_lt-asym (x ∷ s) [] h = refl
text_lt-asym (x ∷ s) (y ∷ t) h = ground (arith, text_lt-asym s t)

text_lt-negtrans : (s t u : Text) → text_lt u t ≡ false → text_lt t s ≡ false → text_lt u s ≡ false
text_lt-negtrans [] t u g h = refl
text_lt-negtrans (x ∷ s) [] u g h = absurd cc
text_lt-negtrans (x ∷ s) (y ∷ t) [] g h = absurd cc
text_lt-negtrans (x ∷ s) (y ∷ t) (z ∷ u) g h = ground (arith, text_lt-negtrans s t u)

text_lt-total : (s t : Text) → text_eq s t ≡ false → text_lt t s ≡ false → text_lt s t ≡ true
text_lt-total [] [] g h = cc
text_lt-total [] (y ∷ t) g h = refl
text_lt-total (x ∷ s) [] g h = absurd cc
text_lt-total (x ∷ s) (y ∷ t) g h = ground (arith, text_lt-total s t)

text_lt_trans : (s t u : Text) → text_lt s t ≡ true → text_lt t u ≡ true → text_lt s u ≡ true
text_lt_trans s t [] g h = absurd cc
text_lt_trans s [] (z ∷ u) g h = absurd cc
text_lt_trans [] (y ∷ t) (z ∷ u) g h = refl
text_lt_trans (x ∷ s) (y ∷ t) (z ∷ u) g h = ground (arith, text_lt_trans s t u)

any-ahead :
    (m s : Text) (ts : List Text)
    → any (text_eq m) (ahead s ts) ≡ (text_eq m s || any (text_eq m) ts)
unfolding ahead
any-ahead m s [] = refl
any-ahead m s (t ∷ ts) = elim (Bool-cases (text_eq s t)) [
  | inl e ↦ rw ((text_eq_iff s t).0 e, text_eq_refl t) (ground arith)
  | inr e ↦ rw e refl
]

any-dedup : (m : Text) (ts : List Text) → any (text_eq m) (dedup ts) ≡ any (text_eq m) ts
unfolding dedup
any-dedup m [] = refl
any-dedup m (s ∷ ts) = ground (arith, any-ahead m s (dedup ts), any-dedup m ts)

-- Whether `t` mentions `m`.
abbrev pub mentions : Env → (m t : Text) → Bool
mentions e m t = elim (mention_of e t) [ none ↦ false | some x ↦ text_eq m x ]

any-collect :
    (e : Env) (m : Text) (ts : List Text) → any (text_eq m) (collect e ts) ≡ any (mentions e m) ts
unfolding collect
any-collect e m [] = refl
any-collect e m (t ∷ ts) = elim (Option-cases (mention_of e t)) [
  | inl n ↦ ground (arith, n, any-collect e m ts)
  | inr (x, f) ↦ ground (arith, f, any-collect e m ts)
]

ahead-low :
    (p : Text → Bool) (s : Text) (ts : List Text)
    → p s ≡ false
    → any p ts ≡ false
    → any p (ahead s ts) ≡ false
unfolding ahead
ahead-low p s [] h k = ground arith
ahead-low p s (t ∷ ts) h k = ground arith

dedup-low : (p : Text → Bool) (ts : List Text) → any p ts ≡ false → any p (dedup ts) ≡ false
unfolding dedup
dedup-low p [] h = refl
dedup-low p (t ∷ ts) h = ahead-low p t (dedup ts) (ground arith) (dedup-low p ts (ground arith))

ahead-Increasing :
    (s : Text) (ts : List Text)
    → any (λ t. text_lt t s) ts ≡ false
    → Increasing ts
    → Increasing (ahead s ts)
unfolding ahead
ahead-Increasing s [] h i = (refl, tt)
ahead-Increasing s (t ∷ ts) h i = elim (Bool-cases (text_eq s t)) [
  | inl e ↦ rw e i
  | inr e ↦ rw e (
    ground (
      arith,
      text_lt-total s t e,
      any_mono (λ u. not (text_lt t u)) (λ u. not (text_lt s u))
          (λ u g. later u (ground arith) (text_lt-total s t e (ground arith))) ts i.0,
    ),
    i,
  )
]
  where
    later : (u : Text) → text_lt t u ≡ true → text_lt s t ≡ true → not (text_lt s u) ≡ false
    later u g k = ground (arith, text_lt_trans s t u k g)

dedup-Increasing : (ts : List Text) → Sorted text_lt ts → Increasing (dedup ts)
unfolding dedup
dedup-Increasing [] s = tt
dedup-Increasing (t ∷ ts) s =
    ahead-Increasing t (dedup ts) (dedup-low (λ u. text_lt u t) ts s.0) (dedup-Increasing ts s.1)

-- The mentions of a text stand in increasing order, so none twice, and they are exactly the names that
-- its tokens mention.
pub extract_mentions_lem :
    (e : Env) (content : Text)
    → Increasing (extract_mentions e content)
      × ((m : Text)
          → any (text_eq m) (extract_mentions e content) ≡ any (mentions e m) (tokens content))
unfolding extract_mentions
extract_mentions_lem e content = (
  dedup-Increasing _
      (order_by-Sorted text_lt text_lt-asym text_lt-negtrans (collect e (tokens content))),
  λ m.
      any-dedup m _
      ∙ any-order_by text_lt (text_eq m) (collect e (tokens content))
      ∙ any-collect e m (tokens content),
)
