-- ===== src/Handlers/Messages/Grouping.antt =====
-- handlers/messages.rs, `enrich`: the groups of reactions count what the table holds.
use rsmc_engine.Base.{
  ℕ, ◌+◌, ◌≡◌, refl, ◌∙◌, sym, ap, subst, Bool, true, false, ◌&&◌, List, [], ◌∷◌, arith, ◌==◌,
  if◌then◌else◌, Text, text_eq, text_eq_iff, text_eq_refl, any, count_where, length, length-append,
  HashMap, lookup, insert, lookup-insert, Bool-cases, inl, inr, ==_iff,
}
use rsmc_engine.Models.{Reaction, ReactionGroup}
use rsmc_engine.Handlers.Messages.Enrich.{group, react_map, or_default}

-- How many reactions with the emoji the groups count.
abbrev pub counted : Text → List ReactionGroup → ℕ
counted t [] = 0
counted t (g ∷ gs) = (if text_eq g.emoji t then g.count else 0) + counted t gs

-- One group to an emoji, and each group counts the users it names.
abbrev pub AreGroups : List ReactionGroup → Type 0
AreGroups [] = Unit
AreGroups (g ∷ gs) =
    (any (λ k. text_eq k.emoji g.emoji) gs ≡ false) × (g.count ≡ length g.user_ids) × AreGroups gs

counted-group :
    (t : Text) (r : Reaction) (gs : List ReactionGroup)
    → counted t (group r gs) ≡ counted t gs + (if text_eq r.emoji t then 1 else 0)
unfolding group
counted-group t r [] = ground arith
counted-group t r (g ∷ gs) = elim (Bool-cases (text_eq g.emoji r.emoji)) [
  | inl e ↦ rw e (rw ((text_eq_iff g.emoji r.emoji).0 e) (ground arith))
  | inr e ↦ rw e (omega (arith, counted-group t r gs))
]

any-group :
    (u : Text) (r : Reaction) (gs : List ReactionGroup)
    → text_eq r.emoji u ≡ false
    → any (λ k. text_eq k.emoji u) gs ≡ false
    → any (λ k. text_eq k.emoji u) (group r gs) ≡ false
unfolding group
any-group u r [] n h = ground arith
any-group u r (g ∷ gs) n h = elim (Bool-cases (text_eq g.emoji r.emoji)) [
  | inl e ↦ rw e h
  | inr e ↦ rw e (ground (arith, any-group u r gs n))
]

group-AreGroups : (r : Reaction) (gs : List ReactionGroup) → AreGroups gs → AreGroups (group r gs)
unfolding group
group-AreGroups r [] h = (refl, refl, tt)
group-AreGroups r (g ∷ gs) h = elim (Bool-cases (text_eq g.emoji r.emoji)) [
  | inl e ↦ rw e (h.0, omega (arith, h.1, length-append g.user_ids (r.user_id ∷ [])), h.2)
  | inr e ↦ rw e (any-group g.emoji r gs (other e) h.0, h.1, group-AreGroups r gs h.2)
]
  where
    other : text_eq g.emoji r.emoji ≡ false → text_eq r.emoji g.emoji ≡ false
    other e = elim (Bool-cases (text_eq r.emoji g.emoji)) [
      | inl k ↦
          let back : text_eq g.emoji r.emoji ≡ true =
            rw ((text_eq_iff r.emoji g.emoji).0 k) (text_eq_refl g.emoji) in
          absurd (ground (arith, e, back))
      | inr k ↦ k
    ]

abbrev pub of_message : (message_id : ℕ) → Text → Reaction → Bool
of_message i t r = r.message_id == i && text_eq r.emoji t

abbrev pub groups_of : ℕ → HashMap (List ReactionGroup) → List ReactionGroup
groups_of i m = or_default (lookup i m)

groups_of-insert :
    (k i : ℕ) (gs : List ReactionGroup) (m : HashMap (List ReactionGroup))
    → groups_of i (insert k gs m) ≡ (if k == i then gs else groups_of i m)
groups_of-insert k i gs m = ground (arith, lookup-insert k i gs m)

react_map-onto :
    (i : ℕ) (rs : List Reaction) (m : HashMap (List ReactionGroup))
    → AreGroups (groups_of i m)
    → AreGroups (groups_of i (react_map rs m))
      × ((t : Text)
          → counted t (groups_of i (react_map rs m))
            ≡ counted t (groups_of i m) + count_where (of_message i t) rs)
unfolding react_map
react_map-onto i [] m h = (h, λ t. omega arith)
react_map-onto i (r ∷ rs) m h = elim (Bool-cases (r.message_id == i)) [
  | inl same ↦
      let here : groups_of r.message_id m ≡ groups_of i m =
        ap (λ k. groups_of k m) ((==_iff r.message_id i).0 same) in
      let new : groups_of i (insert r.message_id (group r (groups_of r.message_id m)) m)
          ≡ group r (groups_of i m) =
        groups_of-insert r.message_id i _ m ∙ rw (same, here) refl in
      let (apart, count) =
        react_map-onto i rs (insert r.message_id (group r (groups_of r.message_id m)) m)
          (subst AreGroups (sym new) (group-AreGroups r (groups_of i m) h)) in
      (apart, λ t. rw (count t, new, same) (omega (arith, counted-group t r (groups_of i m))))
  | inr other ↦
      let new : groups_of i (insert r.message_id (group r (groups_of r.message_id m)) m)
          ≡ groups_of i m =
        groups_of-insert r.message_id i _ m ∙ rw other refl in
      let (apart, count) =
        react_map-onto i rs (insert r.message_id (group r (groups_of r.message_id m)) m)
          (subst AreGroups (sym new) h) in
      (apart, λ t. rw (count t, new, other) (omega arith))
]

-- In the map that `enrich` builds, a message's groups have different emojis, each counts the users
-- that it lists, and together they count exactly the message's reactions with each emoji.
pub react_map_lem :
    (i : ℕ) (rs : List Reaction)
    → AreGroups (groups_of i (react_map rs []))
      × ((t : Text) → counted t (groups_of i (react_map rs [])) ≡ count_where (of_message i t) rs)
unfolding lookup
react_map_lem i rs =
    let (apart, count) = react_map-onto i rs [] tt in (apart, λ t. omega (arith, count t))
