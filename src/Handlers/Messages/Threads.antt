-- ===== src/Handlers/Messages/Threads.antt =====
-- handlers/messages.rs: what holds of the table of messages: ids are unique, a reply's parent
-- stands in the reply's channel, `reply_count` counts the replies, a deleted message is blank.
use rsmc_engine.Base.{
  ℕ, ◌+◌, ◌≡◌, refl, Bool, true, false, not, ◌&&◌, ◌||◌, Option, none, some, List, [], ◌∷◌, ◌++◌,
  arith, ◌==◌, if◌then◌else◌, Text, is_some, any, update_where, count_where, count_where-append,
  any-append, Bool-cases, inl, inr, find, subst, ==_iff,
}
use rsmc_engine.Models.{Message}
use rsmc_engine.Handlers.Messages.Store.{with_id, is_reply_to, is_live}

abbrev pub replies : ℕ → List Message → ℕ
replies i ms = count_where (λ m. is_reply_to i m.parent_id) ms

-- Within the transaction of `send_message` a reply is stored before its parent's count is raised.
abbrev pub owed : Option ℕ → ℕ → ℕ
owed p i = if is_reply_to i p then 1 else 0

abbrev pub channel_has : (channel_id : ℕ) → Option ℕ → List Message → Bool
channel_has c none ms = true
channel_has c (some p) ms = any (λ m. with_id p m && m.channel_id == c) ms

abbrev is_nil : Text → Bool
is_nil [] = true
is_nil (c ∷ s) = false

abbrev pub blank_if_deleted : Message → Bool
blank_if_deleted m = not (is_some m.deleted_at) || is_nil m.content

abbrev pub AreDistinct : List Message → Type 0
AreDistinct [] = Unit
AreDistinct (m ∷ ms) = (any (with_id m.id) ms ≡ false) × AreDistinct ms

abbrev pub AreLinked : List Message → List Message → Type 0
AreLinked all [] = Unit
AreLinked all (m ∷ ms) = (channel_has m.channel_id m.parent_id all ≡ true) × AreLinked all ms

abbrev pub AreCounted : Option ℕ → List Message → List Message → Type 0
AreCounted pending all [] = Unit
AreCounted pending all (m ∷ ms) =
    (m.reply_count + owed pending m.id ≡ replies m.id all) × AreCounted pending all ms

abbrev pub AreBlank : List Message → Type 0
AreBlank [] = Unit
AreBlank (m ∷ ms) = (blank_if_deleted m ≡ true) × AreBlank ms

pub record IsThreaded (pending : Option ℕ) (ms : List Message) : Type 0 where
  pub distinct : AreDistinct ms
  pub linked : AreLinked ms ms
  pub counted : AreCounted pending ms ms
  pub blank : AreBlank ms

-- Storing a message: the reply is owed to its parent.
module _ (all : List Message) (m : Message) (fresh : any (with_id m.id) all ≡ false) where
  append-AreDistinct :
      (xs : List Message)
      → any (with_id m.id) xs ≡ false
      → AreDistinct xs
      → AreDistinct (xs ++ m ∷ [])
  append-AreDistinct [] f d = (refl, tt)
  append-AreDistinct (x ∷ xs) f d =
      ground (arith, append-AreDistinct xs, any-append (with_id x.id) xs (m ∷ []))

  channel_has-append :
      (c : ℕ) (p : Option ℕ) → channel_has c p all ≡ true → channel_has c p (all ++ m ∷ []) ≡ true
  channel_has-append c none h = refl
  channel_has-append c (some p) h =
      ground (arith, any-append (λ x. with_id p x && x.channel_id == c) all (m ∷ []))

  append-AreLinked :
      (xs : List Message)
      → channel_has m.channel_id m.parent_id all ≡ true
      → AreLinked all xs
      → AreLinked (all ++ m ∷ []) (xs ++ m ∷ [])
  append-AreLinked [] h l = (channel_has-append m.channel_id m.parent_id h, tt)
  append-AreLinked (x ∷ xs) h l =
      (channel_has-append x.channel_id x.parent_id l.0, append-AreLinked xs h l.1)

  channel_has-any :
      (c p : ℕ) (xs : List Message) → channel_has c (some p) xs ≡ true → any (with_id p) xs ≡ true
  channel_has-any c p [] h = cc
  channel_has-any c p (x ∷ xs) h = ground (arith, channel_has-any c p xs)

  no_parent : (c : ℕ) (p : Option ℕ) → channel_has c p all ≡ true → is_reply_to m.id p ≡ false
  no_parent c none h = refl
  no_parent c (some p) h = ground (arith, channel_has-any c p all h)

  no_replies : (xs : List Message) → AreLinked all xs → replies m.id xs ≡ 0
  no_replies [] l = refl
  no_replies (x ∷ xs) l = ground (arith, no_replies xs, no_parent x.channel_id x.parent_id)

  append-AreCounted :
      (xs : List Message)
      → m.reply_count ≡ 0
      → AreLinked all all
      → AreCounted none all xs
      → AreCounted m.parent_id (all ++ m ∷ []) (xs ++ m ∷ [])
  append-AreCounted [] z l c = (
    ground (
      arith,
      count_where-append (λ x. is_reply_to m.id x.parent_id) all (m ∷ []),
      no_replies all l,
    ),
    tt,
  )
  append-AreCounted (x ∷ xs) z l c = (
    ground (arith, count_where-append (λ y. is_reply_to x.id y.parent_id) all (m ∷ [])),
    append-AreCounted xs z l c.1,
  )

  append-AreBlank :
      (xs : List Message) → blank_if_deleted m ≡ true → AreBlank xs → AreBlank (xs ++ m ∷ [])
  append-AreBlank [] b h = (b, tt)
  append-AreBlank (x ∷ xs) b h = (h.0, append-AreBlank xs b h.1)

pub append-IsThreaded :
    (ms : List Message) (m : Message)
    → IsThreaded none ms
    → any (with_id m.id) ms ≡ false
    → channel_has m.channel_id m.parent_id ms ≡ true
    → m.reply_count ≡ 0
    → m.deleted_at ≡ none
    → IsThreaded m.parent_id (ms ++ m ∷ [])
append-IsThreaded ms m t fresh has zero_replies live = record {
  distinct = append-AreDistinct ms m fresh ms fresh t.distinct;
  linked = append-AreLinked ms m fresh ms has t.linked;
  counted = append-AreCounted ms m fresh ms zero_replies t.linked t.counted;
  blank = append-AreBlank ms m fresh ms (ground arith) t.blank;
}

-- An update that leaves ids, channels and parents alone.
module _ (p : Message → Bool) (f : Message → Message)
    (same : (m : Message)
      → ((f m).id ≡ m.id)
        × ((f m).channel_id ≡ m.channel_id)
        × ((f m).parent_id ≡ m.parent_id)) where
  any_id-update :
      (i : ℕ) (xs : List Message) → any (with_id i) (update_where p f xs) ≡ any (with_id i) xs
  any_id-update i [] = refl
  any_id-update i (x ∷ xs) = ground (arith, any_id-update i xs, same x)

  channel_has-update :
      (c : ℕ) (q : Option ℕ) (xs : List Message)
      → channel_has c q (update_where p f xs) ≡ channel_has c q xs
  channel_has-update c none xs = refl
  channel_has-update c (some q) [] = refl
  channel_has-update c (some q) (x ∷ xs) = ground (arith, channel_has-update c (some q) xs, same x)

  pub replies-update : (i : ℕ) (xs : List Message) → replies i (update_where p f xs) ≡ replies i xs
  replies-update i [] = refl
  replies-update i (x ∷ xs) = ground (arith, replies-update i xs, same x)

  update-AreDistinct : (xs : List Message) → AreDistinct xs → AreDistinct (update_where p f xs)
  update-AreDistinct [] d = tt
  update-AreDistinct (x ∷ xs) d =
      ground (arith, update-AreDistinct xs, any_id-update x.id xs, same x)

  update-AreLinked :
      (all xs : List Message)
      → AreLinked all xs
      → AreLinked (update_where p f all) (update_where p f xs)
  update-AreLinked all [] d = tt
  update-AreLinked all (x ∷ xs) d =
      ground
        (arith, update-AreLinked all xs, channel_has-update x.channel_id x.parent_id all, same x)

  pub update-AreBlank :
      ((m : Message) → p m ≡ true → blank_if_deleted m ≡ true → blank_if_deleted (f m) ≡ true)
      → (xs : List Message) → AreBlank xs
      → AreBlank (update_where p f xs)
  update-AreBlank kept [] d = tt
  update-AreBlank kept (x ∷ xs) d = elim (Bool-cases (p x)) [
    | inl e ↦ rw e (kept x e d.0, update-AreBlank kept xs d.1)
    | inr e ↦ rw e (d.0, update-AreBlank kept xs d.1)
  ]

  update-AreCounted :
      (before after : Option ℕ)
      → ((m : Message)
          → (if p m then (f m).reply_count else m.reply_count) + owed after m.id
            ≡ m.reply_count + owed before m.id)
      → (all xs : List Message) → AreCounted before all xs
      → AreCounted after (update_where p f all) (update_where p f xs)
  update-AreCounted before after kept all [] d = tt
  update-AreCounted before after kept all (x ∷ xs) d =
      ground
        (arith, update-AreCounted before after kept all xs, replies-update x.id all, kept x, same x)

  pub update-IsThreaded :
      (before after : Option ℕ) (ms : List Message)
      → ((m : Message)
          → (if p m then (f m).reply_count else m.reply_count) + owed after m.id
            ≡ m.reply_count + owed before m.id)
      → AreBlank (update_where p f ms)
      → IsThreaded before ms
      → IsThreaded after (update_where p f ms)
  update-IsThreaded before after ms counts blanks t = record {
    distinct = update-AreDistinct ms t.distinct;
    linked = update-AreLinked ms ms t.linked;
    counted = update-AreCounted before after counts ms ms t.counted;
    blank = blanks;
  }

update_absent :
    (i : ℕ) (f : Message → Message) (xs : List Message)
    → any (with_id i) xs ≡ false
    → update_where (with_id i) f xs ≡ xs
update_absent i f [] h = refl
update_absent i f (x ∷ xs) h = ground (arith, update_absent i f xs)

find-absent :
    (i : ℕ) (xs : List Message)
    → any (with_id i) xs ≡ false
    → find (λ x. with_id i x && is_live x) xs ≡ none
find-absent i [] h = refl
find-absent i (x ∷ xs) h = ground (arith, find-absent i xs)

-- A new content keeps deleted messages blank if the message that is edited is not deleted: ids are
-- unique, so a live row with the id is the only one.
pub set_content-AreBlank :
    (i : ℕ) (f : Message → Message) (xs : List Message) {m : Message}
    → ((x : Message) → (f x).deleted_at ≡ x.deleted_at)
    → AreDistinct xs
    → find (λ x. with_id i x && is_live x) xs ≡ some m
    → AreBlank xs
    → AreBlank (update_where (with_id i) f xs)
set_content-AreBlank i f [] same d h b = tt
set_content-AreBlank i f (x ∷ xs) {m} same d h b = elim (Bool-cases (x.id == i)) [
  | inl e ↦
      let gone : any (with_id i) xs ≡ false =
        subst (λ j. any (with_id j) xs ≡ false) ((==_iff x.id i).0 e) d.0 in
      rw (e, update_absent i f xs gone) (ground (arith, same x, find-absent i xs gone), b.1)
  | inr e ↦ rw e (b.0, set_content-AreBlank i f xs {m = m} same d.1 (ground arith) b.1)
]
