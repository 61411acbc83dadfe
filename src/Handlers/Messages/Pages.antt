-- ===== src/Handlers/Messages/Pages.antt =====
-- handlers/messages.rs, `history`: following `next_cursor` from page to page.
use rsmc_engine.Base.{
  ℕ, zero, suc, ◌≤◌, ◌≡◌, refl, ◌∙◌, sym, ap, subst, Bool, true, false, not, ◌&&◌, Option, none,
  some, List, [], ◌∷◌, ◌++◌, arith, ◌==◌, inl, inr, ◌⊎◌, if◌then◌else◌, any, find, select, take,
  last, length, length-append, append-nil, append_assoc, place, order_by, is_some, Bool-cases,
  select-select, ==_iff,
}
use rsmc_engine.Models.{Message}
use rsmc_engine.Db.{Db}
use rsmc_engine.Handlers.Messages.{page, cursor_after}
use rsmc_engine.Handlers.Messages.Store.{with_id, newer}
use rsmc_engine.Handlers.Messages.Threads.{AreDistinct}
use rsmc_engine.Handlers.Messages.Order.{
  Descends, In, order-Descends, select-AreDistinct, select-order_by, select-after,
}

abbrev pub is_top : (channel_id : ℕ) → Message → Bool
is_top c m = m.channel_id == c && not (is_some m.parent_id)

-- All top-level messages of a channel, newest first.
abbrev pub timeline : (channel_id : ℕ) → Db → List Message
timeline c d = order_by newer (select (is_top c) d.messages)

-- The messages that a client lists which asks for at most `pages` pages, each before the cursor
-- that came with the last.
unfoldable pub walk : (pages : ℕ) → (channel_id limit : ℕ) → Option ℕ → Db → List Message
unfolding page cursor_after
walk zero c limit cursor d = []
walk (suc n) c limit cursor d =
    page c cursor limit d ++ elim (cursor_after (page c cursor limit d) limit) [
      | none ↦ []
      | some k ↦ walk n c limit (some k) d
    ]

In-either :
    (m y : Message) (ms ns : List Message) (b : Bool)
    → In m (if b then ms else ns)
    → In m ms ⊎ In m ns
In-either m y ms ns true h = inl h
In-either m y ms ns false h = inr h

In-place : (m : Message) (x : Message) (ms : List Message) → In m (place newer x ms) → In m (x ∷ ms)
In-place m x [] h = h
In-place m x (y ∷ ys) h = elim (In-either m y (y ∷ place newer x ys) (x ∷ y ∷ ys) (newer y x) h) [
  | inl (inl e) ↦ inr (inl e)
  | inl (inr k) ↦ elim (In-place m x ys k) [ inl e ↦ inl e | inr l ↦ inr (inr l) ]
  | inr k ↦ k
]

In-order_by : (m : Message) (ms : List Message) → In m (order_by newer ms) → In m ms
In-order_by m [] h = h
In-order_by m (x ∷ xs) h = elim (In-place m x (order_by newer xs) h) [
  | inl e ↦ inl e
  | inr k ↦ inr (In-order_by m xs k)
]

In-select : (m : Message) (p : Message → Bool) (ms : List Message) → In m (select p ms) → In m ms
In-select m p [] h = h
In-select m p (x ∷ xs) h = elim (In-either m x (x ∷ select p xs) (select p xs) (p x) h) [
  | inl (inl e) ↦ inl e
  | inl (inr k) ↦ inr (In-select m p xs k)
  | inr k ↦ inr (In-select m p xs k)
]

In-middle : (m : Message) (xs ys : List Message) → In m (xs ++ m ∷ ys)
In-middle m [] ys = inl refl
In-middle m (x ∷ xs) ys = inr (In-middle m xs ys)

any-In : (m : Message) (ms : List Message) → In m ms → any (with_id m.id) ms ≡ true
any-In m [] h = absurd h
any-In m (x ∷ xs) (inl e) = rw e (ground arith)
any-In m (x ∷ xs) (inr h) = ground (arith, any-In m xs h)

find-In :
    (m : Message) (ms : List Message) → AreDistinct ms → In m ms → find (with_id m.id) ms ≡ some m
find-In m [] d h = absurd h
find-In m (x ∷ xs) d (inl e) = rw e (ground arith)
find-In m (x ∷ xs) d (inr h) = elim (Bool-cases (with_id m.id x)) [
  | inl same ↦ absurd (ground (arith, any-In m xs h, d.0, (==_iff x.id m.id).0))
  | inr other ↦ rw other (find-In m xs d.1 h)
]

pub take_all : (n : ℕ) (ms : List Message) → (length (take n ms) == n) ≡ false → take n ms ≡ ms
take_all zero ms h = absurd (ground arith)
take_all (suc n) [] h = refl
take_all (suc n) (m ∷ ms) h = ap (λ xs. m ∷ xs) (take_all n ms (ground arith))

-- A full page ends with a message, after which the rest follows.
pub record Split (n : ℕ) (ms : List Message) : Type 0 where
  pub before : List Message
  pub end : Message
  pub rest : List Message
  pub page_is : take n ms ≡ before ++ end ∷ []
  pub all_is : ms ≡ before ++ end ∷ rest
  pub last_is : last (take n ms) ≡ some end

pub split :
    (n : ℕ) (ms : List Message) → (length (take (suc n) ms) == suc n) ≡ true → Split (suc n) ms
split n [] h = absurd (ground arith)
split zero (m ∷ ms) h = record {
  before = [];
  end = m;
  rest = ms;
  page_is = refl;
  all_is = refl;
  last_is = refl;
}
split (suc n) (m ∷ ms) h =
    let s = split n ms (ground arith) in
    record {
      before = m ∷ s.before;
      end = s.end;
      rest = s.rest;
      page_is = ap (λ xs. m ∷ xs) s.page_is;
      all_is = ap (λ xs. m ∷ xs) s.all_is;
      last_is = last_cons (take (suc n) ms) s.last_is;
    }
  where
    last_cons : (xs : List Message) → {e : Message} → last xs ≡ some e → last (m ∷ xs) ≡ some e
    last_cons [] h = absurd cc
    last_cons (x ∷ xs) h = h

length-end :
    (xs ys zs : List Message) (m : Message) {n : ℕ}
    → ys ≡ xs ++ m ∷ zs
    → length ys ≤ n
    → suc (length zs) ≤ n
length-end xs ys zs m e le = omega (arith, ap length e, length-append xs (m ∷ zs), le)

module _ (c : ℕ) (d : Db) (distinct : AreDistinct d.messages) where
  timeline-Descends : Descends (timeline c d)
  timeline-Descends =
      order-Descends (select (is_top c) d.messages)
        (select-AreDistinct (is_top c) d.messages distinct)

  -- On messages with unique ids, the page before a message of the channel's timeline is what follows
  -- the message there, up to the limit.
  pub page-after :
      (limit : ℕ) (xs : List Message) (m : Message) (ys : List Message)
      → timeline c d ≡ xs ++ m ∷ ys
      → page c (some m.id) limit d ≡ take limit ys
  unfolding page
  page-after limit xs m ys e =
      rw (found, page)
        (ap (take limit) (
          ap (order_by newer) (select-select (is_top c) (newer m) d.messages)
          ∙ sym (
              select-order_by (newer m) (select (is_top c) d.messages)
                (select-AreDistinct (is_top c) d.messages distinct))
          ∙ rw e (select-after xs m ys (subst Descends e timeline-Descends))))
    where
      found : find (with_id m.id) d.messages ≡ some m
      found = find-In m d.messages distinct (
          In-select m (is_top c) d.messages
            (In-order_by m _ (subst (In m) (sym e) (In-middle m xs ys))))

  -- One page, and the rest by what is known of the cursors that come later.
  onward :
      (n limit : ℕ) (before ys : List Message)
      → timeline c d ≡ before ++ ys
      → length ys ≤ n
      → ((xs : List Message) (m : Message) (zs : List Message)
          → timeline c d ≡ xs ++ m ∷ zs
          → suc (length zs) ≤ n
          → walk n c (suc limit) (some m.id) d ≡ zs)
      → take (suc limit) ys ++ elim (cursor_after (take (suc limit) ys) (suc limit)) [
        | none ↦ []
        | some k ↦ walk n c (suc limit) (some k) d
      ]
        ≡ ys
  unfolding cursor_after
  onward n limit before ys e le later =
      elim (Bool-cases (length (take (suc limit) ys) == suc limit)) [
        | inl full ↦
            let s = split limit ys full in
            let there : timeline c d ≡ (before ++ s.before) ++ s.end ∷ s.rest =
              e
              ∙ ap (λ zs. before ++ zs) s.all_is
              ∙ sym (append_assoc before s.before (s.end ∷ s.rest)) in
            rw
              (
                full,
                s.last_is,
                later (before ++ s.before) s.end s.rest there
                    (length-end s.before ys s.rest s.end s.all_is le),
                s.page_is,
              )
              (append_assoc s.before (s.end ∷ []) s.rest ∙ sym s.all_is)
        | inr short ↦ rw short (append-nil (take (suc limit) ys) ∙ take_all (suc limit) ys short)
      ]

  walk-after :
      (n limit : ℕ) (xs : List Message) (m : Message) (ys : List Message)
      → timeline c d ≡ xs ++ m ∷ ys
      → suc (length ys) ≤ n
      → walk n c (suc limit) (some m.id) d ≡ ys
  unfolding walk
  walk-after zero limit xs m ys e le = absurd (omega arith)
  walk-after (suc n) limit xs m ys e le = rw (page-after (suc limit) xs m ys e) (
      onward n limit (xs ++ m ∷ []) ys (e ∙ sym (append_assoc xs (m ∷ []) ys)) (omega arith)
        (λ xs' m' zs e' le'. walk-after n limit xs' m' zs e' le'))

  -- On messages with unique ids, following `next_cursor` from the newest page to the end lists each
  -- top-level message of the channel once, newest first, whatever the limit of a page: one more page
  -- than the channel has messages is enough.
  pub walk-timeline :
      (limit : ℕ) → walk (suc (length (timeline c d))) c (suc limit) none d ≡ timeline c d
  unfolding walk page
  walk-timeline limit =
      onward (length (timeline c d)) limit [] (timeline c d) refl (omega arith)
        (walk-after (length (timeline c d)) limit)
