-- ===== src/Hub/Fanout.antt =====
-- ws/hub.rs: who receives a dispatched event.
use rsmc_engine.Base.{
  ℕ, ◌≡◌, ◌↔◌, Bool, true, false, none, some, List, [], ◌∷◌, arith, ◌==◌, ◌||◌, lookup, contains,
  lookup-insert, contains-set_insert, contains-set_remove, HashMap, HashSet, any, is_some, IsUnique,
  contains-empty, Bool-cases, Option-cases, inl, inr, not, ◌&&◌, set_insert, set_remove,
}
use rsmc_engine.Models.{ServerEvent}
use rsmc_engine.Hub.Index.{IsIndexed}
use rsmc_engine.Hub.{
  Hub, Session, Delivery, subscribe, unsubscribe, dispatch_channel, dispatch_user, to_subscribers,
  to_each,
}

-- The session follows the channel.
abbrev pub follows : Hub → (session_id channel_id : ℕ) → Bool
follows h s c = elim (lookup s h.sessions) [ none ↦ false | some x ↦ contains c x.subscriptions ]

abbrev pub is_registered : Hub → (session_id : ℕ) → Bool
is_registered h s = is_some (lookup s h.sessions)

-- After a subscription, one registered session follows one channel more, and no other session another.
pub follows-subscribe :
    (h : Hub) (s c t d : ℕ)
    → follows (subscribe h s c) t d ≡ ((s == t && c == d && is_registered h s) || follows h t d)
unfolding subscribe
follows-subscribe h s c t d = elim (Option-cases (lookup s h.sessions)) [
  | inl e ↦ ground arith
  | inr (x, e) ↦ ground (
    arith,
    lookup-insert s t (record x { subscriptions = set_insert c x.subscriptions }) h.sessions,
    contains-set_insert c d x.subscriptions,
  )
]

-- After an unsubscription, one session follows one channel less, and every other session the same.
pub follows-unsubscribe :
    (h : Hub) (s c t d : ℕ)
    → follows (unsubscribe h s c) t d ≡ (not (s == t && c == d) && follows h t d)
unfolding unsubscribe
follows-unsubscribe h s c t d = elim (Option-cases (lookup s h.sessions)) [
  | inl e ↦ ground arith
  | inr (x, e) ↦ ground (
    arith,
    lookup-insert s t (record x { subscriptions = set_remove c x.subscriptions }) h.sessions,
    contains-set_remove c d x.subscriptions,
  )
]

abbrev pub reaches : List Delivery → (tx : ℕ) → Bool
reaches ds t = any (λ d. d.tx == t) ds

reaches_each :
    (m : HashMap Session) (ids : HashSet) (e : ServerEvent) (t : ℕ)
    → reaches (to_each m ids e) t ≡ true
    → (s : ℕ) × (x : Session) × (contains s ids ≡ true) × (lookup s m ≡ some x) × (x.tx ≡ t)
unfolding to_each contains
reaches_each m [] e t h = cc
reaches_each m (id ∷ ids) e t h = elim (Option-cases (lookup id m)) [
  | inl f ↦
      let (s, x, c, l, q) = reaches_each m ids e t (ground arith) in (s, x, ground arith, l, q)
  | inr (y, f) ↦ elim (Bool-cases (y.tx == t)) [
    | inl q ↦ (id, y, ground arith, f, ground arith)
    | inr n ↦
        let (s, x, c, l, q) = reaches_each m ids e t (ground arith) in (s, x, ground arith, l, q)
  ]
]

each_reaches :
    (m : HashMap Session) (ids : HashSet) (e : ServerEvent) (s : ℕ) (x : Session)
    → contains s ids ≡ true
    → lookup s m ≡ some x
    → reaches (to_each m ids e) x.tx ≡ true
unfolding to_each contains
each_reaches m [] e s x c l = cc
each_reaches m (id ∷ ids) e s x c l = ground (arith, each_reaches m ids e s x)

-- In a hub whose index is exact, a connection receives a user's event exactly if it is that of a
-- session of this user.
pub dispatch_user_iff :
    (h : Hub) (u : ℕ) (e : ServerEvent) (t : ℕ)
    → IsIndexed h
    → (reaches (dispatch_user h u e) t ≡ true)
      ↔ ((s : ℕ) × (x : Session) × (lookup s h.sessions ≡ some x) × (x.user_id ≡ u) × (x.tx ≡ t))
unfolding dispatch_user
dispatch_user_iff h u e t v = (to, from)
  where
    to :
        reaches (dispatch_user h u e) t ≡ true
        → (s : ℕ) × (x : Session) × (lookup s h.sessions ≡ some x) × (x.user_id ≡ u) × (x.tx ≡ t)
    to r = elim (Option-cases (lookup u h.user_sessions)) [
      | inl f ↦ absurd (ground arith)
      | inr (ids, f) ↦
          let (s, x, c, l, q) = reaches_each h.sessions ids e t (ground arith) in
          (s, x, l, ground (arith, v.agree s u), q)
    ]

    from :
        (s : ℕ) × (x : Session) × (lookup s h.sessions ≡ some x) × (x.user_id ≡ u) × (x.tx ≡ t)
        → reaches (dispatch_user h u e) t ≡ true
    from (s, x, l, o, q) = elim (Option-cases (lookup u h.user_sessions)) [
      | inl f ↦ absurd (ground (arith, v.agree s u, contains-empty s))
      | inr (ids, f) ↦ ground (arith, v.agree s u, each_reaches h.sessions ids e s x)
    ]

subscribers_reached :
    (m : HashMap Session) (c : ℕ) (e : ServerEvent) (t : ℕ)
    → IsUnique m
    → reaches (to_subscribers m c e) t ≡ true
    → (s : ℕ) × (x : Session) × (lookup s m ≡ some x)
      × (contains c x.subscriptions ≡ true)
      × (x.tx ≡ t)
unfolding to_subscribers lookup
subscribers_reached [] c e t v r = cc
subscribers_reached ((id, y) ∷ m) c e t v r =
    elim (Bool-cases (contains c y.subscriptions && y.tx == t)) [
      | inl here ↦ (id, y, ground arith, ground arith, ground arith)
      | inr later ↦
          let (s, x, l, f, q) = subscribers_reached m c e t v.1 (ground arith) in
          (s, x, ground arith, f, q)
    ]

reached_subscriber :
    (m : HashMap Session) (c : ℕ) (e : ServerEvent) (s : ℕ) (x : Session)
    → lookup s m ≡ some x
    → contains c x.subscriptions ≡ true
    → reaches (to_subscribers m c e) x.tx ≡ true
unfolding to_subscribers lookup
reached_subscriber [] c e s x l f = cc
reached_subscriber ((id, y) ∷ m) c e s x l f = ground (arith, reached_subscriber m c e s x)

-- In a hub whose index is exact, a connection receives a channel's event exactly if its session
-- follows the channel.
pub dispatch_channel_iff :
    (h : Hub) (c : ℕ) (e : ServerEvent) (t : ℕ)
    → IsIndexed h
    → (reaches (dispatch_channel h c e) t ≡ true) ↔ (
        (s : ℕ) × (x : Session) × (lookup s h.sessions ≡ some x)
        × (contains c x.subscriptions ≡ true)
        × (x.tx ≡ t))
unfolding dispatch_channel
dispatch_channel_iff h c e t v = (
  subscribers_reached h.sessions c e t v.keyed.0,
  λ (s, x, l, f, q). rw (← q) (reached_subscriber h.sessions c e s x l f),
)
