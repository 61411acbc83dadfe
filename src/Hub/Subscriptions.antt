-- ===== src/Hub/Subscriptions.antt =====
-- ws/hub.rs: what a subscription changes for those who receive events.
use rsmc_engine.Base.{
  ℕ, ◌≡◌, refl, sym, ◌∙◌, ap, ◌↔◌, ◌⊎◌, Bool, true, false, none, some, List, [], ◌∷◌, arith, ◌==◌,
  ◌&&◌, ◌||◌, lookup, lookup-insert, HashMap, HashSet, Option, Bool-cases, Option-cases, inl, inr,
  set_insert,
}
use rsmc_engine.Models.{ServerEvent}
use rsmc_engine.Hub.Index.{IsIndexed, subscribe-IsIndexed}
use rsmc_engine.Hub.Fanout.{
  follows, is_registered, follows-subscribe, reaches, dispatch_channel_iff,
}
use rsmc_engine.Hub.{Hub, Session, Delivery, subscribe, dispatch_channel, dispatch_user, to_each}

abbrev pub tx_in : HashMap Session → (session_id : ℕ) → Option ℕ
tx_in m s = elim (lookup s m) [ none ↦ none | some x ↦ some x.tx ]

-- The connection of a session.
abbrev pub tx_of : Hub → (session_id : ℕ) → Option ℕ
tx_of h s = tx_in h.sessions s

tx_of-subscribe : (h : Hub) (s c q : ℕ) → tx_of (subscribe h s c) q ≡ tx_of h q
unfolding subscribe
tx_of-subscribe h s c q = elim (Option-cases (lookup s h.sessions)) [
  | inl e ↦ ground arith
  | inr (x, e) ↦ ground (
    arith,
    e,
    ap (λ i. lookup i h.sessions),
    lookup-insert s q (record x { subscriptions = set_insert c x.subscriptions }) h.sessions,
  )
]

each_same :
    (m m' : HashMap Session) (ids : HashSet) (e : ServerEvent)
    → ((q : ℕ) → tx_in m' q ≡ tx_in m q)
    → to_each m' ids e ≡ to_each m ids e
unfolding to_each
each_same m m' [] e same = refl
each_same m m' (id ∷ ids) e same =
    step (lookup id m') (lookup id m) (same id) (to_each m' ids e) (to_each m ids e)
      (each_same m m' ids e same)
  where
    step :
        (a b : Option Session)
        → (elim a as (λ _. Option ℕ) [ none ↦ none | some x ↦ some x.tx ])
          ≡ (elim b as (λ _. Option ℕ) [ none ↦ none | some x ↦ some x.tx ])
        → (ds es : List Delivery) → ds ≡ es
        → (elim a as (λ _. List Delivery) [
          | none ↦ ds
          | some x ↦ record { tx = x.tx; event = e } ∷ ds
        ])
          ≡ (elim b as (λ _. List Delivery) [
            | none ↦ es
            | some x ↦ record { tx = x.tx; event = e } ∷ es
          ])
    step none none h ds es k = k
    step none (some y) h ds es k = cc
    step (some x) none h ds es k = cc
    step (some x) (some y) h ds es k = let tx : x.tx ≡ y.tx = cc in rw (tx, k) refl

users_same : (h : Hub) (s c : ℕ) → (subscribe h s c).user_sessions ≡ h.user_sessions
unfolding subscribe
users_same h s c = elim (Option-cases (lookup s h.sessions)) [
  | inl e ↦ ground (arith, e)
  | inr (x, e) ↦ ground (arith, e)
]

dispatch_user-subscribe :
    (h : Hub) (s c u : ℕ) (e : ServerEvent)
    → dispatch_user (subscribe h s c) u e ≡ dispatch_user h u e
unfolding dispatch_user
dispatch_user-subscribe h s c u e = elim (Option-cases (lookup u h.user_sessions)) [
  | inl gone ↦ rw (dispatch_user, users_same h s c, gone) refl
  | inr (ids, there) ↦
      rw (dispatch_user, users_same h s c, there)
        (each_same h.sessions (subscribe h s c).sessions ids e (tx_of-subscribe h s c))
]

-- A connection that receives a channel's event is that of a session that follows the channel.
reached_iff :
    (h : Hub) (c : ℕ) (e : ServerEvent) (t : ℕ)
    → IsIndexed h
    → (reaches (dispatch_channel h c e) t ≡ true)
      ↔ ((q : ℕ) × (follows h q c ≡ true) × (tx_of h q ≡ some t))
reached_iff h c e t v = (
  λ r.
      let (q, x, l, f, same) = (dispatch_channel_iff h c e t v).0 r in
      (q, ground (arith, l, f), ground (arith, l, same)),
  λ (q, f, same). elim (Option-cases (lookup q h.sessions)) [
    | inl gone ↦ absurd (ground (arith, f, gone))
    | inr (x, l) ↦
        (dispatch_channel_iff h c e t v).1 (q, x, l, ground (arith, f, l), ground (arith, same, l))
  ],
)

registered : (h : Hub) (s t : ℕ) → tx_of h s ≡ some t → is_registered h s ≡ true
registered h s t e = elim (Option-cases (lookup s h.sessions)) [
  | inl gone ↦ absurd (ground (arith, e, gone))
  | inr (x, there) ↦ ground (arith, there)
]

-- In a hub whose index is exact, a subscription of a session to a channel adds the session's
-- connection, if the session is registered, to those that receive the events of this channel; it
-- changes nothing about who receives the events of other channels, takes nobody away, and leaves the
-- events of users, in their order, as they were.
pub dispatch-subscribe :
    (h : Hub) (s c d u : ℕ) (e : ServerEvent) (t : ℕ)
    → IsIndexed h
    → (dispatch_user (subscribe h s c) u e ≡ dispatch_user h u e)
      × ((reaches (dispatch_channel (subscribe h s c) d e) t ≡ true)
          ↔ ((reaches (dispatch_channel h d e) t ≡ true) ⊎ ((c ≡ d) × (tx_of h s ≡ some t))))
dispatch-subscribe h s c d u e t v = (dispatch_user-subscribe h s c u e, (forth, back))
  where
    after : IsIndexed (subscribe h s c)
    after = subscribe-IsIndexed h s v c

    forth :
        reaches (dispatch_channel (subscribe h s c) d e) t ≡ true
        → (reaches (dispatch_channel h d e) t ≡ true) ⊎ ((c ≡ d) × (tx_of h s ≡ some t))
    forth r =
        let (q, f, same) = (reached_iff (subscribe h s c) d e t after).0 r in
        let kept = sym (tx_of-subscribe h s c q) ∙ same in
        elim (Bool-cases (follows h q d)) [
          | inl old ↦ inl ((reached_iff h d e t v).1 (q, old, kept))
          | inr new ↦
              let (mine, this) =
                split s q c d (is_registered h s) (follows h q d) new
                  (sym (follows-subscribe h s c q d) ∙ f) in
              inr (this, ap (tx_of h) mine ∙ kept)
        ]
      where
        split :
            (s q c d : ℕ) (b f : Bool)
            → f ≡ false
            → ((s == q && c == d && b) || f) ≡ true
            → (s ≡ q) × (c ≡ d)
        split s q c d b f h k = (ground (arith, h, k), ground (arith, h, k))

    back :
        (reaches (dispatch_channel h d e) t ≡ true) ⊎ ((c ≡ d) × (tx_of h s ≡ some t))
        → reaches (dispatch_channel (subscribe h s c) d e) t ≡ true
    back (inl r) =
        let (q, f, same) = (reached_iff h d e t v).0 r in
        (reached_iff (subscribe h s c) d e t after).1
          (q, follows-subscribe h s c q d ∙ ground (arith, f), tx_of-subscribe h s c q ∙ same)
    back (inr (this, same)) = (reached_iff (subscribe h s c) d e t after).1 (
      s,
      follows-subscribe h s c s d ∙ ground (arith, this, registered h s t same),
      tx_of-subscribe h s c s ∙ same,
    )
