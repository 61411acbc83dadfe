-- ===== src/Hub/Index.antt =====
-- ws/hub.rs: `user_sessions` is the exact reverse index of `sessions`.
use rsmc_engine.Base.{
  ℕ, ◌≡◌, refl, ◌≢◌, ◌↔◌, Bool, true, false, none, some, [], ◌∷◌, arith, ◌==◌, if◌then◌else◌,
  lookup, contains, lookup-insert, lookup-remove, contains-set_insert, contains-set_remove,
  contains-empty, set_insert, set_remove, set_insert-ne_nil, inl, inr, Option-cases, insert,
  IsUnique, insert-IsUnique, remove-IsUnique, length-insert, length-remove, ◌+◌,
  contains_of_is_empty, nil_of_is_empty, List, not,
}
use rsmc_engine.Hub.{
  Hub, Session, new, sessions_of, register, unregister, subscribe, unsubscribe, is_online,
  online_count,
}

-- The session is registered, and is the user's.
abbrev pub owns : Hub → (session_id user_id : ℕ) → Bool
owns h s u = elim (lookup s h.sessions) [ none ↦ false | some x ↦ x.user_id == u ]

pub record IsIndexed (h : Hub) : Type 0 where
  pub keyed : IsUnique h.sessions × IsUnique h.user_sessions
  pub agree : (s u : ℕ) → contains s (sessions_of h u) ≡ owns h s u
  pub nonempty : (u : ℕ) → lookup u h.user_sessions ≢ some []

pub new-IsIndexed : IsIndexed new
unfolding new lookup contains
new-IsIndexed = record { keyed = (tt, tt); agree = λ s u. refl; nonempty = λ u e. cc }

pub register-IsIndexed :
    (h : Hub) (user_id tx session_id : ℕ)
    → IsIndexed h
    → lookup session_id h.sessions ≡ none
    → IsIndexed (register h user_id tx session_id).0
unfolding register
register-IsIndexed h user_id tx session_id v fresh = record {
  keyed = (insert-IsUnique _ _ h.sessions v.keyed.0, insert-IsUnique _ _ h.user_sessions v.keyed.1);
  agree = λ s u. ground (
    arith,
    lookup-insert session_id s (record { user_id = user_id; tx = tx; subscriptions = [] })
        h.sessions,
    lookup-insert user_id u (set_insert session_id (sessions_of h user_id)) h.user_sessions,
    contains-set_insert session_id s (sessions_of h user_id),
    v.agree s u,
    contains-empty s,
  );
  nonempty = λ u e. ground (
    arith,
    lookup-insert user_id u (set_insert session_id (sessions_of h user_id)) h.user_sessions,
    set_insert-ne_nil session_id (sessions_of h user_id),
    v.nonempty u,
  );
}

module _ (h : Hub) (session_id : ℕ) (v : IsIndexed h) where
  unregister-agree :
      (s u : ℕ)
      → contains s (sessions_of (unregister h session_id).1 u)
        ≡ owns (unregister h session_id).1 s u
  unfolding unregister
  unregister-agree s u = elim (Option-cases (lookup session_id h.sessions)) [
    | inl e ↦ ground (arith, lookup-remove session_id s h.sessions, v.agree s u)
    | inr (x, e) ↦ elim (Option-cases (lookup x.user_id h.user_sessions)) [
      | inl f ↦ ground (arith, lookup-remove session_id s h.sessions, v.agree s u, contains-empty s)
      | inr (ids, f) ↦ ground (
        arith,
        lookup-remove session_id s h.sessions,
        v.agree s u,
        contains-set_remove session_id s ids,
        lookup-remove x.user_id u (insert x.user_id (set_remove session_id ids) h.user_sessions),
        lookup-insert x.user_id u (set_remove session_id ids) h.user_sessions,
        contains_of_is_empty (set_remove session_id ids) s,
        contains-empty s,
      )
    ]
  ]

  unregister-nonempty : (u : ℕ) → lookup u (unregister h session_id).1.user_sessions ≢ some []
  unfolding unregister
  unregister-nonempty u e = elim (Option-cases (lookup session_id h.sessions)) [
    | inl f ↦ ground (arith, v.nonempty u)
    | inr (x, f) ↦ elim (Option-cases (lookup x.user_id h.user_sessions)) [
      | inl g ↦ ground (arith, v.nonempty u)
      | inr (ids, g) ↦ ground (
        arith,
        v.nonempty u,
        lookup-remove x.user_id u (insert x.user_id (set_remove session_id ids) h.user_sessions),
        lookup-insert x.user_id u (set_remove session_id ids) h.user_sessions,
      )
    ]
  ]

  unregister-keyed :
      IsUnique (unregister h session_id).1.sessions
      × IsUnique (unregister h session_id).1.user_sessions
  unfolding unregister
  unregister-keyed = elim (Option-cases (lookup session_id h.sessions)) [
    | inl f ↦ ground (arith, remove-IsUnique session_id h.sessions v.keyed.0)
    | inr (x, f) ↦ elim (Option-cases (lookup x.user_id h.user_sessions)) [
      | inl g ↦ ground (arith, remove-IsUnique session_id h.sessions v.keyed.0)
      | inr (ids, g) ↦
          let kept =
            insert-IsUnique x.user_id (set_remove session_id ids) h.user_sessions v.keyed.1 in
          ground (
            arith,
            remove-IsUnique session_id h.sessions v.keyed.0,
            kept,
            remove-IsUnique x.user_id _ kept,
          )
    ]
  ]

  pub unregister-IsIndexed : IsIndexed (unregister h session_id).1
  unregister-IsIndexed = record {
    keyed = unregister-keyed;
    agree = unregister-agree;
    nonempty = unregister-nonempty;
  }

  pub subscribe-IsIndexed : (channel_id : ℕ) → IsIndexed (subscribe h session_id channel_id)
  unfolding subscribe
  subscribe-IsIndexed channel_id = record {
    keyed = elim (Option-cases (lookup session_id h.sessions)) [
      | inl e ↦ ground (arith, v.keyed)
      | inr (x, e) ↦ ground (
        arith,
        v.keyed,
        insert-IsUnique session_id
            (record x { subscriptions = set_insert channel_id x.subscriptions }) h.sessions,
      )
    ];
    agree = λ s u. elim (Option-cases (lookup session_id h.sessions)) [
      | inl e ↦ ground (arith, v.agree s u)
      | inr (x, e) ↦ ground (
        arith,
        v.agree s u,
        lookup-insert session_id s
            (record x { subscriptions = set_insert channel_id x.subscriptions }) h.sessions,
      )
    ];
    nonempty = λ u e. ground (arith, v.nonempty u);
  }

  pub unsubscribe-IsIndexed : (channel_id : ℕ) → IsIndexed (unsubscribe h session_id channel_id)
  unfolding unsubscribe
  unsubscribe-IsIndexed channel_id = record {
    keyed = elim (Option-cases (lookup session_id h.sessions)) [
      | inl e ↦ ground (arith, v.keyed)
      | inr (x, e) ↦ ground (
        arith,
        v.keyed,
        insert-IsUnique session_id
            (record x { subscriptions = set_remove channel_id x.subscriptions }) h.sessions,
      )
    ];
    agree = λ s u. elim (Option-cases (lookup session_id h.sessions)) [
      | inl e ↦ ground (arith, v.agree s u)
      | inr (x, e) ↦ ground (
        arith,
        v.agree s u,
        lookup-insert session_id s
            (record x { subscriptions = set_remove channel_id x.subscriptions }) h.sessions,
      )
    ];
    nonempty = λ u e. ground (arith, v.nonempty u);
  }

-- In a hub whose index is exact, a user is online exactly when some session of theirs is registered.
pub is_online_iff :
    (h : Hub) (u : ℕ) → IsIndexed h → (is_online h u ≡ true) ↔ ((s : ℕ) × (owns h s u ≡ true))
unfolding is_online contains
is_online_iff h u v = (to, from)
  where
    first : (ids : List ℕ) → lookup u h.user_sessions ≡ some ids → (s : ℕ) × (owns h s u ≡ true)
    first [] f = absurd (v.nonempty u f)
    first (s ∷ rest) f = (s, ground (arith, v.agree s u))

    to : is_online h u ≡ true → (s : ℕ) × (owns h s u ≡ true)
    to e = elim (Option-cases (lookup u h.user_sessions)) [
      | inl f ↦ absurd (ground arith)
      | inr (ids, f) ↦ first ids f
    ]

    from : ((s : ℕ) × (owns h s u ≡ true)) → is_online h u ≡ true
    from (s, o) = ground (arith, v.agree s u, contains-empty s)

-- In a hub whose index is exact, `unregister` of a registered session answers that its user went
-- offline exactly when the user is not online afterwards.
pub unregister_offline :
    (h : Hub) (session_id : ℕ) (x : Session)
    → IsIndexed h
    → lookup session_id h.sessions ≡ some x
    → (unregister h session_id).0 ≡ not (is_online (unregister h session_id).1 x.user_id)
unfolding unregister is_online
unregister_offline h session_id x v e = ground (
  arith,
  v.agree session_id x.user_id,
  contains-empty session_id,
  lookup-remove x.user_id x.user_id
      (insert x.user_id (set_remove session_id (sessions_of h x.user_id)) h.user_sessions),
  lookup-insert x.user_id x.user_id (set_remove session_id (sessions_of h x.user_id))
      h.user_sessions,
)

-- In a hub whose index is exact, the answers of `register` and `unregister` keep the number of
-- online users: it rises by one exactly when `register` answers that the session is the first, and
-- falls by one exactly when `unregister` answers that the user went offline.
pub online_count_lem :
    (h : Hub) (user_id tx session_id : ℕ)
    → IsIndexed h
    → let (h', first) = register h user_id tx session_id in
      let (now_offline, h'') = unregister h session_id in
      (online_count h' ≡ online_count h + (if first then 1 else 0))
      × (online_count h'' + (if now_offline then 1 else 0) ≡ online_count h)
unfolding online_count register unregister
online_count_lem h user_id tx session_id v = (added, dropped)
  where
    added :
        online_count (register h user_id tx session_id).0
        ≡ online_count h + (if (register h user_id tx session_id).1 then 1 else 0)
    added = ground (
      arith,
      length-insert user_id (set_insert session_id (sessions_of h user_id)) h.user_sessions,
      v.nonempty user_id,
      nil_of_is_empty (sessions_of h user_id),
    )

    dropped :
        online_count (unregister h session_id).1 + (if (unregister h session_id).0 then 1 else 0)
        ≡ online_count h
    dropped = elim (Option-cases (lookup session_id h.sessions)) [
      | inl f ↦ ground arith
      | inr (x, f) ↦ elim (Option-cases (lookup x.user_id h.user_sessions)) [
        | inl g ↦ ground arith
        | inr (ids, g) ↦
            let left = insert x.user_id (set_remove session_id ids) h.user_sessions in
            ground (
              arith,
              length-insert x.user_id (set_remove session_id ids) h.user_sessions,
              length-remove x.user_id left
                  (insert-IsUnique x.user_id (set_remove session_id ids) h.user_sessions v.keyed.1),
              lookup-insert x.user_id x.user_id (set_remove session_id ids) h.user_sessions,
            )
      ]
    ]
