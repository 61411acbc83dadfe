-- ===== src/Server/Recipients.antt =====
-- handlers/messages.rs, `dispatch_notifications`: the author of a message is not notified of it.
use rsmc_engine.Base.{
  ℕ, ◌≡◌, refl, Bool, true, false, Option, none, some, List, [], ◌∷◌, arith, ◌==◌, map, select,
  Text, count_where, count_where-append, All, inl, inr, Bool-cases,
}
use rsmc_engine.Models.{
  Message, MessageView, Notification, NotificationKind, Payload, direct_message, mention,
}
use rsmc_engine.Db.{Db}
use rsmc_engine.App.{
  Env, World, Keeps, Triple, Ends_db, Makes, bind-Keeps, bind-Triple, pure-Keeps, execute-Keeps,
  query-Keeps, new_v4-Triple, now-Triple, when-Triple, attempt-Triple, answer, attempt, query,
  execute, for_each,
}
use rsmc_engine.Services.Notifications.{notify, insert_notification, extract_mentions}
use rsmc_engine.Handlers.Messages.Alerts.{
  dispatch_notifications, try_notify, root_author, notify_direct, notify_root, notify_mentioned,
  notify_named, other_members, mentioned_members, or_none,
}
use rsmc_engine.Invariant.Shared.{emit_user-Keeps}

-- How many notifications the table holds for the user.
abbrev pub notified : (user_id : ℕ) → Db → ℕ
notified a d = count_where (λ n. n.user_id == a) d.notifications

module _ (a k : ℕ) where
  abbrev Spared : Db → Type 0
  Spared d = notified a d ≡ k

  abbrev Others : List ℕ → Type 0
  Others us = All (λ u. (u == a) ≡ false) us

  insert_notification-Spares :
      (n : Notification) (d : Db)
      → (n.user_id == a) ≡ false
      → Spared d
      → Makes (λ _. Spared) (insert_notification n d)
  unfolding insert_notification
  insert_notification-Spares n d other h = ground (
    arith,
    other,
    h,
    count_where-append (λ (x : Notification). x.user_id == a) d.notifications (n ∷ []),
  )

  notify-Spares :
      (u : ℕ) (x : NotificationKind) (p : Payload) → (u == a) ≡ false → Keeps Spared (notify u x p)
  unfolding notify
  notify-Spares u x p other = bind-Keeps new_v4-Triple λ i. bind-Keeps now-Triple λ at.
      bind-Keeps (execute-Keeps _ (λ d h. insert_notification-Spares _ d other h))
        λ n. emit_user-Keeps u _

  try_notify-Spares :
      (v : MessageView) (c : ℕ) (x : NotificationKind) (u : ℕ)
      → (u == a) ≡ false
      → Keeps Spared (try_notify v c x u)
  unfolding try_notify
  try_notify-Spares v c x u other =
      bind-Keeps (attempt-Triple (notify-Spares u x _ other)) λ _. pure-Keeps tt

  each-Spares :
      (v : MessageView) (c : ℕ) (x : NotificationKind) (us : List ℕ)
      → Others us
      → Keeps Spared (for_each us (try_notify v c x))
  unfolding for_each
  each-Spares v c x [] o = pure-Keeps tt
  each-Spares v c x (u ∷ us) o =
      bind-Keeps (try_notify-Spares v c x u o.0) λ _. each-Spares v c x us o.1

  abbrev Good : Option (List ℕ) → Type 0
  Good none = Unit {0}
  Good (some us) = Others us

  asked :
      (q : Db → List ℕ)
      → ((d : Db) → Others (q d))
      → Triple Spared (attempt (query q)) (λ o d. Spared d × Good o) Spared
  unfolding attempt query execute answer
  asked q good = record {
    run = λ e w p. elim (Bool-cases (e.fault w.stmts)) [
      | inl lost ↦ rw lost (p, tt)
      | inr there ↦ rw there (p, good w.db)
    ];
  }

  each-Good :
      (v : MessageView) (c : ℕ) (x : NotificationKind) (o : Option (List ℕ))
      → Triple
          (λ d. Spared d × Good o)
          (for_each (or_none o) (try_notify v c x))
          (λ _. Spared)
          Spared
  each-Good v c x none = record { run = λ e w p. (each-Spares v c x [] tt).run e w p.0 }
  each-Good v c x (some us) = record { run = λ e w p. (each-Spares v c x us p.1).run e w p.0 }

  others :
      {A : Type 0} (f : A → ℕ) (p : A → Bool)
      → ((x : A) → p x ≡ true → (f x == a) ≡ false)
      → (xs : List A) → Others (map f (select p xs))
  others f p h [] = tt
  others f p h (x ∷ xs) = elim (Bool-cases (p x)) [
    | inl e ↦ rw e (h x e, others f p h xs)
    | inr e ↦ rw e (others f p h xs)
  ]

module _ (v : MessageView) (k c : ℕ) where
  abbrev author : ℕ
  author = v.message.user_id

  direct-Spares : Keeps (Spared author k) (notify_direct v c)
  unfolding notify_direct other_members
  direct-Spares = bind-Keeps (attempt-Triple (query-Keeps _)) λ ctype. when-Triple _ (
      bind-Triple (λ o d. Spared author k d × Good author k o)
        (asked author k (other_members c author)
          (λ d. others author k _ _ (λ m e. ground arith) d.channel_members))
        (each-Good author k v c direct_message))

  root-Spares : (o : Option (Option Message)) → Keeps (Spared author k) (root_author v c o)
  unfolding root_author
  root-Spares none = pure-Keeps tt
  root-Spares (some none) = pure-Keeps tt
  root-Spares (some (some r)) = elim (Bool-cases (r.user_id == author)) [
    | inl same ↦ rw same (pure-Keeps tt)
    | inr other ↦ rw other (try_notify-Spares author k v c _ r.user_id other)
  ]

  named-Spares : (e : Env) (ms : List Text) → Keeps (Spared author k) (notify_named e ms v c)
  unfolding notify_named mentioned_members
  named-Spares e ms = when-Triple _ (
      bind-Triple (λ o d. Spared author k d × Good author k o)
        (asked author k (mentioned_members e ms c author)
          (λ d. others author k _ _ (λ u h. ground arith) d.users))
        (each-Good author k v c mention))

  mentioned-Spares : Keeps (Spared author k) (notify_mentioned v c)
  unfolding notify_mentioned
  mentioned-Spares = record {
    run = λ e w p. (named-Spares e (extract_mentions e v.message.content)).run e w p;
  }

  dispatch-Spares : (p : Option ℕ) → Keeps (Spared author k) (dispatch_notifications c v p)
  unfolding dispatch_notifications notify_root
  dispatch-Spares none = bind-Keeps direct-Spares λ _. mentioned-Spares
  dispatch-Spares (some p) =
      bind-Keeps (bind-Keeps (attempt-Triple (query-Keeps _)) root-Spares) λ _. mentioned-Spares

-- A new message leaves its author's notifications as many as they were, be it a direct message, a reply
-- in the author's own thread or a mention of the author, and whichever statements are lost.
pub dispatch_notifications-spares :
    (c : ℕ) (v : MessageView) (p : Option ℕ) (e : Env) (w : World)
    → notified v.message.user_id (dispatch_notifications c v p e w).1.db
      ≡ notified v.message.user_id w.db
dispatch_notifications-spares c v p e w =
    Ends_db (Spared v.message.user_id (notified v.message.user_id w.db))
      (dispatch_notifications c v p e w)
      ((dispatch-Spares v (notified v.message.user_id w.db) c p).run e w refl)
