-- ===== src/Invariant/Shared.antt =====
-- What the handlers share keeps every property of the tables that does not speak of notifications.
use rsmc_engine.Base.{ℕ, Option, none, some, List, [], ◌∷◌, arith, HashMap, lookup, remove, ◌++◌}
use rsmc_engine.Models.{
  Message, NotificationKind, Payload, Notification, MessageView, Attachment, ReactionGroup,
  UserPublic, ServerEvent,
}
use rsmc_engine.Db.{Db}
use rsmc_engine.App.{
  Env, Keeps, bind-Keeps, pure-Keeps, execute-Keeps, new_v4-Triple, now-Triple, keeping,
}
use rsmc_engine.Services.Events.{emit_channel, emit_user}
use rsmc_engine.Services.Notifications.{notify, insert_notification, extract_mentions}
use rsmc_engine.Handlers.Messages.Enrich.{enrich, enrich_one, enrich_all, views, author_or, one}
use rsmc_engine.Handlers.Messages.Alerts.{
  dispatch_notifications, try_notify, root_author, notify_direct, notify_root, notify_mentioned,
  notify_named,
}
use rsmc_engine.Handlers.Messages.{message_channel}
use rsmc_engine.Invariant.{IsSound}

module _ {P : Db → Type 0} where
  views-Keeps :
      (us : HashMap UserPublic) (as' : HashMap (List Attachment))
      (rs : HashMap (List ReactionGroup)) (ms : List Message)
      → Keeps P (views us as' rs ms)
  unfolding views
  views-Keeps us as' rs [] = search keeping
  views-Keeps us as' rs (m ∷ ms) =
      bind-Keeps (author_or-Keeps m.user_id (lookup m.user_id us))
        (λ a. bind-Keeps (views-Keeps us (remove m.id as') (remove m.id rs) ms) (λ v. pure-Keeps _))
    where
      author_or-Keeps : (i : ℕ) (o : Option UserPublic) → Keeps P (author_or i o)
      author_or-Keeps i none = search keeping
      author_or-Keeps i (some u) = search keeping

  pub enrich-Keeps : (ms : List Message) → Keeps P (enrich ms)
  unfolding enrich enrich_all
  enrich-Keeps [] = search keeping
  enrich-Keeps (m ∷ ms) = search (keeping, views-Keeps)

  one-Keeps : (vs : List MessageView) → Keeps P (one vs)
  unfolding one
  one-Keeps [] = search keeping
  one-Keeps (v ∷ vs) = search keeping

  pub enrich_one-Keeps : (m : Message) → Keeps P (enrich_one m)
  unfolding enrich_one
  enrich_one-Keeps m = search (keeping, enrich-Keeps, one-Keeps)

  pub emit_channel-Keeps : (c : ℕ) (x : ServerEvent) → Keeps P (emit_channel c x)
  unfolding emit_channel
  emit_channel-Keeps c x = search keeping

  pub emit_user-Keeps : (u : ℕ) (x : ServerEvent) → Keeps P (emit_user u x)
  unfolding emit_user
  emit_user-Keeps u x = search keeping

  pub message_channel-Keeps : (i : ℕ) → Keeps P (message_channel i)
  unfolding message_channel
  message_channel-Keeps i = search keeping

-- An invariant that does not speak of notifications.
module _ {P : Db → Type 0}
    (blind : (d : Db) (ns : List Notification) → P d → P (record d { notifications = ns })) where
  pub notify-Keeps : (u : ℕ) (k : NotificationKind) (p : Payload) → Keeps P (notify u k p)
  unfolding notify insert_notification
  notify-Keeps u k p = bind-Keeps new_v4-Triple (λ i. bind-Keeps now-Triple (λ at.
      bind-Keeps
        (execute-Keeps _ (λ d h. ground (
          arith,
          blind d
              (d.notifications
                ++ record {
                  id = i;
                  user_id = u;
                  kind = k;
                  payload = p;
                  read_at = none;
                  created_at = at;
                }
                  ∷ [])
              h,
        )))
        (λ n. emit_user-Keeps u _)))

  try_notify-Keeps :
      (v : MessageView) (c : ℕ) (k : NotificationKind) (u : ℕ) → Keeps P (try_notify v c k u)
  unfolding try_notify
  try_notify-Keeps v c k u = search (keeping, notify-Keeps)

  root_author-Keeps :
      (v : MessageView) (c : ℕ) (o : Option (Option Message)) → Keeps P (root_author v c o)
  unfolding root_author
  root_author-Keeps v c none = search keeping
  root_author-Keeps v c (some none) = search keeping
  root_author-Keeps v c (some (some r)) = search (keeping, try_notify-Keeps)

  mentioned-Keeps : (v : MessageView) (c : ℕ) → Keeps P (notify_mentioned v c)
  unfolding notify_mentioned
  mentioned-Keeps v c = record { run = λ e w p. (named e).run e w p }
    where
      named : (e : Env) → Keeps P (notify_named e (extract_mentions e v.message.content) v c)
      named e = search (keeping, try_notify-Keeps)

  pub dispatch_notifications-Keeps :
      (c : ℕ) (v : MessageView) (p : Option ℕ) → Keeps P (dispatch_notifications c v p)
  unfolding dispatch_notifications notify_direct notify_root
  dispatch_notifications-Keeps c v none =
      search (keeping, try_notify-Keeps, mentioned-Keeps) depth 12
  dispatch_notifications-Keeps c v (some p) =
      search (keeping, root_author-Keeps, mentioned-Keeps) depth 12

-- The invariant of the tables does not speak of notifications.
pub notifications_apart :
    (d : Db) (ns : List Notification) → IsSound d → IsSound (record d { notifications = ns })
notifications_apart d ns h = record {
  threaded = h.threaded;
  reacted_once = h.reacted_once;
  joined_once = h.joined_once;
}
