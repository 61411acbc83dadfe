-- ===== src/Handlers/Messages/Alerts.antt =====
-- handlers/messages.rs, `dispatch_notifications`: whom a new message notifies. Every failure is
-- dropped, so that the message is answered all the same.
use rsmc_engine.Base.{
  ℕ, Bool, true, false, not, ◌&&◌, Option, none, some, List, [], ◌∷◌, ◌==◌, map, Text, text_eq,
  select, any, find,
}
use rsmc_engine.Models.{
  MessageView, Message, Channel, ChannelType, NotificationKind, direct_message, thread_reply,
  mention,
}
use rsmc_engine.Db.{Db}
use rsmc_engine.App.{M, Env, pure, ◌>>=◌, ◌>>◌, attempt, when, query, for_each}
use rsmc_engine.Services.Access.{is_row}
use rsmc_engine.Services.Notifications.{notify, extract_mentions}
use rsmc_engine.Handlers.Messages.Store.{with_id}

-- `let _ = notifications::notify(…)`
unfoldable pub try_notify :
    MessageView → (channel_id : ℕ) → NotificationKind → (user_id : ℕ) → M (Unit {0})
try_notify view channel_id kind uid =
    attempt (
      notify uid kind (record {
        channel_id = channel_id;
        message_id = some view.message.id;
        actor_id = view.message.user_id;
      }))
    >> pure tt

-- `if let Ok(rows) = …`, with no rows for an error.
abbrev pub or_none {ℓ} : {A : Type ℓ} → Option (List A) → List A
or_none none = []
or_none (some xs) = xs

abbrev is_direct : ChannelType → Bool
is_direct ChannelType.direct = true
is_direct _ = false

abbrev direct_row : Option (Option Channel) → Bool
direct_row (some (some c)) = is_direct c.channel_type
direct_row (some none) = false
direct_row none = false

unfoldable pub other_members : (channel_id user_id : ℕ) → Db → List ℕ
other_members channel_id user_id d =
    map (λ m. m.user_id)
      (select (λ m. m.channel_id == channel_id && not (m.user_id == user_id)) d.channel_members)

unfoldable pub notify_direct : MessageView → (channel_id : ℕ) → M (Unit {0})
unfolding try_notify other_members
notify_direct view channel_id = do
  ctype ← attempt (query (λ d. find (λ c. c.id == channel_id) d.channels))
  when (direct_row ctype) (do
    members ← attempt (query (other_members channel_id view.message.user_id))
    for_each (or_none members) (try_notify view channel_id direct_message))

unfoldable pub root_author : MessageView → (channel_id : ℕ) → Option (Option Message) → M (Unit {0})
unfolding try_notify
root_author view channel_id (some (some root)) =
    when (not (root.user_id == view.message.user_id))
      (try_notify view channel_id thread_reply root.user_id)
root_author view channel_id (some none) = pure tt
root_author view channel_id none = pure tt

unfoldable pub notify_root : MessageView → (channel_id parent : ℕ) → M (Unit {0})
unfolding root_author
notify_root view channel_id parent = do
  author ← attempt (query (λ d. find (with_id parent) d.messages))
  root_author view channel_id author

-- Members of the channel, but for the author, whose lowercase name is mentioned.
unfoldable pub mentioned_members :
    Env → (mentions : List Text) → (channel_id author : ℕ) → Db → List ℕ
mentioned_members e mentions channel_id author d =
    map (λ u. u.id)
      (select
        (λ u.
          (any (is_row channel_id u.id) d.channel_members
            && any (text_eq (e.lower u.username)) mentions)
          && not (u.id == author))
        d.users)

abbrev is_nil : List Text → Bool
is_nil [] = true
is_nil (t ∷ ts) = false

unfoldable pub notify_named : Env → List Text → MessageView → (channel_id : ℕ) → M (Unit {0})
unfolding try_notify mentioned_members
notify_named e mentions view channel_id = when (not (is_nil mentions)) (do
  found ← attempt (query (mentioned_members e mentions channel_id view.message.user_id))
  for_each (or_none found) (try_notify view channel_id mention))

unfoldable pub notify_mentioned : MessageView → (channel_id : ℕ) → M (Unit {0})
unfolding notify_named
notify_mentioned view channel_id e =
    notify_named e (extract_mentions e view.message.content) view channel_id e

unfoldable pub dispatch_notifications : (channel_id : ℕ) → MessageView → Option ℕ → M (Unit {0})
unfolding notify_direct notify_root notify_mentioned
dispatch_notifications channel_id view none =
    notify_direct view channel_id >> notify_mentioned view channel_id
dispatch_notifications channel_id view (some parent) =
    notify_root view channel_id parent >> notify_mentioned view channel_id
