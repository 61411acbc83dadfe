-- ===== src/Services/Notifications.antt =====
-- services/notifications.rs: storing a notification and pushing it; the mentions in a text.
use rsmc_engine.Base.{
  ℕ, Bool, ◌&&◌, ◌||◌, Option, none, some, List, [], ◌∷◌, ◌++◌, ◌==◌, leb, if◌then◌else◌, Text,
  text_eq, order_by, text_lt, byte_len, is_whitespace, any,
}
use rsmc_engine.Error.{unique_violation}
use rsmc_engine.Models.{NotificationKind, Payload, Notification, notification}
use rsmc_engine.Db.{Db, Sql, rows, fails, user_exists, references}
use rsmc_engine.App.{M, Env, ◌>>=◌, new_v4, now, execute}
use rsmc_engine.Services.Events.{emit_user}

unfoldable pub insert_notification : Notification → Db → Sql Notification
insert_notification n d =
    if any (λ x. x.id == n.id) d.notifications
    then fails unique_violation
    else references (user_exists n.user_id d)
        (rows n (record d { notifications = d.notifications ++ n ∷ [] }))

unfoldable pub notify : (user_id : ℕ) → NotificationKind → Payload → M (Unit {0})
unfolding insert_notification
notify user_id kind payload = do
  id ← new_v4
  at ← now
  n ← execute (
      insert_notification (record {
        id = id;
        user_id = user_id;
        kind = kind;
        payload = payload;
        read_at = none;
        created_at = at;
      }))
  emit_user user_id (notification n)

-- `content.split(|c| c.is_whitespace() || c == ',')`: the pieces between separators, at least one.
cut : ℕ → List Text → List Text
cut c [] = (c ∷ []) ∷ []
cut c (t ∷ ts) = (c ∷ t) ∷ ts

unfoldable pub tokens : Text → List Text
unfolding cut is_whitespace
tokens [] = [] ∷ []
tokens (c ∷ s) = if is_whitespace c || c == b',' then [] ∷ tokens s else cut c (tokens s)

name_char : Env → ℕ → Bool
name_char e c = e.is_alphanumeric c || c == b'_' || c == b'-' || c == b'.'

take_while : (ℕ → Bool) → Text → Text
take_while p [] = []
take_while p (c ∷ s) = if p c then c ∷ take_while p s else []

-- What one token mentions.
unfoldable pub mention_of : Env → Text → Option Text
unfolding name_char take_while
mention_of e [] = none
mention_of e (c ∷ name) =
    if c == b'@' && leb 3 (byte_len (take_while (name_char e) name))
    then some (e.to_lowercase (take_while (name_char e) name))
    else none

unfoldable pub collect : Env → List Text → List Text
unfolding mention_of
collect e [] = []
collect e (t ∷ ts) = elim (mention_of e t) [ none ↦ collect e ts | some m ↦ m ∷ collect e ts ]

-- `Vec::dedup`: equal neighbours become one.
unfoldable pub ahead : Text → List Text → List Text
ahead s [] = s ∷ []
ahead s (t ∷ ts) = if text_eq s t then t ∷ ts else s ∷ t ∷ ts

unfoldable pub dedup : List Text → List Text
unfolding ahead
dedup [] = []
dedup (s ∷ ts) = ahead s (dedup ts)

unfoldable pub extract_mentions : Env → Text → List Text
unfolding tokens collect dedup
extract_mentions e content = dedup (order_by text_lt (collect e (tokens content)))
