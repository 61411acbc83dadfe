-- ===== src/Db.antt =====
-- migrations/: the tables, as lists of rows in the order of insertion, with the constraints that
-- the statements of the code can meet.
use rsmc_engine.Base.{ℕ, Bool, List, if◌then◌else◌, any, ◌==◌}
use rsmc_engine.Error.{SqlError, foreign_key_violation}
use rsmc_engine.Models.{
  User, Channel, ChannelMember, Message, Attachment, MessageAttachment, Reaction, Notification,
  Webhook, AppLink, RefreshToken, Presence,
}

pub record Db : Type 0 where
  pub users : List User
  pub refresh_tokens : List RefreshToken
  pub channels : List Channel
  pub channel_members : List ChannelMember
  pub messages : List Message
  pub attachments : List Attachment
  pub message_attachments : List MessageAttachment
  pub reactions : List Reaction
  pub notifications : List Notification
  pub presence : List Presence
  pub webhooks : List Webhook
  pub app_links : List AppLink

-- What a statement does to the tables: a result, or an error that leaves them as they were.
pub data Sql {ℓ} (A : Type ℓ) : Type ℓ where
  rows : A → Db → Sql A
  fails : SqlError → Sql A

-- REFERENCES users(id), channels(id), messages(id).
abbrev pub user_exists : ℕ → Db → Bool
user_exists u d = any (λ x. x.id == u) d.users

abbrev pub channel_exists : ℕ → Db → Bool
channel_exists c d = any (λ x. x.id == c) d.channels

abbrev pub message_exists : ℕ → Db → Bool
message_exists m d = any (λ x. x.id == m) d.messages

abbrev pub references {ℓ} : {A : Type ℓ} → Bool → Sql A → Sql A
references b q = if b then q else fails foreign_key_violation
