-- ===== src/Models/Messages.antt =====
-- models/message.rs and models/file.rs: messages, attachments, reactions, and history queries.
use rsmc_engine.Base.{ℕ, Option, List, Text, Bool, ◌&&◌, leb, length}
use rsmc_engine.Base.Int.{ℤ, pos, clamp, pos_part}
use rsmc_engine.Models.Users.{UserPublic}

pub record Message : Type 0 where
  pub id : ℕ
  pub channel_id : ℕ
  pub user_id : ℕ
  pub content : Text
  pub parent_id : Option ℕ
  pub reply_count : ℕ
  pub edited_at : Option ℕ
  pub deleted_at : Option ℕ
  pub created_at : ℕ

pub record Attachment : Type 0 where
  pub id : ℕ
  pub uploader_id : ℕ
  pub channel_id : Option ℕ
  pub filename : Text
  pub content_type : Text
  pub size_bytes : ℕ
  pub storage_path : Text
  pub created_at : ℕ

pub record ReactionGroup : Type 0 where
  pub emoji : Text
  pub count : ℕ
  pub user_ids : List ℕ

pub record MessageView : Type 0 where
  pub message : Message
  pub author : UserPublic
  pub attachments : List Attachment
  pub reactions : List ReactionGroup

pub record SendMessageRequest : Type 0 where
  pub content : Text
  pub parent_id : Option ℕ
  pub attachment_ids : List ℕ

pub record HistoryQuery : Type 0 where
  pub before : Option ℕ
  pub after : Option ℕ
  pub limit : ℤ

-- `HistoryQuery::clamped_limit`; the result lies between 1 and 200, so it is read as a number.
unfoldable pub clamped_limit : HistoryQuery → ℕ
clamped_limit q = pos_part (clamp (pos 1) (pos 200) q.limit)

pub record HistoryResponse : Type 0 where
  pub messages : List MessageView
  pub next_cursor : Option ℕ

-- `#[validate(length(…))]` counts characters.
unfoldable pub valid_send : SendMessageRequest → Bool
valid_send req = leb (length req.content) 8000

pub record EditMessageRequest : Type 0 where
  pub content : Text

unfoldable pub valid_edit : EditMessageRequest → Bool
valid_edit req = leb 1 (length req.content) && leb (length req.content) 8000

pub record ReactionRequest : Type 0 where
  pub emoji : Text

unfoldable pub valid_reaction : ReactionRequest → Bool
valid_reaction req = leb 1 (length req.emoji) && leb (length req.emoji) 32
