-- ===== src/Models/Integration.antt =====
-- models/webhook.rs, models/app_link.rs and the rows that have no type of their own in the
-- source: refresh_tokens, reactions and message_attachments of migrations/.
use rsmc_engine.Base.{ℕ, Bool, Option, List, Text}

pub record Webhook : Type 0 where
  pub id : ℕ
  pub owner_id : ℕ
  pub channel_id : Option ℕ
  pub target_url : Text
  pub events : List Text
  pub secret : Text
  pub is_active : Bool
  pub created_at : ℕ

pub record CreateWebhookRequest : Type 0 where
  pub target_url : Text
  pub events : List Text
  pub channel_id : Option ℕ

pub record CreateWebhookResponse : Type 0 where
  pub id : ℕ
  pub target_url : Text
  pub events : List Text
  pub secret : Text

pub record AppLink : Type 0 where
  pub id : ℕ
  pub name : Text
  pub url : Text
  pub position : ℕ
  pub created_at : ℕ

abbrev pub max_app_links : ℕ
max_app_links = 5

pub record CreateAppLinkRequest : Type 0 where
  pub name : Text
  pub url : Text

pub record RefreshToken : Type 0 where
  pub id : ℕ
  pub user_id : ℕ
  pub token_hash : Text
  pub expires_at : ℕ
  pub revoked : Bool

pub record Reaction : Type 0 where
  pub id : ℕ
  pub message_id : ℕ
  pub user_id : ℕ
  pub emoji : Text
  pub created_at : ℕ

pub record MessageAttachment : Type 0 where
  pub message_id : ℕ
  pub attachment_id : ℕ
