-- ===== src/App/Types.antt =====
-- The environment and the state that the handlers share (state.rs, services/events.rs).
use rsmc_engine.Base.{ℕ, Bool, List, Text, Bytes, Option}
use rsmc_engine.Db.{Db}
use rsmc_engine.Hub.{Hub, Delivery}
use rsmc_engine.Models.{RoutedEvent, MessageView, JwtKeys}

-- The payload of a webhook event: `{ channel_id, message }` or `{ channel_id, message_id }`.
pub data WebhookPayload : Type 0 where
  of_message : ℕ → MessageView → WebhookPayload
  of_id : ℕ → ℕ → WebhookPayload

-- The JSON body of a delivery.
pub record Envelope : Type 0 where
  pub event : Text
  pub timestamp : ℕ
  pub payload : WebhookPayload

-- A POST to a webhook's target.
pub record Post : Type 0 where
  pub url : Text
  pub headers : List (Text × Text)
  pub body : Bytes

-- The volume of uploads and what surrounds it: the cap, the text of a UUID, whether the directory can
-- be made, a file created and written, and which texts may stand in an HTTP header.
pub record Storage : Type 0 where
  pub max_file_bytes : ℕ
  pub uuid_text : ℕ → Text
  pub dir_ready : Bool
  pub can_create : Text → Bool
  pub can_write : Text → Bool
  pub is_header : Text → Bool

-- What the code calls and does not implement: the n-th random UUID, the n-th reading of the clock,
-- whether the n-th statement is lost (connection, timeout), whether Redis is configured, and the
-- functions of Unicode tables: PostgreSQL's LOWER, its order of texts and its ILIKE, and Rust's
-- `to_lowercase` and `is_alphanumeric`; jsonwebtoken with the configured secret, Argon2, the URL-safe
-- base64 of a UUID and of the n-th 32 bytes drawn, serde_json's `to_vec`, and the validators of URLs
-- and email addresses. A call that fails gives none. The clock counts microseconds.
pub record Env : Type 0 where
  pub new_v4 : ℕ → ℕ
  pub clock : ℕ → ℕ
  pub fault : ℕ → Bool
  pub pubsub : Bool
  pub lower : Text → Text
  pub collate : Text → Text → Bool
  pub to_lowercase : Text → Text
  pub is_alphanumeric : ℕ → Bool
  pub ilike : (pattern text : Text) → Bool
  pub jwt : JwtKeys
  pub hash_argon2 : (salt : ℕ) → Text → Option Text
  pub verify_argon2 : (plain hash : Text) → Option Bool
  pub encode_uuid : ℕ → Text
  pub encode_random : ℕ → Text
  pub to_vec : Envelope → Option Bytes
  pub is_url : Text → Bool
  pub is_email : Text → Bool
  pub storage : Storage

-- What leaves the instance: an event handed to a session's sender, an event queued for Redis, a
-- delivery task for webhooks, a request to a webhook.
pub data Output : Type 0 where
  deliver : Delivery → Output
  publish : RoutedEvent → Output
  spawn_webhooks : Option ℕ → Text → WebhookPayload → Output
  post : Post → Output

pub record World : Type 0 where
  pub db : Db
  pub hub : Hub
  pub out : List Output
  pub disk : List (Text × Bytes)
  pub draws : ℕ
  pub ticks : ℕ
  pub stmts : ℕ
