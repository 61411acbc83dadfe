-- ===== src/Services/Webhooks.antt =====
-- services/webhooks.rs: deliveries to webhooks and their signature.
pub mod Sha256
pub mod Hmac
pub mod Padding
pub mod Hex
pub mod Delivery
use rsmc_engine.Base.{
  ℕ, Bool, true, false, ◌&&◌, Option, none, some, List, [], ◌∷◌, Text, text, text_eq, ◌==◌, any,
  select, map, as_bytes, Bytes,
}
use rsmc_engine.Error.{serialization}
use rsmc_engine.Models.{Webhook}
use rsmc_engine.Db.{Db}
use rsmc_engine.App.{
  M, pure, ◌>>=◌, ◌>>◌, or_fail, now, query, emit, Env, WebhookPayload, Envelope, Post, post,
}
use Hmac.{signature}

-- channel_id IS NULL OR channel_id = $2, where $2 may be NULL.
abbrev pub in_scope : (channel_id scope : Option ℕ) → Bool
in_scope channel_id none = true
in_scope none (some c) = false
in_scope (some c') (some c) = c == c'

-- is_active AND $1 = ANY(events) AND the scope
unfoldable pub wants : (channel_id : Option ℕ) → (event_name : Text) → Webhook → Bool
wants channel_id event_name h =
    h.is_active && any (λ x. text_eq x event_name) h.events && in_scope channel_id h.channel_id

unfoldable pub request : Bytes → Webhook → Post
request body hook = record {
  url = hook.target_url;
  headers =
      (text "Content-Type", text "application/json")
      ∷ (text "X-RSMC-Event", text "delivery")
      ∷ (text "X-Signature", signature (as_bytes hook.secret) body)
      ∷ [];
  body = body;
}

-- `serde_json::to_vec` of the environment.
unfoldable pub serialized : Envelope → M Bytes
serialized envelope e w = or_fail (e.to_vec envelope) serialization e w

unfoldable pub send_all : (event_name : Text) → WebhookPayload → List Webhook → M (Unit {0})
unfolding serialized
send_all event_name payload [] = pure tt
send_all event_name payload (hook ∷ hooks) = do
  at ← now
  body ← serialized (record { event = event_name; timestamp = at; payload = payload })
  emit (λ _ _. map (λ h. post (request body h)) (hook ∷ hooks))

unfoldable pub deliver :
    (channel_id : Option ℕ) → (event_name : Text) → WebhookPayload → M (Unit {0})
unfolding send_all
deliver channel_id event_name payload = do
  hooks ← query (λ d. select (wants channel_id event_name) d.webhooks)
  send_all event_name payload hooks
