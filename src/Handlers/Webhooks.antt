-- ===== src/Handlers/Webhooks.antt =====
-- handlers/webhooks.rs: registering, listing and deleting webhooks.
pub mod Ownership
pub mod Guards
use rsmc_engine.Base.{
  ℕ, suc, Bool, true, false, not, ◌&&◌, ◌||◌, Option, none, some, List, [], ◌∷◌, ◌++◌, Text, text,
  ◌==◌, if◌then◌else◌, any, select, delete_where, order_by, ltb, is_some, leb, length,
}
use rsmc_engine.Error.{forbidden, not_found, validation, unique_violation, ok}
use rsmc_engine.Models.{Webhook, Permission, can, CreateWebhookRequest, CreateWebhookResponse}
use rsmc_engine.Db.{Db, Sql, rows, fails, references, user_exists, channel_exists}
use rsmc_engine.App.{M, Env, World, pure, ◌>>=◌, ◌>>◌, fail_if, asks, new_v4, now, query, execute}
use rsmc_engine.Services.Access.{AuthUser, require_channel_admin}

-- 32 bytes drawn, in base64.
unfoldable pub generate_secret : M Text
generate_secret e w = (ok (e.encode_random w.draws), record w { draws = suc w.draws })

-- `#[validate(url)]`, `#[validate(length(min = 1))]`
abbrev pub valid_webhook : Env → CreateWebhookRequest → Bool
valid_webhook e req = e.is_url req.target_url && leb 1 (length req.events)

-- Admins, and for a channel its own admins.
unfoldable pub may_register : AuthUser → (channel_id : Option ℕ) → M (Unit {0})
may_register user channel_id =
    fail_if (not (can user.role Permission.manage_webhooks || is_some channel_id))
      (forbidden "instance-wide webhooks require admin")

unfoldable pub administers : AuthUser → (channel_id : Option ℕ) → M (Unit {0})
administers user none = pure tt
administers user (some cid) = require_channel_admin cid user.id

unfoldable pub insert_webhook : Webhook → Db → Sql Webhook
insert_webhook h d =
    if any (λ x. x.id == h.id) d.webhooks
    then fails unique_violation
    else references (user_exists h.owner_id d && scope_exists h.channel_id d)
        (rows h (record d { webhooks = d.webhooks ++ h ∷ [] }))
  where
    scope_exists : Option ℕ → Db → Bool
    scope_exists none d' = true
    scope_exists (some c) d' = channel_exists c d'

abbrev pub new_webhook :
    (owner_id : ℕ) → CreateWebhookRequest → (secret : Text) (id at : ℕ) → Webhook
new_webhook owner_id req secret id at = record {
  id = id;
  owner_id = owner_id;
  channel_id = req.channel_id;
  target_url = req.target_url;
  events = req.events;
  secret = secret;
  is_active = true;
  created_at = at;
}

unfoldable pub store_webhook : AuthUser → CreateWebhookRequest → M CreateWebhookResponse
unfolding generate_secret insert_webhook
store_webhook user req = do
  secret ← generate_secret
  id ← new_v4
  at ← now
  webhook ← execute (insert_webhook (new_webhook user.id req secret id at))
  pure (record {
    id = webhook.id;
    target_url = webhook.target_url;
    events = webhook.events;
    secret = secret;
  })

unfoldable pub create_webhook : AuthUser → CreateWebhookRequest → M CreateWebhookResponse
unfolding may_register administers store_webhook
create_webhook user req = do
  valid ← asks (λ e. valid_webhook e req)
  fail_if (not valid) validation
  may_register user req.channel_id
  administers user req.channel_id
  store_webhook user req

unfoldable pub list_webhooks : AuthUser → M (List Webhook)
list_webhooks user = query (λ d.
    order_by (λ a b. ltb b.created_at a.created_at)
      (select (λ h. h.owner_id == user.id) d.webhooks))

abbrev pub is_own : (id user_id : ℕ) → Webhook → Bool
is_own id u h = h.id == id && h.owner_id == u

-- DELETE … WHERE id = $1 AND owner_id = $2, and whether a row was there.
unfoldable pub delete_row : (id user_id : ℕ) → Db → Sql Bool
delete_row id u d =
    rows (any (is_own id u) d.webhooks)
      (record d { webhooks = delete_where (is_own id u) d.webhooks })

unfoldable pub delete_webhook : AuthUser → (id : ℕ) → M (Unit {0})
unfolding delete_row
delete_webhook user id = do
  affected ← execute (delete_row id user.id)
  fail_if (not affected) (not_found "webhook")
