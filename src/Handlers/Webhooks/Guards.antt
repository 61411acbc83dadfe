-- ===== src/Handlers/Webhooks/Guards.antt =====
-- handlers/webhooks.rs: who may register a webhook, and that nobody touches another's.
use rsmc_engine.Base.{
  ℕ, ◌≡◌, refl, ◌∙◌, Text, Bool, true, false, not, ◌||◌, is_some, Option, none, some, List, [], ◌∷◌,
  ◌++◌, select, any, arith, ◌==◌, delete_where, delete_where_of_not_any, ap, Bool-cases, inl, inr,
}
use rsmc_engine.Models.{Webhook, Permission, can, CreateWebhookRequest}
use rsmc_engine.Db.{Db, rows}
use rsmc_engine.App.{
  Keeps, execute, answer, ◌>>=◌, Makes, Makes-references, keeping, execute-Keeps, Refuses,
  asks-Refuses, fail_if-Refuses, first-Refuses, never-Refuses, pure-Keeps,
}
use rsmc_engine.Services.Access.{AuthUser}
use rsmc_engine.Services.Access.Denials.{is_manager, require_channel_admin-Refuses}
use rsmc_engine.Services.Access.Frames.{require_channel_admin-Keeps}
use rsmc_engine.Handlers.Webhooks.{
  new_webhook, store_webhook, create_webhook, administers, may_register, insert_webhook,
  delete_webhook, delete_row, is_own, generate_secret,
}

-- What the API promises: an admin for the whole instance, and for a channel its own managers.
abbrev pub may_hook : AuthUser → (channel_id : Option ℕ) → Db → Bool
may_hook user none d = can user.role Permission.manage_webhooks
may_hook user (some c) d = is_manager c user.id d

administers-Refuses :
    (user : AuthUser) (c : Option ℕ)
    → (c ≡ none → can user.role Permission.manage_webhooks ≡ true)
    → Refuses (λ d. may_hook user c d ≡ false) (administers user c)
unfolding administers
administers-Refuses user none h = never-Refuses (λ d p. ground (arith, h refl, p))
administers-Refuses user (some c) h = require_channel_admin-Refuses c user.id (λ d p. p)

instance_wide : (r : Bool) (c : Option ℕ) → not (r || is_some c) ≡ false → c ≡ none → r ≡ true
instance_wide r none h e = ground (arith, h)
instance_wide r (some x) h e = cc

-- A user who may not register a webhook for a scope is answered with an error, and the tables
-- and the output stay as they were.
pub create_webhook-Refuses :
    (user : AuthUser) (req : CreateWebhookRequest)
    → Refuses (λ d. may_hook user req.channel_id d ≡ false) (create_webhook user req)
unfolding create_webhook may_register
create_webhook-Refuses user req = asks-Refuses _ λ valid. fail_if-Refuses _ _ _ λ _.
    fail_if-Refuses _ _ _ λ may.
      first-Refuses _ (administers-Refuses user req.channel_id (instance_wide _ req.channel_id may))

-- A user who deletes a webhook that is not the user's own is answered with an error, and nothing
-- changes.
pub delete_webhook-Refuses :
    (user : AuthUser) (id : ℕ)
    → Refuses (λ d. any (is_own id user.id) d.webhooks ≡ false) (delete_webhook user id)
unfolding delete_webhook delete_row ◌>>=◌ execute answer
delete_webhook-Refuses user id = record {
  run = λ e w foreign. elim (Bool-cases (e.fault w.stmts)) [
    | inl lost ↦ rw lost (refl, refl, refl, refl, refl)
    | inr there ↦
        rw (there, foreign)
          (
            refl,
            ap (λ hooks. record w.db { webhooks = hooks })
                (delete_where_of_not_any (is_own id user.id) w.db.webhooks foreign),
            refl,
            refl,
            refl,
          )
  ];
}

abbrev is_other : (user_id : ℕ) → Webhook → Bool
is_other u h = not (h.owner_id == u)

-- The webhooks of everyone else.
abbrev pub Others : (user_id : ℕ) → List Webhook → Db → Type 0
Others u hooks d = select (is_other u) d.webhooks ≡ hooks

others-append :
    (u : ℕ) (xs : List Webhook) (x : Webhook)
    → is_other u x ≡ false
    → select (is_other u) (xs ++ x ∷ []) ≡ select (is_other u) xs
others-append u [] x h = rw h refl
others-append u (y ∷ ys) x h = ground (arith, others-append u ys x h)

others-delete :
    (id u : ℕ) (xs : List Webhook)
    → select (is_other u) (delete_where (is_own id u) xs) ≡ select (is_other u) xs
others-delete id u [] = refl
others-delete id u (x ∷ xs) = ground (arith, others-delete id u xs)

insert-Others :
    (u : ℕ) (hooks : List Webhook) (h : Webhook)
    → is_other u h ≡ false
    → (d : Db) → Others u hooks d
    → Makes (λ _. Others u hooks) (insert_webhook h d)
unfolding insert_webhook
insert-Others u hooks h own d same = elim (Bool-cases (any (λ x. x.id == h.id) d.webhooks)) [
  | inl taken ↦ rw taken tt
  | inr fresh ↦ rw fresh (
      Makes-references (λ _. Others u hooks) _ (rows h _) (others-append u d.webhooks h own ∙ same))
]

generate_secret-Keeps : {P : Db → Type 0} → Keeps P generate_secret
unfolding generate_secret
generate_secret-Keeps = record { run = λ e w p. p }

administers-Keeps :
    {P : Db → Type 0} (user : AuthUser) (c : Option ℕ) → Keeps P (administers user c)
unfolding administers
administers-Keeps user none = pure-Keeps tt
administers-Keeps user (some c) = require_channel_admin-Keeps c user.id

insert_webhook-Others :
    (u : ℕ) (req : CreateWebhookRequest) (hooks : List Webhook) (secret : Text) (id at : ℕ)
    → Keeps (Others u hooks) (execute (insert_webhook (new_webhook u req secret id at)))
insert_webhook-Others u req hooks secret id at =
    execute-Keeps (insert_webhook (new_webhook u req secret id at))
      (insert-Others u hooks (new_webhook u req secret id at) (ground arith))

delete_row-Others :
    (id u : ℕ) (hooks : List Webhook) → Keeps (Others u hooks) (execute (delete_row id u))
unfolding delete_row
delete_row-Others id u hooks =
    execute-Keeps (delete_row id u) (λ d same. others-delete id u d.webhooks ∙ same)

store-Others :
    (user : AuthUser) (req : CreateWebhookRequest) (hooks : List Webhook)
    → Keeps (Others user.id hooks) (store_webhook user req)
unfolding store_webhook
store-Others user req hooks = search (keeping, generate_secret-Keeps, insert_webhook-Others)

-- Whatever a user registers or deletes, and however the call ends, the webhooks of every other
-- user stay as they were.
pub webhooks-Others :
    (user : AuthUser) (req : CreateWebhookRequest) (id : ℕ) (hooks : List Webhook)
    → Keeps (Others user.id hooks) (create_webhook user req)
      × Keeps (Others user.id hooks) (delete_webhook user id)
unfolding create_webhook may_register delete_webhook
webhooks-Others user req id hooks =
    (search (keeping, administers-Keeps, store-Others), search (keeping, delete_row-Others))
