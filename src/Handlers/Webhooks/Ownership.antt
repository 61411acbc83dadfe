-- ===== src/Handlers/Webhooks/Ownership.antt =====
-- handlers/webhooks.rs: who may register a webhook, whose it is, and that it hears its events.
use rsmc_engine.Base.{
  ℕ, ◌≡◌, refl, ap, sym, ◌∙◌, subst, append_assoc, Bool, true, Option, some, List, [], ◌∷◌, ◌++◌,
  Text, Bytes, select, any, text_eq, arith, ◌==◌, Bool-cases, inl, inr,
}
use rsmc_engine.Error.{ok, Result}
use rsmc_engine.Models.{Webhook, CreateWebhookRequest, CreateWebhookResponse}
use rsmc_engine.Db.{Db, Sql, rows, fails}
use rsmc_engine.App.{
  Env, World, NoFaults, Triple, Makes, Whatever, skip-Triple, bind-Triple, pure-Triple,
  execute-Triple, Makes-references, Output, Post, post, Ends, WebhookPayload,
}
use rsmc_engine.Services.Access.{AuthUser}
use rsmc_engine.Services.Webhooks.{wants, in_scope, request, deliver}
use rsmc_engine.Services.Webhooks.Delivery.{posts, envelope, deliver-posts}
use rsmc_engine.Handlers.Webhooks.{new_webhook, store_webhook, create_webhook, insert_webhook}

-- The row that a registration leaves: the last one, with the answer's secret.
record Registered (req : CreateWebhookRequest) (resp : CreateWebhookResponse) (d : Db)
    : Type 0 where
  before : List Webhook
  hook : Webhook
  last : d.webhooks ≡ before ++ hook ∷ []
  active : hook.is_active ≡ true
  same_url : hook.target_url ≡ req.target_url
  same_events : hook.events ≡ req.events
  same_scope : hook.channel_id ≡ req.channel_id
  same_secret : hook.secret ≡ resp.secret

abbrev Last : Webhook → (before : List Webhook) → Webhook → Db → Type 0
Last h before h' d = (h' ≡ h) × (d.webhooks ≡ before ++ h ∷ [])

insert_webhook-Last : (h : Webhook) (d : Db) → Makes (Last h d.webhooks) (insert_webhook h d)
unfolding insert_webhook
insert_webhook-Last h d = elim (Bool-cases (any (λ x. x.id == h.id) d.webhooks)) [
  | inl taken ↦ rw taken tt
  | inr fresh ↦ rw fresh (Makes-references (Last h d.webhooks) _ (rows h _) (refl, refl))
]

create_webhook-Registered :
    (user : AuthUser) (req : CreateWebhookRequest)
    → Triple Whatever (create_webhook user req) (Registered req) Whatever
unfolding create_webhook store_webhook
create_webhook-Registered user req = skip-Triple _ λ valid. skip-Triple _ λ _. skip-Triple _ λ _.
    skip-Triple _ λ _. skip-Triple _ λ secret. skip-Triple _ λ id. skip-Triple _ λ at.
      (let hook = new_webhook user.id req secret id at in
        bind-Triple (λ h d. (before : List Webhook) × Last hook before h d)
          (execute-Triple (insert_webhook hook) (λ d _. tt)
            (λ d _. there hook d (insert_webhook hook d) (insert_webhook-Last hook d)))
          (λ h. pure-Triple _ (λ d (before, added). record {
            before = before;
            hook = hook;
            last = added.1;
            active = refl;
            same_url = refl;
            same_events = refl;
            same_scope = refl;
            same_secret = refl;
          })))
  where
    there :
        (hook : Webhook) (d : Db) (s : Sql Webhook)
        → Makes (Last hook d.webhooks) s
        → Makes (λ h d'. (before : List Webhook) × Last hook before h d') s
    there hook d (rows h d') m = (d.webhooks, m)
    there hook d (fails x) m = tt

select-last :
    (p : Webhook → Bool) (xs : List Webhook) (x : Webhook)
    → p x ≡ true
    → select p (xs ++ x ∷ []) ≡ select p xs ++ x ∷ []
select-last p [] x h = rw h refl
select-last p (y ∷ ys) x h = ground (arith, select-last p ys x h)

posts-append :
    (body : Bytes) (xs ys : List Webhook) → posts body (xs ++ ys) ≡ posts body xs ++ posts body ys
posts-append body [] ys = refl
posts-append body (x ∷ xs) ys = ap (λ outs. post (request body x) ∷ outs) (posts-append body xs ys)

Registered-wants :
    (c : Option ℕ) (name : Text) (req : CreateWebhookRequest) (resp : CreateWebhookResponse)
    (d : Db) (r : Registered req resp d)
    → any (λ x. text_eq x name) req.events ≡ true
    → in_scope c req.channel_id ≡ true
    → wants c name r.hook ≡ true
unfolding wants
Registered-wants c name req resp d r subscribed scoped =
    rw (r.active, r.same_events, r.same_scope, subscribed, scoped) refl

abbrev pub Posted : Result (Unit {0}) × World → Post → Type 0
Posted r p = (before : List Output) × (r.1.out ≡ before ++ post p ∷ [])

-- A webhook that was registered is sent the next event that it subscribes to, in its channel or
-- anywhere when it has none: once no statement is lost and the envelope can be serialized, the last
-- request that goes out has its URL, the body, and the signature by the secret that was answered. So
-- it does not matter whether the owner can see the channel, as docs/API.md says, and X-RSMC-Event is
-- `delivery` whatever the event.
pub create_webhook-deliver :
    (user : AuthUser) (req : CreateWebhookRequest) (e : Env) (w w' : World)
    (resp : CreateWebhookResponse) (c : Option ℕ) (name : Text) (payload : WebhookPayload)
    (e' : Env) (body : Bytes)
    → create_webhook user req e w ≡ (ok resp, w')
    → NoFaults e'
    → any (λ x. text_eq x name) req.events ≡ true
    → in_scope c req.channel_id ≡ true
    → e'.to_vec (envelope e' w' name payload) ≡ some body
    → (hook : Webhook) × (hook.target_url ≡ req.target_url)
      × (hook.secret ≡ resp.secret)
      × Posted (deliver c name payload e' w') (request body hook)
create_webhook-deliver user req e w w' resp c name payload e' body created faultless subscribed
      scoped h =
    (
      r.hook,
      r.same_url,
      r.same_secret,
      (
        w'.out ++ posts body (select (wants c name) r.before),
        (deliver-posts e' w' c name payload body faultless h).1
            ∙ rw
                (
                  r.last,
                  select-last (wants c name) r.before r.hook wanted,
                  posts-append body (select (wants c name) r.before) (r.hook ∷ []),
                )
                (sym (
                  append_assoc w'.out (posts body (select (wants c name) r.before))
                    (posts body (r.hook ∷ [])))),
      ),
    )
  where
    r : Registered req resp w'.db
    r =
        subst (Ends (Registered req) Whatever) created
          ((create_webhook-Registered user req).run e w tt)

    wanted : wants c name r.hook ≡ true
    wanted = Registered-wants c name req resp w'.db r subscribed scoped
