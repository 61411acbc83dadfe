-- ===== src/Services/Webhooks/Delivery.antt =====
-- services/webhooks.rs, `deliver`: which webhooks an event reaches.
use rsmc_engine.Base.{
  ℕ, suc, ◌≡◌, refl, Option, some, List, [], ◌∷◌, ◌++◌, Text, Bytes, map, select, append-nil, sym,
  none, true, ◌⊎◌, ◌↔◌, any, text_eq, text_eq_iff, Bool-cases, inl, inr, ap, arith, eq→==,
}
use rsmc_engine.Error.{ok, Result}
use rsmc_engine.Models.{Webhook}
use rsmc_engine.App.{
  Env, World, NoFaults, ◌>>=◌, execute, query, answer, now, emit, WebhookPayload, Envelope, Output,
  post,
}
use rsmc_engine.Services.Webhooks.{wants, in_scope, request, serialized, send_all, deliver}

abbrev pub posts : Bytes → List Webhook → List Output
posts body hooks = map (λ h. post (request body h)) hooks

abbrev pub envelope : Env → World → Text → WebhookPayload → Envelope
envelope e w name payload = record { event = name; timestamp = e.clock w.ticks; payload = payload }

abbrev pub Sent : World → List Output → Result (Unit {0}) × World → Type 0
Sent w outs r = (r.0 ≡ ok tt) × (r.1.out ≡ w.out ++ outs) × (r.1.db ≡ w.db) × (r.1.hub ≡ w.hub)

send_all-Sent :
    (e : Env) (w : World) (name : Text) (payload : WebhookPayload) (body : Bytes)
    (hooks : List Webhook)
    → e.to_vec (envelope e w name payload) ≡ some body
    → Sent w (posts body hooks) (send_all name payload hooks e w)
unfolding send_all serialized ◌>>=◌ now emit
send_all-Sent e w name payload body [] h = (refl, sym (append-nil w.out), refl, refl)
send_all-Sent e w name payload body (x ∷ xs) h = rw h (refl, refl, refl, refl)

-- A delivery sends what the query selects.
pub deliver-posts :
    (e : Env) (w : World) (c : Option ℕ) (name : Text) (payload : WebhookPayload) (body : Bytes)
    → NoFaults e
    → e.to_vec (envelope e w name payload) ≡ some body
    → Sent w (posts body (select (wants c name) w.db.webhooks)) (deliver c name payload e w)
unfolding deliver ◌>>=◌ query execute answer
deliver-posts e w c name payload body faultless h = rw (faultless w.stmts) (
    send_all-Sent e (record w { stmts = suc w.stmts }) name payload body
      (select (wants c name) w.db.webhooks) h)

-- Among the events of a webhook.
abbrev pub Listed : Text → List Text → Type 0
Listed name [] = ⊥
Listed name (x ∷ xs) = (x ≡ name) ⊎ Listed name xs

-- A webhook that is active, subscribes to the event, and has the event's channel or none.
abbrev pub Wanted : Option ℕ → Text → Webhook → Type 0
Wanted c name h =
    (h.is_active ≡ true)
    × Listed name h.events
    × ((h.channel_id ≡ none) ⊎ ((k : ℕ) × (c ≡ some k) × (h.channel_id ≡ some k)))

-- The second list is the first without the webhooks that are not wanted.
abbrev pub Chosen : (Webhook → Type 0) → List Webhook → List Webhook → Type 0
Chosen P [] zs = zs ≡ []
Chosen P (x ∷ xs) zs =
    (P x × ((ys : List Webhook) × (zs ≡ x ∷ ys) × Chosen P xs ys)) ⊎ ((¬ P x) × Chosen P xs zs)

Listed-iff : (name : Text) (xs : List Text) → (any (λ x. text_eq x name) xs ≡ true) ↔ Listed name xs
Listed-iff name [] = (λ h. cc, λ h. absurd h)
Listed-iff name (x ∷ xs) = elim (Bool-cases (text_eq x name)) [
  | inl same ↦ (λ h. inl ((text_eq_iff x name).0 same), λ h. rw same refl)
  | inr other ↦ (
    λ h. inr ((Listed-iff name xs).0 (ground (arith, h, other))),
    λ h. elim h [
      | inl e ↦ let same = (text_eq_iff x name).1 e in cc
      | inr later ↦ rw other ((Listed-iff name xs).1 later)
    ],
  )
]

in_scope_iff :
    (c scope : Option ℕ)
    → (in_scope c scope ≡ true) ↔ ((scope ≡ none) ⊎ ((k : ℕ) × (c ≡ some k) × (scope ≡ some k)))
in_scope_iff c none = (λ h. inl refl, λ h. refl)
in_scope_iff none (some k) = (λ h. cc, λ h. elim h [ inl e ↦ cc | inr (j, e, f) ↦ cc ])
in_scope_iff (some j) (some k) = (
  λ h. inr (k, ap some (ground (arith, h)), refl),
  λ h. elim h [ inl e ↦ cc | inr (i, e, f) ↦ eq→== k j cc ],
)

wants_iff : (c : Option ℕ) (name : Text) (h : Webhook) → (wants c name h ≡ true) ↔ Wanted c name h
unfolding wants
wants_iff c name h =
    let listed = Listed-iff name h.events in
    let scoped = in_scope_iff c h.channel_id in
    (
      λ t. (ground (arith, t), listed.0 (ground (arith, t)), scoped.0 (ground (arith, t))),
      λ (on, there, within). rw (on, listed.1 there, scoped.1 within) refl,
    )

select-Chosen :
    (c : Option ℕ) (name : Text) (hooks : List Webhook)
    → Chosen (Wanted c name) hooks (select (wants c name) hooks)
select-Chosen c name [] = refl
select-Chosen c name (x ∷ xs) = elim (Bool-cases (wants c name x)) [
  | inl taken ↦ rw taken (
      inl ((wants_iff c name x).0 taken, (select (wants c name) xs, refl, select-Chosen c name xs)))
  | inr left ↦
      rw left (inr (λ h. (let chosen = (wants_iff c name x).1 h in cc), select-Chosen c name xs))
]

-- When no statement is lost and the envelope can be serialized, a delivery succeeds, changes no
-- table and no session, and sends one signed request to each webhook that is active, subscribes to
-- the event and has the event's channel or none, in the order of the table, and to no other. This is
-- what the code does, not what docs/API.md says: a webhook without a channel also gets the events of
-- channels that its owner cannot see, and X-RSMC-Event is `delivery`, not the name of the event.
pub deliver-Sent :
    (e : Env) (w : World) (c : Option ℕ) (name : Text) (payload : WebhookPayload) (body : Bytes)
    → NoFaults e
    → e.to_vec (envelope e w name payload) ≡ some body
    → (hooks : List Webhook) × Chosen (Wanted c name) w.db.webhooks hooks
      × Sent w (posts body hooks) (deliver c name payload e w)
deliver-Sent e w c name payload body faultless h = (
  select (wants c name) w.db.webhooks,
  select-Chosen c name w.db.webhooks,
  deliver-posts e w c name payload body faultless h,
)
