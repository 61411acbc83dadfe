-- ===== src/Services/Echo.antt =====
-- services/pubsub.rs: the subscriber, which hears every event of the channel, its own instance's too.
use rsmc_engine.Base.{
  ℕ, ◌*◌, ◌≡◌, refl, ◌∙◌, ap, Text, Bool, true, false, Option, none, some, List, [], ◌∷◌, ◌++◌,
  arith, ◌==◌, map, count_where, count_where-append,
}
use rsmc_engine.Models.{ServerEvent, RoutedEvent}
use rsmc_engine.Hub.{Delivery, dispatch_channel}
use rsmc_engine.App.{
  M, Env, World, pure, ◌>>◌, ◌>>=◌, Output, deliver, publish, spawn_webhooks, post, WebhookPayload,
  emit,
}
use rsmc_engine.Services.Events.{emit_channel, dispatch_remote, webhooks, event_descriptor}

-- The events queued for Redis, in order (`PubSub::publish`).
unfoldable pub queued : List Output → List RoutedEvent
queued [] = []
queued (publish r ∷ outs) = r ∷ queued outs
queued (o ∷ outs) = queued outs

-- `run_subscriber`, on the events that the stream brings.
unfoldable pub run_subscriber : List RoutedEvent → M (Unit {0})
run_subscriber [] = pure tt
run_subscriber (r ∷ rs) = dispatch_remote r >> run_subscriber rs

abbrev pub is_to : (tx : ℕ) → Output → Bool
is_to tx (deliver d) = d.tx == tx
is_to tx (publish r) = false
is_to tx (spawn_webhooks c n p) = false
is_to tx (post p) = false

-- How many events a connection was sent.
abbrev pub sent_to : (tx : ℕ) → List Output → ℕ
sent_to tx outs = count_where (is_to tx) outs

queued-deliver :
    (ds : List Delivery) (outs : List Output) → queued (map deliver ds ++ outs) ≡ queued outs
unfolding queued
queued-deliver [] outs = refl
queued-deliver (d ∷ ds) outs = queued-deliver ds outs

abbrev hooks : Option ℕ → Option (Text × WebhookPayload) → List Output
hooks c o = elim o [ none ↦ [] | some (name, payload) ↦ spawn_webhooks c name payload ∷ [] ]

queued-hooks : (c : Option ℕ) (o : Option (Text × WebhookPayload)) → queued (hooks c o) ≡ []
unfolding queued
queued-hooks c none = refl
queued-hooks c (some y) = refl

sent-hooks :
    (tx : ℕ) (c : Option ℕ) (o : Option (Text × WebhookPayload)) → sent_to tx (hooks c o) ≡ 0
sent-hooks tx c none = refl
sent-hooks tx c (some y) = omega arith

-- An event emitted with Redis, and the subscriber's turn at what was published meanwhile.
unfoldable pub round_trip : (channel_id : ℕ) → ServerEvent → Env → World → World
round_trip c x e w =
    let w' = (emit_channel c x e (record w { out = [] })).1 in
    (run_subscriber (queued w'.out) e w').1

heard :
    (e : Env) (w : World) (r : RoutedEvent)
    → queued w.out ≡ r ∷ []
    → (run_subscriber (queued w.out) e w).1.out ≡ (dispatch_remote r e w).1.out
unfolding run_subscriber ◌>>=◌ dispatch_remote emit
heard e w (RoutedEvent.channel c x) h = rw h refl
heard e w (RoutedEvent.user u x) h = rw h refl

-- With Redis configured, an instance that hears its own events sends a channel's event twice to each
-- of its connections: once when it is emitted and once when it comes back.
pub round_trip_twice :
    (c : ℕ) (x : ServerEvent) (e : Env) (w : World) (tx : ℕ)
    → e.pubsub ≡ true
    → sent_to tx (round_trip c x e w).out
      ≡ 2 * sent_to tx (map deliver (dispatch_channel w.hub c x))
unfolding round_trip emit_channel webhooks emit queued dispatch_remote
round_trip_twice c x e w tx on =
    ap (sent_to tx) (
      heard e first (RoutedEvent.channel c x) (
        queued-deliver (dispatch_channel w.hub c x) _
        ∙ rw on
            (ap (λ rs. RoutedEvent.channel c x ∷ rs) (queued-hooks (some c) (event_descriptor x)))))
    ∙ rw on (
        omega (
          arith,
          count_where-append (is_to tx)
              (ds ++ publish (RoutedEvent.channel c x) ∷ hooks (some c) (event_descriptor x)) ds,
          count_where-append (is_to tx) ds
              (publish (RoutedEvent.channel c x) ∷ hooks (some c) (event_descriptor x)),
          sent-hooks tx (some c) (event_descriptor x),
        ))
  where
    first : World
    first = (emit_channel c x e (record w { out = [] })).1

    ds : List Output
    ds = map deliver (dispatch_channel w.hub c x)
