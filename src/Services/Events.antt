-- ===== src/Services/Events.antt =====
-- services/events.rs and `event_descriptor` of services/webhooks.rs: the one place from which
-- events leave, to local sessions, to Redis and to webhooks.
use rsmc_engine.Base.{ℕ, Option, none, some, List, [], ◌∷◌, ◌++◌, map, if◌then◌else◌, Text, text}
use rsmc_engine.Models.{ServerEvent, RoutedEvent, message_created, message_updated, message_deleted}
use rsmc_engine.Hub.{dispatch_channel, dispatch_user}
use rsmc_engine.App.{
  M, Env, Output, deliver, publish, spawn_webhooks, WebhookPayload, of_message, of_id, emit,
}

unfoldable pub event_descriptor : ServerEvent → Option (Text × WebhookPayload)
event_descriptor (message_created channel_id message) =
    some (text "message.created", of_message channel_id message)
event_descriptor (message_updated channel_id message) =
    some (text "message.updated", of_message channel_id message)
event_descriptor (message_deleted channel_id message_id) =
    some (text "message.deleted", of_id channel_id message_id)
event_descriptor _ = none

-- `EventBus::spawn_webhooks`
unfoldable pub webhooks : Option ℕ → ServerEvent → List Output
webhooks channel_id event = elim (event_descriptor event) [
  | none ↦ []
  | some (name, payload) ↦ spawn_webhooks channel_id name payload ∷ []
]

abbrev pub published : Env → RoutedEvent → List Output
published e routed = if e.pubsub then publish routed ∷ [] else []

unfoldable pub emit_channel : (channel_id : ℕ) → ServerEvent → M (Unit {0})
unfolding webhooks
emit_channel channel_id event = emit (λ e h.
    map deliver (dispatch_channel h channel_id event)
    ++ (published e (RoutedEvent.channel channel_id event) ++ webhooks (some channel_id) event))

unfoldable pub emit_user : (user_id : ℕ) → ServerEvent → M (Unit {0})
emit_user user_id event = emit (λ e h.
    map deliver (dispatch_user h user_id event) ++ published e (RoutedEvent.user user_id event))

unfoldable pub dispatch_remote : RoutedEvent → M (Unit {0})
dispatch_remote (RoutedEvent.channel channel_id event) =
    emit (λ e h. map deliver (dispatch_channel h channel_id event))
dispatch_remote (RoutedEvent.user user_id event) =
    emit (λ e h. map deliver (dispatch_user h user_id event))
