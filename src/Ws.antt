-- ===== src/Ws.antt =====
-- ws/handler.rs: a socket's life (registration, frames, teardown) and the presence that it marks.
-- The socket itself, the token check before the upgrade and the two pumping tasks are not modelled:
-- a frame is what the text decodes to, or nothing if it is malformed.
use rsmc_engine.Base.{
  ℕ, Bool, true, false, Option, none, some, [], ◌∷◌, ◌++◌, ◌==◌, if◌then◌else◌, any, update_where,
  map, is_some,
}
use rsmc_engine.Models.{ClientEvent, ServerEvent, Presence, MemberRole}
use rsmc_engine.Db.{Db, Sql, rows, user_exists, references}
use rsmc_engine.Hub.{Hub, register, unregister, subscribe, unsubscribe, dispatch_user}
use rsmc_engine.App.{
  M, pure, ◌>>=◌, ◌>>◌, attempt, when, new_v4, now, execute, with_hub, emit, deliver,
}
use rsmc_engine.Services.Access.{require_member}
use rsmc_engine.Services.Events.{emit_channel, emit_user}

-- INSERT INTO presence … ON CONFLICT (user_id) DO UPDATE
unfoldable pub upsert_presence : Presence → Db → Sql (Unit {0})
upsert_presence p d =
    if any (λ x. x.user_id == p.user_id) d.presence
    then rows tt
        (record d { presence = update_where (λ x. x.user_id == p.user_id) (λ x. p) d.presence })
    else references (user_exists p.user_id d)
        (rows tt (record d { presence = d.presence ++ p ∷ [] }))

unfoldable pub mark_presence : (user_id : ℕ) → Bool → M (Unit {0})
mark_presence user_id online = do
  at ← now
  attempt
      (execute (upsert_presence (record { user_id = user_id; online = online; last_seen = at })))
  emit_user user_id (ServerEvent.presence user_id online at)

abbrev pub registered : Hub × Bool → Bool × Hub
registered (h, first) = (first, h)

-- The first half of `handle_socket`; `tx` is the socket's own channel.
unfoldable pub open_socket : (user_id tx : ℕ) → M ℕ
open_socket user_id tx = do
  session_id ← new_v4
  became_online ← with_hub (λ h. registered (register h user_id tx session_id))
  when became_online (mark_presence user_id true)
  pure session_id

-- The teardown of `handle_socket`.
unfoldable pub close_socket : (user_id session_id : ℕ) → M (Unit {0})
close_socket user_id session_id = do
  now_offline ← with_hub (λ h. unregister h session_id)
  when now_offline (mark_presence user_id false)

-- `state.events.hub().dispatch_user(…)`, past the event bus.
unfoldable pub reply : (user_id : ℕ) → ServerEvent → M (Unit {0})
reply user_id event = emit (λ e h. map deliver (dispatch_user h user_id event))

abbrev on_hub : (Hub → Hub) → M (Unit {0})
on_hub f = with_hub (λ h. (tt, f h))

unfoldable pub join_or_refuse :
    (user_id session_id channel_id : ℕ) → Option MemberRole → M (Unit {0})
unfolding reply
join_or_refuse user_id session_id channel_id none =
    reply user_id (ServerEvent.error "cannot subscribe: not a member")
join_or_refuse user_id session_id channel_id (some role) =
    on_hub (λ h. subscribe h session_id channel_id)

unfoldable pub handle_client_frame : (user_id session_id : ℕ) → Option ClientEvent → M (Unit {0})
unfolding reply join_or_refuse
handle_client_frame user_id session_id none =
    reply user_id (ServerEvent.error "malformed client event")
handle_client_frame user_id session_id (some (ClientEvent.subscribe channel_id)) = do
  role ← attempt (require_member channel_id user_id)
  join_or_refuse user_id session_id channel_id role
handle_client_frame user_id session_id (some (ClientEvent.unsubscribe channel_id)) =
    on_hub (λ h. unsubscribe h session_id channel_id)
handle_client_frame user_id session_id (some (ClientEvent.typing channel_id)) = do
  role ← attempt (require_member channel_id user_id)
  when (is_some role) (emit_channel channel_id (ServerEvent.typing channel_id user_id))
handle_client_frame user_id session_id (some ClientEvent.ping) = reply user_id ServerEvent.pong
