-- ===== src/Invariant/Sessions.antt =====
-- ws/handler.rs, handlers/presence.rs, handlers/notifications.rs, services/pubsub.rs: the calls on
-- sockets, presence, the inbox and remote events keep the invariant of the tables.
use rsmc_engine.Base.{
  ℕ, Bool, true, false, Option, none, some, List, [], ◌∷◌, any, HashMap, lookup, remove, Bool-cases,
  inl, inr, ◌==◌,
}
use rsmc_engine.Models.{
  ClientEvent, ServerEvent, MemberRole, Presence, NotificationQuery, RoutedEvent,
}
use rsmc_engine.Db.{Db, user_exists}
use rsmc_engine.Hub.{Hub}
use rsmc_engine.App.{
  with_hub, Keeps, Makes, keeping, bind-Keeps, execute-Keeps, when-Triple, new_v4-Triple,
  now-Triple, pure-Keeps, attempt-Triple,
}
use rsmc_engine.Services.Access.{AuthUser}
use rsmc_engine.Services.Events.{dispatch_remote}
use rsmc_engine.Handlers.Inbox
use rsmc_engine.Handlers.Presence.{get_presence, bulk_presence, live, each_presence}
use rsmc_engine.Ws.{
  upsert_presence, mark_presence, open_socket, close_socket, reply, join_or_refuse,
  handle_client_frame,
}
use rsmc_engine.Invariant.{IsSound}
use rsmc_engine.Invariant.Shared.{emit_channel-Keeps, emit_user-Keeps, notifications_apart}
use rsmc_engine.Services.Access.Frames.{require_member-Keeps}

with_hub-Keeps : {P : Db → Type 0} {A : Type 0} (f : Hub → A × Hub) → Keeps P (with_hub f)
unfolding with_hub
with_hub-Keeps f = record { run = λ e w p. p }

presence_apart : (d : Db) (ps : List Presence) → IsSound d → IsSound (record d { presence = ps })
presence_apart d ps h = record {
  threaded = h.threaded;
  reacted_once = h.reacted_once;
  joined_once = h.joined_once;
}

upsert_presence-IsSound :
    (p : Presence) (d : Db) → IsSound d → Makes (λ _. IsSound) (upsert_presence p d)
unfolding upsert_presence
upsert_presence-IsSound p d h = elim (Bool-cases (any (λ x. x.user_id == p.user_id) d.presence)) [
  | inl old ↦ rw old (presence_apart d _ h)
  | inr new ↦ rw new (elim (Bool-cases (user_exists p.user_id d)) [
    | inl u ↦ rw u (presence_apart d _ h)
    | inr u ↦ rw u tt
  ])
]

mark_presence-IsSound : (u : ℕ) (b : Bool) → Keeps IsSound (mark_presence u b)
unfolding mark_presence
mark_presence-IsSound u b = bind-Keeps now-Triple λ at.
    bind-Keeps (attempt-Triple (execute-Keeps _ (upsert_presence-IsSound _)))
      λ _. emit_user-Keeps u _

pub open_socket-IsSound : (u tx : ℕ) → Keeps IsSound (open_socket u tx)
unfolding open_socket
open_socket-IsSound u tx = bind-Keeps new_v4-Triple λ s.
    bind-Keeps (with_hub-Keeps _)
      λ first. bind-Keeps (when-Triple first (mark_presence-IsSound u true)) λ _. pure-Keeps s

pub close_socket-IsSound : (u s : ℕ) → Keeps IsSound (close_socket u s)
unfolding close_socket
close_socket-IsSound u s =
    bind-Keeps (with_hub-Keeps _)
      λ now_offline. when-Triple now_offline (mark_presence-IsSound u false)

reply-Keeps : {P : Db → Type 0} (u : ℕ) (x : ServerEvent) → Keeps P (reply u x)
unfolding reply
reply-Keeps u x = search keeping

join-Keeps :
    {P : Db → Type 0} (u s c : ℕ) (r : Option MemberRole) → Keeps P (join_or_refuse u s c r)
unfolding join_or_refuse
join-Keeps u s c none = reply-Keeps u _
join-Keeps u s c (some r) = with_hub-Keeps _

pub handle_client_frame-IsSound :
    (u s : ℕ) (f : Option ClientEvent) → Keeps IsSound (handle_client_frame u s f)
unfolding handle_client_frame
handle_client_frame-IsSound u s none = reply-Keeps u _
handle_client_frame-IsSound u s (some (ClientEvent.subscribe c)) =
    bind-Keeps (attempt-Triple (require_member-Keeps c u)) λ r. join-Keeps u s c r
handle_client_frame-IsSound u s (some (ClientEvent.unsubscribe c)) = with_hub-Keeps _
handle_client_frame-IsSound u s (some (ClientEvent.typing c)) =
    bind-Keeps (attempt-Triple (require_member-Keeps c u))
      λ r. when-Triple _ (emit_channel-Keeps c _)
handle_client_frame-IsSound u s (some ClientEvent.ping) = reply-Keeps u _

pub dispatch_remote-IsSound : (r : RoutedEvent) → Keeps IsSound (dispatch_remote r)
unfolding dispatch_remote
dispatch_remote-IsSound (RoutedEvent.channel c x) = search keeping
dispatch_remote-IsSound (RoutedEvent.user u x) = search keeping

pub list-IsSound : (user : AuthUser) (q : NotificationQuery) → Keeps IsSound (Inbox.list user q)
unfolding Inbox.list
list-IsSound user q = search keeping

pub unread_count-IsSound : (user : AuthUser) → Keeps IsSound (Inbox.unread_count user)
unfolding Inbox.unread_count
unread_count-IsSound user = search keeping

pub mark_read-IsSound : (user : AuthUser) (i : ℕ) → Keeps IsSound (Inbox.mark_read user i)
unfolding Inbox.mark_read
mark_read-IsSound user i =
    bind-Keeps now-Triple λ at. execute-Keeps _ (λ d h. notifications_apart d _ h)

pub mark_all_read-IsSound : (user : AuthUser) → Keeps IsSound (Inbox.mark_all_read user)
unfolding Inbox.mark_all_read
mark_all_read-IsSound user =
    bind-Keeps now-Triple λ at. execute-Keeps _ (λ d h. notifications_apart d _ h)

live-Keeps : {P : Db → Type 0} (u : ℕ) (b : Bool) (o : Option Presence) → Keeps P (live u b o)
unfolding live
live-Keeps u b none = search keeping
live-Keeps u b (some p) = search keeping

pub get_presence-IsSound : (u : ℕ) → Keeps IsSound (get_presence u)
unfolding get_presence
get_presence-IsSound u = search (keeping, with_hub-Keeps, live-Keeps)

each_presence-Keeps :
    {P : Db → Type 0} (us : List ℕ) (m : HashMap Presence) → Keeps P (each_presence us m)
unfolding each_presence
each_presence-Keeps [] m = search keeping
each_presence-Keeps (u ∷ us) m = bind-Keeps (with_hub-Keeps _) λ b.
    bind-Keeps (live-Keeps u b (lookup u m))
      λ p. bind-Keeps (each_presence-Keeps us (remove u m)) λ ps. pure-Keeps _

pub bulk_presence-IsSound : (us : List ℕ) → Keeps IsSound (bulk_presence us)
unfolding bulk_presence
bulk_presence-IsSound us = search (keeping, each_presence-Keeps)
