-- ===== src/Server/Undo/Sockets.antt =====
-- ws/handler.rs, handlers/presence.rs, handlers/notifications.rs, services/pubsub.rs: calls that
-- cannot fail, change nothing, or are one statement.
use rsmc_engine.Base.{ℕ, Bool, Option, none, some, List, [], ◌∷◌, HashMap}
use rsmc_engine.Models.{
  ClientEvent, RoutedEvent, Presence, NotificationQuery, ServerEvent, MemberRole,
}
use rsmc_engine.App.{
  Still, Sure, Atomic, bind-Sure, bind-Atomic, execute-Atomic, now-Still, attempt-Sure,
  with_hub-Sure, when-Sure, stilly, surely,
}
use rsmc_engine.Services.Access.{AuthUser}
use rsmc_engine.Services.Events.{dispatch_remote}
use rsmc_engine.Handlers.Inbox
use rsmc_engine.Handlers.Presence.{get_presence, bulk_presence, live, each_presence}
use rsmc_engine.Ws.{
  mark_presence, open_socket, close_socket, reply, join_or_refuse, handle_client_frame,
}
use rsmc_engine.Server.Rollback.{emit_channel-Sure, emit_user-Sure}

pub list-Still : (user : AuthUser) (q : NotificationQuery) → Still (Inbox.list user q)
unfolding Inbox.list
list-Still user q = search stilly

pub unread_count-Still : (user : AuthUser) → Still (Inbox.unread_count user)
unfolding Inbox.unread_count
unread_count-Still user = search stilly

pub inbox_read-Atomic : (user : AuthUser) (i : ℕ) → Atomic (Inbox.mark_read user i)
unfolding Inbox.mark_read
inbox_read-Atomic user i = bind-Atomic now-Still λ at. execute-Atomic _

pub inbox_clear-Atomic : (user : AuthUser) → Atomic (Inbox.mark_all_read user)
unfolding Inbox.mark_all_read
inbox_clear-Atomic user = bind-Atomic now-Still λ at. execute-Atomic _

pub live-Still : (u : ℕ) (b : Bool) (o : Option Presence) → Still (live u b o)
unfolding live
live-Still u b none = search stilly
live-Still u b (some p) = search stilly

pub get_presence-Still : (u : ℕ) → Still (get_presence u)
unfolding get_presence
get_presence-Still u = search (stilly, live-Still)

pub each_presence-Still : (us : List ℕ) (m : HashMap Presence) → Still (each_presence us m)
unfolding each_presence
each_presence-Still [] m = search stilly
each_presence-Still (u ∷ us) m = search (stilly, live-Still, each_presence-Still us)

pub bulk_presence-Still : (us : List ℕ) → Still (bulk_presence us)
unfolding bulk_presence
bulk_presence-Still us = search (stilly, each_presence-Still)

pub mark_presence-Sure : (u : ℕ) (b : Bool) → Sure (mark_presence u b)
unfolding mark_presence
mark_presence-Sure u b = search (surely, emit_user-Sure)

pub open_socket-Sure : (u tx : ℕ) → Sure (open_socket u tx)
unfolding open_socket
open_socket-Sure u tx = search (surely, mark_presence-Sure)

pub close_socket-Sure : (u s : ℕ) → Sure (close_socket u s)
unfolding close_socket
close_socket-Sure u s = search (surely, mark_presence-Sure)

pub reply-Sure : (u : ℕ) (x : ServerEvent) → Sure (reply u x)
unfolding reply
reply-Sure u x = search surely

pub join-Sure : (u s c : ℕ) (r : Option MemberRole) → Sure (join_or_refuse u s c r)
unfolding join_or_refuse
join-Sure u s c none = reply-Sure u _
join-Sure u s c (some r) = with_hub-Sure _

pub frame-Sure : (u s : ℕ) (f : Option ClientEvent) → Sure (handle_client_frame u s f)
unfolding handle_client_frame
frame-Sure u s none = reply-Sure u _
frame-Sure u s (some (ClientEvent.subscribe c)) = bind-Sure (attempt-Sure _) λ r. join-Sure u s c r
frame-Sure u s (some (ClientEvent.unsubscribe c)) = with_hub-Sure _
frame-Sure u s (some (ClientEvent.typing c)) =
    bind-Sure (attempt-Sure _) λ r. when-Sure _ (emit_channel-Sure c _)
frame-Sure u s (some ClientEvent.ping) = reply-Sure u _

pub remote-Sure : (r : RoutedEvent) → Sure (dispatch_remote r)
unfolding dispatch_remote
remote-Sure (RoutedEvent.channel c x) = search surely
remote-Sure (RoutedEvent.user u x) = search surely
