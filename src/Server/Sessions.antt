-- ===== src/Server/Sessions.antt =====
-- ws/handler.rs, handlers/presence.rs, handlers/notifications.rs: the calls on sockets, on presence
-- and on the inbox keep the hub tracked and the tables sound.
use rsmc_engine.Base.{ℕ, suc, Bool, true, false, Option, none, some, List, [], ◌∷◌, HashMap}
use rsmc_engine.Models.{ClientEvent, MemberRole, Presence, NotificationQuery}
use rsmc_engine.Error.{Result, ok, err}
use rsmc_engine.Hub.{register, unregister}
use rsmc_engine.App.{
  M, Env, World, Quiet, quietly, bind-Quiet, pure-Quiet, when-Quiet, attempt-Quiet, and_then, ◌>>=◌,
  new_v4, with_hub,
}
use rsmc_engine.Services.Access.{AuthUser}
use rsmc_engine.Handlers.Inbox
use rsmc_engine.Handlers.Presence.{get_presence, bulk_presence, live, each_presence}
use rsmc_engine.Ws.{open_socket, close_socket, join_or_refuse, handle_client_frame}
use rsmc_engine.Server.Frames.{require_member-Quiet, emit_channel-Quiet}
use rsmc_engine.Server.Sockets.{
  IsTracked, AreDistinct, calm-IsTracked, register-IsTracked, unregister-IsTracked,
  subscribe-IsTracked, unsubscribe-IsTracked, mark_presence-Quiet, reply-Quiet,
}

pub list-Quiet : (user : AuthUser) (q : NotificationQuery) → Quiet (Inbox.list user q)
unfolding Inbox.list
list-Quiet user q = search quietly

pub unread_count-Quiet : (user : AuthUser) → Quiet (Inbox.unread_count user)
unfolding Inbox.unread_count
unread_count-Quiet user = search quietly

pub mark_read-Quiet : (user : AuthUser) (i : ℕ) → Quiet (Inbox.mark_read user i)
unfolding Inbox.mark_read
mark_read-Quiet user i = search quietly

pub mark_all_read-Quiet : (user : AuthUser) → Quiet (Inbox.mark_all_read user)
unfolding Inbox.mark_all_read
mark_all_read-Quiet user = search quietly

live-Quiet : (u : ℕ) (b : Bool) (o : Option Presence) → Quiet (live u b o)
unfolding live
live-Quiet u b none = search quietly
live-Quiet u b (some p) = search quietly

pub get_presence-Quiet : (u : ℕ) → Quiet (get_presence u)
unfolding get_presence
get_presence-Quiet u = search (quietly, live-Quiet)

each_presence-Quiet : (us : List ℕ) (m : HashMap Presence) → Quiet (each_presence us m)
unfolding each_presence
each_presence-Quiet [] m = search quietly
each_presence-Quiet (u ∷ us) m = search (quietly, live-Quiet, each_presence-Quiet us)

pub bulk_presence-Quiet : (us : List ℕ) → Quiet (bulk_presence us)
unfolding bulk_presence
bulk_presence-Quiet us = search (quietly, each_presence-Quiet)

-- The body keeps the hub tracked.
pub record Tracks {A : Type 0} (m : M A) : Type 0 where
  pub run :
      (e : Env) (w : World)
      → AreDistinct e
      → IsTracked e w.hub w.draws
      → IsTracked e (m e w).1.hub (m e w).1.draws

pub Quiet-Tracks : {A : Type 0} {m : M A} → Quiet m → Tracks m
Quiet-Tracks {m = m} q = record { run = λ e w apart t. calm-IsTracked e w (m e w).1 (q.run e w) t }

bind-Tracks :
    {A B : Type 0} {m : M A} {f : A → M B} → Tracks m → ((a : A) → Tracks (f a)) → Tracks (m >>= f)
unfolding ◌>>=◌
bind-Tracks {m = m} {f = f} t next = record {
  run = λ e w apart h. then e (m e w) apart (t.run e w apart h);
}
  where
    then :
        (e : Env) (r : Result _ × World)
        → AreDistinct e
        → IsTracked e r.1.hub r.1.draws
        → let w' = (and_then r (λ a w'. f a e w')).1 in IsTracked e w'.hub w'.draws
    then e (ok a, w) apart h = (next a).run e w apart h
    then e (err x, w) apart h = h

pub open_socket-Tracks : (u tx : ℕ) → Tracks (open_socket u tx)
unfolding open_socket ◌>>=◌ new_v4 with_hub
open_socket-Tracks u tx = record {
  run = λ e w apart t.
      let (h, first) = register w.hub u tx (e.new_v4 w.draws) in
      (Quiet-Tracks (
          bind-Quiet (when-Quiet first (mark_presence-Quiet u true))
            (λ _. pure-Quiet (e.new_v4 w.draws)))).run
        e (record w { hub = h; draws = suc w.draws }) apart
        (register-IsTracked e w.hub w.draws t u tx apart);
}

pub close_socket-Tracks : (u s : ℕ) → Tracks (close_socket u s)
unfolding close_socket ◌>>=◌ with_hub
close_socket-Tracks u s = record {
  run = λ e w apart t.
      let (now_offline, h) = unregister w.hub s in
      (Quiet-Tracks (when-Quiet now_offline (mark_presence-Quiet u false))).run e
        (record w { hub = h }) apart (unregister-IsTracked e w.hub w.draws t s);
}

join-Tracks : (u s c : ℕ) (r : Option MemberRole) → Tracks (join_or_refuse u s c r)
unfolding join_or_refuse with_hub
join-Tracks u s c none = Quiet-Tracks (reply-Quiet u _)
join-Tracks u s c (some r) = record {
  run = λ e w apart t. subscribe-IsTracked e w.hub w.draws t s c;
}

pub handle_client_frame-Tracks :
    (u s : ℕ) (f : Option ClientEvent) → Tracks (handle_client_frame u s f)
unfolding handle_client_frame with_hub
handle_client_frame-Tracks u s none = Quiet-Tracks (reply-Quiet u _)
handle_client_frame-Tracks u s (some (ClientEvent.subscribe c)) =
    bind-Tracks (Quiet-Tracks (attempt-Quiet (require_member-Quiet c u))) λ r. join-Tracks u s c r
handle_client_frame-Tracks u s (some (ClientEvent.unsubscribe c)) = record {
  run = λ e w apart t. unsubscribe-IsTracked e w.hub w.draws t s c;
}
handle_client_frame-Tracks u s (some (ClientEvent.typing c)) = Quiet-Tracks (
    bind-Quiet (attempt-Quiet (require_member-Quiet c u))
      λ r. when-Quiet _ (emit_channel-Quiet c _))
handle_client_frame-Tracks u s (some ClientEvent.ping) = Quiet-Tracks (reply-Quiet u _)
