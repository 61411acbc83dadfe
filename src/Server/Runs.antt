-- ===== src/Server/Runs.antt =====
-- What every run of one instance keeps.
use rsmc_engine.Base.{List, [], ◌∷◌}
use rsmc_engine.App.{M, Env, World, Keeps, Ends_db}
use rsmc_engine.Invariant.{IsSound}
use rsmc_engine.Invariant.Messages.{
  send_message-IsSound, history-IsSound, thread-IsSound, edit_message-IsSound,
  delete_message-IsSound, add_reaction-IsSound, remove_reaction-IsSound,
}
use rsmc_engine.Invariant.Channels.{
  create_channel-IsSound, create_direct-IsSound, mark_read-IsSound, list_receipts-IsSound,
  list_channels-IsSound, get_channel-IsSound, update_channel-IsSound, list_members-IsSound,
  add_member-IsSound, remove_member-IsSound,
}
use rsmc_engine.Invariant.Sessions as Kept
use rsmc_engine.Server.{Call, serve, run}
use rsmc_engine.Server.Frames.{
  send_message-Quiet, history-Quiet, thread-Quiet, edit_message-Quiet, delete_message-Quiet,
  add_reaction-Quiet, remove_reaction-Quiet,
}
use rsmc_engine.Server.Rooms.{
  create_channel-Quiet, create_direct-Quiet, mark_read-Quiet, list_receipts-Quiet,
  list_channels-Quiet, get_channel-Quiet, update_channel-Quiet, list_members-Quiet,
  add_member-Quiet, remove_member-Quiet,
}
use rsmc_engine.Server.Sockets
use rsmc_engine.Server.Sessions
use rsmc_engine.Server.Sockets.{IsTracked, AreDistinct}
use rsmc_engine.Server.Sessions.{Tracks, Quiet-Tracks}

-- The tables are sound, and the hub indexes its sessions, whose ids were drawn.
pub record IsConsistent (e : Env) (w : World) : Type 0 where
  pub sound : IsSound w.db
  pub tracked : IsTracked e w.hub w.draws

kept :
    {A : Type 0} {m : M A}
    → Keeps IsSound m
    → Tracks m
    → (e : Env) (w : World) → AreDistinct e
    → IsConsistent e w
    → IsConsistent e (m e w).1
kept {m = m} s t e w apart k = record {
  sound = Ends_db IsSound (m e w) (s.run e w k.sound);
  tracked = t.run e w apart k.tracked;
}

serve-IsConsistent :
    (c : Call) (e : Env) (w : World)
    → AreDistinct e
    → IsConsistent e w
    → IsConsistent e (serve c e w).1
unfolding serve
serve-IsConsistent (Call.send user c req) e w apart k =
    kept (send_message-IsSound user c req) (Quiet-Tracks (send_message-Quiet user c req)) e w apart
      k
serve-IsConsistent (Call.page user c q) e w apart k =
    kept (history-IsSound user c q) (Quiet-Tracks (history-Quiet user c q)) e w apart k
serve-IsConsistent (Call.replies user m) e w apart k =
    kept (thread-IsSound user m) (Quiet-Tracks (thread-Quiet user m)) e w apart k
serve-IsConsistent (Call.edit user m req) e w apart k =
    kept (edit_message-IsSound user m req) (Quiet-Tracks (edit_message-Quiet user m req)) e w apart
      k
serve-IsConsistent (Call.delete user m) e w apart k =
    kept (delete_message-IsSound user m) (Quiet-Tracks (delete_message-Quiet user m)) e w apart k
serve-IsConsistent (Call.react user m req) e w apart k =
    kept (add_reaction-IsSound user m req) (Quiet-Tracks (add_reaction-Quiet user m req)) e w apart
      k
serve-IsConsistent (Call.unreact user m req) e w apart k =
    kept (remove_reaction-IsSound user m req) (Quiet-Tracks (remove_reaction-Quiet user m req)) e w
      apart k
serve-IsConsistent (Call.create user req) e w apart k =
    kept (create_channel-IsSound user req) (Quiet-Tracks (create_channel-Quiet user req)) e w apart
      k
serve-IsConsistent (Call.create_dm user u) e w apart k =
    kept (create_direct-IsSound user u) (Quiet-Tracks (create_direct-Quiet user u)) e w apart k
serve-IsConsistent (Call.read user c) e w apart k =
    kept (mark_read-IsSound user c) (Quiet-Tracks (mark_read-Quiet user c)) e w apart k
serve-IsConsistent (Call.receipts user c) e w apart k =
    kept (list_receipts-IsSound user c) (Quiet-Tracks (list_receipts-Quiet user c)) e w apart k
serve-IsConsistent (Call.channels user) e w apart k =
    kept (list_channels-IsSound user) (Quiet-Tracks (list_channels-Quiet user)) e w apart k
serve-IsConsistent (Call.channel user c) e w apart k =
    kept (get_channel-IsSound user c) (Quiet-Tracks (get_channel-Quiet user c)) e w apart k
serve-IsConsistent (Call.update user c req) e w apart k =
    kept (update_channel-IsSound user c req) (Quiet-Tracks (update_channel-Quiet user c req)) e w
      apart k
serve-IsConsistent (Call.members user c) e w apart k =
    kept (list_members-IsSound user c) (Quiet-Tracks (list_members-Quiet user c)) e w apart k
serve-IsConsistent (Call.invite user c u) e w apart k =
    kept (add_member-IsSound user c u) (Quiet-Tracks (add_member-Quiet user c u)) e w apart k
serve-IsConsistent (Call.expel user c u) e w apart k =
    kept (remove_member-IsSound user c u) (Quiet-Tracks (remove_member-Quiet user c u)) e w apart k
serve-IsConsistent (Call.inbox user q) e w apart k =
    kept (Kept.list-IsSound user q) (Quiet-Tracks (Sessions.list-Quiet user q)) e w apart k
serve-IsConsistent (Call.inbox_count user) e w apart k =
    kept (Kept.unread_count-IsSound user) (Quiet-Tracks (Sessions.unread_count-Quiet user)) e w
      apart k
serve-IsConsistent (Call.inbox_read user n) e w apart k =
    kept (Kept.mark_read-IsSound user n) (Quiet-Tracks (Sessions.mark_read-Quiet user n)) e w apart
      k
serve-IsConsistent (Call.inbox_clear user) e w apart k =
    kept (Kept.mark_all_read-IsSound user) (Quiet-Tracks (Sessions.mark_all_read-Quiet user)) e w
      apart k
serve-IsConsistent (Call.seen u) e w apart k =
    kept (Kept.get_presence-IsSound u) (Quiet-Tracks (Sessions.get_presence-Quiet u)) e w apart k
serve-IsConsistent (Call.seen_all us) e w apart k =
    kept (Kept.bulk_presence-IsSound us) (Quiet-Tracks (Sessions.bulk_presence-Quiet us)) e w apart
      k
serve-IsConsistent (Call.connect u tx) e w apart k =
    kept (Kept.open_socket-IsSound u tx) (Sessions.open_socket-Tracks u tx) e w apart k
serve-IsConsistent (Call.disconnect u s) e w apart k =
    kept (Kept.close_socket-IsSound u s) (Sessions.close_socket-Tracks u s) e w apart k
serve-IsConsistent (Call.frame u s f) e w apart k =
    kept (Kept.handle_client_frame-IsSound u s f) (Sessions.handle_client_frame-Tracks u s f) e w
      apart k
serve-IsConsistent (Call.remote r) e w apart k =
    kept (Kept.dispatch_remote-IsSound r) (Quiet-Tracks (Sockets.remote-Quiet r)) e w apart k

-- If no two draws of a UUID agree, then any sequence of calls, whichever statements are lost on the
-- way and whatever each call answers, leaves an instance that started consistent consistent: message
-- ids are unique, a reply's parent stands in its channel, `reply_count` counts the replies, deleted
-- messages are blank, a user reacts once with an emoji and joins a channel once, and the hub's
-- index is exact.
pub run-IsConsistent :
    (cs : List Call) (e : Env) (w : World)
    → AreDistinct e
    → IsConsistent e w
    → IsConsistent e (run cs e w)
unfolding run
run-IsConsistent [] e w apart k = k
run-IsConsistent (c ∷ cs) e w apart k =
    run-IsConsistent cs e (serve c e w).1 apart (serve-IsConsistent c e w apart k)
