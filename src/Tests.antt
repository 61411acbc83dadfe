-- ===== src/Tests.antt =====
-- Runs of the model on the small workspace of Samples, and the theorems at these inputs.
pub mod Sockets
pub mod Accounts
pub mod Resources
use rsmc_engine.Base.{
  ℕ, suc, ◌+◌, ◌*◌, ◌≡◌, refl, ◌↔◌, true, false, not, ◌&&◌, ◌||◌, none, some, List, [], ◌∷◌, arith,
  ◌==◌, Text, text, insert, set_insert, is_blank, is_whitespace, text_eq, any, map, length, lookup,
  contains, count_where, if◌then◌else◌, take,
}
use rsmc_engine.Base.Int.{pos}
use rsmc_engine.Models.{
  Permission, MemberRole, HistoryQuery, clamped_limit, UserRole, can, valid_send, to_public,
  ServerEvent, MessageView, SendMessageRequest, CreateChannelRequest, ClientEvent, Reaction,
  message_deleted,
}
use rsmc_engine.Hub.{
  Hub, Session, new, register, unregister, subscribe, unsubscribe, is_online, online_count,
  dispatch_channel, dispatch_user, take_session, leave_set,
}
use rsmc_engine.Hub.Index.{
  IsIndexed, owns, new-IsIndexed, register-IsIndexed, is_online_iff, unregister_offline,
  online_count_lem,
}
use rsmc_engine.Hub.Fanout.{
  follows, is_registered, follows-subscribe, reaches, dispatch_user_iff, dispatch_channel_iff,
}
use rsmc_engine.Hub.Race.{close_while_opening, close_while_opening_loses}
use rsmc_engine.App.{
  Ended, Answers, Gives, ◌>>=◌, query, execute, answer, World, NoFaults, is_err, deliver,
}
use rsmc_engine.Services.Access.{require, require_member}
use rsmc_engine.Services.Notifications.{tokens, extract_mentions}
use rsmc_engine.Services.Mentions.{Increasing, mentions, extract_mentions_lem}
use rsmc_engine.Services.Echo.{round_trip, round_trip_twice, sent_to}
use rsmc_engine.Handlers.Messages.{
  no_attachments, history, cursor_after, page, send_message, check_parent,
}
use rsmc_engine.Handlers.Messages.Store.{parent_in_channel}
use rsmc_engine.Handlers.Messages.Alerts.{dispatch_notifications}
use rsmc_engine.Handlers.Messages.Threads.{AreDistinct}
use rsmc_engine.Handlers.Messages.Pages.{walk, timeline, walk-timeline}
use rsmc_engine.Invariant.{IsSound}
use rsmc_engine.Server.{Call, serve, run}
use rsmc_engine.Server.Sockets.{AreDistinct as DrawsApart}
use rsmc_engine.Server.Runs.{IsConsistent, run-IsConsistent}
use rsmc_engine.Server.Access.{allowed, serve-denied}
use rsmc_engine.Server.Requests.{Request, serve_request, serve-hub}
use rsmc_engine.Server.Sending.{send_message-answers}
use rsmc_engine.Server.Storing.{posted}
use rsmc_engine.Server.History.{Shown, history-Shown}
use rsmc_engine.Server.Undo.{serve-failed}
use rsmc_engine.Server.Recipients.{notified, dispatch_notifications-spares}
use rsmc_engine.Handlers.Channels.Store.{unread_in}
use rsmc_engine.Handlers.Channels.{mark_read}
use rsmc_engine.Server.Cursor.{AllRead, mark_read-answers}
use rsmc_engine.Handlers.Messages.Grouping.{
  AreGroups, groups_of, counted, of_message, react_map_lem,
}
use rsmc_engine.Handlers.Messages.Enrich.{react_map, enrich}
use rsmc_engine.Server.Rollback.{enrich-Gives}
use rsmc_engine.Samples.{person, env, db, world, ada, bob, eve, note}

abbrev hello : SendMessageRequest
hello = record { content = text "hello @bob_jones"; parent_id = none; attachment_ids = [] }

abbrev garden : CreateChannelRequest
garden = record { name = text "garden"; topic = none; is_private = false; member_ids = 2 ∷ [] }

-- The tables of Samples, with no session open.
abbrev start : World
start = record world { hub = new }

-- Ada connects, opens a channel (which gets the second UUID drawn), follows it and posts there; Bob leaves it.
abbrev session : List Call
session =
    Call.connect 1 7
    ∷ Call.create ada garden
    ∷ Call.frame 1 1000 (some (ClientEvent.subscribe 1001))
    ∷ Call.send ada 1001 hello
    ∷ Call.expel bob 1001 2
    ∷ Call.disconnect 1 1000
    ∷ []

draws_apart : DrawsApart env
draws_apart m n e = omega (arith, e)

pub db-IsSound : IsSound db
db-IsSound = record {
  threaded = record {
    distinct = (refl, (refl, (refl, tt)));
    linked = (refl, (refl, (refl, tt)));
    counted = (refl, (refl, (refl, tt)));
    blank = (refl, (refl, (refl, tt)));
  };
  reacted_once = λ k. omega arith;
  joined_once = λ (c, u). ground arith;
}

start-IsConsistent : IsConsistent env start
unfolding new lookup
start-IsConsistent = record {
  sound = db-IsSound;
  tracked = record { indexed = new-IsIndexed; issued = λ s x l. absurd cc };
}

run-IsConsistent_example : IsConsistent env (run session env start)
run-IsConsistent_example = run-IsConsistent session env start draws_apart start-IsConsistent

faultless : NoFaults env
faultless n = refl

eve_denied : allowed (Call.send eve 10 hello) world.db ≡ false
unfolding allowed can
eve_denied = refl

-- Eve is no member of channel 10, and a guest besides.
serve-denied_example :
    let (failed, w') = serve (Call.send eve 10 hello) env world in
    (failed ≡ true)
    × (w'.db ≡ world.db)
    × (w'.out ≡ world.out)
    × (w'.hub ≡ world.hub)
    × (w'.disk ≡ world.disk)
serve-denied_example = serve-denied (Call.send eve 10 hello) env world eve_denied

-- Ada replies to a message that is not there.
abbrev lost_reply : Call
lost_reply =
    Call.send ada 10 (record { content = text "hi"; parent_id = some 999; attachment_ids = [] })

lost_reply_fails : (serve lost_reply env world).0 ≡ true
unfolding serve send_message require require_member check_parent parent_in_channel is_blank
    is_whitespace ◌>>=◌ query execute answer valid_send can
lost_reply_fails = refl

serve-failed_example :
    let (failed, w') = serve lost_reply env world in (w'.db ≡ world.db) × (w'.out ≡ world.out)
serve-failed_example = serve-failed lost_reply env world faultless lost_reply_fails

samples_distinct : AreDistinct db.messages
samples_distinct = (refl, (refl, (refl, tt)))

walk-timeline_example : walk (suc (length (timeline 10 db))) 10 (suc 0) none db ≡ timeline 10 db
walk-timeline_example = walk-timeline 10 db samples_distinct 0

extract_mentions_lem_example :
    Increasing (extract_mentions env (text "hi @Bob_Jones, @ada"))
    × ((m : Text)
        → any (text_eq m) (extract_mentions env (text "hi @Bob_Jones, @ada"))
          ≡ any (mentions env m) (tokens (text "hi @Bob_Jones, @ada")))
extract_mentions_lem_example = extract_mentions_lem env (text "hi @Bob_Jones, @ada")

mentions_run :
    extract_mentions env (text "hi @Bob_Jones, @ada @ab") ≡ text "ada" ∷ text "bob_jones" ∷ []
unfolding extract_mentions
mentions_run = refl

round_trip_twice_example :
    sent_to 7 (round_trip 10 (message_deleted 10 100) env world).out
    ≡ 2 * sent_to 7 (map deliver (dispatch_channel world.hub 10 (message_deleted 10 100)))
round_trip_twice_example = round_trip_twice 10 (message_deleted 10 100) env world 7 refl

abbrev thumb : ℕ → ℕ → Reaction
thumb i u = record { id = i; message_id = 100; user_id = u; emoji = text "+1"; created_at = i }

react_map_lem_example :
    AreGroups (groups_of 100 (react_map (thumb 1 1 ∷ thumb 2 2 ∷ []) []))
    × ((t : Text)
        → counted t (groups_of 100 (react_map (thumb 1 1 ∷ thumb 2 2 ∷ []) []))
          ≡ count_where (of_message 100 t) (thumb 1 1 ∷ thumb 2 2 ∷ []))
react_map_lem_example = react_map_lem 100 (thumb 1 1 ∷ thumb 2 2 ∷ [])

enrich-Gives_example :
    Gives (λ vs. map (λ v. v.message) vs ≡ note 100 1 none 1 ∷ []) (enrich (note 100 1 none 1 ∷ []))
enrich-Gives_example = enrich-Gives (note 100 1 none 1 ∷ [])

abbrev shown : MessageView
shown = record {
  message = note 101 2 (some 100) 0;
  author = to_public (person 2 (text "bob_jones") UserRole.member);
  attachments = [];
  reactions = [];
}

serve-hub_example :
    (serve_request (Request.on_messages (Call.expel ada 10 2)) env world).1.hub ≡ world.hub
serve-hub_example = serve-hub (Request.on_messages (Call.expel ada 10 2)) env world refl

-- Bob replies to Ada's message.
abbrev answer_to_ada : SendMessageRequest
answer_to_ada = record { content = text "sure, @Ada"; parent_id = some 100; attachment_ids = [] }

answer_is_valid : valid_send answer_to_ada ≡ true
unfolding valid_send
answer_is_valid = refl

bob_may_send : can bob.role Permission.send_message ≡ true
unfolding can
bob_may_send = refl

answer_is_filled :
    (is_blank answer_to_ada.content && no_attachments answer_to_ada.attachment_ids) ≡ false
unfolding is_blank
answer_is_filled = refl

send_message-answers_example :
    Ended
      (λ v w.
        (v.message ≡ posted bob 10 answer_to_ada env world)
        × (w.db.messages
            ≡ note 100 1 none 2
              ∷ note 101 2 (some 100) 0
              ∷ note 102 2 none 0
              ∷ posted bob 10 answer_to_ada env world
              ∷ []))
      (send_message bob 10 answer_to_ada env world)
send_message-answers_example =
    send_message-answers env faultless world bob 10 answer_to_ada refl refl refl refl refl
      MemberRole.member answer_is_valid bob_may_send refl answer_is_filled

abbrev older : HistoryQuery
older = record { before = some 102; after = none; limit = pos 1 }

history-Shown_example :
    Ended
      (λ h w. Shown 1 (note 100 1 none 1 ∷ []) h × AllRead 10 2 w.db.messages w.db.channel_members)
      (history bob 10 older env world)
history-Shown_example =
    history-Shown bob 10 older 1 (note 100 1 none 1 ∷ []) env world MemberRole.member faultless
      samples_distinct refl refl (omega arith) (omega arith) ([], note 102 2 none 0, refl, refl)
      (omega arith, (omega arith, (omega arith, tt)))

dispatch_notifications-spares_example :
    notified 2 (dispatch_notifications 10 shown (some 100) env world).1.db ≡ notified 2 world.db
dispatch_notifications-spares_example = dispatch_notifications-spares 10 shown (some 100) env world

mark_read-answers_example :
    Ended
      (λ _ w.
        AllRead 10 2 w.db.messages w.db.channel_members
        × (any (unread_in 10 2) w.db.notifications ≡ false))
      (mark_read bob 10 env world)
mark_read-answers_example =
    mark_read-answers bob 10 env world MemberRole.member faultless refl
      (omega arith, (omega arith, (omega arith, tt)))
