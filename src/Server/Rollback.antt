-- ===== src/Server/Rollback.antt =====
-- handlers/: a call that fails undoes everything, when no statement is lost.
use rsmc_engine.Base.{
  ℕ, ◌≡◌, refl, Option, none, some, List, [], ◌∷◌, map, HashMap, lookup, remove, Text,
}
use rsmc_engine.Models.{
  Message, MessageView, NotificationKind, Attachment, ReactionGroup, UserPublic, ServerEvent,
  MemberRole, Permission, SendMessageRequest, EditMessageRequest, ReactionRequest, HistoryQuery,
}
use rsmc_engine.App.{
  Env, Still, Silent, Sure, Atomic, bind-Silent, bind-Atomic, then-Atomic, Sure-Atomic,
  Still-Silent, execute-Atomic, execute-Silent, transaction-Atomic, for_each-Silent, when-Silent,
  pure-Still, new_v4-Still, now-Still, query-Still, query-Sure, fail_if-Still, or_fail-Still,
  when-Still, when-Sure, local-Sure, stilly, surely, Gives, bind-Gives, pure-Gives, Sure-Gives,
  Gives-Sure,
}
use rsmc_engine.Services.Access.{
  AuthUser, require, require_member, require_channel_admin, admin_only,
}
use rsmc_engine.Services.Events.{emit_channel, emit_user}
use rsmc_engine.Services.Notifications.{extract_mentions}
use rsmc_engine.Handlers.Messages.Store.{store_message, attach, bump_parent}
use rsmc_engine.Handlers.Messages.Enrich.{enrich, enrich_all, enrich_one, views, author_or, one}
use rsmc_engine.Handlers.Messages.Alerts.{
  dispatch_notifications, try_notify, root_author, notify_direct, notify_root, notify_mentioned,
  notify_named,
}
use rsmc_engine.Handlers.Messages.{
  check_parent, send_message, history, thread, edit_message, delete_message, add_reaction,
  remove_reaction, message_channel,
}

pub require-Still : (u : AuthUser) (p : Permission) → Still (require u p)
unfolding require
require-Still u p = search stilly

pub require_member-Still : (c u : ℕ) → Still (require_member c u)
unfolding require_member
require_member-Still c u = search stilly

admin_only-Still : (r : MemberRole) → Still (admin_only r)
admin_only-Still MemberRole.owner = search stilly
admin_only-Still MemberRole.admin = search stilly
admin_only-Still MemberRole.member = search stilly

pub require_channel_admin-Still : (c u : ℕ) → Still (require_channel_admin c u)
unfolding require_channel_admin
require_channel_admin-Still c u = search (stilly, require_member-Still, admin_only-Still)

pub emit_channel-Sure : (c : ℕ) (x : ServerEvent) → Sure (emit_channel c x)
unfolding emit_channel
emit_channel-Sure c x = search surely

pub emit_user-Sure : (u : ℕ) (x : ServerEvent) → Sure (emit_user u x)
unfolding emit_user
emit_user-Sure u x = search surely

author_or-Sure : (i : ℕ) (o : Option UserPublic) → Sure (author_or i o)
unfolding author_or
author_or-Sure i none = search surely
author_or-Sure i (some u) = search surely

-- One view per message, when no statement is lost.
views-Gives :
    (us : HashMap UserPublic) (as' : HashMap (List Attachment)) (rs : HashMap (List ReactionGroup))
    (ms : List Message)
    → Gives (λ vs. map (λ v. v.message) vs ≡ ms) (views us as' rs ms)
unfolding views
views-Gives us as' rs [] = pure-Gives [] refl
views-Gives us as' rs (m ∷ ms) =
    bind-Gives (λ _. Unit {0}) (Sure-Gives (author_or-Sure m.user_id (lookup m.user_id us)))
      λ a _.
        bind-Gives (λ vs. map (λ v. v.message) vs ≡ ms)
          (views-Gives us (remove m.id as') (remove m.id rs) ms) λ vs h. pure-Gives _ (rw h refl)

-- When no statement is lost, enriching a list of messages succeeds, and answers these messages in
-- this order.
pub enrich-Gives : (ms : List Message) → Gives (λ vs. map (λ v. v.message) vs ≡ ms) (enrich ms)
unfolding enrich enrich_all
enrich-Gives [] = pure-Gives [] refl
enrich-Gives (m ∷ ms) =
    bind-Gives (λ _. Unit {0}) (Sure-Gives (query-Sure _))
      λ us _.
        bind-Gives (λ _. Unit {0}) (Sure-Gives (query-Sure _))
          λ as' _.
            bind-Gives (λ _. Unit {0}) (Sure-Gives (query-Sure _))
              λ rs _. views-Gives _ _ _ (m ∷ ms)

one-Gives :
    (m : Message) (vs : List MessageView)
    → map (λ v. v.message) vs ≡ m ∷ []
    → Gives (λ v. v.message ≡ m) (one vs)
unfolding one
one-Gives m [] h = absurd cc
one-Gives m (v ∷ vs) h = pure-Gives v cc

pub enrich_one-Gives : (m : Message) → Gives (λ v. v.message ≡ m) (enrich_one m)
unfolding enrich_one
enrich_one-Gives m = bind-Gives _ (enrich-Gives (m ∷ [])) λ vs h. one-Gives m vs h

enrich_one-Sure : (m : Message) → Sure (enrich_one m)
enrich_one-Sure m = Gives-Sure (enrich_one-Gives m)

pub enrich-Sure : (ms : List Message) → Sure (enrich ms)
enrich-Sure ms = Gives-Sure (enrich-Gives ms)

try_notify-Sure :
    (v : MessageView) (c : ℕ) (k : NotificationKind) (u : ℕ) → Sure (try_notify v c k u)
unfolding try_notify
try_notify-Sure v c k u = search surely

root_author-Sure :
    (v : MessageView) (c : ℕ) (o : Option (Option Message)) → Sure (root_author v c o)
unfolding root_author
root_author-Sure v c none = search surely
root_author-Sure v c (some none) = search surely
root_author-Sure v c (some (some r)) = search (surely, try_notify-Sure)

named-Sure : (e : Env) (ms : List Text) (v : MessageView) (c : ℕ) → Sure (notify_named e ms v c)
unfolding notify_named
named-Sure e ms v c = search (surely, try_notify-Sure)

mentioned-Sure : (v : MessageView) (c : ℕ) → Sure (notify_mentioned v c)
unfolding notify_mentioned
mentioned-Sure v c = local-Sure (λ e. named-Sure e (extract_mentions e v.message.content) v c)

pub dispatch_notifications-Sure :
    (c : ℕ) (v : MessageView) (p : Option ℕ) → Sure (dispatch_notifications c v p)
unfolding dispatch_notifications notify_direct notify_root
dispatch_notifications-Sure c v none = search (surely, try_notify-Sure, mentioned-Sure) depth 12
dispatch_notifications-Sure c v (some p) =
    search (surely, root_author-Sure, mentioned-Sure) depth 12

check_parent-Still : (c : ℕ) (p : Option ℕ) → Still (check_parent c p)
unfolding check_parent
check_parent-Still c none = search stilly
check_parent-Still c (some p) = search stilly

bump_parent-Silent : (p : Option ℕ) → Silent (bump_parent p)
unfolding bump_parent
bump_parent-Silent none = Still-Silent (pure-Still tt)
bump_parent-Silent (some p) = execute-Silent _

store_message-Silent : (u c : ℕ) (req : SendMessageRequest) → Silent (store_message u c req)
unfolding store_message attach
store_message-Silent u c req = bind-Silent (Still-Silent now-Still) λ at.
    bind-Silent (Still-Silent new_v4-Still) λ id. bind-Silent (execute-Silent _) λ m.
      bind-Silent (bump_parent-Silent req.parent_id) λ _. bind-Silent (execute-Silent _) λ _.
        bind-Silent
          (for_each-Silent req.attachment_ids
            (λ a. bind-Silent (execute-Silent _) λ b. when-Silent b (execute-Silent _)))
          λ _. Still-Silent (pure-Still m)

pub send_message-Atomic :
    (user : AuthUser) (c : ℕ) (req : SendMessageRequest) → Atomic (send_message user c req)
unfolding send_message
send_message-Atomic user c req = bind-Atomic (fail_if-Still _ _) λ _.
    bind-Atomic (require-Still user _) λ _. bind-Atomic (require_member-Still c user.id) λ _.
      bind-Atomic (fail_if-Still _ _) λ _. bind-Atomic (check_parent-Still c req.parent_id) λ _.
        then-Atomic (transaction-Atomic (store_message-Silent user.id c req))
          λ m. search (surely, enrich_one-Sure, emit_channel-Sure, dispatch_notifications-Sure)

pub history-Atomic : (user : AuthUser) (c : ℕ) (q : HistoryQuery) → Atomic (history user c q)
unfolding history
history-Atomic user c q = bind-Atomic (require_member-Still c user.id) λ _.
    bind-Atomic (query-Still _) λ ms.
      bind-Atomic now-Still λ at. then-Atomic (execute-Atomic _) λ _. search (surely, enrich-Sure)

pub thread-Atomic : (user : AuthUser) (m : ℕ) → Atomic (thread user m)
unfolding thread
thread-Atomic user m = bind-Atomic (query-Still _) λ found. bind-Atomic (or_fail-Still found _) λ c.
    bind-Atomic (require_member-Still c user.id)
      λ _. bind-Atomic (query-Still _) λ ms. Sure-Atomic (enrich-Sure ms)

pub edit_message-Atomic :
    (user : AuthUser) (m : ℕ) (req : EditMessageRequest) → Atomic (edit_message user m req)
unfolding edit_message
edit_message-Atomic user m req = bind-Atomic (fail_if-Still _ _) λ _.
    bind-Atomic (query-Still _) λ found. bind-Atomic (or_fail-Still found _) λ owner.
      bind-Atomic (fail_if-Still _ _) λ _. bind-Atomic now-Still λ at.
        then-Atomic (execute-Atomic _) λ x. search (surely, enrich_one-Sure, emit_channel-Sure)

pub delete_message-Atomic : (user : AuthUser) (m : ℕ) → Atomic (delete_message user m)
unfolding delete_message
delete_message-Atomic user m = bind-Atomic (query-Still _) λ row.
    bind-Atomic (or_fail-Still row _) λ oc.
      bind-Atomic (when-Still _ (require_channel_admin-Still oc.1 user.id)) λ _.
        bind-Atomic now-Still λ at. then-Atomic (execute-Atomic _) λ _. emit_channel-Sure oc.1 _

message_channel-Still : (m : ℕ) → Still (message_channel m)
unfolding message_channel
message_channel-Still m = search stilly

pub add_reaction-Atomic :
    (user : AuthUser) (m : ℕ) (req : ReactionRequest) → Atomic (add_reaction user m req)
unfolding add_reaction
add_reaction-Atomic user m req = bind-Atomic (fail_if-Still _ _) λ _.
    bind-Atomic (message_channel-Still m) λ c. bind-Atomic (require_member-Still c user.id) λ _.
      bind-Atomic new_v4-Still λ id.
        bind-Atomic now-Still
          λ at. then-Atomic (execute-Atomic _) λ b. when-Sure b (emit_channel-Sure c _)

pub remove_reaction-Atomic :
    (user : AuthUser) (m : ℕ) (req : ReactionRequest) → Atomic (remove_reaction user m req)
unfolding remove_reaction
remove_reaction-Atomic user m req = bind-Atomic (fail_if-Still _ _) λ _.
    bind-Atomic (message_channel-Still m) λ c.
      bind-Atomic (require_member-Still c user.id)
        λ _. then-Atomic (execute-Atomic _) λ b. when-Sure b (emit_channel-Sure c _)
