-- ===== src/Server/Frames.antt =====
-- handlers/: no HTTP handler changes the hub.
use rsmc_engine.Base.{ℕ, Option, none, some, List, [], ◌∷◌, HashMap, Text, lookup, remove}
use rsmc_engine.Models.{
  Message, MessageView, Attachment, ReactionGroup, UserPublic, ServerEvent, MemberRole, Permission,
  SendMessageRequest, EditMessageRequest, ReactionRequest, HistoryQuery, NotificationKind, Payload,
}
use rsmc_engine.App.{Env, Quiet, quietly, bind-Quiet, pure-Quiet, local-Quiet}
use rsmc_engine.Services.Access.{
  AuthUser, require, require_member, require_channel_admin, admin_only,
}
use rsmc_engine.Services.Events.{emit_channel, emit_user}
use rsmc_engine.Services.Notifications.{notify, extract_mentions}
use rsmc_engine.Handlers.Messages.Store.{store_message, attach, bump_parent}
use rsmc_engine.Handlers.Messages.Enrich.{enrich, enrich_all, enrich_one, views, author_or, one}
use rsmc_engine.Handlers.Messages.Alerts.{
  dispatch_notifications, try_notify, root_author, notify_direct, notify_root, notify_mentioned,
  notify_named,
}
use rsmc_engine.Handlers.Messages.{
  check_parent, send_message, history, thread, edit_message, delete_message, add_reaction,
  remove_reaction, message_channel,
}

pub require-Quiet : (u : AuthUser) (p : Permission) → Quiet (require u p)
unfolding require
require-Quiet u p = search quietly

pub require_member-Quiet : (c u : ℕ) → Quiet (require_member c u)
unfolding require_member
require_member-Quiet c u = search quietly

admin_only-Quiet : (r : MemberRole) → Quiet (admin_only r)
admin_only-Quiet MemberRole.owner = search quietly
admin_only-Quiet MemberRole.admin = search quietly
admin_only-Quiet MemberRole.member = search quietly

pub require_channel_admin-Quiet : (c u : ℕ) → Quiet (require_channel_admin c u)
unfolding require_channel_admin
require_channel_admin-Quiet c u = search (quietly, require_member-Quiet, admin_only-Quiet)

pub emit_channel-Quiet : (c : ℕ) (x : ServerEvent) → Quiet (emit_channel c x)
unfolding emit_channel
emit_channel-Quiet c x = search quietly

pub emit_user-Quiet : (u : ℕ) (x : ServerEvent) → Quiet (emit_user u x)
unfolding emit_user
emit_user-Quiet u x = search quietly

author_or-Quiet : (i : ℕ) (o : Option UserPublic) → Quiet (author_or i o)
unfolding author_or
author_or-Quiet i none = search quietly
author_or-Quiet i (some u) = search quietly

views-Quiet :
    (us : HashMap UserPublic) (as' : HashMap (List Attachment)) (rs : HashMap (List ReactionGroup))
    (ms : List Message)
    → Quiet (views us as' rs ms)
unfolding views
views-Quiet us as' rs [] = search quietly
views-Quiet us as' rs (m ∷ ms) =
    bind-Quiet (author_or-Quiet m.user_id (lookup m.user_id us))
      λ a. bind-Quiet (views-Quiet us (remove m.id as') (remove m.id rs) ms) λ v. pure-Quiet _

enrich-Quiet : (ms : List Message) → Quiet (enrich ms)
unfolding enrich enrich_all
enrich-Quiet [] = search quietly
enrich-Quiet (m ∷ ms) = search (quietly, views-Quiet)

one-Quiet : (vs : List MessageView) → Quiet (one vs)
unfolding one
one-Quiet [] = search quietly
one-Quiet (v ∷ vs) = search quietly

enrich_one-Quiet : (m : Message) → Quiet (enrich_one m)
unfolding enrich_one
enrich_one-Quiet m = search (quietly, enrich-Quiet, one-Quiet)

pub notify-Quiet : (u : ℕ) (k : NotificationKind) (p : Payload) → Quiet (notify u k p)
unfolding notify
notify-Quiet u k p = search (quietly, emit_user-Quiet)

try_notify-Quiet :
    (v : MessageView) (c : ℕ) (k : NotificationKind) (u : ℕ) → Quiet (try_notify v c k u)
unfolding try_notify
try_notify-Quiet v c k u = search (quietly, notify-Quiet)

root_author-Quiet :
    (v : MessageView) (c : ℕ) (o : Option (Option Message)) → Quiet (root_author v c o)
unfolding root_author
root_author-Quiet v c none = search quietly
root_author-Quiet v c (some none) = search quietly
root_author-Quiet v c (some (some r)) = search (quietly, try_notify-Quiet)

named-Quiet : (e : Env) (ms : List Text) (v : MessageView) (c : ℕ) → Quiet (notify_named e ms v c)
unfolding notify_named
named-Quiet e ms v c = search (quietly, try_notify-Quiet)

mentioned-Quiet : (v : MessageView) (c : ℕ) → Quiet (notify_mentioned v c)
unfolding notify_mentioned
mentioned-Quiet v c = local-Quiet (λ e. named-Quiet e (extract_mentions e v.message.content) v c)

dispatch_notifications-Quiet :
    (c : ℕ) (v : MessageView) (p : Option ℕ) → Quiet (dispatch_notifications c v p)
unfolding dispatch_notifications notify_direct notify_root
dispatch_notifications-Quiet c v none = search (quietly, try_notify-Quiet, mentioned-Quiet) depth 12
dispatch_notifications-Quiet c v (some p) =
    search (quietly, root_author-Quiet, mentioned-Quiet) depth 12

check_parent-Quiet : (c : ℕ) (p : Option ℕ) → Quiet (check_parent c p)
unfolding check_parent
check_parent-Quiet c none = search quietly
check_parent-Quiet c (some p) = search quietly

attach-Quiet : (m c u a : ℕ) → Quiet (attach m c u a)
unfolding attach
attach-Quiet m c u a = search quietly

bump_parent-Quiet : (p : Option ℕ) → Quiet (bump_parent p)
unfolding bump_parent
bump_parent-Quiet none = search quietly
bump_parent-Quiet (some p) = search quietly

store_message-Quiet : (u c : ℕ) (req : SendMessageRequest) → Quiet (store_message u c req)
unfolding store_message
store_message-Quiet u c req = search (quietly, attach-Quiet, bump_parent-Quiet) depth 15

pub send_message-Quiet :
    (user : AuthUser) (c : ℕ) (req : SendMessageRequest) → Quiet (send_message user c req)
unfolding send_message
send_message-Quiet user c req =
    search
      (
        quietly, require-Quiet, require_member-Quiet, check_parent-Quiet, store_message-Quiet,
        enrich_one-Quiet, emit_channel-Quiet, dispatch_notifications-Quiet,
      )
      depth 20

pub history-Quiet : (user : AuthUser) (c : ℕ) (q : HistoryQuery) → Quiet (history user c q)
unfolding history
history-Quiet user c q = search (quietly, require_member-Quiet, enrich-Quiet) depth 15

pub thread-Quiet : (user : AuthUser) (m : ℕ) → Quiet (thread user m)
unfolding thread
thread-Quiet user m = search (quietly, require_member-Quiet, enrich-Quiet) depth 15

pub edit_message-Quiet :
    (user : AuthUser) (m : ℕ) (req : EditMessageRequest) → Quiet (edit_message user m req)
unfolding edit_message
edit_message-Quiet user m req = search (quietly, enrich_one-Quiet, emit_channel-Quiet) depth 20

pub delete_message-Quiet : (user : AuthUser) (m : ℕ) → Quiet (delete_message user m)
unfolding delete_message
delete_message-Quiet user m =
    search (quietly, require_channel_admin-Quiet, emit_channel-Quiet) depth 15

message_channel-Quiet : (m : ℕ) → Quiet (message_channel m)
unfolding message_channel
message_channel-Quiet m = search quietly

pub add_reaction-Quiet :
    (user : AuthUser) (m : ℕ) (req : ReactionRequest) → Quiet (add_reaction user m req)
unfolding add_reaction
add_reaction-Quiet user m req =
    search (quietly, message_channel-Quiet, require_member-Quiet, emit_channel-Quiet) depth 20

pub remove_reaction-Quiet :
    (user : AuthUser) (m : ℕ) (req : ReactionRequest) → Quiet (remove_reaction user m req)
unfolding remove_reaction
remove_reaction-Quiet user m req =
    search (quietly, message_channel-Quiet, require_member-Quiet, emit_channel-Quiet) depth 20
