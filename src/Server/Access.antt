-- ===== src/Server/Access.antt =====
-- services/access.rs and the guards of handlers/: who may do what, and what a refused call leaves.
use rsmc_engine.Base.{
  ℕ, ◌≡◌, Bool, true, false, not, ◌||◌, ◌&&◌, Option, none, some, ◌==◌, find, arith,
}
use rsmc_engine.Models.{
  Permission, can, Message, SendMessageRequest, EditMessageRequest, ReactionRequest, HistoryQuery,
  CreateChannelRequest, UpdateChannelRequest,
}
use rsmc_engine.Db.{Db}
use rsmc_engine.App.{
  Env, World, Refuses, first-Refuses, query-Refuses, fail_if-Refuses, or_fail-Refuses,
  lookup-Refuses, fail_if-true-Refuses, when-true-Refuses,
}
use rsmc_engine.Services.Access.{AuthUser, require}
use rsmc_engine.Handlers.Messages.Store.{with_id, is_live}
use rsmc_engine.Handlers.Messages.{
  send_message, history, thread, edit_message, delete_message, add_reaction, remove_reaction,
  message_channel,
}
use rsmc_engine.Handlers.Channels.{
  create_channel, create_direct, mark_read, list_receipts, get_channel, update_channel,
  list_members, add_member, remove_member,
}
use rsmc_engine.Services.Access.Denials.{
  is_member, is_manager, require_member-Refuses, require_channel_admin-Refuses,
}
use rsmc_engine.Server.{Call, serve}

abbrev pub live_message : (message_id : ℕ) → Db → Option Message
live_message m d = find (λ x. with_id m x && is_live x) d.messages

-- What the API promises: members read and write, authors edit, authors and managers delete,
-- managers run a channel, and anyone may leave.
unfoldable pub allowed : Call → Db → Bool
allowed (Call.send user c req) d = can user.role Permission.send_message && is_member c user.id d
allowed (Call.page user c q) d = is_member c user.id d
allowed (Call.replies user m) d = elim (find (with_id m) d.messages) [
  | none ↦ false
  | some x ↦ is_member x.channel_id user.id d
]
allowed (Call.edit user m req) d = elim (live_message m d) [
  | none ↦ false
  | some x ↦ x.user_id == user.id
]
allowed (Call.delete user m) d = elim (find (with_id m) d.messages) [
  | none ↦ false
  | some x ↦ x.user_id == user.id || is_manager x.channel_id user.id d
]
allowed (Call.react user m req) d = elim (live_message m d) [
  | none ↦ false
  | some x ↦ is_member x.channel_id user.id d
]
allowed (Call.unreact user m req) d = elim (live_message m d) [
  | none ↦ false
  | some x ↦ is_member x.channel_id user.id d
]
allowed (Call.create user req) d = can user.role Permission.create_channel
allowed (Call.create_dm user u) d = not (u == user.id)
allowed (Call.read user c) d = is_member c user.id d
allowed (Call.receipts user c) d = is_member c user.id d
allowed (Call.channel user c) d = is_member c user.id d
allowed (Call.update user c req) d = is_manager c user.id d
allowed (Call.members user c) d = is_member c user.id d
allowed (Call.invite user c u) d = is_manager c user.id d
allowed (Call.expel user c u) d = u == user.id || is_manager c user.id d
allowed _ d = true

send_message-Refuses :
    (user : AuthUser) (c : ℕ) (req : SendMessageRequest)
    → Refuses (λ d. allowed (Call.send user c req) d ≡ false) (send_message user c req)
unfolding send_message require allowed
send_message-Refuses user c req = fail_if-Refuses _ _ _ λ _.
    fail_if-Refuses _ _ _
      λ may. first-Refuses _ (require_member-Refuses c user.id (λ d p. ground arith))

history-Refuses :
    (user : AuthUser) (c : ℕ) (q : HistoryQuery)
    → Refuses (λ d. allowed (Call.page user c q) d ≡ false) (history user c q)
unfolding history allowed
history-Refuses user c q = first-Refuses _ (require_member-Refuses c user.id (λ d p. p))

thread-Refuses :
    (user : AuthUser) (m : ℕ)
    → Refuses (λ d. allowed (Call.replies user m) d ≡ false) (thread user m)
unfolding thread allowed
thread-Refuses user m = query-Refuses _ λ found. or_fail-Refuses found _ λ c here.
    first-Refuses _ (require_member-Refuses c user.id (λ d (p, q). ground (arith, p, q, here)))

edit_message-Refuses :
    (user : AuthUser) (m : ℕ) (req : EditMessageRequest)
    → Refuses (λ d. allowed (Call.edit user m req) d ≡ false) (edit_message user m req)
unfolding edit_message allowed
edit_message-Refuses user m req = fail_if-Refuses _ _ _ λ _. query-Refuses _ λ found.
    or_fail-Refuses found _ λ owner here.
      first-Refuses _ (fail_if-true-Refuses _ _ (λ d (p, q). ground (arith, p, q, here)))

delete_message-Refuses :
    (user : AuthUser) (m : ℕ)
    → Refuses (λ d. allowed (Call.delete user m) d ≡ false) (delete_message user m)
unfolding delete_message allowed
delete_message-Refuses user m = query-Refuses _ λ row. or_fail-Refuses row _ λ oc here.
    first-Refuses _ (
      when-true-Refuses _ (λ d (p, q). ground (arith, p, q, here))
        (require_channel_admin-Refuses oc.1 user.id (λ d (p, q). ground (arith, p, q, here))))

add_reaction-Refuses :
    (user : AuthUser) (m : ℕ) (req : ReactionRequest)
    → Refuses (λ d. allowed (Call.react user m req) d ≡ false) (add_reaction user m req)
unfolding add_reaction message_channel allowed
add_reaction-Refuses user m req = fail_if-Refuses _ _ _ λ _.
    lookup-Refuses _ _ _
      λ c. first-Refuses _ (require_member-Refuses c user.id (λ d (p, q). ground (arith, p, q)))

remove_reaction-Refuses :
    (user : AuthUser) (m : ℕ) (req : ReactionRequest)
    → Refuses (λ d. allowed (Call.unreact user m req) d ≡ false) (remove_reaction user m req)
unfolding remove_reaction message_channel allowed
remove_reaction-Refuses user m req = fail_if-Refuses _ _ _ λ _.
    lookup-Refuses _ _ _
      λ c. first-Refuses _ (require_member-Refuses c user.id (λ d (p, q). ground (arith, p, q)))

create_channel-Refuses :
    (user : AuthUser) (req : CreateChannelRequest)
    → Refuses (λ d. allowed (Call.create user req) d ≡ false) (create_channel user req)
unfolding create_channel require allowed
create_channel-Refuses user req =
    fail_if-Refuses _ _ _ λ _. first-Refuses _ (fail_if-true-Refuses _ _ (λ d p. ground arith))

create_direct-Refuses :
    (user : AuthUser) (u : ℕ)
    → Refuses (λ d. allowed (Call.create_dm user u) d ≡ false) (create_direct user u)
unfolding create_direct allowed
create_direct-Refuses user u = first-Refuses _ (fail_if-true-Refuses _ _ (λ d p. ground arith))

mark_read-Refuses :
    (user : AuthUser) (c : ℕ)
    → Refuses (λ d. allowed (Call.read user c) d ≡ false) (mark_read user c)
unfolding mark_read allowed
mark_read-Refuses user c = first-Refuses _ (require_member-Refuses c user.id (λ d p. p))

list_receipts-Refuses :
    (user : AuthUser) (c : ℕ)
    → Refuses (λ d. allowed (Call.receipts user c) d ≡ false) (list_receipts user c)
unfolding list_receipts allowed
list_receipts-Refuses user c = first-Refuses _ (require_member-Refuses c user.id (λ d p. p))

get_channel-Refuses :
    (user : AuthUser) (c : ℕ)
    → Refuses (λ d. allowed (Call.channel user c) d ≡ false) (get_channel user c)
unfolding get_channel allowed
get_channel-Refuses user c = first-Refuses _ (require_member-Refuses c user.id (λ d p. p))

update_channel-Refuses :
    (user : AuthUser) (c : ℕ) (req : UpdateChannelRequest)
    → Refuses (λ d. allowed (Call.update user c req) d ≡ false) (update_channel user c req)
unfolding update_channel allowed
update_channel-Refuses user c req =
    fail_if-Refuses _ _ _ λ _. first-Refuses _ (require_channel_admin-Refuses c user.id (λ d p. p))

list_members-Refuses :
    (user : AuthUser) (c : ℕ)
    → Refuses (λ d. allowed (Call.members user c) d ≡ false) (list_members user c)
unfolding list_members allowed
list_members-Refuses user c = first-Refuses _ (require_member-Refuses c user.id (λ d p. p))

add_member-Refuses :
    (user : AuthUser) (c u : ℕ)
    → Refuses (λ d. allowed (Call.invite user c u) d ≡ false) (add_member user c u)
unfolding add_member allowed
add_member-Refuses user c u = first-Refuses _ (require_channel_admin-Refuses c user.id (λ d p. p))

remove_member-Refuses :
    (user : AuthUser) (c u : ℕ)
    → Refuses (λ d. allowed (Call.expel user c u) d ≡ false) (remove_member user c u)
unfolding remove_member allowed
remove_member-Refuses user c u = first-Refuses _ (
    when-true-Refuses _ (λ d p. ground arith)
      (require_channel_admin-Refuses c user.id (λ d p. ground arith)))

-- A call that the access rules do not allow fails, and leaves the tables, the hub and the files as
-- they were and nothing sent, published or queued.
pub serve-denied :
    (c : Call) (e : Env) (w : World)
    → allowed c w.db ≡ false
    → let (failed, w') = serve c e w in
      (failed ≡ true) × (w'.db ≡ w.db) × (w'.out ≡ w.out) × (w'.hub ≡ w.hub) × (w'.disk ≡ w.disk)
unfolding serve allowed
serve-denied (Call.send user c req) e w denied = (send_message-Refuses user c req).run e w denied
serve-denied (Call.page user c q) e w denied = (history-Refuses user c q).run e w denied
serve-denied (Call.replies user m) e w denied = (thread-Refuses user m).run e w denied
serve-denied (Call.edit user m req) e w denied = (edit_message-Refuses user m req).run e w denied
serve-denied (Call.delete user m) e w denied = (delete_message-Refuses user m).run e w denied
serve-denied (Call.react user m req) e w denied = (add_reaction-Refuses user m req).run e w denied
serve-denied (Call.unreact user m req) e w denied =
    (remove_reaction-Refuses user m req).run e w denied
serve-denied (Call.create user req) e w denied = (create_channel-Refuses user req).run e w denied
serve-denied (Call.create_dm user u) e w denied = (create_direct-Refuses user u).run e w denied
serve-denied (Call.read user c) e w denied = (mark_read-Refuses user c).run e w denied
serve-denied (Call.receipts user c) e w denied = (list_receipts-Refuses user c).run e w denied
serve-denied (Call.channel user c) e w denied = (get_channel-Refuses user c).run e w denied
serve-denied (Call.update user c req) e w denied =
    (update_channel-Refuses user c req).run e w denied
serve-denied (Call.members user c) e w denied = (list_members-Refuses user c).run e w denied
serve-denied (Call.invite user c u) e w denied = (add_member-Refuses user c u).run e w denied
serve-denied (Call.expel user c u) e w denied = (remove_member-Refuses user c u).run e w denied
serve-denied _ e w denied = absurd (ground (arith, denied))
