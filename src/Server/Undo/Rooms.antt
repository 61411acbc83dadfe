-- ===== src/Server/Undo/Rooms.antt =====
-- handlers/channels.rs: a call that fails undoes everything, when no statement is lost.
use rsmc_engine.Base.{ℕ, ◌≡◌, refl, Option, none, some}
use rsmc_engine.Models.{Channel, CreateChannelRequest, UpdateChannelRequest}
use rsmc_engine.Error.{Result, ok, err, database, unique_violation}
use rsmc_engine.App.{
  M, Env, World, Still, Silent, Atomic, bind-Still, bind-Silent, bind-Sure, bind-Atomic,
  then-Atomic, Still-Atomic, Still-Silent, execute-Atomic, execute-Silent, execute-Sure,
  transaction-Atomic, for_each-Silent, pure-Still, new_v4-Still, now-Still, now-Sure, query-Still,
  fail_if-Still, when-Still, stilly, surely, execute,
}
use rsmc_engine.Services.Access.{AuthUser}
use rsmc_engine.Handlers.Channels.Store.{insert_channel, clear_notifications}
use rsmc_engine.Handlers.Channels.{
  create_channel, store_channel, create_row, name_taken, add_initial, create_direct, or_create,
  store_direct, mark_read, list_receipts, list_channels, get_channel, update_channel, list_members,
  add_member, remove_member,
}
use rsmc_engine.Server.Rollback.{
  require-Still, require_member-Still, require_channel_admin-Still, emit_channel-Sure,
}

create_row-Silent : (c : Channel) → Silent (λ e w. create_row e w c)
unfolding create_row name_taken
create_row-Silent c = record {
  run = λ e w.
      renamed w (execute (insert_channel e c) e w) ((execute-Silent (insert_channel e c)).run e w);
}
  where
    renamed :
        (w : World) (r : Result Channel × World) → r.1.out ≡ w.out → (name_taken r).1.out ≡ w.out
    renamed w (ok a, w') h = h
    renamed w (err (database unique_violation), w') h = h
    renamed w (err _, w') h = h

local-Silent : {A : Type 0} {m : Env → M A} → ((e : Env) → Silent (m e)) → Silent (λ e. m e e)
local-Silent t = record { run = λ e w. (t e).run e w }

pub local-Atomic : {A : Type 0} {m : Env → M A} → ((e : Env) → Atomic (m e)) → Atomic (λ e. m e e)
local-Atomic t = record { run = λ e w n bad. (t e).run e w n bad }

pub local-Still : {A : Type 0} {m : Env → M A} → ((e : Env) → Still (m e)) → Still (λ e. m e e)
local-Still t = record { run = λ e w. (t e).run e w }

store_channel-Silent : (u : ℕ) (req : CreateChannelRequest) → Silent (store_channel u req)
unfolding store_channel add_initial
store_channel-Silent u req = bind-Silent (Still-Silent now-Still) λ at.
    bind-Silent (Still-Silent new_v4-Still) λ id. bind-Silent (create_row-Silent _) λ c.
      bind-Silent (execute-Silent _) λ _.
        bind-Silent
          (for_each-Silent _
            (λ m. bind-Silent (execute-Silent _) λ _. Still-Silent (pure-Still tt)))
          λ _. Still-Silent (pure-Still c)

pub create_channel-Atomic :
    (user : AuthUser) (req : CreateChannelRequest) → Atomic (create_channel user req)
unfolding create_channel
create_channel-Atomic user req = bind-Atomic (fail_if-Still _ _) λ _.
    bind-Atomic (require-Still user _) λ _. transaction-Atomic (store_channel-Silent user.id req)

store_direct-Silent : (u v : ℕ) → Silent (store_direct u v)
unfolding store_direct
store_direct-Silent u v = bind-Silent (Still-Silent now-Still) λ at.
    bind-Silent (Still-Silent new_v4-Still) λ id.
      bind-Silent (local-Silent λ e. execute-Silent _) λ c.
        bind-Silent (execute-Silent _)
          λ _. bind-Silent (execute-Silent _) λ _. Still-Silent (pure-Still c)

pub or_create-Atomic : (u v : ℕ) (o : Option Channel) → Atomic (or_create u v o)
unfolding or_create
or_create-Atomic u v none = transaction-Atomic (store_direct-Silent u v)
or_create-Atomic u v (some c) = Still-Atomic (pure-Still c)

pub create_direct-Atomic : (user : AuthUser) (u : ℕ) → Atomic (create_direct user u)
unfolding create_direct
create_direct-Atomic user u =
    bind-Atomic (fail_if-Still _ _)
      λ _. bind-Atomic (query-Still _) λ o. or_create-Atomic user.id u o

pub mark_read-Atomic : (user : AuthUser) (c : ℕ) → Atomic (mark_read user c)
unfolding mark_read clear_notifications
mark_read-Atomic user c = bind-Atomic (require_member-Still c user.id) λ _.
    bind-Atomic now-Still λ at. then-Atomic (execute-Atomic _) λ t.
      bind-Sure now-Sure λ later. bind-Sure (execute-Sure _ (λ d. refl)) λ _. emit_channel-Sure c _

pub list_receipts-Still : (user : AuthUser) (c : ℕ) → Still (list_receipts user c)
unfolding list_receipts
list_receipts-Still user c = search (stilly, require_member-Still)

pub list_channels-Still : (user : AuthUser) → Still (list_channels user)
unfolding list_channels
list_channels-Still user = search stilly

pub get_channel-Still : (user : AuthUser) (c : ℕ) → Still (get_channel user c)
unfolding get_channel
get_channel-Still user c = search (stilly, require_member-Still)

pub update_channel-Atomic :
    (user : AuthUser) (c : ℕ) (req : UpdateChannelRequest) → Atomic (update_channel user c req)
unfolding update_channel
update_channel-Atomic user c req = bind-Atomic (fail_if-Still _ _) λ _.
    bind-Atomic (require_channel_admin-Still c user.id)
      λ _. bind-Atomic now-Still λ at. local-Atomic λ e. execute-Atomic _

pub list_members-Still : (user : AuthUser) (c : ℕ) → Still (list_members user c)
unfolding list_members
list_members-Still user c =
    bind-Still (require_member-Still c user.id)
      λ _. bind-Still (local-Still λ e. query-Still _) λ ms. pure-Still _

pub add_member-Atomic : (user : AuthUser) (c u : ℕ) → Atomic (add_member user c u)
unfolding add_member
add_member-Atomic user c u =
    bind-Atomic (require_channel_admin-Still c user.id)
      λ _. bind-Atomic now-Still λ at. then-Atomic (execute-Atomic _) λ added. search surely

pub remove_member-Atomic : (user : AuthUser) (c u : ℕ) → Atomic (remove_member user c u)
unfolding remove_member
remove_member-Atomic user c u =
    bind-Atomic (when-Still _ (require_channel_admin-Still c user.id)) λ _. execute-Atomic _
