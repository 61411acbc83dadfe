-- ===== src/Invariant/Channels.antt =====
-- handlers/channels.rs: every handler keeps the invariant of the tables.
use rsmc_engine.Base.{
  ℕ, ◌≡◌, refl, false, not, ◌&&◌, ◌||◌, Option, none, some, [], ◌∷◌, ◌++◌, any, Text, inl, inr,
  Option-cases, Bool-cases, delete-AtMostOnce, update-AtMostOnce,
}
use rsmc_engine.Models.{
  Channel, ChannelMember, CreateChannelRequest, UpdateChannelRequest, Permission,
}
use rsmc_engine.Error.{Result, ok, err, database, unique_violation}
use rsmc_engine.Db.{Db, channel_exists, user_exists}
use rsmc_engine.App.{
  Env, World, Keeps, Makes, Ends, bind-Keeps, pure-Keeps, query-Keeps, execute-Keeps,
  transaction-Keeps, fail_if-Keeps, new_v4-Triple, now-Triple, when-Triple, for_each-Triple,
  attempt-Triple, forget, keeping,
}
use rsmc_engine.Services.Access.{AuthUser, is_row}
use rsmc_engine.Handlers.Channels.Store.{
  insert_channel, insert_member, add_member_row, push_member, remove_member_row, advance_cursor,
  read_at, clear_notifications, update_channel_row, updated_channel, has_id, same_name, members_of,
}
use rsmc_engine.Handlers.Channels.{
  create_channel, store_channel, create_row, name_taken, add_initial, create_direct, or_create,
  store_direct, mark_read, list_receipts, list_channels, get_channel, update_channel, list_members,
  add_member, remove_member,
}
use rsmc_engine.Invariant.{IsSound, member_key, append-member}
use rsmc_engine.Invariant.Shared.{emit_channel-Keeps, notify-Keeps, notifications_apart}
use rsmc_engine.Services.Access.Frames.{
  require-Keeps, require_member-Keeps, require_channel_admin-Keeps,
}

module _ (d : Db) (h : IsSound d) where
  pub insert_channel-IsSound : (e : Env) (c : Channel) → Makes (λ _. IsSound) (insert_channel e c d)
  unfolding insert_channel
  insert_channel-IsSound e c =
      let kept : IsSound (record d { channels = d.channels ++ c ∷ [] }) = record {
        threaded = h.threaded;
        reacted_once = h.reacted_once;
        joined_once = h.joined_once;
      } in
      elim (Bool-cases (any (has_id c.id) d.channels || any (same_name e c.name) d.channels)) [
        | inl taken ↦ rw taken tt
        | inr free ↦
            rw free (elim (Bool-cases (user_exists c.created_by d)) [
              | inl u ↦ rw u kept
              | inr u ↦ rw u tt
            ])
      ]

  push_member-IsSound :
      (m : ChannelMember)
      → any (is_row m.channel_id m.user_id) d.channel_members ≡ false
      → Makes (λ _. IsSound) (push_member m d)
  unfolding push_member
  push_member-IsSound m new =
      let kept : IsSound (record d { channel_members = d.channel_members ++ m ∷ [] }) = record {
        threaded = h.threaded;
        reacted_once = h.reacted_once;
        joined_once = append-member m d.channel_members new h.joined_once;
      } in
      elim (Bool-cases (channel_exists m.channel_id d && user_exists m.user_id d)) [
        | inl u ↦ rw u kept
        | inr u ↦ rw u tt
      ]

  insert_member-IsSound : (m : ChannelMember) → Makes (λ _. IsSound) (insert_member m d)
  unfolding insert_member
  insert_member-IsSound m =
      elim (Bool-cases (any (is_row m.channel_id m.user_id) d.channel_members)) [
        | inl old ↦ rw old tt
        | inr new ↦ rw new (push_member-IsSound m new)
      ]

  pub add_member_row-IsSound : (m : ChannelMember) → Makes (λ _. IsSound) (add_member_row m d)
  unfolding add_member_row
  add_member_row-IsSound m =
      elim (Bool-cases (any (is_row m.channel_id m.user_id) d.channel_members)) [
        | inl old ↦ rw old h
        | inr new ↦ rw new (push_member-IsSound m new)
      ]

  remove_member_row-IsSound : (c u : ℕ) → Makes (λ _. IsSound) (remove_member_row c u d)
  unfolding remove_member_row
  remove_member_row-IsSound c u = record {
    threaded = h.threaded;
    reacted_once = h.reacted_once;
    joined_once = delete-AtMostOnce member_key _ d.channel_members h.joined_once;
  }

  advance_cursor-IsSound : (c u at : ℕ) → Makes (λ _. IsSound) (advance_cursor c u at d)
  unfolding advance_cursor
  advance_cursor-IsSound c u at = reads _ (record {
    threaded = h.threaded;
    reacted_once = h.reacted_once;
    joined_once = update-AtMostOnce member_key _ _ d.channel_members (λ k m. refl) h.joined_once;
  })
    where
      reads :
          {d' : Db} (o : Option ChannelMember) → IsSound d' → Makes (λ _. IsSound) (read_at o d')
      reads none k = tt
      reads (some m) k = elim (Option-cases m.last_read_at) [
        | inl e ↦ rw e tt
        | inr (t, e) ↦ rw e k
      ]

  clear_notifications-IsSound : (c u at : ℕ) → Makes (λ _. IsSound) (clear_notifications c u at d)
  unfolding clear_notifications
  clear_notifications-IsSound c u at = notifications_apart d _ h

  update_channel_row-IsSound :
      (e : Env) (i : ℕ) (n t : Option Text) (at : ℕ)
      → Makes (λ _. IsSound) (update_channel_row e i n t at d)
  unfolding update_channel_row
  update_channel_row-IsSound e i n t at =
      elim (Bool-cases
        (any (has_id i) d.channels && any (λ c. not (has_id i c) && same_name e n c) d.channels)) [
          | inl taken ↦ rw taken tt
          | inr free ↦ rw free (
              returned _ (record {
                threaded = h.threaded;
                reacted_once = h.reacted_once;
                joined_once = h.joined_once;
              }))
        ]
    where
      returned :
          {d' : Db} (o : Option Channel) → IsSound d' → Makes (λ _. IsSound) (updated_channel o d')
      returned none k = tt
      returned (some c) k = k

Ends-name_taken :
    {A : Type 0} (P E : Db → Type 0) (r : Result A × World)
    → Ends (λ _. P) E r
    → Ends (λ _. P) E (name_taken r)
unfolding name_taken
Ends-name_taken P E (ok a, w) h = h
Ends-name_taken P E (err (database unique_violation), w) h = h
Ends-name_taken P E (err _, w) h = h

create_row-IsSound : (c : Channel) → Keeps IsSound (λ e w. create_row e w c)
unfolding create_row
create_row-IsSound c = record {
  run = λ e w h.
      Ends-name_taken IsSound IsSound _
        ((execute-Keeps _ (λ d k. insert_channel-IsSound d k e c)).run e w h);
}

store_channel-IsSound : (u : ℕ) (req : CreateChannelRequest) → Keeps IsSound (store_channel u req)
unfolding store_channel add_initial
store_channel-IsSound u req = bind-Keeps now-Triple λ at. bind-Keeps new_v4-Triple λ id.
    bind-Keeps (create_row-IsSound _) λ c.
      bind-Keeps (execute-Keeps _ (λ d h. insert_member-IsSound d h _)) λ _.
        bind-Keeps
          (for_each-Triple _ (λ m.
            bind-Keeps (execute-Keeps _ (λ d h. add_member_row-IsSound d h _))
              (λ _. pure-Keeps tt)))
          λ _. pure-Keeps c

pub create_channel-IsSound :
    (user : AuthUser) (req : CreateChannelRequest) → Keeps IsSound (create_channel user req)
unfolding create_channel
create_channel-IsSound user req = bind-Keeps (fail_if-Keeps _ _) λ _.
    bind-Keeps (require-Keeps user Permission.create_channel)
      λ _. transaction-Keeps (forget (store_channel-IsSound user.id req))

store_direct-IsSound : (u v : ℕ) → Keeps IsSound (store_direct u v)
unfolding store_direct
store_direct-IsSound u v = bind-Keeps now-Triple λ at. bind-Keeps new_v4-Triple λ id.
    bind-Keeps
      (record {
        run = λ e w h. (execute-Keeps _ (λ d k. insert_channel-IsSound d k e _)).run e w h;
      })
      λ c.
        bind-Keeps (execute-Keeps _ (λ d h. insert_member-IsSound d h _))
          λ _. bind-Keeps (execute-Keeps _ (λ d h. insert_member-IsSound d h _)) λ _. pure-Keeps c

or_create-IsSound : (u v : ℕ) (o : Option Channel) → Keeps IsSound (or_create u v o)
unfolding or_create
or_create-IsSound u v none = transaction-Keeps (forget (store_direct-IsSound u v))
or_create-IsSound u v (some c) = pure-Keeps c

pub create_direct-IsSound : (user : AuthUser) (v : ℕ) → Keeps IsSound (create_direct user v)
unfolding create_direct
create_direct-IsSound user v = search (keeping, or_create-IsSound)

pub mark_read-IsSound : (user : AuthUser) (i : ℕ) → Keeps IsSound (mark_read user i)
unfolding mark_read
mark_read-IsSound user i = bind-Keeps (require_member-Keeps i user.id) λ _.
    bind-Keeps now-Triple λ at.
      bind-Keeps (execute-Keeps _ (λ d h. advance_cursor-IsSound d h i user.id at)) λ t.
        bind-Keeps now-Triple λ later.
          bind-Keeps (execute-Keeps _ (λ d h. clear_notifications-IsSound d h i user.id later))
            λ _. emit_channel-Keeps i _

pub list_receipts-IsSound : (user : AuthUser) (i : ℕ) → Keeps IsSound (list_receipts user i)
unfolding list_receipts
list_receipts-IsSound user i = search (keeping, require_member-Keeps)

pub list_channels-IsSound : (user : AuthUser) → Keeps IsSound (list_channels user)
unfolding list_channels
list_channels-IsSound user = search keeping

pub get_channel-IsSound : (user : AuthUser) (i : ℕ) → Keeps IsSound (get_channel user i)
unfolding get_channel
get_channel-IsSound user i = search (keeping, require_member-Keeps)

pub update_channel-IsSound :
    (user : AuthUser) (i : ℕ) (req : UpdateChannelRequest)
    → Keeps IsSound (update_channel user i req)
unfolding update_channel
update_channel-IsSound user i req = bind-Keeps (fail_if-Keeps _ _) λ _.
    bind-Keeps (require_channel_admin-Keeps i user.id) λ _. bind-Keeps now-Triple λ at. record {
      run = λ e w h.
          (execute-Keeps _ (λ d k. update_channel_row-IsSound d k e i req.name req.topic at)).run e
            w h;
    }

pub list_members-IsSound : (user : AuthUser) (i : ℕ) → Keeps IsSound (list_members user i)
unfolding list_members
list_members-IsSound user i = bind-Keeps (require_member-Keeps i user.id) λ _.
    bind-Keeps (record { run = λ e w h. (query-Keeps (members_of e i)).run e w h })
      λ ms. pure-Keeps _

pub add_member-IsSound : (user : AuthUser) (i u : ℕ) → Keeps IsSound (add_member user i u)
unfolding add_member
add_member-IsSound user i u = bind-Keeps (require_channel_admin-Keeps i user.id) λ _.
    bind-Keeps now-Triple λ at.
      bind-Keeps (execute-Keeps _ (λ d h. add_member_row-IsSound d h _)) λ added.
        when-Triple _
          (bind-Keeps (attempt-Triple (notify-Keeps notifications_apart u _ _)) λ _. pure-Keeps tt)

pub remove_member-IsSound : (user : AuthUser) (i u : ℕ) → Keeps IsSound (remove_member user i u)
unfolding remove_member
remove_member-IsSound user i u =
    bind-Keeps (when-Triple _ (require_channel_admin-Keeps i user.id))
      λ _. execute-Keeps _ (λ d h. remove_member_row-IsSound d h i u)
