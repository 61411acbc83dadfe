-- ===== src/Handlers/Channels/Store.antt =====
-- handlers/channels.rs and migrations/: the statements on channels and memberships.
use rsmc_engine.Base.{
  ℕ, Bool, true, false, not, ◌&&◌, ◌||◌, Option, none, some, List, [], ◌∷◌, ◌++◌, ◌==◌, ltb,
  if◌then◌else◌, map, Text, text_eq, is_some, find, select, update_where, delete_where, any,
  order_by, count_where,
}
use rsmc_engine.Error.{unique_violation, row_not_found}
use rsmc_engine.Models.{
  Channel, ChannelType, ChannelMember, MemberRole, ChannelWithMeta, ReadReceipt, Message,
  Notification, User,
}
use rsmc_engine.Db.{Db, Sql, rows, fails, user_exists, channel_exists, references}
use rsmc_engine.App.{Env}
use rsmc_engine.Services.Access.{is_row}

abbrev pub has_id : ℕ → Channel → Bool
has_id i c = c.id == i

-- The unique index on LOWER(name), for channels that have a name.
abbrev pub same_name : Env → Option Text → Channel → Bool
same_name e none c = false
same_name e (some n) c = elim c.name [ none ↦ false | some k ↦ text_eq (e.lower k) (e.lower n) ]

unfoldable pub insert_channel : Env → Channel → Db → Sql Channel
insert_channel e c d =
    if any (has_id c.id) d.channels || any (same_name e c.name) d.channels
    then fails unique_violation
    else references (user_exists c.created_by d)
        (rows c (record d { channels = d.channels ++ c ∷ [] }))

abbrev pub new_member : (channel_id user_id : ℕ) → MemberRole → (at : ℕ) → ChannelMember
new_member c u r at = record {
  channel_id = c;
  user_id = u;
  role = r;
  last_read_at = none;
  joined_at = at;
}

unfoldable pub push_member : ChannelMember → Db → Sql Bool
push_member m d =
    references (channel_exists m.channel_id d && user_exists m.user_id d)
      (rows true (record d { channel_members = d.channel_members ++ m ∷ [] }))

-- PRIMARY KEY (channel_id, user_id)
unfoldable pub insert_member : ChannelMember → Db → Sql Bool
unfolding push_member
insert_member m d =
    if any (is_row m.channel_id m.user_id) d.channel_members
    then fails unique_violation
    else push_member m d

-- The same with ON CONFLICT DO NOTHING; was a row added?
unfoldable pub add_member_row : ChannelMember → Db → Sql Bool
unfolding push_member
add_member_row m d =
    if any (is_row m.channel_id m.user_id) d.channel_members then rows false d else push_member m d

unfoldable pub remove_member_row : (channel_id user_id : ℕ) → Db → Sql (Unit {0})
remove_member_row c u d =
    rows tt (record d { channel_members = delete_where (is_row c u) d.channel_members })

abbrev pub is_direct : ChannelType → Bool
is_direct ChannelType.direct = true
is_direct _ = false

-- A direct channel with exactly two members, these two.
unfoldable pub direct_between : (a b : ℕ) → Db → Channel → Bool
direct_between a b d c =
    is_direct c.channel_type
    && (count_where (λ m. m.channel_id == c.id) d.channel_members == 2
        && (any (is_row c.id a) d.channel_members && any (is_row c.id b) d.channel_members))

abbrev pub read_at : Option ChannelMember → Db → Sql ℕ
read_at none d = fails row_not_found
read_at (some m) d = elim m.last_read_at [ none ↦ fails row_not_found | some t ↦ rows t d ]

-- UPDATE channel_members SET last_read_at = now() … RETURNING last_read_at
unfoldable pub advance_cursor : (channel_id user_id at : ℕ) → Db → Sql ℕ
advance_cursor c u at d =
    let updated =
      update_where (is_row c u) (λ (m : ChannelMember). record m { last_read_at = some at })
        d.channel_members in
    read_at (find (is_row c u) updated) (record d { channel_members = updated })

abbrev pub unread_in : (channel_id user_id : ℕ) → Notification → Bool
unread_in c u n = (n.user_id == u && not (is_some n.read_at)) && n.payload.channel_id == c

unfoldable pub clear_notifications : (channel_id user_id at : ℕ) → Db → Sql (Unit {0})
clear_notifications c u at d = rows tt (record d {
  notifications =
      update_where (unread_in c u) (λ n. record n { read_at = some at }) d.notifications;
})

receipt : ChannelMember → List ReadReceipt
receipt m = elim m.last_read_at [
  | none ↦ []
  | some t ↦ record { user_id = m.user_id; last_read_at = t } ∷ []
]

receipts : List ChannelMember → List ReadReceipt
unfolding receipt
receipts [] = []
receipts (m ∷ ms) = receipt m ++ receipts ms

unfoldable pub channel_receipts : (channel_id : ℕ) → Db → List ReadReceipt
unfolding receipts
channel_receipts c d = receipts (select (λ m. m.channel_id == c) d.channel_members)

abbrev after_read : Option ℕ → ℕ → Bool
after_read none t = true
after_read (some r) t = ltb r t

abbrev pub is_unread : (user_id : ℕ) → ChannelMember → Message → Bool
is_unread u m x =
    ((x.channel_id == m.channel_id && not (is_some x.deleted_at)) && not (x.user_id == u))
    && after_read m.last_read_at x.created_at

with_meta : (user_id : ℕ) → Db → Channel → List ChannelMember → List ChannelWithMeta
with_meta u d c ms =
    map
      (λ m. record {
        channel = c;
        unread_count = count_where (is_unread u m) d.messages;
        last_read_at = m.last_read_at;
      })
      (select (is_row c.id u) ms)

join_members : (user_id : ℕ) → Db → List Channel → List ChannelWithMeta
unfolding with_meta
join_members u d [] = []
join_members u d (c ∷ cs) = with_meta u d c d.channel_members ++ join_members u d cs

unfoldable pub channels_of : (user_id : ℕ) → Db → List ChannelWithMeta
unfolding join_members
channels_of u d =
    order_by (λ a b. ltb b.channel.updated_at a.channel.updated_at) (join_members u d d.channels)

abbrev coalesce : Option Text → Option Text → Option Text
coalesce none old = old
coalesce (some t) old = some t

unfoldable pub updated_channel : Option Channel → Db → Sql Channel
updated_channel none d = fails row_not_found
updated_channel (some c) d = rows c d

-- The trigger `channels_set_updated_at` writes `updated_at` on every update.
unfoldable pub update_channel_row :
    Env → (id : ℕ) → Option Text → Option Text → (at : ℕ) → Db → Sql Channel
unfolding updated_channel
update_channel_row e id name topic at d =
    let updated =
      update_where (has_id id)
        (λ (c : Channel). record c {
          name = coalesce name c.name;
          topic = coalesce topic c.topic;
          updated_at = at;
        })
        d.channels in
    if any (has_id id) d.channels && any (λ c. not (has_id id c) && same_name e name c) d.channels
    then fails unique_violation
    else updated_channel (find (has_id id) updated) (record d { channels = updated })

join_users : List User → List ChannelMember → List User
join_users us [] = []
join_users us (m ∷ ms) = select (λ u. u.id == m.user_id) us ++ join_users us ms

unfoldable pub members_of : Env → (channel_id : ℕ) → Db → List User
unfolding join_users
members_of e c d =
    order_by (λ a b. e.collate a.username b.username)
      (join_users d.users (select (λ m. m.channel_id == c) d.channel_members))
