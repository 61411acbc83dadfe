-- ===== src/Handlers/Messages/Store.antt =====
-- handlers/messages.rs and migrations/: the statements on messages, reactions and attachments.
use rsmc_engine.Base.{
  ℕ, ◌+◌, Bool, true, false, not, ◌&&◌, ◌||◌, Option, none, some, [], ◌∷◌, ◌++◌, ◌==◌, ltb,
  if◌then◌else◌, Text, text_eq, is_some, find, update_where, delete_where, any,
}
use rsmc_engine.Error.{unique_violation, other, row_not_found}
use rsmc_engine.Models.{Message, SendMessageRequest, Reaction}
use rsmc_engine.Db.{Db, Sql, rows, fails, user_exists, channel_exists, message_exists, references}
use rsmc_engine.App.{M, pure, ◌>>=◌, ◌>>◌, new_v4, now, execute, when, for_each}
use rsmc_engine.Services.Access.{is_row}

abbrev pub with_id : ℕ → Message → Bool
with_id i m = m.id == i

-- `deleted_at IS NULL`
abbrev pub is_live : Message → Bool
is_live m = not (is_some m.deleted_at)

abbrev pub is_reply_to : ℕ → Option ℕ → Bool
is_reply_to i none = false
is_reply_to i (some p) = p == i

-- ORDER BY created_at DESC, id DESC
abbrev pub newer : Message → Message → Bool
newer a b = ltb b.created_at a.created_at || (b.created_at == a.created_at && ltb b.id a.id)

unfoldable pub parent_in_channel : (channel_id parent : ℕ) → Db → Bool
parent_in_channel channel_id parent d =
    any (λ m. with_id parent m && m.channel_id == channel_id) d.messages

abbrev pub parent_exists : Option ℕ → Db → Bool
parent_exists none d = true
parent_exists (some p) d = message_exists p d

unfoldable pub insert_message : Message → Db → Sql Message
insert_message m d =
    if any (with_id m.id) d.messages
    then fails unique_violation
    else references
        (channel_exists m.channel_id d && user_exists m.user_id d && parent_exists m.parent_id d)
        (rows m (record d { messages = d.messages ++ m ∷ [] }))

-- `reply_count` is an INTEGER: past its maximum the statement fails.
abbrev pub max_int : ℕ
max_int = 2147483647

unfoldable pub bump_replies : (parent : ℕ) → Db → Sql (Unit {0})
bump_replies parent d =
    if any (λ m. with_id parent m && m.reply_count == max_int) d.messages
    then fails other
    else rows tt (record d {
      messages =
          update_where (with_id parent) (λ m. record m { reply_count = m.reply_count + 1 })
            d.messages;
    })

unfoldable pub touch_channel : (channel_id at : ℕ) → Db → Sql (Unit {0})
touch_channel channel_id at d = rows tt (record d {
  channels = update_where (λ c. c.id == channel_id) (λ c. record c { updated_at = at }) d.channels;
})

-- INSERT … SELECT … WHERE id = $2 AND uploader_id = $3 ON CONFLICT DO NOTHING; was a row added?
unfoldable pub link_attachment : (message_id att_id user_id : ℕ) → Db → Sql Bool
link_attachment message_id att_id user_id d =
    if any (λ a. a.id == att_id && a.uploader_id == user_id) d.attachments
      && not
          (any (λ l. l.message_id == message_id && l.attachment_id == att_id) d.message_attachments)
    then rows true (record d {
      message_attachments =
          d.message_attachments ++ record { message_id = message_id; attachment_id = att_id } ∷ [];
    })
    else rows false d

unfoldable pub scope_attachment : (channel_id att_id : ℕ) → Db → Sql (Unit {0})
scope_attachment channel_id att_id d = rows tt (record d {
  attachments =
      update_where (λ a. a.id == att_id) (λ a. record a { channel_id = some channel_id })
        d.attachments;
})

unfoldable pub attach : (message_id channel_id user_id att_id : ℕ) → M (Unit {0})
unfolding link_attachment scope_attachment
attach message_id channel_id user_id att_id = do
  affected ← execute (link_attachment message_id att_id user_id)
  when affected (execute (scope_attachment channel_id att_id))

unfoldable pub bump_parent : Option ℕ → M (Unit {0})
bump_parent none = pure tt
bump_parent (some parent) = execute (bump_replies parent)

-- The body of the transaction of `send_message`.
unfoldable pub store_message : (user_id channel_id : ℕ) → SendMessageRequest → M Message
unfolding attach bump_parent
store_message user_id channel_id req = do
  at ← now
  id ← new_v4
  message ← execute (
      insert_message (record {
        id = id;
        channel_id = channel_id;
        user_id = user_id;
        content = req.content;
        parent_id = req.parent_id;
        reply_count = 0;
        edited_at = none;
        deleted_at = none;
        created_at = at;
      }))
  bump_parent req.parent_id
  execute (touch_channel channel_id at)
  for_each req.attachment_ids (attach message.id channel_id user_id)
  pure message

-- The row that an UPDATE … RETURNING gives; none is `RowNotFound` for `fetch_one`.
abbrev pub returning {ℓ} : {A : Type ℓ} → Option A → Db → Sql A
returning none d = fails row_not_found
returning (some a) d = rows a d

unfoldable pub set_content : (message_id : ℕ) → Text → (at : ℕ) → Db → Sql Message
set_content message_id content at d =
    let updated =
      update_where (with_id message_id)
        (λ (m : Message). record m { content = content; edited_at = some at }) d.messages in
    returning (find (with_id message_id) updated) (record d { messages = updated })

unfoldable pub soft_delete : (message_id at : ℕ) → Db → Sql (Unit {0})
soft_delete message_id at d = rows tt (record d {
  messages =
      update_where (with_id message_id) (λ m. record m { deleted_at = some at; content = [] })
        d.messages;
})

abbrev pub is_reaction : (message_id user_id : ℕ) → Text → Reaction → Bool
is_reaction m u t r = (r.message_id == m && r.user_id == u) && text_eq r.emoji t

unfoldable pub add_reaction_row : Reaction → Db → Sql Bool
add_reaction_row r d =
    if any (is_reaction r.message_id r.user_id r.emoji) d.reactions
    then rows false d
    else if any (λ x. x.id == r.id) d.reactions
    then fails unique_violation
    else references (message_exists r.message_id d && user_exists r.user_id d)
        (rows true (record d { reactions = d.reactions ++ r ∷ [] }))

unfoldable pub remove_reaction_row : (message_id user_id : ℕ) → Text → Db → Sql Bool
remove_reaction_row m u t d =
    rows (any (is_reaction m u t) d.reactions)
      (record d { reactions = delete_where (is_reaction m u t) d.reactions })

unfoldable pub mark_channel_read : (channel_id user_id at : ℕ) → Db → Sql (Unit {0})
mark_channel_read channel_id user_id at d = rows tt (record d {
  channel_members =
      update_where (is_row channel_id user_id) (λ m. record m { last_read_at = some at })
        d.channel_members;
})
