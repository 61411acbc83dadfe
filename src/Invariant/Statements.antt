-- ===== src/Invariant/Statements.antt =====
-- Every statement on the tables of the invariant keeps it, or leaves it owing one reply.
use rsmc_engine.Base.{
  ℕ, ◌+◌, ◌≡◌, refl, true, not, ◌&&◌, Option, none, some, [], ◌∷◌, ◌++◌, arith, ◌==◌, Text, any,
  find, Bool-cases, inl, inr, delete-AtMostOnce, update-AtMostOnce,
}
use rsmc_engine.Models.{Message, Reaction}
use rsmc_engine.Db.{Db, rows}
use rsmc_engine.App.{Makes, Makes-references}
use rsmc_engine.Handlers.Messages.Store.{
  with_id, is_live, is_reaction, insert_message, bump_replies, touch_channel, link_attachment,
  scope_attachment, set_content, soft_delete, add_reaction_row, remove_reaction_row,
  mark_channel_read, max_int, returning,
}
use rsmc_engine.Handlers.Messages.Threads.{
  channel_has, append-IsThreaded, update-IsThreaded, update-AreBlank, set_content-AreBlank,
}
use rsmc_engine.Invariant.{IsSoundBut, IsSound, reaction_key, member_key, append-reaction}

pub insert_message-Owes :
    (m : Message) (d : Db)
    → IsSound d
    → channel_has m.channel_id m.parent_id d.messages ≡ true
    → m.reply_count ≡ 0
    → m.deleted_at ≡ none
    → Makes (λ _. IsSoundBut m.parent_id) (insert_message m d)
unfolding insert_message
insert_message-Owes m d h has zero_replies live =
    elim (Bool-cases (any (with_id m.id) d.messages)) [
      | inl taken ↦ rw taken tt
      | inr fresh ↦
          let kept : IsSoundBut m.parent_id (record d { messages = d.messages ++ m ∷ [] }) =
            record {
              threaded = append-IsThreaded d.messages m h.threaded fresh has zero_replies live;
              reacted_once = h.reacted_once;
              joined_once = h.joined_once;
            } in
          rw fresh (Makes-references (λ _. IsSoundBut m.parent_id) _ (rows m _) kept)
    ]

pub bump_replies-IsSound :
    (p : ℕ) (d : Db) → IsSoundBut (some p) d → Makes (λ _. IsSound) (bump_replies p d)
unfolding bump_replies
bump_replies-IsSound p d h =
    elim (Bool-cases (any (λ m. with_id p m && m.reply_count == max_int) d.messages)) [
      | inl full ↦ rw full tt
      | inr room ↦ rw room (record {
        threaded =
            update-IsThreaded (with_id p) (λ m. record m { reply_count = m.reply_count + 1 })
              (λ m. (refl, refl, refl)) (some p) none d.messages (λ m. ground arith)
              (update-AreBlank (with_id p) _ (λ m. (refl, refl, refl)) (λ m _ b. b) d.messages
                h.threaded.blank)
              h.threaded;
        reacted_once = h.reacted_once;
        joined_once = h.joined_once;
      })
    ]

module _ {pending : Option ℕ} (d : Db) (h : IsSoundBut pending d) where
  pub touch_channel-IsSound : (c at : ℕ) → Makes (λ _. IsSoundBut pending) (touch_channel c at d)
  unfolding touch_channel
  touch_channel-IsSound c at = record {
    threaded = h.threaded;
    reacted_once = h.reacted_once;
    joined_once = h.joined_once;
  }

  pub scope_attachment-IsSound :
      (c a : ℕ) → Makes (λ _. IsSoundBut pending) (scope_attachment c a d)
  unfolding scope_attachment
  scope_attachment-IsSound c a = record {
    threaded = h.threaded;
    reacted_once = h.reacted_once;
    joined_once = h.joined_once;
  }

  pub link_attachment-IsSound :
      (m a u : ℕ) → Makes (λ _. IsSoundBut pending) (link_attachment m a u d)
  unfolding link_attachment
  link_attachment-IsSound m a u =
      elim (Bool-cases (
        any (λ x. x.id == a && x.uploader_id == u) d.attachments
        && not (any (λ l. l.message_id == m && l.attachment_id == a) d.message_attachments))) [
          | inl e ↦ rw e (record {
            threaded = h.threaded;
            reacted_once = h.reacted_once;
            joined_once = h.joined_once;
          })
          | inr e ↦ rw e h
        ]

  pub remove_reaction_row-IsSound :
      (m u : ℕ) (t : Text) → Makes (λ _. IsSoundBut pending) (remove_reaction_row m u t d)
  unfolding remove_reaction_row
  remove_reaction_row-IsSound m u t = record {
    threaded = h.threaded;
    reacted_once = delete-AtMostOnce reaction_key _ d.reactions h.reacted_once;
    joined_once = h.joined_once;
  }

  pub mark_channel_read-IsSound :
      (c u at : ℕ) → Makes (λ _. IsSoundBut pending) (mark_channel_read c u at d)
  unfolding mark_channel_read
  mark_channel_read-IsSound c u at = record {
    threaded = h.threaded;
    reacted_once = h.reacted_once;
    joined_once = update-AtMostOnce member_key _ _ d.channel_members (λ k m. refl) h.joined_once;
  }

  pub add_reaction_row-IsSound :
      (r : Reaction) → Makes (λ _. IsSoundBut pending) (add_reaction_row r d)
  unfolding add_reaction_row
  add_reaction_row-IsSound r =
      elim (Bool-cases (any (is_reaction r.message_id r.user_id r.emoji) d.reactions)) [
        | inl old ↦ rw old h
        | inr new ↦ rw new (elim (Bool-cases (any (λ x. x.id == r.id) d.reactions)) [
          | inl taken ↦ rw taken tt
          | inr fresh ↦
              let kept : IsSoundBut pending (record d { reactions = d.reactions ++ r ∷ [] }) =
                record {
                  threaded = h.threaded;
                  reacted_once = append-reaction r d.reactions new h.reacted_once;
                  joined_once = h.joined_once;
                } in
              rw fresh (Makes-references (λ _. IsSoundBut pending) _ (rows true _) kept)
        ])
      ]

  pub soft_delete-IsSound : (i at : ℕ) → Makes (λ _. IsSoundBut pending) (soft_delete i at d)
  unfolding soft_delete
  soft_delete-IsSound i at = record {
    threaded =
        update-IsThreaded (with_id i) (λ m. record m { deleted_at = some at; content = [] })
          (λ m. (refl, refl, refl)) pending pending d.messages (λ m. ground arith)
          (update-AreBlank (with_id i) _ (λ m. (refl, refl, refl)) (λ m _ b. refl) d.messages
            h.threaded.blank)
          h.threaded;
    reacted_once = h.reacted_once;
    joined_once = h.joined_once;
  }

  pub set_content-IsSound :
      (i : ℕ) (t : Text) (at : ℕ) (m : Message)
      → find (λ x. with_id i x && is_live x) d.messages ≡ some m
      → Makes (λ _. IsSoundBut pending) (set_content i t at d)
  unfolding set_content
  set_content-IsSound i t at m found = Makes-returning _ (record {
    threaded =
        update-IsThreaded (with_id i) (λ m. record m { content = t; edited_at = some at })
          (λ m. (refl, refl, refl)) pending pending d.messages (λ m. ground arith)
          (set_content-AreBlank i _ d.messages (λ x. refl) h.threaded.distinct found
            h.threaded.blank)
          h.threaded;
    reacted_once = h.reacted_once;
    joined_once = h.joined_once;
  })
    where
      Makes-returning :
          {d' : Db} (o : Option Message)
          → IsSoundBut pending d'
          → Makes (λ _. IsSoundBut pending) (returning o d')
      Makes-returning none k = tt
      Makes-returning (some x) k = k
