-- ===== src/Server/Sending.antt =====
-- handlers/messages.rs, `send_message`: what a message that is allowed leaves.
use rsmc_engine.Base.{
  ℕ, ◌≡◌, refl, ◌∙◌, ap, Bool, true, false, ◌&&◌, Option, none, some, List, [], ◌∷◌, ◌++◌, arith,
  ◌==◌, any, any-append, update_where, is_blank,
}
use rsmc_engine.Models.{
  Message, MessageView, SendMessageRequest, Permission, can, valid_send, MemberRole,
}
use rsmc_engine.Db.{Db, channel_exists, user_exists}
use rsmc_engine.App.{
  Env, World, NoFaults, Ended, Works, bind-Works, pure-Works, fail_if-Works, execute-Works,
  transaction-Works, Sure-Works, Gives-Works, frame-Works, given-Works, for_each-Sure,
  for_each-Triple, now, new_v4, execute,
}
use rsmc_engine.Services.Access.{AuthUser, require, member_role}
use rsmc_engine.Handlers.Messages.Store.{
  with_id, store_message, insert_message, bump_replies, bump_parent, touch_channel, max_int,
}
use rsmc_engine.Handlers.Messages.Threads.{channel_has}
use rsmc_engine.Handlers.Messages.{send_message, no_attachments}
use rsmc_engine.Handlers.Messages.Enrich.{enrich_one}
use rsmc_engine.Invariant.Shared.{
  enrich_one-Keeps, emit_channel-Keeps, dispatch_notifications-Keeps,
}
use rsmc_engine.Server.Rollback.{enrich_one-Gives, emit_channel-Sure, dispatch_notifications-Sure}
use rsmc_engine.Server.Storing.{
  with_reply, has_room, posted, At, require_member-Works, check_parent-Works, has_parent,
  attach-Sure, attach-Keeps,
}

module _ (e : Env) (faultless : NoFaults e) (w0 : World) (user : AuthUser) (c : ℕ)
    (req : SendMessageRequest) (fresh : any (with_id (e.new_v4 w0.draws)) w0.db.messages ≡ false)
    (has_channel : channel_exists c w0.db ≡ true) (has_user : user_exists user.id w0.db ≡ true)
    (parent : channel_has c req.parent_id w0.db.messages ≡ true)
    (room : has_room req.parent_id w0.db.messages ≡ true) where
  abbrev new : Message
  new = posted user c req e w0

  abbrev after : List Message
  after = with_reply req.parent_id (w0.db.messages ++ new ∷ [])

  abbrev Stored : Message → World → Type 0
  Stored m w = (m ≡ new) × (w.db.messages ≡ after)

  insert-Works :
      Works e
        (λ w. w.db ≡ w0.db)
        (execute (insert_message new))
        (λ m w. (m ≡ new) × (w.db.messages ≡ w0.db.messages ++ new ∷ []))
  unfolding insert_message
  insert-Works =
      execute-Works e faultless (insert_message new) new
        (λ w. record w0.db { messages = w0.db.messages ++ new ∷ [] })
        (λ w p. (
          ap (insert_message new) p
              ∙ rw (fresh, has_channel, has_user, has_parent c req.parent_id w0.db parent) refl,
          (refl, refl),
        ))

  bump-Works :
      (p : Option ℕ)
      → has_room p w0.db.messages ≡ true
      → Works e
          (λ w. w.db.messages ≡ w0.db.messages ++ new ∷ [])
          (bump_parent p)
          (λ _ w. w.db.messages ≡ with_reply p (w0.db.messages ++ new ∷ []))
  unfolding bump_parent bump_replies
  bump-Works none h = pure-Works e faultless tt (λ w p. p)
  bump-Works (some p) h =
      execute-Works e faultless (bump_replies p) tt
        (λ w. record w.db { messages = with_reply (some p) w.db.messages })
        (λ w q. (rw (low w q) refl, ap (with_reply (some p)) q))
    where
      full : Message → Bool
      full m = with_id p m && m.reply_count == max_int

      low :
          (w : World) → w.db.messages ≡ w0.db.messages ++ new ∷ [] → any full w.db.messages ≡ false
      low w q = ap (any full) q ∙ any-append full w0.db.messages (new ∷ []) ∙ ground (arith, h)

  store-Works : Works e (At w0) (store_message user.id c req) Stored
  unfolding store_message touch_channel now new_v4
  store-Works =
      bind-Works e faultless (λ t w. (t ≡ e.clock w0.ticks) × (w.db ≡ w0.db) × (w.draws ≡ w0.draws))
        (record { run = λ w p. (ap e.clock p.2, p.0, p.1) })
        λ t.
          bind-Works e faultless
            (λ i w. (t ≡ e.clock w0.ticks) × (i ≡ e.new_v4 w0.draws) × (w.db ≡ w0.db))
            (record { run = λ w p. (p.0, ap e.new_v4 p.2, p.1) })
            λ i.
              bind-Works e faultless
                (λ m w. (m ≡ new) × (w.db.messages ≡ w0.db.messages ++ new ∷ []))
                (record { run = λ w p. rw (p.0, p.1) (insert-Works.run w p.2) })
                λ m.
                  bind-Works e faultless (λ _ w. Stored m w)
                    (frame-Works e faultless (bump-Works req.parent_id room))
                    λ _.
                      bind-Works e faultless (λ _ w. Stored m w)
                        (frame-Works e faultless (
                          execute-Works e faultless (touch_channel c t) tt (λ w. touched t w.db)
                            (λ w p. (refl, p))))
                        λ _.
                          bind-Works e faultless (λ _ w. Stored m w)
                            (frame-Works e faultless (
                              Sure-Works e faultless
                                (for_each-Sure req.attachment_ids
                                  (λ a. attach-Sure m.id c user.id a))
                                (for_each-Triple req.attachment_ids
                                  (λ a. attach-Keeps after m.id c user.id a))))
                            λ _. pure-Works e faultless m (λ w p. p)
    where
      touched : ℕ → Db → Db
      touched t d = record d {
        channels = update_where (λ x. x.id == c) (λ x. record x { updated_at = t }) d.channels;
      }

  -- With no statement lost, a user of the table who is a member of an existing channel, who may send
  -- messages and whose request is in
  -- order (not too long, not empty, a parent, if any, in this channel whose count has room) gets the
  -- new message back, with the next UUID, which no message has yet, and the next reading of the
  -- clock; it stands at the end of the table, and its parent counts one reply more.
  pub send_message-answers :
      (r : MemberRole)
      → valid_send req ≡ true
      → can user.role Permission.send_message ≡ true
      → member_role c user.id w0.db ≡ some r
      → (is_blank req.content && no_attachments req.attachment_ids) ≡ false
      → Ended
          (λ v w.
            (v.message ≡ posted user c req e w0)
            × (w.db.messages
                ≡ with_reply req.parent_id (w0.db.messages ++ posted user c req e w0 ∷ [])))
          (send_message user c req e w0)
  unfolding send_message require
  send_message-answers r valid may member filled = sending.run w0 (refl, refl, refl)
    where
      Done : MessageView → World → Type 0
      Done v w = (v.message ≡ new) × (w.db.messages ≡ after)

      enriched : (m : Message) → m ≡ new → Works e (λ w. w.db.messages ≡ after) (enrich_one m) Done
      enriched m q = rw q (Gives-Works e faultless (enrich_one-Gives new) (enrich_one-Keeps new))

      sending : Works e (At w0) (send_message user c req) Done
      sending =
          bind-Works e faultless (λ _. At w0) (fail_if-Works e faultless _ _ (rw valid refl))
            λ _.
              bind-Works e faultless (λ _. At w0) (fail_if-Works e faultless _ _ (rw may refl))
                λ _.
                  bind-Works e faultless (λ _. At w0)
                    (require_member-Works e faultless w0 c user.id r member)
                    λ _.
                      bind-Works e faultless (λ _. At w0) (fail_if-Works e faultless _ _ filled)
                        λ _.
                          bind-Works e faultless (λ _. At w0)
                            (check_parent-Works e faultless w0 c req.parent_id parent)
                            λ _.
                              bind-Works e faultless Stored
                                (transaction-Works e faultless (λ w p. p) (λ m w p. p) store-Works)
                                λ m.
                                  bind-Works e faultless Done
                                    (given-Works e faultless λ q. enriched m q)
                                    λ v.
                                      bind-Works e faultless (λ _. Done v)
                                        (frame-Works e faultless (
                                          Sure-Works e faultless (emit_channel-Sure c _)
                                            (emit_channel-Keeps c _)))
                                        λ _.
                                          bind-Works e faultless (λ _. Done v)
                                            (frame-Works e faultless (
                                              Sure-Works e faultless
                                                (dispatch_notifications-Sure c v req.parent_id)
                                                (dispatch_notifications-Keeps (λ d ns h. h) c v
                                                  req.parent_id)))
                                            λ _. pure-Works e faultless v (λ w p. p)
