-- ===== src/Server/Storing.antt =====
-- handlers/messages.rs, `send_message`: the steps before its transaction and the parts of it.
use rsmc_engine.Base.{
  ℕ, ◌+◌, ◌≡◌, refl, ◌∙◌, ap, Bool, true, false, not, ◌&&◌, Option, none, some, List, [], ◌∷◌,
  arith, ◌==◌, any, update_where,
}
use rsmc_engine.Models.{Message, SendMessageRequest, MemberRole}
use rsmc_engine.Error.{bad_request}
use rsmc_engine.Db.{Db}
use rsmc_engine.App.{
  Env, World, NoFaults, Works, bind-Works, pure-Works, query-Works, or_fail-Works, Sure, bind-Sure,
  execute-Sure, when-Sure, Keeps, bind-Keeps, execute-Keeps, when-Triple, fail_if, is_rows, Makes,
}
use rsmc_engine.Services.Access.{AuthUser, require_member, member_role}
use rsmc_engine.Handlers.Messages.Store.{
  with_id, attach, link_attachment, scope_attachment, parent_in_channel, parent_exists, max_int,
}
use rsmc_engine.Handlers.Messages.Threads.{channel_has}
use rsmc_engine.Handlers.Messages.{check_parent}

-- The parent of a reply counts one more.
abbrev pub with_reply : Option ℕ → List Message → List Message
with_reply none ms = ms
with_reply (some p) ms =
    update_where (with_id p) (λ m. record m { reply_count = m.reply_count + 1 }) ms

-- No parent's count stands at the maximum.
abbrev pub has_room : Option ℕ → List Message → Bool
has_room none ms = true
has_room (some p) ms = not (any (λ m. with_id p m && m.reply_count == max_int) ms)

-- The message that a request makes: the next UUID, the next reading of the clock.
abbrev pub posted : AuthUser → (channel_id : ℕ) → SendMessageRequest → Env → World → Message
posted user c req e w = record {
  id = e.new_v4 w.draws;
  channel_id = c;
  user_id = user.id;
  content = req.content;
  parent_id = req.parent_id;
  reply_count = 0;
  edited_at = none;
  deleted_at = none;
  created_at = e.clock w.ticks;
}

-- The tables, the UUIDs and the clock are where they were.
abbrev pub At : World → World → Type 0
At w0 w = (w.db ≡ w0.db) × (w.draws ≡ w0.draws) × (w.ticks ≡ w0.ticks)

module _ (e : Env) (faultless : NoFaults e) (w0 : World) where
  pub require_member-Works :
      (c u : ℕ) (r : MemberRole)
      → member_role c u w0.db ≡ some r
      → Works e (At w0) (require_member c u) (λ _. At w0)
  unfolding require_member
  require_member-Works c u r h =
      bind-Works e faultless _
        (query-Works e faultless (member_role c u) (some r)
          (λ w p. (ap (member_role c u) p.0 ∙ h, p)))
        λ o. or_fail-Works e faultless o _ r

  pub check_parent-Works :
      (c : ℕ) (p : Option ℕ)
      → channel_has c p w0.db.messages ≡ true
      → Works e (At w0) (check_parent c p) (λ _. At w0)
  unfolding check_parent parent_in_channel
  check_parent-Works c none h = pure-Works e faultless tt (λ w p. p)
  check_parent-Works c (some p) h =
      bind-Works e faultless _
        (query-Works e faultless (parent_in_channel c p) true
          (λ w q. (ap (parent_in_channel c p) q.0 ∙ h, q)))
        λ o. checked o
    where
      checked :
          (o : Bool)
          → Works e
              (λ w. At w0 w × (o ≡ true))
              (fail_if (not o) (bad_request "parent message not found"))
              (λ _. At w0)
      checked true = record { run = λ w q. q.0 }
      checked false = record { run = λ w q. absurd (ground (arith, q.1)) }

pub has_parent :
    (c : ℕ) (p : Option ℕ) (d : Db) → channel_has c p d.messages ≡ true → parent_exists p d ≡ true
has_parent c none d h = refl
has_parent c (some p) d h = known d.messages h
  where
    known : (ms : List Message) → channel_has c (some p) ms ≡ true → any (λ x. x.id == p) ms ≡ true
    known [] k = absurd cc
    known (m ∷ ms) k = ground (arith, known ms)

pub attach-Sure : (m c u a : ℕ) → Sure (attach m c u a)
unfolding attach link_attachment scope_attachment
attach-Sure m c u a =
    bind-Sure (execute-Sure (link_attachment m a u) linked)
      λ b. when-Sure b (execute-Sure _ (λ d. refl))
  where
    linked : (d : Db) → is_rows (link_attachment m a u d) ≡ true
    linked d = ground arith

pub attach-Keeps : (X : List Message) (m c u a : ℕ) → Keeps (λ d. d.messages ≡ X) (attach m c u a)
unfolding attach link_attachment scope_attachment
attach-Keeps X m c u a =
    bind-Keeps (execute-Keeps (link_attachment m a u) linked)
      λ b. when-Triple b (execute-Keeps _ (λ d h. h))
  where
    linked : (d : Db) → d.messages ≡ X → Makes (λ _ d'. d'.messages ≡ X) (link_attachment m a u d)
    linked d h = ground (arith, h)
