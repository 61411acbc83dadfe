-- ===== src/Invariant/Messages.antt =====
-- handlers/messages.rs: every handler keeps the invariant of the tables.
use rsmc_engine.Base.{
  ℕ, ◌≡◌, refl, true, not, ◌&&◌, Option, none, some, find, arith, inl, inr, Option-cases, sym, ◌∙◌,
}
use rsmc_engine.Models.{
  SendMessageRequest, EditMessageRequest, ReactionRequest, HistoryQuery, Permission,
}
use rsmc_engine.Db.{Db}
use rsmc_engine.App.{
  Triple, Keeps, Makes, bind-Triple, bind-Keeps, pure-Keeps, pure-Triple, query-Keeps, query-Triple,
  execute-Keeps, execute-Triple, transaction-Triple, fail_if-Keeps, fail_if-Triple, or_fail-Keeps,
  or_fail-Triple, new_v4-Triple, now-Triple, when-Triple, for_each-Triple, conclude-Triple, forget,
  keeping,
}
use rsmc_engine.Services.Access.{AuthUser}
use rsmc_engine.Handlers.Messages.Store.{
  store_message, attach, bump_parent, parent_in_channel, with_id, is_live, set_content,
}
use rsmc_engine.Handlers.Messages.{
  author_of, check_parent, send_message, history, thread, edit_message, delete_message,
  add_reaction, remove_reaction,
}
use rsmc_engine.Handlers.Messages.Threads.{channel_has}
use rsmc_engine.Invariant.{IsSoundBut, IsSound}
use rsmc_engine.Invariant.Shared.{
  notifications_apart, enrich-Keeps, enrich_one-Keeps, emit_channel-Keeps, message_channel-Keeps,
  dispatch_notifications-Keeps,
}
use rsmc_engine.Services.Access.Frames.{
  require-Keeps, require_member-Keeps, require_channel_admin-Keeps,
}
use rsmc_engine.Invariant.Statements

-- What `send_message` knows when its transaction begins.
abbrev IsReady : (channel_id : ℕ) → Option ℕ → Db → Type 0
IsReady c p d = IsSound d × (channel_has c p d.messages ≡ true)

check_parent-IsReady :
    (c : ℕ) (p : Option ℕ) → Triple IsSound (check_parent c p) (λ _. IsReady c p) IsSound
unfolding check_parent parent_in_channel
check_parent-IsReady c none = pure-Triple _ (λ d h. (h, refl))
check_parent-IsReady c (some p) =
    bind-Triple _ (query-Triple (parent_in_channel c p) (λ d h. h)) λ found.
      conclude-Triple _ (fail_if-Triple (not found) _ (λ d h. h.0))
        (λ _ d h. (h.0.0, ground (arith, h.0.1, h.1)))

attach-Keeps : {q : Option ℕ} (m c u a : ℕ) → Keeps (IsSoundBut q) (attach m c u a)
unfolding attach
attach-Keeps m c u a =
    bind-Keeps (execute-Keeps _ (λ d h. Statements.link_attachment-IsSound d h m a u))
      λ b. when-Triple b (execute-Keeps _ (λ d h. Statements.scope_attachment-IsSound d h c a))

bump_parent-IsSound :
    (p : Option ℕ) → Triple (IsSoundBut p) (bump_parent p) (λ _. IsSound) (λ _. Unit {0})
unfolding bump_parent
bump_parent-IsSound none = pure-Triple _ (λ d h. h)
bump_parent-IsSound (some p) = execute-Triple _ (λ d h. tt) (Statements.bump_replies-IsSound p)

store_message-IsSound :
    (u c : ℕ) (req : SendMessageRequest)
    → Triple (IsReady c req.parent_id) (store_message u c req) (λ _. IsSound) (λ _. Unit {0})
unfolding store_message
store_message-IsSound u c req = bind-Triple _ now-Triple λ at. bind-Triple _ new_v4-Triple λ id.
    bind-Triple (λ _. IsSoundBut req.parent_id)
      (execute-Triple _ (λ d h. tt) (λ d h. Statements.insert_message-Owes _ d h.0 h.1 refl refl))
      λ m. bind-Triple _ (bump_parent-IsSound req.parent_id) λ _. forget (
        bind-Keeps (execute-Keeps _ (λ d h. Statements.touch_channel-IsSound d h c at)) λ _.
          bind-Keeps (for_each-Triple req.attachment_ids (attach-Keeps m.id c u)) λ _. pure-Keeps m)

-- Sending keeps the tables sound, also when it fails halfway.
pub send_message-IsSound :
    (user : AuthUser) (c : ℕ) (req : SendMessageRequest) → Keeps IsSound (send_message user c req)
unfolding send_message
send_message-IsSound user c req = bind-Keeps (fail_if-Keeps _ _) λ _.
    bind-Keeps (require-Keeps user Permission.send_message) λ _.
      bind-Keeps (require_member-Keeps c user.id) λ _. bind-Keeps (fail_if-Keeps _ _) λ _.
        bind-Triple _ (check_parent-IsReady c req.parent_id) λ _.
          bind-Triple _ (transaction-Triple (λ d h. h.0) (store_message-IsSound user.id c req)) λ m.
            bind-Keeps (enrich_one-Keeps m) λ v. bind-Keeps (emit_channel-Keeps c _) λ _.
              bind-Keeps (dispatch_notifications-Keeps notifications_apart c v req.parent_id)
                λ _. pure-Keeps v

pub history-IsSound :
    (user : AuthUser) (c : ℕ) (q : HistoryQuery) → Keeps IsSound (history user c q)
unfolding history
history-IsSound user c q = bind-Keeps (require_member-Keeps c user.id) λ _.
    bind-Keeps (query-Keeps _) λ ms. bind-Keeps now-Triple λ at.
      bind-Keeps (execute-Keeps _ (λ d h. Statements.mark_channel_read-IsSound d h c user.id at))
        λ _. bind-Keeps (enrich-Keeps ms) λ vs. pure-Keeps _

pub thread-IsSound : (user : AuthUser) (i : ℕ) → Keeps IsSound (thread user i)
unfolding thread
thread-IsSound user i = search (keeping, require_member-Keeps, enrich-Keeps)

pub edit_message-IsSound :
    (user : AuthUser) (i : ℕ) (req : EditMessageRequest) → Keeps IsSound (edit_message user i req)
unfolding edit_message
edit_message-IsSound user i req = bind-Keeps (fail_if-Keeps _ _) λ _.
    bind-Triple _ (query-Triple _ (λ d h. h)) λ found.
      bind-Triple _ (or_fail-Triple found _ (λ d h. h.0)) λ owner.
        bind-Triple _ (fail_if-Triple _ _ (λ d h. h.0.0)) λ _. bind-Triple _ now-Triple λ at.
          bind-Triple (λ _. IsSound)
            (execute-Triple _ (λ d h. h.0.0.0) (λ d h. edited d h.0.0.0 at (sym h.0.0.1 ∙ h.0.1)))
            λ m. search (keeping, enrich_one-Keeps, emit_channel-Keeps)
  where
    edited :
        (d : Db)
        → IsSound d
        → (at : ℕ) {owner : ℕ}
        → author_of (find (λ m. with_id i m && is_live m) d.messages) ≡ some owner
        → Makes (λ _. IsSound) (set_content i req.content at d)
    edited d h at e = elim (Option-cases (find (λ m. with_id i m && is_live m) d.messages)) [
      | inl gone ↦ absurd (ground arith)
      | inr (m, here) ↦ Statements.set_content-IsSound d h i req.content at m here
    ]

pub delete_message-IsSound : (user : AuthUser) (i : ℕ) → Keeps IsSound (delete_message user i)
unfolding delete_message
delete_message-IsSound user i = bind-Keeps (query-Keeps _) λ row.
    bind-Keeps (or_fail-Keeps row _) λ oc.
      bind-Keeps (when-Triple _ (require_channel_admin-Keeps oc.1 user.id)) λ _.
        bind-Keeps now-Triple λ at.
          bind-Keeps (execute-Keeps _ (λ d h. Statements.soft_delete-IsSound d h i at))
            λ _. emit_channel-Keeps oc.1 _

pub add_reaction-IsSound :
    (user : AuthUser) (i : ℕ) (req : ReactionRequest) → Keeps IsSound (add_reaction user i req)
unfolding add_reaction
add_reaction-IsSound user i req = bind-Keeps (fail_if-Keeps _ _) λ _.
    bind-Keeps (message_channel-Keeps i) λ c. bind-Keeps (require_member-Keeps c user.id) λ _.
      bind-Keeps new_v4-Triple λ id. bind-Keeps now-Triple λ at.
        bind-Keeps (execute-Keeps _ (λ d h. Statements.add_reaction_row-IsSound d h _))
          λ b. when-Triple b (emit_channel-Keeps c _)

pub remove_reaction-IsSound :
    (user : AuthUser) (i : ℕ) (req : ReactionRequest) → Keeps IsSound (remove_reaction user i req)
unfolding remove_reaction
remove_reaction-IsSound user i req = bind-Keeps (fail_if-Keeps _ _) λ _.
    bind-Keeps (message_channel-Keeps i) λ c. bind-Keeps (require_member-Keeps c user.id) λ _.
      bind-Keeps
        (execute-Keeps _ (λ d h. Statements.remove_reaction_row-IsSound d h i user.id req.emoji))
        λ b. when-Triple b (emit_channel-Keeps c _)
