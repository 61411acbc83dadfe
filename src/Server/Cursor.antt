-- ===== src/Server/Cursor.antt =====
-- handlers/channels.rs, `mark_read`: what the caller has read counts as read.
use rsmc_engine.Base.{
  ℕ, ◌≤◌, ◌≡◌, refl, ◌∙◌, ap, true, false, some, List, [], ◌∷◌, arith, any, find, update_where,
  count_where, All, inl, inr, Bool-cases,
}
use rsmc_engine.Models.{Message, ChannelMember, MemberRole, Notification}
use rsmc_engine.Db.{Db, Sql}
use rsmc_engine.App.{Env, World, NoFaults, Ended, Works, bind-Works, execute-Works, Sure-Works, now}
use rsmc_engine.Services.Access.{AuthUser, is_row, role_of, member_role}
use rsmc_engine.Handlers.Channels.Store.{
  advance_cursor, read_at, clear_notifications, unread_in, is_unread,
}
use rsmc_engine.Handlers.Channels.{mark_read}
use rsmc_engine.Invariant.Shared.{emit_channel-Keeps}
use rsmc_engine.Server.Rollback.{emit_channel-Sure}
use rsmc_engine.Server.Storing.{At, require_member-Works}

-- No row of the user in the channel has an unread message.
abbrev pub AllRead : (channel_id user_id : ℕ) → List Message → List ChannelMember → Type 0
AllRead c u ms rows = All (λ m. is_row c u m ≡ true → count_where (is_unread u m) ms ≡ 0) rows

abbrev set_read : ℕ → ChannelMember → ChannelMember
set_read t m = record m { last_read_at = some t }

none_unread :
    (u t : ℕ) (m : ChannelMember) (ms : List Message)
    → All (λ (x : Message). x.created_at ≤ t) ms
    → count_where (is_unread u (set_read t m)) ms ≡ 0
none_unread u t m [] h = refl
none_unread u t m (x ∷ xs) h = ground (arith, h.0, none_unread u t m xs h.1)

pub update-AllRead :
    (c u t : ℕ) (ms : List Message) (rows : List ChannelMember)
    → All (λ (x : Message). x.created_at ≤ t) ms
    → AllRead c u ms (update_where (is_row c u) (set_read t) rows)
update-AllRead c u t ms [] h = tt
update-AllRead c u t ms (m ∷ rest) h = elim (Bool-cases (is_row c u m)) [
  | inl mine ↦ rw mine ((λ _. none_unread u t m ms h), update-AllRead c u t ms rest h)
  | inr other ↦ rw other ((λ e. absurd (ground (arith, e, other))), update-AllRead c u t ms rest h)
]

-- The updated row is found where the row was found.
find-update :
    (c u t : ℕ) (r : MemberRole) (rows : List ChannelMember) (d : Db)
    → role_of (find (is_row c u) rows) ≡ some r
    → read_at (find (is_row c u) (update_where (is_row c u) (set_read t) rows)) d ≡ Sql.rows t d
find-update c u t r [] d = λ h. absurd cc
find-update c u t r (m ∷ rest) d = elim (Bool-cases (is_row c u m)) [
  | inl mine ↦ let again : is_row c u (set_read t m) ≡ true = mine in rw (mine, again) (λ h. refl)
  | inr other ↦ rw (other, other) (λ h. find-update c u t r rest d h)
]

clear-unread :
    (c u t : ℕ) (ns : List Notification)
    → any (unread_in c u) (update_where (unread_in c u) (λ n. record n { read_at = some t }) ns)
      ≡ false
clear-unread c u t [] = refl
clear-unread c u t (n ∷ ns) = ground (arith, clear-unread c u t ns)

-- After a member has marked a channel as read, no statement being lost and no message being from the
-- future, none of its messages counts as unread for the member, and the member has no unread
-- notification about it.
pub mark_read-answers :
    (user : AuthUser) (c : ℕ) (e : Env) (w0 : World) (r : MemberRole)
    → NoFaults e
    → member_role c user.id w0.db ≡ some r
    → All (λ (x : Message). x.created_at ≤ e.clock w0.ticks) w0.db.messages
    → Ended
        (λ _ w.
          AllRead c user.id w.db.messages w.db.channel_members
          × (any (unread_in c user.id) w.db.notifications ≡ false))
        (mark_read user c e w0)
unfolding mark_read now advance_cursor clear_notifications
mark_read-answers user c e w0 r faultless member past = marking.run w0 (refl, refl, refl)
  where
    Read : Db → Type 0
    Read d = AllRead c user.id d.messages d.channel_members

    Clear : Db → Type 0
    Clear d = Read d × (any (unread_in c user.id) d.notifications ≡ false)

    advanced : ℕ → Db → Db
    advanced t d = record d {
      channel_members = update_where (is_row c user.id) (set_read t) d.channel_members;
    }

    cleared : ℕ → Db → Db
    cleared t d = record d {
      notifications =
          update_where (unread_in c user.id) (λ n. record n { read_at = some t }) d.notifications;
    }

    advancing :
        (t : ℕ) (w : World)
        → (t ≡ e.clock w0.ticks) × (w.db ≡ w0.db)
        → (advance_cursor c user.id t w.db ≡ Sql.rows t (advanced t w.db)) × Read (advanced t w.db)
    advancing t w p = (
      find-update c user.id t r w.db.channel_members _ (ap (member_role c user.id) p.1 ∙ member),
      update-AllRead c user.id t w.db.messages w.db.channel_members (rw (p.0, p.1) past),
    )

    marking : Works e (At w0) (mark_read user c) (λ _ w. Clear w.db)
    marking =
        bind-Works e faultless (λ _. At w0) (require_member-Works e faultless w0 c user.id r member)
          λ _.
            bind-Works e faultless (λ t w. (t ≡ e.clock w0.ticks) × (w.db ≡ w0.db))
              (record { run = λ w p. (ap e.clock p.2, p.0) })
              λ t.
                bind-Works e faultless (λ _ w. Read w.db)
                  (execute-Works e faultless (advance_cursor c user.id t) t (λ w. advanced t w.db)
                    (advancing t))
                  λ at.
                    bind-Works e faultless (λ _ w. Read w.db) (record { run = λ w p. p })
                      λ later.
                        bind-Works e faultless (λ _ w. Clear w.db)
                          (execute-Works e faultless (clear_notifications c user.id later) tt
                            (λ w. cleared later w.db)
                            (λ w p. (refl, (p, clear-unread c user.id later w.db.notifications))))
                          λ _.
                            Sure-Works e faultless (emit_channel-Sure c _) (emit_channel-Keeps c _)
