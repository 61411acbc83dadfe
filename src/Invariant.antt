-- ===== src/Invariant.antt =====
-- handlers/: what the tables promise to every handler, whatever requests came before and whichever statements
-- were lost.
pub mod Statements
pub mod Shared
pub mod Messages
pub mod Channels
pub mod Sessions
use rsmc_engine.Base.{
  ℕ, ◌≡◌, refl, Bool, true, false, ◌&&◌, Option, none, List, [], ◌∷◌, ◌++◌, arith, ◌==◌, Text,
  text_eq, text_eq_iff, AtMostOnce, append-AtMostOnce, delete-AtMostOnce, update-AtMostOnce, any,
  update_where,
}
use rsmc_engine.Models.{Reaction, ChannelMember}
use rsmc_engine.Db.{Db}
use rsmc_engine.Services.Access.{is_row}
use rsmc_engine.Handlers.Messages.Store.{is_reaction}
use rsmc_engine.Handlers.Messages.Threads.{IsThreaded}

abbrev pub reaction_key : ℕ × ℕ × Text → Reaction → Bool
reaction_key (m, u, t) r = is_reaction m u t r

abbrev pub member_key : ℕ × ℕ → ChannelMember → Bool
member_key (c, u) m = is_row c u m

-- `pending` is the parent whose count a running transaction has still to raise.
pub record IsSoundBut (pending : Option ℕ) (d : Db) : Type 0 where
  pub threaded : IsThreaded pending d.messages
  pub reacted_once : AtMostOnce reaction_key d.reactions
  pub joined_once : AtMostOnce member_key d.channel_members

abbrev pub IsSound : Db → Type 0
IsSound = IsSoundBut none

pub append-reaction :
    (r : Reaction) (rs : List Reaction)
    → any (is_reaction r.message_id r.user_id r.emoji) rs ≡ false
    → AtMostOnce reaction_key rs
    → AtMostOnce reaction_key (rs ++ r ∷ [])
append-reaction r rs fresh h =
    append-AtMostOnce reaction_key rs r (r.message_id, r.user_id, r.emoji)
      (λ (m, u, t) e. ground (arith, (text_eq_iff r.emoji t).0)) fresh h

pub append-member :
    (m : ChannelMember) (ms : List ChannelMember)
    → any (is_row m.channel_id m.user_id) ms ≡ false
    → AtMostOnce member_key ms
    → AtMostOnce member_key (ms ++ m ∷ [])
append-member m ms fresh h =
    append-AtMostOnce member_key ms m (m.channel_id, m.user_id) (λ (c, u) e. ground arith) fresh h
