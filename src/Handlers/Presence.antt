-- ===== src/Handlers/Presence.antt =====
-- handlers/presence.rs: who is online now, by the hub, and when a user was last seen, by the table.
use rsmc_engine.Base.{
  ℕ, Bool, Option, none, some, List, [], ◌∷◌, ◌==◌, find, select, any, HashMap, lookup, insert,
  remove,
}
use rsmc_engine.Models.{Presence}
use rsmc_engine.Hub.{is_online}
use rsmc_engine.App.{M, pure, ◌>>=◌, now, query, with_hub}

unfoldable pub live : (user_id : ℕ) → Bool → Option Presence → M Presence
live user_id online (some p) = pure (record p { online = online })
live user_id online none = do
  at ← now
  pure (record { user_id = user_id; online = online; last_seen = at })

unfoldable pub get_presence : (user_id : ℕ) → M Presence
unfolding live
get_presence user_id = do
  stored ← query (λ d. find (λ p. p.user_id == user_id) d.presence)
  online ← with_hub (λ h. (is_online h user_id, h))
  live user_id online stored

by_user : List Presence → HashMap Presence → HashMap Presence
by_user [] m = m
by_user (p ∷ ps) m = by_user ps (insert p.user_id p m)

unfoldable pub each_presence : List ℕ → HashMap Presence → M (List Presence)
unfolding live
each_presence [] m = pure []
each_presence (uid ∷ uids) m = do
  online ← with_hub (λ h. (is_online h uid, h))
  p ← live uid online (lookup uid m)
  rest ← each_presence uids (remove uid m)
  pure (p ∷ rest)

unfoldable pub bulk_presence : (user_ids : List ℕ) → M (List Presence)
unfolding by_user each_presence
bulk_presence user_ids = do
  stored ← query (λ d. select (λ p. any (λ u. u == p.user_id) user_ids) d.presence)
  each_presence user_ids (by_user stored [])
