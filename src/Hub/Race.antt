-- ===== src/Hub/Race.antt =====
-- ws/hub.rs: `register` running between two parts of `unregister`.
use rsmc_engine.Base.{
  ℕ, ◌≡◌, true, false, some, [], ◌∷◌, arith, lookup, lookup-insert, lookup-remove, set_remove,
}
use rsmc_engine.Models.{ServerEvent}
use rsmc_engine.Hub.{Hub, take_session, leave_set, register, drop_user, is_online, dispatch_user}
use rsmc_engine.Hub.Index.{owns}

-- A task closes session `old` of the user while another opens session `fresh`: the set of sessions
-- is found empty, the new session enters it, and then the set is dropped.
unfoldable pub close_while_opening : Hub → (user_id old fresh tx : ℕ) → Hub
close_while_opening h user_id old fresh tx =
    let (taken, h₁) = take_session h old in
    let (now_offline, h₂) = leave_set h₁ old user_id in
    let (h₃, first) = register h₂ user_id tx fresh in drop_user h₃ user_id

last_removed : (a : ℕ) → set_remove a (a ∷ []) ≡ []
unfolding set_remove
last_removed a = ground arith

is_online-drop_user : (h : Hub) (u : ℕ) → is_online (drop_user h u) u ≡ false
unfolding is_online drop_user
is_online-drop_user h u = ground (arith, lookup-remove u u h.user_sessions)

owns-drop_register : (h : Hub) (u s tx : ℕ) → owns (drop_user (register h u tx s).0 u) s u ≡ true
unfolding drop_user register
owns-drop_register h u s tx =
    ground
      (arith, lookup-insert s s (record { user_id = u; tx = tx; subscriptions = [] }) h.sessions)

dispatch_user-drop_user :
    (h : Hub) (u : ℕ) (e : ServerEvent) → dispatch_user (drop_user h u) u e ≡ []
unfolding dispatch_user drop_user
dispatch_user-drop_user h u e = ground (arith, lookup-remove u u h.user_sessions)

-- If `old` was the only session, the user's new session is registered but lost to the index: the
-- user counts as offline, and none of the user's events reaches the new session.
pub close_while_opening_loses :
    (h : Hub) (user_id old fresh tx : ℕ) (e : ServerEvent)
    → lookup user_id h.user_sessions ≡ some (old ∷ [])
    → let h' = close_while_opening h user_id old fresh tx in
      ((leave_set (take_session h old).1 old user_id).0 ≡ true)
      × (owns h' fresh user_id ≡ true)
      × (is_online h' user_id ≡ false)
      × (dispatch_user h' user_id e ≡ [])
unfolding close_while_opening take_session leave_set register
close_while_opening_loses h user_id old fresh tx e only = (
  ground (arith, last_removed old),
  owns-drop_register _ user_id fresh tx,
  is_online-drop_user _ user_id,
  dispatch_user-drop_user _ user_id e,
)
