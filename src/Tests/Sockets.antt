-- ===== src/Tests/Sockets.antt =====
-- ws/hub.rs: the theorems on the hub, with one session open.
use rsmc_engine.Base.{
  ℕ, ◌+◌, ◌≡◌, refl, ◌↔◌, ◌⊎◌, true, false, not, some, [], ◌∷◌, insert, set_insert, lookup,
  contains, if◌then◌else◌,
}
use rsmc_engine.Models.{ServerEvent}
use rsmc_engine.Hub.{
  Hub, Session, new, register, unregister, subscribe, is_online, online_count, dispatch_channel,
  dispatch_user, take_session, leave_set,
}
use rsmc_engine.Hub.Index.{
  IsIndexed, owns, new-IsIndexed, register-IsIndexed, is_online_iff, unregister_offline,
  online_count_lem,
}
use rsmc_engine.Hub.Fanout.{reaches, dispatch_user_iff, dispatch_channel_iff}
use rsmc_engine.Hub.Subscriptions.{tx_of, dispatch-subscribe}
use rsmc_engine.Hub.Race.{close_while_opening, close_while_opening_loses}

-- Ada's first session, on connection 7, follows channel 10.
abbrev one_open : Hub
one_open = (register new 1 7 70).0

one_open-IsIndexed : IsIndexed one_open
unfolding new lookup
one_open-IsIndexed = register-IsIndexed new 1 7 70 new-IsIndexed refl

is_online_iff_example : (is_online one_open 1 ≡ true) ↔ ((s : ℕ) × (owns one_open s 1 ≡ true))
is_online_iff_example = is_online_iff one_open 1 one_open-IsIndexed

dispatch_user_iff_example : (reaches (dispatch_user one_open 1 ServerEvent.pong) 7 ≡ true) ↔ (
    (s : ℕ) × (x : Session) × (lookup s one_open.sessions ≡ some x) × (x.user_id ≡ 1) × (x.tx ≡ 7))
dispatch_user_iff_example = dispatch_user_iff one_open 1 ServerEvent.pong 7 one_open-IsIndexed

dispatch_channel_iff_example :
    (reaches (dispatch_channel one_open 10 ServerEvent.pong) 7 ≡ true) ↔ (
      (s : ℕ) × (x : Session) × (lookup s one_open.sessions ≡ some x)
      × (contains 10 x.subscriptions ≡ true)
      × (x.tx ≡ 7))
dispatch_channel_iff_example =
    dispatch_channel_iff one_open 10 ServerEvent.pong 7 one_open-IsIndexed

one_open_has :
    lookup 70 one_open.sessions ≡ some (record { user_id = 1; tx = 7; subscriptions = [] })
unfolding register new lookup insert
one_open_has = refl

unregister_offline_example :
    (unregister one_open 70).0 ≡ not (is_online (unregister one_open 70).1 1)
unregister_offline_example =
    unregister_offline one_open 70 (record { user_id = 1; tx = 7; subscriptions = [] })
      one_open-IsIndexed one_open_has

online_count_lem_example :
    let (h', first) = register one_open 2 8 80 in
    let (now_offline, h'') = unregister one_open 80 in
    (online_count h' ≡ online_count one_open + (if first then 1 else 0))
    × (online_count h'' + (if now_offline then 1 else 0) ≡ online_count one_open)
online_count_lem_example = online_count_lem one_open 2 8 80 one_open-IsIndexed

abbrev channel : ℕ
channel = 10

dispatch-subscribe_example :
    (dispatch_user (subscribe one_open 70 channel) 1 ServerEvent.pong
      ≡ dispatch_user one_open 1 ServerEvent.pong)
    × ((reaches (dispatch_channel (subscribe one_open 70 channel) channel ServerEvent.pong) 7
          ≡ true)
        ↔ ((reaches (dispatch_channel one_open channel ServerEvent.pong) 7 ≡ true)
            ⊎ ((channel ≡ channel) × (tx_of one_open 70 ≡ some 7))))
dispatch-subscribe_example =
    dispatch-subscribe one_open 70 channel channel 1 ServerEvent.pong 7 one_open-IsIndexed

one_open_only : lookup 1 one_open.user_sessions ≡ some (70 ∷ [])
unfolding register new lookup insert set_insert
one_open_only = refl

close_while_opening_loses_example :
    let h' = close_while_opening one_open 1 70 71 9 in
    ((leave_set (take_session one_open 70).1 70 1).0 ≡ true)
    × (owns h' 71 1 ≡ true)
    × (is_online h' 1 ≡ false)
    × (dispatch_user h' 1 ServerEvent.pong ≡ [])
close_while_opening_loses_example =
    close_while_opening_loses one_open 1 70 71 9 ServerEvent.pong one_open_only
