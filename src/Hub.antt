-- ===== src/Hub.antt =====
-- ws/hub.rs: who is connected, which channels each session follows, and the fan-out of events.
-- A sender is the number of its connection; a dispatch returns the events in the order sent.
pub mod Index
pub mod Fanout
pub mod Subscriptions
pub mod Race
use rsmc_engine.Base.{
  ℕ, Bool, true, false, not, Option, none, some, List, [], ◌∷◌, ◌++◌, if◌then◌else◌, HashMap,
  HashSet, lookup, insert, remove, contains, set_insert, set_remove, is_empty, length,
}
use rsmc_engine.Models.{ServerEvent}

pub record Session : Type 0 where
  pub user_id : ℕ
  pub tx : ℕ
  pub subscriptions : HashSet

pub record Hub : Type 0 where
  pub sessions : HashMap Session
  pub user_sessions : HashMap HashSet

unfoldable pub new : Hub
new = record { sessions = []; user_sessions = [] }

-- The set behind `user_sessions.entry(user_id).or_default()`.
abbrev pub sessions_of : Hub → ℕ → HashSet
sessions_of h user_id = elim (lookup user_id h.user_sessions) [ none ↦ [] | some s ↦ s ]

-- `Hub::register`; the session id is the one that `Uuid::new_v4` drew.
unfoldable pub register : Hub → (user_id tx session_id : ℕ) → Hub × Bool
register h user_id tx session_id = (
  record {
    sessions =
        insert session_id (record { user_id = user_id; tx = tx; subscriptions = [] }) h.sessions;
    user_sessions = insert user_id (set_insert session_id (sessions_of h user_id)) h.user_sessions;
  },
  is_empty (sessions_of h user_id),
)

-- `Hub::unregister` holds no lock from its first statement to its last: these are the three parts
-- between which another task can run.
unfoldable pub take_session : Hub → (session_id : ℕ) → Option Session × Hub
take_session h session_id =
    (lookup session_id h.sessions, record h { sessions = remove session_id h.sessions })

unfoldable pub leave_set : Hub → (session_id user_id : ℕ) → Bool × Hub
leave_set h session_id user_id = elim (lookup user_id h.user_sessions) [
  | none ↦ (false, h)
  | some s ↦ (
    is_empty (set_remove session_id s),
    record h { user_sessions = insert user_id (set_remove session_id s) h.user_sessions },
  )
]

unfoldable pub drop_user : Hub → (user_id : ℕ) → Hub
drop_user h user_id = record h { user_sessions = remove user_id h.user_sessions }

finish : Hub → (session_id : ℕ) → Option Session → Bool × Hub
unfolding leave_set drop_user
finish h session_id none = (false, h)
finish h session_id (some s) =
    let (now_offline, h') = leave_set h session_id s.user_id in
    (now_offline, if now_offline then drop_user h' s.user_id else h')

unfoldable pub unregister : Hub → (session_id : ℕ) → Bool × Hub
unfolding take_session finish
unregister h session_id = let (s, h') = take_session h session_id in finish h' session_id s

-- `get_mut` and a write through it.
with_session : Hub → ℕ → (Session → Session) → Hub
with_session h session_id f = elim (lookup session_id h.sessions) [
  | none ↦ h
  | some s ↦ record h { sessions = insert session_id (f s) h.sessions }
]

unfoldable pub subscribe : Hub → (session_id channel_id : ℕ) → Hub
unfolding with_session
subscribe h session_id channel_id =
    with_session h session_id
      (λ s. record s { subscriptions = set_insert channel_id s.subscriptions })

unfoldable pub unsubscribe : Hub → (session_id channel_id : ℕ) → Hub
unfolding with_session
unsubscribe h session_id channel_id =
    with_session h session_id
      (λ s. record s { subscriptions = set_remove channel_id s.subscriptions })

unfoldable pub is_online : Hub → (user_id : ℕ) → Bool
is_online h user_id = elim (lookup user_id h.user_sessions) [
  | none ↦ false
  | some s ↦ not (is_empty s)
]

unfoldable pub online_count : Hub → ℕ
online_count h = length h.user_sessions

-- An event handed to the sender `tx`.
pub record Delivery : Type 0 where
  pub tx : ℕ
  pub event : ServerEvent

to_subscribers : HashMap Session → (channel_id : ℕ) → ServerEvent → List Delivery
to_subscribers [] channel_id event = []
to_subscribers ((id, s) ∷ rest) channel_id event =
    if contains channel_id s.subscriptions
    then record { tx = s.tx; event = event } ∷ to_subscribers rest channel_id event
    else to_subscribers rest channel_id event

unfoldable pub dispatch_channel : Hub → (channel_id : ℕ) → ServerEvent → List Delivery
unfolding to_subscribers
dispatch_channel h channel_id event = to_subscribers h.sessions channel_id event

to_each : HashMap Session → HashSet → ServerEvent → List Delivery
to_each sessions [] event = []
to_each sessions (id ∷ ids) event = elim (lookup id sessions) [
  | none ↦ to_each sessions ids event
  | some s ↦ record { tx = s.tx; event = event } ∷ to_each sessions ids event
]

unfoldable pub dispatch_user : Hub → (user_id : ℕ) → ServerEvent → List Delivery
unfolding to_each
dispatch_user h user_id event = elim (lookup user_id h.user_sessions) [
  | none ↦ []
  | some ids ↦ to_each h.sessions ids event
]
