-- ===== src/Server/Sockets.antt =====
-- ws/handler.rs: a socket's calls keep the hub's index, and its session ids are UUIDs drawn before.
use rsmc_engine.Base.{
  ℕ, suc, ◌≤◌, ◌≡◌, Bool, none, some, [], arith, inl, inr, Bool-cases, Option-cases, lookup,
  lookup-insert, lookup-remove, set_insert, set_remove, ◌==◌,
}
use rsmc_engine.Models.{ServerEvent, RoutedEvent}
use rsmc_engine.Hub.{Hub, Session, register, unregister, subscribe, unsubscribe}
use rsmc_engine.Hub.Index.{
  IsIndexed, register-IsIndexed, unregister-IsIndexed, subscribe-IsIndexed, unsubscribe-IsIndexed,
}
use rsmc_engine.App.{Env, World, Quiet, Calm, quietly}
use rsmc_engine.Services.Events.{dispatch_remote}
use rsmc_engine.Ws.{mark_presence, reply}
use rsmc_engine.Server.Frames.{emit_user-Quiet}

-- Every registered session has an id that was drawn.
abbrev pub IsIssued : Env → Hub → (draws : ℕ) → Type 0
IsIssued e h draws =
    (s : ℕ) (x : Session)
    → lookup s h.sessions ≡ some x
    → (n : ℕ) × (suc n ≤ draws) × (e.new_v4 n ≡ s)

pub record IsTracked (e : Env) (h : Hub) (draws : ℕ) : Type 0 where
  pub indexed : IsIndexed h
  pub issued : IsIssued e h draws

-- Two draws of a UUID never agree.
abbrev pub AreDistinct : Env → Type 0
AreDistinct e = (m n : ℕ) → e.new_v4 m ≡ e.new_v4 n → m ≡ n

IsIssued-le : (e : Env) (h : Hub) (m n : ℕ) → m ≤ n → IsIssued e h m → IsIssued e h n
IsIssued-le e h m n le t s x l = let (k, p, q) = t s x l in (k, omega arith, q)

pub calm-IsTracked :
    (e : Env) (w w' : World) → Calm w w' → IsTracked e w.hub w.draws → IsTracked e w'.hub w'.draws
calm-IsTracked e w w' (same, le) t =
    rw same
      (record { indexed = t.indexed; issued = IsIssued-le e w.hub w.draws w'.draws le t.issued })

module _ (e : Env) (h : Hub) (draws : ℕ) (t : IsTracked e h draws) where
  pub register-IsTracked :
      (user_id tx : ℕ)
      → AreDistinct e
      → IsTracked e (register h user_id tx (e.new_v4 draws)).0 (suc draws)
  unfolding register
  register-IsTracked user_id tx apart = record {
    indexed = register-IsIndexed h user_id tx (e.new_v4 draws) t.indexed fresh;
    issued = λ s x l. elim (Bool-cases (e.new_v4 draws == s)) [
      | inl same ↦ (draws, omega arith, ground arith)
      | inr other ↦ IsIssued-le e h draws (suc draws) (omega arith) t.issued s x (
          ground (
            arith,
            lookup-insert (e.new_v4 draws) s
                (record { user_id = user_id; tx = tx; subscriptions = [] }) h.sessions,
          ))
    ];
  }
    where
      fresh : lookup (e.new_v4 draws) h.sessions ≡ none
      fresh = elim (Option-cases (lookup (e.new_v4 draws) h.sessions)) [
        | inl f ↦ f
        | inr (x, f) ↦
            let (n, p, q) = t.issued (e.new_v4 draws) x f in absurd (omega (arith, apart n draws q))
      ]

  pub unregister-IsTracked : (s : ℕ) → IsTracked e (unregister h s).1 draws
  unfolding unregister
  unregister-IsTracked s = record {
    indexed = unregister-IsIndexed h s t.indexed;
    issued = λ s' x l. t.issued s' x (was s' x l);
  }
    where
      was :
          (s' : ℕ) (x : Session)
          → lookup s' (unregister h s).1.sessions ≡ some x
          → lookup s' h.sessions ≡ some x
      was s' x l = elim (Option-cases (lookup s h.sessions)) [
        | inl f ↦ ground (arith, lookup-remove s s' h.sessions)
        | inr (y, f) ↦ elim (Option-cases (lookup y.user_id h.user_sessions)) [
          | inl g ↦ ground (arith, lookup-remove s s' h.sessions)
          | inr (ids, g) ↦ ground (arith, lookup-remove s s' h.sessions)
        ]
      ]

  pub subscribe-IsTracked : (s c : ℕ) → IsTracked e (subscribe h s c) draws
  unfolding subscribe
  subscribe-IsTracked s c = record {
    indexed = subscribe-IsIndexed h s t.indexed c;
    issued = λ s' x l. elim (Option-cases (lookup s h.sessions)) [
      | inl f ↦ t.issued s' x (ground arith)
      | inr (y, f) ↦ let (y', l') = was s' x y f l in t.issued s' y' l'
    ];
  }
    where
      was :
          (s' : ℕ) (x y : Session)
          → lookup s h.sessions ≡ some y
          → lookup s' (subscribe h s c).sessions ≡ some x
          → (y' : Session) × (lookup s' h.sessions ≡ some y')
      was s' x y f l = elim (Bool-cases (s == s')) [
        | inl same ↦ (y, ground arith)
        | inr other ↦ (
          x,
          ground (
            arith,
            lookup-insert s s' (record y { subscriptions = set_insert c y.subscriptions })
                h.sessions,
          ),
        )
      ]

  pub unsubscribe-IsTracked : (s c : ℕ) → IsTracked e (unsubscribe h s c) draws
  unfolding unsubscribe
  unsubscribe-IsTracked s c = record {
    indexed = unsubscribe-IsIndexed h s t.indexed c;
    issued = λ s' x l. elim (Option-cases (lookup s h.sessions)) [
      | inl f ↦ t.issued s' x (ground arith)
      | inr (y, f) ↦ let (y', l') = was s' x y f l in t.issued s' y' l'
    ];
  }
    where
      was :
          (s' : ℕ) (x y : Session)
          → lookup s h.sessions ≡ some y
          → lookup s' (unsubscribe h s c).sessions ≡ some x
          → (y' : Session) × (lookup s' h.sessions ≡ some y')
      was s' x y f l = elim (Bool-cases (s == s')) [
        | inl same ↦ (y, ground arith)
        | inr other ↦ (
          x,
          ground (
            arith,
            lookup-insert s s' (record y { subscriptions = set_remove c y.subscriptions })
                h.sessions,
          ),
        )
      ]

pub mark_presence-Quiet : (u : ℕ) (b : Bool) → Quiet (mark_presence u b)
unfolding mark_presence
mark_presence-Quiet u b = search (quietly, emit_user-Quiet)

pub reply-Quiet : (u : ℕ) (x : ServerEvent) → Quiet (reply u x)
unfolding reply
reply-Quiet u x = search quietly

pub remote-Quiet : (r : RoutedEvent) → Quiet (dispatch_remote r)
unfolding dispatch_remote
remote-Quiet (RoutedEvent.channel c x) = search quietly
remote-Quiet (RoutedEvent.user u x) = search quietly
