-- ===== src/Handlers/Auth/Rotation.antt =====
-- handlers/auth.rs: a refresh token serves once.
use rsmc_engine.Base.{
  ℕ, ◌≡◌, refl, ◌∙◌, sym, ap, Bool, true, false, not, ◌&&◌, ◌||◌, ◌==◌, some, List, [], ◌∷◌, Text,
  text_eq_iff, find, any, update_where, arith, Bool-cases, inl, inr, any-append, any_of_find,
  any-found,
}
use rsmc_engine.Error.{unique_violation}
use rsmc_engine.Models.{Channel, ChannelMember, RefreshToken, User, AuthResponse}
use rsmc_engine.Db.{Db, rows, fails}
use rsmc_engine.App.{
  Env, M, Triple, Makes-if, Makes, Makes-references, Whatever, bind-Triple, ◌>>◌, execute,
  execute-Triple, query-Triple, or_fail-Triple, fail_if-Triple, now-Triple, forget, weaken-Triple,
}
use rsmc_engine.Services.Access.{is_row}
use rsmc_engine.Handlers.Auth.Frames.{Keeper, renew-Keeps}
use rsmc_engine.Handlers.Channels.Store.{
  insert_channel, add_member_row, push_member, has_id, same_name,
}
use rsmc_engine.Handlers.Auth.Store.{
  by_id, taken, insert_user, insert_token, revoke_hash, revoke_all, revoke, by_hash,
}
use rsmc_engine.Handlers.Auth.{renew, rotate, is_stale}

abbrev pub is_valid : Text → RefreshToken → Bool
is_valid hash t = by_hash hash t && not t.revoked

-- A token that was stored and is revoked.
abbrev pub Spent : Text → Db → Type 0
Spent hash d =
    (any (by_hash hash) d.refresh_tokens ≡ true) × (any (is_valid hash) d.refresh_tokens ≡ false)

other_hash :
    (hash : Text) (t : RefreshToken) (ts : List RefreshToken)
    → any (by_hash hash) ts ≡ true
    → any (by_hash t.token_hash) ts ≡ false
    → by_hash hash t ≡ false
other_hash hash t ts h k = elim (Bool-cases (by_hash hash t)) [
  | inl e ↦
      absurd
        (ground (arith, h, k, ap (λ x. any (by_hash x) ts) ((text_eq_iff t.token_hash hash).0 e)))
  | inr e ↦ e
]

insert_token-Spent :
    (hash : Text) (t : RefreshToken) (d : Db)
    → Spent hash d
    → Makes (λ _. Spent hash) (insert_token t d)
unfolding insert_token
insert_token-Spent hash t d h =
    elim (Bool-cases
      (any (λ x. x.id == t.id) d.refresh_tokens || any (by_hash t.token_hash) d.refresh_tokens)) [
        | inl taken ↦ rw taken tt
        | inr fresh ↦
            let other = other_hash hash t d.refresh_tokens h.0 (ground (arith, fresh)) in
            rw fresh (
              Makes-references (λ _. Spent hash) _ (rows tt _)
                ((
                  any-append (by_hash hash) d.refresh_tokens (t ∷ []) ∙ ground (arith, h.0),
                  any-append (is_valid hash) d.refresh_tokens (t ∷ []) ∙ ground (arith, h.1, other),
                )))
      ]

update-stored :
    (hash : Text) (p : RefreshToken → Bool) (ts : List RefreshToken)
    → any (by_hash hash) (update_where p revoke ts) ≡ any (by_hash hash) ts
update-stored hash p [] = refl
update-stored hash p (t ∷ ts) = ground (arith, update-stored hash p ts)

update-revoked :
    (hash : Text) (p : RefreshToken → Bool) (ts : List RefreshToken)
    → any (is_valid hash) ts ≡ false
    → any (is_valid hash) (update_where p revoke ts) ≡ false
update-revoked hash p [] h = refl
update-revoked hash p (t ∷ ts) h = ground (arith, update-revoked hash p ts)

revoke-Spent :
    (hash : Text) (p : RefreshToken → Bool) (ts : List RefreshToken)
    → (any (by_hash hash) ts ≡ true) × (any (is_valid hash) ts ≡ false)
    → (any (by_hash hash) (update_where p revoke ts) ≡ true)
      × (any (is_valid hash) (update_where p revoke ts) ≡ false)
revoke-Spent hash p ts h = (update-stored hash p ts ∙ h.0, update-revoked hash p ts h.1)

spent_now :
    (hash : Text) (ts : List RefreshToken)
    → any (is_valid hash) (update_where (by_hash hash) revoke ts) ≡ false
spent_now hash [] = refl
spent_now hash (t ∷ ts) = ground (arith, spent_now hash ts)

insert_user-Spent :
    (hash : Text) (e : Env) (u : User) (d : Db)
    → Spent hash d
    → Makes (λ _. Spent hash) (insert_user e u d)
unfolding insert_user
insert_user-Spent hash e u d h =
    Makes-if (λ _. Spent hash)
      (any (by_id u.id) d.users || any (taken e u.email u.username) d.users)
      (fails unique_violation) (rows u _) tt h

insert_channel-Spent :
    (hash : Text) (e : Env) (c : Channel) (d : Db)
    → Spent hash d
    → Makes (λ _. Spent hash) (insert_channel e c d)
unfolding insert_channel
insert_channel-Spent hash e c d h =
    Makes-if (λ _. Spent hash) (any (has_id c.id) d.channels || any (same_name e c.name) d.channels)
      (fails unique_violation) _ tt (Makes-references (λ _. Spent hash) _ (rows c _) h)

add_member-Spent :
    (hash : Text) (m : ChannelMember) (d : Db)
    → Spent hash d
    → Makes (λ _. Spent hash) (add_member_row m d)
unfolding add_member_row push_member
add_member-Spent hash m d h =
    Makes-if (λ _. Spent hash) (any (is_row m.channel_id m.user_id) d.channel_members)
      (rows false d) _ h (Makes-references (λ _. Spent hash) _ (rows true _) h)

revoke_hash-Spent :
    (hash other : Text) (d : Db) → Spent hash d → Makes (λ _. Spent hash) (revoke_hash other d)
unfolding revoke_hash
revoke_hash-Spent hash other d h = revoke-Spent hash (by_hash other) d.refresh_tokens h

revoke_all-Spent :
    (hash : Text) (u : ℕ) (d : Db) → Spent hash d → Makes (λ _. Spent hash) (revoke_all u d)
unfolding revoke_all
revoke_all-Spent hash u d h =
    revoke-Spent hash (λ t. t.user_id == u && not t.revoked) d.refresh_tokens h

pub spent_keeper : (hash : Text) → Keeper (Spent hash)
spent_keeper hash = record {
  insert_user = insert_user-Spent hash;
  insert_token = insert_token-Spent hash;
  revoke_hash = revoke_hash-Spent hash;
  revoke_all = revoke_all-Spent hash;
  insert_channel = insert_channel-Spent hash;
  add_member = add_member-Spent hash;
}

pub absurd-Triple :
    {A : Type 0} {P : Db → Type 0} {m : M A} {Q : A → Db → Type 0} {E : Db → Type 0}
    → ((d : Db) → P d → ⊥)
    → Triple P m Q E
absurd-Triple none_left = record { run = λ e w p. absurd (none_left w.db p) }

found_stored :
    (hash : Text) (ts : List RefreshToken) (t : RefreshToken)
    → find (by_hash hash) ts ≡ some t
    → any (by_hash hash) (update_where (by_hash hash) revoke ts) ≡ true
found_stored hash ts t h = update-stored hash (by_hash hash) ts ∙ any_of_find (by_hash hash) ts t h

-- The stored token that a rotation accepts: revoked nowhere, in time, of this user.
abbrev pub Accepts : (hash : Text) (sub at : ℕ) → RefreshToken → Db → Type 0
Accepts hash sub at t d =
    (find (by_hash hash) d.refresh_tokens ≡ some t) × (is_stale at sub t ≡ false)

-- A rotation reads the token, and goes on only when it accepts it.
pub rotate-Triple :
    {P : Db → Type 0} {R : AuthResponse → Db → Type 0} (hash : Text) (sub : ℕ)
    → ((t : RefreshToken) (at : ℕ)
        → Triple
            (λ d. P d × Accepts hash sub at t d)
            (execute (revoke_hash hash) >> renew t.user_id)
            R
            Whatever)
    → Triple P (rotate hash sub) R Whatever
unfolding rotate
rotate-Triple {P} hash sub next =
    bind-Triple (λ row d. P d × (row ≡ find (by_hash hash) d.refresh_tokens))
      (query-Triple _ (λ d p. tt))
      λ row.
        bind-Triple (λ t d. (P d × (row ≡ find (by_hash hash) d.refresh_tokens)) × (row ≡ some t))
          (or_fail-Triple row _ (λ d p. tt))
          λ t.
            bind-Triple (λ _ d. P d × (find (by_hash hash) d.refresh_tokens ≡ some t))
              (weaken-Triple _ (λ d p. (p.0.0, sym p.0.1 ∙ p.1)) now-Triple)
              λ at.
                bind-Triple
                  (λ _ d.
                    (P d × (find (by_hash hash) d.refresh_tokens ≡ some t))
                    × (is_stale at sub t ≡ false))
                  (fail_if-Triple _ _ (λ d p. tt))
                  λ _. weaken-Triple _ (λ d p. (p.0.0, (p.0.1, p.1))) (next t at)

-- What a rotation that succeeds leaves.
pub rotate-spends :
    (hash : Text) (sub : ℕ) → Triple Whatever (rotate hash sub) (λ _. Spent hash) Whatever
unfolding revoke_hash
rotate-spends hash sub = rotate-Triple hash sub λ t at.
    bind-Triple (λ _. Spent hash)
      (execute-Triple (revoke_hash hash) (λ d p. tt)
        (λ d p. (found_stored hash d.refresh_tokens t p.1.0, spent_now hash d.refresh_tokens)))
      λ _. forget (renew-Keeps (spent_keeper hash) t.user_id)

spent_revoked :
    (hash : Text) (ts : List RefreshToken) (t : RefreshToken)
    → find (by_hash hash) ts ≡ some t
    → any (is_valid hash) ts ≡ false
    → t.revoked ≡ true
spent_revoked hash ts t h k = elim (Bool-cases t.revoked) [
  | inl e ↦ e
  | inr e ↦
      absurd (
        ground (arith, k, any-found (by_hash hash) (λ x. not x.revoked) ts t h (ground (arith, e))))
]

stale_when_revoked :
    (at sub : ℕ) (t : RefreshToken) → t.revoked ≡ true → is_stale at sub t ≡ false → ⊥
stale_when_revoked at sub t h k = ground (arith, h, k)

-- A token that is spent is not taken again.
pub rotate-refused :
    (hash : Text) (sub : ℕ) → Triple (Spent hash) (rotate hash sub) (λ _ _. ⊥) Whatever
rotate-refused hash sub = rotate-Triple hash sub λ t at.
    absurd-Triple
      λ d p. stale_when_revoked at sub t (spent_revoked hash d.refresh_tokens t p.1.0 p.0.1) p.1.1
