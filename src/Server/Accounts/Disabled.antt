-- ===== src/Server/Accounts/Disabled.antt =====
-- handlers/users.rs and handlers/auth.rs: what a deactivation takes away.
use rsmc_engine.Base.{
  ℕ, ◌≡◌, refl, ◌∙◌, sym, subst, ap, Bool, true, false, not, ◌&&◌, ◌||◌, ◌==◌, Option, some, List,
  [], ◌∷◌, All, Text, arith, Bool-cases, inl, inr, any, any-append, any_of_find, any-found, find,
  update_where, any-update_where, ==_iff,
}
use rsmc_engine.Error.{Result, ok, unique_violation}
use rsmc_engine.Models.{
  User, RefreshToken, Channel, ChannelMember, RefreshRequest, UserPublic, Claims,
}
use rsmc_engine.Db.{Db, rows, fails}
use rsmc_engine.App.{
  Env, World, Triple, Keeps, Makes, Makes-if, Makes-references, Ends, Whatever, is_err, skip-Triple,
  bind-Triple, bind-Keeps, execute-Triple, execute-Keeps, execute, query-Triple, or_fail-Triple,
  fail_if-Triple, conclude-Triple, given-Triple, attempt-Triple, pure-Keeps, forget,
}
use rsmc_engine.Services.Access.{AuthUser, is_row}
use rsmc_engine.Handlers.Channels.Store.{
  insert_channel, add_member_row, push_member, has_id, same_name,
}
use rsmc_engine.Handlers.Auth.Store.{
  by_id, taken, insert_user, insert_token, revoke_hash, revoke_all, by_hash,
}
use rsmc_engine.Handlers.Auth.{rotate, renew, refresh, is_stale}
use rsmc_engine.Handlers.Auth.Frames.{Keeper}
use rsmc_engine.Handlers.Auth.Rotation.{rotate-Triple, absurd-Triple}
use rsmc_engine.Handlers.Users.{update_user, profile, deactivate, set_active}
use rsmc_engine.Server.Accounts.{AccountCall, run_accounts}
use rsmc_engine.Server.Accounts.Replay.{refresh-cases, fails_always}
use rsmc_engine.Server.Accounts.Frames.{AccountKeeper, permits, run_accounts-Keeps}

abbrev pub is_enabled : (user_id : ℕ) → User → Bool
is_enabled u x = x.id == u && x.is_active

-- The user is there, and not active.
abbrev pub Shut : (user_id : ℕ) → Db → Type 0
Shut u d = (any (by_id u) d.users ≡ true) × (any (is_enabled u) d.users ≡ false)

other_id :
    (u : ℕ) (x : User) (xs : List User)
    → any (by_id u) xs ≡ true
    → any (by_id x.id) xs ≡ false
    → by_id u x ≡ false
other_id u x xs h k = elim (Bool-cases (by_id u x)) [
  | inl e ↦ absurd (ground (arith, h, k, ap (λ i. any (by_id i) xs) ((==_iff x.id u).0 e)))
  | inr e ↦ e
]

insert_user-Shut :
    (u : ℕ) (e : Env) (x : User) (d : Db) → Shut u d → Makes (λ _. Shut u) (insert_user e x d)
unfolding insert_user
insert_user-Shut u e x d h =
    elim (Bool-cases (any (by_id x.id) d.users || any (taken e x.email x.username) d.users)) [
      | inl dup ↦ rw dup tt
      | inr fresh ↦
          let other = other_id u x d.users h.0 (ground (arith, fresh)) in
          rw fresh (
            any-append (by_id u) d.users (x ∷ []) ∙ ground (arith, h.0),
            any-append (is_enabled u) d.users (x ∷ []) ∙ ground (arith, h.1, other),
          )
    ]

insert_token-Shut :
    (u : ℕ) (t : RefreshToken) (d : Db) → Shut u d → Makes (λ _. Shut u) (insert_token t d)
unfolding insert_token
insert_token-Shut u t d h =
    Makes-if (λ _. Shut u)
      (any (λ x. x.id == t.id) d.refresh_tokens || any (by_hash t.token_hash) d.refresh_tokens)
      (fails unique_violation) _ tt (Makes-references (λ _. Shut u) _ (rows tt _) h)

insert_channel-Shut :
    (u : ℕ) (e : Env) (c : Channel) (d : Db) → Shut u d → Makes (λ _. Shut u) (insert_channel e c d)
unfolding insert_channel
insert_channel-Shut u e c d h =
    Makes-if (λ _. Shut u) (any (has_id c.id) d.channels || any (same_name e c.name) d.channels)
      (fails unique_violation) _ tt (Makes-references (λ _. Shut u) _ (rows c _) h)

add_member-Shut :
    (u : ℕ) (m : ChannelMember) (d : Db) → Shut u d → Makes (λ _. Shut u) (add_member_row m d)
unfolding add_member_row push_member
add_member-Shut u m d h =
    Makes-if (λ _. Shut u) (any (is_row m.channel_id m.user_id) d.channel_members) (rows false d) _
      h (Makes-references (λ _. Shut u) _ (rows true _) h)

shut_keeper : (u : ℕ) → Keeper (Shut u)
unfolding revoke_hash revoke_all
shut_keeper u = record {
  insert_user = insert_user-Shut u;
  insert_token = insert_token-Shut u;
  revoke_hash = λ hash d h. h;
  revoke_all = λ v d h. h;
  insert_channel = insert_channel-Shut u;
  add_member = add_member-Shut u;
}

-- An update that keeps who is enabled.
update-Shut :
    (u id at : ℕ) (f : User → User)
    → ((x : User) → (f x).id ≡ x.id)
    → ((x : User) → by_id id x ≡ true → is_enabled u x ≡ false → is_enabled u (f x) ≡ false)
    → Keeps (Shut u) (execute (update_user id at f))
unfolding update_user
update-Shut u id at f same stays = execute-Keeps (update_user id at f) λ d h. (
  any-update_where (by_id u) (by_id id) _ (λ x. ground (arith, same x)) d.users ∙ h.0,
  off d.users h.1,
)
  where
    off :
        (xs : List User)
        → any (is_enabled u) xs ≡ false
        → any (is_enabled u) (update_where (by_id id) (λ x. record (f x) { updated_at = at }) xs)
          ≡ false
    off [] h = refl
    off (x ∷ xs) h = elim (Bool-cases (by_id id x)) [
      | inl mine ↦ rw mine (ground (arith, h, off xs, stays x mine))
      | inr other ↦ rw other (ground (arith, h, off xs))
    ]

off_stays : (u : ℕ) (x : User) → is_enabled u (record x { is_active = false }) ≡ false
off_stays u x = ground arith

other_stays :
    (u v : ℕ) (x : User)
    → not (v == u) ≡ true
    → by_id v x ≡ true
    → is_enabled u (record x { is_active = true }) ≡ false
other_stays u v x other mine = ground (arith, other, mine)

abbrev shut_account_keeper : (u : ℕ) → AccountKeeper (Shut u)
shut_account_keeper u = record {
  sessions = shut_keeper u;
  may_enable = λ v. not (v == u);
  edit = λ v at req. update-Shut u v at (profile req) (λ x. refl) (λ x _ h. h);
  assign = λ v at r. update-Shut u v at (λ x. record x { role = r }) (λ x. refl) (λ x _ h. h);
  switch_off = λ v at.
      update-Shut u v at (λ x. record x { is_active = false }) (λ x. refl) (λ x _ _. off_stays u x);
  switch_on = λ v other at.
      update-Shut u v at (λ x. record x { is_active = true }) (λ x. refl)
        (λ x mine _. other_stays u v x other mine);
}

shut_off :
    (u at : ℕ) (xs : List User)
    → any
        (is_enabled u)
        (update_where (by_id u) (λ x. record x { is_active = false; updated_at = at }) xs)
      ≡ false
shut_off u at [] = refl
shut_off u at (x ∷ xs) = elim (Bool-cases (by_id u x)) [
  | inl mine ↦ rw mine (ground (arith, shut_off u at xs))
  | inr other ↦ rw other (ground (arith, other, shut_off u at xs))
]

-- After the row was updated, if it was there.
abbrev Off : (user_id : ℕ) → Option User → Db → Type 0
Off u o d = (o ≡ find (by_id u) d.users) × (any (is_enabled u) d.users ≡ false)

deactivated-Off :
    (u at : ℕ)
    → Triple Whatever
        (execute (update_user u at (λ x. record x { is_active = false })))
        (Off u)
        Whatever
unfolding update_user
deactivated-Off u at =
    execute-Triple (update_user u at (λ x. record x { is_active = false })) (λ d h. tt)
      (λ d h. (refl, shut_off u at d.users))

revoke_all-Shut : (u v : ℕ) → Keeps (Shut u) (execute (revoke_all v))
unfolding revoke_all
revoke_all-Shut u v = execute-Keeps (revoke_all v) (λ d h. h)

found_shut : (u : ℕ) (o : Option User) (x : User) (d : Db) → Off u o d × (o ≡ some x) → Shut u d
found_shut u o x d h = (any_of_find (by_id u) d.users x (sym h.0.0 ∙ h.1), h.0.1)

-- A deactivation that succeeds leaves the user shut out, even when the revocation is lost.
deactivate-Shut : (a : AuthUser) (u : ℕ) → Triple Whatever (deactivate a u) (λ _. Shut u) Whatever
unfolding deactivate set_active
deactivate-Shut a u = skip-Triple _ λ _. skip-Triple _ λ _. skip-Triple _ λ at.
    bind-Triple (Off u) (deactivated-Off u at) λ o.
      bind-Triple (λ _. Shut u)
        (conclude-Triple (λ x d. Off u o d × (o ≡ some x)) (or_fail-Triple o _ (λ d p. tt))
          (found_shut u o))
        λ x. forget (
          bind-Keeps (bind-Keeps (attempt-Triple (revoke_all-Shut u u)) (λ _. pure-Keeps tt))
            (λ _. pure-Keeps _))

found_enabled :
    (u : ℕ) (xs : List User) (x : User)
    → find (by_id u) xs ≡ some x
    → any (is_enabled u) xs ≡ false
    → not x.is_active ≡ false
    → ⊥
found_enabled u xs x h off active =
    ground (arith, off, any-found (by_id u) (λ y. y.is_active) xs x h (ground (arith, active)))

renew-Shut : (u : ℕ) → Triple (Shut u) (renew u) (λ _ _. ⊥) Whatever
unfolding renew
renew-Shut u =
    bind-Triple (λ o d. Shut u d × (o ≡ find (by_id u) d.users)) (query-Triple _ (λ d p. tt))
      λ o.
        bind-Triple (λ x d. (Shut u d × (o ≡ find (by_id u) d.users)) × (o ≡ some x))
          (or_fail-Triple o _ (λ d p. tt))
          λ x.
            bind-Triple
              (λ _ d.
                ((Shut u d × (o ≡ find (by_id u) d.users)) × (o ≡ some x))
                × (not x.is_active ≡ false))
              (fail_if-Triple _ _ (λ d p. tt))
              λ _.
                absurd-Triple λ d p. found_enabled u d.users x (sym p.0.0.1 ∙ p.0.1) p.0.0.0.1 p.1

accepted_owner : (at sub : ℕ) (t : RefreshToken) → is_stale at sub t ≡ false → t.user_id ≡ sub
accepted_owner at sub t h = ground (arith, h)

rotate-Shut : (hash : Text) (u : ℕ) → Triple (Shut u) (rotate hash u) (λ _ _. ⊥) Whatever
unfolding revoke_hash
rotate-Shut hash u = rotate-Triple hash u λ t at.
    bind-Triple (λ _ d. Shut u d × (t.user_id ≡ u))
      (execute-Triple (revoke_hash hash) (λ d p. tt) (λ d p. (p.0, accepted_owner at u t p.1.1)))
      λ _.
        given-Triple
          λ own. subst (λ v. Triple (Shut u) (renew v) (λ _ _. ⊥) Whatever) (sym own) (renew-Shut u)

shut_after :
    (r : Result UserPublic × World) (x : UserPublic) (w : World) (u : ℕ)
    → r ≡ (ok x, w)
    → Ends (λ _. Shut u) Whatever r
    → Shut u w.db
shut_after r x w u same h = subst (Ends (λ _. Shut u) Whatever) same h

-- After an admin deactivated a user, and until somebody activates that user, every refresh fails
-- with every token whose claims name the user, whatever calls on accounts and sessions come
-- between, and whichever statements are lost, the revocation of the user's tokens included.
pub disabled_out :
    (e : Env) (w w' : World) (a : AuthUser) (u : ℕ) (x : UserPublic) (cs : List AccountCall)
    (req : RefreshRequest)
    → deactivate a u e w ≡ (ok x, w')
    → All (λ c. permits (λ v. not (v == u)) c ≡ true) cs
    → ((s : ℕ) (c : Claims) → e.jwt.decoding s req.refresh_token ≡ some c → c.sub ≡ u)
    → is_err (refresh req e (run_accounts cs e w')).0 ≡ true
disabled_out e w w' a u x cs req done quiet names =
    refresh-cases (λ r. is_err r.0 ≡ true) req e (run_accounts cs e w') (λ err' w1. refl)
      λ s c w1 read same. fails_always (rotate (e.encode_uuid c.jti) c.sub e w1) (
        subst (λ v. Ends (λ _ _. ⊥) Whatever (rotate (e.encode_uuid c.jti) v e w1))
          (sym (names s c read))
          ((rotate-Shut (e.encode_uuid c.jti) u).run e w1 (subst (Shut u) (sym same) still)))
  where
    still : Shut u (run_accounts cs e w').db
    still =
        run_accounts-Keeps (shut_account_keeper u) cs e w' quiet
          (shut_after (deactivate a u e w) x w' u done ((deactivate-Shut a u).run e w tt))
