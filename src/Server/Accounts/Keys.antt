-- ===== src/Server/Accounts/Keys.antt =====
-- handlers/auth.rs, handlers/users.rs: what the tables promise while accounts and sessions come and
-- go, with the promises of `Invariant`, since signing up creates a channel and joins it.
use rsmc_engine.Base.{
  ℕ, ◌≡◌, refl, ◌∙◌, sym, subst, ap, Bool, true, false, ◌&&◌, ◌||◌, not, ◌==◌, List, [], ◌∷◌, ◌++◌,
  All, text_eq_iff, arith, Bool-cases, inl, inr, any, any-append, any-update_where, update_where,
  AtMostOnce, append-AtMostOnce, update-AtMostOnce,
}
use rsmc_engine.Error.{unique_violation}
use rsmc_engine.Models.{User, RefreshToken, Channel, ChannelMember}
use rsmc_engine.Db.{Db, Sql, rows, fails, user_exists}
use rsmc_engine.App.{Env, World, Keeps, Makes, Makes-if, Makes-references, execute, execute-Keeps}
use rsmc_engine.Services.Access.{is_row}
use rsmc_engine.Handlers.Channels.Store.{
  insert_channel, add_member_row, push_member, has_id, same_name,
}
use rsmc_engine.Handlers.Auth.Store.{
  by_id, taken, insert_user, insert_token, revoke, revoke_hash, revoke_all, by_hash,
}
use rsmc_engine.Handlers.Auth.Frames.{Keeper}
use rsmc_engine.Handlers.Users.{update_user, profile}
use rsmc_engine.Invariant.{IsSound}
use rsmc_engine.Invariant.Channels.{insert_channel-IsSound, add_member_row-IsSound}
use rsmc_engine.Server.Accounts.{AccountCall, run_accounts}
use rsmc_engine.Server.Accounts.Frames.{AccountKeeper, permits-All, run_accounts-Keeps}

-- Each token is of a user that is there.
abbrev pub AreOwned : List User → List RefreshToken → Type 0
AreOwned us ts = All (λ t. any (by_id t.user_id) us ≡ true) ts

pub record IsKeyed (d : Db) : Type 0 where
  pub sound : IsSound d
  pub users_once : AtMostOnce by_id d.users
  pub tokens_once : AtMostOnce by_hash d.refresh_tokens
  pub owned : AreOwned d.users d.refresh_tokens

more-AreOwned :
    (us vs : List User) (ts : List RefreshToken)
    → ((u : ℕ) → any (by_id u) us ≡ true → any (by_id u) vs ≡ true)
    → AreOwned us ts
    → AreOwned vs ts
more-AreOwned us vs [] more h = tt
more-AreOwned us vs (t ∷ ts) more h = (more t.user_id h.0, more-AreOwned us vs ts more h.1)

append-AreOwned :
    (us : List User) (ts : List RefreshToken) (t : RefreshToken)
    → any (by_id t.user_id) us ≡ true
    → AreOwned us ts
    → AreOwned us (ts ++ t ∷ [])
append-AreOwned us [] t own h = (own, tt)
append-AreOwned us (x ∷ ts) t own h = (h.0, append-AreOwned us ts t own h.1)

revoke-AreOwned :
    (q : RefreshToken → Bool) (us : List User) (ts : List RefreshToken)
    → AreOwned us ts
    → AreOwned us (update_where q revoke ts)
revoke-AreOwned q us [] h = tt
revoke-AreOwned q us (t ∷ ts) h = elim (Bool-cases (q t)) [
  | inl hit ↦ rw hit (h.0, revoke-AreOwned q us ts h.1)
  | inr miss ↦ rw miss (h.0, revoke-AreOwned q us ts h.1)
]

-- Tables that agree on what `IsSound` reads.
same-IsSound :
    (d : Db) (us : List User) (ts : List RefreshToken)
    → IsSound d
    → IsSound (record d { users = us; refresh_tokens = ts })
same-IsSound d us ts h = record {
  threaded = h.threaded;
  reacted_once = h.reacted_once;
  joined_once = h.joined_once;
}

insert_user-IsKeyed :
    (e : Env) (u : User) (d : Db) → IsKeyed d → Makes (λ _. IsKeyed) (insert_user e u d)
unfolding insert_user
insert_user-IsKeyed e u d h =
    elim (Bool-cases (any (by_id u.id) d.users || any (taken e u.email u.username) d.users)) [
      | inl dup ↦ rw dup tt
      | inr fresh ↦ rw fresh (record {
        sound = same-IsSound d (d.users ++ u ∷ []) d.refresh_tokens h.sound;
        users_once =
            append-AtMostOnce by_id d.users u u.id (λ k same. ground (arith, same))
              (ground (arith, fresh)) h.users_once;
        tokens_once = h.tokens_once;
        owned =
            more-AreOwned d.users (d.users ++ u ∷ []) d.refresh_tokens
              (λ v there. any-append (by_id v) d.users (u ∷ []) ∙ ground (arith, there)) h.owned;
      })
    ]

insert_token-IsKeyed :
    (t : RefreshToken) (d : Db) → IsKeyed d → Makes (λ _. IsKeyed) (insert_token t d)
unfolding insert_token
insert_token-IsKeyed t d h =
    elim (Bool-cases
      (any (λ x. x.id == t.id) d.refresh_tokens || any (by_hash t.token_hash) d.refresh_tokens)) [
        | inl dup ↦ rw dup tt
        | inr fresh ↦ rw fresh (elim (Bool-cases (user_exists t.user_id d)) [
          | inl there ↦ rw there (record {
            sound = same-IsSound d d.users (d.refresh_tokens ++ t ∷ []) h.sound;
            users_once = h.users_once;
            tokens_once =
                append-AtMostOnce by_hash d.refresh_tokens t t.token_hash
                  (λ k same. sym ((text_eq_iff t.token_hash k).0 same)) (ground (arith, fresh))
                  h.tokens_once;
            owned = append-AreOwned d.users d.refresh_tokens t there h.owned;
          })
          | inr nobody ↦ rw nobody tt
        ])
      ]

revoke-IsKeyed :
    (q : RefreshToken → Bool) (d : Db)
    → IsKeyed d
    → IsKeyed (record d { refresh_tokens = update_where q revoke d.refresh_tokens })
revoke-IsKeyed q d h = record {
  sound = same-IsSound d d.users (update_where q revoke d.refresh_tokens) h.sound;
  users_once = h.users_once;
  tokens_once = update-AtMostOnce by_hash q revoke d.refresh_tokens (λ k x. refl) h.tokens_once;
  owned = revoke-AreOwned q d.users d.refresh_tokens h.owned;
}

abbrev SameAccounts : Db → Db → Type 0
SameAccounts d d' = (d'.users ≡ d.users) × (d'.refresh_tokens ≡ d.refresh_tokens)

-- A statement on the other tables.
apart-IsKeyed :
    {A : Type 0} (d : Db) (s : Sql A)
    → IsKeyed d
    → Makes (λ _. IsSound) s
    → Makes (λ _. SameAccounts d) s
    → Makes (λ _. IsKeyed) s
apart-IsKeyed d (rows a d') h sound (users, tokens) = record {
  sound = sound;
  users_once = subst (AtMostOnce by_id) (sym users) h.users_once;
  tokens_once = subst (AtMostOnce by_hash) (sym tokens) h.tokens_once;
  owned = rw (users, tokens) h.owned;
}
apart-IsKeyed d (fails x) h sound same = tt

insert_channel-SameAccounts :
    (e : Env) (c : Channel) (d : Db) → Makes (λ _. SameAccounts d) (insert_channel e c d)
unfolding insert_channel
insert_channel-SameAccounts e c d =
    Makes-if (λ _. SameAccounts d)
      (any (has_id c.id) d.channels || any (same_name e c.name) d.channels) (fails unique_violation)
      _ tt (Makes-references (λ _. SameAccounts d) _ (rows c _) (refl, refl))

add_member-SameAccounts :
    (m : ChannelMember) (d : Db) → Makes (λ _. SameAccounts d) (add_member_row m d)
unfolding add_member_row push_member
add_member-SameAccounts m d =
    Makes-if (λ _. SameAccounts d) (any (is_row m.channel_id m.user_id) d.channel_members)
      (rows false d) _ (refl, refl)
      (Makes-references (λ _. SameAccounts d) _ (rows true _) (refl, refl))

insert_channel-IsKeyed :
    (e : Env) (c : Channel) (d : Db) → IsKeyed d → Makes (λ _. IsKeyed) (insert_channel e c d)
insert_channel-IsKeyed e c d h =
    apart-IsKeyed d (insert_channel e c d) h (insert_channel-IsSound d h.sound e c)
      (insert_channel-SameAccounts e c d)

add_member-IsKeyed :
    (m : ChannelMember) (d : Db) → IsKeyed d → Makes (λ _. IsKeyed) (add_member_row m d)
add_member-IsKeyed m d h =
    apart-IsKeyed d (add_member_row m d) h (add_member_row-IsSound d h.sound m)
      (add_member-SameAccounts m d)

keyed_keeper : Keeper IsKeyed
unfolding revoke_hash revoke_all
keyed_keeper = record {
  insert_user = insert_user-IsKeyed;
  insert_token = insert_token-IsKeyed;
  revoke_hash = λ hash d h. revoke-IsKeyed (by_hash hash) d h;
  revoke_all = λ u d h. revoke-IsKeyed (λ t. t.user_id == u && not t.revoked) d h;
  insert_channel = insert_channel-IsKeyed;
  add_member = add_member-IsKeyed;
}

-- An update of users that keeps their ids.
update-IsKeyed :
    (id at : ℕ) (f : User → User)
    → ((x : User) → (f x).id ≡ x.id)
    → Keeps IsKeyed (execute (update_user id at f))
unfolding update_user
update-IsKeyed id at f same = execute-Keeps (update_user id at f) λ d h.
    let stamped = λ (x : User). record (f x) { updated_at = at } in
    let kept = λ (k : ℕ) (x : User). ap (λ i. i == k) (same x) in
    record {
      sound = same-IsSound d (update_where (by_id id) stamped d.users) d.refresh_tokens h.sound;
      users_once = update-AtMostOnce by_id (by_id id) stamped d.users kept h.users_once;
      tokens_once = h.tokens_once;
      owned =
          more-AreOwned d.users (update_where (by_id id) stamped d.users) d.refresh_tokens
            (λ u there. any-update_where (by_id u) (by_id id) stamped (kept u) d.users ∙ there)
            h.owned;
    }

abbrev keyed_account_keeper : AccountKeeper IsKeyed
keyed_account_keeper = record {
  sessions = keyed_keeper;
  may_enable = λ u. true;
  edit = λ u at req. update-IsKeyed u at (profile req) (λ x. refl);
  assign = λ u at r. update-IsKeyed u at (λ x. record x { role = r }) (λ x. refl);
  switch_off = λ u at. update-IsKeyed u at (λ x. record x { is_active = false }) (λ x. refl);
  switch_on = λ u _ at. update-IsKeyed u at (λ x. record x { is_active = true }) (λ x. refl);
}

-- Any sequence of calls on accounts and sessions, whichever statements are lost on the way, keeps
-- the promises of the tables of messages, reactions and memberships, one user to an id, one refresh
-- token to a hash, and a user to each refresh token.
pub run_accounts-IsKeyed :
    (cs : List AccountCall) (e : Env) (w : World) → IsKeyed w.db → IsKeyed (run_accounts cs e w).db
run_accounts-IsKeyed cs e w h = run_accounts-Keeps keyed_account_keeper cs e w (permits-All cs) h
