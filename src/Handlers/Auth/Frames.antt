-- ===== src/Handlers/Auth/Frames.antt =====
-- handlers/auth.rs: a property of the tables that the statements keep is kept by the handlers.
use rsmc_engine.Base.{ℕ, Text, Option, none, some}
use rsmc_engine.Models.{
  Channel, ChannelMember, RefreshToken, User, UserRole, SignupRequest, LoginRequest, RefreshRequest,
}
use rsmc_engine.Db.{Db}
use rsmc_engine.App.{
  Env, Keeps, keeping, Makes, bind-Keeps, pure-Keeps, fail-Keeps, query-Keeps, fail_if-Keeps,
  or_fail-Keeps, new_v4-Triple, now-Triple, asks-Triple, attempt-Triple, execute, execute-Keeps,
}
use rsmc_engine.Services.Access.{AuthUser}
use rsmc_engine.Auth.Frames.{
  issue_pair-Keeps, verify-Keeps, hash_password-Keeps, verify_password-Keeps,
}
use rsmc_engine.Handlers.Channels.Store.{insert_channel, add_member_row}
use rsmc_engine.Handlers.Auth.Store.{insert_user, insert_token, revoke_hash, revoke_all}
use rsmc_engine.Handlers.Auth.{
  issue_session, renew, rotate, refresh, login, login_as, login_found, signup, store_user, logout,
  create_default, default_or_create, ensure_default_membership,
}

-- The statements of the account handlers keep a property.
pub record Keeper (P : Db → Type 0) : Type 0 where
  pub insert_user : (e : Env) (u : User) (d : Db) → P d → Makes (λ _. P) (insert_user e u d)
  pub insert_token : (t : RefreshToken) (d : Db) → P d → Makes (λ _. P) (insert_token t d)
  pub revoke_hash : (hash : Text) (d : Db) → P d → Makes (λ _. P) (revoke_hash hash d)
  pub revoke_all : (u : ℕ) (d : Db) → P d → Makes (λ _. P) (revoke_all u d)
  pub insert_channel :
      (e : Env) (c : Channel) (d : Db) → P d → Makes (λ _. P) (insert_channel e c d)
  pub add_member : (m : ChannelMember) (d : Db) → P d → Makes (λ _. P) (add_member_row m d)

module _ {P : Db → Type 0} (k : Keeper P) where
  store_token-Keeps : (t : RefreshToken) → Keeps P (execute (insert_token t))
  store_token-Keeps t = execute-Keeps (insert_token t) (k.insert_token t)

  revoke_hash-Keeps : (hash : Text) → Keeps P (execute (revoke_hash hash))
  revoke_hash-Keeps hash = execute-Keeps (revoke_hash hash) (k.revoke_hash hash)

  pub revoke_all-Keeps : (u : ℕ) → Keeps P (execute (revoke_all u))
  revoke_all-Keeps u = execute-Keeps (revoke_all u) (k.revoke_all u)

  issue_session-Keeps : (u : User) → Keeps P (issue_session u)
  unfolding issue_session
  issue_session-Keeps u = search (keeping, issue_pair-Keeps, store_token-Keeps)

  join-Keeps : (m : ChannelMember) → Keeps P (execute (add_member_row m))
  join-Keeps m = execute-Keeps (add_member_row m) (k.add_member m)

  create_channel-Keeps : (c : Channel) → Keeps P (λ e. execute (insert_channel e c) e)
  create_channel-Keeps c = record {
    run = λ e w p. (execute-Keeps (insert_channel e c) (k.insert_channel e c)).run e w p;
  }

  create_default-Keeps : (u : ℕ) (r : UserRole) → Keeps P (create_default u r)
  unfolding create_default
  create_default-Keeps u r = search (keeping, create_channel-Keeps)

  default_or_create-Keeps :
      (u : ℕ) (r : UserRole) (o : Option Channel) → Keeps P (default_or_create u r o)
  unfolding default_or_create
  default_or_create-Keeps u r none = create_default-Keeps u r
  default_or_create-Keeps u r (some c) = pure-Keeps _

  ensure_default-Keeps : (u : ℕ) (r : UserRole) → Keeps P (ensure_default_membership u r)
  unfolding ensure_default_membership
  ensure_default-Keeps u r = bind-Keeps (query-Keeps _) λ o.
      bind-Keeps (default_or_create-Keeps u r o)
        λ joined. bind-Keeps now-Triple λ at. bind-Keeps (join-Keeps _) λ _. pure-Keeps tt

  store_user-Keeps : (req : SignupRequest) (h : Text) (r : UserRole) → Keeps P (store_user req h r)
  unfolding store_user
  store_user-Keeps req h r = bind-Keeps new_v4-Triple λ id. bind-Keeps now-Triple λ at. record {
    run = λ e w p. (execute-Keeps (insert_user e _) (k.insert_user e _)).run e w p;
  }

  pub signup-Keeps : (req : SignupRequest) → Keeps P (signup req)
  unfolding signup
  signup-Keeps req = bind-Keeps (asks-Triple _) λ valid. bind-Keeps (fail_if-Keeps _ _) λ _.
      bind-Keeps (record { run = λ e w p. (query-Keeps _).run e w p })
        λ exists. bind-Keeps (fail_if-Keeps _ _) λ _.
          bind-Keeps (hash_password-Keeps req.password) λ h. bind-Keeps (query-Keeps _) λ count.
            bind-Keeps (store_user-Keeps req h _) λ u.
              bind-Keeps (attempt-Triple (ensure_default-Keeps u.id _)) λ _. issue_session-Keeps u

  login_as-Keeps : (password : Text) (u : User) → Keeps P (login_as password u)
  unfolding login_as
  login_as-Keeps password u = search (keeping, verify_password-Keeps, issue_session-Keeps)

  login_found-Keeps : (password : Text) (o : Option User) → Keeps P (login_found password o)
  unfolding login_found
  login_found-Keeps password none =
      bind-Keeps (attempt-Triple (verify_password-Keeps password _)) λ _. fail-Keeps _
  login_found-Keeps password (some u) = login_as-Keeps password u

  pub login-Keeps : (req : LoginRequest) → Keeps P (login req)
  unfolding login
  login-Keeps req = bind-Keeps (asks-Triple _) λ valid. bind-Keeps (fail_if-Keeps _ _) λ _.
      bind-Keeps (record { run = λ e w p. (query-Keeps _).run e w p })
        λ o. login_found-Keeps req.password o

  pub renew-Keeps : (u : ℕ) → Keeps P (renew u)
  unfolding renew
  renew-Keeps u = search (keeping, issue_session-Keeps)

  pub rotate-Keeps : (other : Text) (sub : ℕ) → Keeps P (rotate other sub)
  unfolding rotate
  rotate-Keeps other sub =
      bind-Keeps (query-Keeps _)
        λ row. bind-Keeps (or_fail-Keeps _ _) λ t. search (keeping, revoke_hash-Keeps, renew-Keeps)

  pub refresh-Keeps : (req : RefreshRequest) → Keeps P (refresh req)
  unfolding refresh
  refresh-Keeps req = search (keeping, verify-Keeps, rotate-Keeps)

  pub logout-Keeps : (user : AuthUser) → Keeps P (logout user)
  unfolding logout
  logout-Keeps user = execute-Keeps (revoke_all user.id) (k.revoke_all user.id)
