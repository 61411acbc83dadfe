-- ===== src/Server/Accounts/Quiet.antt =====
-- handlers/auth.rs and handlers/users.rs: no call on accounts changes the hub.
use rsmc_engine.Base.{ℕ, suc, Bool, Text, Option, none, some, arith, ◌≡◌}
use rsmc_engine.Models.{
  User, UserRole, TokenKind, Channel, SignupRequest, LoginRequest, RefreshRequest,
  UpdateUserRequest,
}
use rsmc_engine.App.{
  Env, World, Quiet, quietly, bind-Quiet, pure-Quiet, fail-Quiet, execute-Quiet, query-Quiet,
  local-Quiet, now-Quiet, new_v4-Quiet, fail_if-Quiet, or_fail-Quiet, asks-Quiet, attempt-Quiet,
}
use rsmc_engine.Services.Access.{AuthUser, admin_user}
use rsmc_engine.Auth.{issue_pair, issue, issue_with_jti, verify, hash_password, verify_password}
use rsmc_engine.Handlers.Channels.Store.{insert_channel}
use rsmc_engine.Handlers.Auth.Store.{insert_user}
use rsmc_engine.Handlers.Auth.{
  issue_session, create_default, default_or_create, ensure_default_membership, store_user, signup,
  login_as, login_found, login, renew, rotate, refresh, logout,
}
use rsmc_engine.Handlers.Users.{
  load_user, me, get_user, update_me, ListQuery, list_users, set_role, set_active, deactivate,
  activate,
}
use rsmc_engine.Server.Accounts.{AccountCall, serve_account}

issue_with_jti-Quiet :
    (sub : ℕ) (r : UserRole) (k : TokenKind) (ttl jti : ℕ) → Quiet (issue_with_jti sub r k ttl jti)
unfolding issue_with_jti
issue_with_jti-Quiet sub r k ttl jti = search quietly

issue-Quiet : (sub : ℕ) (r : UserRole) (k : TokenKind) (ttl : ℕ) → Quiet (issue sub r k ttl)
unfolding issue
issue-Quiet sub r k ttl = search (quietly, issue_with_jti-Quiet)

issue_pair-Quiet : (u : ℕ) (r : UserRole) → Quiet (issue_pair u r)
unfolding issue_pair
issue_pair-Quiet u r = bind-Quiet (asks-Quiet _) λ access_ttl.
    bind-Quiet (asks-Quiet _) λ refresh_ttl.
      bind-Quiet (issue-Quiet u r TokenKind.access access_ttl)
        λ token. search (quietly, issue_with_jti-Quiet)

verify-Quiet : (token : Text) (k : TokenKind) → Quiet (verify token k)
unfolding verify
verify-Quiet token k = search quietly

hash_password-Quiet : (plain : Text) → Quiet (hash_password plain)
unfolding hash_password
hash_password-Quiet plain = record {
  run = λ e w.
      let (same, more) =
        (or_fail-Quiet (e.hash_argon2 w.draws plain) _).run e (record w { draws = suc w.draws }) in
      (same, omega (arith, more));
}

verify_password-Quiet : (plain hash : Text) → Quiet (verify_password plain hash)
unfolding verify_password
verify_password-Quiet plain hash = search quietly

issue_session-Quiet : (u : User) → Quiet (issue_session u)
unfolding issue_session
issue_session-Quiet u = search (quietly, issue_pair-Quiet)

create_default-Quiet : (u : ℕ) (r : UserRole) → Quiet (create_default u r)
unfolding create_default
create_default-Quiet u r = bind-Quiet new_v4-Quiet λ id.
    bind-Quiet now-Quiet
      λ at. bind-Quiet (local-Quiet (λ e. execute-Quiet (insert_channel e _))) λ c. pure-Quiet _

default_or_create-Quiet :
    (u : ℕ) (r : UserRole) (o : Option Channel) → Quiet (default_or_create u r o)
unfolding default_or_create
default_or_create-Quiet u r none = create_default-Quiet u r
default_or_create-Quiet u r (some c) = pure-Quiet _

ensure_default-Quiet : (u : ℕ) (r : UserRole) → Quiet (ensure_default_membership u r)
unfolding ensure_default_membership
ensure_default-Quiet u r = search (quietly, default_or_create-Quiet)

store_user-Quiet : (req : SignupRequest) (h : Text) (r : UserRole) → Quiet (store_user req h r)
unfolding store_user
store_user-Quiet req h r =
    bind-Quiet new_v4-Quiet
      λ id. bind-Quiet now-Quiet λ at. local-Quiet (λ e. execute-Quiet (insert_user e _))

signup-Quiet : (req : SignupRequest) → Quiet (signup req)
unfolding signup
signup-Quiet req = bind-Quiet (asks-Quiet _) λ valid. bind-Quiet (fail_if-Quiet _ _) λ _.
    bind-Quiet (local-Quiet (λ e. query-Quiet _)) λ exists. bind-Quiet (fail_if-Quiet _ _) λ _.
      bind-Quiet (hash_password-Quiet req.password) λ h. bind-Quiet (query-Quiet _) λ count.
        bind-Quiet (store_user-Quiet req h _)
          λ u. bind-Quiet (attempt-Quiet (ensure_default-Quiet u.id _)) λ _. issue_session-Quiet u

login_as-Quiet : (password : Text) (u : User) → Quiet (login_as password u)
unfolding login_as
login_as-Quiet password u = search (quietly, verify_password-Quiet, issue_session-Quiet)

login_found-Quiet : (password : Text) (o : Option User) → Quiet (login_found password o)
unfolding login_found
login_found-Quiet password none =
    bind-Quiet (attempt-Quiet (verify_password-Quiet password _)) λ _. fail-Quiet _
login_found-Quiet password (some u) = login_as-Quiet password u

login-Quiet : (req : LoginRequest) → Quiet (login req)
unfolding login
login-Quiet req = bind-Quiet (asks-Quiet _) λ valid.
    bind-Quiet (fail_if-Quiet _ _)
      λ _. bind-Quiet (local-Quiet (λ e. query-Quiet _)) λ o. login_found-Quiet req.password o

renew-Quiet : (u : ℕ) → Quiet (renew u)
unfolding renew
renew-Quiet u = search (quietly, issue_session-Quiet)

rotate-Quiet : (hash : Text) (sub : ℕ) → Quiet (rotate hash sub)
unfolding rotate
rotate-Quiet hash sub = search (quietly, renew-Quiet) depth 12

refresh-Quiet : (req : RefreshRequest) → Quiet (refresh req)
unfolding refresh
refresh-Quiet req = search (quietly, verify-Quiet, rotate-Quiet)

logout-Quiet : (user : AuthUser) → Quiet (logout user)
unfolding logout
logout-Quiet user = search quietly

pub admin_user-Quiet : (user : AuthUser) → Quiet (admin_user user)
unfolding admin_user
admin_user-Quiet user = search quietly

load_user-Quiet : (id : ℕ) → Quiet (load_user id)
unfolding load_user
load_user-Quiet id = search quietly

me-Quiet : (user : AuthUser) → Quiet (me user)
unfolding me
me-Quiet user = search (quietly, load_user-Quiet)

get_user-Quiet : (user : AuthUser) (u : ℕ) → Quiet (get_user user u)
unfolding get_user
get_user-Quiet user u = search (quietly, load_user-Quiet)

update_me-Quiet : (user : AuthUser) (req : UpdateUserRequest) → Quiet (update_me user req)
unfolding update_me
update_me-Quiet user req = search quietly

list_users-Quiet : (user : AuthUser) (q : ListQuery) → Quiet (list_users user q)
unfolding list_users
list_users-Quiet user q = bind-Quiet (local-Quiet (λ e. query-Quiet _)) λ us. pure-Quiet _

set_role-Quiet : (a : AuthUser) (u : ℕ) (r : UserRole) → Quiet (set_role a u r)
unfolding set_role
set_role-Quiet a u r = search (quietly, admin_user-Quiet)

set_active-Quiet : (a : AuthUser) (u : ℕ) (b : Bool) → Quiet (set_active a u b)
unfolding set_active
set_active-Quiet a u b = search quietly depth 12

deactivate-Quiet : (a : AuthUser) (u : ℕ) → Quiet (deactivate a u)
unfolding deactivate
deactivate-Quiet a u = search (quietly, admin_user-Quiet, set_active-Quiet)

activate-Quiet : (a : AuthUser) (u : ℕ) → Quiet (activate a u)
unfolding activate
activate-Quiet a u = search (quietly, admin_user-Quiet, set_active-Quiet)

pub serve_account-hub :
    (c : AccountCall) (e : Env) (w : World) → (serve_account c e w).1.hub ≡ w.hub
unfolding serve_account
serve_account-hub (AccountCall.sign_up req) e w = ((signup-Quiet req).run e w).0
serve_account-hub (AccountCall.log_in req) e w = ((login-Quiet req).run e w).0
serve_account-hub (AccountCall.renew_session req) e w = ((refresh-Quiet req).run e w).0
serve_account-hub (AccountCall.log_out user) e w = ((logout-Quiet user).run e w).0
serve_account-hub (AccountCall.own_profile user) e w = ((me-Quiet user).run e w).0
serve_account-hub (AccountCall.profile_of user u) e w = ((get_user-Quiet user u).run e w).0
serve_account-hub (AccountCall.directory user q) e w = ((list_users-Quiet user q).run e w).0
serve_account-hub (AccountCall.edit_profile user req) e w = ((update_me-Quiet user req).run e w).0
serve_account-hub (AccountCall.assign_role a u r) e w = ((set_role-Quiet a u r).run e w).0
serve_account-hub (AccountCall.disable a u) e w = ((deactivate-Quiet a u).run e w).0
serve_account-hub (AccountCall.enable a u) e w = ((activate-Quiet a u).run e w).0
