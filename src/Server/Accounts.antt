-- ===== src/Server/Accounts.antt =====
-- lib.rs (`build_router`), the routes under /auth and /users: the calls on accounts and sessions,
-- served one after the other.
pub mod Frames
pub mod Replay
pub mod Disabled
pub mod Admins
pub mod Keys
pub mod Quiet
use rsmc_engine.Base.{ℕ, Bool, List, [], ◌∷◌}
use rsmc_engine.Models.{UserRole, SignupRequest, LoginRequest, RefreshRequest, UpdateUserRequest}
use rsmc_engine.App.{Env, World}
use rsmc_engine.Services.Access.{AuthUser}
use rsmc_engine.Handlers.Auth.{signup, login, refresh, logout}
use rsmc_engine.Handlers.Users.{
  ListQuery, me, get_user, update_me, list_users, set_role, deactivate, activate,
}
use rsmc_engine.Server.{outcome}

pub data AccountCall : Type 0 where
  sign_up : SignupRequest → AccountCall
  log_in : LoginRequest → AccountCall
  renew_session : RefreshRequest → AccountCall
  log_out : AuthUser → AccountCall
  own_profile : AuthUser → AccountCall
  profile_of : AuthUser → (user_id : ℕ) → AccountCall
  directory : AuthUser → ListQuery → AccountCall
  edit_profile : AuthUser → UpdateUserRequest → AccountCall
  assign_role : AuthUser → (user_id : ℕ) → UserRole → AccountCall
  disable : AuthUser → (user_id : ℕ) → AccountCall
  enable : AuthUser → (user_id : ℕ) → AccountCall

unfoldable pub serve_account : AccountCall → Env → World → Bool × World
serve_account (AccountCall.sign_up req) e w = outcome (signup req e w)
serve_account (AccountCall.log_in req) e w = outcome (login req e w)
serve_account (AccountCall.renew_session req) e w = outcome (refresh req e w)
serve_account (AccountCall.log_out user) e w = outcome (logout user e w)
serve_account (AccountCall.own_profile user) e w = outcome (me user e w)
serve_account (AccountCall.profile_of user u) e w = outcome (get_user user u e w)
serve_account (AccountCall.directory user q) e w = outcome (list_users user q e w)
serve_account (AccountCall.edit_profile user req) e w = outcome (update_me user req e w)
serve_account (AccountCall.assign_role user u r) e w = outcome (set_role user u r e w)
serve_account (AccountCall.disable user u) e w = outcome (deactivate user u e w)
serve_account (AccountCall.enable user u) e w = outcome (activate user u e w)

unfoldable pub run_accounts : List AccountCall → Env → World → World
unfolding serve_account
run_accounts [] e w = w
run_accounts (c ∷ cs) e w = run_accounts cs e (serve_account c e w).1
