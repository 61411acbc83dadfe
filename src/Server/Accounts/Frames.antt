-- ===== src/Server/Accounts/Frames.antt =====
-- lib.rs, the routes under /auth and /users: a property of the tables that the statements keep is
-- kept by every sequence of calls.
use rsmc_engine.Base.{ℕ, ◌≡◌, refl, Bool, true, false, List, [], ◌∷◌, All}
use rsmc_engine.Models.{UserRole, UpdateUserRequest}
use rsmc_engine.Db.{Db}
use rsmc_engine.App.{
  Env, World, M, Keeps, keeping, Ends_db, bind-Keeps, pure-Keeps, query-Keeps, fail_if-Keeps,
  or_fail-Keeps, now-Triple, execute,
}
use rsmc_engine.Services.Access.{AuthUser}
use rsmc_engine.Services.Access.Frames.{admin_user-Keeps}
use rsmc_engine.Handlers.Auth.Frames.{
  Keeper, revoke_all-Keeps, signup-Keeps, login-Keeps, refresh-Keeps, logout-Keeps,
}
use rsmc_engine.Handlers.Users.{
  load_user, me, get_user, update_me, profile, list_users, set_role, set_active, deactivate,
  activate, update_user, ListQuery,
}
use rsmc_engine.Server.Accounts.{AccountCall, serve_account, run_accounts}

-- The statements of all account calls keep a property, where only some users may be enabled.
pub record AccountKeeper (P : Db → Type 0) : Type 0 where
  pub sessions : Keeper P
  pub may_enable : ℕ → Bool
  pub edit :
      (u at : ℕ) (req : UpdateUserRequest) → Keeps P (execute (update_user u at (profile req)))
  pub assign :
      (u at : ℕ) (r : UserRole) → Keeps P (execute (update_user u at (λ x. record x { role = r })))
  pub switch_off :
      (u at : ℕ) → Keeps P (execute (update_user u at (λ x. record x { is_active = false })))
  pub switch_on :
      (u : ℕ)
      → may_enable u ≡ true
      → (at : ℕ) → Keeps P (execute (update_user u at (λ x. record x { is_active = true })))

abbrev pub permits : (ℕ → Bool) → AccountCall → Bool
permits v (AccountCall.enable a u) = v u
permits v _ = true

pub permits-All : (cs : List AccountCall) → All (λ c. permits (λ u. true) c ≡ true) cs
permits-All [] = tt
permits-All (AccountCall.sign_up req ∷ cs) = (refl, permits-All cs)
permits-All (AccountCall.log_in req ∷ cs) = (refl, permits-All cs)
permits-All (AccountCall.renew_session req ∷ cs) = (refl, permits-All cs)
permits-All (AccountCall.log_out user ∷ cs) = (refl, permits-All cs)
permits-All (AccountCall.own_profile user ∷ cs) = (refl, permits-All cs)
permits-All (AccountCall.profile_of user u ∷ cs) = (refl, permits-All cs)
permits-All (AccountCall.directory user q ∷ cs) = (refl, permits-All cs)
permits-All (AccountCall.edit_profile user req ∷ cs) = (refl, permits-All cs)
permits-All (AccountCall.assign_role a u r ∷ cs) = (refl, permits-All cs)
permits-All (AccountCall.disable a u ∷ cs) = (refl, permits-All cs)
permits-All (AccountCall.enable a u ∷ cs) = (refl, permits-All cs)

after :
    {A : Type 0} {P : Db → Type 0} {m : M A} (e : Env) (w : World)
    → Keeps P m
    → P w.db
    → P (m e w).1.db
after {P = P} {m = m} e w t h = Ends_db P (m e w) (t.run e w h)

module _ {P : Db → Type 0} (k : AccountKeeper P) where
  load_user-Keeps : (id : ℕ) → Keeps P (load_user id)
  unfolding load_user
  load_user-Keeps id = search keeping

  set_active-Keeps :
      (a : AuthUser) (id : ℕ) (b : Bool)
      → ((at : ℕ) → Keeps P (execute (update_user id at (λ u. record u { is_active = b }))))
      → Keeps P (set_active a id b)
  unfolding set_active
  set_active-Keeps a id b kept = bind-Keeps (fail_if-Keeps _ _) λ _. bind-Keeps now-Triple λ at.
      bind-Keeps (kept at) λ updated.
        bind-Keeps (or_fail-Keeps updated _) λ u. search (keeping, revoke_all-Keeps k.sessions)

  me-Keeps : (user : AuthUser) → Keeps P (me user)
  unfolding me
  me-Keeps user = search (keeping, load_user-Keeps)

  get_user-Keeps : (user : AuthUser) (u : ℕ) → Keeps P (get_user user u)
  unfolding get_user
  get_user-Keeps user u = search (keeping, load_user-Keeps)

  list_users-Keeps : (user : AuthUser) (q : ListQuery) → Keeps P (list_users user q)
  unfolding list_users
  list_users-Keeps user q =
      bind-Keeps (record { run = λ e w p. (query-Keeps _).run e w p }) λ us. pure-Keeps _

  update_me-Keeps : (user : AuthUser) (req : UpdateUserRequest) → Keeps P (update_me user req)
  unfolding update_me
  update_me-Keeps user req = bind-Keeps (fail_if-Keeps _ _) λ _. bind-Keeps now-Triple λ at.
      bind-Keeps (k.edit user.id at req)
        λ updated. bind-Keeps (or_fail-Keeps updated _) λ u. pure-Keeps _

  set_role-Keeps : (a : AuthUser) (u : ℕ) (r : UserRole) → Keeps P (set_role a u r)
  unfolding set_role
  set_role-Keeps a u r = bind-Keeps (admin_user-Keeps a) λ _. bind-Keeps now-Triple λ at.
      bind-Keeps (k.assign u at r) λ updated. bind-Keeps (or_fail-Keeps updated _) λ u. pure-Keeps _

  deactivate-Keeps : (a : AuthUser) (u : ℕ) → Keeps P (deactivate a u)
  unfolding deactivate
  deactivate-Keeps a u =
      bind-Keeps (admin_user-Keeps a) λ _. set_active-Keeps a u false (k.switch_off u)

  activate-Keeps : (a : AuthUser) (u : ℕ) → k.may_enable u ≡ true → Keeps P (activate a u)
  unfolding activate
  activate-Keeps a u h =
      bind-Keeps (admin_user-Keeps a) λ _. set_active-Keeps a u true (k.switch_on u h)

  serve_account-Keeps :
      (c : AccountCall) (e : Env) (w : World)
      → permits k.may_enable c ≡ true
      → P w.db
      → P (serve_account c e w).1.db
  unfolding serve_account
  serve_account-Keeps (AccountCall.sign_up req) e w y h = after e w (signup-Keeps k.sessions req) h
  serve_account-Keeps (AccountCall.log_in req) e w y h = after e w (login-Keeps k.sessions req) h
  serve_account-Keeps (AccountCall.renew_session req) e w y h =
      after e w (refresh-Keeps k.sessions req) h
  serve_account-Keeps (AccountCall.log_out user) e w y h =
      after e w (logout-Keeps k.sessions user) h
  serve_account-Keeps (AccountCall.own_profile user) e w y h = after e w (me-Keeps user) h
  serve_account-Keeps (AccountCall.profile_of user u) e w y h = after e w (get_user-Keeps user u) h
  serve_account-Keeps (AccountCall.directory user q) e w y h = after e w (list_users-Keeps user q) h
  serve_account-Keeps (AccountCall.edit_profile user req) e w y h =
      after e w (update_me-Keeps user req) h
  serve_account-Keeps (AccountCall.assign_role a u r) e w y h = after e w (set_role-Keeps a u r) h
  serve_account-Keeps (AccountCall.disable a u) e w y h = after e w (deactivate-Keeps a u) h
  serve_account-Keeps (AccountCall.enable a u) e w y h = after e w (activate-Keeps a u y) h

  pub run_accounts-Keeps :
      (cs : List AccountCall) (e : Env) (w : World)
      → All (λ c. permits k.may_enable c ≡ true) cs
      → P w.db
      → P (run_accounts cs e w).db
  unfolding run_accounts
  run_accounts-Keeps [] e w y h = h
  run_accounts-Keeps (c ∷ cs) e w y h =
      run_accounts-Keeps cs e (serve_account c e w).1 y.1 (serve_account-Keeps c e w y.0 h)
