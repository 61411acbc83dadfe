-- ===== src/Handlers/Users.antt =====
-- handlers/users.rs: profiles, and the administration of accounts.
use rsmc_engine.Base.{
  ℕ, Bool, true, false, not, ◌&&◌, ◌||◌, Option, none, some, List, ◌++◌, Text, text, ◌==◌, map,
  find, select, take, update_where, order_by, leb, length,
}
use rsmc_engine.Base.Int.{ℤ, pos, clamp, pos_part}
use rsmc_engine.Error.{bad_request, not_found, database, row_not_found, validation}
use rsmc_engine.Models.{User, UserRole, UserPublic, UpdateUserRequest, to_public}
use rsmc_engine.Db.{Db, Sql, rows}
use rsmc_engine.App.{
  M, Env, pure, ◌>>=◌, ◌>>◌, or_fail, fail_if, when, attempt, now, query, execute,
}
use rsmc_engine.Services.Access.{AuthUser, admin_user}
use rsmc_engine.Handlers.Auth.Store.{by_id, revoke_all}

unfoldable pub load_user : (id : ℕ) → M User
load_user id = query (λ d. find (by_id id) d.users) >>= λ found. or_fail found (not_found "user")

unfoldable pub me : AuthUser → M UserPublic
unfolding load_user
me user = do user_row ← load_user user.id; pure (to_public user_row)

unfoldable pub get_user : AuthUser → (id : ℕ) → M UserPublic
unfolding load_user
get_user user id = do user_row ← load_user id; pure (to_public user_row)

-- UPDATE users SET … WHERE id = $1 RETURNING …, with the trigger that sets updated_at.
unfoldable pub update_user : (id at : ℕ) → (User → User) → Db → Sql (Option User)
update_user id at change d =
    let updated = update_where (by_id id) (λ u. record (change u) { updated_at = at }) d.users in
    rows (find (by_id id) updated) (record d { users = updated })

abbrev coalesce {ℓ} : {A : Type ℓ} → Option A → A → A
coalesce none a = a
coalesce (some b) a = b

abbrev coalesce_option {ℓ} : {A : Type ℓ} → Option A → Option A → Option A
coalesce_option none o = o
coalesce_option (some b) o = some b

abbrev pub profile : UpdateUserRequest → User → User
profile req u = record u {
  display_name = coalesce req.display_name u.display_name;
  avatar_url = coalesce_option req.avatar_url u.avatar_url;
}

-- `#[validate(length(min = 1, max = 64))]`
abbrev pub valid_profile : UpdateUserRequest → Bool
valid_profile req = elim req.display_name [
  | none ↦ true
  | some name ↦ leb 1 (length name) && leb (length name) 64
]

unfoldable pub update_me : AuthUser → UpdateUserRequest → M UserPublic
unfolding update_user
update_me user req = do
  fail_if (not (valid_profile req)) validation
  at ← now
  updated ← execute (update_user user.id at (profile req))
  row ← or_fail updated (database row_not_found)
  pure (to_public row)

pub record ListQuery : Type 0 where
  pub q : Option Text
  pub limit : ℤ

-- `q.limit.clamp(1, 200)`
abbrev pub list_limit : ListQuery → ℕ
list_limit q = pos_part (clamp (pos 1) (pos 200) q.limit)

-- $1 IS NULL OR username ILIKE $1 OR display_name ILIKE $1, with $1 = '%q%'
abbrev pub matches : Env → Option Text → User → Bool
matches e none u = true
matches e (some s) u =
    let pattern = text "%" ++ s ++ text "%" in
    e.ilike pattern u.username || e.ilike pattern u.display_name

unfoldable pub list_users : AuthUser → ListQuery → M (List UserPublic)
list_users user q = do
  users ← λ e.
      query
        (λ d.
          take (list_limit q)
            (order_by (λ a b. e.collate a.username b.username) (select (matches e q.q) d.users)))
        e
  pure (map to_public users)

unfoldable pub set_role : AuthUser → (id : ℕ) → UserRole → M UserPublic
unfolding update_user
set_role admin id role = do
  admin_user admin
  at ← now
  updated ← execute (update_user id at (λ u. record u { role = role }))
  row ← or_fail updated (not_found "user")
  pure (to_public row)

unfoldable pub set_active : AuthUser → (id : ℕ) → (active : Bool) → M UserPublic
unfolding update_user
set_active admin id active = do
  fail_if (not active && admin.id == id) (bad_request "you cannot deactivate your own account")
  at ← now
  updated ← execute (update_user id at (λ u. record u { is_active = active }))
  row ← or_fail updated (not_found "user")
  when (not active) (attempt (execute (revoke_all id)) >> pure tt)
  pure (to_public row)

unfoldable pub deactivate : AuthUser → (id : ℕ) → M UserPublic
unfolding set_active
deactivate admin id = do admin_user admin; set_active admin id false

unfoldable pub activate : AuthUser → (id : ℕ) → M UserPublic
unfolding set_active
activate admin id = do admin_user admin; set_active admin id true
