-- ===== src/Handlers/Auth.antt =====
-- handlers/auth.rs: signing up, logging in, refreshing and ending sessions.
pub mod Store
pub mod Frames
pub mod Rotation
pub mod Credentials
use rsmc_engine.Base.{
  ℕ, ◌+◌, Bool, true, false, not, ◌&&◌, ◌||◌, Option, none, some, List, Text, text, ltb, leb, ◌==◌,
  is_some, length, find, any, text_eq, if◌then◌else◌,
}
use rsmc_engine.Error.{
  AppError, unauthorized, forbidden, conflict, database, row_not_found, validation,
}
use rsmc_engine.Models.{
  User, UserRole, MemberRole, SignupRequest, LoginRequest, RefreshRequest, AuthResponse, to_public,
  RefreshToken, TokenKind, TokenPair, Channel, ChannelType,
}
use rsmc_engine.Db.{Db}
use rsmc_engine.App.{
  M, Env, pure, fail, ◌>>=◌, ◌>>◌, or_fail, fail_if, asks, attempt, new_v4, now, query, execute,
}
use rsmc_engine.Services.Access.{AuthUser}
use rsmc_engine.Auth.{issue_pair, verify, hash_password, verify_password}
use rsmc_engine.Handlers.Channels.Store.{insert_channel, new_member, add_member_row}
use Store.{
  insert_user, new_user, insert_token, taken, with_email, by_id, by_hash, revoke_hash, revoke_all,
  default_channel, general,
}

-- Mint tokens, persist the refresh token, and build the response.
unfoldable pub issue_session : User → M AuthResponse
issue_session user = do
  pair ← issue_pair user.id user.role
  id ← new_v4
  hash ← asks (λ e. e.encode_uuid pair.refresh_jti)
  execute (
      insert_token (record {
        id = id;
        user_id = user.id;
        token_hash = hash;
        expires_at = pair.refresh_expires_at;
        revoked = false;
      }))
  pure (record {
    access_token = pair.access;
    refresh_token = pair.refresh;
    token_type = text "Bearer";
    expires_in = pair.access_expires_in;
    user = to_public user;
  })

unfoldable pub join_role : UserRole → MemberRole
join_role UserRole.admin = MemberRole.owner
join_role _ = MemberRole.member

unfoldable pub create_default : (user_id : ℕ) → UserRole → M (ℕ × MemberRole)
unfolding join_role
create_default user_id role = do
  id ← new_v4
  at ← now
  channel ← λ e. execute (insert_channel e (general id user_id at)) e
  pure (channel.id, join_role role)

unfoldable pub default_or_create : (user_id : ℕ) → UserRole → Option Channel → M (ℕ × MemberRole)
unfolding create_default
default_or_create user_id role none = create_default user_id role
default_or_create user_id role (some c) = pure (c.id, MemberRole.member)

unfoldable pub ensure_default_membership : (user_id : ℕ) → UserRole → M (Unit {0})
unfolding default_or_create
ensure_default_membership user_id role = do
  existing ← query default_channel
  joined ← default_or_create user_id role existing
  at ← now
  execute (add_member_row (new_member joined.0 user_id joined.1 at))
  pure tt

-- `#[validate(email)]`, `#[validate(length(…))]`
abbrev pub valid_signup : Env → SignupRequest → Bool
valid_signup e req =
    e.is_email req.email
    && (leb 3 (length req.username) && leb (length req.username) 32)
    && (leb 1 (length req.display_name) && leb (length req.display_name) 64)
    && (leb 8 (length req.password) && leb (length req.password) 128)

abbrev pub first_role : ℕ → UserRole
first_role count = if count == 0 then UserRole.admin else UserRole.member

unfoldable pub store_user : SignupRequest → (hash : Text) → UserRole → M User
store_user req hash role = do
  id ← new_v4
  at ← now
  λ e. execute (insert_user e (new_user req hash role id at)) e

unfoldable pub signup : SignupRequest → M AuthResponse
unfolding store_user ensure_default_membership issue_session
signup req = do
  valid ← asks (λ e. valid_signup e req)
  fail_if (not valid) validation
  exists ← λ e. query (λ d. any (taken e req.email req.username) d.users) e
  fail_if exists (conflict "email or username already taken")
  hash ← hash_password req.password
  count ← query (λ d. length d.users)
  user ← store_user req hash (first_role count)
  attempt (ensure_default_membership user.id (first_role count))
  issue_session user

abbrev pub valid_login : Env → LoginRequest → Bool
valid_login e req = e.is_email req.email && leb 1 (length req.password)

-- A user found: disabled, the wrong password, or a session.
unfoldable pub login_as : (password : Text) → User → M AuthResponse
unfolding issue_session
login_as password user = do
  fail_if (not user.is_active) (forbidden "account is disabled")
  verified ← verify_password password user.password_hash
  fail_if (not verified) unauthorized
  issue_session user

-- The hash that is verified against when nobody has the address, for the time that it takes.
abbrev dummy_hash : Text
dummy_hash =
    text "$argon2id$v=19$m=19456,t=2,p=1$c29tZXNhbHRzb21lc2FsdA$RdescudvJCsgt3ub+b+dWRWJTmaaJObG"

unfoldable pub login_found : (password : Text) → Option User → M AuthResponse
unfolding login_as
login_found password none = do attempt (verify_password password dummy_hash); fail unauthorized
login_found password (some user) = login_as password user

unfoldable pub login : LoginRequest → M AuthResponse
unfolding login_found
login req = do
  valid ← asks (λ e. valid_login e req)
  fail_if (not valid) validation
  user ← λ e. query (λ d. find (with_email e req.email) d.users) e
  login_found req.password user

-- The stored token, the expiry and the owner.
abbrev pub is_stale : (at sub : ℕ) → RefreshToken → Bool
is_stale at sub t = t.revoked || ltb t.expires_at at || not (t.user_id == sub)

-- The user of a token that was accepted, and a session when the account is active.
unfoldable pub renew : (user_id : ℕ) → M AuthResponse
unfolding issue_session
renew user_id = do
  found ← query (λ d. find (by_id user_id) d.users)
  user ← or_fail found (database row_not_found)
  fail_if (not user.is_active) unauthorized
  issue_session user

unfoldable pub rotate : (fingerprint : Text) → (sub : ℕ) → M AuthResponse
unfolding renew
rotate fingerprint sub = do
  row ← query (λ d. find (by_hash fingerprint) d.refresh_tokens)
  token ← or_fail row unauthorized
  at ← now
  fail_if (is_stale at sub token) unauthorized
  execute (revoke_hash fingerprint)
  renew token.user_id

unfoldable pub refresh : RefreshRequest → M AuthResponse
unfolding rotate
refresh req = do
  fail_if (not (leb 1 (length req.refresh_token))) validation
  claims ← verify req.refresh_token TokenKind.refresh
  fingerprint ← asks (λ e. e.encode_uuid claims.jti)
  rotate fingerprint claims.sub

unfoldable pub logout : AuthUser → M (Unit {0})
logout user = execute (revoke_all user.id)
