-- ===== src/Tests/Accounts.antt =====
-- Runs of the calls on accounts, and the theorems at these inputs.
use rsmc_engine.Base.{
  ℕ, ◌+◌, ◌≤◌, Option-cases, ◌≡◌, refl, subst, true, false, find, Option, none, some, List, [], ◌∷◌,
  ◌++◌, Text, text, arith, leb, Bool-cases, inl, inr, if◌then◌else◌,
}
use rsmc_engine.Error.{Result, ok, err}
use rsmc_engine.Models.{
  User, Claims, TokenKind, TokenPair, UserRole, UserPublic, AuthResponse, SignupRequest,
  LoginRequest, RefreshRequest,
}
use rsmc_engine.App.{World, is_err, ◌>>=◌, asks, query, execute, answer, new_v4, now, attempt}
use rsmc_engine.Services.Access.{AuthUser, is_admin, admin_user}
use rsmc_engine.Auth.{
  timestamp, issue_pair, issue, issue_with_jti, verify, hash_password, verify_password,
}
use rsmc_engine.Auth.Tokens.{Decodes, issue_pair-Serves, Serves}
use rsmc_engine.Middleware.{admin}
use rsmc_engine.Middleware.Principal.{ChecksExpiry, CarriesFresh, admin-Carries}
use rsmc_engine.Handlers.Auth.{signup, login, refresh}
use rsmc_engine.Handlers.Channels.Store.{insert_channel, add_member_row, push_member}
use rsmc_engine.Handlers.Auth.Store.{
  with_email, insert_user, default_channel, insert_token, revoke_hash, revoke_all,
}
use rsmc_engine.Handlers.Auth.Credentials.{login-Proves, Proves}
use rsmc_engine.Handlers.Users.{deactivate}
use rsmc_engine.Server.Accounts.{AccountCall, run_accounts}
use rsmc_engine.Server.Accounts.Keys.{IsKeyed, run_accounts-IsKeyed}
use rsmc_engine.Server.Accounts.Replay.{ReadsOnce, refresh_once}
use rsmc_engine.Server.Accounts.Disabled.{disabled_out}
use rsmc_engine.Tests.{db-IsSound}
use rsmc_engine.Samples.{
  env, db, jwt, spelled, role_code, role_named, kind_code, kind_named, claims_in, unless_expired,
  world, ada, bob,
}

-- The answer of a call that succeeds.
abbrev pub answer_of : {A : Type 0} → A → Result A → A
answer_of a (ok b) = b
answer_of a (err x) = a

unless_expired_is :
    (at : ℕ) (o : Option Claims) (c : Claims) → unless_expired at o ≡ some c → o ≡ some c
unless_expired_is at none c h = cc
unless_expired_is at (some x) c h = elim (Bool-cases (leb at x.exp)) [
  | inl fresh ↦ subst (λ b. (if b then some x else none) ≡ some c) fresh h
  | inr late ↦ absurd (ground (arith, late, h))
]

jwt-ReadsOnce : ReadsOnce env
jwt-ReadsOnce s s' token c c' h h' =
    let a = unless_expired_is s (claims_in token) c h in
    let b = unless_expired_is s' (claims_in token) c' h' in cc

role_kept : (r : UserRole) → role_named (role_code r) ≡ r
role_kept UserRole.admin = refl
role_kept UserRole.member = refl
role_kept UserRole.guest = refl

kind_kept : (k : TokenKind) → kind_named (kind_code k) ≡ k
kind_kept TokenKind.access = refl
kind_kept TokenKind.refresh = refl

claims_in-spelled : (c : Claims) → claims_in (spelled c) ≡ some c
claims_in-spelled c = rw (role_kept c.role, kind_kept c.tok) refl

jwt-Decodes : Decodes jwt
jwt-Decodes c token at h fresh =
    let same : spelled c ≡ token = cc in
    let early : leb at c.exp ≡ true = ground (arith, fresh) in
    subst (λ t. unless_expired at (claims_in t) ≡ some c) same
      (rw (claims_in-spelled c, early) refl)

abbrev request : SignupRequest
request = record {
  email = text "kim@x.org";
  username = text "kim";
  display_name = text "Kim";
  password = text "12345678";
}

abbrev blank_public : UserPublic
blank_public = record {
  id = 0;
  email = [];
  username = [];
  display_name = [];
  role = UserRole.guest;
  avatar_url = none;
  is_active = false;
  created_at = 0;
}

abbrev blank : AuthResponse
blank = record {
  access_token = [];
  refresh_token = [];
  token_type = [];
  expires_in = 0;
  user = blank_public;
}

-- After kim signed up.
abbrev joined : Result AuthResponse × World
joined = signup request env world

pub ok_of :
    {A : Type 0} (a : A) (r : Result A × World)
    → is_err r.0 ≡ false
    → r ≡ (ok (answer_of a r.0), r.1)
ok_of a (ok b, w) h = refl
ok_of a (err x, w) h = absurd (ground (arith, h))

joined_ok : is_err joined.0 ≡ false
unfolding signup login refresh deactivate ◌>>=◌ asks query execute answer hash_password
    verify_password new_v4 now insert_user attempt default_channel insert_channel add_member_row
    push_member issue_pair issue issue_with_jti verify insert_token revoke_hash revoke_all
joined_ok = refl

abbrev renewal : RefreshRequest
renewal = record { refresh_token = (answer_of blank joined.0).refresh_token }

abbrev renewed : Result AuthResponse × World
renewed = refresh renewal env joined.1

renewed_ok : is_err renewed.0 ≡ false
unfolding signup login refresh deactivate ◌>>=◌ asks query execute answer hash_password
    verify_password new_v4 now insert_user attempt default_channel insert_channel add_member_row
    push_member issue_pair issue issue_with_jti verify insert_token revoke_hash revoke_all
renewed_ok = refl

db-IsKeyed : IsKeyed db
db-IsKeyed = record {
  sound = db-IsSound;
  users_once = λ k. ground arith;
  tokens_once = λ k. omega arith;
  owned = tt;
}

-- Kim signs up and logs in, and Ada deactivates and activates Bob.
abbrev arrivals : List AccountCall
arrivals =
    AccountCall.sign_up request
    ∷ AccountCall.log_in (record { email = text "kim@x.org"; password = text "12345678" })
    ∷ AccountCall.disable ada 2
    ∷ AccountCall.enable ada 2
    ∷ []

run_accounts-IsKeyed_example : IsKeyed (run_accounts arrivals env world).db
run_accounts-IsKeyed_example = run_accounts-IsKeyed arrivals env world db-IsKeyed

-- Ada looks at Bob's profile, and Kim logs in.
abbrev meanwhile : List AccountCall
meanwhile =
    AccountCall.profile_of ada 2
    ∷ AccountCall.log_in (record { email = text "kim@x.org"; password = text "12345678" })
    ∷ []

refresh_once_example : is_err (refresh renewal env (run_accounts meanwhile env renewed.1)).0 ≡ true
refresh_once_example =
    refresh_once env joined.1 renewed.1 renewal (answer_of blank renewed.0) meanwhile jwt-ReadsOnce
      (ok_of blank renewed renewed_ok)

abbrev credentials : LoginRequest
credentials = record { email = text "kim@x.org"; password = text "12345678" }

abbrev entered : Result AuthResponse × World
entered = login credentials env joined.1

entered_ok : is_err entered.0 ≡ false
unfolding signup login refresh deactivate ◌>>=◌ asks query execute answer hash_password
    verify_password new_v4 now insert_user attempt default_channel insert_channel add_member_row
    push_member issue_pair issue issue_with_jti verify insert_token revoke_hash revoke_all
entered_ok = refl

login-Proves_example :
    (u : User) × (find (with_email env (text "kim@x.org")) joined.1.db.users ≡ some u)
    × Proves env (text "12345678") u (answer_of blank entered.0)
login-Proves_example =
    login-Proves credentials env joined.1 entered.1 (answer_of blank entered.0)
      (ok_of blank entered entered_ok)

abbrev shut : Result UserPublic × World
shut = deactivate ada 2 env world

shut_ok : is_err shut.0 ≡ false
unfolding signup login refresh deactivate ◌>>=◌ asks query execute answer hash_password
    verify_password new_v4 now insert_user attempt default_channel insert_channel add_member_row
    push_member issue_pair issue issue_with_jti verify insert_token revoke_hash revoke_all
    admin_user
shut_ok = refl

abbrev bobs : RefreshRequest
bobs = record { refresh_token = 2 ∷ 1 ∷ 1 ∷ 900 ∷ 10 ∷ 0 ∷ [] }

bobs_claims : (s : ℕ) (c : Claims) → jwt.decoding s bobs.refresh_token ≡ some c → c.sub ≡ 2
bobs_claims s c h = sub_of (unless_expired_is s (claims_in bobs.refresh_token) c h)
  where
    sub_of : claims_in bobs.refresh_token ≡ some c → c.sub ≡ 2
    sub_of e = cc

disabled_out_example :
    is_err (refresh bobs env (run_accounts (AccountCall.enable ada 3 ∷ []) env shut.1)).0 ≡ true
disabled_out_example =
    disabled_out env world shut.1 ada 2 (answer_of blank_public shut.0)
      (AccountCall.enable ada 3 ∷ []) bobs (ok_of blank_public shut shut_ok) (refl, tt) bobs_claims

abbrev pair : Result TokenPair × World
pair = issue_pair 2 UserRole.member env world

pair_ok : is_err pair.0 ≡ false
unfolding signup login refresh deactivate ◌>>=◌ asks query execute answer hash_password
    verify_password new_v4 now insert_user attempt default_channel insert_channel add_member_row
    push_member issue_pair issue issue_with_jti verify insert_token revoke_hash revoke_all
pair_ok = refl

abbrev blank_pair : TokenPair
blank_pair = record {
  access = [];
  refresh = [];
  refresh_jti = 0;
  access_expires_in = 0;
  refresh_expires_at = 0;
}

issue_pair-Serves_example :
    Serves env world (answer_of blank_pair pair.0).access TokenKind.access 2 UserRole.member
    × Serves env world (answer_of blank_pair pair.0).refresh TokenKind.refresh 2 UserRole.member
unfolding timestamp
issue_pair-Serves_example =
    issue_pair-Serves env world pair.1 2 UserRole.member (answer_of blank_pair pair.0) world world
      jwt-Decodes (ok_of blank_pair pair pair_ok) (omega arith) (omega arith)

-- Ada's access token in a header.
abbrev header : Option Text
header = some (text "Bearer " ++ 1 ∷ 0 ∷ 0 ∷ 900 ∷ 10 ∷ 0 ∷ [])

abbrev entry : Result AuthUser × World
entry = admin header env world

entry_ok : is_err entry.0 ≡ false
unfolding admin admin_user ◌>>=◌ verify now asks
entry_ok = refl

jwt-ChecksExpiry : ChecksExpiry jwt
jwt-ChecksExpiry c token at h = elim (Option-cases (claims_in token)) [
  | inl bad ↦ cc
  | inr (x, read) ↦ still x (subst (λ o. unless_expired at o ≡ some c) read h)
]
  where
    still : (x : Claims) → unless_expired at (some x) ≡ some c → at ≤ c.exp + 60
    still x k = elim (Bool-cases (leb at x.exp)) [
      | inl fresh ↦
          let same : x ≡ c = cc in subst (λ y. at ≤ y.exp + 60) same (ground (arith, fresh))
      | inr late ↦ absurd (ground (arith, late, k))
    ]

admin-Carries_example :
    (is_admin (answer_of bob entry.0).role ≡ true)
    × CarriesFresh env world header (answer_of bob entry.0)
admin-Carries_example =
    admin-Carries header env world entry.1 (answer_of bob entry.0) jwt-ChecksExpiry
      (ok_of bob entry entry_ok)
