-- ===== src/Auth.antt =====
-- auth/jwt.rs and auth/password.rs: the tokens and the passwords of users.
pub mod Frames
pub mod Tokens
use Prim.Native.Nat.{◌*◌, ◌/◌}
use rsmc_engine.Base.{ℕ, suc, ◌+◌, Bool, not, Option, Text}
use rsmc_engine.Error.{unauthorized, jwt, password_hash}
use rsmc_engine.Models.{UserRole, TokenKind, same_kind, Claims, TokenPair}
use rsmc_engine.App.{M, Env, World, pure, ◌>>=◌, ◌>>◌, or_fail, fail_if, asks, new_v4, now}

-- Microseconds to the second.
abbrev pub second : ℕ
second = 1000000

-- `DateTime::timestamp`
unfoldable pub timestamp : ℕ → ℕ
timestamp at = at / second

-- `JwtKeys::issue_with_jti`
unfoldable pub issue_with_jti : (sub : ℕ) → UserRole → TokenKind → (ttl jti : ℕ) → M Text
unfolding timestamp
issue_with_jti sub role tok ttl jti = do
  at ← now
  token ← asks (λ e. e.jwt.encoding (record {
    sub = sub;
    role = role;
    tok = tok;
    jti = jti;
    exp = timestamp (at + ttl * second);
    iat = timestamp at;
  }))
  or_fail token jwt

-- `JwtKeys::issue`
unfoldable pub issue : (sub : ℕ) → UserRole → TokenKind → (ttl : ℕ) → M Text
unfolding issue_with_jti
issue sub role tok ttl = new_v4 >>= issue_with_jti sub role tok ttl

-- `JwtKeys::issue_pair`
unfoldable pub issue_pair : (user_id : ℕ) → UserRole → M TokenPair
unfolding issue issue_with_jti
issue_pair user_id role = do
  access_ttl ← asks (λ e. e.jwt.access_ttl)
  refresh_ttl ← asks (λ e. e.jwt.refresh_ttl)
  access_token ← issue user_id role TokenKind.access access_ttl
  refresh_jti ← new_v4
  refresh_token ← issue_with_jti user_id role TokenKind.refresh refresh_ttl refresh_jti
  at ← now
  pure (record {
    access = access_token;
    refresh = refresh_token;
    refresh_jti = refresh_jti;
    access_expires_in = access_ttl;
    refresh_expires_at = at + refresh_ttl * second;
  })

-- `JwtKeys::verify`
unfoldable pub verify : (token : Text) → (expected : TokenKind) → M Claims
unfolding timestamp
verify token expected = do
  at ← now
  found ← asks (λ e. e.jwt.decoding (timestamp at) token)
  claims ← or_fail found jwt
  fail_if (not (same_kind claims.tok expected)) unauthorized
  pure claims

-- `password::hash_password`, with a fresh salt.
unfoldable pub hash_password : (plain : Text) → M Text
hash_password plain e w =
    or_fail (e.hash_argon2 w.draws plain) password_hash e (record w { draws = suc w.draws })

-- `password::verify_password`: a malformed hash is an error.
unfoldable pub verify_password : (plain hash : Text) → M Bool
verify_password plain hash = do
  verdict ← asks (λ e. e.verify_argon2 plain hash)
  or_fail verdict password_hash
