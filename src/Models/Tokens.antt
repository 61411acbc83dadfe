-- ===== src/Models/Tokens.antt =====
-- auth/jwt.rs: the two kinds of token, their claims, and the keys that sign and check them.
use rsmc_engine.Base.{ℕ, Bool, true, false, Option, Text}
use rsmc_engine.Models.Users.{UserRole}

pub data TokenKind : Type 0 where
  access refresh : TokenKind

-- `PartialEq` of `TokenKind`.
abbrev pub same_kind : TokenKind → TokenKind → Bool
same_kind TokenKind.access TokenKind.access = true
same_kind TokenKind.refresh TokenKind.refresh = true
same_kind _ _ = false

pub record Claims : Type 0 where
  pub sub : ℕ
  pub role : UserRole
  pub tok : TokenKind
  pub jti : ℕ
  pub exp : ℕ
  pub iat : ℕ

-- jsonwebtoken's `encode` and `decode` with the keys of one secret, decoding at a time in seconds;
-- the configured lifetimes, in seconds.
pub record JwtKeys : Type 0 where
  pub encoding : Claims → Option Text
  pub decoding : (at : ℕ) → Text → Option Claims
  pub access_ttl : ℕ
  pub refresh_ttl : ℕ

pub record TokenPair : Type 0 where
  pub access : Text
  pub refresh : Text
  pub refresh_jti : ℕ
  pub access_expires_in : ℕ
  pub refresh_expires_at : ℕ
