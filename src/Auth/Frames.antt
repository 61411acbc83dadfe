-- ===== src/Auth/Frames.antt =====
-- auth/: tokens and passwords keep every property of the tables.
use rsmc_engine.Base.{ℕ, Text}
use rsmc_engine.Models.{UserRole, TokenKind}
use rsmc_engine.Db.{Db}
use rsmc_engine.App.{Keeps, keeping, bind-Keeps, asks-Triple, or_fail-Keeps}
use rsmc_engine.Auth.{issue_pair, issue, issue_with_jti, verify, hash_password, verify_password}

module _ {P : Db → Type 0} where
  issue_with_jti-Keeps :
      (sub : ℕ) (r : UserRole) (k : TokenKind) (ttl jti : ℕ)
      → Keeps P (issue_with_jti sub r k ttl jti)
  unfolding issue_with_jti
  issue_with_jti-Keeps sub r k ttl jti = search keeping

  issue-Keeps : (sub : ℕ) (r : UserRole) (k : TokenKind) (ttl : ℕ) → Keeps P (issue sub r k ttl)
  unfolding issue
  issue-Keeps sub r k ttl = search (keeping, issue_with_jti-Keeps)

  pub issue_pair-Keeps : (u : ℕ) (r : UserRole) → Keeps P (issue_pair u r)
  unfolding issue_pair
  issue_pair-Keeps u r = bind-Keeps (asks-Triple _) λ access_ttl.
      bind-Keeps (asks-Triple _) λ refresh_ttl.
        bind-Keeps (issue-Keeps u r TokenKind.access access_ttl)
          λ token. search (keeping, issue_with_jti-Keeps)

  pub verify-Keeps : (token : Text) (k : TokenKind) → Keeps P (verify token k)
  unfolding verify
  verify-Keeps token k = search keeping

  pub hash_password-Keeps : (plain : Text) → Keeps P (hash_password plain)
  unfolding hash_password
  hash_password-Keeps plain = record {
    run = λ e w p. (or_fail-Keeps (e.hash_argon2 w.draws plain) _).run e (record w { draws = _ }) p;
  }

  pub verify_password-Keeps : (plain hash : Text) → Keeps P (verify_password plain hash)
  unfolding verify_password
  verify_password-Keeps plain hash = search keeping
