-- ===== src/Handlers/Auth/Credentials.antt =====
-- handlers/auth.rs, `login`: whose session a login opens.
use rsmc_engine.Base.{
  suc, ◌≡◌, refl, subst, Bool, true, false, Option, none, some, Text, find, Bool-cases,
  Option-cases, inl, inr, arith,
}
use rsmc_engine.Error.{AppError, Result, ok, err}
use rsmc_engine.Models.{User, LoginRequest, AuthResponse, to_public}
use rsmc_engine.Db.{Db}
use rsmc_engine.App.{
  Env, World, M, pure, fail, fail_if, and_then, ◌>>=◌, asks, query, execute, answer,
}
use rsmc_engine.Auth.{verify_password}
use rsmc_engine.Handlers.Auth.Store.{with_email}
use rsmc_engine.Handlers.Auth.{issue_session, login, login_as, login_found, valid_login}

-- When it succeeds, a body answers with something that has a property.
abbrev pub OnOk : {A : Type 0} → (A → Type 0) → Result A → Type 0
OnOk Q (ok a) = Q a
OnOk Q (err x) = Unit

pub record Shows (e : Env) {A : Type 0} (m : M A) (Q : A → Type 0) : Type 0 where
  pub run : (w : World) → OnOk Q (m e w).0

after-OnOk :
    {A B : Type 0} (Q : B → Type 0) (r : Result A × World) (k : A → World → Result B × World)
    → ((a : A) (w : World) → OnOk Q (k a w).0)
    → OnOk Q (and_then r k).0
after-OnOk Q (ok a, w) k h = h a w
after-OnOk Q (err x, w) k h = tt

module _ {e : Env} where
  bind-Shows :
      {A B : Type 0} {f : A → M B} {Q : B → Type 0} (m : M A)
      → ((a : A) → Shows e (f a) Q)
      → Shows e (m >>= f) Q
  unfolding ◌>>=◌
  bind-Shows {f = f} {Q = Q} m next = record {
    run = λ w. after-OnOk Q (m e w) (λ a. f a e) (λ a w'. (next a).run w');
  }

  pure-Shows : {A : Type 0} {Q : A → Type 0} (a : A) → Q a → Shows e (pure a) Q
  pure-Shows a q = record { run = λ w. q }

  fail-Shows : {A : Type 0} {Q : A → Type 0} (x : AppError) → Shows e (fail {A = A} x) Q
  fail-Shows x = record { run = λ w. tt }

  guard-Shows :
      {B : Type 0} {Q : B → Type 0} (f : Unit {0} → M B) (b : Bool) (x : AppError)
      → (b ≡ false → Shows e (f tt) Q)
      → Shows e (fail_if b x >>= f) Q
  unfolding ◌>>=◌
  guard-Shows f true x next = record { run = λ w. tt }
  guard-Shows f false x next = record { run = λ w. (next refl).run w }

  verify_password-Shows :
      {B : Type 0} {f : Bool → M B} {Q : B → Type 0} (plain hash : Text)
      → ((b : Bool) → e.verify_argon2 plain hash ≡ some b → Shows e (f b) Q)
      → Shows e (verify_password plain hash >>= f) Q
  unfolding verify_password ◌>>=◌ asks
  verify_password-Shows plain hash next = elim (Option-cases (e.verify_argon2 plain hash)) [
    | inl bad ↦ record { run = λ w. rw bad tt }
    | inr (b, verdict) ↦ record { run = λ w. rw verdict ((next b verdict).run w) }
  ]

  pub issue_session-Shows : (u : User) → Shows e (issue_session u) (λ a. a.user ≡ to_public u)
  unfolding issue_session
  issue_session-Shows u =
      bind-Shows _
        λ pair. bind-Shows _ λ id. bind-Shows _ λ hash. bind-Shows _ λ _. pure-Shows _ refl

conclude-Shows :
    {e : Env} {A : Type 0} {P Q : A → Type 0} (m : M A)
    → Shows e m P
    → ((a : A) → P a → Q a)
    → Shows e m Q
conclude-Shows {e = e} {P = P} {Q = Q} m t h = record { run = λ w. onward (m e w).0 (t.run w) }
  where
    onward : (r : Result _) → OnOk P r → OnOk Q r
    onward (ok a) p = h a p
    onward (err x) p = tt

-- The session of an active user whose password this is.
abbrev pub Proves : Env → (password : Text) → User → AuthResponse → Type 0
Proves e password u a =
    (u.is_active ≡ true)
    × (e.verify_argon2 password u.password_hash ≡ some true)
    × (a.user ≡ to_public u)

login_as-Shows :
    (e : Env) (password : Text) (u : User) → Shows e (login_as password u) (Proves e password u)
unfolding login_as
login_as-Shows e password u = guard-Shows _ _ _ λ on.
    verify_password-Shows password u.password_hash λ b verdict. guard-Shows _ _ _ λ right.
      conclude-Shows (issue_session u) (issue_session-Shows u)
        λ a same. (ground (arith, on), ground (arith, verdict, right), same)

-- The row that a login found, in the tables of before.
abbrev FoundIn : Env → Db → LoginRequest → AuthResponse → Type 0
FoundIn e d req a =
    (u : User) × (find (with_email e req.email) d.users ≡ some u) × Proves e req.password u a

login_found-Shows :
    (e : Env) (d : Db) (req : LoginRequest) (o : Option User)
    → find (with_email e req.email) d.users ≡ o
    → Shows e (login_found req.password o) (FoundIn e d req)
unfolding login_found
login_found-Shows e d req none h = bind-Shows _ λ _. fail-Shows _
login_found-Shows e d req (some u) h =
    conclude-Shows (login_as req.password u) (login_as-Shows e req.password u) λ a p. (u, h, p)

login-FoundIn :
    (req : LoginRequest) (e : Env) (w : World) → OnOk (FoundIn e w.db req) (login req e w).0
unfolding login query execute answer ◌>>=◌ asks
login-FoundIn req e w = elim (Bool-cases (valid_login e req)) [
  | inr bad ↦ rw bad tt
  | inl valid ↦ rw valid (elim (Bool-cases (e.fault w.stmts)) [
    | inl lost ↦ rw lost tt
    | inr there ↦ rw there (
        (login_found-Shows e w.db req (find (with_email e req.email) w.db.users) refl).run
          (record w { stmts = suc w.stmts }))
  ])
]

-- A login that succeeds opens the session of the user whose address it names, LOWER aside, of whom
-- the account is active and whose stored hash verifies the password.
pub login-Proves :
    (req : LoginRequest) (e : Env) (w w' : World) (a : AuthResponse)
    → login req e w ≡ (ok a, w')
    → (u : User) × (find (with_email e req.email) w.db.users ≡ some u) × Proves e req.password u a
login-Proves req e w w' a succeeded =
    subst (λ (r : Result AuthResponse × World). OnOk (FoundIn e w.db req) r.0) succeeded
      (login-FoundIn req e w)
