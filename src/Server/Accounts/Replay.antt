-- ===== src/Server/Accounts/Replay.antt =====
-- handlers/auth.rs, `refresh`: a refresh token that served once is refused from then on.
use rsmc_engine.Base.{
  ℕ, ◌≡◌, refl, sym, subst, true, false, some, List, Text, Bool-cases, Option-cases, inl, inr, leb,
  length,
}
use rsmc_engine.Error.{AppError, Result, ok, err}
use rsmc_engine.Models.{User, RefreshRequest, AuthResponse, Claims, TokenKind, same_kind}
use rsmc_engine.App.{
  Env, World, Keeps, Ends, Whatever, is_err, execute-Keeps, execute, ◌>>=◌, now, asks,
}
use rsmc_engine.Auth.{verify, timestamp}
use rsmc_engine.Handlers.Auth.{rotate, refresh}
use rsmc_engine.Handlers.Auth.Rotation.{Spent, spent_keeper, rotate-spends, rotate-refused}
use rsmc_engine.Handlers.Users.{update_user, profile}
use rsmc_engine.Server.Accounts.{AccountCall, run_accounts}
use rsmc_engine.Server.Accounts.Frames.{AccountKeeper, permits-All, run_accounts-Keeps}

update-Spent :
    {hash : Text} (id at : ℕ) (f : User → User) → Keeps (Spent hash) (execute (update_user id at f))
unfolding update_user
update-Spent id at f = execute-Keeps (update_user id at f) (λ d h. h)

abbrev spent_account_keeper : (hash : Text) → AccountKeeper (Spent hash)
spent_account_keeper hash = record {
  sessions = spent_keeper hash;
  may_enable = λ u. true;
  edit = λ u at req. update-Spent u at (profile req);
  assign = λ u at r. update-Spent u at (λ x. record x { role = r });
  switch_off = λ u at. update-Spent u at (λ x. record x { is_active = false });
  switch_on = λ u _ at. update-Spent u at (λ x. record x { is_active = true });
}

-- The claims that a token carries do not depend on when it is read.
abbrev pub ReadsOnce : Env → Type 0
ReadsOnce e =
    (s s' : ℕ) (token : Text) (c c' : Claims)
    → e.jwt.decoding s token ≡ some c
    → e.jwt.decoding s' token ≡ some c'
    → c ≡ c'

-- A refresh fails, or rotates the token of the claims that it reads.
pub refresh-cases :
    (R : Result AuthResponse × World → Type 0) (req : RefreshRequest) (e : Env) (w : World)
    → ((x : AppError) (w' : World) → R (err x, w'))
    → ((s : ℕ) (c : Claims) (w' : World)
        → e.jwt.decoding s req.refresh_token ≡ some c
        → w'.db ≡ w.db
        → R (rotate (e.encode_uuid c.jti) c.sub e w'))
    → R (refresh req e w)
unfolding refresh verify ◌>>=◌ now asks
refresh-cases R req e w failed rotated = elim (Bool-cases (leb 1 (length req.refresh_token))) [
  | inr short ↦ rw short (failed _ _)
  | inl long ↦
      rw long
        (elim (Option-cases (e.jwt.decoding (timestamp (e.clock w.ticks)) req.refresh_token)) [
          | inl bad ↦ rw bad (failed _ _)
          | inr (c, read) ↦ rw read (elim (Bool-cases (same_kind c.tok TokenKind.refresh)) [
            | inr other ↦ rw other (failed _ _)
            | inl kind ↦ rw kind (rotated _ c _ read refl)
          ])
        ])
]

-- A success leaves the token of some claims spent.
abbrev Spends : RefreshRequest → Env → Result AuthResponse × World → Type 0
Spends req e (ok resp, w) =
    (s : ℕ) × (c : Claims) × (e.jwt.decoding s req.refresh_token ≡ some c)
    × Spent (e.encode_uuid c.jti) w.db
Spends req e (err x, w) = Unit

refresh-Spends : (req : RefreshRequest) (e : Env) (w : World) → Spends req e (refresh req e w)
refresh-Spends req e w =
    refresh-cases (Spends req e) req e w (λ x w'. tt)
      λ s c w' read same.
        spends s c read (rotate (e.encode_uuid c.jti) c.sub e w')
          ((rotate-spends _ c.sub).run e w' tt)
  where
    spends :
        (s : ℕ) (c : Claims)
        → e.jwt.decoding s req.refresh_token ≡ some c
        → (r : Result AuthResponse × World) → Ends (λ _. Spent (e.encode_uuid c.jti)) Whatever r
        → Spends req e r
    spends s c read (ok resp, w) h = (s, c, read, h)
    spends s c read (err x, w) h = tt

pub fails_always :
    {A : Type 0} (r : Result A × World) → Ends (λ _ _. ⊥) Whatever r → is_err r.0 ≡ true
fails_always (ok a, w) h = absurd h
fails_always (err x, w) h = refl

refresh-refused :
    (req : RefreshRequest) (e : Env) (w : World)
    → ((s : ℕ) (c : Claims)
        → e.jwt.decoding s req.refresh_token ≡ some c
        → Spent (e.encode_uuid c.jti) w.db)
    → is_err (refresh req e w).0 ≡ true
refresh-refused req e w spent =
    refresh-cases (λ r. is_err r.0 ≡ true) req e w (λ x w'. refl)
      λ s c w' read same. fails_always (rotate (e.encode_uuid c.jti) c.sub e w') (
        (rotate-refused (e.encode_uuid c.jti) c.sub).run e w'
          (subst (Spent (e.encode_uuid c.jti)) (sym same) (spent s c read)))

-- A refresh token serves once: where a token's claims do not depend on the time of reading, a
-- refresh that succeeded makes every later refresh with that token fail, whatever calls on accounts
-- and sessions come between, and whichever statements are lost.
pub refresh_once :
    (e : Env) (w w' : World) (req : RefreshRequest) (resp : AuthResponse) (cs : List AccountCall)
    → ReadsOnce e
    → refresh req e w ≡ (ok resp, w')
    → is_err (refresh req e (run_accounts cs e w')).0 ≡ true
refresh_once e w w' req resp cs once succeeded =
    let (s, c, read, spent) = subst (Spends req e) succeeded (refresh-Spends req e w) in
    refresh-refused req e (run_accounts cs e w') λ s' c' read'.
      run_accounts-Keeps (spent_account_keeper (e.encode_uuid c'.jti)) cs e w' (permits-All cs) (
        subst (λ x. Spent (e.encode_uuid x.jti) w'.db) (once s s' req.refresh_token c c' read read')
          spent)
