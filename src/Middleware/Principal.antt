-- ===== src/Middleware/Principal.antt =====
-- middleware/auth.rs: where the principal of a request comes from.
use rsmc_engine.Base.{
  ℕ, ◌+◌, ◌≤◌, ◌≡◌, refl, subst, true, not, Option, none, some, Text, Bool-cases, Option-cases, inl,
  inr,
}
use rsmc_engine.Error.{Result, ok, err, forbidden}
use rsmc_engine.Models.{TokenKind, same_kind, Claims, JwtKeys}
use rsmc_engine.App.{Env, World, ◌>>=◌, now, asks, fail_if, and_then}
use rsmc_engine.Services.Access.{AuthUser, admin_user, is_admin}
use rsmc_engine.Auth.{verify, timestamp}
use rsmc_engine.Middleware.{bearer, auth_user, admin}

-- The claims of an access token that stands in the header and is decoded at the time of the request.
abbrev pub Carries : Env → World → (header : Option Text) → AuthUser → Type 0
Carries e w header user =
    (value token : Text) × (c : Claims) × (header ≡ some value)
    × (bearer value ≡ some token)
    × (e.jwt.decoding (timestamp (e.clock w.ticks)) token ≡ some c)
    × (c.tok ≡ TokenKind.access)
    × (user.id ≡ c.sub)
    × (user.role ≡ c.role)

abbrev FromToken : Env → World → Option Text → Result AuthUser × World → Type 0
FromToken e w header (ok user, w') = Carries e w header user
FromToken e w header (err x, w') = Unit

kind_known : (k : TokenKind) → same_kind k TokenKind.access ≡ true → k ≡ TokenKind.access
kind_known TokenKind.access h = refl
kind_known TokenKind.refresh h = cc

auth_user-FromToken :
    (header : Option Text) (e : Env) (w : World) → FromToken e w header (auth_user header e w)
unfolding auth_user ◌>>=◌ verify now asks
auth_user-FromToken none e w = tt
auth_user-FromToken (some value) e w = elim (Option-cases (bearer value)) [
  | inl bad ↦ rw bad tt
  | inr (token, cut) ↦
      rw cut (elim (Option-cases (e.jwt.decoding (timestamp (e.clock w.ticks)) token)) [
        | inl bad ↦ rw bad tt
        | inr (c, read) ↦ rw read (elim (Bool-cases (same_kind c.tok TokenKind.access)) [
          | inr other ↦ rw other tt
          | inl kind ↦ rw kind (value, token, c, refl, cut, read, kind_known c.tok kind, refl, refl)
        ])
      ])
]

abbrev pub AdminToken : Env → World → Option Text → Result AuthUser × World → Type 0
AdminToken e w header (ok user, w') = (is_admin user.role ≡ true) × Carries e w header user
AdminToken e w header (err x, w') = Unit

admin-AdminToken :
    (header : Option Text) (e : Env) (w : World) → AdminToken e w header (admin header e w)
unfolding admin admin_user ◌>>=◌
admin-AdminToken header e w = gated (auth_user header e w) (auth_user-FromToken header e w)
  where
    gated :
        (r : Result AuthUser × World)
        → FromToken e w header r
        → AdminToken e w header (
            and_then r (λ user w'.
              and_then
                (fail_if (not (is_admin user.role)) (forbidden "admin role required") e w')
                (λ _ w2. (ok user, w2))))
    gated (ok user, w') h = elim (Bool-cases (is_admin user.role)) [
      | inl there ↦ rw there (there, h)
      | inr other ↦ rw other tt
    ]
    gated (err x, w') h = tt

-- A request is served as a user only with a header that carries an access token which is decoded
-- at the time of the request, and with the user and the role of its claims; a refresh token opens
-- nothing.
pub auth_user-Carries :
    (header : Option Text) (e : Env) (w w' : World) (user : AuthUser)
    → auth_user header e w ≡ (ok user, w')
    → Carries e w header user
auth_user-Carries header e w w' user h =
    subst (FromToken e w header) h (auth_user-FromToken header e w)

-- Of jsonwebtoken's documentation: by default a token whose `exp` has passed is refused, with a
-- leeway of 60 seconds.
abbrev pub ChecksExpiry : JwtKeys → Type 0
ChecksExpiry k =
    (c : Claims) (token : Text) (at : ℕ) → k.decoding at token ≡ some c → at ≤ c.exp + 60

-- The same, where the token has not expired more than the leeway ago.
abbrev pub CarriesFresh : Env → World → (header : Option Text) → AuthUser → Type 0
CarriesFresh e w header user =
    (value token : Text) × (c : Claims) × (header ≡ some value)
    × (bearer value ≡ some token)
    × (e.jwt.decoding (timestamp (e.clock w.ticks)) token ≡ some c)
    × (c.tok ≡ TokenKind.access)
    × (user.id ≡ c.sub)
    × (user.role ≡ c.role)
    × (timestamp (e.clock w.ticks) ≤ c.exp + 60)

-- A request is served as an admin only with a header that carries an access token which is decoded
-- at the time of the request, expired at most 60 seconds before, the leeway of jsonwebtoken, and
-- names the user and the role, which is admin.
pub admin-Carries :
    (header : Option Text) (e : Env) (w w' : World) (user : AuthUser)
    → ChecksExpiry e.jwt
    → admin header e w ≡ (ok user, w')
    → (is_admin user.role ≡ true) × CarriesFresh e w header user
admin-Carries header e w w' user checks h =
    let (known, (value, token, c, at, cut, read, kind, same, role)) =
      subst (AdminToken e w header) h (admin-AdminToken header e w) in
    let fresh = checks c token (timestamp (e.clock w.ticks)) read in
    (known, (value, token, c, at, cut, read, kind, same, role, fresh))
