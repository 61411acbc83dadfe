-- ===== src/Auth/Tokens.antt =====
-- auth/jwt.rs: what a pair of tokens is good for.
use Prim.Native.Nat.{◌*◌}
use rsmc_engine.Base.{
  ℕ, suc, ◌+◌, ◌≤◌, ◌≡◌, refl, subst, true, false, some, Text, Option-cases, inl, inr,
}
use rsmc_engine.Error.{Result, ok, err, unauthorized}
use rsmc_engine.Models.{UserRole, TokenKind, same_kind, Claims, JwtKeys, TokenPair}
use rsmc_engine.App.{Env, World, ◌>>=◌, asks, new_v4, now}
use rsmc_engine.Auth.{second, timestamp, issue_with_jti, issue, issue_pair, verify}

-- Of jsonwebtoken's documentation: a token that was encoded is decoded by the same secret, until
-- it expires, into the claims that were encoded.
abbrev pub Decodes : JwtKeys → Type 0
Decodes k =
    (c : Claims) (token : Text) (at : ℕ)
    → k.encoding c ≡ some token
    → at ≤ c.exp
    → k.decoding at token ≡ some c

abbrev pub other_kind : TokenKind → TokenKind
other_kind TokenKind.access = TokenKind.refresh
other_kind TokenKind.refresh = TokenKind.access

-- A token is accepted as one kind, with these claims, and refused as the other.
abbrev pub Serves : Env → World → Text → TokenKind → (sub : ℕ) → UserRole → Type 0
Serves e w token kind sub role =
    (c : Claims) × (c.sub ≡ sub)
    × (c.role ≡ role)
    × ((verify token kind e w).0 ≡ ok c)
    × ((verify token (other_kind kind) e w).0 ≡ err unauthorized)

same_kind_refl : (k : TokenKind) → same_kind k k ≡ true
same_kind_refl TokenKind.access = refl
same_kind_refl TokenKind.refresh = refl

same_kind-other_kind : (k : TokenKind) → same_kind k (other_kind k) ≡ false
same_kind-other_kind TokenKind.access = refl
same_kind-other_kind TokenKind.refresh = refl

verify-Serves :
    (e : Env) (w : World) (c : Claims) (token : Text)
    → Decodes e.jwt
    → e.jwt.encoding c ≡ some token
    → timestamp (e.clock w.ticks) ≤ c.exp
    → Serves e w token c.tok c.sub c.role
unfolding verify ◌>>=◌ now asks
verify-Serves e w c token decodes encoded fresh =
    let read = decodes c token (timestamp (e.clock w.ticks)) encoded fresh in
    (
      c,
      refl,
      refl,
      rw (read, same_kind_refl c.tok) refl,
      rw (read, same_kind-other_kind c.tok) refl,
    )

abbrev claims_of : Env → (sub : ℕ) → UserRole → TokenKind → (ttl jti at : ℕ) → Claims
claims_of e sub role kind ttl jti at = record {
  sub = sub;
  role = role;
  tok = kind;
  jti = jti;
  exp = timestamp (at + ttl * second);
  iat = timestamp at;
}

-- The claims of the two tokens: the access token's are drawn and timed first.
abbrev access_claims : Env → World → (user_id : ℕ) → UserRole → Claims
access_claims e w u r =
    claims_of e u r TokenKind.access e.jwt.access_ttl (e.new_v4 w.draws) (e.clock w.ticks)

abbrev refresh_claims : Env → World → (user_id : ℕ) → UserRole → Claims
refresh_claims e w u r =
    claims_of e u r TokenKind.refresh e.jwt.refresh_ttl (e.new_v4 (suc w.draws))
      (e.clock (suc w.ticks))

abbrev IsMinted : Env → World → (user_id : ℕ) → UserRole → Result TokenPair × World → Type 0
IsMinted e w u r (ok pair, w') =
    (e.jwt.encoding (access_claims e w u r) ≡ some pair.access)
    × (e.jwt.encoding (refresh_claims e w u r) ≡ some pair.refresh)
IsMinted e w u r (err x, w') = Unit

issue_pair-IsMinted :
    (e : Env) (w : World) (u : ℕ) (r : UserRole) → IsMinted e w u r (issue_pair u r e w)
unfolding issue_pair issue issue_with_jti ◌>>=◌ now asks new_v4
issue_pair-IsMinted e w u r = elim (Option-cases (e.jwt.encoding (access_claims e w u r))) [
  | inl lost ↦ rw lost tt
  | inr (a, first) ↦ elim (Option-cases (e.jwt.encoding (refresh_claims e w u r))) [
    | inl lost ↦ rw (first, lost) tt
    | inr (b, second_one) ↦ rw (first, second_one) (first, second_one)
  ]
]

-- The two tokens of a pair, where jsonwebtoken decodes what it encoded until it expires: as long as
-- its lifetime lasts, the access token is accepted as an access token, with the user and the role
-- that it was issued for, and refused as a refresh token, and the refresh token the other way round.
pub issue_pair-Serves :
    (e : Env) (w w' : World) (u : ℕ) (r : UserRole) (pair : TokenPair) (w2 w3 : World)
    → Decodes e.jwt
    → issue_pair u r e w ≡ (ok pair, w')
    → timestamp (e.clock w2.ticks) ≤ timestamp (e.clock w.ticks + e.jwt.access_ttl * second)
    → timestamp (e.clock w3.ticks) ≤ timestamp (e.clock (suc w.ticks) + e.jwt.refresh_ttl * second)
    → Serves e w2 pair.access TokenKind.access u r × Serves e w3 pair.refresh TokenKind.refresh u r
issue_pair-Serves e w w' u r pair w2 w3 decodes issued early in_time =
    let (a, b) = subst (IsMinted e w u r) issued (issue_pair-IsMinted e w u r) in
    (
      verify-Serves e w2 (access_claims e w u r) pair.access decodes a early,
      verify-Serves e w3 (refresh_claims e w u r) pair.refresh decodes b in_time,
    )
