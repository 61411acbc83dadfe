-- ===== src/Middleware.antt =====
-- middleware/auth.rs: the principal of a request, from its Authorization header.
pub mod Principal
use rsmc_engine.Base.{
  ℕ, Bool, true, false, Option, none, some, List, [], ◌∷◌, Text, text, ◌==◌, if◌then◌else◌,
}
use rsmc_engine.Error.{unauthorized}
use rsmc_engine.Models.{TokenKind}
use rsmc_engine.App.{M, pure, ◌>>=◌, ◌>>◌, or_fail}
use rsmc_engine.Services.Access.{AuthUser, admin_user}
use rsmc_engine.Auth.{verify}

-- `str::strip_prefix`
unfoldable pub strip_prefix : (prefix : Text) → Text → Option Text
strip_prefix [] s = some s
strip_prefix (p ∷ ps) [] = none
strip_prefix (p ∷ ps) (c ∷ cs) = if p == c then strip_prefix ps cs else none

abbrev or_else : Option Text → Option Text → Option Text
or_else none o = o
or_else (some t) o = some t

unfoldable pub bearer : Text → Option Text
unfolding strip_prefix
bearer header =
    or_else (strip_prefix (text "Bearer ") header) (strip_prefix (text "bearer ") header)

-- `AuthUser::from_request_parts`, from a header that is text.
unfoldable pub auth_user : (header : Option Text) → M AuthUser
unfolding bearer
auth_user header = do
  value ← or_fail header unauthorized
  token ← or_fail (bearer value) unauthorized
  claims ← verify token TokenKind.access
  pure (record { id = claims.sub; role = claims.role })

-- `AdminUser::from_request_parts`
unfoldable pub admin : (header : Option Text) → M AuthUser
unfolding auth_user
admin header = do user ← auth_user header; admin_user user; pure user
