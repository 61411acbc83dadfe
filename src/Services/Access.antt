-- ===== src/Services/Access.antt =====
-- middleware/auth.rs and services/access.rs: the authenticated principal, system permissions and
-- channel membership.
pub mod Denials
pub mod Frames
use rsmc_engine.Base.{ℕ, Bool, true, false, not, ◌&&◌, Option, none, some, ◌==◌, find}
use rsmc_engine.Error.{forbidden}
use rsmc_engine.Models.{UserRole, Permission, can, MemberRole, ChannelMember}
use rsmc_engine.Db.{Db}
use rsmc_engine.App.{M, pure, fail, ◌>>=◌, fail_if, or_fail, query}

pub record AuthUser : Type 0 where
  pub id : ℕ
  pub role : UserRole

-- `AuthUser::require`
unfoldable pub require : AuthUser → Permission → M (Unit {0})
require user perm = fail_if (not (can user.role perm)) (forbidden "insufficient permissions")

abbrev pub is_admin : UserRole → Bool
is_admin UserRole.admin = true
is_admin UserRole.member = false
is_admin UserRole.guest = false

-- `AdminUser::from_request_parts`, after the principal is known.
unfoldable pub admin_user : AuthUser → M (Unit {0})
admin_user user = fail_if (not (is_admin user.role)) (forbidden "admin role required")

abbrev pub is_row : (channel_id user_id : ℕ) → ChannelMember → Bool
is_row c u m = m.channel_id == c && m.user_id == u

-- SELECT role FROM channel_members WHERE channel_id = $1 AND user_id = $2
abbrev pub role_of : Option ChannelMember → Option MemberRole
role_of none = none
role_of (some m) = some m.role

abbrev pub member_role : (channel_id user_id : ℕ) → Db → Option MemberRole
member_role c u d = role_of (find (is_row c u) d.channel_members)

unfoldable pub require_member : (channel_id user_id : ℕ) → M MemberRole
require_member channel_id user_id = do
  role ← query (member_role channel_id user_id)
  or_fail role (forbidden "not a member of this channel")

abbrev pub admin_only : MemberRole → M (Unit {0})
admin_only MemberRole.owner = pure tt
admin_only MemberRole.admin = pure tt
admin_only MemberRole.member = fail (forbidden "requires channel admin privileges")

unfoldable pub require_channel_admin : (channel_id user_id : ℕ) → M (Unit {0})
unfolding require_member
require_channel_admin channel_id user_id = do
  role ← require_member channel_id user_id
  admin_only role
