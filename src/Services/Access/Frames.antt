-- ===== src/Services/Access/Frames.antt =====
-- services/access.rs: the guards keep every property of the tables.
use rsmc_engine.Base.{ℕ}
use rsmc_engine.Models.{Permission, MemberRole}
use rsmc_engine.Db.{Db}
use rsmc_engine.App.{Keeps, keeping}
use rsmc_engine.Services.Access.{
  AuthUser, require, admin_user, require_member, require_channel_admin, admin_only,
}

module _ {P : Db → Type 0} where
  pub require-Keeps : (u : AuthUser) (p : Permission) → Keeps P (require u p)
  unfolding require
  require-Keeps u p = search keeping

  pub admin_user-Keeps : (u : AuthUser) → Keeps P (admin_user u)
  unfolding admin_user
  admin_user-Keeps u = search keeping

  pub require_member-Keeps : (c u : ℕ) → Keeps P (require_member c u)
  unfolding require_member
  require_member-Keeps c u = search keeping

  admin_only-Keeps : (r : MemberRole) → Keeps P (admin_only r)
  admin_only-Keeps MemberRole.owner = search keeping
  admin_only-Keeps MemberRole.admin = search keeping
  admin_only-Keeps MemberRole.member = search keeping

  pub require_channel_admin-Keeps : (c u : ℕ) → Keeps P (require_channel_admin c u)
  unfolding require_channel_admin
  require_channel_admin-Keeps c u = search (keeping, require_member-Keeps, admin_only-Keeps)
