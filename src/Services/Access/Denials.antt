-- ===== src/Services/Access/Denials.antt =====
-- services/access.rs: whom the channel guards turn away.
use rsmc_engine.Base.{ℕ, ◌≡◌, Bool, true, false, none, some, is_some, arith}
use rsmc_engine.Models.{MemberRole}
use rsmc_engine.Db.{Db}
use rsmc_engine.App.{
  Refuses, query-Refuses, or_fail-none-Refuses, lookup-Refuses, never-Refuses, fail-Refuses,
}
use rsmc_engine.Services.Access.{member_role, require_member, require_channel_admin, admin_only}

abbrev pub is_member : (channel_id user_id : ℕ) → Db → Bool
is_member c u d = is_some (member_role c u d)

abbrev pub manages : MemberRole → Bool
manages MemberRole.owner = true
manages MemberRole.admin = true
manages MemberRole.member = false

abbrev pub is_manager : (channel_id user_id : ℕ) → Db → Bool
is_manager c u d = elim (member_role c u d) [ none ↦ false | some r ↦ manages r ]

pub require_member-Refuses :
    {P : Db → Type 0} (c u : ℕ)
    → ((d : Db) → P d → is_member c u d ≡ false)
    → Refuses P (require_member c u)
unfolding require_member
require_member-Refuses c u h =
    query-Refuses (member_role c u)
      λ r. or_fail-none-Refuses r _ (λ d p. ground (arith, h d p.0, p.1))

admin_only-Refuses :
    {P : Db → Type 0} (r : MemberRole)
    → ((d : Db) → P d → manages r ≡ false)
    → Refuses P (admin_only r)
admin_only-Refuses MemberRole.owner h = never-Refuses (λ d p. ground (arith, h d p))
admin_only-Refuses MemberRole.admin h = never-Refuses (λ d p. ground (arith, h d p))
admin_only-Refuses MemberRole.member h = fail-Refuses _

pub require_channel_admin-Refuses :
    {P : Db → Type 0} (c u : ℕ)
    → ((d : Db) → P d → is_manager c u d ≡ false)
    → Refuses P (require_channel_admin c u)
unfolding require_channel_admin require_member
require_channel_admin-Refuses c u h =
    lookup-Refuses (member_role c u) _ admin_only
      λ r. admin_only-Refuses r (λ d p. ground (arith, h d p.0, p.1))
