-- ===== src/Server/Accounts/Admins.antt =====
-- handlers/users.rs: what only an admin may do.
use rsmc_engine.Base.{Bool, true, not, ◌&&◌, ◌==◌}
use rsmc_engine.Services.Access.{is_admin}
use rsmc_engine.Server.Accounts.{AccountCall}

-- What the API promises: only an admin assigns roles, disables and enables accounts, and nobody
-- disables their own.
unfoldable pub allowed_account : AccountCall → Bool
allowed_account (AccountCall.assign_role a u r) = is_admin a.role
allowed_account (AccountCall.disable a u) = is_admin a.role && not (a.id == u)
allowed_account (AccountCall.enable a u) = is_admin a.role
allowed_account _ = true
