-- ===== src/Server/Resources/Access.antt =====
-- handlers/{webhooks,app_links,files,system}.rs: who may do what with the workspace's resources.
use rsmc_engine.Base.{Bool, true, ◌&&◌, any, find}
use rsmc_engine.Db.{Db}
use rsmc_engine.Services.Access.{is_admin}
use rsmc_engine.Handlers.Webhooks.Guards.{may_hook}
use rsmc_engine.Handlers.Webhooks.{is_own}
use rsmc_engine.Handlers.Files.{by_attachment}
use rsmc_engine.Handlers.Files.Downloads.{may_download}
use rsmc_engine.Server.Resources.{ResourceCall}

-- What the API promises: webhooks of the whole instance, bookmarks, backups and restores are for
-- admins, a restore only confirmed; webhooks of a channel are for its managers, and only its owner
-- deletes a webhook; a file is for its uploader and for the members of the channel that it was shared
-- in. Uploads are open to everyone here, as in the code: that guests cannot upload, which
-- docs/INTEGRATION.md says, is checked nowhere.
unfoldable pub allowed_resource : ResourceCall → Db → Bool
allowed_resource (ResourceCall.register_hook user req) d = may_hook user req.channel_id d
allowed_resource (ResourceCall.remove_hook user id) d = any (is_own id user.id) d.webhooks
allowed_resource (ResourceCall.add_link user req) d = is_admin user.role
allowed_resource (ResourceCall.remove_link user id) d = is_admin user.role
allowed_resource (ResourceCall.get_file user id) d =
    may_download user.id (find (by_attachment id) d.attachments) d
allowed_resource (ResourceCall.make_backup t user path) d = is_admin user.role
allowed_resource (ResourceCall.restore_from t user req) d = is_admin user.role && req.confirm
allowed_resource (ResourceCall.all_backups user es) d = is_admin user.role
allowed_resource _ d = true
