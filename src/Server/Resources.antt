-- ===== src/Server/Resources.antt =====
-- lib.rs (`build_router`), the routes under /webhooks, /app-links, /files and /system: the calls on
-- what belongs to the workspace.
pub mod Access
pub mod Quiet
use rsmc_engine.Base.{ℕ, Bool, Option, List}
use rsmc_engine.Models.{CreateWebhookRequest, CreateAppLinkRequest}
use rsmc_engine.App.{Env, World}
use rsmc_engine.Services.Access.{AuthUser}
use rsmc_engine.Handlers.Webhooks.{create_webhook, list_webhooks, delete_webhook}
use rsmc_engine.Handlers.AppLinks.{list_app_links, create_app_link, delete_app_link}
use rsmc_engine.Handlers.Files.{Field, upload, download}
use rsmc_engine.Handlers.System.{Tools, RestoreRequest, BackupEntry, backup, restore, list_backups}
use rsmc_engine.Server.{outcome}

pub data ResourceCall : Type 0 where
  register_hook : AuthUser → CreateWebhookRequest → ResourceCall
  own_hooks : AuthUser → ResourceCall
  remove_hook : AuthUser → (webhook_id : ℕ) → ResourceCall
  all_links : AuthUser → ResourceCall
  add_link : AuthUser → CreateAppLinkRequest → ResourceCall
  remove_link : AuthUser → (link_id : ℕ) → ResourceCall
  put_file : AuthUser → List (Option Field) → ResourceCall
  get_file : AuthUser → (file_id : ℕ) → ResourceCall
  make_backup : Tools → AuthUser → (path : Option (List ℕ)) → ResourceCall
  restore_from : Tools → AuthUser → RestoreRequest → ResourceCall
  all_backups : AuthUser → Option (List (Option BackupEntry)) → ResourceCall

unfoldable pub serve_resource : ResourceCall → Env → World → Bool × World
serve_resource (ResourceCall.register_hook user req) e w = outcome (create_webhook user req e w)
serve_resource (ResourceCall.own_hooks user) e w = outcome (list_webhooks user e w)
serve_resource (ResourceCall.remove_hook user id) e w = outcome (delete_webhook user id e w)
serve_resource (ResourceCall.all_links user) e w = outcome (list_app_links user e w)
serve_resource (ResourceCall.add_link user req) e w = outcome (create_app_link user req e w)
serve_resource (ResourceCall.remove_link user id) e w = outcome (delete_app_link user id e w)
serve_resource (ResourceCall.put_file user parts) e w = outcome (upload user parts e w)
serve_resource (ResourceCall.get_file user id) e w = outcome (download user id e w)
serve_resource (ResourceCall.make_backup t user path) e w = outcome (backup t user path e w)
serve_resource (ResourceCall.restore_from t user req) e w = outcome (restore t user req e w)
serve_resource (ResourceCall.all_backups user es) e w = outcome (list_backups user es e w)
