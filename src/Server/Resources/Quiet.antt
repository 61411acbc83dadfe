-- ===== src/Server/Resources/Quiet.antt =====
-- handlers/{webhooks,app_links,files,system}.rs: no call on the workspace's resources changes the hub.
use rsmc_engine.Base.{
  ℕ, Bool, true, false, if◌then◌else◌, Text, Bytes, Option, none, some, List, [], ◌∷◌, arith, ◌≡◌,
  refl, Option-cases, inl, inr,
}
use rsmc_engine.Models.{CreateWebhookRequest, CreateAppLinkRequest}
use rsmc_engine.Error.{Result, ok, err}
use rsmc_engine.App.{
  M, Env, World, Quiet, quietly, bind-Quiet, pure-Quiet, fail-Quiet, read_file, write_file,
  remove_file,
}
use rsmc_engine.Services.Access.{AuthUser}
use rsmc_engine.Handlers.Webhooks.{
  generate_secret, may_register, administers, store_webhook, create_webhook, list_webhooks,
  delete_webhook,
}
use rsmc_engine.Handlers.AppLinks.{list_app_links, store_link, create_app_link, delete_app_link}
use rsmc_engine.Handlers.Files.{
  Field, capped, store_file, first_file, upload, shared_with, may_read, download,
}
use rsmc_engine.Handlers.System.{
  Tools, RestoreRequest, BackupEntry, lifted, backup, replace_db, restore, list_backups,
}
use rsmc_engine.Server.Frames.{require_member-Quiet, require_channel_admin-Quiet}
use rsmc_engine.Server.Accounts.Quiet.{admin_user-Quiet}
use rsmc_engine.Server.Resources.{ResourceCall, serve_resource}

generate_secret-Quiet : Quiet generate_secret
unfolding generate_secret
generate_secret-Quiet = record { run = λ e w. (refl, omega arith) }

administers-Quiet : (user : AuthUser) (c : Option ℕ) → Quiet (administers user c)
unfolding administers
administers-Quiet user none = pure-Quiet tt
administers-Quiet user (some c) = require_channel_admin-Quiet c user.id

store_webhook-Quiet :
    (user : AuthUser) (req : CreateWebhookRequest) → Quiet (store_webhook user req)
unfolding store_webhook
store_webhook-Quiet user req = search (quietly, generate_secret-Quiet)

create_webhook-Quiet :
    (user : AuthUser) (req : CreateWebhookRequest) → Quiet (create_webhook user req)
unfolding create_webhook may_register
create_webhook-Quiet user req = search (quietly, administers-Quiet, store_webhook-Quiet)

list_webhooks-Quiet : (user : AuthUser) → Quiet (list_webhooks user)
unfolding list_webhooks
list_webhooks-Quiet user = search quietly

delete_webhook-Quiet : (user : AuthUser) (id : ℕ) → Quiet (delete_webhook user id)
unfolding delete_webhook
delete_webhook-Quiet user id = search quietly

list_app_links-Quiet : (user : AuthUser) → Quiet (list_app_links user)
unfolding list_app_links
list_app_links-Quiet user = search quietly

store_link-Quiet : (req : CreateAppLinkRequest) → Quiet (store_link req)
unfolding store_link
store_link-Quiet req = search quietly

create_app_link-Quiet : (a : AuthUser) (req : CreateAppLinkRequest) → Quiet (create_app_link a req)
unfolding create_app_link
create_app_link-Quiet a req = search (quietly, admin_user-Quiet, store_link-Quiet) depth 12

delete_app_link-Quiet : (a : AuthUser) (id : ℕ) → Quiet (delete_app_link a id)
unfolding delete_app_link
delete_app_link-Quiet a id = search (quietly, admin_user-Quiet)

read_file-Quiet : (name : Text) → Quiet (read_file name)
unfolding read_file
read_file-Quiet name = record { run = λ e w. (refl, omega arith) }

write_file-Quiet : (name : Text) (bytes : Bytes) → Quiet (write_file name bytes)
unfolding write_file
write_file-Quiet name bytes = record { run = λ e w. (refl, omega arith) }

remove_file-Quiet : (name : Text) → Quiet (remove_file name)
unfolding remove_file
remove_file-Quiet name = record { run = λ e w. (refl, omega arith) }

if-Quiet : {A : Type 0} (b : Bool) {m n : M A} → Quiet m → Quiet n → Quiet (if b then m else n)
if-Quiet true h k = h
if-Quiet false h k = k

capped-Quiet : (name : Text) (max : ℕ) (bytes : Bytes) → Quiet (capped name max bytes)
unfolding capped
capped-Quiet name max bytes =
    if-Quiet _ (bind-Quiet (remove_file-Quiet name) λ _. fail-Quiet _) (pure-Quiet tt)

store_file-Quiet : (u : ℕ) (field : Field) → Quiet (store_file u field)
unfolding store_file
store_file-Quiet u field = search (quietly, write_file-Quiet, capped-Quiet) depth 20

first_file-Quiet : (u : ℕ) (parts : List (Option Field)) → Quiet (first_file u parts)
unfolding first_file
first_file-Quiet u [] = fail-Quiet _
first_file-Quiet u (none ∷ parts) = fail-Quiet _
first_file-Quiet u (some field ∷ parts) =
    if-Quiet _ (store_file-Quiet u field) (first_file-Quiet u parts)

upload-Quiet : (user : AuthUser) (parts : List (Option Field)) → Quiet (upload user parts)
unfolding upload
upload-Quiet user parts = search (quietly, first_file-Quiet)

shared_with-Quiet : (u : ℕ) (c : Option ℕ) → Quiet (shared_with u c)
unfolding shared_with
shared_with-Quiet u none = fail-Quiet _
shared_with-Quiet u (some c) = search (quietly, require_member-Quiet)

download-Quiet : (user : AuthUser) (id : ℕ) → Quiet (download user id)
unfolding download may_read
download-Quiet user id = search (quietly, if-Quiet, shared_with-Quiet, read_file-Quiet) depth 16

lifted-Quiet : {A : Type 0} (r : Result A) → Quiet (lifted r)
lifted-Quiet (ok a) = pure-Quiet a
lifted-Quiet (err x) = fail-Quiet x

backup-Quiet : (t : Tools) (user : AuthUser) (path : Option Text) → Quiet (backup t user path)
unfolding backup
backup-Quiet t user path = search (quietly, admin_user-Quiet, lifted-Quiet) depth 12

replace_db-Quiet : (t : Tools) (path : Text) → Quiet (replace_db t path)
unfolding replace_db
replace_db-Quiet t path = record {
  run = λ e w. elim (Option-cases (t.pg_restore path w.db)) [
    | inl lost ↦ rw (replace_db, lost) (refl, omega arith)
    | inr (d, made) ↦ rw (replace_db, made) (refl, omega arith)
  ];
}

restore-Quiet : (t : Tools) (user : AuthUser) (req : RestoreRequest) → Quiet (restore t user req)
unfolding restore
restore-Quiet t user req = search (quietly, admin_user-Quiet, replace_db-Quiet) depth 12

list_backups-Quiet :
    (user : AuthUser) (es : Option (List (Option BackupEntry))) → Quiet (list_backups user es)
unfolding list_backups
list_backups-Quiet user none = search (quietly, admin_user-Quiet)
list_backups-Quiet user (some es) = search (quietly, admin_user-Quiet)

pub serve_resource-hub :
    (c : ResourceCall) (e : Env) (w : World) → (serve_resource c e w).1.hub ≡ w.hub
unfolding serve_resource
serve_resource-hub (ResourceCall.register_hook user req) e w =
    ((create_webhook-Quiet user req).run e w).0
serve_resource-hub (ResourceCall.own_hooks user) e w = ((list_webhooks-Quiet user).run e w).0
serve_resource-hub (ResourceCall.remove_hook user id) e w =
    ((delete_webhook-Quiet user id).run e w).0
serve_resource-hub (ResourceCall.all_links user) e w = ((list_app_links-Quiet user).run e w).0
serve_resource-hub (ResourceCall.add_link user req) e w =
    ((create_app_link-Quiet user req).run e w).0
serve_resource-hub (ResourceCall.remove_link user id) e w =
    ((delete_app_link-Quiet user id).run e w).0
serve_resource-hub (ResourceCall.put_file user parts) e w = ((upload-Quiet user parts).run e w).0
serve_resource-hub (ResourceCall.get_file user id) e w = ((download-Quiet user id).run e w).0
serve_resource-hub (ResourceCall.make_backup t user path) e w =
    ((backup-Quiet t user path).run e w).0
serve_resource-hub (ResourceCall.restore_from t user req) e w =
    ((restore-Quiet t user req).run e w).0
serve_resource-hub (ResourceCall.all_backups user es) e w = ((list_backups-Quiet user es).run e w).0
