-- ===== src/Tests/Resources.antt =====
-- Runs of the calls on webhooks, bookmarks, files, backups and settings, and the theorems at these
-- inputs.
use Prim.Native.Nat.{◌%◌}
use rsmc_engine.Base.{
  ◌≤◌, ◌≡◌, refl, false, Option, none, some, List, [], ◌∷◌, ◌++◌, Text, Bytes, text, arith, All,
  length, any, any,
}
use rsmc_engine.Error.{AppError, Result, ok, into_response}
use rsmc_engine.Error.Answers.{terse, into_response-Tells}
use rsmc_engine.Models.{
  Webhook, CreateWebhookRequest, CreateWebhookResponse, CreateAppLinkRequest, can,
}
use rsmc_engine.App.{World, is_err, of_id, ◌>>=◌, asks, query, execute, new_v4, now, write_file}
use rsmc_engine.Services.Access.{require_channel_admin}
use rsmc_engine.Services.Webhooks.{request, deliver}
use rsmc_engine.Services.Webhooks.Sha256.{sha256, fill, padded}
use rsmc_engine.Services.Webhooks.Hmac.{hex, mac, signature, to_hex}
use rsmc_engine.Services.Webhooks.Padding.{fill_ends, unpadded, unpadded-padded}
use rsmc_engine.Services.Webhooks.Hex.{IsHexDigit, from_hex, signature-mac}
use rsmc_engine.Services.Webhooks.Delivery.{Chosen, Wanted, posts, Sent, deliver-Sent}
use rsmc_engine.Handlers.Webhooks.{create_webhook}
use rsmc_engine.Handlers.Webhooks.Ownership.{Posted, create_webhook-deliver}
use rsmc_engine.Handlers.AppLinks.{create_app_link, delete_app_link}
use rsmc_engine.Handlers.AppLinks.Steps.{IsShelf, Added, Removed}
use rsmc_engine.Handlers.AppLinks.Shelf.{shown, app_links-refine}
use rsmc_engine.Handlers.Files.{
  Field, UploadResponse, store_file, download, sanitize_filename, disposition,
}
use rsmc_engine.Handlers.Files.Names.{is_dangerous, sanitize_filename-safe}
use rsmc_engine.Handlers.Files.Downloads.{upload-download}
use rsmc_engine.Handlers.System.{resolve_target, raw_name, has_dots}
use rsmc_engine.Handlers.System.Guards.{Resolved, resolve_target-Resolved}
use rsmc_engine.Config.{
  Settings, Override, load, default_settings, overrides, default_auth, default_database,
}
use rsmc_engine.Config.Origins.{IsSafe, load-IsSafe}
use rsmc_engine.Tests.Accounts.{answer_of, ok_of}
use rsmc_engine.Samples.{env, world, db, ada, bob}

-- The known vectors of the source's tests.
sha256_known_vector :
    to_hex (sha256 (text "abc"))
    ≡ text "ba7816bf8f01cfea414140de5dae2223b00361a396177a9cb410ff61f20015ad"
unfolding sha256 to_hex
sha256_known_vector = refl

hmac_known_vector :
    hex (text "Jefe") (text "what do ya want for nothing?")
    ≡ text "5bdcc146bf60754e6a042426089575c75a003f089d2739839dec58b964ec3843"
unfolding hex mac sha256
hmac_known_vector = refl

fill_ends_example :
    (length (fill 63 (text "abc")) % 64 ≡ 56) × (fill 64 (text "abc") ≡ fill 63 (text "abc"))
fill_ends_example = fill_ends 63 (text "abc") (omega arith)

unpadded-padded_example :
    (length (padded (text "abc")) % 64 ≡ 0) × (unpadded (padded (text "abc")) ≡ text "abc")
unpadded-padded_example = unpadded-padded (text "abc") (omega arith)

signature-mac_example :
    (signature (text "key") (text "{}") ≡ text "sha256=" ++ hex (text "key") (text "{}"))
    × (length (hex (text "key") (text "{}")) ≡ 64)
    × All IsHexDigit (hex (text "key") (text "{}"))
    × (from_hex (hex (text "key") (text "{}")) ≡ some (mac (text "key") (text "{}")))
signature-mac_example = signature-mac (text "key") (text "{}")

abbrev hook_request : CreateWebhookRequest
hook_request = record {
  target_url = text "https://x.org/hook";
  events = text "message.deleted" ∷ [];
  channel_id = some 10;
}

abbrev registered : Result CreateWebhookResponse × World
registered = create_webhook ada hook_request env world

registered_ok : is_err registered.0 ≡ false
unfolding create_webhook ◌>>=◌ asks can require_channel_admin query new_v4 now
registered_ok = refl

abbrev blank_hook : CreateWebhookResponse
blank_hook = record { id = 0; target_url = []; events = []; secret = [] }

create_webhook-deliver_example :
    (hook : Webhook) × (hook.target_url ≡ text "https://x.org/hook")
    × (hook.secret ≡ (answer_of blank_hook registered.0).secret)
    × Posted
        (deliver (some 10) (text "message.deleted") (of_id 10 100) env registered.1)
        (request (text "message.deleted") hook)
create_webhook-deliver_example =
    create_webhook-deliver ada hook_request env world registered.1
      (answer_of blank_hook registered.0) (some 10) (text "message.deleted") (of_id 10 100) env
      (text "message.deleted") (ok_of blank_hook registered registered_ok) (λ n. refl) refl refl
      refl

deliver-Sent_example :
    (hooks : List Webhook) × Chosen
      (Wanted (some 10) (text "message.deleted"))
      registered.1.db.webhooks
      hooks
    × Sent registered.1
        (posts (text "message.deleted") hooks)
        (deliver (some 10) (text "message.deleted") (of_id 10 100) env registered.1)
deliver-Sent_example =
    deliver-Sent env registered.1 (some 10) (text "message.deleted") (of_id 10 100)
      (text "message.deleted") (λ n. refl) refl

abbrev link_request : CreateAppLinkRequest
link_request = record { name = text " Wiki "; url = text "https://x.org" }

bare-IsShelf : IsShelf db
bare-IsShelf = record { few = omega arith; increasing = tt }

app_links-refine_example :
    (let (added, w) = create_app_link ada link_request env world in
      IsShelf w.db × Added link_request (shown world.db) (shown w.db) added)
    × (let (removed, w) = delete_app_link ada 7 env world in
        IsShelf w.db × Removed 7 (shown world.db) (shown w.db) removed)
app_links-refine_example = app_links-refine ada link_request 7 env world bare-IsShelf

into_response-Tells_example : into_response (AppError.internal "cannot create file") ≡ terse
into_response-Tells_example = into_response-Tells (AppError.internal "cannot create file")

sanitize_filename-safe_example :
    (any is_dangerous (sanitize_filename (text "../etc/passwd")) ≡ false)
    × (length (sanitize_filename (text "../etc/passwd")) ≤ 255)
    × (sanitize_filename (sanitize_filename (text "../etc/passwd"))
        ≡ sanitize_filename (text "../etc/passwd"))
sanitize_filename-safe_example = sanitize_filename-safe (text "../etc/passwd")

sanitized : sanitize_filename (text "../etc/passwd") ≡ text "passwd"
unfolding sanitize_filename
sanitized = refl

abbrev photo : Field
photo = record {
  name = some (text "file");
  file_name = some (text "a/b.png");
  content_type = some (text "image/png");
  bytes = some (1 ∷ 2 ∷ 3 ∷ []);
}

abbrev uploaded : Result UploadResponse × World
uploaded = store_file bob.id photo env world

uploaded_ok : is_err uploaded.0 ≡ false
unfolding store_file ◌>>=◌ new_v4 asks write_file now execute
uploaded_ok = refl

abbrev blank_upload : UploadResponse
blank_upload = record { id = 0; filename = []; content_type = []; size_bytes = 0; url = [] }

upload-download_example :
    (bytes : Bytes) × (some (1 ∷ 2 ∷ 3 ∷ []) ≡ some bytes)
    × ((download bob (answer_of blank_upload uploaded.0).id env uploaded.1).0
        ≡ ok (record {
          content_type = text "image/png";
          content_disposition = disposition (sanitize_filename (text "a/b.png"));
          body = bytes;
        }))
upload-download_example =
    upload-download bob photo env world uploaded.1 (answer_of blank_upload uploaded.0)
      (ok_of blank_upload uploaded uploaded_ok) (λ n. refl) refl

resolve_target-Resolved_example :
    Resolved
      (text "/app/backups")
      (text "rsmc-20250101-000000.dump")
      (text "/app/backups/rsmc-20250101-000000.dump")
unfolding resolve_target raw_name has_dots
resolve_target-Resolved_example =
    resolve_target-Resolved (text "/app/backups") (text "20250101-000000") none
      (text "/app/backups/rsmc-20250101-000000.dump") refl refl refl refl

abbrev settings : Settings
settings = record default_settings {
  auth = record default_auth { jwt_secret = text "0123456789abcdef" };
  database = record default_database { url = text "postgres://db" };
}

abbrev no_vars : Text → Option Text
no_vars name = none

abbrev fixed : List Override → Option Settings
fixed os = some settings

load-IsSafe_example : (fixed (overrides no_vars) ≡ some settings) × IsSafe settings
unfolding load
load-IsSafe_example = load-IsSafe no_vars fixed settings refl
