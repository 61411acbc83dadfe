-- ===== src/Handlers/Files.antt =====
-- handlers/files.rs: uploads and downloads, with the access rule of the channels.
pub mod Names
pub mod Downloads
use rsmc_engine.Base.{
  ℕ, Bool, true, false, not, ◌&&◌, ◌||◌, Option, none, some, List, [], ◌∷◌, ◌++◌, Text, text, Bytes,
  ◌==◌, ltb, leb, if◌then◌else◌, find, any, take, length, select, text_eq,
}
use rsmc_engine.Error.{AppError, bad_request, not_found, forbidden, internal, unique_violation}
use rsmc_engine.Models.{Attachment}
use rsmc_engine.Db.{Db, Sql, rows, fails, user_exists, references}
use rsmc_engine.App.{
  M, Env, World, Storage, pure, fail, ◌>>=◌, ◌>>◌, or_fail, fail_if, asks, new_v4, now, query,
  execute, read_file, write_file, remove_file,
}
use rsmc_engine.Services.Access.{AuthUser, require_member}

-- `rsplit(['/', '\\']).next()`: what follows the last separator.
unfoldable pub base_name : Text → Text
base_name [] = []
base_name (c ∷ s) = if any is_separator s then base_name s else if is_separator c then s else c ∷ s
  where
    is_separator : ℕ → Bool
    is_separator c' = c' == b'/' || c' == b'\\'

-- Strip path components and control characters, and cut at 255 characters.
unfoldable pub sanitize_filename : Text → Text
unfolding base_name
sanitize_filename name = take 255 (select (λ c. not (leb c 0x1f)) (base_name name))

-- A part of a multipart body, with what could not be read of it as none.
pub record Field : Type 0 where
  pub name : Option Text
  pub file_name : Option Text
  pub content_type : Option Text
  pub bytes : Option Bytes

pub record UploadResponse : Type 0 where
  pub id : ℕ
  pub filename : Text
  pub content_type : Text
  pub size_bytes : ℕ
  pub url : Text

abbrev pub file_name_of : Option Text → Text
file_name_of none = text "upload.bin"
file_name_of (some name) = sanitize_filename name

abbrev pub content_type_of : Option Text → Text
content_type_of none = text "application/octet-stream"
content_type_of (some t) = t

-- INSERT INTO attachments
unfoldable pub insert_attachment : Attachment → Db → Sql Attachment
insert_attachment a d =
    if any (λ x. x.id == a.id) d.attachments
    then fails unique_violation
    else references (user_exists a.uploader_id d)
        (rows a (record d { attachments = d.attachments ++ a ∷ [] }))

-- The file's content, unless it exceeds the cap: then the file is removed again.
unfoldable pub capped : (storage_name : Text) → (max : ℕ) → Bytes → M (Unit {0})
capped storage_name max bytes =
    if ltb max (length bytes)
    then remove_file storage_name >> fail (bad_request "file exceeds maximum size")
    else pure tt

abbrev pub new_attachment :
    (user_id : ℕ)
    → (name kind : Option Text) → Bytes
    → (id : ℕ) → (storage_name : Text) → (at : ℕ) → Attachment
new_attachment user_id name kind bytes id storage_name at = record {
  id = id;
  uploader_id = user_id;
  channel_id = none;
  filename = file_name_of name;
  content_type = content_type_of kind;
  size_bytes = length bytes;
  storage_path = storage_name;
  created_at = at;
}

unfoldable pub store_file : (user_id : ℕ) → Field → M UploadResponse
unfolding capped insert_attachment
store_file user_id field = do
  id ← new_v4
  storage_name ← asks (λ e. e.storage.uuid_text id)
  created ← asks (λ e. e.storage.can_create storage_name)
  fail_if (not created) (internal "cannot create file")
  write_file storage_name []
  bytes ← or_fail field.bytes (bad_request "multipart")
  max ← asks (λ e. e.storage.max_file_bytes)
  capped storage_name max bytes
  writable ← asks (λ e. e.storage.can_write storage_name)
  fail_if (not writable) (internal "write failed")
  write_file storage_name bytes
  at ← now
  attachment ← execute (
      insert_attachment
        (new_attachment user_id field.file_name field.content_type bytes id storage_name at))
  shown ← asks (λ e. e.storage.uuid_text attachment.id)
  pure (record {
    id = attachment.id;
    filename = attachment.filename;
    content_type = attachment.content_type;
    size_bytes = attachment.size_bytes;
    url = text "/api/v1/files/" ++ shown;
  })

abbrev is_file : Option Text → Bool
is_file none = false
is_file (some name) = text_eq name (text "file")

-- The first part that is named `file`; a part that cannot be read is none.
unfoldable pub first_file : (user_id : ℕ) → List (Option Field) → M UploadResponse
unfolding store_file
first_file user_id [] = fail (bad_request "no 'file' field in upload")
first_file user_id (none ∷ parts) = fail (bad_request "multipart")
first_file user_id (some field ∷ parts) =
    let rest = first_file user_id parts in
    if is_file field.name then store_file user_id field else rest

unfoldable pub upload : AuthUser → List (Option Field) → M UploadResponse
unfolding first_file
upload user parts = do
  ready ← asks (λ e. e.storage.dir_ready)
  fail_if (not ready) (internal "cannot create upload dir")
  first_file user.id parts

pub record Download : Type 0 where
  pub content_type : Text
  pub content_disposition : Text
  pub body : Bytes

-- Someone who is not the uploader must be a member of the channel of the file.
unfoldable pub shared_with : (user_id : ℕ) → Option ℕ → M (Unit {0})
shared_with user_id none = fail (forbidden "file is not shared")
shared_with user_id (some c) = require_member c user_id >> pure tt

unfoldable pub may_read : (user_id : ℕ) → Attachment → M (Unit {0})
unfolding shared_with
may_read user_id a = if a.uploader_id == user_id then pure tt else shared_with user_id a.channel_id

abbrev pub disposition : (filename : Text) → Text
disposition filename = text "attachment; filename=\"" ++ filename ++ text "\""

abbrev pub by_attachment : ℕ → Attachment → Bool
by_attachment id a = a.id == id

unfoldable pub download : AuthUser → (id : ℕ) → M Download
unfolding may_read
download user id = do
  attachment ←
      query (λ d. find (by_attachment id) d.attachments) >>= λ o. or_fail o (not_found "file")
  may_read user.id attachment
  content ← read_file attachment.storage_path
  bytes ← or_fail content (not_found "file content")
  fits ← asks (λ e.
      e.storage.is_header attachment.content_type
      && e.storage.is_header (disposition attachment.filename))
  fail_if (not fits) (internal "header")
  pure (record {
    content_type = attachment.content_type;
    content_disposition = disposition attachment.filename;
    body = bytes;
  })
