-- ===== src/Handlers/Files/Downloads.antt =====
-- handlers/files.rs: what an upload stores, and who may download it.
use rsmc_engine.Base.{
  ℕ, ◌≡◌, refl, subst, Bool, true, false, ◌&&◌, ◌||◌, ◌==◌, eq→==, sym, Option, none, some, List,
  [], ◌∷◌, ◌++◌, Text, Bytes, text_eq_refl, find, any, ltb, length, arith, Bool-cases, Option-cases,
  inl, inr,
}
use rsmc_engine.Error.{Result, ok, err}
use rsmc_engine.Models.{Attachment}
use rsmc_engine.Db.{Db, user_exists}
use rsmc_engine.App.{
  Env, World, NoFaults, Refuses, first-Refuses, lookup-Refuses, fail-Refuses, never-Refuses, ◌>>=◌,
  asks, new_v4, now, query, execute, answer, read_file, write_file, remove_file, content_of,
}
use rsmc_engine.Services.Access.{AuthUser}
use rsmc_engine.Services.Access.Denials.{is_member, require_member-Refuses}
use rsmc_engine.Handlers.Files.{
  Field, UploadResponse, Download, store_file, capped, insert_attachment, new_attachment, download,
  may_read, shared_with, by_attachment, disposition, file_name_of, content_type_of,
}

-- What the API promises: the uploader, and the members of the channel that the file is in.
abbrev pub may_download : (user_id : ℕ) → Option Attachment → Db → Bool
may_download u none d = false
may_download u (some a) d =
    a.uploader_id == u || elim a.channel_id [ none ↦ false | some c ↦ is_member c u d ]

shared_with-Refuses :
    {P : Db → Type 0} (u : ℕ) (c : Option ℕ)
    → ((d : Db) → P d → elim c [ none ↦ false | some i ↦ is_member i u d ] ≡ false)
    → Refuses P (shared_with u c)
unfolding shared_with
shared_with-Refuses u none h = fail-Refuses _
shared_with-Refuses u (some c) h = first-Refuses _ (require_member-Refuses c u h)

may_read-Refuses :
    {P : Db → Type 0} (u : ℕ) (a : Attachment)
    → ((d : Db) → P d → may_download u (some a) d ≡ false)
    → Refuses P (may_read u a)
unfolding may_read
may_read-Refuses u a h = elim (Bool-cases (a.uploader_id == u)) [
  | inl own ↦ rw own (never-Refuses (λ d p. ground (arith, own, h d p)))
  | inr other ↦ rw other (shared_with-Refuses u a.channel_id (λ d p. ground (arith, other, h d p)))
]

-- A file is refused, and nothing changes, to everyone but its uploader and the members of the channel
-- that it was shared in; a file that is not there is refused to everyone.
pub download-Refuses :
    (user : AuthUser) (id : ℕ)
    → Refuses
        (λ d. may_download user.id (find (by_attachment id) d.attachments) d ≡ false)
        (download user id)
unfolding download
download-Refuses user id =
    lookup-Refuses (λ d. find (by_attachment id) d.attachments) _ _
      λ a. first-Refuses _ (
        may_read-Refuses user.id a
          (λ d (p, found). subst (λ o. may_download user.id o d ≡ false) found p))

find-append :
    (id : ℕ) (a : Attachment) (xs : List Attachment)
    → a.id ≡ id
    → any (by_attachment id) xs ≡ false
    → find (by_attachment id) (xs ++ a ∷ []) ≡ some a
find-append id a [] own h = ground (arith, own)
find-append id a (x ∷ xs) own h = ground (arith, h, find-append id a xs own)

-- The row and the file of an upload.
record HoldsFile (user_id : ℕ) (name kind : Option Text) (bytes : Bytes) (id : ℕ)
    (attachments : List Attachment) (disk : List (Text × Bytes)) : Type 0 where
  row : Attachment
  found : find (by_attachment id) attachments ≡ some row
  uploader : row.uploader_id ≡ user_id
  stored : content_of row.storage_path disk ≡ some bytes
  name_kept : row.filename ≡ file_name_of name
  type_kept : row.content_type ≡ content_type_of kind

abbrev Holds : (user_id : ℕ) → Field → Result UploadResponse × World → Type 0
Holds u field (ok resp, w) =
    (bytes : Bytes) × (field.bytes ≡ some bytes)
    × HoldsFile u field.file_name field.content_type bytes resp.id w.db.attachments w.disk
Holds u field (err x, w) = Unit

held :
    (u : ℕ) (called kind : Option Text) (bytes : Bytes) (id : ℕ) (name : Text) (at : ℕ)
    (attachments : List Attachment) (files : List (Text × Bytes))
    → any (by_attachment id) attachments ≡ false
    → HoldsFile u called kind bytes id
        (attachments ++ new_attachment u called kind bytes id name at ∷ [])
        ((name, bytes) ∷ files)
held u called kind bytes id name at attachments files fresh = record {
  row = new_attachment u called kind bytes id name at;
  found = find-append id (new_attachment u called kind bytes id name at) attachments refl fresh;
  uploader = refl;
  stored = rw (text_eq_refl name) refl;
  name_kept = refl;
  type_kept = refl;
}

store_file-Holds :
    (u : ℕ) (field : Field) (e : Env) (w : World) → Holds u field (store_file u field e w)
unfolding store_file capped insert_attachment ◌>>=◌ asks new_v4 now execute answer write_file
    remove_file
store_file-Holds u field e w =
    let id = e.new_v4 w.draws in
    let name = e.storage.uuid_text id in
    elim (Bool-cases (e.storage.can_create name)) [
      | inr bad ↦ rw bad tt
      | inl created ↦ rw created (elim (Option-cases field.bytes) [
        | inl lost ↦ rw lost tt
        | inr (bytes, read) ↦
            rw read (elim (Bool-cases (ltb e.storage.max_file_bytes (length bytes))) [
              | inl large ↦ rw large tt
              | inr small ↦ rw small (elim (Bool-cases (e.storage.can_write name)) [
                | inr bad ↦ rw bad tt
                | inl written ↦ rw written (elim (Bool-cases (e.fault w.stmts)) [
                  | inl fault ↦ rw fault tt
                  | inr there ↦
                      rw there (elim (Bool-cases (any (by_attachment id) w.db.attachments)) [
                        | inl taken ↦ rw taken tt
                        | inr fresh ↦ rw fresh (elim (Bool-cases (user_exists u w.db)) [
                          | inr gone ↦ rw gone tt
                          | inl known ↦ rw known (
                            bytes,
                            refl,
                            held u field.file_name field.content_type bytes id name
                                (e.clock w.ticks) w.db.attachments _ fresh,
                          )
                        ])
                      ])
                ])
              ])
            ])
      ])
    ]

abbrev served : Attachment → Bytes → Download
served a bytes = record {
  content_type = a.content_type;
  content_disposition = disposition a.filename;
  body = bytes;
}

download_own :
    (user : AuthUser) (id : ℕ) (a : Attachment) (bytes : Bytes) (e : Env) (w : World)
    → NoFaults e
    → find (by_attachment id) w.db.attachments ≡ some a
    → a.uploader_id ≡ user.id
    → content_of a.storage_path w.disk ≡ some bytes
    → e.storage.is_header a.content_type && e.storage.is_header (disposition a.filename) ≡ true
    → (download user id e w).0 ≡ ok (served a bytes)
unfolding download may_read ◌>>=◌ asks query execute answer read_file
download_own user id a bytes e w faultless found own stored fits =
    rw (faultless w.stmts, found, eq→== a.uploader_id user.id own, stored, fits) refl

-- What an upload stored, its uploader downloads: when the upload of a part succeeded, no statement
-- is lost and its type and name may stand in a header, the download answers with the bytes of the
-- part, its type, and its name sanitized.
pub upload-download :
    (user : AuthUser) (field : Field) (e : Env) (w w' : World) (resp : UploadResponse)
    → store_file user.id field e w ≡ (ok resp, w')
    → NoFaults e
    → (e.storage.is_header (content_type_of field.content_type)
        && e.storage.is_header (disposition (file_name_of field.file_name)))
      ≡ true
    → (bytes : Bytes) × (field.bytes ≡ some bytes)
      × ((download user resp.id e w').0
          ≡ ok (record {
            content_type = content_type_of field.content_type;
            content_disposition = disposition (file_name_of field.file_name);
            body = bytes;
          }))
upload-download user field e w w' resp succeeded faultless fits =
    let (bytes, read, h) =
      subst (Holds user.id field) succeeded (store_file-Holds user.id field e w) in
    (
      bytes,
      read,
      rw (sym h.name_kept, sym h.type_kept)
          (download_own user resp.id h.row bytes e w' faultless h.found h.uploader h.stored
            (rw (h.name_kept, h.type_kept) fits)),
    )
