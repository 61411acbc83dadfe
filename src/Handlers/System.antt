-- ===== src/Handlers/System.antt =====
-- handlers/system.rs: backups and restores. Paths are texts, compared as std::path does on Unix.
pub mod Paths
pub mod Guards
use rsmc_engine.Base.{
  ℕ, Bool, true, false, not, ◌&&◌, ◌||◌, Option, none, some, List, [], ◌∷◌, ◌++◌, map, Text, text,
  text_eq, ◌==◌, if◌then◌else◌, any, select, order_by, trim, is_some, text_lt,
}
use rsmc_engine.Error.{AppError, bad_request, not_found, internal, operation, Result, ok, err}
use rsmc_engine.Db.{Db}
use rsmc_engine.App.{M, Env, World, pure, fail, ◌>>=◌, ◌>>◌, fail_if, or_fail, asks}
use rsmc_engine.Services.Access.{AuthUser, admin_user}

-- `APP__STORAGE__BACKUP_DIR`, `BACKUP_DIR`, or the default.
unfoldable pub backup_dir : (vars : Text → Option Text) → Text
backup_dir vars = elim (vars (text "APP__STORAGE__BACKUP_DIR")) [
  | some dir ↦ dir
  | none ↦ elim (vars (text "BACKUP_DIR")) [ some dir ↦ dir | none ↦ text "/app/backups" ]
]

abbrev pub has_slash : Text → Bool
has_slash s = any (λ c. c == b'/') s

-- `raw.contains("..")`
unfoldable pub has_dots : Text → Bool
has_dots [] = false
has_dots (c ∷ []) = false
has_dots (c ∷ d ∷ s) = (c == b'.' && d == b'.') || has_dots (d ∷ s)

-- `Path::is_absolute`
abbrev pub is_absolute : Text → Bool
is_absolute [] = false
is_absolute (c ∷ s) = c == b'/'

abbrev pub longer : ℕ → List Text → List Text
longer c [] = (c ∷ []) ∷ []
longer c (p ∷ ps) = (c ∷ p) ∷ ps

unfoldable pub split_slashes : Text → List Text
split_slashes [] = [] ∷ []
split_slashes (c ∷ s) = let rest = split_slashes s in if c == b'/' then [] ∷ rest else longer c rest

-- A component that is not dropped: neither empty nor a dot.
abbrev pub is_component : Text → Bool
is_component p = not (text_eq p [] || text_eq p (text "."))

-- `Path::components`: the root, or a dot at the start, and the names.
unfoldable pub components : Text → List Text
unfolding split_slashes
components s =
    let names = select is_component (split_slashes s) in
    if is_absolute s then text "/" ∷ names else leading (split_slashes s) names
  where
    leading : List Text → List Text → List Text
    leading [] names = names
    leading (p ∷ ps) names = if text_eq p (text ".") then p ∷ names else names

unfoldable pub is_prefix : List Text → List Text → Bool
is_prefix [] ys = true
is_prefix (x ∷ xs) [] = false
is_prefix (x ∷ xs) (y ∷ ys) = text_eq x y && is_prefix xs ys

-- `candidate.starts_with(&dir)`
unfoldable pub starts_with : (candidate dir : Text) → Bool
unfolding components is_prefix
starts_with candidate dir = is_prefix (components dir) (components candidate)

abbrev pub ends_in_slash : Text → Bool
ends_in_slash [] = true
ends_in_slash (c ∷ []) = c == b'/'
ends_in_slash (c ∷ d ∷ s) = ends_in_slash (d ∷ s)

-- `dir.join(&raw)`
unfoldable pub join : (dir raw : Text) → Text
join dir raw =
    if is_absolute raw
    then raw
    else if ends_in_slash dir
    then dir ++ raw
    else dir ++ text "/" ++ raw

-- A name that is given and not blank, or the one of the time of day.
unfoldable pub raw_name : (stamp : Text) → Option Text → Text
raw_name stamp none = text "rsmc-" ++ stamp ++ text ".dump"
raw_name stamp (some s) = given (trim s)
  where
    given : Text → Text
    given [] = text "rsmc-" ++ stamp ++ text ".dump"
    given (c ∷ t) = c ∷ t

-- A bare name goes into the directory of the backups; an absolute path must lie in it.
unfoldable pub resolve_target : (dir stamp : Text) → Option Text → Result Text
unfolding has_dots starts_with join raw_name
resolve_target dir stamp input =
    let raw = raw_name stamp input in
    let candidate = if has_slash raw then raw else join dir raw in
    if has_dots raw
    then err (bad_request "path must not contain '..'")
    else if is_absolute candidate && not (starts_with candidate dir)
    then err (bad_request "path must be inside the backups directory")
    else ok candidate

-- The tools and files around the server: `none` is a program that did not start, or failed.
pub record Tools : Type 0 where
  pub vars : Text → Option Text
  pub stamp : Text
  pub make_parent : Text → Bool
  pub pg_dump : (target : Text) → Option (Unit {0})
  pub size_of : Text → Option ℕ
  pub pg_restore : (path : Text) → Db → Option Db

pub record BackupResponse : Type 0 where
  pub path : Text
  pub size_bytes : ℕ

abbrev pub lifted : {A : Type 0} → Result A → M A
lifted (ok a) = pure a
lifted (err x) = fail x

unfoldable pub backup : Tools → AuthUser → (path : Option Text) → M BackupResponse
unfolding resolve_target backup_dir
backup t admin path = do
  admin_user admin
  target ← lifted (resolve_target (backup_dir t.vars) t.stamp path)
  fail_if (not (t.make_parent target)) (internal "cannot create backup dir")
  or_fail (t.pg_dump target) (operation "pg_dump failed")
  size ← or_fail (t.size_of target) (internal "backup written but unreadable")
  pure (record { path = target; size_bytes = size })

-- `pg_restore --single-transaction`: the tables of the dump, or those of before.
unfoldable pub replace_db : Tools → (path : Text) → M (Unit {0})
replace_db t path e w = elim (t.pg_restore path w.db) [
  | none ↦ (err (operation "pg_restore failed"), w)
  | some d ↦ (ok tt, record w { db = d })
]

pub record RestoreRequest : Type 0 where
  pub path : Text
  pub confirm : Bool

unfoldable pub restore : Tools → AuthUser → RestoreRequest → M Text
unfolding replace_db
restore t admin req = do
  admin_user admin
  fail_if (not req.confirm) (bad_request "restore is destructive; set confirm=true to proceed")
  fail_if (not (is_some (t.size_of (trim req.path)))) (not_found "backup file")
  replace_db t (trim req.path)
  pure (trim req.path)

pub record BackupEntry : Type 0 where
  pub path : Text
  pub size_bytes : ℕ
  pub modified_at : Text

-- The entries of a directory, without those that are no files or cannot be read.
abbrev files : List (Option BackupEntry) → List BackupEntry
files [] = []
files (none ∷ es) = files es
files (some b ∷ es) = b ∷ files es

-- Newest first; a directory that is not there is none, and lists nothing.
unfoldable pub list_backups :
    AuthUser → (entries : Option (List (Option BackupEntry))) → M (List BackupEntry)
list_backups admin none = do admin_user admin; pure []
list_backups admin (some es) = do
  admin_user admin
  pure (order_by (λ a b. text_lt b.modified_at a.modified_at) (files es))
