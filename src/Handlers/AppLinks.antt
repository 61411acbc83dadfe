-- ===== src/Handlers/AppLinks.antt =====
-- handlers/app_links.rs: the bookmarks of the workspace.
pub mod Positions
pub mod Steps
pub mod Shelf
use rsmc_engine.Base.{
  ℕ, suc, ◌+◌, Bool, not, ◌&&◌, ◌||◌, Option, none, some, List, [], ◌∷◌, ◌++◌, Text, if◌then◌else◌,
  ltb, leb, ◌==◌, any, length, delete_where, order_by, trim,
}
use rsmc_engine.Error.{bad_request, not_found, validation, unique_violation, other}
use rsmc_engine.Models.{AppLink, CreateAppLinkRequest, max_app_links}
use rsmc_engine.Db.{Db, Sql, rows, fails}
use rsmc_engine.App.{M, Env, ◌>>=◌, ◌>>◌, fail_if, asks, new_v4, now, query, execute}
use rsmc_engine.Services.Access.{AuthUser, admin_user}

-- ORDER BY position, created_at
abbrev pub link_before : AppLink → AppLink → Bool
link_before a b =
    ltb a.position b.position || (a.position == b.position && ltb a.created_at b.created_at)

unfoldable pub list_app_links : AuthUser → M (List AppLink)
list_app_links user = query (λ d. order_by link_before d.app_links)

-- `#[validate(length(min = 1, max = 40))]`, `#[validate(url)]`
abbrev pub valid_link : Env → CreateAppLinkRequest → Bool
valid_link e req = (leb 1 (length req.name) && leb (length req.name) 40) && e.is_url req.url

abbrev pub larger : ℕ → Option ℕ → Option ℕ
larger p none = some p
larger p (some q) = some (if ltb p q then q else p)

-- MAX(position)
unfoldable pub max_position : List AppLink → Option ℕ
max_position [] = none
max_position (x ∷ xs) = larger x.position (max_position xs)

abbrev pub following : Option ℕ → Db → Sql ℕ
following none d = rows 0 d
following (some p) d = if ltb p 2147483647 then rows (suc p) d else fails other

-- COALESCE(MAX(position) + 1, 0), an INTEGER.
unfoldable pub next_position : Db → Sql ℕ
unfolding max_position
next_position d = following (max_position d.app_links) d

unfoldable pub insert_link : AppLink → Db → Sql AppLink
insert_link l d =
    if any (λ x. x.id == l.id) d.app_links
    then fails unique_violation
    else rows l (record d { app_links = d.app_links ++ l ∷ [] })

abbrev pub new_link : CreateAppLinkRequest → (next_pos id at : ℕ) → AppLink
new_link req next_pos id at = record {
  id = id;
  name = trim req.name;
  url = trim req.url;
  position = next_pos;
  created_at = at;
}

unfoldable pub store_link : CreateAppLinkRequest → M AppLink
unfolding next_position insert_link
store_link req = do
  next_pos ← execute next_position
  id ← new_v4
  at ← now
  execute (insert_link (new_link req next_pos id at))

unfoldable pub create_app_link : AuthUser → CreateAppLinkRequest → M AppLink
unfolding store_link
create_app_link admin req = do
  admin_user admin
  valid ← asks (λ e. valid_link e req)
  fail_if (not valid) validation
  count ← query (λ d. length d.app_links)
  fail_if (leb max_app_links count) (bad_request "at most 5 app links are allowed")
  store_link req

unfoldable pub delete_link : (id : ℕ) → Db → Sql Bool
delete_link id d =
    rows (any (λ l. l.id == id) d.app_links)
      (record d { app_links = delete_where (λ l. l.id == id) d.app_links })

unfoldable pub delete_app_link : AuthUser → (id : ℕ) → M (Unit {0})
unfolding delete_link
delete_app_link admin id = do
  admin_user admin
  affected ← execute (delete_link id)
  fail_if (not affected) (not_found "app link")
