-- ===== src/Handlers/AppLinks/Shelf.antt =====
-- handlers/app_links.rs: the bookmarks as everyone sees them, a list of at most five.
use rsmc_engine.Base.{ℕ, ◌≡◌, refl, sym, true, List, order_by}
use rsmc_engine.Error.{Result, ok, err}
use rsmc_engine.Models.{AppLink, CreateAppLinkRequest}
use rsmc_engine.Db.{Db}
use rsmc_engine.App.{Env, World, NoFaults, Ends, execute, query, answer}
use rsmc_engine.Services.Access.{AuthUser}
use rsmc_engine.Handlers.AppLinks.{link_before, list_app_links, create_app_link, delete_app_link}
use rsmc_engine.Handlers.AppLinks.Positions.{Increasing-order}
use rsmc_engine.Handlers.AppLinks.Steps.{
  IsShelf, Added, Removed, Before, Grown, Shrunk, create-Grown, delete-Shrunk,
}

-- What everyone is shown (`list_app_links`).
abbrev pub shown : Db → List AppLink
shown d = order_by link_before d.app_links

Shelf-shown : (d : Db) → IsShelf d → shown d ≡ d.app_links
Shelf-shown d h = Increasing-order 0 d.app_links h.increasing

Grown-shown :
    (req : CreateAppLinkRequest) (d : Db) (r : Result AppLink × World)
    → IsShelf d
    → Ends (Grown req d.app_links) (Before d.app_links) r
    → IsShelf r.1.db × Added req (shown d) (shown r.1.db) r.0
Grown-shown req d (ok l, w) h (h', grown) = (h', rw (Shelf-shown d h, Shelf-shown w.db h') grown)
Grown-shown req d (err x, w) h (h', same) = (h', rw (Shelf-shown d h, Shelf-shown w.db h') same)

Shrunk-shown :
    (id : ℕ) (d : Db) (r : Result (Unit {0}) × World)
    → IsShelf d
    → Ends (λ _. Shrunk id d.app_links true) (Before d.app_links) r
    → IsShelf r.1.db × Removed id (shown d) (shown r.1.db) r.0
Shrunk-shown id d (ok a, w) h (h', there, gone) =
    (h', rw (Shelf-shown d h, Shelf-shown w.db h') (sym there, gone))
Shrunk-shown id d (err x, w) h (h', same) = (h', rw (Shelf-shown d h, Shelf-shown w.db h') same)

-- The bookmarks that everyone is shown behave as a list of at most five. A call to add one that is
-- answered puts the answered bookmark, with the trimmed name and URL of the request, at the end of
-- a list that had fewer than five; a call to remove one that is answered takes out the bookmark of
-- this id, which was there; a call that ends in an error, a lost statement included, leaves the list
-- as it was. At most five bookmarks with increasing positions stay at most five with increasing
-- positions.
pub app_links-refine :
    (admin : AuthUser) (req : CreateAppLinkRequest) (id : ℕ) (e : Env) (w : World)
    → IsShelf w.db
    → (let (added, w') = create_app_link admin req e w in
        IsShelf w'.db × Added req (shown w.db) (shown w'.db) added)
      × (let (removed, w') = delete_app_link admin id e w in
          IsShelf w'.db × Removed id (shown w.db) (shown w'.db) removed)
app_links-refine admin req id e w h = (
  Grown-shown req w.db (create_app_link admin req e w) h
      ((create-Grown w.db.app_links admin req).run e w (h, refl)),
  Shrunk-shown id w.db (delete_app_link admin id e w) h
      ((delete-Shrunk w.db.app_links admin id).run e w (h, refl)),
)

-- Listed in the order in which they were added, all of them.
pub list_app_links-IsShelf :
    (user : AuthUser) (e : Env) (w : World)
    → NoFaults e
    → IsShelf w.db
    → (list_app_links user e w).0 ≡ ok w.db.app_links
unfolding list_app_links query execute answer
list_app_links-IsShelf user e w faultless h =
    rw (faultless w.stmts, Increasing-order 0 w.db.app_links h.increasing) refl
