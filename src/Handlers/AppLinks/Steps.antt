-- ===== src/Handlers/AppLinks/Steps.antt =====
-- handlers/app_links.rs: what a call does to the table of bookmarks, a list of at most five.
use rsmc_engine.Base.{
  ℕ, suc, ◌≤◌, ◌<◌, ◌≡◌, refl, sym, ap, ◌∙◌, subst, Bool, true, not, trim, delete_where_of_not_any,
  false, ◌==◌, ltb, leb, Option, none, some, List, [], ◌∷◌, ◌++◌, any, length, length-append,
  delete_where, arith, Bool-cases, inl, inr,
}
use rsmc_engine.Error.{AppError, Result, bad_request, ok, err}
use rsmc_engine.Models.{AppLink, CreateAppLinkRequest, max_app_links}
use rsmc_engine.Db.{Db}
use rsmc_engine.App.{
  Makes, Triple, bind-Triple, query-Triple, fail_if-Triple, fail_if-Keeps, fail_if, asks-Triple,
  ◌>>◌, execute-Triple, new_v4-Triple, now-Triple, weaken-Triple, execute,
}
use rsmc_engine.Services.Access.{AuthUser, admin_user}
use rsmc_engine.Handlers.AppLinks.{
  following, max_position, next_position, insert_link, new_link, store_link, create_app_link,
  delete_link, delete_app_link,
}
use rsmc_engine.Handlers.AppLinks.Positions.{
  Increasing, IsFree, append-Increasing, delete-Increasing, length-delete_where-le,
}

-- The bookmarks are at most five, and stand in the order of their positions.
pub record IsShelf (d : Db) : Type 0 where
  pub few : length d.app_links ≤ max_app_links
  pub increasing : Increasing 0 d.app_links

-- What a call to add a bookmark does to the list: with an answer, one bookmark more at its end, with
-- the name and the URL of the request, where there were fewer than five; with an error, nothing.
abbrev pub Added : CreateAppLinkRequest → (before after : List AppLink) → Result AppLink → Type 0
Added req xs ys (ok l) =
    (length xs < max_app_links)
    × (ys ≡ xs ++ l ∷ [])
    × (l.name ≡ trim req.name)
    × (l.url ≡ trim req.url)
Added req xs ys (err x) = ys ≡ xs

-- And a call to remove one: with an answer, it was there and no other is gone; with an error, nothing.
abbrev pub Removed : (id : ℕ) → (before after : List AppLink) → Result (Unit {0}) → Type 0
Removed id xs ys (ok _) =
    (any (λ l. l.id == id) xs ≡ true) × (ys ≡ delete_where (λ l. l.id == id) xs)
Removed id xs ys (err x) = ys ≡ xs

abbrev pub Before : List AppLink → Db → Type 0
Before xs d = IsShelf d × (d.app_links ≡ xs)

abbrev pub Grown : CreateAppLinkRequest → List AppLink → AppLink → Db → Type 0
Grown req xs l d = IsShelf d × Added req xs d.app_links (ok l)

abbrev pub Shrunk : (id : ℕ) → List AppLink → (affected : Bool) → Db → Type 0
Shrunk id xs affected d =
    IsShelf d
    × (affected ≡ any (λ l. l.id == id) xs)
    × (d.app_links ≡ delete_where (λ l. l.id == id) xs)

delete_link-Shrunk :
    (xs : List AppLink) (id : ℕ)
    → Triple (Before xs) (execute (delete_link id)) (Shrunk id xs) (Before xs)
unfolding delete_link
delete_link-Shrunk xs id =
    execute-Triple (delete_link id) (λ d h. h)
      (λ d h. (
        record {
          few = omega (arith, h.0.few, length-delete_where-le (λ l. l.id == id) d.app_links);
          increasing = delete-Increasing (λ l. l.id == id) 0 d.app_links h.0.increasing;
        },
        ap (any (λ l. l.id == id)) h.1,
        ap (delete_where (λ l. l.id == id)) h.1,
      ))

-- After a position was chosen for one more bookmark.
record HasRoom (xs : List AppLink) (p : ℕ) (d : Db) : Type 0 where
  few : length d.app_links < max_app_links
  increasing : Increasing 0 d.app_links
  free : IsFree p (max_position d.app_links)
  same : d.app_links ≡ xs

following-HasRoom :
    (xs : List AppLink) (o : Option ℕ) (d : Db)
    → o ≡ max_position d.app_links
    → length d.app_links < max_app_links
    → Before xs d
    → Makes (HasRoom xs) (following o d)
following-HasRoom xs none d e few h = record {
  few = few;
  increasing = h.0.increasing;
  free = subst (IsFree 0) e tt;
  same = h.1;
}
following-HasRoom xs (some p) d e few h = elim (Bool-cases (ltb p 2147483647)) [
  | inl small ↦ rw small (record {
    few = few;
    increasing = h.0.increasing;
    free = subst (IsFree (suc p)) e (omega arith);
    same = h.1;
  })
  | inr big ↦ rw big tt
]

HasRoom-Before : (xs : List AppLink) (p : ℕ) (d : Db) → HasRoom xs p d → Before xs d
HasRoom-Before xs p d h = (record { few = omega (arith, h.few); increasing = h.increasing }, h.same)

insert_link-Grown :
    (req : CreateAppLinkRequest) (xs : List AppLink) (p id at : ℕ) (d : Db)
    → HasRoom xs p d
    → Makes (Grown req xs) (insert_link (new_link req p id at) d)
unfolding insert_link
insert_link-Grown req xs p id at d h =
    let l = new_link req p id at in
    elim (Bool-cases (any (λ x. x.id == id) d.app_links)) [
      | inl taken ↦ rw taken tt
      | inr fresh ↦ rw fresh (
        record {
          few = omega (arith, h.few, length-append d.app_links (l ∷ []));
          increasing = append-Increasing 0 d.app_links l (omega arith) h.free h.increasing;
        },
        (
          subst (λ ys. length ys < max_app_links) h.same h.few,
          ap (λ ys. ys ++ l ∷ []) h.same,
          refl,
          refl,
        ),
      )
    ]

store_link-Grown :
    (xs : List AppLink) (req : CreateAppLinkRequest)
    → Triple
        (λ d. Before xs d × (length d.app_links < max_app_links))
        (store_link req)
        (Grown req xs)
        (Before xs)
unfolding store_link next_position
store_link-Grown xs req =
    bind-Triple (HasRoom xs)
      (execute-Triple next_position (λ d h. h.0) (λ d h. following-HasRoom xs _ d refl h.1 h.0))
      λ p.
        bind-Triple (λ _. HasRoom xs p) new_v4-Triple
          λ id.
            bind-Triple (λ _. HasRoom xs p) now-Triple
              λ at.
                execute-Triple (insert_link (new_link req p id at)) (HasRoom-Before xs p)
                  (insert_link-Grown req xs p id at)

checked-Grown :
    (xs : List AppLink) (req : CreateAppLinkRequest) (count : ℕ)
    → Triple
        (λ d. Before xs d × (count ≡ length d.app_links))
        (fail_if (leb max_app_links count) (bad_request "at most 5 app links are allowed")
          >> store_link req)
        (Grown req xs)
        (Before xs)
checked-Grown xs req count =
    bind-Triple
      (λ _ d. (Before xs d × (count ≡ length d.app_links)) × (leb max_app_links count ≡ false))
      (fail_if-Triple _ _ (λ d h. h.0))
      λ _. weaken-Triple _ (λ d h. (h.0.0, ground (arith, h.0.1, h.1))) (store_link-Grown xs req)

guard-Before :
    (xs : List AppLink) (b : Bool) (x : AppError)
    → Triple (Before xs) (fail_if b x) (λ _. Before xs) (Before xs)
guard-Before xs b x = fail_if-Keeps b x

pub create-Grown :
    (xs : List AppLink) (admin : AuthUser) (req : CreateAppLinkRequest)
    → Triple (Before xs) (create_app_link admin req) (Grown req xs) (Before xs)
unfolding create_app_link admin_user
create-Grown xs admin req =
    bind-Triple (λ _. Before xs) (guard-Before xs _ _)
      λ _.
        bind-Triple (λ _. Before xs) (asks-Triple _)
          λ valid.
            bind-Triple (λ _. Before xs) (guard-Before xs _ _)
              λ _.
                bind-Triple (λ count d. Before xs d × (count ≡ length d.app_links))
                  (query-Triple _ (λ d h. h)) (checked-Grown xs req)

-- Nothing is removed where nothing was there.
unaffected-Before : (xs : List AppLink) (id : ℕ) (d : Db) → Shrunk id xs false d → Before xs d
unaffected-Before xs id d h = (h.0, h.2 ∙ delete_where_of_not_any (λ l. l.id == id) xs (sym h.1))

removed-Triple :
    (xs : List AppLink) (id : ℕ) (affected : Bool) (x : AppError)
    → Triple (Shrunk id xs affected) (fail_if (not affected) x) (λ _. Shrunk id xs true) (Before xs)
removed-Triple xs id true x = record { run = λ e w h. h }
removed-Triple xs id false x = record { run = λ e w h. unaffected-Before xs id w.db h }

pub delete-Shrunk :
    (xs : List AppLink) (admin : AuthUser) (id : ℕ)
    → Triple (Before xs) (delete_app_link admin id) (λ _. Shrunk id xs true) (Before xs)
unfolding delete_app_link admin_user
delete-Shrunk xs admin id =
    bind-Triple (λ _. Before xs) (guard-Before xs _ _)
      λ _.
        bind-Triple (Shrunk id xs) (delete_link-Shrunk xs id)
          λ affected. removed-Triple xs id affected _
