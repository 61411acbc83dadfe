-- ===== src/App/Monad.antt =====
-- Handlers as state passing with errors. A `?` of the source is a bind: the first error ends the
-- handler, and what was done before it stays done, unless a transaction takes it back.
use rsmc_engine.Base.{
  ℕ, suc, Bool, true, false, Option, none, some, List, [], ◌∷◌, ◌++◌, if◌then◌else◌, Text, Bytes,
  text_eq,
}
use rsmc_engine.Db.{Db, Sql, rows, fails}
use rsmc_engine.Error.{AppError, other, database, Result, ok, err}
use rsmc_engine.App.Types.{Env, World, Output}
use rsmc_engine.Hub.{Hub}

abbrev pub M : Type 0 → Type 0
M A = Env → World → Result A × World

abbrev pub pure : {A : Type 0} → A → M A
pure a e w = (ok a, w)

abbrev pub fail : {A : Type 0} → AppError → M A
fail x e w = (err x, w)

abbrev pub and_then :
    {A B : Type 0} → Result A × World → (A → World → Result B × World) → Result B × World
and_then (ok a, w) k = k a w
and_then (err x, w) k = (err x, w)

infixl 5 ◌>>=◌ ◌>>◌
unfoldable pub ◌>>=◌ : {A B : Type 0} → M A → (A → M B) → M B
◌>>=◌ m f e w = and_then (m e w) (λ a w'. f a e w')

abbrev pub ◌>>◌ : {A B : Type 0} → M A → M B → M B
m >> k = m >>= λ _. k

abbrev pub or_fail : {A : Type 0} → Option A → AppError → M A
or_fail none x = fail x
or_fail (some a) x = pure a

-- An early `return Err(…)`.
abbrev pub fail_if : Bool → AppError → M (Unit {0})
fail_if true x = fail x
fail_if false x = pure tt

abbrev pub when : Bool → M (Unit {0}) → M (Unit {0})
when true m = m
when false m = pure tt

-- `let _ = f().await`, and `if let Ok(x) = …`: an error is dropped.
abbrev pub recovered : {A : Type 0} → Result A × World → Result (Option A) × World
recovered (ok a, w) = (ok (some a), w)
recovered (err x, w) = (ok none, w)

unfoldable pub attempt : {A : Type 0} → M A → M (Option A)
attempt m e w = recovered (m e w)

unfoldable pub for_each : {A : Type 0} → List A → (A → M (Unit {0})) → M (Unit {0})
for_each List.[] f = pure tt
for_each (List.◌∷◌ x xs) f = f x >> for_each xs f

-- What a handler asks of the environment.
unfoldable pub asks : {A : Type 0} → (Env → A) → M A
asks f e w = (ok (f e), w)

-- `Uuid::new_v4()`
unfoldable pub new_v4 : M ℕ
new_v4 e w = (ok (e.new_v4 w.draws), record w { draws = suc w.draws })

-- `Utc::now()`, and the start of a transaction or of a statement outside one, which is SQL's now().
unfoldable pub now : M ℕ
now e w = (ok (e.clock w.ticks), record w { ticks = suc w.ticks })

unfoldable pub answer : {A : Type 0} → World → Sql A → Result A × World
answer w (rows a d) = (ok a, record w { db = d })
answer w (fails x) = (err (database x), w)

-- One statement: lost, refused by a constraint, or executed.
unfoldable pub execute : {A : Type 0} → (Db → Sql A) → M A
unfolding answer
execute q e w =
    let w' = record w { stmts = suc w.stmts } in
    if e.fault w.stmts then (err (database other), w') else answer w' (q w.db)

-- A SELECT.
unfoldable pub query : {A : Type 0} → (Db → A) → M A
unfolding execute
query q = execute (λ d. rows (q d) d)

unfoldable pub settle : {A : Type 0} → Env → Db → Result A × World → Result A × World
settle e before (ok a, w) =
    if e.fault w.stmts
    then (err (database other), record w { db = before; stmts = suc w.stmts })
    else (ok a, record w { stmts = suc w.stmts })
settle e before (err x, w) = (err x, record w { db = before })

-- `begin`, a body and `commit`. A lost `begin` or `commit`, or an error of the body, leaves the
-- tables as they were.
unfoldable pub transaction : {A : Type 0} → M A → M A
unfolding settle
transaction m e w =
    if e.fault w.stmts
    then (err (database other), record w { stmts = suc w.stmts })
    else settle e w.db (m e (record w { stmts = suc w.stmts }))

-- Reading the hub and changing it.
unfoldable pub with_hub : {A : Type 0} → (Hub → A × Hub) → M A
with_hub f e w = let (a, h) = f w.hub in (ok a, record w { hub = h })

unfoldable pub emit : (Env → Hub → List Output) → M (Unit {0})
emit f e w = (ok tt, record w { out = w.out ++ f e w.hub })

-- The files of the upload directory, by name.
abbrev pub content_of : Text → List (Text × Bytes) → Option Bytes
content_of name [] = none
content_of name ((n, b) ∷ files) = if text_eq n name then some b else content_of name files

abbrev pub without : Text → List (Text × Bytes) → List (Text × Bytes)
without name [] = []
without name ((n, b) ∷ files) =
    if text_eq n name then without name files else (n, b) ∷ without name files

unfoldable pub read_file : Text → M (Option Bytes)
read_file name e w = (ok (content_of name w.disk), w)

unfoldable pub write_file : Text → Bytes → M (Unit {0})
write_file name bytes e w = (ok tt, record w { disk = (name, bytes) ∷ without name w.disk })

unfoldable pub remove_file : Text → M (Unit {0})
remove_file name e w = (ok tt, record w { disk = without name w.disk })
