-- ===== src/App/HubFrame.antt =====
-- Bodies that leave the hub alone, and never take a drawn UUID back.
use rsmc_engine.Base.{
  suc, ◌≤◌, Bool, true, false, ◌≡◌, refl, ◌∙◌, Option, none, some, List, [], ◌∷◌, inl, inr,
  Bool-cases, arith,
}
use rsmc_engine.Db.{Db, Sql, rows, fails}
use rsmc_engine.Error.{Result, ok, err, AppError}
use rsmc_engine.App.Types.{Env, World, Output}
use rsmc_engine.App.Monad.{
  M, pure, fail, and_then, ◌>>=◌, or_fail, fail_if, asks, when, recovered, attempt, for_each,
  new_v4, now, answer, execute, query, settle, transaction, emit, with_hub,
}
use rsmc_engine.Hub.{Hub}

abbrev pub Calm : World → World → Type 0
Calm w w' = (w'.hub ≡ w.hub) × (w.draws ≤ w'.draws)

pub record Quiet {A : Type 0} (m : M A) : Type 0 where
  pub run : (e : Env) (w : World) → Calm w (m e w).1

Calm-trans : (u v w : World) → Calm u v → Calm v w → Calm u w
Calm-trans u v w a b = (b.0 ∙ a.0, omega arith)

Calm-and_then :
    {A B : Type 0} (u : World) (r : Result A × World) (k : A → World → Result B × World)
    → Calm u r.1
    → ((a : A) (w : World) → Calm w (k a w).1)
    → Calm u (and_then r k).1
Calm-and_then u (ok a, w) k h next = Calm-trans u w (k a w).1 h (next a w)
Calm-and_then u (err x, w) k h next = h

pub bind-Quiet :
    {A B : Type 0} {m : M A} {f : A → M B} → Quiet m → ((a : A) → Quiet (f a)) → Quiet (m >>= f)
unfolding ◌>>=◌
bind-Quiet {m = m} {f = f} t next = record {
  run = λ e w. Calm-and_then w (m e w) (λ a w'. f a e w') (t.run e w) (λ a w'. (next a).run e w');
}

pub pure-Quiet : {A : Type 0} (a : A) → Quiet (pure a)
pure-Quiet a = record { run = λ e w. (refl, omega arith) }

pub fail-Quiet : {A : Type 0} (x : AppError) → Quiet (fail {A = A} x)
fail-Quiet x = record { run = λ e w. (refl, omega arith) }

Calm-answer : {A : Type 0} (w : World) (s : Sql A) → Calm w (answer w s).1
unfolding answer
Calm-answer w (rows a d) = (refl, omega arith)
Calm-answer w (fails x) = (refl, omega arith)

pub execute-Quiet : {A : Type 0} (q : Db → Sql A) → Quiet (execute q)
unfolding execute
execute-Quiet q = record {
  run = λ e w. elim (Bool-cases (e.fault w.stmts)) [
    | inl f ↦ rw f (refl, omega arith)
    | inr f ↦ rw f (Calm-answer (record w { stmts = suc w.stmts }) (q w.db))
  ];
}

pub query-Quiet : {A : Type 0} (q : Db → A) → Quiet (query q)
unfolding query
query-Quiet q = execute-Quiet (λ d. rows (q d) d)

Calm-settle :
    {A : Type 0} (u : World) (e : Env) (d : Db) (r : Result A × World)
    → Calm u r.1
    → Calm u (settle e d r).1
unfolding settle
Calm-settle u e d (ok a, w) h = elim (Bool-cases (e.fault w.stmts)) [
  | inl f ↦ rw f h
  | inr f ↦ rw f h
]
Calm-settle u e d (err x, w) h = h

pub transaction-Quiet : {A : Type 0} {m : M A} → Quiet m → Quiet (transaction m)
unfolding transaction
transaction-Quiet {m = m} t = record {
  run = λ e w. elim (Bool-cases (e.fault w.stmts)) [
    | inl f ↦ rw f (refl, omega arith)
    | inr f ↦ rw f (
        Calm-settle w e w.db (m e (record w { stmts = suc w.stmts }))
          (t.run e (record w { stmts = suc w.stmts })))
  ];
}

pub fail_if-Quiet : (b : Bool) (x : AppError) → Quiet (fail_if b x)
fail_if-Quiet true x = fail-Quiet x
fail_if-Quiet false x = pure-Quiet tt

pub or_fail-Quiet : {A : Type 0} (o : Option A) (x : AppError) → Quiet (or_fail o x)
or_fail-Quiet none x = fail-Quiet x
or_fail-Quiet (some a) x = pure-Quiet a

pub new_v4-Quiet : Quiet new_v4
unfolding new_v4
new_v4-Quiet = record { run = λ e w. (refl, omega arith) }

pub now-Quiet : Quiet now
unfolding now
now-Quiet = record { run = λ e w. (refl, omega arith) }

pub emit-Quiet : (f : Env → Hub → List Output) → Quiet (emit f)
unfolding emit
emit-Quiet f = record { run = λ e w. (refl, omega arith) }

-- Reading the hub.
pub ask_hub-Quiet : {A : Type 0} (f : Hub → A) → Quiet (with_hub (λ h. (f h, h)))
unfolding with_hub
ask_hub-Quiet f = record { run = λ e w. (refl, omega arith) }

pub when-Quiet : (b : Bool) {m : M (Unit {0})} → Quiet m → Quiet (when b m)
when-Quiet true t = t
when-Quiet false t = pure-Quiet tt

pub for_each-Quiet :
    {A : Type 0} (xs : List A) {f : A → M (Unit {0})}
    → ((a : A) → Quiet (f a))
    → Quiet (for_each xs f)
unfolding for_each
for_each-Quiet [] t = pure-Quiet tt
for_each-Quiet (x ∷ xs) t = bind-Quiet (t x) (λ _. for_each-Quiet xs t)

Calm-recovered :
    {A : Type 0} (u : World) (r : Result A × World) → Calm u r.1 → Calm u (recovered r).1
Calm-recovered u (ok a, w) h = h
Calm-recovered u (err x, w) h = h

pub attempt-Quiet : {A : Type 0} {m : M A} → Quiet m → Quiet (attempt m)
unfolding attempt
attempt-Quiet {m = m} t = record { run = λ e w. Calm-recovered w (m e w) (t.run e w) }

pub asks-Quiet : {A : Type 0} (f : Env → A) → Quiet (asks f)
unfolding asks
asks-Quiet f = record { run = λ e w. (refl, omega arith) }

-- A body that looks into the environment first.
pub local-Quiet : {A : Type 0} {m : Env → M A} → ((e : Env) → Quiet (m e)) → Quiet (λ e. m e e)
local-Quiet t = record { run = λ e w. (t e).run e w }

pub ruleset quietly = (
  bind-Quiet, pure-Quiet, fail-Quiet, execute-Quiet, query-Quiet, transaction-Quiet, fail_if-Quiet,
  or_fail-Quiet, new_v4-Quiet, now-Quiet, emit-Quiet, ask_hub-Quiet, when-Quiet, for_each-Quiet,
  attempt-Quiet, asks-Quiet,
)
