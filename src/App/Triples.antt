-- ===== src/App/Triples.antt =====
-- Triples over the tables: from `P` a body ends with `Q` of its result, or fails with `E`.
use rsmc_engine.Base.{
  suc, Bool, true, false, ◌≡◌, refl, Option, none, some, List, [], ◌∷◌, inl, inr, Bool-cases,
  if◌then◌else◌,
}
use rsmc_engine.Db.{Db, Sql, rows, fails, references}
use rsmc_engine.Error.{Result, ok, err, AppError}
use rsmc_engine.App.Types.{Env, World, Output}
use rsmc_engine.App.Monad.{
  M, pure, fail, and_then, ◌>>=◌, or_fail, fail_if, when, recovered, attempt, for_each, asks,
  new_v4, now, answer, execute, query, settle, transaction, emit,
}
use rsmc_engine.Hub.{Hub}

abbrev pub Ends : {A : Type 0} → (A → Db → Type 0) → (Db → Type 0) → Result A × World → Type 0
Ends Q E (ok a, w) = Q a w.db
Ends Q E (err x, w) = E w.db

pub record Triple {A : Type 0} (P : Db → Type 0) (m : M A) (Q : A → Db → Type 0) (E : Db → Type 0)
    : Type 0 where
  pub run : (e : Env) (w : World) → P w.db → Ends Q E (m e w)

-- The body keeps `P`, however it ends.
abbrev pub Keeps : (Db → Type 0) → {A : Type 0} → M A → Type 0
Keeps P m = Triple P m (λ _. P) P

-- What a statement makes of tables with `P`.
abbrev pub Makes : {A : Type 0} → (A → Db → Type 0) → Sql A → Type 0
Makes Q (rows a d) = Q a d
Makes Q (fails x) = Unit {0}

Ends-and_then :
    {A B : Type 0} (E : Db → Type 0) (R : B → Db → Type 0) (Q : A → Db → Type 0)
    (r : Result A × World) (k : A → World → Result B × World)
    → Ends Q E r
    → ((a : A) (w : World) → Q a w.db → Ends R E (k a w))
    → Ends R E (and_then r k)
Ends-and_then E R Q (ok a, w) k h next = next a w h
Ends-and_then E R Q (err x, w) k h next = h

Ends-mono :
    {A : Type 0} (E : Db → Type 0) (Q R : A → Db → Type 0) (r : Result A × World)
    → Ends Q E r
    → ((a : A) (d : Db) → Q a d → R a d)
    → Ends R E r
Ends-mono E Q R (ok a, w) q h = h a w.db q
Ends-mono E Q R (err x, w) q h = q

Ends-answer :
    {A : Type 0} (Q : A → Db → Type 0) (E : Db → Type 0) (w : World) (s : Sql A)
    → Makes Q s
    → E w.db
    → Ends Q E (answer w s)
unfolding answer
Ends-answer Q E w (rows a d) h k = h
Ends-answer Q E w (fails x) h k = k

Ends-settle :
    {A : Type 0} (Q : A → Db → Type 0) (E : Db → Type 0) (e : Env) (before : Db)
    (r : Result A × World)
    → E before
    → Ends Q (λ _. Unit {0}) r
    → Ends Q E (settle e before r)
unfolding settle
Ends-settle Q E e before (ok a, w) back h = elim (Bool-cases (e.fault w.stmts)) [
  | inl f ↦ rw f back
  | inr f ↦ rw f h
]
Ends-settle Q E e before (err x, w) back h = back

Ends-recovered :
    {A : Type 0} (P E : Db → Type 0) (r : Result A × World)
    → Ends (λ _. P) P r
    → Ends (λ _. P) E (recovered r)
Ends-recovered P E (ok a, w) h = h
Ends-recovered P E (err x, w) h = h

module _ {A B : Type 0} {P : Db → Type 0} {E : Db → Type 0} where
  pub bind-Triple :
      {m : M A} {f : A → M B} {R : B → Db → Type 0} (Q : A → Db → Type 0)
      → Triple P m Q E
      → ((a : A) → Triple (Q a) (f a) R E)
      → Triple P (m >>= f) R E
  unfolding ◌>>=◌
  bind-Triple {m} {f} {R} Q t next = record {
    run = λ e w p.
        Ends-and_then E R Q (m e w) (λ a w'. f a e w') (t.run e w p)
          (λ a w' q. (next a).run e w' q);
  }

module _ {A : Type 0} {P : Db → Type 0} {E : Db → Type 0} where
  pub pure-Triple : {Q : A → Db → Type 0} (a : A) → ((d : Db) → P d → Q a d) → Triple P (pure a) Q E
  pure-Triple a h = record { run = λ e w p. h w.db p }

  pub fail-Triple :
      {Q : A → Db → Type 0} (x : AppError) → ((d : Db) → P d → E d) → Triple P (fail {A = A} x) Q E
  fail-Triple x h = record { run = λ e w p. h w.db p }

  pub execute-Triple :
      {Q : A → Db → Type 0} (q : Db → Sql A)
      → ((d : Db) → P d → E d)
      → ((d : Db) → P d → Makes Q (q d))
      → Triple P (execute q) Q E
  unfolding execute
  execute-Triple {Q} q lost made = record {
    run = λ e w p. elim (Bool-cases (e.fault w.stmts)) [
      | inl f ↦ rw f (lost w.db p)
      | inr f ↦
          rw f (
            Ends-answer Q E (record w { stmts = suc w.stmts }) (q w.db) (made w.db p) (lost w.db p))
    ];
  }

  -- The result of a query is what the query reads in the tables.
  pub query-Triple :
      (q : Db → A) → ((d : Db) → P d → E d) → Triple P (query q) (λ a d. P d × (a ≡ q d)) E
  unfolding query
  query-Triple q lost = execute-Triple (λ d. rows (q d) d) lost (λ d p. (p, refl))

  -- A transaction that fails leaves the tables as they were, so its body may fail anyhow.
  pub transaction-Triple :
      {m : M A} {Q : A → Db → Type 0}
      → ((d : Db) → P d → E d)
      → Triple P m Q (λ _. Unit {0})
      → Triple P (transaction m) Q E
  unfolding transaction
  transaction-Triple {m} {Q} back t = record {
    run = λ e w p. elim (Bool-cases (e.fault w.stmts)) [
      | inl f ↦ rw f (back w.db p)
      | inr f ↦
          rw f
            (Ends-settle Q E e w.db _ (back w.db p) (t.run e (record w { stmts = suc w.stmts }) p))
    ];
  }

  pub conclude-Triple :
      {m : M A} {R : A → Db → Type 0} (Q : A → Db → Type 0)
      → Triple P m Q E
      → ((a : A) (d : Db) → Q a d → R a d)
      → Triple P m R E
  conclude-Triple {m} {R} Q t h = record { run = λ e w p. Ends-mono E Q R (m e w) (t.run e w p) h }

  pub weaken-Triple :
      {m : M A} {Q : A → Db → Type 0} (P' : Db → Type 0)
      → ((d : Db) → P d → P' d)
      → Triple P' m Q E
      → Triple P m Q E
  weaken-Triple P' h t = record { run = λ e w p. t.run e w (h w.db p) }

module _ {P : Db → Type 0} {E : Db → Type 0} where
  pub fail_if-Triple :
      (b : Bool) (x : AppError)
      → ((d : Db) → P d → E d)
      → Triple P (fail_if b x) (λ _ d. P d × (b ≡ false)) E
  fail_if-Triple true x lost = record { run = λ e w p. lost w.db p }
  fail_if-Triple false x lost = record { run = λ e w p. (p, refl) }

  pub or_fail-Triple :
      {A : Type 0} (o : Option A) (x : AppError)
      → ((d : Db) → P d → E d)
      → Triple P (or_fail o x) (λ a d. P d × (o ≡ some a)) E
  or_fail-Triple none x lost = record { run = λ e w p. lost w.db p }
  or_fail-Triple (some a) x lost = record { run = λ e w p. (p, refl) }

  pub new_v4-Triple : Triple P new_v4 (λ _. P) E
  unfolding new_v4
  new_v4-Triple = record { run = λ e w p. p }

  pub now-Triple : Triple P now (λ _. P) E
  unfolding now
  now-Triple = record { run = λ e w p. p }

  pub asks-Triple : {A : Type 0} (f : Env → A) → Triple P (asks f) (λ _. P) E
  unfolding asks
  asks-Triple f = record { run = λ e w p. p }

  pub emit-Triple : (f : Env → Hub → List Output) → Triple P (emit f) (λ _. P) E
  unfolding emit
  emit-Triple f = record { run = λ e w p. p }

module _ {P : Db → Type 0} {E : Db → Type 0} where
  pub when-Triple :
      (b : Bool) {m : M (Unit {0})} → Triple P m (λ _. P) E → Triple P (when b m) (λ _. P) E
  when-Triple true t = t
  when-Triple false t = record { run = λ e w p. p }

  pub for_each-Triple :
      {A : Type 0} (xs : List A) {f : A → M (Unit {0})}
      → ((a : A) → Triple P (f a) (λ _. P) E)
      → Triple P (for_each xs f) (λ _. P) E
  unfolding for_each
  for_each-Triple [] t = record { run = λ e w p. p }
  for_each-Triple (x ∷ xs) t = bind-Triple (λ _. P) (t x) (λ _. for_each-Triple xs t)

module _ {A : Type 0} {P : Db → Type 0} {E : Db → Type 0} where
  -- A dropped error needs only that the invariant is kept.
  pub attempt-Triple : {m : M A} → Keeps P m → Triple P (attempt m) (λ _. P) E
  unfolding attempt
  attempt-Triple {m} t = record { run = λ e w p. Ends-recovered P E (m e w) (t.run e w p) }

-- Nothing is asked of a step, nor of a failure.
abbrev pub Whatever : Db → Type 0
Whatever d = Unit

Ends-Whatever : {A : Type 0} (r : Result A × World) → Ends (λ _. Whatever) Whatever r
Ends-Whatever (ok a, w) = tt
Ends-Whatever (err x, w) = tt

pub skip-Triple :
    {A B : Type 0} {f : A → M B} {R : B → Db → Type 0} (m : M A)
    → ((a : A) → Triple Whatever (f a) R Whatever)
    → Triple Whatever (m >>= f) R Whatever
skip-Triple m next =
    bind-Triple (λ _. Whatever) (record { run = λ e w p. Ends-Whatever (m e w) }) next

-- The same rules for an invariant.
module _ {P : Db → Type 0} where
  pub bind-Keeps :
      {A B : Type 0} {m : M A} {f : A → M B}
      → Keeps P m
      → ((a : A) → Keeps P (f a))
      → Keeps P (m >>= f)
  bind-Keeps t next = bind-Triple (λ _. P) t next

  pub pure-Keeps : {A : Type 0} (a : A) → Keeps P (pure a)
  pure-Keeps a = pure-Triple a (λ d p. p)

  pub fail-Keeps : {A : Type 0} (x : AppError) → Keeps P (fail {A = A} x)
  fail-Keeps x = fail-Triple x (λ d p. p)

  pub query-Keeps : {A : Type 0} (q : Db → A) → Keeps P (query q)
  unfolding query
  query-Keeps q = execute-Triple (λ d. rows (q d) d) (λ d p. p) (λ d p. p)

  pub execute-Keeps :
      {A : Type 0} (q : Db → Sql A) → ((d : Db) → P d → Makes (λ _. P) (q d)) → Keeps P (execute q)
  execute-Keeps q h = execute-Triple q (λ d p. p) h

  pub transaction-Keeps :
      {A : Type 0} {m : M A} → Triple P m (λ _. P) (λ _. Unit {0}) → Keeps P (transaction m)
  transaction-Keeps t = transaction-Triple (λ d p. p) t

  pub fail_if-Keeps : (b : Bool) (x : AppError) → Keeps P (fail_if b x)
  fail_if-Keeps true x = record { run = λ e w p. p }
  fail_if-Keeps false x = record { run = λ e w p. p }

  pub or_fail-Keeps : {A : Type 0} (o : Option A) (x : AppError) → Keeps P (or_fail o x)
  or_fail-Keeps none x = record { run = λ e w p. p }
  or_fail-Keeps (some a) x = record { run = λ e w p. p }

pub ruleset keeping = (
  bind-Keeps, pure-Keeps, fail-Keeps, query-Keeps, fail_if-Keeps, or_fail-Keeps, new_v4-Triple,
  now-Triple, asks-Triple, emit-Triple, when-Triple, for_each-Triple, attempt-Triple,
)

-- What keeps an invariant also serves where nothing is asked of a failure.
Ends-forget :
    {A : Type 0} (P : Db → Type 0) (r : Result A × World)
    → Ends (λ _. P) P r
    → Ends (λ _. P) (λ _. Unit {0}) r
Ends-forget P (ok a, w) h = h
Ends-forget P (err x, w) h = tt

pub forget :
    {A : Type 0} {P : Db → Type 0} {m : M A} → Keeps P m → Triple P m (λ _. P) (λ _. Unit {0})
forget {P = P} {m = m} t = record { run = λ e w p. Ends-forget P (m e w) (t.run e w p) }

-- An invariant holds of the tables that a body leaves.
pub Ends_db : {A : Type 0} (P : Db → Type 0) (r : Result A × World) → Ends (λ _. P) P r → P r.1.db
Ends_db P (ok a, w) h = h
Ends_db P (err x, w) h = h

pub Makes-references :
    {A : Type 0} (Q : A → Db → Type 0) (b : Bool) (s : Sql A) → Makes Q s → Makes Q (references b s)
Makes-references Q true s h = h
Makes-references Q false s h = tt

pub Makes-if :
    {A : Type 0} (Q : A → Db → Type 0) (b : Bool) (s t : Sql A)
    → Makes Q s
    → Makes Q t
    → Makes Q (if b then s else t)
Makes-if Q true s t h k = h
Makes-if Q false s t h k = k

-- What does not depend on the tables.
pub given-Triple :
    {A F : Type 0} {P : Db → Type 0} {m : M A} {Q : A → Db → Type 0} {E : Db → Type 0}
    → (F → Triple P m Q E)
    → Triple (λ d. P d × F) m Q E
given-Triple next = record { run = λ e w p. (next p.1).run e w p.0 }
