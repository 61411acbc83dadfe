-- ===== src/App/Refusal.antt =====
-- Bodies that fail and leave the tables, the output, the hub and the files alone, from tables with a
-- property.
use rsmc_engine.Base.{
  suc, ◌≡◌, refl, Bool, true, false, Option, none, some, inl, inr, Bool-cases, Option-cases, arith,
}
use rsmc_engine.Db.{Db}
use rsmc_engine.Error.{Result, ok, err, AppError}
use rsmc_engine.App.Types.{Env, World}
use rsmc_engine.App.Monad.{
  M, fail, and_then, ◌>>=◌, or_fail, fail_if, when, asks, answer, execute, query,
}

abbrev pub is_err : {A : Type 0} → Result A → Bool
is_err (ok a) = false
is_err (err x) = true

-- An error, with the tables, the output, the hub and the files of before.
abbrev pub Rejects : {A : Type 0} → World → Result A × World → Type 0
Rejects w r =
    (is_err r.0 ≡ true)
    × (r.1.db ≡ w.db)
    × (r.1.out ≡ w.out)
    × (r.1.hub ≡ w.hub)
    × (r.1.disk ≡ w.disk)

pub record Refuses {A : Type 0} (P : Db → Type 0) (m : M A) : Type 0 where
  pub run : (e : Env) (w : World) → P w.db → Rejects w (m e w)

pub fail-Refuses : {A : Type 0} {P : Db → Type 0} (x : AppError) → Refuses P (fail {A = A} x)
fail-Refuses x = record { run = λ e w p. (refl, refl, refl, refl, refl) }

module _ {A B : Type 0} {P : Db → Type 0} where
  -- A body that refuses ends what follows it.
  pub first-Refuses : {m : M A} (f : A → M B) → Refuses P m → Refuses P (m >>= f)
  unfolding ◌>>=◌
  first-Refuses {m} f t = record { run = λ e w p. ended w (λ a w'. f a e w') (m e w) (t.run e w p) }
    where
      ended :
          (w : World) (k : A → World → Result B × World) (r : Result A × World)
          → Rejects w r
          → Rejects w (and_then r k)
      ended w k (ok a, w') h = absurd (ground (arith, h.0))
      ended w k (err x, w') h = h

  pub query-Refuses :
      (q : Db → A) {f : A → M B}
      → ((a : A) → Refuses (λ d. P d × (q d ≡ a)) (f a))
      → Refuses P (query q >>= f)
  unfolding ◌>>=◌ query execute answer
  query-Refuses q {f} next = record {
    run = λ e w p. elim (Bool-cases (e.fault w.stmts)) [
      | inl lost ↦ rw lost (refl, refl, refl, refl, refl)
      | inr there ↦ rw there ((next (q w.db)).run e (record w { stmts = suc w.stmts }) (p, refl))
    ];
  }

  pub asks-Refuses :
      (q : Env → A) {f : A → M B} → ((a : A) → Refuses P (f a)) → Refuses P (asks q >>= f)
  unfolding ◌>>=◌ asks
  asks-Refuses q next = record { run = λ e w p. (next (q e)).run e w p }

module _ {B : Type 0} {P : Db → Type 0} where
  pub fail_if-Refuses :
      (b : Bool) (x : AppError) (f : Unit {0} → M B)
      → (b ≡ false → Refuses P (f tt))
      → Refuses P (fail_if b x >>= f)
  unfolding ◌>>=◌
  fail_if-Refuses true x f next = record { run = λ e w p. (refl, refl, refl, refl, refl) }
  fail_if-Refuses false x f next = record { run = λ e w p. (next refl).run e w p }

  pub or_fail-Refuses :
      {A : Type 0} (o : Option A) (x : AppError) {f : A → M B}
      → ((a : A) → o ≡ some a → Refuses P (f a))
      → Refuses P (or_fail o x >>= f)
  unfolding ◌>>=◌
  or_fail-Refuses none x next = record { run = λ e w p. (refl, refl, refl, refl, refl) }
  or_fail-Refuses (some a) x next = record { run = λ e w p. (next a refl).run e w p }

-- A property of the tables that excludes itself is refused by every body.
pub never-Refuses : {A : Type 0} {P : Db → Type 0} {m : M A} → ((d : Db) → P d → ⊥) → Refuses P m
never-Refuses none_left = record { run = λ e w p. absurd (none_left w.db p) }

pub weaken-Refuses :
    {A : Type 0} {P Q : Db → Type 0} {m : M A} → ((d : Db) → P d → Q d) → Refuses Q m → Refuses P m
weaken-Refuses h t = record { run = λ e w p. t.run e w (h w.db p) }

pub or_fail-none-Refuses :
    {A : Type 0} {P : Db → Type 0} (o : Option A) (x : AppError)
    → ((d : Db) → P d → o ≡ none)
    → Refuses P (or_fail o x)
or_fail-none-Refuses none x h = fail-Refuses x
or_fail-none-Refuses (some a) x h = never-Refuses (λ d p. ground (arith, h d p))

pub fail_if-true-Refuses :
    {P : Db → Type 0} (b : Bool) (x : AppError)
    → ((d : Db) → P d → b ≡ true)
    → Refuses P (fail_if b x)
fail_if-true-Refuses true x h = fail-Refuses x
fail_if-true-Refuses false x h = never-Refuses (λ d p. ground (arith, h d p))

pub when-true-Refuses :
    {P : Db → Type 0} (b : Bool) {m : M (Unit {0})}
    → ((d : Db) → P d → b ≡ true)
    → Refuses P m
    → Refuses P (when b m)
when-true-Refuses true h t = t
when-true-Refuses false h t = never-Refuses (λ d p. ground (arith, h d p))

-- A row that must be there.
pub lookup-Refuses :
    {A B : Type 0} {P : Db → Type 0} (q : Db → Option A) (x : AppError) (f : A → M B)
    → ((a : A) → Refuses (λ d. P d × (q d ≡ some a)) (f a))
    → Refuses P ((query q >>= λ o. or_fail o x) >>= f)
unfolding ◌>>=◌ query execute answer
lookup-Refuses q x f next = record {
  run = λ e w p. elim (Bool-cases (e.fault w.stmts)) [
    | inl lost ↦ rw lost (refl, refl, refl, refl, refl)
    | inr there ↦ rw there (elim (Option-cases (q w.db)) [
      | inl gone ↦ rw gone (refl, refl, refl, refl, refl)
      | inr (a, found) ↦ rw found ((next a).run e (record w { stmts = suc w.stmts }) (p, found))
    ])
  ];
}
