-- ===== src/App/Reading.antt =====
-- What a body answers from tables with a property, when no statement is lost.
use rsmc_engine.Base.{suc, ◌≡◌, refl, Option, some}
use rsmc_engine.Db.{Db}
use rsmc_engine.Error.{AppError}
use rsmc_engine.App.Types.{Env, World}
use rsmc_engine.App.Monad.{M, ◌>>=◌, or_fail, answer, execute, query}
use rsmc_engine.App.Rollback.{NoFaults}
use rsmc_engine.App.Answering.{Answers, Gives}

pub record Reads {A : Type 0} (P : Db → Type 0) (Q : A → Type 0) (m : M A) : Type 0 where
  pub run : (e : Env) (w : World) → NoFaults e → P w.db → Answers Q (m e w).0

-- An answer that does not depend on the tables.
pub Gives-Reads :
    {A : Type 0} {P : Db → Type 0} {Q : A → Type 0} {m : M A} → Gives Q m → Reads P Q m
Gives-Reads t = record { run = λ e w n p. t.run e w n }

module _ {A B : Type 0} {P : Db → Type 0} {Q : B → Type 0} where
  pub query-Reads :
      (q : Db → A) {f : A → M B}
      → ((a : A) → Reads (λ d. P d × (q d ≡ a)) Q (f a))
      → Reads P Q (query q >>= f)
  unfolding ◌>>=◌ query execute answer
  query-Reads q next = record {
    run = λ e w n p.
        rw (n w.stmts) ((next (q w.db)).run e (record w { stmts = suc w.stmts }) n (p, refl));
  }

  -- A row that is there.
  pub lookup-Reads :
      (q : Db → Option A) (x : AppError) (a : A) (f : A → M B)
      → ((d : Db) → P d → q d ≡ some a)
      → Reads P Q (f a)
      → Reads P Q ((query q >>= λ o. or_fail o x) >>= f)
  unfolding ◌>>=◌ query execute answer
  lookup-Reads q x a f there next = record {
    run =
        λ e w n p. rw (n w.stmts, there w.db p) (next.run e (record w { stmts = suc w.stmts }) n p);
  }
