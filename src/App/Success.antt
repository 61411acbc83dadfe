-- ===== src/App/Success.antt =====
-- Bodies that succeed, when no statement is lost, and what they leave.
use rsmc_engine.Base.{suc, ◌≡◌, Bool, true, false, Option, none, some, arith}
use rsmc_engine.Db.{Db, Sql, rows}
use rsmc_engine.Error.{Result, ok, err, AppError}
use rsmc_engine.App.Types.{Env, World}
use rsmc_engine.App.Monad.{
  M, pure, and_then, ◌>>=◌, or_fail, fail_if, asks, answer, execute, query, settle, transaction,
}
use rsmc_engine.App.Refusal.{is_err}
use rsmc_engine.App.Rollback.{NoFaults, Sure}
use rsmc_engine.App.Answering.{Gives, Answers}
use rsmc_engine.App.Triples.{Triple, Ends}

abbrev pub Ended : {A : Type 0} → (A → World → Type 0) → Result A × World → Type 0
Ended Q (ok a, w) = Q a w
Ended Q (err x, w) = ⊥

pub record Works {A : Type 0} (e : Env) (P : World → Type 0) (m : M A) (Q : A → World → Type 0)
    : Type 0 where
  pub run : (w : World) → P w → Ended Q (m e w)

module _ (e : Env) (faultless : NoFaults e) where
  pub bind-Works :
      {A B : Type 0} {P : World → Type 0} {m : M A} {f : A → M B} {R : B → World → Type 0}
      (Q : A → World → Type 0)
      → Works e P m Q
      → ((a : A) → Works e (Q a) (f a) R)
      → Works e P (m >>= f) R
  unfolding ◌>>=◌
  bind-Works {A} {B} {P} {m} {f} {R} Q t next = record { run = λ w p. after (m e w) (t.run w p) }
    where
      after : (r : Result A × World) → Ended Q r → Ended R (and_then r (λ a w'. f a e w'))
      after (ok a, w) h = (next a).run w h
      after (err x, w) h = absurd h

  pub pure-Works :
      {A : Type 0} {P : World → Type 0} {Q : A → World → Type 0} (a : A)
      → ((w : World) → P w → Q a w)
      → Works e P (pure a) Q
  pure-Works a h = record { run = λ w p. h w p }

  pub asks-Works :
      {A B : Type 0} {P : World → Type 0} {R : B → World → Type 0} (q : Env → A) (f : A → M B)
      → Works e P (f (q e)) R
      → Works e P (asks q >>= f) R
  unfolding ◌>>=◌ asks
  asks-Works q f next = record { run = λ w p. next.run w p }

  pub fail_if-Works :
      {P : World → Type 0} (b : Bool) (x : AppError) → b ≡ false → Works e P (fail_if b x) (λ _. P)
  fail_if-Works true x h = absurd (ground (arith, h))
  fail_if-Works false x h = record { run = λ w p. p }

  -- A statement that is executed.
  pub execute-Works :
      {A : Type 0} {P : World → Type 0} {Q : A → World → Type 0} (q : Db → Sql A) (a : A)
      (d' : World → Db)
      → ((w : World)
          → P w
          → (q w.db ≡ rows a (d' w)) × Q a (record w { db = d' w; stmts = suc w.stmts }))
      → Works e P (execute q) Q
  unfolding execute answer
  execute-Works q a d' h = record { run = λ w p. rw (faultless w.stmts, (h w p).0) (h w p).1 }

  pub transaction-Works :
      {A : Type 0} {P : World → Type 0} {Q : A → World → Type 0} {m : M A}
      → ((w : World) → P w → P (record w { stmts = suc w.stmts }))
      → ((a : A) (w : World) → Q a w → Q a (record w { stmts = suc w.stmts }))
      → Works e P m Q
      → Works e P (transaction m) Q
  unfolding transaction settle
  transaction-Works {A} {P} {Q} {m} before after t = record {
    run = λ w p. rw (faultless w.stmts) (
        settled w.db (m e (record w { stmts = suc w.stmts }))
          (t.run (record w { stmts = suc w.stmts }) (before w p)));
  }
    where
      settled : (d : Db) (r : Result A × World) → Ended Q r → Ended Q (settle e d r)
      settled d (ok a, w) h = rw (faultless w.stmts) (after a w h)
      settled d (err x, w) h = h

  -- A body that cannot fail, and what a triple says of its end.
  pub Sure-Works :
      {A : Type 0} {P E : Db → Type 0} {Q : A → Db → Type 0} {m : M A}
      → Sure m
      → Triple P m Q E
      → Works e (λ w. P w.db) m (λ a w. Q a w.db)
  Sure-Works {A} {P} {E} {Q} {m} s t = record {
    run = λ w p. there (m e w) (s.run e w faultless) (t.run e w p);
  }
    where
      there : (r : Result A × World) → is_err r.0 ≡ false → Ends Q E r → Ended (λ a w. Q a w.db) r
      there (ok a, w) ok_there h = h
      there (err x, w) bad h = absurd (ground (arith, bad))

  pub query-Works :
      {A : Type 0} {P : World → Type 0} (q : Db → A) (a : A)
      → ((w : World) → P w → (q w.db ≡ a) × P (record w { stmts = suc w.stmts }))
      → Works e P (query q) (λ a' w. P w × (a' ≡ a))
  unfolding query execute answer
  query-Works q a h = record { run = λ w p. rw (faultless w.stmts) ((h w p).1, (h w p).0) }

  pub or_fail-Works :
      {A : Type 0} {P : World → Type 0} (o : Option A) (x : AppError) (a : A)
      → Works e (λ w. P w × (o ≡ some a)) (or_fail o x) (λ _. P)
  or_fail-Works none x a = record { run = λ w p. absurd (ground (arith, p.1)) }
  or_fail-Works (some b) x a = record { run = λ w p. p.0 }

  pub Gives-Works :
      {A : Type 0} {P E : Db → Type 0} {Q : A → Type 0} {m : M A}
      → Gives Q m
      → Triple P m (λ _. P) E
      → Works e (λ w. P w.db) m (λ a w. Q a × P w.db)
  Gives-Works {A} {P} {E} {Q} {m} g t = record {
    run = λ w p. there (m e w) (g.run e w faultless) (t.run e w p);
  }
    where
      there :
          (r : Result A × World) → Answers Q r.0 → Ends (λ _. P) E r → Ended (λ a w. Q a × P w.db) r
      there (ok a, w) q h = (q, h)
      there (err x, w) q h = absurd q

  -- What does not depend on the state stays.
  pub frame-Works :
      {A F : Type 0} {P : World → Type 0} {m : M A} {Q : A → World → Type 0}
      → Works e P m Q
      → Works e (λ w. F × P w) m (λ a w. F × Q a w)
  frame-Works {A} {F} {P} {m} {Q} t = record { run = λ w p. kept (m e w) p.0 (t.run w p.1) }
    where
      kept : (r : Result A × World) → F → Ended Q r → Ended (λ a w. F × Q a w) r
      kept (ok a, w) f h = (f, h)
      kept (err x, w) f h = h

  pub given-Works :
      {A F : Type 0} {P : World → Type 0} {m : M A} {Q : A → World → Type 0}
      → (F → Works e P m Q)
      → Works e (λ w. F × P w) m Q
  given-Works t = record { run = λ w p. (t p.0).run w p.1 }
