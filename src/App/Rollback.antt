-- ===== src/App/Rollback.antt =====
-- Bodies of which an error undoes everything, when no statement is lost.
use rsmc_engine.Base.{
  ℕ, suc, ◌≡◌, refl, ◌∙◌, Bool, true, false, Option, none, some, List, [], ◌∷◌, inl, inr,
  Bool-cases, arith,
}
use rsmc_engine.Db.{Db, Sql, rows, fails}
use rsmc_engine.Error.{Result, ok, err, AppError}
use rsmc_engine.App.Types.{Env, World, Output}
use rsmc_engine.App.Monad.{
  M, pure, fail, and_then, ◌>>=◌, or_fail, fail_if, when, recovered, attempt, for_each, new_v4, now,
  answer, execute, query, settle, transaction, with_hub, emit,
}
use rsmc_engine.App.Refusal.{is_err}
use rsmc_engine.Hub.{Hub}

abbrev pub NoFaults : Env → Type 0
NoFaults e = (n : ℕ) → e.fault n ≡ false

-- The tables and the output stay as they were.
abbrev pub Same : World → World → Type 0
Same w w' = (w'.db ≡ w.db) × (w'.out ≡ w.out)

abbrev pub is_rows : {A : Type 0} → Sql A → Bool
is_rows (rows a d) = true
is_rows (fails x) = false

pub record Still {A : Type 0} (m : M A) : Type 0 where
  pub run : (e : Env) (w : World) → Same w (m e w).1

pub record Silent {A : Type 0} (m : M A) : Type 0 where
  pub run : (e : Env) (w : World) → (m e w).1.out ≡ w.out

pub record Sure {A : Type 0} (m : M A) : Type 0 where
  pub run : (e : Env) (w : World) → NoFaults e → is_err (m e w).0 ≡ false

pub record Atomic {A : Type 0} (m : M A) : Type 0 where
  pub run : (e : Env) (w : World) → NoFaults e → is_err (m e w).0 ≡ true → Same w (m e w).1

module _ {A B : Type 0} {m : M A} {f : A → M B} where
  pub bind-Still : Still m → ((a : A) → Still (f a)) → Still (m >>= f)
  unfolding ◌>>=◌
  bind-Still t next = record { run = λ e w. after e w (m e w) (t.run e w) }
    where
      after :
          (e : Env) (w : World) (r : Result A × World)
          → Same w r.1
          → Same w (and_then r (λ a w'. f a e w')).1
      after e w (ok a, w') h = let (x, y) = (next a).run e w' in (x ∙ h.0, y ∙ h.1)
      after e w (err x, w') h = h

  pub bind-Silent : Silent m → ((a : A) → Silent (f a)) → Silent (m >>= f)
  unfolding ◌>>=◌
  bind-Silent t next = record { run = λ e w. after e w (m e w) (t.run e w) }
    where
      after :
          (e : Env) (w : World) (r : Result A × World)
          → r.1.out ≡ w.out
          → (and_then r (λ a w'. f a e w')).1.out ≡ w.out
      after e w (ok a, w') h = (next a).run e w' ∙ h
      after e w (err x, w') h = h

  pub bind-Sure : Sure m → ((a : A) → Sure (f a)) → Sure (m >>= f)
  unfolding ◌>>=◌
  bind-Sure t next = record { run = λ e w n. after e (m e w) n (t.run e w n) }
    where
      after :
          (e : Env) (r : Result A × World)
          → NoFaults e
          → is_err r.0 ≡ false
          → is_err (and_then r (λ a w'. f a e w')).0 ≡ false
      after e (ok a, w') n h = (next a).run e w' n
      after e (err x, w') n h = h

  -- First what changes nothing, then what is all or nothing.
  pub bind-Atomic : Still m → ((a : A) → Atomic (f a)) → Atomic (m >>= f)
  unfolding ◌>>=◌
  bind-Atomic t next = record { run = λ e w n bad. after e w (m e w) n (t.run e w) bad }
    where
      after :
          (e : Env) (w : World) (r : Result A × World)
          → NoFaults e
          → Same w r.1
          → is_err (and_then r (λ a w'. f a e w')).0 ≡ true
          → Same w (and_then r (λ a w'. f a e w')).1
      after e w (ok a, w') n h bad = let (x, y) = (next a).run e w' n bad in (x ∙ h.0, y ∙ h.1)
      after e w (err x, w') n h bad = h

  -- First what is all or nothing, then what cannot fail.
  pub then-Atomic : Atomic m → ((a : A) → Sure (f a)) → Atomic (m >>= f)
  unfolding ◌>>=◌
  then-Atomic t next = record { run = λ e w n bad. after e w (m e w) n (t.run e w n) bad }
    where
      after :
          (e : Env) (w : World) (r : Result A × World)
          → NoFaults e
          → (is_err r.0 ≡ true → Same w r.1)
          → is_err (and_then r (λ a w'. f a e w')).0 ≡ true
          → Same w (and_then r (λ a w'. f a e w')).1
      after e w (ok a, w') n h bad = absurd (ground (arith, bad, (next a).run e w' n))
      after e w (err x, w') n h bad = h refl

module _ {A : Type 0} where
  pub Still-Atomic : {m : M A} → Still m → Atomic m
  Still-Atomic t = record { run = λ e w n bad. t.run e w }

  pub Sure-Atomic : {m : M A} → Sure m → Atomic m
  Sure-Atomic t = record { run = λ e w n bad. absurd (ground (arith, bad, t.run e w n)) }

  pub Still-Silent : {m : M A} → Still m → Silent m
  Still-Silent t = record { run = λ e w. (t.run e w).1 }

  pub pure-Still : (a : A) → Still (pure a)
  pure-Still a = record { run = λ e w. (refl, refl) }

  pub pure-Sure : (a : A) → Sure (pure a)
  pure-Sure a = record { run = λ e w n. refl }

  pub fail-Still : (x : AppError) → Still (fail {A = A} x)
  fail-Still x = record { run = λ e w. (refl, refl) }

  pub or_fail-Still : (o : Option A) (x : AppError) → Still (or_fail o x)
  or_fail-Still none x = fail-Still x
  or_fail-Still (some a) x = pure-Still a

  pub query-Still : (q : Db → A) → Still (query q)
  unfolding query execute answer
  query-Still q = record {
    run = λ e w. elim (Bool-cases (e.fault w.stmts)) [
      | inl f ↦ rw f (refl, refl)
      | inr f ↦ rw f (refl, refl)
    ];
  }

  pub query-Sure : (q : Db → A) → Sure (query q)
  unfolding query execute answer
  query-Sure q = record { run = λ e w n. rw (n w.stmts) refl }

  -- A statement that is refused has changed nothing.
  pub execute-Atomic : (q : Db → Sql A) → Atomic (execute q)
  unfolding execute answer
  execute-Atomic q = record {
    run = λ e w n. rw (n w.stmts) (answer-Same (record w { stmts = suc w.stmts }) (q w.db));
  }
    where
      answer-Same : (w : World) (s : Sql A) → is_err (answer w s).0 ≡ true → Same w (answer w s).1
      answer-Same w (rows a d) bad = absurd (ground (arith, bad))
      answer-Same w (fails x) bad = (refl, refl)

  pub execute-Silent : (q : Db → Sql A) → Silent (execute q)
  unfolding execute answer
  execute-Silent q = record {
    run = λ e w. elim (Bool-cases (e.fault w.stmts)) [
      | inl f ↦ rw f refl
      | inr f ↦ rw f (out-answer (record w { stmts = suc w.stmts }) (q w.db))
    ];
  }
    where
      out-answer : (w : World) (s : Sql A) → (answer w s).1.out ≡ w.out
      out-answer w (rows a d) = refl
      out-answer w (fails x) = refl

  -- A statement that no row and no constraint can refuse.
  pub execute-Sure : (q : Db → Sql A) → ((d : Db) → is_rows (q d) ≡ true) → Sure (execute q)
  unfolding execute answer
  execute-Sure q always = record {
    run = λ e w n.
        rw (n w.stmts) (answer_lem (record w { stmts = suc w.stmts }) (q w.db) (always w.db));
  }
    where
      answer_lem : (w : World) (s : Sql A) → is_rows s ≡ true → is_err (answer w s).0 ≡ false
      answer_lem w (rows a d) h = refl
      answer_lem w (fails x) h = absurd (ground (arith, h))

  -- A transaction whose body sends nothing.
  pub transaction-Atomic : {m : M A} → Silent m → Atomic (transaction m)
  unfolding transaction settle
  transaction-Atomic {m} t = record {
    run = λ e w n. rw (n w.stmts) (
        settled e w (m e (record w { stmts = suc w.stmts })) n
          (t.run e (record w { stmts = suc w.stmts })));
  }
    where
      settled :
          (e : Env) (w : World) (r : Result A × World)
          → NoFaults e
          → r.1.out ≡ w.out
          → is_err (settle e w.db r).0 ≡ true
          → Same w (settle e w.db r).1
      settled e w (ok a, w') n h = rw (n w'.stmts) (λ bad. absurd (ground (arith, bad)))
      settled e w (err x, w') n h = λ bad. (refl, h)

  -- A dropped error is no error.
  pub attempt-Sure : (m : M A) → Sure (attempt m)
  unfolding attempt
  attempt-Sure m = record { run = λ e w n. recovered_lem (m e w) }
    where
      recovered_lem : (r : Result A × World) → is_err (recovered r).0 ≡ false
      recovered_lem (ok a, w) = refl
      recovered_lem (err x, w) = refl

pub fail_if-Still : (b : Bool) (x : AppError) → Still (fail_if b x)
fail_if-Still true x = fail-Still x
fail_if-Still false x = pure-Still tt

pub when-Still : (b : Bool) {m : M (Unit {0})} → Still m → Still (when b m)
when-Still true t = t
when-Still false t = pure-Still tt

pub when-Sure : (b : Bool) {m : M (Unit {0})} → Sure m → Sure (when b m)
when-Sure true t = t
when-Sure false t = pure-Sure tt

pub when-Silent : (b : Bool) {m : M (Unit {0})} → Silent m → Silent (when b m)
when-Silent true t = t
when-Silent false t = Still-Silent (pure-Still tt)

pub for_each-Silent :
    {A : Type 0} (xs : List A) {f : A → M (Unit {0})}
    → ((a : A) → Silent (f a))
    → Silent (for_each xs f)
unfolding for_each
for_each-Silent [] t = Still-Silent (pure-Still tt)
for_each-Silent (x ∷ xs) t = bind-Silent (t x) (λ _. for_each-Silent xs t)

pub for_each-Sure :
    {A : Type 0} (xs : List A) {f : A → M (Unit {0})}
    → ((a : A) → Sure (f a))
    → Sure (for_each xs f)
unfolding for_each
for_each-Sure [] t = pure-Sure tt
for_each-Sure (x ∷ xs) t = bind-Sure (t x) (λ _. for_each-Sure xs t)

pub new_v4-Still : Still new_v4
unfolding new_v4
new_v4-Still = record { run = λ e w. (refl, refl) }

pub new_v4-Sure : Sure new_v4
unfolding new_v4
new_v4-Sure = record { run = λ e w n. refl }

pub now-Still : Still now
unfolding now
now-Still = record { run = λ e w. (refl, refl) }

pub now-Sure : Sure now
unfolding now
now-Sure = record { run = λ e w n. refl }

pub with_hub-Sure : {A : Type 0} (f : Hub → A × Hub) → Sure (with_hub f)
unfolding with_hub
with_hub-Sure f = record { run = λ e w n. refl }

pub with_hub-Still : {A : Type 0} (f : Hub → A × Hub) → Still (with_hub f)
unfolding with_hub
with_hub-Still f = record { run = λ e w. (refl, refl) }

pub emit-Sure : (f : Env → Hub → List Output) → Sure (emit f)
unfolding emit
emit-Sure f = record { run = λ e w n. refl }

pub local-Sure : {A : Type 0} {m : Env → M A} → ((e : Env) → Sure (m e)) → Sure (λ e. m e e)
local-Sure t = record { run = λ e w n. (t e).run e w n }

pub ruleset stilly = (
  bind-Still, pure-Still, fail-Still, or_fail-Still, query-Still, fail_if-Still, when-Still,
  new_v4-Still, now-Still, with_hub-Still,
)

pub ruleset surely = (
  bind-Sure, pure-Sure, query-Sure, attempt-Sure, when-Sure, for_each-Sure, new_v4-Sure, now-Sure,
  with_hub-Sure, emit-Sure,
)
