-- ===== src/App/Answering.antt =====
-- What a body answers when no statement is lost.
use rsmc_engine.Base.{◌≡◌, refl, false, arith}
use rsmc_engine.Error.{Result, ok, err}
use rsmc_engine.App.Types.{Env, World}
use rsmc_engine.App.Monad.{M, pure, and_then, ◌>>=◌}
use rsmc_engine.App.Refusal.{is_err}
use rsmc_engine.App.Rollback.{NoFaults, Sure}

abbrev pub Answers : {A : Type 0} → (A → Type 0) → Result A → Type 0
Answers Q (ok a) = Q a
Answers Q (err x) = ⊥

pub record Gives {A : Type 0} (Q : A → Type 0) (m : M A) : Type 0 where
  pub run : (e : Env) (w : World) → NoFaults e → Answers Q (m e w).0

pub bind-Gives :
    {A B : Type 0} {m : M A} {f : A → M B} {R : B → Type 0} (Q : A → Type 0)
    → Gives Q m
    → ((a : A) → Q a → Gives R (f a))
    → Gives R (m >>= f)
unfolding ◌>>=◌
bind-Gives {m = m} {f = f} {R = R} Q t next = record {
  run = λ e w n. after e (m e w) n (t.run e w n);
}
  where
    after :
        (e : Env) (r : Result _ × World)
        → NoFaults e
        → Answers Q r.0
        → Answers R (and_then r (λ a w'. f a e w')).0
    after e (ok a, w) n h = (next a h).run e w n
    after e (err x, w) n h = absurd h

pub pure-Gives : {A : Type 0} {Q : A → Type 0} (a : A) → Q a → Gives Q (pure a)
pure-Gives a h = record { run = λ e w n. h }

pub Sure-Gives : {A : Type 0} {m : M A} → Sure m → Gives (λ _. Unit {0}) m
Sure-Gives {A = A} {m = m} t = record { run = λ e w n. there (m e w).0 (t.run e w n) }
  where
    there : (r : Result A) → is_err r ≡ false → Answers (λ _. Unit {0}) r
    there (ok a) h = tt
    there (err x) h = absurd (ground (arith, h))

pub Gives-Sure : {A : Type 0} {Q : A → Type 0} {m : M A} → Gives Q m → Sure m
Gives-Sure {A = A} {Q = Q} {m = m} t = record { run = λ e w n. there (m e w).0 (t.run e w n) }
  where
    there : (r : Result A) → Answers Q r → is_err r ≡ false
    there (ok a) h = refl
    there (err x) h = absurd h
