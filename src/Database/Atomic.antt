-- ===== src/Database/Atomic.antt =====
-- Operations that fail without a trace: what an operation that fails leaves of the committed
-- tables, by one rule for each way to build an operation.
use xmdm.Common.{
  ◌≡◌, refl, ◌∙◌, ℕ, List, [], ◌∷◌, Bool, true, false, Option, none, some, arith, if◌then◌else◌,
}
use xmdm.Database.Rows.{Db}
use xmdm.Database.Never.{NeverFails}
use xmdm.Database.{
  Error, Result, ok, err, ProvisionCall, Sys, Env, Store, pure, raise, continue, ◌>>=◌, attempt,
  step, query, exec, begin_tx, tx_query, tx_exec, commit, advance, now, new_uuid, new_secret,
  provision, require, found,
}

-- `m` changes no committed row, whether it returns or fails.
pub record IsQuiet {A : Type 0} (m : Store A) : Type 0 where
  pub at : (s : Sys) → (m s).1.db ≡ s.db

-- `m` changes no committed row if it fails.
pub record IsAtomic {A : Type 0} (m : Store A) : Type 0 where
  pub at : (s : Sys) (e : Error) → (m s).0 ≡ err e → (m s).1.db ≡ s.db

module _ {A : Type 0} where
  pub IsQuiet-pure : (a : A) → IsQuiet (pure a)
  unfolding pure
  IsQuiet-pure a = record { at = λ s. refl }

  pub IsQuiet-raise : (e : Error) → IsQuiet (raise {A = A} e)
  unfolding raise
  IsQuiet-raise e = record { at = λ s. refl }

  IsQuiet-attempt :
      (act : Sys → A × Sys)
      → ((s : Sys) → (act s).1.db ≡ s.db)
      → (faults : List Bool) → IsQuiet (attempt act faults)
  unfolding attempt
  IsQuiet-attempt act k [] = record { at = k }
  IsQuiet-attempt act k (true ∷ rest) = record { at = λ s. refl }
  IsQuiet-attempt act k (false ∷ rest) = record { at = λ s. k (record s { faults = rest }) }

  IsQuiet-step : (act : Sys → A × Sys) → ((s : Sys) → (act s).1.db ≡ s.db) → IsQuiet (step act)
  unfolding step
  IsQuiet-step act k = record { at = λ s. (IsQuiet-attempt act k s.faults).at s }

  pub IsQuiet-query : (f : Db → A) → IsQuiet (query f)
  unfolding query
  IsQuiet-query f = IsQuiet-step _ (λ s. refl)

  pub IsQuiet-tx_query : (f : Db → A) → IsQuiet (tx_query f)
  unfolding tx_query
  IsQuiet-tx_query f = IsQuiet-step _ (λ s. refl)

  pub IsQuiet-tx_exec : (f : Db → A × Db) → IsQuiet (tx_exec f)
  unfolding tx_exec
  IsQuiet-tx_exec f = IsQuiet-step _ (λ s. refl)

  pub IsQuiet-if : (b : Bool) (m n : Store A) → IsQuiet m → IsQuiet n → IsQuiet (if b then m else n)
  IsQuiet-if true m n k l = k
  IsQuiet-if false m n k l = l

  pub IsQuiet-found : (o : Option A) (e : Error) → IsQuiet (found o e)
  unfolding found
  IsQuiet-found none e = record { at = λ s. refl }
  IsQuiet-found (some a) e = record { at = λ s. refl }

pub IsQuiet-begin_tx : IsQuiet begin_tx
unfolding begin_tx
IsQuiet-begin_tx = IsQuiet-step _ (λ s. refl)

db-advance : (ticks : List ℕ) (s : Sys) → (advance ticks s).db ≡ s.db
unfolding advance
db-advance [] s = refl
db-advance (d ∷ rest) s = refl

pub IsQuiet-now : IsQuiet now
unfolding now
IsQuiet-now = record { at = λ s. db-advance s.ticks s }

pub IsQuiet-new_uuid : (env : Env) → IsQuiet (new_uuid env)
unfolding new_uuid
IsQuiet-new_uuid env = record { at = λ s. refl }

pub IsQuiet-new_secret : (env : Env) → IsQuiet (new_secret env)
unfolding new_secret
IsQuiet-new_secret env = IsQuiet-step _ (λ s. refl)

pub IsQuiet-provision : (env : Env) (call : ProvisionCall) → IsQuiet (provision env call)
unfolding provision
IsQuiet-provision env call = record { at = λ s. ground arith }

pub IsQuiet-require : (b : Bool) (e : Error) → IsQuiet (require b e)
unfolding require
IsQuiet-require true e = record { at = λ s. refl }
IsQuiet-require false e = record { at = λ s. refl }

module _ {A B : Type 0} where
  db-continue :
      (r : Result A) (f : A → Store B) (s : Sys)
      → ((a : A) → IsQuiet (f a))
      → (continue r f s).1.db ≡ s.db
  db-continue (ok a) f s k = (k a).at s
  db-continue (err e) f s k = refl

  pub IsQuiet-bind :
      (m : Store A) (f : A → Store B) → IsQuiet m → ((a : A) → IsQuiet (f a)) → IsQuiet (m >>= f)
  unfolding ◌>>=◌
  IsQuiet-bind m f k l = record { at = λ s. db-continue (m s).0 f (m s).1 l ∙ k.at s }

  db-continue_err :
      (r : Result A) (f : A → Store B) (s : Sys) (e : Error)
      → ((a : A) → IsAtomic (f a))
      → (continue r f s).0 ≡ err e
      → (continue r f s).1.db ≡ s.db
  db-continue_err (ok a) f s e k h = (k a).at s e h
  db-continue_err (err d) f s e k h = refl

  -- What comes before must change no row at all.
  pub IsAtomic-bind :
      (m : Store A) (f : A → Store B) → IsQuiet m → ((a : A) → IsAtomic (f a)) → IsAtomic (m >>= f)
  unfolding ◌>>=◌
  IsAtomic-bind m f k l = record { at = λ s e h. db-continue_err (m s).0 f (m s).1 e l h ∙ k.at s }

module _ {A : Type 0} where
  pub IsAtomic-of_IsQuiet : (m : Store A) → IsQuiet m → IsAtomic m
  IsAtomic-of_IsQuiet m k = record { at = λ s e h. k.at s }

  pub IsAtomic-if :
      (b : Bool) (m n : Store A) → IsAtomic m → IsAtomic n → IsAtomic (if b then m else n)
  IsAtomic-if true m n k l = k
  IsAtomic-if false m n k l = l

  -- A statement of the pool stands alone: it fails or it is committed.
  IsAtomic-attempt : (act : Sys → A × Sys) (faults : List Bool) → IsAtomic (attempt act faults)
  unfolding attempt
  IsAtomic-attempt act [] = record { at = λ s e h. absurd (ground arith) }
  IsAtomic-attempt act (true ∷ rest) = record { at = λ s e h. refl }
  IsAtomic-attempt act (false ∷ rest) = record { at = λ s e h. absurd (ground arith) }

  pub IsAtomic-exec : (f : Db → A × Db) → IsAtomic (exec f)
  unfolding exec step
  IsAtomic-exec f = record { at = λ s. (IsAtomic-attempt _ s.faults).at s }

  -- `Commit` and then a return.
  commit_attempt :
      (act : Sys → Unit {0} × Sys) (a : A) (faults : List Bool)
      → IsAtomic (attempt act faults >>= λ _. pure a)
  unfolding attempt ◌>>=◌
  commit_attempt act a [] = record { at = λ s e h. absurd (ground arith) }
  commit_attempt act a (true ∷ rest) = record { at = λ s e h. refl }
  commit_attempt act a (false ∷ rest) = record { at = λ s e h. absurd (ground arith) }

  pub IsAtomic-commit : (a : A) → IsAtomic (commit >>= λ _. pure a)
  unfolding commit step ◌>>=◌
  IsAtomic-commit a = record {
    at = λ s. (commit_attempt (λ s. (tt, record s { db = s.work })) a s.faults).at s;
  }

module _ {A : Type 0} where
  commit_attempt_then :
      (act : Sys → Unit {0} × Sys) (m : Store A) (faults : List Bool)
      → NeverFails m
      → IsAtomic (attempt act faults >>= λ _. m)
  unfolding attempt ◌>>=◌
  commit_attempt_then act m [] never = record { at = λ s e h. absurd (never.at _ e h) }
  commit_attempt_then act m (true ∷ rest) never = record { at = λ s e h. refl }
  commit_attempt_then act m (false ∷ rest) never = record { at = λ s e h. absurd (never.at _ e h) }

  -- `Commit` and then what does not fail.
  pub IsAtomic-commit_then : (m : Store A) → NeverFails m → IsAtomic (commit >>= λ _. m)
  unfolding commit step ◌>>=◌
  IsAtomic-commit_then m never = record {
    at = λ s. (commit_attempt_then (λ s. (tt, record s { db = s.work })) m s.faults never).at s;
  }

  db-continue-pure :
      {B : Type 0} (r : Result B) (a : A) (s s' : Sys) (e : Error)
      → ((d : Error) → r ≡ err d → s'.db ≡ s.db)
      → (continue r (λ _. pure a) s').0 ≡ err e
      → (continue r (λ _. pure a) s').1.db ≡ s.db
  unfolding pure
  db-continue-pure (ok b) a s s' e k h = absurd (ground arith)
  db-continue-pure (err d) a s s' e k h = k d refl

  pub IsAtomic-then_pure :
      {B : Type 0} (m : Store B) (a : A) → IsAtomic m → IsAtomic (m >>= λ _. pure a)
  unfolding ◌>>=◌
  IsAtomic-then_pure m a k = record {
    at = λ s e h. db-continue-pure (m s).0 a s (m s).1 e (k.at s) h;
  }

pub ruleset quiet_rules = (
  IsQuiet-pure, IsQuiet-raise, IsQuiet-query, IsQuiet-tx_query, IsQuiet-tx_exec, IsQuiet-if,
  IsQuiet-found, IsQuiet-begin_tx, IsQuiet-now, IsQuiet-new_uuid, IsQuiet-new_secret,
  IsQuiet-provision, IsQuiet-require, IsQuiet-bind,
)

pub ruleset atomic_rules =
    (quiet_rules, IsAtomic-bind, IsAtomic-of_IsQuiet, IsAtomic-if, IsAtomic-exec, IsAtomic-commit)
