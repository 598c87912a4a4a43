-- ===== src/Database/Keeps.antt =====
-- Invariants of the tables: one rule for each way to build a store operation. An operation keeps a
-- property of the tables if the committed tables and the working copy have it afterwards, whether
-- the operation returned or failed, and whichever statements failed on the way.
use xmdm.Common.{◌≡◌, refl, ℕ, List, [], ◌∷◌, Bool, true, false, Option, none, some, if◌then◌else◌}
use xmdm.Database.Rows.{Db}
use xmdm.Database.{
  Error, Result, ok, err, Message, ProvisionCall, Sys, Env, Store, pure, raise, continue, ◌>>=◌,
  catch, attempt, step, query, exec, begin_tx, tx_query, tx_exec, commit, advance, now, new_uuid,
  new_secret, provision, publish, require, found,
}

pub record Holds (Q : Db → Type 0) (s : Sys) : Type 0 where
  pub at_db : Q s.db
  pub at_work : Q s.work

pub record Keeps (Q : Db → Type 0) {A : Type 0} (m : Store A) : Type 0 where
  pub at : (s : Sys) → Holds Q s → Holds Q (m s).1

module _ {Q : Db → Type 0} where
  pub Keeps-pure : {A : Type 0} (a : A) → Keeps Q (pure a)
  unfolding pure
  Keeps-pure a = record { at = λ s h. h }

  pub Keeps-raise : {A : Type 0} (e : Error) → Keeps Q (raise {A = A} e)
  unfolding raise
  Keeps-raise e = record { at = λ s h. h }

  Keeps-attempt :
      {A : Type 0} (act : Sys → A × Sys)
      → ((s : Sys) → Holds Q s → Holds Q (act s).1)
      → (faults : List Bool) → Keeps Q (attempt act faults)
  unfolding attempt
  Keeps-attempt act k [] = record { at = λ s h. k s h }
  Keeps-attempt act k (true ∷ rest) = record {
    at = λ s h. record { at_db = h.at_db; at_work = h.at_work };
  }
  Keeps-attempt act k (false ∷ rest) = record {
    at = λ s h. k (record s { faults = rest }) (record { at_db = h.at_db; at_work = h.at_work });
  }

  Keeps-step :
      {A : Type 0} (act : Sys → A × Sys)
      → ((s : Sys) → Holds Q s → Holds Q (act s).1)
      → Keeps Q (step act)
  unfolding step
  Keeps-step act k = record { at = λ s h. (Keeps-attempt act k s.faults).at s h }

  pub Keeps-query : {A : Type 0} (f : Db → A) → Keeps Q (query f)
  unfolding query
  Keeps-query f = Keeps-step _ (λ s h. h)

  pub Keeps-exec : {A : Type 0} (f : Db → A × Db) → ((d : Db) → Q d → Q (f d).1) → Keeps Q (exec f)
  unfolding exec
  Keeps-exec f k = Keeps-step _ (λ s h. record { at_db = k s.db h.at_db; at_work = h.at_work })

  pub Keeps-begin_tx : Keeps Q begin_tx
  unfolding begin_tx
  Keeps-begin_tx = Keeps-step _ (λ s h. record { at_db = h.at_db; at_work = h.at_db })

  pub Keeps-tx_query : {A : Type 0} (f : Db → A) → Keeps Q (tx_query f)
  unfolding tx_query
  Keeps-tx_query f = Keeps-step _ (λ s h. h)

  pub Keeps-tx_exec :
      {A : Type 0} (f : Db → A × Db) → ((d : Db) → Q d → Q (f d).1) → Keeps Q (tx_exec f)
  unfolding tx_exec
  Keeps-tx_exec f k = Keeps-step _ (λ s h. record { at_db = h.at_db; at_work = k s.work h.at_work })

  pub Keeps-commit : Keeps Q commit
  unfolding commit
  Keeps-commit = Keeps-step _ (λ s h. record { at_db = h.at_work; at_work = h.at_work })

  Holds-advance : (ticks : List ℕ) (s : Sys) → Holds Q s → Holds Q (advance ticks s)
  unfolding advance
  Holds-advance [] s h = h
  Holds-advance (d ∷ rest) s h = record { at_db = h.at_db; at_work = h.at_work }

  pub Keeps-now : Keeps Q now
  unfolding now
  Keeps-now = record { at = λ s h. Holds-advance s.ticks s h }

  pub Keeps-new_uuid : (env : Env) → Keeps Q (new_uuid env)
  unfolding new_uuid
  Keeps-new_uuid env = record { at = λ s h. record { at_db = h.at_db; at_work = h.at_work } }

  pub Keeps-new_secret : (env : Env) → Keeps Q (new_secret env)
  unfolding new_secret
  Keeps-new_secret env = Keeps-step _ (λ s h. record { at_db = h.at_db; at_work = h.at_work })

  pub Keeps-if :
      {A : Type 0} (b : Bool) (m n : Store A) → Keeps Q m → Keeps Q n → Keeps Q (if b then m else n)
  Keeps-if true m n k l = k
  Keeps-if false m n k l = l

  Holds-choice :
      {A : Type 0} (b : Bool) (p q : A × Sys)
      → Holds Q p.1
      → Holds Q q.1
      → Holds Q (if b then p else q).1
  Holds-choice true p q h k = h
  Holds-choice false p q h k = k

  pub Keeps-provision : (env : Env) (call : ProvisionCall) → Keeps Q (provision env call)
  unfolding provision
  Keeps-provision env call = record {
    at = λ s h.
        Holds-choice env.has_provisioner _ _ (record { at_db = h.at_db; at_work = h.at_work }) h;
  }

  pub Keeps-publish : (takes : Message → Bool) (m : Message) → Keeps Q (publish takes m)
  unfolding publish
  Keeps-publish takes m = record {
    at = λ s h. Holds-choice (takes m) _ _ (record { at_db = h.at_db; at_work = h.at_work }) h;
  }

  pub Keeps-require : (b : Bool) (e : Error) → Keeps Q (require b e)
  unfolding require
  Keeps-require true e = record { at = λ s h. h }
  Keeps-require false e = record { at = λ s h. h }

  pub Keeps-found : {A : Type 0} (o : Option A) (e : Error) → Keeps Q (found o e)
  unfolding found
  Keeps-found none e = record { at = λ s h. h }
  Keeps-found (some a) e = record { at = λ s h. h }

  Holds-continue :
      {A B : Type 0} (r : Result A) (f : A → Store B) (s : Sys)
      → ((a : A) → Keeps Q (f a))
      → Holds Q s
      → Holds Q (continue r f s).1
  Holds-continue (ok a) f s k h = (k a).at s h
  Holds-continue (err e) f s k h = h

  pub Keeps-bind :
      {A B : Type 0} (m : Store A) (f : A → Store B)
      → Keeps Q m
      → ((a : A) → Keeps Q (f a))
      → Keeps Q (m >>= f)
  unfolding ◌>>=◌
  Keeps-bind m f k l = record { at = λ s h. Holds-continue (m s).0 f (m s).1 l (k.at s h) }

  -- With what the lookup found in hand.
  pub Keeps-found_bind :
      {A B : Type 0} (o : Option A) (e : Error) (f : A → Store B)
      → ((a : A) → o ≡ some a → Keeps Q (f a))
      → Keeps Q (found o e >>= f)
  unfolding found ◌>>=◌
  Keeps-found_bind none e f k = record { at = λ s h. h }
  Keeps-found_bind (some a) e f k = record { at = λ s h. (k a refl).at s h }

  Holds-catch :
      {A : Type 0} (r : Result A) (handler : Error → Store A) (s : Sys)
      → ((e : Error) → Keeps Q (handler e))
      → Holds Q s
      → Holds Q (let p : Result A × Sys = elim r [ ok a ↦ (ok a, s) | err e ↦ handler e s ] in p).1
  Holds-catch (ok a) handler s k h = h
  Holds-catch (err e) handler s k h = (k e).at s h

  pub Keeps-catch :
      {A : Type 0} (m : Store A) (handler : Error → Store A)
      → Keeps Q m
      → ((e : Error) → Keeps Q (handler e))
      → Keeps Q (catch m handler)
  unfolding catch
  Keeps-catch m handler k l = record {
    at = λ s h. Holds-catch (m s).0 handler (m s).1 l (k.at s h);
  }

pub ruleset keeps_rules = (
  Keeps-pure, Keeps-raise, Keeps-query, Keeps-begin_tx, Keeps-tx_query, Keeps-commit, Keeps-now,
  Keeps-new_uuid, Keeps-new_secret, Keeps-if, Keeps-provision, Keeps-publish, Keeps-require,
  Keeps-found, Keeps-bind, Keeps-catch,
)
