-- ===== src/Database/Yields.antt =====
-- What an operation returns when it returns: one rule for each way to build an operation.
use xmdm.Common.{
  ◌≡◌, refl, subst, List, [], ◌∷◌, Bool, true, false, Option, none, some, if◌then◌else◌, arith,
}
use xmdm.Database.Rows.{Db}
use xmdm.Database.{
  Error, Result, ok, err, Sys, Store, pure, raise, continue, ◌>>=◌, attempt, step, query, exec,
  tx_query, tx_exec, found, require,
}

-- Whatever `m` returns has the property, in every state and whichever statements fail.
pub record Yields {A : Type 0} (P : A → Type 0) (m : Store A) : Type 0 where
  pub at : (s : Sys) (a : A) → (m s).0 ≡ ok a → P a

ok_inj : {A : Type 0} (a b : A) → ok a ≡ ok b → a ≡ b
ok_inj a b h = cc h

module _ {A : Type 0} {P : A → Type 0} where
  pub Yields-pure : (a : A) → P a → Yields P (pure a)
  unfolding pure
  Yields-pure a p = record { at = λ s b h. subst P (ok_inj a b h) p }

  pub Yields-raise : (e : Error) → Yields P (raise e)
  unfolding raise
  Yields-raise e = record { at = λ s b h. absurd (ground arith) }

  Yields-attempt :
      (act : Sys → A × Sys) (faults : List Bool)
      → ((s : Sys) → P (act s).0)
      → Yields P (attempt act faults)
  unfolding attempt
  Yields-attempt act [] p = record { at = λ s b h. subst P (ok_inj _ b h) (p s) }
  Yields-attempt act (true ∷ rest) p = record { at = λ s b h. absurd (ground arith) }
  Yields-attempt act (false ∷ rest) p = record {
    at = λ s b h. subst P (ok_inj _ b h) (p (record s { faults = rest }));
  }

  pub Yields-query : (f : Db → A) → ((db : Db) → P (f db)) → Yields P (query f)
  unfolding query step
  Yields-query f p = record { at = λ s. (Yields-attempt _ s.faults (λ s'. p s'.db)).at s }

  pub Yields-tx_query : (f : Db → A) → ((db : Db) → P (f db)) → Yields P (tx_query f)
  unfolding tx_query step
  Yields-tx_query f p = record { at = λ s. (Yields-attempt _ s.faults (λ s'. p s'.work)).at s }

  pub Yields-tx_exec : (f : Db → A × Db) → ((db : Db) → P (f db).0) → Yields P (tx_exec f)
  unfolding tx_exec step
  Yields-tx_exec f p = record { at = λ s. (Yields-attempt _ s.faults (λ s'. p s'.work)).at s }

  pub Yields-exec : (f : Db → A × Db) → ((db : Db) → P (f db).0) → Yields P (exec f)
  unfolding exec step
  Yields-exec f p = record { at = λ s. (Yields-attempt _ s.faults (λ s'. p s'.db)).at s }

  pub Yields-if :
      (b : Bool) (m n : Store A)
      → (b ≡ true → Yields P m)
      → (b ≡ false → Yields P n)
      → Yields P (if b then m else n)
  Yields-if true m n k l = k refl
  Yields-if false m n k l = l refl

  yields_continue :
      {B : Type 0} (r : Result B) (f : B → Store A) (s : Sys) (a : A)
      → ((b : B) → r ≡ ok b → Yields P (f b))
      → (continue r f s).0 ≡ ok a
      → P a
  yields_continue (ok b) f s a k h = (k b refl).at s a h
  yields_continue (err e) f s a k h = absurd (ground arith)

  pub Yields-bind :
      {B : Type 0} (m : Store B) (f : B → Store A) → ((b : B) → Yields P (f b)) → Yields P (m >>= f)
  unfolding ◌>>=◌
  Yields-bind m f k = record { at = λ s a h. yields_continue (m s).0 f (m s).1 a (λ b _. k b) h }

  -- With what the first operation returned in hand.
  pub Yields-bind_with :
      {B : Type 0} {Q : B → Type 0} (m : Store B) (f : B → Store A)
      → Yields Q m
      → ((b : B) → Q b → Yields P (f b))
      → Yields P (m >>= f)
  unfolding ◌>>=◌
  Yields-bind_with m f k l = record {
    at = λ s a h. yields_continue (m s).0 f (m s).1 a (λ b returned. l b (k.at s b returned)) h;
  }

pub Yields-found : {A : Type 0} (o : Option A) (e : Error) → Yields (λ a. o ≡ some a) (found o e)
unfolding found
Yields-found none e = record { at = λ s b h. absurd (ground arith) }
Yields-found (some a) e = record { at = λ s b h. cc h }

pub Yields-require : (b : Bool) (e : Error) → Yields (λ _. b ≡ true) (require b e)
unfolding require
Yields-require true e = record { at = λ s b h. refl }
Yields-require false e = record { at = λ s b h. absurd (ground arith) }
