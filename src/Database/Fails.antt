-- ===== src/Database/Fails.antt =====
-- Operations that keep a property of the committed tables when they fail, by one rule for each way to
-- build an operation.
use xmdm.Common.{◌≡◌, Bool, true, false, if◌then◌else◌}
use xmdm.Database.Rows.{Db}
use xmdm.Database.{Error, Result, ok, err, Sys, Store, continue, ◌>>=◌}
use xmdm.Database.Keeps.{Holds, Keeps}
use xmdm.Database.Atomic.{IsAtomic}

-- If `m` fails in a state whose tables have the property, the committed tables still do.
pub record FailsWith (Q : Db → Type 0) {A : Type 0} (m : Store A) : Type 0 where
  pub at : (s : Sys) (e : Error) → Holds Q s → (m s).0 ≡ err e → Q (m s).1.db

module _ {Q : Db → Type 0} {A : Type 0} where
  pub FailsWith-of_Keeps : (m : Store A) → Keeps Q m → FailsWith Q m
  FailsWith-of_Keeps m k = record { at = λ s e h _. (k.at s h).at_db }

  pub FailsWith-of_IsAtomic : (m : Store A) → IsAtomic m → FailsWith Q m
  FailsWith-of_IsAtomic m k = record { at = λ s e h failed. rw (k.at s e failed) h.at_db }

  pub FailsWith-if :
      (b : Bool) (m n : Store A) → FailsWith Q m → FailsWith Q n → FailsWith Q (if b then m else n)
  FailsWith-if true m n k l = k
  FailsWith-if false m n k l = l

  fails_continue :
      {B : Type 0} (r : Result B) (f : B → Store A) (s : Sys) (e : Error)
      → ((b : B) → FailsWith Q (f b))
      → Holds Q s
      → (continue r f s).0 ≡ err e
      → Q (continue r f s).1.db
  fails_continue (ok b) f s e k h failed = (k b).at s e h failed
  fails_continue (err d) f s e k h failed = h.at_db

  pub FailsWith-bind :
      {B : Type 0} (m : Store B) (f : B → Store A)
      → Keeps Q m
      → ((b : B) → FailsWith Q (f b))
      → FailsWith Q (m >>= f)
  unfolding ◌>>=◌
  FailsWith-bind m f k l = record { at = λ s e h. fails_continue (m s).0 f (m s).1 e l (k.at s h) }
