-- ===== src/Database/Never.antt =====
-- Operations that return whichever statements fail, by one rule for each way to build an operation.
use xmdm.Common.{◌≡◌, refl, Bool, true, false, arith, if◌then◌else◌}
use xmdm.Database.{
  Error, Result, ok, err, Message, Sys, Store, pure, continue, ◌>>=◌, catch, publish,
}

-- `m` returns, whichever statements fail.
pub record NeverFails {A : Type 0} (m : Store A) : Type 0 where
  pub at : (s : Sys) (e : Error) → ¬ ((m s).0 ≡ err e)

module _ {A : Type 0} where
  pub NeverFails-pure : (a : A) → NeverFails (pure a)
  unfolding pure
  NeverFails-pure a = record { at = λ s e h. ground arith }

  pub NeverFails-if :
      (b : Bool) (m n : Store A) → NeverFails m → NeverFails n → NeverFails (if b then m else n)
  NeverFails-if true m n k l = k
  NeverFails-if false m n k l = l

  -- A handler that returns covers every failure.
  pub NeverFails-catch : (m : Store A) (a : A) → NeverFails (catch m (λ e. pure a))
  unfolding catch pure
  NeverFails-catch m a = record { at = λ s e h. handled (m s).0 (m s).1 e h }
    where
      handled :
          (r : Result A) (s : Sys) (e : Error)
          → ¬ (
              (let p : Result A × Sys = elim r [ ok b ↦ (ok b, s) | err d ↦ (ok a, s) ] in p).0
              ≡ err e)
      handled (ok b) s e h = ground arith
      handled (err d) s e h = ground arith

  fails_continue :
      {B : Type 0} (r : Result B) (f : B → Store A) (s : Sys) (e : Error)
      → ((d : Error) → ¬ (r ≡ err d))
      → ((b : B) → NeverFails (f b))
      → ¬ ((continue r f s).0 ≡ err e)
  fails_continue (ok b) f s e never k h = (k b).at s e h
  fails_continue (err d) f s e never k h = never d refl

  pub NeverFails-bind :
      {B : Type 0} (m : Store B) (f : B → Store A)
      → NeverFails m
      → ((b : B) → NeverFails (f b))
      → NeverFails (m >>= f)
  unfolding ◌>>=◌
  NeverFails-bind m f k l = record { at = λ s e h. fails_continue (m s).0 f (m s).1 e (k.at s) l h }

pub NeverFails-publish : (takes : Message → Bool) (m : Message) → NeverFails (publish takes m)
unfolding publish
NeverFails-publish takes m = record { at = λ s e h. ground arith }

pub ruleset never_rules =
    (NeverFails-pure, NeverFails-if, NeverFails-catch, NeverFails-bind, NeverFails-publish)
