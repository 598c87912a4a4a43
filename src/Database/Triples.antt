-- ===== src/Database/Triples.antt =====
-- What an operation does to a state: before it the state satisfies a condition, and afterwards
-- another one, which may speak of what the operation returned; where it fails, a third one. There is
-- one rule for each way to build an operation.
use xmdm.Common.{
  ◌≡◌, refl, subst, ℕ, List, [], ◌∷◌, Bool, true, false, Option, none, some, if◌then◌else◌, String,
  not, keep_if, str_eq,
}
use xmdm.Database.Rows.{Db, Time}
use xmdm.Database.{
  Error, Result, ok, err, Sys, Store, pure, raise, continue, ◌>>=◌, handled, attempt, step, query,
  exec, advance, now, found, require, delete_object,
}

abbrev pub Ends : {A : Type 0} → (A → Sys → Type 0) → (Sys → Type 0) → Result A → Sys → Type 0
Ends Post Fail (ok a) s = Post a s
Ends Post Fail (err e) s = Fail s

pub record Triple {A : Type 0} (Pre : Sys → Type 0) (m : Store A) (Post : A → Sys → Type 0)
    (Fail : Sys → Type 0) : Type 0 where
  pub at : (s : Sys) → Pre s → Ends Post Fail (m s).0 (m s).1

module _ {A : Type 0} where
  -- The failure of the first operation need not be a failure of the whole.
  abbrev handle : {B : Type 0} → Result B → (Error → Store A) → (B → Store A) → Store A
  handle r h f s = elim r [ ok b ↦ f b s | err e ↦ h e s ]

  Ends-attempt :
      (Post : A → Sys → Type 0) (Fail : Sys → Type 0) (act : Sys → A × Sys) (faults : List Bool)
      (s : Sys)
      → ((fs : List Bool) → Fail (record s { faults = fs }))
      → ((fs : List Bool) → (let r = act (record s { faults = fs }) in Post r.0 r.1))
      → Ends Post Fail (attempt act faults s).0 (attempt act faults s).1
  unfolding attempt
  Ends-attempt Post Fail act [] s fails k = k s.faults
  Ends-attempt Post Fail act (true ∷ rest) s fails k = fails rest
  Ends-attempt Post Fail act (false ∷ rest) s fails k = k rest

module _ {A : Type 0} {Post : A → Sys → Type 0} {Fail : Sys → Type 0} where
  Ends-continue :
      {B : Type 0} (r : Result B) (f : B → Store A) (s : Sys) (Mid : B → Sys → Type 0)
      → Ends Mid Fail r s
      → ((b : B) → Triple (Mid b) (f b) Post Fail)
      → Ends Post Fail (continue r f s).0 (continue r f s).1
  Ends-continue (ok b) f s Mid h k = (k b).at s h
  Ends-continue (err e) f s Mid h k = h

  Ends-handle :
      {B : Type 0} (r : Result B) (c : Error → Store A) (f : B → Store A) (s : Sys)
      (Mid : B → Sys → Type 0) (Broken : Sys → Type 0)
      → Ends Mid Broken r s
      → ((e : Error) → Triple Broken (c e) Post Fail)
      → ((b : B) → Triple (Mid b) (f b) Post Fail)
      → Ends Post Fail (handle r c f s).0 (handle r c f s).1
  Ends-handle (ok b) c f s Mid Broken h k l = (l b).at s h
  Ends-handle (err e) c f s Mid Broken h k l = (k e).at s h

module _ {A : Type 0} {Pre : Sys → Type 0} {Post : A → Sys → Type 0} {Fail : Sys → Type 0} where
  pub Triple-pure : (a : A) → ((s : Sys) → Pre s → Post a s) → Triple Pre (pure a) Post Fail
  unfolding pure
  Triple-pure a k = record { at = k }

  pub Triple-raise : (e : Error) → ((s : Sys) → Pre s → Fail s) → Triple Pre (raise e) Post Fail
  unfolding raise
  Triple-raise e k = record { at = k }

  pub Triple-query :
      (f : Db → A)
      → ((s : Sys) (fs : List Bool) → Pre s → Fail (record s { faults = fs }))
      → ((s : Sys) (fs : List Bool) → Pre s → Post (f s.db) (record s { faults = fs }))
      → Triple Pre (query f) Post Fail
  unfolding query step
  Triple-query f fails k = record {
    at = λ s h. Ends-attempt _ _ _ s.faults s (λ fs. fails s fs h) (λ fs. k s fs h);
  }

  pub Triple-exec :
      (f : Db → A × Db)
      → ((s : Sys) (fs : List Bool) → Pre s → Fail (record s { faults = fs }))
      → ((s : Sys) (fs : List Bool)
          → Pre s
          → Post (f s.db).0 (record s { faults = fs; db = (f s.db).1 }))
      → Triple Pre (exec f) Post Fail
  unfolding exec step
  Triple-exec f fails k = record {
    at = λ s h. Ends-attempt _ _ _ s.faults s (λ fs. fails s fs h) (λ fs. k s fs h);
  }

  pub Triple-if :
      (b : Bool) (m n : Store A)
      → Triple Pre m Post Fail
      → Triple Pre n Post Fail
      → Triple Pre (if b then m else n) Post Fail
  Triple-if true m n k l = k
  Triple-if false m n k l = l

  pub Triple-bind :
      {B : Type 0} (m : Store B) (f : B → Store A) (Mid : B → Sys → Type 0)
      → Triple Pre m Mid Fail
      → ((b : B) → Triple (Mid b) (f b) Post Fail)
      → Triple Pre (m >>= f) Post Fail
  unfolding ◌>>=◌
  Triple-bind m f Mid k l = record { at = λ s h. Ends-continue (m s).0 f (m s).1 Mid (k.at s h) l }

  pub Triple-handled :
      {B : Type 0} (m : Store B) (c : Error → Store A) (f : B → Store A) (Mid : B → Sys → Type 0)
      (Broken : Sys → Type 0)
      → Triple Pre m Mid Broken
      → ((e : Error) → Triple Broken (c e) Post Fail)
      → ((b : B) → Triple (Mid b) (f b) Post Fail)
      → Triple Pre (handled m c f) Post Fail
  unfolding handled
  Triple-handled m c f Mid Broken k l n = record {
    at = λ s h. Ends-handle (m s).0 c f (m s).1 Mid Broken (k.at s h) l n;
  }

  pub Triple-found :
      (o : Option A) (e : Error)
      → ((s : Sys) → Pre s → Fail s)
      → ((s : Sys) (a : A) → o ≡ some a → Pre s → Post a s)
      → Triple Pre (found o e) Post Fail
  unfolding found
  Triple-found none e fails k = record { at = fails }
  Triple-found (some a) e fails k = record { at = λ s h. k s a refl h }

module _ {Pre Fail : Sys → Type 0} where
  pub Triple-now :
      (Post : Time → Sys → Type 0)
      → ((s : Sys) (t : Time) (ticks : List ℕ)
          → Pre s
          → Post t (record s { clock = t; ticks = ticks }))
      → Triple Pre now Post Fail
  unfolding now advance
  Triple-now Post k = record { at = λ s h. go s.ticks s h }
    where
      go : (ticks : List ℕ) (s : Sys) → Pre s → Post (advance ticks s).clock (advance ticks s)
      go [] s h = k s s.clock s.ticks h
      go (d ∷ rest) s h = k s _ rest h

  pub Triple-require :
      (b : Bool) (e : Error)
      → ((s : Sys) → Pre s → Fail s)
      → Triple Pre (require b e) (λ _ s. (b ≡ true) × Pre s) Fail
  unfolding require
  Triple-require true e fails = record { at = λ s h. (refl, h) }
  Triple-require false e fails = record { at = fails }

  pub Triple-delete_object :
      (key : String) (Post : Unit {0} → Sys → Type 0)
      → ((s : Sys) (fs : List Bool) → Pre s → Fail (record s { faults = fs }))
      → ((s : Sys) (fs : List Bool)
          → Pre s
          → Post tt
              (record s { faults = fs; objects = keep_if (λ k. not (str_eq k key)) s.objects }))
      → Triple Pre (delete_object key) Post Fail
  unfolding delete_object step
  Triple-delete_object key Post fails k = record {
    at = λ s h. Ends-attempt _ _ _ s.faults s (λ fs. fails s fs h) (λ fs. k s fs h);
  }

pub Triple-weaken :
    {A : Type 0} {Pre : Sys → Type 0} {Post Post' : A → Sys → Type 0} {Fail : Sys → Type 0}
    (m : Store A)
    → Triple Pre m Post Fail
    → ((a : A) (s : Sys) → Post a s → Post' a s)
    → Triple Pre m Post' Fail
Triple-weaken {A} {Post} {Post'} {Fail} m k w = record {
  at = λ s h. ends (m s).0 (m s).1 (k.at s h);
}
  where
    ends : (r : Result A) (s : Sys) → Ends Post Fail r s → Ends Post' Fail r s
    ends (ok a) s h = w a s h
    ends (err e) s h = h

pub Triple-any :
    {A : Type 0} {Pre : Sys → Type 0} (m : Store A) → Triple Pre m (λ a s. Unit {0}) (λ s. Unit {0})
Triple-any m = record { at = λ s h. ends (m s).0 (m s).1 }
  where
    ends : {A : Type 0} (r : Result A) (s : Sys) → Ends (λ a s. Unit {0}) (λ s. Unit {0}) r s
    ends (ok a) s = tt
    ends (err e) s = tt

-- What holds where the operation returned.
pub Triple-returned :
    {A : Type 0} {Pre : Sys → Type 0} {Post : A → Sys → Type 0} {Fail : Sys → Type 0} (m : Store A)
    → Triple Pre m Post Fail
    → (s : Sys) (a : A) → Pre s
    → (m s).0 ≡ ok a
    → Post a (m s).1
Triple-returned {Post} {Fail} m k s a h returned =
    subst (λ r. Ends Post Fail r (m s).1) returned (k.at s h)
