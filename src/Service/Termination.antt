-- ===== src/Service/Termination.antt =====
-- Which methods of crates/hetuflow-service/src/service.rs come to an end: those that call no method of their
-- own kind, and a signal to an instance of a domain-driven definition.
pub mod Steps
pub mod Signal
use fusions.Shared.{Option, none, some, Bool, true, false, ok, err, Result, ◌≡◌, refl}
use fusions.Core.Error.{FlowError, FlowResult}
use fusions.Service.Run.{
  Run, done, failed, exhausted, and_run, attempt, or_fail, must, must_not, to_run,
}

-- The run does not stop for want of fuel.
abbrev pub Ends {ℓ} : {S : Type 0} {A : Type ℓ} → Run S A → Type 0
Ends (done a s) = Unit
Ends (failed e) = Unit
Ends exhausted = ⊥

pub Ends-and_run {ℓ κ} :
    {S : Type 0} {A : Type ℓ} {B : Type κ} (r : Run S A) (f : A → S → Run S B)
    → Ends r
    → ((a : A) (s : S) → r ≡ done a s → Ends (f a s))
    → Ends (and_run r f)
Ends-and_run (done a s) f h k = k a s refl
Ends-and_run (failed e) f h k = tt
Ends-and_run exhausted f h k = absurd h

module _ {S : Type 0} where
  pub Ends-attempt {ℓ κ} :
      {A : Type ℓ} {B : Type κ} (r : FlowResult A) (s : S) (f : A → S → Run S B)
      → ((a : A) → r ≡ ok a → Ends (f a s))
      → Ends (and_run (attempt r s) f)
  unfolding attempt
  Ends-attempt (ok a) s f k = k a refl
  Ends-attempt (err e) s f k = tt

  pub Ends-or_fail {ℓ κ} :
      {A : Type ℓ} {B : Type κ} (e : FlowError) (o : Option A) (s : S) (f : A → S → Run S B)
      → ((a : A) → Ends (f a s))
      → Ends (and_run (or_fail e o s) f)
  unfolding or_fail
  Ends-or_fail e none s f k = tt
  Ends-or_fail e (some a) s f k = k a

  pub Ends-must {ℓ} :
      {A : Type ℓ} (b : Bool) (e : FlowError) (s : S) (f : Unit {0} → S → Run S A)
      → Ends (f tt s)
      → Ends (and_run (must b e s) f)
  unfolding must
  Ends-must true e s f k = k
  Ends-must false e s f k = tt

  pub Ends-must_not {ℓ} :
      {A : Type ℓ} (b : Bool) (e : FlowError) (s : S) (f : Unit {0} → S → Run S A)
      → Ends (f tt s)
      → Ends (and_run (must_not b e s) f)
  unfolding must_not
  Ends-must_not true e s f k = tt
  Ends-must_not false e s f k = k

  pub Ends-last {ℓ} : {A : Type ℓ} (r : FlowResult A) (s : S) → Ends (attempt r s)
  unfolding attempt
  Ends-last (ok a) s = tt
  Ends-last (err e) s = tt

  pub Ends-to_run {ℓ} :
      {A : Type 0} {B : Type ℓ} (r : FlowResult (A × S)) (f : A → S → Run S B)
      → ((a : A) (s : S) → Ends (f a s))
      → Ends (and_run (to_run r) f)
  unfolding to_run
  Ends-to_run (ok (a, s)) f k = k a s
  Ends-to_run (err e) f k = tt
