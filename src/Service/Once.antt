-- ===== src/Service/Once.antt =====
-- What the methods of crates/hetuflow-service/src/service.rs never take back: an idempotency key stays in the
-- log, and a visible instance stays visible.
pub mod Steps
pub mod Outcome
pub mod Keyed
pub mod Signal
use fusions.Shared.{
  ℕ, String, Option, none, some, List, [], ◌∷◌, ◌++◌, Bool, true, false, ◌&&◌, ◌==◌, ◌≡◌, refl, ap,
  ◌∙◌, arith, any, ok, err, if◌then◌else◌,
}
use fusions.Shared.Int.{ℤ}
use fusions.Core.Error.{FlowError, FlowResult}
use fusions.Store.External.{External}
use fusions.Store.Rows.{InstanceRow, EventRow}
use fusions.Store.Tables.{Tables}
use fusions.Store.Sql.{update_where}
use fusions.Store.Scope.{Scope, is_visible, in_scope}
use fusions.Store.Events.{idempotency_seen, append_event, has_key}
use fusions.Store.Instances.{change_instances}
use fusions.Service.Config.{InstanceCtx}
use fusions.Service.Log.{append}
use fusions.Service.Run.{
  Run, done, failed, exhausted, and_run, Ensures, attempt, or_fail, must, must_not, to_run,
}

pub record Later {Time J : Type 0} (x : External Time J) (t u : Tables Time J) : Type 0 where
  pub seen : (id key : String) → idempotency_seen id key t ≡ true → idempotency_seen id key u ≡ true
  pub shown :
      (scope : Scope) (id : String)
      → any (is_visible x scope id) t.instances ≡ true
      → any (is_visible x scope id) u.instances ≡ true

pub any-longer :
    {R : Type 0} (q : R → Bool) (rs more : List R) → any q rs ≡ true → any q (rs ++ more) ≡ true
unfolding any
any-longer q [] more h = absurd (ground arith)
any-longer q (r ∷ rs) more h = ground (arith, any-longer q rs more)

any-updated :
    {R : Type 0} (q test : R → Bool) (f : R → R) (rs : List R)
    → ((r : R) → q (f r) ≡ q r)
    → any q (update_where test f rs) ≡ any q rs
unfolding any update_where
any-updated q test f [] h = refl
any-updated q test f (r ∷ rs) h = ground (arith, h r, any-updated q test f rs h)

module _ {Time J : Type 0} (x : External Time J) where
  pub Later-refl : (t : Tables Time J) → Later x t t
  Later-refl t = record { seen = λ id key h. h; shown = λ scope id h. h }

  pub Later-trans : (t u v : Tables Time J) → Later x t u → Later x u v → Later x t v
  Later-trans t u v h k = record {
    seen = λ id key s. k.seen id key (h.seen id key s);
    shown = λ scope id s. k.shown scope id (h.shown scope id s);
  }

  -- Tables with the same log and instances.
  pub Later-same :
      (t u : Tables Time J) → u.events ≡ t.events → u.instances ≡ t.instances → Later x t u
  unfolding idempotency_seen
  Later-same t u e i = record {
    seen = λ id key s. ap (any (has_key id key)) e ∙ s;
    shown = λ scope id s. ap (any (is_visible x scope id)) i ∙ s;
  }

  pub append_event-Later :
      (tenant : ℤ) (facility id : String) (seq : ℤ) (type : String) (payload : J)
      (key : Option String) (t : Tables Time J)
      → Later x t (append_event tenant facility id seq type payload key t)
  unfolding idempotency_seen append_event
  append_event-Later tenant facility id seq type payload key t = record {
    seen = λ i k s. any-longer (has_key i k) t.events (_ ∷ []) s;
    shown = λ scope i s. s;
  }

  -- A change that keeps the id, the tenant and the facility of a row.
  pub change_instances-Later :
      (test : InstanceRow Time J → Bool) (f : InstanceRow Time J → InstanceRow Time J)
      (t : Tables Time J)
      → ((r : InstanceRow Time J)
          → ((f r).id ≡ r.id)
            × ((f r).tenant_id ≡ r.tenant_id)
            × ((f r).facility_id ≡ r.facility_id))
      → Later x t (change_instances test f t).1
  unfolding idempotency_seen change_instances
  change_instances-Later test f t keep = record {
    seen = λ id key s. s;
    shown = λ scope id s.
        any-updated (is_visible x scope id) test f t.instances (λ r. ground (arith, keep r)) ∙ s;
  }

  -- The run adds to the tables.
  abbrev pub Adds {ℓ} : {A : Type ℓ} → Tables Time J → Run (Tables Time J) A → Type 0
  Adds t r = Ensures (λ _ u. Later x t u) r

  pub Adds-from {ℓ} :
      {A : Type ℓ} (t u : Tables Time J) (r : Run (Tables Time J) A)
      → Later x t u
      → Adds u r
      → Adds t r
  Adds-from t u (done a s) h k = Later-trans t u s h k
  Adds-from t u (failed e) h k = tt
  Adds-from t u exhausted h k = tt

  pub Adds-and_run {ℓ κ} :
      {A : Type ℓ} {B : Type κ} (t : Tables Time J) (r : Run (Tables Time J) A)
      (f : A → Tables Time J → Run (Tables Time J) B)
      → Adds t r
      → ((a : A) (u : Tables Time J) → Adds u (f a u))
      → Adds t (and_run r f)
  Adds-and_run t (done a s) f h k = Adds-from t s (f a s) h (k a s)
  Adds-and_run t (failed e) f h k = tt
  Adds-and_run t exhausted f h k = tt

  pub Adds-attempt {ℓ κ} :
      {A : Type ℓ} {B : Type κ} (r : FlowResult A) (t : Tables Time J)
      (f : A → Tables Time J → Run (Tables Time J) B)
      → ((a : A) → Adds t (f a t))
      → Adds t (and_run (attempt r t) f)
  unfolding attempt
  Adds-attempt (ok a) t f k = k a
  Adds-attempt (err e) t f k = tt

  pub Adds-or_fail {ℓ κ} :
      {A : Type ℓ} {B : Type κ} (e : FlowError) (o : Option A) (t : Tables Time J)
      (f : A → Tables Time J → Run (Tables Time J) B)
      → ((a : A) → Adds t (f a t))
      → Adds t (and_run (or_fail e o t) f)
  unfolding or_fail
  Adds-or_fail e none t f k = tt
  Adds-or_fail e (some a) t f k = k a

  pub Adds-must {ℓ} :
      {A : Type ℓ} (b : Bool) (e : FlowError) (t u : Tables Time J)
      (f : Unit {0} → Tables Time J → Run (Tables Time J) A)
      → Adds t (f tt u)
      → Adds t (and_run (must b e u) f)
  unfolding must
  Adds-must true e t u f k = k
  Adds-must false e t u f k = tt

  pub Adds-must_not {ℓ} :
      {A : Type ℓ} (b : Bool) (e : FlowError) (t : Tables Time J)
      (f : Unit {0} → Tables Time J → Run (Tables Time J) A)
      → Adds t (f tt t)
      → Adds t (and_run (must_not b e t) f)
  unfolding must_not
  Adds-must_not true e t f k = tt
  Adds-must_not false e t f k = k

  pub append-Adds :
      (ctx : InstanceCtx J) (type : String) (payload : J) (key : Option String) (t : Tables Time J)
      → Adds t (append ctx type payload key t)
  unfolding append
  append-Adds ctx type payload key t = append_event-Later _ _ _ _ type payload key t
