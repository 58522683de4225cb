-- ===== src/Service/Run.antt =====
-- The methods of crates/hetuflow-service run inside their caller's transaction, which an error rolls back
-- (`TxnRunner` of ports.rs): a run that is done has new tables, a failed one has none. Methods that call one
-- another take fuel, and `exhausted` says that it ran out.
use fusions.Shared.{Option, none, some, Bool, true, false, ok, err, ◌≡◌, refl, subst}
use fusions.Core.Error.{FlowError, FlowResult}
use fusions.Store.Tables.{Tables}

pub data Run {ℓ} (S : Type 0) (A : Type ℓ) : Type ℓ where
  done : A → S → Run S A
  failed : FlowError → Run S A
  exhausted : Run S A

abbrev pub and_run {ℓ κ} :
    {S : Type 0} {A : Type ℓ} {B : Type κ} → Run S A → (A → S → Run S B) → Run S B
and_run (done a s) f = f a s
and_run (failed e) f = failed e
and_run exhausted f = exhausted

infixl 5 ◌>>=◌ ◌>>◌
abbrev pub ◌>>=◌ {ℓ κ} :
    {S : Type 0} {A : Type ℓ} {B : Type κ} → (S → Run S A) → (A → S → Run S B) → S → Run S B
◌>>=◌ m f s = and_run (m s) f

abbrev pub ◌>>◌ {κ} :
    {S : Type 0} {B : Type κ} → (S → Run S (Unit {0})) → (S → Run S B) → S → Run S B
◌>>◌ m k s = and_run (m s) (λ _. k)

abbrev pub Action : Type 0 → Type 0 → Type 0 → Type 0
Action Time J A = Tables Time J → Run (Tables Time J) A

module _ {S : Type 0} where
  -- A read, a write, and a write whose answer is left.
  abbrev pub read : {A : Type 0} → (S → A) → S → Run S A
  read q s = done (q s) s

  abbrev pub write : {A : Type 0} → (S → A × S) → S → Run S A
  write u s = done (u s).0 (u s).1

  abbrev pub write_only : {A : Type 0} → (S → A × S) → S → Run S (Unit {0})
  write_only u s = done tt (u s).1

  abbrev pub modify : (S → S) → S → Run S (Unit {0})
  modify u s = done tt (u s)

  abbrev pub pure {ℓ} : {A : Type ℓ} → A → S → Run S A
  pure a s = done a s

  abbrev pub fail {ℓ} : {A : Type ℓ} → FlowError → S → Run S A
  fail e s = failed e

  -- `?` on a result
  unfoldable pub attempt {ℓ} : {A : Type ℓ} → FlowResult A → S → Run S A
  attempt (ok a) s = done a s
  attempt (err e) s = failed e

  -- `ok_or_else(…)?`
  unfoldable pub or_fail {ℓ} : {A : Type ℓ} → FlowError → Option A → S → Run S A
  or_fail e none s = failed e
  or_fail e (some a) s = done a s

  -- `if !test { return Err(e) }`
  unfoldable pub must : Bool → FlowError → S → Run S (Unit {0})
  must true e s = done tt s
  must false e s = failed e

  unfoldable pub must_not : Bool → FlowError → S → Run S (Unit {0})
  must_not true e s = failed e
  must_not false e s = done tt s

-- A statement that may fail by itself.
unfoldable pub to_run : {S A : Type 0} → FlowResult (A × S) → Run S A
to_run (ok (a, s)) = done a s
to_run (err e) = failed e

abbrev pub statement : {S A : Type 0} → (S → FlowResult (A × S)) → S → Run S A
statement u s = to_run (u s)

abbrev pub query : {S A : Type 0} → (S → FlowResult A) → S → Run S A
query q s = attempt (q s) s

-- What holds of the answer and the tables of a run that is done.
abbrev pub Ensures {ℓ κ} : {S : Type 0} {A : Type ℓ} → (A → S → Type κ) → Run S A → Type κ
Ensures P (done a s) = P a s
Ensures P (failed e) = Unit
Ensures P exhausted = Unit

pub Ensures-and_run {ℓ κ μ ν} :
    {S : Type 0} {A : Type ℓ} {B : Type κ} (P : A → S → Type μ) (Q : B → S → Type ν) (r : Run S A)
    (f : A → S → Run S B)
    → Ensures P r
    → ((a : A) (s : S) → P a s → Ensures Q (f a s))
    → Ensures Q (and_run r f)
Ensures-and_run P Q (done a s) f h k = k a s h
Ensures-and_run P Q (failed e) f h k = tt
Ensures-and_run P Q exhausted f h k = tt

pub Ensures-done {ℓ κ} :
    {S : Type 0} {A : Type ℓ} (P : A → S → Type κ) (r : Run S A) {a : A} {s : S}
    → Ensures P r
    → r ≡ done a s
    → P a s
Ensures-done P r {a} {s} h e = subst (Ensures P) e h

pub Ensures-must {ℓ κ} :
    {S : Type 0} {A : Type ℓ} (P : A → S → Type κ) (b : Bool) (e : FlowError) (s : S)
    (f : Unit {0} → S → Run S A)
    → (b ≡ true → Ensures P (f tt s))
    → Ensures P (and_run (must b e s) f)
unfolding must
Ensures-must P true e s f h = h refl
Ensures-must P false e s f h = tt

pub Ensures-must_not {ℓ κ} :
    {S : Type 0} {A : Type ℓ} (P : A → S → Type κ) (b : Bool) (e : FlowError) (s : S)
    (f : Unit {0} → S → Run S A)
    → (b ≡ false → Ensures P (f tt s))
    → Ensures P (and_run (must_not b e s) f)
unfolding must_not
Ensures-must_not P true e s f h = tt
Ensures-must_not P false e s f h = h refl

pub Ensures-or_fail {ℓ κ μ} :
    {S : Type 0} {A : Type ℓ} {B : Type μ} (P : B → S → Type κ) (o : Option A) (e : FlowError)
    (s : S) (f : A → S → Run S B)
    → ((a : A) → o ≡ some a → Ensures P (f a s))
    → Ensures P (and_run (or_fail e o s) f)
unfolding or_fail
Ensures-or_fail P none e s f h = tt
Ensures-or_fail P (some a) e s f h = h a refl

pub Ensures-attempt {ℓ κ μ} :
    {S : Type 0} {A : Type ℓ} {B : Type μ} (P : B → S → Type κ) (r : FlowResult A) (s : S)
    (f : A → S → Run S B)
    → ((a : A) → r ≡ ok a → Ensures P (f a s))
    → Ensures P (and_run (attempt r s) f)
unfolding attempt
Ensures-attempt P (ok a) s f h = h a refl
Ensures-attempt P (err e) s f h = tt

pub Ensures-to_run {ℓ κ} :
    {S A : Type 0} {B : Type ℓ} (P : B → S → Type κ) (r : FlowResult (A × S)) (f : A → S → Run S B)
    → ((a : A) (s : S) → r ≡ ok (a, s) → Ensures P (f a s))
    → Ensures P (and_run (to_run r) f)
unfolding to_run
Ensures-to_run P (ok (a, s)) f h = h a s refl
Ensures-to_run P (err e) f h = tt

pub Ensures-weaken {ℓ κ μ} :
    {S : Type 0} {A : Type ℓ} (P : A → S → Type κ) (Q : A → S → Type μ) (r : Run S A)
    → Ensures P r
    → ((a : A) (s : S) → P a s → Q a s)
    → Ensures Q r
Ensures-weaken P Q (done a s) h k = k a s h
Ensures-weaken P Q (failed e) h k = tt
Ensures-weaken P Q exhausted h k = tt

pub Ensures-last {ℓ κ} :
    {S : Type 0} {A : Type ℓ} (P : A → S → Type κ) (r : FlowResult A) (s : S)
    → ((a : A) → r ≡ ok a → P a s)
    → Ensures P (attempt r s)
unfolding attempt
Ensures-last P (ok a) s h = h a refl
Ensures-last P (err e) s h = tt
