-- ===== src/Shared/Lists.antt =====
-- Iterator methods of the source over lists, and what is true of a list's elements.
use Prim.Native.Nat.{ℕ, suc}
use Prim.Native.String.{String}
use mathlib.Core.Path.{◌≡◌, refl, sym, subst}
use mathlib.Core.Logic.{inl, inr}
use mathlib.Core.Bool.{Bool, true, false, ◌||◌}
use mathlib.Core.Option.{Option, none, some}
use mathlib.Core.List.{List, [], ◌∷◌, Memᴰ}
use native.Mathlib.Omega.{arith}
use text.Mathlib.TextEquality.{eq_iff}
use fusions.Shared.Tests.{if◌then◌else◌, ◌==◌, Bool-cases}
use fusions.Shared.Fallible.{Result, ok, for_each}

module _ {ℓ} {A : Type ℓ} where
  abbrev pub length : List A → ℕ
  length [] = 0
  length (x ∷ xs) = suc (length xs)

  -- `iter().find(f)`
  unfoldable pub find : (A → Bool) → List A → Option A
  find f [] = none
  find f (x ∷ xs) = if f x then some x else find f xs

  -- `iter().any(f)`
  unfoldable pub any : (A → Bool) → List A → Bool
  any f [] = false
  any f (x ∷ xs) = f x || any f xs

  -- `iter().filter(f)`
  unfoldable pub filter : (A → Bool) → List A → List A
  filter f [] = []
  filter f (x ∷ xs) = let rest = filter f xs in if f x then x ∷ rest else rest

  abbrev pub All {κ} : (A → Type κ) → List A → Type κ
  All P [] = Unit
  All P (x ∷ xs) = P x × All P xs

module _ {ℓ} {A : Type ℓ} where
  pub find-mem : (f : A → Bool) (xs : List A) {x : A} → find f xs ≡ some x → Memᴰ x xs
  unfolding find
  find-mem f [] h = cc
  find-mem f (y ∷ xs) {x} h = elim (Bool-cases (f y)) [
    | inl e ↦ Memᴰ.head (ground arith)
    | inr e ↦ Memᴰ.tail (find-mem f xs (ground arith))
  ]

  pub find-true : (f : A → Bool) (xs : List A) {x : A} → find f xs ≡ some x → f x ≡ true
  unfolding find
  find-true f [] h = cc
  find-true f (y ∷ xs) {x} h = ground (arith, find-true f xs {x = x})

  pub find-none : (f : A → Bool) (xs : List A) {x : A} → find f xs ≡ none → Memᴰ x xs → f x ≡ false
  unfolding find
  find-none f [] h m = elim m [ ]
  find-none f (y ∷ xs) h (Memᴰ.head e) = ground arith
  find-none f (y ∷ xs) {x} h (Memᴰ.tail m) = ground (arith, find-none f xs {x = x})

  pub any-mem : (f : A → Bool) (xs : List A) → any f xs ≡ true → (x : A) × Memᴰ x xs × (f x ≡ true)
  unfolding any
  any-mem f [] h = cc
  any-mem f (y ∷ xs) h = elim (Bool-cases (f y)) [
    | inl e ↦ (y, Memᴰ.head refl, e)
    | inr e ↦ let (x, m, t) = any-mem f xs (ground arith) in (x, Memᴰ.tail m, t)
  ]

  pub any-true : (f : A → Bool) (xs : List A) {x : A} → Memᴰ x xs → f x ≡ true → any f xs ≡ true
  unfolding any
  any-true f [] m h = elim m [ ]
  any-true f (y ∷ xs) (Memᴰ.head e) h = ground arith
  any-true f (y ∷ xs) {x} (Memᴰ.tail m) h = ground (arith, any-true f xs {x = x} m h)

  pub find-any : (f : A → Bool) (xs : List A) → any f xs ≡ true → (x : A) × (find f xs ≡ some x)
  unfolding any find
  find-any f [] h = cc
  find-any f (y ∷ xs) h = elim (Bool-cases (f y)) [
    | inl e ↦ (y, ground arith)
    | inr e ↦ let (x, p) = find-any f xs (ground arith) in (x, ground arith)
  ]

  pub All-mem {κ} : (P : A → Type κ) (xs : List A) {x : A} → All P xs → Memᴰ x xs → P x
  All-mem P [] h m = elim m [ ]
  All-mem P (y ∷ xs) h (Memᴰ.head e) = subst P (sym e) h.0
  All-mem P (y ∷ xs) h (Memᴰ.tail m) = All-mem P xs h.1 m

-- A loop that returns no error has found none in any round.
module _ {ℓ κ} {E : Type ℓ} {A : Type κ} where
  pub for_each-ok :
      (f : A → Result E (Unit {0})) (xs : List A) {x : A}
      → for_each f xs ≡ ok tt
      → Memᴰ x xs
      → f x ≡ ok tt
  unfolding for_each
  for_each-ok f [] h m = elim m [ ]
  for_each-ok f (y ∷ xs) {x} h (Memᴰ.head e) = ground arith
  for_each-ok f (y ∷ xs) {x} h (Memᴰ.tail m) = ground (arith, for_each-ok f xs {x = x})

-- `seen.contains(id)`
unfoldable pub contains : List String → String → Bool
contains [] id = false
contains (x ∷ xs) id = x == id || contains xs id

pub contains-mem : (xs : List String) (id : String) → contains xs id ≡ true → Memᴰ id xs
unfolding contains
contains-mem [] id h = cc
contains-mem (x ∷ xs) id h = elim (Bool-cases (x == id)) [
  | inl e ↦ Memᴰ.head (sym ((eq_iff x id).0 e))
  | inr e ↦ Memᴰ.tail (contains-mem xs id (ground arith))
]

pub mem-contains : (xs : List String) (id : String) → Memᴰ id xs → contains xs id ≡ true
unfolding contains
mem-contains [] id m = elim m [ ]
mem-contains (x ∷ xs) id (Memᴰ.head e) = ground (arith, eq_iff x id)
mem-contains (x ∷ xs) id (Memᴰ.tail m) = ground (arith, mem-contains xs id m)
