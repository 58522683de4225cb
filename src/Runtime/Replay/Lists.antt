-- ===== src/Runtime/Replay/Lists.antt =====
-- The lists of activities under the operations of the fold.
use fusions.Shared.{
  List, [], ◌∷◌, ◌++◌, Bool, ◌||◌, ◌≡◌, refl, map, any, All, arith, Bool-cases, inl, inr,
}
use fusions.Runtime.Replay.Activities.{update_first}

module _ {ℓ} {A : Type ℓ} where
  pub any-concat :
      (test : A → Bool) (xs : List A) (x : A) → any test (xs ++ x ∷ []) ≡ (any test xs || test x)
  unfolding any
  any-concat test [] x = ground arith
  any-concat test (y ∷ xs) x = ground (arith, any-concat test xs x)

  pub any-update_first :
      (test found : A → Bool) (f : A → A) (xs : List A)
      → ((a : A) → test (f a) ≡ test a)
      → any test (update_first found f xs) ≡ any test xs
  unfolding any update_first
  any-update_first test found f [] keep = refl
  any-update_first test found f (x ∷ xs) keep =
      ground (arith, keep x, any-update_first test found f xs keep)

  pub any-map :
      (test : A → Bool) (f : A → A) (xs : List A)
      → ((a : A) → test (f a) ≡ test a)
      → any test (map f xs) ≡ any test xs
  unfolding any
  any-map test f [] keep = refl
  any-map test f (x ∷ xs) keep = ground (arith, keep x, any-map test f xs keep)

module _ {ℓ κ} {A : Type ℓ} (P : A → Type κ) where
  pub All-concat : (xs : List A) {x : A} → All P xs → P x → All P (xs ++ x ∷ [])
  All-concat [] h p = (p, tt)
  All-concat (y ∷ xs) h p = (h.0, All-concat xs h.1 p)

  pub All-update_first :
      (found : A → Bool) (f : A → A) (xs : List A)
      → ((a : A) → P a → P (f a))
      → All P xs
      → All P (update_first found f xs)
  unfolding update_first
  All-update_first found f [] keep h = tt
  All-update_first found f (x ∷ xs) keep h = elim (Bool-cases (found x)) [
    | inl e ↦ rw e (keep x h.0, h.1)
    | inr e ↦ rw e (h.0, All-update_first found f xs keep h.1)
  ]

  pub All-map : (f : A → A) (xs : List A) → ((a : A) → P a → P (f a)) → All P xs → All P (map f xs)
  All-map f [] keep h = tt
  All-map f (x ∷ xs) keep h = (keep x h.0, All-map f xs keep h.1)

module _ {ℓ κ} {A : Type ℓ} {B : Type κ} (key : A → B) where
  pub map-update_first :
      (found : A → Bool) (f : A → A) (xs : List A)
      → ((a : A) → key (f a) ≡ key a)
      → map key (update_first found f xs) ≡ map key xs
  unfolding update_first
  map-update_first found f [] keep = refl
  map-update_first found f (x ∷ xs) keep = elim (Bool-cases (found x)) [
    | inl e ↦ rw (e, keep x)
    | inr e ↦ rw (e, map-update_first found f xs keep)
  ]

  pub map-map_keep :
      (f : A → A) (xs : List A) → ((a : A) → key (f a) ≡ key a) → map key (map f xs) ≡ map key xs
  map-map_keep f [] keep = refl
  map-map_keep f (x ∷ xs) keep = rw (keep x, map-map_keep f xs keep)
