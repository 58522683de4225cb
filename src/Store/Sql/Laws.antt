-- ===== src/Store/Sql/Laws.antt =====
-- Selections of a table after an update or an insertion.
use mathlib.Core.List.{Memᴰ}
use fusions.Shared.{
  some, List, [], ◌∷◌, ◌++◌, Bool, true, false, ◌&&◌, ◌≡◌, refl, arith, any, find, filter,
  Bool-cases, inl, inr, ap, sym, ◌∙◌,
}
use fusions.Store.Sql.{update_where, count_where}

module _ {ℓ} {R : Type ℓ} where
  pub filter-append :
      (q : R → Bool) (rs ss : List R) → filter q (rs ++ ss) ≡ filter q rs ++ filter q ss
  unfolding filter
  filter-append q [] ss = refl
  filter-append q (r ∷ rs) ss = ground (arith, filter-append q rs ss)

  -- An update that keeps what a selection tests commutes with it.
  pub filter-update_where :
      (q test : R → Bool) (f : R → R) (rs : List R)
      → ((r : R) → q (f r) ≡ q r)
      → filter q (update_where test f rs) ≡ update_where test f (filter q rs)
  unfolding filter update_where
  filter-update_where q test f [] h = refl
  filter-update_where q test f (r ∷ rs) h = ground (arith, h r, filter-update_where q test f rs h)

  pub find-filter :
      (q : R → Bool) (rs : List R) {r : R} {more : List R}
      → filter q rs ≡ r ∷ more
      → find q rs ≡ some r
  unfolding filter find
  find-filter q [] h = cc
  find-filter q (s ∷ rs) {r = r} {more = more} h =
      ground (arith, find-filter q rs {r = r} {more = more})

  -- A test that refines a selection finds what it finds among the selected.
  pub any-filter : (q p : R → Bool) (rs : List R) → any (λ r. q r && p r) rs ≡ any p (filter q rs)
  unfolding filter any
  any-filter q p [] = refl
  any-filter q p (r ∷ rs) = ground (arith, any-filter q p rs)

  -- An update of what a selection holds, made by the finer test, touches only that.
  pub update_where-filter :
      (q p : R → Bool) (f : R → R) (rs : List R)
      → ((r : R) → q (f r) ≡ q r)
      → filter q (update_where (λ r. q r && p r) f rs) ≡ update_where p f (filter q rs)
  unfolding filter update_where
  update_where-filter q p f [] h = refl
  update_where-filter q p f (r ∷ rs) h = ground (arith, h r, update_where-filter q p f rs h)

  pub count_where-none : (q : R → Bool) (rs : List R) → any q rs ≡ false → count_where q rs ≡ 0
  unfolding count_where any
  count_where-none q [] h = refl
  count_where-none q (r ∷ rs) h = ground (arith, count_where-none q rs)

  pub filter-none : (q : R → Bool) (rs : List R) → any q rs ≡ false → filter q rs ≡ []
  unfolding filter any
  filter-none q [] h = refl
  filter-none q (r ∷ rs) h = ground (arith, filter-none q rs)

module _ {ℓ} {R : Type ℓ} where
  -- A finer test finds what it finds among the selected.
  pub find-&& : (q p : R → Bool) (rs : List R) → find (λ r. q r && p r) rs ≡ find p (filter q rs)
  unfolding filter find
  find-&& q p [] = refl
  find-&& q p (r ∷ rs) = ground (arith, find-&& q p rs)

  pub mem-filter :
      (q : R → Bool) (rs : List R) {r : R} → Memᴰ r rs → q r ≡ true → Memᴰ r (filter q rs)
  unfolding filter
  mem-filter q [] m h = elim m [ ]
  mem-filter q (s ∷ rs) {r} (Memᴰ.head e) h = rw (ap q (sym e) ∙ h) (Memᴰ.head e)
  mem-filter q (s ∷ rs) {r} (Memᴰ.tail m) h = elim (Bool-cases (q s)) [
    | inl in_it ↦ rw in_it (Memᴰ.tail (mem-filter q rs m h))
    | inr out ↦ rw out (mem-filter q rs m h)
  ]

  mem-of-cons :
      (q : R → Bool) (s : R) (rs ss : List R) {r : R}
      → q s ≡ true
      → (Memᴰ r ss → Memᴰ r rs × (q r ≡ true))
      → Memᴰ r (s ∷ ss)
      → Memᴰ r (s ∷ rs) × (q r ≡ true)
  mem-of-cons q s rs ss h ih (Memᴰ.head e) = (Memᴰ.head e, ap q e ∙ h)
  mem-of-cons q s rs ss h ih (Memᴰ.tail m) = let (n, t) = ih m in (Memᴰ.tail n, t)

  pub mem-of-filter :
      (q : R → Bool) (rs : List R) {r : R} → Memᴰ r (filter q rs) → Memᴰ r rs × (q r ≡ true)
  unfolding filter
  mem-of-filter q [] m = elim m [ ]
  mem-of-filter q (s ∷ rs) {r} m = elim (Bool-cases (q s)) [
    | inl in_it ↦ mem-of-cons q s rs (filter q rs) in_it (λ n. mem-of-filter q rs n) (rw in_it at m)
    | inr out ↦ let (n, h) = mem-of-filter q rs (rw out at m) in (Memᴰ.tail n, h)
  ]
