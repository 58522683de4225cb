-- ===== src/Store/Sql.antt =====
-- What a statement of crates/hetuflow-sqlx does to the rows of a table. A table is the list of its rows in
-- the order of their insertion.
pub mod Laws
use mathlib.Core.List.{Memᴰ}
use fusions.Shared.{
  ℕ, zero, suc, String, Option, none, some, List, [], ◌∷◌, ◌++◌, Bool, true, false, ◌||◌, ◌==◌, ◌≡◌,
  if◌then◌else◌, any, refl, arith,
}
use fusions.Shared.Int.{ℤ, pos, eq_ℤ}

module _ {ℓ} {R : Type ℓ} where
  -- `UPDATE … SET f WHERE test`
  unfoldable pub update_where : (R → Bool) → (R → R) → List R → List R
  update_where test f [] = []
  update_where test f (r ∷ rs) = (if test r then f r else r) ∷ update_where test f rs

  -- `SELECT COUNT(*) … WHERE test`, and the number of rows that an `UPDATE` touches.
  unfoldable pub count_where : (R → Bool) → List R → ℕ
  count_where test [] = 0
  count_where test (r ∷ rs) = let n = count_where test rs in if test r then suc n else n

  -- `ORDER BY … DESC LIMIT 1`, by the time of insertion.
  unfoldable pub last_where : (R → Bool) → List R → Option R
  last_where test [] = none
  last_where test (r ∷ rs) = elim (last_where test rs) [
    | some later ↦ some later
    | none ↦ if test r then some r else none
  ]

  -- `ORDER BY`; `before a b` keeps `a` in front of `b`.
  unfoldable pub insert_by : (R → R → Bool) → R → List R → List R
  insert_by before r [] = r ∷ []
  insert_by before r (s ∷ rs) =
      let rest = insert_by before r rs in if before r s then r ∷ s ∷ rs else s ∷ rest

  unfoldable pub sort_by : (R → R → Bool) → List R → List R
  sort_by before [] = []
  sort_by before (r ∷ rs) = insert_by before r (sort_by before rs)

  -- `LIMIT n`
  unfoldable pub take : ℕ → List R → List R
  take zero rs = []
  take (suc n) [] = []
  take (suc n) (r ∷ rs) = r ∷ take n rs

-- `column = $1` on a column that may be NULL.
abbrev pub is_text : String → Option String → Bool
is_text s none = false
is_text s (some t) = t == s

abbrev pub is_number : ℤ → Option ℤ → Bool
is_number n none = false
is_number n (some m) = eq_ℤ m n

-- `status IN (1, 2)`
abbrev pub one_or_two : ℤ → Bool
one_or_two n = eq_ℤ n (pos 1) || eq_ℤ n (pos 2)

module _ {ℓ} {R : Type ℓ} where
  -- An `UPDATE` that finds no row changes none.
  pub update_where-none :
      (test : R → Bool) (f : R → R) (rs : List R)
      → any test rs ≡ false
      → update_where test f rs ≡ rs
  unfolding update_where any
  update_where-none test f [] h = refl
  update_where-none test f (r ∷ rs) h = ground (arith, update_where-none test f rs)
