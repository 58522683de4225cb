-- ===== src/Service/Agreement/Rows.antt =====
-- Rows of activities against replayed activities, one by one.
use mathlib.Core.List.{Memᴰ}
use fusions.Shared.{
  ℕ, suc, ◌<◌, String, List, [], ◌∷◌, ◌++◌, Bool, true, false, ◌||◌, ◌==◌, ◌≡◌, refl, sym, subst,
  ap, ◌∙◌, arith, All, contains, map, any, eq_iff, mem-contains, Bool-cases, inl, inr,
}
use fusions.Shared.Int.{pos, eq_ℤ, i32_of}
use fusions.Runtime.Replay.Model.{ReplayedActivity}
use fusions.Runtime.Replay.Activities.{update_first, by_id}
use fusions.Runtime.Replay.Diff.Agreement.{SameRow}
use fusions.Store.External.{External, IsLawful}
use fusions.Store.Rows.{ActivityRow, ActivityRow_into_model}
use fusions.Store.Sql.{update_where, update_where-none}
use fusions.Store.Activities.{is_active}

abbrev pub ids : {Time : Type 0} → List (ActivityRow Time) → List String
ids rows = map (λ r. r.id) rows

abbrev pub Distinct : List String → Type 0
Distinct [] = Unit
Distinct (s ∷ ss) = (contains ss s ≡ false) × Distinct ss

module _ {Time J : Type 0} (x : External Time J) where
  -- Ids that the database has made.
  abbrev pub Older : ℕ → List String → Type 0
  Older made ss = All (λ s. (k : ℕ) × (k < made) × (s ≡ x.made_uuid k)) ss

  pub record Matches (a : ReplayedActivity Time) (r : ActivityRow Time) : Type 0 where
    pub same_id : a.id ≡ r.id
    pub same : SameRow a (ActivityRow_into_model x.json.display r)
    pub small : i32_of r.round ≡ r.round

  abbrev pub Aligned : List (ReplayedActivity Time) → List (ActivityRow Time) → Type 0
  Aligned [] [] = Unit
  Aligned [] (r ∷ rs) = ⊥
  Aligned (a ∷ more) [] = ⊥
  Aligned (a ∷ more) (r ∷ rs) = Matches a r × Aligned more rs

  pub Aligned-append :
      (activities : List (ReplayedActivity Time)) (rs : List (ActivityRow Time))
      (a : ReplayedActivity Time) (r : ActivityRow Time)
      → Aligned activities rs
      → Matches a r
      → Aligned (activities ++ a ∷ []) (rs ++ r ∷ [])
  Aligned-append [] [] a r w m = (m, tt)
  Aligned-append [] (s ∷ rs) a r w m = absurd w
  Aligned-append (b ∷ bs) [] a r w m = absurd w
  Aligned-append (b ∷ bs) (s ∷ rs) a r w m = (w.0, Aligned-append bs rs a r w.1 m)

  pub Older-suc : (made : ℕ) (ss : List String) → Older made ss → Older (suc made) ss
  Older-suc made [] w = tt
  Older-suc made (s ∷ ss) w = let (k, lt, e) = w.0 in ((k, omega arith, e), Older-suc made ss w.1)

  pub Older-append :
      (made : ℕ) (ss : List String) (s : String)
      → Older made ss
      → ((k : ℕ) × (k < made) × (s ≡ x.made_uuid k))
      → Older made (ss ++ s ∷ [])
  Older-append made [] s w h = (h, tt)
  Older-append made (t ∷ ss) s w h = (w.0, Older-append made ss s w.1 h)

  -- The next id is new.
  pub Older-new :
      (made : ℕ) (ss : List String)
      → IsLawful x
      → Older made ss
      → contains ss (x.made_uuid made) ≡ false
  unfolding contains
  Older-new made [] laws w = refl
  Older-new made (s ∷ ss) laws w =
      let (k, lt, e) = w.0 in
      elim (Bool-cases (s == x.made_uuid made)) [
        | inl same ↦ absurd (
            omega (
              arith,
              laws.made_uuid-injective k made (sym e ∙ (eq_iff s (x.made_uuid made)).0 same),
            ))
        | inr other ↦ rw other (Older-new made ss laws w.1)
      ]

contains-append :
    (ss : List String) (s t : String) → contains (ss ++ s ∷ []) t ≡ (contains ss t || s == t)
unfolding contains
contains-append [] s t = ground arith
contains-append (u ∷ ss) s t = ground (arith, contains-append ss s t)

pub Distinct-append :
    (ss : List String) (s : String) → Distinct ss → contains ss s ≡ false → Distinct (ss ++ s ∷ [])
unfolding contains
Distinct-append [] s w h = (refl, tt)
Distinct-append (t ∷ ss) s w h = (
  contains-append ss s t ∙ (ground (arith, eq_iff s t, eq_iff t s)),
  Distinct-append ss s w.1 (ground arith),
)

module _ {Time : Type 0} where
  pub ids-append : (rs ss : List (ActivityRow Time)) → ids (rs ++ ss) ≡ ids rs ++ ids ss
  ids-append [] ss = refl
  ids-append (r ∷ rs) ss = ground (arith, ids-append rs ss)

  pub ids-update_where :
      (test : ActivityRow Time → Bool) (f : ActivityRow Time → ActivityRow Time)
      (rs : List (ActivityRow Time))
      → ((r : ActivityRow Time) → (f r).id ≡ r.id)
      → ids (update_where test f rs) ≡ ids rs
  unfolding update_where
  ids-update_where test f [] h = refl
  ids-update_where test f (r ∷ rs) h = ground (arith, h r, ids-update_where test f rs h)

  mem-ids : (rs : List (ActivityRow Time)) {r : ActivityRow Time} → Memᴰ r rs → Memᴰ r.id (ids rs)
  mem-ids [] m = elim m [ ]
  mem-ids (s ∷ rs) (Memᴰ.head e) = Memᴰ.head (ap (λ q. q.id) e)
  mem-ids (s ∷ rs) (Memᴰ.tail m) = Memᴰ.tail (mem-ids rs m)

  inactive_of_absent :
      (id : String) (rs : List (ActivityRow Time))
      → contains (ids rs) id ≡ false
      → any (is_active id) rs ≡ false
  unfolding contains any
  inactive_of_absent id [] h = refl
  inactive_of_absent id (r ∷ rs) h = ground (arith, inactive_of_absent id rs)

absent_of_mem :
    (s id : String) (ss : List String) → contains ss s ≡ false → Memᴰ id ss → (s == id) ≡ false
absent_of_mem s id ss h m = elim (Bool-cases (s == id)) [
  | inl same ↦ cc ((eq_iff s id).0 same, mem-contains ss id m)
  | inr other ↦ other
]

module _ {Time J : Type 0} (x : External Time J) (g : ReplayedActivity Time → ReplayedActivity Time)
    (f : ActivityRow Time → ActivityRow Time)
    (keeps : (a : ReplayedActivity Time) (r : ActivityRow Time)
      → Matches x a r
      → Matches x (g a) (f r)) where
  -- An active row and its replayed activity, changed alike, still match.
  pub Aligned-update :
      (id : String) (activities : List (ReplayedActivity Time)) (rs : List (ActivityRow Time))
      {r : ActivityRow Time}
      → Aligned x activities rs
      → Distinct (ids rs)
      → Memᴰ r rs
      → r.id ≡ id
      → r.status ≡ pos 2
      → Aligned x (update_first (by_id id) g activities) (update_where (is_active id) f rs)
  unfolding update_first update_where
  Aligned-update id activities [] w d m e s = elim m [ ]
  Aligned-update id [] (y ∷ rs) w d m e s = absurd w
  Aligned-update id (a ∷ more) (y ∷ rs) w d (Memᴰ.head p) e s =
      let own : y.id ≡ id = ap (λ (q : ActivityRow Time). q.id) (sym p) ∙ e in
      let at : eq_ℤ y.status (pos 2) ≡ true =
        rw (ap (λ (q : ActivityRow Time). q.status) (sym p) ∙ s) refl in
      let yes_row : (y.id == id) ≡ true = (eq_iff y.id id).1 own in
      let yes_replayed : (a.id == id) ≡ true = (eq_iff a.id id).1 (w.0.same_id ∙ own) in
      let rest : update_where (is_active id) f rs ≡ rs =
        update_where-none (is_active id) f rs
          (inactive_of_absent id rs (subst (λ q. contains (ids rs) q ≡ false) own d.0)) in
      rw (yes_row, at, yes_replayed, rest) (keeps a y w.0, w.1)
  Aligned-update id (a ∷ more) (y ∷ rs) w d (Memᴰ.tail m) e s =
      let other : (y.id == id) ≡ false =
        absent_of_mem y.id id (ids rs) d.0 (subst (λ q. Memᴰ q (ids rs)) e (mem-ids rs m)) in
      let other_replayed : (a.id == id) ≡ false = rw w.0.same_id other in
      rw (other, other_replayed) (w.0, Aligned-update id more rs w.1 d.1 m e s)
