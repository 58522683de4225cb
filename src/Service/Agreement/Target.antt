-- ===== src/Service/Agreement/Target.antt =====
-- The activity that a signal is for: an active one of the instance.
use mathlib.Core.List.{Memᴰ}
use fusions.Shared.{
  String, Option, none, some, List, [], ◌∷◌, true, ◌==◌, ◌≡◌, refl, ap, sym, ◌∙◌, arith, ok, filter,
  find, find-mem, map, inl, inr, Option-cases,
}
use fusions.Shared.Int.{ℤ, pos, eq_ℤ→≡}
use fusions.Core.ActivityStatus
use fusions.Core.Definition.{ActivityInstance}
use fusions.Store.External.{External}
use fusions.Store.Rows.{ActivityRow, ActivityRow_into_model, map_some}
use fusions.Store.Tables.{Tables}
use fusions.Store.Sql.Laws.{mem-filter, mem-of-filter}
use fusions.Store.Activities.{has_id, of_instance, is_active_of, load_activity, active_activities}
use fusions.Service.Handle.{resolve_target_activity, check_target, only_active, is_active_status}
use fusions.Service.Run.{Ensures, Ensures-or_fail, Ensures-last}

module _ {Time J : Type 0} (x : External Time J) (id : String) where
  -- An active row of the instance, and the activity that is read from it.
  abbrev pub IsActiveRow : List (ActivityRow Time) → ActivityInstance Time → Type 0
  IsActiveRow rows a =
      (r : ActivityRow Time) × Memᴰ r (filter (of_instance id) rows)
      × (a ≡ ActivityRow_into_model x.json.display r)
      × (r.status ≡ pos 2)

  active_number : (n : ℤ) → is_active_status (ActivityStatus.from_i16 n) ≡ true → n ≡ pos 2
  unfolding ActivityStatus.from_i16
  active_number n h = ground arith

  -- What passes the checks of an activity that the caller names.
  check_target-eq :
      (aid : String) (a b : ActivityInstance Time)
      → check_target x id aid a ≡ ok b
      → (b ≡ a) × ((a.workflow_instance_id == id) ≡ true) × (is_active_status a.status ≡ true)
  unfolding check_target
  check_target-eq aid a b h = ground arith

  only_active-eq :
      (rows : List (ActivityInstance Time)) (a : ActivityInstance Time)
      → only_active id rows ≡ ok a
      → rows ≡ a ∷ []
  only_active-eq [] a h = cc
  only_active-eq (b ∷ []) a h = ground arith
  only_active-eq (b ∷ (c ∷ rest)) a h = cc

  only_row :
      (rows : List (ActivityRow Time)) (a : ActivityInstance Time)
      → map (ActivityRow_into_model x.json.display) rows ≡ a ∷ []
      → (r : ActivityRow Time) × Memᴰ r rows × (a ≡ ActivityRow_into_model x.json.display r)
  only_row [] a h = cc
  only_row (r ∷ rows) a h = (r, Memᴰ.head refl, ground arith)

  named_row :
      (rows : List (ActivityRow Time)) (aid : String) (found b : ActivityInstance Time)
      → map_some (ActivityRow_into_model x.json.display) (find (has_id aid) rows) ≡ some found
      → check_target x id aid found ≡ ok b
      → IsActiveRow rows b
  unfolding ActivityRow_into_model
  named_row rows aid found b e h = elim (Option-cases (find (has_id aid) rows)) [
    | inl missing ↦ cc (ap (map_some (ActivityRow_into_model x.json.display)) missing, e)
    | inr (r, got) ↦
        let (same, owner, active) = check_target-eq aid found b h in
        let model : found ≡ ActivityRow_into_model x.json.display r =
          ground (arith, e, ap (map_some (ActivityRow_into_model x.json.display)) got) in
        (
          r,
          mem-filter (of_instance id) rows (find-mem (has_id aid) rows got)
              (ap (λ a. a.workflow_instance_id == id) (sym model) ∙ owner),
          same ∙ model,
          active_number r.status (ap (λ a. is_active_status a.status) (sym model) ∙ active),
        )
  ]

  active_row :
      (rows : List (ActivityRow Time)) (a : ActivityInstance Time)
      → only_active id (map (ActivityRow_into_model x.json.display) (filter (is_active_of id) rows))
        ≡ ok a
      → IsActiveRow rows a
  active_row rows a h =
      let (r, m, e) = only_row (filter (is_active_of id) rows) a (only_active-eq _ a h) in
      let (n, t) = mem-of-filter (is_active_of id) rows m in
      (
        r,
        mem-filter (of_instance id) rows n (ground arith),
        e,
        eq_ℤ→≡ r.status (pos 2) (ground arith),
      )

  pub resolve_target_activity-IsActiveRow :
      (named : Option String) (t : Tables Time J)
      → Ensures (λ a u. (u ≡ t) × IsActiveRow t.activities a) (resolve_target_activity x id named t)
  unfolding resolve_target_activity load_activity active_activities
  resolve_target_activity-IsActiveRow (some aid) t =
      Ensures-or_fail _ _ _ _ _
        (λ found e. Ensures-last _ _ _ (λ a h. (refl, named_row t.activities aid found a e h)))
  resolve_target_activity-IsActiveRow none t =
      Ensures-last _ _ _ (λ a h. (refl, active_row t.activities a h))
