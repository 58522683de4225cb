-- ===== src/Store/Graph.antt =====
-- The updates of `workflow_instances` in crates/hetuflow-sqlx/src/lib.rs against
-- `WorkflowStatus::try_transition` of crates/hetuflow-core/src/lib.rs.
use fusions.Shared.{
  String, List, [], ◌∷◌, Bool, true, ok, ◌≡◌, refl, arith, ◌⊎◌, inl, inr, Bool-cases,
}
use fusions.Shared.Int.{ℤ, pos, eq_ℤ, eq_ℤ→≡}
use fusions.Core.WorkflowStatus
use fusions.Core.Transition.{try_transition}
use fusions.Store.Rows.{InstanceRow}
use fusions.Store.Tables.{Tables}
use fusions.Store.Sql.{update_where}
use fusions.Store.Instances.{
  complete_workflow_cas, error_workflow, clear_current_activity, update_current_activity,
  enter_returned_waiting, resume_from_returned_waiting, reactivate_workflow,
  mark_side_effects_executed, change_instances,
}

-- The updates that the service makes of an instance, the one of its context left out.
pub data Change : Type 0 where
  complete : ℤ → Change
  fail : Change
  unpoint : Change
  point : String → Change
  hand_back : String → Change
  resume : Change
  reactivate : Change
  mark : Change

along :
    (from to status : ℤ)
    → try_transition (WorkflowStatus.from_i16 from) (WorkflowStatus.from_i16 to)
      ≡ ok (WorkflowStatus.from_i16 to)
    → eq_ℤ status from ≡ true
    → (status ≡ to)
      ⊎ (try_transition (WorkflowStatus.from_i16 status) (WorkflowStatus.from_i16 to)
          ≡ ok (WorkflowStatus.from_i16 to))
along from to status edge was = inr (rw (eq_ℤ→≡ status from was) edge)

module _ {Time J : Type 0} where
  abbrev pub change : Change → String → Tables Time J → Bool × Tables Time J
  change (complete result) id t = complete_workflow_cas id result t
  change fail id t = error_workflow id t
  change unpoint id t = clear_current_activity id t
  change (point activity) id t = update_current_activity id activity t
  change (hand_back activity) id t = enter_returned_waiting id activity t
  change resume id t = resume_from_returned_waiting id t
  change reactivate id t = reactivate_workflow id t
  change mark id t = mark_side_effects_executed id t

  -- A row keeps its id, and its status or goes along an edge of the graph.
  abbrev pub Follows : InstanceRow Time J → InstanceRow Time J → Type 0
  Follows r s =
      (r.id ≡ s.id)
      × ((r.status ≡ s.status)
          ⊎ (try_transition (WorkflowStatus.from_i16 r.status) (WorkflowStatus.from_i16 s.status)
              ≡ ok (WorkflowStatus.from_i16 s.status)))

  abbrev pub AllFollow : List (InstanceRow Time J) → List (InstanceRow Time J) → Type 0
  AllFollow [] [] = Unit
  AllFollow [] (s ∷ ss) = ⊥
  AllFollow (r ∷ rs) [] = ⊥
  AllFollow (r ∷ rs) (s ∷ ss) = Follows r s × AllFollow rs ss

  update_where-AllFollow :
      (test : InstanceRow Time J → Bool) (f : InstanceRow Time J → InstanceRow Time J)
      (rs : List (InstanceRow Time J))
      → ((r : InstanceRow Time J) → test r ≡ true → Follows r (f r))
      → AllFollow rs (update_where test f rs)
  unfolding update_where
  update_where-AllFollow test f [] h = tt
  update_where-AllFollow test f (r ∷ rs) h = elim (Bool-cases (test r)) [
    | inl e ↦ rw e (h r e, update_where-AllFollow test f rs h)
    | inr e ↦ rw e ((refl, inl refl), update_where-AllFollow test f rs h)
  ]

  -- Each of the eight updates of an instance other than that of its context leaves every row of the
  -- table in its place with its id, and its status as it was or moved along an edge that
  -- try_transition grants.
  pub change-AllFollow :
      (c : Change) (id : String) (t : Tables Time J)
      → AllFollow t.instances (change c id t).1.instances
  unfolding complete_workflow_cas error_workflow clear_current_activity update_current_activity
      enter_returned_waiting resume_from_returned_waiting reactivate_workflow
      mark_side_effects_executed change_instances try_transition WorkflowStatus.from_i16
  change-AllFollow (complete result) id t =
      update_where-AllFollow _ _ t.instances
        (λ r h. (refl, along (pos 2) (pos 3) r.status refl (ground (arith, h))))
  change-AllFollow fail id t =
      update_where-AllFollow _ _ t.instances
        (λ r h. (refl, along (pos 2) (pos 4) r.status refl (ground (arith, h))))
  change-AllFollow unpoint id t = update_where-AllFollow _ _ t.instances (λ r h. (refl, inl refl))
  change-AllFollow (point activity) id t =
      update_where-AllFollow _ _ t.instances (λ r h. (refl, inl refl))
  change-AllFollow (hand_back activity) id t =
      update_where-AllFollow _ _ t.instances
        (λ r h. (refl, along (pos 2) (pos 6) r.status refl (ground (arith, h))))
  change-AllFollow resume id t =
      update_where-AllFollow _ _ t.instances
        (λ r h. (refl, along (pos 6) (pos 2) r.status refl (ground (arith, h))))
  change-AllFollow reactivate id t =
      update_where-AllFollow _ _ t.instances
        (λ r h. (refl, along (pos 3) (pos 2) r.status refl (ground (arith, h))))
  change-AllFollow mark id t = update_where-AllFollow _ _ t.instances (λ r h. (refl, inl refl))
