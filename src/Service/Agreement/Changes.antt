-- ===== src/Service/Agreement/Changes.antt =====
-- The three ways in which the service changes what agrees: one active activity, the instance, and a new
-- activity.
use mathlib.Core.List.{Memᴰ}
use fusions.Shared.{
  ℕ, suc, String, List, [], ◌∷◌, ◌++◌, ◌==◌, ◌≡◌, ◌≢◌, refl, ap, subst, sym, ◌∙◌, arith, filter,
  eq_refl, if◌then◌else◌,
}
use fusions.Shared.Int.{pos}
use fusions.Core.WorkflowStatus
use fusions.Core.Definition.{DefinitionSnapshot}
use fusions.Runtime.Replay.Model.{ReplayedActivity, ReplayedInstance}
use fusions.Runtime.Replay.Activities.{update_first, by_id}
use fusions.Runtime.Replay.Diff.Agreement.{SameInstance}
use fusions.Store.External.{External, IsLawful}
use fusions.Store.Rows.{InstanceRow, ActivityRow, EventRow, InstanceRow_into_model}
use fusions.Store.Sql.{update_where}
use fusions.Store.Sql.Laws.{filter-append, filter-update_where}
use fusions.Store.Activities.{is_active, of_instance}
use fusions.Store.Instances.{has_id}
use fusions.Service.Agreement.{Agrees, replayed}
use fusions.Service.Agreement.Rows.{
  ids, Matches, Aligned, Aligned-update, Aligned-append, Distinct, Distinct-append, Older,
  Older-suc, Older-append, Older-new, ids-append, ids-update_where,
}

module _ {Time J : Type 0} (x : External Time J) (id : String) (snapshot : DefinitionSnapshot)
    {events : List (EventRow Time J)} {instances : List (InstanceRow Time J)}
    {activities : List (ActivityRow Time)} {made : ℕ}
    (before : Agrees x id snapshot events instances activities made) where
  -- An active activity is changed in its row and by the replay alike.
  pub Agrees-update :
      (later : List (EventRow Time J)) (aid : String)
      (g : ReplayedActivity Time → ReplayedActivity Time) (f : ActivityRow Time → ActivityRow Time)
      {r : ActivityRow Time}
      → replayed x id snapshot later ≡ record (replayed x id snapshot events) {
        activities = update_first (by_id aid) g (replayed x id snapshot events).activities;
      }
      → ((s : ActivityRow Time) → (f s).id ≡ s.id)
      → ((s : ActivityRow Time) → (f s).workflow_instance_id ≡ s.workflow_instance_id)
      → ((a : ReplayedActivity Time) (s : ActivityRow Time) → Matches x a s → Matches x (g a) (f s))
      → Memᴰ r (filter (of_instance id) activities)
      → r.id ≡ aid
      → r.status ≡ pos 2
      → (after : Agrees x id snapshot later instances
          (update_where (is_active aid) f activities)
          made)
        × (after.row ≡ before.row)
  Agrees-update later aid g f e same_id same_owner keeps m own active =
      let rows : filter (of_instance id) (update_where (is_active aid) f activities)
          ≡ update_where (is_active aid) f (filter (of_instance id) activities) =
        filter-update_where (of_instance id) (is_active aid) f activities
          (λ s. ap (λ o. o == id) (same_owner s)) in
      let same_ids : ids (filter (of_instance id) (update_where (is_active aid) f activities))
          ≡ ids (filter (of_instance id) activities) =
        ap ids rows
        ∙ ids-update_where (is_active aid) f (filter (of_instance id) activities) same_id in
      (
        record {
          row = before.row;
          only = before.only;
          bound = before.bound;
          begun = before.begun;
          same =
              subst
                (λ p. SameInstance p.instance (InstanceRow_into_model x.json.display before.row))
                (sym e) before.same;
          aligned =
              subst
                (λ p.
                  Aligned x p.activities
                    (filter (of_instance id) (update_where (is_active aid) f activities)))
                (sym e)
                (subst
                  (Aligned x
                    (update_first (by_id aid) g (replayed x id snapshot events).activities))
                  (sym rows)
                  (Aligned-update x g f keeps aid (replayed x id snapshot events).activities
                    (filter (of_instance id) activities) before.aligned before.distinct m own
                    active));
          distinct = subst Distinct (sym same_ids) before.distinct;
          older = subst (Older x made) (sym same_ids) before.older;
        },
        refl,
      )

  -- The row of the instance is changed as the replay says.
  pub Agrees-instance :
      (later : List (EventRow Time J)) (changed : List (InstanceRow Time J))
      (instance : ReplayedInstance Time) (row : InstanceRow Time J)
      → replayed x id snapshot later
        ≡ record (replayed x id snapshot events) { instance = instance }
      → filter (has_id id) changed ≡ row ∷ []
      → row.definition_snapshot ≡ before.row.definition_snapshot
      → WorkflowStatus.from_i16 row.status ≢ WorkflowStatus.pending
      → SameInstance instance (InstanceRow_into_model x.json.display row)
      → (after : Agrees x id snapshot later changed activities made) × (after.row ≡ row)
  Agrees-instance later changed instance row e only kept begun same = (
    record {
      row = row;
      only = only;
      bound = ap x.snapshot_of kept ∙ before.bound;
      begun = begun;
      same =
          subst (λ p. SameInstance p.instance (InstanceRow_into_model x.json.display row)) (sym e)
            same;
      aligned =
          subst (λ p. Aligned x p.activities (filter (of_instance id) activities)) (sym e)
            before.aligned;
      distinct = before.distinct;
      older = before.older;
    },
    refl,
  )

  -- A new activity, under the id that the database makes next.
  pub Agrees-schedule :
      (later : List (EventRow Time J)) (changed : List (InstanceRow Time J))
      (instance : ReplayedInstance Time) (row : InstanceRow Time J) (a : ReplayedActivity Time)
      (r : ActivityRow Time)
      → IsLawful x
      → replayed x id snapshot later ≡ record {
        instance = instance;
        activities = (replayed x id snapshot events).activities ++ a ∷ [];
      }
      → filter (has_id id) changed ≡ row ∷ []
      → row.definition_snapshot ≡ before.row.definition_snapshot
      → WorkflowStatus.from_i16 row.status ≢ WorkflowStatus.pending
      → SameInstance instance (InstanceRow_into_model x.json.display row)
      → Matches x a r
      → r.workflow_instance_id ≡ id
      → r.id ≡ x.made_uuid made
      → (after : Agrees x id snapshot later changed (activities ++ r ∷ []) (suc made)) × (after.row
          ≡ row)
  unfolding filter
  Agrees-schedule later changed instance row a r laws e only kept begun same matches owner new =
      let rows : filter (of_instance id) (activities ++ r ∷ [])
          ≡ filter (of_instance id) activities ++ r ∷ [] =
        filter-append (of_instance id) activities (r ∷ [])
        ∙ ap (λ b. filter (of_instance id) activities ++ (if b then r ∷ [] else []))
            (ap (λ o. o == id) owner ∙ eq_refl id) in
      let all_ids : ids (filter (of_instance id) (activities ++ r ∷ []))
          ≡ ids (filter (of_instance id) activities) ++ x.made_uuid made ∷ [] =
        ap ids rows
        ∙ (ids-append (filter (of_instance id) activities) (r ∷ [])
            ∙ ap (λ s. ids (filter (of_instance id) activities) ++ s ∷ []) new) in
      (
        record {
          row = row;
          only = only;
          bound = ap x.snapshot_of kept ∙ before.bound;
          begun = begun;
          same =
              subst (λ p. SameInstance p.instance (InstanceRow_into_model x.json.display row))
                (sym e) same;
          aligned =
              subst (λ p. Aligned x p.activities (filter (of_instance id) (activities ++ r ∷ [])))
                (sym e)
                (subst (Aligned x ((replayed x id snapshot events).activities ++ a ∷ [])) (sym rows)
                  (Aligned-append x _ _ a r before.aligned matches));
          distinct = subst Distinct (sym all_ids) (
              Distinct-append _ (x.made_uuid made) before.distinct
                (Older-new x made _ laws before.older));
          older = subst (Older x (suc made)) (sym all_ids) (
              Older-append x (suc made) _ (x.made_uuid made) (Older-suc x made _ before.older)
                (made, omega arith, refl));
        },
        refl,
      )
