-- ===== src/Service/Agreement/Verify.antt =====
-- `verify_projection` of crates/hetuflow-service/src/service.rs reports nothing of tables that agree.
use fusions.Shared.{
  String, none, some, List, [], ◌∷◌, true, false, ◌≡◌, refl, arith, All, contains, filter, eq_refl,
  ok, length,
}
use fusions.Core.Payload.{ScopeFilter}
use fusions.Core.Definition.{ActivityInstance, WorkflowInstance, DefinitionSnapshot}
use fusions.Runtime.Replay.Model.{ReplayedActivity}
use fusions.Runtime.Replay.Diff.{live_row, replayed_ids, diff_projection}
use fusions.Runtime.Replay.Fold.{fold_events}
use fusions.Runtime.Replay.Diff.Agreement.{IsStored, diff_projection-nil}
use fusions.Store.External.{External}
use fusions.Store.Rows.{ActivityRow, ActivityRow_into_model, InstanceRow_into_model}
use fusions.Store.Tables.{Tables}
use fusions.Store.Sql.Laws.{find-filter}
use fusions.Store.Events.{load_events}
use fusions.Store.Instances.{has_id, load_snapshot}
use fusions.Store.Scope.{get_instance_scoped}
use fusions.Store.Activities.{models, of_instance, list_activities}
use fusions.Service.Deliver.{verify_projection}
use fusions.Service.Run.{done, attempt, or_fail}
use fusions.Service.Agreement.{Consistent, replayed}
use fusions.Service.Agreement.Handle.{found_at-only}
use fusions.Service.Agreement.Rows.{Aligned, Distinct, ids}

module _ {Time J : Type 0} (x : External Time J) where
  live_row-none :
      (rows : List (ActivityRow Time)) (s : String)
      → contains (ids rows) s ≡ false
      → live_row (models x rows) s ≡ none
  unfolding live_row contains ActivityRow_into_model
  live_row-none [] s h = refl
  live_row-none (r ∷ rows) s h = ground (arith, live_row-none rows s)

  IsStored-tail :
      (r : ActivityRow Time) (rows : List (ActivityRow Time))
      (activities : List (ReplayedActivity Time))
      → All (IsStored (models x rows)) activities
      → All (IsStored (models x (r ∷ rows))) activities
  unfolding live_row
  IsStored-tail r rows [] h = tt
  IsStored-tail r rows (a ∷ more) h =
      let (la, shown, same) = h.0 in
      ((la, ground (arith, shown), same), IsStored-tail r rows more h.1)

  pub Aligned-IsStored :
      (activities : List (ReplayedActivity Time)) (rows : List (ActivityRow Time))
      → Aligned x activities rows
      → Distinct (ids rows)
      → All (IsStored (models x rows)) activities
  unfolding live_row ActivityRow_into_model
  Aligned-IsStored [] rows w d = tt
  Aligned-IsStored (a ∷ more) [] w d = absurd w
  Aligned-IsStored (a ∷ more) (r ∷ rows) w d = (
    (
      ActivityRow_into_model x.json.display r,
      ground (arith, live_row-none rows r.id d.0, w.0.same_id, eq_refl r.id),
      w.0.same,
    ),
    IsStored-tail r rows more (Aligned-IsStored more rows w.1 d.1),
  )

  IsListed-tail :
      (a : ReplayedActivity Time) (activities : List (ReplayedActivity Time))
      (rows : List (ActivityInstance Time))
      → All (λ la. contains (replayed_ids activities) la.id ≡ true) rows
      → All (λ la. contains (replayed_ids (a ∷ activities)) la.id ≡ true) rows
  unfolding contains
  IsListed-tail a activities [] h = tt
  IsListed-tail a activities (r ∷ rows) h =
      (ground (arith, h.0), IsListed-tail a activities rows h.1)

  pub Aligned-IsListed :
      (activities : List (ReplayedActivity Time)) (rows : List (ActivityRow Time))
      → Aligned x activities rows
      → All (λ la. contains (replayed_ids activities) la.id ≡ true) (models x rows)
  unfolding contains ActivityRow_into_model
  Aligned-IsListed [] [] w = tt
  Aligned-IsListed [] (r ∷ rows) w = absurd w
  Aligned-IsListed (a ∷ more) [] w = absurd w
  Aligned-IsListed (a ∷ more) (r ∷ rows) w = (
    ground (arith, w.0.same_id, eq_refl r.id),
    IsListed-tail a more (models x rows) (Aligned-IsListed more rows w.1),
  )

module _ {Time J : Type 0} (x : External Time J) where
  -- Nothing differs between tables that agree and the replay of their log.
  diff_projection-Consistent :
      (id : String) (snapshot : DefinitionSnapshot) (t : Tables Time J)
      (agrees : Consistent x id snapshot t)
      → diff_projection
          (fold_events x.json snapshot (load_events id t))
          (InstanceRow_into_model x.json.display agrees.row)
          (list_activities x id t)
        ≡ []
  unfolding load_events list_activities
  diff_projection-Consistent id snapshot t agrees =
      (diff_projection-nil (replayed x id snapshot t.events)
          (InstanceRow_into_model x.json.display agrees.row)
          (models x (filter (of_instance id) t.activities))).1
        (
          agrees.same,
          (
            Aligned-IsStored x (replayed x id snapshot t.events).activities
                (filter (of_instance id) t.activities) agrees.aligned agrees.distinct,
            Aligned-IsListed x (replayed x id snapshot t.events).activities
                (filter (of_instance id) t.activities) agrees.aligned,
          ),
        )

  pub load_snapshot-Consistent :
      (id : String) (snapshot : DefinitionSnapshot) (t : Tables Time J)
      → Consistent x id snapshot t
      → load_snapshot x id t ≡ ok snapshot
  unfolding load_snapshot
  load_snapshot-Consistent id snapshot t agrees =
      ground (arith, find-filter (has_id id) t.instances agrees.only, agrees.bound)

  -- Where the tables of an instance agree with the replay of its log and the caller's scope shows the
  -- instance, verify_projection is done, changes nothing, and answers that the projection is
  -- consistent, with no differences and the number of the events.
  pub verify_projection-Consistent :
      (scope : ScopeFilter) (id : String) (snapshot : DefinitionSnapshot) (t : Tables Time J)
      {instance : WorkflowInstance Time J}
      → Consistent x id snapshot t
      → get_instance_scoped x scope id t ≡ ok (some instance)
      → verify_projection x scope id t
        ≡ done
            (record {
              instance_id = id;
              event_count = length (load_events id t);
              consistent = true;
              differences = [];
            })
            t
  unfolding verify_projection attempt or_fail
  verify_projection-Consistent scope id snapshot t {instance} agrees visible =
      let read = found_at-only x scope id t agrees.only visible in
      let same = diff_projection-Consistent id snapshot t agrees in
      rw (visible, load_snapshot-Consistent id snapshot t agrees, read, same) refl
