-- ===== src/Service/Agreement.antt =====
-- When the tables of an instance agree with the replay of its log: what `verify_projection` of
-- crates/hetuflow-service/src/service.rs checks, with the facts that the service keeps besides.
pub mod Rows
pub mod Log
pub mod Instance
pub mod Facts
pub mod Changes
pub mod Review
pub mod Silent
pub mod Status
pub mod Advance
pub mod Outcome
pub mod Target
pub mod Signal
pub mod Handle
pub mod Verify
pub mod Keep
use fusions.Shared.{
  ℕ, ◌<◌, String, Option, some, List, [], ◌∷◌, Bool, false, ◌≡◌, ◌≢◌, All, contains, filter, map,
}
use fusions.Shared.Int.{ℤ, i32_of}
use fusions.Core.WorkflowStatus
use fusions.Core.Definition.{DefinitionSnapshot}
use fusions.Runtime.Replay.Model.{ReplayedActivity, ReplayedProjection}
use fusions.Runtime.Replay.Fold.{fold_events}
use fusions.Runtime.Replay.Diff.Agreement.{SameInstance, SameRow}
use fusions.Store.External.{External}
use fusions.Store.Rows.{
  InstanceRow, ActivityRow, EventRow, event_record, ActivityRow_into_model, InstanceRow_into_model,
}
use fusions.Store.Tables.{Tables}
use fusions.Store.Sql.{sort_by}
use fusions.Store.Events.{of_log, before}
use fusions.Store.Activities.{of_instance}
use fusions.Store.Instances.{has_id}
use fusions.Service.Agreement.Rows.{Aligned, Distinct, Older, ids}

module _ {Time J : Type 0} (x : External Time J) (id : String) (snapshot : DefinitionSnapshot) where
  -- What the log of the instance replays to.
  abbrev pub replayed : List (EventRow Time J) → ReplayedProjection Time
  replayed events =
      fold_events x.json snapshot (map event_record (sort_by before (filter (of_log id) events)))

  pub record Agrees (events : List (EventRow Time J)) (instances : List (InstanceRow Time J))
      (activities : List (ActivityRow Time)) (made : ℕ) : Type 0 where
    -- one row has the id, and holds the definition
    pub row : InstanceRow Time J
    pub only : filter (has_id id) instances ≡ row ∷ []
    pub bound : x.snapshot_of row.definition_snapshot ≡ some snapshot
    pub begun : WorkflowStatus.from_i16 row.status ≢ WorkflowStatus.pending
    pub same : SameInstance (replayed events).instance (InstanceRow_into_model x.json.display row)
    -- the activities are those of the replay, in its order, each under an id of its own
    pub aligned : Aligned x (replayed events).activities (filter (of_instance id) activities)
    pub distinct : Distinct (ids (filter (of_instance id) activities))
    pub older : Older x made (ids (filter (of_instance id) activities))

abbrev pub Consistent :
    {Time J : Type 0} → External Time J → String → DefinitionSnapshot → Tables Time J → Type 0
Consistent x id snapshot t = Agrees x id snapshot t.events t.instances t.activities t.made

-- The tables agree still, and the row of the instance is this one.
abbrev pub AgreesWith :
    {Time J : Type 0}
    → External Time J
    → String
    → DefinitionSnapshot
    → InstanceRow Time J
    → Tables Time J
    → Type 0
AgreesWith x id snapshot row t = (after : Consistent x id snapshot t) × (after.row ≡ row)
