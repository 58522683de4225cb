-- ===== src/Runtime/Replay/Diff/Rework.antt =====
-- What `diff_projection` reports after a rework.
use fusions.Shared.{
  String, some, List, [], ◌∷◌, ◌++◌, true, ◌≡◌, ◌≢◌, sym, subst, ◌∙◌, arith, All-mem, any, any-mem,
  ==→≡, &&-true, not,
}
use fusions.Core.ActivityStatus
use fusions.Core.EventType
use fusions.Core.Definition.{WorkflowInstance, ActivityInstance, DefinitionSnapshot, EventRecord}
use fusions.Runtime.Replay.Model.{Json, ReplayedActivity, ReplayedProjection}
use fusions.Runtime.Replay.Activities.{by_id, pstr}
use fusions.Runtime.Replay.Fold.{step, fresh, fold_events}
use fusions.Runtime.Replay.Fold.History.{foldl-concat}
use fusions.Runtime.Replay.Fold.Rework.{is_unfinished, is_doubled, Doubled, rework-Doubled}
use fusions.Runtime.Replay.Diff.{live_row, is_completed, diff_projection}
use fusions.Runtime.Replay.Diff.Agreement.{IsStored, same-row, diff_projection-nil}

module _ {Time : Type 0} where
  some_unfinished :
      (id : String) (activities : List (ReplayedActivity Time))
      → is_doubled id activities ≡ true
      → any (is_unfinished id) activities ≡ true
  unfolding is_doubled any
  some_unfinished id [] h = absurd (ground arith)
  some_unfinished id (a ∷ rest) h = ground (arith, some_unfinished id rest)

  unfinished-stored :
      (id : String) (ra : ReplayedActivity Time) (la : ActivityInstance Time)
      (rows : List (ActivityInstance Time))
      → is_unfinished id ra ≡ true
      → live_row rows id ≡ some la
      → IsStored rows ra
      → la.status ≢ ActivityStatus.completed
  unfinished-stored id ra la rows o row h done =
      let (same, unfinished) = &&-true (by_id id ra) (not (is_completed ra.status)) o in
      let found = subst (λ i. live_row rows i ≡ some h.0) (==→≡ ra.id id same) h.1 in
      let agreed = (same-row ra la h.0 (sym row ∙ found) h.2).0 in
      ground (arith, unfinished, agreed, done)

  -- An activity that is not completed in the replay but is in the table is reported.
  unfinished-reported :
      {J : Type 0} (replayed : ReplayedProjection Time) (live : WorkflowInstance Time J)
      (rows : List (ActivityInstance Time)) (id : String) (la : ActivityInstance Time)
      → any (is_unfinished id) replayed.activities ≡ true
      → live_row rows id ≡ some la
      → la.status ≡ ActivityStatus.completed
      → diff_projection replayed live rows ≢ []
  unfinished-reported replayed live rows id la o row done e =
      let (ra, m, t) = any-mem (is_unfinished id) replayed.activities o in
      let stored_row =
        All-mem (IsStored rows) replayed.activities
          ((diff_projection-nil replayed live rows).0 e).1.0 m in
      unfinished-stored id ra la rows t row stored_row done

  -- Where the log holds ACTIVITY_SCHEDULED and right after it RETURNED_TO_REWORK with the id of the
  -- same activity, whatever is logged before and after them, and the stored row of that id is
  -- completed, diff_projection reports a difference from what fold_events makes of the log: the fold
  -- lists the activity twice, and nothing completes the second.
  pub rework-reported :
      {J : Type 0} (json : Json J) (snapshot : DefinitionSnapshot)
      (earlier later : List (EventRecord Time J)) (p q : EventRecord Time J) (id : String)
      (live : WorkflowInstance Time J) (rows : List (ActivityInstance Time))
      (la : ActivityInstance Time)
      → p.event_type ≡ EventType.activity_scheduled
      → q.event_type ≡ EventType.returned_to_rework
      → pstr json p.payload "activity_id" ≡ some id
      → pstr json q.payload "activity_id" ≡ some id
      → live_row rows id ≡ some la
      → la.status ≡ ActivityStatus.completed
      → diff_projection (fold_events json snapshot (earlier ++ p ∷ q ∷ later)) live rows ≢ []
  unfolding fold_events
  rework-reported json snapshot earlier later p q id live rows la ep eq hp hq row done =
      unfinished-reported _ live rows id la
        (some_unfinished id _
          (subst (λ (s : ReplayedProjection Time). Doubled id s)
            (sym (foldl-concat (step json snapshot) (fresh json) earlier (p ∷ q ∷ later)))
            (rework-Doubled json snapshot id _ p q later ep eq hp hq)).doubled)
        row done
