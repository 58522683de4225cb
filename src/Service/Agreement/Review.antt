-- ===== src/Service/Agreement/Review.antt =====
-- A review or an assignment of an active activity: the row and the two facts agree.
use mathlib.Core.List.{Memᴰ}
use fusions.Shared.{
  String, Option, none, some, List, [], ◌∷◌, true, false, ◌≡◌, refl, ap, ◌∙◌, arith, any, filter,
}
use fusions.Shared.Int.{ℤ, pos}
use fusions.Core.EventType
use fusions.Core.SignalType.{SignalType}
use fusions.Core.ActivityStatus
use fusions.Runtime.Replay.Model.{ReplayedActivity, ReplayedProjection}
use fusions.Runtime.Replay.Activities.{and_then, update_first, by_id}
use fusions.Store.Codec.{activity_result_to_str, activity_result_from_str}
use fusions.Store.External.{External, IsLawful}
use fusions.Store.Rows.{ActivityRow, ActivityRow_into_model, map_some}
use fusions.Store.Tables.{Tables}
use fusions.Store.Scope.{parse_uuid}
use fusions.Store.Events.{append_event, next_seq}
use fusions.Store.Activities.{
  is_active, of_instance, complete_activity_cas, change_activities, update_activity_assignee,
}
use fusions.Store.Timers.{cancel_timers_for_activity}
use fusions.Service.Command.{SignalCommand}
use fusions.Service.Config.{InstanceCtx}
use fusions.Service.Signal.{signal_result, is_assignment}
use fusions.Service.Log.{append}
use fusions.Service.Complete.{complete_activity, completed_payload}
use fusions.Service.Handle.{assign}
use fusions.Service.Run.{Ensures, Ensures-must, attempt}
use fusions.Service.Agreement.{Consistent, AgreesWith, replayed}
use fusions.Service.Agreement.Rows.{Matches}
use fusions.Service.Agreement.Log.{replayed-append}
use fusions.Service.Agreement.Facts.{
  review_payload, reviewed_by, done_with, step-review, step-completed, assigned_to, step-assignment,
}
use fusions.Service.Agreement.Changes.{Agrees-update}

-- The texts of results are read back from their numbers.
result_text :
    (display : ℤ → String) (signal : SignalType)
    → map_some
        (activity_result_to_str display)
        (and_then (signal_result signal) activity_result_from_str)
      ≡ signal_result signal
unfolding signal_result activity_result_to_str activity_result_from_str
result_text display SignalType.approved = refl
result_text display SignalType.returned = refl
result_text display SignalType.rejected = refl
result_text display SignalType.resubmitted = refl
result_text display SignalType.event_received = refl
result_text display SignalType.claimed = refl
result_text display SignalType.reassigned = refl
result_text display SignalType.completed = refl

update_first-twice :
    {Time : Type 0} (id : String) (g h : ReplayedActivity Time → ReplayedActivity Time)
    (activities : List (ReplayedActivity Time))
    → ((a : ReplayedActivity Time) → (g a).id ≡ a.id)
    → update_first (by_id id) h (update_first (by_id id) g activities)
      ≡ update_first (by_id id) (λ a. h (g a)) activities
unfolding update_first
update_first-twice id g h [] keep = refl
update_first-twice id g h (a ∷ more) keep =
    ground (arith, keep a, update_first-twice id g h more keep)

module _ {Time J : Type 0} (x : External Time J) where
  abbrev reviewed_row : SignalType → ℤ → Option String → Time → ActivityRow Time → ActivityRow Time
  reviewed_row signal actor notes now r = record r {
    status = pos 3;
    result = and_then (signal_result signal) activity_result_from_str;
    reviewed_by = some actor;
    reviewed_at = some now;
    review_notes = notes;
  }

  Matches-review :
      (signal : SignalType) (actor : ℤ) (notes : Option String) (now : Time)
      (a : ReplayedActivity Time) (r : ActivityRow Time)
      → Matches x a r
      → Matches x
          (done_with x (signal_result signal) (reviewed_by x actor notes now a))
          (reviewed_row signal actor notes now r)
  unfolding ActivityRow_into_model ActivityStatus.from_i16
  Matches-review signal actor notes now a r m = ground (arith, result_text x.json.display signal)

module _ {Time J : Type 0} (x : External Time J) where
  Matches-assignment :
      (assignee : Option ℤ) (a : ReplayedActivity Time) (r : ActivityRow Time)
      → Matches x a r
      → Matches x
          (assigned_to x (map_some x.json.display assignee) a)
          (record r { assignee_id = assignee })
  unfolding ActivityRow_into_model
  Matches-assignment assignee a r m = ground arith

module _ {Time J : Type 0} (x : External Time J) (laws : IsLawful x) (ctx : InstanceCtx J) where
  -- The two facts of a review, one after the other; `u` is what the row's change makes of the tables
  -- after the first.
  replayed-review :
      (signal : SignalType) (actor : ℤ) (notes key : Option String) (aid : String)
      (t u : Tables Time J)
      → is_assignment signal ≡ false
      → u.events
        ≡ (append_event ctx.tenant_id ctx.facility_id ctx.instance_id
            (next_seq ctx.instance_id t)
            EventType.signal_received
            (review_payload x signal aid actor notes)
            key
            t).events
      → replayed x ctx.instance_id ctx.snapshot
          (append_event ctx.tenant_id ctx.facility_id ctx.instance_id
            (next_seq ctx.instance_id u)
            EventType.activity_completed
            (completed_payload x aid (signal_result signal))
            none
            u).events
        ≡ record (replayed x ctx.instance_id ctx.snapshot t.events) {
          activities =
              update_first
                (by_id aid)
                (λ a. done_with x (signal_result signal) (reviewed_by x actor notes t.now a))
                (replayed x ctx.instance_id ctx.snapshot t.events).activities;
        }
  replayed-review signal actor notes key aid t u h e =
      let p = replayed x ctx.instance_id ctx.snapshot t.events in
      let first : replayed x ctx.instance_id ctx.snapshot u.events ≡ record p {
        activities = update_first (by_id aid) (reviewed_by x actor notes t.now) p.activities;
      } =
        ap (replayed x ctx.instance_id ctx.snapshot) e
        ∙ (replayed-append x ctx.instance_id ctx.snapshot ctx.tenant_id ctx.facility_id
              EventType.signal_received (review_payload x signal aid actor notes) key t
            ∙ step-review x laws ctx.snapshot p signal aid actor notes (next_seq ctx.instance_id t)
                t.now h) in
      replayed-append x ctx.instance_id ctx.snapshot ctx.tenant_id ctx.facility_id
        EventType.activity_completed (completed_payload x aid (signal_result signal)) none u
      ∙ (step-completed x laws ctx.snapshot (replayed x ctx.instance_id ctx.snapshot u.events) aid
            (signal_result signal) (next_seq ctx.instance_id u) u.now
          ∙ (ap {A = ReplayedProjection Time} {B = ReplayedProjection Time}
                (λ s. record s {
                  activities =
                      update_first (by_id aid) (done_with x (signal_result signal)) s.activities;
                })
                first
              ∙ ap {B = ReplayedProjection Time} (λ l. record p { activities = l })
                  (update_first-twice aid (reviewed_by x actor notes t.now)
                    (done_with x (signal_result signal)) p.activities (λ a. refl))))

  pub review-Agrees :
      (cmd : SignalCommand J) (t : Tables Time J)
      (before : Consistent x ctx.instance_id ctx.snapshot t) {r : ActivityRow Time}
      → Memᴰ r (filter (of_instance ctx.instance_id) t.activities)
      → r.status ≡ pos 2
      → x.uuid_of r.id ≡ some r.id
      → is_assignment cmd.signal ≡ false
      → Ensures
          (λ _ t'. AgreesWith x ctx.instance_id ctx.snapshot before.row t')
          (complete_activity x ctx
            (ActivityRow_into_model x.json.display r)
            (signal_result cmd.signal)
            cmd.actor_user_id
            cmd.review_notes
            (append_event ctx.tenant_id ctx.facility_id ctx.instance_id
              (next_seq ctx.instance_id t)
              EventType.signal_received
              (review_payload x cmd.signal r.id cmd.actor_user_id cmd.review_notes)
              (some cmd.idempotency_key)
              t))
  unfolding complete_activity parse_uuid attempt append ActivityRow_into_model complete_activity_cas
      change_activities cancel_timers_for_activity append_event
  review-Agrees cmd t before {r} m active id h =
      rw (id, Ensures)
        (Ensures-must _ (any (is_active r.id) t.activities) _ _ _ (λ won.
          Agrees-update x ctx.instance_id ctx.snapshot before _ r.id
            (λ a.
              done_with x (signal_result cmd.signal)
                (reviewed_by x cmd.actor_user_id cmd.review_notes t.now a))
            (reviewed_row x cmd.signal cmd.actor_user_id cmd.review_notes t.now)
            (replayed-review cmd.signal cmd.actor_user_id cmd.review_notes
              (some cmd.idempotency_key) r.id t _ h refl)
            (λ s. refl) (λ s. refl)
            (Matches-review x cmd.signal cmd.actor_user_id cmd.review_notes t.now) m refl active))

  pub assign-Agrees :
      (cmd : SignalCommand J) (t : Tables Time J)
      (before : Consistent x ctx.instance_id ctx.snapshot t) {r : ActivityRow Time}
      → Memᴰ r (filter (of_instance ctx.instance_id) t.activities)
      → r.status ≡ pos 2
      → is_assignment cmd.signal ≡ true
      → Ensures
          (λ _ t'. AgreesWith x ctx.instance_id ctx.snapshot before.row t')
          (assign x ctx cmd (ActivityRow_into_model x.json.display r) r.id t)
  unfolding assign append ActivityRow_into_model update_activity_assignee change_activities
      append_event
  assign-Agrees cmd t before {r} m active h =
      Agrees-update x ctx.instance_id ctx.snapshot before _ r.id
        (assigned_to x (map_some x.json.display cmd.assignee_id))
        (λ s. record s { assignee_id = cmd.assignee_id })
        (replayed-append x ctx.instance_id ctx.snapshot ctx.tenant_id ctx.facility_id
            EventType.signal_received _ (some cmd.idempotency_key)
            (update_activity_assignee r.id cmd.assignee_id t).1
          ∙ step-assignment x laws ctx.snapshot (replayed x ctx.instance_id ctx.snapshot t.events)
              cmd.signal r.id (map_some x.json.display cmd.assignee_id) _ t.now h)
        (λ s. refl) (λ s. refl) (Matches-assignment x cmd.assignee_id) m refl active
