-- ===== src/Runtime/Replay/Fold/Events.antt =====
-- Each event of the log keeps the invariant of the projection.
use mathlib.Core.List.{foldl}
use fusions.Shared.{
  String, Option, none, some, List, [], ◌∷◌, Bool, true, false, refl, ◌∙◌, arith, if◌then◌else◌,
}
use fusions.Shared.Int.{ℤ}
use fusions.Core.Definition.{DefinitionSnapshot, EventRecord}
use fusions.Runtime.Replay.Model.{Json, ReplayedProjection}
use fusions.Runtime.Replay.Lists.{any-map, All-map}
use fusions.Runtime.Replay.Activities.{
  by_id, skip, skipped, skipped_if_active, signalled, completed_by, on_started, on_scheduled,
  on_signal, on_activity_completed, on_skipped, schedule, or_else, pstr, is_fan_out,
}
use fusions.Runtime.Replay.Fold.{
  on_completed, on_errored, on_returned, on_resumed, on_reactivated, on_escalated, on_fanned_out,
  step, fresh, fold_events, rework_to, escalate,
}
use fusions.Runtime.Replay.Fold.Invariant.{
  IsTyped, Inv, updated, changed, moved, added, terminal-kept, terminal-completed, same-by_id,
  fanned-by_id,
}

module _ {Time J : Type 0} (json : Json J) (snapshot : DefinitionSnapshot) where
  on_signal-Inv :
      (ev : EventRecord Time J) (s : ReplayedProjection Time)
      → Inv snapshot s
      → Inv snapshot (on_signal json ev s)
  unfolding on_signal
  on_signal-Inv ev s h =
      changed snapshot _ (signalled json ev) s (λ a. ground arith) (λ a t. ground arith) h

  on_activity_completed-Inv :
      (ev : EventRecord Time J) (s : ReplayedProjection Time)
      → Inv snapshot s
      → Inv snapshot (on_activity_completed json ev s)
  unfolding on_activity_completed
  on_activity_completed-Inv ev s h =
      changed snapshot (some (or_else (pstr json ev.payload "activity_id") ""))
        (completed_by json ev) s (λ a. ground arith) (λ a t. ground arith) h

  on_started-Inv :
      (ev : EventRecord Time J) (s : ReplayedProjection Time)
      → Inv snapshot s
      → Inv snapshot (on_started json ev s)
  unfolding on_started
  on_started-Inv ev s h =
      moved snapshot _ s (record { not_cancelled = λ e. cc; completed_timed = λ e. cc }) (λ id e. e)
        h

  schedule-Inv :
      (p : J) (id : Option String) (s : ReplayedProjection Time)
      → Inv snapshot s
      → Inv snapshot (schedule json snapshot p id s)
  schedule-Inv p none s h = h
  schedule-Inv p (some id) s h =
      added snapshot _ _ s
        (record {
          not_cancelled = λ e. terminal-kept s.instance.status h.sound.not_cancelled e;
          completed_timed = λ e. h.sound.completed_timed (terminal-completed s.instance.status e);
        })
        (refl, refl) (λ i e. fanned-by_id (is_fan_out (pstr json p "via")) id i e) h

  on_scheduled-Inv :
      (ev : EventRecord Time J) (s : ReplayedProjection Time)
      → Inv snapshot s
      → Inv snapshot (on_scheduled json snapshot ev s)
  unfolding on_scheduled
  on_scheduled-Inv ev s h = schedule-Inv ev.payload (pstr json ev.payload "activity_id") s h

  skip-Inv :
      (id : Option String) (s : ReplayedProjection Time) → Inv snapshot s → Inv snapshot (skip id s)
  skip-Inv (some id) s h = updated snapshot (by_id id) skipped s (λ a. refl) (λ a t. (t.0, refl)) h
  skip-Inv none s h = record {
    sound = h.sound;
    current_listed = λ id e.
        any-map (by_id id) skipped_if_active s.activities (λ a. ground arith)
        ∙ h.current_listed id e;
    typed = All-map (IsTyped snapshot) skipped_if_active s.activities (λ a t. ground arith) h.typed;
  }

  on_skipped-Inv :
      (ev : EventRecord Time J) (s : ReplayedProjection Time)
      → Inv snapshot s
      → Inv snapshot (on_skipped json ev s)
  unfolding on_skipped
  on_skipped-Inv ev s h = skip-Inv (pstr json ev.payload "activity_id") s h

  on_completed-Inv :
      (ev : EventRecord Time J) (s : ReplayedProjection Time)
      → Inv snapshot s
      → Inv snapshot (on_completed json ev s)
  unfolding on_completed
  on_completed-Inv ev s h =
      moved snapshot _ s (record { not_cancelled = λ e. cc; completed_timed = λ e e'. cc })
        (λ id e. cc) h

  on_errored-Inv : (s : ReplayedProjection Time) → Inv snapshot s → Inv snapshot (on_errored json s)
  unfolding on_errored
  on_errored-Inv s h =
      moved snapshot _ s (record { not_cancelled = λ e. cc; completed_timed = λ e. cc }) (λ id e. e)
        h

  on_resumed-Inv : (s : ReplayedProjection Time) → Inv snapshot s → Inv snapshot (on_resumed json s)
  unfolding on_resumed
  on_resumed-Inv s h =
      moved snapshot _ s (record { not_cancelled = λ e. cc; completed_timed = λ e. cc }) (λ id e. e)
        h

  on_reactivated-Inv :
      (s : ReplayedProjection Time) → Inv snapshot s → Inv snapshot (on_reactivated json s)
  unfolding on_reactivated
  on_reactivated-Inv s h =
      moved snapshot _ s (record { not_cancelled = λ e. cc; completed_timed = λ e. cc }) (λ id e. e)
        h

  on_fanned_out-Inv :
      (s : ReplayedProjection Time) → Inv snapshot s → Inv snapshot (on_fanned_out json s)
  unfolding on_fanned_out
  on_fanned_out-Inv s h =
      moved snapshot _ s
        (record {
          not_cancelled = h.sound.not_cancelled;
          completed_timed = h.sound.completed_timed;
        })
        (λ id e. cc) h

  rework_to-Inv :
      (p : J) (id def_id : String) (round : ℤ) (s : ReplayedProjection Time)
      → Inv snapshot s
      → Inv snapshot (rework_to json snapshot p id def_id round s)
  rework_to-Inv p id def_id round s h =
      added snapshot _ _ s (record { not_cancelled = λ e. cc; completed_timed = λ e. cc })
        (refl, refl) (λ i e. same-by_id id i e) h

  on_returned-Inv :
      (ev : EventRecord Time J) (s : ReplayedProjection Time)
      → Inv snapshot s
      → Inv snapshot (on_returned json snapshot ev s)
  unfolding on_returned
  on_returned-Inv ev s h = rework_to-Inv ev.payload _ _ _ s h

  escalate-Inv :
      (id role : Option String) (s : ReplayedProjection Time)
      → Inv snapshot s
      → Inv snapshot (escalate json id role s)
  escalate-Inv none role s h = h
  escalate-Inv (some id) none s h = h
  escalate-Inv (some id) (some role) s h = updated snapshot (by_id id) _ s (λ a. refl) (λ a t. t) h

  on_escalated-Inv :
      (ev : EventRecord Time J) (s : ReplayedProjection Time)
      → Inv snapshot s
      → Inv snapshot (on_escalated json ev s)
  unfolding on_escalated
  on_escalated-Inv ev s h = escalate-Inv _ _ s h

  if-Inv :
      (b : Bool) (x y : ReplayedProjection Time)
      → Inv snapshot x
      → Inv snapshot y
      → Inv snapshot (if b then x else y)
  if-Inv true x y h k = h
  if-Inv false x y h k = k

  step-Inv :
      (ev : EventRecord Time J) (s : ReplayedProjection Time)
      → Inv snapshot s
      → Inv snapshot (step json snapshot s ev)
  unfolding step
  step-Inv ev s h = if-Inv _ _ _ (on_started-Inv ev s h) (
      if-Inv _ _ _ (on_scheduled-Inv ev s h) (
        if-Inv _ _ _ (on_signal-Inv ev s h) (
          if-Inv _ _ _ (on_activity_completed-Inv ev s h) (
            if-Inv _ _ _ (on_skipped-Inv ev s h) (
              if-Inv _ _ _ (on_completed-Inv ev s h) (
                if-Inv _ _ _ (on_errored-Inv s h) (
                  if-Inv _ _ _ (on_returned-Inv ev s h) (
                    if-Inv _ _ _ (on_resumed-Inv s h) (
                      if-Inv _ _ _ (on_reactivated-Inv s h) (
                        if-Inv _ _ _ (on_escalated-Inv ev s h)
                          (if-Inv _ _ _ (on_fanned_out-Inv s h) h)))))))))))

  foldl-Inv :
      (s : ReplayedProjection Time) (events : List (EventRecord Time J))
      → Inv snapshot s
      → Inv snapshot (foldl (step json snapshot) s events)
  foldl-Inv s [] h = h
  foldl-Inv s (ev ∷ events) h = foldl-Inv (step json snapshot s ev) events (step-Inv ev s h)

  fresh-Inv : Inv {Time = Time} snapshot (fresh {Time = Time} json)
  fresh-Inv = record {
    sound = record { not_cancelled = λ e. cc; completed_timed = λ e. cc };
    current_listed = λ id e. cc;
    typed = tt;
  }

-- Whatever the log of events, the projection that `fold_events` builds is well formed: the instance is
-- never cancelled and has a time of completion when it is completed, the current activity, if
-- there is one, is among the activities, and every activity has the type its node in the snapshot
-- prescribes and is active, completed or skipped.
pub fold_events-Inv :
    {Time J : Type 0} (json : Json J) (snapshot : DefinitionSnapshot)
    (events : List (EventRecord Time J))
    → Inv snapshot (fold_events json snapshot events)
unfolding fold_events
fold_events-Inv json snapshot events =
    foldl-Inv json snapshot (fresh json) events (fresh-Inv json snapshot)
