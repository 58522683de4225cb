-- ===== src/Runtime/Replay/Fold/Rework.antt =====
-- What the fold makes of a rework. `schedule_activity` of crates/hetuflow-service/src/service.rs logs
-- ACTIVITY_SCHEDULED and its caller logs RETURNED_TO_REWORK, both with the id of the new activity.
use mathlib.Core.List.{foldl}
use fusions.Shared.{
  String, Option, some, none, List, [], ◌∷◌, ◌++◌, Bool, true, false, ◌≡◌, refl, ◌&&◌, ◌==◌, eq_iff,
  arith, any, eq_refl, Bool-cases, inl, inr, map, if◌then◌else◌, not, ==→≡, ap, ◌∙◌,
}
use fusions.Core.EventType
use fusions.Core.Definition.{DefinitionSnapshot, EventRecord}
use fusions.Runtime.Replay.Model.{Json, ReplayedActivity, ReplayedProjection}
use fusions.Runtime.Replay.Activities.{
  update_first, by_id, change, skip, skipped, skipped_if_active, signalled, schedule, pstr,
  on_started, on_scheduled, on_signal, on_activity_completed, on_skipped, completed_by, or_else,
}
use fusions.Runtime.Replay.Diff.{is_completed}
use fusions.Runtime.Replay.Fold.{
  on_completed, on_errored, on_returned, on_resumed, on_reactivated, escalate, on_escalated,
  on_fanned_out, step,
}

-- An activity of this id that is not completed.
abbrev pub is_unfinished : {Time : Type 0} → String → ReplayedActivity Time → Bool
is_unfinished id a = by_id id a && not (is_completed a.status)

-- After the first activity of this id there is another one, which is not completed.
unfoldable pub is_doubled : {Time : Type 0} → String → List (ReplayedActivity Time) → Bool
is_doubled id [] = false
is_doubled id (a ∷ rest) =
    let later = is_doubled id rest in if by_id id a then any (is_unfinished id) rest else later

module _ {Time : Type 0} (id : String) where
  any-append :
      (xs ys : List (ReplayedActivity Time))
      → any (is_unfinished id) xs ≡ true
      → any (is_unfinished id) (xs ++ ys) ≡ true
  unfolding any
  any-append [] ys h = absurd (ground arith)
  any-append (x ∷ xs) ys h = ground (arith, any-append xs ys)

  any-last :
      (xs : List (ReplayedActivity Time)) (b : ReplayedActivity Time)
      → is_unfinished id b ≡ true
      → any (is_unfinished id) (xs ++ b ∷ []) ≡ true
  unfolding any
  any-last [] b h = ground arith
  any-last (x ∷ xs) b h = ground (arith, any-last xs b h)

  is_doubled-append :
      (xs ys : List (ReplayedActivity Time))
      → is_doubled id xs ≡ true
      → is_doubled id (xs ++ ys) ≡ true
  unfolding is_doubled
  is_doubled-append [] ys h = absurd (ground arith)
  is_doubled-append (x ∷ xs) ys h = ground (arith, is_doubled-append xs ys, any-append xs ys)

  is_doubled-last :
      (xs : List (ReplayedActivity Time)) (a b : ReplayedActivity Time)
      → by_id id a ≡ true
      → is_unfinished id b ≡ true
      → is_doubled id ((xs ++ a ∷ []) ++ b ∷ []) ≡ true
  unfolding is_doubled any
  is_doubled-last [] a b ha hb = ground arith
  is_doubled-last (x ∷ xs) a b ha hb =
      ground (arith, is_doubled-last xs a b ha hb, any-last (xs ++ a ∷ []) b hb)

  module _ (f : ReplayedActivity Time → ReplayedActivity Time)
      (keep : (a : ReplayedActivity Time) → (f a).id ≡ a.id) where
    any-other :
        (j : String) (xs : List (ReplayedActivity Time))
        → (j == id) ≡ false
        → any (is_unfinished id) (update_first (by_id j) f xs) ≡ any (is_unfinished id) xs
    unfolding any update_first
    any-other j [] h = refl
    any-other j (x ∷ xs) h = elim (Bool-cases (by_id j x)) [
      | inl e ↦ ground (arith, keep x, ==→≡ x.id j e)
      | inr e ↦ ground (arith, any-other j xs h)
    ]

    -- A change of the first activity of an id leaves the second.
    is_doubled-update_first :
        (j : String) (xs : List (ReplayedActivity Time))
        → is_doubled id xs ≡ true
        → is_doubled id (update_first (by_id j) f xs) ≡ true
    unfolding is_doubled update_first
    is_doubled-update_first j [] h = absurd (ground arith)
    is_doubled-update_first j (x ∷ xs) h = elim (Bool-cases (by_id j x)) [
      | inl e ↦ ground (arith, keep x)
      | inr e ↦ elim (Bool-cases (by_id id x)) [
        | inl own ↦
            let other : (j == id) ≡ false =
              ground (arith, eq_iff j id, eq_iff x.id id, eq_iff x.id j) in
            ground (arith, any-other j xs other)
        | inr b ↦ ground (arith, is_doubled-update_first j xs)
      ]
    ]

  any-map :
      (xs : List (ReplayedActivity Time))
      → any (is_unfinished id) xs ≡ true
      → any (is_unfinished id) (map skipped_if_active xs) ≡ true
  unfolding any
  any-map [] h = absurd (ground arith)
  any-map (x ∷ xs) h = ground (arith, any-map xs)

  is_doubled-map :
      (xs : List (ReplayedActivity Time))
      → is_doubled id xs ≡ true
      → is_doubled id (map skipped_if_active xs) ≡ true
  unfolding is_doubled
  is_doubled-map [] h = absurd (ground arith)
  is_doubled-map (x ∷ xs) h = ground (arith, is_doubled-map xs, any-map xs)

-- The projection lists the id twice, and the second time not as completed.
pub record Doubled {Time : Type 0} (id : String) (s : ReplayedProjection Time) : Type 0 where
  pub doubled : is_doubled id s.activities ≡ true

module _ {Time J : Type 0} (json : Json J) (snapshot : DefinitionSnapshot) (id : String) where
  change-Doubled :
      (j : Option String) (f : ReplayedActivity Time → ReplayedActivity Time)
      (s : ReplayedProjection Time)
      → ((a : ReplayedActivity Time) → (f a).id ≡ a.id)
      → Doubled id s
      → Doubled id (change j f s)
  change-Doubled none f s keep h = h
  change-Doubled (some j) f s keep h = record {
    doubled = is_doubled-update_first id f keep j s.activities h.doubled;
  }

  skip-Doubled :
      (j : Option String) (s : ReplayedProjection Time) → Doubled id s → Doubled id (skip j s)
  skip-Doubled none s h = record { doubled = is_doubled-map id s.activities h.doubled }
  skip-Doubled (some j) s h = record {
    doubled = is_doubled-update_first id skipped (λ a. refl) j s.activities h.doubled;
  }

  schedule-Doubled :
      (p : J) (j : Option String) (s : ReplayedProjection Time)
      → Doubled id s
      → Doubled id (schedule json snapshot p j s)
  schedule-Doubled p none s h = h
  schedule-Doubled p (some j) s h = record {
    doubled = is_doubled-append id s.activities (_ ∷ []) h.doubled;
  }

  escalate-Doubled :
      (j role : Option String) (s : ReplayedProjection Time)
      → Doubled id s
      → Doubled id (escalate json j role s)
  escalate-Doubled none role s h = h
  escalate-Doubled (some j) none s h = h
  escalate-Doubled (some j) (some role) s h = record {
    doubled =
        is_doubled-update_first id (λ a. record a { assignee_role = some role }) (λ a. refl) j
          s.activities h.doubled;
  }

  if-Doubled :
      (b : Bool) (s t : ReplayedProjection Time)
      → Doubled id s
      → Doubled id t
      → Doubled id (if b then s else t)
  if-Doubled true s t h k = h
  if-Doubled false s t h k = k

  -- A handler that leaves the activities.
  same_list :
      (s t : ReplayedProjection Time) → t.activities ≡ s.activities → Doubled id s → Doubled id t
  same_list s t e h = record { doubled = ap (is_doubled id) e ∙ h.doubled }

  step-Doubled :
      (ev : EventRecord Time J) (s : ReplayedProjection Time)
      → Doubled id s
      → Doubled id (step json snapshot s ev)
  unfolding step on_started on_scheduled on_signal on_activity_completed on_skipped on_completed
      on_errored on_returned on_resumed on_reactivated on_escalated on_fanned_out
  step-Doubled ev s h = if-Doubled _ (on_started json ev s) _ (same_list s _ refl h) (
      if-Doubled _ (on_scheduled json snapshot ev s) _ (schedule-Doubled ev.payload _ s h) (
        if-Doubled _ (on_signal json ev s) _
          (change-Doubled _ (signalled json ev) s (λ a. ground arith) h)
          (if-Doubled _ (on_activity_completed json ev s) _
            (change-Doubled (some (or_else (pstr json ev.payload "activity_id") ""))
              (completed_by json ev) s (λ a. ground arith) h)
            (if-Doubled _ (on_skipped json ev s) _ (skip-Doubled _ s h) (
              if-Doubled _ (on_completed json ev s) _ (same_list s _ refl h) (
                if-Doubled _ (on_errored json s) _ (same_list s _ refl h) (
                  if-Doubled _ (on_returned json snapshot ev s) _
                    (record { doubled = is_doubled-append id s.activities (_ ∷ []) h.doubled })
                    (if-Doubled _ (on_resumed json s) _ (same_list s _ refl h) (
                      if-Doubled _ (on_reactivated json s) _ (same_list s _ refl h) (
                        if-Doubled _ (on_escalated json ev s) _ (escalate-Doubled _ _ s h)
                          (if-Doubled _ (on_fanned_out json s) _ (same_list s _ refl h) h)))))))))))

  foldl-Doubled :
      (s : ReplayedProjection Time) (events : List (EventRecord Time J))
      → Doubled id s
      → Doubled id (foldl (step json snapshot) s events)
  foldl-Doubled s [] h = h
  foldl-Doubled s (ev ∷ events) h =
      foldl-Doubled (step json snapshot s ev) events (step-Doubled ev s h)

  two_events :
      (s : ReplayedProjection Time) (p q : EventRecord Time J)
      → p.event_type ≡ EventType.activity_scheduled
      → q.event_type ≡ EventType.returned_to_rework
      → pstr json p.payload "activity_id" ≡ some id
      → pstr json q.payload "activity_id" ≡ some id
      → Doubled id (step json snapshot (step json snapshot s p) q)
  unfolding step on_scheduled on_returned
  two_events s p q ep eq hp hq =
      rw (ep, eq, hp, hq)
        (record {
          doubled = is_doubled-last id s.activities _ _ (eq_refl id) (ground (arith, eq_refl id));
        })

  -- The two events of a hand-back list the activity twice, and from then on the second one is never
  -- completed, whatever is logged afterwards.
  pub rework-Doubled :
      (s : ReplayedProjection Time) (p q : EventRecord Time J) (later : List (EventRecord Time J))
      → p.event_type ≡ EventType.activity_scheduled
      → q.event_type ≡ EventType.returned_to_rework
      → pstr json p.payload "activity_id" ≡ some id
      → pstr json q.payload "activity_id" ≡ some id
      → Doubled id (foldl (step json snapshot) s (p ∷ q ∷ later))
  rework-Doubled s p q later ep eq hp hq = foldl-Doubled _ later (two_events s p q ep eq hp hq)
