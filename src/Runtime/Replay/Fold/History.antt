-- ===== src/Runtime/Replay/Fold/History.antt =====
-- The fold never forgets an activity, nor changes which step of the definition it is.
use mathlib.Core.List.{foldl, append_assoc, append-nil}
use fusions.Shared.{
  String, Option, none, some, List, [], ◌∷◌, ◌++◌, Bool, true, false, ◌≡◌, refl, sym, ap, ◌∙◌,
  arith, map, if◌then◌else◌,
}
use fusions.Shared.Int.{ℤ}
use fusions.Core.ActivityType.{ActivityType}
use fusions.Core.Definition.{DefinitionSnapshot, EventRecord}
use fusions.Runtime.Replay.Model.{Json, ReplayedActivity, ReplayedProjection}
use fusions.Runtime.Replay.Lists.{map-update_first, map-map_keep}
use fusions.Runtime.Replay.Activities.{
  pstr, or_else, change, skip, skipped, skipped_if_active, signalled, completed_by, schedule,
  on_started, on_scheduled, on_signal, on_activity_completed, on_skipped, by_id,
}
use fusions.Runtime.Replay.Fold.{
  on_completed, on_errored, on_returned, on_resumed, on_reactivated, escalate, on_escalated,
  on_fanned_out, step, fresh, fold_events,
}

-- What never changes of an activity: its id, its node, its type and its round.
abbrev pub identity :
    {Time : Type 0} → ReplayedActivity Time → String × (String × (ActivityType × ℤ))
identity a = (a.id, (a.activity_definition_id, (a.activity_type, a.round)))

abbrev pub identities :
    {Time : Type 0} → ReplayedProjection Time → List (String × (String × (ActivityType × ℤ)))
identities s = map identity s.activities

pub record Extends {Time : Type 0} (s t : ReplayedProjection Time) : Type 0 where
  pub more : List (String × (String × (ActivityType × ℤ)))
  pub grows : identities t ≡ identities s ++ more

map-concat {ℓ κ} :
    {A : Type ℓ} {B : Type κ} (f : A → B) (xs ys : List A) → map f (xs ++ ys) ≡ map f xs ++ map f ys
map-concat f [] ys = refl
map-concat f (x ∷ xs) ys = ap (λ zs. f x ∷ zs) (map-concat f xs ys)

pub foldl-concat {ℓ κ} :
    {A : Type ℓ} {B : Type κ} (f : B → A → B) (b : B) (xs ys : List A)
    → foldl f b (xs ++ ys) ≡ foldl f (foldl f b xs) ys
foldl-concat f b [] ys = refl
foldl-concat f b (x ∷ xs) ys = foldl-concat f (f b x) xs ys

module _ {Time : Type 0} where
  unchanged : (s t : ReplayedProjection Time) → identities t ≡ identities s → Extends s t
  unchanged s t e = record { more = []; grows = e ∙ sym (append-nil (identities s)) }

  Extends-trans : (s t u : ReplayedProjection Time) → Extends s t → Extends t u → Extends s u
  Extends-trans s t u h k = record {
    more = h.more ++ k.more;
    grows = k.grows ∙ ap (λ zs. zs ++ k.more) h.grows ∙ append_assoc (identities s) h.more k.more;
  }

  changed_one :
      (id : Option String) (f : ReplayedActivity Time → ReplayedActivity Time)
      (s : ReplayedProjection Time)
      → ((a : ReplayedActivity Time) → identity (f a) ≡ identity a)
      → Extends s (change id f s)
  changed_one none f s k = unchanged s s refl
  changed_one (some id) f s k =
      unchanged s (change (some id) f s) (map-update_first identity (by_id id) f s.activities k)

  skip-Extends : (id : Option String) (s : ReplayedProjection Time) → Extends s (skip id s)
  skip-Extends none s =
      unchanged s (skip none s)
        (map-map_keep identity skipped_if_active s.activities (λ a. ground arith))
  skip-Extends (some id) s =
      unchanged s (skip (some id) s)
        (map-update_first identity (by_id id) skipped s.activities (λ a. refl))

  if-Extends :
      (b : Bool) (s x y : ReplayedProjection Time)
      → Extends s x
      → Extends s y
      → Extends s (if b then x else y)
  if-Extends true s x y h k = h
  if-Extends false s x y h k = k

module _ {Time J : Type 0} (json : Json J) (snapshot : DefinitionSnapshot) where
  schedule-Extends :
      (p : J) (id : Option String) (s : ReplayedProjection Time)
      → Extends s (schedule json snapshot p id s)
  schedule-Extends p none s = unchanged s s refl
  schedule-Extends p (some id) s = record {
    more = _;
    grows = map-concat identity s.activities (_ ∷ []);
  }

  escalate-Extends :
      (id role : Option String) (s : ReplayedProjection Time) → Extends s (escalate json id role s)
  escalate-Extends none role s = unchanged s s refl
  escalate-Extends (some id) none s = unchanged s s refl
  escalate-Extends (some id) (some role) s = unchanged s (escalate json (some id) (some role) s) (
      map-update_first identity (by_id id) (λ a. record a { assignee_role = some role })
        s.activities (λ a. refl))

  on_signal-Extends :
      (ev : EventRecord Time J) (s : ReplayedProjection Time) → Extends s (on_signal json ev s)
  unfolding on_signal
  on_signal-Extends ev s =
      changed_one (pstr json ev.payload "target_activity_id") (signalled json ev) s
        (λ a. ground arith)

  on_activity_completed-Extends :
      (ev : EventRecord Time J) (s : ReplayedProjection Time)
      → Extends s (on_activity_completed json ev s)
  unfolding on_activity_completed
  on_activity_completed-Extends ev s =
      changed_one (some (or_else (pstr json ev.payload "activity_id") "")) (completed_by json ev) s
        (λ a. ground arith)

  on_started-Extends :
      (ev : EventRecord Time J) (s : ReplayedProjection Time) → Extends s (on_started json ev s)
  unfolding on_started
  on_started-Extends ev s = unchanged s _ refl

  on_scheduled-Extends :
      (ev : EventRecord Time J) (s : ReplayedProjection Time)
      → Extends s (on_scheduled json snapshot ev s)
  unfolding on_scheduled
  on_scheduled-Extends ev s = schedule-Extends ev.payload (pstr json ev.payload "activity_id") s

  on_skipped-Extends :
      (ev : EventRecord Time J) (s : ReplayedProjection Time) → Extends s (on_skipped json ev s)
  unfolding on_skipped
  on_skipped-Extends ev s = skip-Extends (pstr json ev.payload "activity_id") s

  on_completed-Extends :
      (ev : EventRecord Time J) (s : ReplayedProjection Time) → Extends s (on_completed json ev s)
  unfolding on_completed
  on_completed-Extends ev s = unchanged s _ refl

  on_errored-Extends : (s : ReplayedProjection Time) → Extends s (on_errored json s)
  unfolding on_errored
  on_errored-Extends s = unchanged s _ refl

  on_returned-Extends :
      (ev : EventRecord Time J) (s : ReplayedProjection Time)
      → Extends s (on_returned json snapshot ev s)
  unfolding on_returned
  on_returned-Extends ev s = record { more = _; grows = map-concat identity s.activities (_ ∷ []) }

  on_resumed-Extends : (s : ReplayedProjection Time) → Extends s (on_resumed json s)
  unfolding on_resumed
  on_resumed-Extends s = unchanged s _ refl

  on_reactivated-Extends : (s : ReplayedProjection Time) → Extends s (on_reactivated json s)
  unfolding on_reactivated
  on_reactivated-Extends s = unchanged s _ refl

  on_escalated-Extends :
      (ev : EventRecord Time J) (s : ReplayedProjection Time) → Extends s (on_escalated json ev s)
  unfolding on_escalated
  on_escalated-Extends ev s =
      escalate-Extends (pstr json ev.payload "activity_id") (pstr json ev.payload "to_role") s

  on_fanned_out-Extends : (s : ReplayedProjection Time) → Extends s (on_fanned_out json s)
  unfolding on_fanned_out
  on_fanned_out-Extends s = unchanged s _ refl

  step-Extends :
      (s : ReplayedProjection Time) (ev : EventRecord Time J) → Extends s (step json snapshot s ev)
  unfolding step
  step-Extends s ev = if-Extends _ s _ _ (on_started-Extends ev s) (
      if-Extends _ s _ _ (on_scheduled-Extends ev s) (
        if-Extends _ s _ _ (on_signal-Extends ev s) (
          if-Extends _ s _ _ (on_activity_completed-Extends ev s) (
            if-Extends _ s _ _ (on_skipped-Extends ev s) (
              if-Extends _ s _ _ (on_completed-Extends ev s) (
                if-Extends _ s _ _ (on_errored-Extends s) (
                  if-Extends _ s _ _ (on_returned-Extends ev s) (
                    if-Extends _ s _ _ (on_resumed-Extends s) (
                      if-Extends _ s _ _ (on_reactivated-Extends s) (
                        if-Extends _ s _ _ (on_escalated-Extends ev s) (
                          if-Extends _ s _ _ (on_fanned_out-Extends s)
                            (unchanged s s refl))))))))))))

  foldl-Extends :
      (s : ReplayedProjection Time) (events : List (EventRecord Time J))
      → Extends s (foldl (step json snapshot) s events)
  foldl-Extends s [] = unchanged s s refl
  foldl-Extends s (ev ∷ events) =
      Extends-trans s (step json snapshot s ev) _ (step-Extends s ev)
        (foldl-Extends (step json snapshot s ev) events)

  -- Events that are added to a log keep the activities that were replayed, in their order, with their ids, nodes, types
  -- and rounds: new activities follow them.
  pub fold_events-history :
      (log later : List (EventRecord Time J))
      → (more : List (String × (String × (ActivityType × ℤ)))) × (identities
            (fold_events json snapshot (log ++ later))
          ≡ identities (fold_events json snapshot log) ++ more)
  unfolding fold_events
  fold_events-history log later =
      let h = foldl-Extends (foldl (step json snapshot) (fresh json) log) later in
      (h.more, ap identities (foldl-concat (step json snapshot) (fresh json) log later) ∙ h.grows)
