-- ===== src/Runtime/Replay/Fold/Invariant.antt =====
-- What holds of every projection that the fold builds, whatever the log.
use fusions.Shared.{
  String, Option, none, some, [], ◌∷◌, ◌++◌, Bool, true, false, ◌≡◌, ◌≢◌, ap, ◌∙◌, arith, any, All,
  ◌==◌, if◌then◌else◌, eq_refl,
}
use fusions.Core.WorkflowStatus.{WorkflowStatus}
use fusions.Core.ActivityStatus.{ActivityStatus}
use fusions.Core.Definition.{DefinitionSnapshot}
use fusions.Runtime.Replay.Model.{
  ReplayedInstance, ReplayedActivity, ReplayedProjection, activity_type_for,
}
use fusions.Runtime.Replay.Lists.{any-concat, any-update_first, All-concat, All-update_first}
use fusions.Runtime.Replay.Activities.{update_first, by_id, change, is_terminal}

-- The fold leaves an activity active, completed or skipped.
abbrev pub is_live_or_done : ActivityStatus → Bool
is_live_or_done ActivityStatus.active = true
is_live_or_done ActivityStatus.completed = true
is_live_or_done ActivityStatus.skipped = true
is_live_or_done _ = false

abbrev pub IsTyped : {Time : Type 0} → DefinitionSnapshot → ReplayedActivity Time → Type 0
IsTyped snapshot a =
    (a.activity_type ≡ activity_type_for snapshot a.activity_definition_id)
    × (is_live_or_done a.status ≡ true)

-- Of the instance alone: it is never cancelled, and a completed one has its time of completion.
pub record IsSound {Time : Type 0} (i : ReplayedInstance Time) : Type 0 where
  pub not_cancelled : i.status ≢ WorkflowStatus.cancelled
  pub completed_timed : i.status ≡ WorkflowStatus.completed → i.completed_at ≢ none

pub record Inv {Time : Type 0} (snapshot : DefinitionSnapshot) (s : ReplayedProjection Time)
    : Type 0 where
  pub sound : IsSound s.instance
  pub current_listed :
      (id : String) → s.instance.current_activity_id ≡ some id → any (by_id id) s.activities ≡ true
  pub typed : All (IsTyped snapshot) s.activities

-- The status after a new activity is scheduled.
pub terminal-kept :
    (s : WorkflowStatus)
    → s ≢ WorkflowStatus.cancelled
    → (if is_terminal s then s else WorkflowStatus.active) ≢ WorkflowStatus.cancelled
terminal-kept s h e = ground arith

pub terminal-completed :
    (s : WorkflowStatus)
    → (if is_terminal s then s else WorkflowStatus.active) ≡ WorkflowStatus.completed
    → s ≡ WorkflowStatus.completed
terminal-completed s e = ground arith

pub same-by_id : (id i : String) → some id ≡ some i → (id == i) ≡ true
same-by_id id i e = ground (arith, eq_refl i)

pub fanned-by_id :
    (b : Bool) (id i : String) → (if b then none else some id) ≡ some i → (id == i) ≡ true
fanned-by_id true id i e = cc
fanned-by_id false id i e = same-by_id id i e

module _ {Time : Type 0} (snapshot : DefinitionSnapshot) where
  -- A change of one activity that keeps its id and its type.
  pub updated :
      (found : ReplayedActivity Time → Bool) (f : ReplayedActivity Time → ReplayedActivity Time)
      (s : ReplayedProjection Time)
      → ((a : ReplayedActivity Time) → (f a).id ≡ a.id)
      → ((a : ReplayedActivity Time) → IsTyped snapshot a → IsTyped snapshot (f a))
      → Inv snapshot s
      → Inv snapshot (record s { activities = update_first found f s.activities })
  updated found f s keep typed h = record {
    sound = h.sound;
    current_listed = λ id e.
        any-update_first (by_id id) found f s.activities (λ a. ap (λ x. x == id) (keep a))
        ∙ h.current_listed id e;
    typed = All-update_first (IsTyped snapshot) found f s.activities typed h.typed;
  }

  pub changed :
      (id : Option String) (f : ReplayedActivity Time → ReplayedActivity Time)
      (s : ReplayedProjection Time)
      → ((a : ReplayedActivity Time) → (f a).id ≡ a.id)
      → ((a : ReplayedActivity Time) → IsTyped snapshot a → IsTyped snapshot (f a))
      → Inv snapshot s
      → Inv snapshot (change id f s)
  changed none f s keep typed h = h
  changed (some id) f s keep typed h = updated (by_id id) f s keep typed h

  -- A change of the instance that keeps or clears the current activity.
  pub moved :
      (i : ReplayedInstance Time) (s : ReplayedProjection Time)
      → IsSound i
      → ((id : String) → i.current_activity_id ≡ some id → s.instance.current_activity_id ≡ some id)
      → Inv snapshot s
      → Inv snapshot (record s { instance = i })
  moved i s sound keep h = record {
    sound = sound;
    current_listed = λ id e. h.current_listed id (keep id e);
    typed = h.typed;
  }

  -- A new activity, which the instance may now wait on.
  pub added :
      (i : ReplayedInstance Time) (a : ReplayedActivity Time) (s : ReplayedProjection Time)
      → IsSound i
      → IsTyped snapshot a
      → ((id : String) → i.current_activity_id ≡ some id → by_id id a ≡ true)
      → Inv snapshot s
      → Inv snapshot (record { instance = i; activities = s.activities ++ a ∷ [] })
  added i a s sound typed here h = record {
    sound = sound;
    current_listed = λ id e. ground (arith, any-concat (by_id id) s.activities a, here id e);
    typed = All-concat (IsTyped snapshot) s.activities h.typed typed;
  }
