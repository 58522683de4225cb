-- ===== src/Runtime/Replay/Diff/Agreement.antt =====
-- When `diff_projection` reports nothing, and what it reports of a rework.
use fusions.Shared.{
  String, some, List, [], ◌∷◌, ◌++◌, true, ◌≡◌, ◌↔◌, refl, arith, contains, All, Bool-cases,
  Option-cases, inl, inr,
}
use fusions.Core.Definition.{WorkflowInstance, ActivityInstance}
use fusions.Runtime.Replay.Model.{ReplayedInstance, ReplayedActivity, ReplayedProjection}
use fusions.Runtime.Replay.Diff.{
  Difference, status, current_activity_id, result, activity_status, activity_result, activity_round,
  activity_assignee_role, activity_assignee_id, activity_review_notes, activity_reviewed_by, unless,
  each, live_row, diff_instance, diff_row, diff_found, diff_live, diff_projection, replayed_ids,
  WorkflowStatus-discrete, ActivityStatus-discrete, Option-WorkflowResult-discrete,
}
use fusions.Shared.{ℤ-discrete, Option-String-discrete}

++-nil : (xs ys : List Difference) → ((xs ++ ys) ≡ []) ↔ ((xs ≡ []) × (ys ≡ []))
++-nil [] ys = (λ h. (refl, h), λ h. h.1)
++-nil (x ∷ xs) ys = (λ h. cc, λ h. cc (h.0))

unless-nil : {P : Type 0} (d : Dec P) (line : Difference) → (unless d line ≡ []) ↔ P
unfolding unless
unless-nil (yes p) line = (λ h. p, λ h. refl)
unless-nil (no n) line = (λ h. cc, λ p. absurd (n p))

each-nil {ℓ} :
    {A : Type ℓ} (f : A → List Difference) (xs : List A) → (each f xs ≡ []) ↔ All (λ x. f x ≡ []) xs
unfolding each
each-nil f [] = (λ h. tt, λ h. refl)
each-nil f (x ∷ xs) = (
  λ h. let (p, q) = (++-nil (f x) (each f xs)).0 h in (p, (each-nil f xs).0 q),
  λ h. (++-nil (f x) (each f xs)).1 (h.0, (each-nil f xs).1 h.1),
)

All-iff {ℓ κ μ} :
    {A : Type ℓ} (P : A → Type κ) (Q : A → Type μ)
    → ((x : A) → P x ↔ Q x)
    → (xs : List A) → All P xs ↔ All Q xs
All-iff P Q h [] = (λ a. tt, λ a. tt)
All-iff P Q h (x ∷ xs) =
    (λ a. ((h x).0 a.0, (All-iff P Q h xs).0 a.1), λ a. ((h x).1 a.0, (All-iff P Q h xs).1 a.1))

abbrev pub SameInstance :
    {Time J : Type 0} → ReplayedInstance Time → WorkflowInstance Time J → Type 0
SameInstance ri li =
    (ri.status ≡ li.status)
    × ((ri.current_activity_id ≡ li.current_activity_id) × (ri.result ≡ li.result))

abbrev pub SameRow : {Time : Type 0} → ReplayedActivity Time → ActivityInstance Time → Type 0
SameRow ra la =
    (ra.status ≡ la.status)
    × ((ra.result ≡ la.result)
        × ((ra.round ≡ la.round)
            × ((ra.assignee_role ≡ la.assignee_role)
                × ((ra.assignee_id ≡ la.assignee_id)
                    × ((ra.review_notes ≡ la.review_notes) × (ra.reviewed_by ≡ la.reviewed_by))))))

-- What is left of a report when its first line is not there.
unless-then :
    {P Q : Type 0} (d : Dec P) (line : Difference) (rest : List Difference)
    → ((rest ≡ []) ↔ Q)
    → ((unless d line ++ rest) ≡ []) ↔ (P × Q)
unless-then d line rest h = (
  λ e. let (p, q) = (++-nil (unless d line) rest).0 e in ((unless-nil d line).0 p, h.0 q),
  λ e. (++-nil (unless d line) rest).1 ((unless-nil d line).1 e.0, h.1 e.1),
)

module _ {Time : Type 0} where
  diff_instance-nil :
      {J : Type 0} (ri : ReplayedInstance Time) (li : WorkflowInstance Time J)
      → (diff_instance ri li ≡ []) ↔ SameInstance ri li
  unfolding diff_instance
  diff_instance-nil ri li = unless-then (WorkflowStatus-discrete ri.status li.status) status _ (
      unless-then (Option-String-discrete ri.current_activity_id li.current_activity_id)
        current_activity_id _
        (unless-nil (Option-WorkflowResult-discrete ri.result li.result) result))

  diff_row-nil :
      (ra : ReplayedActivity Time) (la : ActivityInstance Time)
      → (diff_row ra la ≡ []) ↔ SameRow ra la
  unfolding diff_row
  diff_row-nil ra la =
      unless-then (ActivityStatus-discrete ra.status la.status) (activity_status ra.id) _ (
        unless-then (Option-String-discrete ra.result la.result) (activity_result ra.id) _ (
          unless-then (ℤ-discrete ra.round la.round) (activity_round ra.id) _ (
            unless-then (Option-String-discrete ra.assignee_role la.assignee_role)
              (activity_assignee_role ra.id) _
              (unless-then (Option-String-discrete ra.assignee_id la.assignee_id)
                (activity_assignee_id ra.id) _
                (unless-then (Option-String-discrete ra.review_notes la.review_notes)
                  (activity_review_notes ra.id) _
                  (unless-nil (Option-String-discrete ra.reviewed_by la.reviewed_by)
                    (activity_reviewed_by ra.id)))))))

  -- The activity has a row in the table, with the same values.
  abbrev pub IsStored : List (ActivityInstance Time) → ReplayedActivity Time → Type 0
  IsStored rows ra = (la : ActivityInstance Time) × (live_row rows ra.id ≡ some la) × SameRow ra la

  pub same-row :
      (ra : ReplayedActivity Time) (la x : ActivityInstance Time)
      → some la ≡ some x
      → SameRow ra x
      → SameRow ra la
  same-row ra la x e h = ground arith

  diff_found-nil :
      (rows : List (ActivityInstance Time)) (ra : ReplayedActivity Time)
      → (diff_found ra (live_row rows ra.id) ≡ []) ↔ IsStored rows ra
  diff_found-nil rows ra = elim (Option-cases (live_row rows ra.id)) [
    | inl e ↦ rw e (λ h. cc, λ h. cc (h.1))
    | inr (la, e) ↦ rw e (
      λ h. (la, refl, (diff_row-nil ra la).0 h),
      λ h. (diff_row-nil ra la).1 (same-row ra la h.0 h.1 h.2),
    )
  ]

  diff_live-nil :
      (ids : List String) (la : ActivityInstance Time)
      → (diff_live ids la ≡ []) ↔ (contains ids la.id ≡ true)
  diff_live-nil ids la = elim (Bool-cases (contains ids la.id)) [
    | inl e ↦ rw e (λ h. refl, λ h. refl)
    | inr e ↦ rw e (λ h. cc, λ h. cc)
  ]

  stored :
      (replayed : ReplayedProjection Time) (rows : List (ActivityInstance Time))
      → (each (λ ra. diff_found ra (live_row rows ra.id)) replayed.activities ≡ [])
        ↔ All (IsStored rows) replayed.activities
  stored replayed rows = (
    λ h.
        (All-iff _ (IsStored rows) (diff_found-nil rows) replayed.activities).0
          ((each-nil _ replayed.activities).0 h),
    λ h.
        (each-nil _ replayed.activities).1
          ((All-iff _ (IsStored rows) (diff_found-nil rows) replayed.activities).1 h),
  )

  listed :
      (replayed : ReplayedProjection Time) (rows : List (ActivityInstance Time))
      → (each (diff_live (replayed_ids replayed.activities)) rows ≡ [])
        ↔ All (λ la. contains (replayed_ids replayed.activities) la.id ≡ true) rows
  listed replayed rows = (
    λ h.
        (All-iff _ _ (diff_live-nil (replayed_ids replayed.activities)) rows).0
          ((each-nil _ rows).0 h),
    λ h.
        (each-nil _ rows).1
          ((All-iff _ _ (diff_live-nil (replayed_ids replayed.activities)) rows).1 h),
  )

  -- The report is empty exactly when the two instances have the same status, current activity and result,
  -- every replayed activity has a stored row (the last one of its id) with the same status, result,
  -- round, assignee role, assignee, review notes and reviewer, and the id of every stored row is replayed.
  pub diff_projection-nil :
      {J : Type 0} (replayed : ReplayedProjection Time) (live : WorkflowInstance Time J)
      (rows : List (ActivityInstance Time))
      → (diff_projection replayed live rows ≡ []) ↔ (
          SameInstance replayed.instance live
          × (All (IsStored rows) replayed.activities
              × All (λ la. contains (replayed_ids replayed.activities) la.id ≡ true) rows))
  unfolding diff_projection
  diff_projection-nil replayed live rows = (
    λ h.
        let (p, q) = (++-nil (diff_instance replayed.instance live) _).0 h in
        let (q', r) =
          (++-nil (each (λ ra. diff_found ra (live_row rows ra.id)) replayed.activities) _).0 q in
        (
          (diff_instance-nil replayed.instance live).0 p,
          ((stored replayed rows).0 q', (listed replayed rows).0 r),
        ),
    λ h. (++-nil (diff_instance replayed.instance live) _).1 (
      (diff_instance-nil replayed.instance live).1 h.0,
      (++-nil (each (λ ra. diff_found ra (live_row rows ra.id)) replayed.activities) _).1
          ((stored replayed rows).1 h.1.0, (listed replayed rows).1 h.1.1),
    ),
  )
