-- ===== src/Core/Transition/Graph.antt =====
-- The status graph: which states can be reached, and which are left for good.
use fusions.Shared.{◌≡◌, ◌≢◌, refl, ◌⊎◌, ◌↔◌, ok, List, [], ◌∷◌, arith, ◌>>=◌, subst, sym}
use fusions.Core.WorkflowStatus.{
  WorkflowStatus, pending, active, completed, errored, cancelled, returned_waiting,
}
use fusions.Core.Error.{FlowResult}
use fusions.Core.Transition.{try_transition}

-- The edges, as the designs draw them.
infix 40 ◌⟶◌
pub data ◌⟶◌ : WorkflowStatus → WorkflowStatus → Type 0 where
  start : pending ⟶ active
  finish : active ⟶ completed
  fail : active ⟶ errored
  cancel : active ⟶ cancelled
  resubmit : completed ⟶ active
  hand_back : active ⟶ returned_waiting
  resume : returned_waiting ⟶ active
  reject : returned_waiting ⟶ completed

ruleset edges = (start, finish, fail, cancel, resubmit, hand_back, resume, reject)

edge_of : (s t u : WorkflowStatus) → try_transition s t ≡ ok u → (s ⟶ t) × (u ≡ t)
unfolding try_transition
edge_of s t u h = grind (arith, edges)

of_edge : {s t : WorkflowStatus} → s ⟶ t → try_transition s t ≡ ok t
unfolding try_transition
of_edge start = refl
of_edge finish = refl
of_edge fail = refl
of_edge cancel = refl
of_edge resubmit = refl
of_edge hand_back = refl
of_edge resume = refl
of_edge reject = refl

-- A transition is granted exactly along an edge of the status graph, and it leads to its target.
pub try_transition_iff :
    (s t u : WorkflowStatus) → (try_transition s t ≡ ok u) ↔ ((s ⟶ t) × (u ≡ t))
try_transition_iff s t u =
    (edge_of s t u, λ e. subst (λ x. try_transition s t ≡ ok x) (sym e.1) (of_edge e.0))

-- The requests of a client, one after the other; the first refusal ends the run.
unfoldable pub follow : WorkflowStatus → List WorkflowStatus → FlowResult WorkflowStatus
follow s [] = ok s
follow s (t ∷ ts) = let rest = follow t ts in try_transition s t >>= λ _. rest

-- `errored` and `cancelled` admit no further transition: a run that succeeds from one is empty.
pub follow-final :
    (s : WorkflowStatus) (ts : List WorkflowStatus) {u : WorkflowStatus}
    → (s ≡ errored) ⊎ (s ≡ cancelled)
    → follow s ts ≡ ok u
    → (ts ≡ []) × (u ≡ s)
unfolding follow try_transition
follow-final s [] h e = (refl, ground arith)
follow-final pending (t ∷ ts) h e = ground arith
follow-final active (t ∷ ts) h e = ground arith
follow-final completed (t ∷ ts) h e = ground arith
follow-final errored (t ∷ ts) h e = cc
follow-final cancelled (t ∷ ts) h e = cc
follow-final returned_waiting (t ∷ ts) h e = ground arith

not_to_pending : (s : WorkflowStatus) {u : WorkflowStatus} → try_transition s pending ≢ ok u
unfolding try_transition
not_to_pending s = ground arith

granted :
    (s t : WorkflowStatus) (rest : FlowResult WorkflowStatus) {u : WorkflowStatus}
    → (try_transition s t >>= λ _. rest) ≡ ok u
    → try_transition s t ≡ ok t
unfolding try_transition
granted s t rest h = ground arith

step_ok :
    (s t : WorkflowStatus) (rest : FlowResult WorkflowStatus) {u : WorkflowStatus}
    → (try_transition s t >>= λ _. rest) ≡ ok u
    → rest ≡ ok u
unfolding try_transition
step_ok s t rest h = ground arith

-- No run of transitions leads back to `pending`.
pub follow-pending :
    (s : WorkflowStatus) (ts : List WorkflowStatus)
    → follow s ts ≡ ok pending
    → (ts ≡ []) × (s ≡ pending)
unfolding follow
follow-pending s [] e = (refl, ground arith)
follow-pending s (t ∷ ts) e =
    let (at, last) = follow-pending t ts (step_ok s t (follow t ts) e) in
    absurd (not_to_pending s (rw last at (granted s t (follow t ts) e)))
