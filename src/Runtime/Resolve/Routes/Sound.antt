-- ===== src/Runtime/Resolve/Routes/Sound.antt =====
-- What `resolve_target` answers, unless it is an error, is the outcome of a route.
use mathlib.Core.List.{append-nil, append_assoc}
use fusions.Shared.{
  ℕ, zero, suc, ◌<◌, String, Option, some, none, List, [], ◌∷◌, ◌++◌, Bool, true, false, ok, err,
  ◌≡◌, ◌≢◌, ◌⊎◌, inl, inr, refl, sym, subst, ◌∙◌, ap, arith, Bool-cases, Option-cases, contains,
  Result,
}
use fusions.Core.Config.{NodeConfig, ConditionBranch}
use fusions.Core.Node.{WorkflowNode}
use fusions.Core.Definition.{WorkflowTransition}
use fusions.Core.Outcome.{error}
use fusions.Core.SignalType
use fusions.Runtime.Guard.{Cel, EvalError, eval_guard}
use fusions.Runtime.Resolve.{
  ResolveTrace, Resolved, no_trace, find_node, find_next_transition, choose, enter, enter_found,
  resolve_target,
}
use fusions.Runtime.Resolve.Routes.{
  is_router, Chosen, by_default, taken, skipped, Hop, through_merge, through_condition, Routes,
  settle, pass,
}

guard-cases :
    (r : Result EvalError Bool) → (r ≡ ok true) ⊎ (r ≡ ok false) ⊎ ((e : EvalError) × (r ≡ err e))
guard-cases (ok true) = inl refl
guard-cases (ok false) = inr (inl refl)
guard-cases (err e) = inr (inr (e, refl))

module _ {J : Type 0} (cel : Cel J) (context : Option J) where
  choose-Chosen :
      (bs : List ConditionBranch) (d : String) {x : String}
      → choose cel context bs d ≡ some x
      → Chosen cel context bs d x
  unfolding choose
  choose-Chosen [] d {x} h = by_default (ground arith)
  choose-Chosen (b ∷ bs) d {x} h = elim (guard-cases (eval_guard cel b.guard_expression context)) [
    | inl e ↦ taken e (ground arith)
    | inr (inl e) ↦ skipped e (choose-Chosen bs d (ground arith))
    | inr (inr (_, e)) ↦ absurd (ground arith)
  ]

module _ {J : Type 0} (cel : Cel J) (nodes : List WorkflowNode)
    (transitions : List WorkflowTransition) (context : Option J) where
  abbrev HopsTo : String → NodeConfig → ResolveTrace → (ResolveTrace → String → Resolved J) → Type 0
  HopsTo id c trace next =
      (x : String) × (ms : List String) × (tr : ResolveTrace) × Hop cel transitions context id c ms
        x
      × (tr.merges_passed ≡ trace.merges_passed ++ ms)
      × (enter cel nodes transitions context id c trace next ≡ next tr x)

  enter-router :
      (id : String) (c : NodeConfig) (trace : ResolveTrace)
      (next : ResolveTrace → String → Resolved J)
      → is_router c ≡ true
      → ((enter cel nodes transitions context id c trace next).0 ≡ error) ⊎ HopsTo id c trace next
  unfolding enter
  enter-router id (NodeConfig.condition d bs) trace next h =
      elim (Option-cases (choose cel context bs d)) [
        | inl e ↦ inl (rw e)
        | inr (x, e) ↦ inr (
          x,
          [],
          trace,
          through_condition (choose-Chosen cel context bs d e),
          sym (append-nil _),
          rw e,
        )
      ]
  enter-router id NodeConfig.merge trace next h =
      elim (Option-cases (find_next_transition transitions id SignalType.approved)) [
        | inl e ↦ inl (rw e)
        | inr (t, e) ↦ inr (
          t.to,
          id ∷ [],
          record trace { merges_passed = trace.merges_passed ++ id ∷ [] },
          through_merge e refl,
          refl,
          rw e,
        )
      ]
  enter-router id _ trace next h = absurd (ground arith)

  pub enter-settles :
      (id : String) (c : NodeConfig) (trace other : ResolveTrace)
      (next k : ResolveTrace → String → Resolved J)
      → is_router c ≡ false
      → ((enter cel nodes transitions context id c trace next).0
          ≡ (enter cel nodes transitions context id c other k).0)
        × ((enter cel nodes transitions context id c trace next).1.merges_passed
            ≡ trace.merges_passed)
  unfolding enter
  enter-settles id c trace other next k h = ground arith

  abbrev pub Answers : ℕ → ResolveTrace → String → Resolved J → Type 0
  Answers fuel trace id r =
      (h : ℕ) × (ms : List String) × (h < fuel)
      × Routes cel nodes transitions context h id ms r.0
      × (r.1.merges_passed ≡ trace.merges_passed ++ ms)

  entered :
      (fuel : ℕ) (trace : ResolveTrace) (id : String) (next : ResolveTrace → String → Resolved J)
      (found : Option WorkflowNode)
      → find_node nodes id ≡ found
      → ((tr : ResolveTrace) (x : String) → (next tr x).0 ≢ error → Answers fuel tr x (next tr x))
      → (enter_found cel nodes transitions context id found trace next).0 ≢ error
      → Answers (suc fuel) trace id (enter_found cel nodes transitions context id found trace next)
  entered fuel trace id next none f ih ne = absurd (ne refl)
  entered fuel trace id next (some n) f ih ne = elim (Bool-cases (is_router n.config)) [
    | inr leaf ↦
        let (same, kept) =
          enter-settles id n.config trace no_trace next (λ tr _. (error, tr)) leaf in
        (0, [], omega arith, settle f leaf (sym same), kept ∙ sym (append-nil _))
    | inl router ↦ elim (enter-router id n.config trace next router) [
      | inl e ↦ absurd (ne e)
      | inr (x, ms, tr, hop, m, e) ↦
          let (h, rest, lt, route, m') = ih tr x (λ p. ne (ap (λ r. r.0) e ∙ p)) in
          subst (Answers (suc fuel) trace id) (sym e) (
            suc h,
            ms ++ rest,
            omega arith,
            pass f refl hop route,
            m' ∙ ap (λ l. l ++ rest) m ∙ append_assoc _ ms rest,
          )
    ]
  ]

  -- An outcome other than an error is that of a route, which passes fewer routers than the fuel and
  -- whose merges are recorded in order.
  pub resolve_target_sound :
      (fuel : ℕ) (visited : List String) (trace : ResolveTrace) (id : String)
      → (resolve_target cel nodes transitions context fuel visited trace id).0 ≢ error
      → Answers fuel trace id (resolve_target cel nodes transitions context fuel visited trace id)
  unfolding resolve_target
  resolve_target_sound zero visited trace id ne = absurd (ne refl)
  resolve_target_sound (suc fuel) visited trace id ne = elim (Bool-cases (contains visited id)) [
    | inl e ↦ absurd (ne (rw e))
    | inr e ↦ rw e (
        entered fuel trace id (resolve_target cel nodes transitions context fuel (id ∷ visited))
          (find_node nodes id) refl (resolve_target_sound fuel (id ∷ visited)) (rw e at ne))
  ]
