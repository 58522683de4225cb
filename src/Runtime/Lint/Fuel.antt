-- ===== src/Runtime/Lint/Fuel.antt =====
-- The search of the lint ends within its fuel: every node is entered once, and every edge pushed at most once.
use fusions.Shared.{
  ℕ, zero, suc, ◌+◌, ◌≤◌, String, some, List, [], ◌∷◌, ◌++◌, true, false, not, ◌&&◌, ◌≡◌, refl, ap,
  ◌∙◌, ◌==◌, arith, contains, if◌then◌else◌, length, Bool-cases, inl, inr, eq_iff, ==→≡, find,
}
use fusions.Core.Node.{WorkflowNode}
use fusions.Core.Definition.{WorkflowTransition}
use fusions.Runtime.Resolve.{find_node}
use fusions.Runtime.Validate.{node_ids}
use fusions.Runtime.Lint.{
  static_out_targets, gather, targets_of, targets_at, push_targets, advance_search, explore,
  search_fuel,
}

length-concat {ℓ} : {A : Type ℓ} (xs ys : List A) → length (xs ++ ys) ≡ length xs + length ys
length-concat [] ys = omega arith
length-concat (x ∷ xs) ys = let h = length-concat xs ys in omega arith

pub ==-false_sym : (s t : String) → (s == t) ≡ false → (t == s) ≡ false
==-false_sym s t h = ground (arith, eq_iff s t, eq_iff t s)

module _ (transitions : List WorkflowTransition) where
  abbrev out_degree : List String → WorkflowNode → ℕ
  out_degree visited n =
      if contains visited n.id then 0 else length (static_out_targets n transitions)

  -- The edges out of the nodes that are still to be visited.
  abbrev remaining : List WorkflowNode → List String → ℕ
  remaining [] visited = 0
  remaining (n ∷ ns) visited = out_degree visited n + remaining ns visited

  out_degree-cons :
      (n : WorkflowNode) (visited : List String) (cur : String)
      → out_degree (cur ∷ visited) n ≤ out_degree visited n
  unfolding contains
  out_degree-cons n visited cur = ground arith

  remaining-cons :
      (ns : List WorkflowNode) (visited : List String) (cur : String)
      → remaining ns (cur ∷ visited) ≤ remaining ns visited
  remaining-cons [] visited cur = omega arith
  remaining-cons (n ∷ ns) visited cur =
      let h = remaining-cons ns visited cur in let k = out_degree-cons n visited cur in omega arith

  -- What a visit pushes at most, it takes from what remains.
  remaining-visit :
      (ns : List WorkflowNode) (visited : List String) (cur : String)
      → contains visited cur ≡ false
      → length (targets_of transitions (find_node ns cur)) + remaining ns (cur ∷ visited)
        ≤ remaining ns visited
  unfolding find_node find contains
  remaining-visit [] visited cur new = omega arith
  remaining-visit (n ∷ ns) visited cur new = elim (Bool-cases (n.id == cur)) [
    | inl e ↦
        let same = ==→≡ n.id cur e in
        let h = remaining-cons ns visited cur in ground (arith, h, same, eq_iff cur n.id)
    | inr e ↦
        let h = remaining-visit ns visited cur new in ground (arith, h, ==-false_sym n.id cur e)
  ]

module _ (nodes : List WorkflowNode) (transitions : List WorkflowTransition) where
  length-push_targets :
      (visited ts stack : List String)
      → length (push_targets nodes transitions visited ts stack) ≤ length ts + length stack
  unfolding push_targets
  length-push_targets visited [] stack = omega arith
  length-push_targets visited (t ∷ ts) stack =
      elim (Bool-cases (contains (node_ids nodes) t && not (contains visited t))) [
        | inl e ↦ let h = length-push_targets visited ts (t ∷ stack) in rw e (omega arith)
        | inr e ↦ let h = length-push_targets visited ts stack in rw e (omega arith)
      ]

  pub advance_search-seen :
      (visited : List String) (cur : String) (stack : List String)
      → contains visited cur ≡ true
      → advance_search nodes transitions visited cur stack ≡ (visited, stack)
  unfolding advance_search
  advance_search-seen visited cur stack e = rw e refl

  pub advance_search-new :
      (visited : List String) (cur : String) (stack : List String)
      → contains visited cur ≡ false
      → advance_search nodes transitions visited cur stack ≡ (
        cur ∷ visited,
        push_targets nodes transitions (cur ∷ visited) (targets_at nodes transitions cur) stack,
      )
  unfolding advance_search
  advance_search-new visited cur stack e = rw e refl

  pub explore-seen :
      (fuel : ℕ) (visited : List String) (cur : String) (stack : List String)
      → contains visited cur ≡ true
      → explore nodes transitions (suc fuel) visited (cur ∷ stack)
        ≡ explore nodes transitions fuel visited stack
  unfolding explore
  explore-seen fuel visited cur stack e =
      ap (λ next. explore nodes transitions fuel next.0 next.1)
        (advance_search-seen visited cur stack e)

  pub explore-new :
      (fuel : ℕ) (visited : List String) (cur : String) (stack : List String)
      → contains visited cur ≡ false
      → explore nodes transitions (suc fuel) visited (cur ∷ stack)
        ≡ explore nodes transitions fuel (cur ∷ visited) (
            push_targets nodes transitions (cur ∷ visited) (targets_at nodes transitions cur) stack)
  unfolding explore
  explore-new fuel visited cur stack e =
      ap (λ next. explore nodes transitions fuel next.0 next.1)
        (advance_search-new visited cur stack e)

  -- With this much fuel the search ends.
  explore-ends :
      (fuel : ℕ) (visited stack : List String)
      → length stack + remaining transitions nodes visited ≤ fuel
      → (w : List String) × (explore nodes transitions fuel visited stack ≡ some w)
  unfolding explore
  explore-ends zero visited [] h = (visited, refl)
  explore-ends (suc fuel) visited [] h = (visited, refl)
  explore-ends zero visited (cur ∷ stack) h = absurd (omega arith)
  explore-ends (suc fuel) visited (cur ∷ stack) h = elim (Bool-cases (contains visited cur)) [
    | inl e ↦
        let (w, r) = explore-ends fuel visited stack (omega arith) in
        (w, explore-seen fuel visited cur stack e ∙ r)
    | inr e ↦
        let v = remaining-visit transitions nodes visited cur e in
        let p = length-push_targets (cur ∷ visited) (targets_at nodes transitions cur) stack in
        let (w, r) =
          explore-ends fuel (cur ∷ visited)
            (push_targets nodes transitions (cur ∷ visited) (targets_at nodes transitions cur)
              stack)
            (omega arith) in
        (w, explore-new fuel visited cur stack e ∙ r)
  ]

  remaining-all :
      (ns : List WorkflowNode)
      → remaining transitions ns [] ≤ length (gather (λ n. static_out_targets n transitions) ns)
  unfolding gather contains
  remaining-all [] = omega arith
  remaining-all (n ∷ ns) =
      let h = remaining-all ns in
      let k =
        length-concat (static_out_targets n transitions)
          (gather (λ m. static_out_targets m transitions) ns) in
      omega arith

  pub explore-enough :
      (start : String)
      → (w : List String) × (explore nodes transitions
            (search_fuel nodes transitions)
            []
            (start ∷ [])
          ≡ some w)
  unfolding search_fuel
  explore-enough start =
      let h = remaining-all nodes in
      explore-ends (suc (length (gather (λ n. static_out_targets n transitions) nodes))) []
        (start ∷ []) (omega arith)
