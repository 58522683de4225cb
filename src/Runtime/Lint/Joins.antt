-- ===== src/Runtime/Lint/Joins.antt =====
-- Which branches of a split reach a join.
use fusions.Shared.{
  ℕ, zero, suc, String, Option, none, some, List, [], ◌∷◌, Bool, true, false, ◌≡◌, ◌≢◌, ◌↔◌, ◌⊎◌,
  refl, sym, ap, ◌∙◌, ◌==◌, arith, contains, Bool-cases, inl, inr, eq_refl, ==→≡, All, subst,
}
use fusions.Core.Node.{WorkflowNode}
use fusions.Core.Definition.{WorkflowTransition}
use fusions.Runtime.Resolve.{find_node}
use fusions.Runtime.Check.Parallel.{is_join}
use fusions.Runtime.Lint.{
  targets_at, push_targets, explore, search_join, search_fuel, branch_reaches_join, found,
}
use fusions.Runtime.Lint.Fuel.{
  explore-seen, explore-new, explore-enough, advance_search-seen, advance_search-new,
}
use fusions.Runtime.Lint.Reach.{Reach, along, here, push_targets-Reach}
use fusions.Runtime.Lint.Closed.{explore-IsClosed, Reach-visited}

module _ (nodes : List WorkflowNode) (transitions : List WorkflowTransition) where
  -- The id is that of a join.
  abbrev pub at_join : String → Bool
  at_join id = is_join (find_node nodes id)

  search_join-seen :
      (fuel : ℕ) (visited : List String) (cur : String) (stack : List String)
      → contains visited cur ≡ true
      → search_join nodes transitions (suc fuel) visited (cur ∷ stack)
        ≡ search_join nodes transitions fuel visited stack
  unfolding search_join
  search_join-seen fuel visited cur stack e =
      rw (e, advance_search-seen nodes transitions visited cur stack e) refl

  search_join-new :
      (fuel : ℕ) (visited : List String) (cur : String) (stack : List String)
      → contains visited cur ≡ false
      → at_join cur ≡ false
      → search_join nodes transitions (suc fuel) visited (cur ∷ stack)
        ≡ search_join nodes transitions fuel (cur ∷ visited) (
            push_targets nodes transitions (cur ∷ visited) (targets_at nodes transitions cur) stack)
  unfolding search_join
  search_join-new fuel visited cur stack e j =
      rw (e, j, advance_search-new nodes transitions visited cur stack e) refl

  search_join-found :
      (fuel : ℕ) (visited : List String) (cur : String) (stack : List String)
      → contains visited cur ≡ false
      → at_join cur ≡ true
      → search_join nodes transitions (suc fuel) visited (cur ∷ stack) ≡ some true
  unfolding search_join
  search_join-found fuel visited cur stack e j = rw (e, j) refl

  below :
      (visited : List String) (cur x : String)
      → at_join cur ≡ false
      → at_join x ≡ true
      → contains (cur ∷ visited) x ≡ true
      → contains visited x ≡ true
  unfolding contains
  below visited cur x j k h = elim (Bool-cases (cur == x)) [
    | inl e ↦ cc (subst (λ y. at_join y ≡ false) (==→≡ cur x e) j, k)
    | inr e ↦ ground arith
  ]

  module _ (start : String) where
    abbrev FoundJoin : Option Bool → Type 0
    FoundJoin answer =
        (answer ≡ some true) × ((j : String) × Reach nodes transitions start j × (at_join j ≡ true))

    -- The joins among the ids `w` are among those visited before.
    abbrev NoJoin : List String → List String → Option Bool → Type 0
    NoJoin visited w answer =
        (answer ≡ some false)
        × ((x : String) → contains w x ≡ true → at_join x ≡ true → contains visited x ≡ true)

    weaken_visited :
        (visited w : List String) (cur : String) (answer : Option Bool)
        → at_join cur ≡ false
        → FoundJoin answer ⊎ NoJoin (cur ∷ visited) w answer
        → FoundJoin answer ⊎ NoJoin visited w answer
    weaken_visited visited w cur answer j (inl h) = inl h
    weaken_visited visited w cur answer j (inr (e, h)) =
        inr (e, λ x m k. below visited cur x j k (h x m k))

    search_join-cases :
        (fuel : ℕ) (visited stack w : List String)
        → explore nodes transitions fuel visited stack ≡ some w
        → All (Reach nodes transitions start) stack
        → FoundJoin (search_join nodes transitions fuel visited stack)
          ⊎ NoJoin visited w (search_join nodes transitions fuel visited stack)
    unfolding explore search_join
    search_join-cases zero visited [] w e s = inr (refl, λ x h j. ground arith)
    search_join-cases (suc fuel) visited [] w e s = inr (refl, λ x h j. ground arith)
    search_join-cases zero visited (cur ∷ stack) w e s = cc
    search_join-cases (suc fuel) visited (cur ∷ stack) w e s =
        elim (Bool-cases (contains visited cur)) [
          | inl p ↦
              subst (λ a. FoundJoin a ⊎ NoJoin visited w a)
                (sym (search_join-seen fuel visited cur stack p))
                (search_join-cases fuel visited stack w
                  (sym (explore-seen nodes transitions fuel visited cur stack p) ∙ e) s.1)
          | inr p ↦ elim (Bool-cases (at_join cur)) [
            | inl j ↦ inl (search_join-found fuel visited cur stack p j, (cur, s.0, j))
            | inr j ↦
                subst (λ a. FoundJoin a ⊎ NoJoin visited w a)
                  (sym (search_join-new fuel visited cur stack p j))
                  (weaken_visited visited w cur _ j (
                    search_join-cases fuel (cur ∷ visited)
                      (push_targets nodes transitions (cur ∷ visited)
                        (targets_at nodes transitions cur) stack)
                      w (sym (explore-new nodes transitions fuel visited cur stack p) ∙ e)
                      (push_targets-Reach nodes transitions start (cur ∷ visited)
                        (targets_at nodes transitions cur) stack (λ b m k. along s.0 m k) s.1)))
          ]
        ]

  -- The search of the lint from a branch ends within its fuel, and it finds a join exactly when a path of the edges
  -- that the lint follows leads from the branch to one.
  pub branch_reaches_join_iff :
      (branch : String)
      → (search_join nodes transitions (search_fuel nodes transitions) [] (branch ∷ []) ≢ none)
        × ((branch_reaches_join nodes transitions branch ≡ true)
            ↔ ((j : String) × Reach nodes transitions branch j × (at_join j ≡ true)))
  unfolding branch_reaches_join contains
  branch_reaches_join_iff branch =
      let (w, e) = explore-enough nodes transitions branch in
      elim (search_join-cases branch (search_fuel nodes transitions) [] (branch ∷ []) w e
        (here refl, tt)) [
          | inl (a, reached) ↦ (λ n. cc (sym a ∙ n), (λ h. reached, λ h. rw a refl))
          | inr (a, none_of) ↦
              let (closed, sub) =
                explore-IsClosed nodes transitions (search_fuel nodes transitions) [] (branch ∷ [])
                  e (λ b c v m k. cc) in
              (
                λ n. cc (sym a ∙ n),
                (
                  λ h. cc (sym (ap found a) ∙ h),
                  λ h. cc (
                      none_of h.0
                        (Reach-visited nodes transitions branch w closed
                          (sub branch (ground (arith, eq_refl branch))) h.1)
                        h.2),
                ),
              )
        ]
