-- ===== src/Runtime/Lint/Reach.antt =====
-- Paths along the edges that the lint follows. What its search visits, a path leads to.
use mathlib.Core.List.{Memᴰ}
use fusions.Shared.{
  ℕ, zero, suc, String, some, List, [], ◌∷◌, true, not, ◌&&◌, ◌≡◌, refl, sym, ◌∙◌, arith, contains,
  Bool-cases, inl, inr, All, All-mem, contains-mem, subst,
}
use fusions.Core.Node.{WorkflowNode}
use fusions.Core.Definition.{WorkflowTransition}
use fusions.Runtime.Validate.{node_ids}
use fusions.Runtime.Lint.{targets_at, push_targets, explore}
use fusions.Runtime.Lint.Fuel.{explore-seen, explore-new}

module _ (nodes : List WorkflowNode) (transitions : List WorkflowTransition) where
  -- `Reach start id`: edges that the lint follows lead from `start` to `id`, each to a node that exists.
  pub data Reach (start : String) : String → Type 0 where
    here : {id : String} → start ≡ id → Reach start id
    along :
        {a b : String}
        → Reach start a
        → Memᴰ b (targets_at nodes transitions a)
        → contains (node_ids nodes) b ≡ true
        → Reach start b

  module _ (start : String) where
    pub push_targets-Reach :
        (visited ts stack : List String)
        → ((b : String) → Memᴰ b ts → contains (node_ids nodes) b ≡ true → Reach start b)
        → All (Reach start) stack
        → All (Reach start) (push_targets nodes transitions visited ts stack)
    unfolding push_targets
    push_targets-Reach visited [] stack r h = h
    push_targets-Reach visited (t ∷ ts) stack r h =
        elim (Bool-cases (contains (node_ids nodes) t && not (contains visited t))) [
          | inl e ↦ rw e (
              push_targets-Reach visited ts (t ∷ stack) (λ b m. r b (Memᴰ.tail m))
                (r t (Memᴰ.head refl) (ground arith), h))
          | inr e ↦ rw e (push_targets-Reach visited ts stack (λ b m. r b (Memᴰ.tail m)) h)
        ]

    pub explore-Reach :
        (fuel : ℕ) (visited stack : List String) {w : List String}
        → explore nodes transitions fuel visited stack ≡ some w
        → All (Reach start) visited
        → All (Reach start) stack
        → All (Reach start) w
    unfolding explore
    explore-Reach zero visited [] e v s = subst (All (Reach start)) (ground arith) v
    explore-Reach (suc fuel) visited [] e v s = subst (All (Reach start)) (ground arith) v
    explore-Reach zero visited (cur ∷ stack) e v s = cc
    explore-Reach (suc fuel) visited (cur ∷ stack) e v s =
        elim (Bool-cases (contains visited cur)) [
          | inl p ↦
              explore-Reach fuel visited stack
                (sym (explore-seen nodes transitions fuel visited cur stack p) ∙ e) v s.1
          | inr p ↦
              explore-Reach fuel (cur ∷ visited) _
                (sym (explore-new nodes transitions fuel visited cur stack p) ∙ e) (s.0, v)
                (push_targets-Reach (cur ∷ visited) (targets_at nodes transitions cur) stack
                  (λ b m k. along s.0 m k) s.1)
        ]

  pub All-contains :
      (start : String) (w : List String) {id : String}
      → All (Reach start) w
      → contains w id ≡ true
      → Reach start id
  All-contains start w {id} h c = All-mem (Reach start) w h (contains-mem w id c)
