-- ===== src/Runtime/Lint/Gaps.antt =====
-- What `lint_definition` says of a for-each node.
use mathlib.Core.List.{Memᴰ}
use fusions.Shared.{
  String, Option, List, [], ◌∷◌, ◌++◌, Bool, false, ◌≡◌, refl, ◌==◌, filter, any, arith, subst,
}
use fusions.Shared.Int.{ℤ}
use fusions.Core.Config.{NodeConfig}
use fusions.Core.Node.{WorkflowNode, kind_of}
use fusions.Core.Definition.{WorkflowTransition}
use fusions.Runtime.Lint.{
  error, gather, config_targets, static_out_targets, deadlock_nodes, stuck_node, dangling_edges,
  unreachable_nodes, unclosed_branches, lint_definition,
}

module _ {ℓ} {A : Type ℓ} where
  mem-concat_left : (xs ys : List A) {x : A} → Memᴰ x xs → Memᴰ x (xs ++ ys)
  mem-concat_left [] ys m = elim m [ ]
  mem-concat_left (z ∷ xs) ys (Memᴰ.head e) = Memᴰ.head e
  mem-concat_left (z ∷ xs) ys (Memᴰ.tail m) = Memᴰ.tail (mem-concat_left xs ys m)

  mem-concat_right : (xs ys : List A) {x : A} → Memᴰ x ys → Memᴰ x (xs ++ ys)
  mem-concat_right [] ys m = m
  mem-concat_right (z ∷ xs) ys m = Memᴰ.tail (mem-concat_right xs ys m)

  mem-gather :
      {B : Type ℓ} (f : B → List A) (xs : List B) {x : B} {y : A}
      → Memᴰ x xs
      → Memᴰ y (f x)
      → Memᴰ y (gather f xs)
  unfolding gather
  mem-gather f [] m h = elim m [ ]
  mem-gather f (z ∷ xs) {y = y} (Memᴰ.head e) h =
      mem-concat_left (f z) (gather f xs) (subst (λ b. Memᴰ y (f b)) e h)
  mem-gather f (z ∷ xs) (Memᴰ.tail m) h = mem-concat_right (f z) (gather f xs) (mem-gather f xs m h)

  filter-none : (f : A → Bool) (xs : List A) → any f xs ≡ false → filter f xs ≡ []
  unfolding any filter
  filter-none f [] h = refl
  filter-none f (x ∷ xs) h = ground (arith, filter-none f xs)

module _ (nodes : List WorkflowNode) (transitions : List WorkflowTransition) where
  no_targets :
      (n : WorkflowNode) {items template join : String} {limit : Option ℤ}
      → n.config ≡ NodeConfig.for_each items template join limit
      → any (λ t. t.from == n.id) transitions ≡ false
      → static_out_targets n transitions ≡ []
  unfolding static_out_targets config_targets
  no_targets n c h = rw (c, filter-none _ transitions h) refl

  -- A for-each node with no transition of its own is reported as a deadlock, whatever its template and its join:
  -- the lint does not follow the two targets that the engine does.
  pub for_each-deadlock :
      (n : WorkflowNode) (items template join : String) (limit : Option ℤ)
      → Memᴰ n nodes
      → n.config ≡ NodeConfig.for_each items template join limit
      → any (λ t. t.from == n.id) transitions ≡ false
      → Memᴰ (error "deadlock_node" n.id) (lint_definition nodes transitions)
  unfolding lint_definition deadlock_nodes kind_of
  for_each-deadlock n items template join limit m c h =
      mem-concat_right (dangling_edges nodes transitions) _ (
        mem-concat_right (unreachable_nodes nodes transitions) _ (
          mem-concat_left _ (unclosed_branches nodes transitions) (
            mem-gather (stuck_node nodes transitions) nodes m
              (rw (no_targets n c h, c) (Memᴰ.head refl)))))
