-- ===== src/Runtime/Validate/Sound.antt =====
-- What a definition that passes `validate_definition` has.
use mathlib.Core.List.{Memᴰ}
use fusions.Shared.{
  String, some, List, [], ◌∷◌, Bool, true, false, ◌≡◌, ◌≢◌, inl, inr, refl, arith, Bool-cases, ok,
  ◌>>◌, contains, for_each, for_each-ok, contains-mem, ◌==◌, find, find-mem, eq_iff,
}
use fusions.Core.NodeKind.{NodeKind, is_start, is_end}
use fusions.Core.Config.{NodeConfig}
use fusions.Core.Node.{WorkflowNode, kind, kind_of}
use fusions.Runtime.Resolve.{find_node}
use fusions.Core.Definition.{WorkflowTransition}
use fusions.Runtime.Guard.{Cel}
use fusions.Runtime.Check.Base.{Checked}
use fusions.Runtime.Validate.{
  node_ids, count_kind, check_unique, check_transition, check_config, check_node,
  validate_definition,
}

-- No two nodes have one id.
abbrev pub IsFresh : List String → List WorkflowNode → Type 0
IsFresh seen [] = Unit
IsFresh seen (n ∷ ns) = (contains seen n.id ≡ false) × IsFresh (n.id ∷ seen) ns

check_unique-IsFresh :
    (seen : List String) (ns : List WorkflowNode) → check_unique seen ns ≡ ok tt → IsFresh seen ns
unfolding check_unique
check_unique-IsFresh seen [] h = tt
check_unique-IsFresh seen (n ∷ ns) h = ground (arith, check_unique-IsFresh (n.id ∷ seen) ns)

-- The five checks, each of which has passed.
module _ {J : Type 0} (cel : Cel J) (nodes : List WorkflowNode)
    (transitions : List WorkflowTransition) where
  pub record Passed : Type 0 where
    pub unique : check_unique [] nodes ≡ ok tt
    pub one_start : count_kind is_start nodes ≡ 1
    pub some_end : count_kind is_end nodes ≢ 0
    pub each_node : for_each (check_node cel nodes transitions) nodes ≡ ok tt
    pub each_transition : for_each (check_transition (node_ids nodes)) transitions ≡ ok tt

  pub validate_definition-Passed : validate_definition cel nodes transitions ≡ ok tt → Passed
  unfolding validate_definition
  validate_definition-Passed h = ground arith

elsewhere :
    (x : WorkflowNode) (xs : List WorkflowNode) (id : String)
    → (x.id == id) ≡ false
    → Memᴰ id (node_ids (x ∷ xs))
    → Memᴰ id (node_ids xs)
elsewhere x xs id e (Memᴰ.head p) = absurd (ground (arith, eq_iff x.id id))
elsewhere x xs id e (Memᴰ.tail m) = m

-- Lookups of ids that the definition has.
find_node_of_mem :
    (nodes : List WorkflowNode) (id : String)
    → Memᴰ id (node_ids nodes)
    → (n : WorkflowNode) × (find_node nodes id ≡ some n)
unfolding find_node find
find_node_of_mem [] id m = elim m [ ]
find_node_of_mem (x ∷ xs) id m = elim (Bool-cases (x.id == id)) [
  | inl e ↦ (x, rw e)
  | inr e ↦ let (n, p) = find_node_of_mem xs id (elsewhere x xs id e m) in (n, rw e p)
]

-- The kinds that the engine runs.
abbrev pub is_supported : NodeKind → Bool
is_supported NodeKind.parallel = false
is_supported NodeKind.timer = false
is_supported _ = true

supported_config :
    {J : Type 0} (cel : Cel J) (nodes : List WorkflowNode) (transitions : List WorkflowTransition)
    (id : String) (c : NodeConfig)
    → check_config cel nodes transitions id c ≡ ok tt
    → is_supported (kind_of c) ≡ true
unfolding check_config kind_of
supported_config cel nodes transitions id NodeConfig.parallel h = cc
supported_config cel nodes transitions id NodeConfig.timer h = cc
supported_config cel nodes transitions id _ h = refl

>>-ok : (a b : Checked) → (a >> b) ≡ ok tt → (a ≡ ok tt) × (b ≡ ok tt)
>>-ok a b h = ground arith

pub check_config_of_node :
    {J : Type 0} (cel : Cel J) (nodes : List WorkflowNode) (transitions : List WorkflowTransition)
    (n : WorkflowNode)
    → check_node cel nodes transitions n ≡ ok tt
    → check_config cel nodes transitions n.id n.config ≡ ok tt
unfolding check_node
check_config_of_node cel nodes transitions n h = (>>-ok _ _ h).1

edge_known :
    (nodes : List WorkflowNode) (t : WorkflowTransition)
    → check_transition (node_ids nodes) t ≡ ok tt
    → ((n : WorkflowNode) × (find_node nodes t.from ≡ some n))
      × ((m : WorkflowNode) × (find_node nodes t.to ≡ some m))
unfolding check_transition
edge_known nodes t h = (
  find_node_of_mem nodes t.from (contains-mem (node_ids nodes) t.from (ground arith)),
  find_node_of_mem nodes t.to (contains-mem (node_ids nodes) t.to (ground arith)),
)

-- What a definition must be for the engine to run it.
module _ {J : Type 0} (cel : Cel J) (nodes : List WorkflowNode)
    (transitions : List WorkflowTransition) where
  pub record WellFormed : Type 0 where
    pub ids_distinct : IsFresh [] nodes
    pub one_start : count_kind is_start nodes ≡ 1
    pub some_end : count_kind is_end nodes ≢ 0
    pub no_unsupported : (n : WorkflowNode) → Memᴰ n nodes → is_supported (kind n) ≡ true
    pub edges_known :
        (t : WorkflowTransition)
        → Memᴰ t transitions
        → ((n : WorkflowNode) × (find_node nodes t.from ≡ some n))
          × ((m : WorkflowNode) × (find_node nodes t.to ≡ some m))

  -- A definition that passes has distinct ids, one start, an end, no node of a kind that the engine does
  -- not run, and edges between its own nodes only.
  pub validate_definition-WellFormed :
      validate_definition cel nodes transitions ≡ ok tt → WellFormed
  validate_definition-WellFormed h =
      let p = validate_definition-Passed cel nodes transitions h in
      record {
        ids_distinct = check_unique-IsFresh [] nodes p.unique;
        one_start = p.one_start;
        some_end = p.some_end;
        no_unsupported = λ n m. supported_config cel nodes transitions n.id n.config (
            check_config_of_node cel nodes transitions n
              (for_each-ok (check_node cel nodes transitions) nodes p.each_node m));
        edges_known = λ t m.
            edge_known nodes t
              (for_each-ok (check_transition (node_ids nodes)) transitions p.each_transition m);
      }

  -- Each node of a definition that passes has passed the check of its kind.
  pub node_passed :
      (id : String) (n : WorkflowNode)
      → validate_definition cel nodes transitions ≡ ok tt
      → find_node nodes id ≡ some n
      → check_config cel nodes transitions n.id n.config ≡ ok tt
  unfolding find_node
  node_passed id n h f =
      let p = validate_definition-Passed cel nodes transitions h in
      check_config_of_node cel nodes transitions n
        (for_each-ok (check_node cel nodes transitions) nodes p.each_node (find-mem _ nodes f))
