-- ===== src/Runtime/Resolve/Routes/Complete.antt =====
-- Every route of at most eight routers is found: neither the set of visited nodes nor the order of the
-- tests hides one.
use mathlib.Core.List.{Memᴰ, append-nil, append_assoc}
use fusions.Shared.{
  ℕ, zero, suc, ◌<◌, ◌≤◌, String, Option, some, List, [], ◌∷◌, ◌++◌, true, false, ◌≡◌, ◌≢◌, ◌↔◌,
  inl, inr, refl, sym, ◌∙◌, ap, subst, arith, Bool-cases, contains, contains-mem,
}
use fusions.Core.Config.{NodeConfig, ConditionBranch}
use fusions.Core.Node.{WorkflowNode}
use fusions.Core.Definition.{WorkflowTransition}
use fusions.Core.Outcome.{AdvanceOutcome, error}
use fusions.Runtime.Guard.{Cel}
use fusions.Runtime.Resolve.{
  ResolveTrace, Resolved, no_trace, resolve_fuel, find_node, choose, enter, resolve_target,
}
use fusions.Runtime.Resolve.Routes.{
  is_router, Chosen, by_default, taken, skipped, Hop, through_merge, through_condition, Routes,
  settle, pass,
}
use fusions.Runtime.Resolve.Routes.Sound.{enter-settles, resolve_target_sound}

module _ {J : Type 0} (cel : Cel J) (context : Option J) where
  choose_of_Chosen :
      {bs : List ConditionBranch} {d x : String}
      → Chosen cel context bs d x
      → choose cel context bs d ≡ some x
  unfolding choose
  choose_of_Chosen (by_default e) = ap some e
  choose_of_Chosen (taken g e) = ground arith
  choose_of_Chosen (skipped g c) = ground (arith, choose_of_Chosen c)

  Chosen-unique :
      {bs : List ConditionBranch} {d x y : String}
      → Chosen cel context bs d x
      → Chosen cel context bs d y
      → x ≡ y
  Chosen-unique c k = cc (choose_of_Chosen c, choose_of_Chosen k)

module _ {J : Type 0} (cel : Cel J) (nodes : List WorkflowNode)
    (transitions : List WorkflowTransition) (context : Option J) where
  Hop-unique :
      {id : String} {c : NodeConfig} {ms rs : List String} {x y : String}
      → Hop cel transitions context id c ms x
      → Hop cel transitions context id c rs y
      → x ≡ y
  Hop-unique (through_merge p e) (through_merge q f) = ground arith
  Hop-unique (through_condition a) (through_condition b) = Chosen-unique cel context a b

  is_router_of_Hop :
      {id : String} {c : NodeConfig} {ms : List String} {x : String}
      → Hop cel transitions context id c ms x
      → is_router c ≡ true
  is_router_of_Hop (through_merge p e) = refl
  is_router_of_Hop (through_condition c) = refl

  one_config :
      (id : String) {n m : WorkflowNode} {c d : NodeConfig}
      → find_node nodes id ≡ some n
      → find_node nodes id ≡ some m
      → n.config ≡ c
      → m.config ≡ d
      → c ≡ d
  one_config id f g c d = ground arith

  no_leaf :
      (id : String) {n m : WorkflowNode} {c : NodeConfig} {ms : List String} {x : String}
      → find_node nodes id ≡ some n
      → is_router n.config ≡ false
      → find_node nodes id ≡ some m
      → m.config ≡ c
      → Hop cel transitions context id c ms x
      → ⊥
  no_leaf id f l g c hop =
      let e = one_config id f g refl c in cc (ap is_router e, l, is_router_of_Hop hop)

  one_next :
      (id : String) {n m : WorkflowNode} {c d : NodeConfig} {ms rs : List String} {x y : String}
      → find_node nodes id ≡ some n
      → find_node nodes id ≡ some m
      → n.config ≡ c
      → m.config ≡ d
      → Hop cel transitions context id c ms x
      → Hop cel transitions context id d rs y
      → x ≡ y
  one_next id {rs = rs} {y = y} f g c d hop jump =
      Hop-unique hop
        (subst (λ k. Hop cel transitions context id k rs y) (sym (one_config id f g c d)) jump)

  -- A node has at most one route, so its height is its own.
  Routes-height :
      {h k : ℕ} {id : String} {ms rs : List String} {o p : AdvanceOutcome J}
      → Routes cel nodes transitions context h id ms o
      → Routes cel nodes transitions context k id rs p
      → h ≡ k
  Routes-height (settle f l e) (settle g m d) = refl
  Routes-height {id = id} (settle f l e) (pass g c hop r) = absurd (no_leaf id f l g c hop)
  Routes-height {id = id} (pass f c hop r) (settle g l e) = absurd (no_leaf id g l f c hop)
  Routes-height {id = id} (pass f c hop r) (pass {h = k} {rest = rest} {o = o} g d jump q) =
      ap suc (
        Routes-height r (
          subst (λ x. Routes cel nodes transitions context k x rest o)
            (sym (one_next id f g c d hop jump)) q))

  -- The visited nodes lie above: each has a longer route.
  abbrev AllAbove : ℕ → List String → Type 0
  AllAbove h visited =
      (v : String)
      → Memᴰ v visited
      → (k : ℕ) × (rs : List String) × (p : AdvanceOutcome J) × (h < k)
        × Routes cel nodes transitions context k v rs p

  not_visited :
      {h : ℕ} {id : String} {ms : List String} {o : AdvanceOutcome J} (visited : List String)
      → AllAbove h visited
      → Routes cel nodes transitions context h id ms o
      → contains visited id ≡ false
  not_visited {id = id} visited above r = elim (Bool-cases (contains visited id)) [
    | inr e ↦ e
    | inl e ↦
        let (k, rs, p, lt, q) = above id (contains-mem visited id e) in
        absurd (omega (arith, Routes-height r q))
  ]

  AllAbove-cons :
      {h : ℕ} {id : String} {ms : List String} {o : AdvanceOutcome J} (visited : List String)
      → AllAbove (suc h) visited
      → Routes cel nodes transitions context (suc h) id ms o
      → AllAbove h (id ∷ visited)
  AllAbove-cons {h} {ms = ms} {o = o} visited above r v (Memᴰ.head e) = (
    suc h,
    ms,
    o,
    omega arith,
    subst (λ x. Routes cel nodes transitions context (suc h) x ms o) (sym e) r,
  )
  AllAbove-cons visited above r v (Memᴰ.tail m) =
      let (k, rs, p, lt, q) = above v m in (k, rs, p, omega arith, q)

  enter-Hop :
      {id : String} {c : NodeConfig} {ms : List String} {x : String} (trace : ResolveTrace)
      (next : ResolveTrace → String → Resolved J)
      → Hop cel transitions context id c ms x
      → (tr : ResolveTrace) × (tr.merges_passed ≡ trace.merges_passed ++ ms)
        × (enter cel nodes transitions context id c trace next ≡ next tr x)
  unfolding enter
  enter-Hop {id} trace next (through_merge p e) =
      (record trace { merges_passed = trace.merges_passed ++ id ∷ [] }, refl, ground arith)
  enter-Hop trace next (through_condition c) =
      (trace, sym (append-nil _), rw (choose_of_Chosen cel context c))

  abbrev Found : ResolveTrace → List String → AdvanceOutcome J → Resolved J → Type 0
  Found trace ms o r = (r.0 ≡ o) × (r.1.merges_passed ≡ trace.merges_passed ++ ms)

  resolve_target_complete :
      (fuel : ℕ) (visited : List String) (trace : ResolveTrace) {h : ℕ} {id : String}
      {ms : List String} {o : AdvanceOutcome J}
      → h < fuel
      → AllAbove h visited
      → Routes cel nodes transitions context h id ms o
      → Found trace ms o (resolve_target cel nodes transitions context fuel visited trace id)
  unfolding resolve_target
  resolve_target_complete zero visited trace lt above r = absurd (omega arith)
  resolve_target_complete (suc fuel) visited trace {id = id} lt above (settle {n = n} f l e) =
      let (same, kept) =
        enter-settles cel nodes transitions context id n.config trace no_trace
          (resolve_target cel nodes transitions context fuel (id ∷ visited)) (λ tr _. (error, tr))
          l in
      rw (not_visited visited above (settle f l e), f) (same ∙ e, kept ∙ sym (append-nil _))
  resolve_target_complete (suc fuel) visited trace {id = id} {o = o} lt above
        (pass {h = k} {next = x} {n = n} {c = c} {ms = ms} {rest = rest} f e hop r) =
      let route = pass f e hop r in
      let (tr, m, enters) =
        enter-Hop trace (resolve_target cel nodes transitions context fuel (id ∷ visited)) hop in
      let (outcome, merges) =
        resolve_target_complete fuel (id ∷ visited) tr (omega arith)
          (AllAbove-cons visited above route) r in
      rw (not_visited visited above route, f, e, enters)
        (outcome, merges ∙ rw m (append_assoc _ ms rest))

  -- For an outcome `o` other than an error, `resolve_target` answers `o` and records the merges `ms` exactly
  -- when there is a route of at most eight routers with that outcome and those merges. The cycle check
  -- refuses no such route.
  pub resolve_target_iff :
      (id : String) (ms : List String) (o : AdvanceOutcome J)
      → o ≢ error
      → ((resolve_target cel nodes transitions context resolve_fuel [] no_trace id).0 ≡ o)
          × ((resolve_target cel nodes transitions context resolve_fuel [] no_trace
                id).1.merges_passed
              ≡ ms)
        ↔ ((h : ℕ) × (h ≤ 8) × Routes cel nodes transitions context h id ms o)
  resolve_target_iff id ms o ne = (
    λ p.
        let (h, rs, lt, r, m) =
          resolve_target_sound cel nodes transitions context resolve_fuel [] no_trace id
            (λ e. ne (sym p.0 ∙ e)) in
        (
          h,
          omega arith,
          subst (λ x. Routes cel nodes transitions context h id x o) (sym m ∙ p.1)
              (subst (λ x. Routes cel nodes transitions context h id rs x) p.0 r),
        ),
    λ (h, le, r).
        resolve_target_complete resolve_fuel [] no_trace (omega arith) (λ v m. elim m [ ]) r,
  )
