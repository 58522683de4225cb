-- ===== src/Runtime/Lint/Closed.antt =====
-- What a path leads to, the search of the lint visits.
use mathlib.Core.List.{Memᴰ}
use fusions.Shared.{
  ℕ, zero, suc, String, some, List, [], ◌∷◌, true, false, not, ◌&&◌, ◌||◌, ◌≡◌, ◌↔◌, refl, sym, ◌∙◌,
  ◌==◌, arith, contains, Bool-cases, inl, inr, eq_refl, ==→≡, subst,
}
use fusions.Core.Node.{WorkflowNode}
use fusions.Core.Definition.{WorkflowTransition}
use fusions.Runtime.Validate.{node_ids}
use fusions.Runtime.Lint.{targets_at, push_targets, explore, reachable, search_fuel}
use fusions.Runtime.Lint.Fuel.{explore-seen, explore-new, explore-enough}
use fusions.Runtime.Lint.Reach.{Reach, here, along, explore-Reach, All-contains}

module _ (nodes : List WorkflowNode) (transitions : List WorkflowTransition) where
  push_targets-keeps :
      (visited ts stack : List String) (b : String)
      → contains stack b ≡ true
      → contains (push_targets nodes transitions visited ts stack) b ≡ true
  unfolding push_targets contains
  push_targets-keeps visited [] stack b h = h
  push_targets-keeps visited (t ∷ ts) stack b h =
      elim (Bool-cases (contains (node_ids nodes) t && not (contains visited t))) [
        | inl e ↦ rw e (push_targets-keeps visited ts (t ∷ stack) b (ground arith))
        | inr e ↦ rw e (push_targets-keeps visited ts stack b h)
      ]

  push_targets-top :
      (visited ts stack : List String) (t : String)
      → contains (node_ids nodes) t ≡ true
      → (contains visited t || contains (push_targets nodes transitions visited (t ∷ ts) stack) t)
        ≡ true
  unfolding push_targets contains
  push_targets-top visited ts stack t k = elim (Bool-cases (contains visited t)) [
    | inl v ↦ rw v refl
    | inr v ↦ rw (v, k) (push_targets-keeps visited ts (t ∷ stack) t (ground (arith, eq_refl t)))
  ]

  -- A target that exists is visited already, or pushed.
  push_targets-adds :
      (visited ts stack : List String) (b : String)
      → Memᴰ b ts
      → contains (node_ids nodes) b ≡ true
      → (contains visited b || contains (push_targets nodes transitions visited ts stack) b) ≡ true
  unfolding push_targets contains
  push_targets-adds visited [] stack b m k = elim m [ ]
  push_targets-adds visited (t ∷ ts) stack b (Memᴰ.head e) k =
      subst
        (λ x.
          (contains visited x || contains (push_targets nodes transitions visited (t ∷ ts) stack) x)
          ≡ true)
        (sym e)
        (push_targets-top visited ts stack t (subst (λ x. contains (node_ids nodes) x ≡ true) e k))
  push_targets-adds visited (t ∷ ts) stack b (Memᴰ.tail m) k =
      elim (Bool-cases (contains (node_ids nodes) t && not (contains visited t))) [
        | inl e ↦ rw e (push_targets-adds visited ts (t ∷ stack) b m k)
        | inr e ↦ rw e (push_targets-adds visited ts stack b m k)
      ]

  -- Every edge out of a visited node leads to one that is visited or on the stack.
  abbrev pub IsClosed : List String → List String → Type 0
  IsClosed visited stack =
      (a b : String)
      → contains visited a ≡ true
      → Memᴰ b (targets_at nodes transitions a)
      → contains (node_ids nodes) b ≡ true
      → (contains visited b || contains stack b) ≡ true

  -- A round of the search loses nothing that is visited or on the stack.
  kept_seen :
      (visited stack : List String) (cur x : String)
      → contains visited cur ≡ true
      → (contains visited x || contains (cur ∷ stack) x) ≡ true
      → (contains visited x || contains stack x) ≡ true
  unfolding contains
  kept_seen visited stack cur x p h = elim (Bool-cases (cur == x)) [
    | inl e ↦ ground (arith, ==→≡ cur x e)
    | inr e ↦ ground arith
  ]

  kept_new :
      (visited stack ts : List String) (cur x : String)
      → (contains visited x || contains (cur ∷ stack) x) ≡ true
      → (contains (cur ∷ visited) x
          || contains (push_targets nodes transitions (cur ∷ visited) ts stack) x)
        ≡ true
  unfolding contains
  kept_new visited stack ts cur x h = elim (Bool-cases (contains stack x)) [
    | inl s ↦ ground (arith, push_targets-keeps (cur ∷ visited) ts stack x s)
    | inr s ↦ ground arith
  ]

  IsClosed-new :
      (visited stack : List String) (cur : String)
      → IsClosed visited (cur ∷ stack)
      → IsClosed
          (cur ∷ visited)
          (push_targets nodes transitions (cur ∷ visited) (targets_at nodes transitions cur) stack)
  unfolding contains
  IsClosed-new visited stack cur h a b v m k = elim (Bool-cases (cur == a)) [
    | inl e ↦
        push_targets-adds (cur ∷ visited) (targets_at nodes transitions cur) stack b
          (subst (λ x. Memᴰ b (targets_at nodes transitions x)) (sym (==→≡ cur a e)) m) k
    | inr e ↦
        kept_new visited stack (targets_at nodes transitions cur) cur b (h a b (ground arith) m k)
  ]

  explored :
      (visited : List String) {w : List String}
      → visited ≡ w
      → IsClosed visited []
      → IsClosed w [] × ((x : String) → (contains visited x || false) ≡ true → contains w x ≡ true)
  unfolding contains
  explored visited e h =
      subst
        (λ w.
          IsClosed w []
          × ((x : String) → (contains visited x || false) ≡ true → contains w x ≡ true))
        e (h, λ x q. ground arith)

  pub explore-IsClosed :
      (fuel : ℕ) (visited stack : List String) {w : List String}
      → explore nodes transitions fuel visited stack ≡ some w
      → IsClosed visited stack
      → IsClosed w []
        × ((x : String) → (contains visited x || contains stack x) ≡ true → contains w x ≡ true)
  unfolding explore contains
  explore-IsClosed zero visited [] e h = explored visited (ground arith) h
  explore-IsClosed (suc fuel) visited [] e h = explored visited (ground arith) h
  explore-IsClosed zero visited (cur ∷ stack) e h = cc
  explore-IsClosed (suc fuel) visited (cur ∷ stack) e h = elim (Bool-cases (contains visited cur)) [
    | inl p ↦
        let (c, sub) =
          explore-IsClosed fuel visited stack
            (sym (explore-seen nodes transitions fuel visited cur stack p) ∙ e)
            (λ a b v m k. kept_seen visited stack cur b p (h a b v m k)) in
        (c, λ x q. sub x (kept_seen visited stack cur x p q))
    | inr p ↦
        let (c, sub) =
          explore-IsClosed fuel (cur ∷ visited)
            (push_targets nodes transitions (cur ∷ visited) (targets_at nodes transitions cur)
              stack)
            (sym (explore-new nodes transitions fuel visited cur stack p) ∙ e)
            (IsClosed-new visited stack cur h) in
        (c, λ x q. sub x (kept_new visited stack (targets_at nodes transitions cur) cur x q))
  ]

  -- A closed set of visited nodes that has the start has everything that can be reached.
  pub Reach-visited :
      (start : String) (w : List String) {id : String}
      → IsClosed w []
      → contains w start ≡ true
      → Reach nodes transitions start id
      → contains w id ≡ true
  unfolding contains
  Reach-visited start w closed s (here e) = subst (λ x. contains w x ≡ true) e s
  Reach-visited start w closed s (along {a = a} {b = b} r m k) =
      ground (arith, closed a b (Reach-visited start w closed s r) m k)

  reachable-explored :
      (start : String) (w : List String)
      → explore nodes transitions (search_fuel nodes transitions) [] (start ∷ []) ≡ some w
      → reachable nodes transitions start ≡ w
  unfolding reachable
  reachable-explored start w e = rw e refl

  -- The search from `start` ends within its fuel, and the ids that it visits are exactly those to which a path of
  -- the edges that the lint follows leads from `start`, by nodes that exist.
  pub reachable_iff :
      (start id : String)
      → ((w : List String) × (explore nodes transitions
              (search_fuel nodes transitions)
              []
              (start ∷ [])
            ≡ some w)
          × (reachable nodes transitions start ≡ w))
        × ((contains (reachable nodes transitions start) id ≡ true)
            ↔ Reach nodes transitions start id)
  unfolding contains
  reachable_iff start id =
      let (w, e) = explore-enough nodes transitions start in
      let same = reachable-explored start w e in
      let (closed, sub) =
        explore-IsClosed (search_fuel nodes transitions) [] (start ∷ []) e (λ a b v m k. cc) in
      (
        (w, e, same),
        (
          λ c.
              All-contains nodes transitions start w
                (explore-Reach nodes transitions start (search_fuel nodes transitions) []
                  (start ∷ []) e tt (here refl, tt))
                (subst (λ v. contains v id ≡ true) same c),
          λ r.
              subst (λ v. contains v id ≡ true) (sym same)
                (Reach-visited start w closed (sub start (ground (arith, eq_refl start))) r),
        ),
      )
