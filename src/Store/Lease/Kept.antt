-- ===== src/Store/Lease/Kept.antt =====
-- Statements on `workflow_outbox` of crates/hetuflow-sqlx/src/lib.rs that have no business with a row of it.
use fusions.Shared.{
  ℕ, zero, suc, String, List, [], ◌∷◌, Bool, false, ◌&&◌, ◌==◌, ◌≡◌, refl, sym, ap, ◌∙◌, arith, inl,
  inr, any, filter, map, contains, All, eq_iff, Bool-cases,
}
use fusions.Shared.Int.{ℤ, pos_part}
use fusions.Store.External.{External, IsLawful}
use fusions.Store.Rows.{OutboxRow}
use fusions.Store.Tables.{Tables}
use fusions.Store.Sql.{update_where, take, sort_by, insert_by}
use fusions.Store.Sql.Laws.{filter-append, filter-update_where, any-filter}
use fusions.Store.Outbox.{
  is_held, is_due, mark_outbox_succeeded, mark_outbox_retry, mark_outbox_dead_letter, change_outbox,
  enqueue_outbox, poll_due_outbox, due_ids, is_same_delivery,
}
use fusions.Store.Lease.{
  Settlement, succeed, retry, give_up, Statement, settling, polling, enqueuing, has_id, settle,
  execute, run_all, Stands, Ignores,
}

module _ {R : Type 0} (q : R → Bool) where
  any-take : (n : ℕ) (rs : List R) → any q rs ≡ false → any q (take n rs) ≡ false
  unfolding any take
  any-take zero rs h = refl
  any-take (suc n) [] h = refl
  any-take (suc n) (r ∷ rs) h = ground (arith, any-take n rs)

  any-insert_by :
      (before : R → R → Bool) (r : R) (rs : List R)
      → any q rs ≡ false
      → q r ≡ false
      → any q (insert_by before r rs) ≡ false
  unfolding any insert_by
  any-insert_by before r [] h k = ground arith
  any-insert_by before r (s ∷ rs) h k = ground (arith, any-insert_by before r rs)

  any-sort_by :
      (before : R → R → Bool) (rs : List R) → any q rs ≡ false → any q (sort_by before rs) ≡ false
  unfolding any sort_by
  any-sort_by before [] h = refl
  any-sort_by before (r ∷ rs) h =
      any-insert_by before r (sort_by before rs) (any-sort_by before rs (ground arith))
        (ground arith)

any-&& :
    {R : Type 0} (p q : R → Bool) (rs : List R)
    → any (λ r. p r && q r) rs ≡ any (λ r. q r && p r) rs
unfolding any
any-&& p q [] = refl
any-&& p q (r ∷ rs) = ground (arith, any-&& p q rs)

module _ {Time J : Type 0} where
  contains-ids :
      (rs : List (OutboxRow Time J)) (id : String)
      → any (has_id id) rs ≡ false
      → contains (map (λ r. r.id) rs) id ≡ false
  unfolding any contains
  contains-ids [] id h = refl
  contains-ids (r ∷ rs) id h = ground (arith, contains-ids rs id)

  -- An update that passes the only row of an id by.
  passed_by :
      (test : OutboxRow Time J → Bool) (f : OutboxRow Time J → OutboxRow Time J)
      (rs : List (OutboxRow Time J)) (r : OutboxRow Time J)
      → ((s : OutboxRow Time J) → (f s).id ≡ s.id)
      → filter (has_id r.id) rs ≡ r ∷ []
      → test r ≡ false
      → filter (has_id r.id) (update_where test f rs) ≡ r ∷ []
  unfolding update_where
  passed_by test f rs r keep only h =
      filter-update_where (has_id r.id) test f rs (λ s. ap (λ i. i == r.id) (keep s))
      ∙ (ap (update_where test f) only ∙ rw h refl)

module _ {Time J : Type 0} (x : External Time J) where
  not_due :
      (limit : ℤ) (t : Tables Time J) (r : OutboxRow Time J)
      → filter (has_id r.id) t.outbox ≡ r ∷ []
      → is_due x t.now r ≡ false
      → contains (due_ids x limit t) r.id ≡ false
  unfolding due_ids any
  not_due limit t r only h =
      contains-ids (take (pos_part limit) (sort_by _ (filter (is_due x t.now) t.outbox))) r.id (
        any-take (has_id r.id) (pos_part limit) _ (
          any-sort_by (has_id r.id) _ (filter (is_due x t.now) t.outbox) (
            sym (any-filter (is_due x t.now) (has_id r.id) t.outbox)
            ∙ (any-&& (is_due x t.now) (has_id r.id) t.outbox
                ∙ (any-filter (has_id r.id) (is_due x t.now) t.outbox
                    ∙ (ap (any (is_due x t.now)) only ∙ rw h refl))))))

  settle-Stands :
      (s : Settlement) (id worker : String) (t : Tables Time J) (r : OutboxRow Time J)
      → is_held id worker r ≡ false
      → Stands x r t
      → Stands x r (settle x s id worker t).1
  unfolding mark_outbox_succeeded mark_outbox_retry mark_outbox_dead_letter change_outbox
  settle-Stands succeed id worker t r h st = record {
    only = passed_by _ _ t.outbox r (λ s. refl) st.only h;
    old = st.old;
  }
  settle-Stands (retry backoff error) id worker t r h st = record {
    only = passed_by _ _ t.outbox r (λ s. refl) st.only h;
    old = st.old;
  }
  settle-Stands (give_up error) id worker t r h st = record {
    only = passed_by _ _ t.outbox r (λ s. refl) st.only h;
    old = st.old;
  }

  poll-Stands :
      (worker : String) (ttl limit : ℤ) (t : Tables Time J) (r : OutboxRow Time J)
      → is_due x t.now r ≡ false
      → Stands x r t
      → Stands x r (poll_due_outbox x worker ttl limit t).1
  unfolding poll_due_outbox
  poll-Stands worker ttl limit t r h st = record {
    only = passed_by _ _ t.outbox r (λ s. refl) st.only (not_due limit t r st.only h);
    old = st.old;
  }

  new_id :
      (laws : IsLawful x) (t : Tables Time J) (r : OutboxRow Time J)
      → Stands x r t
      → (x.made_uuid t.made == r.id) ≡ false
  new_id laws t r st =
      let (k, lt, e) = st.old in
      elim (Bool-cases (x.made_uuid t.made == r.id)) [
        | inl same ↦ absurd (
            omega (
              arith,
              laws.made_uuid-injective t.made k ((eq_iff (x.made_uuid t.made) r.id).0 same ∙ e),
            ))
        | inr other ↦ other
      ]

  enqueue-Stands :
      (laws : IsLawful x) (tenant : ℤ) (facility instance activity type : String) (payload : J)
      (t : Tables Time J) (r : OutboxRow Time J)
      → Stands x r t
      → Stands x r (enqueue_outbox x tenant facility instance activity type payload t)
  unfolding enqueue_outbox filter
  enqueue-Stands laws tenant facility instance activity type payload t r st =
      elim (Bool-cases (any (is_same_delivery x instance activity type) t.outbox)) [
        | inl e ↦ rw e st
        | inr e ↦ rw e (record {
          only =
              filter-append (has_id r.id) t.outbox (_ ∷ []) ∙ rw (new_id laws t r st, st.only) refl;
          old = let (k, lt, made) = st.old in (k, omega arith, made);
        })
      ]

  execute-Stands :
      (laws : IsLawful x) (s : Statement J) (t : Tables Time J) (r : OutboxRow Time J)
      → Ignores x r t.now s
      → Stands x r t
      → Stands x r (execute x s t)
  execute-Stands laws (settling s id worker) t r h st = settle-Stands s id worker t r h st
  execute-Stands laws (polling worker ttl limit) t r h st = poll-Stands worker ttl limit t r h st
  execute-Stands laws (enqueuing tenant facility instance activity type payload) t r h st =
      enqueue-Stands laws tenant facility instance activity type payload t r st

  pub run_all-Stands :
      (laws : IsLawful x) (steps : List (Time × Statement J)) (t : Tables Time J)
      (r : OutboxRow Time J)
      → All (λ step. Ignores x r step.0 step.1) steps
      → Stands x r t
      → Stands x r (run_all x steps t)
  unfolding run_all
  run_all-Stands laws [] t r h st = st
  run_all-Stands laws ((now, s) ∷ steps) t r h st =
      run_all-Stands laws steps (execute x s (record t { now = now })) r h.1 (
        execute-Stands laws s (record t { now = now }) r h.0
          (record { only = st.only; old = st.old }))
