-- ===== src/Store/Lease/Exclusive.antt =====
-- The lease and the final states of a delivery of `workflow_outbox` in crates/hetuflow-sqlx/src/lib.rs,
-- against the statements of the other workers.
use fusions.Shared.{String, List, [], ◌∷◌, true, ◌&&◌, ◌≡◌, refl, ◌∙◌, arith, any, All, eq_refl}
use fusions.Shared.Int.{pos, eq_ℤ}
use fusions.Store.External.{External, IsLawful}
use fusions.Store.Rows.{OutboxRow}
use fusions.Store.Tables.{Tables}
use fusions.Store.Sql.{is_text}
use fusions.Store.Sql.Laws.{any-filter}
use fusions.Store.Outbox.{
  is_held, mark_outbox_succeeded, mark_outbox_retry, mark_outbox_dead_letter, change_outbox,
}
use fusions.Store.Lease.{
  Settlement, succeed, retry, give_up, Statement, settling, polling, enqueuing, has_id, settle,
  run_all, Stands, Ignores, IsFinal, IsLeased, IsApart,
}
use fusions.Store.Lease.Kept.{run_all-Stands}

module _ {Time J : Type 0} (x : External Time J) where
  final-Ignores :
      (r : OutboxRow Time J) (now : Time) (s : Statement J) → IsFinal r → Ignores x r now s
  final-Ignores r now (settling s id worker) f = ground arith
  final-Ignores r now (polling worker ttl limit) f = ground arith
  final-Ignores r now (enqueuing _ _ _ _ _ _) f = tt

  all_ignored :
      (r : OutboxRow Time J) (steps : List (Time × Statement J))
      → IsFinal r
      → All (λ step. Ignores x r step.0 step.1) steps
  all_ignored r [] f = tt
  all_ignored r ((now, s) ∷ steps) f = (final-Ignores r now s f, all_ignored r steps f)

  -- A delivery that has succeeded or is a dead letter keeps its row as it is under any sequence of
  -- polls, settlements and enqueued deliveries, by any workers and at any times: it is never leased or
  -- settled again. The row is the only one with its id, which the database has made, and the ids that
  -- the database makes differ.
  pub final-Stands :
      (laws : IsLawful x) (steps : List (Time × Statement J)) (t : Tables Time J)
      (r : OutboxRow Time J)
      → IsFinal r
      → Stands x r t
      → Stands x r (run_all x steps t)
  final-Stands laws steps t r f st = run_all-Stands x laws steps t r (all_ignored r steps f) st

  apart-Ignores :
      (worker : String) (expiry : Time) (r : OutboxRow Time J) (now : Time) (s : Statement J)
      → IsLeased worker expiry r
      → IsApart x worker expiry now s
      → Ignores x r now s
  apart-Ignores worker expiry r now (settling s id other) l h = rw (l.owner, h) (ground arith)
  apart-Ignores worker expiry r now (polling other ttl limit) l h =
      rw (l.status, l.expires, h) (ground arith)
  apart-Ignores worker expiry r now (enqueuing _ _ _ _ _ _) l h = tt

  all_apart :
      (worker : String) (expiry : Time) (r : OutboxRow Time J) (steps : List (Time × Statement J))
      → IsLeased worker expiry r
      → All (λ step. IsApart x worker expiry step.0 step.1) steps
      → All (λ step. Ignores x r step.0 step.1) steps
  all_apart worker expiry r [] l h = tt
  all_apart worker expiry r ((now, s) ∷ steps) l h =
      (apart-Ignores worker expiry r now s l h.0, all_apart worker expiry r steps l h.1)

  settles :
      (s : Settlement) (id worker : String) (t : Tables Time J)
      → any (is_held id worker) t.outbox ≡ true
      → (settle x s id worker t).0 ≡ true
  unfolding mark_outbox_succeeded mark_outbox_retry mark_outbox_dead_letter change_outbox
  settles succeed id worker t h = h
  settles (retry backoff error) id worker t h = h
  settles (give_up error) id worker t h = h

  owner_settles :
      (s : Settlement) (worker : String) (expiry : Time) (t : Tables Time J) (r : OutboxRow Time J)
      → IsLeased worker expiry r
      → Stands x r t
      → (settle x s r.id worker t).0 ≡ true
  unfolding any
  owner_settles s worker expiry t r l st =
      let held : any (is_held r.id worker) t.outbox ≡ true =
        any-filter (has_id r.id) (λ q. is_text worker q.lease_owner && eq_ℤ q.status (pos 2))
          t.outbox
        ∙ rw (st.only, l.owner, l.status, eq_refl worker) refl in
      settles s r.id worker t held

  -- While a delivery is leased to a worker, any sequence of transactions that enqueue deliveries, that
  -- poll at times when the lease has not expired, for any worker, or that settle deliveries for other
  -- workers, leaves its row as it is, and after them the worker's own settlement, in any of the three
  -- ways, is taken. The row is the only one with its id, which the database has made, and the ids that
  -- the database makes differ.
  pub lease-exclusive :
      (laws : IsLawful x) (steps : List (Time × Statement J)) (worker : String) (expiry : Time)
      (t : Tables Time J) (r : OutboxRow Time J) (s : Settlement)
      → IsLeased worker expiry r
      → All (λ step. IsApart x worker expiry step.0 step.1) steps
      → Stands x r t
      → Stands x r (run_all x steps t) × ((settle x s r.id worker (run_all x steps t)).0 ≡ true)
  lease-exclusive laws steps worker expiry t r s l h st =
      let after = run_all-Stands x laws steps t r (all_apart worker expiry r steps l h) st in
      (after, owner_settles s worker expiry (run_all x steps t) r l after)
