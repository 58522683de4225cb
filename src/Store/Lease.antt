-- ===== src/Store/Lease.antt =====
-- Deliveries under the statements of crates/hetuflow-sqlx/src/lib.rs on `workflow_outbox`, in any order, by
-- any workers and at any times, and what a lease and a final state of a delivery are.
pub mod Kept
pub mod Exclusive
use fusions.Shared.{ℕ, ◌<◌, String, some, List, [], ◌∷◌, Bool, false, ◌==◌, ◌≡◌, ◌⊎◌, filter}
use fusions.Shared.Int.{ℤ, pos}
use fusions.Store.External.{External}
use fusions.Store.Rows.{OutboxRow}
use fusions.Store.Tables.{Tables}
use fusions.Store.Outbox.{
  is_held, is_due, mark_outbox_succeeded, mark_outbox_retry, mark_outbox_dead_letter,
  enqueue_outbox, poll_due_outbox,
}

-- The ways in which a worker settles a delivery.
pub data Settlement : Type 0 where
  succeed : Settlement
  retry : ℤ → String → Settlement
  give_up : String → Settlement

-- What a transaction does to the deliveries.
pub data Statement (J : Type 0) : Type 0 where
  settling : Settlement → (id worker : String) → Statement J
  polling : (worker : String) → (ttl limit : ℤ) → Statement J
  enqueuing : (tenant : ℤ) → (facility instance activity type : String) → J → Statement J

module _ {Time J : Type 0} where
  abbrev pub has_id : String → OutboxRow Time J → Bool
  has_id id r = r.id == id

  abbrev pub IsFinal : OutboxRow Time J → Type 0
  IsFinal r = (r.status ≡ pos 3) ⊎ (r.status ≡ pos 4)

  -- The row is leased to this worker until this time.
  pub record IsLeased (worker : String) (expiry : Time) (r : OutboxRow Time J) : Type 0 where
    pub status : r.status ≡ pos 2
    pub owner : r.lease_owner ≡ some worker
    pub expires : r.lease_expires_at ≡ some expiry

module _ {Time J : Type 0} (x : External Time J) where
  abbrev pub settle : Settlement → String → String → Tables Time J → Bool × Tables Time J
  settle succeed id worker t = mark_outbox_succeeded id worker t
  settle (retry backoff error) id worker t = mark_outbox_retry x id worker backoff error t
  settle (give_up error) id worker t = mark_outbox_dead_letter id worker error t

  abbrev pub execute : Statement J → Tables Time J → Tables Time J
  execute (settling s id worker) t = (settle s id worker t).1
  execute (polling worker ttl limit) t = (poll_due_outbox x worker ttl limit t).1
  execute (enqueuing tenant facility instance activity type payload) t =
      enqueue_outbox x tenant facility instance activity type payload t

  -- Transactions one after the other, each with its time.
  unfoldable pub run_all : List (Time × Statement J) → Tables Time J → Tables Time J
  run_all [] t = t
  run_all ((now, s) ∷ steps) t = run_all steps (execute s (record t { now = now }))

  -- The row is the only one of its id, which the database has made.
  pub record Stands (r : OutboxRow Time J) (t : Tables Time J) : Type 0 where
    pub only : filter (has_id r.id) t.outbox ≡ r ∷ []
    pub old : (k : ℕ) × (k < t.made) × (r.id ≡ x.made_uuid k)

  -- The statement, at this time, has no business with the row.
  abbrev pub Ignores : OutboxRow Time J → Time → Statement J → Type 0
  Ignores r now (settling s id worker) = is_held id worker r ≡ false
  Ignores r now (polling worker ttl limit) = is_due x now r ≡ false
  Ignores r now (enqueuing _ _ _ _ _ _) = Unit

  -- A statement of another worker's settlement, or of any worker's poll before the lease expires.
  abbrev pub IsApart : String → Time → Time → Statement J → Type 0
  IsApart worker expiry now (settling s id other) = (worker == other) ≡ false
  IsApart worker expiry now (polling other ttl limit) = x.lt_time expiry now ≡ false
  IsApart worker expiry now (enqueuing _ _ _ _ _ _) = Unit
