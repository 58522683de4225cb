-- ===== src/Store/Guards.antt =====
-- What the guards of the updates of activities in crates/hetuflow-sqlx/src/lib.rs rule out.
use fusions.Shared.{String, Option, List, [], ◌∷◌, Bool, false, ◌≡◌, refl, arith, any}
use fusions.Shared.Int.{ℤ}
use fusions.Store.Tables.{Tables}
use fusions.Store.Sql.{update_where, update_where-none}
use fusions.Store.Activities.{
  complete_activity_cas, skip_activity_for_timeout, change_activities, is_active,
}

-- An update whose new values fail its own test finds nothing the next time.
any-update_where :
    {R : Type 0} (test : R → Bool) (f : R → R) (rs : List R)
    → ((r : R) → test (f r) ≡ false)
    → any test (update_where test f rs) ≡ false
unfolding any update_where
any-update_where test f [] h = refl
any-update_where test f (r ∷ rs) h = ground (arith, h r, any-update_where test f rs h)

-- The ways in which an activity is closed.
pub data Closing : Type 0 where
  review : Option ℤ → ℤ → Option String → Closing
  time_out : Closing

module _ {Time J : Type 0} where
  abbrev pub close : Closing → String → Tables Time J → Bool × Tables Time J
  close (review result by notes) id t = complete_activity_cas id result by notes t
  close time_out id t = skip_activity_for_timeout id t

  closed :
      (c : Closing) (id : String) (t : Tables Time J)
      → any (is_active id) (close c id t).1.activities ≡ false
  unfolding complete_activity_cas skip_activity_for_timeout change_activities
  closed (review result by notes) id t = any-update_where _ _ t.activities (λ r. ground arith)
  closed time_out id t = any-update_where _ _ t.activities (λ r. ground arith)

  refused_closing :
      (c : Closing) (id : String) (t : Tables Time J)
      → any (is_active id) t.activities ≡ false
      → close c id t ≡ (false, t)
  unfolding complete_activity_cas skip_activity_for_timeout change_activities
  refused_closing (review result by notes) id t h =
      rw (h, update_where-none _ _ t.activities h) refl
  refused_closing time_out id t h = rw (h, update_where-none _ _ t.activities h) refl

  -- Once an activity has been completed or skipped for its timeout, or that has been tried, a second
  -- completion or skip is refused and changes nothing.
  pub close-once :
      (first second : Closing) (id : String) (t : Tables Time J)
      → close second id (close first id t).1 ≡ (false, (close first id t).1)
  close-once first second id t = refused_closing second id (close first id t).1 (closed first id t)
