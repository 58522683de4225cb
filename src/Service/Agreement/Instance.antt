-- ===== src/Service/Agreement/Instance.antt =====
-- The row of an instance after a compare-and-set.
use fusions.Shared.{
  String, [], ◌∷◌, Bool, ◌&&◌, ◌==◌, ◌≡◌, arith, ap, ◌∙◌, any, filter, if◌then◌else◌,
}
use fusions.Store.Rows.{InstanceRow}
use fusions.Store.Tables.{Tables}
use fusions.Store.Sql.{update_where}
use fusions.Store.Sql.Laws.{update_where-filter, any-filter}
use fusions.Store.Instances.{change_instances, has_id}

module _ {Time J : Type 0} (id : String) (p : InstanceRow Time J → Bool)
    (f : InstanceRow Time J → InstanceRow Time J) (t : Tables Time J)
    (keeps : (r : InstanceRow Time J) → (f r).id ≡ r.id) {row : InstanceRow Time J}
    (only : filter (has_id id) t.instances ≡ row ∷ []) where
  pub change_instances-row :
      filter (has_id id) (change_instances (λ r. r.id == id && p r) f t).1.instances
      ≡ (if p row then f row else row) ∷ []
  unfolding change_instances update_where
  change_instances-row =
      update_where-filter (has_id id) p f t.instances (λ r. ap (λ s. s == id) (keeps r))
      ∙ ap (update_where p f) only

  pub change_instances-won : (change_instances (λ r. r.id == id && p r) f t).0 ≡ p row
  unfolding change_instances any
  change_instances-won = any-filter (has_id id) p t.instances ∙ (ap (any p) only ∙ ground arith)
