-- ===== src/Core/NodeKind.antt =====
-- `NodeKind` of crates/hetuflow-core/src/lib.rs.
use fusions.Shared.{Bool, true, false}

pub data NodeKind : Type 0 where
  start approval notification end condition parallel timer event_wait parallel_split : NodeKind
  parallel_join assignment merge for_each sub_workflow : NodeKind

-- `kind() == NodeKind::Start`, and so on.
abbrev pub is_start : NodeKind → Bool
is_start start = true
is_start _ = false

abbrev pub is_end : NodeKind → Bool
is_end end = true
is_end _ = false

abbrev pub is_approval : NodeKind → Bool
is_approval approval = true
is_approval _ = false

abbrev pub is_parallel_split : NodeKind → Bool
is_parallel_split parallel_split = true
is_parallel_split _ = false

abbrev pub is_parallel_join : NodeKind → Bool
is_parallel_join parallel_join = true
is_parallel_join _ = false
