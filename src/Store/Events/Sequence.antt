-- ===== src/Store/Events/Sequence.antt =====
-- The numbers of a log: an appended event comes last.
use fusions.Shared.{
  ◌+◌, ◌≤◌, String, Option, some, List, [], ◌∷◌, ◌++◌, true, ◌≡◌, refl, arith, filter, map, All, ap,
  ◌∙◌, ◌==◌, eq_refl,
}
use mathlib.Core.List.{map-append}
use fusions.Shared.Int.{ℤ, pos, pos_part, neg_part, ◌≤ℤ◌, leb_ℤ, ◌+ℤ◌}
use fusions.Store.Rows.{EventRow, event_record}
use fusions.Store.Tables.{Tables}
use fusions.Store.Sql.{sort_by, insert_by}
use fusions.Store.Sql.Laws.{filter-append}
use fusions.Store.Events.{
  or_number, max_with, greatest_seq, next_seq, of_log, before, load_events, append_event, new_event,
}

-- `a < b`
infix 50 ◌<ℤ◌
abbrev pub ◌<ℤ◌ : ℤ → ℤ → Type 0
a <ℤ b = pos_part a + neg_part b + 1 ≤ pos_part b + neg_part a

+ℤ_parts :
    (a b : ℤ)
    → pos_part (a +ℤ b) + neg_part a + neg_part b ≡ neg_part (a +ℤ b) + pos_part a + pos_part b
unfolding ◌+ℤ◌
+ℤ_parts a b = ground arith

module _ {Time J : Type 0} where
  -- Every number of a log is below the next.
  abbrev Below : ℤ → List (EventRow Time J) → Type 0
  Below n rs = All (λ r. r.seq <ℤ n) rs

  Below-mono : (a b : ℤ) (rs : List (EventRow Time J)) → a ≤ℤ b → Below a rs → Below b rs
  Below-mono a b [] h w = tt
  Below-mono a b (r ∷ rs) h w = (omega (arith, w.0), Below-mono a b rs h w.1)

  Below-cons :
      (r : EventRow Time J) (rs : List (EventRow Time J)) (m : ℤ)
      → Below (m +ℤ pos 1) rs
      → Below (max_with r.seq (some m) +ℤ pos 1) (r ∷ rs)
  unfolding max_with
  Below-cons r rs m w =
      let top = max_with r.seq (some m) in
      let own : r.seq ≤ℤ top = ground arith in
      let low : m ≤ℤ top = ground arith in
      (
        omega (arith, +ℤ_parts top (pos 1), own),
        Below-mono (m +ℤ pos 1) (top +ℤ pos 1) rs
            (omega (arith, +ℤ_parts m (pos 1), +ℤ_parts top (pos 1), low)) w,
      )

  greatest_seq-Below :
      (rs : List (EventRow Time J)) → Below (or_number (pos 0) (greatest_seq rs) +ℤ pos 1) rs
  unfolding greatest_seq
  greatest_seq-Below [] = tt
  greatest_seq-Below (r ∷ []) = unfold max_with in (omega (arith, +ℤ_parts r.seq (pos 1)), tt)
  greatest_seq-Below (r ∷ (s ∷ rs)) =
      Below-cons r (s ∷ rs) (max_with s.seq (greatest_seq rs)) (greatest_seq-Below (s ∷ rs))

  insert_by-last :
      (rs : List (EventRow Time J)) (r e : EventRow Time J)
      → leb_ℤ r.seq e.seq ≡ true
      → insert_by before r (rs ++ e ∷ []) ≡ insert_by before r rs ++ e ∷ []
  unfolding insert_by
  insert_by-last [] r e h = ground arith
  insert_by-last (s ∷ rs) r e h = ground (arith, insert_by-last rs r e h)

  sort_by-last :
      (rs : List (EventRow Time J)) (e : EventRow Time J)
      → Below e.seq rs
      → sort_by before (rs ++ e ∷ []) ≡ sort_by before rs ++ e ∷ []
  unfolding sort_by insert_by
  sort_by-last [] e h = refl
  sort_by-last (r ∷ rs) e h =
      ap (insert_by before r) (sort_by-last rs e h.1)
      ∙ insert_by-last (sort_by before rs) r e (ground (arith, h.0))

  own_log :
      (id : String) (e : EventRow Time J)
      → (e.workflow_instance_id == id) ≡ true
      → filter (of_log id) (e ∷ []) ≡ e ∷ []
  unfolding filter
  own_log id e h = rw h

  -- An event appended with the next number of an instance's log is loaded last, after the events
  -- loaded before it.
  pub load_events-append :
      (tenant : ℤ) (facility id type : String) (payload : J) (key : Option String)
      (t : Tables Time J)
      → load_events id (append_event tenant facility id (next_seq id t) type payload key t)
        ≡ load_events id t
          ++ event_record (new_event tenant facility id (next_seq id t) type payload key t) ∷ []
  unfolding load_events append_event next_seq
  load_events-append tenant facility id type payload key t =
      let rs = filter (of_log id) t.events in
      let e = new_event tenant facility id (next_seq id t) type payload key t in
      ap (λ l. map event_record (sort_by before l)) (filter-append (of_log id) t.events (e ∷ []))
      ∙ (ap (λ l. map event_record (sort_by before (rs ++ l))) (own_log id e (eq_refl id))
          ∙ (ap (map event_record) (sort_by-last rs e (greatest_seq-Below rs))
              ∙ map-append event_record (sort_by before rs) (e ∷ [])))
