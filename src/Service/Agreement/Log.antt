-- ===== src/Service/Agreement/Log.antt =====
-- An appended fact is one more step of the replay, and what a payload holds is read back.
use mathlib.Core.List.{foldl-append}
use fusions.Shared.{String, Option, none, some, List, [], ◌∷◌, ◌≡◌, ap, ◌∙◌}
use fusions.Shared.Int.{ℤ}
use fusions.Core.Definition.{DefinitionSnapshot}
use fusions.Runtime.Replay.Activities.{pstr, pi32, and_then}
use fusions.Runtime.Replay.Fold.{fold_events, step, fresh}
use fusions.Shared.Int.{i32_of}
use fusions.Store.External.{External, IsLawful, field}
use fusions.Store.Rows.{event_record}
use fusions.Store.Tables.{Tables}
use fusions.Store.Events.{next_seq, append_event, new_event, load_events}
use fusions.Store.Events.Sequence.{load_events-append}
use fusions.Service.Agreement.{replayed}
use fusions.Service.Log.{text_or_null}

module _ {Time J : Type 0} (x : External Time J) where
  pub replayed-append :
      (id : String) (snapshot : DefinitionSnapshot) (tenant : ℤ) (facility type : String)
      (payload : J) (key : Option String) (t : Tables Time J)
      → replayed x id snapshot
          (append_event tenant facility id (next_seq id t) type payload key t).events
        ≡ step x.json snapshot
            (replayed x id snapshot t.events)
            (event_record (new_event tenant facility id (next_seq id t) type payload key t))
  unfolding load_events fold_events
  replayed-append id snapshot tenant facility type payload key t =
      ap (λ events. fold_events x.json snapshot events)
        (load_events-append tenant facility id type payload key t)
      ∙ foldl-append (step x.json snapshot) (fresh x.json) (load_events id t)
          (event_record (new_event tenant facility id (next_seq id t) type payload key t) ∷ [])

  module _ (laws : IsLawful x) where
    pub pstr-object :
        (fs : List (String × J)) (key : String)
        → pstr x.json (x.object_value fs) key ≡ and_then (field fs key) x.json.as_str
    unfolding pstr
    pstr-object fs key = rw (laws.get-object fs key)

    pub pi32-object :
        (fs : List (String × J)) (key : String)
        → pi32 x.json (x.object_value fs) key
          ≡ and_then (and_then (field fs key) x.json.as_i64) (λ n. some (i32_of n))
    unfolding pi32
    pi32-object fs key = rw (laws.get-object fs key)

    pub as_str-text : (o : Option String) → x.json.as_str (text_or_null x o) ≡ o
    as_str-text none = laws.as_str-null
    as_str-text (some s) = laws.as_str-string s
