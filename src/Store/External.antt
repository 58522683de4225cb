-- ===== src/Store/External.antt =====
-- What crates/hetuflow-sqlx and crates/hetuflow-service call of code that is not theirs: `serde_json` with
-- the derived (de)serialisers, `uuid`, `chrono`, the number syntax of the standard library, and what the
-- database makes up (ids, column defaults). A uuid is its canonical text.
use fusions.Shared.{ℕ, String, Option, none, some, List, [], ◌∷◌, Bool, ◌≡◌, ◌==◌, if◌then◌else◌}
use fusions.Shared.Int.{ℤ}
use fusions.Core.Definition.{DefinitionSnapshot}
use fusions.Core.Error.{FlowError}
use fusions.Core.Payload.{NotificationPayload, BusinessCallbackPayload}
use fusions.Service.Command.{TerminalCallback}
use fusions.Runtime.Replay.Model.{Json}

pub record External (Time J : Type 0) : Type 0 where
  pub json : Json J
  -- `json!`
  pub null_value : J
  pub string_value : String → J
  pub number_value : ℤ → J
  pub strings_value : List String → J
  pub object_value : List (String × J) → J
  pub is_null : J → Bool
  pub is_object : J → Bool
  -- `'{}'::jsonb` and `||`
  pub empty_object : J
  pub merge : J → J → J
  -- `to_value` and `from_value`
  pub snapshot_value : DefinitionSnapshot → Option J
  pub snapshot_of : J → Option DefinitionSnapshot
  pub notification_value : NotificationPayload → Option J
  pub notification_of : J → Option NotificationPayload
  pub callback_value : BusinessCallbackPayload J → Option J
  pub callback_of : J → Option (BusinessCallbackPayload J)
  pub terminal_value : TerminalCallback J → Option J
  pub terminal_of : J → Option (TerminalCallback J)
  -- `definition_hash`
  pub definition_hash : J → String
  -- `Uuid::parse_str`, `Uuid::nil` and the ids that the database makes, in their order
  pub uuid_of : String → Option String
  pub nil_uuid : String
  pub made_uuid : ℕ → String
  -- `str::parse::<i64>`
  pub i64_of : String → Option ℤ
  -- `trim().is_empty()`, and the text of an error
  pub is_blank : String → Bool
  pub error_text : FlowError → String
  -- `<=` and `<` of times, and `now() + n * interval '1 second'`
  pub le_time : Time → Time → Bool
  pub lt_time : Time → Time → Bool
  pub later : Time → ℤ → Time
  -- the column's default
  pub max_attempts : ℤ

-- The value under a key of a list of fields: the first, since a written key stands once.
unfoldable pub field {ℓ} : {A : Type ℓ} → List (String × A) → String → Option A
field [] key = none
field ((k, v) ∷ fs) key = if k == key then some v else field fs key

-- The documented behaviour that the theorems rely on.
pub record IsLawful {Time J : Type 0} (x : External Time J) : Type 0 where
  pub get-object :
      (fs : List (String × J)) (key : String) → x.json.get (x.object_value fs) key ≡ field fs key
  pub as_str-string : (s : String) → x.json.as_str (x.string_value s) ≡ some s
  pub as_str-null : x.json.as_str x.null_value ≡ none
  pub as_i64-number : (n : ℤ) → x.json.as_i64 (x.number_value n) ≡ some n
  pub snapshot_of-value :
      (s : DefinitionSnapshot) (v : J) → x.snapshot_value s ≡ some v → x.snapshot_of v ≡ some s
  pub uuid_of-made : (n : ℕ) → x.uuid_of (x.made_uuid n) ≡ some (x.made_uuid n)
  -- no two made ids are equal
  pub made_uuid-injective : (m n : ℕ) → x.made_uuid m ≡ x.made_uuid n → m ≡ n
  -- a parsed uuid is canonical
  pub uuid_of-canonical : (s u : String) → x.uuid_of s ≡ some u → x.uuid_of u ≡ some u
  pub i64_of-display : (n : ℤ) → x.i64_of (x.json.display n) ≡ some n
