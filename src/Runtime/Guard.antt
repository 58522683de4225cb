-- ===== src/Runtime/Guard.antt =====
-- crates/hetuflow-runtime/src/guard_eval.rs. The crates `cel` and `serde_json` are a parameter; an error
-- is the step that failed, without its text.
use fusions.Shared.{String, Bool, Option, none, some, List, Result, ok, err, ◌>>=◌}

-- What the source calls of `cel` and of `serde_json::Value`, whose values are `J`.
pub record Cel (J : Type 0) : Type 1 where
  pub Program : Type 0
  pub Context : Type 0
  pub Value : Type 0
  -- `Program::compile`
  pub compile : String → Option Program
  -- `Value::Object(Map::new())`
  pub empty_object : J
  -- `Context::default()` with the variable `context` bound
  pub add_variable : J → Option Context
  -- `Program::execute`
  pub execute : Program → Context → Option Value
  -- the `b` of `Value::Bool(b)`
  pub as_bool : Value → Option Bool
  -- `Value::json`
  pub json : Value → Option J
  -- the items of `Value::Array(items)`
  pub as_array : J → Option (List J)

pub data EvalError : Type 0 where
  parse_error bind_error eval_error not_bool json_error not_array : EvalError

-- `map_err` and `?`
abbrev pub or_error {ℓ} : {A : Type ℓ} → Option A → EvalError → Result EvalError A
or_error none e = err e
or_error (some a) e = ok a

module _ {J : Type 0} (cel : Cel J) where
  open cel use {
    Program, Context, Value, compile, empty_object, add_variable, execute, as_bool, json, as_array,
  }

  abbrev context_or_empty : Option J → J
  context_or_empty none = empty_object
  context_or_empty (some c) = c

  -- The common part of the two evaluations.
  abbrev run : String → Option J → Result EvalError Value
  run expression context = do
    program ← or_error (compile expression) parse_error
    ctx ← or_error (add_variable (context_or_empty context)) bind_error
    or_error (execute program ctx) eval_error

  unfoldable pub eval_guard : String → Option J → Result EvalError Bool
  eval_guard expression context = do
    result ← run expression context
    or_error (as_bool result) not_bool

  unfoldable pub validate_expression : String → Result EvalError (Unit {0})
  validate_expression expression = do program ← or_error (compile expression) parse_error; ok tt

  unfoldable pub eval_array : String → Option J → Result EvalError (List J)
  eval_array expression context = do
    result ← run expression context
    value ← or_error (json result) json_error
    or_error (as_array value) not_array
