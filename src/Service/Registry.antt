-- ===== src/Service/Registry.antt =====
-- `CallbackRegistry` of crates/hetuflow-service/src/ports.rs, and the handlers that an application gives. A
-- `BTreeMap` is the list of its entries.
use fusions.Shared.{
  String, Option, none, some, List, [], ◌∷◌, Bool, true, false, ◌==◌, if◌then◌else◌, map, Result,
  ok, ◌>>◌, refuse,
}
use fusions.Core.Error.{FlowResult, validation, conflict, Message}
use fusions.Core.Payload.{CallbackError, IdempotencyKeyStrategy, BusinessCallbackPayload}

-- What the service calls of `BusinessCallbackHandler`.
pub record Handler (J : Type 0) : Type 0 where
  pub handler_type : String
  pub idempotency_key_strategy : IdempotencyKeyStrategy
  pub execute : BusinessCallbackPayload J → Result CallbackError (Unit {0})

module _ {J : Type 0} where
  unfoldable pub get : List (String × Handler J) → String → Option (Handler J)
  get [] key = none
  get ((k, h) ∷ rest) key = if k == key then some h else get rest key

  abbrev is_some : Option (Handler J) → Bool
  is_some none = false
  is_some (some h) = true

  unfoldable pub contains_key : List (String × Handler J) → String → Bool
  contains_key handlers key = is_some (get handlers key)

  unfoldable pub register :
      Handler J → List (String × Handler J) → FlowResult (List (String × Handler J))
  register handler handlers = do
    refuse (handler.handler_type == "") (validation Message.handler_type_empty)
    refuse (contains_key handlers handler.handler_type)
        (conflict (Message.handler_registered handler.handler_type))
    ok ((handler.handler_type, handler) ∷ handlers)

  unfoldable pub handler_types : List (String × Handler J) → List String
  handler_types handlers = map (λ e. e.0) handlers
