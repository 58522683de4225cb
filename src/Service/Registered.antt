-- ===== src/Service/Registered.antt =====
-- What a registration in the registry of crates/hetuflow-service/src/ports.rs does to the look-ups.
use fusions.Shared.{String, none, some, List, ok, ◌==◌, ◌≡◌, arith, if◌then◌else◌}
use fusions.Service.Registry.{Handler, get, contains_key, register}

module _ {J : Type 0} where
  -- A registration that succeeds met no handler under its type, and afterwards a look-up of its type
  -- finds the new handler and any other look-up finds what it found before.
  pub register-get :
      (handler : Handler J) (handlers after : List (String × Handler J)) (key : String)
      → register handler handlers ≡ ok after
      → (get handlers handler.handler_type ≡ none)
        × (get after key ≡ (if handler.handler_type == key then some handler else get handlers key))
  unfolding register get contains_key
  register-get handler handlers after key h = ground arith
