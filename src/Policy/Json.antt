-- ===== src/Policy/Json.antt =====
-- The values of policy keys: what `json.loads` of a policy row's text can be. Numbers are whole;
-- any other JSON value (an object, a fraction, a list of other things) is kept by its text.
use opc_stack.Base.{String, Bool, List}
use opc_stack.Base.Int.{ℤ}

pub data Value : Type 0 where
  null : Value
  bool : Bool → Value
  num : ℤ → Value
  text : String → Value
  list : List String → Value
  other : String → Value
