-- ===== src/Json.antt =====
-- Values of JavaScript that the program reads by `typeof`, `Array.isArray` and property access:
-- src/report.ts, src/rpc-protocol.ts and src/tool-adapters.ts. A value is a tree; the numbers are
-- the engine's. The fields of an object stand in the order of `Object.entries`.
pub mod Sample
use pi_ptc_advanced.Common.Map
use pi_ptc_advanced.Common.{
  ◌&&◌, Text, ◌==◌, Result, Bool, true, false, List, [], ◌∷◌, Option, none, some, ℕ, ◌+◌, suc,
}

mutual
  pub data Value (N : Type 0) : Type 0 where
    undefined null : Value N
    boolean : Bool → Value N
    number : N → Value N
    string : Text → Value N
    array : Items N → Value N
    object : Fields N → Value N

  pub data Items (N : Type 0) : Type 0 where
    nil : Items N
    cons : Value N → Items N → Items N

  pub data Fields (N : Type 0) : Type 0 where
    end : Fields N
    field : Text → Value N → Fields N → Fields N

module _ {N : Type 0} where
  unfoldable pub elements : Items N → List (Value N)
  elements nil = []
  elements (cons v items) = v ∷ elements items

  unfoldable pub entries : Fields N → Map.Map (Value N)
  entries end = []
  entries (field k v fs) = (k, v) ∷ entries fs

  -- `{ ...entries }` and an array literal, from lists.
  unfoldable pub to_items : List (Value N) → Items N
  to_items [] = nil
  to_items (v ∷ vs) = cons v (to_items vs)

  unfoldable pub to_fields : Map.Map (Value N) → Fields N
  to_fields [] = end
  to_fields ((k, v) ∷ m) = field k v (to_fields m)

  abbrev pub is_record : Value N → Bool
  is_record (object fs) = true
  is_record v = false

  abbrev pub is_string : Value N → Bool
  is_string (string s) = true
  is_string v = false

  abbrev pub is_undefined : Value N → Bool
  is_undefined undefined = true
  is_undefined v = false

  abbrev pub is_number : Value N → Bool
  is_number (number n) = true
  is_number v = false

  abbrev pub as_string : Value N → Option Text
  as_string (string s) = some s
  as_string v = none

  abbrev pub as_number : Value N → Option N
  as_number (number n) = some n
  as_number v = none

  abbrev pub as_record : Value N → Option (Fields N)
  as_record (object fs) = some fs
  as_record v = none

  unfoldable pub own : Fields N → Text → Option (Value N)
  own end k = none
  own (field j v fs) k = elim (j == k) [ true ↦ some v | false ↦ own fs k ]

  -- `value.k` on an object, for a name that `Object.prototype` does not have.
  unfoldable pub prop : Fields N → Text → Value N
  prop end k = undefined
  prop (field j v fs) k = elim (j == k) [ true ↦ v | false ↦ prop fs k ]

-- What one call of a member of `Object.prototype` does.
pub data Inherited : Type 0 where
  returns_a_value returns_undefined : Inherited
  throws : Text → Inherited

-- The JavaScript engine: its numbers, its JSON and the members of `Object.prototype`.
pub record Engine (N : Type 0) : Type 0 where
  pub is_finite : N → Bool
  pub is_one : N → Bool
  pub of_ℕ : ℕ → N
  pub number_to_string : N → Text
  pub parse_json : Text → Result (Value N)
  pub stringify : Value N → Result Text
  -- `JSON.stringify` of a tree of JSON values, which has no cycle and no BigInt to throw at.
  pub json_text : Value N → Text
  pub value_to_string : Value N → Text
  -- The member of `Object.prototype` of that name, as what its call does on the object that it is
  -- called on and given.
  pub object_prototype : Text → Option (Fields N → Inherited)
  -- `String` of a member of `Object.prototype`.
  pub inherited_text : Text → Option Text
  -- The stack of an error that `JSON.stringify` throws.
  pub stack_of : Text → Option Text
