-- ===== src/Json.antt =====
-- `serde_json::Value`, with the operations that the runtime makes on it. A number is kept as the
-- natural number that it stands for: the runtime's own code computes with none.
use gooselake.Base.{ℕ, String, ◌==◌, Bool, List, [], ◌∷◌, Option, none, some, if◌then◌else◌}

mutual
  pub data Value : Type 0 where
    null : Value
    bool : Bool → Value
    num : ℕ → Value
    str : String → Value
    arr : Values → Value
    obj : Fields → Value

  pub data Values : Type 0 where
    nil : Values
    cons : Value → Values → Values

  pub data Fields : Type 0 where
    end : Fields
    field : String → Value → Fields → Fields

-- `Vec<Value>` and its list of items.
abbrev pub of_list : List Value → Values
of_list [] = nil
of_list (v ∷ vs) = cons v (of_list vs)

abbrev pub to_list : Values → List Value
to_list nil = []
to_list (cons v vs) = v ∷ to_list vs

unfoldable pub as_str : Value → Option String
as_str (str s) = some s
as_str v = none

unfoldable pub as_array : Value → Option (List Value)
as_array (arr vs) = some (to_list vs)
as_array v = none

unfoldable pub lookup_field : String → Fields → Option Value
lookup_field k end = none
lookup_field k (field j v fs) = if j == k then some v else lookup_field k fs

-- `value.get(key)`.
unfoldable pub get_field : String → Value → Option Value
get_field k (obj fs) = lookup_field k fs
get_field k v = none
