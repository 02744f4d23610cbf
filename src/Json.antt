-- ===== src/Json.antt =====
-- Decoded JSON, the `map[string]interface{}` and `interface{}` values of the source.
use mathlib.Core.Option.{get_or}
use tas_agent_builder.Base.{List, [], ◌∷◌, Bool, Str, Option, none, some, if◌then◌else◌, str_eq}
use tas_agent_builder.Floats.{Float}

mutual
  pub data Value : Type 0 where
    null : Value
    boolean : Bool → Value
    number : Float → Value
    text : Str → Value
    array : Items → Value
    object : Fields → Value

  pub data Items : Type 0 where
    nil : Items
    cons : Value → Items → Items

  pub data Fields : Type 0 where
    end : Fields
    field : Str → Value → Fields → Fields

-- `m[key]`, with the `ok` of a missing key.
unfoldable pub get_field : Str → Fields → Option Value
get_field k end = none
get_field k (field j v m) = let rest = get_field k m in if str_eq j k then some v else rest

-- `v.(string)` and `v.(bool)` in the form `x, ok := …`.
unfoldable pub as_text : Option Value → Option Str
as_text (some (text s)) = some s
as_text _ = none

unfoldable pub as_boolean : Option Value → Option Bool
as_boolean (some (boolean b)) = some b
as_boolean _ = none

-- `m[key] = value`
unfoldable pub set_field : Str → Value → Fields → Fields
set_field k v end = field k v end
set_field k v (field j w m) =
    let rest = set_field k v m in if str_eq j k then field j v m else field j w rest

-- `for k, v := range extra { m[k] = v }`
unfoldable pub merge_fields : Fields → Fields → Fields
merge_fields m end = m
merge_fields m (field k v extra) = merge_fields (set_field k v m) extra

-- A `[]string` as a JSON value.
text_items : List Str → Items
text_items [] = nil
text_items (s ∷ rest) = cons (text s) (text_items rest)

unfoldable pub text_array : List Str → Value
unfolding text_items
text_array ss = array (text_items ss)

-- `if s, ok := m[key].(string); ok { x = s }`, where `x` was the empty string.
unfoldable pub text_or_empty : Str → Option Fields → Str
text_or_empty key none = []
text_or_empty key (some m) = get_or (as_text (get_field key m)) []
