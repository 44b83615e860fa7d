-- ===== src/Json.antt =====
-- JSON values as `encoding/json` decodes them into `interface{}`, with the type assertions that the
-- program makes on them. A number is kept as its text, which the program does not read.
use fortsa.Base.{Bytes, Bool, Option, none, some, ◌==◌, if◌then◌else◌}

mutual
  pub data Json : Type 0 where
    null : Json
    boolean : Bool → Json
    number : Bytes → Json
    text : Bytes → Json
    array : Items → Json
    object : Fields → Json

  pub data Items : Type 0 where
    end : Items
    item : Json → Items → Items

  -- A decoded object; `nil` is the empty or nil map.
  pub data Fields : Type 0 where
    nil : Fields
    field : Bytes → Json → Fields → Fields

-- `m[k]`, and whether the key is there.
unfoldable pub get_field : Bytes → Fields → Option Json
get_field k nil = none
get_field k (field j v m) = if j == k then some v else get_field k m

abbrev as_text : Json → Option Bytes
as_text (text s) = some s
as_text _ = none

abbrev as_object : Json → Option Fields
as_object (object m) = some m
as_object _ = none

-- `v, ok := m[k].(string)`
unfoldable pub text_field : Bytes → Fields → Option Bytes
unfolding get_field
text_field k m = elim (get_field k m) [ none ↦ none | some v ↦ as_text v ]

-- `v, ok := m[k].(map[string]interface{})`
unfoldable pub object_field : Bytes → Fields → Option Fields
unfolding get_field
object_field k m = elim (get_field k m) [ none ↦ none | some v ↦ as_object v ]
