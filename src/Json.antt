-- ===== src/Json.antt =====
-- JSON values, as `json.loads` returns them and pydantic's `model_dump` gives them; and what Python
-- does with one: truth, `dict.get`, iteration, indexing. Used by app/routers/chat.py (the text of a
-- stream's piece) and scripts/smoke_provider.py (which reads it).
use Prim.Native.String
use ai_serving_backend.Prelude.{
  ℕ, String, Bool, true, false, not, Option, none, some, str_eq, ◌==◌, if◌then◌else◌, Result, ok,
  raise,
}

mutual
  pub data Json : Type 0 where
    null : Json
    bool : Bool → Json
    -- a whole number that is not negative
    num : ℕ → Json
    -- any other number: whether it is zero, and what `int` gives, or 0 for a negative number
    other_num : Bool → ℕ → Json
    text : String → Json
    array : Items → Json
    object : Members → Json

  pub data Items : Type 0 where
    no_items : Items
    item : Json → Items → Items

  -- a dictionary: `json.loads` keeps one entry for each key
  pub data Members : Type 0 where
    no_members : Members
    member : String → Json → Members → Members

-- bool(value)
unfoldable pub truthy : Json → Bool
truthy null = false
truthy (bool b) = b
truthy (num n) = not (n == 0)
truthy (other_num is_zero n) = not is_zero
truthy (text t) = not (str_eq t "")
truthy (array no_items) = false
truthy (array (item v vs)) = true
truthy (object no_members) = false
truthy (object (member k v ms)) = true

abbrev pub is_null : Json → Bool
is_null null = true
is_null (bool b) = false
is_null (num n) = false
is_null (other_num z n) = false
is_null (text t) = false
is_null (array vs) = false
is_null (object ms) = false

-- d.get(key), or none if the key is missing
unfoldable pub find : String → Members → Option Json
find key no_members = none
find key (member k v ms) = if str_eq k key then some v else find key ms

-- an exception: the name of its class, and its text
pub record PyError : Type 0 where
  pub class_name : String
  pub message : String

unfoldable pub py_error : {A : Type 0} → String → String → Result PyError A
py_error c m = raise (record { class_name = c; message = m })

unfoldable pub type_name : Json → String
type_name null = "NoneType"
type_name (bool b) = "bool"
type_name (num n) = "int"
type_name (other_num z n) = "float"
type_name (text t) = "str"
type_name (array vs) = "list"
type_name (object ms) = "dict"

-- 'T' object <what>
unfoldable pub complaint : Json → String → String
unfolding type_name
complaint v what = String.◌++◌ "'" (String.◌++◌ (type_name v) (String.◌++◌ "' object " what))

-- value.get(key)
unfoldable pub get : String → Json → Result PyError (Option Json)
unfolding find py_error complaint
get key (object ms) = ok (find key ms)
get key v = py_error "AttributeError" (complaint v "has no attribute 'get'")

abbrev chars : String → Items
chars String.[] = no_items
chars (String.◌∷◌ c s) = item (text (String.◌∷◌ c String.[])) (chars s)

abbrev keys : Members → Items
keys no_members = no_items
keys (member k v ms) = item (text k) (keys ms)

-- what `for x in value` goes through
unfoldable pub iterate : Json → Result PyError Items
unfolding py_error complaint
iterate (array vs) = ok vs
iterate (object ms) = ok (keys ms)
iterate (text t) = ok (chars t)
iterate v = py_error "TypeError" (complaint v "is not iterable")

abbrev found : String → Option Json → Result PyError Json
found key (some v) = ok v
found key none =
    raise (record { class_name = "KeyError"; message = String.◌++◌ "'" (String.◌++◌ key "'") })

-- value[key], for a key that is a text
unfoldable pub subscript : String → Json → Result PyError Json
unfolding find py_error complaint
subscript key (object ms) = found key (find key ms)
subscript key (array vs) = py_error "TypeError" "list indices must be integers or slices, not str"
subscript key (text t) = py_error "TypeError" "string indices must be integers, not 'str'"
subscript key v = py_error "TypeError" (complaint v "is not subscriptable")

abbrev first_item : Items → Result PyError Json
first_item no_items =
    raise (record { class_name = "IndexError"; message = "list index out of range" })
first_item (item v vs) = ok v

abbrev first_char : String → Result PyError Json
first_char String.[] =
    raise (record { class_name = "IndexError"; message = "string index out of range" })
first_char (String.◌∷◌ c s) = ok (text (String.◌∷◌ c String.[]))

-- value[0]
unfoldable pub first : Json → Result PyError Json
unfolding py_error complaint
first (array vs) = first_item vs
first (text t) = first_char t
first (object ms) = py_error "KeyError" "0"
first v = py_error "TypeError" (complaint v "is not subscriptable")
