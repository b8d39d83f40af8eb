-- ===== src/Auth/Json.antt =====
-- A value that `JSON.parse` or the server may give: `unknown` in the source. A number stands for its
-- bits, since the code never computes with it.
use geoduels.Base.{
  ℕ, String, Bool, true, false, Option, none, some, List, [], ◌∷◌, if◌then◌else◌, ◌==◌, string_eq,
}

mutual
  pub data Json : Type 0 where
    null : Json
    bool : Bool → Json
    num : ℕ → Json
    text : String → Json
    array : Items → Json
    object : Fields → Json

  pub data Items : Type 0 where
    nil : Items
    cons : Json → Items → Items

  pub data Fields : Type 0 where
    end : Fields
    field : String → Json → Fields → Fields

-- `raw[key]`, `none` where it is `undefined`; of two fields with one key the parser keeps the later.
unfoldable pub later : Option Json → Option Json → Option Json
later none o = o
later (some v) o = some v

unfoldable pub get_field : String → Fields → Option Json
unfolding later
get_field k end = none
get_field k (field j v fs) = later (get_field k fs) (if j == k then some v else none)

-- The field of a value that is an object to `typeof`; an array has none of the names that are read.
unfoldable pub get : String → Json → Option Json
unfolding get_field
get k (object fs) = get_field k fs
get k v = none

-- `!!value && typeof value === "object"`.
unfoldable pub is_object : Json → Bool
is_object (array vs) = true
is_object (object fs) = true
is_object v = false

-- The value where it is of a type, and else `none`.
unfoldable pub as_text : Option Json → Option String
as_text (some (text s)) = some s
as_text o = none

unfoldable pub as_num : Option Json → Option ℕ
as_num (some (num n)) = some n
as_num o = none

unfoldable pub as_bool : Option Json → Option Bool
as_bool (some (bool b)) = some b
as_bool o = none

unfoldable pub list_of : Items → List Json
list_of nil = []
list_of (cons v vs) = v ∷ list_of vs

-- `Array.isArray(value)`, with the items.
unfoldable pub as_array : Option Json → Option (List Json)
unfolding list_of
as_array (some (array vs)) = some (list_of vs)
as_array o = none
