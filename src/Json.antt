-- ===== src/Json.antt =====
-- `serde_json::Value`, with the accessors and the updates of the library that the program calls.
-- A number that is no `i64` is kept as its text. An object is a map from keys to values.
pub mod Laws
use router.Prelude.{
  ℕ, Bool, true, false, List, [], ◌∷◌, Option, none, some, ◌>>=◌, unwrap_or, get_elem?, any, not,
}
use router.Prelude.Int.{ℤ}
use router.Prelude.Text.{Text, text_Eq, text_eq}
use router.Prelude.Map.{Map, get, insert, remove}

mutual
  pub data Value : Type 0 where
    null : Value
    bool : Bool → Value
    num : ℤ → Value
    other_num : Text → Value
    str : Text → Value
    arr : Items → Value
    obj : Fields → Value

  pub data Items : Type 0 where
    end : Items
    item : Value → Items → Items

  pub data Fields : Type 0 where
    close : Fields
    field : Text → Value → Fields → Fields

unfoldable pub elements : Items → List Value
elements end = []
elements (item v xs) = v ∷ elements xs

unfoldable pub items : List Value → Items
items [] = end
items (v ∷ vs) = item v (items vs)

unfoldable pub entries : Fields → Map Text Value
entries close = []
entries (field k v fs) = (k, v) ∷ entries fs

unfoldable pub fields : Map Text Value → Fields
fields [] = close
fields ((k, v) ∷ m) = field k v (fields m)

-- The arrays and the objects of the `json!` macro.
unfoldable pub array : List Value → Value
unfolding items
array vs = arr (items vs)

unfoldable pub object : Map Text Value → Value
unfolding fields
object m = obj (fields m)

-- `Value::as_str`, `as_i64`, `as_bool`, `as_array`.
abbrev pub as_str : Value → Option Text
as_str (str s) = some s
as_str _ = none

abbrev pub as_i64 : Value → Option ℤ
as_i64 (num z) = some z
as_i64 _ = none

abbrev pub as_bool : Value → Option Bool
as_bool (bool b) = some b
as_bool _ = none

unfoldable pub as_array : Value → Option (List Value)
unfolding elements
as_array (arr xs) = some (elements xs)
as_array _ = none

abbrev pub is_null : Value → Bool
is_null null = true
is_null _ = false

abbrev pub is_object : Value → Bool
is_object (obj fs) = true
is_object _ = false

-- `value == "text"`.
abbrev pub is_text : Value → Text → Bool
is_text (str s) t = text_eq s t
is_text _ t = false

-- `Value::get` with a key, which only an object has.
unfoldable pub lookup : Value → Text → Option Value
unfolding entries get
lookup (obj fs) k = get (entries fs) k
lookup _ k = none

-- `value[key]` and `value[i]` where they are read: what is missing reads as `null`.
unfoldable pub index : Value → Text → Value
unfolding lookup
index v k = unwrap_or (lookup v k) null

unfoldable pub elem_at : Value → ℕ → Value
unfolding as_array
elem_at v i = unwrap_or (as_array v >>= λ vs. get_elem? vs i) null

-- `value[key] = new` and `Map::insert` on an object. On any other value than an object the program
-- never assigns.
unfoldable pub set : Value → Text → Value → Value
unfolding entries fields insert
set (obj fs) k new = obj (fields (insert (entries fs) k new))
set v k new = v

-- `Map::remove`.
unfoldable pub delete : Value → Text → Value
unfolding entries fields remove
delete (obj fs) k = obj (fields (remove (entries fs) k))
delete v k = v
