-- ===== src/Json/Laws.antt =====
-- Lookups in changed objects.
use router.Prelude.{true, List, [], ◌∷◌, none, some, ◌≡◌, refl, if◌then◌else◌, ◌==◌, arith}
use router.Prelude.Text.{Text, text_Eq}
use router.Prelude.Map.{Map, get, insert, remove, get-insert, get-remove}
use router.Json.{
  Value, null, bool, num, other_num, str, arr, obj, elements, items, array, as_array, entries,
  fields, object, lookup, set, delete, is_object,
}

entries-fields : (m : Map Text Value) → entries (fields m) ≡ m
unfolding entries fields
entries-fields [] = refl
entries-fields ((k, v) ∷ m) = rw (entries-fields m)

elements-items : (vs : List Value) → elements (items vs) ≡ vs
unfolding elements items
elements-items [] = refl
elements-items (v ∷ vs) = rw (elements-items vs)

pub as_array-array : (vs : List Value) → as_array (array vs) ≡ some vs
unfolding as_array array
as_array-array vs = rw (elements-items vs)

lookup-object : (m : Map Text Value) (k : Text) → lookup (object m) k ≡ get m k
unfolding lookup object
lookup-object m k = rw (entries-fields m)

pub is_object-set : (v : Value) (k : Text) (w : Value) → is_object (set v k w) ≡ is_object v
unfolding set
is_object-set v k w = ground arith

is_object-delete : (v : Value) (k : Text) → is_object (delete v k) ≡ is_object v
unfolding delete
is_object-delete v k = ground arith

pub lookup-set :
    (v : Value) (k j : Text) (w : Value)
    → is_object v ≡ true
    → lookup (set v k w) j ≡ (if k == j then some w else lookup v j)
unfolding lookup set
lookup-set (obj fs) k j w h =
    rw (entries-fields (insert (entries fs) k w)) (get-insert (entries fs) k j w)
lookup-set null k j w h = ground arith
lookup-set (bool b) k j w h = ground arith
lookup-set (num z) k j w h = ground arith
lookup-set (other_num s) k j w h = ground arith
lookup-set (str s) k j w h = ground arith
lookup-set (arr xs) k j w h = ground arith

pub lookup-delete :
    (v : Value) (k j : Text) → lookup (delete v k) j ≡ (if k == j then none else lookup v j)
unfolding lookup delete
lookup-delete (obj fs) k j =
    rw (entries-fields (remove (entries fs) k)) (get-remove (entries fs) k j)
lookup-delete null k j = ground arith
lookup-delete (bool b) k j = ground arith
lookup-delete (num z) k j = ground arith
lookup-delete (other_num s) k j = ground arith
lookup-delete (str s) k j = ground arith
lookup-delete (arr xs) k j = ground arith
