-- ===== src/Responses/Tests.antt =====
-- Runs of the request translation and of the buffered reply on concrete values.
use router.Prelude.{ℕ, ◌≡◌, refl, [], ◌∷◌, List, Option, none, some, ◌⊎◌, inl, inr, flat_map}
use router.Prelude.Text.{Text, codes}
use router.Json.{Value, num, str, object, array, index}
use router.Responses.Names.{namespaces_of, with_namespace}
use router.Responses.Request.{push_items}
use router.Responses.Chat.{instructions, request_to_chat}
use router.Responses.Replay.{upstream_name, with_namespace-upstream_name}
use router.Responses.Calls.{calls_of, asked, push_items-asked}

abbrev print : Value → Text
print v = []

abbrev tool : Value
tool = object ((codes "type", str (codes "function")) ∷ (codes "name", str (codes "b")) ∷ [])

abbrev group : Value
group = object (
    (codes "type", str (codes "namespace"))
    ∷ (codes "name", str (codes "a"))
    ∷ (codes "tools", array (tool ∷ []))
    ∷ [])

abbrev call : Value
call =
    object ((codes "type", str (codes "function_call")) ∷ (codes "name", str (codes "a__b")) ∷ [])

abbrev note : Value
note = object ((codes "role", str (codes "user")) ∷ (codes "content", str (codes "hi")) ∷ [])

abbrev request : Value
request = object (
    (codes "model", str (codes "m"))
    ∷ (codes "instructions", str (codes "be kind"))
    ∷ (codes "input", array (note ∷ call ∷ call ∷ []))
    ∷ (codes "tools", array (group ∷ []))
    ∷ [])

split : index (with_namespace call (namespaces_of request)) (codes "name") ≡ str (codes "b")
unfolding index with_namespace object router.Prelude.Text.text_eq namespaces_of
    router.Responses.Names.record_tools router.Json.as_array array
    router.Responses.Names.record_tool router.Responses.Names.record_functions
    router.Responses.Names.record_function router.Prelude.Map.insert
    router.Responses.Names.flat_name router.Responses.Names.split_name router.Json.set
split = refl

no_model : request_to_chat print note ≡ inl (codes "missing 'model' field")
unfolding request_to_chat router.Json.lookup object router.Prelude.Text.text_eq
no_model = refl

with_namespace-upstream_name_example :
    upstream_name (with_namespace call (namespaces_of request)) ≡ str (codes "a__b")
unfolding object index router.Prelude.Text.text_eq
with_namespace-upstream_name_example =
    with_namespace-upstream_name request call (codes "a__b") refl refl refl

push_items-asked_example :
    flat_map calls_of (push_items print (instructions request) (note ∷ call ∷ call ∷ []))
    ≡ flat_map asked (note ∷ call ∷ call ∷ [])
push_items-asked_example = push_items-asked print request (note ∷ call ∷ call ∷ [])
