-- ===== src/Responses/Chat.antt =====
-- The whole Chat Completions request of src/proxy/responses.rs: messages, tools and options.
use router.Prelude.{
  Bool, true, false, List, [], ◌∷◌, ◌++◌, map, Option, none, some, ◌>>=◌, if◌then◌else◌, unwrap_or,
  is_empty, flatten, map_or, ◌⊎◌, inl, inr,
}
use router.Prelude.Text.{Text, codes, text_Eq}
use router.Prelude.Map.{Map, insert}
use router.Json.{
  Value, null, bool, str, lookup, index, object, array, as_str, as_bool, as_array, is_text,
}
use router.Reasoning.{effort_from_responses}
use router.Responses.Names.{chat_name}
use router.Responses.Request.{push_input}

-- The function tools, each with the namespace it stands in.
unfoldable pub member_tools : Option Text → List Value → List (Option Text × Value)
member_tools ns [] = []
member_tools ns (inner ∷ rest) =
    let more = member_tools ns rest in
    if is_text (index inner (codes "type")) (codes "function") then (ns, inner) ∷ more else more

unfoldable pub tools_of : Value → List (Option Text × Value)
tools_of t =
    if is_text (index t (codes "type")) (codes "function")
    then (none, t) ∷ []
    else if is_text (index t (codes "type")) (codes "namespace")
    then member_tools (as_str (index t (codes "name")))
        (flatten (as_array (index t (codes "tools"))))
    else []

unfoldable pub flat_tools : List Value → List (Option Text × Value)
flat_tools [] = []
flat_tools (t ∷ ts) = tools_of t ++ flat_tools ts

unfoldable pub no_parameters : Value
no_parameters = object ((codes "type", str (codes "object")) ∷ (codes "properties", object []) ∷ [])

unfoldable pub chat_tool : Option Text × Value → Value
chat_tool (ns, t) = object (
    (codes "type", str (codes "function"))
    ∷ (
      codes "function",
      object (
          (codes "name", chat_name ns (as_str (index t (codes "name"))) (index t (codes "name")))
          ∷ (codes "description", unwrap_or (lookup t (codes "description")) null)
          ∷ (codes "parameters", unwrap_or (lookup t (codes "parameters")) no_parameters)
          ∷ []),
    )
    ∷ [])

unfoldable pub with_optional : Map Text Value → Text → Option Value → Map Text Value
with_optional out k none = out
with_optional out k (some v) = insert out k v

unfoldable pub chosen_function : Value → Value
chosen_function v = object (
    (codes "type", str (codes "function"))
    ∷ (
      codes "function",
      object (
          (
            codes "name",
            chat_name (as_str (index v (codes "namespace"))) (as_str (index v (codes "name")))
                (index v (codes "name")),
          )
          ∷ []),
    )
    ∷ [])

unfoldable pub tool_choice : Option Value → Option Value
tool_choice none = none
tool_choice (some (str s)) = some (str s)
tool_choice (some v) =
    if is_text (index v (codes "type")) (codes "function") then some (chosen_function v) else none

unfoldable pub with_tools : Map Text Value → Value → List Value → Map Text Value
with_tools out req tools =
    let chat_tools = map chat_tool (flat_tools tools) in
    if is_empty chat_tools
    then out
    else with_optional
        (with_optional (insert out (codes "tools") (array chat_tools)) (codes "tool_choice")
          (tool_choice (lookup req (codes "tool_choice"))))
        (codes "parallel_tool_calls") (lookup req (codes "parallel_tool_calls"))

unfoldable pub with_stream : Map Text Value → Bool → Map Text Value
with_stream out stream =
    if stream
    then insert (insert out (codes "stream") (bool true)) (codes "stream_options")
        (object ((codes "include_usage", bool true) ∷ []))
    else out

unfoldable pub only_text : Option Value → Option Value
only_text v = v >>= λ v. as_str v >>= λ s. some (str s)

unfoldable pub with_options : Map Text Value → Value → Map Text Value
with_options out req =
    let out = with_optional out (codes "max_tokens") (lookup req (codes "max_output_tokens")) in
    let out = with_optional out (codes "temperature") (lookup req (codes "temperature")) in
    let out = with_optional out (codes "top_p") (lookup req (codes "top_p")) in
    let out =
      with_optional out (codes "prompt_cache_key")
        (only_text (lookup req (codes "prompt_cache_key"))) in
    with_optional out (codes "reasoning_effort") (effort_from_responses req >>= λ e. some (str e))

unfoldable pub system_message : Text → List Value
system_message ins =
    if is_empty ins
    then []
    else object ((codes "role", str (codes "system")) ∷ (codes "content", str ins) ∷ []) ∷ []

unfoldable pub instructions : Value → List Value
instructions req = map_or [] system_message (lookup req (codes "instructions") >>= λ i. as_str i)

unfoldable pub chat_body : Value → Text → List Value → Value
chat_body req model messages =
    let out = (codes "model", str model) ∷ (codes "messages", array messages) ∷ [] in
    let stream = unwrap_or (lookup req (codes "stream") >>= λ s. as_bool s) false in
    let out = with_stream out stream in
    let tools = flatten (lookup req (codes "tools") >>= λ t. as_array t) in
    object (with_options (with_tools out req tools) req)

-- The request, or the message of the refusal. `print` is `Value::to_string`.
unfoldable pub request_to_chat : (Value → Text) → Value → Text ⊎ Value
request_to_chat print req = elim (lookup req (codes "model") >>= λ m. as_str m) [
  | none ↦ inl (codes "missing 'model' field")
  | some model ↦ elim (push_input print (instructions req) (lookup req (codes "input"))) [
    | none ↦ inl (codes "missing 'input' field")
    | some messages ↦ inr (chat_body req model messages)
  ]
]
