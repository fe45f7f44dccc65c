-- ===== src/Responses/Request.antt =====
-- Requests of src/proxy/responses.rs, brought into the form of Chat Completions.
use router.Prelude.{
  Bool, true, ◌&&◌, List, [], ◌∷◌, ◌++◌, Option, none, some, ◌>>=◌, if◌then◌else◌, unwrap_or,
  or_else, filter_map, flatten,
}
use router.Prelude.Text.{Text, codes, text_eq, join}
use router.Json.{
  Value, null, str, arr, lookup, index, set, object, array, as_str, as_array, is_text, elements,
}
use router.Responses.Names.{chat_name}

-- `parts.iter().filter_map(text).collect().join("")`.
unfoldable pub joined_text : List Value → Text
joined_text parts = join [] (filter_map (λ p. lookup p (codes "text") >>= λ t. as_str t) parts)

unfoldable pub text_of_parts : Value → Text
text_of_parts (str s) = s
text_of_parts (arr parts) = joined_text (elements parts)
text_of_parts _ = []

unfoldable pub image_part : Value → Value
image_part p =
    let url = unwrap_or (lookup p (codes "image_url")) null in
    object (
      (codes "type", str (codes "image_url"))
      ∷ (
        codes "image_url",
        elim (as_str url) [ some s ↦ object ((codes "url", str s) ∷ []) | none ↦ url ],
      )
      ∷ [])

unfoldable pub chat_part : Value → Option Value
chat_part p =
    if is_text (unwrap_or (lookup p (codes "type")) null) (codes "input_image")
    then some (image_part p)
    else (lookup p (codes "text") >>= λ t. as_str t >>= λ t.
        some (object ((codes "type", str (codes "text")) ∷ (codes "text", str t) ∷ [])))

unfoldable pub all_text : List Value → Bool
all_text [] = true
all_text (p ∷ ps) = is_text (index p (codes "type")) (codes "text") && all_text ps

-- Parts that are all text become one text.
unfoldable pub content_of_parts : List Value → Value
content_of_parts out =
    if all_text out
    then str (join [] (filter_map (λ p. as_str (index p (codes "text"))) out))
    else array out

unfoldable pub chat_content : Value → Value
chat_content (arr parts) = content_of_parts (filter_map chat_part (elements parts))
chat_content content = str (text_of_parts content)

-- A tool call is added to a message of the assistant.
unfoldable pub with_call : Value → Value → Value
with_call last call =
    let calls = flatten (lookup last (codes "tool_calls") >>= λ t. as_array t) in
    set last (codes "tool_calls") (array (calls ++ call ∷ []))

unfoldable pub calling : Value → Value
calling call = object (
    (codes "role", str (codes "assistant"))
    ∷ (codes "content", null)
    ∷ (codes "tool_calls", array (call ∷ []))
    ∷ [])

unfoldable pub push_tool_call : List Value → Value → List Value
push_tool_call [] call = calling call ∷ []
push_tool_call (last ∷ []) call =
    if is_text (index last (codes "role")) (codes "assistant")
    then with_call last call ∷ []
    else last ∷ calling call ∷ []
push_tool_call (m ∷ n ∷ ms) call = m ∷ push_tool_call (n ∷ ms) call

-- A `function_call` item as a tool call.
unfoldable pub call_of : Value → Value
call_of item =
    let call_id =
      unwrap_or
        (or_else (lookup item (codes "call_id")) (lookup item (codes "id")) >>= λ v. as_str v)
        (codes "call_0") in
    let name =
      chat_name (as_str (index item (codes "namespace"))) (as_str (index item (codes "name")))
        (index item (codes "name")) in
    let arguments = unwrap_or (lookup item (codes "arguments")) (str (codes "{}")) in
    object (
      (codes "id", str call_id)
      ∷ (codes "type", str (codes "function"))
      ∷ (codes "function", object ((codes "name", name) ∷ (codes "arguments", arguments) ∷ []))
      ∷ [])

-- A `message` item.
unfoldable pub message_of : Value → Value
message_of item =
    let given = unwrap_or (lookup item (codes "role") >>= λ r. as_str r) (codes "user") in
    let role = if text_eq given (codes "developer") then codes "system" else given in
    let content = unwrap_or (lookup item (codes "content")) null in
    object (
      (codes "role", str role)
      ∷ (
        codes "content",
        if text_eq role (codes "assistant")
            then str (text_of_parts content)
            else chat_content content,
      )
      ∷ [])

-- `print` is `Value::to_string`.
module _ (print : Value → Text) where
  unfoldable pub output_text : Option Value → Text
  output_text none = []
  output_text (some (str s)) = s
  output_text (some (arr vs)) = text_of_parts (arr vs)
  output_text (some v) = print v

  -- A `function_call_output` item.
  unfoldable pub output_of : Value → Value
  output_of item = object (
      (codes "role", str (codes "tool"))
      ∷ (codes "tool_call_id", unwrap_or (lookup item (codes "call_id")) null)
      ∷ (codes "content", str (output_text (lookup item (codes "output"))))
      ∷ [])

  -- The messages behind one more item of the input.
  unfoldable pub push_kind : List Value → Value → Option Text → List Value
  push_kind messages item none = messages ++ message_of item ∷ []
  push_kind messages item (some kind) =
      if text_eq kind (codes "function_call")
      then push_tool_call messages (call_of item)
      else if text_eq kind (codes "function_call_output")
      then messages ++ output_of item ∷ []
      else if text_eq kind (codes "message")
      then messages ++ message_of item ∷ []
      else messages

  unfoldable pub push_items : List Value → List Value → List Value
  push_items messages [] = messages
  push_items messages (item ∷ rest) =
      push_items (push_kind messages item (lookup item (codes "type") >>= λ t. as_str t)) rest

  unfoldable pub push_input : List Value → Option Value → Option (List Value)
  push_input messages (some (str s)) =
      some (
        messages
        ++ object ((codes "role", str (codes "user")) ∷ (codes "content", str s) ∷ []) ∷ [])
  push_input messages (some (arr items)) = some (push_items messages (elements items))
  push_input messages _ = none
