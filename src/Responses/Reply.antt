-- ===== src/Responses/Reply.antt =====
-- Buffered replies of src/proxy/responses.rs, and the ids that it draws.
use router.Prelude.{
  ℕ, ◌+◌, Bool, List, [], ◌∷◌, ◌++◌, none, some, if◌then◌else◌, unwrap_or, is_empty, flatten,
}
use router.Prelude.Int.{pos, add_i64}
use router.Prelude.Text.{Text, codes}
use router.Json.{
  Value, null, num, str, index, elem_at, object, array, as_str, as_i64, as_array, is_text,
}
use router.Responses.Names.{NamespaceMap, with_namespace}

unfoldable pub usage_of : Value → Value
usage_of chat =
    let u = index chat (codes "usage") in
    let i = unwrap_or (as_i64 (index u (codes "prompt_tokens"))) (pos 0) in
    let o = unwrap_or (as_i64 (index u (codes "completion_tokens"))) (pos 0) in
    let total = unwrap_or (as_i64 (index u (codes "total_tokens"))) (add_i64 i o) in
    object (
      (codes "input_tokens", num i)
      ∷ (codes "output_tokens", num o)
      ∷ (codes "total_tokens", num total)
      ∷ [])

unfoldable pub output_part : Text → Value
output_part text = object (
    (codes "type", str (codes "output_text"))
    ∷ (codes "text", str text)
    ∷ (codes "annotations", array [])
    ∷ [])

unfoldable pub message_item : Text → Text → List Value → Value
message_item id status content = object (
    (codes "type", str (codes "message"))
    ∷ (codes "id", str id)
    ∷ (codes "status", str status)
    ∷ (codes "role", str (codes "assistant"))
    ∷ (codes "content", array content)
    ∷ [])

unfoldable pub call_item : Text → Text → Text → Value → Text → Value
call_item id status call_id name arguments = object (
    (codes "type", str (codes "function_call"))
    ∷ (codes "id", str id)
    ∷ (codes "status", str status)
    ∷ (codes "call_id", str call_id)
    ∷ (codes "name", name)
    ∷ (codes "arguments", str arguments)
    ∷ [])

unfoldable pub incomplete_details : Bool → Value
incomplete_details truncated =
    if truncated then object ((codes "reason", str (codes "max_output_tokens")) ∷ []) else null

unfoldable pub response_value : Text → ℕ → Text → Bool → Text → List Value → Value → Value
response_value id created_at status truncated model output usage = object (
    (codes "id", str id)
    ∷ (codes "object", str (codes "response"))
    ∷ (codes "created_at", num (pos created_at))
    ∷ (codes "status", str status)
    ∷ (codes "incomplete_details", incomplete_details truncated)
    ∷ (codes "error", null)
    ∷ (codes "model", str model)
    ∷ (codes "output", array output)
    ∷ (codes "usage", usage)
    ∷ [])

-- `uuid` gives the text of the n-th random id that is drawn.
module _ (uuid : ℕ → Text) where
  unfoldable pub new_id : Text → ℕ → Text
  new_id prefix drawn = prefix ++ codes "_" ++ uuid drawn

  -- One tool call, then all of them, each with the ids it draws.
  unfoldable reply_call : NamespaceMap → ℕ → Value → Value × ℕ
  reply_call ns drawn c =
      let name = index (index c (codes "function")) (codes "name") in
      let arguments =
        unwrap_or (as_str (index (index c (codes "function")) (codes "arguments"))) (codes "{}") in
      elim (as_str (index c (codes "id"))) [
        | some id ↦ (
          with_namespace
              (call_item (new_id (codes "fc") drawn) (codes "completed") id name arguments) ns,
          drawn + 1,
        )
        | none ↦ (
          with_namespace
              (call_item (new_id (codes "fc") (drawn + 1)) (codes "completed")
                (new_id (codes "call") drawn) name arguments)
              ns,
          drawn + 2,
        )
      ]

  unfoldable reply_calls : NamespaceMap → ℕ → List Value → List Value × ℕ
  reply_calls ns drawn [] = ([], drawn)
  reply_calls ns drawn (c ∷ cs) =
      let (item, drawn) = reply_call ns drawn c in
      let (items, drawn) = reply_calls ns drawn cs in (item ∷ items, drawn)

  unfoldable reply_text : ℕ → Text → List Value × ℕ
  reply_text drawn text = if is_empty text then ([], drawn) else (
    message_item (new_id (codes "msg") drawn) (codes "completed") (output_part text ∷ []) ∷ [],
    drawn + 1,
  )

  -- `now` is the time in seconds.
  unfoldable chat_to_response : ℕ → ℕ → Value → Text → NamespaceMap → Value
  chat_to_response now drawn chat model ns =
      let choice = elem_at (index chat (codes "choices")) 0 in
      let msg = index choice (codes "message") in
      let text = unwrap_or (as_str (index msg (codes "content"))) [] in
      let (messages, drawn) = reply_text drawn text in
      let (calls, drawn) =
        reply_calls ns drawn (flatten (as_array (index msg (codes "tool_calls")))) in
      let truncated = is_text (index choice (codes "finish_reason")) (codes "length") in
      response_value (new_id (codes "resp") drawn) now
        (if truncated then codes "incomplete" else codes "completed") truncated
        (unwrap_or (as_str (index chat (codes "model"))) model) (messages ++ calls) (usage_of chat)
