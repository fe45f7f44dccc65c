-- ===== src/Responses/Calls.antt =====
-- The tool calls of a request that src/proxy/responses.rs passes on.
use router.Prelude.{
  ◌≡◌, refl, ap, ◌∙◌, sym, true, List, [], ◌∷◌, ◌++◌, Option, none, some, ◌>>=◌, if-intro,
  map_or-intro, flat_map, flat_map-snoc, append-nil, append_assoc, flatten, if◌then◌else◌, All,
  All-append, Bool-cases, inl, inr, is_empty,
}
use router.Prelude.Text.{Text, codes, text_eq, text_Eq}
use router.Prelude.Map.{get}
use router.Json.{
  Value, str, lookup, index, object, array, as_str, as_array, is_text, is_object, fields, entries,
}
use router.Json.Laws.{lookup-set, is_object-set, as_array-array}
use router.Responses.Request.{
  push_items, push_kind, push_tool_call, calling, with_call, call_of, message_of, output_of,
}
use router.Responses.Chat.{instructions, system_message}

-- The tool calls of one message, and of all.
abbrev pub calls_of : Value → List Value
calls_of m = flatten (lookup m (codes "tool_calls") >>= λ t. as_array t)

-- The tool call of one item.
abbrev kind_of : Value → Option Text
kind_of item = lookup item (codes "type") >>= λ t. as_str t

abbrev call_of_kind : Value → Option Text → List Value
call_of_kind item none = []
call_of_kind item (some kind) =
    if text_eq kind (codes "function_call") then call_of item ∷ [] else []

abbrev pub asked : Value → List Value
asked item = call_of_kind item (kind_of item)

IsMessage : Value → Type 0
IsMessage m = is_object m ≡ true

calls_of-with_call :
    (last call : Value)
    → is_object last ≡ true
    → calls_of (with_call last call) ≡ calls_of last ++ call ∷ []
unfolding with_call text_eq
calls_of-with_call last call o =
    let calls = calls_of last ++ call ∷ [] in
    rw (lookup-set last (codes "tool_calls") (codes "tool_calls") (array calls) o)
      (ap flatten (as_array-array calls))

calls_of-calling : (call : Value) → calls_of (calling call) ≡ call ∷ []
unfolding calling text_eq object fields lookup entries get
calls_of-calling call = ap flatten (as_array-array (call ∷ []))

push_tool_call-calls :
    (messages : List Value) (call : Value)
    → All IsMessage messages
    → flat_map calls_of (push_tool_call messages call) ≡ flat_map calls_of messages ++ call ∷ []
unfolding push_tool_call IsMessage
push_tool_call-calls [] call h = rw (calls_of-calling call) refl
push_tool_call-calls (m ∷ []) call (o, h) =
    if-intro (λ ms. flat_map calls_of ms ≡ calls_of m ++ [] ++ call ∷ [])
      (is_text (index m (codes "role")) (codes "assistant")) (with_call m call ∷ [])
      (m ∷ calling call ∷ [])
      (λ _.
        rw (calls_of-with_call m call o, append-nil (calls_of m))
          (append-nil (calls_of m ++ call ∷ [])))
      (λ _. rw (calls_of-calling call, append-nil (calls_of m)) refl)
push_tool_call-calls (m ∷ n ∷ ms) call (o, h) =
    rw (push_tool_call-calls (n ∷ ms) call h)
      (sym (append_assoc (calls_of m) (flat_map calls_of (n ∷ ms)) (call ∷ [])))

push_tool_call-IsMessage :
    (messages : List Value) (call : Value)
    → All IsMessage messages
    → All IsMessage (push_tool_call messages call)
unfolding push_tool_call IsMessage calling object with_call
push_tool_call-IsMessage [] call h = (refl, tt)
push_tool_call-IsMessage (m ∷ []) call (o, h) =
    if-intro (λ ms. All IsMessage ms) (is_text (index m (codes "role")) (codes "assistant"))
      (with_call m call ∷ []) (m ∷ calling call ∷ [])
      (λ _. (is_object-set m (codes "tool_calls") _ ∙ o, tt)) (λ _. (o, (refl, tt)))
push_tool_call-IsMessage (m ∷ n ∷ ms) call (o, h) = (o, push_tool_call-IsMessage (n ∷ ms) call h)

-- A message that calls no tool.
plain_message :
    (messages : List Value) (m : Value)
    → calls_of m ≡ []
    → flat_map calls_of (messages ++ m ∷ []) ≡ flat_map calls_of messages ++ []
plain_message messages m e = rw (flat_map-snoc calls_of messages m, e) refl

calls_of-message_of : (item : Value) → calls_of (message_of item) ≡ []
unfolding message_of lookup object fields entries get text_eq
calls_of-message_of item = refl

Pushes : List Value → List Value → List Value → Type 0
Pushes messages calls after =
    All IsMessage after × (flat_map calls_of after ≡ flat_map calls_of messages ++ calls)

pushed_message :
    (messages : List Value) (m : Value)
    → All IsMessage messages
    → IsMessage m
    → calls_of m ≡ []
    → Pushes messages [] (messages ++ m ∷ [])
unfolding Pushes
pushed_message messages m h o e =
    (All-append IsMessage messages (m ∷ []) h (o, tt), plain_message messages m e)

pushed_nothing : (messages : List Value) → All IsMessage messages → Pushes messages [] messages
unfolding Pushes
pushed_nothing messages h = (h, sym (append-nil (flat_map calls_of messages)))

instructions_lem :
    (req : Value) → All IsMessage (instructions req) × (flat_map calls_of (instructions req) ≡ [])
unfolding instructions system_message IsMessage lookup object fields entries get text_eq
instructions_lem req =
    let Fine : List Value → Type 0 = λ ms. All IsMessage ms × (flat_map calls_of ms ≡ []) in
    map_or-intro Fine [] system_message (lookup req (codes "instructions") >>= λ i. as_str i)
      (λ _. (tt, refl))
      (λ ins _.
        if-intro Fine (is_empty ins) []
          (object ((codes "role", str (codes "system")) ∷ (codes "content", str ins) ∷ []) ∷ [])
          (λ _. (tt, refl)) (λ _. ((refl, tt), refl)))

pushed_call :
    (messages : List Value) (call : Value)
    → All IsMessage messages
    → Pushes messages (call ∷ []) (push_tool_call messages call)
unfolding Pushes
pushed_call messages call h =
    (push_tool_call-IsMessage messages call h, push_tool_call-calls messages call h)

module _ (print : Value → Text) where
  calls_of-output_of : (item : Value) → calls_of (output_of print item) ≡ []
  unfolding output_of lookup object fields entries get text_eq
  calls_of-output_of item = refl

  push_kind-Pushes :
      (messages : List Value) (item : Value) (kind : Option Text)
      → All IsMessage messages
      → Pushes messages (call_of_kind item kind) (push_kind print messages item kind)
  unfolding push_kind IsMessage message_of output_of object
  push_kind-Pushes messages item none h =
      pushed_message messages (message_of item) h refl (calls_of-message_of item)
  push_kind-Pushes messages item (some kind) h =
      elim (Bool-cases (text_eq kind (codes "function_call"))) [
        | inl e ↦ rw (e, push_kind) (pushed_call messages (call_of item) h)
        | inr e ↦
            rw (e, push_kind)
              (if-intro (Pushes messages []) (text_eq kind (codes "function_call_output"))
                (messages ++ output_of print item ∷ [])
                (if text_eq kind (codes "message")
                  then messages ++ message_of item ∷ []
                  else messages)
                (λ _.
                  pushed_message messages (output_of print item) h refl (calls_of-output_of item))
                (λ _.
                  if-intro (Pushes messages []) (text_eq kind (codes "message"))
                    (messages ++ message_of item ∷ []) messages
                    (λ _.
                      pushed_message messages (message_of item) h refl (calls_of-message_of item))
                    (λ _. pushed_nothing messages h)))
      ]

  push_items-Pushes :
      (messages items : List Value)
      → All IsMessage messages
      → Pushes messages (flat_map asked items) (push_items print messages items)
  unfolding push_items Pushes
  push_items-Pushes messages [] h = pushed_nothing messages h
  push_items-Pushes messages (item ∷ items) h =
      let (o, e) = push_kind-Pushes messages item (kind_of item) h in
      let (os, es) = push_items-Pushes (push_kind print messages item (kind_of item)) items o in
      (
        os,
        es
            ∙ ap (λ c. c ++ flat_map asked items) e
            ∙ append_assoc (flat_map calls_of messages) (asked item) (flat_map asked items),
      )

  -- The messages of a request carry exactly the tool calls of its `function_call` items, in their
  -- order, however the calls are gathered in messages of the assistant.
  pub push_items-asked :
      (req : Value) (items : List Value)
      → flat_map calls_of (push_items print (instructions req) items) ≡ flat_map asked items
  unfolding Pushes
  push_items-asked req items =
      let (quiet, no_calls) = instructions_lem req in
      (push_items-Pushes (instructions req) items quiet).1
      ∙ ap (λ c. c ++ flat_map asked items) no_calls
