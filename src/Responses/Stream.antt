-- ===== src/Responses/Stream.antt =====
-- The stream translation of src/proxy/responses.rs: chunks of a chat completion come in, events of
-- the Responses protocol go out.
pub mod Induction
pub mod Numbers
pub mod Items
pub mod Texts
pub mod Shape
pub mod Tests
use router.Prelude.{
  ℕ, suc, ◌+◌, ◌-◌, ◌%◌, ◌^◌, Bool, true, false, List, [], ◌∷◌, ◌++◌, Option, none, some, ◌>>=◌,
  if◌then◌else◌, map_or, unwrap_or, is_empty, flatten, length, get_elem?, position, set_at,
  is_some_and,
}
use router.Prelude.Int.{ℤ, pos, int_eq}
use router.Prelude.Text.{Text, codes, text_eq}
use router.Json.{
  Value, null, num, str, index, set, elem_at, object, array, as_str, as_i64, as_array, is_text,
  is_object,
}
use router.Responses.Names.{NamespaceMap, with_namespace}
use router.Responses.Reply.{usage_of, output_part, message_item, call_item, response_value, new_id}

pub record OpenItem : Type 0 where
  pub output_index : ℕ
  pub item_id : Text
  pub tool_index : Option ℤ
  pub call_id : Text
  pub name : Text
  pub buf : Text

-- An item that has no content yet.
pub open_item : ℕ → Text → Option ℤ → Text → Text → OpenItem
open_item i id tool_index call_id name = record {
  output_index = i;
  item_id = id;
  tool_index = tool_index;
  call_id = call_id;
  name = name;
  buf = [];
}

pub record StreamState : Type 0 where
  pub seq : ℕ
  pub resp_id : Text
  pub model : Text
  pub created_at : ℕ
  pub started : Bool
  pub next_index : ℕ
  pub text : Option OpenItem
  pub calls : List OpenItem
  pub finished_items : List Value
  pub usage : Value
  pub truncated : Bool
  pub finished : Bool
  pub ns : NamespaceMap

-- The data of an event, by the name of the event (`response.` before each).
pub data Payload : Type 0 where
  created in_progress completed incomplete : Value → Payload
  output_item_added output_item_done : ℕ → Value → Payload
  content_part_added : Text → ℕ → Payload
  content_part_done : Text → ℕ → Value → Payload
  output_text_delta output_text_done : Text → ℕ → Text → Payload
  arguments_delta arguments_done : Text → ℕ → Text → Payload

pub event_name : Payload → Text
event_name (Payload.created r) = codes "response.created"
event_name (Payload.in_progress r) = codes "response.in_progress"
event_name (Payload.completed r) = codes "response.completed"
event_name (Payload.incomplete r) = codes "response.incomplete"
event_name (Payload.output_item_added i v) = codes "response.output_item.added"
event_name (Payload.output_item_done i v) = codes "response.output_item.done"
event_name (Payload.content_part_added id i) = codes "response.content_part.added"
event_name (Payload.content_part_done id i v) = codes "response.content_part.done"
event_name (Payload.output_text_delta id i t) = codes "response.output_text.delta"
event_name (Payload.output_text_done id i t) = codes "response.output_text.done"
event_name (Payload.arguments_delta id i t) = codes "response.function_call_arguments.delta"
event_name (Payload.arguments_done id i t) = codes "response.function_call_arguments.done"

abbrev number : ℕ → Value
number n = num (pos n)

pub item_data : ℕ → Value → Value
item_data i v = object ((codes "output_index", number i) ∷ (codes "item", v) ∷ [])

pub part_data : Text → ℕ → Text → Value → Value
part_data id i k v = object (
    (codes "item_id", str id)
    ∷ (codes "output_index", number i)
    ∷ (codes "content_index", number 0)
    ∷ (k, v)
    ∷ [])

pub call_data : Text → ℕ → Text → Value → Value
call_data id i k v =
    object ((codes "item_id", str id) ∷ (codes "output_index", number i) ∷ (k, v) ∷ [])

pub payload_data : Payload → Value
payload_data (Payload.created r) = object ((codes "response", r) ∷ [])
payload_data (Payload.in_progress r) = object ((codes "response", r) ∷ [])
payload_data (Payload.completed r) = object ((codes "response", r) ∷ [])
payload_data (Payload.incomplete r) = object ((codes "response", r) ∷ [])
payload_data (Payload.output_item_added i v) = item_data i v
payload_data (Payload.output_item_done i v) = item_data i v
payload_data (Payload.content_part_added id i) = part_data id i (codes "part") (output_part [])
payload_data (Payload.content_part_done id i v) = part_data id i (codes "part") v
payload_data (Payload.output_text_delta id i t) = part_data id i (codes "delta") (str t)
payload_data (Payload.output_text_done id i t) = part_data id i (codes "text") (str t)
payload_data (Payload.arguments_delta id i t) = call_data id i (codes "delta") (str t)
payload_data (Payload.arguments_done id i t) = call_data id i (codes "arguments") (str t)

pub record Event : Type 0 where
  pub payload : Payload
  pub sequence_number : ℕ

pub event_data : Event → Value
event_data e =
    set (set (payload_data e.payload) (codes "type") (str (event_name e.payload)))
      (codes "sequence_number") (number e.sequence_number)

-- An event as it is sent. `print` is the text of a JSON value.
unfoldable sse : (Value → Text) → Event → Text
sse print e =
    codes "event: "
    ++ event_name e.payload
    ++ codes "\ndata: "
    ++ print (event_data e)
    ++ codes "\n\n"

-- The state with the events sent so far and the number of ids drawn.
pub record Run : Type 0 where
  pub st : StreamState
  pub out : List Event
  pub drawn : ℕ

pub emit : Run → Payload → Run
emit run payload = record {
  st = record run.st { seq = (run.st.seq + 1) % 2 ^ 64 };
  out = run.out ++ record { payload = payload; sequence_number = run.st.seq } ∷ [];
  drawn = run.drawn;
}

-- `response_obj`: an incomplete response says why.
pub response_obj : StreamState → Text → List Value → Value
response_obj st status output =
    response_value st.resp_id st.created_at status (text_eq status (codes "incomplete")) st.model
      output st.usage

pub start : Run → Run
start run =
    let started = record run { st = record run.st { started = true } } in
    let r = response_obj started.st (codes "in_progress") [] in
    let sent = emit (emit started (Payload.created r)) (Payload.in_progress r) in
    if run.st.started then run else sent

pub close_item : Run → OpenItem → Run
close_item run t =
    let part = output_part t.buf in
    let item = message_item t.item_id (codes "completed") (part ∷ []) in
    let run = record run { st = record run.st { text = none } } in
    let run = emit run (Payload.output_text_done t.item_id t.output_index t.buf) in
    let run = emit run (Payload.content_part_done t.item_id t.output_index part) in
    let run = emit run (Payload.output_item_done t.output_index item) in
    record run { st = record run.st { finished_items = run.st.finished_items ++ item ∷ [] } }

pub close_text : Run → Run
close_text run = map_or run (close_item run) run.st.text

pub close_call : Run → OpenItem → Run
close_call run c =
    let item =
      with_namespace (call_item c.item_id (codes "completed") c.call_id (str c.name) c.buf)
        run.st.ns in
    let run = emit run (Payload.arguments_done c.item_id c.output_index c.buf) in
    let run = emit run (Payload.output_item_done c.output_index item) in
    record run { st = record run.st { finished_items = run.st.finished_items ++ item ∷ [] } }

pub close_calls : Run → List OpenItem → Run
close_calls run [] = run
close_calls run (c ∷ cs) = close_calls (close_call run c) cs

pub append_text : Run → Text → OpenItem → Run
append_text run txt t =
    emit (record run { st = record run.st { text = some (record t { buf = t.buf ++ txt }) } })
      (Payload.output_text_delta t.item_id t.output_index txt)

pub append_call : Run → ℕ → Text → OpenItem → Run
append_call run p a o =
    emit
      (record run {
        st = record run.st { calls = set_at run.st.calls p (record o { buf = o.buf ++ a }) };
      })
      (Payload.arguments_delta o.item_id o.output_index a)

pub with_arguments : Run → ℕ → Text → Run
with_arguments run p a = map_or run (append_call run p a) (get_elem? run.st.calls p)

-- A text that is there and not empty.
pub filled : Value → Option Text
filled (str []) = none
filled (str (c ∷ s)) = some (c ∷ s)
filled _ = none

pub feed_arguments : Run → ℕ → Value → Run
feed_arguments run p c =
    map_or run (with_arguments run p)
      (filled (index (index c (codes "function")) (codes "arguments")))

pub feed_model : Run → Value → Run
feed_model run chunk =
    map_or run (λ m. record run { st = record run.st { model = m } })
      (as_str (index chunk (codes "model")))

pub feed_usage : Run → Value → Run
feed_usage run chunk =
    if is_object (index chunk (codes "usage"))
    then record run { st = record run.st { usage = usage_of chunk } }
    else run

pub feed_reason : Run → Value → Run
feed_reason run choice =
    if is_text (index choice (codes "finish_reason")) (codes "length")
    then record run { st = record run.st { truncated = true } }
    else run

module _ (uuid : ℕ → Text) where
  unfoldable pub new : ℕ → Text → NamespaceMap → Run
  new now model ns = record {
    st = record {
      seq = 0;
      resp_id = new_id uuid (codes "resp") 0;
      model = model;
      created_at = now;
      started = false;
      next_index = 0;
      text = none;
      calls = [];
      finished_items = [];
      usage = object (
          (codes "input_tokens", number 0)
          ∷ (codes "output_tokens", number 0)
          ∷ (codes "total_tokens", number 0)
          ∷ []);
      truncated = false;
      finished = false;
      ns = ns;
    };
    out = [];
    drawn = 1;
  }

  -- The text message that is opened, and the one that a delta belongs to.
  pub open_text : Run → Text → Run
  open_text run txt =
      let i = run.st.next_index in
      let id = new_id uuid (codes "msg") run.drawn in
      let run = record run {
        st = record run.st { next_index = (i + 1) % 2 ^ 64 };
        drawn = run.drawn + 1;
      } in
      let run = emit run (Payload.output_item_added i (message_item id (codes "in_progress") [])) in
      let run = emit run (Payload.content_part_added id i) in
      append_text run txt (open_item i id none [] [])

  pub feed_text : Run → Value → Run
  feed_text run content =
      map_or run (λ txt. map_or (open_text run txt) (append_text run txt) run.st.text)
        (filled content)

  -- The call's own id, or a fresh one, with the number of ids drawn by then.
  pub call_id_of : Value → ℕ → Text × ℕ
  call_id_of c drawn = elim (as_str (index c (codes "id"))) [
    | some id ↦ (id, drawn)
    | none ↦ (new_id uuid (codes "call") drawn, drawn + 1)
  ]

  pub open_call : Run → Value → ℤ → Run
  open_call run c ti =
      let i = run.st.next_index in
      let id = new_id uuid (codes "fc") run.drawn in
      let (call_id, drawn) = call_id_of c (run.drawn + 1) in
      let name = unwrap_or (as_str (index (index c (codes "function")) (codes "name"))) [] in
      let item =
        with_namespace (call_item id (codes "in_progress") call_id (str name) []) run.st.ns in
      let run = record run {
        st = record run.st { next_index = (i + 1) % 2 ^ 64 };
        drawn = drawn;
      } in
      let run = emit run (Payload.output_item_added i item) in
      let opened = open_item i id (some ti) call_id name in
      record run { st = record run.st { calls = run.st.calls ++ opened ∷ [] } }

  pub is_call : ℤ → OpenItem → Bool
  is_call ti o = is_some_and o.tool_index (λ t. int_eq t ti)

  pub feed_call : Run → Value → Run
  feed_call run c =
      let ti = unwrap_or (as_i64 (index c (codes "index"))) (pos 0) in
      map_or (feed_arguments (open_call run c ti) (length run.st.calls) c)
        (λ p. feed_arguments run p c) (position (is_call ti) run.st.calls)

  pub feed_calls : Run → List Value → Run
  feed_calls run [] = run
  feed_calls run (c ∷ cs) = feed_calls (feed_call run c) cs

  -- A tool call ends the text message.
  pub feed_tools : Run → Option (List Value) → Run
  feed_tools run none = run
  feed_tools run (some calls) = feed_calls (close_text run) calls

  pub feed_choice : Run → Value → Run
  feed_choice run choice =
      let delta = index choice (codes "delta") in
      feed_reason
        (feed_tools (feed_text run (index delta (codes "content")))
          (as_array (index delta (codes "tool_calls"))))
        choice

  pub feed : Run → Value → Run
  feed run chunk =
      let fed =
        feed_choice (feed_usage (feed_model (start run) chunk) chunk)
          (elem_at (index chunk (codes "choices")) 0) in
      if run.st.finished then run else fed

  unfoldable pub feed_all : Run → List Value → Run
  feed_all run [] = run
  feed_all run (chunk ∷ chunks) = feed_all (feed run chunk) chunks

-- The last event, behind all items.
pub end_response : Run → Run
end_response run =
    let items = run.st.finished_items in
    let run = record run { st = record run.st { finished = true; finished_items = [] } } in
    if run.st.truncated
    then emit run (Payload.incomplete (response_obj run.st (codes "incomplete") items))
    else emit run (Payload.completed (response_obj run.st (codes "completed") items))

pub take_calls : Run → Run
take_calls run =
    let calls = run.st.calls in close_calls (record run { st = record run.st { calls = [] } }) calls

unfoldable pub finish : Run → Run
finish run =
    let ended = end_response (take_calls (close_text (start run))) in
    if run.st.finished then run else ended
