-- ===== src/Responses/Stream/Tests.antt =====
-- Runs of the stream translation on concrete chunks.
use router.Prelude.{ℕ, ◌≡◌, refl, [], ◌∷◌, List, length, map, flat_map, count}
use router.Prelude.Int.{pos}
use router.Prelude.Text.{Text, codes}
use router.Json.{Value, num, str, object, array}
use router.Responses.Names.{NamespaceMap}
use router.Responses.Stream.{Run, Event, new, feed_all, finish, event_name}
use router.Responses.Stream.Items.{is_opening}
use router.Responses.Stream.Texts.{deltas, done_texts, content_of, finish-content_of}

-- The ids are the numbers of the draws.
abbrev uuid : ℕ → Text
uuid n = n ∷ []

abbrev chunk_of : Value → Value
chunk_of delta = object ((codes "choices", array (object ((codes "delta", delta) ∷ []) ∷ [])) ∷ [])

abbrev says : Text → Value
says t = chunk_of (object ((codes "content", str t) ∷ []))

abbrev call : Value
call = object (
    (codes "index", num (pos 0))
    ∷ (codes "id", str (codes "c"))
    ∷ (
      codes "function",
      object ((codes "name", str (codes "f")) ∷ (codes "arguments", str (codes "{}")) ∷ []),
    )
    ∷ [])

abbrev calls : Value
calls = chunk_of (object ((codes "tool_calls", array (call ∷ [])) ∷ []))

abbrev chunks : List Value
chunks = says (codes "He") ∷ says (codes "llo") ∷ calls ∷ []

abbrev ended : Run
ended = finish (feed_all uuid (new uuid 7 (codes "m") []) chunks)

two_items :
    (length ended.out ≡ 14)
    × (done_texts ended.out ≡ codes "Hello")
    × (count (is_opening 1) ended.out ≡ 1)
unfolding finish feed_all router.Responses.Stream.feed new router.Responses.Stream.feed_choice
    router.Responses.Stream.feed_reason router.Json.index router.Json.elem_at object
    router.Prelude.Text.text_eq array router.Responses.Stream.feed_tools
    router.Responses.Stream.feed_text router.Responses.Stream.filled
    router.Responses.Stream.feed_usage router.Responses.Stream.feed_model
    router.Responses.Stream.start router.Json.as_array router.Json.elements router.Json.entries
    router.Json.fields router.Json.items router.Json.lookup router.Json.set router.Prelude.Map.get
    router.Prelude.Map.insert router.Responses.Names.with_namespace router.Responses.Reply.call_item
    router.Responses.Reply.incomplete_details router.Responses.Reply.message_item
    router.Responses.Reply.new_id router.Responses.Reply.output_part
    router.Responses.Reply.response_value router.Responses.Reply.usage_of
    router.Responses.Stream.append_call router.Responses.Stream.append_text
    router.Responses.Stream.call_id_of router.Responses.Stream.close_call
    router.Responses.Stream.close_calls router.Responses.Stream.close_item
    router.Responses.Stream.close_text router.Responses.Stream.emit
    router.Responses.Stream.end_response router.Responses.Stream.feed_arguments
    router.Responses.Stream.feed_call router.Responses.Stream.feed_calls
    router.Responses.Stream.is_call router.Responses.Stream.open_call
    router.Responses.Stream.open_item router.Responses.Stream.open_text
    router.Responses.Stream.response_obj router.Responses.Stream.take_calls
    router.Responses.Stream.with_arguments
two_items = (refl, refl, refl)

finish-content_of_example :
    (deltas ended.out ≡ flat_map content_of chunks)
    × (done_texts ended.out ≡ flat_map content_of chunks)
finish-content_of_example = finish-content_of uuid 7 (codes "m") [] chunks
