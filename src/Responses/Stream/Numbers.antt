-- ===== src/Responses/Stream/Numbers.antt =====
-- The sequence numbers of the events that src/proxy/responses.rs sends.
use router.Prelude.{
  ℕ, suc, ◌+◌, ◌%◌, ◌^◌, ◌≡◌, refl, ap, ◌∙◌, true, List, [], ◌∷◌, ◌++◌, arith, length,
  length-append, if-intro,
}
use router.Prelude.Int.{pos}
use router.Prelude.Text.{Text, codes, text_eq}
use router.Json.{Value, num, str, index, set, is_object, object}
use router.Json.Laws.{lookup-set, is_object-set}
use router.Responses.Names.{NamespaceMap}
use router.Responses.Stream.{
  Payload, event_name, payload_data, item_data, part_data, call_data, Event, event_data, Run,
  OpenItem, emit, start, close_item, close_call, close_calls, append_text, append_call, open_text,
  open_call, new, feed_all, end_response, take_calls, finish,
}
use router.Responses.Stream.Induction.{IsKept, close_text-IsKept, feed_all-IsKept}

-- The events carry consecutive numbers from `n` on, as 64 bits hold them.
abbrev pub IsNumbered : ℕ → List Event → Type 0
IsNumbered n [] = Unit
IsNumbered n (e ∷ es) =
    (index (event_data e) (codes "sequence_number") ≡ num (pos (n % 2 ^ 64)))
    × IsNumbered (suc n) es

payload_data-is_object : (p : Payload) → is_object (payload_data p) ≡ true
unfolding payload_data item_data part_data call_data object
payload_data-is_object (Payload.created r) = refl
payload_data-is_object (Payload.in_progress r) = refl
payload_data-is_object (Payload.completed r) = refl
payload_data-is_object (Payload.incomplete r) = refl
payload_data-is_object (Payload.output_item_added i v) = refl
payload_data-is_object (Payload.output_item_done i v) = refl
payload_data-is_object (Payload.content_part_added id i) = refl
payload_data-is_object (Payload.content_part_done id i v) = refl
payload_data-is_object (Payload.output_text_delta id i t) = refl
payload_data-is_object (Payload.output_text_done id i t) = refl
payload_data-is_object (Payload.arguments_delta id i t) = refl
payload_data-is_object (Payload.arguments_done id i t) = refl

index-event_data :
    (e : Event) → index (event_data e) (codes "sequence_number") ≡ num (pos e.sequence_number)
unfolding index event_data text_eq
index-event_data e =
    let body = payload_data e.payload in
    let name = str (event_name e.payload) in
    rw
      (lookup-set (set body (codes "type") name) (codes "sequence_number") (codes "sequence_number")
        (num (pos e.sequence_number))
        (rw (is_object-set body (codes "type") name) (payload_data-is_object e.payload)))
      refl

IsNumbered-append :
    (n : ℕ) (es : List Event) (e : Event)
    → IsNumbered n es
    → e.sequence_number ≡ (n + length es) % 2 ^ 64
    → IsNumbered n (es ++ e ∷ [])
IsNumbered-append n [] e h k =
    (rw (index-event_data e, k) (ap (λ m. num (pos (m % 2 ^ 64))) (omega arith)), tt)
IsNumbered-append n (d ∷ es) e (h, hs) k =
    (h, IsNumbered-append (suc n) es e hs (rw k (ap (λ m. m % 2 ^ 64) (omega arith))))

-- The events are numbered, and the next number is their count.
abbrev Counted : List Event → ℕ → Type 0
Counted out seq = IsNumbered 0 out × (seq ≡ length out % 2 ^ 64)

Counted-append :
    (out : List Event) (seq : ℕ) (p : Payload)
    → Counted out seq
    → Counted (out ++ record { payload = p; sequence_number = seq } ∷ []) ((seq + 1) % 2 ^ 64)
Counted-append out seq p (h, k) =
    let e : Event = record { payload = p; sequence_number = seq } in
    let k' : seq ≡ (0 + length out) % 2 ^ 64 = k ∙ ap (λ m. m % 2 ^ 64) (omega arith) in
    (IsNumbered-append 0 out e h k', omega (arith, k, length-append out (e ∷ [])))

IsCounted : Run → Type 0
IsCounted run = Counted run.out run.st.seq

IsCounted-IsKept : (uuid : ℕ → Text) → IsKept uuid IsCounted
unfolding IsCounted emit start close_item append_text append_call open_text open_call
IsCounted-IsKept uuid = record {
  apart = record {
    starts = λ run h.
        if-intro IsCounted run.st.started run _ (λ _. h)
          (λ _. Counted-append _ _ _ (Counted-append _ _ _ h));
    models = λ run m h. h;
    uses = λ run u h. h;
    truncates = λ run h. h;
    closes_text = λ run t e h. Counted-append _ _ _ (Counted-append _ _ _ (Counted-append _ _ _ h));
    opens_call = λ run c ti h. Counted-append _ _ _ h;
    appends_call = λ run p a o e h. Counted-append _ _ _ h;
  };
  opens_text = λ run txt e h. Counted-append _ _ _ (Counted-append _ _ _ (Counted-append _ _ _ h));
  appends_text = λ run txt t e h. Counted-append _ _ _ h;
}

close_calls-IsCounted :
    (run : Run) (cs : List OpenItem) → IsCounted run → IsCounted (close_calls run cs)
unfolding IsCounted emit close_call close_calls
close_calls-IsCounted run [] h = h
close_calls-IsCounted run (c ∷ cs) h =
    close_calls-IsCounted (close_call run c) cs (Counted-append _ _ _ (Counted-append _ _ _ h))

take_calls-IsCounted : (run : Run) → IsCounted run → IsCounted (take_calls run)
unfolding IsCounted take_calls
take_calls-IsCounted run h = close_calls-IsCounted _ run.st.calls h

end_response-IsCounted : (run : Run) → IsCounted run → IsCounted (end_response run)
unfolding IsCounted end_response emit
end_response-IsCounted run h =
    if-intro IsCounted run.st.truncated _ _ (λ _. Counted-append _ _ _ h)
      (λ _. Counted-append _ _ _ h)

finish-IsCounted : (uuid : ℕ → Text) (run : Run) → IsCounted run → IsCounted (finish run)
unfolding finish
finish-IsCounted uuid run h =
    let law = IsCounted-IsKept uuid in
    if-intro IsCounted run.st.finished run _ (λ _. h)
      (λ _.
        end_response-IsCounted _
          (take_calls-IsCounted _ (close_text-IsKept law.apart _ (law.apart.starts run h))))

-- Whatever chunks come in, the events of a stream that has ended carry the numbers 0, 1, 2 and so on
-- without a gap, each modulo 2^64.
pub finish-IsNumbered :
    (uuid : ℕ → Text) (now : ℕ) (model : Text) (ns : NamespaceMap) (chunks : List Value)
    → IsNumbered 0 (finish (feed_all uuid (new uuid now model ns) chunks)).out
unfolding IsCounted new
finish-IsNumbered uuid now model ns chunks =
    (finish-IsCounted uuid _
      (feed_all-IsKept (IsCounted-IsKept uuid) (new uuid now model ns) chunks (tt, refl))).0
