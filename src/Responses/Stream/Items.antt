-- ===== src/Responses/Stream/Items.antt =====
-- The output items that src/proxy/responses.rs opens and closes.
use router.Prelude.{
  ℕ, ◌+◌, ◌≡◌, refl, ◌∙◌, sym, Bool, true, false, List, [], ◌∷◌, ◌++◌, Option, none, some, arith,
  if-intro, map_or, nat_beq, count, count-append, count-set_at, get_elem?, set_at, flatten,
  append-nil, flat_map, flat_map-snoc, if◌then◌else◌,
}
use router.Prelude.Text.{Text, codes, text_eq}
use router.Prelude.Map.{get}
use router.Json.{Value, index, as_array, lookup, object, fields, entries}
use router.Json.Laws.{as_array-array}
use router.Responses.Reply.{response_value}
use router.Responses.Names.{NamespaceMap}
use router.Responses.Stream.{
  Payload, Event, Run, StreamState, OpenItem, open_item, emit, start, close_item, close_call,
  close_calls, append_text, append_call, open_text, open_call, new, feed_all, end_response,
  take_calls, finish, response_obj,
}
use router.Responses.Stream.Induction.{
  IsKept, feed_all-IsLive, close_text-none, close_text-IsKept, feed_all-IsKept,
}

abbrev pub is_opening : ℕ → Event → Bool
is_opening i e = elim e.payload [ Payload.output_item_added j v ↦ nat_beq j i | _ ↦ false ]

abbrev is_closing : ℕ → Event → Bool
is_closing i e = elim e.payload [ Payload.output_item_done j v ↦ nat_beq j i | _ ↦ false ]

-- The items of the closing events, in order.
abbrev item_of : Payload → List Value
item_of (Payload.output_item_done i v) = v ∷ []
item_of _ = []

abbrev done_items : List Event → List Value
done_items out = flat_map (λ e. item_of e.payload) out

-- The items that the last events report, in order.
abbrev reported_of : Payload → List Value
reported_of (Payload.completed r) = flatten (as_array (index r (codes "output")))
reported_of (Payload.incomplete r) = flatten (as_array (index r (codes "output")))
reported_of _ = []

abbrev reported : List Event → List Value
reported out = flat_map (λ e. reported_of e.payload) out

is_at : ℕ → OpenItem → Bool
is_at i o = nat_beq o.output_index i

-- How many open items have the index `i`.
active : ℕ → Option OpenItem → List OpenItem → ℕ
active i text calls = map_or 0 (λ t. if is_at i t then 1 else 0) text + count (is_at i) calls

-- Each item that was opened is closed or still open; the finished items are those of the closing
-- events; nothing was reported yet.
Balanced : List Event → Option OpenItem → List OpenItem → List Value → Type 0
Balanced out text calls items =
    ((i : ℕ) → count (is_opening i) out ≡ count (is_closing i) out + active i text calls)
    × (items ≡ done_items out)
    × (reported out ≡ [])

abbrev event : Payload → ℕ → Event
event p seq = record { payload = p; sequence_number = seq }

-- An event that opens, closes and reports nothing.
abbrev IsQuiet : Payload → Type 0
IsQuiet p =
    ((i seq : ℕ) → is_opening i (event p seq) ≡ false)
    × ((i seq : ℕ) → is_closing i (event p seq) ≡ false)
    × (item_of p ≡ [])
    × (reported_of p ≡ [])

-- Neither the opening nor the closing of an item, nor the last event.
abbrev is_quiet : Payload → Bool
is_quiet (Payload.output_item_added i v) = false
is_quiet (Payload.output_item_done i v) = false
is_quiet (Payload.completed r) = false
is_quiet (Payload.incomplete r) = false
is_quiet _ = true

is_quiet-IsQuiet : (p : Payload) → is_quiet p ≡ true → IsQuiet p
is_quiet-IsQuiet p h = (λ i seq. ground arith, λ i seq. ground arith, ground arith, ground arith)

Balanced-quiet :
    (out : List Event) (text : Option OpenItem) (calls : List OpenItem) (items : List Value)
    (p : Payload) (seq : ℕ)
    → is_quiet p ≡ true
    → Balanced out text calls items
    → Balanced (out ++ event p seq ∷ []) text calls items
unfolding Balanced
Balanced-quiet out text calls items p seq h (b, d, q) =
    let e = event p seq in
    let (o, c, n, r) = is_quiet-IsQuiet p h in
    (
      λ i. ground (
        arith,
        b i,
        o i seq,
        c i seq,
        count-append (is_opening i) out (e ∷ []),
        count-append (is_closing i) out (e ∷ []),
      ),
      d ∙ sym (rw (flat_map-snoc (λ e. item_of e.payload) out e, n) (append-nil (done_items out))),
      rw (flat_map-snoc (λ e. reported_of e.payload) out e, r, q) refl,
    )

-- The item behind `next_index` is opened: `text` and `calls` are the open items with it.
Balanced-added :
    (out : List Event) (text text' : Option OpenItem) (calls calls' : List OpenItem)
    (items : List Value) (i seq : ℕ) (v : Value)
    → ((j : ℕ) → active j text' calls' ≡ active j text calls + (if nat_beq i j then 1 else 0))
    → Balanced out text calls items
    → Balanced (out ++ event (Payload.output_item_added i v) seq ∷ []) text' calls' items
unfolding Balanced
Balanced-added out text text' calls calls' items i seq v a (b, d, q) =
    let e = event (Payload.output_item_added i v) seq in
    (
      λ j. ground (
        arith,
        b j,
        a j,
        count-append (is_opening j) out (e ∷ []),
        count-append (is_closing j) out (e ∷ []),
      ),
      d ∙ sym (rw (flat_map-snoc (λ e. item_of e.payload) out e) (append-nil (done_items out))),
      rw (flat_map-snoc (λ e. reported_of e.payload) out e, q) refl,
    )

Balanced-done :
    (out : List Event) (text text' : Option OpenItem) (calls calls' : List OpenItem)
    (items : List Value) (i seq : ℕ) (v : Value)
    → ((j : ℕ) → active j text calls ≡ active j text' calls' + (if nat_beq i j then 1 else 0))
    → Balanced out text calls items
    → Balanced (out ++ event (Payload.output_item_done i v) seq ∷ []) text' calls' (items ++ v ∷ [])
unfolding Balanced
Balanced-done out text text' calls calls' items i seq v a (b, d, q) =
    let e = event (Payload.output_item_done i v) seq in
    (
      λ j. ground (
        arith,
        b j,
        a j,
        count-append (is_opening j) out (e ∷ []),
        count-append (is_closing j) out (e ∷ []),
      ),
      rw (d, flat_map-snoc (λ e. item_of e.payload) out e) refl,
      rw (flat_map-snoc (λ e. reported_of e.payload) out e, q) refl,
    )

-- A change that leaves the indices of the open items alone.
Balanced-active :
    (out : List Event) (text text' : Option OpenItem) (calls calls' : List OpenItem)
    (items : List Value)
    → ((j : ℕ) → active j text' calls' ≡ active j text calls)
    → Balanced out text calls items
    → Balanced out text' calls' items
unfolding Balanced
Balanced-active out text text' calls calls' items a (b, d, q) = (λ j. omega (arith, b j, a j), d, q)

IsBalanced : Run → Type 0
IsBalanced run = Balanced run.out run.st.text run.st.calls run.st.finished_items

active-text :
    (t t' : OpenItem) (text : Option OpenItem) (calls : List OpenItem)
    → text ≡ some t
    → t'.output_index ≡ t.output_index
    → (j : ℕ) → active j (some t') calls ≡ active j text calls
unfolding active is_at
active-text t t' text calls e k j = rw (e, k) refl

active-set_at :
    (text : Option OpenItem) (calls : List OpenItem) (p : ℕ) (o o' : OpenItem)
    → get_elem? calls p ≡ some o
    → o'.output_index ≡ o.output_index
    → (j : ℕ) → active j text (set_at calls p o') ≡ active j text calls
unfolding active is_at
active-set_at text calls p o o' e k j = rw (count-set_at (is_at j) calls p o o' e (rw k refl)) refl

active-push :
    (text : Option OpenItem) (calls : List OpenItem) (o : OpenItem) (j : ℕ)
    → active j text (calls ++ o ∷ [])
      ≡ active j text calls + (if nat_beq o.output_index j then 1 else 0)
unfolding active is_at
active-push text calls o j = omega (arith, count-append (is_at j) calls (o ∷ []))

active-opened :
    (text : Option OpenItem) (calls : List OpenItem) (t : OpenItem)
    → text ≡ none
    → (j : ℕ)
    → active j (some t) calls ≡ active j text calls + (if nat_beq t.output_index j then 1 else 0)
unfolding active is_at
active-opened text calls t e j = rw e (omega arith)

active-closed :
    (text : Option OpenItem) (calls : List OpenItem) (t : OpenItem)
    → text ≡ some t
    → (j : ℕ)
    → active j text calls ≡ active j none calls + (if nat_beq t.output_index j then 1 else 0)
unfolding active is_at
active-closed text calls t e j = rw e (omega arith)

IsBalanced-IsKept : (uuid : ℕ → Text) → IsKept uuid IsBalanced
unfolding IsBalanced emit start close_item append_text append_call open_text open_call open_item
IsBalanced-IsKept uuid = record {
  apart = record {
    starts = λ run h.
        if-intro IsBalanced run.st.started run _ (λ _. h)
          (λ _. Balanced-quiet _ _ _ _ _ _ refl (Balanced-quiet _ _ _ _ _ _ refl h));
    models = λ run m h. h;
    uses = λ run u h. h;
    truncates = λ run h. h;
    closes_text = λ run t e h.
        Balanced-done _ run.st.text _ run.st.calls _ _ _ _ _
          (active-closed run.st.text run.st.calls t e)
          (Balanced-quiet _ _ _ _ _ _ refl (Balanced-quiet _ _ _ _ _ _ refl h));
    opens_call = λ run c ti h.
        Balanced-added _ run.st.text _ run.st.calls _ _ _ _ _
          (active-push run.st.text run.st.calls _) h;
    appends_call = λ run p a o e h. Balanced-quiet _ _ _ _ _ _ refl (
        Balanced-active _ run.st.text _ run.st.calls _ _
          (active-set_at run.st.text run.st.calls p o _ e refl) h);
  };
  opens_text = λ run txt e h. Balanced-quiet _ _ _ _ _ _ refl (
      Balanced-quiet _ _ _ _ _ _ refl (
        Balanced-added _ run.st.text _ run.st.calls _ _ _ _ _
          (active-opened run.st.text run.st.calls _ e) h));
  appends_text = λ run txt t e h. Balanced-quiet _ _ _ _ _ _ refl (
      Balanced-active _ run.st.text _ run.st.calls _ _
        (active-text t _ run.st.text run.st.calls e refl) h);
}

active-cons :
    (text : Option OpenItem) (c : OpenItem) (cs : List OpenItem) (j : ℕ)
    → active j text (c ∷ cs) ≡ active j text cs + (if nat_beq c.output_index j then 1 else 0)
unfolding active is_at
active-cons text c cs j = omega arith

-- Closing the calls one by one, where the calls that wait are none of the state's.
close_calls-Balanced :
    (run : Run) (cs : List OpenItem)
    → Balanced run.out run.st.text cs run.st.finished_items
    → (close_calls run cs).st.text ≡ run.st.text
      × Balanced (close_calls run cs).out run.st.text [] (close_calls run cs).st.finished_items
unfolding emit close_call close_calls
close_calls-Balanced run [] h = (refl, h)
close_calls-Balanced run (c ∷ cs) h = close_calls-Balanced (close_call run c) cs (
    Balanced-done _ run.st.text _ (c ∷ cs) _ _ _ _ _ (active-cons run.st.text c cs)
      (Balanced-quiet _ _ _ _ _ _ refl h))

-- What is true of all events once the last one is out.
abbrev pub IsClosed : List Event → Type 0
IsClosed out =
    ((i : ℕ) → count (is_opening i) out ≡ count (is_closing i) out)
    × (reported out ≡ done_items out)

output-response_obj :
    (st : StreamState) (status : Text) (items : List Value)
    → flatten (as_array (index (response_obj st status items) (codes "output"))) ≡ items
unfolding index response_obj response_value lookup object fields entries get text_eq
output-response_obj st status items = rw (as_array-array items) refl

Balanced-ended :
    (out : List Event) (items : List Value) (p : Payload) (seq : ℕ)
    → reported_of p ≡ items
    → item_of p ≡ []
    → ((i : ℕ) → is_opening i (event p seq) ≡ false)
    → ((i : ℕ) → is_closing i (event p seq) ≡ false)
    → Balanced out none [] items
    → IsClosed (out ++ event p seq ∷ [])
unfolding Balanced active
Balanced-ended out items p seq o n h k (b, d, q) =
    let e = event p seq in
    (
      λ i. ground (
        arith,
        b i,
        h i,
        k i,
        count-append (is_opening i) out (e ∷ []),
        count-append (is_closing i) out (e ∷ []),
      ),
      rw
          (
            flat_map-snoc (λ e. reported_of e.payload) out e,
            flat_map-snoc (λ e. item_of e.payload) out e,
            q,
            o,
            n,
            append-nil (done_items out),
          )
          d,
    )

end_response-IsClosed :
    (run : Run) → Balanced run.out none [] run.st.finished_items → IsClosed (end_response run).out
unfolding end_response emit
end_response-IsClosed run h =
    if-intro {A = Run} (λ r. IsClosed r.out) run.st.truncated _ _
      (λ _. Balanced-ended _ _ _ _ (output-response_obj _ _ _) refl (λ i. refl) (λ i. refl) h)
      (λ _. Balanced-ended _ _ _ _ (output-response_obj _ _ _) refl (λ i. refl) (λ i. refl) h)

take_calls-Balanced :
    (run : Run)
    → run.st.text ≡ none
    → IsBalanced run
    → Balanced (take_calls run).out none [] (take_calls run).st.finished_items
unfolding IsBalanced take_calls
take_calls-Balanced run e h =
    rw⁻¹ e
      (close_calls-Balanced (record run { st = record run.st { calls = [] } }) run.st.calls h).1

new-IsBalanced :
    (uuid : ℕ → Text) (now : ℕ) (model : Text) (ns : NamespaceMap)
    → IsBalanced (new uuid now model ns)
unfolding IsBalanced Balanced new active
new-IsBalanced uuid now model ns = (λ i. refl, refl, refl)

-- Every stream that ends has closed each item that it opened, once for each time it opened an item
-- at that index, and its last event reports the closed items, in the order in which they were closed.
pub finish-IsClosed :
    (uuid : ℕ → Text) (now : ℕ) (model : Text) (ns : NamespaceMap) (chunks : List Value)
    → IsClosed (finish (feed_all uuid (new uuid now model ns) chunks)).out
unfolding finish
finish-IsClosed uuid now model ns chunks =
    let run = feed_all uuid (new uuid now model ns) chunks in
    let law = IsBalanced-IsKept uuid in
    let balanced =
      feed_all-IsKept law (new uuid now model ns) chunks (new-IsBalanced uuid now model ns) in
    let closed = close_text-IsKept law.apart (start run) (law.apart.starts run balanced) in
    let live = feed_all-IsLive uuid now model ns chunks in
    if-intro {A = Run} (λ r. IsClosed r.out) run.st.finished run _ (λ f. ground (arith, live, f))
      (λ _. end_response-IsClosed _ (take_calls-Balanced _ (close_text-none (start run)) closed))
