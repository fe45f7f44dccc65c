-- ===== src/Responses/Stream/Texts.antt =====
-- The text that src/proxy/responses.rs passes on.
use router.Prelude.{
  ℕ, ◌≡◌, refl, ap, ◌∙◌, sym, List, [], ◌∷◌, ◌++◌, Option, none, some, arith, if-intro,
  map_or-intro, map_or, flat_map, flat_map-snoc, append-nil, append_assoc, unwrap_or, Option-cases,
  inl, inr,
}
use router.Prelude.Text.{Text, codes}
use router.Json.{Value, index, elem_at}
use router.Responses.Names.{NamespaceMap}
use router.Responses.Stream.{
  Payload, Event, Run, OpenItem, emit, start, close_item, close_call, close_calls, filled,
  append_text, append_call, open_text, open_call, open_item, new, feed, feed_text, feed_choice,
  feed_all, end_response, take_calls, finish,
}
use router.Responses.Stream.Induction.{
  IsKeptApart, close_text-IsKept, feed_tools-IsKept, feed_reason-IsKept, feed_model-IsKept,
  feed_usage-IsKept, feed_all-IsLive, IsLive, feed-IsKept, IsLive-IsKept, new-IsLive,
  close_text-none,
}

-- What the deltas of the text message carry, and what its closing events carry.
abbrev delta_of : Payload → Text
delta_of (Payload.output_text_delta id i t) = t
delta_of _ = []

abbrev done_of : Payload → Text
done_of (Payload.output_text_done id i t) = t
done_of _ = []

abbrev pub deltas : List Event → Text
deltas out = flat_map (λ e. delta_of e.payload) out

abbrev pub done_texts : List Event → Text
done_texts out = flat_map (λ e. done_of e.payload) out

-- The text of a chunk.
abbrev pub content_of : Value → Text
content_of chunk =
    unwrap_or
      (filled (
        index (index (elem_at (index chunk (codes "choices")) 0) (codes "delta"))
          (codes "content")))
      []

-- `got` is the text fed so far: the deltas carry it, and what the closing events lack is open.
Told : Text → List Event → Option OpenItem → Type 0
Told got out text = (deltas out ≡ got) × (done_texts out ++ map_or [] (λ t. t.buf) text ≡ got)

abbrev event : Payload → ℕ → Event
event p seq = record { payload = p; sequence_number = seq }

Told-quiet :
    (got : Text) (out : List Event) (text : Option OpenItem) (p : Payload) (seq : ℕ)
    → delta_of p ≡ []
    → done_of p ≡ []
    → Told got out text
    → Told got (out ++ event p seq ∷ []) text
unfolding Told
Told-quiet got out text p seq d k (h, l) =
    let e = event p seq in
    (
      rw (flat_map-snoc (λ e. delta_of e.payload) out e, d, append-nil (deltas out)) h,
      rw (flat_map-snoc (λ e. done_of e.payload) out e, k, append-nil (done_texts out)) l,
    )

-- More text for the open message.
Told-delta :
    (got : Text) (out : List Event) (t t' : OpenItem) (txt id : Text) (i seq : ℕ)
    → t'.buf ≡ t.buf ++ txt
    → Told got out (some t)
    → Told (got ++ txt) (out ++ event (Payload.output_text_delta id i txt) seq ∷ []) (some t')
unfolding Told
Told-delta got out t t' txt id i seq b (h, l) =
    let e = event (Payload.output_text_delta id i txt) seq in
    (
      rw (flat_map-snoc (λ e. delta_of e.payload) out e, h) refl,
      rw (flat_map-snoc (λ e. done_of e.payload) out e, append-nil (done_texts out), b)
          (sym (append_assoc (done_texts out) t.buf txt) ∙ ap (λ s. s ++ txt) l),
    )

Told-opened :
    (got : Text) (out : List Event) (text : Option OpenItem) (t : OpenItem)
    → text ≡ none
    → t.buf ≡ []
    → Told got out text
    → Told got out (some t)
unfolding Told
Told-opened got out text t e b (h, l) = (h, rw b (rw e at l))

Told-done :
    (got : Text) (out : List Event) (text : Option OpenItem) (t : OpenItem) (id : Text) (i seq : ℕ)
    → text ≡ some t
    → Told got out text
    → Told got (out ++ event (Payload.output_text_done id i t.buf) seq ∷ []) none
unfolding Told
Told-done got out text t id i seq e (h, l) =
    let d = event (Payload.output_text_done id i t.buf) seq in
    (
      rw (flat_map-snoc (λ e. delta_of e.payload) out d, append-nil (deltas out)) h,
      rw (flat_map-snoc (λ e. done_of e.payload) out d, append-nil (done_texts out ++ t.buf))
          (rw e at l),
    )

Tells : Text → Run → Type 0
Tells got run = Told got run.out run.st.text

Tells-IsKeptApart : (uuid : ℕ → Text) (got : Text) → IsKeptApart uuid (Tells got)
unfolding Tells emit start close_item append_call open_call
Tells-IsKeptApart uuid got = record {
  starts = λ run h.
      if-intro (Tells got) run.st.started run _ (λ _. h)
        (λ _. Told-quiet _ _ _ _ _ refl refl (Told-quiet _ _ _ _ _ refl refl h));
  models = λ run m h. h;
  uses = λ run u h. h;
  truncates = λ run h. h;
  closes_text = λ run t e h.
      Told-quiet _ _ _ _ _ refl refl
        (Told-quiet _ _ _ _ _ refl refl (Told-done _ _ run.st.text t _ _ _ e h));
  opens_call = λ run c ti h. Told-quiet _ _ _ _ _ refl refl h;
  appends_call = λ run p a o e h. Told-quiet _ _ _ _ _ refl refl h;
}

feed_text-Tells :
    (uuid : ℕ → Text) (got : Text) (run : Run) (content : Value)
    → Tells got run
    → Tells (got ++ unwrap_or (filled content) []) (feed_text uuid run content)
unfolding Tells feed_text open_text append_text open_item emit
feed_text-Tells uuid got run content h = elim (Option-cases (filled content)) [
  | inl e ↦ rw (e, append-nil got) h
  | inr (txt, e) ↦ rw e (
      map_or-intro (Tells (got ++ txt)) (open_text uuid run txt) (append_text run txt) run.st.text
        (λ n. Told-delta got _ (open_item 0 [] none [] []) _ txt _ _ _ refl (
          Told-quiet _ _ _ _ _ refl refl (
            Told-quiet _ _ _ _ _ refl refl
              (Told-opened _ _ run.st.text (open_item 0 [] none [] []) n refl h))))
        (λ t n. Told-delta got _ t _ txt _ _ _ refl (rw n at h)))
]

feed-Tells :
    (uuid : ℕ → Text) (got : Text) (run : Run) (chunk : Value)
    → IsLive run
    → Tells got run
    → Tells (got ++ content_of chunk) (feed uuid run chunk)
unfolding feed feed_choice
feed-Tells uuid got run chunk live h =
    let law = λ (s : Text). Tells-IsKeptApart uuid s in
    let choice = elem_at (index chunk (codes "choices")) 0 in
    if-intro (Tells (got ++ content_of chunk)) run.st.finished run _
      (λ f. absurd (ground (arith, live, f)))
      (λ _. feed_reason-IsKept (law (got ++ content_of chunk)) _ choice (
        feed_tools-IsKept (law (got ++ content_of chunk)) _ _ (
          feed_text-Tells uuid got _ _ (
            feed_usage-IsKept (law got) _ chunk
              (feed_model-IsKept (law got) _ chunk ((law got).starts run h))))))

feed_all-Tells :
    (uuid : ℕ → Text) (got : Text) (run : Run) (chunks : List Value)
    → IsLive run
    → Tells got run
    → Tells (got ++ flat_map content_of chunks) (feed_all uuid run chunks)
unfolding feed_all
feed_all-Tells uuid got run [] live h = rw (append-nil got) h
feed_all-Tells uuid got run (c ∷ cs) live h =
    rw⁻¹ (append_assoc got (content_of c) (flat_map content_of cs)) (
      feed_all-Tells uuid (got ++ content_of c) (feed uuid run c) cs
        (feed-IsKept (IsLive-IsKept uuid) run c live) (feed-Tells uuid got run c live h))

close_calls-Tells :
    (got : Text) (run : Run) (cs : List OpenItem) → Tells got run → Tells got (close_calls run cs)
unfolding Tells close_calls close_call emit
close_calls-Tells got run [] h = h
close_calls-Tells got run (c ∷ cs) h =
    close_calls-Tells got (close_call run c) cs
      (Told-quiet _ _ _ _ _ refl refl (Told-quiet _ _ _ _ _ refl refl h))

take_calls-Tells : (got : Text) (run : Run) → Tells got run → Tells got (take_calls run)
unfolding Tells take_calls
take_calls-Tells got run h = close_calls-Tells got _ run.st.calls h

end_response-Tells : (got : Text) (run : Run) → Tells got run → Tells got (end_response run)
unfolding Tells end_response emit
end_response-Tells got run h =
    if-intro (Tells got) run.st.truncated _ _ (λ _. Told-quiet _ _ _ _ _ refl refl h)
      (λ _. Told-quiet _ _ _ _ _ refl refl h)

-- Ending a stream without an open message opens none.
close_calls-text : (run : Run) (cs : List OpenItem) → (close_calls run cs).st.text ≡ run.st.text
unfolding close_calls close_call emit
close_calls-text run [] = refl
close_calls-text run (c ∷ cs) = close_calls-text (close_call run c) cs

end_response-text : (run : Run) → (end_response run).st.text ≡ run.st.text
unfolding end_response emit
end_response-text run =
    if-intro {A = Run} (λ r. r.st.text ≡ run.st.text) run.st.truncated _ _ (λ _. refl) (λ _. refl)

finish-text : (run : Run) → IsLive run → (finish run).st.text ≡ none
unfolding finish take_calls
finish-text run live =
    if-intro {A = Run} (λ r. r.st.text ≡ none) run.st.finished run _
      (λ f. absurd (ground (arith, live, f)))
      (λ _. end_response-text _ ∙ close_calls-text _ _ ∙ close_text-none (start run))

new-Tells :
    (uuid : ℕ → Text) (now : ℕ) (model : Text) (ns : NamespaceMap)
    → Tells [] (new uuid now model ns)
unfolding Tells Told new
new-Tells uuid now model ns = (refl, refl)

finish-Tells : (uuid : ℕ → Text) (got : Text) (run : Run) → Tells got run → Tells got (finish run)
unfolding finish
finish-Tells uuid got run h =
    let law = Tells-IsKeptApart uuid got in
    if-intro (Tells got) run.st.finished run _ (λ _. h)
      (λ _.
        end_response-Tells got _
          (take_calls-Tells got _ (close_text-IsKept law _ (law.starts run h))))

-- No text is lost and none is made up: in every stream that ends, the deltas of the messages join to
-- the contents of the chunks, and so do the texts with which the messages are closed.
pub finish-content_of :
    (uuid : ℕ → Text) (now : ℕ) (model : Text) (ns : NamespaceMap) (chunks : List Value)
    → (deltas (finish (feed_all uuid (new uuid now model ns) chunks)).out
        ≡ flat_map content_of chunks)
      × (done_texts (finish (feed_all uuid (new uuid now model ns) chunks)).out
          ≡ flat_map content_of chunks)
unfolding Tells Told
finish-content_of uuid now model ns chunks =
    let run = feed_all uuid (new uuid now model ns) chunks in
    let told = finish-Tells uuid _ run (
      feed_all-Tells uuid [] (new uuid now model ns) chunks (new-IsLive uuid now model ns)
        (new-Tells uuid now model ns)) in
    let none_open = finish-text run (feed_all-IsLive uuid now model ns chunks) in
    (told.0, sym (append-nil (done_texts (finish run).out)) ∙ rw none_open at told.1)
