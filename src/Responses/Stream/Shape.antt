-- ===== src/Responses/Stream/Shape.antt =====
-- The first and the last events of the streams of src/proxy/responses.rs.
use router.Prelude.{
  ℕ, ◌≡◌, refl, ap, ◌∙◌, Bool, true, false, ◌&&◌, List, [], ◌∷◌, ◌++◌, arith, if-intro, count,
  count-append, last, last-snoc, is_some_and,
}
use router.Prelude.Text.{Text}
use router.Json.{Value}
use router.Responses.Names.{NamespaceMap}
use router.Responses.Stream.{
  Payload, Event, Run, OpenItem, emit, start, close_item, close_call, close_calls, append_text,
  append_call, open_text, open_call, new, feed, feed_all, end_response, take_calls, finish,
}
use router.Responses.Stream.Induction.{
  IsKept, close_text-IsKept, feed_all-IsKept, feed_all-IsLive, feed-start, new-IsLive,
}

abbrev is_created : Payload → Bool
is_created (Payload.created r) = true
is_created _ = false

abbrev is_in_progress : Payload → Bool
is_in_progress (Payload.in_progress r) = true
is_in_progress _ = false

-- `response.completed` or `response.incomplete`.
abbrev is_terminal : Payload → Bool
is_terminal (Payload.completed r) = true
is_terminal (Payload.incomplete r) = true
is_terminal _ = false

-- The first two events announce the response.
abbrev is_begun : List Event → Bool
is_begun (a ∷ b ∷ rest) = is_created a.payload && is_in_progress b.payload
is_begun _ = false

abbrev terminals : List Event → ℕ
terminals out = count (λ e. is_terminal e.payload) out

-- The stream is announced first, and ended once, by its last event.
abbrev pub IsWhole : List Event → Type 0
IsWhole out =
    (is_begun out ≡ true)
    × (terminals out ≡ 1)
    × (is_some_and (last out) (λ e. is_terminal e.payload) ≡ true)

Begun : List Event → Bool → Type 0
Begun out started = (started ≡ true) × (is_begun out ≡ true) × (terminals out ≡ 0)

is_begun-snoc :
    (out : List Event) (e : Event) → is_begun out ≡ true → is_begun (out ++ e ∷ []) ≡ true
is_begun-snoc [] e h = ground arith
is_begun-snoc (a ∷ []) e h = ground arith
is_begun-snoc (a ∷ b ∷ rest) e h = h

Begun-snoc :
    (out : List Event) (started : Bool) (e : Event)
    → is_terminal e.payload ≡ false
    → Begun out started
    → Begun (out ++ e ∷ []) started
unfolding Begun
Begun-snoc out started e t (s, b, k) = (
  s,
  is_begun-snoc out e b,
  ground (arith, k, t, count-append (λ e. is_terminal e.payload) out (e ∷ [])),
)

IsBegun : Run → Type 0
IsBegun run = Begun run.out run.st.started

IsBegun-IsKept : (uuid : ℕ → Text) → IsKept uuid IsBegun
unfolding IsBegun Begun emit start close_item append_text append_call open_text open_call
IsBegun-IsKept uuid = record {
  apart = record {
    starts = λ run h.
        if-intro IsBegun run.st.started run _ (λ _. h) (λ f. absurd (ground (arith, h.0, f)));
    models = λ run m h. h;
    uses = λ run u h. h;
    truncates = λ run h. h;
    closes_text =
        λ run t e h. Begun-snoc _ _ _ refl (Begun-snoc _ _ _ refl (Begun-snoc _ _ _ refl h));
    opens_call = λ run c ti h. Begun-snoc _ _ _ refl h;
    appends_call = λ run p a o e h. Begun-snoc _ _ _ refl h;
  };
  opens_text =
      λ run txt e h. Begun-snoc _ _ _ refl (Begun-snoc _ _ _ refl (Begun-snoc _ _ _ refl h));
  appends_text = λ run txt t e h. Begun-snoc _ _ _ refl h;
}

start-new :
    (uuid : ℕ → Text) (now : ℕ) (model : Text) (ns : NamespaceMap)
    → IsBegun (start (new uuid now model ns))
unfolding IsBegun Begun start new emit
start-new uuid now model ns = (refl, refl, refl)

-- Started, and the run on which the stream ends.
feed_all-IsBegun :
    (uuid : ℕ → Text) (now : ℕ) (model : Text) (ns : NamespaceMap) (chunks : List Value)
    → IsBegun (start (feed_all uuid (new uuid now model ns) chunks))
unfolding feed_all
feed_all-IsBegun uuid now model ns [] = start-new uuid now model ns
feed_all-IsBegun uuid now model ns (c ∷ cs) =
    let law = IsBegun-IsKept uuid in
    let run = new uuid now model ns in
    law.apart.starts _ (
      feed_all-IsKept law (feed uuid run c) cs
        (feed-start law run c (new-IsLive uuid now model ns) (start-new uuid now model ns)))

close_calls-IsBegun : (run : Run) (cs : List OpenItem) → IsBegun run → IsBegun (close_calls run cs)
unfolding IsBegun close_calls close_call emit
close_calls-IsBegun run [] h = h
close_calls-IsBegun run (c ∷ cs) h =
    close_calls-IsBegun (close_call run c) cs (Begun-snoc _ _ _ refl (Begun-snoc _ _ _ refl h))

take_calls-IsBegun : (run : Run) → IsBegun run → IsBegun (take_calls run)
unfolding IsBegun take_calls
take_calls-IsBegun run h = close_calls-IsBegun _ run.st.calls h

IsWhole-snoc :
    (out : List Event) (started : Bool) (e : Event)
    → is_terminal e.payload ≡ true
    → Begun out started
    → IsWhole (out ++ e ∷ [])
unfolding Begun
IsWhole-snoc out started e t (s, b, k) = (
  is_begun-snoc out e b,
  ground (arith, k, t, count-append (λ e. is_terminal e.payload) out (e ∷ [])),
  rw (last-snoc out e) t,
)

end_response-IsWhole : (run : Run) → IsBegun run → IsWhole (end_response run).out
unfolding IsBegun end_response emit
end_response-IsWhole run h =
    if-intro {A = Run} (λ r. IsWhole r.out) run.st.truncated _ _ (λ _. IsWhole-snoc _ _ _ refl h)
      (λ _. IsWhole-snoc _ _ _ refl h)

-- Every stream that ends begins with `response.created` and `response.in_progress` and has exactly
-- one event of the kinds `response.completed` and `response.incomplete`, which is its last event.
pub finish-IsWhole :
    (uuid : ℕ → Text) (now : ℕ) (model : Text) (ns : NamespaceMap) (chunks : List Value)
    → IsWhole (finish (feed_all uuid (new uuid now model ns) chunks)).out
unfolding finish
finish-IsWhole uuid now model ns chunks =
    let run = feed_all uuid (new uuid now model ns) chunks in
    let live = feed_all-IsLive uuid now model ns chunks in
    if-intro {A = Run} (λ r. IsWhole r.out) run.st.finished run _
      (λ f. absurd (ground (arith, live, f)))
      (λ _. end_response-IsWhole _ (
        take_calls-IsBegun _ (
          close_text-IsKept (IsBegun-IsKept uuid).apart _
            (feed_all-IsBegun uuid now model ns chunks))))

end_response-finished : (run : Run) → (end_response run).st.finished ≡ true
unfolding end_response emit
end_response-finished run =
    if-intro {A = Run} (λ r. r.st.finished ≡ true) run.st.truncated _ _ (λ _. refl) (λ _. refl)

finish-finished : (run : Run) → (finish run).st.finished ≡ true
unfolding finish
finish-finished run =
    if-intro {A = Run} (λ r. r.st.finished ≡ true) run.st.finished run _ (λ f. f)
      (λ _. end_response-finished _)

feed-finished :
    (uuid : ℕ → Text) (run : Run) (chunk : Value)
    → run.st.finished ≡ true
    → feed uuid run chunk ≡ run
unfolding feed
feed-finished uuid run chunk f =
    if-intro (λ r. r ≡ run) run.st.finished run _ (λ _. refl)
      (λ live. absurd (ground (arith, live, f)))

feed_all-finished :
    (uuid : ℕ → Text) (run : Run) (chunks : List Value)
    → run.st.finished ≡ true
    → feed_all uuid run chunks ≡ run
unfolding feed_all
feed_all-finished uuid run [] f = refl
feed_all-finished uuid run (c ∷ cs) f =
    ap (λ r. feed_all uuid r cs) (feed-finished uuid run c f) ∙ feed_all-finished uuid run cs f

finish_again : (run : Run) → run.st.finished ≡ true → finish run ≡ run
unfolding finish
finish_again run f =
    if-intro (λ r. r ≡ run) run.st.finished run _ (λ _. refl)
      (λ live. absurd (ground (arith, live, f)))

-- A stream that has ended sends nothing more: later chunks and a second end change nothing.
finish-feed_all :
    (uuid : ℕ → Text) (run : Run) (chunks : List Value)
    → (feed_all uuid (finish run) chunks ≡ finish run) × (finish (finish run) ≡ finish run)
finish-feed_all uuid run chunks = (
  feed_all-finished uuid (finish run) chunks (finish-finished run),
  finish_again (finish run) (finish-finished run),
)
