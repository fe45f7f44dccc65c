-- ===== src/Responses/Stream/Induction.antt =====
-- Invariants of the stream translation: what each step keeps, every sequence of chunks keeps.
use router.Prelude.{
  ℕ, ◌≡◌, refl, true, false, List, [], ◌∷◌, Option, none, some, if-intro, map_or-intro, arith,
  get_elem?, position, unwrap_or, length,
}
use router.Prelude.Int.{ℤ, pos}
use router.Prelude.Text.{Text, codes}
use router.Json.{Value, index, as_str, as_i64}
use router.Responses.Names.{NamespaceMap}
use router.Responses.Reply.{usage_of}
use router.Responses.Stream.{
  OpenItem, Run, new, emit, start, close_item, close_text, append_text, append_call, with_arguments,
  filled, feed_arguments, feed_model, feed_usage, feed_reason, open_text, feed_text, open_call,
  is_call, feed_call, feed_calls, feed_tools, feed_choice, feed, feed_all,
}

-- The steps other than those that add text to a message keep `P`.
pub record IsKeptApart (uuid : ℕ → Text) (P : Run → Type 0) : Type 0 where
  pub starts : (run : Run) → P run → P (start run)
  pub models : (run : Run) (m : Text) → P run → P (record run { st = record run.st { model = m } })
  pub uses : (run : Run) (u : Value) → P run → P (record run { st = record run.st { usage = u } })
  pub truncates : (run : Run) → P run → P (record run { st = record run.st { truncated = true } })
  pub closes_text : (run : Run) (t : OpenItem) → run.st.text ≡ some t → P run → P (close_item run t)
  pub opens_call : (run : Run) (c : Value) (ti : ℤ) → P run → P (open_call uuid run c ti)
  pub appends_call :
      (run : Run) (p : ℕ) (a : Text) (o : OpenItem)
      → get_elem? run.st.calls p ≡ some o
      → P run
      → P (append_call run p a o)

-- All the steps that a chunk is made of keep `P`.
pub record IsKept (uuid : ℕ → Text) (P : Run → Type 0) : Type 0 where
  pub apart : IsKeptApart uuid P
  pub opens_text :
      (run : Run) (txt : Text) → run.st.text ≡ none → P run → P (open_text uuid run txt)
  pub appends_text :
      (run : Run) (txt : Text) (t : OpenItem)
      → run.st.text ≡ some t
      → P run
      → P (append_text run txt t)

module _ {uuid : ℕ → Text} {P : Run → Type 0} (law : IsKeptApart uuid P) where
  pub close_text-IsKept : (run : Run) → P run → P (close_text run)
  unfolding close_text
  close_text-IsKept run h =
      map_or-intro P run (close_item run) run.st.text (λ _. h) (λ t e. law.closes_text run t e h)

  with_arguments-IsKept : (run : Run) (p : ℕ) (a : Text) → P run → P (with_arguments run p a)
  unfolding with_arguments
  with_arguments-IsKept run p a h =
      map_or-intro P run (append_call run p a) (get_elem? run.st.calls p) (λ _. h)
        (λ o e. law.appends_call run p a o e h)

  feed_arguments-IsKept : (run : Run) (p : ℕ) (c : Value) → P run → P (feed_arguments run p c)
  unfolding feed_arguments
  feed_arguments-IsKept run p c h =
      map_or-intro P run (with_arguments run p) _ (λ _. h) (λ a _. with_arguments-IsKept run p a h)

  feed_call-IsKept : (run : Run) (c : Value) → P run → P (feed_call uuid run c)
  unfolding feed_call
  feed_call-IsKept run c h =
      let ti = unwrap_or (as_i64 (index c (codes "index"))) (pos 0) in
      map_or-intro P _ (λ p. feed_arguments run p c) (position (is_call uuid ti) run.st.calls)
        (λ _.
          feed_arguments-IsKept (open_call uuid run c ti) (length run.st.calls) c
            (law.opens_call run c ti h))
        (λ p _. feed_arguments-IsKept run p c h)

  feed_calls-IsKept : (run : Run) (cs : List Value) → P run → P (feed_calls uuid run cs)
  unfolding feed_calls
  feed_calls-IsKept run [] h = h
  feed_calls-IsKept run (c ∷ cs) h =
      feed_calls-IsKept (feed_call uuid run c) cs (feed_call-IsKept run c h)

  pub feed_tools-IsKept :
      (run : Run) (calls : Option (List Value)) → P run → P (feed_tools uuid run calls)
  unfolding feed_tools
  feed_tools-IsKept run none h = h
  feed_tools-IsKept run (some cs) h =
      feed_calls-IsKept (close_text run) cs (close_text-IsKept run h)

  pub feed_reason-IsKept : (run : Run) (choice : Value) → P run → P (feed_reason run choice)
  unfolding feed_reason
  feed_reason-IsKept run choice h = if-intro P _ _ run (λ _. law.truncates run h) (λ _. h)

  pub feed_model-IsKept : (run : Run) (chunk : Value) → P run → P (feed_model run chunk)
  unfolding feed_model
  feed_model-IsKept run chunk h =
      map_or-intro P run _ (as_str (index chunk (codes "model"))) (λ _. h)
        (λ m _. law.models run m h)

  pub feed_usage-IsKept : (run : Run) (chunk : Value) → P run → P (feed_usage run chunk)
  unfolding feed_usage
  feed_usage-IsKept run chunk h = if-intro P _ _ run (λ _. law.uses run (usage_of chunk) h) (λ _. h)

module _ {uuid : ℕ → Text} {P : Run → Type 0} (law : IsKept uuid P) where
  feed_text-IsKept : (run : Run) (content : Value) → P run → P (feed_text uuid run content)
  unfolding feed_text
  feed_text-IsKept run content h =
      map_or-intro P run _ (filled content) (λ _. h)
        (λ txt _.
          map_or-intro P (open_text uuid run txt) (append_text run txt) run.st.text
            (λ n. law.opens_text run txt n h) (λ t n. law.appends_text run txt t n h))

  feed_choice-IsKept : (run : Run) (choice : Value) → P run → P (feed_choice uuid run choice)
  unfolding feed_choice
  feed_choice-IsKept run choice h =
      feed_reason-IsKept law.apart _ choice
        (feed_tools-IsKept law.apart _ _ (feed_text-IsKept run _ h))

  -- A chunk of a live stream starts it first.
  pub feed-start :
      (run : Run) (chunk : Value)
      → run.st.finished ≡ false
      → P (start run)
      → P (feed uuid run chunk)
  unfolding feed
  feed-start run chunk live h =
      if-intro P run.st.finished run _ (λ f. absurd (ground (arith, live, f)))
        (λ _.
          feed_choice-IsKept _ _
            (feed_usage-IsKept law.apart _ chunk (feed_model-IsKept law.apart _ chunk h)))

  pub feed-IsKept : (run : Run) (chunk : Value) → P run → P (feed uuid run chunk)
  unfolding feed
  feed-IsKept run chunk h =
      if-intro P run.st.finished run _ (λ _. h)
        (λ _. feed_choice-IsKept _ _ (
          feed_usage-IsKept law.apart _ chunk
            (feed_model-IsKept law.apart _ chunk (law.apart.starts run h))))

  pub feed_all-IsKept : (run : Run) (chunks : List Value) → P run → P (feed_all uuid run chunks)
  unfolding feed_all
  feed_all-IsKept run [] h = h
  feed_all-IsKept run (c ∷ cs) h = feed_all-IsKept (feed uuid run c) cs (feed-IsKept run c h)

-- No chunk ends the stream.
abbrev pub IsLive : Run → Type 0
IsLive run = run.st.finished ≡ false

pub IsLive-IsKept : (uuid : ℕ → Text) → IsKept uuid IsLive
unfolding emit start close_item append_text append_call open_text open_call
IsLive-IsKept uuid = record {
  apart = record {
    starts = λ run h. if-intro IsLive run.st.started run _ (λ _. h) (λ _. h);
    models = λ run m h. h;
    uses = λ run u h. h;
    truncates = λ run h. h;
    closes_text = λ run t e h. h;
    opens_call = λ run c ti h. h;
    appends_call = λ run p a o e h. h;
  };
  opens_text = λ run txt e h. h;
  appends_text = λ run txt t e h. h;
}

pub new-IsLive :
    (uuid : ℕ → Text) (now : ℕ) (model : Text) (ns : NamespaceMap) → IsLive (new uuid now model ns)
unfolding new
new-IsLive uuid now model ns = refl

-- While the chunks come in, the stream is live.
pub feed_all-IsLive :
    (uuid : ℕ → Text) (now : ℕ) (model : Text) (ns : NamespaceMap) (chunks : List Value)
    → IsLive (feed_all uuid (new uuid now model ns) chunks)
feed_all-IsLive uuid now model ns chunks =
    feed_all-IsKept (IsLive-IsKept uuid) (new uuid now model ns) chunks
      (new-IsLive uuid now model ns)

-- Closing the message leaves none open.
pub close_text-none : (run : Run) → (close_text run).st.text ≡ none
unfolding close_text close_item emit
close_text-none run =
    map_or-intro (λ r. r.st.text ≡ none) run (close_item run) run.st.text (λ e. e) (λ t e. refl)
