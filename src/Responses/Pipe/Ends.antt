-- ===== src/Responses/Pipe/Ends.antt =====
-- Every stream that `translate_stream` of src/proxy/responses.rs serves is a whole one.
use router.Prelude.{
  ℕ, ◌≡◌, refl, ap, ◌∙◌, sym, Bool, true, List, [], ◌∷◌, ◌++◌, Option, if-intro, filter_map,
  flat_map, Option-cases, inl, inr, ◌&&◌, arith,
}
use router.Prelude.Text.{Text}
use router.Json.{Value}
use router.Sse.{SseFramer, push, next_blocks, read_chunks}
use router.Sse
use router.Sse.Chunks.{read_whole, joined, read_chunks-read_whole}
use router.Responses.Names.{NamespaceMap}
use router.Responses.Stream.{Run, Event, new, feed, feed_all, finish}
use router.Responses.Stream.Numbers.{IsNumbered, finish-IsNumbered}
use router.Responses.Stream.Items.{IsClosed, finish-IsClosed}
use router.Responses.Stream.Shape.{IsWhole, finish-IsWhole}
use router.Responses.Pipe.{lines, value_of, feed_lines, feed_block, feed_blocks, translate}

abbrev pub IsProper : List Event → Type 0
IsProper out = IsWhole out × IsNumbered 0 out × IsClosed out

module _ (from_str : Text → Option Value) where
  -- The chunks that a block carries.
  abbrev values_of : Text → List Value
  values_of block = filter_map (value_of from_str) (lines block)

  module _ (uuid : ℕ → Text) where
    feed_all-append :
        (run : Run) (vs ws : List Value)
        → feed_all uuid run (vs ++ ws) ≡ feed_all uuid (feed_all uuid run vs) ws
    unfolding feed_all
    feed_all-append run [] ws = refl
    feed_all-append run (v ∷ vs) ws = feed_all-append (feed uuid run v) vs ws

    feed_lines-values :
        (run : Run) (ls : List Text)
        → feed_lines from_str uuid run ls ≡ feed_all uuid run (filter_map (value_of from_str) ls)
    unfolding feed_lines feed_all
    feed_lines-values run [] = refl
    feed_lines-values run (l ∷ ls) = elim (Option-cases (value_of from_str l)) [
      | inl e ↦ rw (e, filter_map) (feed_lines-values run ls)
      | inr (v, e) ↦ rw (e, filter_map) (feed_lines-values (feed uuid run v) ls)
    ]

    feed_block-values :
        (run : Run) (block : Text)
        → feed_block from_str uuid run block ≡ feed_all uuid run (values_of block)
    unfolding feed_block
    feed_block-values run block = feed_lines-values run (lines block)

    feed_blocks-values :
        (run : Run) (blocks : List Text)
        → feed_blocks from_str uuid run blocks ≡ feed_all uuid run (flat_map values_of blocks)
    unfolding feed_blocks feed_all
    feed_blocks-values run [] = refl
    feed_blocks-values run (b ∷ bs) =
        feed_blocks-values (feed_block from_str uuid run b) bs
        ∙ ap (λ r. feed_all uuid r (flat_map values_of bs)) (feed_block-values run b)
        ∙ sym (feed_all-append run (values_of b) (flat_map values_of bs))

    -- The stream of some chunks, ended once.
    Ends : Run → Run → Type 0
    Ends run ended = (vs : List Value) × (ended ≡ finish (feed_all uuid run vs))

    Ends-more :
        (run ended : Run) (vs : List Value) → Ends (feed_all uuid run vs) ended → Ends run ended
    unfolding Ends
    Ends-more run ended vs (ws, e) = (vs ++ ws, e ∙ ap finish (sym (feed_all-append run vs ws)))

    translate-Ends :
        (run : Run) (framer : SseFramer) (chunks : List (List ℕ))
        → Ends run (translate from_str uuid run framer chunks)
    unfolding translate Ends
    translate-Ends run framer [] = (
      values_of (router.Sse.finish framer),
      ap finish (feed_block-values run (router.Sse.finish framer)),
    )
    translate-Ends run framer (c ∷ cs) =
        let pushed = push framer c in
        let taken = next_blocks pushed.0 in
        let vs = flat_map values_of taken.0 in
        let fed = feed_blocks from_str uuid run taken.0 in
        if-intro (Ends run) pushed.1 (translate from_str uuid fed taken.1 cs) (finish fed)
          (λ _. Ends-more run _ vs (
            rw (feed_blocks-values run taken.0) (translate-Ends (feed_all uuid run vs) taken.1 cs)))
          (λ _. (vs, ap finish (feed_blocks-values run taken.0)))

    -- Whatever bytes the upstream sends and however it ends, also where its blocks grow too long, the
    -- client gets a whole stream: announced first, ended by one last event, numbered without a gap,
    -- with every item that was opened closed and reported.
    pub translate-IsWhole :
        (now : ℕ) (model : Text) (ns : NamespaceMap) (chunks : List (List ℕ))
        → IsProper (translate from_str uuid (new uuid now model ns) router.Sse.new chunks).out
    unfolding Ends
    translate-IsWhole now model ns chunks =
        let (vs, e) = translate-Ends (new uuid now model ns) router.Sse.new chunks in
        rw e (
          finish-IsWhole uuid now model ns vs,
          finish-IsNumbered uuid now model ns vs,
          finish-IsClosed uuid now model ns vs,
        )

    -- No chunk makes the framer's buffer too long.
    abbrev pub fits : SseFramer → List (List ℕ) → Bool
    fits framer [] = true
    fits framer (c ∷ cs) = (push framer c).1 && fits (next_blocks (push framer c).0).1 cs

    -- The translation of all blocks and the remainder.
    abbrev pub translate_blocks : Run → List Text × Text → Run
    translate_blocks run (blocks, rest) =
        finish (feed_block from_str uuid (feed_blocks from_str uuid run blocks) rest)

    feed_blocks-append :
        (run : Run) (bs cs : List Text)
        → feed_blocks from_str uuid run (bs ++ cs)
          ≡ feed_blocks from_str uuid (feed_blocks from_str uuid run bs) cs
    unfolding feed_blocks
    feed_blocks-append run [] cs = refl
    feed_blocks-append run (b ∷ bs) cs = feed_blocks-append (feed_block from_str uuid run b) bs cs

    translate-read_chunks :
        (run : Run) (framer : SseFramer) (chunks : List (List ℕ))
        → fits framer chunks ≡ true
        → translate from_str uuid run framer chunks
          ≡ translate_blocks run (read_chunks framer chunks)
    unfolding translate read_chunks feed_blocks
    translate-read_chunks run framer [] h = refl
    translate-read_chunks run framer (c ∷ cs) h =
        let pushed = push framer c in
        let taken = next_blocks pushed.0 in
        let fed = feed_blocks from_str uuid run taken.0 in
        let after = read_chunks taken.1 cs in
        if-intro
          (λ r.
            r
            ≡ finish (
                feed_block from_str uuid (feed_blocks from_str uuid run (taken.0 ++ after.0))
                  after.1))
          pushed.1 (translate from_str uuid fed taken.1 cs) (finish fed)
          (λ _.
            rw (feed_blocks-append run taken.0 after.0)
              (translate-read_chunks fed taken.1 cs (ground (arith, h))))
          (λ f. absurd (ground (arith, h, f)))

    -- Where the buffer never grows too long, the events depend on the bytes alone and not on the chunks
    -- in which they come: they are those for the blocks of the whole stream.
    pub translate-read_whole :
        (run : Run) (chunks : List (List ℕ))
        → fits router.Sse.new chunks ≡ true
        → translate from_str uuid run router.Sse.new chunks
          ≡ translate_blocks run (read_whole (joined chunks))
    translate-read_whole run chunks h =
        translate-read_chunks run router.Sse.new chunks h
        ∙ ap (translate_blocks run) (read_chunks-read_whole chunks)
