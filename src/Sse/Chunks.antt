-- ===== src/Sse/Chunks.antt =====
-- The blocks of src/providers/adapter/sse.rs do not depend on how the bytes were cut into chunks.
use router.Prelude.{
  ℕ, ◌≡◌, refl, ap, ◌∙◌, sym, Bool, true, false, List, [], ◌∷◌, ◌++◌, Option, none, some,
  append-nil, Option-cases, inl, inr, append_assoc, flat_map,
}
use router.Prelude.Text.{Text}
use router.Sse.{
  SseFramer, new, decode, push_text, push, with_cr, pop_cr, replace_crlf, first_block, next_block,
  next_blocks, finish, finish_decoder, read_chunks,
}
use router.Sse.Split.{split_all, split_all-append, split_all-none, split_all-some, split_all-rest}
use router.Sse.Utf8.{utf8_step, utf8_step-IsReader}
use router.Sse.Framing.{crlf_step, crlf_step-IsReader, first_block-IsReader, split_all-pop_cr}

-- The reference: all bytes are decoded, then all line ends are read, then all blocks are cut off. What
-- is left at each stage joins the remainder at the end.
unfoldable pub reads_from : List ℕ → Text → Text → List ℕ → List Text × Text
reads_from pending cr buf bytes =
    let (text, pending) = split_all utf8_step (pending ++ bytes) in
    let (lines, cr) = split_all crlf_step (cr ++ text) in
    let (blocks, buf) = split_all first_block (buf ++ lines) in
    (blocks, buf ++ finish_decoder pending ++ cr)

abbrev pub read_whole : List ℕ → List Text × Text
read_whole bytes = reads_from [] [] [] bytes

-- Nothing is left in the framer that could be read without more bytes.
IsSettled : SseFramer → Type 0
IsSettled f =
    (utf8_step f.pending ≡ none)
    × (crlf_step (with_cr f.held_cr []) ≡ none)
    × (first_block f.buf ≡ none)

reads : SseFramer → List ℕ → List Text × Text
reads f bytes = reads_from f.pending (with_cr f.held_cr []) f.buf bytes

-- The framer behind one chunk, in terms of the readers.
after : SseFramer → List ℕ → SseFramer
after f chunk = (next_blocks (push f chunk).0).1

reads-settled : (f : SseFramer) → IsSettled f → reads f [] ≡ ([], finish f)
unfolding IsSettled reads reads_from finish
reads-settled f (u, c, b) =
    rw (append-nil f.pending, split_all-none utf8_step-IsReader f.pending u)
      (rw
        (
          append-nil (with_cr f.held_cr []),
          split_all-none crlf_step-IsReader (with_cr f.held_cr []) c,
        )
        (rw (append-nil f.buf, split_all-none first_block-IsReader f.buf b) refl))

with_cr-append : (b : Bool) (s : Text) → with_cr b s ≡ with_cr b [] ++ s
unfolding with_cr
with_cr-append true s = refl
with_cr-append false s = refl

-- The stages of one chunk, as the reference has them.
abbrev text_of : SseFramer → List ℕ → Text × List ℕ
text_of f chunk = split_all utf8_step (f.pending ++ chunk)

abbrev lines_of : SseFramer → List ℕ → Text × Text
lines_of f chunk = split_all crlf_step (with_cr f.held_cr [] ++ (text_of f chunk).0)

abbrev blocks_of : SseFramer → List ℕ → List Text × Text
blocks_of f chunk = split_all first_block (f.buf ++ (lines_of f chunk).0)

popped :
    (f : SseFramer) (chunk : List ℕ)
    → lines_of f chunk ≡ (
      replace_crlf (pop_cr (with_cr f.held_cr (text_of f chunk).0)).0,
      with_cr (pop_cr (with_cr f.held_cr (text_of f chunk).0)).1 [],
    )
popped f chunk =
    rw⁻¹ (with_cr-append f.held_cr (text_of f chunk).0)
      (split_all-pop_cr (with_cr f.held_cr (text_of f chunk).0))

after_lem :
    (f : SseFramer) (chunk : List ℕ)
    → ((after f chunk).pending ≡ (text_of f chunk).1)
      × (with_cr (after f chunk).held_cr [] ≡ (lines_of f chunk).1)
      × ((after f chunk).buf ≡ (blocks_of f chunk).1)
      × ((next_blocks (push f chunk).0).0 ≡ (blocks_of f chunk).0)
unfolding after next_blocks push decode push_text
after_lem f chunk = rw (popped f chunk) (refl, refl, refl, refl)

after-IsSettled : (f : SseFramer) (chunk : List ℕ) → IsSettled (after f chunk)
unfolding IsSettled
after-IsSettled f chunk =
    let (p, c, b, _) = after_lem f chunk in
    (
      rw p (split_all-rest utf8_step-IsReader (f.pending ++ chunk)),
      rw c (split_all-rest crlf_step-IsReader (with_cr f.held_cr [] ++ (text_of f chunk).0)),
      rw b (split_all-rest first_block-IsReader (f.buf ++ (lines_of f chunk).0)),
    )

reads-chunk :
    (f : SseFramer) (chunk bytes : List ℕ)
    → reads f (chunk ++ bytes) ≡ (
      (blocks_of f chunk).0
          ++ (reads_from (text_of f chunk).1 (lines_of f chunk).1 (blocks_of f chunk).1 bytes).0,
      (reads_from (text_of f chunk).1 (lines_of f chunk).1 (blocks_of f chunk).1 bytes).1,
    )
unfolding reads reads_from
reads-chunk f chunk bytes =
    let more = split_all utf8_step ((text_of f chunk).1 ++ bytes) in
    let more_lines = split_all crlf_step ((lines_of f chunk).1 ++ more.0) in
    rw
      (
        sym (append_assoc f.pending chunk bytes),
        split_all-append utf8_step-IsReader (f.pending ++ chunk) bytes,
        sym (append_assoc (with_cr f.held_cr []) (text_of f chunk).0 more.0),
        split_all-append crlf_step-IsReader (with_cr f.held_cr [] ++ (text_of f chunk).0) more.0,
        sym (append_assoc f.buf (lines_of f chunk).0 more_lines.0),
        split_all-append first_block-IsReader (f.buf ++ (lines_of f chunk).0) more_lines.0,
      )
      refl

reads-after :
    (f : SseFramer) (chunk bytes : List ℕ)
    → reads f (chunk ++ bytes) ≡ (
      (next_blocks (push f chunk).0).0 ++ (reads (after f chunk) bytes).0,
      (reads (after f chunk) bytes).1,
    )
unfolding reads
reads-after f chunk bytes =
    let (p, c, b, d) = after_lem f chunk in rw (p, c, b, d) (reads-chunk f chunk bytes)

-- All bytes of the chunks.
abbrev pub joined : List (List ℕ) → List ℕ
joined chunks = flat_map (λ c. c) chunks

read_chunks-reads :
    (f : SseFramer) (chunks : List (List ℕ))
    → IsSettled f
    → read_chunks f chunks ≡ reads f (joined chunks)
unfolding read_chunks after
read_chunks-reads f [] h = sym (reads-settled f h)
read_chunks-reads f (c ∷ cs) h =
    ap (λ (p : List Text × Text). ((next_blocks (push f c).0).0 ++ p.0, p.1))
      (read_chunks-reads (after f c) cs (after-IsSettled f c))
    ∙ sym (reads-after f c (joined cs))

-- The framer refines the reference that decodes, reads the line ends of, and cuts into blocks the
-- whole byte stream at once: however the bytes come in chunks, the blocks and the remainder are those
-- of the reference. In particular a character, a line end or a separator that is split between two
-- chunks is read as if it were not.
pub read_chunks-read_whole :
    (chunks : List (List ℕ)) → read_chunks new chunks ≡ read_whole (joined chunks)
unfolding reads IsSettled new with_cr utf8_step crlf_step first_block
read_chunks-read_whole chunks = read_chunks-reads new chunks (refl, refl, refl)

-- One turn of the loop over `next_block`.
abbrev turn : Option Text × SseFramer → List Text × SseFramer
turn (none, f) = ([], f)
turn (some block, f) = (block ∷ (next_blocks f).0, (next_blocks f).1)

-- Taking blocks until none is left ends, and it is the loop over `next_block`: nothing where there is
-- no block, and else the first block and the loop over the framer without it.
next_blocks_lem : (f : SseFramer) → next_blocks f ≡ turn (next_block f)
unfolding next_blocks next_block
next_blocks_lem f = elim (Option-cases (first_block f.buf)) [
  | inl e ↦ rw (e, next_block, split_all-none first_block-IsReader f.buf e) refl
  | inr ((b, r), e) ↦ rw (e, next_block, split_all-some first_block-IsReader f.buf b r e) refl
]
