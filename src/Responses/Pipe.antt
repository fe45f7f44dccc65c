-- ===== src/Responses/Pipe.antt =====
-- `translate_stream` of src/proxy/responses.rs: bytes come in, the framer cuts them into blocks, the
-- blocks are read as chunks of a chat completion.
pub mod Ends
pub mod Tests
use router.Prelude.{
  ℕ, Bool, true, false, ◌||◌, ◌&&◌, List, [], ◌∷◌, ◌++◌, Option, none, some, ◌>>=◌, if◌then◌else◌,
  nat_beq, is_empty, map_or,
}
use router.Prelude.Text.{Text, codes, text_eq, strip_prefix, trim}
use router.Json.{Value}
use router.Sse.{SseFramer, push, next_blocks}
use router.Sse
use router.Responses.Stream.{Run, feed, feed_all, finish}

-- `str::lines`: a line ends with `\n` or `\r\n`.
abbrev begins_lf : Text → Bool
begins_lf [] = false
begins_lf (c ∷ s) = nat_beq c 10

abbrev longer_line : ℕ → List Text → List Text
longer_line c [] = (c ∷ []) ∷ []
longer_line c (line ∷ lines) = (c ∷ line) ∷ lines

pub lines : Text → List Text
lines [] = []
lines (c ∷ s) =
    let rest = lines s in
    if nat_beq c 10
    then [] ∷ rest
    else if nat_beq c 13 && begins_lf s
    then rest
    else longer_line c rest

-- `from_str` is the JSON parser.
module _ (from_str : Text → Option Value) where
  -- The value of a line that carries data.
  pub value_of : Text → Option Value
  value_of line = strip_prefix line (codes "data:") >>= λ d.
      (if is_empty (trim d) || text_eq (trim d) (codes "[DONE]") then none else from_str (trim d))

  module _ (uuid : ℕ → Text) where
    pub feed_lines : Run → List Text → Run
    feed_lines run [] = run
    feed_lines run (line ∷ rest) = feed_lines (map_or run (feed uuid run) (value_of line)) rest

    pub feed_block : Run → Text → Run
    feed_block run block = feed_lines run (lines block)

    pub feed_blocks : Run → List Text → Run
    feed_blocks run [] = run
    feed_blocks run (block ∷ blocks) = feed_blocks (feed_block run block) blocks

    -- The stream, until the upstream ends or fails, or the framer's buffer is too long.
    pub translate : Run → SseFramer → List (List ℕ) → Run
    translate run framer [] = finish (feed_block run (router.Sse.finish framer))
    translate run framer (chunk ∷ chunks) =
        let (pushed, ok) = push framer chunk in
        let (blocks, framer) = next_blocks pushed in
        let run = feed_blocks run blocks in
        let later = translate run framer chunks in if ok then later else finish run
