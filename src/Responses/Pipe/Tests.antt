-- ===== src/Responses/Pipe/Tests.antt =====
-- Runs of the stream translation on bytes.
use router.Prelude.{ℕ, ◌≡◌, refl, true, [], ◌∷◌, List, Option, none, some}
use router.Prelude.Text.{Text, codes}
use router.Json.{Value, str, object, array}
use router.Sse
use router.Sse.Chunks.{read_whole, joined}
use router.Responses.Stream.{new}
use router.Responses.Pipe.{translate, lines}
use router.Responses.Pipe.Ends.{
  IsProper, translate-IsWhole, fits, translate_blocks, translate-read_whole,
}

abbrev uuid : ℕ → Text
uuid n = n ∷ []

abbrev said : Value
said = object (
    (
      codes "choices",
      array (object ((codes "delta", object ((codes "content", str (codes "a")) ∷ [])) ∷ []) ∷ []),
    )
    ∷ [])

-- A parser that reads every line alike.
abbrev from_str : Text → Option Value
from_str t = some said

-- `data: 1`, split in two, and its separator.
abbrev chunks : List (List ℕ)
chunks = (100 ∷ 97 ∷ 116 ∷ []) ∷ (97 ∷ 58 ∷ 32 ∷ 49 ∷ 10 ∷ 10 ∷ []) ∷ []

two_lines : lines (97 ∷ 13 ∷ 10 ∷ 98 ∷ []) ≡ (97 ∷ []) ∷ (98 ∷ []) ∷ []
unfolding lines
two_lines = refl

translate-IsWhole_example :
    IsProper (translate from_str uuid (new uuid 7 (codes "m") []) router.Sse.new chunks).out
translate-IsWhole_example = translate-IsWhole from_str uuid 7 (codes "m") [] chunks

fits-chunks : fits from_str uuid router.Sse.new chunks ≡ true
unfolding Sse.push router.Prelude.Text.len Sse.push_text Sse.new Sse.replace_crlf Sse.pop_cr
    Sse.with_cr Sse.decode router.Sse.Split.split_all router.Sse.Split.split_within
    router.Sse.Utf8.utf8_step Sse.next_blocks Sse.first_block
fits-chunks = refl

translate-read_whole_example :
    translate from_str uuid (new uuid 7 (codes "m") []) router.Sse.new chunks
    ≡ translate_blocks from_str uuid (new uuid 7 (codes "m") []) (read_whole (joined chunks))
translate-read_whole_example =
    translate-read_whole from_str uuid (new uuid 7 (codes "m") []) chunks fits-chunks
