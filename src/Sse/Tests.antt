-- ===== src/Sse/Tests.antt =====
-- Runs of the framer on chunks that split characters and line ends.
use router.Prelude.{◌++◌, ℕ, ◌≡◌, refl, [], ◌∷◌, List}
use router.Prelude.Text.{codes}
use router.Sse.{SseFramer, new, push, read_chunks, next_blocks}
use router.Sse.Chunks.{read_whole, joined, read_chunks-read_whole}
use router.Sse.Blocks.{IsCut, next_blocks-IsCut}

-- `é` and `\r\n` are split between the chunks.
abbrev chunks : List (List ℕ)
chunks = (0x61 ∷ 0xc3 ∷ []) ∷ (0xa9 ∷ 13 ∷ []) ∷ (10 ∷ 13 ∷ 10 ∷ 0x62 ∷ 0xe2 ∷ []) ∷ []

split_reads : read_chunks new chunks ≡ ((0x61 ∷ 0xe9 ∷ 10 ∷ 10 ∷ []) ∷ [], 0x62 ∷ 0xfffd ∷ [])
unfolding read_chunks next_blocks router.Sse.finish router.Sse.Split.split_all
    router.Sse.Split.split_within router.Sse.push router.Sse.push_text new router.Sse.replace_crlf
    router.Sse.pop_cr router.Sse.with_cr router.Sse.decode router.Sse.Utf8.utf8_step
    router.Sse.Utf8.two router.Sse.first_block router.Sse.Utf8.expect router.Sse.Utf8.is_trail
    router.Sse.Utf8.three router.Sse.Utf8.is_second router.Sse.Utf8.third router.Sse.finish_decoder
split_reads = refl

read_chunks-read_whole_example : read_chunks new chunks ≡ read_whole (joined chunks)
read_chunks-read_whole_example = read_chunks-read_whole chunks

abbrev two_events : SseFramer
two_events = (push new (codes "a" ++ 10 ∷ 13 ∷ 10 ∷ codes "b" ++ 10 ∷ 10 ∷ codes "c")).0

next_blocks-IsCut_example :
    IsCut two_events.buf ((next_blocks two_events).0, (next_blocks two_events).1.buf)
    × ((next_blocks two_events).1.pending ≡ two_events.pending)
    × ((next_blocks two_events).1.held_cr ≡ two_events.held_cr)
next_blocks-IsCut_example = next_blocks-IsCut two_events
