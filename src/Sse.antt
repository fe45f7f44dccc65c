-- ===== src/Sse.antt =====
-- src/providers/adapter/sse.rs: the blocks of a byte stream that comes in chunks of any size.
pub mod Split
pub mod Utf8
pub mod Framing
pub mod Chunks
pub mod Blocks
pub mod Tests
use router.Prelude.{
  ℕ, ◌+◌, ◌*◌, Bool, true, false, List, [], ◌∷◌, ◌++◌, ◌&&◌, ◌>>=◌, Option, none, some,
  if◌then◌else◌, is_empty, leb, nat_beq,
}
use router.Prelude.Text.{Text, len, codes}
use router.Sse.Split.{split_all}
use router.Sse.Utf8.{utf8_step, replacement}

abbrev max_sse_buffer : ℕ
max_sse_buffer = 16 * 1024 * 1024

-- `Utf8Decoder::decode`, from the bytes that wait: the text, and the bytes that now wait.
unfoldable pub decode : List ℕ → List ℕ → Text × List ℕ
decode pending bytes = split_all utf8_step (pending ++ bytes)

-- `Utf8Decoder::finish`: an incomplete sequence becomes one replacement character.
pub finish_decoder : List ℕ → Text
finish_decoder pending = if is_empty pending then [] else replacement ∷ []

pub record SseFramer : Type 0 where
  pub pending : List ℕ
  pub buf : Text
  pub held_cr : Bool

unfoldable pub new : SseFramer
new = record { pending = []; buf = []; held_cr = false }

-- `replace("\r\n", "\n")`.
unfoldable pub replace_crlf : Text → Text
replace_crlf [] = []
replace_crlf (c ∷ []) = c ∷ []
replace_crlf (c ∷ d ∷ s) =
    let crlf = nat_beq c 13 && nat_beq d 10 in
    let rest = replace_crlf (d ∷ s) in if crlf then rest else c ∷ rest

-- `ends_with('\r')` and `pop`: the text without a last `\r`, and whether it had one.
unfoldable pub pop_cr : Text → Text × Bool
pop_cr [] = ([], false)
pop_cr (c ∷ []) = if nat_beq c 13 then ([], true) else (c ∷ [], false)
pop_cr (c ∷ d ∷ s) = let (kept, had) = pop_cr (d ∷ s) in (c ∷ kept, had)

-- The `\r` that was held, put back.
unfoldable pub with_cr : Bool → Text → Text
with_cr held text = if held then 13 ∷ text else text

-- The text that is buffered for more text.
unfoldable pub push_text : SseFramer → Text → List ℕ → SseFramer
push_text f text pending =
    let (kept, held) = pop_cr (with_cr f.held_cr text) in
    record { pending = pending; buf = f.buf ++ replace_crlf kept; held_cr = held }

-- `push`, with its result that the buffer is not too long.
unfoldable pub push : SseFramer → List ℕ → SseFramer × Bool
push f bytes =
    let (text, pending) = decode f.pending bytes in
    let f = push_text f text pending in (f, leb (len f.buf) max_sse_buffer)

-- The first block with its separator, and the rest.
unfoldable pub first_block : Text → Option (Text × Text)
first_block [] = none
first_block (c ∷ []) = none
first_block (c ∷ d ∷ s) =
    let later = first_block (d ∷ s) >>= λ (b, r). some (c ∷ b, r) in
    if nat_beq c 10 && nat_beq d 10 then some (10 ∷ 10 ∷ [], s) else later

pub next_block : SseFramer → Option Text × SseFramer
next_block f = elim (first_block f.buf) [
  | none ↦ (none, f)
  | some (block, rest) ↦ (some block, record f { buf = rest })
]

-- `while let Some(block) = next_block()`.
unfoldable pub next_blocks : SseFramer → List Text × SseFramer
next_blocks f =
    let (blocks, rest) = split_all first_block f.buf in (blocks, record f { buf = rest })

unfoldable pub finish : SseFramer → Text
finish f = f.buf ++ finish_decoder f.pending ++ with_cr f.held_cr []

-- A stream read to its end: the blocks in order, and the remainder.
unfoldable pub read_chunks : SseFramer → List (List ℕ) → List Text × Text
read_chunks f [] = ([], finish f)
read_chunks f (chunk ∷ chunks) =
    let (blocks, f) = next_blocks (push f chunk).0 in
    let (more, rest) = read_chunks f chunks in (blocks ++ more, rest)
