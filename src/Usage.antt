-- ===== src/Usage.antt =====
-- src/telemetry/usage.rs: how the tokens of a reply are counted while it streams by. The parsers of UTF-8
-- and JSON are parameters.
pub mod Chunks
pub mod Tests
use router.Prelude.{
  ℕ, ◌+◌, ◌*◌, Bool, true, false, ◌&&◌, ◌||◌, not, List, [], ◌∷◌, ◌++◌, Option, none, some, ◌>>=◌,
  if◌then◌else◌, find, is_some, is_empty, ltb, nat_beq, or_else, map_or, unwrap_or, length,
}
use router.Prelude.Int.{ℤ, pos, add_i64, int_leb, int_eq}
use router.Prelude.Text.{Text, codes, trim, starts_with, contains_text, strip_prefix}
use router.Json.{Value, as_i64, is_object, lookup, index}

pub record Usage : Type 0 where
  pub input : ℤ
  pub output : ℤ
  pub cached : ℤ

-- `Default`.
abbrev pub no_usage : Usage
no_usage = record { input = pos 0; output = pos 0; cached = pos 0 }

unfoldable pub int_max : ℤ → ℤ → ℤ
int_max a b = if int_leb a b then b else a

unfoldable pub merge : Usage → Usage → Usage
merge u o = record {
  input = int_max u.input o.input;
  output = int_max u.output o.output;
  cached = int_max u.cached o.cached;
}

unfoldable pub usage_object : Value → Option Value
usage_object v = find is_object (
    index v (codes "usage")
    ∷ index (index v (codes "response")) (codes "usage")
    ∷ index (index v (codes "message")) (codes "usage")
    ∷ [])

unfoldable pub count_of : Value → Text → Option ℤ
count_of u k = as_i64 (index u k)

-- The cached tokens that a details object counts.
unfoldable pub cached_of : Value → Text → Option ℤ
cached_of u details = as_i64 (index (index u details) (codes "cached_tokens"))

-- The counts, with the cache's tokens added where they are counted apart.
unfoldable pub counted : Value → ℤ → ℤ → Usage
counted u input output =
    let read = unwrap_or (count_of u (codes "cache_read_input_tokens")) (pos 0) in
    let created = unwrap_or (count_of u (codes "cache_creation_input_tokens")) (pos 0) in
    if is_some (lookup u (codes "cache_read_input_tokens"))
      || is_some (lookup u (codes "cache_creation_input_tokens"))
    then record { input = add_i64 input (add_i64 read created); output = output; cached = read }
    else record {
      input = input;
      output = output;
      cached =
          unwrap_or
            (or_else (cached_of u (codes "prompt_tokens_details"))
              (cached_of u (codes "input_tokens_details")))
            (pos 0);
    }

unfoldable pub usage_of : Value → Option Usage
usage_of v = usage_object v >>= λ u.
    let input = or_else (count_of u (codes "prompt_tokens")) (count_of u (codes "input_tokens")) in
    let output =
      or_else (count_of u (codes "completion_tokens")) (count_of u (codes "output_tokens")) in
    if is_some input || is_some output
    then some (counted u (unwrap_or input (pos 0)) (unwrap_or output (pos 0)))
    else none

abbrev pub max_line : ℕ
max_line = 1048576

abbrev pub max_body : ℕ
max_body = 4194304

pub record Scanner : Type 0 where
  pub line : List ℕ
  pub line_overflow : Bool
  pub body : List ℕ
  pub body_overflow : Bool
  pub saw_line_usage : Bool
  pub best : Usage

-- `Default`.
abbrev pub new_scanner : Scanner
new_scanner = record {
  line = [];
  line_overflow = false;
  body = [];
  body_overflow = false;
  saw_line_usage = false;
  best = no_usage;
}

-- A byte more at the start of the first part.
abbrev pub push_byte : ℕ → List (List ℕ) → List (List ℕ)
push_byte b [] = (b ∷ []) ∷ []
push_byte b (p ∷ ps) = (b ∷ p) ∷ ps

-- `split_inclusive`: each part but the last ends in a line feed.
unfoldable pub split_inclusive : List ℕ → List (List ℕ)
split_inclusive [] = []
split_inclusive (b ∷ s) =
    let rest = split_inclusive s in if nat_beq b 10 then (b ∷ []) ∷ rest else push_byte b rest

unfoldable pub ends_line : List ℕ → Bool
ends_line [] = false
ends_line (b ∷ []) = nat_beq b 10
ends_line (b ∷ c ∷ s) = ends_line (c ∷ s)

unfoldable pub extend_body : Scanner → List ℕ → Scanner
extend_body s chunk =
    let full = ltb max_body (length s.body + length chunk) in
    record s {
      body = if s.body_overflow then s.body else if full then [] else s.body ++ chunk;
      body_overflow = s.body_overflow || full;
    }

unfoldable pub extend_line : Scanner → List ℕ → Scanner
extend_line s part =
    let full = ltb max_line (length s.line + length part) in
    record s {
      line = if s.line_overflow then s.line else if full then [] else s.line ++ part;
      line_overflow = s.line_overflow || full;
    }

module _ (from_utf8 : List ℕ → Option Text) (from_str : Text → Option Value)
    (from_slice : List ℕ → Option Value) where
  -- The usage that a line tells.
  unfoldable pub read_line : List ℕ → Option Usage
  read_line raw = from_utf8 raw >>= λ s.
      let payload = map_or (trim s) trim (strip_prefix (trim s) (codes "data:")) in
      if starts_with payload (codes "{") && contains_text payload (codes "usage")
      then from_str payload >>= usage_of
      else none

  unfoldable pub on_line : Scanner → List ℕ → Scanner
  on_line s raw =
      map_or s (λ u. record s { saw_line_usage = true; best = merge s.best u }) (read_line raw)

  -- The end of a line.
  unfoldable pub end_line : Scanner → Scanner
  end_line s =
      let read = if s.line_overflow then s else on_line s s.line in
      record read { line = []; line_overflow = false }

  unfoldable pub feed_part : Scanner → List ℕ → Scanner
  feed_part s part =
      let extended = extend_line s part in if ends_line part then end_line extended else extended

  unfoldable pub feed_parts : Scanner → List (List ℕ) → Scanner
  feed_parts s [] = s
  feed_parts s (p ∷ ps) = feed_parts (feed_part s p) ps

  unfoldable pub feed : Scanner → List ℕ → Scanner
  feed s chunk = feed_parts (extend_body s chunk) (split_inclusive chunk)

  unfoldable pub finish_line : Scanner → Scanner
  finish_line s =
      if not (is_empty s.line) && not s.line_overflow
      then on_line (record s { line = [] }) s.line
      else s

  unfoldable pub finish : Scanner → Usage
  finish s =
      let read = finish_line s in
      if not read.saw_line_usage && not read.body_overflow
      then map_or read.best (merge read.best) (from_slice read.body >>= usage_of)
      else read.best

  -- What `tap` does with the chunks of a body, and what its callback is given at the end.
  unfoldable pub feed_all : Scanner → List (List ℕ) → Scanner
  feed_all s [] = s
  feed_all s (c ∷ cs) = feed_all (feed s c) cs
