-- ===== src/Usage/Tests.antt =====
-- Runs of the counting of tokens on concrete bodies.
use router.Prelude.{ℕ, ◌≡◌, refl, List, [], ◌∷◌, ◌++◌, Option, none, some, length}
use router.Prelude.Int.{pos}
use router.Prelude.Text.{Text, codes}
use router.Json.{Value, object}
use router.Usage.{Usage, usage_of, new_scanner, feed, feed_all, finish, no_usage}
use router.Usage.Chunks.{whole, feed_all-whole}

abbrev reply : Value
reply = object (
    (
      codes "message",
      object (
          (
            codes "usage",
            object (
                (codes "input_tokens", Value.num (pos 10))
                ∷ (codes "cache_read_input_tokens", Value.num (pos 90))
                ∷ (codes "output_tokens", Value.num (pos 1))
                ∷ []),
          )
          ∷ []),
    )
    ∷ [])

-- Every text that comes to a parser stands for the reply.
abbrev read_any : Text → Option Value
read_any t = some reply

abbrev chunks : List (List ℕ)
chunks = codes "data: {\"us" ∷ codes "age\"}" ∷ (10 ∷ []) ∷ []

apart : usage_of reply ≡ some (record { input = pos 100; output = pos 1; cached = pos 90 })
unfolding usage_of router.Usage.usage_object router.Json.index object router.Prelude.Text.text_eq
    router.Usage.count_of router.Usage.counted
apart = refl

counted_once :
    finish some read_any read_any (feed_all some read_any read_any new_scanner chunks)
    ≡ record { input = pos 100; output = pos 1; cached = pos 90 }
unfolding finish router.Usage.finish_line feed_all feed router.Usage.feed_parts
    router.Usage.split_inclusive router.Usage.feed_part router.Usage.ends_line router.Usage.end_line
    router.Usage.extend_line router.Usage.extend_body router.Usage.on_line router.Usage.read_line
    router.Prelude.Text.starts_with router.Prelude.Text.strip_prefix router.Prelude.Text.trim
    router.Prelude.Text.contains_text router.Prelude.Text.trim_start router.Prelude.Text.trim_end
    router.Prelude.Text.is_whitespace usage_of router.Usage.usage_object router.Json.index
    router.Json.lookup router.Json.entries router.Json.fields router.Usage.count_of
    router.Usage.cached_of router.Usage.counted router.Usage.merge router.Usage.int_max object
    router.Prelude.Map.get router.Prelude.Text.text_eq
counted_once = refl

feed_all-whole_example :
    finish some read_any read_any (feed_all some read_any read_any new_scanner chunks)
    ≡ finish some read_any read_any (feed some read_any read_any new_scanner (whole chunks))
feed_all-whole_example = feed_all-whole some read_any read_any chunks
