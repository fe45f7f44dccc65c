-- ===== src/Usage/Chunks.antt =====
-- The counts of src/telemetry/usage.rs do not depend on how a body comes in chunks.
use router.Prelude.{
  ℕ, ◌+◌, ◌≤◌, ◌≡◌, refl, sym, ap, ◌∙◌, Bool, true, false, List, [], ◌∷◌, ◌++◌, Option, arith,
  if◌then◌else◌, ltb, nat_beq, length, append-nil, append_assoc, length-append, Bool-cases,
  Option-cases, inl, inr,
}
use router.Prelude.Text.{Text}
use router.Json.{Value}
use router.Usage.{
  Scanner, new_scanner, max_line, max_body, split_inclusive, ends_line, push_byte, extend_body,
  extend_line, read_line, on_line, end_line, feed_part, feed_parts, feed, feed_all, finish,
}

-- The bytes of all chunks.
abbrev pub whole : List (List ℕ) → List ℕ
whole [] = []
whole (c ∷ cs) = c ++ whole cs

-- The scanner with another copy of the body.
abbrev with_body : Scanner → List ℕ → Bool → Scanner
with_body s body overflow = record s { body = body; body_overflow = overflow }

extend_line-cons :
    (s : Scanner) (b : ℕ) (p : List ℕ)
    → extend_line s (b ∷ p) ≡ extend_line (extend_line s (b ∷ [])) p
unfolding extend_line
extend_line-cons s b p = elim (Bool-cases s.line_overflow) [
  | inl over ↦ rw over refl
  | inr under ↦ elim (Bool-cases (ltb max_line (length s.line + 1))) [
    | inl full ↦
        let fuller : ltb max_line (length s.line + length (b ∷ p)) ≡ true = ground (arith, full) in
        rw (under, full, fuller) refl
    | inr fits ↦
        let same : length (s.line ++ b ∷ []) + length p ≡ length s.line + length (b ∷ p) =
          ground (arith, length-append s.line (b ∷ [])) in
        rw (under, fits, same, append_assoc s.line (b ∷ []) p) refl
  ]
]

extend_body-append :
    (s : Scanner) (a b : List ℕ) → extend_body s (a ++ b) ≡ extend_body (extend_body s a) b
unfolding extend_body
extend_body-append s a b = elim (Bool-cases s.body_overflow) [
  | inl over ↦ rw over refl
  | inr under ↦ elim (Bool-cases (ltb max_body (length s.body + length a))) [
    | inl full ↦
        let fuller : ltb max_body (length s.body + length (a ++ b)) ≡ true =
          ground (arith, full, length-append a b) in
        rw (under, full, fuller) refl
    | inr fits ↦
        let same : length (s.body ++ a) + length b ≡ length s.body + length (a ++ b) =
          ground (arith, length-append s.body a, length-append a b) in
        rw (under, fits, same, append_assoc s.body a b) refl
  ]
]

extend_body-none : (s : Scanner) → length s.body ≤ max_body → extend_body s [] ≡ s
unfolding extend_body
extend_body-none s h = elim (Bool-cases s.body_overflow) [
  | inl over ↦ rw over refl
  | inr under ↦
      let fits : ltb max_body (length s.body + 0) ≡ false = ground (arith, h) in
      rw (under, fits, append-nil s.body) refl
]

module _ (from_utf8 : List ℕ → Option Text) (from_str : Text → Option Value)
    (from_slice : List ℕ → Option Value) where
  feed_part-cons :
      (s : Scanner) (b : ℕ) (p : List ℕ)
      → nat_beq b 10 ≡ false
      → feed_part from_utf8 from_str from_slice s (b ∷ p)
        ≡ feed_part from_utf8 from_str from_slice
            (feed_part from_utf8 from_str from_slice s (b ∷ []))
            p
  unfolding feed_part ends_line extend_line
  feed_part-cons s b [] inside = rw (inside, extend_line-cons s b []) refl
  feed_part-cons s b (c ∷ p) inside = rw (inside, extend_line-cons s b (c ∷ p)) refl

  pushed :
      (s : Scanner) (b : ℕ) (ps : List (List ℕ))
      → nat_beq b 10 ≡ false
      → feed_parts from_utf8 from_str from_slice s (push_byte b ps)
        ≡ feed_parts from_utf8 from_str from_slice
            (feed_part from_utf8 from_str from_slice s (b ∷ []))
            ps
  unfolding feed_parts
  pushed s b [] inside = refl
  pushed s b (p ∷ ps) inside =
      ap (λ t. feed_parts from_utf8 from_str from_slice t ps) (feed_part-cons s b p inside)

  feed_parts-cons :
      (s : Scanner) (b : ℕ) (x : List ℕ)
      → feed_parts from_utf8 from_str from_slice s (split_inclusive (b ∷ x))
        ≡ feed_parts from_utf8 from_str from_slice
            (feed_part from_utf8 from_str from_slice s (b ∷ []))
            (split_inclusive x)
  unfolding split_inclusive feed_parts
  feed_parts-cons s b x = elim (Bool-cases (nat_beq b 10)) [
    | inl end ↦ rw end refl
    | inr inside ↦ rw inside (pushed s b (split_inclusive x) inside)
  ]

  feed_parts-append :
      (s : Scanner) (a b : List ℕ)
      → feed_parts from_utf8 from_str from_slice s (split_inclusive (a ++ b))
        ≡ feed_parts from_utf8 from_str from_slice
            (feed_parts from_utf8 from_str from_slice s (split_inclusive a))
            (split_inclusive b)
  unfolding split_inclusive feed_parts
  feed_parts-append s [] b = refl
  feed_parts-append s (c ∷ a) b =
      feed_parts-cons s c (a ++ b)
      ∙ feed_parts-append (feed_part from_utf8 from_str from_slice s (c ∷ [])) a b
      ∙ sym (
          ap (λ t. feed_parts from_utf8 from_str from_slice t (split_inclusive b))
            (feed_parts-cons s c a))

  on_line-with_body :
      (s : Scanner) (raw body : List ℕ) (over : Bool)
      → on_line from_utf8 from_str from_slice (with_body s body over) raw
        ≡ with_body (on_line from_utf8 from_str from_slice s raw) body over
  unfolding on_line
  on_line-with_body s raw body over =
      elim (Option-cases (read_line from_utf8 from_str from_slice raw)) [
        | inl e ↦ rw e refl
        | inr (u, e) ↦ rw e refl
      ]

  read-with_body :
      (lost : Bool) (s : Scanner) (body : List ℕ) (over : Bool)
      → (if lost
          then with_body s body over
          else on_line from_utf8 from_str from_slice (with_body s body over) s.line)
        ≡ with_body (if lost then s else on_line from_utf8 from_str from_slice s s.line) body over
  read-with_body true s body over = refl
  read-with_body false s body over = on_line-with_body s s.line body over

  end_line-with_body :
      (s : Scanner) (body : List ℕ) (over : Bool)
      → end_line from_utf8 from_str from_slice (with_body s body over)
        ≡ with_body (end_line from_utf8 from_str from_slice s) body over
  unfolding end_line
  end_line-with_body s body over =
      ap (λ (t : Scanner). record t { line = []; line_overflow = false })
        (read-with_body s.line_overflow s body over)

  feed_part-with_body :
      (s : Scanner) (part body : List ℕ) (over : Bool)
      → feed_part from_utf8 from_str from_slice (with_body s body over) part
        ≡ with_body (feed_part from_utf8 from_str from_slice s part) body over
  unfolding feed_part extend_line
  feed_part-with_body s part body over = elim (Bool-cases (ends_line part)) [
    | inl end ↦ rw end (end_line-with_body (extend_line s part) body over)
    | inr inside ↦ rw inside refl
  ]

  feed_parts-with_body :
      (s : Scanner) (ps : List (List ℕ)) (body : List ℕ) (over : Bool)
      → feed_parts from_utf8 from_str from_slice (with_body s body over) ps
        ≡ with_body (feed_parts from_utf8 from_str from_slice s ps) body over
  unfolding feed_parts
  feed_parts-with_body s [] body over = refl
  feed_parts-with_body s (p ∷ ps) body over =
      ap (λ t. feed_parts from_utf8 from_str from_slice t ps) (feed_part-with_body s p body over)
      ∙ feed_parts-with_body (feed_part from_utf8 from_str from_slice s p) ps body over

  -- The copy of the body and the lines do not meet.
  extend_body-feed_parts :
      (s : Scanner) (ps : List (List ℕ)) (b : List ℕ)
      → extend_body (feed_parts from_utf8 from_str from_slice s ps) b
        ≡ feed_parts from_utf8 from_str from_slice (extend_body s b) ps
  unfolding extend_body
  extend_body-feed_parts s ps b =
      let fed = feed_parts from_utf8 from_str from_slice s ps in
      let apart : fed ≡ with_body fed s.body s.body_overflow =
        feed_parts-with_body s ps s.body s.body_overflow in
      ap (λ t. extend_body t b) apart
      ∙ sym (feed_parts-with_body s ps (extend_body s b).body (extend_body s b).body_overflow)

  feed-feed :
      (s : Scanner) (a b : List ℕ)
      → feed from_utf8 from_str from_slice (feed from_utf8 from_str from_slice s a) b
        ≡ feed from_utf8 from_str from_slice s (a ++ b)
  unfolding feed
  feed-feed s a b =
      ap (λ t. feed_parts from_utf8 from_str from_slice t (split_inclusive b))
        (extend_body-feed_parts (extend_body s a) (split_inclusive a) b)
      ∙ sym (feed_parts-append (extend_body (extend_body s a) b) a b)
      ∙ ap (λ t. feed_parts from_utf8 from_str from_slice t (split_inclusive (a ++ b)))
          (sym (extend_body-append s a b))

  feed_all-feed :
      (s : Scanner) (c : List ℕ) (cs : List (List ℕ))
      → feed_all from_utf8 from_str from_slice s (c ∷ cs)
        ≡ feed from_utf8 from_str from_slice s (whole (c ∷ cs))
  unfolding feed_all
  feed_all-feed s c [] = ap (feed from_utf8 from_str from_slice s) (sym (append-nil c))
  feed_all-feed s c (d ∷ cs) =
      feed_all-feed (feed from_utf8 from_str from_slice s c) d cs ∙ feed-feed s c (whole (d ∷ cs))

  -- However a body is cut into chunks, even inside a line or a character, and however long its lines and
  -- it are: the usage that is read of the chunks is the usage of the same bytes in one chunk.
  pub feed_all-whole :
      (cs : List (List ℕ))
      → finish from_utf8 from_str from_slice (feed_all from_utf8 from_str from_slice new_scanner cs)
        ≡ finish from_utf8 from_str from_slice
            (feed from_utf8 from_str from_slice new_scanner (whole cs))
  unfolding feed_all feed feed_parts split_inclusive
  feed_all-whole [] =
      ap (finish from_utf8 from_str from_slice) (sym (extend_body-none new_scanner (omega arith)))
  feed_all-whole (c ∷ cs) =
      ap (finish from_utf8 from_str from_slice) (feed_all-feed new_scanner c cs)
