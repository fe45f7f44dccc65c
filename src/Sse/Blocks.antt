-- ===== src/Sse/Blocks.antt =====
-- What the loop over `next_block` of src/providers/adapter/sse.rs cuts a buffer into.
use mathlib.Core.Path.{subst}
use mathlib.Core.Option.{some-injective}
use router.Prelude.{
  ℕ, ◌≤◌, zero, suc, ◌≡◌, refl, sym, ap, ◌∙◌, false, ◌&&◌, List, [], ◌∷◌, ◌++◌, none, some, arith,
  length, append_assoc, Option-cases, Bool-cases, inl, inr, All, nat_beq, bind-some,
}
use router.Prelude.Text.{Text, contains_text, starts_with}
use router.Sse.{SseFramer, first_block, next_blocks}
use router.Sse.Chunks.{joined}
use router.Sse.Split.{split_all, split_all-none, split_all-some}
use router.Sse.Framing.{first_block-IsReader}

abbrev separator : Text
separator = 10 ∷ 10 ∷ []

-- A text that ends in an empty line, with no empty line before.
abbrev pub IsBlock : Text → Type 0
IsBlock block =
    (body : Text) × (block ≡ body ++ separator)
    × (contains_text (body ++ 10 ∷ []) separator ≡ false)

-- A character before a block, unless it makes an empty line of its own.
IsBlock-cons :
    (c d : ℕ) (s b r : Text)
    → (nat_beq c 10 && nat_beq d 10) ≡ false
    → d ∷ s ≡ b ++ r
    → IsBlock b
    → IsBlock (c ∷ b)
unfolding contains_text starts_with
IsBlock-cons c d s b r apart same ([], e, clean) =
    let head : d ∷ s ≡ 10 ∷ 10 ∷ r = same ∙ ap (λ l. l ++ r) e in
    (c ∷ [], ap (λ l. c ∷ l) e, ground (arith, clean, apart, head))
IsBlock-cons c d s b r apart same (x ∷ body, e, clean) =
    let head : d ∷ s ≡ x ∷ (body ++ separator) ++ r = same ∙ ap (λ l. l ++ r) e in
    (c ∷ x ∷ body, ap (λ l. c ∷ l) e, ground (arith, clean, apart, head))

lone_feed : contains_text (10 ∷ []) separator ≡ false
unfolding contains_text starts_with
lone_feed = refl

first_block-some : (s b r : Text) → first_block s ≡ some (b, r) → (s ≡ b ++ r) × IsBlock b
unfolding first_block
first_block-some [] b r h = absurd (ground (arith, h))
first_block-some (c ∷ []) b r h = absurd (ground (arith, h))
first_block-some (c ∷ d ∷ s) b r h =
    let Cut : Text × Text → Type 0 = λ p. (c ∷ d ∷ s ≡ p.0 ++ p.1) × IsBlock p.0 in
    elim (Bool-cases (nat_beq c 10 && nat_beq d 10)) [
      | inl e ↦
          let begun : c ∷ d ∷ s ≡ 10 ∷ 10 ∷ s = ground (arith, e) in
          subst Cut (some-injective _ _ (rw e at (h))) (begun, ([], refl, lone_feed))
      | inr e ↦
          let ((b', r'), f, h') =
            bind-some (first_block (d ∷ s)) (λ (b, r). some (c ∷ b, r)) (b, r) (rw e at (h)) in
          let (same, block) = first_block-some (d ∷ s) b' r' f in
          subst Cut (some-injective _ _ h')
            (ap (λ l. c ∷ l) same, IsBlock-cons c d s b' r' e same block)
    ]

first_block-none : (s : Text) → first_block s ≡ none → contains_text s separator ≡ false
unfolding first_block contains_text starts_with
first_block-none [] h = ground arith
first_block-none (c ∷ []) h = ground arith
first_block-none (c ∷ d ∷ s) h = elim (Bool-cases (nat_beq c 10 && nat_beq d 10)) [
  | inl e ↦ absurd (ground (arith, rw e at (h)))
  | inr e ↦ elim (Option-cases (first_block (d ∷ s))) [
    | inl f ↦ ground (arith, e, first_block-none (d ∷ s) f)
    | inr ((b, r), f) ↦ absurd (ground (arith, rw (e, f) at (h)))
  ]
]

-- What a cut of a text into blocks and a rest must be.
abbrev pub IsCut : Text → List Text × Text → Type 0
IsCut s (blocks, rest) =
    (s ≡ joined blocks ++ rest) × All IsBlock blocks × (contains_text rest separator ≡ false)

split_all-IsCut : (n : ℕ) (s : Text) → length s ≤ n → IsCut s (split_all first_block s)
split_all-IsCut zero s short = elim (Option-cases (first_block s)) [
  | inl e ↦ rw (split_all-none first_block-IsReader s e) (refl, tt, first_block-none s e)
  | inr ((b, r), e) ↦ absurd (omega (arith, short, first_block-IsReader.shrinks s b r e))
]
split_all-IsCut (suc n) s short = elim (Option-cases (first_block s)) [
  | inl e ↦ rw (split_all-none first_block-IsReader s e) (refl, tt, first_block-none s e)
  | inr ((b, r), e) ↦
      let (same, block) = first_block-some s b r e in
      let shorter = first_block-IsReader.shrinks s b r e in
      let (rest_same, blocks, clean) = split_all-IsCut n r (omega (arith, short, shorter)) in
      let (bs, rest) = split_all first_block r in
      let whole : s ≡ (b ++ joined bs) ++ rest =
        same ∙ ap (λ l. b ++ l) rest_same ∙ sym (append_assoc b (joined bs) rest) in
      rw (split_all-some first_block-IsReader s b r e) (whole, (block, blocks), clean)
]

-- The loop over `next_block` ends and takes every block there is: the buffer is the blocks it returns, in
-- order, and what it leaves; each block ends in its only empty line, and no empty line is left. The
-- bytes and the carriage return that wait are left alone.
pub next_blocks-IsCut :
    (f : SseFramer)
    → IsCut f.buf ((next_blocks f).0, (next_blocks f).1.buf)
      × ((next_blocks f).1.pending ≡ f.pending)
      × ((next_blocks f).1.held_cr ≡ f.held_cr)
unfolding next_blocks
next_blocks-IsCut f = (split_all-IsCut (length f.buf) f.buf (omega arith), refl, refl)
