-- ===== src/Sse/Framing.antt =====
-- The line ends and the blocks of src/providers/adapter/sse.rs as readers.
use router.Prelude.{
  ℕ, suc, ◌≡◌, refl, ap, ◌∙◌, sym, Bool, true, false, ◌&&◌, [], ◌∷◌, ◌++◌, Option, none, some,
  ◌>>=◌, if◌then◌else◌, nat_beq, arith, length, Bool-cases, inl, inr,
}
use router.Prelude.Text.{Text}
use router.Sse.{replace_crlf, pop_cr, with_cr, first_block}
use router.Sse.Split.{split_all, IsReader, Owes, some-Owes, if-Owes, split_all-none, split_all-some}

-- The first character with `\r\n` read as `\n`; a last `\r` may be the first half of one.
unfoldable pub crlf_step : Text → Option (ℕ × Text)
crlf_step [] = none
crlf_step (c ∷ []) = if nat_beq c 13 then none else some (c, [])
crlf_step (c ∷ d ∷ s) = if nat_beq c 13 && nat_beq d 10 then some (10, s) else some (c, d ∷ s)

crlf_step-cr :
    (c d : ℕ) (s : Text)
    → (nat_beq c 13 && nat_beq d 10) ≡ true
    → crlf_step (c ∷ d ∷ s) ≡ some (10, s)
unfolding crlf_step
crlf_step-cr c d s h = ground (arith, h)

crlf_step-other :
    (c d : ℕ) (s : Text)
    → (nat_beq c 13 && nat_beq d 10) ≡ false
    → crlf_step (c ∷ d ∷ s) ≡ some (c, d ∷ s)
unfolding crlf_step
crlf_step-other c d s h = ground (arith, h)

crlf_step-plain : (c : ℕ) (s : Text) → nat_beq c 13 ≡ false → crlf_step (c ∷ s) ≡ some (c, s)
unfolding crlf_step
crlf_step-plain c [] h = rw h refl
crlf_step-plain c (d ∷ s) h = rw h refl

crlf_step-Owes :
    (s t : Text) (c : ℕ) (r : Text)
    → crlf_step s ≡ some (c, r)
    → Owes t (length s) c r (crlf_step (s ++ t))
unfolding crlf_step
crlf_step-Owes [] t c r e = absurd (ground arith)
crlf_step-Owes (a ∷ []) t c r e = elim (Bool-cases (nat_beq a 13)) [
  | inl h ↦ absurd (ground (arith, e, h))
  | inr h ↦
      rw (crlf_step-plain a t h)
        (some-Owes t 1 c a r [] (omega arith) (sym (crlf_step-plain a [] h) ∙ e))
]
crlf_step-Owes (a ∷ b ∷ s) t c r e =
    if-Owes (nat_beq a 13 && nat_beq b 10) t (length (a ∷ b ∷ s)) c r _ _ _ _
      (some-Owes t (length (a ∷ b ∷ s)) c 10 r s (omega arith))
      (some-Owes t (length (a ∷ b ∷ s)) c a r (b ∷ s) (omega arith)) e

pub crlf_step-IsReader : IsReader crlf_step
crlf_step-IsReader = record {
  shrinks = λ s c r e. (crlf_step-Owes s [] c r e).1;
  extends = λ s t c r e. (crlf_step-Owes s t c r e).0;
}

-- A block that begins before `s`.
abbrev longer : ℕ → Text × Text → Option (Text × Text)
longer a (b, r) = some (a ∷ b, r)

first_block-later :
    (a : ℕ) (t : Text) (n : ℕ) (b r : Text) (found extended : Option (Text × Text))
    → ((c q : Text) → found ≡ some (c, q) → Owes t n c q extended)
    → (found >>= longer a) ≡ some (b, r)
    → Owes t (suc n) b r (extended >>= longer a)
first_block-later a t n b r none extended h e = absurd (ground arith)
first_block-later a t n b r (some (c, q)) extended h e =
    let (same, less) = h c q refl in
    rw same (some-Owes t (suc n) b (a ∷ c) r q (omega (arith, less)) e)

first_block-Owes :
    (s t b r : Text) → first_block s ≡ some (b, r) → Owes t (length s) b r (first_block (s ++ t))
unfolding first_block
first_block-Owes [] t b r e = absurd (ground arith)
first_block-Owes (x ∷ []) t b r e = absurd (ground arith)
first_block-Owes (x ∷ y ∷ s) t b r e =
    if-Owes (nat_beq x 10 && nat_beq y 10) t (length (x ∷ y ∷ s)) b r _ _ _ _
      (some-Owes t (length (x ∷ y ∷ s)) b (10 ∷ 10 ∷ []) r s (omega arith))
      (first_block-later x t (length (y ∷ s)) b r (first_block (y ∷ s)) _
        (λ c q e. first_block-Owes (y ∷ s) t c q e))
      e

pub first_block-IsReader : IsReader first_block
first_block-IsReader = record {
  shrinks = λ s b r e. (first_block-Owes s [] b r e).1;
  extends = λ s t b r e. (first_block-Owes s t b r e).0;
}

abbrev begins_lf : Text → Bool
begins_lf [] = false
begins_lf (d ∷ s) = nat_beq d 10

replace_crlf-cons :
    (c : ℕ) (k : Text)
    → replace_crlf (c ∷ k)
      ≡ (if nat_beq c 13 && begins_lf k then replace_crlf k else c ∷ replace_crlf k)
unfolding replace_crlf
replace_crlf-cons c [] = ground arith
replace_crlf-cons c (d ∷ k) = refl

begins_lf-pop_cr : (d : ℕ) (s : Text) → begins_lf (pop_cr (d ∷ s)).0 ≡ nat_beq d 10
unfolding pop_cr
begins_lf-pop_cr d [] = ground arith
begins_lf-pop_cr d (e ∷ s) = refl

pop_cr-cons :
    (c d : ℕ) (s : Text) → pop_cr (c ∷ d ∷ s) ≡ (c ∷ (pop_cr (d ∷ s)).0, (pop_cr (d ∷ s)).1)
unfolding pop_cr
pop_cr-cons c d s = refl

pop_cr-plain : (c : ℕ) → nat_beq c 13 ≡ false → pop_cr (c ∷ []) ≡ (c ∷ [], false)
unfolding pop_cr
pop_cr-plain c h = rw h refl

split_all-crlf :
    (c d : ℕ) (s : Text)
    → (nat_beq c 13 && nat_beq d 10) ≡ true
    → split_all crlf_step (c ∷ d ∷ s) ≡ split_all crlf_step (d ∷ s)
split_all-crlf c d s h =
    let lf : d ≡ 10 = ground (arith, h) in
    split_all-some crlf_step-IsReader (c ∷ d ∷ s) 10 s (crlf_step-cr c d s h)
    ∙ sym (split_all-some crlf_step-IsReader (d ∷ s) 10 s (rw lf (crlf_step-plain 10 s refl)))

abbrev IsPopped : Text → Type 0
IsPopped s = split_all crlf_step s ≡ (replace_crlf (pop_cr s).0, with_cr (pop_cr s).1 [])

split_all-cons : (c d : ℕ) (s : Text) → IsPopped (d ∷ s) → IsPopped (c ∷ d ∷ s)
split_all-cons c d s ih = elim (Bool-cases (nat_beq c 13 && nat_beq d 10)) [
  | inl h ↦
      rw (pop_cr-cons c d s, replace_crlf-cons c (pop_cr (d ∷ s)).0, begins_lf-pop_cr d s, h)
        (split_all-crlf c d s h ∙ ih)
  | inr h ↦
      rw (pop_cr-cons c d s, replace_crlf-cons c (pop_cr (d ∷ s)).0, begins_lf-pop_cr d s, h)
        (split_all-some crlf_step-IsReader (c ∷ d ∷ s) c (d ∷ s) (crlf_step-other c d s h)
          ∙ ap (λ (p : Text × Text). (c ∷ p.0, p.1)) ih)
]

-- Replacing all line ends of a text but a last `\r` is reading it character by character.
pub split_all-pop_cr :
    (s : Text) → split_all crlf_step s ≡ (replace_crlf (pop_cr s).0, with_cr (pop_cr s).1 [])
unfolding crlf_step with_cr pop_cr replace_crlf
split_all-pop_cr [] = split_all-none crlf_step-IsReader [] refl
split_all-pop_cr (c ∷ []) = elim (Bool-cases (nat_beq c 13)) [
  | inl h ↦
      let cr : c ≡ 13 = ground (arith, h) in
      rw cr (split_all-none crlf_step-IsReader (13 ∷ []) refl)
  | inr h ↦ rw (pop_cr-plain c h) (
      split_all-some crlf_step-IsReader (c ∷ []) c [] (crlf_step-plain c [] h)
      ∙ ap (λ (p : Text × Text). (c ∷ p.0, p.1)) (split_all-pop_cr []))
]
split_all-pop_cr (c ∷ d ∷ s) = split_all-cons c d s (split_all-pop_cr (d ∷ s))
