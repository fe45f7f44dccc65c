-- ===== src/Sse/Utf8.antt =====
-- The UTF-8 of src/providers/adapter/sse.rs, as `std::str::from_utf8` reads it: an ill-formed sequence
-- is replaced as far as it could have begun a character.
use router.Prelude.{
  ℕ, suc, ◌+◌, ◌*◌, ◌%◌, ◌<◌, ◌≡◌, Bool, true, false, ◌&&◌, List, [], ◌∷◌, ◌++◌, Option, none, some,
  if◌then◌else◌, leb, ltb, nat_beq, arith, length,
}
use router.Sse.Split.{IsReader, Owes, some-Owes, if-Owes}

-- `char::REPLACEMENT_CHARACTER`.
abbrev pub replacement : ℕ
replacement = 0xfffd

abbrev between : ℕ → ℕ → ℕ → Bool
between lo hi b = leb lo b && leb b hi

-- A continuation byte, and one that may follow a first byte of a longer sequence.
unfoldable pub is_trail : ℕ → Bool
is_trail b = between 0x80 0xbf b

unfoldable pub is_second : ℕ → ℕ → Bool
is_second a b =
    if nat_beq a 0xe0
    then between 0xa0 0xbf b
    else if nat_beq a 0xed
    then between 0x80 0x9f b
    else if nat_beq a 0xf0
    then between 0x90 0xbf b
    else if nat_beq a 0xf4
    then between 0x80 0x8f b
    else is_trail b

-- A byte that a character needs: `next` reads on behind it.
unfoldable pub expect : Bool → List ℕ → Option (ℕ × List ℕ) → Option (ℕ × List ℕ)
expect fits s next = if fits then next else some (replacement, s)

unfoldable pub two : ℕ → List ℕ → Option (ℕ × List ℕ)
two a [] = none
two a (b ∷ s) = expect (is_trail b) (b ∷ s) (some (a % 0x20 * 0x40 + b % 0x40, s))

unfoldable pub third : ℕ → List ℕ → Option (ℕ × List ℕ)
third high [] = none
third high (c ∷ s) = expect (is_trail c) (c ∷ s) (some (high * 0x40 + c % 0x40, s))

unfoldable pub three : ℕ → List ℕ → Option (ℕ × List ℕ)
three a [] = none
three a (b ∷ s) = expect (is_second a b) (b ∷ s) (third (a % 0x10 * 0x40 + b % 0x40) s)

unfoldable pub third_of_four : ℕ → List ℕ → Option (ℕ × List ℕ)
third_of_four high [] = none
third_of_four high (c ∷ s) = expect (is_trail c) (c ∷ s) (third (high * 0x40 + c % 0x40) s)

unfoldable pub four : ℕ → List ℕ → Option (ℕ × List ℕ)
four a [] = none
four a (b ∷ s) = expect (is_second a b) (b ∷ s) (third_of_four (a % 8 * 0x40 + b % 0x40) s)

-- The first character, or nothing where the bytes end within it.
unfoldable pub utf8_step : List ℕ → Option (ℕ × List ℕ)
utf8_step [] = none
utf8_step (a ∷ s) =
    if ltb a 0x80
    then some (a, s)
    else if between 0xc2 0xdf a
    then two a s
    else if between 0xe0 0xef a
    then three a s
    else if between 0xf0 0xf4 a
    then four a s
    else some (replacement, s)

expect-Owes :
    (fits : Bool) (s t : List ℕ) (n c : ℕ) (r : List ℕ) (next extended : Option (ℕ × List ℕ))
    → length s < n
    → (next ≡ some (c, r) → Owes t n c r extended)
    → expect fits s next ≡ some (c, r)
    → Owes t n c r (expect fits (s ++ t) extended)
unfolding expect
expect-Owes true s t n c r next extended h k e = k e
expect-Owes false s t n c r next extended h k e = some-Owes t n c replacement r s h e

two-Owes :
    (a c n : ℕ) (s t r : List ℕ)
    → length s < n
    → two a s ≡ some (c, r)
    → Owes t n c r (two a (s ++ t))
unfolding two
two-Owes a c n [] t r h e = absurd (ground arith)
two-Owes a c n (b ∷ s) t r h e =
    expect-Owes (is_trail b) (b ∷ s) t n c r _ _ h (some-Owes t n c _ r s (omega (arith, h))) e

third-Owes :
    (high c n : ℕ) (s t r : List ℕ)
    → length s < n
    → third high s ≡ some (c, r)
    → Owes t n c r (third high (s ++ t))
unfolding third
third-Owes high c n [] t r h e = absurd (ground arith)
third-Owes high c n (b ∷ s) t r h e =
    expect-Owes (is_trail b) (b ∷ s) t n c r _ _ h (some-Owes t n c _ r s (omega (arith, h))) e

three-Owes :
    (a c n : ℕ) (s t r : List ℕ)
    → length s < n
    → three a s ≡ some (c, r)
    → Owes t n c r (three a (s ++ t))
unfolding three
three-Owes a c n [] t r h e = absurd (ground arith)
three-Owes a c n (b ∷ s) t r h e =
    expect-Owes (is_second a b) (b ∷ s) t n c r _ _ h (third-Owes _ c n s t r (omega (arith, h))) e

third_of_four-Owes :
    (high c n : ℕ) (s t r : List ℕ)
    → length s < n
    → third_of_four high s ≡ some (c, r)
    → Owes t n c r (third_of_four high (s ++ t))
unfolding third_of_four
third_of_four-Owes high c n [] t r h e = absurd (ground arith)
third_of_four-Owes high c n (b ∷ s) t r h e =
    expect-Owes (is_trail b) (b ∷ s) t n c r _ _ h (third-Owes _ c n s t r (omega (arith, h))) e

four-Owes :
    (a c n : ℕ) (s t r : List ℕ)
    → length s < n
    → four a s ≡ some (c, r)
    → Owes t n c r (four a (s ++ t))
unfolding four
four-Owes a c n [] t r h e = absurd (ground arith)
four-Owes a c n (b ∷ s) t r h e =
    expect-Owes (is_second a b) (b ∷ s) t n c r _ _ h
      (third_of_four-Owes _ c n s t r (omega (arith, h))) e

utf8_step-Owes :
    (s t r : List ℕ) (c : ℕ)
    → utf8_step s ≡ some (c, r)
    → Owes t (length s) c r (utf8_step (s ++ t))
unfolding utf8_step
utf8_step-Owes [] t r c e = absurd (ground arith)
utf8_step-Owes (a ∷ s) t r c e =
    let n = suc (length s) in
    let less : length s < n = omega arith in
    if-Owes (ltb a 0x80) t n c r _ _ _ _ (some-Owes t n c a r s less)
      (if-Owes (between 0xc2 0xdf a) t n c r _ _ _ _ (two-Owes a c n s t r less) (
        if-Owes (between 0xe0 0xef a) t n c r _ _ _ _ (three-Owes a c n s t r less) (
          if-Owes (between 0xf0 0xf4 a) t n c r _ _ _ _ (four-Owes a c n s t r less)
            (some-Owes t n c replacement r s less))))
      e

pub utf8_step-IsReader : IsReader utf8_step
utf8_step-IsReader = record {
  shrinks = λ s c r e. (utf8_step-Owes s [] r c e).1;
  extends = λ s t c r e. (utf8_step-Owes s t r c e).0;
}
