-- ===== src/Prelude/Text/Decimal.antt =====
-- Decimal numbers: `format!("{n}")` and `str::parse::<u64>`.
use Prim.Native.Nat.{ℕ, zero, suc, ◌+◌, ◌-◌, ◌*◌, ◌/◌, ◌%◌, ◌^◌}
use mathlib.Core.Bool.{Bool, ◌&&◌}
use mathlib.Core.List.{[], ◌∷◌, ◌++◌}
use mathlib.Core.Option.{Option, none, some}
use router.Prelude.Tests.{ltb, leb, nat_beq, if◌then◌else◌}
use router.Prelude.Text.{Text}

-- The digits of a number below 10 ^ fuel.
unfoldable pub digits : ℕ → ℕ → Text
digits zero n = []
digits (suc fuel) n =
    let rest = digits fuel (n / 10) in
    if ltb n 10 then (b'0' + n) ∷ [] else rest ++ (b'0' + n % 10) ∷ []

-- Twenty digits are enough for a `u64`.
unfoldable pub show : ℕ → Text
unfolding digits
show n = digits 20 n

abbrev pub is_digit : ℕ → Bool
is_digit c = leb b'0' c && leb c b'9'

-- `from_str_radix` stops at the first character that is no digit, and at an overflow of 64 bits.
unfoldable pub parse_digits : ℕ → Text → Option ℕ
parse_digits acc [] = some acc
parse_digits acc (c ∷ s) =
    let next = acc * 10 + (c - b'0') in
    let rest = parse_digits next s in if is_digit c && ltb next (2 ^ 64) then rest else none

-- A leading plus sign is allowed, and the empty text is not a number.
unfoldable pub parse_u64 : Text → Option ℕ
unfolding parse_digits
parse_u64 [] = none
parse_u64 (c ∷ []) = parse_digits 0 (c ∷ [])
parse_u64 (c ∷ d ∷ s) =
    if nat_beq c b'+' then parse_digits 0 (d ∷ s) else parse_digits 0 (c ∷ d ∷ s)
