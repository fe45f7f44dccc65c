-- ===== src/Prelude/Int.antt =====
-- Signed integers (`i64` values, whose range no operation here leaves): `negsuc n` is -(n + 1).
use Prim.Native.Nat.{ℕ, suc, ◌+◌, ◌-◌, ◌^◌, ◌≤◌}
use mathlib.Core.Path.{◌≡◌}
use mathlib.Core.Logic.{◌↔◌}
use mathlib.Core.Bool.{Bool, true, ◌&&◌}
use native.Mathlib.Omega.{arith}
use router.Prelude.Tests.{leb, ltb, nat_beq, if◌then◌else◌}

pub data ℤ : Type 0 where
  pos : ℕ → ℤ
  negsuc : ℕ → ℤ

abbrev pub pos_part : ℤ → ℕ
pos_part (pos n) = n
pos_part (negsuc n) = 0

abbrev pub neg_part : ℤ → ℕ
neg_part (pos n) = 0
neg_part (negsuc n) = suc n

infix 50 ◌≤ℤ◌
abbrev pub ◌≤ℤ◌ : ℤ → ℤ → Type 0
a ≤ℤ b = pos_part a + neg_part b ≤ pos_part b + neg_part a

abbrev pub int_leb : ℤ → ℤ → Bool
int_leb a b = leb (pos_part a + neg_part b) (pos_part b + neg_part a)

pub int_leb_iff : (a b : ℤ) → (int_leb a b ≡ true) ↔ (a ≤ℤ b)
int_leb_iff a b = ground arith

-- `m - n`, and a sum brought back into the range of `i64`.
abbrev difference : ℕ → ℕ → ℤ
difference m n = if leb n m then pos (m - n) else negsuc (n - m - 1)

abbrev wrap_i64 : ℤ → ℤ
wrap_i64 (pos m) = if ltb m (2 ^ 63) then pos m else negsuc (2 ^ 64 - 1 - m)
wrap_i64 (negsuc m) = if ltb m (2 ^ 63) then negsuc m else pos (2 ^ 64 - 1 - m)

-- `+` on `i64`.
abbrev pub add_i64 : ℤ → ℤ → ℤ
add_i64 a b = wrap_i64 (difference (pos_part a + pos_part b) (neg_part a + neg_part b))

abbrev pub int_eq : ℤ → ℤ → Bool
int_eq a b = nat_beq (pos_part a) (pos_part b) && nat_beq (neg_part a) (neg_part b)
