-- ===== src/Backoff/Bounds.antt =====
-- Bounds of the cooldown.
use router.Prelude.{ℕ, zero, suc, ◌-◌, ◌*◌, ◌^◌, ◌≤◌, ◌≡◌, min, max, arith}
use native.Mathlib.Nat.{pow-suc}
use native.Mathlib.Decide.{dec_le}
use router.Backoff.{cooldown_for, from_secs}

pub pow-two-pos : (n : ℕ) → 1 ≤ 2 ^ n
pow-two-pos zero = omega arith
pow-two-pos (suc n) = rw (pow-suc 2 n) (omega (arith, pow-two-pos n))

pub pow-two_mono : (m n : ℕ) → m ≤ n → 2 ^ m ≤ 2 ^ n
pow-two_mono zero n h = pow-two-pos n
pow-two_mono (suc m) zero h = absurd (omega arith)
pow-two_mono (suc m) (suc n) h =
    rw (pow-suc 2 m, pow-suc 2 n) (omega (arith, pow-two_mono m n (omega arith)))

-- Every failure count waits for at least two seconds and for at most five minutes.
cooldown_for_bounds :
    (level : ℕ) → (from_secs 2 ≤ cooldown_for level) × (cooldown_for level ≤ from_secs 300)
unfolding cooldown_for
cooldown_for_bounds level = (omega (arith, pow-two-pos (min (max level 1 - 1) 15)), omega arith)

-- More failures never wait for less.
cooldown_for_mono : (l m : ℕ) → l ≤ m → cooldown_for l ≤ cooldown_for m
unfolding cooldown_for
cooldown_for_mono l m h =
    omega (arith, pow-two_mono (min (max l 1 - 1) 15) (min (max m 1 - 1) 15) (omega arith))

capped : (l : ℕ) → min (2 * 2 ^ min l 15) 300 ≡ min (2 ^ suc l) 300
capped l = elim (dec_le l 15) [
  | yes h ↦ let e : min l 15 ≡ l = omega arith in rw (e, pow-suc 2 l) (omega arith)
  | no h ↦
      let e : min l 15 ≡ 15 = omega arith in
      rw e (omega (arith, pow-two_mono 15 (suc l) (omega arith)))
]

-- The documented formula: two seconds doubled for each failure after the first, and no more than
-- five minutes.
pub cooldown_for-eq : (level : ℕ) → 1 ≤ level → cooldown_for level ≡ from_secs (min (2 ^ level) 300)
unfolding cooldown_for
cooldown_for-eq zero h = elim h [ ]
cooldown_for-eq (suc l) h =
    let e : max (suc l) 1 - 1 ≡ l = omega arith in
    rw e (omega (arith, capped l, pow-two-pos (min l 15)))
