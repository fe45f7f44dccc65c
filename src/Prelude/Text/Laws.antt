-- ===== src/Prelude/Text/Laws.antt =====
-- Laws of the text methods.
use Prim.Native.Nat.{ℕ}
use mathlib.Core.Path.{◌≡◌, refl}
use mathlib.Core.Logic.{inl, inr}
use mathlib.Core.Bool.{true, false, ◌||◌}
use mathlib.Core.List.{[], ◌∷◌, ◌++◌}
use mathlib.Core.Option.{none, some}
use native.Mathlib.Omega.{arith}
use router.Prelude.Tests.{nat_beq, Bool-cases, Option-cases}
use router.Prelude.Text.{Text, contains, starts_with, split_once, text_eq, text_eq_iff}

pub starts_with-append : (p s : Text) → starts_with (p ++ s) p ≡ true
unfolding starts_with
starts_with-append [] s = refl
starts_with-append (a ∷ p) s = ground (arith, starts_with-append p s)

pub text_eq_refl : (s : Text) → text_eq s s ≡ true
text_eq_refl s = (text_eq_iff s s).1 refl

-- Where the separator is absent there is nothing to split at.
pub split_once-eq-none : (s : Text) (c : ℕ) → contains s c ≡ false → split_once s c ≡ none
unfolding contains split_once
split_once-eq-none [] c h = refl
split_once-eq-none (a ∷ s) c h = ground (arith, split_once-eq-none s c)

pub split_once-append :
    (l r : Text) (c : ℕ) → contains l c ≡ false → split_once (l ++ c ∷ r) c ≡ some (l, r)
unfolding contains split_once
split_once-append [] r c h = ground arith
split_once-append (a ∷ l) r c h = ground (arith, split_once-append l r c)

-- What is split off holds no separator, and the parts make up the text.
pub split_once_sound :
    (s : Text) (c : ℕ) (l r : Text)
    → split_once s c ≡ some (l, r)
    → (s ≡ l ++ c ∷ r) × (contains l c ≡ false)
unfolding contains split_once
split_once_sound [] c l r h = cc
split_once_sound (a ∷ s) c l r h = elim (Bool-cases (nat_beq a c)) [
  | inl e ↦ ground arith
  | inr e ↦ elim (Option-cases (split_once s c)) [
    | inl m ↦ ground arith
    | inr ((l', r'), m) ↦ ground (arith, split_once_sound s c l' r' m)
  ]
]

pub contains-append : (s t : Text) (c : ℕ) → contains (s ++ t) c ≡ (contains s c || contains t c)
unfolding contains
contains-append [] t c = refl
contains-append (a ∷ s) t c = ground (arith, contains-append s t c)
