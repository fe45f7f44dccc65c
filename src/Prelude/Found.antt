-- ===== src/Prelude/Found.antt =====
-- What the searches of a list find.
use mathlib.Core.Path.{◌≡◌, refl, ap, subst}
use mathlib.Core.Logic.{inl, inr}
use mathlib.Core.Bool.{Bool, true, false}
use mathlib.Core.Option.{some, none, some-injective}
use mathlib.Core.List.{List, [], ◌∷◌, ◌++◌, Mem, mem-cons_self, mem-cons_of_mem}
use native.Mathlib.Omega.{arith}
use router.Prelude.Tests.{Bool-cases}
use router.Prelude.Lists.{find, any, All}

module _ {A : Type 0} (p : A → Bool) where
  -- The first item that passes the test.
  abbrev pub IsFirst : List A → A → Type 0
  IsFirst xs x =
      (before : List A) × (after : List A) × (xs ≡ before ++ x ∷ after)
      × All (λ y. p y ≡ false) before
      × (p x ≡ true)

  pub find-IsFirst : (xs : List A) (x : A) → find p xs ≡ some x → IsFirst xs x
  find-IsFirst [] x h = absurd (ground (arith, h))
  find-IsFirst (y ∷ xs) x h = elim (Bool-cases (p y)) [
    | inl e ↦ subst (IsFirst (y ∷ xs)) (some-injective _ _ (rw e at (h))) ([], xs, refl, tt, e)
    | inr e ↦
        let (before, after, same, none_before, passes) = find-IsFirst xs x (rw e at (h)) in
        (y ∷ before, after, ap (λ l. y ∷ l) same, (e, none_before), passes)
  ]

  pub find-none : (xs : List A) → find p xs ≡ none → All (λ y. p y ≡ false) xs
  find-none [] h = tt
  find-none (y ∷ xs) h = elim (Bool-cases (p y)) [
    | inl e ↦ absurd (ground (arith, rw e at (h)))
    | inr e ↦ (e, find-none xs (rw e at (h)))
  ]

  pub any-Mem : (xs : List A) → any p xs ≡ true → (x : A) × Mem x xs × (p x ≡ true)
  any-Mem [] h = absurd (ground (arith, h))
  any-Mem (y ∷ xs) h = elim (Bool-cases (p y)) [
    | inl e ↦ (y, mem-cons_self, e)
    | inr e ↦ let (x, m, passes) = any-Mem xs (rw e at (h)) in (x, mem-cons_of_mem y m, passes)
  ]

  pub find-Mem : (xs : List A) (x : A) → find p xs ≡ some x → Mem x xs × (p x ≡ true)
  find-Mem [] x h = absurd (ground (arith, h))
  find-Mem (y ∷ xs) x h = elim (Bool-cases (p y)) [
    | inl e ↦
        subst (λ z. Mem z (y ∷ xs) × (p z ≡ true)) (some-injective _ _ (rw e at (h)))
          (mem-cons_self, e)
    | inr e ↦ let (m, passes) = find-Mem xs x (rw e at (h)) in (mem-cons_of_mem y m, passes)
  ]
