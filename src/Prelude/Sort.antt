-- ===== src/Prelude/Sort.antt =====
-- `Vec::sort_by_key`: a stable sort, as insertion from the back.
use Prim.Native.Nat.{suc}
use mathlib.Core.Path.{◌≡◌, refl}
use mathlib.Core.Logic.{inl, inr}
use mathlib.Core.Bool.{Bool, true, false}
use mathlib.Core.List.{List, [], ◌∷◌, Perm}
use mathlib.Core.List.Perm
use native.Mathlib.Omega.{arith}
use router.Prelude.Tests.{if◌then◌else◌, Bool-cases}
use router.Prelude.Lists.{All, length, retain}
use router.Prelude.Int.{ℤ, ◌≤ℤ◌, int_leb}

module _ {ℓ} {A : Type ℓ} (key : A → ℤ) where
  unfoldable pub insert_by_key : A → List A → List A
  insert_by_key a [] = a ∷ []
  insert_by_key a (x ∷ xs) = if int_leb (key a) (key x) then a ∷ x ∷ xs else x ∷ insert_by_key a xs

  unfoldable pub sort_by_key : List A → List A
  unfolding insert_by_key
  sort_by_key [] = []
  sort_by_key (x ∷ xs) = insert_by_key x (sort_by_key xs)

  abbrev pub IsSorted : List A → Type 0
  IsSorted [] = Unit
  IsSorted (x ∷ []) = Unit
  IsSorted (x ∷ y ∷ ys) = (key x ≤ℤ key y) × IsSorted (y ∷ ys)

  insert_by_key-perm : (a : A) (xs : List A) → Perm (insert_by_key a xs) (a ∷ xs)
  unfolding insert_by_key
  insert_by_key-perm a [] = Perm.refl _
  insert_by_key-perm a (x ∷ xs) = elim (Bool-cases (int_leb (key a) (key x))) [
    | inl e ↦ rw e (Perm.refl _)
    | inr e ↦ rw e (Perm.trans (Perm.cons x (insert_by_key-perm a xs)) (Perm.swap a x xs))
  ]

  pub sort_by_key-perm : (xs : List A) → Perm (sort_by_key xs) xs
  unfolding sort_by_key
  sort_by_key-perm [] = Perm.refl _
  sort_by_key-perm (x ∷ xs) =
      Perm.trans (insert_by_key-perm x (sort_by_key xs)) (Perm.cons x (sort_by_key-perm xs))

  insert_by_key-IsSorted : (a : A) (xs : List A) → IsSorted xs → IsSorted (insert_by_key a xs)
  unfolding insert_by_key
  insert_by_key-IsSorted a [] h = tt
  insert_by_key-IsSorted a (x ∷ []) h = ground arith
  insert_by_key-IsSorted a (x ∷ y ∷ ys) h = ground (arith, insert_by_key-IsSorted a (y ∷ ys) h.1)

  pub sort_by_key-IsSorted : (xs : List A) → IsSorted (sort_by_key xs)
  unfolding sort_by_key
  sort_by_key-IsSorted [] = tt
  sort_by_key-IsSorted (x ∷ xs) = insert_by_key-IsSorted x _ (sort_by_key-IsSorted xs)

  -- Entries of one key keep their order: a filter by the key sees no change.
  module _ (k : ℤ) where
    abbrev pub has_key : A → Bool
    has_key a = if int_leb (key a) k then int_leb k (key a) else false

    has_key-below :
        (a x : A) → int_leb (key a) (key x) ≡ false → has_key a ≡ true → has_key x ≡ false
    has_key-below a x e f = ground arith

    insert_by_key-stable :
        (a : A) (xs : List A) → retain has_key (insert_by_key a xs) ≡ retain has_key (a ∷ xs)
    unfolding insert_by_key
    insert_by_key-stable a [] = refl
    insert_by_key-stable a (x ∷ xs) = elim (Bool-cases (int_leb (key a) (key x))) [
      | inl e ↦ rw e refl
      | inr e ↦ elim (Bool-cases (has_key a)) [
        | inl f ↦ rw (e, has_key-below a x e f, insert_by_key-stable a xs, f) refl
        | inr f ↦ rw (e, insert_by_key-stable a xs, f) refl
      ]
    ]

    pub sort_by_key-stable : (xs : List A) → retain has_key (sort_by_key xs) ≡ retain has_key xs
    unfolding sort_by_key
    sort_by_key-stable [] = refl
    sort_by_key-stable (x ∷ xs) =
        rw (insert_by_key-stable x (sort_by_key xs)) (ground (arith, sort_by_key-stable xs))

  module _ {κ} (P : A → Type κ) where
    insert_by_key-All : (a : A) (xs : List A) → P a → All P xs → All P (insert_by_key a xs)
    unfolding insert_by_key
    insert_by_key-All a [] p h = (p, tt)
    insert_by_key-All a (x ∷ xs) p h = elim (Bool-cases (int_leb (key a) (key x))) [
      | inl e ↦ rw e (p, h)
      | inr e ↦ rw e (h.0, insert_by_key-All a xs p h.1)
    ]

    pub sort_by_key-All : (xs : List A) → All P xs → All P (sort_by_key xs)
    unfolding sort_by_key
    sort_by_key-All [] h = tt
    sort_by_key-All (x ∷ xs) h = insert_by_key-All x _ h.0 (sort_by_key-All xs h.1)

  length-insert_by_key : (a : A) (xs : List A) → length (insert_by_key a xs) ≡ suc (length xs)
  unfolding insert_by_key
  length-insert_by_key a [] = refl
  length-insert_by_key a (x ∷ xs) = ground (arith, length-insert_by_key a xs)

  pub length-sort_by_key : (xs : List A) → length (sort_by_key xs) ≡ length xs
  unfolding sort_by_key
  length-sort_by_key [] = refl
  length-sort_by_key (x ∷ xs) =
      omega (arith, length-insert_by_key x (sort_by_key xs), length-sort_by_key xs)
