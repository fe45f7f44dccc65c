-- ===== src/Prelude/Lists.antt =====
-- Lists measured by native numbers, and the iterator adaptors that the program uses.
use Prim.Native.Nat.{ℕ, zero, suc, ◌+◌, ◌-◌, ◌≤◌, min}
use mathlib.Core.Path.{◌≡◌, refl, sym}
use mathlib.Core.Bool.{Bool, true, false, ◌||◌}
use mathlib.Core.List.{List, [], ◌∷◌, ◌++◌, append-nil, append_assoc}
use mathlib.Core.Option.{Option, none, some}
use native.Mathlib.Omega.{arith}
use router.Prelude.Tests.{if◌then◌else◌, ◌>>=◌}

module _ {ℓ} {A : Type ℓ} where
  abbrev pub length : List A → ℕ
  length [] = 0
  length (x ∷ xs) = suc (length xs)

  abbrev pub get_elem? : List A → ℕ → Option A
  get_elem? [] i = none
  get_elem? (x ∷ xs) zero = some x
  get_elem? (x ∷ xs) (suc i) = get_elem? xs i

  abbrev pub take : ℕ → List A → List A
  take zero xs = []
  take (suc n) [] = []
  take (suc n) (x ∷ xs) = x ∷ take n xs

  abbrev pub drop : ℕ → List A → List A
  drop zero xs = xs
  drop (suc n) [] = []
  drop (suc n) (x ∷ xs) = drop n xs

  pub length-append : (xs ys : List A) → length (xs ++ ys) ≡ length xs + length ys
  length-append [] ys = omega arith
  length-append (x ∷ xs) ys = omega (arith, length-append xs ys)

  pub take-append-drop : (n : ℕ) (xs : List A) → take n xs ++ drop n xs ≡ xs
  take-append-drop zero xs = refl
  take-append-drop (suc n) [] = refl
  take-append-drop (suc n) (x ∷ xs) = rw (take-append-drop n xs)

  pub length-take : (n : ℕ) (xs : List A) → length (take n xs) ≡ min n (length xs)
  length-take zero xs = omega arith
  length-take (suc n) [] = omega arith
  length-take (suc n) (x ∷ xs) = omega (arith, length-take n xs)

  pub length-drop : (n : ℕ) (xs : List A) → length (drop n xs) ≡ length xs - n
  length-drop zero xs = omega arith
  length-drop (suc n) [] = omega arith
  length-drop (suc n) (x ∷ xs) = omega (arith, length-drop n xs)

  abbrev pub is_empty : List A → Bool
  is_empty [] = true
  is_empty (x ∷ xs) = false

  abbrev pub first : List A → Option A
  first [] = none
  first (x ∷ xs) = some x

  -- `slice::last`.
  abbrev pub last : List A → Option A
  last [] = none
  last (x ∷ []) = some x
  last (x ∷ y ∷ xs) = last (y ∷ xs)

  pub last-snoc : (xs : List A) (x : A) → last (xs ++ x ∷ []) ≡ some x
  last-snoc [] x = refl
  last-snoc (y ∷ []) x = refl
  last-snoc (y ∷ z ∷ xs) x = last-snoc (z ∷ xs) x

  -- `iter().any`, `iter().all`, `iter().find`, `Vec::retain` and `iter().filter`.
  abbrev pub any : (A → Bool) → List A → Bool
  any p [] = false
  any p (x ∷ xs) = p x || any p xs

  abbrev pub find : (A → Bool) → List A → Option A
  find p [] = none
  find p (x ∷ xs) = if p x then some x else find p xs

  abbrev pub retain : (A → Bool) → List A → List A
  retain p [] = []
  retain p (x ∷ xs) = let rest = retain p xs in if p x then x ∷ rest else rest

  pub length-retain-le : (p : A → Bool) (xs : List A) → length (retain p xs) ≤ length xs
  length-retain-le p [] = omega arith
  length-retain-le p (x ∷ xs) = ground (arith, length-retain-le p xs)

  -- `iter().position`, and a change of one element.
  abbrev pub position : (A → Bool) → List A → Option ℕ
  position p [] = none
  position p (x ∷ xs) =
      let rest = position p xs >>= λ i. some (suc i) in if p x then some 0 else rest

  abbrev pub set_at : List A → ℕ → A → List A
  set_at [] i y = []
  set_at (x ∷ xs) zero y = y ∷ xs
  set_at (x ∷ xs) (suc i) y = x ∷ set_at xs i y

  -- The number of elements that pass a test.
  abbrev pub count : (A → Bool) → List A → ℕ
  count p [] = 0
  count p (x ∷ xs) = (if p x then 1 else 0) + count p xs

  pub count-append : (p : A → Bool) (xs ys : List A) → count p (xs ++ ys) ≡ count p xs + count p ys
  count-append p [] ys = omega arith
  count-append p (x ∷ xs) ys = ground (arith, count-append p xs ys)

  pub count-set_at :
      (p : A → Bool) (xs : List A) (i : ℕ) (x y : A)
      → get_elem? xs i ≡ some x
      → p y ≡ p x
      → count p (set_at xs i y) ≡ count p xs
  count-set_at p [] i x y h e = refl
  count-set_at p (z ∷ xs) zero x y h e = ground arith
  count-set_at p (z ∷ xs) (suc i) x y h e = ground (arith, count-set_at p xs i x y h e)

  -- `into_iter().flatten()` on an optional list.
  abbrev pub flatten : Option (List A) → List A
  flatten none = []
  flatten (some xs) = xs

module _ {ℓ κ} {A : Type ℓ} {B : Type κ} where
  -- `iter().filter_map`.
  abbrev pub filter_map : (A → Option B) → List A → List B
  filter_map f [] = []
  filter_map f (x ∷ xs) =
      let rest = filter_map f xs in elim (f x) [ none ↦ rest | some y ↦ y ∷ rest ]

  pub length-filter_map-le : (f : A → Option B) (xs : List A) → length (filter_map f xs) ≤ length xs
  length-filter_map-le f [] = omega arith
  length-filter_map-le f (x ∷ xs) = ground (arith, length-filter_map-le f xs)

module _ {ℓ κ} {A : Type ℓ} (P : A → Type κ) where
  abbrev pub All : List A → Type κ
  All [] = Unit
  All (x ∷ xs) = P x × All xs

  pub All-append : (xs ys : List A) → All xs → All ys → All (xs ++ ys)
  All-append [] ys h k = k
  All-append (x ∷ xs) ys (p, h) k = (p, All-append xs ys h k)

  pub All-take : (n : ℕ) (xs : List A) → All xs → All (take n xs)
  All-take zero xs h = tt
  All-take (suc n) [] h = tt
  All-take (suc n) (x ∷ xs) (p, h) = (p, All-take n xs h)

  pub All-drop : (n : ℕ) (xs : List A) → All xs → All (drop n xs)
  All-drop zero xs h = h
  All-drop (suc n) [] h = tt
  All-drop (suc n) (x ∷ xs) (p, h) = All-drop n xs h

module _ {ℓ κ} {A : Type ℓ} {B : Type κ} (f : A → List B) where
  -- `iter().flat_map`.
  abbrev pub flat_map : List A → List B
  flat_map [] = []
  flat_map (x ∷ xs) = f x ++ flat_map xs

  pub flat_map-append : (xs ys : List A) → flat_map (xs ++ ys) ≡ flat_map xs ++ flat_map ys
  flat_map-append [] ys = refl
  flat_map-append (x ∷ xs) ys =
      rw (flat_map-append xs ys) (sym (append_assoc (f x) (flat_map xs) (flat_map ys)))

  pub flat_map-snoc : (xs : List A) (x : A) → flat_map (xs ++ x ∷ []) ≡ flat_map xs ++ f x
  flat_map-snoc xs x = rw (flat_map-append xs (x ∷ []), append-nil (f x)) refl
