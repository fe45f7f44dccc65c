-- ===== src/Prelude/Tests.antt =====
-- Boolean tests on the native numbers, the conditional, and equality as an interface.
use Prim.Native.Nat.{ℕ, ◌≤◌, compare, Ordering}
use mathlib.Core.Path.{◌≡◌, refl}
use mathlib.Core.Logic.{◌↔◌, ◌⊎◌, inl, inr}
use mathlib.Core.Bool.{Bool, true, false, not, ◌&&◌, ◌||◌}
use mathlib.Core.Option.{Option, none, some}
use native.Mathlib.Omega.{arith}

abbrev pub ltb : ℕ → ℕ → Bool
ltb a b = elim (compare a b) [ Ordering.lt ↦ true | _ ↦ false ]

abbrev pub leb : ℕ → ℕ → Bool
leb a b = elim (compare a b) [ Ordering.gt ↦ false | _ ↦ true ]

abbrev pub nat_beq : ℕ → ℕ → Bool
nat_beq a b = elim (compare a b) [ Ordering.eq ↦ true | _ ↦ false ]

infix 1 if◌then◌else◌
abbrev pub if◌then◌else◌ {ℓ} : {A : Type ℓ} → Bool → A → A → A
if true then x else y = x
if false then x else y = y

pub leb→le : (a b : ℕ) → leb a b ≡ true → a ≤ b
leb→le a b h = ground arith

pub nat_beq_iff : (a b : ℕ) → (nat_beq a b ≡ true) ↔ (a ≡ b)
nat_beq_iff a b = ground arith

pub Bool-cases : (b : Bool) → (b ≡ true) ⊎ (b ≡ false)
Bool-cases true = inl refl
Bool-cases false = inr refl

pub Option-cases {ℓ} : {A : Type ℓ} (o : Option A) → (o ≡ none) ⊎ ((a : A) × (o ≡ some a))
Option-cases none = inl refl
Option-cases (some a) = inr (a, refl)

-- `PartialEq`, with the law that makes it equality.
pub record Eq {ℓ} (K : Type ℓ) : Type ℓ where
  pub beq : K → K → Bool
  pub beq_iff : (j k : K) → (beq j k ≡ true) ↔ (j ≡ k)

instance abbrev pub nat_eq : Eq ℕ
nat_eq = record { beq = nat_beq; beq_iff = λ m n. nat_beq_iff m n }

module _ {ℓ} {A : Type ℓ} where
  -- `Option::unwrap_or`, whose default is the second argument.
  abbrev pub unwrap_or : Option A → A → A
  unwrap_or none d = d
  unwrap_or (some a) d = a

  -- `Option::or` and `Option::or_else`.
  abbrev pub or_else : Option A → Option A → Option A
  or_else none p = p
  or_else (some a) p = some a

  abbrev pub is_some : Option A → Bool
  is_some none = false
  is_some (some a) = true

  abbrev pub is_some_and : Option A → (A → Bool) → Bool
  is_some_and none p = false
  is_some_and (some a) p = p a

-- `?` and `and_then` on options.
infixl 5 ◌>>=◌
abbrev pub ◌>>=◌ {ℓ κ} : {A : Type ℓ} {B : Type κ} → Option A → (A → Option B) → Option B
none >>= f = none
some a >>= f = f a

infix 50 ◌==◌
abbrev pub ◌==◌ {κ} : {K : Type κ} ⦃law : Eq K⦄ → (j k : K) → Bool
◌==◌ ⦃law⦄ j k = law.beq j k

-- A property of a conditional holds where it holds of both branches.
pub if-intro {ℓ κ} :
    {A : Type ℓ} (P : A → Type κ) (b : Bool) (x y : A)
    → (b ≡ true → P x)
    → (b ≡ false → P y)
    → P (if b then x else y)
if-intro P true x y h k = h refl
if-intro P false x y h k = k refl

module _ {ℓ κ} {A : Type ℓ} {B : Type κ} where
  -- `Option::map_or`, the value behind the default and the function.
  abbrev pub map_or : B → (A → B) → Option A → B
  map_or d f none = d
  map_or d f (some a) = f a

  pub map_or-intro {μ} :
      (P : B → Type μ) (d : B) (f : A → B) (o : Option A)
      → (o ≡ none → P d)
      → ((a : A) → o ≡ some a → P (f a))
      → P (map_or d f o)
  map_or-intro P d f none h k = h refl
  map_or-intro P d f (some a) h k = k a refl

module _ {ℓ κ} {A : Type ℓ} {B : Type κ} where
  -- A chain that comes to something came through each step.
  pub bind-some :
      (o : Option A) (f : A → Option B) (b : B)
      → (o >>= f) ≡ some b
      → (a : A) × (o ≡ some a) × (f a ≡ some b)
  bind-some none f b h = absurd (ground arith)
  bind-some (some a) f b h = (a, refl, h)

  pub map_or-some :
      (f : A → Option B) (o : Option A) (b : B)
      → map_or none f o ≡ some b
      → (a : A) × (o ≡ some a) × (f a ≡ some b)
  map_or-some f none b h = absurd (ground arith)
  map_or-some f (some a) b h = (a, refl, h)

pub ands : (a b : Bool) → (a && b) ≡ true → (a ≡ true) × (b ≡ true)
ands true b h = (refl, h)
ands false b h = absurd (ground (arith, h))

pub unless-some {ℓ} :
    {B : Type ℓ} (c : Bool) (x : Option B) (b : B)
    → (if c then none else x) ≡ some b
    → (c ≡ false) × (x ≡ some b)
unless-some true x b h = absurd (ground arith)
unless-some false x b h = (refl, h)

or_iff : (a b : Bool) → ((a || b) ≡ true) ↔ ((a ≡ true) ⊎ (b ≡ true))
or_iff true b = (λ h. inl refl, λ _. refl)
or_iff false b = (λ h. inr h, λ h. elim h [ inl e ↦ absurd (ground (arith, e)) | inr e ↦ e ])

-- What three tests mean, joined.
pub or3_iff :
    {P Q R : Type 0} (a b c : Bool)
    → ((a ≡ true) ↔ P)
    → ((b ≡ true) ↔ Q)
    → ((c ≡ true) ↔ R)
    → ((a || b || c) ≡ true) ↔ (P ⊎ Q ⊎ R)
or3_iff a b c (p, p') (q, q') (r, r') = (
  λ h. elim ((or_iff (a || b) c).0 h) [
    | inl h ↦ elim ((or_iff a b).0 h) [ inl e ↦ inl (p e) | inr e ↦ inr (inl (q e)) ]
    | inr e ↦ inr (inr (r e))
  ],
  λ h. elim h [
    | inl x ↦ (or_iff (a || b) c).1 (inl ((or_iff a b).1 (inl (p' x))))
    | inr h ↦ elim h [
      | inl x ↦ (or_iff (a || b) c).1 (inl ((or_iff a b).1 (inr (q' x))))
      | inr x ↦ (or_iff (a || b) c).1 (inr (r' x))
    ]
  ],
)

-- A guard that lets through, and one that must hold.
pub guard-some {ℓ} :
    {B : Type ℓ} (c : Bool) (x : Option B) (b : B)
    → (if not c then none else x) ≡ some b
    → (c ≡ true) × (x ≡ some b)
guard-some true x b h = (refl, h)
guard-some false x b h = absurd (ground arith)

pub test-some {ℓ} :
    {B : Type ℓ} (c : Bool) (x : Option B) (b : B)
    → (if c then x else none) ≡ some b
    → (c ≡ true) × (x ≡ some b)
test-some true x b h = (refl, h)
test-some false x b h = absurd (ground arith)
