-- ===== src/Sse/Split.antt =====
-- Readers that take items off the front of a list, and what makes them indifferent to the chunks in
-- which the list comes.
use router.Prelude.{
  ℕ, zero, suc, Bool, true, false, if◌then◌else◌, ◌<◌, ◌≤◌, ◌≡◌, refl, ap, ◌∙◌, sym, List, [], ◌∷◌,
  ◌++◌, Option, none, some, arith, length, Option-cases, inl, inr, map_or,
}

module _ {A B : Type 0} (step : List A → Option (B × List A)) where
  -- What is read with at most `n` steps, and what is left.
  unfoldable pub split_within : ℕ → List A → List B × List A
  split_within zero s = ([], s)
  split_within (suc n) s =
      map_or ([], s) (λ (b, r). let (bs, rest) = split_within n r in (b ∷ bs, rest)) (step s)

  -- No more steps can be taken than the list is long.
  unfoldable pub split_all : List A → List B × List A
  split_all s = split_within (length s) s

  -- A reader that always consumes, and whose items do not depend on what follows.
  pub record IsReader : Type 0 where
    pub shrinks : (s : List A) (b : B) (r : List A) → step s ≡ some (b, r) → length r < length s
    pub extends :
        (s t : List A) (b : B) (r : List A)
        → step s ≡ some (b, r)
        → step (s ++ t) ≡ some (b, r ++ t)

module _ {A B : Type 0} where
  -- What a step owes: the same with `t` behind it, and less than `n` that is left.
  abbrev pub Owes : List A → ℕ → B → List A → Option (B × List A) → Type 0
  Owes t n c r extended = (extended ≡ some (c, r ++ t)) × (length r < n)

  pub some-Owes :
      (t : List A) (n : ℕ) (c d : B) (r s : List A)
      → length s < n
      → ◌≡◌ {A = Option (B × List A)} (some (d, s)) (some (c, r))
      → Owes t n c r (some (d, s ++ t))
  some-Owes t n c d r s h e =
      let read : Option (B × List A) → B = map_or d (λ p. p.0) in
      let left : Option (B × List A) → List A = map_or s (λ p. p.1) in
      (ap (λ o. some (read o, left o ++ t)) e, rw (ap left e) at h)

  -- One of two steps.
  pub if-Owes :
      (b : Bool) (t : List A) (n : ℕ) (c : B) (r : List A) (x y x' y' : Option (B × List A))
      → (x ≡ some (c, r) → Owes t n c r x')
      → (y ≡ some (c, r) → Owes t n c r y')
      → (if b then x else y) ≡ some (c, r)
      → Owes t n c r (if b then x' else y')
  if-Owes true t n c r x y x' y' h k e = h e
  if-Owes false t n c r x y x' y' h k e = k e

module _ {A B : Type 0} {step : List A → Option (B × List A)} (reader : IsReader step) where
  step-nil : step [] ≡ none
  step-nil = elim (Option-cases (step [])) [
    | inl e ↦ e
    | inr ((b, r), e) ↦ absurd (omega (arith, reader.shrinks [] b r e))
  ]

  split_within-none : (n : ℕ) (s : List A) → step s ≡ none → split_within step n s ≡ ([], s)
  unfolding split_within
  split_within-none zero s e = refl
  split_within-none (suc n) s e = rw e refl

  split_within-some :
      (n : ℕ) (s : List A) (b : B) (r : List A)
      → step s ≡ some (b, r)
      → split_within step (suc n) s ≡ (b ∷ (split_within step n r).0, (split_within step n r).1)
  unfolding split_within
  split_within-some n s b r e = rw e refl

  -- Fuel beyond the length of the list is not used.
  split_within-fuel :
      (n m : ℕ) (s : List A)
      → length s ≤ n
      → length s ≤ m
      → split_within step n s ≡ split_within step m s
  unfolding split_within
  split_within-fuel zero m [] h k = sym (split_within-none m [] step-nil)
  split_within-fuel zero m (x ∷ s) h k = absurd (omega (arith, h))
  split_within-fuel (suc n) zero [] h k = split_within-none (suc n) [] step-nil
  split_within-fuel (suc n) zero (x ∷ s) h k = absurd (omega (arith, k))
  split_within-fuel (suc n) (suc m) s h k = elim (Option-cases (step s)) [
    | inl e ↦ split_within-none (suc n) s e ∙ sym (split_within-none (suc m) s e)
    | inr ((b, r), e) ↦
        let shorter = reader.shrinks s b r e in
        split_within-some n s b r e
        ∙ ap (λ (p : List B × List A). (b ∷ p.0, p.1))
            (split_within-fuel n m r (omega (arith, h, shorter)) (omega (arith, k, shorter)))
        ∙ sym (split_within-some m s b r e)
  ]

  pub split_all-none : (s : List A) → step s ≡ none → split_all step s ≡ ([], s)
  unfolding split_all
  split_all-none s e = split_within-none (length s) s e

  pub split_all-some :
      (s : List A) (b : B) (r : List A)
      → step s ≡ some (b, r)
      → split_all step s ≡ (b ∷ (split_all step r).0, (split_all step r).1)
  unfolding split_all
  split_all-some [] b r e = absurd (omega (arith, reader.shrinks [] b r e))
  split_all-some (x ∷ s) b r e =
      split_within-some (length s) (x ∷ s) b r e
      ∙ ap (λ (p : List B × List A). (b ∷ p.0, p.1))
          (split_within-fuel (length s) (length r) r (omega (arith, reader.shrinks (x ∷ s) b r e))
            (omega arith))

  -- Reading what was left, with more behind it, continues the reading.
  Continues : List A → List A → Type 0
  Continues t s = split_all step (s ++ t) ≡ (
    (split_all step s).0 ++ (split_all step ((split_all step s).1 ++ t)).0,
    (split_all step ((split_all step s).1 ++ t)).1,
  )

  Continues-some :
      (s t : List A) (b : B) (r : List A) → step s ≡ some (b, r) → Continues t r → Continues t s
  unfolding Continues
  Continues-some s t b r e ih = rw (split_all-some s b r e) (
      split_all-some (s ++ t) b (r ++ t) (reader.extends s t b r e)
      ∙ ap (λ (p : List B × List A). (b ∷ p.0, p.1)) ih)

  Continues-none : (s t : List A) → step s ≡ none → Continues t s
  unfolding Continues
  Continues-none s t e = rw (split_all-none s e) refl

  split-Continues : (n : ℕ) (s t : List A) → length s ≤ n → Continues t s
  split-Continues zero s t h = elim (Option-cases (step s)) [
    | inl e ↦ Continues-none s t e
    | inr (p, e) ↦ absurd (omega (arith, h, reader.shrinks s p.0 p.1 e))
  ]
  split-Continues (suc n) s t h = elim (Option-cases (step s)) [
    | inl e ↦ Continues-none s t e
    | inr (p, e) ↦
        Continues-some s t p.0 p.1 e
          (split-Continues n p.1 t (omega (arith, h, reader.shrinks s p.0 p.1 e)))
  ]

  -- Reading what was left, with more behind it, continues the reading.
  pub split_all-append :
      (s t : List A)
      → split_all step (s ++ t) ≡ (
        (split_all step s).0 ++ (split_all step ((split_all step s).1 ++ t)).0,
        (split_all step ((split_all step s).1 ++ t)).1,
      )
  unfolding Continues
  split_all-append s t = split-Continues (length s) s t (omega arith)

  rest-none : (n : ℕ) (s : List A) → length s ≤ n → step (split_all step s).1 ≡ none
  rest-none zero s h = elim (Option-cases (step s)) [
    | inl e ↦ rw (split_all-none s e) e
    | inr (p, e) ↦ absurd (omega (arith, h, reader.shrinks s p.0 p.1 e))
  ]
  rest-none (suc n) s h = elim (Option-cases (step s)) [
    | inl e ↦ rw (split_all-none s e) e
    | inr (p, e) ↦
        rw (split_all-some s p.0 p.1 e)
          (rest-none n p.1 (omega (arith, h, reader.shrinks s p.0 p.1 e)))
  ]

  -- What is left begins with no item.
  pub split_all-rest : (s : List A) → step (split_all step s).1 ≡ none
  split_all-rest s = rest-none (length s) s (omega arith)
