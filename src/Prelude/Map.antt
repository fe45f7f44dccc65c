-- ===== src/Prelude/Map.antt =====
-- `DashMap` and `BTreeMap` as association lists. The order of the entries stands for whatever order
-- an iteration takes.
use mathlib.Core.Path.{◌≡◌, refl, ap, ◌∙◌, sym}
use mathlib.Core.Logic.{inl, inr}
use mathlib.Core.Bool.{Bool, true, false}
use mathlib.Core.List.{List, [], ◌∷◌}
use mathlib.Core.Option.{Option, none, some}
use native.Mathlib.Omega.{arith}
use router.Prelude.Tests.{Bool-cases, if◌then◌else◌, Eq, ◌==◌, unwrap_or, ◌>>=◌, map_or, is_some}
use router.Prelude.Lists.{retain, find, any}

abbrev pub Map {ℓ κ} : Type ℓ → Type κ → Type (ℓ ⊔ κ)
Map K V = List (K × V)

module _ {ℓ κ} {K : Type ℓ} {V : Type κ} ⦃e : Eq K⦄ where
  unfoldable pub get : Map K V → K → Option V
  get [] k = none
  get ((j, v) ∷ m) k = if j == k then some v else get m k

  unfoldable pub insert : Map K V → K → V → Map K V
  insert [] k v = (k, v) ∷ []
  insert ((j, w) ∷ m) k v = if j == k then (j, v) ∷ m else (j, w) ∷ insert m k v

  -- `entry(k).or_default()` with a change of the entry.
  unfoldable pub upsert : Map K V → K → V → (V → V) → Map K V
  unfolding insert get
  upsert m k d f = insert m k (f (unwrap_or (get m k) d))

  -- `get_mut(k)`, `entry(k).and_modify`: nothing happens where the key is missing.
  unfoldable pub modify : Map K V → K → (V → V) → Map K V
  modify [] k f = []
  modify ((j, v) ∷ m) k f = if j == k then (j, f v) ∷ m else (j, v) ∷ modify m k f

  -- `iter_mut` with a test of the key.
  unfoldable pub modify_where : Map K V → (K → Bool) → (V → V) → Map K V
  modify_where [] p f = []
  modify_where ((j, v) ∷ m) p f = (j, if p j then f v else v) ∷ modify_where m p f

  -- `remove`: every entry of the key goes.
  unfoldable pub remove : Map K V → K → Map K V
  remove [] k = []
  remove ((j, v) ∷ m) k = let rest = remove m k in if j == k then rest else (j, v) ∷ rest

  -- No key has two entries.
  abbrev pub IsUnique : Map K V → Type κ
  IsUnique [] = Unit
  IsUnique ((j, v) ∷ m) = (get m j ≡ none) × IsUnique m

  pub get-insert :
      (m : Map K V) (k j : K) (v : V) → get (insert m k v) j ≡ (if k == j then some v else get m j)
  unfolding get insert
  get-insert [] k j v = refl
  get-insert ((i, w) ∷ m) k j v =
      ground (arith, e.beq_iff k j, e.beq_iff i k, e.beq_iff i j, get-insert m k j v)

  pub get-upsert :
      (m : Map K V) (k j : K) (d : V) (f : V → V)
      → get (upsert m k d f) j ≡ (if k == j then some (f (unwrap_or (get m k) d)) else get m j)
  unfolding upsert
  get-upsert m k j d f = get-insert m k j _

  pub get-modify_where :
      (m : Map K V) (p : K → Bool) (f : V → V) (j : K)
      → get (modify_where m p f) j
        ≡ (elim (get m j) [ none ↦ none | some v ↦ some (if p j then f v else v) ])
  unfolding get modify_where
  get-modify_where [] p f j = refl
  get-modify_where ((i, v) ∷ m) p f j = ground (arith, e.beq_iff i j, get-modify_where m p f j)

  pub get-remove : (m : Map K V) (k j : K) → get (remove m k) j ≡ (if k == j then none else get m j)
  unfolding get remove
  get-remove [] k j = ground arith
  get-remove ((i, w) ∷ m) k j =
      ground (arith, e.beq_iff k j, e.beq_iff i k, e.beq_iff i j, get-remove m k j)

  pub get-modify :
      (m : Map K V) (k j : K) (f : V → V)
      → get (modify m k f) j ≡ (if k == j then (get m j >>= λ v. some (f v)) else get m j)
  unfolding get modify
  get-modify [] k j f = ground arith
  get-modify ((i, w) ∷ m) k j f =
      ground (arith, e.beq_iff k j, e.beq_iff i k, e.beq_iff i j, get-modify m k j f)

  pub IsUnique-insert : (m : Map K V) (k : K) (v : V) → IsUnique m → IsUnique (insert m k v)
  unfolding insert get
  IsUnique-insert [] k v u = (refl, tt)
  IsUnique-insert ((i, w) ∷ m) k v (n, u) = elim (Bool-cases (i == k)) [
    | inl h ↦ rw (h, insert) (n, u)
    | inr h ↦
        rw (h, insert)
          (
            ground (arith, get-insert m k i v, e.beq_iff k i, e.beq_iff i k),
            IsUnique-insert m k v u,
          )
  ]

  pub IsUnique-modify : (m : Map K V) (k : K) (f : V → V) → IsUnique m → IsUnique (modify m k f)
  unfolding modify
  IsUnique-modify [] k f u = tt
  IsUnique-modify ((i, w) ∷ m) k f (n, u) = elim (Bool-cases (i == k)) [
    | inl h ↦ rw (h, modify) (n, u)
    | inr h ↦ rw (h, modify) (ground (arith, get-modify m k i f), IsUnique-modify m k f u)
  ]

  pub get-retain-none :
      (p : K × V → Bool) (m : Map K V) (k : K) → get m k ≡ none → get (retain p m) k ≡ none
  unfolding get
  get-retain-none p [] k h = refl
  get-retain-none p ((i, w) ∷ m) k h = ground (arith, get-retain-none p m k)

  pub IsUnique-retain : (p : K × V → Bool) (m : Map K V) → IsUnique m → IsUnique (retain p m)
  IsUnique-retain p [] u = tt
  IsUnique-retain p ((i, w) ∷ m) (n, u) = elim (Bool-cases (p (i, w))) [
    | inl h ↦ rw (h, retain) (get-retain-none p m i n, IsUnique-retain p m u)
    | inr h ↦ rw (h, retain) (IsUnique-retain p m u)
  ]

  pub get-retain :
      (p : K × V → Bool) (m : Map K V) (k : K)
      → IsUnique m
      → get (retain p m) k ≡ (get m k >>= λ v. if p (k, v) then some v else none)
  unfolding get
  get-retain p [] k u = refl
  get-retain p ((i, w) ∷ m) k (n, u) =
      ground (arith, get-retain p m k u, get-retain-none p m k, e.beq_iff i k)

module _ {ℓ κ} {K : Type ℓ} {V : Type κ} ⦃e : Eq K⦄ where
  find-head :
      (p : K × V → Bool) (j k : K) (w v : V) (m : Map K V)
      → p (j, w) ≡ true
      → find p ((j, w) ∷ m) ≡ some (k, v)
      → (j ≡ k) × (w ≡ v)
  find-head p j k w v m h f =
      let found : ◌≡◌ {A = Option (K × V)} (some (j, w)) (some (k, v)) = rw (h, find) at f in
      (
        ap (λ o. map_or j (λ (q : K × V). q.0) o) found,
        ap (λ o. map_or w (λ (q : K × V). q.1) o) found,
      )

  find-tail :
      (p : K × V → Bool) (j : K) (w : V) (m : Map K V)
      → p (j, w) ≡ false
      → find p ((j, w) ∷ m) ≡ find p m
  find-tail p j w m h = rw (h, find) refl

  -- What a search finds is in the map.
  pub find-get :
      (p : K × V → Bool) (m : Map K V) (k : K) (v : V)
      → IsUnique m
      → find p m ≡ some (k, v)
      → (get m k ≡ some v) × (p (k, v) ≡ true)
  unfolding get
  find-get p [] k v u f = absurd (ground arith)
  find-get p ((j, w) ∷ m) k v (n, u) f = elim (Bool-cases (p (j, w))) [
    | inl h ↦
        let (same, value) = find-head p j k w v m h f in
        rw (sym same, sym value) (ground (arith, e.beq_iff j j), h)
    | inr h ↦
        let (there, fits) = find-get p m k v u (sym (find-tail p j w m h) ∙ f) in
        (ground (arith, e.beq_iff j k, n, there), fits)
  ]

  pub get-find :
      (p : K × V → Bool) (m : Map K V) (k : K) (v : V)
      → get m k ≡ some v
      → p (k, v) ≡ true
      → is_some (find p m) ≡ true
  unfolding get
  get-find p [] k v g h = absurd (ground arith)
  get-find p ((j, w) ∷ m) k v g h = elim (Bool-cases (p (j, w))) [
    | inl t ↦ rw (t, find) refl
    | inr t ↦ rw (find-tail p j w m t) (elim (Bool-cases (j == k)) [
      | inl s ↦
          let same : j ≡ k = ground (arith, e.beq_iff j k, s) in
          let found : ◌≡◌ {A = Option V} (some w) (some v) = rw (s, get) at g in
          let value : w ≡ v = ap (λ o. map_or w (λ q. q) o) found in
          let fits : p (j, w) ≡ true = rw (same, value) h in absurd (ground (arith, t, fits))
      | inr s ↦ get-find p m k v (rw (s, get) at g) h
    ])
  ]

  pub get-any :
      (p : K × V → Bool) (m : Map K V) (k : K) (v : V)
      → get m k ≡ some v
      → any p m ≡ false
      → p (k, v) ≡ false
  unfolding get
  get-any p [] k v g h = absurd (ground arith)
  get-any p ((j, w) ∷ m) k v g h = ground (arith, e.beq_iff j k, get-any p m k v)
