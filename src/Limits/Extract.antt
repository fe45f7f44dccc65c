-- ===== src/Limits/Extract.antt =====
-- The headers that `extract` and `capture` of src/telemetry/limits.rs keep.
use mathlib.Core.List.{Mem, mem-cons_self, mem-cons_of_mem}
use router.Prelude.{
  ℕ, suc, ◌≤◌, ◌≡◌, true, false, not, ◌&&◌, none, some, List, [], ◌∷◌, arith, length, is_empty, All,
  ltb, leb, if◌then◌else◌, Option-cases, Bool-cases, inl, inr,
}
use router.Prelude.Map.{get, insert, get-insert}
use router.Prelude.Text.{Text, text_Eq, text_eq, text_eq_iff, len}
use router.Backoff.{HeaderMap, to_str}
use router.Limits.{
  LimitStore, LimitValues, is_limit_header, limit_value, extract_from, extract, capture,
  max_headers, max_value_len,
}

-- A value stands for a quota header of the response and is short.
abbrev pub IsLimitOf : HeaderMap → Text × Text → Type 0
IsLimitOf headers (name, value) =
    (is_limit_header name ≡ true)
    × (len value ≤ max_value_len)
    × ((raw : List ℕ) × Mem (name, raw) headers × (to_str raw ≡ some value))

insert-All :
    (P : Text × Text → Type 0) (m : LimitValues) (k v : Text)
    → P (k, v)
    → All P m
    → All P (insert m k v)
unfolding insert
insert-All P [] k v p h = (p, tt)
insert-All P ((j, w) ∷ m) k v p (q, h) = elim (Bool-cases (text_eq j k)) [
  | inl e ↦ rw (e, insert) (rw ((text_eq_iff j k).0 e) p, h)
  | inr e ↦ rw (e, insert) (q, insert-All P m k v p h)
]

length-insert-le : (m : LimitValues) (k v : Text) → length (insert m k v) ≤ suc (length m)
unfolding insert
length-insert-le [] k v = omega arith
length-insert-le ((j, w) ∷ m) k v = ground (arith, length-insert-le m k v)

fits : (a b c : ℕ) → leb a b ≡ false → c ≤ suc b → c ≤ a
fits a b c h le = ground arith

ltb-le : (a b : ℕ) → ltb a b ≡ false → b ≤ a
ltb-le a b h = ground arith

limit_value-some :
    (name : Text) (raw : List ℕ) (value : Text)
    → limit_value name raw ≡ some value
    → (is_limit_header name ≡ true) × (len value ≤ max_value_len) × (to_str raw ≡ some value)
unfolding limit_value
limit_value-some name raw value h = elim (Bool-cases (is_limit_header name)) [
  | inr f ↦ let g : none ≡ some value = rw (f, limit_value) at h in absurd cc
  | inl q ↦ elim (Option-cases (to_str raw)) [
    | inl f ↦ let g : none ≡ some value = rw (q, f, limit_value) at h in absurd cc
    | inr (text, f) ↦ elim (Bool-cases (ltb max_value_len (len text))) [
      | inl long ↦ let g : none ≡ some value = rw (q, f, long, limit_value) at h in absurd cc
      | inr short ↦
          let g : some text ≡ some value = rw (q, f, short, limit_value) at h in
          let e : text ≡ value = cc in (q, rw (← e) (ltb-le max_value_len (len text) short), cc)
    ]
  ]
]

extract_from_lem :
    (all : HeaderMap) (out : LimitValues) (headers : HeaderMap)
    → ((h : Text × List ℕ) → Mem h headers → Mem h all)
    → length out ≤ max_headers
    → All (IsLimitOf all) out
    → (length (extract_from out headers) ≤ max_headers)
      × All (IsLimitOf all) (extract_from out headers)
unfolding extract_from
extract_from_lem all out [] inside few good = (few, good)
extract_from_lem all out ((name, raw) ∷ headers) inside few good =
    let rest : (h : Text × List ℕ) → Mem h headers → Mem h all =
      λ h i. inside h (mem-cons_of_mem (name, raw) i) in
    elim (Option-cases (limit_value name raw)) [
      | inl e ↦ rw (e, extract_from) (extract_from_lem all out headers rest few good)
      | inr (value, e) ↦ elim (Bool-cases (leb max_headers (length out))) [
        | inl full ↦ rw (e, extract_from, full) (few, good)
        | inr room ↦
            let (quota, short, read) = limit_value-some name raw value e in
            rw (e, extract_from, room)
              (extract_from_lem all (insert out name value) headers rest
                (fits max_headers (length out) _ room (length-insert-le out name value))
                (insert-All (IsLimitOf all) out name value
                  (quota, short, (raw, inside (name, raw) mem-cons_self, read)) good))
      ]
    ]

-- At most 32 headers are kept; each of them is a quota header of the response, with its own value,
-- of 64 bytes at most.
extract_lem :
    (headers : HeaderMap)
    → (length (extract headers) ≤ max_headers) × All (IsLimitOf headers) (extract headers)
unfolding extract
extract_lem headers = extract_from_lem headers [] headers (λ h i. i) (omega arith) tt

-- A response changes what is known of its own provider only, and not even that if it has no quota
-- header.
pub capture_lem :
    (store : LimitStore) (provider other : Text) (headers : HeaderMap)
    → get (capture store provider headers) other ≡ (
        if text_eq provider other && not (is_empty (extract headers))
        then some (extract headers)
        else get store other)
unfolding capture
capture_lem store provider other headers =
    ground (arith, get-insert store provider other (extract headers))
