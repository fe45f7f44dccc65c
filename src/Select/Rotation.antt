-- ===== src/Select/Rotation.antt =====
-- The rotation of round-robin pools: whose turn it is after any number of selections.
use router.Prelude.{
  ℕ, zero, suc, ◌+◌, ◌*◌, ◌/◌, ◌%◌, ◌^◌, ◌≤◌, ◌<◌, ◌≡◌, refl, ◌∙◌, some, List, [], ◌∷◌, ◌++◌, arith,
  take, drop, length, take-append-drop,
}
use native.Mathlib.Nat.{div-add-mod', div-eq_of_lt, mod-add-mod, mod-eq_of_lt, mod-lt}
use native.Mathlib.Numerals.{add-one}
use native.Mathlib.Decide.{dec_lt}
use mathlib.Core.Path.{subst}
use mathlib.Core.List.{Perm, perm_append_comm}
use router.Prelude.{◌≢◌, first, get_elem?, unwrap_or}
use router.Prelude.Map.{get, get-insert}
use router.Prelude.Text.{Text, text_Eq, text_eq_iff}
use router.Model.{Pool, PoolMember}
use router.Select.{
  RotationState, default_rotation, advance, rotate_left, PoolRotationMap, rotate_from_cursor,
  normalize_sticky_limit,
}

-- The cursor after a number of selections.
pub cursor_after : (len sticky_limit : ℕ) → ℕ → RotationState
cursor_after len sticky_limit zero = default_rotation
cursor_after len sticky_limit (suc t) = advance len sticky_limit (cursor_after len sticky_limit t)

div_mod_unique : (s q r : ℕ) → r < s → ((q * s + r) / s ≡ q) × ((q * s + r) % s ≡ r)
div_mod_unique s q r h = (grind arith, grind arith)

div_mod_suc :
    (t s : ℕ)
    → 1 ≤ s
    → (t % s + 1 < s → ((t + 1) / s ≡ t / s) × ((t + 1) % s ≡ t % s + 1))
      × (s ≤ t % s + 1 → ((t + 1) / s ≡ t / s + 1) × ((t + 1) % s ≡ 0))
div_mod_suc t s h = (
  λ lt.
      let u = div_mod_unique s (t / s) (t % s + 1) lt in
      let e : t + 1 ≡ t / s * s + (t % s + 1) = omega (arith, div-add-mod' t s) in rw e u,
  λ ge.
      let u = div_mod_unique s (t / s + 1) 0 h in
      let e : t + 1 ≡ (t / s + 1) * s + 0 = grind (arith, div-add-mod' t s, mod-lt t {m = s} h) in
      rw e u,
)

advance_stays :
    (len s i u : ℕ)
    → i < len
    → u + 1 < s
    → s < 2 ^ 32
    → advance len s (record { index = i; consecutive_uses = u })
      ≡ record { index = i; consecutive_uses = u + 1 }
unfolding advance
advance_stays len s i u hi hu hb = ground (arith, mod-eq_of_lt {n = i} {m = len} hi)

advance_turns :
    (len s i u : ℕ)
    → i < len
    → s ≤ u + 1
    → u < s
    → s < 2 ^ 32
    → advance len s (record { index = i; consecutive_uses = u })
      ≡ record { index = (i + 1) % len; consecutive_uses = 0 }
unfolding advance
advance_turns len s i u hi hu hs hb = ground (arith, mod-eq_of_lt {n = i} {m = len} hi)

-- Fresh selections of a round-robin pool with members in a row, with a sticky limit of at least 1 and
-- below 2^32: after `t` of them the cursor stands at member
-- `t / sticky_limit`, counted round the pool. So each member is the head for exactly `sticky_limit`
-- selections in a row, and the turn passes to the next one, from the last back to the first.
cursor_after_lem :
    (len sticky_limit t : ℕ)
    → 1 ≤ len
    → 1 ≤ sticky_limit
    → sticky_limit < 2 ^ 32
    → cursor_after len sticky_limit t
      ≡ record { index = (t / sticky_limit) % len; consecutive_uses = t % sticky_limit }
unfolding cursor_after
cursor_after_lem len s zero hl hs hb = ground (
  arith,
  div-eq_of_lt {n = 0} {m = s} hs,
  mod-eq_of_lt {n = 0} {m = s} hs,
  mod-eq_of_lt {n = 0} {m = len} hl,
)
cursor_after_lem len s (suc t) hl hs hb =
    rw (cursor_after_lem len s t hl hs hb, ← add-one t)
      (elim (dec_lt (t % s + 1) s) [
        | yes h ↦
            let (q, r) = (div_mod_suc t s hs).0 h in
            rw (q, r) (advance_stays len s (t / s % len) (t % s) (mod-lt (t / s) hl) h hb)
        | no h ↦
            let (q, r) = (div_mod_suc t s hs).1 (omega arith) in
            rw (q, r, ← mod-add-mod (t / s) len 1)
              (advance_turns len s (t / s % len) (t % s) (mod-lt (t / s) hl) (omega arith)
                (mod-lt t hs) hb)
      ])

rotate_left-perm : (members : List PoolMember) (n : ℕ) → Perm (rotate_left members n) members
unfolding rotate_left
rotate_left-perm members n =
    subst (Perm (drop n members ++ take n members)) (take-append-drop n members)
      (perm_append_comm (drop n members) (take n members))

first-drop :
    (members : List PoolMember) (n : ℕ) (rest : List PoolMember)
    → n < length members
    → first (drop n members ++ rest) ≡ get_elem? members n
first-drop [] n rest h = elim h [ ]
first-drop (m ∷ ms) zero rest h = refl
first-drop (m ∷ ms) (suc n) rest h = first-drop ms n rest (omega arith)

advance-index : (len s : ℕ) (state : RotationState) → 1 ≤ len → (advance len s state).index < len
unfolding advance
advance-index len s state h =
    ground (arith, mod-lt (state.index % len + 1) {m = len} h, mod-lt state.index {m = len} h)

-- Whatever cursor is stored for the pool, one beyond the members that are left included, a rotation of one member or more returns every member exactly once, the one at the cursor taken round the pool first; the stored
-- cursor points at a member; and no other pool's cursor changes.
pub rotate_from_cursor_lem :
    (pool : Pool) (members : List PoolMember) (rotation : PoolRotationMap) (other : Text)
    → 1 ≤ length members
    → let state = unwrap_or (get rotation pool.id) default_rotation in
      let (rotated, rotation') = rotate_from_cursor pool members rotation in
      Perm rotated members
      × (first rotated ≡ get_elem? members (state.index % length members))
      × ((next : RotationState) × (get rotation' pool.id ≡ some next)
          × (next.index < length members))
      × (pool.id ≢ other → get rotation' other ≡ get rotation other)
unfolding rotate_from_cursor
rotate_from_cursor_lem pool members rotation other h =
    let state = unwrap_or (get rotation pool.id) default_rotation in
    let next = advance (length members) (normalize_sticky_limit pool.sticky_limit) state in
    (
      rotate_left-perm members (state.index % length members),
      first_rotated (state.index % length members) (mod-lt state.index h),
      (
        next,
        get-insert rotation pool.id pool.id next ∙ rw ((text_eq_iff pool.id pool.id).1 refl) refl,
        advance-index _ _ state h,
      ),
      λ ne. ground (arith, get-insert rotation pool.id other next, text_eq_iff pool.id other),
    )
  where
    first_rotated :
        (n : ℕ) → n < length members → first (rotate_left members n) ≡ get_elem? members n
    first_rotated n lt = first-drop members n (take n members) lt
