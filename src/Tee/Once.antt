-- ===== src/Tee/Once.antt =====
-- The callback of src/proxy/dataset_tee.rs is called once, with what the client was sent.
use router.Prelude.{
  ℕ, ◌+◌, ◌≡◌, refl, sym, Bool, true, false, List, [], ◌∷◌, ◌++◌, Option, none, some, if◌then◌else◌,
  ltb, length, length-append, append_assoc, append-nil, arith, map, Bool-cases, inl, inr,
}
use router.Tee.{
  FireOnDrop, fire_now, drop_guard, TeeState, Upstream, capture, poll, drop_body, tee, serve,
  max_capture,
}

-- The chunks before the body ends or fails, and whether it ends.
abbrev pub sent : List Upstream → List ℕ
sent [] = []
sent (Upstream.chunk bytes ∷ answers) = bytes ++ sent answers
sent (Upstream.failed ∷ answers) = []
sent (Upstream.ended ∷ answers) = []

abbrev pub is_complete : List Upstream → Bool
is_complete [] = false
is_complete (Upstream.chunk bytes ∷ answers) = is_complete answers
is_complete (Upstream.failed ∷ answers) = false
is_complete (Upstream.ended ∷ answers) = true

-- What the client gets: the chunks as they are, at most one failure, nothing behind the end.
abbrev pub passed : List Upstream → List (Option Upstream)
passed [] = []
passed (Upstream.chunk bytes ∷ answers) = some (Upstream.chunk bytes) ∷ passed answers
passed (Upstream.failed ∷ answers) = some Upstream.failed ∷ map (λ a. none) answers
passed (Upstream.ended ∷ answers) = none ∷ map (λ a. none) answers

-- The call of the callback for the bytes sent.
abbrev pub report : List ℕ → Bool → List ℕ × Bool
report bytes complete = if ltb max_capture (length bytes) then ([], false) else (bytes, complete)

abbrev too_long : List ℕ → Bool
too_long bytes = ltb max_capture (length bytes)

-- The guard behind the bytes sent so far, by whether they are too many.
abbrev guard_of : Bool → List ℕ → FireOnDrop
guard_of long bytes = record {
  acc = if long then [] else bytes;
  overflowed = long;
  armed = true;
  fired = [];
}

abbrev holding : List ℕ → FireOnDrop
holding bytes = guard_of (too_long bytes) bytes

too_long-append : (bytes more : List ℕ) → too_long bytes ≡ true → too_long (bytes ++ more) ≡ true
too_long-append bytes more h = ground (arith, h, length-append bytes more)

too_long-sum :
    (bytes more : List ℕ) → too_long (bytes ++ more) ≡ ltb max_capture (length bytes + length more)
too_long-sum bytes more = rw (length-append bytes more) refl

capture-holding : (bytes more : List ℕ) → capture (holding bytes) more ≡ holding (bytes ++ more)
unfolding capture
capture-holding bytes more = elim (Bool-cases (too_long bytes)) [
  | inl h ↦ rw (h, too_long-append bytes more h) refl
  | inr h ↦
      rw (h, sym (too_long-sum bytes more))
        (elim (Bool-cases (too_long (bytes ++ more))) [ inl k ↦ rw k refl | inr k ↦ rw k refl ])
]

fired-holding :
    (bytes : List ℕ) (complete : Bool)
    → (drop_guard (fire_now (holding bytes) complete)).fired ≡ report bytes complete ∷ []
unfolding fire_now drop_guard
fired-holding bytes complete = elim (Bool-cases (too_long bytes)) [
  | inl h ↦ rw h (ground arith)
  | inr h ↦ rw h (ground arith)
]

dropped-holding : (bytes : List ℕ) → (drop_guard (holding bytes)).fired ≡ report bytes false ∷ []
unfolding fire_now drop_guard
dropped-holding bytes = elim (Bool-cases (too_long bytes)) [ inl h ↦ rw h refl | inr h ↦ rw h refl ]

serve-done :
    (guard : FireOnDrop) (answers : List Upstream)
    → serve (TeeState.done guard) answers ≡ (map (λ a. none) answers, guard.fired)
unfolding serve poll drop_body
serve-done guard [] = refl
serve-done guard (a ∷ answers) = rw (serve-done guard answers) refl

serve-holding :
    (bytes : List ℕ) (answers : List Upstream)
    → serve (TeeState.live (holding bytes)) answers
      ≡ (passed answers, report (bytes ++ sent answers) (is_complete answers) ∷ [])
unfolding serve poll drop_body
serve-holding bytes [] = rw (append-nil bytes, dropped-holding bytes) refl
serve-holding bytes (Upstream.chunk more ∷ answers) =
    rw
      (
        capture-holding bytes more,
        serve-holding (bytes ++ more) answers,
        append_assoc bytes more (sent answers),
      )
      refl
serve-holding bytes (Upstream.failed ∷ answers) =
    rw
      (
        serve-done (drop_guard (fire_now (holding bytes) false)) answers,
        append-nil bytes,
        fired-holding bytes false,
      )
      refl
serve-holding bytes (Upstream.ended ∷ answers) =
    rw
      (
        serve-done (drop_guard (fire_now (holding bytes) true)) answers,
        append-nil bytes,
        fired-holding bytes true,
      )
      refl

-- Whatever the upstream answers and whenever the client drops the body: the chunks pass unchanged,
-- and the callback is called exactly once, with all bytes that were sent and whether the body came to
-- its end, or with no bytes and `false` where they are more than 64 MiB.
pub serve-tee :
    (answers : List Upstream)
    → serve tee answers ≡ (passed answers, report (sent answers) (is_complete answers) ∷ [])
unfolding tee
serve-tee answers = serve-holding [] answers
