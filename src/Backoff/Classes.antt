-- ===== src/Backoff/Classes.antt =====
-- What each class of upstream status means.
use router.Prelude.{ℕ, ◌≤◌, ◌<◌, ◌≡◌, ◌↔◌, ◌⊎◌, refl, Option, none, some, arith, ◌>>=◌}
use router.Prelude.Map.{get}
use router.Prelude.Text.{text_Eq, codes, trim}
use router.Prelude.Text.Decimal.{parse_u64}
use router.Error.{success, retryable, non_retryable, auth_expired}
use router.Backoff.{HeaderMap, classify, reset_after_from_header, from_secs, to_str}

bind-eq-some {ℓ κ} :
    {A : Type ℓ} {B : Type κ} (o : Option A) (f : A → Option B) {b : B}
    → (o >>= f) ≡ some b
    → (a : A) × (o ≡ some a) × (f a ≡ some b)
bind-eq-some none f h = cc
bind-eq-some (some a) f h = (a, refl, h)

reset_after_from_header-le :
    (headers : HeaderMap) (d : ℕ) → reset_after_from_header headers ≡ some d → d ≤ from_secs 1800
unfolding reset_after_from_header
reset_after_from_header-le headers d h =
    let (raw, _, h1) = bind-eq-some (get headers (codes "retry-after")) _ h in
    let (text, _, h2) = bind-eq-some (to_str raw) _ h1 in
    let (secs, _, h3) = bind-eq-some (parse_u64 (trim text)) _ h2 in ground arith

-- A status is a success exactly in the 200s, an expired credential exactly at 401, and the caller's
-- own fault exactly at 400, 413 and 422. Everything else is worth another provider.
classify_iff :
    (status : ℕ) (headers : HeaderMap)
    → ((classify status headers ≡ success) ↔ ((200 ≤ status) × (status < 300)))
      × ((classify status headers ≡ auth_expired) ↔ (status ≡ 401))
      × ((classify status headers ≡ non_retryable)
          ↔ ((status ≡ 400) ⊎ ((status ≡ 413) ⊎ (status ≡ 422))))
unfolding classify
classify_iff status headers = (ground arith, ground arith, ground arith)

-- A delay that the upstream asks for is heeded on 408, 429 and the 500s only, and never for more
-- than half an hour.
classify-retry_after :
    (status : ℕ) (headers : HeaderMap) (d : ℕ)
    → classify status headers ≡ retryable (some d)
    → (reset_after_from_header headers ≡ some d)
      × (d ≤ from_secs 1800)
      × ((status ≡ 408) ⊎ ((status ≡ 429) ⊎ ((500 ≤ status) × (status < 600))))
unfolding classify
classify-retry_after status headers d h =
    let e : reset_after_from_header headers ≡ some d = ground arith in
    (e, reset_after_from_header-le headers d e, ground arith)
