-- ===== src/Runtime/Entry.antt =====
-- One entry of the health map: which states it can be in, and when it is tried again.
use router.Prelude.{ℕ, ◌+◌, ◌≤◌, ◌<◌, ◌≡◌, ◌↔◌, refl, true, false, none, some, arith}
use router.Prelude.Text.{Text}
use router.Runtime.{
  ProviderRuntimeState, default_state, healthy, is_available, record_success, retry_in, note_error,
  reset_to_healthy, record_retryable, mark_misconfigured, misconfigured_retry_after,
}

-- The operations that the program applies to an entry.
pub data Change (st : ProviderRuntimeState) : ProviderRuntimeState → Type 0 where
  succeeds : Change st (record_success st)
  notes : (msg : Text) → Change st (note_error st msg)
  resets : Change st (reset_to_healthy st)
  cools : (cooldown now : ℕ) → Change st (record_retryable st cooldown now)
  misconfigures : (now : ℕ) → Change st (mark_misconfigured st now)

pub data Reach : ProviderRuntimeState → Type 0 where
  start : Reach default_state
  next : {st st' : ProviderRuntimeState} → Reach st → Change st st' → Reach st'

-- A healthy entry, and no other, has no deadline; its failure count is zero; the count is a `u8`.
pub record IsConsistent (st : ProviderRuntimeState) : Type 0 where
  pub deadline : (st.status ≡ healthy) ↔ (st.unavailable_until ≡ none)
  pub fresh : st.status ≡ healthy → st.backoff_level ≡ 0
  pub level : st.backoff_level ≤ 255

Change-IsConsistent :
    {st st' : ProviderRuntimeState} → Change st st' → IsConsistent st → IsConsistent st'
unfolding record_success note_error reset_to_healthy record_retryable mark_misconfigured
Change-IsConsistent succeeds c = record {
  deadline = ground arith;
  fresh = λ _. refl;
  level = omega arith;
}
Change-IsConsistent (notes msg) c = record {
  deadline = c.deadline;
  fresh = c.fresh;
  level = c.level;
}
Change-IsConsistent resets c = record {
  deadline = ground arith;
  fresh = λ _. refl;
  level = omega arith;
}
Change-IsConsistent (cools cooldown now) c = record {
  deadline = ground arith;
  fresh = λ h. cc;
  level = omega arith;
}
Change-IsConsistent (misconfigures now) c = record {
  deadline = ground arith;
  fresh = λ h. cc;
  level = c.level;
}

-- Whatever happens to an entry, it is healthy exactly when it has no deadline, a healthy entry has
-- failure count zero, and the count fits in a byte.
pub Reach-IsConsistent : {st : ProviderRuntimeState} → Reach st → IsConsistent st
Reach-IsConsistent start = record {
  deadline = ground arith;
  fresh = λ _. refl;
  level = omega arith;
}
Reach-IsConsistent (next r c) = Change-IsConsistent c (Reach-IsConsistent r)

-- After a failure the entry is skipped until its cooldown has run out and not longer; after a
-- rejected credential, for five minutes; after a success, not at all.
pub is_available_iff :
    (st : ProviderRuntimeState) (cooldown now later : ℕ)
    → ((is_available (record_retryable st cooldown now) later ≡ true) ↔ (now + cooldown ≤ later))
      × ((is_available (mark_misconfigured st now) later ≡ true)
          ↔ (now + misconfigured_retry_after ≤ later))
      × (is_available (record_success st) later ≡ true)
unfolding is_available record_retryable mark_misconfigured record_success
is_available_iff st cooldown now later = (ground arith, ground arith, refl)

-- The wait that is reported ends exactly when the entry becomes available.
retry_in-is_available :
    (st : ProviderRuntimeState) (now wait : ℕ)
    → is_available st now ≡ false
    → retry_in st now ≡ some wait
    → (is_available st (now + wait) ≡ true) × ((t : ℕ) → t < now + wait → is_available st t ≡ false)
unfolding retry_in is_available
retry_in-is_available st now wait h e = (ground arith, λ t lt. ground arith)
