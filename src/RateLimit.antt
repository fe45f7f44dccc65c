-- ===== src/RateLimit.antt =====
-- src/admin/auth/rate_limit.rs: how often an address may try the administrator's password. Times and
-- durations count nanoseconds.
pub mod Lockout
pub mod Slots
mod Tests
use router.Prelude.{
  ℕ, suc, ◌+◌, ◌-◌, ◌*◌, ◌^◌, ◌%◌, min, max, ◌≡◌, refl, ap, sym, ◌∙◌, Bool, true, false, not, ◌&&◌,
  ◌||◌, Option, none, some, List, [], ◌∷◌, ltb, leb, nat_beq, if◌then◌else◌, unwrap_or, length,
  retain, is_some_and, Eq,
}
use router.Prelude.Map.{Map, get, insert, modify}
use router.Prelude.Text.{text_eq, text_eq_iff}
use router.Backoff.{from_secs, saturating_mul, saturating_pow}

-- `Ipv6Addr::segments`.
pub record Segments : Type 0 where
  pub s0 : ℕ
  pub s1 : ℕ
  pub s2 : ℕ
  pub s3 : ℕ
  pub s4 : ℕ
  pub s5 : ℕ
  pub s6 : ℕ
  pub s7 : ℕ

-- An IPv4 address is its two halves of 16 bits.
pub data IpAddr : Type 0 where
  v4 : ℕ → ℕ → IpAddr
  v6 : Segments → IpAddr

-- `==` compares the kind and the segments.
abbrev encode : IpAddr → List ℕ
encode (v4 a b) = a ∷ b ∷ []
encode (v6 s) = s.s0 ∷ s.s1 ∷ s.s2 ∷ s.s3 ∷ s.s4 ∷ s.s5 ∷ s.s6 ∷ s.s7 ∷ []

abbrev decode : List ℕ → IpAddr
decode (a ∷ b ∷ []) = v4 a b
decode (a ∷ b ∷ c ∷ d ∷ e ∷ f ∷ g ∷ h ∷ []) =
    v6 (record { s0 = a; s1 = b; s2 = c; s3 = d; s4 = e; s5 = f; s6 = g; s7 = h })
decode _ = v4 0 0

decode-encode : (a : IpAddr) → decode (encode a) ≡ a
decode-encode (v4 a b) = refl
decode-encode (v6 s) = refl

instance pub ip_Eq : Eq IpAddr
ip_Eq = record {
  beq = λ a b. text_eq (encode a) (encode b);
  beq_iff = λ a b. (
    λ h.
        sym (decode-encode a)
        ∙ ap decode ((text_eq_iff (encode a) (encode b)).0 h)
        ∙ decode-encode b,
    λ h. (text_eq_iff (encode a) (encode b)).1 (ap encode h),
  );
}

abbrev pub failure_threshold : ℕ
failure_threshold = 5

abbrev pub max_lockout : ℕ
max_lockout = from_secs (5 * 60)

abbrev pub stale_after : ℕ
stale_after = from_secs (15 * 60)

pub record AttemptState : Type 0 where
  pub failures : ℕ
  pub locked_until : Option ℕ
  pub in_flight : ℕ
  pub last_failure : Option ℕ

-- `Default`.
abbrev pub no_attempts : AttemptState
no_attempts = record { failures = 0; locked_until = none; in_flight = 0; last_failure = none }

abbrev pub LoginAttemptMap : Type 0
LoginAttemptMap = Map IpAddr AttemptState

unfoldable pub cooldown_for : ℕ → ℕ
cooldown_for failures_over_threshold =
    let level = max failures_over_threshold 1 in
    min (from_secs (saturating_mul 2 (saturating_pow 2 (min (level - 1) 15)))) max_lockout

-- An address of the form ::ffff:a.b.c.d.
abbrev pub is_v4_mapped : Segments → Bool
is_v4_mapped s =
    nat_beq s.s0 0
    && nat_beq s.s1 0
    && nat_beq s.s2 0
    && nat_beq s.s3 0
    && nat_beq s.s4 0
    && nat_beq s.s5 65535

pub limit_key : IpAddr → IpAddr
limit_key (v4 a b) = v4 a b
limit_key (v6 s) =
    if is_v4_mapped s then v4 s.s6 s.s7 else v6 (record s { s4 = 0; s5 = 0; s6 = 0; s7 = 0 })

abbrev pub is_locked : AttemptState → ℕ → Bool
is_locked st now = is_some_and st.locked_until (λ until. ltb now until)

pub is_locked_out : LoginAttemptMap → IpAddr → ℕ → Bool
unfolding get limit_key
is_locked_out map ip now = is_some_and (get map (limit_key ip)) (λ st. is_locked st now)

-- `Drop` of the guard that holds the key.
pub release : LoginAttemptMap → IpAddr → LoginAttemptMap
unfolding modify
release map key = modify map key (λ st. record st { in_flight = st.in_flight - 1 })

abbrev pub entry_of : LoginAttemptMap → IpAddr → AttemptState
entry_of map key = unwrap_or (get map key) no_attempts

abbrev pub is_allowed : AttemptState → Bool
is_allowed st =
    if leb failure_threshold st.failures
    then nat_beq st.in_flight 0
    else ltb ((st.failures + st.in_flight) % 2 ^ 32) failure_threshold

-- The guard is the key whose slot it releases; a refusal leaves an entry all the same.
pub try_begin_attempt : LoginAttemptMap → IpAddr → ℕ → Option IpAddr × LoginAttemptMap
unfolding get insert limit_key
try_begin_attempt map ip now =
    let key = limit_key ip in
    let st = entry_of map key in
    if is_locked st now
    then (none, insert map key st)
    else if not (is_allowed st)
    then (none, insert map key st)
    else (some key, insert map key (record st { in_flight = (st.in_flight + 1) % 2 ^ 32 }))

abbrev pub failed : AttemptState → ℕ → AttemptState
failed st now =
    let failures = (st.failures + 1) % 2 ^ 32 in
    record st {
      failures = failures;
      last_failure = some now;
      locked_until =
          if leb failure_threshold failures
          then some (now + cooldown_for (failures - failure_threshold))
          else st.locked_until;
    }

pub record_failure : LoginAttemptMap → IpAddr → ℕ → LoginAttemptMap
unfolding get insert limit_key cooldown_for
record_failure map ip now = insert map (limit_key ip) (failed (entry_of map (limit_key ip)) now)

unfoldable pub record_success : LoginAttemptMap → IpAddr → LoginAttemptMap
unfolding modify limit_key
record_success map ip =
    modify map (limit_key ip) (λ st. record st { failures = 0; locked_until = none })

abbrev is_recent : AttemptState → ℕ → Bool
is_recent st now = is_some_and st.last_failure (λ t. ltb now (t + stale_after))

abbrev pub is_kept : ℕ → IpAddr × AttemptState → Bool
is_kept now (key, st) = is_locked st now || is_recent st now || ltb 0 st.in_flight

pub prune_stale : LoginAttemptMap → ℕ → LoginAttemptMap × ℕ
prune_stale map now = let kept = retain (is_kept now) map in (kept, length map - length kept)
