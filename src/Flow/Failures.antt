-- ===== src/Flow/Failures.antt =====
-- What becomes of a request whose candidate answers with an error.
use router.Prelude.{
  ℕ, suc, ◌+◌, ◌^◌, ◌%◌, ◌≤◌, ◌<◌, ◌≡◌, ◌↔◌, refl, true, false, not, ◌||◌, is_some, Option, none,
  some, List, ◌∷◌, arith, min, or_else, unwrap_or, nat_beq, if◌then◌else◌,
}
use router.Prelude.Map.{get, get-upsert}
use router.Prelude.Text.{Text, text_Eq}
use router.Prelude.Text.Laws.{text_eq_refl}
use router.Model.{is_codex}
use router.Error.{ErrorClass}
use router.Backoff.{classify, from_secs, cooldown_for}
use router.Backoff.Bounds.{cooldown_for-eq}
use router.Runtime.{
  ProviderRuntimeState, default_state, is_available, record_retryable, mark_misconfigured,
  misconfigured_retry_after,
}
use router.Runtime.Entry.{is_available_iff}
use router.Runtime.Prune.{key_available}
use router.Select.{ResolvedMember}
use router.Flow.World.{
  World, State, Progress, Context, Upstream, change_entry, tick_on, level_of, next_cooldown, log,
}
use router.Flow.Attempt.{
  member_key, try_member, attribute_error, attributed, on_class, sending, received, passthrough,
  trying, on_retryable, on_auth_expired, needs_upgrade, cool_down, misconfigure, default_cooldown,
}
use router.Flow.Debug.{build_error_passthrough}
use router.Flow.Handler.{run_members}
use router.Flow.Outcomes.{IsAnswered, pr₁, creds₁, s₂, log_entry, try_member-answered}

-- The wait after one more failure of an entry is the documented formula, as long as the count of
-- failures fits in a byte; at 255 the sum wraps to zero and the wait is two seconds.
pub next_cooldown_lem :
    (s : State) (key : Text)
    → (level_of s key < 255 → next_cooldown s key ≡ from_secs (min (2 ^ (level_of s key + 1)) 300))
      × (level_of s key ≡ 255 → next_cooldown s key ≡ from_secs 2)
unfolding next_cooldown cooldown_for
next_cooldown_lem s key = (
  λ lt.
      let e : (level_of s key + 1) % 2 ^ 8 ≡ level_of s key + 1 = omega arith in
      rw e (cooldown_for-eq (level_of s key + 1) (omega arith)),
  λ e. rw e refl,
)

change_entry-key_available :
    (t : State) (key : Text) (f : ProviderRuntimeState → ProviderRuntimeState) (later : ℕ)
    → key_available (change_entry t key f).runtime key later
      ≡ is_available (f (unwrap_or (get t.runtime key) default_state)) later
unfolding key_available
change_entry-key_available t key f later =
    rw (get-upsert t.runtime key key default_state f, key_available, text_eq_refl key) refl

module _ {Request Payload : Type 0} (w : World Request Payload) (ctx : Context) (m : ResolvedMember)
    (s : State) (pr : Progress) (ms : List ResolvedMember) (req : Request) (up : Upstream Payload)
    (a : IsAnswered w ctx m s pr req up) where
  abbrev pub s2 : State
  s2 = s₂ w ctx m s pr up

  abbrev entry : State → ProviderRuntimeState
  entry t = unwrap_or (get t.runtime (member_key m)) default_state

  answer :
      try_member w ctx m s pr
      ≡ on_class w ctx m
          (creds₁ w ctx m s pr)
          (classify up.status up.headers)
          up
          s2
          (trying w ctx m (pr₁ w ctx m s pr))
  answer = try_member-answered w ctx m s pr req up a

  -- A request that the upstream of an available candidate calls malformed is not offered to another
  -- candidate: the caller gets
  -- the upstream's status, and no entry of the health map suffers for it.
  pub run_members-non_retryable :
      classify up.status up.headers ≡ ErrorClass.non_retryable
      → (s' : State) × (run_members w ctx (m ∷ ms) s pr
          ≡ (passthrough w ctx m up (trying w ctx m (pr₁ w ctx m s pr)), s'))
        × ((passthrough w ctx m up pr).status ≡ up.status)
        × (s'.runtime ≡ (attribute_error s.runtime pr).0)
        × (s'.logs ≡ log_entry w ctx m s pr (some up.status) false ∷ s.logs)
        × (s'.sent ≡ (m.provider.id, m.effective_model) ∷ s.sent)
  unfolding run_members on_class log attributed sending received build_error_passthrough
  run_members-non_retryable class = (
    log s2 ctx m.provider.id (some up.status) false,
    rw (answer, run_members, class) refl,
    refl,
    refl,
    refl,
    refl,
  )

  -- When an available candidate's credential is rejected and cannot be refreshed, the rejection is the
  -- caller's answer, and the candidate is out of service for exactly five minutes.
  pub run_members-auth_expired :
      classify up.status up.headers ≡ ErrorClass.auth_expired
      → (not (is_codex m.provider.kind) || not (is_some (creds₁ w ctx m s pr).refresh_token)) ≡ true
      → (s' : State) × (run_members w ctx (m ∷ ms) s pr
          ≡ (passthrough w ctx m up (trying w ctx m (pr₁ w ctx m s pr)), s'))
        × ((later : ℕ)
            → (key_available s'.runtime (member_key m) later ≡ true)
              ↔ (w.clock s2.tick + misconfigured_retry_after ≤ later))
        × (s'.logs ≡ log_entry w ctx m s pr (some up.status) false ∷ s.logs)
  unfolding run_members on_class on_auth_expired log attributed sending received misconfigure
  run_members-auth_expired class stuck =
      let now = w.clock s2.tick in
      (
        log (misconfigure w ctx s2 (member_key m)) ctx m.provider.id (some up.status) false,
        rw (answer, run_members, class, stuck) refl,
        λ later.
            rw
              (change_entry-key_available s2 (member_key m) (λ st. mark_misconfigured st now) later)
              (is_available_iff (entry s2) 0 now later).1,
        refl,
      )

  -- The wait that a failure which is worth a retry earns the candidate: the upstream's own, else the
  -- one that a usage limit names, else the one that the failures of its entry give.
  abbrev earned : Option ℕ → ℕ
  earned retry_after =
      unwrap_or
        (or_else retry_after (
          if nat_beq up.status 429
          then w.usage_limit_cooldown s2.tick (w.read_text_truncated up.payload)
          else none))
        (default_cooldown w ctx m s2 up.status)

  -- After a failure of an available candidate that is worth a retry, and asks for no other transport,
  -- the next candidates are tried, with the upstream's words as the error, and the candidate is
  -- skipped for exactly the wait that it has earned.
  pub run_members-retryable :
      (retry_after : Option ℕ)
      → classify up.status up.headers ≡ ErrorClass.retryable retry_after
      → needs_upgrade w ctx m s2 up.status (w.read_text_truncated up.payload) ≡ false
      → (s' : State) × (pr' : Progress) × (run_members w ctx (m ∷ ms) s pr
          ≡ run_members w ctx ms s' pr')
        × ((later : ℕ)
            → (key_available s'.runtime (member_key m) later ≡ true)
              ↔ (w.clock (suc s2.tick) + earned retry_after ≤ later))
        × (pr'.last_error_body ≡ w.read_text_truncated up.payload)
        × (pr'.prev_key ≡ some (member_key m))
        × (s'.logs ≡ log_entry w ctx m s pr (some up.status) false ∷ s.logs)
  unfolding run_members on_class on_retryable log attributed sending received cool_down
  run_members-retryable retry_after class stays =
      let now = w.clock (suc s2.tick) in
      let error_text = w.read_text_truncated up.payload in
      (
        log (cool_down w ctx (tick_on s2) (member_key m) (earned retry_after)) ctx m.provider.id
            (some up.status) false,
        record (trying w ctx m (pr₁ w ctx m s pr)) { last_error_body = error_text },
        rw (answer, run_members, class, stays) refl,
        λ later.
            rw
              (change_entry-key_available (tick_on s2) (member_key m)
                (λ st. record_retryable st (earned retry_after) now) later)
              (is_available_iff (entry (tick_on s2)) (earned retry_after) now later).0,
        refl,
        refl,
        refl,
      )
