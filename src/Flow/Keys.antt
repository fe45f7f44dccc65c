-- ===== src/Flow/Keys.antt =====
-- What one candidate's iteration changes: its own entry of the health map, and at most two requests.
use router.Prelude.{
  ℕ, ◌+◌, ◌*◌, ◌≤◌, ◌≡◌, ◌≢◌, ◌⊎◌, refl, ◌∙◌, false, Option, none, some, List, [], ◌∷◌, arith,
  length, Bool-cases, Option-cases, inl, inr, All, not, ◌||◌, is_some,
}
use router.Prelude.Map.{get, get-upsert, get-modify}
use router.Prelude.Text.{Text, text_Eq, codes, text_eq, text_eq_iff}
use router.Error.{ErrorClass, Result, ok, err, AppError, RefreshError}
use router.Runtime.{
  ProviderRuntimeState, RuntimeStateMap, default_state, record_success, note_error, is_available,
}
use router.Model.{is_codex}
use router.Transport.{Transport, remember_transport}
use router.Select.{ResolvedMember}
use router.Backoff.{classify}
use router.Credentials.{Credentials, has_token, is_ready}
use router.Flow.World.{
  World, State, Progress, Context, Upstream, Response, change_entry, log, tick_on, next_cooldown,
}
use router.Flow.Attempt.{
  Step, reply, next, member_key, cool_down, misconfigure, on_success, on_retry_class, Retry,
  retry_once, sending, received, on_auth_expired, on_retryable, on_class, send_first, contact,
  try_member, attribute_error, retry_cooldown, on_transformed, retry_executed, retry_built,
  on_refreshed, first_executed, first_built, built, routed_provider, needs_upgrade, credentials_for,
  trying, visit, attributed,
}
use router.Flow.Handler.{run_members, exhausted}

-- The entry of `key` is as before, and at most `n` requests have been sent.
abbrev pub Spares : Text → ℕ → State → State → Type 0
Spares key n s s' = (get s'.runtime key ≡ get s.runtime key) × (length s'.sent ≤ length s.sent + n)

attribute_error-get :
    (key : Text) (runtime : RuntimeStateMap) (pr : Progress)
    → pr.prev_key ≢ some key
    → (get (attribute_error runtime pr).0 key ≡ get runtime key)
      × ((attribute_error runtime pr).1.prev_key ≢ some key)
unfolding attribute_error
attribute_error-get key runtime pr h = elim (Option-cases pr.prev_key) [
  | inl e ↦ ground arith
  | inr (k, e) ↦
      ground (
        arith,
        get-modify runtime k key (λ st. note_error st pr.last_error_body),
        text_eq_iff k key,
      )
]

module _ {Request Payload : Type 0} (w : World Request Payload) (ctx : Context) where
  -- A step spares a key, and leaves the key for the next attribution as it was.
  abbrev pub StepSpares : Text → ℕ → State → Progress → Step Payload → Type 0
  StepSpares key n s pr (reply resp s') = Spares key n s s'
  StepSpares key n s pr (next s' pr') = Spares key n s s' × (pr'.prev_key ≡ pr.prev_key)

  module _ (m : ResolvedMember) (key : Text) (apart : text_eq (member_key m) key ≡ false) where
    change_entry-get :
        (s : State) (f : ProviderRuntimeState → ProviderRuntimeState)
        → get (change_entry s (member_key m) f).runtime key ≡ get s.runtime key
    change_entry-get s f = ground (arith, get-upsert s.runtime (member_key m) key default_state f)

    cool_down-Spares : (s : State) (d : ℕ) → Spares key 0 s (cool_down w ctx s (member_key m) d)
    unfolding cool_down
    cool_down-Spares s d = (change_entry-get s _, omega arith)

    misconfigure-Spares : (s : State) → Spares key 0 s (misconfigure w ctx s (member_key m))
    unfolding misconfigure
    misconfigure-Spares s = (change_entry-get s _, omega arith)

    on_transformed-Spares :
        (retry : Text) (status : ℕ) (r : Result AppError (Response Payload)) (s : State)
        (pr : Progress)
        → StepSpares key 0 s pr (on_transformed w ctx m retry status r s pr)
    unfolding on_transformed log
    on_transformed-Spares retry status (ok resp) s pr = ground arith
    on_transformed-Spares retry status (err (AppError.upstream_with_status e msg)) s pr =
        ground arith
    on_transformed-Spares retry status (err e) s pr = ground arith

    -- A change of the member's own entry before a step is not seen at the key.
    after-Spares :
        (n k : ℕ) (s s' : State) (pr : Progress) (step : Step Payload)
        → Spares key k s s'
        → StepSpares key n s' pr step
        → StepSpares key (k + n) s pr step
    after-Spares n k s s' pr (reply resp t) (e, l) (f, g) = (f ∙ e, omega arith)
    after-Spares n k s s' pr (next t pr') (e, l) ((f, g), h) = ((f ∙ e, omega arith), h)

    on_success-Spares :
        (retry : Text) (up : Upstream Payload) (s : State) (pr : Progress)
        → StepSpares key 0 s pr (on_success w ctx m retry up s pr)
    unfolding on_success
    on_success-Spares retry up s pr =
        let s1 = tick_on (change_entry s (member_key m) record_success) in
        after-Spares 0 0 s s1 pr _ (change_entry-get s record_success, omega arith)
          (on_transformed-Spares retry up.status _ s1 pr)

    on_retry_class-Spares :
        (why : Retry) (class : ErrorClass) (up : Upstream Payload) (s : State) (pr : Progress)
        → StepSpares key 0 s pr (on_retry_class w ctx m why class up s pr)
    unfolding on_retry_class log
    on_retry_class-Spares why ErrorClass.success up s pr =
        on_success-Spares (codes "retry ") up s pr
    on_retry_class-Spares why ErrorClass.non_retryable up s pr = ground arith
    on_retry_class-Spares why ErrorClass.auth_expired up s pr =
        ground (arith, misconfigure-Spares s)
    on_retry_class-Spares why (ErrorClass.retryable r) up s pr =
        ground (arith, cool_down-Spares s (retry_cooldown w ctx m why s up.status r))

    retry_executed-Spares :
        (why : Retry) (r : Result Text (Upstream Payload)) (s : State) (pr : Progress)
        → StepSpares key 0 s pr (retry_executed w ctx m why r s pr)
    unfolding retry_executed received log
    retry_executed-Spares why (err e) s pr =
        ground (arith, cool_down-Spares s (next_cooldown s (member_key m)))
    retry_executed-Spares why (ok up) s pr =
        let s1 = received w ctx m up s in
        after-Spares 0 0 s s1 pr _ (refl, omega arith) (on_retry_class-Spares why _ up s1 pr)

    retry_built-Spares :
        (why : Retry) (r : Result AppError Request) (s : State) (pr : Progress)
        → StepSpares key 1 s pr (retry_built w ctx m why r s pr)
    unfolding retry_built sending log
    retry_built-Spares why (err e) s pr = ground arith
    retry_built-Spares why (ok req) s pr =
        let s1 = sending w ctx m s in
        after-Spares 0 1 s s1 pr _ (refl, omega arith)
          (retry_executed-Spares why (w.execute s.tick req) s1 pr)

    retry_once-Spares :
        (why : Retry) (creds : Credentials) (s : State) (pr : Progress)
        → StepSpares key 1 s pr (retry_once w ctx m why creds s pr)
    unfolding retry_once
    retry_once-Spares why creds s pr =
        after-Spares 1 0 s (tick_on s) pr _ (refl, omega arith)
          (retry_built-Spares why (built w ctx m creds s) (tick_on s) pr)

    on_refreshed-Spares :
        (r : Result RefreshError Credentials) (s : State) (pr : Progress)
        → StepSpares key 1 s pr (on_refreshed w ctx m r s pr)
    unfolding on_refreshed log
    on_refreshed-Spares (ok creds) s pr = retry_once-Spares Retry.refreshed creds s pr
    on_refreshed-Spares (err RefreshError.invalid_grant) s pr =
        ground (arith, misconfigure-Spares s)
    on_refreshed-Spares (err (RefreshError.transient msg)) s pr =
        ground (arith, cool_down-Spares s (next_cooldown s (member_key m)))

    on_auth_expired-Spares :
        (creds : Credentials) (up : Upstream Payload) (s : State) (pr : Progress)
        → StepSpares key 1 s pr (on_auth_expired w ctx m creds up s pr)
    unfolding on_auth_expired log
    on_auth_expired-Spares creds up s pr =
        elim (Bool-cases (not (is_codex m.provider.kind) || not (is_some creds.refresh_token))) [
          | inl e ↦ rw e (ground (arith, misconfigure-Spares s))
          | inr e ↦ rw e (
              after-Spares 1 0 s (tick_on s) pr _ (refl, omega arith)
                (on_refreshed-Spares (w.refresh s.tick (routed_provider m) creds) (tick_on s) pr))
        ]

    on_retryable-Spares :
        (creds : Credentials) (retry_after : Option ℕ) (up : Upstream Payload) (s : State)
        (pr : Progress)
        → StepSpares key 1 s pr (on_retryable w ctx m creds retry_after up s pr)
    unfolding on_retryable log
    on_retryable-Spares creds retry_after up s pr =
        elim (Bool-cases (needs_upgrade w ctx m s up.status (w.read_text_truncated up.payload))) [
          | inl e ↦
              rw (e, on_retryable)
                (after-Spares 1 0 s
                  (record s {
                    transports = remember_transport s.transports m.provider.id Transport.generate;
                  })
                  pr _ (refl, omega arith) (retry_once-Spares Retry.upgraded creds _ pr))
          | inr e ↦ rw (e, on_retryable) ((change_entry-get s _, omega arith), refl)
        ]

    on_class-Spares :
        (creds : Credentials) (class : ErrorClass) (up : Upstream Payload) (s : State)
        (pr : Progress)
        → StepSpares key 1 s pr (on_class w ctx m creds class up s pr)
    unfolding on_class log
    on_class-Spares creds ErrorClass.success up s pr =
        after-Spares 0 1 s s pr _ (refl, omega arith) (on_success-Spares [] up s pr)
    on_class-Spares creds ErrorClass.non_retryable up s pr = ground arith
    on_class-Spares creds ErrorClass.auth_expired up s pr = on_auth_expired-Spares creds up s pr
    on_class-Spares creds (ErrorClass.retryable r) up s pr = on_retryable-Spares creds r up s pr

    first_executed-Spares :
        (creds : Credentials) (r : Result Text (Upstream Payload)) (s : State) (pr : Progress)
        → StepSpares key 1 s pr (first_executed w ctx m creds r s pr)
    unfolding first_executed received log
    first_executed-Spares creds (err e) s pr =
        ground (arith, cool_down-Spares s (next_cooldown s (member_key m)))
    first_executed-Spares creds (ok up) s pr =
        let s1 = received w ctx m up s in
        after-Spares 1 0 s s1 pr _ (refl, omega arith)
          (on_class-Spares creds (classify up.status up.headers) up s1 pr)

    first_built-Spares :
        (creds : Credentials) (r : Result AppError Request) (s : State) (pr : Progress)
        → StepSpares key 2 s pr (first_built w ctx m creds r s pr)
    unfolding first_built sending
    first_built-Spares creds (err e) s pr = ground arith
    first_built-Spares creds (ok req) s pr =
        let s1 = sending w ctx m s in
        after-Spares 1 1 s s1 pr _ (refl, omega arith)
          (first_executed-Spares creds (w.execute s.tick req) s1 pr)

    -- A step spares a key, which is not up for attribution afterwards.
    abbrev StepApart : ℕ → State → Step Payload → Type 0
    StepApart n s (reply resp s') = Spares key n s s'
    StepApart n s (next s' pr') = Spares key n s s' × (pr'.prev_key ≢ some key)

    StepSpares-StepApart :
        (n : ℕ) (s : State) (pr : Progress) (step : Step Payload)
        → pr.prev_key ≡ some (member_key m)
        → StepSpares key n s pr step
        → StepApart n s step
    StepSpares-StepApart n s pr (reply resp s') e h = h
    StepSpares-StepApart n s pr (next s' pr') e (h, f) =
        (h, ground (arith, text_eq_iff (member_key m) key))

    contact-StepApart : (s : State) (pr : Progress) → StepApart 2 s (contact w ctx m s pr)
    unfolding contact send_first
    contact-StepApart s pr =
        let creds = credentials_for w ctx m s in
        elim (Bool-cases (is_ready m.provider (has_token creds))) [
          | inl e ↦ rw e (
              StepSpares-StepApart 2 s (trying w ctx m pr) _ refl (
                first_built-Spares creds (built w ctx m creds (tick_on s)) (tick_on (tick_on s))
                  (trying w ctx m pr)))
          | inr e ↦ rw e ((refl, omega arith), ground (arith, text_eq_iff (member_key m) key))
        ]

    widen :
        (n : ℕ) (s s' : State) (step : Step Payload)
        → Spares key 0 s s'
        → StepApart n s' step
        → StepApart n s step
    widen n s s' (reply resp t) (e, l) (f, g) = (f ∙ e, omega arith)
    widen n s s' (next t pr) (e, l) ((f, g), h) = ((f ∙ e, omega arith), h)

    visit-StepApart :
        (o : Option ProviderRuntimeState) (now : ℕ) (s : State) (pr : Progress)
        → pr.prev_key ≢ some key
        → StepApart 2 s (visit w ctx m o now s pr)
    unfolding visit
    visit-StepApart none now s pr h = contact-StepApart s pr
    visit-StepApart (some st) now s pr h = elim (Bool-cases (is_available st now)) [
      | inl e ↦ rw e (contact-StepApart s pr)
      | inr e ↦ rw e ((refl, omega arith), h)
    ]

    try_member-StepApart :
        (s : State) (pr : Progress)
        → pr.prev_key ≢ some key
        → StepApart 2 s (try_member w ctx m s pr)
    unfolding try_member attributed
    try_member-StepApart s pr h =
        let (same, apart') = attribute_error-get key s.runtime pr h in
        widen 2 s (attributed w ctx m s pr) _ (same, omega arith)
          (visit-StepApart _ (w.clock s.tick) _ (attribute_error s.runtime pr).1 apart')

  Step-cases :
      (step : Step Payload)
      → ((resp : Response Payload) × (s : State) × (step ≡ reply resp s))
        ⊎ ((s : State) × (pr : Progress) × (step ≡ next s pr))
  Step-cases (reply resp s) = inl (resp, s, refl)
  Step-cases (next s pr) = inr (s, pr, refl)

  -- The loop leaves every entry of the health map alone but those of its candidates and the one that
  -- is up for attribution, and sends at most two requests for each candidate.
  pub run_members-Spares :
      (key : Text) (ms : List ResolvedMember) (s : State) (pr : Progress)
      → All (λ m. text_eq (member_key m) key ≡ false) ms
      → pr.prev_key ≢ some key
      → Spares key (2 * length ms) s (run_members w ctx ms s pr).1
  unfolding run_members exhausted
  run_members-Spares key [] s pr h f = ((attribute_error-get key s.runtime pr f).0, omega arith)
  run_members-Spares key (m ∷ ms) s pr (apart, h) f =
      let one = try_member-StepApart m key apart s pr f in
      elim (Step-cases (try_member w ctx m s pr)) [
        | inl (resp, s', e) ↦
            let (same, count) = rw e at one in rw (e, run_members) (same, omega arith)
        | inr (s', pr', e) ↦
            let ((same, count), f') = rw e at one in
            let (same', count') = run_members-Spares key ms s' pr' h f' in
            rw (e, run_members) (same' ∙ same, omega arith)
      ]
