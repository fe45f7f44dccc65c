-- ===== src/Flow/Attempt.antt =====
-- One iteration of the loop of `handle_proxy_inner`: what is done with one candidate.
use router.Prelude.{
  ℕ, suc, Bool, true, false, not, ◌&&◌, ◌||◌, Option, none, some, [], ◌∷◌, ◌++◌, nat_beq,
  if◌then◌else◌, is_empty, is_some, unwrap_or, or_else, ◌==◌,
}
use router.Prelude.Map.{get, modify}
use router.Prelude.Text.{Text, text_Eq, codes}
use router.Model.{Provider, is_codex, is_command_code}
use router.Error.{AppError, Result, ok, err, RefreshError, ErrorClass, display}
use router.Backoff.{classify, from_secs, is_server_error}
use router.Runtime.{
  ProviderRuntimeState, RuntimeStateMap, is_available, retry_in, note_error, record_success,
  record_retryable, mark_misconfigured, runtime_key,
}
use router.Select.{ResolvedMember, dataset_logging_enabled, resolve_reasoning_effort}
use router.Credentials.{Credentials, from_provider_and_oauth, has_token, is_ready}
use router.Transport.{
  Transport, current_transport, is_provider_transport, is_upgrade_required, remember_transport,
}
use router.Limits.{capture}
use router.Flow.Messages.{SkippedMember}
use router.Flow.World.{
  Upstream, Response, World, State, Progress, Context, tick_on, change_entry, next_cooldown, log,
}
use router.Flow.Debug.{build_wire_error, build_error_passthrough}

-- The end of an iteration: `return`, or `continue` with the next candidate.
pub data Step (Payload : Type 0) : Type 0 where
  reply : Response Payload → State → Step Payload
  next : State → Progress → Step Payload

-- `attribute_error`: the text is pinned on the entry of the member that caused it, if it has one.
abbrev pinned : RuntimeStateMap → Option Text → Text → RuntimeStateMap
pinned runtime none current = runtime
pinned runtime (some key) current = modify runtime key (λ st. note_error st current)

unfoldable pub attribute_error : RuntimeStateMap → Progress → RuntimeStateMap × Progress
unfolding modify note_error
attribute_error runtime pr = if pr.last_error_body == pr.seen_error then (runtime, pr) else (
  pinned runtime pr.prev_key pr.last_error_body,
  record pr { prev_key = none; seen_error = pr.last_error_body },
)

abbrev pub member_key : ResolvedMember → Text
member_key m = runtime_key m.provider.id m.effective_model

-- The clone that carries the member's model and effort to the adapter.
pub routed_provider : ResolvedMember → Provider
unfolding resolve_reasoning_effort
routed_provider m = record (m.provider) {
  upstream_model = m.effective_model;
  default_reasoning_effort = resolve_reasoning_effort m.provider m.reasoning_effort_override;
}

-- Why a request is sent a second time.
pub data Retry : Type 0 where
  refreshed upgraded : Retry

module _ {Request Payload : Type 0} (w : World Request Payload) (ctx : Context) where
  unfoldable pub cool_down : State → Text → ℕ → State
  unfolding record_retryable
  cool_down s key cooldown =
      tick_on (change_entry s key (λ st. record_retryable st cooldown (w.clock s.tick)))

  unfoldable pub misconfigure : State → Text → State
  unfolding mark_misconfigured
  misconfigure s key = tick_on (change_entry s key (λ st. mark_misconfigured st (w.clock s.tick)))

  -- The iteration's candidate, with the key of its entry.
  module _ (m : ResolvedMember) where
    abbrev fail_text : State → Text → Progress → Step Payload
    fail_text s text pr = next s (record pr { last_error_body = text })

    abbrev app_error : AppError → Text
    app_error e = display w.show_status e

    -- What becomes of a transformed answer; `retry` is "retry " for a second request.
    unfoldable pub on_transformed :
        (retry : Text)
        → (status : ℕ) → Result AppError (Response Payload)
        → State
        → Progress
        → Step Payload
    unfolding log dataset_logging_enabled
    on_transformed retry status (ok resp) s pr =
        let s1 = log s ctx m.provider.id (some status) true in
        reply resp (
          if dataset_logging_enabled m.provider m.dataset_logging_override
          then record s1 { taps = (m.provider.id, m.effective_model) ∷ s1.taps }
          else s1)
    on_transformed retry status (err (AppError.upstream_with_status embedded msg)) s pr =
        reply (build_wire_error ctx.wire embedded msg pr.tried m.provider.id)
          (log s ctx m.provider.id (some status) false)
    on_transformed retry status (err e) s pr =
        fail_text (log s ctx m.provider.id (some status) false)
          (retry ++ codes "response transform failed: " ++ app_error e) pr

    -- The arm `ErrorClass::Success`.
    unfoldable pub on_success : (retry : Text) → Upstream Payload → State → Progress → Step Payload
    unfolding record_success routed_provider
    on_success retry up s pr =
        let s1 = change_entry s (member_key m) record_success in
        on_transformed retry up.status
          (w.transform_response s1.tick (routed_provider m) ctx.wire up ctx.wanted_stream)
          (tick_on s1) pr

    -- The cooldown of a failure that is worth a retry, where the upstream named none.
    pub default_cooldown : State → ℕ → ℕ
    unfolding next_cooldown
    default_cooldown s status =
        if is_server_error status || nat_beq status 429 || nat_beq status 408
        then next_cooldown s (member_key m)
        else from_secs 30

    -- After a fallback to another transport the upstream's own delay is not heeded.
    pub retry_cooldown : Retry → State → ℕ → Option ℕ → ℕ
    unfolding default_cooldown next_cooldown
    retry_cooldown Retry.refreshed s status retry_after =
        unwrap_or retry_after (default_cooldown s status)
    retry_cooldown Retry.upgraded s status retry_after = next_cooldown s (member_key m)

    -- The answer to the second request.
    unfoldable pub on_retry_class :
        Retry → ErrorClass → Upstream Payload → State → Progress → Step Payload
    unfolding on_success log misconfigure cool_down retry_cooldown
    on_retry_class why ErrorClass.success up s pr = on_success (codes "retry ") up s pr
    on_retry_class why ErrorClass.non_retryable up s pr =
        fail_text (log s ctx m.provider.id (some up.status) false)
          (w.read_text_truncated up.payload) pr
    on_retry_class why ErrorClass.auth_expired up s pr =
        fail_text (log (misconfigure s (member_key m)) ctx m.provider.id (some up.status) false)
          (w.read_text_truncated up.payload) pr
    on_retry_class why (ErrorClass.retryable retry_after) up s pr =
        fail_text
          (log (cool_down s (member_key m) (retry_cooldown why s up.status retry_after)) ctx
            m.provider.id (some up.status) false)
          (w.read_text_truncated up.payload) pr

    -- A request goes out, and its answer's quota headers are kept.
    unfoldable pub sending : State → State
    sending s = record s { tick = suc s.tick; sent = (m.provider.id, m.effective_model) ∷ s.sent }

    unfoldable pub received : Upstream Payload → State → State
    unfolding capture
    received up s = record s { limits = capture s.limits m.provider.id up.headers }

    unfoldable pub retry_executed :
        Retry → Result Text (Upstream Payload) → State → Progress → Step Payload
    unfolding received on_retry_class log cool_down next_cooldown classify
    retry_executed why (err e) s pr =
        fail_text
          (log (cool_down s (member_key m) (next_cooldown s (member_key m))) ctx m.provider.id none
            false)
          (codes "retry upstream request error: " ++ e) pr
    retry_executed why (ok up) s pr =
        on_retry_class why (classify up.status up.headers) up (received up s) pr

    unfoldable pub retry_built : Retry → Result AppError Request → State → Progress → Step Payload
    unfolding sending retry_executed log
    retry_built why (err e) s pr =
        fail_text (log s ctx m.provider.id none false)
          (codes "retry request build failed: " ++ app_error e) pr
    retry_built why (ok req) s pr = retry_executed why (w.execute s.tick req) (sending s) pr

    abbrev pub built : Credentials → State → Result AppError Request
    built creds s =
        w.build_request s.tick (routed_provider m) ctx.wire ctx.caller.user_id s.transports ctx.body
          creds

    -- The second request, with the same or with refreshed credentials.
    unfoldable pub retry_once : Retry → Credentials → State → Progress → Step Payload
    unfolding retry_built routed_provider
    retry_once why creds s pr = retry_built why (built creds s) (tick_on s) pr

    unfoldable pub on_refreshed : Result RefreshError Credentials → State → Progress → Step Payload
    unfolding retry_once misconfigure log cool_down next_cooldown
    on_refreshed (ok new_creds) s pr = retry_once Retry.refreshed new_creds s pr
    on_refreshed (err RefreshError.invalid_grant) s pr =
        fail_text (log (misconfigure s (member_key m)) ctx m.provider.id (some 401) false)
          (codes "refresh token invalid_grant; re-auth required") pr
    on_refreshed (err (RefreshError.transient msg)) s pr =
        fail_text
          (log (cool_down s (member_key m) (next_cooldown s (member_key m))) ctx m.provider.id
            (some 401) false)
          (codes "transient refresh error: " ++ msg) pr

    -- The body of the upstream's error, with its status and its content type.
    abbrev pub passthrough : Upstream Payload → Progress → Response Payload
    passthrough up pr =
        build_error_passthrough up.status (w.read_text_truncated up.payload) pr.tried m.provider.id
          (get up.headers (codes "content-type"))

    -- The arm `ErrorClass::AuthExpired`.
    unfoldable pub on_auth_expired :
        Credentials → Upstream Payload → State → Progress → Step Payload
    unfolding misconfigure log on_refreshed get routed_provider
    on_auth_expired creds up s pr =
        if not (is_codex m.provider.kind) || not (is_some creds.refresh_token)
        then reply (passthrough up pr)
            (log (misconfigure s (member_key m)) ctx m.provider.id (some up.status) false)
        else on_refreshed (w.refresh s.tick (routed_provider m) creds) (tick_on s) pr

    -- Whether the account must use the other transport.
    unfoldable pub needs_upgrade : State → ℕ → Text → Bool
    unfolding current_transport is_upgrade_required
    needs_upgrade s status error_text =
        is_command_code m.provider.kind
        && is_provider_transport (current_transport s.transports m.provider.id)
        && is_upgrade_required status error_text

    -- The arm `ErrorClass::Retryable`.
    unfoldable pub on_retryable :
        Credentials → Option ℕ → Upstream Payload → State → Progress → Step Payload
    unfolding needs_upgrade remember_transport retry_once cool_down default_cooldown log
    on_retryable creds retry_after up s pr =
        let error_text = w.read_text_truncated up.payload in
        if needs_upgrade s up.status error_text
        then retry_once Retry.upgraded creds
            (record s {
              transports = remember_transport s.transports m.provider.id Transport.generate;
            })
            pr
        else let usage =
            if nat_beq up.status 429 then w.usage_limit_cooldown s.tick error_text else none in
          let cooldown = unwrap_or (or_else retry_after usage) (default_cooldown s up.status) in
          fail_text
            (log (cool_down (tick_on s) (member_key m) cooldown) ctx m.provider.id (some up.status)
              false)
            error_text pr

    -- The match on the class of the first answer.
    unfoldable pub on_class :
        Credentials → ErrorClass → Upstream Payload → State → Progress → Step Payload
    unfolding on_success on_auth_expired on_retryable log get
    on_class creds ErrorClass.success up s pr = on_success [] up s pr
    on_class creds ErrorClass.non_retryable up s pr =
        reply (passthrough up pr) (log s ctx m.provider.id (some up.status) false)
    on_class creds ErrorClass.auth_expired up s pr = on_auth_expired creds up s pr
    on_class creds (ErrorClass.retryable retry_after) up s pr =
        on_retryable creds retry_after up s pr

    unfoldable pub first_executed :
        Credentials → Result Text (Upstream Payload) → State → Progress → Step Payload
    unfolding received on_class log cool_down next_cooldown classify
    first_executed creds (err e) s pr =
        fail_text
          (log (cool_down s (member_key m) (next_cooldown s (member_key m))) ctx m.provider.id none
            false)
          (codes "upstream request error: " ++ e) pr
    first_executed creds (ok up) s pr =
        on_class creds (classify up.status up.headers) up (received up s) pr

    unfoldable pub first_built :
        Credentials → Result AppError Request → State → Progress → Step Payload
    unfolding sending first_executed
    first_built creds (err e) s pr = fail_text s (codes "request build failed: " ++ app_error e) pr
    first_built creds (ok req) s pr = first_executed creds (w.execute s.tick req) (sending s) pr

    -- The first request.
    unfoldable pub send_first : Credentials → State → Progress → Step Payload
    unfolding first_built routed_provider
    send_first creds s pr = first_built creds (built creds s) (tick_on s) pr

    -- `credentials_for`.
    unfoldable pub credentials_for : State → Credentials
    unfolding from_provider_and_oauth
    credentials_for s = from_provider_and_oauth m.provider (w.oauth_state s.tick m.provider.id)

    abbrev pub trying : Progress → Progress
    trying pr = record pr {
      prev_key = some (member_key m);
      tried = pr.tried ++ m.provider.id ∷ [];
      last_provider = m.provider.id;
    }

    -- A candidate that is not set up is passed over; another one is tried.
    unfoldable pub contact : State → Progress → Step Payload
    unfolding credentials_for is_ready send_first
    contact s pr =
        let creds = credentials_for s in
        if not (is_ready m.provider (has_token creds))
        then next (tick_on s) (record pr {
          prev_key = some (member_key m);
          last_error_body =
              if is_empty pr.tried
              then codes "provider '" ++ m.provider.id ++ codes "' is not configured yet"
              else pr.last_error_body;
        })
        else send_first creds (tick_on s) (trying pr)

    abbrev pub skipped_member : ProviderRuntimeState → ℕ → SkippedMember
    skipped_member st now = record {
      provider = m.provider.id;
      model = m.effective_model;
      status = st.status;
      retry_in = unwrap_or (retry_in st now) 0;
      reason = st.last_error;
    }

    -- A candidate that is cooling down is skipped; one without an entry is not.
    unfoldable pub visit : Option ProviderRuntimeState → (now : ℕ) → State → Progress → Step Payload
    visit none now s pr = contact s pr
    visit (some st) now s pr =
        if is_available st now
        then contact s pr
        else next s (record pr { skipped = pr.skipped ++ skipped_member st now ∷ [] })

    -- The state in which the candidate is looked up: the clock is read, and the last failure's text
    -- is pinned on its entry.
    unfoldable pub attributed : State → Progress → State
    attributed s pr = record s { tick = suc s.tick; runtime = (attribute_error s.runtime pr).0 }

    -- The whole iteration.
    unfoldable pub try_member : State → Progress → Step Payload
    try_member s pr =
        visit (get (attribute_error s.runtime pr).0 (member_key m)) (w.clock s.tick)
          (attributed s pr) (attribute_error s.runtime pr).1
