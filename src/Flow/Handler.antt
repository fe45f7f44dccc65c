-- ===== src/Flow/Handler.antt =====
-- `handle_proxy` and `handle_proxy_inner` of src/proxy/flow.rs: the selection, the loop over its
-- candidates, and the 503 when none of them answered.
use router.Prelude.{
  ℕ, ◌+◌, ◌%◌, max, Bool, false, not, ◌&&◌, Option, none, some, List, [], ◌∷◌, ◌++◌, ltb,
  if◌then◌else◌, is_empty, is_some, first,
}
use router.Prelude.Map.{insert}
use router.Prelude.Text.{Text, text_Eq, codes}
use router.Prelude.Text.Decimal.{show}
use router.Model.{WireFormat, ConfigSnapshot}
use router.Users.{Caller, is_admin}
use router.Backoff.{HeaderMap, as_secs, nanos_per_sec}
use router.Select.{ResolvedMember, Selection, DiscoveredModelsMap, select, direct_model_allowed}
use router.Flow.Messages.{SkippedMember, unavailable_message, min_wait}
use router.Flow.World.{Response, World, State, Progress, Context}
use router.Flow.Debug.{wire_error, insert_debug_headers, strip_debug_headers}
use router.Flow.Attempt.{reply, next, attribute_error, try_member}

-- Before the first candidate.
abbrev pub start : Progress
start = record {
  tried = [];
  last_error_body = codes "no provider produced a response";
  last_provider = [];
  skipped = [];
  prev_key = none;
  seen_error = codes "no provider produced a response";
}

-- `wait.as_secs().max(1) + u64::from(wait.subsec_nanos() > 0)`.
unfoldable pub retry_after_secs : ℕ → ℕ
retry_after_secs wait = max (as_secs wait) 1 + (if ltb 0 (wait % nanos_per_sec) then 1 else 0)

-- Only when nothing was tried is there a wait to suggest.
unfoldable pub with_retry_after : HeaderMap → List Text → List SkippedMember → HeaderMap
unfolding insert min_wait show retry_after_secs
with_retry_after headers tried skipped =
    if is_empty tried
    then elim (min_wait skipped) [
      | none ↦ headers
      | some wait ↦ insert headers (codes "retry-after") (show (retry_after_secs wait))
    ]
    else headers

-- A direct address is refused to a caller who may not use the model.
unfoldable pub is_refused : ConfigSnapshot → DiscoveredModelsMap → Caller → Selection → Bool
unfolding direct_model_allowed is_admin
is_refused snapshot discovered caller selection =
    if not (is_some selection.pool) && not (is_admin caller)
    then elim (first selection.providers) [
      | none ↦ false
      | some m ↦ not (direct_model_allowed snapshot discovered m.provider m.effective_model)
    ]
    else false

abbrev refusal_message : Selection → Text
refusal_message selection = elim (first selection.providers) [
  | none ↦ []
  | some m ↦
      codes "model '"
      ++ m.effective_model
      ++ codes "' is not enabled for direct addressing on provider '"
      ++ m.provider.id
      ++ codes "'"
]

module _ {Request Payload : Type 0} (w : World Request Payload) where
  -- After the last candidate.
  unfoldable pub exhausted : Context → State → Progress → Response Payload × State
  unfolding unavailable_message wire_error with_retry_after insert_debug_headers is_admin
  exhausted ctx s pr =
      let (runtime, pr1) = attribute_error s.runtime pr in
      let message =
        unavailable_message ctx.pool_id pr.tried pr.skipped pr.last_error_body
          (is_admin ctx.caller) in
      let resp = wire_error ctx.wire 503 message in
      (
        record resp {
          headers =
              insert_debug_headers (with_retry_after resp.headers pr.tried pr.skipped) pr.tried
                pr.last_provider pr.last_error_body;
        },
        record s { runtime = runtime },
      )

  -- The loop over the candidates.
  unfoldable pub run_members :
      Context → List ResolvedMember → State → Progress → Response Payload × State
  unfolding exhausted
  run_members ctx [] s pr = exhausted ctx s pr
  run_members ctx (m ∷ ms) s pr = elim (try_member w ctx m s pr) [
    | reply resp s' ↦ (resp, s')
    | next s' pr' ↦ run_members ctx ms s' pr'
  ]

  -- What follows the call of `select`.
  unfoldable pub serve_selection :
      ConfigSnapshot
      → DiscoveredModelsMap
      → WireFormat
      → (pool_id : Text) → Caller
      → (body : Text) → State
      → Option Selection
      → Response Payload × State
  unfolding wire_error
  serve_selection snapshot discovered wire pool_id caller body s none =
      (wire_error wire 400 (codes "unknown model or pool '" ++ pool_id ++ codes "'"), s)
  serve_selection snapshot discovered wire pool_id caller body s (some selection) =
      if is_refused snapshot discovered caller selection
      then (wire_error wire 400 (refusal_message selection), s)
      else run_members
          (record {
            wire = wire;
            pool_id = pool_id;
            caller = caller;
            body = body;
            wanted_stream = w.wants_stream body;
          })
          selection.providers s start

  pub handle_proxy_inner :
      ConfigSnapshot
      → DiscoveredModelsMap
      → WireFormat
      → (pool_id : Text) → Caller
      → (body : Text) → State
      → Response Payload × State
  unfolding serve_selection
  handle_proxy_inner snapshot discovered wire pool_id caller body s =
      let (selected, rotation) = select snapshot pool_id wire s.rotation in
      serve_selection snapshot discovered wire pool_id caller body
        (record s { rotation = rotation }) selected

  unfoldable pub handle_proxy :
      ConfigSnapshot
      → DiscoveredModelsMap
      → WireFormat
      → (pool_id : Text) → Caller
      → (body : Text) → State
      → Response Payload × State
  unfolding handle_proxy_inner
  handle_proxy snapshot discovered wire pool_id caller body s =
      let (resp, s') = handle_proxy_inner snapshot discovered wire pool_id caller body s in
      (
        if not (is_admin caller)
            then record resp { headers = strip_debug_headers resp.headers }
            else resp,
        s',
      )
