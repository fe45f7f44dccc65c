-- ===== src/Flow/Tests.antt =====
-- Examples for src/proxy/flow.rs.
use mathlib.Core.List.{Mem}
use router.Prelude.{
  ◌⊎◌, ℕ, ◌+◌, ◌^◌, ◌<◌, ◌≤◌, ◌≡◌, ◌↔◌, refl, true, false, none, some, [], ◌∷◌, arith, min,
  unwrap_or, if◌then◌else◌, ltb,
}
use router.Prelude.Map.{get}
use router.Prelude.Text.{Text, text_Eq, text_eq, codes}
use router.Prelude.Text.Decimal.{show}
use router.Model.{WireFormat}
use router.Error.{ErrorClass, ok}
use router.Backoff.{classify, from_secs}
use router.Runtime.{
  ProviderStatus, RuntimeStateMap, default_state, runtime_key, misconfigured_retry_after,
}
use router.Runtime.Prune.{key_available}
use router.Select.{ResolvedMember, Selection, select}
use router.Select.Addressing.{direct_member}
use router.Users.{is_admin}
use router.Flow.World.{World, Upstream, Body, State, Progress, level_of, next_cooldown}
use router.Flow.Attempt.{
  member_key, attribute_error, passthrough, trying, routed_provider, needs_upgrade,
}
use router.Flow.Handler.{run_members, handle_proxy, start}
use router.Flow.Keys.{Spares}
use router.Flow.Requests.{handle_proxy-Spares, handle_proxy-debug}
use router.Flow.Direct.{IsEnabled, handle_proxy-guarded}
use router.Select.Addressing.{IsDirect}
use router.Flow.Outcomes.{IsAnswered, s₂, pr₁, log_entry, run_members-success}
use router.Flow.Failures.{
  next_cooldown_lem, run_members-non_retryable, run_members-auth_expired, run_members-retryable,
}
use router.Flow.Exhausted.{run_members-cooling}
use router.Flow.Refreshed.{IsRetried, run_members-refreshed}
use router.Refresh.{row_of}
use router.Examples.{
  credentials, chat_pool, acme, codex, config, guest, candidate, world, answer, initial, context,
}

abbrev one : ResolvedMember
one = candidate acme

abbrev other_key : Text
other_key = runtime_key (codes "cx") (codes "m2")

abbrev chat : Selection
chat = record { pool = some chat_pool; providers = one ∷ candidate codex ∷ [] }

next_cooldown_lem_example :
    (level_of initial other_key < 255
      → next_cooldown initial other_key
        ≡ from_secs (min (2 ^ (level_of initial other_key + 1)) 300))
    × (level_of initial other_key ≡ 255 → next_cooldown initial other_key ≡ from_secs 2)
next_cooldown_lem_example = next_cooldown_lem initial other_key

answer-IsAnswered :
    (status : ℕ)
    → IsAnswered (world (answer status)) context one initial start (codes "{}") (answer status)
unfolding key_available router.Flow.Attempt.attributed attribute_error text_eq
    router.Credentials.is_ready
answer-IsAnswered status = record {
  available = refl;
  ready = refl;
  requested = refl;
  answered = refl;
}

run_members-success_example :
    let w = world (answer 200) in
    (s' : State) × (run_members w context (one ∷ candidate codex ∷ []) initial start
      ≡ (record { status = 200; headers = []; body = Body.text (codes "body") }, s'))
    × (get s'.runtime (member_key one) ≡ some default_state)
    × (s'.logs ≡ log_entry w context one initial start (some 200) true ∷ [])
    × (s'.taps ≡ (
        if unwrap_or one.dataset_logging_override acme.dataset_logging
        then (codes "acme", codes "m1") ∷ []
        else []))
    × (s'.sent ≡ (codes "acme", codes "m1") ∷ [])
unfolding classify
run_members-success_example =
    run_members-success (world (answer 200)) context one initial start (candidate codex ∷ [])
      (codes "{}") (answer 200)
      (record { status = 200; headers = []; body = Body.text (codes "body") })
      (answer-IsAnswered 200) refl (λ t. refl)

run_members-non_retryable_example :
    let w = world (answer 400) in
    (s' : State) × (run_members w context (one ∷ candidate codex ∷ []) initial start ≡ (
      passthrough w context one
          (answer 400)
          (trying w context one (pr₁ w context one initial start)),
      s',
    ))
    × ((passthrough w context one (answer 400) start).status ≡ 400)
    × (s'.runtime ≡ (attribute_error [] start).0)
    × (s'.logs ≡ log_entry w context one initial start (some 400) false ∷ [])
    × (s'.sent ≡ (codes "acme", codes "m1") ∷ [])
unfolding classify
run_members-non_retryable_example =
    run_members-non_retryable (world (answer 400)) context one initial start (candidate codex ∷ [])
      (codes "{}") (answer 400) (answer-IsAnswered 400) refl

run_members-auth_expired_example :
    let w = world (answer 401) in
    (s' : State) × (run_members w context (one ∷ []) initial start ≡ (
      passthrough w context one
          (answer 401)
          (trying w context one (pr₁ w context one initial start)),
      s',
    ))
    × ((later : ℕ)
        → (key_available s'.runtime (member_key one) later ≡ true)
          ↔ (1000 + misconfigured_retry_after ≤ later))
    × (s'.logs ≡ log_entry w context one initial start (some 401) false ∷ [])
unfolding classify
run_members-auth_expired_example =
    run_members-auth_expired (world (answer 401)) context one initial start [] (codes "{}")
      (answer 401) (answer-IsAnswered 401) refl refl

-- The upstream asks for two minutes.
abbrev busy : Upstream Text
busy = record {
  status = 429;
  headers = (codes "retry-after", codes "120") ∷ [];
  payload = codes "slow down";
}

busy-IsAnswered : IsAnswered (world busy) context one initial start (codes "{}") busy
unfolding key_available router.Flow.Attempt.attributed attribute_error text_eq
    router.Credentials.is_ready
busy-IsAnswered = record { available = refl; ready = refl; requested = refl; answered = refl }

is_busy : classify 429 busy.headers ≡ ErrorClass.retryable (some (from_secs 120))
unfolding classify router.Backoff.reset_after_from_header text_eq
is_busy = refl

stays :
    needs_upgrade
      (world busy)
      context
      one
      (s₂ (world busy) context one initial start busy)
      429
      (codes "slow down")
    ≡ false
unfolding needs_upgrade
stays = refl

run_members-retryable_example :
    let w = world busy in
    (s' : State) × (pr' : Progress) × (run_members w context
        (one ∷ candidate codex ∷ [])
        initial
        start
      ≡ run_members w context (candidate codex ∷ []) s' pr')
    × ((later : ℕ)
        → (key_available s'.runtime (member_key one) later ≡ true) ↔ (1000 + from_secs 120 ≤ later))
    × (pr'.last_error_body ≡ codes "slow down")
    × (pr'.prev_key ≡ some (member_key one))
    × (s'.logs ≡ log_entry w context one initial start (some 429) false ∷ [])
run_members-retryable_example =
    run_members-retryable (world busy) context one initial start (candidate codex ∷ []) (codes "{}")
      busy busy-IsAnswered (some (from_secs 120)) is_busy stays

abbrev cooling : RuntimeStateMap
cooling =
    (
      member_key one,
      record {
        backoff_level = 1;
        unavailable_until = some 5000;
        status = ProviderStatus.cooling;
        last_error = none;
      },
    )
    ∷ []

is_cooling : key_available cooling (member_key one) 2000 ≡ false
unfolding key_available text_eq runtime_key
is_cooling = refl

run_members-cooling_example :
    (t : ℕ) × (n : ℕ) × (c : ResolvedMember) × (let (resp, s') =
        run_members
          (world (answer 200))
          context
          (one ∷ [])
          (record initial { runtime = cooling })
          start in
      (resp.status ≡ 503)
      × (get resp.headers (codes "retry-after") ≡ some (show n))
      × Mem c (one ∷ [])
      × (key_available cooling (member_key c) (2000 + from_secs n) ≡ true)
      × (s' ≡ record initial { tick = t; runtime = cooling }))
run_members-cooling_example =
    run_members-cooling (world (answer 200)) context one [] (record initial { runtime = cooling })
      2000 (λ t. omega arith) (is_cooling, tt)

selects_chat : (select config (codes "chat") WireFormat.open_ai []).0 ≡ some chat
unfolding select text_eq
selects_chat = refl

handle_proxy-Spares_example :
    Spares other_key 4 initial
      (handle_proxy
        (world (answer 500))
        config
        []
        WireFormat.open_ai
        (codes "chat")
        guest
        (codes "{}")
        initial).1
unfolding runtime_key text_eq
handle_proxy-Spares_example =
    handle_proxy-Spares (world (answer 500)) config [] WireFormat.open_ai (codes "chat") guest
      (codes "{}") initial other_key chat selects_chat (refl, (refl, tt))

is_guest : is_admin guest ≡ false
unfolding is_admin text_eq
is_guest = refl

handle_proxy-debug_example :
    let resp =
      (handle_proxy
        (world (answer 200))
        config
        []
        WireFormat.open_ai
        (codes "chat")
        guest
        (codes "{}")
        initial).0 in
    (get resp.headers (codes "x-1router-tried") ≡ none)
    × (get resp.headers (codes "x-1router-provider") ≡ none)
    × (get resp.headers (codes "x-1router-error") ≡ none)
handle_proxy-debug_example =
    handle_proxy-debug (world (answer 200)) config [] WireFormat.open_ai (codes "chat") guest
      (codes "{}") initial is_guest

abbrev hidden : ResolvedMember
hidden = direct_member acme (codes "m9")

selects_hidden :
    (select config (codes "acme/m9") WireFormat.open_ai []).0
    ≡ some (record { pool = none; providers = hidden ∷ [] })
unfolding select text_eq
selects_hidden = refl

handle_proxy-guarded_example :
    let (resp, after) =
      handle_proxy
        (world (answer 200))
        config
        []
        WireFormat.open_ai
        (codes "acme/m9")
        guest
        (codes "{}")
        initial in
    (d : IsDirect config (codes "acme/m9") (record { pool = none; providers = hidden ∷ [] }))
    × ((IsEnabled config [] d.provider d.model
          × (after
              ≡ (run_members
                  (world (answer 200))
                  (record {
                    wire = WireFormat.open_ai;
                    pool_id = codes "acme/m9";
                    caller = guest;
                    body = codes "{}";
                    wanted_stream = (world (answer 200)).wants_stream (codes "{}");
                  })
                  (direct_member d.provider d.model ∷ [])
                  initial
                  start).1))
        ⊎ ((¬ IsEnabled config [] d.provider d.model) × (resp.status ≡ 400) × (after ≡ initial)))
handle_proxy-guarded_example =
    handle_proxy-guarded (world (answer 200)) config [] WireFormat.open_ai (codes "acme/m9") guest
      (codes "{}") initial (record { pool = none; providers = hidden ∷ [] }) is_guest selects_hidden
      refl

-- The first request meets an expired token, the second one succeeds.
abbrev renewing : World Text Text
renewing = record (world (answer 200)) {
  oauth_state = λ _ _. some (row_of credentials);
  execute = λ t _. if ltb t 4 then ok (answer 401) else ok (answer 200);
  refresh = λ _ _ creds. ok creds;
}

abbrev account : ResolvedMember
account = candidate codex

account-IsAnswered : IsAnswered renewing context account initial start (codes "{}") (answer 401)
unfolding key_available router.Flow.Attempt.attributed attribute_error text_eq
    router.Credentials.is_ready router.Flow.Attempt.credentials_for
account-IsAnswered = record { available = refl; ready = refl; requested = refl; answered = refl }

account-IsRetried :
    IsRetried renewing context account initial start []
      (codes "{}")
      (answer 401)
      account-IsAnswered
      credentials
      (codes "{}")
      (answer 200)
unfolding classify router.Flow.Attempt.credentials_for router.Flow.Attempt.received
    router.Flow.Attempt.sending router.Flow.Attempt.attributed
account-IsRetried = record {
  expired = refl;
  refreshable = refl;
  refreshed = refl;
  requested = refl;
  answered = refl;
}

run_members-refreshed_example :
    (s' : State) × (run_members renewing context (account ∷ []) initial start
      ≡ (record { status = 200; headers = []; body = Body.text (codes "body") }, s'))
    × (get s'.runtime (member_key account) ≡ some default_state)
    × (s'.logs ≡ log_entry renewing context account initial start (some 200) true ∷ [])
    × (s'.sent ≡ (codes "cx", codes "gpt-image-2") ∷ (codes "cx", codes "gpt-image-2") ∷ [])
unfolding classify
run_members-refreshed_example =
    run_members-refreshed renewing context account initial start [] (codes "{}") (answer 401)
      account-IsAnswered credentials (codes "{}") (answer 200)
      (record { status = 200; headers = []; body = Body.text (codes "body") }) account-IsRetried
      refl (λ t. refl)
