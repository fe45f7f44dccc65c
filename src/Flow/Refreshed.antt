-- ===== src/Flow/Refreshed.antt =====
-- A Codex account whose access token has expired on the way: the token is refreshed and the request is
-- sent to the same account once more.
use router.Prelude.{ℕ, ◌≡◌, refl, ap, ◌∙◌, true, false, not, ◌||◌, is_some, some, List, ◌∷◌}
use router.Prelude.Map.{get}
use router.Prelude.Text.{text_Eq, codes}
use router.Model.{is_codex}
use router.Error.{ErrorClass, ok}
use router.Backoff.{classify}
use router.Runtime.{default_state, record_success}
use router.Select.{ResolvedMember}
use router.Credentials.{Credentials}
use router.Flow.World.{World, State, Progress, Context, Upstream, Response, change_entry, tick_on}
use router.Flow.Attempt.{
  member_key, try_member, built, on_class, on_auth_expired, on_refreshed, on_retry_class,
  on_success, Retry, retry_once, retry_built, retry_executed, sending, received, routed_provider,
  trying, attributed,
}
use router.Flow.Handler.{run_members}
use router.Flow.Outcomes.{
  IsAnswered, pr₁, creds₁, s₂, log_entry, try_member-answered, get-change_entry, on_transformed-ok,
}

module _ {Request Payload : Type 0} (w : World Request Payload) (ctx : Context) (m : ResolvedMember)
    (s : State) (pr : Progress) (ms : List ResolvedMember) (req : Request) (up : Upstream Payload)
    (a : IsAnswered w ctx m s pr req up) where
  abbrev creds : Credentials
  creds = creds₁ w ctx m s pr

  -- The state in which the tokens are refreshed, and the one in which the second request is sent.
  abbrev pub s2 : State
  s2 = s₂ w ctx m s pr up

  abbrev pub s3 : State
  s3 = tick_on (tick_on s2)

  abbrev now_trying : Progress
  now_trying = trying w ctx m (pr₁ w ctx m s pr)

  -- The second request is built with the new tokens and answered.
  pub record IsRetried (new_creds : Credentials) (req' : Request) (up' : Upstream Payload)
      : Type 0 where
    pub expired : classify up.status up.headers ≡ ErrorClass.auth_expired
    pub refreshable : (not (is_codex m.provider.kind) || not (is_some creds.refresh_token)) ≡ false
    pub refreshed : w.refresh s2.tick (routed_provider m) creds ≡ ok new_creds
    pub requested : built w ctx m new_creds (tick_on s2) ≡ ok req'
    pub answered : w.execute s3.tick req' ≡ ok up'

  retried :
      (new_creds : Credentials) (req' : Request) (up' : Upstream Payload)
      → IsRetried new_creds req' up'
      → try_member w ctx m s pr
        ≡ on_retry_class w ctx m Retry.refreshed
            (classify up'.status up'.headers)
            up'
            (received w ctx m up' (sending w ctx m s3))
            now_trying
  unfolding on_class on_auth_expired on_refreshed retry_once retry_built retry_executed
  retried new_creds req' up' r =
      try_member-answered w ctx m s pr req up a
      ∙ rw (r.expired, r.refreshable, r.refreshed, r.requested, r.answered) refl

  -- A Codex account whose access token is rejected is not given up: when its refresh token yields new
  -- tokens, the request is sent to it once more with them, and a success that the adapter can relay is
  -- the caller's answer. Two requests have been sent, the exchange is logged once, as a success, and
  -- the account's entry is healthy.
  pub run_members-refreshed :
      (new_creds : Credentials) (req' : Request) (up' : Upstream Payload) (resp : Response Payload)
      → IsRetried new_creds req' up'
      → classify up'.status up'.headers ≡ ErrorClass.success
      → ((t : ℕ)
          → w.transform_response t (routed_provider m) ctx.wire up' ctx.wanted_stream ≡ ok resp)
      → (s' : State) × (run_members w ctx (m ∷ ms) s pr ≡ (resp, s'))
        × (get s'.runtime (member_key m) ≡ some default_state)
        × (s'.logs ≡ log_entry w ctx m s pr (some up'.status) true ∷ s.logs)
        × (s'.sent
            ≡ (m.provider.id, m.effective_model) ∷ (m.provider.id, m.effective_model) ∷ s.sent)
  unfolding run_members on_retry_class on_success attributed sending received record_success
  run_members-refreshed new_creds req' up' resp r class relayed =
      let s4 = received w ctx m up' (sending w ctx m s3) in
      let t = change_entry s4 (member_key m) record_success in
      let (s', e, same, logged, tapped, sent) =
        on_transformed-ok w ctx m s pr (codes "retry ") up'.status resp (tick_on t) now_trying in
      (
        s',
        rw (retried new_creds req' up' r, run_members, class, relayed t.tick, e) refl,
        ap (λ r. get r (member_key m)) same ∙ get-change_entry w ctx m s pr s4 record_success,
        logged,
        sent,
      )
