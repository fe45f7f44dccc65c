-- ===== src/Flow/Outcomes.antt =====
-- What becomes of a request whose candidate is reached: relayed, passed back, or offered to the
-- next candidate.
use router.Prelude.{
  ℕ, ◌≡◌, refl, ap, ◌∙◌, Bool, true, Option, some, List, [], ◌∷◌, Bool-cases, Option-cases, inl,
  inr, unwrap_or, if◌then◌else◌,
}
use router.Prelude.Map.{get, get-upsert}
use router.Prelude.Text.{Text, text_Eq}
use router.Prelude.Text.Laws.{text_eq_refl}
use router.Model.{LogEntry}
use router.Error.{ok, ErrorClass}
use router.Backoff.{classify}
use router.Runtime.{ProviderRuntimeState, default_state, is_available, record_success}
use router.Runtime.Prune.{key_available}
use router.Select.{ResolvedMember, dataset_logging_enabled}
use router.Credentials.{Credentials, has_token, is_ready}
use router.Flow.World.{
  World, State, Progress, Context, Upstream, Response, change_entry, tick_on, log,
}
use router.Flow.Attempt.{
  reply, member_key, attribute_error, attributed, try_member, visit, contact, trying,
  credentials_for, built, send_first, first_built, first_executed, on_class, sending, received,
  on_success, on_transformed, routed_provider,
}
use router.Flow.Handler.{run_members}

module _ {Request Payload : Type 0} (w : World Request Payload) (ctx : Context) (m : ResolvedMember)
    (s : State) (pr : Progress) where
  abbrev pub pr₁ : Progress
  pr₁ = (attribute_error s.runtime pr).1

  abbrev s₁ : State
  s₁ = attributed w ctx m s pr

  abbrev pub creds₁ : Credentials
  creds₁ = credentials_for w ctx m s₁

  -- The candidate is available, set up, and gets a request that the upstream answers.
  pub record IsAnswered (req : Request) (up : Upstream Payload) : Type 0 where
    pub available : key_available s₁.runtime (member_key m) (w.clock s.tick) ≡ true
    pub ready : is_ready m.provider (has_token creds₁) ≡ true
    pub requested : built w ctx m creds₁ (tick_on s₁) ≡ ok req
    pub answered : w.execute (tick_on (tick_on s₁)).tick req ≡ ok up

  -- The state in which the answer is classified.
  abbrev pub s₂ : Upstream Payload → State
  s₂ up = received w ctx m up (sending w ctx m (tick_on (tick_on s₁)))

  contact-answered :
      (req : Request) (up : Upstream Payload)
      → IsAnswered req up
      → contact w ctx m s₁ pr₁
        ≡ on_class w ctx m creds₁ (classify up.status up.headers) up (s₂ up) (trying w ctx m pr₁)
  unfolding contact send_first first_built first_executed
  contact-answered req up a = rw (a.ready, a.requested, a.answered) refl

  try_member-available :
      key_available s₁.runtime (member_key m) (w.clock s.tick) ≡ true
      → try_member w ctx m s pr ≡ contact w ctx m s₁ pr₁
  unfolding try_member visit key_available attributed
  try_member-available h =
      elim (Option-cases (get (attribute_error s.runtime pr).0 (member_key m))) [
        | inl e ↦ rw (e, visit) refl
        | inr (st, e) ↦
            let f : is_available st (w.clock s.tick) ≡ true = rw (e, key_available) at h in
            rw (e, visit, f) refl
      ]

  pub try_member-answered :
      (req : Request) (up : Upstream Payload)
      → IsAnswered req up
      → try_member w ctx m s pr
        ≡ on_class w ctx m creds₁ (classify up.status up.headers) up (s₂ up) (trying w ctx m pr₁)
  try_member-answered req up a = try_member-available a.available ∙ contact-answered req up a

  abbrev pub log_entry : Option ℕ → Bool → LogEntry
  log_entry status success = record {
    pool_id = some ctx.pool_id;
    provider_id = some m.provider.id;
    status_code = status;
    success = success;
    user_id = ctx.caller.user_id;
  }

  pub on_transformed-ok :
      (retry : Text) (status : ℕ) (resp : Response Payload) (t : State) (p : Progress)
      → (t' : State) × (on_transformed w ctx m retry status (ok resp) t p ≡ reply resp t')
        × (t'.runtime ≡ t.runtime)
        × (t'.logs ≡ log_entry (some status) true ∷ t.logs)
        × (t'.taps ≡ (
            if dataset_logging_enabled m.provider m.dataset_logging_override
            then (m.provider.id, m.effective_model) ∷ t.taps
            else t.taps))
        × (t'.sent ≡ t.sent)
  unfolding on_transformed log
  on_transformed-ok retry status resp t p =
      elim (Bool-cases (dataset_logging_enabled m.provider m.dataset_logging_override)) [
        | inl e ↦ rw e (_, refl, refl, refl, refl, refl)
        | inr e ↦ rw e (_, refl, refl, refl, refl, refl)
      ]

  pub get-change_entry :
      (t : State) (f : ProviderRuntimeState → ProviderRuntimeState)
      → get (change_entry t (member_key m) f).runtime (member_key m)
        ≡ some (f (unwrap_or (get t.runtime (member_key m)) default_state))
  get-change_entry t f =
      get-upsert t.runtime (member_key m) (member_key m) default_state f
      ∙ rw (text_eq_refl (member_key m)) refl

  -- When a candidate that is available and set up is answered with a success that its adapter can
  -- relay, this is the caller's answer, whatever candidates follow. The candidate's entry is healthy with no failures, one request has been sent, the exchange is logged as a
  -- success,
  -- and it is copied for the dataset exactly if the member, or else the provider, says so.
  pub run_members-success :
      (ms : List ResolvedMember) (req : Request) (up : Upstream Payload) (resp : Response Payload)
      → IsAnswered req up
      → classify up.status up.headers ≡ ErrorClass.success
      → ((t : ℕ)
          → w.transform_response t (routed_provider m) ctx.wire up ctx.wanted_stream ≡ ok resp)
      → (s' : State) × (run_members w ctx (m ∷ ms) s pr ≡ (resp, s'))
        × (get s'.runtime (member_key m) ≡ some default_state)
        × (s'.logs ≡ log_entry (some up.status) true ∷ s.logs)
        × (s'.taps ≡ (
            if unwrap_or m.dataset_logging_override m.provider.dataset_logging
            then (m.provider.id, m.effective_model) ∷ s.taps
            else s.taps))
        × (s'.sent ≡ (m.provider.id, m.effective_model) ∷ s.sent)
  unfolding run_members on_class on_success attributed sending received record_success
      dataset_logging_enabled
  run_members-success ms req up resp a class relayed =
      let t = change_entry (s₂ up) (member_key m) record_success in
      let (s', e, same, logged, tapped, sent) =
        on_transformed-ok [] up.status resp (tick_on t) (trying w ctx m pr₁) in
      (
        s',
        rw (try_member-answered req up a, run_members, class, relayed t.tick, e) refl,
        ap (λ r. get r (member_key m)) same ∙ get-change_entry (s₂ up) record_success,
        logged,
        tapped,
        sent,
      )
