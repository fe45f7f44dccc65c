-- ===== src/Flow/Exhausted.antt =====
-- What the caller is told when no candidate could be tried.
use mathlib.Core.List.{Mem, mem-cons_self, mem-cons_of_mem}
use native.Mathlib.Decide.{dec_le}
use router.Prelude.{
  ℕ, ◌+◌, ◌≤◌, ◌<◌, ◌≡◌, refl, ap, ◌∙◌, true, false, some, List, [], ◌∷◌, ◌++◌, arith, min,
  Option-cases, inl, inr, length, map, take, All, All-append, length-append, unwrap_or,
}
use router.Prelude.Map.{get, get-insert}
use router.Prelude.Text.{Text, text_Eq, text_eq, codes, join}
use router.Prelude.Text.Decimal.{show}
use router.Backoff.{HeaderMap, from_secs}
use router.Runtime.{ProviderRuntimeState, RuntimeStateMap, is_available, retry_in}
use router.Runtime.Prune.{key_available}
use router.Select.{ResolvedMember}
use router.Flow.Messages.{SkippedMember, min_wait}
use router.Flow.World.{World, State, Progress, Context, tick_on}
use router.Flow.Attempt.{
  next, member_key, attribute_error, try_member, visit, attributed, skipped_member,
}
use router.Flow.Debug.{unbreak, insert_header, insert_debug_headers, wire_error}
use router.Flow.Handler.{run_members, exhausted, start, retry_after_secs, with_retry_after}

-- The advertised wait is at least a second, is never too short, and overstates the wait by less than
-- a second unless the wait itself is below one.
retry_after_secs_lem :
    (wait : ℕ)
    → (wait ≤ from_secs (retry_after_secs wait))
      × (1 ≤ retry_after_secs wait)
      × (from_secs 1 ≤ wait → from_secs (retry_after_secs wait) < wait + from_secs 1)
unfolding retry_after_secs
retry_after_secs_lem wait = (ground arith, omega arith, λ h. ground arith)

-- A candidate of the list becomes available after the wait that is recorded.
abbrev Waits : List ResolvedMember → RuntimeStateMap → ℕ → SkippedMember → Type 0
Waits ms runtime now k =
    (m : ResolvedMember) × Mem m ms
    × (key_available runtime (member_key m) (now + k.retry_in) ≡ true)

min_wait-All :
    (P : SkippedMember → Type 0) (ks : List SkippedMember) (wait : ℕ)
    → All P ks
    → min_wait ks ≡ some wait
    → (k : SkippedMember) × P k × (k.retry_in ≡ wait)
unfolding min_wait
min_wait-All P [] wait h e = absurd cc
min_wait-All P (k ∷ ks) wait (p, h) e = elim (Option-cases (min_wait ks)) [
  | inl f ↦ (k, p, let g : some k.retry_in ≡ some wait = rw (f, min_wait) at e in cc)
  | inr (v, f) ↦
      let g : some (min k.retry_in v) ≡ some wait = rw (f, min_wait) at e in
      let e' : min k.retry_in v ≡ wait = cc in
      elim (dec_le k.retry_in v) [
        | yes le ↦ (k, p, omega arith)
        | no gt ↦ let (k', p', e'') = min_wait-All P ks v h f in (k', p', omega arith)
      ]
]

insert_header-get :
    (headers : HeaderMap) (name value other : Text)
    → text_eq name other ≡ false
    → get (insert_header headers name value) other ≡ get headers other
unfolding insert_header
insert_header-get headers name value other h = ground (arith, get-insert headers name other value)

-- The debug headers hide no other header.
insert_debug_headers-get :
    (headers : HeaderMap) (tried : List Text) (provider error name : Text)
    → text_eq (codes "x-1router-tried") name ≡ false
    → text_eq (codes "x-1router-provider") name ≡ false
    → text_eq (codes "x-1router-error") name ≡ false
    → get (insert_debug_headers headers tried provider error) name ≡ get headers name
unfolding insert_debug_headers
insert_debug_headers-get headers tried provider error name t p e =
    insert_header-get _ (codes "x-1router-error") (map unbreak (take 200 error)) name e
    ∙ insert_header-get _ (codes "x-1router-provider") provider name p
    ∙ insert_header-get _ (codes "x-1router-tried") (join (codes ",") tried) name t

key_available-entry :
    (runtime : RuntimeStateMap) (key : Text) (now t : ℕ)
    → key_available runtime key now ≡ false
    → t ≤ now
    → (st : ProviderRuntimeState) × (get runtime key ≡ some st)
      × (is_available st t ≡ false)
      × (is_available st (now + unwrap_or (retry_in st t) 0) ≡ true)
unfolding key_available is_available retry_in
key_available-entry runtime key now t h le = elim (Option-cases (get runtime key)) [
  | inl e ↦ let f : true ≡ false = rw (e, key_available) at h in absurd cc
  | inr (st, e) ↦
      let f : is_available st now ≡ false = rw (e, key_available) at h in
      (st, e, ground arith, ground arith)
]

module _ {Request Payload : Type 0} (w : World Request Payload) (ctx : Context) where
  -- A candidate that is cooling down is only noted.
  try_member-cooling :
      (m : ResolvedMember) (s : State) (pr : Progress) (st : ProviderRuntimeState)
      → text_eq pr.last_error_body pr.seen_error ≡ true
      → get s.runtime (member_key m) ≡ some st
      → is_available st (w.clock s.tick) ≡ false
      → try_member w ctx m s pr
        ≡ next
            (tick_on s)
            (record pr { skipped = pr.skipped ++ skipped_member w ctx m st (w.clock s.tick) ∷ [] })
  unfolding try_member attribute_error attributed visit
  try_member-cooling m s pr st same e h = rw (same, e, visit, h) refl

  module _ (all : List ResolvedMember) (runtime : RuntimeStateMap) (now : ℕ)
      (past : (t : ℕ) → w.clock t ≤ now) where
    -- The loop over candidates that are all cooling down only notes how long each of them waits.
    loop :
        (ms : List ResolvedMember) (s : State) (pr : Progress)
        → s.runtime ≡ runtime
        → text_eq pr.last_error_body pr.seen_error ≡ true
        → All (λ m. key_available runtime (member_key m) now ≡ false) ms
        → ((m : ResolvedMember) → Mem m ms → Mem m all)
        → All (Waits all runtime now) pr.skipped
        → (t : ℕ) × (ks : List SkippedMember) × (run_members w ctx ms s pr
            ≡ exhausted w ctx (record s { tick = t }) (record pr { skipped = ks }))
          × All (Waits all runtime now) ks
          × (length ks ≡ length pr.skipped + length ms)
    unfolding run_members key_available
    loop [] s pr e same cooling inside waits = (s.tick, pr.skipped, refl, waits, omega arith)
    loop (m ∷ ms) s pr e same (c, cooling) inside waits =
        let (st, found, shut, later) =
          key_available-entry runtime (member_key m) now (w.clock s.tick) c (past s.tick) in
        let k = skipped_member w ctx m st (w.clock s.tick) in
        let opens : key_available runtime (member_key m) (now + k.retry_in) ≡ true =
          rw (found, key_available) later in
        let (t, ks, run, waits', count) =
          loop ms (tick_on s) (record pr { skipped = pr.skipped ++ k ∷ [] }) e same cooling
            (λ m' h. inside m' (mem-cons_of_mem m h))
            (All-append (Waits all runtime now) pr.skipped (k ∷ []) waits
              ((m, inside m mem-cons_self, opens), tt)) in
        (
          t,
          ks,
          rw
              (
                try_member-cooling m s pr st same (ap (λ r. get r (member_key m)) e ∙ found) shut,
                run_members,
              )
              run,
          waits',
          count ∙ omega (arith, length-append pr.skipped (k ∷ [])),
        )

  min_wait-some : (ks : List SkippedMember) → 1 ≤ length ks → (wait : ℕ) × (min_wait ks ≡ some wait)
  unfolding min_wait
  min_wait-some [] h = absurd (omega arith)
  min_wait-some (k ∷ ks) h = elim (Option-cases (min_wait ks)) [
    | inl e ↦ (k.retry_in, rw (e, min_wait) refl)
    | inr (wait, e) ↦ (min k.retry_in wait, rw (e, min_wait) refl)
  ]

  key_available-later :
      (runtime : RuntimeStateMap) (key : Text) (t t' : ℕ)
      → t ≤ t'
      → key_available runtime key t ≡ true
      → key_available runtime key t' ≡ true
  unfolding key_available is_available
  key_available-later runtime key t t' le h = ground arith

  exhausted-retry_after :
      (s : State) (ks : List SkippedMember) (wait : ℕ)
      → min_wait ks ≡ some wait
      → get (exhausted w ctx s (record start { skipped = ks })).0.headers (codes "retry-after")
        ≡ some (show (retry_after_secs wait))
  unfolding exhausted with_retry_after wire_error text_eq get
  exhausted-retry_after s ks wait e =
      insert_debug_headers-get
        (with_retry_after ((codes "content-type", codes "application/json") ∷ []) [] ks) [] []
        start.last_error_body (codes "retry-after") refl refl refl
      ∙ rw (e, with_retry_after) refl

  -- When every candidate is cooling down for as long as the request is served, the answer is a 503
  -- after which the caller is told to wait for n seconds, and some candidate is available when they
  -- are over. Nothing is sent or logged, and no entry of the health map and no quota changes.
  pub run_members-cooling :
      (m : ResolvedMember) (ms : List ResolvedMember) (s : State) (now : ℕ)
      → ((t : ℕ) → w.clock t ≤ now)
      → All (λ m. key_available s.runtime (member_key m) now ≡ false) (m ∷ ms)
      → (t : ℕ) × (n : ℕ) × (c : ResolvedMember) × (let (resp, s') =
            run_members w ctx (m ∷ ms) s start in
          (resp.status ≡ 503)
          × (get resp.headers (codes "retry-after") ≡ some (show n))
          × Mem c (m ∷ ms)
          × (key_available s.runtime (member_key c) (now + from_secs n) ≡ true)
          × (s' ≡ record s { tick = t }))
  unfolding exhausted attribute_error wire_error text_eq
  run_members-cooling m ms s now past cooling =
      let all = m ∷ ms in
      let (t, ks, run, waits, count) =
        loop all s.runtime now past all s start refl refl cooling (λ m' h. h) tt in
      let (wait, e) = min_wait-some ks (omega arith) in
      let (k, (c, inside, opens), f) = min_wait-All (Waits all s.runtime now) ks wait waits e in
      let le : now + k.retry_in ≤ now + from_secs (retry_after_secs wait) =
        omega (arith, (retry_after_secs_lem wait).0) in
      (
        t,
        retry_after_secs wait,
        c,
        rw run (
          refl,
          exhausted-retry_after (record s { tick = t }) ks wait e,
          inside,
          key_available-later s.runtime (member_key c) _ _ le opens,
          refl,
        ),
      )
