-- ===== src/Flow/Requests.antt =====
-- What a whole request may do to the shared state, and what it tells its caller.
use router.Prelude.{◌*◌, ◌≡◌, refl, false, none, some, arith, length, Bool-cases, inl, inr, All}
use router.Prelude.Map.{get}
use router.Prelude.Text.{Text, text_Eq, text_eq, codes}
use router.Model.{WireFormat, ConfigSnapshot}
use router.Users.{Caller, is_admin}
use router.Select.{Selection, DiscoveredModelsMap, select}
use router.Flow.World.{World, State, Response}
use router.Flow.Attempt.{member_key}
use router.Flow.Debug.{strip_debug_headers_lem}
use router.Flow.Handler.{handle_proxy, handle_proxy_inner, start, is_refused, serve_selection}
use router.Flow.Keys.{Spares, run_members-Spares}

module _ {Request Payload : Type 0} (w : World Request Payload) (snapshot : ConfigSnapshot)
    (discovered : DiscoveredModelsMap) (wire : WireFormat) (pool_id : Text) (caller : Caller)
    (body : Text) (s : State) where
  abbrev served : Response Payload × State
  served = handle_proxy w snapshot discovered wire pool_id caller body s

  serve_selection-Spares :
      (key : Text) (selection : Selection) (s : State)
      → All (λ m. text_eq (member_key m) key ≡ false) selection.providers
      → Spares key
          (2 * length selection.providers)
          s
          (serve_selection w snapshot discovered wire pool_id caller body s (some selection)).1
  unfolding serve_selection
  serve_selection-Spares key selection s apart =
      elim (Bool-cases (is_refused snapshot discovered caller selection)) [
        | inl r ↦ rw r (refl, omega arith)
        | inr r ↦ rw r (run_members-Spares w _ key selection.providers s start apart (λ h. cc))
      ]

  -- Serving a request leaves every entry of the health map alone but those of the candidates that
  -- the model resolves to, and sends at most two requests for each candidate.
  pub handle_proxy-Spares :
      (key : Text) (selection : Selection)
      → (select snapshot pool_id wire s.rotation).0 ≡ some selection
      → All (λ m. text_eq (member_key m) key ≡ false) selection.providers
      → Spares key (2 * length selection.providers) s served.1
  unfolding handle_proxy
  handle_proxy-Spares key selection e apart =
      rw (e, handle_proxy) (serve_selection-Spares key selection _ apart)

  -- A caller who is not the administrator gets none of the headers that name providers or quote
  -- their errors.
  pub handle_proxy-debug :
      is_admin caller ≡ false
      → (get served.0.headers (codes "x-1router-tried") ≡ none)
        × (get served.0.headers (codes "x-1router-provider") ≡ none)
        × (get served.0.headers (codes "x-1router-error") ≡ none)
  unfolding handle_proxy text_eq
  handle_proxy-debug h =
      let inner = handle_proxy_inner w snapshot discovered wire pool_id caller body s in
      let law = strip_debug_headers_lem inner.0.headers in
      rw h (
        law (codes "x-1router-tried"),
        law (codes "x-1router-provider"),
        law (codes "x-1router-error"),
      )
