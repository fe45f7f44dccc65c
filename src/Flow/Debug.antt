-- ===== src/Flow/Debug.antt =====
-- The answers of src/proxy/flow.rs and src/proxy/error_response.rs that the program makes itself,
-- and the debug headers, which only the administrator sees.
use router.Prelude.{
  ℕ, Bool, true, not, ◌&&◌, ◌||◌, ◌≡◌, Option, none, some, List, [], ◌∷◌, leb, nat_beq,
  if◌then◌else◌, map, take, arith,
}
use router.Prelude.Map.{get, insert, remove, get-remove}
use router.Prelude.Text.{Text, text_Eq, text_eq, codes, join}
use router.Model.{WireFormat}
use router.Backoff.{HeaderMap}
use router.Flow.World.{Body, Response}

-- `HeaderValue::from_str`: no control characters but the tab.
unfoldable is_header_value : Text → Bool
is_header_value [] = true
is_header_value (c ∷ s) = ((leb 32 c && not (nat_beq c 127)) || nat_beq c 9) && is_header_value s

-- A header whose value cannot be one is left out.
unfoldable pub insert_header : HeaderMap → Text → Text → HeaderMap
unfolding insert is_header_value
insert_header headers name value =
    if is_header_value value then insert headers name value else headers

abbrev pub unbreak : ℕ → ℕ
unbreak c = if nat_beq c 10 || nat_beq c 13 then 32 else c

unfoldable pub insert_debug_headers :
    HeaderMap → (tried : List Text) (provider error : Text) → HeaderMap
unfolding insert_header join
insert_debug_headers headers tried provider error =
    let h1 = insert_header headers (codes "x-1router-tried") (join (codes ",") tried) in
    let h2 = insert_header h1 (codes "x-1router-provider") provider in
    insert_header h2 (codes "x-1router-error") (map unbreak (take 200 error))

pub strip_debug_headers : HeaderMap → HeaderMap
unfolding remove
strip_debug_headers headers =
    remove (remove (remove headers (codes "x-1router-tried")) (codes "x-1router-provider"))
      (codes "x-1router-error")

abbrev with_content_type : HeaderMap → Option Text → HeaderMap
with_content_type headers none = headers
with_content_type headers (some ct) = insert headers (codes "content-type") ct

module _ {Payload : Type 0} where
  -- `(status, Json(body)).into_response()`.
  unfoldable pub wire_error : WireFormat → ℕ → Text → Response Payload
  wire_error wire status message = record {
    status = status;
    headers = (codes "content-type", codes "application/json") ∷ [];
    body = Body.wire_json wire message;
  }

  pub build_wire_error :
      WireFormat → ℕ → Text → (tried : List Text) (provider_id : Text) → Response Payload
  unfolding wire_error insert_debug_headers
  build_wire_error wire status body tried provider_id =
      let resp = wire_error wire status body in
      record resp { headers = insert_debug_headers resp.headers tried provider_id body }

  -- `(status, String)` is answered as plain text unless the upstream said otherwise.
  unfoldable pub build_error_passthrough :
      ℕ
      → Text
      → (tried : List Text) (provider_id : Text) (content_type : Option Text) → Response Payload
  unfolding insert insert_debug_headers
  build_error_passthrough status body tried provider_id content_type = record {
    status = status;
    headers =
        insert_debug_headers
          (with_content_type ((codes "content-type", codes "text/plain; charset=utf-8") ∷ [])
            content_type)
          tried provider_id body;
    body = Body.text body;
  }

-- No debug header survives the stripping, and every other header does.
pub strip_debug_headers_lem :
    (headers : HeaderMap) (name : Text)
    → get (strip_debug_headers headers) name ≡ (
        if text_eq (codes "x-1router-error") name
          || text_eq (codes "x-1router-provider") name
          || text_eq (codes "x-1router-tried") name
        then none
        else get headers name)
unfolding strip_debug_headers
strip_debug_headers_lem headers name =
    let h1 = remove headers (codes "x-1router-tried") in
    let h2 = remove h1 (codes "x-1router-provider") in
    ground (
      arith,
      get-remove h2 (codes "x-1router-error") name,
      get-remove h1 (codes "x-1router-provider") name,
      get-remove headers (codes "x-1router-tried") name,
    )
