-- ===== src/Credentials.antt =====
-- `Credentials` of src/providers/adapter/mod.rs, and whether a provider can be called at all
-- (`is_ready` of src/providers/queries.rs).
use router.Prelude.{ℕ, Bool, not, Option, none, some, is_some, is_some_and, is_empty, ◌||◌}
use router.Prelude.Text.{Text, codes}
use router.Model.{Provider, ProviderKind, OAuthState}

pub record Credentials : Type 0 where
  pub api_key : Option Text
  pub access_token : Option Text
  pub refresh_token : Option Text
  pub id_token : Option Text
  pub access_expires_at : Option ℕ
  pub provider_data : Text

unfoldable pub from_provider_and_oauth : Provider → Option OAuthState → Credentials
from_provider_and_oauth provider none = record {
  api_key = provider.api_key;
  access_token = none;
  refresh_token = none;
  id_token = none;
  access_expires_at = none;
  provider_data = codes "null";
}
from_provider_and_oauth provider (some oauth) = record {
  api_key = provider.api_key;
  access_token = oauth.access_token;
  refresh_token = oauth.refresh_token;
  id_token = oauth.id_token;
  access_expires_at = oauth.access_expires_at;
  provider_data = oauth.provider_data;
}

-- `creds.access_token.is_some() || creds.refresh_token.is_some()`.
abbrev pub has_token : Credentials → Bool
has_token creds = is_some creds.access_token || is_some creds.refresh_token

abbrev ready_kind : ProviderKind → Option Text → Bool → Bool
ready_kind ProviderKind.passthrough base_url token = is_some_and base_url (λ u. not (is_empty u))
ready_kind ProviderKind.oauth_codex base_url token = token
ready_kind ProviderKind.oauth_command_code base_url token = token

unfoldable pub is_ready : Provider → Bool → Bool
is_ready p has_oauth_token = ready_kind p.kind p.base_url has_oauth_token
