-- ===== src/Access/Config.antt =====
-- src/auth/cf_access.rs: the settings of Cloudflare Access, read from three texts of the environment.
use mathlib.Core.List.{reverse}
use router.Prelude.{
  ℕ, suc, ◌||◌, not, List, [], ◌∷◌, ◌++◌, if◌then◌else◌, is_empty, map_or, map, retain, nat_beq,
  length, zero,
}
use router.Prelude.Text.{Text, codes, trim, to_ascii_lowercase, contains, strip_prefix}
use router.Error.{Result, ok, err}
use router.Access.{CfAccessConfig}
use router.Access.Bearer.{push_first}

-- `trim_start_matches`; each step takes a character at least, so the length is fuel enough.
unfoldable pub trim_start_matches : ℕ → Text → Text → Text
trim_start_matches zero prefix t = t
trim_start_matches (suc fuel) prefix t =
    map_or t (trim_start_matches fuel prefix) (strip_prefix t prefix)

unfoldable pub trim_end_matches : Text → ℕ → Text
trim_end_matches t c = reverse (trim_start_matches (length t) (c ∷ []) (reverse t))

unfoldable pub normalize_team_domain : Text → Text
normalize_team_domain raw =
    let bare = trim raw in
    let bare = trim_start_matches (length bare) (codes "https://") bare in
    let bare = trim_start_matches (length bare) (codes "http://") bare in
    let t = to_ascii_lowercase (trim_end_matches bare b'/') in
    if is_empty t || contains t b'.' then t else t ++ codes ".cloudflareaccess.com"

-- `split(',')`.
unfoldable pub split_commas : Text → List Text
split_commas [] = [] ∷ []
split_commas (c ∷ t) =
    let rest = split_commas t in if nat_beq c b',' then [] ∷ rest else push_first c rest

unfoldable pub emails_of : Text → List Text
emails_of admin_emails =
    retain (λ e. not (is_empty e))
      (map (λ e. to_ascii_lowercase (trim e)) (split_commas admin_emails))

unfoldable pub config_of : (team_domain aud admin_emails : Text) → Result Text CfAccessConfig
config_of team_domain aud admin_emails =
    let team = normalize_team_domain team_domain in
    if is_empty team
    then err (codes "ROUTER_CF_ACCESS_TEAM_DOMAIN is empty")
    else if is_empty (trim aud)
    then err (codes "ROUTER_CF_ACCESS_AUD is empty")
    else ok (record {
      team_domain = team;
      aud = trim aud;
      admin_emails = emails_of admin_emails;
      jwks_url = codes "https://" ++ team ++ codes "/cdn-cgi/access/certs";
    })
