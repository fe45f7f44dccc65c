-- ===== src/Transport.antt =====
-- The transport cache of src/providers/adapter/commandcode/adapter.rs.
use router.Prelude.{ℕ, Bool, true, false, ◌&&◌, nat_beq, unwrap_or}
use router.Prelude.Map.{Map, get, insert, remove}
use router.Prelude.Text.{Text, text_Eq, codes, contains_text}

pub data Transport : Type 0 where
  provider generate : Transport

abbrev pub is_provider_transport : Transport → Bool
is_provider_transport Transport.provider = true
is_provider_transport Transport.generate = false

abbrev pub TransportCache : Type 0
TransportCache = Map Text Transport

unfoldable pub current_transport : TransportCache → Text → Transport
unfolding get
current_transport cache provider_id = unwrap_or (get cache provider_id) Transport.provider

unfoldable pub remember_transport : TransportCache → Text → Transport → TransportCache
unfolding insert
remember_transport cache provider_id transport = insert cache provider_id transport

unfoldable reset_transport : TransportCache → Text → TransportCache
unfolding remove
reset_transport cache provider_id = remove cache provider_id

unfoldable pub is_upgrade_required : ℕ → Text → Bool
unfolding contains_text
is_upgrade_required status body =
    nat_beq status 403 && contains_text body (codes "upgrade_required")
