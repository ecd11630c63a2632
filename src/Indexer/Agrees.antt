-- ===== src/Indexer/Agrees.antt =====
-- internal/indexer/parser.go and internal/config/config.go: the two searches for a route.
use gno_ibc_relayer_api.Prelude.{◌≡◌, refl, ◌&&◌, List, [], ◌∷◌, inl, inr, Bool-cases}
use gno_ibc_relayer_api.Prelude.Int.{ℤ, eq_ℤ}
use gno_ibc_relayer_api.Prelude.Strings.{Bytes, str_eq}
use gno_ibc_relayer_api.Config.{ChannelChain, Config, route_from, find_dst_chain as config_route}
use gno_ibc_relayer_api.Indexer.Parser.{find_dst_chain}

route_from-find_dst_chain :
    (chains : List ChannelChain) (chain : Bytes) (channel : ℤ)
    → route_from chain channel chains ≡ find_dst_chain chains chain channel
unfolding route_from find_dst_chain
route_from-find_dst_chain [] chain channel = refl
route_from-find_dst_chain (cc ∷ rest) chain channel =
    elim (Bool-cases (str_eq cc.src_chain_id chain && eq_ℤ cc.src_channel_id channel)) [
      | inl e ↦ rw e refl
      | inr e ↦ rw e (route_from-find_dst_chain rest chain channel)
    ]

-- `FindDstChain` of a configuration and `findDstChain` of its routes give the same destination for
-- every chain and channel.
pub find_dst_chain_agrees :
    (c : Config) (chain : Bytes) (channel : ℤ)
    → config_route c chain channel ≡ find_dst_chain c.channel_chains chain channel
unfolding config_route
find_dst_chain_agrees c chain channel = route_from-find_dst_chain c.channel_chains chain channel
