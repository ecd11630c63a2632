-- ===== src/Config.antt =====
-- internal/config/config.go: the configuration and the routes between chains.
use gno_ibc_relayer_api.Prelude.{ℕ, Option, ◌&&◌, List, [], ◌∷◌, ◌++◌, if◌then◌else◌}
use gno_ibc_relayer_api.Prelude.Int.{ℤ, pos, negsuc, eq_ℤ}
use gno_ibc_relayer_api.Prelude.Strings.{Bytes, codes, str_eq}
use gno_ibc_relayer_api.Strconv.{decimal}

pub record ChannelChain : Type 0 where
  pub src_chain_id : Bytes
  pub dst_chain_id : Bytes
  pub src_channel_id : ℤ
  pub dst_channel_id : ℤ

pub record DbConfig : Type 0 where
  pub host : Bytes
  pub port : ℤ
  pub user : Bytes
  pub password : Bytes
  pub dbname : Bytes
  pub sslmode : Bytes

pub record ServerConfig : Type 0 where
  pub port : ℤ

pub record IndexerConfig : Type 0 where
  pub poll_interval_sec : ℤ
  pub batch_size : ℤ

pub record Config : Type 0 where
  pub server : ServerConfig
  pub relayer_db : DbConfig
  pub bridge_db : DbConfig
  pub indexer : IndexerConfig
  pub channel_chains : List ChannelChain

-- The loop of `FindDstChain`.
unfoldable pub route_from : Bytes → ℤ → List ChannelChain → Bytes
route_from chain channel [] = []
route_from chain channel (cc ∷ rest) =
    if str_eq cc.src_chain_id chain && eq_ℤ cc.src_channel_id channel
    then cc.dst_chain_id
    else route_from chain channel rest

-- `(*Config).FindDstChain`
unfoldable pub find_dst_chain : Config → Bytes → ℤ → Bytes
unfolding route_from
find_dst_chain c chain channel = route_from chain channel c.channel_chains

-- `%d`
unfoldable pub decimal_ℤ : ℤ → Bytes
decimal_ℤ (pos n) = decimal n
decimal_ℤ (negsuc n) = codes "-" ++ decimal (ℕ.suc n)

unfoldable pub dsn : DbConfig → Bytes
dsn c =
    codes "host="
    ++ (c.host
        ++ (codes " port="
            ++ (decimal_ℤ c.port
                ++ (codes " user="
                    ++ (c.user
                        ++ (codes " password="
                            ++ (c.password
                                ++ (codes " dbname="
                                    ++ (c.dbname ++ (codes " sslmode=" ++ c.sslmode))))))))))

-- `Load`, with what the TOML library makes of the file.
abbrev pub load : (Bytes → Option Config) → Bytes → Option Config
load decode_file path = decode_file path
