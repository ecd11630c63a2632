-- ===== src/Server/Handlers.antt =====
-- internal/server/handler.go: the handlers. A response is its status code with what the body encodes;
-- headers and the JSON text are net/http's and encoding/json's.
use gno_ibc_relayer_api.Prelude.{
  ℕ, ◌*◌, ◌^◌, ◌≡◌, true, List, [], ◌∷◌, arith, ltb, ◌==◌, ==_iff, if◌then◌else◌,
}
use gno_ibc_relayer_api.Prelude.Int.{ℤ, pos, negsuc}
use gno_ibc_relayer_api.Prelude.Strings.{Bytes, codes, str_eq}
use gno_ibc_relayer_api.Strconv.{parse_int}
use gno_ibc_relayer_api.Db.Record.{BridgeRecord}
use gno_ibc_relayer_api.Db.World.{World, DbError, Result, ok, err, crash, M}
use gno_ibc_relayer_api.Db.Table.{Postgres}
use gno_ibc_relayer_api.Db.Bridge.{
  StatusSummary, list, get_by_packet_hash, count, count_recent_by_status,
}
use gno_ibc_relayer_api.Server.Cache.{Cache, Key, new_cache, get_or_load}

-- `r.URL.Query()`
abbrev pub Query : Type 0
Query = List (Bytes × Bytes)

-- `q.Get(key)`: the first value, or the empty text.
unfoldable pub get : Bytes → Query → Bytes
get k [] = []
get k ((j, v) ∷ q) = if str_eq j k then v else get k q

pub data Body : Type 0 where
  bridge : BridgeRecord → Body
  page : List BridgeRecord → ℕ → ℤ → Body
  total : ℕ → Body
  summary : StatusSummary → Body
  error_text : Bytes → Body
  db_error : DbError → Body

pub record Response : Type 0 where
  pub code : ℕ
  pub body : Body

abbrev pub default_recent_limit : ℕ
default_recent_limit = 1000

abbrev pub max_recent_limit : ℕ
max_recent_limit = 5000

abbrev pub recent_cache_ttl : ℕ
recent_cache_ttl = 5 * 10 ^ 9

-- `if limit <= 0 || limit > max { limit = default }`
unfoldable pub limit_or : ℕ → ℕ → ℤ → ℕ
limit_or max default (pos n) = if n == 0 then default else if ltb max n then default else n
limit_or max default (negsuc n) = default

unfoldable pub parse_recent_limit : Query → ℕ
unfolding limit_or
parse_recent_limit q =
    limit_or max_recent_limit default_recent_limit (parse_int (get (codes "limit") q)).0

unfoldable pub parse_pagination : Query → ℕ × ℤ
unfolding limit_or
parse_pagination q =
    (limit_or 100 20 (parse_int (get (codes "limit") q)).0, (parse_int (get (codes "offset") q)).0)

-- `jsonOK` or `jsonError` by the result. A panic of a handler is answered by the router's Recoverer.
abbrev pub respond : {A : Type 0} → (A → Body) → (DbError → Response) → Result A → Response
respond f g (ok a) = record { code = 200; body = f a }
respond f g (err e) = g e
respond f g crash = record { code = 500; body = error_text [] }

abbrev pub internal_error : DbError → Response
internal_error e = record { code = 500; body = db_error e }

abbrev pub not_found_response : DbError → Response
not_found_response e = record { code = 404; body = error_text (codes "not found") }

abbrev pub serve : {A : Type 0} → (A → Body) → (DbError → Response) → M A → World → Response × World
serve f g m w = let (r, w') = m w in (respond f g r, w')

unfoldable pub summary_total : World → Response × World
summary_total = serve total internal_error count

abbrev pub RecentCache : Type 0
RecentCache = Cache ℕ StatusSummary

-- `NewStatsHandler`
abbrev pub new_recent_cache : RecentCache
new_recent_cache = new_cache recent_cache_ttl

pub nat_same_refl : (k : ℕ) → (k == k) ≡ true
nat_same_refl k = ground arith

pub nat_same-eq : (j k : ℕ) → (j == k) ≡ true → j ≡ k
nat_same-eq j k h = (==_iff j k).0 h

instance abbrev pub nat_key : Key ℕ
nat_key = record { same = ◌==◌; same_refl = nat_same_refl; same_eq = nat_same-eq }

module _ (pg : Postgres) where
  unfoldable pub get_bridge : Bytes → World → Response × World
  get_bridge packet_hash = serve bridge not_found_response (get_by_packet_hash pg packet_hash)

  -- `ListByWallet`, and `History` where the address is empty.
  unfoldable pub list_page : Bytes → Query → World → Response × World
  list_page address q =
      let (limit, offset) = parse_pagination q in
      serve (λ rows. page rows limit offset) internal_error
        (list pg (record {
          address = address;
          order = get (codes "orderby") q;
          limit = pos limit;
          offset = offset;
        }))

  unfoldable pub list_by_wallet : Bytes → Query → World → Response × World
  unfolding list_page
  list_by_wallet sender q = list_page sender q

  unfoldable pub history : Query → World → Response × World
  unfolding list_page
  history q = list_page [] q

  -- `RecentSummary`, with the readings of the clock.
  unfoldable pub recent_summary :
      RecentCache → Query → ℕ → ℕ → ℕ → World → Response × RecentCache × World
  recent_summary cache q t1 t2 t3 w =
      let limit = parse_recent_limit q in
      let (r, cache', w') = get_or_load cache limit t1 t2 t3 (count_recent_by_status pg limit) w in
      (respond summary internal_error r, cache', w')
