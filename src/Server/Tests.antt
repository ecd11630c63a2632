-- ===== src/Server/Tests.antt =====
-- The theorems about internal/server at concrete calls.
use gno_ibc_relayer_api.Prelude.{
  ◌∷◌, ◌≤◌, ℕ, ◌≡◌, refl, none, some, [], arith, ltb, if◌then◌else◌, ◌==◌,
}
use gno_ibc_relayer_api.Db.World.{World, ok, fault, pure, raise}
use gno_ibc_relayer_api.Server.Cache.{Cache, lookup, get, set, get_or_load}
use gno_ibc_relayer_api.Server.Handlers.{Query, nat_key, parse_pagination, parse_recent_limit}
use gno_ibc_relayer_api.Server.Windows.{windows-bounds}
use gno_ibc_relayer_api.Prelude.Strings.{codes}
use gno_ibc_relayer_api.Server.Served.{get-set, get_or_load-cached, get_or_load-retried}

abbrev pub five : Cache ℕ ℕ
five = record { ttl = 5; entries = [] }

abbrev pub empty_world : World
empty_world = record {
  transfers = [];
  cursors = [];
  queue = [];
  done = [];
  failed = [];
  faults = [];
}

get-set_example :
    get (set five 1 42 10) 1 16
    ≡ (if 1 == 1 then (if ltb 15 16 then none else some 42) else get five 1 16)
get-set_example = get-set five 1 1 42 10 16

get_or_load-cached_example :
    get_or_load
      (get_or_load five 1 10 10 12 (pure 42) empty_world).1
      1
      17
      17
      17
      (pure 7)
      empty_world
    ≡ (ok 42, (get_or_load five 1 10 10 12 (pure 42) empty_world).1, empty_world)
unfolding get lookup
get_or_load-cached_example =
    get_or_load-cached five 1 10 10 12 17 17 17 (pure 42) (pure 7) empty_world empty_world
      empty_world 42 refl refl refl (omega arith)

get_or_load-retried_example :
    get_or_load
      (get_or_load five 1 10 10 12 (raise fault) empty_world).1
      1
      13
      13
      14
      (pure 42)
      empty_world
    ≡ (ok 42, set five 1 42 14, empty_world)
unfolding get lookup
get_or_load-retried_example =
    get_or_load-retried five 1 10 10 12 13 13 14 (raise fault) (pure 42) empty_world empty_world
      empty_world fault 42 refl refl refl refl refl refl

-- A limit that is too large.
abbrev limit_200 : Query
limit_200 = (codes "limit", codes "200") ∷ []

windows-bounds_example :
    (1 ≤ (parse_pagination limit_200).0)
    × ((parse_pagination limit_200).0 ≤ 100)
    × (1 ≤ parse_recent_limit limit_200)
    × (parse_recent_limit limit_200 ≤ 5000)
windows-bounds_example = windows-bounds limit_200
