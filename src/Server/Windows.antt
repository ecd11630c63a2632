-- ===== src/Server/Windows.antt =====
-- internal/server/handler.go: the sizes that the handlers ask for.
use gno_ibc_relayer_api.Prelude.{ℕ, ◌≤◌, arith}
use gno_ibc_relayer_api.Prelude.Int.{ℤ, pos, negsuc}
use gno_ibc_relayer_api.Server.Handlers.{
  Query, limit_or, parse_pagination, parse_recent_limit, default_recent_limit, max_recent_limit,
}

limit_or-bounds :
    (max default : ℕ) (n : ℤ)
    → 1 ≤ default
    → default ≤ max
    → (1 ≤ limit_or max default n) × (limit_or max default n ≤ max)
unfolding limit_or
limit_or-bounds max default (pos n) low high = ground arith
limit_or-bounds max default (negsuc n) low high = ground arith

-- Whatever the query says, a page asks for 1 to 100 rows, and a recent summary for 1 to 5000.
pub windows-bounds :
    (q : Query)
    → (1 ≤ (parse_pagination q).0)
      × ((parse_pagination q).0 ≤ 100)
      × (1 ≤ parse_recent_limit q)
      × (parse_recent_limit q ≤ 5000)
unfolding parse_pagination parse_recent_limit
windows-bounds q = ground (
  arith,
  limit_or-bounds 100 20 _ (omega arith) (omega arith),
  limit_or-bounds max_recent_limit default_recent_limit _ (omega arith) (omega arith),
)
