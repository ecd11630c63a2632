-- ===== src/Server/Router.antt =====
-- internal/server/server.go: the routes. The router, github.com/go-chi/chi, is a parameter.
use gno_ibc_relayer_api.Prelude.{
  ℕ, ◌≡◌, ◌⊎◌, ◌||◌, any, Bool, true, false, List, [], ◌∷◌, ◌++◌, ◌==◌, if◌then◌else◌, All,
}
use gno_ibc_relayer_api.Prelude.Membership.{In}
use gno_ibc_relayer_api.Prelude.Strings.{Bytes, codes, is_empty}
use gno_ibc_relayer_api.Config.{ServerConfig, decimal_ℤ}
use gno_ibc_relayer_api.Db.World.{World}
use gno_ibc_relayer_api.Db.Table.{Postgres}
use gno_ibc_relayer_api.Server.Handlers.{
  Query, Response, error_text, RecentCache, get, get_bridge, list_by_wallet, history, summary_total,
  recent_summary,
}

pub data Endpoint : Type 0 where
  get_status get_wallet get_history get_summary get_recent_summary : Endpoint

-- What the router finds for a request: a handler with the parameters of the path, no route, or routes of
-- other methods only.
pub data Match (H : Type 0) : Type 0 where
  matched : H → Query → Match H
  no_route : Match H
  no_method : Match H

-- The characters of a pattern and of a text differ before any placeholder of the pattern.
unfoldable pub differs : Bytes → Bytes → Bool
differs [] text = false
differs (x ∷ pattern) [] = false
differs (x ∷ pattern) (y ∷ text) =
    if x == 123 then false else if x == y then differs pattern text else true

-- A text that is not empty, without `/`.
abbrev pub IsSegment : Bytes → Type 0
IsSegment text = (is_empty text || any (λ x. x == 47) text) ≡ false

-- `chi.Mux`, with the patterns registered by `Get`. A pattern that ends in a placeholder matches its
-- characters followed by a text without `/`, if no other pattern can match.
pub record Mux : Type 1 where
  pub dispatch : {H : Type 0} → List (Bytes × H) → Bytes → Bytes → Match H
  pub placeholder :
      {H : Type 0} (routes : List (Bytes × H)) (prefix name value : Bytes) (h : H)
      → any (λ x. x == 123) prefix ≡ false
      → In (prefix ++ codes "{" ++ name ++ codes "}", h) routes
      → All
          (λ route.
            (route ≡ (prefix ++ codes "{" ++ name ++ codes "}", h))
            ⊎ (differs route.0 prefix ≡ true))
          routes
      → IsSegment value
      → dispatch routes (codes "GET") (prefix ++ value) ≡ matched h ((name, value) ∷ [])

-- The `Get` calls of `New`.
abbrev pub routes : List (Bytes × Endpoint)
routes =
    (codes "/status/{packet_hash}", get_status)
    ∷ (codes "/wallet/{sender_address}", get_wallet)
    ∷ (codes "/history", get_history)
    ∷ (codes "/summary", get_summary)
    ∷ (codes "/summary/recent", get_recent_summary)
    ∷ []

-- Where `Run` listens.
unfoldable pub addr : ServerConfig → Bytes
addr cfg = codes ":" ++ decimal_ℤ cfg.port

-- A request, with the readings of the clock that its handler may make.
pub record Request : Type 0 where
  pub method : Bytes
  pub path : Bytes
  pub query : Query
  pub look : ℕ
  pub second_look : ℕ
  pub store : ℕ

module _ (pg : Postgres) where
  -- A handler, which reads the parameters of the path by `chi.URLParam`.
  unfoldable pub call_endpoint :
      Endpoint → Query → Request → RecentCache → World → Response × RecentCache × World
  call_endpoint get_status params req cache w =
      let (r, w') = get_bridge pg (get (codes "packet_hash") params) w in (r, cache, w')
  call_endpoint get_wallet params req cache w =
      let (r, w') = list_by_wallet pg (get (codes "sender_address") params) req.query w in
      (r, cache, w')
  call_endpoint get_history params req cache w =
      let (r, w') = history pg req.query w in (r, cache, w')
  call_endpoint get_summary params req cache w = let (r, w') = summary_total w in (r, cache, w')
  call_endpoint get_recent_summary params req cache w =
      recent_summary pg cache req.query req.look req.second_look req.store w

  abbrev pub respond_match :
      Match Endpoint → Request → RecentCache → World → Response × RecentCache × World
  respond_match (matched e params) req cache w = call_endpoint e params req cache w
  respond_match no_route req cache w = (record { code = 404; body = error_text [] }, cache, w)
  respond_match no_method req cache w = (record { code = 405; body = error_text [] }, cache, w)

  unfoldable pub serve_request :
      Mux → Request → RecentCache → World → Response × RecentCache × World
  unfolding call_endpoint
  serve_request mux req cache w =
      respond_match (mux.dispatch routes req.method req.path) req cache w
