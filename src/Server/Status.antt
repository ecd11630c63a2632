-- ===== src/Server/Status.antt =====
-- internal/server: what GET /status/{packet_hash} answers.
use gno_ibc_relayer_api.Prelude.{
  ◌≡◌, ◌⊎◌, inl, inr, refl, subst, true, Option, none, some, List, [], ◌∷◌, ◌++◌, keep, any, ◌≢◌,
}
use gno_ibc_relayer_api.Prelude.Membership.{In, In-keep}
use gno_ibc_relayer_api.Prelude.Strings.{Bytes, codes, str_eq, str_eq→eq, str_eq_refl}
use gno_ibc_relayer_api.Db.Record.{BridgeRecord}
use gno_ibc_relayer_api.Db.World.{World, statement}
use gno_ibc_relayer_api.Db.Table.{Postgres}
use gno_ibc_relayer_api.Db.Bridge.{get_by_packet_hash as find_record, scan_bridge_record}
use gno_ibc_relayer_api.Server.Handlers.{
  Response, RecentCache, get, get_bridge, respond, not_found_response, bridge, error_text, nat_key,
}
use gno_ibc_relayer_api.Server.Router.{
  get_status, matched, Mux, Request, routes, call_endpoint, serve_request, IsSegment, differs,
}

-- The row of a packet hash, or that there is none.
abbrev pub Found : Bytes → World → Response → Type 0
Found h w r =
    ((t : BridgeRecord) × In t w.transfers
      × (t.packet_hash ≡ h)
      × (r ≡ record { code = 200; body = bridge t }))
    ⊎ (((t : BridgeRecord) → In t w.transfers → t.packet_hash ≢ h)
        × (r ≡ record { code = 404; body = error_text (codes "not found") }))

module _ (pg : Postgres) where
  get_bridge-Found : (h : Bytes) (w : World) → w.faults ≡ [] → Found h w (get_bridge pg h w).0
  unfolding get_bridge find_record statement
  get_bridge-Found h w calm = rw calm (by_row _ _ refl)
    where
      rows : List BridgeRecord
      rows = keep (λ r. str_eq r.packet_hash h) w.transfers

      no_member : (t : BridgeRecord) → In t [] → ⊥
      no_member t i = i

      by_row :
          (o : Option BridgeRecord) (v : World)
          → pg.pick rows ≡ o
          → Found h w (respond bridge not_found_response (scan_bridge_record o v).0)
      by_row none v e = inr (
        λ t i same. no_member t (
            subst (In t) (pg.pick_none rows e) (
              (In-keep (λ r. str_eq r.packet_hash h) w.transfers t).1
                (i, subst (λ x. str_eq t.packet_hash x ≡ true) same (str_eq_refl t.packet_hash)))),
        refl,
      )
      by_row (some t) v e =
          let (i, same) =
            (In-keep (λ r. str_eq r.packet_hash h) w.transfers t).0 (pg.pick_some rows t e) in
          inl (t, i, str_eq→eq t.packet_hash h same, refl)

  status_route :
      (mux : Mux) (h : Bytes)
      → IsSegment h
      → mux.dispatch routes (codes "GET") (codes "/status/" ++ h)
        ≡ matched get_status ((codes "packet_hash", h) ∷ [])
  unfolding differs any
  status_route mux h segment =
      mux.placeholder routes (codes "/status/") (codes "packet_hash") h get_status refl (inl refl)
        (inl refl, (inr refl, (inr refl, (inr refl, (inr refl, tt))))) segment

  -- Without failures, GET /status/h, for a text h without `/`, answers 200 with a row of the packet hash
  -- h, or 404 if there is none.
  pub serve_request-Found :
      (mux : Mux) (req : Request) (cache : RecentCache) (w : World) (h : Bytes)
      → req.method ≡ codes "GET"
      → req.path ≡ codes "/status/" ++ h
      → IsSegment h
      → w.faults ≡ []
      → Found h w (serve_request pg mux req cache w).0
  unfolding serve_request call_endpoint get str_eq
  serve_request-Found mux req cache w h is_get path segment calm =
      rw (serve_request, is_get, path, status_route mux h segment) (get_bridge-Found h w calm)
