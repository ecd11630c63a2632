-- ===== src/Server/Routed.antt =====
-- internal/server/server.go: what a request may do, and what it is answered.
use gno_ibc_relayer_api.Prelude.{
  ℕ, ◌≡◌, ◌⊎◌, inl, inr, refl, sym, subst, Bool, Option, none, some, List,
}
use gno_ibc_relayer_api.Prelude.Int.{ℤ, pos, negsuc}
use gno_ibc_relayer_api.Prelude.Strings.{Bytes, codes}
use gno_ibc_relayer_api.Db.Record.{BridgeRecord}
use gno_ibc_relayer_api.Db.World.{World, Result, ok, err, crash, M, continue, ◌>>=◌, query, DbError}
use gno_ibc_relayer_api.Db.Table.{Postgres}
use gno_ibc_relayer_api.Db.Bridge.{
  StatusSummary, ListFilter, list, get_by_packet_hash as find_record, scan_bridge_record, count,
  count_recent_by_status,
}
use gno_ibc_relayer_api.Db.Bridge.{listed}
use gno_ibc_relayer_api.Db.Bridge.{window}
use gno_ibc_relayer_api.Db.Statements.{query_cases}
use gno_ibc_relayer_api.Server.Cache.{get_or_load, hit_or, load_unless, store, get as cached}
use gno_ibc_relayer_api.Server.Handlers.{
  Query, Body, Response, RecentCache, get, get_bridge, list_page, list_by_wallet, history,
  summary_total, recent_summary, respond, not_found_response, internal_error, bridge, nat_key,
}
use gno_ibc_relayer_api.Server.Router.{
  Endpoint, get_status, get_wallet, get_history, get_summary, get_recent_summary, Match, matched,
  no_route, no_method, Mux, Request, routes, call_endpoint, respond_match, serve_request,
}

-- The tables of both databases are as they were.
pub record SameTables (w v : World) : Type 0 where
  pub transfers : v.transfers ≡ w.transfers
  pub cursors : v.cursors ≡ w.cursors
  pub queue : v.queue ≡ w.queue
  pub done : v.done ≡ w.done
  pub failed : v.failed ≡ w.failed

unchanged : (w : World) (l : List Bool) → SameTables w (record w { faults = l })
unchanged w l = record {
  transfers = refl;
  cursors = refl;
  queue = refl;
  done = refl;
  failed = refl;
}

Reads : {A : Type 0} → M A → Type 0
Reads m = (w : World) → SameTables w (m w).1

query-Reads : {A : Type 0} (f : World → A) → Reads (query f)
unfolding Reads
query-Reads f w =
    query_cases (λ x. SameTables w x.1) f w (λ l e. unchanged w l) (λ l. unchanged w l)

-- A query, and then an answer that sends no statement.
query_then-Reads :
    {A B : Type 0} (f : World → A) (k : A → M B)
    → ((a : A) (v : World) → (k a v).1 ≡ v)
    → Reads (query f >>= k)
unfolding Reads
query_then-Reads f k still w =
    query_cases (λ x. SameTables w (continue x.0 k x.1).1) f w (λ l e. unchanged w l)
      (λ l. subst (SameTables w) (sym (still _ _)) (unchanged w l))

module _ (pg : Postgres) where
  find_record-Reads : (h : Bytes) → Reads (find_record pg h)
  unfolding find_record
  find_record-Reads h = query_then-Reads _ _ by_row
    where
      by_row : (o : Option BridgeRecord) (v : World) → (scan_bridge_record o v).1 ≡ v
      by_row none v = refl
      by_row (some r) v = refl

  list-Reads : (f : ListFilter) → Reads (list pg f)
  unfolding list Reads
  list-Reads f w = by_window f.limit f.offset
    where
      by_window :
          (limit offset : ℤ) → SameTables w (window limit offset (λ v. listed pg f v.transfers) w).1
      by_window (pos l) (pos n) = unfold Reads in query-Reads _ w
      by_window (pos l) (negsuc n) = unchanged w w.faults
      by_window (negsuc l) offset = unchanged w w.faults

  get_or_load-Reads :
      (c : RecentCache) (k t1 t2 t3 : ℕ) (load : M StatusSummary) (w : World)
      → Reads load
      → SameTables w (get_or_load c k t1 t2 t3 load w).2
  unfolding get_or_load Reads
  get_or_load-Reads c k t1 t2 t3 load w reads = by_looks (cached c k t1) (cached c k t2)
    where
      by_load :
          (x : Result StatusSummary × World) → SameTables w x.1 → SameTables w (store c k t3 x).2
      by_load (ok v, u) same = same
      by_load (err e, u) same = same
      by_load (crash, u) same = same

      by_looks :
          (o q : Option StatusSummary) → SameTables w (hit_or c o (load_unless c k t3 q load) w).2
      by_looks (some v) q = unchanged w w.faults
      by_looks none (some v) = unchanged w w.faults
      by_looks none none = by_load (load w) (reads w)

-- What the server answers with.
abbrev pub IsCode : ℕ → Type 0
IsCode n = (n ≡ 200) ⊎ (n ≡ 404) ⊎ (n ≡ 405) ⊎ (n ≡ 500)

respond-IsCode :
    {A : Type 0} (f : A → Body) (g : DbError → Response) (r : Result A)
    → ((e : DbError) → IsCode (g e).code)
    → IsCode (respond f g r).code
respond-IsCode f g (ok a) h = inl refl
respond-IsCode f g (err e) h = h e
respond-IsCode f g crash h = inr (inr (inr refl))

module _ (pg : Postgres) where
  -- What an endpoint may do.
  Safe : World → Response × RecentCache × World → Type 0
  Safe w x = SameTables w x.2 × IsCode x.0.code

  call_endpoint-Safe :
      (e : Endpoint) (params : Query) (req : Request) (cache : RecentCache) (w : World)
      → Safe w (call_endpoint pg e params req cache w)
  unfolding call_endpoint get_bridge list_by_wallet history list_page summary_total recent_summary
      Safe Reads count count_recent_by_status
  call_endpoint-Safe get_status params req cache w = (
    find_record-Reads pg (get (codes "packet_hash") params) w,
    respond-IsCode bridge not_found_response _ (λ e. inr (inl refl)),
  )
  call_endpoint-Safe get_wallet params req cache w =
      (list-Reads pg _ w, respond-IsCode _ internal_error _ (λ e. inr (inr (inr refl))))
  call_endpoint-Safe get_history params req cache w =
      (list-Reads pg _ w, respond-IsCode _ internal_error _ (λ e. inr (inr (inr refl))))
  call_endpoint-Safe get_summary params req cache w =
      (query-Reads _ w, respond-IsCode _ internal_error _ (λ e. inr (inr (inr refl))))
  call_endpoint-Safe get_recent_summary params req cache w = (
    get_or_load-Reads pg cache _ req.look req.second_look req.store _ w (query-Reads _),
    respond-IsCode _ internal_error _ (λ e. inr (inr (inr refl))),
  )

  -- Whatever the method, the path and the query of a request are, and whatever statements fail, serving it
  -- leaves the tables of both databases as they are, and answers 200, 404, 405 or 500.
  pub serve_request-Reads :
      (mux : Mux) (req : Request) (cache : RecentCache) (w : World)
      → SameTables w (serve_request pg mux req cache w).2
        × IsCode (serve_request pg mux req cache w).0.code
  unfolding serve_request Safe
  serve_request-Reads mux req cache w = by_match (mux.dispatch routes req.method req.path)
    where
      by_match :
          (m : Match Endpoint)
          → SameTables w (respond_match pg m req cache w).2
            × IsCode (respond_match pg m req cache w).0.code
      by_match (matched e params) = call_endpoint-Safe e params req cache w
      by_match no_route = (unchanged w w.faults, inr (inl refl))
      by_match no_method = (unchanged w w.faults, inr (inr (inl refl)))
