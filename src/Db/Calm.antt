-- ===== src/Db/Calm.antt =====
-- internal/db/bridge.go: statements in a time without failures.
use gno_ibc_relayer_api.Prelude.{◌≡◌, refl, List, []}
use gno_ibc_relayer_api.Db.Record.{BridgeRecord}
use gno_ibc_relayer_api.Db.World.{World, Result, ok, statement, query}
use gno_ibc_relayer_api.Db.Bridge.{exec}

pub exec-quiet :
    (f : List BridgeRecord → List BridgeRecord) (w : World)
    → w.faults ≡ []
    → ◌≡◌ {A = Result (Unit {0}) × World} (exec f w) (ok tt, record w { transfers = f w.transfers })
unfolding exec statement
exec-quiet f w quiet = rw quiet refl

pub query-quiet :
    {A : Type 0} (f : World → A) (w : World)
    → w.faults ≡ []
    → ◌≡◌ {A = Result A × World} (query f w) (ok (f w), w)
unfolding statement
query-quiet f w quiet = rw quiet refl
