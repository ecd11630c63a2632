-- ===== src/Server/Single.antt =====
-- internal/server/ttlcache.go: one call alone.
use gno_ibc_relayer_api.Prelude.{ℕ, List, [], ◌∷◌}
use gno_ibc_relayer_api.Db.World.{Result}
use gno_ibc_relayer_api.Server.Cache.{Cache}
use gno_ibc_relayer_api.Server.Flights.{Move, calls, does, looks, answers, stores, returns}
use gno_ibc_relayer_api.Db.World.{World}

-- The moves of a call, with what its load answers.
abbrev pub single_call : {K V : Type 0} → ℕ → K → ℕ → ℕ → ℕ → Result V → List (Move K V)
single_call c k t1 t2 t3 r =
    calls c k t1 ∷ does c ∷ looks c t2 ∷ answers c r ∷ stores c t3 ∷ returns c ∷ []
