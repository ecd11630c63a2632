-- ===== src/Db/Writes.antt =====
-- internal/db/bridge.go: no statement of `BridgeDB` takes a row back.
use gno_ibc_relayer_api.Prelude.{
  ℕ, ◌≡◌, refl, ◌⊎◌, inl, inr, ◌&&◌, Option, none, some, List, arith, ltb, ◌==◌, Bool-cases,
}
use gno_ibc_relayer_api.Prelude.Strings.{Bytes, str_eq, is_empty}
use gno_ibc_relayer_api.Db.Record.{status_detected, status_processing, status_done}
use gno_ibc_relayer_api.Db.World.{World}
use gno_ibc_relayer_api.Db.Table.{in_ids, nullif_empty, coalesce}
use gno_ibc_relayer_api.Db.Bridge.{mark_processing, mark_done, mark_failed, set_tx_in, is_unset}
use gno_ibc_relayer_api.Db.Advance.{
  Advances, Advances-refl, exec-Advances, exec_update-Advances, update-AdvanceRow,
}

pub mark_processing-Advances : (ids : List ℕ) (w : World) → Advances w (mark_processing ids w).1
unfolding mark_processing
mark_processing-Advances ids = exec-Advances _ (
    update-AdvanceRow (λ r. in_ids ids r.id && r.status == status_detected)
      (λ r. record r { status = status_processing }) (λ r. refl)
      (λ r h. record {
        same = refl;
        forward = ground arith;
        terminal = ground arith;
        tx_in_once = inr refl;
      }))

coalesce-once : (a b : Option Bytes) → (a ≡ none) ⊎ (coalesce a b ≡ a)
coalesce-once none b = inl refl
coalesce-once (some s) b = inr refl

pub mark_done-Advances :
    (j done_at : ℕ) (tx_in : Bytes) (w : World) → Advances w (mark_done j done_at tx_in w).1
unfolding mark_done
mark_done-Advances j done_at tx_in =
    exec_update-Advances (λ r. r.id == j && ltb r.status status_done) _ (λ r. refl)
      (λ r h. record {
        same = refl;
        forward = ground arith;
        terminal = ground arith;
        tx_in_once = coalesce-once r.tx_in (nullif_empty tx_in);
      })

pub mark_failed-Advances :
    (j : ℕ) (err_msg tx_in : Bytes) (w : World) → Advances w (mark_failed j err_msg tx_in w).1
unfolding mark_failed
mark_failed-Advances j err_msg tx_in =
    exec_update-Advances (λ r. r.id == j && ltb r.status status_done) _ (λ r. refl)
      (λ r h. record {
        same = refl;
        forward = ground arith;
        terminal = ground arith;
        tx_in_once = coalesce-once r.tx_in (nullif_empty tx_in);
      })

pub set_tx_in-Advances :
    (packet_hash tx_in : Bytes) (w : World) → Advances w (set_tx_in packet_hash tx_in w).1
unfolding set_tx_in
set_tx_in-Advances packet_hash tx_in w = elim (Bool-cases (is_empty tx_in)) [
  | inl e ↦ rw (e, set_tx_in) (Advances-refl w)
  | inr e ↦
      rw (e, set_tx_in)
        (exec-Advances _
          (update-AdvanceRow (λ r. str_eq r.packet_hash packet_hash && is_unset r.tx_in)
            (λ r. record r { tx_in = some tx_in }) (λ r. refl)
            (λ r h. record {
              same = refl;
              forward = omega arith;
              terminal = inr (refl, refl, refl);
              tx_in_once = ground arith;
            }))
          w)
]
