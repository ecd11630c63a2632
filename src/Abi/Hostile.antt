-- ===== src/Abi/Hostile.antt =====
-- internal/tools/ethabi/decode.go: the lengths that `bytesAt` lets through to `make`.
use gno_ibc_relayer_api.Prelude.{ℕ, ◌+◌, ◌^◌, ◌≤◌, ◌<◌, ◌≡◌, refl, false, true, arith, ltb, leb}
use gno_ibc_relayer_api.Prelude.Int.{ℤ, add_int, ltb_ℤ}
use gno_ibc_relayer_api.Abi.Outcome.{ok, panic}
use gno_ibc_relayer_api.Abi.Words.{Decoder, read_word, round_up32, make_bytes, bytes_at}

make_bytes-negative : (len : ℕ) → 2 ^ 63 ≤ len → make_bytes len ≡ panic
unfolding make_bytes
make_bytes-negative len h = ground arith

round_up32-no_wrap :
    (len : ℕ) → len + 32 < 2 ^ 64 → (len ≤ round_up32 len) × (round_up32 len < len + 32)
unfolding round_up32
round_up32-no_wrap len h = ground arith

add_int-negative :
    (start padded end : ℕ)
    → 2 ^ 63 ≤ padded
    → start + padded < 2 ^ 64
    → ltb_ℤ (ℤ.pos end) (add_int start padded) ≡ false
unfolding add_int
add_int-negative start padded end low high = ground arith

-- A length word from 2^63 on, with room for its padding below 2^64, is not refused wherever it stands in
-- the data: `bytesAt` panics on it.
pub bytes_at-panic :
    (d : Decoder) (pos end len : ℕ)
    → pos + 32 ≤ end
    → read_word d pos ≡ ok len
    → 2 ^ 63 ≤ len
    → pos + len + 64 < 2 ^ 64
    → bytes_at d pos end ≡ panic
unfolding bytes_at
bytes_at-panic d pos end len room reads low high =
    let pad : (len ≤ round_up32 len) × (round_up32 len < len + 32) =
      round_up32-no_wrap len (omega arith) in
    let inside : leb (pos + 32) end ≡ true = ground arith in
    let fits : ltb (round_up32 len) len ≡ false = ground (arith, pad) in
    let wraps : ltb_ℤ (ℤ.pos end) (add_int (pos + 32) (round_up32 len)) ≡ false =
      add_int-negative (pos + 32) (round_up32 len) end (omega (arith, pad)) (omega (arith, pad)) in
    rw (bytes_at, inside, reads, wraps, fits, make_bytes-negative len low) refl
