-- ===== src/Abi/Hex.antt =====
-- encoding/hex as the program uses it, and `fromHex` and `padTo32` of internal/tools/ethabi/zkgm.go.
use gno_ibc_relayer_api.Prelude.{
  ℕ, ◌+◌, ◌-◌, ◌*◌, ◌/◌, ◌%◌, ◌&&◌, Option, none, some, [], ◌∷◌, ◌++◌, leb, ltb, ◌==◌,
  if◌then◌else◌, length, replicate,
}
use gno_ibc_relayer_api.Prelude.Strings.{Bytes}
use gno_ibc_relayer_api.Abi.Outcome.{Outcome, ok, err, hex_decode}
use gno_ibc_relayer_api.Abi.Schema.{word_size}

-- The value of a hexadecimal digit of either case.
unfoldable pub hex_digit : ℕ → Option ℕ
hex_digit c =
    if leb b'0' c && leb c b'9'
    then some (c - b'0')
    else if leb b'a' c && leb c b'f'
    then some (c - b'a' + 10)
    else if leb b'A' c && leb c b'F'
    then some (c - b'A' + 10)
    else none

abbrev pub hex_pair : Option ℕ → Option ℕ → Option ℕ
hex_pair (some hi) (some lo) = some (hi * 16 + lo)
hex_pair _ _ = none

abbrev pub cons_byte : Option ℕ → Option Bytes → Option Bytes
cons_byte (some b) (some bs) = some (b ∷ bs)
cons_byte _ _ = none

-- `hex.DecodeString`; `none` is its error, an odd length or a byte that is no digit.
unfoldable pub decode_hex : Bytes → Option Bytes
decode_hex [] = some []
decode_hex (x ∷ []) = none
decode_hex (x ∷ y ∷ rest) = cons_byte (hex_pair (hex_digit x) (hex_digit y)) (decode_hex rest)

unfoldable pub hex_char : ℕ → ℕ
hex_char v = if ltb v 10 then b'0' + v else b'a' + (v - 10)

-- `hex.EncodeToString`
unfoldable pub encode_hex : Bytes → Bytes
encode_hex [] = []
encode_hex (b ∷ bs) = hex_char (b / 16) ∷ hex_char (b % 16) ∷ encode_hex bs

-- `strings.TrimPrefix(s, "0x")`
unfoldable pub trim_0x : Bytes → Bytes
trim_0x (x ∷ y ∷ rest) = if x == b'0' && y == b'x' then rest else x ∷ y ∷ rest
trim_0x s = s

unfoldable pub from_hex : Bytes → Outcome Bytes
from_hex s = elim (decode_hex (trim_0x s)) [ none ↦ err hex_decode | some bz ↦ ok bz ]

unfoldable pub pad_to32 : Bytes → Bytes
pad_to32 bz =
    let rem = length bz % word_size in if rem == 0 then bz else bz ++ replicate (word_size - rem) 0
