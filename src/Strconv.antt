-- ===== src/Strconv.antt =====
-- strconv as the program uses it: `ParseInt(s, 10, 64)` and `Atoi`, which agree, and printing.
use gno_ibc_relayer_api.Prelude.{
  ℕ, zero, suc, ◌+◌, ◌-◌, ◌*◌, ◌/◌, ◌%◌, ◌^◌, ◌&&◌, Bool, true, false, [], ◌∷◌, ltb, leb, ◌==◌,
  if◌then◌else◌,
}
use gno_ibc_relayer_api.Prelude.Int.{ℤ, pos, negsuc}
use gno_ibc_relayer_api.Prelude.Strings.{Bytes}

-- The result of reading an unsigned number: `ErrSyntax`, `ErrRange` (above 2^64 - 1), or its value.
pub data Reading : Type 0 where
  syntax range : Reading
  value : ℕ → Reading

unfoldable pub parse_digits : ℕ → Bytes → Reading
parse_digits acc [] = value acc
parse_digits acc (c ∷ s) =
    let n = acc * 10 + (c - b'0') in
    let rest = parse_digits n s in
    if leb b'0' c && leb c b'9' then (if leb (2 ^ 64) n then range else rest) else syntax

-- The number with its sign, and whether there was no error. A number out of range is clamped, and a
-- text that is no number gives 0.
abbrev pub signed : Bool → Reading → ℤ × Bool
signed neg syntax = (pos 0, false)
signed false range = (pos (2 ^ 63 - 1), false)
signed true range = (negsuc (2 ^ 63 - 1), false)
signed false (value n) = if leb (2 ^ 63) n then (pos (2 ^ 63 - 1), false) else (pos n, true)
signed true (value zero) = (pos 0, true)
signed true (value (suc n)) =
    if leb (2 ^ 63) n then (negsuc (2 ^ 63 - 1), false) else (negsuc n, true)

unfoldable pub parse_unsigned : Bytes → Reading
unfolding parse_digits
parse_unsigned [] = syntax
parse_unsigned (c ∷ s) = parse_digits 0 (c ∷ s)

unfoldable pub parse_int : Bytes → ℤ × Bool
unfolding parse_unsigned
parse_int [] = (pos 0, false)
parse_int (c ∷ s) =
    if c == b'-'
    then signed true (parse_unsigned s)
    else if c == b'+'
    then signed false (parse_unsigned s)
    else signed false (parse_unsigned (c ∷ s))

-- Decimal digits before `acc`; a number has fewer digits than it has units.
unfoldable pub digits : ℕ → ℕ → Bytes → Bytes
digits zero n acc = acc
digits (suc fuel) n acc =
    let rest = digits fuel (n / 10) ((b'0' + n % 10) ∷ acc) in
    if ltb n 10 then (b'0' + n) ∷ acc else rest

-- `(*big.Int).String` of a number that is not negative.
unfoldable pub decimal : ℕ → Bytes
unfolding digits
decimal n = digits (suc n) n []
