-- ===== src/Indexer/Render.antt =====
-- internal/indexer/parser.go: plugin names, transaction hashes and byte strings as text.
use gno_ibc_relayer_api.Prelude.{
  ℕ, ◌+◌, ◌-◌, ◌*◌, ◌/◌, ◌%◌, ◌&&◌, ◌||◌, not, Bool, true, false, Option, none, some, [], ◌∷◌, ltb,
  ◌==◌, if◌then◌else◌, any,
}
use gno_ibc_relayer_api.Prelude.Strings.{Bytes, codes, is_empty}
use gno_ibc_relayer_api.Abi.Hex.{decode_hex, encode_hex, trim_0x}

-- What follows the last slash, if there is one: `strings.LastIndex(plugin, "/")`.
unfoldable pub after_last_slash : Bytes → Option Bytes
after_last_slash [] = none
after_last_slash (c ∷ s) = elim (after_last_slash s) [
  | some t ↦ some t
  | none ↦ if c == b'/' then some s else none
]

unfoldable pub chain_from_plugin : Bytes → Bytes
chain_from_plugin plugin = elim (after_last_slash plugin) [ none ↦ [] | some s ↦ s ]

unfoldable pub has_prefix : Bytes → Bytes → Bool
has_prefix [] s = true
has_prefix (p ∷ ps) [] = false
has_prefix (p ∷ ps) (c ∷ s) = p == c && has_prefix ps s

-- `strings.Contains`
unfoldable pub contains : Bytes → Bytes → Bool
unfolding has_prefix
contains p [] = is_empty p
contains p (c ∷ s) = has_prefix p (c ∷ s) || contains p s

unfoldable pub is_gno_plugin : Bytes → Bool
unfolding contains
is_gno_plugin plugin = contains (codes "-gno/") plugin

-- The alphabet of RFC 4648.
unfoldable pub base64_char : ℕ → ℕ
base64_char v =
    if ltb v 26
    then b'A' + v
    else if ltb v 52
    then b'a' + (v - 26)
    else if ltb v 62
    then b'0' + (v - 52)
    else if v == 62
    then b'+'
    else b'/'

-- `base64.StdEncoding.EncodeToString`
unfoldable pub base64 : Bytes → Bytes
unfolding base64_char
base64 [] = []
base64 (a ∷ []) = base64_char (a / 4) ∷ base64_char (a % 4 * 16) ∷ b'=' ∷ b'=' ∷ []
base64 (a ∷ b ∷ []) =
    base64_char (a / 4) ∷ base64_char (a % 4 * 16 + b / 16) ∷ base64_char (b % 16 * 4) ∷ b'=' ∷ []
base64 (a ∷ b ∷ c ∷ rest) =
    base64_char (a / 4)
    ∷ base64_char (a % 4 * 16 + b / 16)
    ∷ base64_char (b % 16 * 4 + c / 64)
    ∷ base64_char (c % 64)
    ∷ base64 rest

unfoldable pub format_tx_hash : Bytes → Bool → Bytes
format_tx_hash tx_hash is_gno =
    if is_empty tx_hash || not is_gno
    then tx_hash
    else elim (decode_hex (trim_0x tx_hash)) [ none ↦ tx_hash | some b ↦ base64 b ]

-- `strings.TrimRight(s, "\x00")`
unfoldable pub trim_zeros : Bytes → Bytes
trim_zeros [] = []
trim_zeros (c ∷ s) = let t = trim_zeros s in if c == 0 && is_empty t then [] else c ∷ t

-- A byte of 128 or more begins or is a rune above 126, whatever stands around it.
abbrev pub unprintable : ℕ → Bool
unprintable c = ltb c 32 || ltb 126 c

unfoldable pub render_bytes : Bytes → Bytes
render_bytes b =
    let s = trim_zeros b in
    if is_empty b then [] else if any unprintable s then b'0' ∷ b'x' ∷ encode_hex b else s
