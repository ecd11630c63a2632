-- ===== src/Abi/Words.antt =====
-- internal/tools/ethabi/decode.go: the values that the decoder returns, and the reading of one word.
use gno_ibc_relayer_api.Prelude.{
  ℕ, ◌+◌, ◌-◌, ◌*◌, ◌%◌, ◌^◌, Bool, not, ◌||◌, [], ◌∷◌, ltb, leb, ◌==◌, if◌then◌else◌, length, take,
  drop, any,
}
use gno_ibc_relayer_api.Prelude.Int.{ℤ, add_int, ltb_ℤ, signed64}
use gno_ibc_relayer_api.Prelude.Strings.{Bytes}
use gno_ibc_relayer_api.Abi.Outcome.{
  Outcome, ok, err, panic, ◌>>=◌, ◌>>◌, guard, slice, invalid_data,
}
use gno_ibc_relayer_api.Abi.Schema.{
  WordType, uint8, uint32, uint64, uint256, bytes32, bool, address, word_size,
}

-- The dynamic types of the `any` values. An address and a `bytes` field are both a `[]byte`.
mutual
  pub data Value : Type 0 where
    u8 u32 u64 big : ℕ → Value
    fixed32 byte_slice text : Bytes → Value
    truth : Bool → Value
    tuple : Values → Value

  -- `[]any`
  pub data Values : Type 0 where
    nil : Values
    cons : Value → Values → Values

pub record Decoder : Type 0 where
  pub content : Bytes
  pub max_depth : ℕ

unfoldable pub big_endian : ℕ → Bytes → ℕ
big_endian acc [] = acc
big_endian acc (b ∷ bs) = big_endian (acc * 256 + b) bs

abbrev pub nonzero : ℕ → Bool
nonzero b = not (b == 0)

unfoldable pub decode_word_uint64 : Bytes → Outcome ℕ
decode_word_uint64 w =
    if length w == word_size
    then (if any nonzero (take 24 w) then err invalid_data else ok (big_endian 0 (drop 24 w)))
    else err invalid_data

-- `decodeWordUint64(d.data[pos : pos+wordSize])`
unfoldable pub read_word : Decoder → ℕ → Outcome ℕ
read_word d pos = do w ← slice d.content pos (pos + word_size); decode_word_uint64 w

-- `if err != nil || v > limit { return nil, ErrInvalidData }`
abbrev pub at_most : ℕ → Outcome ℕ → Outcome ℕ
at_most limit (ok v) = if ltb limit v then err invalid_data else ok v
at_most limit (err e) = err invalid_data
at_most limit panic = panic

-- The cases of `staticValue` that fill one word.
unfoldable pub word_value : WordType → Decoder → ℕ → Outcome Value
word_value uint8 d pos = do v ← at_most 255 (read_word d pos); ok (u8 v)
word_value uint32 d pos = do v ← at_most 0xFFFFFFFF (read_word d pos); ok (u32 v)
word_value uint64 d pos = do v ← read_word d pos; ok (u64 v)
word_value uint256 d pos = do w ← slice d.content pos (pos + word_size); ok (big (big_endian 0 w))
word_value bytes32 d pos = do w ← slice d.content pos (pos + word_size); ok (fixed32 w)
word_value bool d pos = do v ← at_most 1 (read_word d pos); ok (truth (v == 1))
word_value address d pos = do
  high ← slice d.content pos (pos + 12)
  guard (not (any nonzero high)) invalid_data
  low ← slice d.content (pos + 12) (pos + word_size)
  ok (byte_slice low)

-- `start + int(offset)`, held within the tuple or the array that starts at `start`.
unfoldable pub resolve : ℕ → ℕ → ℕ → Outcome ℕ
resolve start end offset = elim (add_int start offset) [
  | ℤ.pos p ↦
      if ltb p start || ltb end p || nonzero (offset % word_size) then err invalid_data else ok p
  | ℤ.negsuc p ↦ err invalid_data
]

-- On a `uint64`, so the sum wraps.
unfoldable pub round_up32 : ℕ → ℕ
round_up32 v = if v % word_size == 0 then v else (v + word_size - v % word_size) % 2 ^ 64

-- The largest allocation of the Go runtime on a 64-bit machine.
abbrev pub max_alloc : ℕ
max_alloc = 2 ^ 48

-- The length that `make([]byte, int(n))` gives; `make` panics on a length that is negative or beyond
-- `max_alloc`.
unfoldable pub make_bytes : ℕ → Outcome ℕ
make_bytes n = elim (signed64 n) [
  | ℤ.pos len ↦ if ltb max_alloc len then panic else ok len
  | ℤ.negsuc _ ↦ panic
]

unfoldable pub bytes_at : Decoder → ℕ → ℕ → Outcome Bytes
bytes_at d pos end = do
  guard (leb (pos + word_size) end) invalid_data
  len ← read_word d pos
  let padded = round_up32 len
  let start = pos + word_size
  guard (not (ltb_ℤ (ℤ.pos end) (add_int start padded) || ltb padded len)) invalid_data
  out ← make_bytes len
  slice d.content start (start + out)
