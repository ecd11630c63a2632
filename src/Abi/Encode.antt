-- ===== src/Abi/Encode.antt =====
-- The parameters encoding of the Solidity ABI, which internal/tools/ethabi/decode.go reads: the description
-- of values that the decoder is held against. A tuple is its head, with a static value in place and the
-- offset of a dynamic one, followed by the dynamic values; numbers fill words of 32 bytes.
use gno_ibc_relayer_api.Prelude.{
  ℕ, zero, suc, ◌≡◌, refl, ◌+◌, ◌*◌, ◌/◌, ◌%◌, Bool, true, false, [], ◌∷◌, ◌++◌, length, replicate,
  if◌then◌else◌,
}
use gno_ibc_relayer_api.Prelude.Strings.{Bytes}
use gno_ibc_relayer_api.Abi.Schema.{
  WordType, uint8, uint32, uint64, uint256, bytes32, bool, address, Field, Fields, word, bytes,
  string, struct, array, is_dynamic, word_size,
}
use gno_ibc_relayer_api.Abi.Words.{
  Value, Values, u8, u32, u64, big, fixed32, byte_slice, text, truth, tuple, nil, cons,
}
use gno_ibc_relayer_api.Abi.Hex.{pad_to32}

-- The last `k` bytes of a number, the highest first.
unfoldable pub low_bytes : ℕ → ℕ → Bytes
low_bytes zero n = []
low_bytes (suc k) n = low_bytes k (n / 256) ++ n % 256 ∷ []

-- A number below 2^64 in a word.
unfoldable pub word64 : ℕ → Bytes
word64 n = replicate 24 0 ++ low_bytes 8 n

unfoldable pub encode_word : WordType → Value → Bytes
encode_word uint8 (u8 n) = word64 n
encode_word uint32 (u32 n) = word64 n
encode_word uint64 (u64 n) = word64 n
encode_word uint256 (big n) = low_bytes 32 n
encode_word bytes32 (fixed32 b) = b
encode_word bool (truth b) = word64 (if b then 1 else 0)
encode_word address (byte_slice b) = replicate 12 0 ++ b
encode_word _ _ = []

unfoldable pub encode_bytes : Bytes → Bytes
encode_bytes b = word64 (length b) ++ pad_to32 b

unfoldable pub count_values : Values → ℕ
count_values nil = 0
count_values (cons v vs) = suc (count_values vs)

-- The head and the tail of an array, by the encoding of an element and whether it is dynamic. The offset of
-- the next dynamic element is `offset`.
unfoldable pub elem_heads : Bool → (Value → Bytes) → Values → ℕ → Bytes
elem_heads dynamic f nil offset = []
elem_heads true f (cons v vs) offset = word64 offset ++ elem_heads true f vs (offset + length (f v))
elem_heads false f (cons v vs) offset = f v ++ elem_heads false f vs offset

unfoldable pub elem_tails : Bool → (Value → Bytes) → Values → Bytes
elem_tails dynamic f nil = []
elem_tails true f (cons v vs) = f v ++ elem_tails true f vs
elem_tails false f (cons v vs) = []

unfoldable mutual
  pub encode_value : Field → Value → Bytes
  encode_value (word t) v = encode_word t v
  encode_value bytes (byte_slice b) = encode_bytes b
  encode_value string (text b) = encode_bytes b
  encode_value (struct fs) (tuple vs) = heads fs vs (length (heads fs vs 0)) ++ tails fs vs
  encode_value (array e) (tuple vs) =
      word64 (count_values vs)
      ++ (elem_heads (is_dynamic e) (λ v. encode_value e v) vs (count_values vs * word_size)
          ++ elem_tails (is_dynamic e) (λ v. encode_value e v) vs)
  encode_value _ _ = []

  pub heads : Fields → Values → ℕ → Bytes
  heads (Fields.cons f fs) (cons v vs) offset =
      if is_dynamic f
      then word64 offset ++ heads fs vs (offset + length (encode_value f v))
      else encode_value f v ++ heads fs vs offset
  heads _ _ offset = []

  pub tails : Fields → Values → Bytes
  tails (Fields.cons f fs) (cons v vs) =
      if is_dynamic f then encode_value f v ++ tails fs vs else tails fs vs
  tails _ _ = []

-- The head, whose length the first offset is, and the tail.
unfoldable pub encode : Fields → Values → Bytes
encode fs vs = heads fs vs (length (heads fs vs 0)) ++ tails fs vs

module _ (f : Field) (fs : Fields) (v : Value) (vs : Values) where
  pub heads-dynamic :
      (offset : ℕ)
      → is_dynamic f ≡ true
      → heads (Fields.cons f fs) (cons v vs) offset
        ≡ word64 offset ++ heads fs vs (offset + length (encode_value f v))
  unfolding heads
  heads-dynamic offset e = rw e refl

  pub heads-static :
      (offset : ℕ)
      → is_dynamic f ≡ false
      → heads (Fields.cons f fs) (cons v vs) offset ≡ encode_value f v ++ heads fs vs offset
  unfolding heads
  heads-static offset e = rw e refl

  pub tails-dynamic :
      is_dynamic f ≡ true → tails (Fields.cons f fs) (cons v vs) ≡ encode_value f v ++ tails fs vs
  unfolding tails
  tails-dynamic e = rw e refl

  pub tails-static : is_dynamic f ≡ false → tails (Fields.cons f fs) (cons v vs) ≡ tails fs vs
  unfolding tails
  tails-static e = rw e refl

pub encode_value-struct :
    (fs : Fields) (vs : Values) → encode_value (struct fs) (tuple vs) ≡ encode fs vs
unfolding encode_value encode
encode_value-struct fs vs = refl

pub encode_value-array :
    (e : Field) (vs : Values)
    → encode_value (array e) (tuple vs)
      ≡ word64 (count_values vs)
        ++ (elem_heads (is_dynamic e) (λ v. encode_value e v) vs (count_values vs * word_size)
            ++ elem_tails (is_dynamic e) (λ v. encode_value e v) vs)
unfolding encode_value
encode_value-array e vs = refl
