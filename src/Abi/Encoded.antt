-- ===== src/Abi/Encoded.antt =====
-- The round trip of internal/tools/ethabi/decode.go at a schema with every kind of field.
use gno_ibc_relayer_api.Prelude.{◌≡◌, refl, true, [], ◌∷◌, arith, length}
use gno_ibc_relayer_api.Prelude.Strings.{codes}
use gno_ibc_relayer_api.Abi.Outcome.{ok}
use gno_ibc_relayer_api.Abi.Schema.{
  Fields, nil, cons, word, bytes, string, struct, array, uint8, uint64, bool, is_dynamic,
}
use gno_ibc_relayer_api.Abi.Words.{Values, tuple, text, u8, u64, truth, byte_slice}
use gno_ibc_relayer_api.Abi.Decoder.{decode}
use gno_ibc_relayer_api.Abi.Hex.{pad_to32}
use gno_ibc_relayer_api.Abi.Encode.{
  encode, encode_value, encode_word, word64, low_bytes, count_values, elem_heads, elem_tails,
  encode_bytes,
}
use gno_ibc_relayer_api.Abi.RoundTrip.{decode-encode}

-- A number, an array of structs with byte strings, a static struct and a string.
abbrev mixed_schema : Fields
mixed_schema = cons (word uint64) (
    cons (array (struct (cons (word uint8) (cons bytes nil))))
      (cons (struct (cons (word bool) nil)) (cons string nil)))

abbrev mixed_values : Values
mixed_values = Values.cons (u64 7) (
    Values.cons
      (tuple (
        Values.cons
          (tuple (Values.cons (u8 1) (Values.cons (byte_slice (0xAA ∷ 0xBB ∷ [])) Values.nil)))
          (Values.cons (tuple (Values.cons (u8 2) (Values.cons (byte_slice []) Values.nil)))
            Values.nil)))
      (Values.cons (tuple (Values.cons (truth true) Values.nil))
        (Values.cons (text (codes "ok")) Values.nil)))

mixed_size : length (encode mixed_schema mixed_values) ≡ 512
unfolding encode encode_value encode_bytes encode_word word64 low_bytes count_values elem_heads
    elem_tails is_dynamic pad_to32
mixed_size = refl

decode-encode_example : decode mixed_schema (encode mixed_schema mixed_values) ≡ ok mixed_values
decode-encode_example =
    decode-encode mixed_schema mixed_values (tt, ((tt, (tt, tt)), ((tt, tt), (tt, tt))))
      (
        omega arith,
        (((omega arith, (tt, tt)), ((omega arith, (tt, tt)), tt)), ((tt, tt), (tt, tt))),
      )
      (tt, ((omega arith, (omega arith, (tt, (tt, tt)))), ((omega arith, (tt, tt)), (tt, tt))))
      (omega (arith, mixed_size))
