-- ===== src/Abi/Tests.antt =====
-- The theorems about internal/tools/ethabi at concrete payloads, and runs of the decoder.
use gno_ibc_relayer_api.Prelude.{
  ℕ, ◌+◌, ◌%◌, ◌^◌, ◌≤◌, ◌<◌, ◌≡◌, refl, [], ◌∷◌, ◌++◌, arith, length, replicate, take,
}
use gno_ibc_relayer_api.Prelude.Strings.{Bytes}
use gno_ibc_relayer_api.Prelude.{any}
use gno_ibc_relayer_api.Prelude.Int.{add_int}
use gno_ibc_relayer_api.Abi.Outcome.{ok, panic, slice}
use gno_ibc_relayer_api.Abi.Schema.{is_dynamic, static_head_size}
use gno_ibc_relayer_api.Abi.Words.{
  Values, Decoder, nil, cons, big, byte_slice, u8, fixed32, text, tuple, read_word, word_value,
  decode_word_uint64, resolve, big_endian, bytes_at, round_up32, make_bytes,
}
use gno_ibc_relayer_api.Abi.Decoder.{decode}
use gno_ibc_relayer_api.Abi.Hex.{
  from_hex, encode_hex, pad_to32, trim_0x, decode_hex, hex_digit, hex_char,
}
use gno_ibc_relayer_api.Abi.Hexed.{from_hex-encode_hex, pad_to32-extends}
use gno_ibc_relayer_api.Abi.Zkgm.{
  Ack, ZkgmPacket, TokenOrder, ack_schema, zkgm_packet_schema, token_order_v1_schema,
  token_order_v2_schema, decode_ack, decode_zkgm_packet, decode_token_order, decode_token_order_v1,
  decode_token_order_v2,
}
use gno_ibc_relayer_api.Abi.Fits.{FitsAll, IsOversized}
use gno_ibc_relayer_api.Abi.Hostile.{bytes_at-panic}
use gno_ibc_relayer_api.Abi.Sound.{decode-FitsAll, decode-panic}
use gno_ibc_relayer_api.Abi.Payloads.{IsPacket, decode_zkgm_packet-total, decode_ack-total}
use gno_ibc_relayer_api.Abi.Orders.{
  IsOrderOf, decode_token_order-version1, decode_token_order-version2,
}

-- A word that holds a number below 256.
abbrev small_word : ℕ → Bytes
small_word n = replicate 31 0 ++ n ∷ []

-- Ack{tag = 1, inner_ack = 0xAABB}
abbrev ack_bytes : Bytes
ack_bytes = small_word 1 ++ (small_word 64 ++ (small_word 2 ++ (0xAA ∷ 0xBB ∷ replicate 30 0)))

abbrev ack_values : Values
ack_values = cons (big 1) (cons (byte_slice (0xAA ∷ 0xBB ∷ [])) nil)

-- All that a run of the decoder computes with.
unfoldable pub runs : Unit {0}
unfolding decode is_dynamic static_head_size word_value slice read_word decode_word_uint64 any
    resolve add_int big_endian bytes_at round_up32 make_bytes decode_zkgm_packet decode_ack
    decode_token_order decode_token_order_v1 decode_token_order_v2 from_hex trim_0x decode_hex
    hex_digit pad_to32 encode_hex hex_char
runs = tt

decodes_ack : decode ack_schema ack_bytes ≡ ok ack_values
unfolding runs
decodes_ack = refl

decode-FitsAll_example : FitsAll ack_schema ack_values
decode-FitsAll_example =
    decode-FitsAll ack_schema ack_bytes ack_values (omega arith) (omega arith) decodes_ack

-- A length word of 2^63, where the data end.
abbrev hostile_bytes : Bytes
hostile_bytes = small_word 1 ++ (small_word 64 ++ (replicate 24 0 ++ (0x80 ∷ replicate 7 0)))

hostile_panics : decode ack_schema hostile_bytes ≡ panic
unfolding runs
hostile_panics = refl

decode-panic_example : IsOversized (record { content = hostile_bytes; max_depth = 256 })
decode-panic_example =
    decode-panic ack_schema hostile_bytes (omega arith) (omega arith) hostile_panics

abbrev hostile_decoder : Decoder
hostile_decoder = record { content = hostile_bytes; max_depth = 256 }

reads_hostile : read_word hostile_decoder 64 ≡ ok (2 ^ 63)
unfolding runs
reads_hostile = refl

bytes_at-panic_example : bytes_at hostile_decoder 64 96 ≡ panic
bytes_at-panic_example =
    bytes_at-panic hostile_decoder 64 96 (2 ^ 63) (omega arith) reads_hostile (omega arith)
      (omega arith)

from_hex-encode_hex_example :
    (from_hex (encode_hex ack_bytes) ≡ ok ack_bytes)
    × (from_hex (b'0' ∷ b'x' ∷ encode_hex ack_bytes) ≡ ok ack_bytes)
from_hex-encode_hex_example = from_hex-encode_hex ack_bytes (omega arith)

abbrev three_bytes : Bytes
three_bytes = 1 ∷ 2 ∷ 3 ∷ []

pad_to32-extends_example :
    (take (length three_bytes) (pad_to32 three_bytes) ≡ three_bytes)
    × (length (pad_to32 three_bytes) % 32 ≡ 0)
    × (length (pad_to32 three_bytes) < length three_bytes + 32)
    × (length three_bytes ≤ length (pad_to32 three_bytes))
pad_to32-extends_example = pad_to32-extends three_bytes

ack_padded : decode ack_schema (pad_to32 ack_bytes) ≡ ok ack_values
unfolding runs
ack_padded = refl

decode_ack-total_example :
    (a : Ack) × (decode_ack (encode_hex ack_bytes) ≡ ok a) × (a.tag < 2 ^ 256)
decode_ack-total_example =
    decode_ack-total (encode_hex ack_bytes) ack_bytes ack_values (omega arith)
      (from_hex-encode_hex ack_bytes (omega arith)).0 ack_padded

-- A packet with a salt of sevens, and an instruction of version 2, opcode 3 and one byte.
abbrev packet_bytes : Bytes
packet_bytes =
    replicate 32 7
    ++ (small_word 0
        ++ (small_word 96
            ++ (small_word 2
                ++ (small_word 3 ++ (small_word 96 ++ (small_word 1 ++ (0xAA ∷ replicate 31 0)))))))

abbrev packet_values : Values
packet_values = cons (fixed32 (replicate 32 7)) (
    cons (big 0) (cons (tuple (cons (u8 2) (cons (u8 3) (cons (byte_slice (0xAA ∷ [])) nil)))) nil))

packet_padded : decode zkgm_packet_schema (pad_to32 packet_bytes) ≡ ok packet_values
unfolding runs
packet_padded = refl

decode_zkgm_packet-total_example :
    (p : ZkgmPacket) × (decode_zkgm_packet (encode_hex packet_bytes) ≡ ok p) × IsPacket p
decode_zkgm_packet-total_example =
    decode_zkgm_packet-total (encode_hex packet_bytes) packet_bytes packet_values (omega arith)
      (from_hex-encode_hex packet_bytes (omega arith)).0 packet_padded

abbrev wide_word : ℕ → ℕ → Bytes
wide_word hi lo = replicate 30 0 ++ hi ∷ lo ∷ []

-- Orders with empty addresses and tokens, whose offsets all point to one length word of 0.
abbrev order_v1_bytes : Bytes
order_v1_bytes =
    wide_word 1 64
    ++ (wide_word 1 64
        ++ (wide_word 1 64
            ++ (small_word 5
                ++ (wide_word 1 64
                    ++ (wide_word 1 64
                        ++ (small_word 6
                            ++ (small_word 0
                                ++ (wide_word 1 64 ++ (small_word 7 ++ small_word 0)))))))))

abbrev order_v2_bytes : Bytes
order_v2_bytes =
    wide_word 1 0
    ++ (wide_word 1 0
        ++ (wide_word 1 0
            ++ (small_word 5
                ++ (wide_word 1 0
                    ++ (small_word 7 ++ (small_word 1 ++ (wide_word 1 0 ++ small_word 0)))))))

abbrev order_packet : ℕ → Bytes → ZkgmPacket
order_packet version operand = record {
  salt = replicate 32 7;
  path = 0;
  instruction = record { version = version; opcode = 3; operand = operand };
}

abbrev order_v1_values : Values
order_v1_values = cons (byte_slice []) (
    cons (byte_slice []) (
      cons (byte_slice []) (
        cons (big 5) (
          cons (text []) (
            cons (text [])
              (cons (u8 6) (cons (big 0) (cons (byte_slice []) (cons (big 7) nil)))))))))

abbrev order_v2_values : Values
order_v2_values = cons (byte_slice []) (
    cons (byte_slice []) (
      cons (byte_slice []) (
        cons (big 5)
          (cons (byte_slice []) (cons (big 7) (cons (u8 1) (cons (byte_slice []) nil)))))))

order_v1_decodes : decode token_order_v1_schema (pad_to32 order_v1_bytes) ≡ ok order_v1_values
unfolding runs
order_v1_decodes = refl

order_v2_decodes : decode token_order_v2_schema (pad_to32 order_v2_bytes) ≡ ok order_v2_values
unfolding runs
order_v2_decodes = refl

decode_token_order-version1_example :
    (o : TokenOrder) × (decode_token_order (order_packet 1 order_v1_bytes) ≡ ok o)
    × IsOrderOf 8 9 order_v1_values o
decode_token_order-version1_example =
    decode_token_order-version1 (order_packet 1 order_v1_bytes) order_v1_values (omega arith)
      (omega arith) refl refl order_v1_decodes

decode_token_order-version2_example :
    (o : TokenOrder) × (decode_token_order (order_packet 2 order_v2_bytes) ≡ ok o)
    × IsOrderOf 4 5 order_v2_values o
decode_token_order-version2_example =
    decode_token_order-version2 (order_packet 2 order_v2_bytes) order_v2_values (omega arith)
      (omega arith) refl refl order_v2_decodes
