-- ===== src/Abi/Zkgm.antt =====
-- internal/tools/ethabi/zkgm.go: the schemas of UCS03-ZKGM payloads and their decoding.
-- A Go pointer result is its record; a failed type assertion is `type_mismatch`.
use gno_ibc_relayer_api.Prelude.{ℕ, zero, suc, not, [], ◌==◌, if◌then◌else◌, Bool}
use gno_ibc_relayer_api.Prelude.Strings.{Bytes}
use gno_ibc_relayer_api.Abi.Outcome.{
  Outcome, ok, err, panic, ◌>>=◌, ◌>>◌, guard, field_count, type_mismatch, not_token_order,
  unknown_version,
}
use gno_ibc_relayer_api.Abi.Schema.{
  Fields, nil, cons, word, bytes, string, struct, uint8, uint256, bytes32,
}
use gno_ibc_relayer_api.Abi.Words.{Value, Values, u8, big, fixed32, byte_slice, tuple}
use gno_ibc_relayer_api.Abi.Decoder.{decode}
use gno_ibc_relayer_api.Abi.Hex.{from_hex, pad_to32}

abbrev pub opcode_token_order : ℕ
opcode_token_order = 3

abbrev pub instr_version1 : ℕ
instr_version1 = 1

abbrev pub instr_version2 : ℕ
instr_version2 = 2

abbrev pub instruction_schema : Fields
instruction_schema = cons (word uint8) (cons (word uint8) (cons bytes nil))

abbrev pub zkgm_packet_schema : Fields
zkgm_packet_schema =
    cons (word bytes32) (cons (word uint256) (cons (struct instruction_schema) nil))

abbrev pub token_order_v1_schema : Fields
token_order_v1_schema = cons bytes (
    cons bytes (
      cons bytes (
        cons (word uint256) (
          cons string (
            cons string
              (cons (word uint8) (cons (word uint256) (cons bytes (cons (word uint256) nil)))))))))

abbrev pub token_order_v2_schema : Fields
token_order_v2_schema = cons bytes (
    cons bytes (
      cons bytes (
        cons (word uint256)
          (cons bytes (cons (word uint256) (cons (word uint8) (cons bytes nil)))))))

abbrev pub ack_schema : Fields
ack_schema = cons (word uint256) (cons bytes nil)

pub record Instruction : Type 0 where
  pub version : ℕ
  pub opcode : ℕ
  pub operand : Bytes

pub record ZkgmPacket : Type 0 where
  pub salt : Bytes
  pub path : ℕ
  pub instruction : Instruction

pub record TokenOrder : Type 0 where
  pub sender : Bytes
  pub receiver : Bytes
  pub base_token : Bytes
  pub base_amount : ℕ
  pub quote_token : Bytes
  pub quote_amount : ℕ

pub record Ack : Type 0 where
  pub tag : ℕ
  pub inner_ack : Bytes

-- `(*Ack).Success`; a decoded tag is never nil.
unfoldable pub success : Ack → Bool
success a = not (a.tag == 0)

unfoldable pub count : Values → ℕ
count Values.nil = 0
count (Values.cons v vs) = suc (count vs)

-- `vals[i]`
unfoldable pub value_index : Values → ℕ → Outcome Value
value_index Values.nil i = panic
value_index (Values.cons v vs) zero = ok v
value_index (Values.cons v vs) (suc i) = value_index vs i

-- The type assertions `v.(uint8)`, `v.([]byte)`, `v.(*big.Int)`, `v.([32]byte)` and `v.([]any)`.
abbrev pub assert_u8 : Value → Outcome ℕ
assert_u8 (u8 n) = ok n
assert_u8 _ = err type_mismatch

abbrev pub assert_bytes : Value → Outcome Bytes
assert_bytes (byte_slice b) = ok b
assert_bytes _ = err type_mismatch

abbrev pub assert_big : Value → Outcome ℕ
assert_big (big n) = ok n
assert_big _ = err type_mismatch

abbrev pub assert_fixed32 : Value → Outcome Bytes
assert_fixed32 (fixed32 b) = ok b
assert_fixed32 _ = err type_mismatch

abbrev pub assert_tuple : Value → Outcome Values
assert_tuple (tuple vs) = ok vs
assert_tuple _ = err type_mismatch

-- A value of another type gives the zero value.
abbrev pub as_bytes : Value → Bytes
as_bytes (byte_slice b) = b
as_bytes _ = []

abbrev pub as_big_int : Value → ℕ
as_big_int (big n) = n
as_big_int _ = 0

unfoldable pub parse_instruction : Values → Outcome Instruction
unfolding count value_index
parse_instruction vals = do
  guard (count vals == 3) field_count
  v0 ← value_index vals 0
  version ← assert_u8 v0
  v1 ← value_index vals 1
  opcode ← assert_u8 v1
  v2 ← value_index vals 2
  operand ← assert_bytes v2
  ok (record { version = version; opcode = opcode; operand = operand })

-- `DecodeZkgmPacket` after `Decode`.
unfoldable pub parse_packet : Values → Outcome ZkgmPacket
unfolding parse_instruction
parse_packet vals = do
  guard (count vals == 3) field_count
  v0 ← value_index vals 0
  salt ← assert_fixed32 v0
  v1 ← value_index vals 1
  path ← assert_big v1
  v2 ← value_index vals 2
  instr_vals ← assert_tuple v2
  instr ← parse_instruction instr_vals
  ok (record { salt = salt; path = path; instruction = instr })

unfoldable pub decode_zkgm_packet : Bytes → Outcome ZkgmPacket
unfolding parse_packet
decode_zkgm_packet hex_data = do
  bz ← from_hex hex_data
  vals ← decode zkgm_packet_schema (pad_to32 bz)
  parse_packet vals

-- `DecodeAck` after `Decode`.
unfoldable pub parse_ack : Values → Outcome Ack
unfolding count value_index
parse_ack vals = do
  guard (count vals == 2) field_count
  v0 ← value_index vals 0
  tag ← assert_big v0
  v1 ← value_index vals 1
  inner ← assert_bytes v1
  ok (record { tag = tag; inner_ack = inner })

unfoldable pub decode_ack : Bytes → Outcome Ack
unfolding parse_ack
decode_ack hex_data = do
  bz ← from_hex hex_data
  vals ← decode ack_schema (pad_to32 bz)
  parse_ack vals

-- The composite literals of `decodeTokenOrderV1` and `decodeTokenOrderV2`, by the two indices in
-- which they differ.
unfoldable pub order_of : ℕ → ℕ → Values → Outcome TokenOrder
unfolding value_index
order_of quote_index amount_index vals = do
  v0 ← value_index vals 0
  v1 ← value_index vals 1
  v2 ← value_index vals 2
  v3 ← value_index vals 3
  q ← value_index vals quote_index
  a ← value_index vals amount_index
  ok (record {
    sender = as_bytes v0;
    receiver = as_bytes v1;
    base_token = as_bytes v2;
    base_amount = as_big_int v3;
    quote_token = as_bytes q;
    quote_amount = as_big_int a;
  })

unfoldable pub decode_token_order_v1 : Bytes → Outcome TokenOrder
unfolding order_of
decode_token_order_v1 operand = do vals ← decode token_order_v1_schema operand; order_of 8 9 vals

unfoldable pub decode_token_order_v2 : Bytes → Outcome TokenOrder
unfolding order_of
decode_token_order_v2 operand = do vals ← decode token_order_v2_schema operand; order_of 4 5 vals

unfoldable pub decode_token_order : ZkgmPacket → Outcome TokenOrder
decode_token_order p =
    let operand = pad_to32 p.instruction.operand in
    if not (p.instruction.opcode == opcode_token_order)
    then err not_token_order
    else if p.instruction.version == instr_version1
    then decode_token_order_v1 operand
    else if p.instruction.version == instr_version2
    then decode_token_order_v2 operand
    else err unknown_version
