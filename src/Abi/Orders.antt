-- ===== src/Abi/Orders.antt =====
-- internal/tools/ethabi/zkgm.go: token orders. The composite literals read each field at its index
-- and with its type.
use mathlib.Core.Path.{subst}
use mathlib.Core.Option.{some-injective}
use gno_ibc_relayer_api.Prelude.{ℕ, zero, suc, ◌^◌, ◌<◌, ◌≡◌, refl, Option, none, some, length}
use gno_ibc_relayer_api.Prelude.Strings.{Bytes}
use gno_ibc_relayer_api.Abi.Outcome.{ok}
use gno_ibc_relayer_api.Abi.Schema.{Field, Fields, word, bytes, uint256}
use gno_ibc_relayer_api.Abi.Words.{Value, Values, big, byte_slice, nil, cons}
use gno_ibc_relayer_api.Abi.Decoder.{decode}
use gno_ibc_relayer_api.Abi.Hex.{pad_to32}
use gno_ibc_relayer_api.Abi.Hexed.{pad_to32-AreBytes}
use gno_ibc_relayer_api.Abi.Fits.{AreBytes, Fits, FitsAll}
use gno_ibc_relayer_api.Abi.Sound.{decode-FitsAll}
use gno_ibc_relayer_api.Abi.Payloads.{Fits-big, Fits-bytes, pad_to32-lt}
use gno_ibc_relayer_api.Abi.Zkgm.{
  ZkgmPacket, TokenOrder, token_order_v1_schema, token_order_v2_schema, value_index, order_of,
  decode_token_order, decode_token_order_v1, decode_token_order_v2,
}

field_index : Fields → ℕ → Option Field
field_index Fields.nil i = none
field_index (Fields.cons f fs) zero = some f
field_index (Fields.cons f fs) (suc i) = field_index fs i

value_index-Fits :
    (fs : Fields) (vs : Values) (i : ℕ) (f : Field)
    → FitsAll fs vs
    → field_index fs i ≡ some f
    → (v : Value) × (value_index vs i ≡ ok v) × Fits f v
unfolding field_index value_index
value_index-Fits Fields.nil vs i f h e = cc
value_index-Fits (Fields.cons g fs) nil i f h e = absurd h
value_index-Fits (Fields.cons g fs) (cons v vs) zero f h e =
    (v, refl, subst (λ f. Fits f v) (some-injective _ _ e) h.0)
value_index-Fits (Fields.cons g fs) (cons v vs) (suc i) f h e = value_index-Fits fs vs i f h.1 e

-- The fields of an order are the decoded values, the quote at the two given indices.
pub record IsOrderOf (q a : ℕ) (vs : Values) (o : TokenOrder) : Type 0 where
  pub sender : value_index vs 0 ≡ ok (byte_slice o.sender)
  pub receiver : value_index vs 1 ≡ ok (byte_slice o.receiver)
  pub base_token : value_index vs 2 ≡ ok (byte_slice o.base_token)
  pub base_amount : value_index vs 3 ≡ ok (big o.base_amount)
  pub quote_token : value_index vs q ≡ ok (byte_slice o.quote_token)
  pub quote_amount : value_index vs a ≡ ok (big o.quote_amount)
  pub base_range : o.base_amount < 2 ^ 256
  pub quote_range : o.quote_amount < 2 ^ 256

module _ (fs : Fields) (vs : Values) (h : FitsAll fs vs) where
  bytes_index :
      (i : ℕ) → field_index fs i ≡ some bytes → (b : Bytes) × (value_index vs i ≡ ok (byte_slice b))
  bytes_index i e =
      let (v, at, fits) = value_index-Fits fs vs i bytes h e in
      let (b, eb) = Fits-bytes v fits in (b, rw eb at at)

  amount_index :
      (i : ℕ)
      → field_index fs i ≡ some (word uint256)
      → (n : ℕ) × (value_index vs i ≡ ok (big n)) × (n < 2 ^ 256)
  amount_index i e =
      let (v, at, fits) = value_index-Fits fs vs i (word uint256) h e in
      let (n, en, ln) = Fits-big v fits in (n, rw en at at, ln)

  order_of-total :
      (q a : ℕ)
      → field_index fs 0 ≡ some bytes
      → field_index fs 1 ≡ some bytes
      → field_index fs 2 ≡ some bytes
      → field_index fs 3 ≡ some (word uint256)
      → field_index fs q ≡ some bytes
      → field_index fs a ≡ some (word uint256)
      → (o : TokenOrder) × (order_of q a vs ≡ ok o) × IsOrderOf q a vs o
  order_of-total q a e0 e1 e2 e3 eq ea =
      let (b0, f0) = bytes_index 0 e0 in
      let (b1, f1) = bytes_index 1 e1 in
      let (b2, f2) = bytes_index 2 e2 in
      let (n3, f3, l3) = amount_index 3 e3 in
      let (bq, fq) = bytes_index q eq in
      let (na, fa, la) = amount_index a ea in
      (
        record {
          sender = b0;
          receiver = b1;
          base_token = b2;
          base_amount = n3;
          quote_token = bq;
          quote_amount = na;
        },
        unfold order_of in rw (f0, f1, f2, f3, fq, fa) refl,
        record {
          sender = f0;
          receiver = f1;
          base_token = f2;
          base_amount = f3;
          quote_token = fq;
          quote_amount = fa;
          base_range = l3;
          quote_range = la;
        },
      )

decode_operand-FitsAll :
    (schema : Fields) (operand : Bytes) (vs : Values)
    → AreBytes operand
    → length operand < 2 ^ 61
    → decode schema (pad_to32 operand) ≡ ok vs
    → FitsAll schema vs
decode_operand-FitsAll schema operand vs b m d =
    decode-FitsAll schema (pad_to32 operand) vs (pad_to32-AreBytes operand b)
      (pad_to32-lt operand m) d

-- If `Decode` succeeds with the schema of version 1 on the padded operand of a token order of
-- version 1, of bytes and below 2^61 of them, then `DecodeTokenOrder` succeeds, and each field of the
-- order is the decoded value of its type at its index, the quote at 8 and 9: no index panics and no
-- assertion falls back to a zero value. Amounts are below 2^256.
pub decode_token_order-version1 :
    (p : ZkgmPacket) (vs : Values)
    → AreBytes p.instruction.operand
    → length p.instruction.operand < 2 ^ 61
    → p.instruction.opcode ≡ 3
    → p.instruction.version ≡ 1
    → decode token_order_v1_schema (pad_to32 p.instruction.operand) ≡ ok vs
    → (o : TokenOrder) × (decode_token_order p ≡ ok o) × IsOrderOf 8 9 vs o
unfolding field_index
decode_token_order-version1 p vs b m code v d =
    let fits = decode_operand-FitsAll token_order_v1_schema p.instruction.operand vs b m d in
    let (o, made, is_order) =
      order_of-total token_order_v1_schema vs fits 8 9 refl refl refl refl refl refl in
    (o, unfold decode_token_order decode_token_order_v1 in rw (code, v, d) made, is_order)

-- If `Decode` succeeds with the schema of version 2 on the padded operand of a token order of
-- version 2, of bytes and below 2^61 of them, then `DecodeTokenOrder` succeeds, and each field of the
-- order is the decoded value of its type at its index, the quote at 4 and 5: no index panics and no
-- assertion falls back to a zero value. Amounts are below 2^256.
pub decode_token_order-version2 :
    (p : ZkgmPacket) (vs : Values)
    → AreBytes p.instruction.operand
    → length p.instruction.operand < 2 ^ 61
    → p.instruction.opcode ≡ 3
    → p.instruction.version ≡ 2
    → decode token_order_v2_schema (pad_to32 p.instruction.operand) ≡ ok vs
    → (o : TokenOrder) × (decode_token_order p ≡ ok o) × IsOrderOf 4 5 vs o
unfolding field_index
decode_token_order-version2 p vs b m code v d =
    let fits = decode_operand-FitsAll token_order_v2_schema p.instruction.operand vs b m d in
    let (o, made, is_order) =
      order_of-total token_order_v2_schema vs fits 4 5 refl refl refl refl refl refl in
    (o, unfold decode_token_order decode_token_order_v2 in rw (code, v, d) made, is_order)
