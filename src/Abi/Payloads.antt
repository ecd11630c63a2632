-- ===== src/Abi/Payloads.antt =====
-- internal/tools/ethabi/zkgm.go: after a successful `Decode`, no type assertion, field count or index
-- of the payload parsers can fail.
use gno_ibc_relayer_api.Prelude.{ℕ, ◌^◌, ◌<◌, ◌≡◌, refl, arith, length}
use gno_ibc_relayer_api.Prelude.Strings.{Bytes}
use gno_ibc_relayer_api.Abi.Outcome.{ok}
use gno_ibc_relayer_api.Abi.Schema.{Field, Fields, word, bytes, struct, uint8, uint256, bytes32}
use gno_ibc_relayer_api.Abi.Words.{Value, Values, u8, big, fixed32, byte_slice, tuple, nil, cons}
use gno_ibc_relayer_api.Abi.Decoder.{decode}
use gno_ibc_relayer_api.Abi.Hex.{from_hex, pad_to32}
use gno_ibc_relayer_api.Abi.Hexed.{from_hex-AreBytes, pad_to32-AreBytes, length-pad_to32}
use gno_ibc_relayer_api.Abi.Fits.{Fits, FitsAll}
use gno_ibc_relayer_api.Abi.Sound.{decode-FitsAll}
use gno_ibc_relayer_api.Abi.Zkgm.{
  ZkgmPacket, Instruction, Ack, instruction_schema, zkgm_packet_schema, ack_schema,
  parse_instruction, parse_packet, parse_ack, decode_zkgm_packet, decode_ack,
}

Fits-cons :
    (f : Field) (fs : Fields) (vs : Values)
    → FitsAll (Fields.cons f fs) vs
    → (v : Value) × (ws : Values) × (vs ≡ cons v ws) × Fits f v × FitsAll fs ws
Fits-cons f fs nil h = absurd h
Fits-cons f fs (cons v ws) h = (v, ws, refl, h.0, h.1)

fits_nil : (vs : Values) → FitsAll Fields.nil vs → vs ≡ nil
fits_nil nil h = refl
fits_nil (cons v vs) h = absurd h

fits2 :
    (f g : Field) (vs : Values)
    → FitsAll (Fields.cons f (Fields.cons g Fields.nil)) vs
    → (v w : Value) × (vs ≡ cons v (cons w nil)) × Fits f v × Fits g w
fits2 f g vs h =
    let (v, vs1, e, hv, h1) = Fits-cons f (Fields.cons g Fields.nil) vs h in
    let (w, vs2, e1, hw, h2) = Fits-cons g Fields.nil vs1 h1 in
    (v, w, rw (e, e1, fits_nil vs2 h2), hv, hw)

fits3 :
    (f g k : Field) (vs : Values)
    → FitsAll (Fields.cons f (Fields.cons g (Fields.cons k Fields.nil))) vs
    → (v w x : Value) × (vs ≡ cons v (cons w (cons x nil))) × Fits f v × Fits g w × Fits k x
fits3 f g k vs h =
    let (v, vs1, e, hv, h1) = Fits-cons f (Fields.cons g (Fields.cons k Fields.nil)) vs h in
    let (w, x, e1, hw, hx) = fits2 g k vs1 h1 in (v, w, x, rw (e, e1), hv, hw, hx)

Fits-u8 : (v : Value) → Fits (word uint8) v → (n : ℕ) × (v ≡ u8 n) × (n < 256)
Fits-u8 (u8 n) h = (n, refl, h)
Fits-u8 _ h = absurd h

pub Fits-big : (v : Value) → Fits (word uint256) v → (n : ℕ) × (v ≡ big n) × (n < 2 ^ 256)
Fits-big (big n) h = (n, refl, h)
Fits-big (u8 _) h = absurd h
Fits-big _ h = absurd h

Fits-fixed32 : (v : Value) → Fits (word bytes32) v → (b : Bytes) × (v ≡ fixed32 b) × (length b ≡ 32)
Fits-fixed32 (fixed32 b) h = (b, refl, h)
Fits-fixed32 _ h = absurd h

pub Fits-bytes : (v : Value) → Fits bytes v → (b : Bytes) × (v ≡ byte_slice b)
Fits-bytes (byte_slice b) h = (b, refl)
Fits-bytes _ h = absurd h

Fits-struct :
    (fs : Fields) (v : Value) → Fits (struct fs) v → (vs : Values) × (v ≡ tuple vs) × FitsAll fs vs
Fits-struct fs (tuple vs) h = (vs, refl, h)
Fits-struct fs _ h = absurd h

-- The ranges of the fields of an instruction.
pub record IsInstruction (i : Instruction) : Type 0 where
  pub version_range : i.version < 256
  pub opcode_range : i.opcode < 256

parse_instruction-total :
    (vs : Values)
    → FitsAll instruction_schema vs
    → (i : Instruction) × (parse_instruction vs ≡ ok i) × IsInstruction i
unfolding parse_instruction
parse_instruction-total vs h =
    let (v, w, x, e, hv, hw, hx) = fits3 (word uint8) (word uint8) bytes vs h in
    let (n, en, ln) = Fits-u8 v hv in
    let (m, em, lm) = Fits-u8 w hw in
    let (b, eb) = Fits-bytes x hx in
    (
      record { version = n; opcode = m; operand = b },
      rw (e, parse_instruction, en, em, eb) refl,
      record { version_range = ln; opcode_range = lm },
    )

-- The shape of a packet.
pub record IsPacket (p : ZkgmPacket) : Type 0 where
  pub salt_length : length p.salt ≡ 32
  pub path_range : p.path < 2 ^ 256
  pub in_range : IsInstruction p.instruction

parse_packet-total :
    (vs : Values)
    → FitsAll zkgm_packet_schema vs
    → (p : ZkgmPacket) × (parse_packet vs ≡ ok p) × IsPacket p
unfolding parse_packet
parse_packet-total vs h =
    let (v, w, x, e, hv, hw, hx) =
      fits3 (word bytes32) (word uint256) (struct instruction_schema) vs h in
    let (s, es, ls) = Fits-fixed32 v hv in
    let (n, en, ln) = Fits-big w hw in
    let (is, ei, hi) = Fits-struct instruction_schema x hx in
    let (i, ok_i, in_range) = parse_instruction-total is hi in
    (
      record { salt = s; path = n; instruction = i },
      rw (e, parse_packet, es, en, ei, ok_i) refl,
      record { salt_length = ls; path_range = ln; in_range = in_range },
    )

parse_ack-total :
    (vs : Values) → FitsAll ack_schema vs → (a : Ack) × (parse_ack vs ≡ ok a) × (a.tag < 2 ^ 256)
unfolding parse_ack
parse_ack-total vs h =
    let (v, w, e, hv, hw) = fits2 (word uint256) bytes vs h in
    let (n, en, ln) = Fits-big v hv in
    let (b, eb) = Fits-bytes w hw in
    (record { tag = n; inner_ack = b }, rw (e, parse_ack, en, eb) refl, ln)

pub pad_to32-lt : (bz : Bytes) → length bz < 2 ^ 61 → length (pad_to32 bz) < 2 ^ 62
pad_to32-lt bz m = omega (arith, (length-pad_to32 bz).1)

fits_decoded :
    (schema : Fields) (s bz : Bytes) (vs : Values)
    → length bz < 2 ^ 61
    → from_hex s ≡ ok bz
    → decode schema (pad_to32 bz) ≡ ok vs
    → FitsAll schema vs
fits_decoded schema s bz vs m e d =
    decode-FitsAll schema (pad_to32 bz) vs (pad_to32-AreBytes bz (from_hex-AreBytes s bz e))
      (pad_to32-lt bz m) d

-- If the text is hexadecimal for data below 2^61 bytes, and `Decode` succeeds on the padded data, then
-- `DecodeZkgmPacket` succeeds too, with a salt of 32 bytes, a path below 2^256, and a version and an
-- opcode below 256: no count or type assertion after `Decode` fails.
pub decode_zkgm_packet-total :
    (s bz : Bytes) (vs : Values)
    → length bz < 2 ^ 61
    → from_hex s ≡ ok bz
    → decode zkgm_packet_schema (pad_to32 bz) ≡ ok vs
    → (p : ZkgmPacket) × (decode_zkgm_packet s ≡ ok p) × IsPacket p
unfolding decode_zkgm_packet
decode_zkgm_packet-total s bz vs m e d =
    let (p, parsed, is_packet) =
      parse_packet-total vs (fits_decoded zkgm_packet_schema s bz vs m e d) in
    (p, rw (decode_zkgm_packet, e, d) parsed, is_packet)

-- If the text is hexadecimal for data below 2^61 bytes, and `Decode` succeeds on the padded data with
-- the schema of an acknowledgement, then `DecodeAck` succeeds too, with a tag below 2^256: neither
-- its count nor its type assertions fail.
pub decode_ack-total :
    (s bz : Bytes) (vs : Values)
    → length bz < 2 ^ 61
    → from_hex s ≡ ok bz
    → decode ack_schema (pad_to32 bz) ≡ ok vs
    → (a : Ack) × (decode_ack s ≡ ok a) × (a.tag < 2 ^ 256)
unfolding decode_ack
decode_ack-total s bz vs m e d =
    let (a, parsed, in_range) = parse_ack-total vs (fits_decoded ack_schema s bz vs m e d) in
    (a, rw (decode_ack, e, d) parsed, in_range)
