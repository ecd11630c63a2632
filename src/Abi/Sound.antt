-- ===== src/Abi/Sound.antt =====
-- The decoder is sound for every schema: what it returns has the types and ranges of the schema's
-- fields, and it stays within the data.
use gno_ibc_relayer_api.Prelude.{
  ℕ, ◌+◌, ◌%◌, ◌^◌, ◌≤◌, ◌<◌, ◌≡◌, arith, leb, ◌==◌, length, Bool-cases, inl, inr,
}
use gno_ibc_relayer_api.Prelude.Strings.{Bytes}
use gno_ibc_relayer_api.Abi.Outcome.{
  Outcome, ok, panic, invalid_data, invalid_schema, unsupported_type,
}
use gno_ibc_relayer_api.Abi.Schema.{
  Field, Fields, word, bytes, string, struct, struct_nil, array, array_nil, unknown, is_dynamic,
  static_head_size, word_size, max_decode_depth,
}
use gno_ibc_relayer_api.Abi.Words.{Values, Decoder, read_word, resolve, bytes_at}
use gno_ibc_relayer_api.Abi.Decoder.{
  enter_tuple, array_at, static_value, value_at, tuple_loop, decode,
}
use gno_ibc_relayer_api.Abi.Fits.{
  AreBytes, Fits, FitsAll, AllValues, IsOversized, Ends, Ends-bind, Ends-guard,
}
use gno_ibc_relayer_api.Abi.Reads.{read_word-Ends, bytes_at-Ends}
use gno_ibc_relayer_api.Abi.Ends.{
  Total, IsInput, resolve-Ends, static_head_size-Ends, enter_tuple-Ends, array_at-Ends, word-Ends,
  refused-Ends,
}

mutual
  unfolding static_value

  static_value-Ends :
      (f : Field) (d : Decoder) (pos end depth : ℕ)
      → IsInput d
      → end ≤ length d.content
      → Ends d (λ v. Fits f v) (static_value f d pos end depth)
  static_value-Ends (word t) d pos end depth i h = word-Ends d i end h t pos
  static_value-Ends (struct fs) d pos end depth i h =
      Ends-guard d (λ v. Fits (struct fs) v) (leb (pos + word_size) end) invalid_data _
        λ _.
          Ends-bind d (λ vs. FitsAll fs vs) (λ v. Fits (struct fs) v)
            (enter_tuple d pos end depth (λ k. tuple_loop fs d pos end pos k)) _
            (enter_tuple-Ends d i end h (λ vs. FitsAll fs vs) pos depth _
              (λ k. tuple_loop-Ends fs d pos end pos k i h))
            (λ vs _ k. k)
  static_value-Ends struct_nil d pos end depth i h =
      refused-Ends d i end h (λ v. Fits struct_nil v) pos invalid_schema
  static_value-Ends bytes d pos end depth i h =
      refused-Ends d i end h (λ v. Fits bytes v) pos unsupported_type
  static_value-Ends string d pos end depth i h =
      refused-Ends d i end h (λ v. Fits string v) pos unsupported_type
  static_value-Ends (array e) d pos end depth i h =
      refused-Ends d i end h (λ v. Fits (array e) v) pos unsupported_type
  static_value-Ends array_nil d pos end depth i h =
      refused-Ends d i end h (λ v. Fits array_nil v) pos unsupported_type
  static_value-Ends unknown d pos end depth i h =
      refused-Ends d i end h (λ v. Fits unknown v) pos unsupported_type

  value_at-Ends :
      (f : Field) (d : Decoder) (pos end depth : ℕ)
      → IsInput d
      → end ≤ length d.content
      → Ends d (λ v. Fits f v) (value_at f d pos end depth)
  value_at-Ends (word t) d pos end depth i h = word-Ends d i end h t pos
  value_at-Ends bytes d pos end depth i h =
      Ends-bind d Total (λ v. Fits bytes v) (bytes_at d pos end) _
        (bytes_at-Ends d pos end i.are_bytes h i.addressable) (λ b _ _. tt)
  value_at-Ends string d pos end depth i h =
      Ends-bind d Total (λ v. Fits string v) (bytes_at d pos end) _
        (bytes_at-Ends d pos end i.are_bytes h i.addressable) (λ b _ _. tt)
  value_at-Ends (struct fs) d pos end depth i h =
      Ends-bind d (λ vs. FitsAll fs vs) (λ v. Fits (struct fs) v)
        (enter_tuple d pos end depth (λ k. tuple_loop fs d pos end pos k)) _
        (enter_tuple-Ends d i end h (λ vs. FitsAll fs vs) pos depth _
          (λ k. tuple_loop-Ends fs d pos end pos k i h))
        (λ vs _ k. k)
  value_at-Ends struct_nil d pos end depth i h = tt
  value_at-Ends (array e) d pos end depth i h =
      Ends-bind d (AllValues (λ v. Fits e v)) (λ v. Fits (array e) v)
        (array_at e d pos end depth (λ p k. value_at e d p end k) (λ p k. static_value e d p end k))
        _
        (array_at-Ends d i end h e pos depth _ _ (λ p k. value_at-Ends e d p end k i h)
          (λ p k. static_value-Ends e d p end k i h))
        (λ vs _ k. k)
  value_at-Ends array_nil d pos end depth i h = tt
  value_at-Ends unknown d pos end depth i h =
      refused-Ends d i end h (λ v. Fits unknown v) pos unsupported_type

  tuple_loop-Ends :
      (fs : Fields) (d : Decoder) (start end cursor depth : ℕ)
      → IsInput d
      → end ≤ length d.content
      → Ends d (λ vs. FitsAll fs vs) (tuple_loop fs d start end cursor depth)
  tuple_loop-Ends Fields.nil d start end cursor depth i h = tt
  tuple_loop-Ends (Fields.cons f fs) d start end cursor depth i h =
      elim (Bool-cases (is_dynamic f)) [
        | inl dyn ↦
            rw (dyn, tuple_loop)
              (Ends-guard d (λ vs. FitsAll (Fields.cons f fs) vs) (leb (cursor + word_size) end)
                invalid_data _
                λ g.
                  Ends-bind d (λ v. Fits f v) (λ vs. FitsAll (Fields.cons f fs) vs) _ _
                    (Ends-bind d (λ v. v < 2 ^ 64) (λ v. Fits f v) (read_word d cursor) _
                      (read_word-Ends d i.are_bytes cursor (ground arith))
                      λ offset _ _.
                        Ends-bind d Total (λ v. Fits f v) (resolve start end offset) _
                          (resolve-Ends d start end offset)
                          (λ p _ _. value_at-Ends f d p end depth i h))
                    λ v _ k.
                      Ends-bind d (λ vs. FitsAll fs vs) (λ vs. FitsAll (Fields.cons f fs) vs) _ _
                        (tuple_loop-Ends fs d start end (cursor + word_size) depth i h)
                        (λ vs _ ks. (k, ks)))
        | inr static_f ↦
            rw (static_f, tuple_loop)
              (Ends-bind d Total (λ vs. FitsAll (Fields.cons f fs) vs) (static_head_size f) _
                (static_head_size-Ends f d)
                λ size _ _.
                  Ends-guard d (λ vs. FitsAll (Fields.cons f fs) vs) (leb (cursor + size) end)
                    invalid_data _
                    λ _.
                      Ends-bind d (λ v. Fits f v) (λ vs. FitsAll (Fields.cons f fs) vs)
                        (static_value f d cursor end depth) _
                        (static_value-Ends f d cursor end depth i h)
                        λ v _ k.
                          Ends-bind d (λ vs. FitsAll fs vs) (λ vs. FitsAll (Fields.cons f fs) vs) _
                            _ (tuple_loop-Ends fs d start end (cursor + size) depth i h)
                            (λ vs _ ks. (k, ks)))
      ]

decode-Ends :
    (schema : Fields) (bz : Bytes)
    → AreBytes bz
    → length bz < 2 ^ 62
    → Ends
        (record { content = bz; max_depth = max_decode_depth })
        (λ vs. FitsAll schema vs)
        (decode schema bz)
unfolding decode
decode-Ends schema bz b m = elim (Bool-cases (length bz % word_size == 0)) [
  | inl aligned ↦
      let d : Decoder = record { content = bz; max_depth = max_decode_depth } in
      let i : IsInput d = record { are_bytes = b; addressable = m } in
      rw (aligned, decode)
        (enter_tuple-Ends d i (length bz) (omega arith) (λ vs. FitsAll schema vs) 0 0 _
          (λ k. tuple_loop-Ends schema d 0 (length bz) 0 k i (omega arith)))
  | inr ragged ↦ rw (ragged, decode) tt
]

Ends-eq_ok :
    {A : Type 0} (d : Decoder) (P : A → Type 0) (o : Outcome A) {a : A}
    → Ends d P o
    → o ≡ ok a
    → P a
Ends-eq_ok d P o h e = rw e at h

Ends-eq_panic :
    {A : Type 0} (d : Decoder) (P : A → Type 0) (o : Outcome A)
    → Ends d P o
    → o ≡ panic
    → IsOversized d
Ends-eq_panic d P o h e = rw e at h

-- For every schema, and for data that are bytes of a length below 2^62: if `Decode` succeeds, the
-- values have the Go types of the schema's fields, in order, and the ranges of those types.
pub decode-FitsAll :
    (schema : Fields) (bz : Bytes) (vs : Values)
    → AreBytes bz
    → length bz < 2 ^ 62
    → decode schema bz ≡ ok vs
    → FitsAll schema vs
decode-FitsAll schema bz vs b m e =
    Ends-eq_ok _ (λ vs. FitsAll schema vs) (decode schema bz) (decode-Ends schema bz b m) e

-- For every schema, and for data that are bytes of a length below 2^62: `Decode` panics only if
-- some 32-byte word of the data reads as a number above 2^48.
pub decode-panic :
    (schema : Fields) (bz : Bytes)
    → AreBytes bz
    → length bz < 2 ^ 62
    → decode schema bz ≡ panic
    → IsOversized (record { content = bz; max_depth = max_decode_depth })
decode-panic schema bz b m e =
    Ends-eq_panic _ (λ vs. FitsAll schema vs) (decode schema bz) (decode-Ends schema bz b m) e
