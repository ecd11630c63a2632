-- ===== src/Abi/Decoder.antt =====
-- internal/tools/ethabi/decode.go: `Decode` and the methods of `decoder`.
-- A schema is a finite tree here, so the recursion ends by its structure; the depth limit is kept.
-- Sums of positions and sizes are natural numbers: positions stay within the data and sizes within
-- the schema. Conversions of the words that are read from the data wrap as `int(…)` does.
use gno_ibc_relayer_api.Prelude.{
  ℕ, zero, suc, ◌+◌, ◌-◌, ◌*◌, ◌/◌, ◌%◌, true, false, ◌&&◌, leb, ◌==◌, if◌then◌else◌, length,
}
use gno_ibc_relayer_api.Prelude.Strings.{Bytes}
use gno_ibc_relayer_api.Abi.Outcome.{
  Outcome, ok, err, ◌>>=◌, ◌>>◌, guard, invalid_data, invalid_schema, unsupported_type, depth_limit,
}
use gno_ibc_relayer_api.Abi.Schema.{
  Field, Fields, word, bytes, string, struct, struct_nil, array, array_nil, unknown, is_dynamic,
  static_head_size, word_size, max_decode_depth,
}
use gno_ibc_relayer_api.Abi.Words.{
  Value, Values, byte_slice, text, tuple, nil, cons, Decoder, read_word, word_value, resolve,
  bytes_at,
}

-- The head of `tupleAt`: depth and range checks, then the loop at the new depth.
unfoldable pub enter_tuple : Decoder → ℕ → ℕ → ℕ → (ℕ → Outcome Values) → Outcome Values
enter_tuple d start end depth fields_at = do
  guard (leb (depth + 1) d.max_depth) depth_limit
  guard (leb start end && leb end (length d.content)) invalid_data
  fields_at (depth + 1)

-- The loops of `arrayAt`, from index `i`, with `n` rounds left.
unfoldable pub array_loop : ℕ → ℕ → (ℕ → Outcome Value) → Outcome Values
array_loop zero i elem_at = ok nil
array_loop (suc n) i elem_at = do v ← elem_at i; vs ← array_loop n (i + 1) elem_at; ok (cons v vs)

-- The two branches of `arrayAt`. `value` and `static` decode the element at a position.
unfoldable pub array_elems :
    Field → Decoder → ℕ → ℕ → ℕ → (ℕ → Outcome Value) → (ℕ → Outcome Value) → Outcome Values
unfolding array_loop
array_elems elem d head_start end n value static = elim (is_dynamic elem) [
  | true ↦ do
    guard (leb (head_start + n * word_size) end) invalid_data
    array_loop n 0 λ i. do
      offset ← read_word d (head_start + i * word_size)
      pos ← resolve head_start end offset
      value pos
  | false ↦ do
    size ← static_head_size elem
    guard (leb (head_start + n * size) end) invalid_data
    array_loop n 0 (λ i. static (head_start + i * size))
]

-- `make([]any, n)` panics only above 2^44 elements, for data above 2^49 bytes; that is not written out.
unfoldable pub array_at :
    Field → Decoder → ℕ → ℕ → ℕ → (ℕ → ℕ → Outcome Value) → (ℕ → ℕ → Outcome Value) → Outcome Values
unfolding array_elems
array_at elem d pos end depth value static = do
  guard (leb (depth + 1) d.max_depth) depth_limit
  guard (leb (pos + word_size) end) invalid_data
  n ← read_word d pos
  guard (leb n ((end - pos) / word_size)) invalid_data
  array_elems elem d (pos + word_size) end n (λ p. value p (depth + 1)) (λ p. static p (depth + 1))

unfoldable mutual
  unfolding enter_tuple array_at

  pub static_value : Field → Decoder → ℕ → ℕ → ℕ → Outcome Value
  static_value (word t) d pos end depth = do
    guard (leb (pos + word_size) end) invalid_data
    word_value t d pos
  static_value (struct fs) d pos end depth = do
    guard (leb (pos + word_size) end) invalid_data
    vs ← enter_tuple d pos end depth (λ k. tuple_loop fs d pos end pos k)
    ok (tuple vs)
  static_value struct_nil d pos end depth = do
    guard (leb (pos + word_size) end) invalid_data
    err invalid_schema
  static_value _ d pos end depth = do
    guard (leb (pos + word_size) end) invalid_data
    err unsupported_type

  pub value_at : Field → Decoder → ℕ → ℕ → ℕ → Outcome Value
  value_at bytes d pos end depth = do bz ← bytes_at d pos end; ok (byte_slice bz)
  value_at string d pos end depth = do bz ← bytes_at d pos end; ok (text bz)
  value_at struct_nil d pos end depth = err invalid_schema
  value_at (struct fs) d pos end depth = do
    vs ← enter_tuple d pos end depth (λ k. tuple_loop fs d pos end pos k)
    ok (tuple vs)
  value_at array_nil d pos end depth = err invalid_schema
  value_at (array elem) d pos end depth = do
    vs ←
        array_at elem d pos end depth (λ p k. value_at elem d p end k)
          (λ p k. static_value elem d p end k)
    ok (tuple vs)
  value_at (word t) d pos end depth = do
    guard (leb (pos + word_size) end) invalid_data
    word_value t d pos
  value_at unknown d pos end depth = do
    guard (leb (pos + word_size) end) invalid_data
    err unsupported_type

  -- The loop of `tupleAt` over the fields.
  pub tuple_loop : Fields → Decoder → ℕ → ℕ → ℕ → ℕ → Outcome Values
  tuple_loop Fields.nil d start end cursor depth = ok nil
  tuple_loop (Fields.cons f fs) d start end cursor depth = do
    size ← if is_dynamic f then ok word_size else static_head_size f
    guard (leb (cursor + size) end) invalid_data
    v ← elim (is_dynamic f) [
      | true ↦ do
        offset ← read_word d cursor
        pos ← resolve start end offset
        value_at f d pos end depth
      | false ↦ static_value f d cursor end depth
    ]
    vs ← tuple_loop fs d start end (cursor + size) depth
    ok (cons v vs)

unfoldable pub tuple_at : Fields → Decoder → ℕ → ℕ → ℕ → Outcome Values
unfolding enter_tuple tuple_loop
tuple_at fs d start end depth =
    enter_tuple d start end depth (λ k. tuple_loop fs d start end start k)

unfoldable pub decode : Fields → Bytes → Outcome Values
unfolding tuple_at
decode schema bz =
    if length bz % word_size == 0
    then tuple_at schema (record { content = bz; max_depth = max_decode_depth }) 0 (length bz) 0
    else err invalid_data
