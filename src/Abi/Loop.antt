-- ===== src/Abi/Loop.antt =====
-- internal/tools/ethabi/decode.go: the loop of `tupleAt` over an encoding.
use gno_ibc_relayer_api.Prelude.{
  ℕ, ◌+◌, ◌%◌, ◌≤◌, ◌≡◌, refl, ap, subst, ◌∙◌, true, false, ◌++◌, arith, length, length-append, leb,
  Bool-cases, inl, inr,
}
use gno_ibc_relayer_api.Prelude.Strings.{Bytes}
use gno_ibc_relayer_api.Abi.Outcome.{Outcome, ok}
use gno_ibc_relayer_api.Abi.Schema.{
  WordType, Field, Fields, word, bytes, string, is_dynamic, word_size,
}
use gno_ibc_relayer_api.Abi.Words.{Value, Values, Decoder, byte_slice, text, nil, cons, max_alloc}
use gno_ibc_relayer_api.Abi.Decoder.{static_value, value_at, tuple_loop}
use gno_ibc_relayer_api.Abi.Fits.{WordFits, Fits}
use gno_ibc_relayer_api.Abi.Encode.{
  encode_value, heads, tails, word64, heads-dynamic, heads-static, tails-dynamic, tails-static,
}
use gno_ibc_relayer_api.Abi.Located.{
  At, At-left, At-right, read_word-At, word_value-At, bytes_at-At, length-word64,
  length-encode_word,
}
use gno_ibc_relayer_api.Abi.Lengths.{IsAbi, AreWords, encode_value-AreWords}
use gno_ibc_relayer_api.Abi.Sizes.{StaticSize, static_head_size-StaticSize}
use gno_ibc_relayer_api.Abi.Trip.{resolve-At, Decodes}

module _ (d : Decoder) (small : length d.content ≤ max_alloc) (end : ℕ)
    (inside : end ≤ length d.content) where
  -- Wherever the value stands before the end, it is decoded.
  abbrev pub Reads : (ℕ → Outcome Value) → Field → Value → Type 0
  Reads at f v = Decodes d (λ u. encode_value f u) end inside at v

  -- Wherever a tuple stands, its fields are decoded by the loop at depth `k`.
  abbrev pub ReadsAll : Fields → Values → ℕ → Type 0
  ReadsAll fs vs k =
      (start cursor offset : ℕ)
      → At d cursor (heads fs vs offset)
      → At d (start + offset) (tails fs vs)
      → cursor + length (heads fs vs offset) ≤ end
      → start + offset + length (tails fs vs) ≤ end
      → offset % 32 ≡ 0
      → tuple_loop fs d start end cursor k ≡ ok vs

  pub word-Reads :
      (t : WordType) (v : Value) (k : ℕ)
      → WordFits t v
      → Reads (λ p. value_at (word t) d p end k) (word t) v
  unfolding value_at encode_value
  word-Reads t v k fits p here room =
      let e : leb (p + word_size) end ≡ true = ground (arith, length-encode_word t v fits) in
      rw (value_at, e)
        (word_value-At d t v p fits here (omega (arith, length-encode_word t v fits)))

  pub static_word-Reads :
      (t : WordType) (v : Value) (k : ℕ)
      → WordFits t v
      → Reads (λ p. static_value (word t) d p end k) (word t) v
  unfolding static_value encode_value
  static_word-Reads t v k fits p here room =
      let e : leb (p + word_size) end ≡ true = ground (arith, length-encode_word t v fits) in
      rw (static_value, e)
        (word_value-At d t v p fits here (omega (arith, length-encode_word t v fits)))

  pub bytes-Reads : (b : Bytes) (k : ℕ) → Reads (λ p. value_at bytes d p end k) bytes (byte_slice b)
  unfolding value_at encode_value
  bytes-Reads b k p here room = rw (value_at, bytes_at-At d b p end here room inside small) refl

  pub string-Reads : (b : Bytes) (k : ℕ) → Reads (λ p. value_at string d p end k) string (text b)
  unfolding value_at encode_value
  string-Reads b k p here room = rw (value_at, bytes_at-At d b p end here room inside small) refl

  pub nil-ReadsAll : (k : ℕ) → ReadsAll Fields.nil nil k
  unfolding tuple_loop
  nil-ReadsAll k start cursor offset h t hfits tfits m = refl

  -- A dynamic field: its offset is in the head, and the value in the tail.
  dynamic-ReadsAll :
      (f : Field) (fs : Fields) (v : Value) (vs : Values) (k : ℕ)
      → is_dynamic f ≡ true
      → AreWords (encode_value f v)
      → Reads (λ p. value_at f d p end k) f v
      → ReadsAll fs vs k
      → ReadsAll (Fields.cons f fs) (cons v vs) k
  unfolding tuple_loop
  dynamic-ReadsAll f fs v vs k e words reads rest start cursor offset hs ts hfits tfits m =
      let room : leb (cursor + word_size) end ≡ true = ground (arith, hsize) in
      rw
        (
          e,
          tuple_loop,
          room,
          read_word-At d cursor offset (At-left d cursor (word64 offset) next hs_at)
              (omega (arith, tsize)) (omega (arith, hsize)),
          resolve-At start end offset (omega (arith, tsize)) (omega arith) m,
          reads (start + offset) (At-left d (start + offset) (encode_value f v) (tails fs vs) ts_at)
              (omega (arith, tsize)),
          rest start (cursor + 32) (offset + length (encode_value f v)) next_head next_tail
              (omega (arith, hsize)) (omega (arith, tsize)) (omega (arith, words.0)),
        )
        refl
    where
      next : Bytes
      next = heads fs vs (offset + length (encode_value f v))

      hs_at : At d cursor (word64 offset ++ heads fs vs (offset + length (encode_value f v)))
      hs_at = subst (At d cursor) (heads-dynamic f fs v vs offset e) hs

      ts_at : At d (start + offset) (encode_value f v ++ tails fs vs)
      ts_at = subst (At d (start + offset)) (tails-dynamic f fs v vs e) ts

      hsize :
          length (heads (Fields.cons f fs) (cons v vs) offset)
          ≡ 32 + length (heads fs vs (offset + length (encode_value f v)))
      hsize =
          ap length (heads-dynamic f fs v vs offset e)
          ∙ omega (arith, length-append (word64 offset) next, length-word64 offset)

      tsize :
          length (tails (Fields.cons f fs) (cons v vs))
          ≡ length (encode_value f v) + length (tails fs vs)
      tsize = ap length (tails-dynamic f fs v vs e) ∙ length-append (encode_value f v) (tails fs vs)

      next_head : At d (cursor + 32) (heads fs vs (offset + length (encode_value f v)))
      next_head =
          subst (λ n. At d (cursor + n) next) (length-word64 offset)
            (At-right d cursor (word64 offset) next hs_at)

      next_tail : At d (start + (offset + length (encode_value f v))) (tails fs vs)
      next_tail =
          let same : start + offset + length (encode_value f v)
              ≡ start + (offset + length (encode_value f v)) =
            omega arith in
          subst (λ n. At d n (tails fs vs)) same
            (At-right d (start + offset) (encode_value f v) (tails fs vs) ts_at)

  -- A static field: its value is in the head.
  static-ReadsAll :
      (f : Field) (fs : Fields) (v : Value) (vs : Values) (k : ℕ)
      → is_dynamic f ≡ false
      → StaticSize f
      → Fits f v
      → Reads (λ p. static_value f d p end k) f v
      → ReadsAll fs vs k
      → ReadsAll (Fields.cons f fs) (cons v vs) k
  unfolding tuple_loop
  static-ReadsAll f fs v vs k e (s, size, lengths) fits reads rest start cursor offset hs ts hfits
        tfits m =
      let room : leb (cursor + s) end ≡ true = ground (arith, hsize) in
      rw
        (
          e,
          tuple_loop,
          size,
          room,
          reads cursor (At-left d cursor (encode_value f v) (heads fs vs offset) hs_at)
              (omega (arith, hsize, lengths v fits)),
          rest start (cursor + s) offset next_head
              (subst (At d (start + offset)) (tails-static f fs v vs e) ts) (omega (arith, hsize))
              (omega (arith, ap length (tails-static f fs v vs e))) m,
        )
        refl
    where
      hs_at : At d cursor (encode_value f v ++ heads fs vs offset)
      hs_at = subst (At d cursor) (heads-static f fs v vs offset e) hs

      hsize : length (heads (Fields.cons f fs) (cons v vs) offset) ≡ s + length (heads fs vs offset)
      hsize =
          ap length (heads-static f fs v vs offset e)
          ∙ omega (arith, length-append (encode_value f v) (heads fs vs offset), lengths v fits)

      next_head : At d (cursor + s) (heads fs vs offset)
      next_head =
          subst (λ n. At d (cursor + n) (heads fs vs offset)) (lengths v fits)
            (At-right d cursor (encode_value f v) (heads fs vs offset) hs_at)

  pub cons-ReadsAll :
      (f : Field) (fs : Fields) (v : Value) (vs : Values) (k : ℕ)
      → IsAbi f
      → Fits f v
      → Reads (λ p. value_at f d p end k) f v
      → (is_dynamic f ≡ false → Reads (λ p. static_value f d p end k) f v)
      → ReadsAll fs vs k
      → ReadsAll (Fields.cons f fs) (cons v vs) k
  cons-ReadsAll f fs v vs k p fits dynamic static rest = elim (Bool-cases (is_dynamic f)) [
    | inl e ↦ dynamic-ReadsAll f fs v vs k e (encode_value-AreWords f v p fits) dynamic rest
    | inr e ↦ static-ReadsAll f fs v vs k e (static_head_size-StaticSize f p e) fits (static e) rest
  ]
