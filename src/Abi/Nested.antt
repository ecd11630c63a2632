-- ===== src/Abi/Nested.antt =====
-- internal/tools/ethabi/decode.go: the structs and arrays of an encoding are decoded.
use gno_ibc_relayer_api.Prelude.{
  ℕ, ◌+◌, ◌≤◌, ◌≡◌, refl, ap, subst, true, ◌++◌, arith, length, length-append, leb,
}
use gno_ibc_relayer_api.Prelude.Strings.{Bytes}
use gno_ibc_relayer_api.Abi.Outcome.{Outcome, ok}
use gno_ibc_relayer_api.Abi.Schema.{Fields, struct, word_size}
use gno_ibc_relayer_api.Abi.Words.{Values, Decoder, tuple, max_alloc}
use gno_ibc_relayer_api.Abi.Decoder.{enter_tuple, static_value, value_at, tuple_loop}
use gno_ibc_relayer_api.Abi.Fits.{FitsAll}
use gno_ibc_relayer_api.Abi.Encode.{heads, tails, encode, encode_value-struct}
use gno_ibc_relayer_api.Abi.Located.{At, At-left, At-right}
use gno_ibc_relayer_api.Abi.Lengths.{AreAbi, heads-words}
use gno_ibc_relayer_api.Abi.Sizes.{heads-length}
use gno_ibc_relayer_api.Abi.Loop.{Reads, ReadsAll}

module _ (d : Decoder) (small : length d.content ≤ max_alloc) (end : ℕ)
    (inside : end ≤ length d.content) where
  enter_tuple-enters :
      (pos k : ℕ) (vs : Values) (loop : ℕ → Outcome Values)
      → k + 1 ≤ d.max_depth
      → pos ≤ end
      → loop (k + 1) ≡ ok vs
      → enter_tuple d pos end k loop ≡ ok vs
  unfolding enter_tuple
  enter_tuple-enters pos k vs loop depth before e =
      let deep : leb (k + 1) d.max_depth ≡ true = ground arith in
      let left : leb pos end ≡ true = ground arith in
      let right : leb end (length d.content) ≡ true = ground arith in rw (deep, left, right) e

  -- The loop over the fields starts at the head of the tuple.
  pub tuple-reads :
      (fs : Fields) (vs : Values) (k p : ℕ)
      → AreAbi fs
      → FitsAll fs vs
      → k + 1 ≤ d.max_depth
      → ReadsAll d small end inside fs vs (k + 1)
      → At d p (encode fs vs)
      → p + length (encode fs vs) ≤ end
      → enter_tuple d p end k (λ j. tuple_loop fs d p end p j) ≡ ok vs
  unfolding encode
  tuple-reads fs vs k p abi fits depth reads here room =
      enter_tuple-enters p k vs (λ j. tuple_loop fs d p end p j) depth (omega arith)
        (reads p p n (At-left d p hs (tails fs vs) here) tail_at (omega (arith, size))
          (omega (arith, size, heads-length fs vs n 0)) (heads-words fs vs 0 abi fits))
    where
      n : ℕ
      n = length (heads fs vs 0)

      hs : Bytes
      hs = heads fs vs n

      size :
          length (heads fs vs (length (heads fs vs 0)) ++ tails fs vs)
          ≡ length (heads fs vs (length (heads fs vs 0))) + length (tails fs vs)
      size = length-append hs (tails fs vs)

      tail_at : At d (p + length (heads fs vs 0)) (tails fs vs)
      tail_at =
          subst (λ m. At d (p + m) (tails fs vs)) (heads-length fs vs n 0)
            (At-right d p hs (tails fs vs) here)

  pub struct-Reads :
      (fs : Fields) (vs : Values) (k : ℕ)
      → AreAbi fs
      → FitsAll fs vs
      → k + 1 ≤ d.max_depth
      → ReadsAll d small end inside fs vs (k + 1)
      → Reads d small end inside (λ p. value_at (struct fs) d p end k) (struct fs) (tuple vs)
  unfolding value_at
  struct-Reads fs vs k abi fits depth reads p here room =
      rw
        (
          value_at,
          tuple-reads fs vs k p abi fits depth reads
              (subst (At d p) (encode_value-struct fs vs) here)
              (omega (arith, ap length (encode_value-struct fs vs))),
        )
        refl

  pub static_struct-Reads :
      (fs : Fields) (vs : Values) (k : ℕ)
      → AreAbi fs
      → FitsAll fs vs
      → 32 ≤ length (encode fs vs)
      → k + 1 ≤ d.max_depth
      → ReadsAll d small end inside fs vs (k + 1)
      → Reads d small end inside (λ p. static_value (struct fs) d p end k) (struct fs) (tuple vs)
  unfolding static_value
  static_struct-Reads fs vs k abi fits long depth reads p here room =
      let start : leb (p + word_size) end ≡ true =
        ground (arith, ap length (encode_value-struct fs vs)) in
      rw
        (
          static_value,
          start,
          tuple-reads fs vs k p abi fits depth reads
              (subst (At d p) (encode_value-struct fs vs) here)
              (omega (arith, ap length (encode_value-struct fs vs))),
        )
        refl
