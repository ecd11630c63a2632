-- ===== src/Abi/Trip.antt =====
-- internal/tools/ethabi/decode.go: what encodes values is decoded to them, for every schema of the ABI.
use gno_ibc_relayer_api.Prelude.{
  ℕ, ◌+◌, ◌*◌, ◌%◌, ◌≤◌, ◌≡◌, refl, subst, true, false, ◌++◌, arith, length, length-append,
}
use gno_ibc_relayer_api.Prelude.Int.{add_int}
use gno_ibc_relayer_api.Prelude.Strings.{Bytes}
use gno_ibc_relayer_api.Abi.Outcome.{Outcome, ok, ◌>>=◌}
use gno_ibc_relayer_api.Abi.Schema.{word_size}
use gno_ibc_relayer_api.Abi.Words.{Value, Values, Decoder, nil, cons, read_word, resolve, max_alloc}
use gno_ibc_relayer_api.Abi.Decoder.{array_loop}
use gno_ibc_relayer_api.Abi.Fits.{AllValues}
use gno_ibc_relayer_api.Abi.Encode.{word64, count_values, elem_heads, elem_tails}
use gno_ibc_relayer_api.Abi.Located.{At, At-left, At-right, read_word-At, length-word64}
use gno_ibc_relayer_api.Abi.Lengths.{AreWords}

-- An offset within the data is resolved.
pub resolve-At :
    (start end offset : ℕ)
    → start + offset ≤ end
    → end ≤ max_alloc
    → offset % 32 ≡ 0
    → resolve start end offset ≡ ok (start + offset)
unfolding resolve add_int
resolve-At start end offset h k w = ground arith

-- The elements of an array are decoded, if each is where it stands.
module _ (d : Decoder) (f : Value → Bytes) (end : ℕ) (inside : end ≤ length d.content) where
  -- The value is decoded wherever its encoding stands before the end.
  abbrev pub Decodes : (ℕ → Outcome Value) → Value → Type 0
  Decodes at v = (p : ℕ) → At d p (f v) → p + length (f v) ≤ end → at p ≡ ok v

  pub static_elems :
      (at : ℕ → Outcome Value) (vs : Values) (h s i a : ℕ)
      → AllValues (Decodes at) vs
      → AllValues (λ v. length (f v) ≡ s) vs
      → At d (h + i * s) (elem_heads false f vs a)
      → h + i * s + length (elem_heads false f vs a) ≤ end
      → array_loop (count_values vs) i (λ j. at (h + j * s)) ≡ ok vs
  unfolding array_loop elem_heads count_values
  static_elems at nil h s i a ds ls here fits = refl
  static_elems at (cons v vs) h s i a ds ls here fits =
      rw
        (
          array_loop,
          ds.0 (h + i * s) (At-left d (h + i * s) (f v) rest here) (omega (arith, size)),
          static_elems at vs h s (i + 1) a ds.1 ls.1 next (omega (arith, step, size)),
        )
        refl
    where
      rest : Bytes
      rest = elem_heads false f vs a

      size :
          length (f v ++ elem_heads false f vs a) ≡ length (f v) + length (elem_heads false f vs a)
      size = length-append (f v) (elem_heads false f vs a)

      step : h + i * s + length (f v) ≡ h + (i + 1) * s
      step = grind (arith, ls.0)

      next : At d (h + (i + 1) * s) (elem_heads false f vs a)
      next =
          subst (λ p. At d p (elem_heads false f vs a)) step
            (At-right d (h + i * s) (f v) (elem_heads false f vs a) here)

  pub dynamic_elems :
      (at : ℕ → Outcome Value) (vs : Values) (h i a : ℕ)
      → AllValues (Decodes at) vs
      → AllValues (λ v. AreWords (f v)) vs
      → a % 32 ≡ 0
      → end ≤ max_alloc
      → At d (h + i * 32) (elem_heads true f vs a)
      → At d (h + a) (elem_tails true f vs)
      → h + i * 32 + length (elem_heads true f vs a) ≤ end
      → h + a + length (elem_tails true f vs) ≤ end
      → array_loop
          (count_values vs)
          i
          (λ j. do offset ← read_word d (h + j * word_size); pos ← resolve h end offset; at pos)
        ≡ ok vs
  unfolding array_loop elem_heads elem_tails count_values
  dynamic_elems at nil h i a ds ws m small heads_at tails_at hfits tfits = refl
  dynamic_elems at (cons v vs) h i a ds ws m small heads_at tails_at hfits tfits =
      rw
        (
          array_loop,
          read_word-At d (h + i * 32) a (At-left d (h + i * 32) (word64 a) hs heads_at)
              (omega (arith, hsize, tsize)) (omega (arith, hsize)),
          resolve-At h end a (omega (arith, tsize)) small m,
          ds.0 (h + a) (At-left d (h + a) (f v) ts tails_at) (omega (arith, tsize)),
          dynamic_elems at vs h (i + 1) (a + length (f v)) ds.1 ws.1 (omega (arith, ws.0)) small
              next_head next_tail (omega (arith, hsize)) (omega (arith, tsize)),
        )
        refl
    where
      hs : Bytes
      hs = elem_heads true f vs (a + length (f v))

      ts : Bytes
      ts = elem_tails true f vs

      hsize :
          length (word64 a ++ elem_heads true f vs (a + length (f v)))
          ≡ 32 + length (elem_heads true f vs (a + length (f v)))
      hsize = omega (
        arith,
        length-append (word64 a) (elem_heads true f vs (a + length (f v))),
        length-word64 a,
      )

      tsize : length (f v ++ elem_tails true f vs) ≡ length (f v) + length (elem_tails true f vs)
      tsize = length-append (f v) (elem_tails true f vs)

      next_head : At d (h + (i + 1) * 32) (elem_heads true f vs (a + length (f v)))
      next_head =
          let e : h + i * 32 + length (word64 a) ≡ h + (i + 1) * 32 =
            omega (arith, length-word64 a) in
          subst (λ p. At d p (elem_heads true f vs (a + length (f v)))) e
            (At-right d (h + i * 32) (word64 a) (elem_heads true f vs (a + length (f v))) heads_at)

      next_tail : At d (h + (a + length (f v))) (elem_tails true f vs)
      next_tail =
          let e : h + a + length (f v) ≡ h + (a + length (f v)) = omega arith in
          subst (λ p. At d p (elem_tails true f vs)) e
            (At-right d (h + a) (f v) (elem_tails true f vs) tails_at)
