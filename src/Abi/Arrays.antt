-- ===== src/Abi/Arrays.antt =====
-- internal/tools/ethabi/decode.go: the arrays of an encoding are decoded.
use gno_ibc_relayer_api.Prelude.{
  ℕ, ◌+◌, ◌-◌, ◌*◌, ◌/◌, ◌≤◌, ◌≡◌, refl, ap, subst, ◌∙◌, Bool, true, false, ◌++◌, arith, length,
  length-append, leb, Bool-cases, inl, inr,
}
use gno_ibc_relayer_api.Prelude.Strings.{Bytes}
use gno_ibc_relayer_api.Abi.Outcome.{Outcome, ok}
use gno_ibc_relayer_api.Abi.Schema.{Field, array, is_dynamic, word_size}
use gno_ibc_relayer_api.Abi.Words.{Value, Values, Decoder, tuple, nil, cons, max_alloc}
use gno_ibc_relayer_api.Abi.Decoder.{array_elems, array_at, static_value, value_at}
use gno_ibc_relayer_api.Abi.Fits.{Fits, AllValues}
use gno_ibc_relayer_api.Abi.Encode.{
  encode_value, word64, count_values, elem_heads, elem_tails, encode_value-array,
}
use gno_ibc_relayer_api.Abi.Located.{At, At-left, At-right, read_word-At, length-word64}
use gno_ibc_relayer_api.Abi.Lengths.{
  IsAbi, AreWords, elem_heads-dynamic, encode_value-AreWords, AllValues-map,
}
use gno_ibc_relayer_api.Abi.Sizes.{StaticSize, static_head_size-StaticSize}
use gno_ibc_relayer_api.Abi.Trip.{static_elems, dynamic_elems}
use gno_ibc_relayer_api.Abi.Loop.{Reads}

module _ (f : Value → Bytes) where
  static_heads-length :
      (s : ℕ) (vs : Values) (a : ℕ)
      → AllValues (λ v. length (f v) ≡ s) vs
      → length (elem_heads false f vs a) ≡ count_values vs * s
  unfolding elem_heads count_values
  static_heads-length s nil a h = grind arith
  static_heads-length s (cons v vs) a h =
      let rest : length (elem_heads false f vs a) ≡ count_values vs * s =
        static_heads-length s vs a h.1 in
      grind (arith, length-append (f v) (elem_heads false f vs a), h.0)

  static_heads-count :
      (vs : Values) (a : ℕ)
      → AllValues (λ v. AreWords (f v)) vs
      → count_values vs * 32 ≤ length (elem_heads false f vs a)
  unfolding elem_heads count_values
  static_heads-count nil a h = omega arith
  static_heads-count (cons v vs) a h =
      omega (arith, length-append (f v) (elem_heads false f vs a), h.0, static_heads-count vs a h.1)

module _ (d : Decoder) (small : length d.content ≤ max_alloc) (end : ℕ)
    (inside : end ≤ length d.content) (e : Field) (value static : ℕ → Outcome Value) where
  abbrev Head : Bool → Values → Bytes
  Head dynamic vs = elem_heads dynamic (λ v. encode_value e v) vs (count_values vs * 32)

  abbrev Tail : Bool → Values → Bytes
  Tail dynamic vs = elem_tails dynamic (λ v. encode_value e v) vs

  -- The head and the tail stand at the position, and before the end.
  abbrev Stands : Bool → Values → ℕ → Type 0
  Stands dynamic vs p =
      At d p (Head dynamic vs ++ Tail dynamic vs)
      × (p + length (Head dynamic vs ++ Tail dynamic vs) ≤ end)

  At-start : (p s : ℕ) (b : Bytes) → At d p b → At d (p + 0 * s) b
  At-start p s b = subst (λ n. At d n b) (grind arith)

  dynamic-read :
      (vs : Values) (p : ℕ)
      → is_dynamic e ≡ true
      → AllValues (λ v. AreWords (encode_value e v)) vs
      → AllValues (Reads d small end inside value e) vs
      → Stands true vs p
      → array_elems e d p end (count_values vs) value static ≡ ok vs
  unfolding array_elems
  dynamic-read vs p dynamic words values (here, room) =
      let enough : leb (p + count_values vs * word_size) end ≡ true = ground (arith, size, head) in
      rw (dynamic, array_elems, enough)
        (dynamic_elems d (λ v. encode_value e v) end inside value vs p 0 (count_values vs * 32)
          values words (omega arith) (omega arith)
          (At-start p 32 (Head true vs) (At-left d p (Head true vs) (Tail true vs) here)) tail_at
          (omega (arith, size)) (omega (arith, size, head)))
    where
      head : length (Head true vs) ≡ count_values vs * 32
      head = elem_heads-dynamic (λ v. encode_value e v) vs (count_values vs * 32)

      size : length (Head true vs ++ Tail true vs) ≡ length (Head true vs) + length (Tail true vs)
      size = length-append (Head true vs) (Tail true vs)

      tail_at : At d (p + count_values vs * 32) (Tail true vs)
      tail_at =
          subst (λ m. At d (p + m) (Tail true vs)) head
            (At-right d p (Head true vs) (Tail true vs) here)

  static-read :
      (vs : Values) (p : ℕ)
      → is_dynamic e ≡ false
      → (s : StaticSize e) → AllValues (λ v. length (encode_value e v) ≡ s.0) vs
      → AllValues (Reads d small end inside static e) vs
      → Stands false vs p
      → array_elems e d p end (count_values vs) value static ≡ ok vs
  unfolding array_elems
  static-read vs p fixed (s, found, lengths) sizes statics (here, room) =
      let enough : leb (p + count_values vs * s) end ≡ true = ground (arith, size, head) in
      rw (fixed, array_elems, found, enough)
        (static_elems d (λ v. encode_value e v) end inside static vs p s 0 (count_values vs * 32)
          statics sizes
          (At-start p s (Head false vs) (At-left d p (Head false vs) (Tail false vs) here))
          (grind (arith, size)))
    where
      head : length (Head false vs) ≡ count_values vs * s
      head = static_heads-length (λ v. encode_value e v) s vs (count_values vs * 32) sizes

      size :
          length (Head false vs ++ Tail false vs) ≡ length (Head false vs) + length (Tail false vs)
      size = length-append (Head false vs) (Tail false vs)

  -- The elements are decoded, behind the word with their number.
  elems-read :
      (vs : Values) (p : ℕ)
      → IsAbi e
      → AllValues (λ v. Fits e v) vs
      → AllValues (λ v. AreWords (encode_value e v)) vs
      → AllValues (Reads d small end inside value e) vs
      → (is_dynamic e ≡ false → AllValues (Reads d small end inside static e) vs)
      → Stands (is_dynamic e) vs p
      → array_elems e d p end (count_values vs) value static ≡ ok vs
  elems-read vs p abi fits words values statics here = elim (Bool-cases (is_dynamic e)) [
    | inl dynamic ↦ dynamic-read vs p dynamic words values (subst (λ b. Stands b vs p) dynamic here)
    | inr fixed ↦
        let size : StaticSize e = static_head_size-StaticSize e abi fixed in
        static-read vs p fixed size (AllValues-map _ _ vs size.2 fits) (statics fixed)
          (subst (λ b. Stands b vs p) fixed here)
  ]

  heads-room :
      (b : Bool) (vs : Values)
      → AllValues (λ v. AreWords (encode_value e v)) vs
      → count_values vs * 32 ≤ length (Head b vs)
  heads-room true vs words =
      omega (arith, elem_heads-dynamic (λ v. encode_value e v) vs (count_values vs * 32))
  heads-room false vs words =
      static_heads-count (λ v. encode_value e v) vs (count_values vs * 32) words

module _ (d : Decoder) (small : length d.content ≤ max_alloc) (end : ℕ)
    (inside : end ≤ length d.content) (e : Field) (k : ℕ) where
  pub array-Reads :
      (vs : Values)
      → IsAbi e
      → AllValues (λ v. Fits e v) vs
      → k + 1 ≤ d.max_depth
      → AllValues (Reads d small end inside (λ p. value_at e d p end (k + 1)) e) vs
      → (is_dynamic e ≡ false
          → AllValues (Reads d small end inside (λ p. static_value e d p end (k + 1)) e) vs)
      → Reads d small end inside (λ p. value_at (array e) d p end k) (array e) (tuple vs)
  unfolding value_at array_at
  array-Reads vs abi fits depth values statics p here room =
      let deep : leb (k + 1) d.max_depth ≡ true = ground arith in
      let first : leb (p + word_size) end ≡ true = ground (arith, size) in
      let count : leb (count_values vs) ((end - p) / word_size) ≡ true =
        ground
          (arith, size, heads-room d small end inside e value static (is_dynamic e) vs words) in
      rw
        (
          value_at,
          array_at,
          deep,
          first,
          read_word-At d p (count_values vs) (At-left d p (word64 (count_values vs)) body whole)
              (omega
                (arith, size, heads-room d small end inside e value static (is_dynamic e) vs words))
              (omega (arith, size)),
          count,
          elems-read d small end inside e value static vs (p + 32) abi fits words values statics
              (body_at, omega (arith, size, length-append hs ts)),
        )
        refl
    where
      value : ℕ → Outcome Value
      value q = value_at e d q end (k + 1)

      static : ℕ → Outcome Value
      static q = static_value e d q end (k + 1)

      hs : Bytes
      hs = elem_heads (is_dynamic e) (λ v. encode_value e v) vs (count_values vs * 32)

      ts : Bytes
      ts = elem_tails (is_dynamic e) (λ v. encode_value e v) vs

      body : Bytes
      body = hs ++ ts

      words : AllValues (λ v. AreWords (encode_value e v)) vs
      words = AllValues-map _ _ vs (λ v h. encode_value-AreWords e v abi h) fits

      whole : At d p (word64 (count_values vs) ++ body)
      whole = subst (At d p) (encode_value-array e vs) here

      size : length (encode_value (array e) (tuple vs)) ≡ 32 + (length hs + length ts)
      size =
          ap length (encode_value-array e vs)
          ∙ omega (
            arith,
            length-append (word64 (count_values vs)) body,
            length-word64 (count_values vs),
            length-append hs ts,
          )

      body_at : At d (p + 32) body
      body_at =
          subst (λ n. At d (p + n) body) (length-word64 (count_values vs))
            (At-right d p (word64 (count_values vs)) body whole)
