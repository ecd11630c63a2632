-- ===== src/Abi/Sizes.antt =====
-- internal/tools/ethabi/types.go: `staticHeadSize` is the length of every encoding of a static field.
use gno_ibc_relayer_api.Prelude.{
  ℕ, ◌+◌, ◌≡◌, refl, ◌∙◌, Bool, true, false, ◌||◌, [], arith, length, length-append, Bool-cases,
  inl, inr,
}
use gno_ibc_relayer_api.Prelude.Membership.{Bool-apart}
use gno_ibc_relayer_api.Abi.Outcome.{ok}
use gno_ibc_relayer_api.Abi.Schema.{
  WordType, Field, Fields, word, bytes, string, struct, array, is_dynamic, any_dynamic,
  static_head_size, head_sizes,
}
use gno_ibc_relayer_api.Abi.Words.{Value, Values, tuple, nil, cons}
use gno_ibc_relayer_api.Abi.Fits.{Fits, FitsAll}
use gno_ibc_relayer_api.Abi.Encode.{
  encode_value, heads, tails, encode, word64, heads-dynamic, heads-static, tails-static,
  encode_value-struct,
}
use gno_ibc_relayer_api.Abi.Located.{length-word64, length-encode_word}
use gno_ibc_relayer_api.Abi.Lengths.{IsAbi, AreAbi}

-- The length of a head does not depend on the offsets in it.
pub heads-length :
    (fs : Fields) (vs : Values) (a b : ℕ) → length (heads fs vs a) ≡ length (heads fs vs b)
heads-length (Fields.cons f fs) (cons v vs) a b = elim (Bool-cases (is_dynamic f)) [
  | inl e ↦
      rw (heads-dynamic f fs v vs a e, heads-dynamic f fs v vs b e)
        (omega (
          arith,
          length-append (word64 a) (heads fs vs (a + length (encode_value f v))),
          length-append (word64 b) (heads fs vs (b + length (encode_value f v))),
          length-word64 a,
          length-word64 b,
          heads-length fs vs (a + length (encode_value f v)) (b + length (encode_value f v)),
        ))
  | inr e ↦
      rw (heads-static f fs v vs a e, heads-static f fs v vs b e)
        (omega (
          arith,
          length-append (encode_value f v) (heads fs vs a),
          length-append (encode_value f v) (heads fs vs b),
          heads-length fs vs a b,
        ))
]
heads-length Fields.nil vs a b = no_fields vs a b
  where
    no_fields :
        (ws : Values) (a b : ℕ) → length (heads Fields.nil ws a) ≡ length (heads Fields.nil ws b)
    no_fields ws a b = unfold heads in refl
heads-length (Fields.cons f fs) nil a b = unfold heads in refl

-- The size of a static field, and of a tuple of them.
abbrev pub StaticSize : Field → Type 0
StaticSize f =
    (s : ℕ) × (static_head_size f ≡ ok s) × ((v : Value) → Fits f v → length (encode_value f v) ≡ s)

abbrev StaticSizes : Fields → Type 0
StaticSizes fs =
    (s : ℕ) × (head_sizes fs ≡ ok s)
    × ((vs : Values) (a : ℕ) → FitsAll fs vs → (length (heads fs vs a) ≡ s) × (tails fs vs ≡ []))

word-StaticSize : (t : WordType) → StaticSize (word t)
unfolding static_head_size encode_value
word-StaticSize t = (32, refl, length-encode_word t)

struct-StaticSize : (fs : Fields) → StaticSizes fs → StaticSize (struct fs)
unfolding static_head_size
struct-StaticSize fs (s, sizes, lengths) = (s, sizes, by_value)
  where
    by_value : (v : Value) → Fits (struct fs) v → length (encode_value (struct fs) v) ≡ s
    by_value (tuple vs) h =
        let (head, tail) = lengths vs (length (heads fs vs 0)) h in
        rw (encode_value-struct fs vs) (
          unfold encode in
          rw tail (omega (arith, head, length-append (heads fs vs (length (heads fs vs 0))) [])))
    by_value _ h = absurd h

nil-StaticSizes : StaticSizes Fields.nil
unfolding static_head_size heads tails
nil-StaticSizes = (0, refl, by_values)
  where
    by_values :
        (vs : Values) (a : ℕ)
        → FitsAll Fields.nil vs
        → (length (heads Fields.nil vs a) ≡ 0) × (tails Fields.nil vs ≡ [])
    by_values nil a h = (refl, refl)
    by_values (cons v vs) a h = absurd h

cons-StaticSizes :
    (f : Field) (fs : Fields)
    → is_dynamic f ≡ false
    → StaticSize f
    → StaticSizes fs
    → StaticSizes (Fields.cons f fs)
unfolding static_head_size
cons-StaticSizes f fs e (s, size, lengths) (t, sizes, rests) =
    (s + t, rw (static_head_size, size, sizes) refl, by_values)
  where
    by_values :
        (vs : Values) (a : ℕ)
        → FitsAll (Fields.cons f fs) vs
        → (length (heads (Fields.cons f fs) vs a) ≡ s + t) × (tails (Fields.cons f fs) vs ≡ [])
    by_values (cons v vs) a h = (
      rw (heads-static f fs v vs a e) (
          omega (
            arith,
            length-append (encode_value f v) (heads fs vs a),
            lengths v h.0,
            (rests vs a h.1).0,
          )),
      tails-static f fs v vs e ∙ (rests vs a h.1).1,
    )
    by_values nil a h = absurd h

or_false : (a b : Bool) → (a || b) ≡ false → (a ≡ false) × (b ≡ false)
or_false a b h = ground arith

struct_fields : (fs : Fields) → is_dynamic (struct fs) ≡ false → any_dynamic fs ≡ false
unfolding is_dynamic
struct_fields fs e = e

first_field :
    (f : Field) (fs : Fields)
    → any_dynamic (Fields.cons f fs) ≡ false
    → (is_dynamic f ≡ false) × (any_dynamic fs ≡ false)
unfolding is_dynamic
first_field f fs e = or_false (is_dynamic f) (any_dynamic fs) e

dynamic_kinds :
    (g : Field)
    → (is_dynamic bytes ≡ true) × (is_dynamic string ≡ true) × (is_dynamic (array g) ≡ true)
unfolding is_dynamic
dynamic_kinds g = (refl, refl, refl)

mutual
  pub static_head_size-StaticSize : (f : Field) → IsAbi f → is_dynamic f ≡ false → StaticSize f
  static_head_size-StaticSize (word t) p e = word-StaticSize t
  static_head_size-StaticSize (struct (Fields.cons f fs)) p e =
      struct-StaticSize (Fields.cons f fs)
        (head_sizes-StaticSizes (Fields.cons f fs) p (struct_fields (Fields.cons f fs) e))
  static_head_size-StaticSize (struct Fields.nil) p e = absurd p
  static_head_size-StaticSize bytes p e =
      absurd (Bool-apart (is_dynamic bytes) (dynamic_kinds bytes).0 e)
  static_head_size-StaticSize string p e =
      absurd (Bool-apart (is_dynamic string) (dynamic_kinds string).1 e)
  static_head_size-StaticSize (array g) p e =
      absurd (Bool-apart (is_dynamic (array g)) (dynamic_kinds g).2 e)
  static_head_size-StaticSize _ p e = absurd p

  head_sizes-StaticSizes : (fs : Fields) → AreAbi fs → any_dynamic fs ≡ false → StaticSizes fs
  head_sizes-StaticSizes Fields.nil p e = nil-StaticSizes
  head_sizes-StaticSizes (Fields.cons f fs) p e =
      cons-StaticSizes f fs (first_field f fs e).0
        (static_head_size-StaticSize f p.0 (first_field f fs e).0)
        (head_sizes-StaticSizes fs p.1 (first_field f fs e).1)
