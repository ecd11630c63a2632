-- ===== src/Abi/Ends.antt =====
-- The parts of the decoder that do not recurse through the schema end as they should.
use gno_ibc_relayer_api.Prelude.{
  ℕ, zero, suc, ◌+◌, ◌-◌, ◌*◌, ◌/◌, ◌^◌, ◌≤◌, ◌<◌, ◌≡◌, ◌&&◌, arith, leb, length, Bool-cases, inl,
  inr,
}
use gno_ibc_relayer_api.Abi.Outcome.{Error, Outcome, err, ◌>>◌, guard, invalid_data, depth_limit}
use gno_ibc_relayer_api.Abi.Schema.{
  WordType, Field, Fields, word, struct, is_dynamic, static_head_size, head_sizes, word_size,
}
use gno_ibc_relayer_api.Abi.Words.{Value, Values, Decoder, read_word, word_value, resolve}
use gno_ibc_relayer_api.Abi.Decoder.{enter_tuple, array_loop, array_elems, array_at}
use gno_ibc_relayer_api.Abi.Fits.{AreBytes, Fits, AllValues, Ends, Ends-bind, Ends-guard}
use gno_ibc_relayer_api.Abi.Reads.{read_word-Ends, word_value-Ends}

abbrev pub Total : {A : Type 0} → A → Type 0
Total a = Unit {0}

pub resolve-Ends : (d : Decoder) (start end offset : ℕ) → Ends d Total (resolve start end offset)
unfolding resolve
resolve-Ends d start end offset = ground arith

mutual
  unfolding static_head_size

  pub static_head_size-Ends : (f : Field) (d : Decoder) → Ends d Total (static_head_size f)
  static_head_size-Ends (struct fs) d = head_sizes-Ends fs d
  static_head_size-Ends _ d = tt

  head_sizes-Ends : (fs : Fields) (d : Decoder) → Ends d Total (head_sizes fs)
  head_sizes-Ends Fields.nil d = tt
  head_sizes-Ends (Fields.cons f fs) d =
      Ends-bind d Total Total (static_head_size f) _ (static_head_size-Ends f d)
        λ s _ _. Ends-bind d Total Total (head_sizes fs) _ (head_sizes-Ends fs d) (λ t _ _. tt)

array_loop-Ends :
    (d : Decoder) (P : Value → Type 0) (elem_at : ℕ → Outcome Value) (n i total : ℕ)
    → i + n ≡ total
    → ((j : ℕ) → j < total → Ends d P (elem_at j))
    → Ends d (AllValues P) (array_loop n i elem_at)
unfolding array_loop
array_loop-Ends d P elem_at zero i total e h = tt
array_loop-Ends d P elem_at (suc n) i total e h =
    Ends-bind d P (AllValues P) (elem_at i) _ (h i (omega arith)) λ v _ k.
      Ends-bind d (AllValues P) (AllValues P) (array_loop n (i + 1) elem_at) _
        (array_loop-Ends d P elem_at n (i + 1) total (omega arith) h) (λ vs _ ks. (k, ks))

-- The data that every lemma below is about: bytes, of a length that addresses can reach.
pub record IsInput (d : Decoder) : Type 0 where
  pub are_bytes : AreBytes d.content
  pub addressable : length d.content < 2 ^ 62

module _ (d : Decoder) (input : IsInput d) (end : ℕ) (end_ok : end ≤ length d.content) where
  pub enter_tuple-Ends :
      (P : Values → Type 0) (start depth : ℕ) (fields_at : ℕ → Outcome Values)
      → ((k : ℕ) → Ends d P (fields_at k))
      → Ends d P (enter_tuple d start end depth fields_at)
  unfolding enter_tuple
  enter_tuple-Ends P start depth fields_at h =
      Ends-guard d P (leb (depth + 1) d.max_depth) depth_limit _ λ _.
        Ends-guard d P (leb start end && leb end (length d.content)) invalid_data _
          (λ _. h (depth + 1))

  array_elems-Ends :
      (elem : Field) (head_start n : ℕ) (value static : ℕ → Outcome Value)
      → ((p : ℕ) → Ends d (λ v. Fits elem v) (value p))
      → ((p : ℕ) → Ends d (λ v. Fits elem v) (static p))
      → Ends d (AllValues (λ v. Fits elem v)) (array_elems elem d head_start end n value static)
  unfolding array_elems
  array_elems-Ends elem head_start n value static hv hs = elim (Bool-cases (is_dynamic elem)) [
    | inl dyn ↦
        rw (dyn, array_elems)
          (Ends-guard d (AllValues (λ v. Fits elem v)) (leb (head_start + n * word_size) end)
            invalid_data _
            λ g.
              array_loop-Ends d (λ v. Fits elem v) _ n 0 n (omega arith)
                λ j lt.
                  Ends-bind d (λ v. v < 2 ^ 64) (λ v. Fits elem v)
                    (read_word d (head_start + j * word_size)) _
                    (read_word-Ends d input.are_bytes (head_start + j * word_size) (ground arith))
                    λ offset _ _.
                      Ends-bind d Total (λ v. Fits elem v) (resolve head_start end offset) _
                        (resolve-Ends d head_start end offset) (λ p _ _. hv p))
    | inr static_elem ↦
        rw (static_elem, array_elems)
          (Ends-bind d Total (AllValues (λ v. Fits elem v)) (static_head_size elem) _
            (static_head_size-Ends elem d)
            λ size _ _.
              Ends-guard d (AllValues (λ v. Fits elem v)) (leb (head_start + n * size) end)
                invalid_data _
                λ _.
                  array_loop-Ends d (λ v. Fits elem v) _ n 0 n (omega arith)
                    (λ j _. hs (head_start + j * size)))
  ]

  pub array_at-Ends :
      (elem : Field) (pos depth : ℕ) (value static : ℕ → ℕ → Outcome Value)
      → ((p k : ℕ) → Ends d (λ v. Fits elem v) (value p k))
      → ((p k : ℕ) → Ends d (λ v. Fits elem v) (static p k))
      → Ends d (AllValues (λ v. Fits elem v)) (array_at elem d pos end depth value static)
  unfolding array_at
  array_at-Ends elem pos depth value static hv hs =
      let P : Values → Type 0 = AllValues (λ v. Fits elem v) in
      Ends-guard d P (leb (depth + 1) d.max_depth) depth_limit _ λ _.
        Ends-guard d P (leb (pos + word_size) end) invalid_data _ λ g.
          Ends-bind d (λ v. v < 2 ^ 64) P (read_word d pos) _
            (read_word-Ends d input.are_bytes pos (ground arith))
            λ n _ _. Ends-guard d P (leb n ((end - pos) / word_size)) invalid_data _ λ _.
              array_elems-Ends elem (pos + word_size) n _ _ (λ p. hv p (depth + 1))
                (λ p. hs p (depth + 1))

  pub word-Ends :
      (t : WordType) (pos : ℕ)
      → Ends d
          (λ v. Fits (word t) v)
          (do guard (leb (pos + word_size) end) invalid_data; word_value t d pos)
  word-Ends t pos =
      Ends-guard d (λ v. Fits (word t) v) (leb (pos + word_size) end) invalid_data _
        (λ g. word_value-Ends d input.are_bytes t pos (ground arith))

  pub refused-Ends :
      (P : Value → Type 0) (pos : ℕ) (e : Error)
      → Ends d P (do guard (leb (pos + word_size) end) invalid_data; err e)
  refused-Ends P pos e = Ends-guard d P (leb (pos + word_size) end) invalid_data _ (λ _. tt)
