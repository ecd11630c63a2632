-- ===== src/Abi/Schema.antt =====
-- internal/tools/ethabi/types.go: field kinds, schemas, and the layout of a tuple's head.
use gno_ibc_relayer_api.Prelude.{ℕ, ◌+◌, Bool, true, false, ◌||◌}
use gno_ibc_relayer_api.Abi.Outcome.{Outcome, ok, err, ◌>>=◌, unsupported_type, invalid_schema}

abbrev pub word_size : ℕ
word_size = 32

abbrev pub max_decode_depth : ℕ
max_decode_depth = 256

-- The constants of `Type` whose values fill one word of 32 bytes.
pub data WordType : Type 0 where
  uint8 uint32 uint64 uint256 bytes32 bool address : WordType

-- A `Field` by its `Type`. `struct_nil` and `array_nil` are the fields whose `Sub` or `Elem` is nil,
-- and `unknown` is a `Type` outside the constants. `Sub` and `Elem` are read for no other type.
mutual
  pub data Field : Type 0 where
    word : WordType → Field
    bytes : Field
    string : Field
    struct : Fields → Field
    struct_nil : Field
    array : Field → Field
    array_nil : Field
    unknown : Field

  -- `Schema.Fields`
  pub data Fields : Type 0 where
    nil : Fields
    cons : Field → Fields → Fields

unfoldable mutual
  pub is_dynamic : Field → Bool
  is_dynamic (word t) = false
  is_dynamic bytes = true
  is_dynamic string = true
  is_dynamic (struct fs) = any_dynamic fs
  is_dynamic struct_nil = false
  is_dynamic (array e) = true
  is_dynamic array_nil = true
  is_dynamic unknown = false

  pub any_dynamic : Fields → Bool
  any_dynamic nil = false
  any_dynamic (cons f fs) = is_dynamic f || any_dynamic fs

unfoldable mutual
  pub static_head_size : Field → Outcome ℕ
  static_head_size (word t) = ok word_size
  static_head_size bytes = err unsupported_type
  static_head_size string = err unsupported_type
  static_head_size (struct fs) = head_sizes fs
  static_head_size struct_nil = err invalid_schema
  static_head_size (array e) = err unsupported_type
  static_head_size array_nil = err unsupported_type
  static_head_size unknown = err unsupported_type

  -- the loop of the struct case, as a sum from the end
  pub head_sizes : Fields → Outcome ℕ
  head_sizes nil = ok 0
  head_sizes (cons f fs) = do s ← static_head_size f; total ← head_sizes fs; ok (s + total)
