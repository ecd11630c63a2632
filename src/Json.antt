-- ===== src/Json.antt =====
-- encoding/json as internal/indexer/parser.go uses it: values, and `json.Unmarshal` into structs.
-- Text is given parsed; a `jsonb` column holds no other text. Members are matched as Unmarshal does,
-- whatever the case of their ASCII letters, and the last one of a key counts. That is a simplification for
-- keys that differ in case only: there Unmarshal keeps the earlier value if the last one is null, and
-- merges objects.
use Prim.Native.String.{String}
use gno_ibc_relayer_api.Prelude.{
  ◌+◌, ◌-◌, ◌^◌, ◌&&◌, Bool, Option, none, some, List, [], ◌∷◌, leb, if◌then◌else◌,
}
use gno_ibc_relayer_api.Prelude.Int.{ℤ, pos, negsuc}
use gno_ibc_relayer_api.Prelude.Strings.{Bytes, codes, str_eq}

mutual
  -- `fraction` stands for a number literal that is no integer.
  pub data Json : Type 0 where
    null fraction : Json
    boolean : Bool → Json
    number : ℤ → Json
    string : Bytes → Json
    array : Items → Json
    object : Members → Json

  pub data Items : Type 0 where
    nil : Items
    cons : Json → Items → Items

  pub data Members : Type 0 where
    end : Members
    member : Bytes → Json → Members → Members

-- A `json.RawMessage`, or a column read as `[]byte`. `none` is text that is no JSON, such as the empty
-- text of a member that is missing.
abbrev pub Raw : Type 0
Raw = Option Json

infixl 5 ◌>>=◌
abbrev pub ◌>>=◌ {ℓ κ} : {A : Type ℓ} {B : Type κ} → Option A → (A → Option B) → Option B
none >>= f = none
some a >>= f = f a

unfoldable pub lower : Bytes → Bytes
lower [] = []
lower (c ∷ s) = (if leb b'A' c && leb c b'Z' then c + 32 else c) ∷ lower s

unfoldable pub raw_member : Bytes → Members → Raw
raw_member k end = none
raw_member k (member j v ms) = elim (raw_member k ms) [
  | some w ↦ some w
  | none ↦ if str_eq (lower j) k then some v else none
]

-- `json.Unmarshal` of a struct: its members. JSON null leaves the struct at its zero value.
abbrev pub members_of : Raw → Option Members
members_of (some (object ms)) = some ms
members_of (some null) = some end
members_of _ = none

-- A string field: the zero value if it is missing or null, an error at another kind of value.
abbrev pub string_of : Raw → Option Bytes
string_of none = some []
string_of (some null) = some []
string_of (some (string s)) = some s
string_of _ = none

-- The range check of an `int` or `int64` field.
abbrev pub in_int64 : ℤ → Bool
in_int64 (pos n) = leb n (2 ^ 63 - 1)
in_int64 (negsuc n) = leb n (2 ^ 63 - 1)

abbrev pub int_of : Raw → Option ℤ
int_of none = some (pos 0)
int_of (some null) = some (pos 0)
int_of (some (number n)) = if in_int64 n then some n else none
int_of _ = none

-- A field of struct type.
abbrev pub struct_of : Raw → Option Members
struct_of none = some end
struct_of (some v) = members_of (some v)

-- A field of slice type, or `json.Unmarshal` of a slice if the member is there.
abbrev pub slice_of : Raw → Option Items
slice_of none = some nil
slice_of (some null) = some nil
slice_of (some (array vs)) = some vs
slice_of _ = none

unfoldable pub elements : Items → List Json
elements nil = []
elements (cons v vs) = v ∷ elements vs

abbrev pub string_at : String → Members → Option Bytes
string_at k ms = string_of (raw_member (codes k) ms)

abbrev pub int_at : String → Members → Option ℤ
int_at k ms = int_of (raw_member (codes k) ms)

abbrev pub struct_at : String → Members → Option Members
struct_at k ms = struct_of (raw_member (codes k) ms)

abbrev pub raw_at : String → Members → Raw
raw_at k ms = raw_member (codes k) ms
