-- ===== src/Seed/Draws.antt =====
-- cmd/seed/main.go: what it makes of random numbers.
-- math/rand is a parameter: the numbers that its calls give, by the count of the calls before and the
-- bound of `Intn`. encoding/base64 is one too.
use gno_ibc_relayer_api.Prelude.{
  ℕ, zero, suc, ◌<◌, Bool, Option, none, some, List, [], ◌∷◌, ◌++◌, if◌then◌else◌,
}
use gno_ibc_relayer_api.Prelude.Strings.{Bytes, codes}
use gno_ibc_relayer_api.Abi.Hex.{decode_hex}

pub record Libraries : Type 0 where
  pub intn : ℕ → ℕ → ℕ
  pub intn_below : (k n : ℕ) → 0 < n → intn k n < n
  pub base64 : Bytes → Bytes

-- A computation that draws numbers, with the count of the calls.
abbrev pub Draw : Type 0 → Type 0
Draw A = ℕ → A × ℕ

infixl 5 ◌>>=◌
abbrev pub ◌>>=◌ : {A B : Type 0} → Draw A → (A → Draw B) → Draw B
◌>>=◌ m f k = let (a, j) = m k in f a j

abbrev pub pure : {A : Type 0} → A → Draw A
pure a k = (a, k)

-- `texts[i]`, with an index below the length.
unfoldable pub text_at : List Bytes → ℕ → Bytes
text_at [] i = []
text_at (t ∷ ts) zero = t
text_at (t ∷ ts) (suc i) = text_at ts i

abbrev pub byte_at : Bytes → ℕ → ℕ
byte_at [] i = 0
byte_at (b ∷ bs) zero = b
byte_at (b ∷ bs) (suc i) = byte_at bs i

abbrev hex_chars : Bytes
hex_chars = codes "0123456789abcdef"

-- `b, _ := hex.DecodeString(…)`; the digits that are drawn have no error.
abbrev decoded : Option Bytes → Bytes
decoded (some b) = b
decoded none = []

module _ (lib : Libraries) where
  unfoldable pub draw : ℕ → Draw ℕ
  draw n k = (lib.intn k n, suc k)

  unfoldable pub rand_hex : ℕ → Draw Bytes
  unfolding draw
  rand_hex zero = pure []
  rand_hex (suc n) = do i ← draw 16; rest ← rand_hex n; pure (byte_at hex_chars i ∷ rest)

  unfoldable pub rand_tx_hash : Bool → Draw Bytes
  unfolding rand_hex decode_hex
  rand_tx_hash is_gno = do
    digits ← rand_hex 64
    pure (if is_gno then lib.base64 (decoded (decode_hex digits)) else codes "0x" ++ digits)

  unfoldable pub rand_amount : Draw Bytes
  unfolding draw text_at
  rand_amount = do
    i ← draw 6
    pure (
        text_at
          (codes "1000000"
            ∷ codes "5000000"
            ∷ codes "10000000"
            ∷ codes "50000000"
            ∷ codes "100000000"
            ∷ codes "500000000"
            ∷ [])
          i)
