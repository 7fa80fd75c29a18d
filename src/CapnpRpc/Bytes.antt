-- ===== src/CapnpRpc/Bytes.antt =====
-- A `Vec<u64>` and its bytes: `to_le_bytes`, `from_le_bytes`, the slice that `as_bytes_mut` gives,
-- and writes at a position. A write out of bounds panics, which is `none`.
pub mod Laws
use argo_rust.Base.{
  ℕ, zero, suc, ◌+◌, ◌*◌, ◌/◌, ◌%◌, ◌^◌, ◌<◌, List, [], ◌∷◌, ◌++◌, Option, none, some, All,
  and_then,
}
use mathlib.Core.Option

abbrev pub Bytes : Type 0
Bytes = List ℕ

abbrev pub IsByte : ℕ → Type 0
IsByte b = b < 256

abbrev pub IsWord : ℕ → Type 0
IsWord w = w < 2 ^ 64

-- `to_le_bytes` of an unsigned integer of `n` bytes.
unfoldable pub to_le : ℕ → ℕ → Bytes
to_le zero w = []
to_le (suc n) w = (w % 256) ∷ to_le n (w / 256)

-- `from_le_bytes`.
unfoldable pub from_le : Bytes → ℕ
from_le [] = 0
from_le (b ∷ bs) = b + 256 * from_le bs

-- The memory of the words on a little-endian machine.
unfoldable pub as_bytes : List ℕ → Bytes
unfolding to_le
as_bytes [] = []
as_bytes (w ∷ ws) = to_le 8 w ++ as_bytes ws

-- The words that whole groups of eight bytes make; `chunks_exact(8)` drops what is left over.
unfoldable pub words_of : Bytes → List ℕ
unfolding from_le
words_of (a ∷ b ∷ c ∷ d ∷ e ∷ f ∷ g ∷ h ∷ rest) =
    from_le (a ∷ b ∷ c ∷ d ∷ e ∷ f ∷ g ∷ h ∷ []) ∷ words_of rest
words_of _ = []

-- `v[i] = x`.
unfoldable pub store {ℓ} : {A : Type ℓ} → List A → ℕ → A → Option (List A)
store [] i x = none
store (y ∷ ys) zero x = some (x ∷ ys)
store (y ∷ ys) (suc i) x = Option.map (λ r. y ∷ r) (store ys i x)

-- `dst[start..start + src.len()].copy_from_slice(src)`.
unfoldable pub copy_from_slice {ℓ} : {A : Type ℓ} → List A → ℕ → List A → Option (List A)
copy_from_slice dst zero [] = some dst
copy_from_slice [] zero (x ∷ src) = none
copy_from_slice (y ∷ dst) zero (x ∷ src) = Option.map (λ r. x ∷ r) (copy_from_slice dst zero src)
copy_from_slice [] (suc i) src = none
copy_from_slice (y ∷ dst) (suc i) src = Option.map (λ r. y ∷ r) (copy_from_slice dst i src)

-- A write of bytes into the memory of the words.
unfoldable pub write_at : List ℕ → ℕ → Bytes → Option (List ℕ)
unfolding as_bytes words_of copy_from_slice
write_at ws i src = Option.map words_of (copy_from_slice (as_bytes ws) i src)
