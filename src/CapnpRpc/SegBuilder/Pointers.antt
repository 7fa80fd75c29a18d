-- ===== src/CapnpRpc/SegBuilder/Pointers.antt =====
-- The pointer words as sums of their fields.
use Prim.Native.Nat.{bit_and, bit_or}
use argo_rust.Base.{ℕ, ◌+◌, ◌*◌, ◌%◌, ◌^◌, ◌<◌, ◌≡◌, arith}
use argo_rust.Base.Bits.{or_low_high, or_high_low, and_mask}
use argo_rust.CapnpRpc.SegBuilder.{shl64, shl32, u32, join_halves, struct_ptr, list_ptr}

join_halves_lem : (lo hi : ℕ) → lo < 2 ^ 32 → hi < 2 ^ 32 → join_halves lo hi ≡ lo + hi * 2 ^ 32
join_halves_lem lo hi h k =
    let fits : hi * 2 ^ 32 % 2 ^ 64 ≡ hi * 2 ^ 32 = omega arith in rw fits (or_low_high 32 lo hi h)

-- The low 30 bits of the offset are kept.
pub struct_ptr_lem :
    (o d p : ℕ)
    → d < 2 ^ 16
    → p < 2 ^ 16
    → struct_ptr o d p ≡ 4 * (o % 2 ^ 30) + 2 ^ 32 * d + 2 ^ 48 * p
unfolding struct_ptr
struct_ptr_lem o d p hd hp =
    let lo : u32 (bit_and (shl64 o 2) 0xFFFF_FFFF) ≡ 4 * (o % 2 ^ 30) =
      omega (arith, and_mask 32 (shl64 o 2)) in
    let hi : bit_or d (shl32 p 16) ≡ d + p * 2 ^ 16 =
      (let fits : shl32 p 16 ≡ p * 2 ^ 16 = omega arith in rw fits (or_low_high 16 d p hd)) in
    rw (lo, hi)
      (omega
        (arith, join_halves_lem (4 * (o % 2 ^ 30)) (d + p * 2 ^ 16) (omega arith) (omega arith)))

-- The count keeps its low 29 bits.
pub list_ptr_lem :
    (o n e : ℕ) → n < 2 ^ 29 → e < 8 → list_ptr o n e ≡ 4 * (o % 2 ^ 30) + 1 + 2 ^ 32 * (e + 8 * n)
unfolding list_ptr
list_ptr_lem o n e hn he =
    let tagged : bit_or (shl64 o 2) 1 ≡ 4 * (o % 2 ^ 62) + 1 =
      (let shape : shl64 o 2 ≡ o % 2 ^ 62 * 2 ^ 2 = omega arith in
        rw shape (omega (arith, or_high_low 2 (o % 2 ^ 62) 1 (omega arith)))) in
    let lo : u32 (bit_and (bit_or (shl64 o 2) 1) 0xFFFF_FFFF) ≡ 4 * (o % 2 ^ 30) + 1 =
      rw tagged (omega (arith, and_mask 32 (4 * (o % 2 ^ 62) + 1))) in
    let hi : bit_or (shl32 (u32 n) 3) e ≡ n * 2 ^ 3 + e =
      (let fits : shl32 (u32 n) 3 ≡ n * 2 ^ 3 = omega arith in rw fits (or_high_low 3 n e he)) in
    rw (lo, hi)
      (omega
        (arith, join_halves_lem (4 * (o % 2 ^ 30) + 1) (n * 2 ^ 3 + e) (omega arith) (omega arith)))
