-- ===== src/Rpc/Pointers.antt =====
-- The pointers of a message that src/capnp_rpc.rs writes by hand, as the accessors of
-- src/tunnelrpc_capnp.rs follow them.
use argo_rust.Base.{
  ℕ, zero, suc, ◌+◌, ◌*◌, ◌/◌, ◌%◌, ◌^◌, ◌<◌, false, List, [], ◌∷◌, some, and_then, ok, ◌≡◌, refl,
  sym, ap, ◌∙◌, ◌==◌, ◌&&◌, leb, get_elem?, get_or, length, take, drop, last, ◌-◌, arith,
}
use native.Mathlib.Nat.{pow-suc, div-div-eq-div-mul, div-add-mod'}
use argo_rust.CapnpRpc.Bytes.{Bytes, as_bytes}
use argo_rust.CapnpRpc.Wire.{
  target, struct_at, list_at, data_at, text_at, texts_at, texts_from, u8_at, when,
}
use argo_rust.CapnpRpc.Wire.Followed.{and_then-eq-some, when-eq-some, struct_at-sizes}
use argo_rust.Schema.Memory.{
  Cell, memory, record_at, wire_struct, wire_text, wire_data, wire_list, wire_cells, from_bits,
  nth_bit,
}
use argo_rust.Schema.Memory.Laws.{bit-odd}
use argo_rust.Schema.{Layout, u8}
use argo_rust.Rpc.{texts_of}

pub wire_struct-struct_at :
    (ws : List ℕ) (i d c t : ℕ)
    → 0 < d + c
    → struct_at ws i d c ≡ some t
    → wire_struct ws i ≡ ok (record_at ws t d c)
wire_struct-struct_at ws i d c t sized e =
    let (p, found, kind, data_words, count) = struct_at-sizes ws i d c t e in
    let not_null : (p == 0) ≡ false = ground arith in
    rw (found, not_null, data_words, count, e) refl

-- The pointer of a list is not null.
abbrev IsPresent : List ℕ → ℕ → Type 0
IsPresent ws i = (p : ℕ) × (get_elem? ws i ≡ some p) × ((p == 0) ≡ false)

list_at-IsPresent : (ws : List ℕ) (i k : ℕ) (r : ℕ × ℕ) → list_at ws i k ≡ some r → IsPresent ws i
unfolding list_at
list_at-IsPresent ws i k r e =
    let (p, found, rest) =
      and_then-eq-some (get_elem? ws i)
        (λ p.
          and_then (target i p)
            (λ t. when (p % 4 == 1 && p / 2 ^ 32 % 8 == k) (some (t, p / 2 ^ 35))))
        e in
    let (u, aimed, last) =
      and_then-eq-some (target i p)
        (λ t. when (p % 4 == 1 && p / 2 ^ 32 % 8 == k) (some (t, p / 2 ^ 35))) rest in
    let (held, same) =
      when-eq-some (p % 4 == 1 && p / 2 ^ 32 % 8 == k) (some (u, p / 2 ^ 35)) last in
    (p, found, ground arith)

data_at-IsPresent : (ws : List ℕ) (i : ℕ) (b : Bytes) → data_at ws i ≡ some b → IsPresent ws i
unfolding data_at
data_at-IsPresent ws i b e =
    let (r, listed, rest) =
      and_then-eq-some (list_at ws i 2)
        (λ (t, count).
          when (leb (t * 8 + count) (length ws * 8))
            (some (take count (drop (t * 8) (as_bytes ws)))))
        e in
    list_at-IsPresent ws i 2 r listed

text_at-IsPresent : (ws : List ℕ) (i : ℕ) (b : Bytes) → text_at ws i ≡ some b → IsPresent ws i
unfolding text_at
text_at-IsPresent ws i b e =
    let (r, held, rest) =
      and_then-eq-some (data_at ws i)
        (λ bytes.
          and_then (last bytes) (λ end. when (end == 0) (some (take (length bytes - 1) bytes))))
        e in
    data_at-IsPresent ws i r held

pub wire_text-text_at :
    (ws : List ℕ) (i : ℕ) (b : Bytes) → text_at ws i ≡ some b → wire_text ws i ≡ ok b
wire_text-text_at ws i b e =
    let (p, found, set) = text_at-IsPresent ws i b e in rw (found, set, e) refl

pub wire_data-data_at :
    (ws : List ℕ) (i : ℕ) (b : Bytes) → data_at ws i ≡ some b → wire_data ws i ≡ ok b
wire_data-data_at ws i b e =
    let (p, found, set) = data_at-IsPresent ws i b e in rw (found, set, e) refl

texts_of-wire_cells :
    (ws : List ℕ) (t count : ℕ) (ts : List Bytes)
    → texts_from ws t count ≡ some ts
    → texts_of memory (wire_cells ws t count) ≡ ok ts
unfolding texts_from
texts_of-wire_cells ws t zero ts e = cc e
texts_of-wire_cells ws t (suc count) ts e =
    let (b, read, rest) =
      and_then-eq-some (text_at ws t)
        (λ text. and_then (texts_from ws (t + 1) count) (λ rest. some (text ∷ rest))) e in
    let (bs, reads, same) =
      and_then-eq-some (texts_from ws (t + 1) count) (λ rest. some (b ∷ rest)) rest in
    rw (wire_text-text_at ws t b read, texts_of-wire_cells ws (t + 1) count bs reads) (cc same)

pub wire_list-texts_at :
    (ws : List ℕ) (i : ℕ) (ts : List Bytes)
    → texts_at ws i ≡ some ts
    → (cells : List Cell) × (wire_list ws i ≡ ok cells) × (texts_of memory cells ≡ ok ts)
unfolding texts_at
wire_list-texts_at ws i ts e =
    let ((t, count), listed, read) =
      and_then-eq-some (list_at ws i 6) (λ (t, count). texts_from ws t count) e in
    let (p, found, set) = list_at-IsPresent ws i 6 (t, count) listed in
    (wire_cells ws t count, rw (found, set, listed) refl, texts_of-wire_cells ws t count ts read)

get_or-get_elem? {ℓ} :
    {A : Type ℓ} (xs : List A) (i : ℕ) (d : A) {x : A} → get_elem? xs i ≡ some x → get_or xs i d ≡ x
get_or-get_elem? [] i d e = cc e
get_or-get_elem? (x ∷ xs) zero d e = cc e
get_or-get_elem? (x ∷ xs) (suc i) d e = get_or-get_elem? xs i d e

mod_double : (v p : ℕ) → v % 2 + 2 * (v / 2 % p) ≡ v % (2 * p)
mod_double v p =
    let twice : 2 * p * (v / 2 / p) ≡ 2 * p * (v / (2 * p)) =
      ap (λ q. 2 * p * q) (div-div-eq-div-mul v 2 p) in
    omega (arith, twice, div-add-mod' v (2 * p), div-add-mod' (v / 2) p)

from_bits-nth_bit_mod : (w v : ℕ) → from_bits w (nth_bit v) ≡ v % 2 ^ w
from_bits-nth_bit_mod zero v = omega arith
from_bits-nth_bit_mod (suc w) v =
    let double : 2 ^ suc w ≡ 2 * 2 ^ w = omega (arith, pow-suc 2 w) in
    rw (bit-odd v, from_bits-nth_bit_mod w (v / 2))
      (mod_double v (2 ^ w) ∙ ap (λ p. v % p) (sym double))

last_byte : (w n : ℕ) → some (w / 256 ^ 0 % 256) ≡ some n → w % 256 ≡ n
last_byte w n e = let value : w / 256 ^ 0 % 256 ≡ n = cc e in omega (arith, value)

-- The first byte of the data section.
pub first_byte-u8_at :
    (ws : List ℕ) (k c n : ℕ)
    → u8_at ws k 0 ≡ some n
    → Layout.get_data_field memory u8 (record_at ws k 1 c) 0 ≡ n
unfolding u8_at
first_byte-u8_at ws k c n e =
    let (w, found, same) = and_then-eq-some (get_elem? ws k) (λ w. some (w / 256 ^ 0 % 256)) e in
    let same_index : k + 0 ≡ k = omega arith in
    let word : get_or ws (k + 0) 0 ≡ w =
      ap (λ i. get_or ws i 0) same_index ∙ get_or-get_elem? ws k 0 found in
    let byte : from_bits 8 (nth_bit (get_or ws (k + 0) 0)) ≡ w % 256 =
      rw word (from_bits-nth_bit_mod 8 w) in
    byte ∙ last_byte w n same
