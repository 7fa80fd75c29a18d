-- ===== src/CapnpRpc/Encode/Framing.antt =====
-- The frame of a message: `finish` and `strip_framing`, and the registration in its frame.
use mathlib.Core.Option
use argo_rust.Base.{
  ℕ, ◌+◌, ◌-◌, ◌%◌, ◌^◌, ◌<◌, ◌≡◌, refl, ap, subst, ◌∙◌, List, [], ◌∷◌, ◌++◌, some, length, take,
  drop, All, arith, append-nil, ltb, leb, if◌then◌else◌,
}
use argo_rust.CapnpRpc.Bytes.{Bytes, IsWord, to_le, from_le, as_bytes, words_of}
use argo_rust.CapnpRpc.Bytes.Laws.{from_le-to_le, words_of-as_bytes}
use argo_rust.CapnpRpc.SegBuilder.{struct_ptr, finish}
use argo_rust.CapnpRpc.SegBuilder.Pointers.{struct_ptr_lem}
use argo_rust.CapnpRpc.SegBuilder.Steps.{on}
use argo_rust.CapnpRpc.Wire.{target}
use argo_rust.CapnpRpc.Encode.{RegisterArgs, encode_register_connection, strip_framing}
use argo_rust.CapnpRpc.Encode.Allocated.{IsValid, slots}
use argo_rust.CapnpRpc.Encode.Bounds.{size, length-filled, filled-IsWord}
use argo_rust.CapnpRpc.Encode.Wired.{filled, fill_lem}
use argo_rust.CapnpRpc.Encode.Registration.{read_registration}
use argo_rust.CapnpRpc.Encode.Registration.RoundTrip.{read_registration_lem}

long_enough :
    (n : ℕ) (ws : List ℕ) → 16 < n → (if ltb n 16 then [] else if leb n 16 then [] else ws) ≡ ws
long_enough n ws h = ground arith

strip_header :
    (a b c d e f g h i j k l : ℕ) (rest : Bytes)
    → strip_framing (0 ∷ 0 ∷ 0 ∷ 0 ∷ a ∷ b ∷ c ∷ d ∷ e ∷ f ∷ g ∷ h ∷ i ∷ j ∷ k ∷ l ∷ rest)
      ≡ words_of rest
unfolding strip_framing from_le words_of
strip_header a b c d e f g h i j k l [] = refl
strip_header a b c d e f g h i j k l (x ∷ rest) =
    let framed : Bytes = 0 ∷ 0 ∷ 0 ∷ 0 ∷ a ∷ b ∷ c ∷ d ∷ e ∷ f ∷ g ∷ h ∷ i ∷ j ∷ k ∷ l ∷ x ∷ rest in
    long_enough (length framed) (words_of (x ∷ rest)) (omega arith)

-- The words of a segment come back from its frame, whatever root is named.
pub strip_framing-finish :
    (ws : List ℕ) (root d p : ℕ) → All IsWord ws → strip_framing (finish (on ws) root d p) ≡ ws
unfolding finish to_le
strip_framing-finish ws root d p h =
    strip_header _ _ _ _ _ _ _ _ _ _ _ _ (as_bytes ws) ∙ words_of-as_bytes ws h

-- The whole registration: `encode_register_connection` returns, and the words behind its frame hold
-- the arguments.
pub encode_register_connection-strip_framing :
    (a : RegisterArgs)
    → IsValid a
    → size a < 2 ^ 25
    → Option.map
        (λ framed. read_registration (strip_framing framed) 0)
        (encode_register_connection a)
      ≡ some (some a)
unfolding encode_register_connection slots
encode_register_connection-strip_framing a v small =
    let words = filled-IsWord a v small in
    let whole : filled a ++ [] ≡ filled a = append-nil (filled a) in
    let short : length (filled a ++ []) < 2 ^ 26 =
      omega (arith, length-filled a v small, ap (λ (r : List ℕ). length r) whole) in
    let read : read_registration (filled a) 0 ≡ some a =
      subst (λ ws. read_registration ws 0 ≡ some a) whole (read_registration_lem a [] [] v short) in
    rw (fill_lem a v, strip_framing-finish (filled a) 0 1 3 words, read)

-- The first word behind the eight bytes of a frame.
abbrev pub root_of : Bytes → ℕ
unfolding from_le
root_of framed = from_le (take 8 (drop 8 framed))

root_target :
    (r d p : ℕ)
    → r < 2 ^ 29
    → d < 2 ^ 16
    → p < 2 ^ 16
    → target 0 (struct_ptr ((r + 2 ^ 64 - 1) % 2 ^ 64) d p) ≡ some r
unfolding target
root_target r d p h hd hp =
    let value = struct_ptr_lem ((r + 2 ^ 64 - 1) % 2 ^ 64) d p hd hp in rw value (ground arith)

-- The root pointer of a framed message, as the encoding reads it, points to word `root` of the
-- segment, of which it is itself word 0. The word `root` of the builder stands one behind that.
pub finish-target :
    (ws : List ℕ) (root d p : ℕ)
    → root < 2 ^ 29
    → d < 2 ^ 16
    → p < 2 ^ 16
    → target 0 (root_of (finish (on ws) root d p)) ≡ some root
unfolding finish to_le root_of from_le
finish-target ws root d p h hd hp =
    let ptr : ℕ = struct_ptr ((root + 2 ^ 64 - 1) % 2 ^ 64) d p in
    let same : from_le (to_le 8 ptr) ≡ ptr =
      from_le-to_le 8 ptr
        (omega (arith, struct_ptr_lem ((root + 2 ^ 64 - 1) % 2 ^ 64) d p hd hp)) in
    ap (λ v. target 0 v) same ∙ root_target root d p h hd hp
