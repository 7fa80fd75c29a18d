-- ===== src/CapnpRpc/Encode/Bootstrap.antt =====
-- `build_bootstrap_msg`, read back.
use mathlib.Core.Option
use argo_rust.Base.{
  ℕ, ◌+◌, ◌*◌, ◌/◌, ◌%◌, ◌^◌, ◌<◌, ◌≡◌, ◌==◌, refl, ap, ◌∙◌, List, [], ◌∷◌, Option, some, and_then,
  get_elem?, All, arith,
}
use argo_rust.CapnpRpc.Bytes.{IsWord, store}
use argo_rust.CapnpRpc.SegBuilder.{
  new, alloc, alloc_struct, word_offset, struct_ptr, set_struct_ptr,
}
use argo_rust.CapnpRpc.SegBuilder.Steps.{on, set_u16_lem, set_u32_lem}
use argo_rust.CapnpRpc.Wire.{struct_at, when}
use argo_rust.CapnpRpc.Wire.Holds.{struct_at_lem}
use argo_rust.CapnpRpc.Encode.{fill_bootstrap, build_bootstrap_msg, strip_framing}
use argo_rust.CapnpRpc.Encode.Bounds.{struct_ptr-IsWord}
use argo_rust.CapnpRpc.Encode.Framing.{strip_framing-finish}

-- The message's words.
abbrev pub bootstrap_words : ℕ → List ℕ
bootstrap_words question_id = 8 ∷ struct_ptr (word_offset 2 1) 1 1 ∷ question_id ∷ 0 ∷ []

fill_bootstrap_lem : (q : ℕ) → q < 2 ^ 32 → fill_bootstrap q new ≡ some (0, on (bootstrap_words q))
unfolding fill_bootstrap alloc alloc_struct set_struct_ptr store
fill_bootstrap_lem q h =
    let p : ℕ = struct_ptr (word_offset 2 1) 1 1 in
    let first =
      set_u16_lem [] 0 (0 ∷ 0 ∷ 0 ∷ []) tt (omega arith, (omega arith, (omega arith, tt))) 8
        (omega arith) (omega arith) in
    let third =
      set_u32_lem (8 ∷ p ∷ []) 0 (0 ∷ [])
        (omega arith, (struct_ptr-IsWord _ 1 1 (omega arith) (omega arith), tt)) (omega arith, tt) q
        (omega arith) h in
    let value : 0 / 2 ^ 32 * 2 ^ 32 + q ≡ q = omega arith in rw (first, third, value) refl

-- The question id of the Message at word 0, if it is a Bootstrap: the union of Message has the tag 8
-- for it, and its struct is behind the only pointer.
unfoldable pub read_bootstrap : List ℕ → Option ℕ
read_bootstrap ws = and_then (get_elem? ws 0) (λ tag.
    and_then (struct_at ws 1 1 1)
      (λ t. and_then (get_elem? ws t) (λ w. when (tag % 2 ^ 16 == 8) (some (w % 2 ^ 32)))))

read_bootstrap_lem : (q : ℕ) → q < 2 ^ 32 → read_bootstrap (bootstrap_words q) ≡ some q
unfolding read_bootstrap
read_bootstrap_lem q h =
    let here : struct_at (bootstrap_words q) 1 1 1 ≡ some 2 =
      struct_at_lem (bootstrap_words q) 1 2 1 1 refl (omega arith) (omega arith) (omega arith)
        (omega arith) (omega arith) in
    let whole : q % 2 ^ 32 ≡ q = omega arith in rw (here, whole) refl

-- The message is built without a panic, and its words ask for the bootstrap capability under the
-- question id.
pub build_bootstrap_msg-read_bootstrap :
    (question_id : ℕ)
    → question_id < 2 ^ 32
    → Option.map (λ framed. read_bootstrap (strip_framing framed)) (build_bootstrap_msg question_id)
      ≡ some (some question_id)
unfolding build_bootstrap_msg
build_bootstrap_msg-read_bootstrap q h =
    let p = struct_ptr-IsWord (word_offset 2 1) 1 1 (omega arith) (omega arith) in
    let words : All IsWord (bootstrap_words q) =
      (omega arith, (p, (omega arith, (omega arith, tt)))) in
    rw (fill_bootstrap_lem q h) (
      ap (λ ws. some (read_bootstrap ws)) (strip_framing-finish (bootstrap_words q) 0 1 1 words)
      ∙ ap some (read_bootstrap_lem q h))
