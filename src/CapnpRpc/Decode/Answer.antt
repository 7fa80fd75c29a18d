-- ===== src/CapnpRpc/Decode/Answer.antt =====
-- `decode_connection_response` on an answer by the schema of src/tunnelrpc_capnp.rs: a
-- ConnectionResponse, whose only pointer leads to the struct of an error or of connection details.
use mathlib.Core.Bool.{Bool, false}
use argo_rust.Base.{
  ℕ, suc, ◌+◌, ◌*◌, ◌/◌, ◌%◌, ◌^◌, ◌<◌, ◌≡◌, ◌==◌, ◌&&◌, if◌then◌else◌, ap, sym, refl, zero, ◌∙◌,
  List, [], ◌∷◌, ◌++◌, some, get_elem?, length, length-append, arith,
}
use argo_rust.CapnpRpc.Bytes.{Bytes, as_bytes}
use argo_rust.CapnpRpc.Wire.{target, struct_at}
use argo_rust.CapnpRpc.Wire.Holds.{get_elem?-append_right}
use argo_rust.CapnpRpc.Decode.{
  returns, returns_or, not_a_list, fails, rejected, unknown, unknown_error, decode_struct,
  decode_connection_response,
}
use argo_rust.CapnpRpc.Decode.Text.{without_text}
use argo_rust.CapnpRpc.Decode.Response.{decode_framed, error_lem, details_lem}
use argo_rust.Schema.{StructSize}
use argo_rust.Schema.ConnectionResponse
use argo_rust.Schema.ConnectionError
use argo_rust.Schema.ConnectionDetails
use argo_rust.CapnpRpc.Wire.Followed.{struct_at-sizes}

-- A frame of eight bytes and a segment: its root leads to a struct behind `front` that has the sizes
-- of a ConnectionResponse, the data word `w` and the pointer `a`, with the words `post` behind it.
pub record IsAnswer (frame : Bytes) (root : ℕ) (front : List ℕ) (w a : ℕ) (post : List ℕ)
    : Type 0 where
  pub frame_size : length frame ≡ 8
  pub root_word : root < 2 ^ 64
  pub root_kind : root % 4 ≡ 0
  pub root_target : target 0 root ≡ some (suc (length front))
  pub data_words : root / 2 ^ 32 % 2 ^ 16 ≡ StructSize.data_words ConnectionResponse.struct_size
  pub pointers : root / 2 ^ 48 ≡ StructSize.pointers ConnectionResponse.struct_size
  pub pointer_word : a < 2 ^ 64
  pub short : length (root ∷ front ++ w ∷ a ∷ post) < 2 ^ 32

-- The pointer at a word leads to a struct of the size.
abbrev pub LeadsTo : List ℕ → ℕ → StructSize → ℕ → Type 0
LeadsTo ws i z t = struct_at ws i (StructSize.data_words z) (StructSize.pointers z) ≡ some t

module _ (checked : Bool) (lossy : Bytes → Bytes) where
  module _ (frame : Bytes) (root : ℕ) (front : List ℕ) (w a : ℕ) (post : List ℕ)
      (v : IsAnswer frame root front w a post) where
    framed_lem :
        decode_connection_response checked lossy (frame ++ as_bytes (root ∷ front ++ w ∷ a ∷ post))
        ≡ decode_struct checked lossy
            (suc (length front) * 8)
            1
            (as_bytes (root ∷ front ++ w ∷ a ∷ post))
    framed_lem =
        let ws : List ℕ = front ++ w ∷ a ∷ post in
        let total = length-append {0} front (w ∷ a ∷ post) in
        let short = v.short in
        let pointers = v.pointers in
        let words = v.data_words in
        decode_framed checked lossy frame root ws v.frame_size v.root_word (omega arith)
          (omega arith) v.root_kind v.root_target (omega arith)
        ∙ ap
            (λ d.
              decode_struct checked lossy (suc (length front) * 8) d
                (as_bytes (root ∷ front ++ w ∷ a ∷ post)))
            words

    pointer_at : get_elem? (root ∷ front ++ w ∷ a ∷ post) (suc (length front) + 1) ≡ some a
    pointer_at = get_elem?-append_right (root ∷ front) (w ∷ a ∷ post) 1

    -- A pointer that leads to a struct of pointers is no pointer to bytes, and not null.
    struct_pointer :
        (z : StructSize) (t : ℕ)
        → 0 < StructSize.pointers z
        → LeadsTo (root ∷ front ++ w ∷ a ∷ post) (suc (length front) + 1) z t
        → ((a % 4 == 1 && a / 2 ^ 32 % 8 == 2) ≡ false)
          × (without_text checked lossy a ≡ fails not_a_list)
    struct_pointer z t some_pointers leads =
        let (p, found, kind, data_words, count) =
          struct_at-sizes (root ∷ front ++ w ∷ a ∷ post) (suc (length front) + 1)
            (StructSize.data_words z) (StructSize.pointers z) t leads in
        let same : p ≡ a = held (sym found ∙ pointer_at) in (ground arith, ground arith)
      where
        held : {m n : ℕ} → some m ≡ some n → m ≡ n
        held e = cc e

    -- On an answer by the schema with an error, whose pointer leads to the struct of the error, the
    -- call fails with "unknown error", whatever cause that struct has. There is no panic, with or
    -- without overflow checks.
    pub decode_connection_response-error :
        (t : ℕ)
        → w % 2 ^ 16 ≡ 0
        → LeadsTo
            (root ∷ front ++ w ∷ a ∷ post)
            (suc (length front) + 1)
            ConnectionError.struct_size
            t
        → decode_connection_response checked lossy
            (frame ++ as_bytes (root ∷ front ++ w ∷ a ∷ post))
          ≡ fails (rejected unknown_error)
    decode_connection_response-error t none_set leads =
        let (other, no_list) = struct_pointer ConnectionError.struct_size t (omega arith) leads in
        framed_lem
        ∙ error_lem checked lossy (root ∷ front) post w a none_set v.pointer_word other
        ∙ rw no_list refl

  -- On an answer by the schema with connection details, whose pointer leads to the struct of the
  -- details right behind the answer, the result does not depend on the name of the location: it is
  -- empty where the data word of that struct, which holds `tunnelIsRemotelyManaged` alone, is 0, and
  -- "unknown" where it is 1, whatever else the segment holds. There is no panic, with or without
  -- overflow checks.
  pub decode_connection_response-details :
      (frame : Bytes) (root : ℕ) (front : List ℕ) (w a managed : ℕ) (post : List ℕ)
      → IsAnswer frame root front w a (managed ∷ post)
      → w % 2 ^ 16 ≡ 1
      → LeadsTo
          (root ∷ front ++ w ∷ a ∷ managed ∷ post)
          (suc (length front) + 1)
          ConnectionDetails.struct_size
          (suc (length front) + 2)
      → managed < 2
      → decode_connection_response checked lossy
          (frame ++ as_bytes (root ∷ front ++ w ∷ a ∷ managed ∷ post))
        ≡ returns (if managed == 0 then [] else unknown)
  decode_connection_response-details frame root front w a managed post v one leads bit =
      let small : managed < 2 ^ 64 = omega arith in
      let other : (managed % 4 == 1 && managed / 2 ^ 32 % 8 == 2) ≡ false = ground arith in
      framed_lem frame root front w a (managed ∷ post) v
      ∙ details_lem checked lossy (root ∷ front) post w a managed one small other
      ∙ flag managed bit
    where
      flag :
          (managed : ℕ)
          → managed < 2
          → returns_or (without_text checked lossy managed) unknown
            ≡ returns (if managed == 0 then [] else unknown)
      flag zero bit = refl
      flag (suc zero) bit = refl
      flag (suc (suc n)) bit = absurd (omega arith)
