-- ===== src/Schema/ConnectionError/Written.antt =====
-- The builder of `connection_error` in src/tunnelrpc_capnp.rs writes what its reader reads.
use argo_rust.Base.{
  [], ◌∷◌, ◌≡◌, refl, ℕ, Bool, Str, Result, ok, replicate, arith, ap, ◌∙◌, ◌<◌, ◌^◌, ◌≤◌,
  if◌then◌else◌, ◌==◌,
}
use argo_rust.CapnpRpc.Bytes.{Bytes}
use argo_rust.Schema.{Layout, boolean, i64, width}
use argo_rust.Schema.Writes.{LayoutLaws, pointer, data_field}
use argo_rust.Schema.Writes.ReadBack.{after_pointer, after_number, bit_fits, bit_test}
use argo_rust.Schema.ConnectionError.{struct_size, get_cause, get_retry_after, get_should_retry}
use argo_rust.Schema.ConnectionError.Builder

module _ (l : Layout) where
  open l use {Struct}

  -- What the accessors read.
  abbrev pub view : Struct → Result Str Bytes × ℕ × Bool
  view s = (get_cause l s, get_retry_after l s, get_should_retry l s)

module _ (l : Layout) (laws : LayoutLaws l) where
  open l use {Struct, to_text, get_text}

  set_cause-view :
      (cause : Bytes) (s : Struct)
      → LayoutLaws.size laws s ≡ struct_size
      → view l (Builder.set_cause l cause s) ≡ (ok cause, get_retry_after l s, get_should_retry l s)
  set_cause-view cause s sized =
      let none_fits : 0 ≤ 0 = omega arith in
      let w = after_pointer l laws struct_size s sized (pointer 0 (to_text cause) ∷ []) refl in
      let n = after_number l laws struct_size s sized (pointer 0 (to_text cause) ∷ []) refl in
      λ i. (
        (ap get_text (w 0) ∙ LayoutLaws.get_text-to_text laws cause) i,
        n i64 0 refl (none_fits, tt) i,
        ap (λ (b : ℕ). b == 1) (n boolean 64 refl (none_fits, tt)) i,
      )

  init_cause-view :
      (fill_cause : Bytes → Bytes) (count : ℕ) (s : Struct)
      → LayoutLaws.size laws s ≡ struct_size
      → view l (Builder.init_cause l count fill_cause s)
        ≡ (ok (fill_cause (replicate count 0)), get_retry_after l s, get_should_retry l s)
  init_cause-view fill_cause count s sized =
      let none_fits : 0 ≤ 0 = omega arith in
      let w =
        after_pointer l laws struct_size s sized
          (pointer 0 (to_text (fill_cause (replicate count 0))) ∷ []) refl in
      let n =
        after_number l laws struct_size s sized
          (pointer 0 (to_text (fill_cause (replicate count 0))) ∷ []) refl in
      λ i. (
        (ap get_text (w 0) ∙ LayoutLaws.get_text-to_text laws (fill_cause (replicate count 0))) i,
        n i64 0 refl (none_fits, tt) i,
        ap (λ (b : ℕ). b == 1) (n boolean 64 refl (none_fits, tt)) i,
      )

  set_retry_after-view :
      (retry_after : ℕ) (s : Struct)
      → LayoutLaws.size laws s ≡ struct_size
      → retry_after < 2 ^ width i64
      → view l (Builder.set_retry_after l retry_after s)
        ≡ (get_cause l s, retry_after, get_should_retry l s)
  set_retry_after-view retry_after s sized retry_after_fits =
      let w = after_pointer l laws struct_size s sized (data_field i64 0 retry_after ∷ []) refl in
      let n = after_number l laws struct_size s sized (data_field i64 0 retry_after ∷ []) refl in
      λ i. (
        ap get_text (w 0) i,
        n i64 0 refl (retry_after_fits, tt) i,
        ap (λ (b : ℕ). b == 1) (n boolean 64 refl (retry_after_fits, tt)) i,
      )

  set_should_retry-view :
      (should_retry : Bool) (s : Struct)
      → LayoutLaws.size laws s ≡ struct_size
      → view l (Builder.set_should_retry l should_retry s)
        ≡ (get_cause l s, get_retry_after l s, should_retry)
  set_should_retry-view should_retry s sized =
      let w =
        after_pointer l laws struct_size s sized
          (data_field boolean 64 (if should_retry then 1 else 0) ∷ []) refl in
      let n =
        after_number l laws struct_size s sized
          (data_field boolean 64 (if should_retry then 1 else 0) ∷ []) refl in
      λ i. (
        ap get_text (w 0) i,
        n i64 0 refl (bit_fits should_retry, tt) i,
        (ap (λ (b : ℕ). b == 1) (n boolean 64 refl (bit_fits should_retry, tt))
              ∙ bit_test should_retry)
            i,
      )

  -- On a struct of the size, each write of the builder of `connection_error` changes what the accessor
  -- of its name reads, to what was written where the number fits, and no other field.
  pub connection_error-view :
      (s : Struct) (cause : Bytes) (fill_cause : Bytes → Bytes) (count : ℕ) (retry_after : ℕ)
      (should_retry : Bool)
      → LayoutLaws.size laws s ≡ struct_size
      → retry_after < 2 ^ width i64
      → (view l (Builder.set_cause l cause s)
          ≡ (ok cause, get_retry_after l s, get_should_retry l s))
        × (view l (Builder.init_cause l count fill_cause s)
            ≡ (ok (fill_cause (replicate count 0)), get_retry_after l s, get_should_retry l s))
        × (view l (Builder.set_retry_after l retry_after s)
            ≡ (get_cause l s, retry_after, get_should_retry l s))
        × (view l (Builder.set_should_retry l should_retry s)
            ≡ (get_cause l s, get_retry_after l s, should_retry))
  connection_error-view s cause fill_cause count retry_after should_retry sized retry_after_fits = (
    set_cause-view cause s sized,
    init_cause-view fill_cause count s sized,
    set_retry_after-view retry_after s sized retry_after_fits,
    set_should_retry-view should_retry s sized,
  )
