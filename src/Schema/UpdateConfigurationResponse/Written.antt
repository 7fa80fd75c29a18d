-- ===== src/Schema/UpdateConfigurationResponse/Written.antt =====
-- The builder of `update_configuration_response` in src/tunnelrpc_capnp.rs writes what its reader reads.
use argo_rust.Base.{
  [], ◌∷◌, ◌≡◌, refl, ℕ, Str, Result, ok, replicate, arith, ap, ◌∙◌, ◌<◌, ◌^◌, ◌≤◌,
}
use argo_rust.CapnpRpc.Bytes.{Bytes}
use argo_rust.Schema.{Layout, i32, width}
use argo_rust.Schema.Writes.{LayoutLaws, pointer, data_field}
use argo_rust.Schema.Writes.ReadBack.{after_pointer, after_number}
use argo_rust.Schema.UpdateConfigurationResponse.{struct_size, get_latest_applied_version, get_err}
use argo_rust.Schema.UpdateConfigurationResponse.Builder

module _ (l : Layout) where
  open l use {Struct}

  -- What the accessors read.
  abbrev pub view : Struct → ℕ × Result Str Bytes
  view s = (get_latest_applied_version l s, get_err l s)

module _ (l : Layout) (laws : LayoutLaws l) where
  open l use {Struct, to_text, get_text}

  set_latest_applied_version-view :
      (latest_applied_version : ℕ) (s : Struct)
      → LayoutLaws.size laws s ≡ struct_size
      → latest_applied_version < 2 ^ width i32
      → view l (Builder.set_latest_applied_version l latest_applied_version s)
        ≡ (latest_applied_version, get_err l s)
  set_latest_applied_version-view latest_applied_version s sized latest_applied_version_fits =
      let w =
        after_pointer l laws struct_size s sized (data_field i32 0 latest_applied_version ∷ [])
          refl in
      let n =
        after_number l laws struct_size s sized (data_field i32 0 latest_applied_version ∷ [])
          refl in
      λ i. (n i32 0 refl (latest_applied_version_fits, tt) i, ap get_text (w 0) i)

  set_err-view :
      (err : Bytes) (s : Struct)
      → LayoutLaws.size laws s ≡ struct_size
      → view l (Builder.set_err l err s) ≡ (get_latest_applied_version l s, ok err)
  set_err-view err s sized =
      let none_fits : 0 ≤ 0 = omega arith in
      let w = after_pointer l laws struct_size s sized (pointer 0 (to_text err) ∷ []) refl in
      let n = after_number l laws struct_size s sized (pointer 0 (to_text err) ∷ []) refl in
      λ i. (
        n i32 0 refl (none_fits, tt) i,
        (ap get_text (w 0) ∙ LayoutLaws.get_text-to_text laws err) i,
      )

  init_err-view :
      (fill_err : Bytes → Bytes) (count : ℕ) (s : Struct)
      → LayoutLaws.size laws s ≡ struct_size
      → view l (Builder.init_err l count fill_err s)
        ≡ (get_latest_applied_version l s, ok (fill_err (replicate count 0)))
  init_err-view fill_err count s sized =
      let none_fits : 0 ≤ 0 = omega arith in
      let w =
        after_pointer l laws struct_size s sized
          (pointer 0 (to_text (fill_err (replicate count 0))) ∷ []) refl in
      let n =
        after_number l laws struct_size s sized
          (pointer 0 (to_text (fill_err (replicate count 0))) ∷ []) refl in
      λ i. (
        n i32 0 refl (none_fits, tt) i,
        (ap get_text (w 0) ∙ LayoutLaws.get_text-to_text laws (fill_err (replicate count 0))) i,
      )

  -- On a struct of the size, each write of the builder of `update_configuration_response` changes what the accessor
  -- of its name reads, to what was written where the number fits, and no other field.
  pub update_configuration_response-view :
      (s : Struct) (latest_applied_version : ℕ) (err : Bytes) (fill_err : Bytes → Bytes) (count : ℕ)
      → LayoutLaws.size laws s ≡ struct_size
      → latest_applied_version < 2 ^ width i32
      → (view l (Builder.set_latest_applied_version l latest_applied_version s)
          ≡ (latest_applied_version, get_err l s))
        × (view l (Builder.set_err l err s) ≡ (get_latest_applied_version l s, ok err))
        × (view l (Builder.init_err l count fill_err s)
            ≡ (get_latest_applied_version l s, ok (fill_err (replicate count 0))))
  update_configuration_response-view s latest_applied_version err fill_err count sized
        latest_applied_version_fits =
      (
        set_latest_applied_version-view latest_applied_version s sized latest_applied_version_fits,
        set_err-view err s sized,
        init_err-view fill_err count s sized,
      )
