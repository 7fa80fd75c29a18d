-- ===== src/Schema/UpdateConfigurationParams/Written.antt =====
-- The builder of `update_configuration_params` in src/tunnelrpc_capnp.rs writes what its reader reads.
use argo_rust.Base.{
  [], ◌∷◌, ◌≡◌, refl, ℕ, Str, Result, ok, replicate, arith, ap, ◌∙◌, ◌<◌, ◌^◌, ◌≤◌,
}
use argo_rust.CapnpRpc.Bytes.{Bytes}
use argo_rust.Schema.{Layout, i32, width}
use argo_rust.Schema.Writes.{LayoutLaws, pointer, data_field}
use argo_rust.Schema.Writes.ReadBack.{after_pointer, after_number}
use argo_rust.Schema.UpdateConfigurationParams.{struct_size, get_version, get_config}
use argo_rust.Schema.UpdateConfigurationParams.Builder

module _ (l : Layout) where
  open l use {Struct}

  -- What the accessors read.
  abbrev pub view : Struct → ℕ × Result Str Bytes
  view s = (get_version l s, get_config l s)

module _ (l : Layout) (laws : LayoutLaws l) where
  open l use {Struct, to_data, get_data}

  set_version-view :
      (version : ℕ) (s : Struct)
      → LayoutLaws.size laws s ≡ struct_size
      → version < 2 ^ width i32
      → view l (Builder.set_version l version s) ≡ (version, get_config l s)
  set_version-view version s sized version_fits =
      let w = after_pointer l laws struct_size s sized (data_field i32 0 version ∷ []) refl in
      let n = after_number l laws struct_size s sized (data_field i32 0 version ∷ []) refl in
      λ i. (n i32 0 refl (version_fits, tt) i, ap get_data (w 0) i)

  set_config-view :
      (config : Bytes) (s : Struct)
      → LayoutLaws.size laws s ≡ struct_size
      → view l (Builder.set_config l config s) ≡ (get_version l s, ok config)
  set_config-view config s sized =
      let none_fits : 0 ≤ 0 = omega arith in
      let w = after_pointer l laws struct_size s sized (pointer 0 (to_data config) ∷ []) refl in
      let n = after_number l laws struct_size s sized (pointer 0 (to_data config) ∷ []) refl in
      λ i. (
        n i32 0 refl (none_fits, tt) i,
        (ap get_data (w 0) ∙ LayoutLaws.get_data-to_data laws config) i,
      )

  init_config-view :
      (fill_config : Bytes → Bytes) (count : ℕ) (s : Struct)
      → LayoutLaws.size laws s ≡ struct_size
      → view l (Builder.init_config l count fill_config s)
        ≡ (get_version l s, ok (fill_config (replicate count 0)))
  init_config-view fill_config count s sized =
      let none_fits : 0 ≤ 0 = omega arith in
      let w =
        after_pointer l laws struct_size s sized
          (pointer 0 (to_data (fill_config (replicate count 0))) ∷ []) refl in
      let n =
        after_number l laws struct_size s sized
          (pointer 0 (to_data (fill_config (replicate count 0))) ∷ []) refl in
      λ i. (
        n i32 0 refl (none_fits, tt) i,
        (ap get_data (w 0) ∙ LayoutLaws.get_data-to_data laws (fill_config (replicate count 0))) i,
      )

  -- On a struct of the size, each write of the builder of `update_configuration_params` changes what the accessor
  -- of its name reads, to what was written where the number fits, and no other field.
  pub update_configuration_params-view :
      (s : Struct) (version : ℕ) (config : Bytes) (fill_config : Bytes → Bytes) (count : ℕ)
      → LayoutLaws.size laws s ≡ struct_size
      → version < 2 ^ width i32
      → (view l (Builder.set_version l version s) ≡ (version, get_config l s))
        × (view l (Builder.set_config l config s) ≡ (get_version l s, ok config))
        × (view l (Builder.init_config l count fill_config s)
            ≡ (get_version l s, ok (fill_config (replicate count 0))))
  update_configuration_params-view s version config fill_config count sized version_fits = (
    set_version-view version s sized version_fits,
    set_config-view config s sized,
    init_config-view fill_config count s sized,
  )
