-- ===== src/Schema/UpdateLocalConfigurationParams/Written.antt =====
-- The builder of `update_local_configuration_params` in src/tunnelrpc_capnp.rs writes what its reader reads.
use argo_rust.Base.{[], ◌∷◌, ◌≡◌, refl, ℕ, Str, Result, ok, replicate, ap, ◌∙◌}
use argo_rust.CapnpRpc.Bytes.{Bytes}
use argo_rust.Schema.{Layout}
use argo_rust.Schema.Writes.{LayoutLaws, pointer}
use argo_rust.Schema.Writes.ReadBack.{after_pointer}
use argo_rust.Schema.UpdateLocalConfigurationParams.{struct_size, get_config}
use argo_rust.Schema.UpdateLocalConfigurationParams.Builder

module _ (l : Layout) where
  open l use {Struct}

  -- What the accessors read.
  abbrev pub view : Struct → Result Str Bytes
  view s = get_config l s

module _ (l : Layout) (laws : LayoutLaws l) where
  open l use {Struct, to_data, get_data}

  set_config-view :
      (config : Bytes) (s : Struct)
      → LayoutLaws.size laws s ≡ struct_size
      → view l (Builder.set_config l config s) ≡ (ok config)
  set_config-view config s sized =
      let w = after_pointer l laws struct_size s sized (pointer 0 (to_data config) ∷ []) refl in
      λ i. (ap get_data (w 0) ∙ LayoutLaws.get_data-to_data laws config) i

  init_config-view :
      (fill_config : Bytes → Bytes) (count : ℕ) (s : Struct)
      → LayoutLaws.size laws s ≡ struct_size
      → view l (Builder.init_config l count fill_config s) ≡ (ok (fill_config (replicate count 0)))
  init_config-view fill_config count s sized =
      let w =
        after_pointer l laws struct_size s sized
          (pointer 0 (to_data (fill_config (replicate count 0))) ∷ []) refl in
      λ i.
        (ap get_data (w 0) ∙ LayoutLaws.get_data-to_data laws (fill_config (replicate count 0))) i

  -- On a struct of the size, each write of the builder of `update_local_configuration_params` changes what the accessor
  -- of its name reads, to what was written, and no other field.
  pub update_local_configuration_params-view :
      (s : Struct) (config : Bytes) (fill_config : Bytes → Bytes) (count : ℕ)
      → LayoutLaws.size laws s ≡ struct_size
      → (view l (Builder.set_config l config s) ≡ (ok config))
        × (view l (Builder.init_config l count fill_config s)
            ≡ (ok (fill_config (replicate count 0))))
  update_local_configuration_params-view s config fill_config count sized =
      (set_config-view config s sized, init_config-view fill_config count s sized)
