-- ===== src/Schema/UpdateConfigurationResults/Written.antt =====
-- The builder of `update_configuration_results` in src/tunnelrpc_capnp.rs writes what its reader reads.
use argo_rust.Base.{[], ◌∷◌, ◌≡◌, refl, Str, Result, ok, ap, ◌∙◌, ◌>>=◌}
use argo_rust.Schema.{Layout}
use argo_rust.Schema.Writes.{LayoutLaws, pointer}
use argo_rust.Schema.Writes.ReadBack.{after_pointer}
use argo_rust.Schema.UpdateConfigurationResponse
use argo_rust.Schema.UpdateConfigurationResults.{struct_size, get_result}
use argo_rust.Schema.UpdateConfigurationResults.Builder

module _ (l : Layout) where
  open l use {Struct}

  -- What the accessors read.
  abbrev pub view : Struct → Result Str Struct
  view s = get_result l s

module _ (l : Layout) (laws : LayoutLaws l) where
  open l use {Struct, init_struct, to_struct, get_struct}

  set_result-view :
      (result : Struct) (s : Struct)
      → LayoutLaws.size laws s ≡ struct_size
      → (do t ← Builder.set_result l result s; ok (view l t)) ≡ ok (ok result)
  set_result-view result s sized =
      let w = after_pointer l laws struct_size s sized (pointer 0 (to_struct result) ∷ []) refl in
      rw (LayoutLaws.set_struct_lem laws result)
        (λ i. ok ((ap get_struct (w 0) ∙ LayoutLaws.get_struct-to_struct laws result) i))

  init_result-view :
      (fill_result : Struct → Struct) (s : Struct)
      → LayoutLaws.size laws s ≡ struct_size
      → view l (Builder.init_result l fill_result s)
        ≡ (ok (fill_result (init_struct UpdateConfigurationResponse.struct_size)))
  init_result-view fill_result s sized =
      let w =
        after_pointer l laws struct_size s sized
          (pointer 0 (to_struct (fill_result (init_struct UpdateConfigurationResponse.struct_size)))
            ∷ [])
          refl in
      λ i.
        (ap get_struct (w 0)
            ∙ LayoutLaws.get_struct-to_struct laws
                (fill_result (init_struct UpdateConfigurationResponse.struct_size)))
          i

  -- On a struct of the size, each write of the builder of `update_configuration_results` changes what the accessor
  -- of its name reads, to what was written, and no other field.
  pub update_configuration_results-view :
      (s : Struct) (result : Struct) (fill_result : Struct → Struct)
      → LayoutLaws.size laws s ≡ struct_size
      → ((do t ← Builder.set_result l result s; ok (view l t)) ≡ ok (ok result))
        × (view l (Builder.init_result l fill_result s)
            ≡ (ok (fill_result (init_struct UpdateConfigurationResponse.struct_size))))
  update_configuration_results-view s result fill_result sized =
      (set_result-view result s sized, init_result-view fill_result s sized)
