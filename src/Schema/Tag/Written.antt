-- ===== src/Schema/Tag/Written.antt =====
-- The builder of `tag` in src/tunnelrpc_capnp.rs writes what its reader reads.
use argo_rust.Base.{[], ◌∷◌, ◌≡◌, refl, ℕ, Str, Result, ok, replicate, ap, ◌∙◌}
use argo_rust.CapnpRpc.Bytes.{Bytes}
use argo_rust.Schema.{Layout}
use argo_rust.Schema.Writes.{LayoutLaws, pointer}
use argo_rust.Schema.Writes.ReadBack.{after_pointer}
use argo_rust.Schema.Tag.{struct_size, get_name, get_value}
use argo_rust.Schema.Tag.Builder

module _ (l : Layout) where
  open l use {Struct}

  -- What the accessors read.
  abbrev pub view : Struct → Result Str Bytes × Result Str Bytes
  view s = (get_name l s, get_value l s)

module _ (l : Layout) (laws : LayoutLaws l) where
  open l use {Struct, to_text, get_text}

  set_name-view :
      (name : Bytes) (s : Struct)
      → LayoutLaws.size laws s ≡ struct_size
      → view l (Builder.set_name l name s) ≡ (ok name, get_value l s)
  set_name-view name s sized =
      let w = after_pointer l laws struct_size s sized (pointer 0 (to_text name) ∷ []) refl in
      λ i. ((ap get_text (w 0) ∙ LayoutLaws.get_text-to_text laws name) i, ap get_text (w 1) i)

  init_name-view :
      (fill_name : Bytes → Bytes) (count : ℕ) (s : Struct)
      → LayoutLaws.size laws s ≡ struct_size
      → view l (Builder.init_name l count fill_name s)
        ≡ (ok (fill_name (replicate count 0)), get_value l s)
  init_name-view fill_name count s sized =
      let w =
        after_pointer l laws struct_size s sized
          (pointer 0 (to_text (fill_name (replicate count 0))) ∷ []) refl in
      λ i. (
        (ap get_text (w 0) ∙ LayoutLaws.get_text-to_text laws (fill_name (replicate count 0))) i,
        ap get_text (w 1) i,
      )

  set_value-view :
      (value : Bytes) (s : Struct)
      → LayoutLaws.size laws s ≡ struct_size
      → view l (Builder.set_value l value s) ≡ (get_name l s, ok value)
  set_value-view value s sized =
      let w = after_pointer l laws struct_size s sized (pointer 1 (to_text value) ∷ []) refl in
      λ i. (ap get_text (w 0) i, (ap get_text (w 1) ∙ LayoutLaws.get_text-to_text laws value) i)

  init_value-view :
      (count : ℕ) (fill_value : Bytes → Bytes) (s : Struct)
      → LayoutLaws.size laws s ≡ struct_size
      → view l (Builder.init_value l count fill_value s)
        ≡ (get_name l s, ok (fill_value (replicate count 0)))
  init_value-view count fill_value s sized =
      let w =
        after_pointer l laws struct_size s sized
          (pointer 1 (to_text (fill_value (replicate count 0))) ∷ []) refl in
      λ i. (
        ap get_text (w 0) i,
        (ap get_text (w 1) ∙ LayoutLaws.get_text-to_text laws (fill_value (replicate count 0))) i,
      )

  -- On a struct of the size, each write of the builder of `tag` changes what the accessor
  -- of its name reads, to what was written, and no other field.
  pub tag-view :
      (s : Struct) (name : Bytes) (fill_name : Bytes → Bytes) (count : ℕ) (value : Bytes)
      (fill_value : Bytes → Bytes)
      → LayoutLaws.size laws s ≡ struct_size
      → (view l (Builder.set_name l name s) ≡ (ok name, get_value l s))
        × (view l (Builder.init_name l count fill_name s)
            ≡ (ok (fill_name (replicate count 0)), get_value l s))
        × (view l (Builder.set_value l value s) ≡ (get_name l s, ok value))
        × (view l (Builder.init_value l count fill_value s)
            ≡ (get_name l s, ok (fill_value (replicate count 0))))
  tag-view s name fill_name count value fill_value sized = (
    set_name-view name s sized,
    init_name-view fill_name count s sized,
    set_value-view value s sized,
    init_value-view count fill_value s sized,
  )
