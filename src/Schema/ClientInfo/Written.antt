-- ===== src/Schema/ClientInfo/Written.antt =====
-- The builder of `client_info` in src/tunnelrpc_capnp.rs writes what its reader reads.
use argo_rust.Base.{List, [], ◌∷◌, ◌≡◌, refl, ℕ, Str, Result, ok, replicate, ap, ◌∙◌, ◌>>=◌}
use argo_rust.CapnpRpc.Bytes.{Bytes}
use argo_rust.Schema.{Layout}
use argo_rust.Schema.Writes.{LayoutLaws, pointer}
use argo_rust.Schema.Writes.ReadBack.{after_pointer}
use argo_rust.Schema.ClientInfo.{struct_size, get_client_id, get_features, get_version, get_arch}
use argo_rust.Schema.ClientInfo.Builder

module _ (l : Layout) where
  open l use {Struct, Pointer}

  -- What the accessors read.
  abbrev pub view :
      Struct → Result Str Bytes × Result Str (List Pointer) × Result Str Bytes × Result Str Bytes
  view s = (get_client_id l s, get_features l s, get_version l s, get_arch l s)

module _ (l : Layout) (laws : LayoutLaws l) where
  open l use {Struct, Pointer, null, to_text, to_data, to_list, get_text, get_data, get_list}

  set_client_id-view :
      (client_id : Bytes) (s : Struct)
      → LayoutLaws.size laws s ≡ struct_size
      → view l (Builder.set_client_id l client_id s)
        ≡ (ok client_id, get_features l s, get_version l s, get_arch l s)
  set_client_id-view client_id s sized =
      let w = after_pointer l laws struct_size s sized (pointer 0 (to_data client_id) ∷ []) refl in
      λ i. (
        (ap get_data (w 0) ∙ LayoutLaws.get_data-to_data laws client_id) i,
        ap get_list (w 1) i,
        ap get_text (w 2) i,
        ap get_text (w 3) i,
      )

  init_client_id-view :
      (fill_client_id : Bytes → Bytes) (count : ℕ) (s : Struct)
      → LayoutLaws.size laws s ≡ struct_size
      → view l (Builder.init_client_id l count fill_client_id s)
        ≡ (ok (fill_client_id (replicate count 0)), get_features l s, get_version l s, get_arch l s)
  init_client_id-view fill_client_id count s sized =
      let w =
        after_pointer l laws struct_size s sized
          (pointer 0 (to_data (fill_client_id (replicate count 0))) ∷ []) refl in
      λ i. (
        (ap get_data (w 0) ∙ LayoutLaws.get_data-to_data laws (fill_client_id (replicate count 0)))
            i,
        ap get_list (w 1) i,
        ap get_text (w 2) i,
        ap get_text (w 3) i,
      )

  set_features-view :
      (features : List Pointer) (s : Struct)
      → LayoutLaws.size laws s ≡ struct_size
      → (do t ← Builder.set_features l features s; ok (view l t))
        ≡ ok (get_client_id l s, ok features, get_version l s, get_arch l s)
  set_features-view features s sized =
      let w = after_pointer l laws struct_size s sized (pointer 1 (to_list features) ∷ []) refl in
      rw (LayoutLaws.set_list_lem laws features) (λ i. ok (
        (
          ap get_data (w 0) i,
          (ap get_list (w 1) ∙ LayoutLaws.get_list-to_list laws features) i,
          ap get_text (w 2) i,
          ap get_text (w 3) i,
        )))

  init_features-view :
      (count : ℕ) (fill_features : List Pointer → List Pointer) (s : Struct)
      → LayoutLaws.size laws s ≡ struct_size
      → view l (Builder.init_features l count fill_features s) ≡ (
        get_client_id l s,
        ok (fill_features (replicate count null)),
        get_version l s,
        get_arch l s,
      )
  init_features-view count fill_features s sized =
      let w =
        after_pointer l laws struct_size s sized
          (pointer 1 (to_list (fill_features (replicate count null))) ∷ []) refl in
      λ i. (
        ap get_data (w 0) i,
        (ap get_list (w 1)
              ∙ LayoutLaws.get_list-to_list laws (fill_features (replicate count null)))
            i,
        ap get_text (w 2) i,
        ap get_text (w 3) i,
      )

  set_version-view :
      (version : Bytes) (s : Struct)
      → LayoutLaws.size laws s ≡ struct_size
      → view l (Builder.set_version l version s)
        ≡ (get_client_id l s, get_features l s, ok version, get_arch l s)
  set_version-view version s sized =
      let w = after_pointer l laws struct_size s sized (pointer 2 (to_text version) ∷ []) refl in
      λ i. (
        ap get_data (w 0) i,
        ap get_list (w 1) i,
        (ap get_text (w 2) ∙ LayoutLaws.get_text-to_text laws version) i,
        ap get_text (w 3) i,
      )

  init_version-view :
      (count : ℕ) (fill_version : Bytes → Bytes) (s : Struct)
      → LayoutLaws.size laws s ≡ struct_size
      → view l (Builder.init_version l count fill_version s)
        ≡ (get_client_id l s, get_features l s, ok (fill_version (replicate count 0)), get_arch l s)
  init_version-view count fill_version s sized =
      let w =
        after_pointer l laws struct_size s sized
          (pointer 2 (to_text (fill_version (replicate count 0))) ∷ []) refl in
      λ i. (
        ap get_data (w 0) i,
        ap get_list (w 1) i,
        (ap get_text (w 2) ∙ LayoutLaws.get_text-to_text laws (fill_version (replicate count 0))) i,
        ap get_text (w 3) i,
      )

  set_arch-view :
      (arch : Bytes) (s : Struct)
      → LayoutLaws.size laws s ≡ struct_size
      → view l (Builder.set_arch l arch s)
        ≡ (get_client_id l s, get_features l s, get_version l s, ok arch)
  set_arch-view arch s sized =
      let w = after_pointer l laws struct_size s sized (pointer 3 (to_text arch) ∷ []) refl in
      λ i. (
        ap get_data (w 0) i,
        ap get_list (w 1) i,
        ap get_text (w 2) i,
        (ap get_text (w 3) ∙ LayoutLaws.get_text-to_text laws arch) i,
      )

  init_arch-view :
      (count : ℕ) (fill_arch : Bytes → Bytes) (s : Struct)
      → LayoutLaws.size laws s ≡ struct_size
      → view l (Builder.init_arch l count fill_arch s)
        ≡ (get_client_id l s, get_features l s, get_version l s, ok (fill_arch (replicate count 0)))
  init_arch-view count fill_arch s sized =
      let w =
        after_pointer l laws struct_size s sized
          (pointer 3 (to_text (fill_arch (replicate count 0))) ∷ []) refl in
      λ i. (
        ap get_data (w 0) i,
        ap get_list (w 1) i,
        ap get_text (w 2) i,
        (ap get_text (w 3) ∙ LayoutLaws.get_text-to_text laws (fill_arch (replicate count 0))) i,
      )

  -- On a struct of the size, each write of the builder of `client_info` changes what the accessor
  -- of its name reads, to what was written, and no other field.
  pub client_info-view :
      (s : Struct) (client_id : Bytes) (fill_client_id : Bytes → Bytes) (count : ℕ)
      (features : List Pointer) (fill_features : List Pointer → List Pointer) (version : Bytes)
      (fill_version : Bytes → Bytes) (arch : Bytes) (fill_arch : Bytes → Bytes)
      → LayoutLaws.size laws s ≡ struct_size
      → (view l (Builder.set_client_id l client_id s)
          ≡ (ok client_id, get_features l s, get_version l s, get_arch l s))
        × (view l (Builder.init_client_id l count fill_client_id s) ≡ (
          ok (fill_client_id (replicate count 0)),
          get_features l s,
          get_version l s,
          get_arch l s,
        ))
        × ((do t ← Builder.set_features l features s; ok (view l t))
            ≡ ok (get_client_id l s, ok features, get_version l s, get_arch l s))
        × (view l (Builder.init_features l count fill_features s) ≡ (
          get_client_id l s,
          ok (fill_features (replicate count null)),
          get_version l s,
          get_arch l s,
        ))
        × (view l (Builder.set_version l version s)
            ≡ (get_client_id l s, get_features l s, ok version, get_arch l s))
        × (view l (Builder.init_version l count fill_version s) ≡ (
          get_client_id l s,
          get_features l s,
          ok (fill_version (replicate count 0)),
          get_arch l s,
        ))
        × (view l (Builder.set_arch l arch s)
            ≡ (get_client_id l s, get_features l s, get_version l s, ok arch))
        × (view l (Builder.init_arch l count fill_arch s) ≡ (
          get_client_id l s,
          get_features l s,
          get_version l s,
          ok (fill_arch (replicate count 0)),
        ))
  client_info-view s client_id fill_client_id count features fill_features version fill_version arch
        fill_arch sized =
      (
        set_client_id-view client_id s sized,
        init_client_id-view fill_client_id count s sized,
        set_features-view features s sized,
        init_features-view count fill_features s sized,
        set_version-view version s sized,
        init_version-view count fill_version s sized,
        set_arch-view arch s sized,
        init_arch-view count fill_arch s sized,
      )
