-- ===== src/Schema/UnregisterUdpSessionParams/Written.antt =====
-- The builder of `unregister_udp_session_params` in src/tunnelrpc_capnp.rs writes what its reader reads.
use argo_rust.Base.{[], ◌∷◌, ◌≡◌, refl, ℕ, Str, Result, ok, replicate, ap, ◌∙◌}
use argo_rust.CapnpRpc.Bytes.{Bytes}
use argo_rust.Schema.{Layout}
use argo_rust.Schema.Writes.{LayoutLaws, pointer}
use argo_rust.Schema.Writes.ReadBack.{after_pointer}
use argo_rust.Schema.UnregisterUdpSessionParams.{struct_size, get_session_id, get_message}
use argo_rust.Schema.UnregisterUdpSessionParams.Builder

module _ (l : Layout) where
  open l use {Struct}

  -- What the accessors read.
  abbrev pub view : Struct → Result Str Bytes × Result Str Bytes
  view s = (get_session_id l s, get_message l s)

module _ (l : Layout) (laws : LayoutLaws l) where
  open l use {Struct, to_text, to_data, get_text, get_data}

  set_session_id-view :
      (session_id : Bytes) (s : Struct)
      → LayoutLaws.size laws s ≡ struct_size
      → view l (Builder.set_session_id l session_id s) ≡ (ok session_id, get_message l s)
  set_session_id-view session_id s sized =
      let w = after_pointer l laws struct_size s sized (pointer 0 (to_data session_id) ∷ []) refl in
      λ i.
        ((ap get_data (w 0) ∙ LayoutLaws.get_data-to_data laws session_id) i, ap get_text (w 1) i)

  init_session_id-view :
      (fill_session_id : Bytes → Bytes) (count : ℕ) (s : Struct)
      → LayoutLaws.size laws s ≡ struct_size
      → view l (Builder.init_session_id l count fill_session_id s)
        ≡ (ok (fill_session_id (replicate count 0)), get_message l s)
  init_session_id-view fill_session_id count s sized =
      let w =
        after_pointer l laws struct_size s sized
          (pointer 0 (to_data (fill_session_id (replicate count 0))) ∷ []) refl in
      λ i. (
        (ap get_data (w 0) ∙ LayoutLaws.get_data-to_data laws (fill_session_id (replicate count 0)))
            i,
        ap get_text (w 1) i,
      )

  set_message-view :
      (message : Bytes) (s : Struct)
      → LayoutLaws.size laws s ≡ struct_size
      → view l (Builder.set_message l message s) ≡ (get_session_id l s, ok message)
  set_message-view message s sized =
      let w = after_pointer l laws struct_size s sized (pointer 1 (to_text message) ∷ []) refl in
      λ i. (ap get_data (w 0) i, (ap get_text (w 1) ∙ LayoutLaws.get_text-to_text laws message) i)

  init_message-view :
      (count : ℕ) (fill_message : Bytes → Bytes) (s : Struct)
      → LayoutLaws.size laws s ≡ struct_size
      → view l (Builder.init_message l count fill_message s)
        ≡ (get_session_id l s, ok (fill_message (replicate count 0)))
  init_message-view count fill_message s sized =
      let w =
        after_pointer l laws struct_size s sized
          (pointer 1 (to_text (fill_message (replicate count 0))) ∷ []) refl in
      λ i. (
        ap get_data (w 0) i,
        (ap get_text (w 1) ∙ LayoutLaws.get_text-to_text laws (fill_message (replicate count 0))) i,
      )

  -- On a struct of the size, each write of the builder of `unregister_udp_session_params` changes what the accessor
  -- of its name reads, to what was written, and no other field.
  pub unregister_udp_session_params-view :
      (s : Struct) (session_id : Bytes) (fill_session_id : Bytes → Bytes) (count : ℕ)
      (message : Bytes) (fill_message : Bytes → Bytes)
      → LayoutLaws.size laws s ≡ struct_size
      → (view l (Builder.set_session_id l session_id s) ≡ (ok session_id, get_message l s))
        × (view l (Builder.init_session_id l count fill_session_id s)
            ≡ (ok (fill_session_id (replicate count 0)), get_message l s))
        × (view l (Builder.set_message l message s) ≡ (get_session_id l s, ok message))
        × (view l (Builder.init_message l count fill_message s)
            ≡ (get_session_id l s, ok (fill_message (replicate count 0))))
  unregister_udp_session_params-view s session_id fill_session_id count message fill_message sized =
      (
        set_session_id-view session_id s sized,
        init_session_id-view fill_session_id count s sized,
        set_message-view message s sized,
        init_message-view count fill_message s sized,
      )
