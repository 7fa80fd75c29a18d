-- ===== src/Schema/RegisterUdpSessionResponse/Written.antt =====
-- The builder of `register_udp_session_response` in src/tunnelrpc_capnp.rs writes what its reader reads.
use argo_rust.Base.{[], ◌∷◌, ◌≡◌, refl, ℕ, Str, Result, ok, replicate, ap, ◌∙◌}
use argo_rust.CapnpRpc.Bytes.{Bytes}
use argo_rust.Schema.{Layout}
use argo_rust.Schema.Writes.{LayoutLaws, pointer}
use argo_rust.Schema.Writes.ReadBack.{after_pointer}
use argo_rust.Schema.RegisterUdpSessionResponse.{struct_size, get_err, get_spans}
use argo_rust.Schema.RegisterUdpSessionResponse.Builder

module _ (l : Layout) where
  open l use {Struct}

  -- What the accessors read.
  abbrev pub view : Struct → Result Str Bytes × Result Str Bytes
  view s = (get_err l s, get_spans l s)

module _ (l : Layout) (laws : LayoutLaws l) where
  open l use {Struct, to_text, to_data, get_text, get_data}

  set_err-view :
      (err : Bytes) (s : Struct)
      → LayoutLaws.size laws s ≡ struct_size
      → view l (Builder.set_err l err s) ≡ (ok err, get_spans l s)
  set_err-view err s sized =
      let w = after_pointer l laws struct_size s sized (pointer 0 (to_text err) ∷ []) refl in
      λ i. ((ap get_text (w 0) ∙ LayoutLaws.get_text-to_text laws err) i, ap get_data (w 1) i)

  init_err-view :
      (fill_err : Bytes → Bytes) (count : ℕ) (s : Struct)
      → LayoutLaws.size laws s ≡ struct_size
      → view l (Builder.init_err l count fill_err s)
        ≡ (ok (fill_err (replicate count 0)), get_spans l s)
  init_err-view fill_err count s sized =
      let w =
        after_pointer l laws struct_size s sized
          (pointer 0 (to_text (fill_err (replicate count 0))) ∷ []) refl in
      λ i. (
        (ap get_text (w 0) ∙ LayoutLaws.get_text-to_text laws (fill_err (replicate count 0))) i,
        ap get_data (w 1) i,
      )

  set_spans-view :
      (spans : Bytes) (s : Struct)
      → LayoutLaws.size laws s ≡ struct_size
      → view l (Builder.set_spans l spans s) ≡ (get_err l s, ok spans)
  set_spans-view spans s sized =
      let w = after_pointer l laws struct_size s sized (pointer 1 (to_data spans) ∷ []) refl in
      λ i. (ap get_text (w 0) i, (ap get_data (w 1) ∙ LayoutLaws.get_data-to_data laws spans) i)

  init_spans-view :
      (count : ℕ) (fill_spans : Bytes → Bytes) (s : Struct)
      → LayoutLaws.size laws s ≡ struct_size
      → view l (Builder.init_spans l count fill_spans s)
        ≡ (get_err l s, ok (fill_spans (replicate count 0)))
  init_spans-view count fill_spans s sized =
      let w =
        after_pointer l laws struct_size s sized
          (pointer 1 (to_data (fill_spans (replicate count 0))) ∷ []) refl in
      λ i. (
        ap get_text (w 0) i,
        (ap get_data (w 1) ∙ LayoutLaws.get_data-to_data laws (fill_spans (replicate count 0))) i,
      )

  -- On a struct of the size, each write of the builder of `register_udp_session_response` changes what the accessor
  -- of its name reads, to what was written, and no other field.
  pub register_udp_session_response-view :
      (s : Struct) (err : Bytes) (fill_err : Bytes → Bytes) (count : ℕ) (spans : Bytes)
      (fill_spans : Bytes → Bytes)
      → LayoutLaws.size laws s ≡ struct_size
      → (view l (Builder.set_err l err s) ≡ (ok err, get_spans l s))
        × (view l (Builder.init_err l count fill_err s)
            ≡ (ok (fill_err (replicate count 0)), get_spans l s))
        × (view l (Builder.set_spans l spans s) ≡ (get_err l s, ok spans))
        × (view l (Builder.init_spans l count fill_spans s)
            ≡ (get_err l s, ok (fill_spans (replicate count 0))))
  register_udp_session_response-view s err fill_err count spans fill_spans sized = (
    set_err-view err s sized,
    init_err-view fill_err count s sized,
    set_spans-view spans s sized,
    init_spans-view count fill_spans s sized,
  )
