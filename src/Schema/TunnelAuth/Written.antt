-- ===== src/Schema/TunnelAuth/Written.antt =====
-- The builder of `tunnel_auth` in src/tunnelrpc_capnp.rs writes what its reader reads.
use argo_rust.Base.{[], ◌∷◌, ◌≡◌, refl, ℕ, Str, Result, ok, replicate, ap, ◌∙◌}
use argo_rust.CapnpRpc.Bytes.{Bytes}
use argo_rust.Schema.{Layout}
use argo_rust.Schema.Writes.{LayoutLaws, pointer}
use argo_rust.Schema.Writes.ReadBack.{after_pointer}
use argo_rust.Schema.TunnelAuth.{struct_size, get_account_tag, get_tunnel_secret}
use argo_rust.Schema.TunnelAuth.Builder

module _ (l : Layout) where
  open l use {Struct}

  -- What the accessors read.
  abbrev pub view : Struct → Result Str Bytes × Result Str Bytes
  view s = (get_account_tag l s, get_tunnel_secret l s)

module _ (l : Layout) (laws : LayoutLaws l) where
  open l use {Struct, to_text, to_data, get_text, get_data}

  set_account_tag-view :
      (account_tag : Bytes) (s : Struct)
      → LayoutLaws.size laws s ≡ struct_size
      → view l (Builder.set_account_tag l account_tag s) ≡ (ok account_tag, get_tunnel_secret l s)
  set_account_tag-view account_tag s sized =
      let w =
        after_pointer l laws struct_size s sized (pointer 0 (to_text account_tag) ∷ []) refl in
      λ i.
        ((ap get_text (w 0) ∙ LayoutLaws.get_text-to_text laws account_tag) i, ap get_data (w 1) i)

  init_account_tag-view :
      (fill_account_tag : Bytes → Bytes) (count : ℕ) (s : Struct)
      → LayoutLaws.size laws s ≡ struct_size
      → view l (Builder.init_account_tag l count fill_account_tag s)
        ≡ (ok (fill_account_tag (replicate count 0)), get_tunnel_secret l s)
  init_account_tag-view fill_account_tag count s sized =
      let w =
        after_pointer l laws struct_size s sized
          (pointer 0 (to_text (fill_account_tag (replicate count 0))) ∷ []) refl in
      λ i. (
        (ap get_text (w 0)
              ∙ LayoutLaws.get_text-to_text laws (fill_account_tag (replicate count 0)))
            i,
        ap get_data (w 1) i,
      )

  set_tunnel_secret-view :
      (tunnel_secret : Bytes) (s : Struct)
      → LayoutLaws.size laws s ≡ struct_size
      → view l (Builder.set_tunnel_secret l tunnel_secret s)
        ≡ (get_account_tag l s, ok tunnel_secret)
  set_tunnel_secret-view tunnel_secret s sized =
      let w =
        after_pointer l laws struct_size s sized (pointer 1 (to_data tunnel_secret) ∷ []) refl in
      λ i. (
        ap get_text (w 0) i,
        (ap get_data (w 1) ∙ LayoutLaws.get_data-to_data laws tunnel_secret) i,
      )

  init_tunnel_secret-view :
      (count : ℕ) (fill_tunnel_secret : Bytes → Bytes) (s : Struct)
      → LayoutLaws.size laws s ≡ struct_size
      → view l (Builder.init_tunnel_secret l count fill_tunnel_secret s)
        ≡ (get_account_tag l s, ok (fill_tunnel_secret (replicate count 0)))
  init_tunnel_secret-view count fill_tunnel_secret s sized =
      let w =
        after_pointer l laws struct_size s sized
          (pointer 1 (to_data (fill_tunnel_secret (replicate count 0))) ∷ []) refl in
      λ i. (
        ap get_text (w 0) i,
        (ap get_data (w 1)
              ∙ LayoutLaws.get_data-to_data laws (fill_tunnel_secret (replicate count 0)))
            i,
      )

  -- On a struct of the size, each write of the builder of `tunnel_auth` changes what the accessor
  -- of its name reads, to what was written, and no other field.
  pub tunnel_auth-view :
      (s : Struct) (account_tag : Bytes) (fill_account_tag : Bytes → Bytes) (count : ℕ)
      (tunnel_secret : Bytes) (fill_tunnel_secret : Bytes → Bytes)
      → LayoutLaws.size laws s ≡ struct_size
      → (view l (Builder.set_account_tag l account_tag s) ≡ (ok account_tag, get_tunnel_secret l s))
        × (view l (Builder.init_account_tag l count fill_account_tag s)
            ≡ (ok (fill_account_tag (replicate count 0)), get_tunnel_secret l s))
        × (view l (Builder.set_tunnel_secret l tunnel_secret s)
            ≡ (get_account_tag l s, ok tunnel_secret))
        × (view l (Builder.init_tunnel_secret l count fill_tunnel_secret s)
            ≡ (get_account_tag l s, ok (fill_tunnel_secret (replicate count 0))))
  tunnel_auth-view s account_tag fill_account_tag count tunnel_secret fill_tunnel_secret sized = (
    set_account_tag-view account_tag s sized,
    init_account_tag-view fill_account_tag count s sized,
    set_tunnel_secret-view tunnel_secret s sized,
    init_tunnel_secret-view count fill_tunnel_secret s sized,
  )
