-- ===== src/Schema/RegisterConnectionParams/Written.antt =====
-- The builder of `register_connection_params` in src/tunnelrpc_capnp.rs writes what its reader reads.
use argo_rust.Base.{
  [], ◌∷◌, ◌≡◌, refl, ℕ, Str, Result, ok, replicate, arith, ap, ◌∙◌, ◌<◌, ◌^◌, ◌≤◌, ◌>>=◌,
}
use argo_rust.CapnpRpc.Bytes.{Bytes}
use argo_rust.Schema.{Layout, u8, width}
use argo_rust.Schema.Writes.{LayoutLaws, pointer, data_field}
use argo_rust.Schema.Writes.ReadBack.{after_pointer, after_number}
use argo_rust.Schema.ConnectionOptions
use argo_rust.Schema.TunnelAuth
use argo_rust.Schema.RegisterConnectionParams.{
  struct_size, get_auth, get_tunnel_id, get_conn_index, get_options,
}
use argo_rust.Schema.RegisterConnectionParams.Builder

module _ (l : Layout) where
  open l use {Struct}

  -- What the accessors read.
  abbrev pub view : Struct → Result Str Struct × Result Str Bytes × ℕ × Result Str Struct
  view s = (get_auth l s, get_tunnel_id l s, get_conn_index l s, get_options l s)

module _ (l : Layout) (laws : LayoutLaws l) where
  open l use {Struct, init_struct, to_struct, to_data, get_data, get_struct}

  set_auth-view :
      (auth : Struct) (s : Struct)
      → LayoutLaws.size laws s ≡ struct_size
      → (do t ← Builder.set_auth l auth s; ok (view l t))
        ≡ ok (ok auth, get_tunnel_id l s, get_conn_index l s, get_options l s)
  set_auth-view auth s sized =
      let none_fits : 0 ≤ 0 = omega arith in
      let w = after_pointer l laws struct_size s sized (pointer 0 (to_struct auth) ∷ []) refl in
      let n = after_number l laws struct_size s sized (pointer 0 (to_struct auth) ∷ []) refl in
      rw (LayoutLaws.set_struct_lem laws auth) (λ i. ok (
        (
          (ap get_struct (w 0) ∙ LayoutLaws.get_struct-to_struct laws auth) i,
          ap get_data (w 1) i,
          n u8 0 refl (none_fits, tt) i,
          ap get_struct (w 2) i,
        )))

  init_auth-view :
      (fill_auth : Struct → Struct) (s : Struct)
      → LayoutLaws.size laws s ≡ struct_size
      → view l (Builder.init_auth l fill_auth s) ≡ (
        ok (fill_auth (init_struct TunnelAuth.struct_size)),
        get_tunnel_id l s,
        get_conn_index l s,
        get_options l s,
      )
  init_auth-view fill_auth s sized =
      let none_fits : 0 ≤ 0 = omega arith in
      let w =
        after_pointer l laws struct_size s sized
          (pointer 0 (to_struct (fill_auth (init_struct TunnelAuth.struct_size))) ∷ []) refl in
      let n =
        after_number l laws struct_size s sized
          (pointer 0 (to_struct (fill_auth (init_struct TunnelAuth.struct_size))) ∷ []) refl in
      λ i. (
        (ap get_struct (w 0)
              ∙ LayoutLaws.get_struct-to_struct laws
                  (fill_auth (init_struct TunnelAuth.struct_size)))
            i,
        ap get_data (w 1) i,
        n u8 0 refl (none_fits, tt) i,
        ap get_struct (w 2) i,
      )

  set_tunnel_id-view :
      (tunnel_id : Bytes) (s : Struct)
      → LayoutLaws.size laws s ≡ struct_size
      → view l (Builder.set_tunnel_id l tunnel_id s)
        ≡ (get_auth l s, ok tunnel_id, get_conn_index l s, get_options l s)
  set_tunnel_id-view tunnel_id s sized =
      let none_fits : 0 ≤ 0 = omega arith in
      let w = after_pointer l laws struct_size s sized (pointer 1 (to_data tunnel_id) ∷ []) refl in
      let n = after_number l laws struct_size s sized (pointer 1 (to_data tunnel_id) ∷ []) refl in
      λ i. (
        ap get_struct (w 0) i,
        (ap get_data (w 1) ∙ LayoutLaws.get_data-to_data laws tunnel_id) i,
        n u8 0 refl (none_fits, tt) i,
        ap get_struct (w 2) i,
      )

  init_tunnel_id-view :
      (fill_tunnel_id : Bytes → Bytes) (count : ℕ) (s : Struct)
      → LayoutLaws.size laws s ≡ struct_size
      → view l (Builder.init_tunnel_id l count fill_tunnel_id s) ≡ (
        get_auth l s,
        ok (fill_tunnel_id (replicate count 0)),
        get_conn_index l s,
        get_options l s,
      )
  init_tunnel_id-view fill_tunnel_id count s sized =
      let none_fits : 0 ≤ 0 = omega arith in
      let w =
        after_pointer l laws struct_size s sized
          (pointer 1 (to_data (fill_tunnel_id (replicate count 0))) ∷ []) refl in
      let n =
        after_number l laws struct_size s sized
          (pointer 1 (to_data (fill_tunnel_id (replicate count 0))) ∷ []) refl in
      λ i. (
        ap get_struct (w 0) i,
        (ap get_data (w 1) ∙ LayoutLaws.get_data-to_data laws (fill_tunnel_id (replicate count 0)))
            i,
        n u8 0 refl (none_fits, tt) i,
        ap get_struct (w 2) i,
      )

  set_conn_index-view :
      (conn_index : ℕ) (s : Struct)
      → LayoutLaws.size laws s ≡ struct_size
      → conn_index < 2 ^ width u8
      → view l (Builder.set_conn_index l conn_index s)
        ≡ (get_auth l s, get_tunnel_id l s, conn_index, get_options l s)
  set_conn_index-view conn_index s sized conn_index_fits =
      let w = after_pointer l laws struct_size s sized (data_field u8 0 conn_index ∷ []) refl in
      let n = after_number l laws struct_size s sized (data_field u8 0 conn_index ∷ []) refl in
      λ i. (
        ap get_struct (w 0) i,
        ap get_data (w 1) i,
        n u8 0 refl (conn_index_fits, tt) i,
        ap get_struct (w 2) i,
      )

  set_options-view :
      (options : Struct) (s : Struct)
      → LayoutLaws.size laws s ≡ struct_size
      → (do t ← Builder.set_options l options s; ok (view l t))
        ≡ ok (get_auth l s, get_tunnel_id l s, get_conn_index l s, ok options)
  set_options-view options s sized =
      let none_fits : 0 ≤ 0 = omega arith in
      let w = after_pointer l laws struct_size s sized (pointer 2 (to_struct options) ∷ []) refl in
      let n = after_number l laws struct_size s sized (pointer 2 (to_struct options) ∷ []) refl in
      rw (LayoutLaws.set_struct_lem laws options) (λ i. ok (
        (
          ap get_struct (w 0) i,
          ap get_data (w 1) i,
          n u8 0 refl (none_fits, tt) i,
          (ap get_struct (w 2) ∙ LayoutLaws.get_struct-to_struct laws options) i,
        )))

  init_options-view :
      (fill_options : Struct → Struct) (s : Struct)
      → LayoutLaws.size laws s ≡ struct_size
      → view l (Builder.init_options l fill_options s) ≡ (
        get_auth l s,
        get_tunnel_id l s,
        get_conn_index l s,
        ok (fill_options (init_struct ConnectionOptions.struct_size)),
      )
  init_options-view fill_options s sized =
      let none_fits : 0 ≤ 0 = omega arith in
      let w =
        after_pointer l laws struct_size s sized
          (pointer 2 (to_struct (fill_options (init_struct ConnectionOptions.struct_size))) ∷ [])
          refl in
      let n =
        after_number l laws struct_size s sized
          (pointer 2 (to_struct (fill_options (init_struct ConnectionOptions.struct_size))) ∷ [])
          refl in
      λ i. (
        ap get_struct (w 0) i,
        ap get_data (w 1) i,
        n u8 0 refl (none_fits, tt) i,
        (ap get_struct (w 2)
              ∙ LayoutLaws.get_struct-to_struct laws
                  (fill_options (init_struct ConnectionOptions.struct_size)))
            i,
      )

  -- On a struct of the size, each write of the builder of `register_connection_params` changes what the accessor
  -- of its name reads, to what was written where the number fits, and no other field.
  pub register_connection_params-view :
      (s : Struct) (auth : Struct) (fill_auth : Struct → Struct) (tunnel_id : Bytes)
      (fill_tunnel_id : Bytes → Bytes) (count : ℕ) (conn_index : ℕ) (options : Struct)
      (fill_options : Struct → Struct)
      → LayoutLaws.size laws s ≡ struct_size
      → conn_index < 2 ^ width u8
      → ((do t ← Builder.set_auth l auth s; ok (view l t))
          ≡ ok (ok auth, get_tunnel_id l s, get_conn_index l s, get_options l s))
        × (view l (Builder.init_auth l fill_auth s) ≡ (
          ok (fill_auth (init_struct TunnelAuth.struct_size)),
          get_tunnel_id l s,
          get_conn_index l s,
          get_options l s,
        ))
        × (view l (Builder.set_tunnel_id l tunnel_id s)
            ≡ (get_auth l s, ok tunnel_id, get_conn_index l s, get_options l s))
        × (view l (Builder.init_tunnel_id l count fill_tunnel_id s) ≡ (
          get_auth l s,
          ok (fill_tunnel_id (replicate count 0)),
          get_conn_index l s,
          get_options l s,
        ))
        × (view l (Builder.set_conn_index l conn_index s)
            ≡ (get_auth l s, get_tunnel_id l s, conn_index, get_options l s))
        × ((do t ← Builder.set_options l options s; ok (view l t))
            ≡ ok (get_auth l s, get_tunnel_id l s, get_conn_index l s, ok options))
        × (view l (Builder.init_options l fill_options s) ≡ (
          get_auth l s,
          get_tunnel_id l s,
          get_conn_index l s,
          ok (fill_options (init_struct ConnectionOptions.struct_size)),
        ))
  register_connection_params-view s auth fill_auth tunnel_id fill_tunnel_id count conn_index options
        fill_options sized conn_index_fits =
      (
        set_auth-view auth s sized,
        init_auth-view fill_auth s sized,
        set_tunnel_id-view tunnel_id s sized,
        init_tunnel_id-view fill_tunnel_id count s sized,
        set_conn_index-view conn_index s sized conn_index_fits,
        set_options-view options s sized,
        init_options-view fill_options s sized,
      )
