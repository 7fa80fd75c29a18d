-- ===== src/Schema/ConnectionDetails/Written.antt =====
-- The builder of `connection_details` in src/tunnelrpc_capnp.rs writes what its reader reads.
use argo_rust.Base.{
  [], ◌∷◌, ◌≡◌, refl, ℕ, Bool, Str, Result, ok, replicate, arith, ap, ◌∙◌, ◌≤◌, if◌then◌else◌, ◌==◌,
}
use argo_rust.CapnpRpc.Bytes.{Bytes}
use argo_rust.Schema.{Layout, boolean}
use argo_rust.Schema.Writes.{LayoutLaws, pointer, data_field}
use argo_rust.Schema.Writes.ReadBack.{after_pointer, after_number, bit_fits, bit_test}
use argo_rust.Schema.ConnectionDetails.{
  struct_size, get_uuid, get_location_name, get_tunnel_is_remotely_managed,
}
use argo_rust.Schema.ConnectionDetails.Builder

module _ (l : Layout) where
  open l use {Struct}

  -- What the accessors read.
  abbrev pub view : Struct → Result Str Bytes × Result Str Bytes × Bool
  view s = (get_uuid l s, get_location_name l s, get_tunnel_is_remotely_managed l s)

module _ (l : Layout) (laws : LayoutLaws l) where
  open l use {Struct, to_text, to_data, get_text, get_data}

  set_uuid-view :
      (uuid : Bytes) (s : Struct)
      → LayoutLaws.size laws s ≡ struct_size
      → view l (Builder.set_uuid l uuid s)
        ≡ (ok uuid, get_location_name l s, get_tunnel_is_remotely_managed l s)
  set_uuid-view uuid s sized =
      let none_fits : 0 ≤ 0 = omega arith in
      let w = after_pointer l laws struct_size s sized (pointer 0 (to_data uuid) ∷ []) refl in
      let n = after_number l laws struct_size s sized (pointer 0 (to_data uuid) ∷ []) refl in
      λ i. (
        (ap get_data (w 0) ∙ LayoutLaws.get_data-to_data laws uuid) i,
        ap get_text (w 1) i,
        ap (λ (b : ℕ). b == 1) (n boolean 0 refl (none_fits, tt)) i,
      )

  init_uuid-view :
      (fill_uuid : Bytes → Bytes) (count : ℕ) (s : Struct)
      → LayoutLaws.size laws s ≡ struct_size
      → view l (Builder.init_uuid l count fill_uuid s) ≡ (
        ok (fill_uuid (replicate count 0)),
        get_location_name l s,
        get_tunnel_is_remotely_managed l s,
      )
  init_uuid-view fill_uuid count s sized =
      let none_fits : 0 ≤ 0 = omega arith in
      let w =
        after_pointer l laws struct_size s sized
          (pointer 0 (to_data (fill_uuid (replicate count 0))) ∷ []) refl in
      let n =
        after_number l laws struct_size s sized
          (pointer 0 (to_data (fill_uuid (replicate count 0))) ∷ []) refl in
      λ i. (
        (ap get_data (w 0) ∙ LayoutLaws.get_data-to_data laws (fill_uuid (replicate count 0))) i,
        ap get_text (w 1) i,
        ap (λ (b : ℕ). b == 1) (n boolean 0 refl (none_fits, tt)) i,
      )

  set_location_name-view :
      (location_name : Bytes) (s : Struct)
      → LayoutLaws.size laws s ≡ struct_size
      → view l (Builder.set_location_name l location_name s)
        ≡ (get_uuid l s, ok location_name, get_tunnel_is_remotely_managed l s)
  set_location_name-view location_name s sized =
      let none_fits : 0 ≤ 0 = omega arith in
      let w =
        after_pointer l laws struct_size s sized (pointer 1 (to_text location_name) ∷ []) refl in
      let n =
        after_number l laws struct_size s sized (pointer 1 (to_text location_name) ∷ []) refl in
      λ i. (
        ap get_data (w 0) i,
        (ap get_text (w 1) ∙ LayoutLaws.get_text-to_text laws location_name) i,
        ap (λ (b : ℕ). b == 1) (n boolean 0 refl (none_fits, tt)) i,
      )

  init_location_name-view :
      (count : ℕ) (fill_location_name : Bytes → Bytes) (s : Struct)
      → LayoutLaws.size laws s ≡ struct_size
      → view l (Builder.init_location_name l count fill_location_name s) ≡ (
        get_uuid l s,
        ok (fill_location_name (replicate count 0)),
        get_tunnel_is_remotely_managed l s,
      )
  init_location_name-view count fill_location_name s sized =
      let none_fits : 0 ≤ 0 = omega arith in
      let w =
        after_pointer l laws struct_size s sized
          (pointer 1 (to_text (fill_location_name (replicate count 0))) ∷ []) refl in
      let n =
        after_number l laws struct_size s sized
          (pointer 1 (to_text (fill_location_name (replicate count 0))) ∷ []) refl in
      λ i. (
        ap get_data (w 0) i,
        (ap get_text (w 1)
              ∙ LayoutLaws.get_text-to_text laws (fill_location_name (replicate count 0)))
            i,
        ap (λ (b : ℕ). b == 1) (n boolean 0 refl (none_fits, tt)) i,
      )

  set_tunnel_is_remotely_managed-view :
      (tunnel_is_remotely_managed : Bool) (s : Struct)
      → LayoutLaws.size laws s ≡ struct_size
      → view l (Builder.set_tunnel_is_remotely_managed l tunnel_is_remotely_managed s)
        ≡ (get_uuid l s, get_location_name l s, tunnel_is_remotely_managed)
  set_tunnel_is_remotely_managed-view tunnel_is_remotely_managed s sized =
      let w =
        after_pointer l laws struct_size s sized
          (data_field boolean 0 (if tunnel_is_remotely_managed then 1 else 0) ∷ []) refl in
      let n =
        after_number l laws struct_size s sized
          (data_field boolean 0 (if tunnel_is_remotely_managed then 1 else 0) ∷ []) refl in
      λ i. (
        ap get_data (w 0) i,
        ap get_text (w 1) i,
        (ap (λ (b : ℕ). b == 1) (n boolean 0 refl (bit_fits tunnel_is_remotely_managed, tt))
              ∙ bit_test tunnel_is_remotely_managed)
            i,
      )

  -- On a struct of the size, each write of the builder of `connection_details` changes what the accessor
  -- of its name reads, to what was written, and no other field.
  pub connection_details-view :
      (s : Struct) (uuid : Bytes) (fill_uuid : Bytes → Bytes) (count : ℕ) (location_name : Bytes)
      (fill_location_name : Bytes → Bytes) (tunnel_is_remotely_managed : Bool)
      → LayoutLaws.size laws s ≡ struct_size
      → (view l (Builder.set_uuid l uuid s)
          ≡ (ok uuid, get_location_name l s, get_tunnel_is_remotely_managed l s))
        × (view l (Builder.init_uuid l count fill_uuid s) ≡ (
          ok (fill_uuid (replicate count 0)),
          get_location_name l s,
          get_tunnel_is_remotely_managed l s,
        ))
        × (view l (Builder.set_location_name l location_name s)
            ≡ (get_uuid l s, ok location_name, get_tunnel_is_remotely_managed l s))
        × (view l (Builder.init_location_name l count fill_location_name s) ≡ (
          get_uuid l s,
          ok (fill_location_name (replicate count 0)),
          get_tunnel_is_remotely_managed l s,
        ))
        × (view l (Builder.set_tunnel_is_remotely_managed l tunnel_is_remotely_managed s)
            ≡ (get_uuid l s, get_location_name l s, tunnel_is_remotely_managed))
  connection_details-view s uuid fill_uuid count location_name fill_location_name
        tunnel_is_remotely_managed sized =
      (
        set_uuid-view uuid s sized,
        init_uuid-view fill_uuid count s sized,
        set_location_name-view location_name s sized,
        init_location_name-view count fill_location_name s sized,
        set_tunnel_is_remotely_managed-view tunnel_is_remotely_managed s sized,
      )
