-- ===== src/Schema/ConnectionOptions/Written.antt =====
-- The builder of `connection_options` in src/tunnelrpc_capnp.rs writes what its reader reads.
use argo_rust.Base.{
  [], ◌∷◌, ◌≡◌, refl, ℕ, Bool, Str, Result, ok, replicate, arith, ap, ◌∙◌, ◌<◌, ◌^◌, ◌≤◌,
  if◌then◌else◌, ◌==◌, ◌>>=◌,
}
use argo_rust.CapnpRpc.Bytes.{Bytes}
use argo_rust.Schema.{Layout, boolean, u8, width}
use argo_rust.Schema.Writes.{LayoutLaws, pointer, data_field}
use argo_rust.Schema.Writes.ReadBack.{after_pointer, after_number, bit_fits, bit_test}
use argo_rust.Schema.ClientInfo
use argo_rust.Schema.ConnectionOptions.{
  struct_size, get_client, get_origin_local_ip, get_replace_existing, get_compression_quality,
  get_num_previous_attempts,
}
use argo_rust.Schema.ConnectionOptions.Builder

module _ (l : Layout) where
  open l use {Struct}

  -- What the accessors read.
  abbrev pub view : Struct → Result Str Struct × Result Str Bytes × Bool × ℕ × ℕ
  view s = (
    get_client l s,
    get_origin_local_ip l s,
    get_replace_existing l s,
    get_compression_quality l s,
    get_num_previous_attempts l s,
  )

module _ (l : Layout) (laws : LayoutLaws l) where
  open l use {Struct, init_struct, to_struct, to_data, get_data, get_struct}

  set_client-view :
      (client : Struct) (s : Struct)
      → LayoutLaws.size laws s ≡ struct_size
      → (do t ← Builder.set_client l client s; ok (view l t))
        ≡ ok (
          ok client,
          get_origin_local_ip l s,
          get_replace_existing l s,
          get_compression_quality l s,
          get_num_previous_attempts l s,
        )
  set_client-view client s sized =
      let none_fits : 0 ≤ 0 = omega arith in
      let w = after_pointer l laws struct_size s sized (pointer 0 (to_struct client) ∷ []) refl in
      let n = after_number l laws struct_size s sized (pointer 0 (to_struct client) ∷ []) refl in
      rw (LayoutLaws.set_struct_lem laws client) (λ i. ok (
        (
          (ap get_struct (w 0) ∙ LayoutLaws.get_struct-to_struct laws client) i,
          ap get_data (w 1) i,
          ap (λ (b : ℕ). b == 1) (n boolean 0 refl (none_fits, tt)) i,
          n u8 1 refl (none_fits, tt) i,
          n u8 2 refl (none_fits, tt) i,
        )))

  init_client-view :
      (fill_client : Struct → Struct) (s : Struct)
      → LayoutLaws.size laws s ≡ struct_size
      → view l (Builder.init_client l fill_client s) ≡ (
        ok (fill_client (init_struct ClientInfo.struct_size)),
        get_origin_local_ip l s,
        get_replace_existing l s,
        get_compression_quality l s,
        get_num_previous_attempts l s,
      )
  init_client-view fill_client s sized =
      let none_fits : 0 ≤ 0 = omega arith in
      let w =
        after_pointer l laws struct_size s sized
          (pointer 0 (to_struct (fill_client (init_struct ClientInfo.struct_size))) ∷ []) refl in
      let n =
        after_number l laws struct_size s sized
          (pointer 0 (to_struct (fill_client (init_struct ClientInfo.struct_size))) ∷ []) refl in
      λ i. (
        (ap get_struct (w 0)
              ∙ LayoutLaws.get_struct-to_struct laws
                  (fill_client (init_struct ClientInfo.struct_size)))
            i,
        ap get_data (w 1) i,
        ap (λ (b : ℕ). b == 1) (n boolean 0 refl (none_fits, tt)) i,
        n u8 1 refl (none_fits, tt) i,
        n u8 2 refl (none_fits, tt) i,
      )

  set_origin_local_ip-view :
      (origin_local_ip : Bytes) (s : Struct)
      → LayoutLaws.size laws s ≡ struct_size
      → view l (Builder.set_origin_local_ip l origin_local_ip s) ≡ (
        get_client l s,
        ok origin_local_ip,
        get_replace_existing l s,
        get_compression_quality l s,
        get_num_previous_attempts l s,
      )
  set_origin_local_ip-view origin_local_ip s sized =
      let none_fits : 0 ≤ 0 = omega arith in
      let w =
        after_pointer l laws struct_size s sized (pointer 1 (to_data origin_local_ip) ∷ []) refl in
      let n =
        after_number l laws struct_size s sized (pointer 1 (to_data origin_local_ip) ∷ []) refl in
      λ i. (
        ap get_struct (w 0) i,
        (ap get_data (w 1) ∙ LayoutLaws.get_data-to_data laws origin_local_ip) i,
        ap (λ (b : ℕ). b == 1) (n boolean 0 refl (none_fits, tt)) i,
        n u8 1 refl (none_fits, tt) i,
        n u8 2 refl (none_fits, tt) i,
      )

  init_origin_local_ip-view :
      (fill_origin_local_ip : Bytes → Bytes) (count : ℕ) (s : Struct)
      → LayoutLaws.size laws s ≡ struct_size
      → view l (Builder.init_origin_local_ip l count fill_origin_local_ip s) ≡ (
        get_client l s,
        ok (fill_origin_local_ip (replicate count 0)),
        get_replace_existing l s,
        get_compression_quality l s,
        get_num_previous_attempts l s,
      )
  init_origin_local_ip-view fill_origin_local_ip count s sized =
      let none_fits : 0 ≤ 0 = omega arith in
      let w =
        after_pointer l laws struct_size s sized
          (pointer 1 (to_data (fill_origin_local_ip (replicate count 0))) ∷ []) refl in
      let n =
        after_number l laws struct_size s sized
          (pointer 1 (to_data (fill_origin_local_ip (replicate count 0))) ∷ []) refl in
      λ i. (
        ap get_struct (w 0) i,
        (ap get_data (w 1)
              ∙ LayoutLaws.get_data-to_data laws (fill_origin_local_ip (replicate count 0)))
            i,
        ap (λ (b : ℕ). b == 1) (n boolean 0 refl (none_fits, tt)) i,
        n u8 1 refl (none_fits, tt) i,
        n u8 2 refl (none_fits, tt) i,
      )

  set_replace_existing-view :
      (replace_existing : Bool) (s : Struct)
      → LayoutLaws.size laws s ≡ struct_size
      → view l (Builder.set_replace_existing l replace_existing s) ≡ (
        get_client l s,
        get_origin_local_ip l s,
        replace_existing,
        get_compression_quality l s,
        get_num_previous_attempts l s,
      )
  set_replace_existing-view replace_existing s sized =
      let w =
        after_pointer l laws struct_size s sized
          (data_field boolean 0 (if replace_existing then 1 else 0) ∷ []) refl in
      let n =
        after_number l laws struct_size s sized
          (data_field boolean 0 (if replace_existing then 1 else 0) ∷ []) refl in
      λ i. (
        ap get_struct (w 0) i,
        ap get_data (w 1) i,
        (ap (λ (b : ℕ). b == 1) (n boolean 0 refl (bit_fits replace_existing, tt))
              ∙ bit_test replace_existing)
            i,
        n u8 1 refl (bit_fits replace_existing, tt) i,
        n u8 2 refl (bit_fits replace_existing, tt) i,
      )

  set_compression_quality-view :
      (compression_quality : ℕ) (s : Struct)
      → LayoutLaws.size laws s ≡ struct_size
      → compression_quality < 2 ^ width u8
      → view l (Builder.set_compression_quality l compression_quality s) ≡ (
        get_client l s,
        get_origin_local_ip l s,
        get_replace_existing l s,
        compression_quality,
        get_num_previous_attempts l s,
      )
  set_compression_quality-view compression_quality s sized compression_quality_fits =
      let w =
        after_pointer l laws struct_size s sized (data_field u8 1 compression_quality ∷ []) refl in
      let n =
        after_number l laws struct_size s sized (data_field u8 1 compression_quality ∷ []) refl in
      λ i. (
        ap get_struct (w 0) i,
        ap get_data (w 1) i,
        ap (λ (b : ℕ). b == 1) (n boolean 0 refl (compression_quality_fits, tt)) i,
        n u8 1 refl (compression_quality_fits, tt) i,
        n u8 2 refl (compression_quality_fits, tt) i,
      )

  set_num_previous_attempts-view :
      (num_previous_attempts : ℕ) (s : Struct)
      → LayoutLaws.size laws s ≡ struct_size
      → num_previous_attempts < 2 ^ width u8
      → view l (Builder.set_num_previous_attempts l num_previous_attempts s) ≡ (
        get_client l s,
        get_origin_local_ip l s,
        get_replace_existing l s,
        get_compression_quality l s,
        num_previous_attempts,
      )
  set_num_previous_attempts-view num_previous_attempts s sized num_previous_attempts_fits =
      let w =
        after_pointer l laws struct_size s sized (data_field u8 2 num_previous_attempts ∷ [])
          refl in
      let n =
        after_number l laws struct_size s sized (data_field u8 2 num_previous_attempts ∷ []) refl in
      λ i. (
        ap get_struct (w 0) i,
        ap get_data (w 1) i,
        ap (λ (b : ℕ). b == 1) (n boolean 0 refl (num_previous_attempts_fits, tt)) i,
        n u8 1 refl (num_previous_attempts_fits, tt) i,
        n u8 2 refl (num_previous_attempts_fits, tt) i,
      )

  -- On a struct of the size, each write of the builder of `connection_options` changes what the accessor
  -- of its name reads, to what was written where the number fits, and no other field.
  pub connection_options-view :
      (s : Struct) (client : Struct) (fill_client : Struct → Struct) (origin_local_ip : Bytes)
      (fill_origin_local_ip : Bytes → Bytes) (count : ℕ) (replace_existing : Bool)
      (compression_quality : ℕ) (num_previous_attempts : ℕ)
      → LayoutLaws.size laws s ≡ struct_size
      → compression_quality < 2 ^ width u8
      → num_previous_attempts < 2 ^ width u8
      → ((do t ← Builder.set_client l client s; ok (view l t))
          ≡ ok (
            ok client,
            get_origin_local_ip l s,
            get_replace_existing l s,
            get_compression_quality l s,
            get_num_previous_attempts l s,
          ))
        × (view l (Builder.init_client l fill_client s) ≡ (
          ok (fill_client (init_struct ClientInfo.struct_size)),
          get_origin_local_ip l s,
          get_replace_existing l s,
          get_compression_quality l s,
          get_num_previous_attempts l s,
        ))
        × (view l (Builder.set_origin_local_ip l origin_local_ip s) ≡ (
          get_client l s,
          ok origin_local_ip,
          get_replace_existing l s,
          get_compression_quality l s,
          get_num_previous_attempts l s,
        ))
        × (view l (Builder.init_origin_local_ip l count fill_origin_local_ip s) ≡ (
          get_client l s,
          ok (fill_origin_local_ip (replicate count 0)),
          get_replace_existing l s,
          get_compression_quality l s,
          get_num_previous_attempts l s,
        ))
        × (view l (Builder.set_replace_existing l replace_existing s) ≡ (
          get_client l s,
          get_origin_local_ip l s,
          replace_existing,
          get_compression_quality l s,
          get_num_previous_attempts l s,
        ))
        × (view l (Builder.set_compression_quality l compression_quality s) ≡ (
          get_client l s,
          get_origin_local_ip l s,
          get_replace_existing l s,
          compression_quality,
          get_num_previous_attempts l s,
        ))
        × (view l (Builder.set_num_previous_attempts l num_previous_attempts s) ≡ (
          get_client l s,
          get_origin_local_ip l s,
          get_replace_existing l s,
          get_compression_quality l s,
          num_previous_attempts,
        ))
  connection_options-view s client fill_client origin_local_ip fill_origin_local_ip count
        replace_existing compression_quality num_previous_attempts sized compression_quality_fits
        num_previous_attempts_fits =
      (
        set_client-view client s sized,
        init_client-view fill_client s sized,
        set_origin_local_ip-view origin_local_ip s sized,
        init_origin_local_ip-view fill_origin_local_ip count s sized,
        set_replace_existing-view replace_existing s sized,
        set_compression_quality-view compression_quality s sized compression_quality_fits,
        set_num_previous_attempts-view num_previous_attempts s sized num_previous_attempts_fits,
      )
