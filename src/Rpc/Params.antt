-- ===== src/Rpc/Params.antt =====
-- `fill_register_connection` of src/capnp_params.rs.
use argo_rust.Base.{◌%◌, ◌^◌, length}
use argo_rust.CapnpRpc.Encode.{RegisterArgs}
use argo_rust.Schema.{Layout, StructSize, u8, init_list}
use argo_rust.Rpc.{set_texts}

abbrev pub auth_size : StructSize
auth_size = record { data_words = 0; pointers = 2 }

abbrev pub options_size : StructSize
options_size = record { data_words = 1; pointers = 2 }

abbrev pub client_size : StructSize
client_size = record { data_words = 0; pointers = 4 }

abbrev pub params_size : StructSize
params_size = record { data_words = 1; pointers = 3 }

module _ (l : Layout) where
  open l use {
    Struct, Pointer, init_struct, set_pointer_field, set_data_field, to_struct, to_text, to_data,
  }

  abbrev pub fill_auth : RegisterArgs → Struct → Struct
  fill_auth a auth =
      let auth = set_pointer_field auth 0 (to_text a.account_tag) in
      set_pointer_field auth 1 (to_data a.tunnel_secret)

  -- The number of texts is cast to 32 bits.
  abbrev pub fill_client : RegisterArgs → Struct → Struct
  fill_client a client =
      let client = set_pointer_field client 0 (to_data a.client_id) in
      let feat_list = init_list l (length a.features % 2 ^ 32) (set_texts l a.features 0) in
      let client = set_pointer_field client 1 feat_list in
      let client = set_pointer_field client 2 (to_text a.version) in
      set_pointer_field client 3 (to_text a.arch)

  abbrev pub fill_options : RegisterArgs → Struct → Struct
  fill_options a opts =
      let opts = set_data_field u8 opts 4 0 in
      set_pointer_field opts 0 (to_struct (fill_client a (init_struct client_size)))

  -- The pointer `params` afterwards; the function always returns `Ok(())`.
  unfoldable pub fill_register_connection : RegisterArgs → Pointer
  fill_register_connection a =
      let p = init_struct params_size in
      let p = set_data_field u8 p 0 a.conn_index in
      let p = set_pointer_field p 0 (to_struct (fill_auth a (init_struct auth_size))) in
      let p = set_pointer_field p 1 (to_data a.tunnel_id) in
      to_struct (set_pointer_field p 2 (to_struct (fill_options a (init_struct options_size))))
