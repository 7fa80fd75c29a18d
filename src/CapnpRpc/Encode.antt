-- ===== src/CapnpRpc/Encode.antt =====
-- `encode_register_connection`, `build_bootstrap_msg`, `build_call_msg` and `strip_framing` of
-- src/capnp_rpc.rs. A text stands for its UTF-8 bytes.
pub mod Allocated
pub mod Wired
pub mod Registration
pub mod Bounds
pub mod Framing
pub mod Bootstrap
pub mod Called
pub mod CallRead
use mathlib.Core.Option
use argo_rust.Base.{
  ℕ, zero, suc, ◌+◌, ◌*◌, ◌/◌, ◌%◌, ◌^◌, List, [], ◌∷◌, ◌++◌, Option, none, some, length, drop,
  take, ltb, leb, if◌then◌else◌,
}
use argo_rust.CapnpRpc.Bytes.{Bytes, from_le, words_of}
use argo_rust.CapnpRpc.SegBuilder.{
  StructAlloc, SegBuilder, Seg, ◌>>=◌, ◌>>◌, pure, new, alloc_struct, alloc_text, alloc_data,
  alloc_ptr_list, alloc_raw, set_u8, set_u16, set_u32, set_u64, set_struct_ptr, set_data_ptr,
  set_text_ptr, set_ptr_list_ptr, set_list_text_entry, finish,
}

abbrev pub registration_server_id : ℕ
registration_server_id = 0xf71695ec7fe85497

abbrev pub method_register : ℕ
method_register = 0

-- The arguments of the call.
pub record RegisterArgs : Type 0 where
  pub account_tag : Bytes
  pub tunnel_secret : Bytes
  pub tunnel_id : Bytes
  pub conn_index : ℕ
  pub client_id : Bytes
  pub version : Bytes
  pub arch : Bytes
  pub features : List Bytes

-- The positions that the first half of the function allocates.
pub record Slots : Type 0 where
  pub params : StructAlloc
  pub auth : StructAlloc
  pub options : StructAlloc
  pub client : StructAlloc
  pub account_tag_w : ℕ
  pub secret_w : ℕ
  pub tunnel_id_w : ℕ
  pub client_id_w : ℕ
  pub version_w : ℕ
  pub arch_w : ℕ
  pub feat_ws : List ℕ
  pub feat_list_w : ℕ

-- `features.iter().map(|f| seg.alloc_text(f)).collect()`
unfoldable pub alloc_texts : List Bytes → Seg (List ℕ)
alloc_texts [] = pure []
alloc_texts (f ∷ fs) = do w ← alloc_text f; ws ← alloc_texts fs; pure (w ∷ ws)

unfoldable pub allocate : RegisterArgs → Seg Slots
allocate a = do
  params ← alloc_struct 1 3
  auth ← alloc_struct 0 2
  options ← alloc_struct 1 2
  client ← alloc_struct 0 4
  account_tag_w ← alloc_text a.account_tag
  secret_w ← alloc_data a.tunnel_secret
  tunnel_id_w ← alloc_data a.tunnel_id
  client_id_w ← alloc_data a.client_id
  version_w ← alloc_text a.version
  arch_w ← alloc_text a.arch
  feat_ws ← alloc_texts a.features
  feat_list_w ← alloc_ptr_list (length a.features)
  pure (record {
    params = params;
    auth = auth;
    options = options;
    client = client;
    account_tag_w = account_tag_w;
    secret_w = secret_w;
    tunnel_id_w = tunnel_id_w;
    client_id_w = client_id_w;
    version_w = version_w;
    arch_w = arch_w;
    feat_ws = feat_ws;
    feat_list_w = feat_list_w;
  })

-- "Wire up params", "auth", "options" and "client".
unfoldable pub wire_structs : RegisterArgs → Slots → Seg (Unit {0})
wire_structs a s = do
  set_u8 s.params.data_w 0 a.conn_index
  set_struct_ptr s.params.ptr_w 0 s.auth.data_w 0 2
  set_data_ptr s.params.ptr_w 1 s.tunnel_id_w (length a.tunnel_id)
  set_struct_ptr s.params.ptr_w 2 s.options.data_w 1 2
  set_text_ptr s.auth.ptr_w 0 s.account_tag_w (length a.account_tag + 1)
  set_data_ptr s.auth.ptr_w 1 s.secret_w (length a.tunnel_secret)
  set_struct_ptr s.options.ptr_w 0 s.client.data_w 0 4
  set_data_ptr s.client.ptr_w 0 s.client_id_w 16
  set_ptr_list_ptr s.client.ptr_w 1 s.feat_list_w (length a.features)
  set_text_ptr s.client.ptr_w 2 s.version_w (length a.version + 1)
  set_text_ptr s.client.ptr_w 3 s.arch_w (length a.arch + 1)

-- "Wire up features list entries": the loop over the zipped lists, counted from `i`.
unfoldable pub wire_features : ℕ → ℕ → List ℕ → List Bytes → Seg (Unit {0})
wire_features feat_list_w i [] fs = pure tt
wire_features feat_list_w i (fw ∷ ws) [] = pure tt
wire_features feat_list_w i (fw ∷ ws) (f ∷ fs) = do
  set_list_text_entry feat_list_w i fw (length f + 1)
  wire_features feat_list_w (i + 1) ws fs

-- What the function does to the builder before `finish`.
unfoldable pub fill : RegisterArgs → Seg Slots
fill a = do
  s ← allocate a
  wire_structs a s
  wire_features s.feat_list_w 0 s.feat_ws a.features
  pure s

unfoldable pub encode_register_connection : RegisterArgs → Option Bytes
encode_register_connection a = Option.map (λ (s, seg). finish seg s.params.data_w 1 3) (fill a new)

unfoldable pub fill_bootstrap : ℕ → Seg ℕ
fill_bootstrap question_id = do
  msg ← alloc_struct 1 1
  bootstrap ← alloc_struct 1 1
  set_u16 msg.data_w 0 8
  set_struct_ptr msg.ptr_w 0 bootstrap.data_w 1 1
  set_u32 bootstrap.data_w 0 question_id
  pure msg.data_w

unfoldable pub build_bootstrap_msg : ℕ → Option Bytes
build_bootstrap_msg question_id =
    Option.map (λ (w, seg). finish seg w 1 1) (fill_bootstrap question_id new)

-- The words behind the frame header and the root pointer. `seg_count` is a `u32`, and its `+ 1` wraps
-- around, as in a build without overflow checks.
unfoldable pub strip_framing : Bytes → List ℕ
unfolding from_le words_of
strip_framing framed =
    let seg_count = (from_le (take 4 framed) + 1) % 2 ^ 32 in
    let header_words = (seg_count + 2) / 2 in
    let data_start = header_words * 8 + 8 in
    if ltb (length framed) 16
    then []
    else if leb (length framed) data_start
    then []
    else words_of (drop data_start framed)

-- The struct of the parameters is copied word for word into the message.
unfoldable pub fill_call : ℕ → List ℕ → Seg ℕ
fill_call question_id params_words = do
  msg ← alloc_struct 1 1
  call ← alloc_struct 3 3
  payload ← alloc_struct 0 2
  params_w ← alloc_raw params_words
  set_u16 msg.data_w 0 2
  set_struct_ptr msg.ptr_w 0 call.data_w 3 3
  set_u32 call.data_w 0 question_id
  set_u16 (call.data_w + 0) 4 method_register
  set_u64 (call.data_w + 1) 0 registration_server_id
  target ← alloc_struct 1 1
  set_u16 target.data_w 0 1
  pa ← alloc_struct 1 1
  set_u32 pa.data_w 0 0
  set_struct_ptr target.ptr_w 0 pa.data_w 1 1
  set_u16 target.data_w 0 0
  set_u32 target.data_w 4 0
  set_struct_ptr call.ptr_w 0 target.data_w 1 1
  set_struct_ptr call.ptr_w 1 payload.data_w 0 2
  set_struct_ptr payload.ptr_w 0 params_w 1 3
  pure msg.data_w

unfoldable pub build_call_msg : ℕ → Bytes → Option Bytes
build_call_msg question_id params_struct_bytes =
    Option.map (λ (w, seg). finish seg w 1 1)
      (fill_call question_id (strip_framing params_struct_bytes) new)
