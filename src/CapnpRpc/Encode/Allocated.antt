-- ===== src/CapnpRpc/Encode/Allocated.antt =====
-- What the first half of `encode_register_connection` leaves in the segment.
use argo_rust.Base.{
  ℕ, ◌+◌, ◌<◌, ◌≡◌, List, [], ◌∷◌, ◌++◌, some, length, length-append, replicate, max, All,
  All-append, append_assoc, append-nil, arith,
}
use argo_rust.CapnpRpc.Bytes.{Bytes, IsByte, IsWord}
use argo_rust.CapnpRpc.Bytes.Laws.{padded-IsWord}
use argo_rust.CapnpRpc.SegBuilder.{alloc_struct, alloc_ptr_list, new}
use argo_rust.CapnpRpc.SegBuilder.Steps.{on, alloc_text_lem, alloc_data_lem}
use argo_rust.CapnpRpc.Wire.Holds.{data_words, text_words}
use argo_rust.CapnpRpc.Encode.{RegisterArgs, Slots, alloc_texts, allocate}

-- The arguments are byte strings, the two ids of 16 bytes.
pub record IsValid (a : RegisterArgs) : Type 0 where
  pub account_tag : All IsByte a.account_tag
  pub tunnel_secret : All IsByte a.tunnel_secret
  pub tunnel_id : All IsByte a.tunnel_id
  pub tunnel_id_size : length a.tunnel_id ≡ 16
  pub conn_index : a.conn_index < 256
  pub client_id : All IsByte a.client_id
  pub client_id_size : length a.client_id ≡ 16
  pub version : All IsByte a.version
  pub arch : All IsByte a.arch
  pub features : All (λ f. All IsByte f) a.features

-- The positions of the features' texts, the first at `w`, and their words.
abbrev pub feature_slots : ℕ → List Bytes → List ℕ
feature_slots w [] = []
feature_slots w (f ∷ fs) = w ∷ feature_slots (w + length (text_words f)) fs

abbrev pub feature_words : List Bytes → List ℕ
feature_words [] = []
feature_words (f ∷ fs) = text_words f ++ feature_words fs

alloc_texts_lem :
    (fs : List Bytes) (ws : List ℕ)
    → All IsWord ws
    → All (λ f. All IsByte f) fs
    → alloc_texts fs (on ws) ≡ some (feature_slots (length ws) fs, on (ws ++ feature_words fs))
unfolding alloc_texts
alloc_texts_lem [] ws h k = rw append-nil
alloc_texts_lem (f ∷ fs) ws h (kf, k) =
    let next = All-append IsWord ws (text_words f) h (padded-IsWord _ f kf) in
    rw (
      alloc_text_lem ws f h,
      alloc_texts_lem fs (ws ++ text_words f) next k,
      length-append {0} ws (text_words f),
      append_assoc ws (text_words f) (feature_words fs),
    )

pub feature_words-IsWord :
    (fs : List Bytes) → All (λ f. All IsByte f) fs → All IsWord (feature_words fs)
feature_words-IsWord [] h = tt
feature_words-IsWord (f ∷ fs) (p, h) =
    All-append IsWord (text_words f) (feature_words fs) (padded-IsWord _ f p)
      (feature_words-IsWord fs h)

-- The segment in front of each part, in the order of allocation.
module _ (a : RegisterArgs) where
  unfoldable pub to_secret : List ℕ
  to_secret = replicate 13 0 ++ text_words a.account_tag

  unfoldable pub to_tunnel_id : List ℕ
  to_tunnel_id = to_secret ++ data_words a.tunnel_secret

  unfoldable pub to_client_id : List ℕ
  to_client_id = to_tunnel_id ++ data_words a.tunnel_id

  unfoldable pub to_version : List ℕ
  to_version = to_client_id ++ data_words a.client_id

  unfoldable pub to_arch : List ℕ
  to_arch = to_version ++ text_words a.version

  unfoldable pub to_features : List ℕ
  to_features = to_arch ++ text_words a.arch

  unfoldable pub to_list : List ℕ
  to_list = to_features ++ feature_words a.features

  unfoldable pub slots : Slots
  slots = record {
    params = record { data_w = 0; ptr_w = 1 };
    auth = record { data_w = 4; ptr_w = 4 };
    options = record { data_w = 6; ptr_w = 7 };
    client = record { data_w = 9; ptr_w = 9 };
    account_tag_w = 13;
    secret_w = length to_secret;
    tunnel_id_w = length to_tunnel_id;
    client_id_w = length to_client_id;
    version_w = length to_version;
    arch_w = length to_arch;
    feat_ws = feature_slots (length to_features) a.features;
    feat_list_w = length to_list;
  }

  unfoldable pub allocated : List ℕ
  allocated = to_list ++ replicate (max (length a.features) 1) 0

  -- Every word in front of a part fits 64 bits.
  record AreWords : Type 0 where
    at_secret : All IsWord to_secret
    at_tunnel_id : All IsWord to_tunnel_id
    at_client_id : All IsWord to_client_id
    at_version : All IsWord to_version
    at_arch : All IsWord to_arch
    at_features : All IsWord to_features
    at_list : All IsWord to_list

  IsValid-AreWords : IsValid a → AreWords
  unfolding to_secret to_tunnel_id to_client_id to_version to_arch to_features to_list
  IsValid-AreWords v =
      let h1 =
        All-append IsWord (replicate 13 0) _ (omega arith) (padded-IsWord _ _ v.account_tag) in
      let h2 = All-append IsWord to_secret _ h1 (padded-IsWord _ _ v.tunnel_secret) in
      let h3 = All-append IsWord to_tunnel_id _ h2 (padded-IsWord _ _ v.tunnel_id) in
      let h4 = All-append IsWord to_client_id _ h3 (padded-IsWord _ _ v.client_id) in
      let h5 = All-append IsWord to_version _ h4 (padded-IsWord _ _ v.version) in
      let h6 = All-append IsWord to_arch _ h5 (padded-IsWord _ _ v.arch) in
      record {
        at_secret = h1;
        at_tunnel_id = h2;
        at_client_id = h3;
        at_version = h4;
        at_arch = h5;
        at_features = h6;
        at_list = All-append IsWord to_features _ h6 (feature_words-IsWord a.features v.features);
      }

  pub allocate_lem : IsValid a → allocate a new ≡ some (slots, on allocated)
  unfolding allocate alloc_struct alloc_ptr_list slots allocated to_secret to_tunnel_id to_client_id
      to_version to_arch to_features to_list
  allocate_lem v =
      let h = IsValid-AreWords v in
      rw (
        alloc_text_lem (replicate 13 0) a.account_tag (omega arith),
        alloc_data_lem to_secret a.tunnel_secret h.at_secret,
        alloc_data_lem to_tunnel_id a.tunnel_id h.at_tunnel_id,
        alloc_data_lem to_client_id a.client_id h.at_client_id,
        alloc_text_lem to_version a.version h.at_version,
        alloc_text_lem to_arch a.arch h.at_arch,
        alloc_texts_lem a.features to_features h.at_features v.features,
      )
