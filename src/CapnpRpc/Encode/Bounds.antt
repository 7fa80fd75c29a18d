-- ===== src/CapnpRpc/Encode/Bounds.antt =====
-- The words of a registration are `u64`s, and how many there are.
use argo_rust.Base.{
  ℕ, suc, ◌+◌, ◌/◌, ◌^◌, ◌<◌, ◌≤◌, ◌≡◌, refl, ap, List, [], ◌∷◌, ◌++◌, length, length-append, All,
  All-append, arith,
}
use argo_rust.CapnpRpc.Bytes.{Bytes, IsByte, IsWord}
use argo_rust.CapnpRpc.Bytes.Laws.{length-padded}
use argo_rust.CapnpRpc.SegBuilder.{struct_ptr, list_ptr}
use argo_rust.CapnpRpc.SegBuilder.Pointers.{struct_ptr_lem, list_ptr_lem}
use argo_rust.CapnpRpc.Wire.Holds.{data_words, text_words}
use argo_rust.CapnpRpc.Encode.{RegisterArgs}
use argo_rust.CapnpRpc.Encode.Allocated.{IsValid, feature_words, to_list, to_features}
use argo_rust.CapnpRpc.Encode.Wired.{
  entries, spare, header, blobs, blobs-IsWord, list_words, filled,
}

pub struct_ptr-IsWord : (o d p : ℕ) → d < 2 ^ 16 → p < 2 ^ 16 → IsWord (struct_ptr o d p)
struct_ptr-IsWord o d p hd hp = omega (arith, struct_ptr_lem o d p hd hp)

list_ptr-IsWord : (o n e : ℕ) → n < 2 ^ 29 → e < 8 → IsWord (list_ptr o n e)
list_ptr-IsWord o n e hn he = omega (arith, list_ptr_lem o n e hn he)

-- The bytes of the texts of a list, with two more for each.
abbrev pub texts_size : List Bytes → ℕ
texts_size [] = 0
texts_size (f ∷ fs) = length f + 2 + texts_size fs

-- What the segment's length is bounded by.
abbrev pub size : RegisterArgs → ℕ
size a =
    length a.account_tag
    + length a.tunnel_secret
    + length a.version
    + length a.arch
    + texts_size a.features

length-text_words : (f : Bytes) → All IsByte f → length (text_words f) ≤ length f + 1
length-text_words f h = omega (arith, length-padded ((length f + 1 + 7) / 8) f (omega arith) h)

length-data_words : (f : Bytes) → All IsByte f → length (data_words f) ≤ length f
length-data_words f h = omega (arith, length-padded ((length f + 7) / 8) f (omega arith) h)

length-feature_words :
    (fs : List Bytes)
    → All (λ f. All IsByte f) fs
    → length (feature_words fs) + length fs ≤ texts_size fs
length-feature_words [] h = omega arith
length-feature_words (f ∷ fs) (p, h) = omega (
  arith,
  length-text_words f p,
  length-feature_words fs h,
  length-append {0} (text_words f) (feature_words fs),
)

length-entries : (at w : ℕ) (fs : List Bytes) → length (entries at w fs) ≡ length fs
length-entries at w [] = refl
length-entries at w (f ∷ fs) = ap suc (length-entries (at + 1) (w + length (text_words f)) fs)

length-spare : (fs : List Bytes) → length (spare fs) ≤ 1
length-spare [] = omega arith
length-spare (f ∷ fs) = omega arith

entries-IsWord :
    (at w : ℕ) (fs : List Bytes) → texts_size fs < 2 ^ 25 → All IsWord (entries at w fs)
entries-IsWord at w [] h = tt
entries-IsWord at w (f ∷ fs) h = (
  list_ptr-IsWord _ _ _ (omega arith) (omega arith),
  entries-IsWord (at + 1) (w + length (text_words f)) fs (omega arith),
)

spare-IsWord : (fs : List Bytes) → All IsWord (spare fs)
spare-IsWord [] = (omega arith, tt)
spare-IsWord (f ∷ fs) = tt

module _ (a : RegisterArgs) (v : IsValid a) where
  length-blobs : length (blobs a) + length a.features ≤ size a + 35
  unfolding blobs
  length-blobs =
      let tail_arch : List ℕ = text_words a.arch ++ feature_words a.features in
      let tail_version : List ℕ = text_words a.version ++ tail_arch in
      let tail_client : List ℕ = data_words a.client_id ++ tail_version in
      let tail_tunnel : List ℕ = data_words a.tunnel_id ++ tail_client in
      let tail_secret : List ℕ = data_words a.tunnel_secret ++ tail_tunnel in
      omega (
        arith,
        length-append {0} (text_words a.account_tag) tail_secret,
        length-append {0} (data_words a.tunnel_secret) tail_tunnel,
        length-append {0} (data_words a.tunnel_id) tail_client,
        length-append {0} (data_words a.client_id) tail_version,
        length-append {0} (text_words a.version) tail_arch,
        length-append {0} (text_words a.arch) (feature_words a.features),
        length-text_words a.account_tag v.account_tag,
        length-data_words a.tunnel_secret v.tunnel_secret,
        length-data_words a.tunnel_id v.tunnel_id,
        v.tunnel_id_size,
        length-data_words a.client_id v.client_id,
        v.client_id_size,
        length-text_words a.version v.version,
        length-text_words a.arch v.arch,
        length-feature_words a.features v.features,
      )

  length-list_words : length (list_words a) ≤ length a.features + 1
  unfolding list_words
  length-list_words =
      let at : ℕ = length (to_list a) in
      let w : ℕ = length (to_features a) in
      omega (
        arith,
        length-append {0} (entries at w a.features) (spare a.features),
        length-entries at w a.features,
        length-spare a.features,
      )

  pub length-filled_le : length (filled a) ≤ size a + 49
  unfolding filled header
  length-filled_le = omega (
    arith,
    length-append {0} (header a) (blobs a ++ list_words a),
    length-append {0} (blobs a) (list_words a),
    length-blobs,
    length-list_words,
  )

  pub length-filled : size a < 2 ^ 25 → length (filled a) < 2 ^ 26
  length-filled h = omega (arith, length-filled_le)

  header-IsWord : size a < 2 ^ 25 → All IsWord (header a)
  unfolding header
  header-IsWord h =
      let conn = v.conn_index in
      let id = v.tunnel_id_size in
      let counted = length-feature_words a.features v.features in
      (
        omega arith,
        (
          struct_ptr-IsWord _ 0 2 (omega arith) (omega arith),
          (
            list_ptr-IsWord _ _ 2 (omega arith) (omega arith),
            (
              struct_ptr-IsWord _ 1 2 (omega arith) (omega arith),
              (
                list_ptr-IsWord _ _ 2 (omega arith) (omega arith),
                (
                  list_ptr-IsWord _ _ 2 (omega arith) (omega arith),
                  (
                    omega arith,
                    (
                      struct_ptr-IsWord _ 0 4 (omega arith) (omega arith),
                      (
                        omega arith,
                        (
                          list_ptr-IsWord _ 16 2 (omega arith) (omega arith),
                          (
                            list_ptr-IsWord _ _ 6 (omega arith) (omega arith),
                            (
                              list_ptr-IsWord _ _ 2 (omega arith) (omega arith),
                              (list_ptr-IsWord _ _ 2 (omega arith) (omega arith), tt),
                            ),
                          ),
                        ),
                      ),
                    ),
                  ),
                ),
              ),
            ),
          ),
        ),
      )

  list_words-IsWord : size a < 2 ^ 25 → All IsWord (list_words a)
  unfolding list_words
  list_words-IsWord h =
      let at : ℕ = length (to_list a) in
      let w : ℕ = length (to_features a) in
      All-append IsWord (entries at w a.features) (spare a.features)
        (entries-IsWord at w a.features (omega arith)) (spare-IsWord a.features)

  pub filled-IsWord : size a < 2 ^ 25 → All IsWord (filled a)
  unfolding filled
  filled-IsWord h =
      All-append IsWord (header a) (blobs a ++ list_words a) (header-IsWord h)
        (All-append IsWord (blobs a) (list_words a) (blobs-IsWord a v) (list_words-IsWord h))
