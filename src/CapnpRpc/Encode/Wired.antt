-- ===== src/CapnpRpc/Encode/Wired.antt =====
-- What the second half of `encode_register_connection` writes: the pointers of the four structs and
-- the entries of the feature list.
use argo_rust.Base.{
  ℕ, zero, suc, ◌+◌, ◌≡◌, refl, sym, ap, subst, ◌∙◌, List, [], ◌∷◌, ◌++◌, some, length,
  length-append, replicate, max, All, All-append, append_assoc, append-nil, arith,
}
use argo_rust.CapnpRpc.Bytes.{Bytes, IsWord, store}
use argo_rust.CapnpRpc.Bytes.Laws.{padded-IsWord}
use argo_rust.CapnpRpc.SegBuilder.{
  new, word_offset, struct_ptr, list_ptr, set_struct_ptr, set_data_ptr, set_text_ptr,
  set_ptr_list_ptr, set_list_text_entry, set_word,
}
use argo_rust.CapnpRpc.SegBuilder.Steps.{on, set_u8_zero, set_word_lem}
use argo_rust.CapnpRpc.Wire.Holds.{data_words, text_words}
use argo_rust.CapnpRpc.Encode.{RegisterArgs, wire_structs, wire_features, fill}
use argo_rust.CapnpRpc.Encode.Allocated.{
  IsValid, feature_slots, feature_words, feature_words-IsWord, to_secret, to_tunnel_id,
  to_client_id, to_version, to_arch, to_features, to_list, slots, allocated, allocate_lem,
}

-- The pointers to the features' texts, the first at word `at` and to word `w`.
abbrev pub entries : ℕ → ℕ → List Bytes → List ℕ
entries at w [] = []
entries at w (f ∷ fs) =
    list_ptr (word_offset w at) (length f + 1) 2 ∷ entries (at + 1) (w + length (text_words f)) fs

-- The word that an empty list of features still takes.
abbrev pub spare : List Bytes → List ℕ
spare [] = 0 ∷ []
spare (f ∷ fs) = []

list_zone :
    (fs : List Bytes) → replicate (max (length fs) 1) 0 ≡ replicate (length fs) 0 ++ spare fs
list_zone [] = refl
list_zone (f ∷ fs) =
    let one : max (suc (length fs)) 1 ≡ suc (length fs) = omega arith in rw (one, append-nil)

entry_lem :
    (L i w n : ℕ) (pre post : List ℕ)
    → L + i ≡ length pre
    → set_list_text_entry L i w n (on (pre ++ 0 ∷ post))
      ≡ some (tt, on (pre ++ list_ptr (word_offset w (L + i)) n 2 ∷ post))
unfolding set_list_text_entry set_data_ptr
entry_lem L i w n pre post e =
    let v : ℕ = list_ptr (word_offset w (L + i)) n 2 in
    subst (λ m. set_word m v (on (pre ++ 0 ∷ post)) ≡ some (tt, on (pre ++ v ∷ post))) (sym e)
      (set_word_lem pre 0 post v)

wire_features_lem :
    (fs : List Bytes) (L i w : ℕ) (pre rest : List ℕ)
    → L + i ≡ length pre
    → wire_features L i (feature_slots w fs) fs (on (pre ++ (replicate (length fs) 0 ++ rest)))
      ≡ some (tt, on (pre ++ (entries (L + i) w fs ++ rest)))
unfolding wire_features
wire_features_lem [] L i w pre rest e = refl
wire_features_lem (f ∷ fs) L i w pre rest e =
    let zeros : List ℕ = replicate (length fs) 0 ++ rest in
    let w' : ℕ = w + length (text_words f) in
    let v : ℕ = list_ptr (word_offset w (L + i)) (length f + 1) 2 in
    let next : L + (i + 1) ≡ length (pre ++ v ∷ []) =
      omega (arith, length-append {0} pre (v ∷ [])) in
    let at : L + (i + 1) ≡ L + i + 1 = omega arith in
    rw (entry_lem L i w (length f + 1) pre zeros e, ← append_assoc pre (v ∷ []) zeros)
      (wire_features_lem fs L (i + 1) w' (pre ++ v ∷ []) rest next
        ∙ rw (append_assoc pre (v ∷ []) (entries (L + (i + 1)) w' fs ++ rest), at))

module _ (a : RegisterArgs) where
  unfoldable pub header : List ℕ
  header =
      a.conn_index
      ∷ struct_ptr (word_offset 4 1) 0 2
      ∷ list_ptr (word_offset (length (to_tunnel_id a)) 2) (length a.tunnel_id) 2
      ∷ struct_ptr (word_offset 6 3) 1 2
      ∷ list_ptr (word_offset 13 4) (length a.account_tag + 1) 2
      ∷ list_ptr (word_offset (length (to_secret a)) 5) (length a.tunnel_secret) 2
      ∷ 0
      ∷ struct_ptr (word_offset 9 7) 0 4
      ∷ 0
      ∷ list_ptr (word_offset (length (to_client_id a)) 9) 16 2
      ∷ list_ptr (word_offset (length (to_list a)) 10) (length a.features) 6
      ∷ list_ptr (word_offset (length (to_version a)) 11) (length a.version + 1) 2
      ∷ list_ptr (word_offset (length (to_arch a)) 12) (length a.arch + 1) 2
      ∷ []

  -- The byte strings behind the structs.
  unfoldable pub blobs : List ℕ
  blobs =
      text_words a.account_tag
      ++ (data_words a.tunnel_secret
          ++ (data_words a.tunnel_id
              ++ (data_words a.client_id
                  ++ (text_words a.version ++ (text_words a.arch ++ feature_words a.features)))))

  pub to_list_shape : to_list a ≡ replicate 13 0 ++ blobs
  unfolding blobs to_secret to_tunnel_id to_client_id to_version to_arch to_features to_list
  to_list_shape = simp append_assoc

  wire_structs_lem :
      (tail : List ℕ)
      → All IsWord tail
      → wire_structs a (slots a) (on (replicate 13 0 ++ tail)) ≡ some (tt, on (header ++ tail))
  unfolding wire_structs slots header set_struct_ptr set_data_ptr set_text_ptr set_ptr_list_ptr
      store
  wire_structs_lem tail h = rw (
      set_u8_zero (replicate 12 0 ++ tail) a.conn_index
        (All-append IsWord (replicate 12 0) tail (omega arith) h))

  pub blobs-IsWord : IsValid a → All IsWord blobs
  unfolding blobs
  blobs-IsWord v =
      All-append IsWord (text_words a.account_tag) _ (padded-IsWord _ _ v.account_tag) (
        All-append IsWord (data_words a.tunnel_secret) _ (padded-IsWord _ _ v.tunnel_secret) (
          All-append IsWord (data_words a.tunnel_id) _ (padded-IsWord _ _ v.tunnel_id) (
            All-append IsWord (data_words a.client_id) _ (padded-IsWord _ _ v.client_id) (
              All-append IsWord (text_words a.version) _ (padded-IsWord _ _ v.version) (
                All-append IsWord (text_words a.arch) _ (padded-IsWord _ _ v.arch)
                  (feature_words-IsWord a.features v.features))))))

  unfoldable pub list_words : List ℕ
  list_words = entries (length (to_list a)) (length (to_features a)) a.features ++ spare a.features

  -- All words of the finished segment.
  unfoldable pub filled : List ℕ
  filled = header ++ (blobs ++ list_words)

  zone : List ℕ
  zone = replicate (max (length a.features) 1) 0

  zone-IsWord : All IsWord zone
  unfolding zone
  zone-IsWord = zeros (max (length a.features) 1)
    where
      zeros : (n : ℕ) → All IsWord (replicate n 0)
      zeros zero = tt
      zeros (suc n) = (omega arith, zeros n)

  allocated_shape : allocated a ≡ replicate 13 0 ++ (blobs ++ zone)
  unfolding allocated zone
  allocated_shape =
      ap (λ (r : List ℕ). r ++ replicate (max (length a.features) 1) 0) to_list_shape
      ∙ append_assoc (replicate 13 0) blobs (replicate (max (length a.features) 1) 0)

  list_start : length (to_list a) + 0 ≡ length (header ++ blobs)
  unfolding header
  list_start = omega (arith, ap (λ (r : List ℕ). length r) to_list_shape)

  wire_list_lem :
      wire_features
        (length (to_list a))
        0
        (feature_slots (length (to_features a)) a.features)
        a.features
        (on (header ++ (blobs ++ zone)))
      ≡ some (tt, on filled)
  unfolding zone filled list_words
  wire_list_lem =
      let L : ℕ = length (to_list a) in
      let W : ℕ = length (to_features a) in
      let Z : List ℕ = replicate (length a.features) 0 in
      let at : L + 0 ≡ length (header ++ blobs) = list_start in
      let base : L + 0 ≡ L = omega arith in
      rw (list_zone a.features, ← append_assoc header blobs (Z ++ spare a.features))
        (wire_features_lem a.features L 0 W (header ++ blobs) (spare a.features) at
          ∙ rw (base, append_assoc header blobs (entries L W a.features ++ spare a.features)))

  -- The two halves together; no write is out of bounds.
  pub fill_lem : IsValid a → fill a new ≡ some (slots a, on filled)
  unfolding fill slots
  fill_lem v =
      rw
        (
          allocate_lem a v,
          allocated_shape,
          wire_structs_lem (blobs ++ zone)
              (All-append IsWord blobs zone (blobs-IsWord v) zone-IsWord),
        )
        (rw wire_list_lem)
