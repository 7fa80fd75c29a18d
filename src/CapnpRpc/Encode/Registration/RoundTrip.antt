-- ===== src/CapnpRpc/Encode/Registration/RoundTrip.antt =====
-- The round trip of a registration.
use argo_rust.Base.{
  ℕ, suc, ◌+◌, ◌^◌, ◌<◌, ◌≤◌, ◌≡◌, refl, sym, ap, subst, ◌∙◌, List, [], ◌∷◌, ◌++◌, some, length,
  length-append, get_elem?, append_assoc, arith,
}
use argo_rust.CapnpRpc.Bytes.{Bytes}
use argo_rust.CapnpRpc.SegBuilder.{word_offset, list_ptr}
use argo_rust.CapnpRpc.Wire.{u8_at, struct_at, data_at, text_at, texts_at}
use argo_rust.CapnpRpc.Wire.Holds.{
  HoldsBytes, HoldsBytes-shift, HoldsBytes-append, text_words, get_elem?-append_right,
  get_elem?-append_left,
}
use argo_rust.CapnpRpc.Encode.{RegisterArgs}
use argo_rust.CapnpRpc.Encode.Allocated.{
  IsValid, feature_words, to_secret, to_tunnel_id, to_client_id, to_version, to_arch, to_features,
  to_list,
}
use argo_rust.CapnpRpc.Encode.Wired.{entries, spare, header, blobs, list_words, filled}
use argo_rust.CapnpRpc.Encode.Registration.{read_registration}
use argo_rust.CapnpRpc.Encode.Registration.Blobs.{
  holds_account, holds_secret, holds_tunnel_id, holds_client_id, holds_version, holds_arch,
  at_secret, at_tunnel_id, at_client_id, at_version, at_arch, at_features, at_list, strings,
  strings_shape,
}
use argo_rust.CapnpRpc.Encode.Registration.Parts.{struct_here, list_here, data_here, text_here}
use argo_rust.CapnpRpc.Encode.Registration.Features.{
  EntriesAt, TextsAt, texts_from_lem, entries-EntriesAt, feature_words-TextsAt,
}

length-entries : (fs : List Bytes) (at w : ℕ) → length (entries at w fs) ≡ length fs
length-entries [] at w = refl
length-entries (f ∷ fs) at w = ap suc (length-entries fs (at + 1) (w + length (text_words f)))

module _ (a : RegisterArgs) (v : IsValid a) (pre post : List ℕ) where
  whole : List ℕ
  whole = pre ++ (filled a ++ post)

  -- A word of the header.
  header_word :
      (i : ℕ) {w : ℕ} → get_elem? (header a) i ≡ some w → get_elem? whole (length pre + i) ≡ some w
  unfolding whole filled
  header_word i e =
      get_elem?-append_right pre (filled a ++ post) i
      ∙ get_elem?-append_left (filled a) post i
          (get_elem?-append_left (header a) (blobs a ++ list_words a) i e)

  -- A byte string among the blobs.
  blob_bytes :
      (t : ℕ) (src : Bytes)
      → HoldsBytes (blobs a) t src
      → HoldsBytes whole (length pre + (13 + t)) src
  unfolding whole filled
  blob_bytes t src h = HoldsBytes-shift pre (filled a ++ post) (13 + t) src (
      HoldsBytes-append (filled a) post (13 + t) src (
        unfold header in
        HoldsBytes-shift (header a) (blobs a ++ list_words a) t src
          (HoldsBytes-append (blobs a) (list_words a) t src h)))

  bytes_at :
      (t t' : ℕ) (src : Bytes)
      → HoldsBytes (blobs a) t src
      → t' ≡ 13 + t
      → HoldsBytes whole (length pre + t') src
  bytes_at t t' src h e =
      subst (λ i. HoldsBytes whole (length pre + i) src) (sym e) (blob_bytes t src h)

  -- The data and text fields, read at the slots of their structs.
  module _ (small : length whole < 2 ^ 26) where
    reads_account : text_at whole (length pre + 4) ≡ some a.account_tag
    unfolding header
    reads_account =
        text_here whole (length pre) small 4 13 a.account_tag (header_word 4 refl)
          (bytes_at 0 13 _ (holds_account a v) refl)

    reads_secret : data_at whole (length pre + 5) ≡ some a.tunnel_secret
    unfolding header
    reads_secret =
        data_here whole (length pre) small 5 (length (to_secret a)) a.tunnel_secret
          (header_word 5 refl)
          (bytes_at _ (length (to_secret a)) _ (holds_secret a v) (at_secret a))

    reads_tunnel_id : data_at whole (length pre + 2) ≡ some a.tunnel_id
    unfolding header
    reads_tunnel_id =
        data_here whole (length pre) small 2 (length (to_tunnel_id a)) a.tunnel_id
          (header_word 2 refl)
          (bytes_at _ (length (to_tunnel_id a)) _ (holds_tunnel_id a v)
            (omega (arith, at_secret a, at_tunnel_id a)))

    reads_client_id : data_at whole (length pre + 9) ≡ some a.client_id
    reads_client_id =
        data_here whole (length pre) small 9 (length (to_client_id a)) a.client_id
          (header_word 9 (
            unfold header in
            ap (λ (n : ℕ). some (list_ptr (word_offset (length (to_client_id a)) 9) n 2))
              (sym v.client_id_size)))
          (bytes_at _ (length (to_client_id a)) _ (holds_client_id a v)
            (omega (arith, at_secret a, at_tunnel_id a, at_client_id a)))

    reads_version : text_at whole (length pre + 11) ≡ some a.version
    unfolding header
    reads_version =
        text_here whole (length pre) small 11 (length (to_version a)) a.version
          (header_word 11 refl)
          (bytes_at _ (length (to_version a)) _ (holds_version a v)
            (omega (arith, at_secret a, at_tunnel_id a, at_client_id a, at_version a)))

    reads_arch : text_at whole (length pre + 12) ≡ some a.arch
    unfolding header
    reads_arch =
        text_here whole (length pre) small 12 (length (to_arch a)) a.arch (header_word 12 refl) (
          bytes_at _ (length (to_arch a)) _ (holds_arch a v)
            (omega (arith, at_secret a, at_tunnel_id a, at_client_id a, at_version a, at_arch a)))

    whole_size : length pre + 13 ≤ length whole
    unfolding whole filled header
    whole_size = omega (arith, length-append {0} pre (filled a ++ post))

    reads_auth : struct_at whole (length pre + 1) 0 2 ≡ some (length pre + 4)
    unfolding header
    reads_auth =
        struct_here whole (length pre) small 1 4 0 2 (header_word 1 refl)
          (omega (arith, whole_size)) (omega arith) (omega arith)

    reads_options : struct_at whole (length pre + 3) 1 2 ≡ some (length pre + 6)
    unfolding header
    reads_options =
        struct_here whole (length pre) small 3 6 1 2 (header_word 3 refl)
          (omega (arith, whole_size)) (omega arith) (omega arith)

    reads_client : struct_at whole (length pre + 7) 0 4 ≡ some (length pre + 9)
    unfolding header
    reads_client =
        struct_here whole (length pre) small 7 9 0 4 (header_word 7 refl)
          (omega (arith, whole_size)) (omega arith) (omega arith)

    reads_conn_index : u8_at whole (length pre + 0) 0 ≡ some a.conn_index
    unfolding u8_at
    reads_conn_index =
        rw (header_word 0 {w = a.conn_index} (unfold header in refl))
          (ap (λ (n : ℕ). some n) (let h = v.conn_index in omega arith))

  length-header : length (header a) ≡ 13
  unfolding header
  length-header = refl

  whole_at_entries :
      whole
      ≡ (pre ++ (header a ++ blobs a))
        ++ (entries (length (to_list a)) (length (to_features a)) a.features
            ++ (spare a.features ++ post))
  unfolding whole filled list_words
  whole_at_entries = simp append_assoc

  whole_at_texts :
      whole
      ≡ (pre ++ (header a ++ strings a)) ++ (feature_words a.features ++ (list_words a ++ post))
  unfolding whole filled
  whole_at_texts = simp (strings_shape, append_assoc)

  entries_at : EntriesAt whole (length pre) (length (to_list a)) (length (to_features a)) a.features
  entries_at =
      subst
        (λ ws. EntriesAt ws (length pre) (length (to_list a)) (length (to_features a)) a.features)
        (sym whole_at_entries)
        (entries-EntriesAt a.features (length pre) (length (to_list a)) (length (to_features a))
          (pre ++ (header a ++ blobs a)) (spare a.features ++ post)
          (omega (
            arith,
            at_list a,
            length-header,
            length-append {0} pre (header a ++ blobs a),
            length-append {0} (header a) (blobs a),
          )))

  texts_here : TextsAt whole (length pre) (length (to_features a)) a.features
  texts_here =
      subst (λ ws. TextsAt ws (length pre) (length (to_features a)) a.features) (sym whole_at_texts)
        (feature_words-TextsAt a.features (length pre) (length (to_features a))
          (pre ++ (header a ++ strings a)) (list_words a ++ post) v.features
          (omega (
            arith,
            at_features a,
            length-header,
            length-append {0} pre (header a ++ strings a),
            length-append {0} (header a) (strings a),
          )))

  list_fits : length pre + length (to_list a) + length a.features ≤ length whole
  list_fits =
      let fs : List ℕ = entries (length (to_list a)) (length (to_features a)) a.features in
      omega (
        arith,
        ap (λ (r : List ℕ). length r) whole_at_entries,
        at_list a,
        length-header,
        length-append {0} (pre ++ (header a ++ blobs a)) (fs ++ (spare a.features ++ post)),
        length-append {0} pre (header a ++ blobs a),
        length-append {0} (header a) (blobs a),
        length-append {0} fs (spare a.features ++ post),
        length-entries a.features (length (to_list a)) (length (to_features a)),
      )

  module _ (small : length whole < 2 ^ 26) where
    reads_features : texts_at whole (length pre + 10) ≡ some a.features
    unfolding texts_at
    reads_features = rw (
      list_here whole (length pre) small 10 (length (to_list a)) (length a.features) 6
          (header_word 10 (unfold header in refl)) (omega (arith, list_fits))
          (omega (arith, list_fits)) (omega arith),
      texts_from_lem whole (length pre) a.features (length (to_list a)) (length (to_features a))
          small entries_at texts_here,
    )

    reads_all : read_registration whole (length pre) ≡ some a
    unfolding read_registration
    reads_all =
        let start : length pre ≡ length pre + 0 = omega arith in
        let p0 : length pre + 4 + 0 ≡ length pre + 4 = omega arith in
        let p1 : length pre + 4 + 1 ≡ length pre + 5 = omega arith in
        let q1 : length pre + 6 + 1 ≡ length pre + 7 = omega arith in
        let r0 : length pre + 9 + 0 ≡ length pre + 9 = omega arith in
        let r1 : length pre + 9 + 1 ≡ length pre + 10 = omega arith in
        let r2 : length pre + 9 + 2 ≡ length pre + 11 = omega arith in
        let r3 : length pre + 9 + 3 ≡ length pre + 12 = omega arith in
        rw (
          (ap (λ (i : ℕ). u8_at whole i 0) start ∙ reads_conn_index small),
          reads_auth small,
          reads_tunnel_id small,
          reads_options small,
          p0,
          reads_account small,
          p1,
          reads_secret small,
          q1,
          reads_client small,
          r0,
          reads_client_id small,
          r1,
          reads_features,
          r2,
          reads_version small,
          r3,
          reads_arch small,
        )

-- The registration is read back from wherever its words stand in a segment.
pub read_registration_lem :
    (a : RegisterArgs) (pre post : List ℕ)
    → IsValid a
    → length (pre ++ (filled a ++ post)) < 2 ^ 26
    → read_registration (pre ++ (filled a ++ post)) (length pre) ≡ some a
unfolding whole
read_registration_lem a pre post v small = reads_all a v pre post small
