-- ===== src/CapnpRpc/Encode/Registration/Blobs.antt =====
-- Where each byte string of a registration stands among the blobs behind the structs.
use argo_rust.Base.{
  ℕ, ◌+◌, ◌≡◌, ap, List, [], ◌∷◌, ◌++◌, length, length-append, append_assoc, arith, replicate,
}
use argo_rust.CapnpRpc.Wire.Holds.{
  HoldsBytes, HoldsBytes-shift, HoldsBytes-append, data_words, text_words, data_words-HoldsBytes,
  text_words-HoldsBytes,
}
use argo_rust.CapnpRpc.Encode.{RegisterArgs}
use argo_rust.CapnpRpc.Encode.Allocated.{
  IsValid, feature_words, to_secret, to_tunnel_id, to_client_id, to_version, to_arch, to_features,
  to_list,
}
use argo_rust.CapnpRpc.Encode.Wired.{blobs, to_list_shape}

module _ (a : RegisterArgs) (v : IsValid a) where
  -- Each byte string in the blobs, at its distance from the end of the structs.
  pub holds_account : HoldsBytes (blobs a) 0 (a.account_tag ++ 0 ∷ [])
  unfolding blobs
  holds_account =
      HoldsBytes-append (text_words a.account_tag) _ 0 _
        (text_words-HoldsBytes a.account_tag v.account_tag)

  pub holds_secret : HoldsBytes (blobs a) (length (text_words a.account_tag) + 0) a.tunnel_secret
  unfolding blobs
  holds_secret = HoldsBytes-shift (text_words a.account_tag) _ 0 _ (
      HoldsBytes-append (data_words a.tunnel_secret) _ 0 _
        (data_words-HoldsBytes a.tunnel_secret v.tunnel_secret))

  pub holds_tunnel_id :
      HoldsBytes
        (blobs a)
        (length (text_words a.account_tag) + (length (data_words a.tunnel_secret) + 0))
        a.tunnel_id
  unfolding blobs
  holds_tunnel_id = HoldsBytes-shift (text_words a.account_tag) _ _ _ (
      HoldsBytes-shift (data_words a.tunnel_secret) _ 0 _ (
        HoldsBytes-append (data_words a.tunnel_id) _ 0 _
          (data_words-HoldsBytes a.tunnel_id v.tunnel_id)))

  pub holds_client_id :
      HoldsBytes
        (blobs a)
        (length (text_words a.account_tag)
          + (length (data_words a.tunnel_secret) + (length (data_words a.tunnel_id) + 0)))
        a.client_id
  unfolding blobs
  holds_client_id = HoldsBytes-shift (text_words a.account_tag) _ _ _ (
      HoldsBytes-shift (data_words a.tunnel_secret) _ _ _ (
        HoldsBytes-shift (data_words a.tunnel_id) _ 0 _ (
          HoldsBytes-append (data_words a.client_id) _ 0 _
            (data_words-HoldsBytes a.client_id v.client_id))))

  pub holds_version :
      HoldsBytes
        (blobs a)
        (length (text_words a.account_tag)
          + (length (data_words a.tunnel_secret)
              + (length (data_words a.tunnel_id) + (length (data_words a.client_id) + 0))))
        (a.version ++ 0 ∷ [])
  unfolding blobs
  holds_version = HoldsBytes-shift (text_words a.account_tag) _ _ _ (
      HoldsBytes-shift (data_words a.tunnel_secret) _ _ _ (
        HoldsBytes-shift (data_words a.tunnel_id) _ _ _ (
          HoldsBytes-shift (data_words a.client_id) _ 0 _ (
            HoldsBytes-append (text_words a.version) _ 0 _
              (text_words-HoldsBytes a.version v.version)))))

  pub holds_arch :
      HoldsBytes
        (blobs a)
        (length (text_words a.account_tag)
          + (length (data_words a.tunnel_secret)
              + (length (data_words a.tunnel_id)
                  + (length (data_words a.client_id) + (length (text_words a.version) + 0)))))
        (a.arch ++ 0 ∷ [])
  unfolding blobs
  holds_arch = HoldsBytes-shift (text_words a.account_tag) _ _ _ (
      HoldsBytes-shift (data_words a.tunnel_secret) _ _ _ (
        HoldsBytes-shift (data_words a.tunnel_id) _ _ _ (
          HoldsBytes-shift (data_words a.client_id) _ _ _ (
            HoldsBytes-shift (text_words a.version) _ 0 _ (
              HoldsBytes-append (text_words a.arch) _ 0 _ (text_words-HoldsBytes a.arch v.arch))))))

-- The positions that the pointers name, as distances from the first word.
module _ (a : RegisterArgs) where
  pub at_secret : length (to_secret a) ≡ 13 + (length (text_words a.account_tag) + 0)
  unfolding to_secret
  at_secret = omega arith

  pub at_tunnel_id :
      length (to_tunnel_id a) ≡ length (to_secret a) + length (data_words a.tunnel_secret)
  unfolding to_tunnel_id
  at_tunnel_id = length-append (to_secret a) (data_words a.tunnel_secret)

  pub at_client_id :
      length (to_client_id a) ≡ length (to_tunnel_id a) + length (data_words a.tunnel_id)
  unfolding to_client_id
  at_client_id = length-append (to_tunnel_id a) (data_words a.tunnel_id)

  pub at_version : length (to_version a) ≡ length (to_client_id a) + length (data_words a.client_id)
  unfolding to_version
  at_version = length-append (to_client_id a) (data_words a.client_id)

  pub at_arch : length (to_arch a) ≡ length (to_version a) + length (text_words a.version)
  unfolding to_arch
  at_arch = length-append (to_version a) (text_words a.version)

  -- The blobs in front of the features' texts.
  unfoldable pub strings : List ℕ
  strings =
      text_words a.account_tag
      ++ (data_words a.tunnel_secret
          ++ (data_words a.tunnel_id
              ++ (data_words a.client_id ++ (text_words a.version ++ text_words a.arch))))

  pub strings_shape : blobs a ≡ strings ++ feature_words a.features
  unfolding blobs strings
  strings_shape = simp append_assoc

  to_features_shape : to_features a ≡ replicate 13 0 ++ strings
  unfolding strings to_features to_arch to_version to_client_id to_tunnel_id to_secret
  to_features_shape = simp append_assoc

  pub at_features : length (to_features a) ≡ 13 + length strings
  at_features = omega (arith, ap (λ (r : List ℕ). length r) to_features_shape)

  pub at_list : length (to_list a) ≡ 13 + length (blobs a)
  at_list = omega (arith, ap (λ (r : List ℕ). length r) (to_list_shape a))
