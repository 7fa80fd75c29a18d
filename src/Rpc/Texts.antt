-- ===== src/Rpc/Texts.antt =====
-- A list of texts that the loop sets holds them.
use argo_rust.Base.{
  List, [], ◌∷◌, ◌++◌, map, append_assoc, ok, set, length, replicate, ◌≡◌, refl, ap, length-append,
}
use argo_rust.CapnpRpc.Bytes.{Bytes}
use argo_rust.Schema.{Layout}
use argo_rust.Schema.Writes.{LayoutLaws}
use argo_rust.Rpc.{set_texts, texts_of}

set-length {ℓ} :
    {A : Type ℓ} (xs ys : List A) (y z : A) → set (xs ++ y ∷ ys) (length xs) z ≡ xs ++ z ∷ ys
set-length [] ys y z = refl
set-length (x ∷ xs) ys y z = ap (λ r. x ∷ r) (set-length xs ys y z)

module _ (l : Layout) where
  open l use {Pointer, null, to_text}

  -- The elements before `i` are kept, and those from `i` on are set in order.
  set_texts-append :
      (fs : List Bytes) (before : List Pointer)
      → set_texts l fs (length before) (before ++ replicate (length fs) null)
        ≡ before ++ map to_text fs
  unfolding set_texts
  set_texts-append [] before = refl
  set_texts-append (f ∷ fs) before =
      rw (set-length before (replicate (length fs) null) null (to_text f)) (
        let ih = set_texts-append fs (before ++ to_text f ∷ []) in
        simp (append_assoc, length-append before (to_text f ∷ [])) at ih)

  pub set_texts_lem :
      (fs : List Bytes) → set_texts l fs 0 (replicate (length fs) null) ≡ map to_text fs
  set_texts_lem fs = set_texts-append fs []

  pub texts_of-to_text :
      (laws : LayoutLaws l) (fs : List Bytes) → texts_of l (map to_text fs) ≡ ok fs
  texts_of-to_text laws [] = refl
  texts_of-to_text laws (f ∷ fs) =
      rw (LayoutLaws.get_text-to_text laws f, texts_of-to_text laws fs) refl
