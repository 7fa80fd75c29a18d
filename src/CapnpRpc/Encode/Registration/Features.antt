-- ===== src/CapnpRpc/Encode/Registration/Features.antt =====
-- The list of features: its entries and the texts that they point to.
use argo_rust.Base.{
  ℕ, ◌+◌, ◌^◌, ◌<◌, ◌≡◌, refl, sym, ap, subst, subst₂, ◌∙◌, List, [], ◌∷◌, ◌++◌, some, length,
  length-append, get_elem?, All, append_assoc, arith,
}
use argo_rust.CapnpRpc.Bytes.{Bytes, IsByte}
use argo_rust.CapnpRpc.SegBuilder.{word_offset, list_ptr}
use argo_rust.CapnpRpc.Wire.{texts_from}
use argo_rust.CapnpRpc.Wire.Holds.{
  HoldsBytes, HoldsBytes-shift, HoldsBytes-append, text_words, text_words-HoldsBytes,
  get_elem?-append_right,
}
use argo_rust.CapnpRpc.Encode.Allocated.{feature_words}
use argo_rust.CapnpRpc.Encode.Wired.{entries}
use argo_rust.CapnpRpc.Encode.Registration.Parts.{text_here}

module _ (ws : List ℕ) (k : ℕ) where
  abbrev pub EntriesAt : ℕ → ℕ → List Bytes → Type 0
  EntriesAt at w [] = Unit {0}
  EntriesAt at w (f ∷ fs) =
      (get_elem? ws (k + at) ≡ some (list_ptr (word_offset w at) (length f + 1) 2))
      × EntriesAt (at + 1) (w + length (text_words f)) fs

  abbrev pub TextsAt : ℕ → List Bytes → Type 0
  TextsAt w [] = Unit {0}
  TextsAt w (f ∷ fs) = HoldsBytes ws (k + w) (f ++ 0 ∷ []) × TextsAt (w + length (text_words f)) fs

  pub texts_from_lem :
      (fs : List Bytes) (at w : ℕ)
      → length ws < 2 ^ 26
      → EntriesAt at w fs
      → TextsAt w fs
      → texts_from ws (k + at) (length fs) ≡ some fs
  unfolding texts_from
  texts_from_lem [] at w small e h = refl
  texts_from_lem (f ∷ fs) at w small (p, e) (q, h) =
      let next : k + at + 1 ≡ k + (at + 1) = omega arith in
      rw (
        text_here ws k small at w f p q,
        next,
        texts_from_lem fs (at + 1) (w + length (text_words f)) small e h,
      )

pub entries-EntriesAt :
    (fs : List Bytes) (k at w : ℕ) (pre post : List ℕ)
    → length pre ≡ k + at
    → EntriesAt (pre ++ (entries at w fs ++ post)) k at w fs
entries-EntriesAt [] k at w pre post e = tt
entries-EntriesAt (f ∷ fs) k at w pre post e =
    let v : ℕ = list_ptr (word_offset w at) (length f + 1) 2 in
    let w' : ℕ = w + length (text_words f) in
    let rest : List ℕ = entries (at + 1) w' fs ++ post in
    let here : length pre + 0 ≡ k + at = omega arith in
    let next : length (pre ++ v ∷ []) ≡ k + (at + 1) =
      omega (arith, length-append {0} pre (v ∷ [])) in
    (
      subst (λ i. get_elem? (pre ++ v ∷ rest) i ≡ some v) here
          (get_elem?-append_right pre (v ∷ rest) 0),
      subst (λ ws. EntriesAt ws k (at + 1) w' fs) (append_assoc pre (v ∷ []) rest)
          (entries-EntriesAt fs k (at + 1) w' (pre ++ v ∷ []) post next),
    )

pub feature_words-TextsAt :
    (fs : List Bytes) (k w : ℕ) (pre post : List ℕ)
    → All (λ f. All IsByte f) fs
    → length pre ≡ k + w
    → TextsAt (pre ++ (feature_words fs ++ post)) k w fs
feature_words-TextsAt [] k w pre post b e = tt
feature_words-TextsAt (f ∷ fs) k w pre post (p, b) e =
    let T : List ℕ = text_words f in
    let rest : List ℕ = feature_words fs ++ post in
    let here : length pre + 0 ≡ k + w = omega arith in
    let next : length (pre ++ T) ≡ k + (w + length T) = omega (arith, length-append {0} pre T) in
    let join : pre ++ (T ++ rest) ≡ pre ++ ((T ++ feature_words fs) ++ post) =
      ap (λ (r : List ℕ). pre ++ r) (sym (append_assoc T (feature_words fs) post)) in
    (
      subst₂ (λ ws i. HoldsBytes ws i (f ++ 0 ∷ [])) join here
          (HoldsBytes-shift pre (T ++ rest) 0 (f ++ 0 ∷ [])
            (HoldsBytes-append T rest 0 (f ++ 0 ∷ []) (text_words-HoldsBytes f p))),
      subst (λ ws. TextsAt ws k (w + length T) fs) (append_assoc pre T rest ∙ join)
          (feature_words-TextsAt fs k (w + length T) (pre ++ T) post b next),
    )
