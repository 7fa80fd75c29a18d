-- ===== src/Schema/Writes/ReadBack.antt =====
-- What a struct reads as after writes, by the laws of the layout module.
use argo_rust.Base.{
  ℕ, ◌+◌, ◌*◌, ◌^◌, ◌<◌, Bool, true, false, List, [], ◌∷◌, ◌≡◌, inl, inr, refl, sym, ap, ltb, leb,
  ◌==◌, ◌&&◌, if◌then◌else◌, arith, ◌∙◌, All, Bool-cases, ltb→lt, leb→le, ==_iff, ok,
}
use argo_rust.CapnpRpc.Bytes.{Bytes}
use argo_rust.Schema.{
  Layout, StructSize, Primitive, width, boolean, i8, i16, i32, i64, u8, u16, u32, u64,
}
use argo_rust.Schema.Writes.{
  Apart, LayoutLaws, Write, pointer, data_field, rank, same_field, apart, write, write_all,
  is_inside, are_inside, pointer_after, number_after, is_clear, are_clear, Fits,
}

and_left : (a b : Bool) → (a && b) ≡ true → a ≡ true
and_left true b e = refl
and_left false b e = e

and_right : (a b : Bool) → (a && b) ≡ true → b ≡ true
and_right true b e = e
and_right false b e = cc

unrank : ℕ → Primitive
unrank n =
    if n == 0
    then boolean
    else if n == 1
    then i8
    else if n == 2
    then i16
    else if n == 3
    then i32
    else if n == 4
    then i64
    else if n == 5
    then u8
    else if n == 6
    then u16
    else if n == 7
    then u32
    else u64

unrank-rank : (t : Primitive) → unrank (rank t) ≡ t
unfolding unrank
unrank-rank boolean = refl
unrank-rank i8 = refl
unrank-rank i16 = refl
unrank-rank i32 = refl
unrank-rank i64 = refl
unrank-rank u8 = refl
unrank-rank u16 = refl
unrank-rank u32 = refl
unrank-rank u64 = refl

rank_injective : (t u : Primitive) → rank t ≡ rank u → t ≡ u
rank_injective t u e = sym (unrank-rank t) ∙ ap unrank e ∙ unrank-rank u

apart-Apart : (t : Primitive) (i : ℕ) (u : Primitive) (j : ℕ) → apart t i u j ≡ true → Apart t i u j
apart-Apart t i u j e = elim (Bool-cases (leb (width t * (i + 1)) (width u * j))) [
  | inl before ↦ inl (leb→le (width t * (i + 1)) (width u * j) before)
  | inr after ↦ inr (leb→le (width u * (j + 1)) (width t * i) (rw after at e))
]

module _ (l : Layout) (laws : LayoutLaws l) where
  open l use {
    Struct, Pointer, init_struct, get_pointer_field, get_data_field, null, to_struct, to_text,
    to_data, to_list, get_struct, get_text, get_data, get_list,
  }
  open laws use {size}

  size-write : (s : Struct) (w : Write l) → size (write l s w) ≡ size s
  size-write s (pointer i p) = LayoutLaws.size-set_pointer_field laws s i p
  size-write s (data_field t i v) = LayoutLaws.size-set_data_field laws t s i v

  get_pointer_field-write :
      (s : Struct) (i : ℕ) (p : Pointer) (j : ℕ)
      → i < StructSize.pointers (size s)
      → get_pointer_field (write l s (pointer i p)) j
        ≡ (if i == j then p else get_pointer_field s j)
  get_pointer_field-write s i p j inside = elim (Bool-cases (i == j)) [
    | inl same ↦
        rw
          (
            same,
            sym ((==_iff i j).0 same),
            LayoutLaws.get_pointer_field-set_pointer_field laws s i p inside,
          )
          refl
    | inr other ↦
        rw (other, LayoutLaws.get_pointer_field-set_other laws s i p j (λ e. ground arith)) refl
  ]

  get_data_field-write :
      (s : Struct) (t : Primitive) (i v : ℕ) (u : Primitive) (j : ℕ)
      → is_inside l (size s) (data_field t i v) ≡ true
      → v < 2 ^ width t
      → is_clear l u j (data_field t i v) ≡ true
      → get_data_field u (write l s (data_field t i v)) j
        ≡ (if same_field t i u j then v else get_data_field u s j)
  get_data_field-write s t i v u j inside fits clear = elim (Bool-cases (same_field t i u j)) [
    | inl same ↦
        let e =
          rank_injective t u
            ((==_iff (rank t) (rank u)).0 (and_left (rank t == rank u) (i == j) same)) in
        let f = (==_iff i j).0 (and_right (rank t == rank u) (i == j) same) in
        rw (same, sym e, sym f)
          (LayoutLaws.get_data_field-set_data_field laws t s i v
            (leb→le (width t * (i + 1)) (64 * StructSize.data_words (size s)) inside) fits)
    | inr other ↦
        let c = (rw other at clear) in
        rw other (LayoutLaws.get_data_field-set_other laws t s i v u j (apart-Apart t i u j c))
  ]

  -- A pointer reads as the last value written to it.
  pub get_pointer_field-write_all :
      (ws : List (Write l)) (s : Struct) (j : ℕ)
      → are_inside l (size s) ws ≡ true
      → get_pointer_field (write_all l s ws) j ≡ pointer_after l j (get_pointer_field s j) ws
  get_pointer_field-write_all [] s j inside = refl
  get_pointer_field-write_all (pointer i p ∷ ws) s j inside =
      let h = and_left (ltb i (StructSize.pointers (size s))) (are_inside l (size s) ws) inside in
      let r = and_right (ltb i (StructSize.pointers (size s))) (are_inside l (size s) ws) inside in
      let ih =
        get_pointer_field-write_all ws (write l s (pointer i p)) j
          (rw (size-write s (pointer i p)) r) in
      ih
      ∙ ap (λ q. pointer_after l j q ws)
          (get_pointer_field-write s i p j (ltb→lt i (StructSize.pointers (size s)) h))
  get_pointer_field-write_all (data_field t i v ∷ ws) s j inside =
      let r =
        and_right (is_inside l (size s) (data_field t i v)) (are_inside l (size s) ws) inside in
      get_pointer_field-write_all ws (write l s (data_field t i v)) j
        (rw (size-write s (data_field t i v)) r)
      ∙ ap (λ q. pointer_after l j q ws)
          (LayoutLaws.get_pointer_field-set_data_field laws t s i v j)

  -- A data field reads as the last value written to it, when nothing else was written to a part of it.
  pub get_data_field-write_all :
      (ws : List (Write l)) (s : Struct) (u : Primitive) (j : ℕ)
      → are_inside l (size s) ws ≡ true
      → are_clear l u j ws ≡ true
      → All (Fits l) ws
      → get_data_field u (write_all l s ws) j ≡ number_after l u j (get_data_field u s j) ws
  get_data_field-write_all [] s u j inside clear fits = refl
  get_data_field-write_all (pointer i p ∷ ws) s u j inside clear (f, fits) =
      let r = and_right (is_inside l (size s) (pointer i p)) (are_inside l (size s) ws) inside in
      get_data_field-write_all ws (write l s (pointer i p)) u j (rw (size-write s (pointer i p)) r)
        clear fits
      ∙ ap (λ q. number_after l u j q ws)
          (LayoutLaws.get_data_field-set_pointer_field laws u s j i p)
  get_data_field-write_all (data_field t i v ∷ ws) s u j inside clear (f, fits) =
      let h =
        and_left (is_inside l (size s) (data_field t i v)) (are_inside l (size s) ws) inside in
      let r =
        and_right (is_inside l (size s) (data_field t i v)) (are_inside l (size s) ws) inside in
      let c = and_left (is_clear l u j (data_field t i v)) (are_clear l u j ws) clear in
      let k = and_right (is_clear l u j (data_field t i v)) (are_clear l u j ws) clear in
      get_data_field-write_all ws (write l s (data_field t i v)) u j
        (rw (size-write s (data_field t i v)) r) k fits
      ∙ ap (λ q. number_after l u j q ws) (get_data_field-write s t i v u j h f c)

  -- The two for a struct that begins empty.
  pub built-pointer :
      (z : StructSize) (ws : List (Write l)) (j : ℕ)
      → are_inside l z ws ≡ true
      → get_pointer_field (write_all l (init_struct z) ws) j ≡ pointer_after l j null ws
  built-pointer z ws j inside =
      get_pointer_field-write_all ws (init_struct z) j
        (rw (LayoutLaws.size-init_struct laws z) inside)
      ∙ ap (λ q. pointer_after l j q ws) (LayoutLaws.get_pointer_field-init_struct laws z j)

  pub built-number :
      (z : StructSize) (ws : List (Write l)) (u : Primitive) (j : ℕ)
      → are_inside l z ws ≡ true
      → are_clear l u j ws ≡ true
      → All (Fits l) ws
      → get_data_field u (write_all l (init_struct z) ws) j ≡ number_after l u j 0 ws
  built-number z ws u j inside clear fits =
      get_data_field-write_all ws (init_struct z) u j
        (rw (LayoutLaws.size-init_struct laws z) inside) clear fits
      ∙ ap (λ q. number_after l u j q ws) (LayoutLaws.get_data_field-init_struct laws u z j)

  pub built-get_struct :
      (z : StructSize) (ws : List (Write l)) (j : ℕ) (c : Struct)
      → are_inside l z ws ≡ true
      → pointer_after l j null ws ≡ to_struct c
      → get_struct (get_pointer_field (write_all l (init_struct z) ws) j) ≡ ok c
  built-get_struct z ws j c inside e =
      ap get_struct (built-pointer z ws j inside ∙ e) ∙ LayoutLaws.get_struct-to_struct laws c

  pub built-get_text :
      (z : StructSize) (ws : List (Write l)) (j : ℕ) (b : Bytes)
      → are_inside l z ws ≡ true
      → pointer_after l j null ws ≡ to_text b
      → get_text (get_pointer_field (write_all l (init_struct z) ws) j) ≡ ok b
  built-get_text z ws j b inside e =
      ap get_text (built-pointer z ws j inside ∙ e) ∙ LayoutLaws.get_text-to_text laws b

  pub built-get_data :
      (z : StructSize) (ws : List (Write l)) (j : ℕ) (b : Bytes)
      → are_inside l z ws ≡ true
      → pointer_after l j null ws ≡ to_data b
      → get_data (get_pointer_field (write_all l (init_struct z) ws) j) ≡ ok b
  built-get_data z ws j b inside e =
      ap get_data (built-pointer z ws j inside ∙ e) ∙ LayoutLaws.get_data-to_data laws b

  pub built-get_list :
      (z : StructSize) (ws : List (Write l)) (j : ℕ) (ps : List Pointer)
      → are_inside l z ws ≡ true
      → pointer_after l j null ws ≡ to_list ps
      → get_list (get_pointer_field (write_all l (init_struct z) ws) j) ≡ ok ps
  built-get_list z ws j ps inside e =
      ap get_list (built-pointer z ws j inside ∙ e) ∙ LayoutLaws.get_list-to_list laws ps

  -- The two for a struct of a size.
  pub after_pointer :
      (z : StructSize) (s : Struct)
      → size s ≡ z
      → (ws : List (Write l)) → are_inside l z ws ≡ true
      → (j : ℕ)
      → get_pointer_field (write_all l s ws) j ≡ pointer_after l j (get_pointer_field s j) ws
  after_pointer z s sized ws inside j = get_pointer_field-write_all ws s j (rw sized inside)

  pub after_number :
      (z : StructSize) (s : Struct)
      → size s ≡ z
      → (ws : List (Write l)) → are_inside l z ws ≡ true
      → (u : Primitive) (j : ℕ) → are_clear l u j ws ≡ true
      → All (Fits l) ws
      → get_data_field u (write_all l s ws) j ≡ number_after l u j (get_data_field u s j) ws
  after_number z s sized ws inside u j clear fits =
      get_data_field-write_all ws s u j (rw sized inside) clear fits

-- A flag is written as a bit and read back.
pub bit_fits : (b : Bool) → (if b then 1 else 0) < 2 ^ width boolean
bit_fits true = omega arith
bit_fits false = omega arith

pub bit_test : (b : Bool) → ((if b then 1 else 0) == 1) ≡ b
bit_test true = refl
bit_test false = refl
