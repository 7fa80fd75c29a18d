-- ===== src/CapnpRpc/SegBuilder/Steps.antt =====
-- One step of the builder at a time: what each method does to the words.
use argo_rust.Base.{
  ℕ, ◌+◌, ◌*◌, ◌/◌, ◌%◌, ◌^◌, ◌<◌, ◌≤◌, ◌≡◌, refl, ap, ◌∙◌, List, [], ◌∷◌, ◌++◌, some, length,
  replicate, All, arith,
}
use argo_rust.CapnpRpc.Bytes.{Bytes, IsWord, to_le, from_le, copy_from_slice}
use argo_rust.CapnpRpc.Bytes.Laws.{padded, write_at_end, write_at_word, store-append}
use argo_rust.CapnpRpc.SegBuilder.{
  SegBuilder, put_words, alloc, write_bytes, alloc_text, alloc_data, set_u8, set_u16, set_u32,
  set_word,
}
use argo_rust.CapnpRpc.Wire.Holds.{data_words, text_words}

abbrev pub on : List ℕ → SegBuilder
on ws = record { words = ws }

write_bytes_end :
    (ws : List ℕ) (n : ℕ) (src : Bytes)
    → All IsWord ws
    → length src ≤ n * 8
    → write_bytes (length ws) src (on (ws ++ replicate n 0)) ≡ some (tt, on (ws ++ padded n src))
unfolding write_bytes
write_bytes_end ws n src h fits = ap put_words (write_at_end ws n src h fits)

pub alloc_text_lem :
    (ws : List ℕ) (b : Bytes)
    → All IsWord ws
    → alloc_text b (on ws) ≡ some (length ws, on (ws ++ text_words b))
unfolding alloc_text alloc
alloc_text_lem ws b h = rw (write_bytes_end ws ((length b + 1 + 7) / 8) b h (omega arith))

pub alloc_data_lem :
    (ws : List ℕ) (d : Bytes)
    → All IsWord ws
    → alloc_data d (on ws) ≡ some (length ws, on (ws ++ data_words d))
unfolding alloc_data alloc
alloc_data_lem ws d h = rw (write_bytes_end ws ((length d + 7) / 8) d h (omega arith))

-- A word is replaced at its position.
pub set_word_lem :
    (pre : List ℕ) (w : ℕ) (post : List ℕ) (v : ℕ)
    → set_word (length pre) v (on (pre ++ w ∷ post)) ≡ some (tt, on (pre ++ v ∷ post))
set_word_lem pre w post v = ap put_words (store-append pre w post v)

-- The bytes of one word are replaced, and the rest of the segment is as before.
module _ (pre : List ℕ) (w : ℕ) (post : List ℕ) (hpre : All IsWord pre)
    (hpost : All IsWord post) where
  pub set_u8_lem :
      (v : ℕ)
      → IsWord w
      → set_u8 (length pre) 0 v (on (pre ++ w ∷ post))
        ≡ some (tt, on (pre ++ (w / 256 * 256 + v) ∷ post))
  unfolding set_u8 to_le from_le copy_from_slice
  set_u8_lem v hw = ap put_words (
      write_at_word pre w post 0 (v ∷ []) hpre hpost refl
      ∙ ap (λ (x : ℕ). some (pre ++ x ∷ post)) (omega arith))

  pub set_u16_lem :
      (v : ℕ)
      → IsWord w
      → v < 2 ^ 16
      → set_u16 (length pre) 0 v (on (pre ++ w ∷ post))
        ≡ some (tt, on (pre ++ (w / 2 ^ 16 * 2 ^ 16 + v) ∷ post))
  unfolding set_u16 to_le from_le copy_from_slice
  set_u16_lem v hw hv = ap put_words (
      write_at_word pre w post 0 (to_le 2 v) hpre hpost refl
      ∙ ap (λ (x : ℕ). some (pre ++ x ∷ post)) (omega arith))

  pub set_u16_high :
      (v : ℕ)
      → IsWord w
      → v < 2 ^ 16
      → set_u16 (length pre) 4 v (on (pre ++ w ∷ post))
        ≡ some (tt, on (pre ++ (w % 2 ^ 32 + v * 2 ^ 32 + w / 2 ^ 48 * 2 ^ 48) ∷ post))
  unfolding set_u16 to_le from_le copy_from_slice
  set_u16_high v hw hv = ap put_words (
      write_at_word pre w post 4 (to_le 2 v) hpre hpost refl
      ∙ ap (λ (x : ℕ). some (pre ++ x ∷ post)) (omega arith))

  pub set_u32_lem :
      (v : ℕ)
      → IsWord w
      → v < 2 ^ 32
      → set_u32 (length pre) 0 v (on (pre ++ w ∷ post))
        ≡ some (tt, on (pre ++ (w / 2 ^ 32 * 2 ^ 32 + v) ∷ post))
  unfolding set_u32 to_le from_le copy_from_slice
  set_u32_lem v hw hv = ap put_words (
      write_at_word pre w post 0 (to_le 4 v) hpre hpost refl
      ∙ ap (λ (x : ℕ). some (pre ++ x ∷ post)) (omega arith))

  pub set_u32_high :
      (v : ℕ)
      → IsWord w
      → v < 2 ^ 32
      → set_u32 (length pre) 4 v (on (pre ++ w ∷ post))
        ≡ some (tt, on (pre ++ (w % 2 ^ 32 + v * 2 ^ 32) ∷ post))
  unfolding set_u32 to_le from_le copy_from_slice
  set_u32_high v hw hv = ap put_words (
      write_at_word pre w post 4 (to_le 4 v) hpre hpost refl
      ∙ ap (λ (x : ℕ). some (pre ++ x ∷ post)) (omega arith))

-- The same where the word is still zero.
pub set_u8_zero :
    (post : List ℕ) (v : ℕ)
    → All IsWord post
    → set_u8 0 0 v (on (0 ∷ post)) ≡ some (tt, on (v ∷ post))
set_u8_zero post v h =
    set_u8_lem [] 0 post tt h v (omega arith)
    ∙ ap (λ (x : ℕ). some (tt, on (x ∷ post))) (omega arith)
