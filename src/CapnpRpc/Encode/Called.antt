-- ===== src/CapnpRpc/Encode/Called.antt =====
-- The words of `build_call_msg`.
use mathlib.Core.Option
use argo_rust.Base.{
  ℕ, zero, suc, ◌+◌, ◌-◌, ◌^◌, ◌<◌, ◌≡◌, refl, sym, ap, ap₂, subst, ◌∙◌, List, [], ◌∷◌, ◌++◌, some,
  length, length-append, replicate, All, All-append, append_assoc, append-nil, arith,
}
use argo_rust.CapnpRpc.Bytes.{IsWord, store, copy_from_slice, to_le, from_le}
use argo_rust.CapnpRpc.Bytes.Laws.{copy_from_slice-append, copy_from_slice_zeros}
use argo_rust.CapnpRpc.SegBuilder.{
  new, word_offset, struct_ptr, alloc, alloc_struct, alloc_raw, set_struct_ptr, set_u16, set_u32,
  set_u64, set_word,
}
use argo_rust.CapnpRpc.SegBuilder.Steps.{
  on, set_u16_lem, set_u16_high, set_u32_lem, set_u32_high, set_word_lem,
}
use argo_rust.CapnpRpc.Encode.{fill_call, registration_server_id}
use argo_rust.CapnpRpc.Encode.Bounds.{struct_ptr-IsWord}

alloc_raw_lem : (ws words : List ℕ) → alloc_raw words (on ws) ≡ some (length ws, on (ws ++ words))
unfolding alloc_raw alloc
alloc_raw_lem ws words =
    let n : ℕ = length words in
    let here : length ws + 0 ≡ length ws = omega arith in
    let none_left : n - n ≡ 0 = omega arith in
    let shift = copy_from_slice-append ws (replicate n 0) words 0 in
    let at =
      subst
        (λ i.
          copy_from_slice (ws ++ replicate n 0) i words
          ≡ Option.map (λ r. ws ++ r) (copy_from_slice (replicate n 0) 0 words))
        here shift in
    rw (at, copy_from_slice_zeros n words (omega arith), none_left, append-nil) refl

alloc_struct_lem :
    (ws : List ℕ) (d p : ℕ)
    → alloc_struct d p (on ws)
      ≡ some (record { data_w = length ws; ptr_w = length ws + d }, on (ws ++ replicate (d + p) 0))
unfolding alloc_struct alloc
alloc_struct_lem ws d p = refl

-- The ten words in front of the parameters, with the pointer to the target.
abbrev pub ten : ℕ → ℕ → List ℕ
ten question_id t =
    2
    ∷ struct_ptr (word_offset 2 1) 3 3
    ∷ question_id
    ∷ registration_server_id
    ∷ 0
    ∷ t
    ∷ struct_ptr (word_offset 8 6) 0 2
    ∷ 0
    ∷ struct_ptr (word_offset 10 8) 1 3
    ∷ 0
    ∷ []

-- The word behind the parameters.
abbrev pub call_end : List ℕ → ℕ
call_end words = length (replicate 10 0 ++ words)

-- The target, an imported capability of the number 0, and the promised answer that it was before.
abbrev pub target_words : ℕ → List ℕ
target_words t = 0 ∷ struct_ptr (word_offset (t + 2) (t + 1)) 1 1 ∷ 0 ∷ 0 ∷ []

-- The same before the last three pointers are set.
abbrev early : ℕ → List ℕ
early question_id =
    2
    ∷ struct_ptr (word_offset 2 1) 3 3
    ∷ question_id
    ∷ registration_server_id
    ∷ 0
    ∷ 0
    ∷ 0
    ∷ 0
    ∷ 0
    ∷ 0
    ∷ []

module _ (q : ℕ) (words : List ℕ) (h : q < 2 ^ 32) (hw : All IsWord words) where
  zeros-IsWord : (n : ℕ) → All IsWord (replicate n 0 ++ words)
  zeros-IsWord zero = hw
  zeros-IsWord (suc n) = (omega arith, zeros-IsWord n)

  first_ptr : IsWord (struct_ptr (word_offset 2 1) 3 3)
  first_ptr = struct_ptr-IsWord (word_offset 2 1) 3 3 (omega arith) (omega arith)

  set_message :
      set_u16 0 0 2 (on (replicate 10 0 ++ words)) ≡ some (tt, on (2 ∷ replicate 9 0 ++ words))
  set_message =
      set_u16_lem [] 0 (replicate 9 0 ++ words) tt (zeros-IsWord 9) 2 (omega arith) (omega arith)

  set_question :
      set_u32 2 0 q (on (2 ∷ struct_ptr (word_offset 2 1) 3 3 ∷ 0 ∷ replicate 7 0 ++ words))
      ≡ some (tt, on (2 ∷ struct_ptr (word_offset 2 1) 3 3 ∷ q ∷ replicate 7 0 ++ words))
  set_question =
      set_u32_lem (2 ∷ struct_ptr (word_offset 2 1) 3 3 ∷ []) 0 (replicate 7 0 ++ words)
        (omega arith, (first_ptr, tt)) (zeros-IsWord 7) q (omega arith) h
      ∙ ap (λ x. some (tt, on (2 ∷ struct_ptr (word_offset 2 1) 3 3 ∷ x ∷ replicate 7 0 ++ words)))
          (omega arith)

  set_method :
      set_u16 2 4 0 (on (2 ∷ struct_ptr (word_offset 2 1) 3 3 ∷ q ∷ replicate 7 0 ++ words))
      ≡ some (tt, on (2 ∷ struct_ptr (word_offset 2 1) 3 3 ∷ q ∷ replicate 7 0 ++ words))
  set_method =
      set_u16_high (2 ∷ struct_ptr (word_offset 2 1) 3 3 ∷ []) q (replicate 7 0 ++ words)
        (omega arith, (first_ptr, tt)) (zeros-IsWord 7) 0 (omega arith) (omega arith)
      ∙ ap (λ x. some (tt, on (2 ∷ struct_ptr (word_offset 2 1) 3 3 ∷ x ∷ replicate 7 0 ++ words)))
          (omega arith)

  early-IsWord : All IsWord (early q ++ words)
  early-IsWord = (omega arith, (first_ptr, (omega arith, (omega arith, zeros-IsWord 6))))

  set_promised :
      set_u16 (call_end words) 0 1 (on ((early q ++ words) ++ 0 ∷ 0 ∷ []))
      ≡ some (tt, on ((early q ++ words) ++ 1 ∷ 0 ∷ []))
  set_promised =
      set_u16_lem (early q ++ words) 0 (0 ∷ []) early-IsWord (omega arith, tt) 1 (omega arith)
        (omega arith)

  -- The word of the promised answer.
  abbrev answer_at : ℕ
  answer_at = length (early q ++ (words ++ 1 ∷ 0 ∷ []))

  answer_at_lem : answer_at ≡ call_end words + 2
  answer_at_lem = omega (arith, length-append {0} words (1 ∷ 0 ∷ []))

  set_answer :
      set_u32 answer_at 0 0 (on ((early q ++ (words ++ 1 ∷ 0 ∷ [])) ++ 0 ∷ 0 ∷ []))
      ≡ some (tt, on ((early q ++ (words ++ 1 ∷ 0 ∷ [])) ++ 0 ∷ 0 ∷ []))
  set_answer =
      set_u32_lem (early q ++ (words ++ 1 ∷ 0 ∷ [])) 0 (0 ∷ [])
        (subst (λ (r : List ℕ). All IsWord r) (append_assoc (early q) words (1 ∷ 0 ∷ []))
          (All-append IsWord (early q ++ words) (1 ∷ 0 ∷ []) early-IsWord
            (omega arith, (omega arith, tt))))
        (omega arith, tt) 0 (omega arith) (omega arith)

  abbrev to_answer : ℕ
  to_answer = struct_ptr (word_offset (call_end words + 2) (call_end words + 1)) 1 1

  set_to_answer :
      set_struct_ptr
        (call_end words + 1)
        0
        answer_at
        1
        1
        (on ((early q ++ (words ++ 1 ∷ 0 ∷ [])) ++ 0 ∷ 0 ∷ []))
      ≡ some (tt, on ((early q ++ words) ++ 1 ∷ to_answer ∷ 0 ∷ 0 ∷ []))
  unfolding set_struct_ptr
  set_to_answer =
      let pre : List ℕ = (early q ++ words) ++ 1 ∷ [] in
      let at : call_end words + 1 + 0 ≡ length pre =
        omega (arith, length-append {0} words (1 ∷ [])) in
      let one : call_end words + 1 + 0 ≡ call_end words + 1 = omega arith in
      let X : List ℕ = (early q ++ (words ++ 1 ∷ 0 ∷ [])) ++ 0 ∷ 0 ∷ [] in
      let tail : (words ++ 1 ∷ 0 ∷ []) ++ 0 ∷ 0 ∷ [] ≡ (words ++ 1 ∷ []) ++ 0 ∷ 0 ∷ 0 ∷ [] =
        append_assoc words (1 ∷ 0 ∷ []) (0 ∷ 0 ∷ [])
        ∙ sym (append_assoc words (1 ∷ []) (0 ∷ 0 ∷ 0 ∷ [])) in
      let shape : X ≡ pre ++ 0 ∷ 0 ∷ 0 ∷ [] = ap (λ (r : List ℕ). early q ++ r) tail in
      let result : pre ++ to_answer ∷ 0 ∷ 0 ∷ []
          ≡ (early q ++ words) ++ 1 ∷ to_answer ∷ 0 ∷ 0 ∷ [] =
        append_assoc (early q ++ words) (1 ∷ []) (to_answer ∷ 0 ∷ 0 ∷ []) in
      ap₂ (λ (a k : ℕ). set_word (call_end words + 1 + 0) (struct_ptr (word_offset a k) 1 1) (on X))
        answer_at_lem one
      ∙ ap₂ (λ (k : ℕ) (r : List ℕ). set_word k to_answer (on r)) at shape
      ∙ set_word_lem pre 0 (0 ∷ 0 ∷ []) to_answer
      ∙ ap (λ (r : List ℕ). some (tt, on r)) result

  set_imported :
      set_u16 (call_end words) 0 0 (on ((early q ++ words) ++ 1 ∷ to_answer ∷ 0 ∷ 0 ∷ []))
      ≡ some (tt, on ((early q ++ words) ++ target_words (call_end words)))
  set_imported =
      set_u16_lem (early q ++ words) 1 (to_answer ∷ 0 ∷ 0 ∷ []) early-IsWord
        (struct_ptr-IsWord _ 1 1 (omega arith) (omega arith), (omega arith, (omega arith, tt))) 0
        (omega arith) (omega arith)

  set_cap :
      set_u32 (call_end words) 4 0 (on ((early q ++ words) ++ target_words (call_end words)))
      ≡ some (tt, on ((early q ++ words) ++ target_words (call_end words)))
  set_cap =
      set_u32_high (early q ++ words) 0 (to_answer ∷ 0 ∷ 0 ∷ []) early-IsWord
        (struct_ptr-IsWord _ 1 1 (omega arith) (omega arith), (omega arith, (omega arith, tt))) 0
        (omega arith) (omega arith)

  pub fill_call_lem :
      fill_call q words new
      ≡ some (
        0,
        on (
            ten q (struct_ptr (word_offset (call_end words) 5) 1 1)
            ++ (words ++ target_words (call_end words))),
      )
  unfolding fill_call alloc alloc_struct set_struct_ptr set_u64 store from_le to_le
  fill_call_lem =
      rw
        (
          alloc_raw_lem (replicate 10 0) words,
          set_message,
          set_question,
          set_method,
          set_promised,
          set_answer,
          set_to_answer,
          set_imported,
          set_cap,
        )
        refl
