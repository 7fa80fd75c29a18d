-- ===== src/CapnpRpc/Encode/CallRead.antt =====
-- `build_call_msg`, read back.
use mathlib.Core.Option
use argo_rust.Base.{
  ℕ, ◌+◌, ◌/◌, ◌%◌, ◌^◌, ◌<◌, ◌≡◌, ◌==◌, ◌&&◌, refl, ap, subst, ◌∙◌, List, ◌++◌, Option, some,
  and_then, get_elem?, length, length-append, All, All-append, arith,
}
use argo_rust.CapnpRpc.Bytes.{IsWord}
use argo_rust.CapnpRpc.SegBuilder.{word_offset, struct_ptr}
use argo_rust.CapnpRpc.Wire.{struct_at, when, ◌>>=◌}
use argo_rust.CapnpRpc.Wire.Holds.{struct_at_lem, get_elem?-append_right}
use argo_rust.CapnpRpc.Encode.{
  RegisterArgs, registration_server_id, encode_register_connection, build_call_msg, strip_framing,
}
use argo_rust.CapnpRpc.Encode.Allocated.{IsValid, slots}
use argo_rust.CapnpRpc.Encode.Bounds.{size, length-filled_le, filled-IsWord, struct_ptr-IsWord}
use argo_rust.CapnpRpc.Encode.Called.{ten, call_end, target_words, fill_call_lem}
use argo_rust.CapnpRpc.Encode.Framing.{strip_framing-finish}
use argo_rust.CapnpRpc.Encode.Registration.{read_registration}
use argo_rust.CapnpRpc.Encode.Registration.RoundTrip.{read_registration_lem}
use argo_rust.CapnpRpc.Encode.Wired.{filled, fill_lem}

-- A call on an imported capability.
pub record Call : Type 0 where
  pub question_id : ℕ
  pub imported_cap : ℕ
  pub interface_id : ℕ
  pub method_id : ℕ
  pub params : RegisterArgs

-- The Message at word 0, if it is a Call whose results go to the caller, by the layout of rpc.capnp:
-- the tag 2 of Message; of Call the question id in bits 0 to 31 of the first word, the method id in
-- bits 32 to 47 and the tag of `sendResultsTo` behind them; of MessageTarget the imported capability
-- in bits 0 to 31 and the tag 0 in bits 32 to 47; the Payload's content.
unfoldable pub read_call : List ℕ → Option Call
read_call ws = do
  tag ← get_elem? ws 0
  call ← struct_at ws 1 3 3
  ids ← get_elem? ws call
  interface_id ← get_elem? ws (call + 1)
  target ← struct_at ws (call + 3) 1 1
  cap ← get_elem? ws target
  payload ← struct_at ws (call + 4) 0 2
  content ← struct_at ws payload 1 3
  params ← read_registration ws content
  when (tag % 2 ^ 16 == 2 && ids / 2 ^ 48 == 0 && cap / 2 ^ 32 % 2 ^ 16 == 0) (
      some (record {
        question_id = ids % 2 ^ 32;
        imported_cap = cap % 2 ^ 32;
        interface_id = interface_id;
        method_id = ids / 2 ^ 32 % 2 ^ 16;
        params = params;
      }))

module _ (q : ℕ) (a : RegisterArgs) (v : IsValid a) (small : size a < 2 ^ 25) (h : q < 2 ^ 32) where
  -- The words of the message.
  abbrev whole : List ℕ
  whole =
      ten q (struct_ptr (word_offset (call_end (filled a)) 5) 1 1)
      ++ (filled a ++ target_words (call_end (filled a)))

  length-whole : length whole ≡ length (filled a) + 14
  length-whole = omega (arith, length-append {0} (filled a) (target_words (call_end (filled a))))

  short : length whole < 2 ^ 26
  short = omega (arith, length-whole, length-filled_le a v)

  at_call : struct_at whole 1 3 3 ≡ some 2
  at_call =
      struct_at_lem whole 1 2 3 3 refl (omega (arith, length-whole)) (omega (arith, short))
        (omega arith) (omega arith) (omega arith)

  at_target : struct_at whole 5 1 1 ≡ some (call_end (filled a))
  at_target =
      struct_at_lem whole 5 (call_end (filled a)) 1 1 refl (omega (arith, length-whole))
        (omega (arith, short)) (omega arith) (omega arith) (omega arith)

  at_payload : struct_at whole 6 0 2 ≡ some 8
  at_payload =
      struct_at_lem whole 6 8 0 2 refl (omega (arith, length-whole)) (omega (arith, short))
        (omega arith) (omega arith) (omega arith)

  at_content : struct_at whole 8 1 3 ≡ some 10
  at_content =
      struct_at_lem whole 8 10 1 3 refl (omega (arith, length-whole)) (omega (arith, short))
        (omega arith) (omega arith) (omega arith)

  at_cap : get_elem? whole (call_end (filled a)) ≡ some 0
  at_cap =
      let front : List ℕ =
        ten q (struct_ptr (word_offset (call_end (filled a)) 5) 1 1) ++ filled a in
      let here : call_end (filled a) + 0 ≡ call_end (filled a) = omega arith in
      subst (λ i. get_elem? whole i ≡ some 0) here
        (get_elem?-append_right front (target_words (call_end (filled a))) 0)

  params_read : read_registration whole 10 ≡ some a
  params_read =
      read_registration_lem a (ten q (struct_ptr (word_offset (call_end (filled a)) 5) 1 1))
        (target_words (call_end (filled a))) v short

  read_call_lem :
      read_call whole
      ≡ some (record {
        question_id = q;
        imported_cap = 0;
        interface_id = registration_server_id;
        method_id = 0;
        params = a;
      })
  unfolding read_call
  read_call_lem =
      let id : q % 2 ^ 32 ≡ q = omega arith in
      let method : q / 2 ^ 32 % 2 ^ 16 ≡ 0 = omega arith in
      let to_caller : q / 2 ^ 48 ≡ 0 = omega arith in
      rw (at_call, at_target, at_cap, at_payload, at_content, params_read, id, method, to_caller)
        refl

  whole-IsWord : All IsWord whole
  whole-IsWord =
      let word = λ (o d p : ℕ) (hd : d < 2 ^ 16) (hp : p < 2 ^ 16). struct_ptr-IsWord o d p hd hp in
      (
        omega arith,
        (
          word _ 3 3 (omega arith) (omega arith),
          (
            omega arith,
            (
              omega arith,
              (
                omega arith,
                (
                  word _ 1 1 (omega arith) (omega arith),
                  (
                    word _ 0 2 (omega arith) (omega arith),
                    (
                      omega arith,
                      (
                        word _ 1 3 (omega arith) (omega arith),
                        (
                          omega arith,
                          All-append IsWord (filled a) (target_words (call_end (filled a)))
                              (filled-IsWord a v small)
                              (
                                omega arith,
                                (
                                  word _ 1 1 (omega arith) (omega arith),
                                  (omega arith, (omega arith, tt)),
                                ),
                              ),
                        ),
                      ),
                    ),
                  ),
                ),
              ),
            ),
          ),
        ),
      )

  -- The call of RegisterConnection, built from the framed parameters without a panic: its words are
  -- a Call on the imported capability 0, with the interface, the method 0, results that go to the
  -- caller, and all arguments.
  pub build_call_msg-read_call :
      Option.map
        (λ framed. read_call (strip_framing framed))
        (and_then (encode_register_connection a) (λ params. build_call_msg q params))
      ≡ some (
          some (record {
            question_id = q;
            imported_cap = 0;
            interface_id = registration_server_id;
            method_id = 0;
            params = a;
          }))
  unfolding encode_register_connection build_call_msg slots
  build_call_msg-read_call =
      let words = filled-IsWord a v small in
      rw
        (
          fill_lem a v,
          strip_framing-finish (filled a) 0 1 3 words,
          fill_call_lem q (filled a) h words,
        )
        (ap (λ ws. some (read_call ws)) (strip_framing-finish whole 0 1 1 whole-IsWord)
          ∙ ap some read_call_lem)
