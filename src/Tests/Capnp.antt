-- ===== src/Tests/Capnp.antt =====
-- The messages at concrete inputs.
use mathlib.Core.Option
use argo_rust.Base.{
  ℕ, ◌+◌, ◌*◌, ◌^◌, ◌<◌, ◌≡◌, refl, true, false, List, [], ◌∷◌, ◌++◌, some, and_then, arith, length,
  replicate, All,
}
use argo_rust.CapnpRpc.Bytes.{Bytes, IsByte, as_bytes, words_of}
use argo_rust.CapnpRpc.SegBuilder.{finish}
use argo_rust.CapnpRpc.SegBuilder.Steps.{on}
use argo_rust.CapnpRpc.Encode.{
  RegisterArgs, encode_register_connection, strip_framing, build_bootstrap_msg, build_call_msg,
  registration_server_id,
}
use argo_rust.CapnpRpc.Encode.Bootstrap.{read_bootstrap, build_bootstrap_msg-read_bootstrap}
use argo_rust.CapnpRpc.Encode.CallRead.{read_call, build_call_msg-read_call}
use argo_rust.CapnpRpc.Encode.Allocated.{IsValid}
use argo_rust.CapnpRpc.Encode.Wired.{header, blobs, list_words, filled}
use argo_rust.CapnpRpc.Encode.Framing.{
  root_of, finish-target, encode_register_connection-strip_framing,
}
use argo_rust.CapnpRpc.Encode.Registration.{read_registration}
use argo_rust.CapnpRpc.Wire.{target, struct_at}
use argo_rust.CapnpRpc.Decode.{
  returns, fails, rejected, unknown, unknown_error, read_text_ptr, decode_connection_response,
}
use argo_rust.CapnpRpc.Decode.Text.{text_after, read_text_ptr_lem}
use argo_rust.Schema.{StructSize}
use argo_rust.Schema.ConnectionResponse
use argo_rust.Schema.ConnectionError
use argo_rust.Schema.ConnectionDetails
use argo_rust.CapnpRpc.Decode.Answer.{
  IsAnswer, decode_connection_response-details, decode_connection_response-error,
}

abbrev args : RegisterArgs
args = record {
  account_tag = 97 ∷ 99 ∷ [];
  tunnel_secret = 1 ∷ 2 ∷ 3 ∷ [];
  tunnel_id = replicate 16 5;
  conn_index = 2;
  client_id = replicate 16 6;
  version = 118 ∷ [];
  arch = [];
  features = (102 ∷ []) ∷ [] ∷ [];
}

sixteen : (b : ℕ) → b < 256 → All IsByte (replicate 16 b)
sixteen b h = (h, (h, (h, (h, (h, (h, (h, (h, (h, (h, (h, (h, (h, (h, (h, (h, tt))))))))))))))))

args-IsValid : IsValid args
args-IsValid = record {
  account_tag = (omega arith, (omega arith, tt));
  tunnel_secret = (omega arith, (omega arith, (omega arith, tt)));
  tunnel_id = sixteen 5 (omega arith);
  tunnel_id_size = refl;
  conn_index = omega arith;
  client_id = sixteen 6 (omega arith);
  client_id_size = refl;
  version = (omega arith, tt);
  arch = tt;
  features = ((omega arith, tt), (tt, tt));
}

encode_register_connection-strip_framing_example :
    Option.map
      (λ framed. read_registration (strip_framing framed) 0)
      (encode_register_connection args)
    ≡ some (some args)
encode_register_connection-strip_framing_example =
    encode_register_connection-strip_framing args args-IsValid (omega arith)

in_message : length ((9 ∷ 9 ∷ []) ++ (filled args ++ 0 ∷ [])) < 2 ^ 26
unfolding filled header blobs words_of list_words
in_message = omega arith

-- The root pointer of a message whose root is word 0 points to itself.
finish-target_example : target 0 (root_of (finish (on (7 ∷ 8 ∷ [])) 0 1 1)) ≡ some 0
finish-target_example = finish-target (7 ∷ 8 ∷ []) 0 1 1 (omega arith) (omega arith) (omega arith)

build_bootstrap_msg-read_bootstrap_example :
    Option.map (λ framed. read_bootstrap (strip_framing framed)) (build_bootstrap_msg 7)
    ≡ some (some 7)
build_bootstrap_msg-read_bootstrap_example = build_bootstrap_msg-read_bootstrap 7 (omega arith)

build_call_msg-read_call_example :
    Option.map
      (λ framed. read_call (strip_framing framed))
      (and_then (encode_register_connection args) (λ params. build_call_msg 1 params))
    ≡ some (
        some (record {
          question_id = 1;
          imported_cap = 0;
          interface_id = registration_server_id;
          method_id = 0;
          params = args;
        }))
build_call_msg-read_call_example =
    build_call_msg-read_call 1 args args-IsValid (omega arith) (omega arith)

-- The texts are taken as they are.
abbrev kept : Bytes → Bytes
kept bytes = bytes

abbrev frame : Bytes
frame = replicate 8 0

-- A pointer to the next word, where a struct of the size is.
abbrev next_struct : StructSize → ℕ
next_struct z = 2 ^ 32 * StructSize.data_words z + 2 ^ 48 * StructSize.pointers z

-- The answer is right behind the root.
abbrev root : ℕ
root = next_struct ConnectionResponse.struct_size

-- A pointer to `count` bytes, `skip` words behind the next word.
abbrev text_ptr : ℕ → ℕ → ℕ
text_ptr skip count = 4 * skip + 1 + 2 ^ 32 * (2 + 8 * count)

-- A first word of text, and a second.
abbrev texts : List ℕ
texts = 0x6968 ∷ 0x6f6e ∷ []

-- Connection details with a location, whose tunnel is managed remotely.
abbrev details_words : List ℕ
details_words = 0 ∷ text_ptr 0 3 ∷ texts

details-IsAnswer :
    IsAnswer frame root [] 1 (next_struct ConnectionDetails.struct_size) (1 ∷ details_words)
unfolding target
details-IsAnswer = record {
  frame_size = refl;
  root_word = omega arith;
  root_kind = refl;
  root_target = refl;
  data_words = refl;
  pointers = refl;
  pointer_word = omega arith;
  short = omega arith;
}

decode_connection_response-details_example :
    decode_connection_response false kept
      (frame ++ as_bytes (root ∷ 1 ∷ next_struct ConnectionDetails.struct_size ∷ 1 ∷ details_words))
    ≡ returns unknown
unfolding target struct_at
decode_connection_response-details_example =
    decode_connection_response-details false kept frame root [] 1
      (next_struct ConnectionDetails.struct_size) 1 details_words details-IsAnswer refl refl
      (omega arith)

-- An error with a cause.
abbrev error_words : List ℕ
error_words = 0 ∷ 0 ∷ text_ptr 0 3 ∷ texts

error-IsAnswer : IsAnswer frame root [] 0 (next_struct ConnectionError.struct_size) error_words
unfolding target
error-IsAnswer = record {
  frame_size = refl;
  root_word = omega arith;
  root_kind = refl;
  root_target = refl;
  data_words = refl;
  pointers = refl;
  pointer_word = omega arith;
  short = omega arith;
}

decode_connection_response-error_example :
    decode_connection_response true kept
      (frame ++ as_bytes (root ∷ 0 ∷ next_struct ConnectionError.struct_size ∷ error_words))
    ≡ fails (rejected unknown_error)
unfolding target struct_at
decode_connection_response-error_example =
    decode_connection_response-error true kept frame root [] 0
      (next_struct ConnectionError.struct_size) error_words error-IsAnswer 3 refl refl

read_text_ptr_lem_example :
    read_text_ptr true kept 8
      (as_bytes (1 ∷ text_ptr 0 3 ∷ texts))
      8
      0
      (as_bytes (root ∷ 1 ∷ text_ptr 0 3 ∷ texts))
    ≡ text_after true kept 3 3 (as_bytes (root ∷ 1 ∷ text_ptr 0 3 ∷ texts))
unfolding target
read_text_ptr_lem_example =
    read_text_ptr_lem true kept (root ∷ []) (1 ∷ []) texts (text_ptr 0 3) 8 0 (omega arith)
      (omega arith) (omega arith) refl refl refl
