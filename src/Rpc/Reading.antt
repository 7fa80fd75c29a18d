-- ===== src/Rpc/Reading.antt =====
-- The generated readers read back what the builders of src/tunnel.rs and src/capnp_params.rs wrote.
use argo_rust.Base.{
  ℕ, true, false, ◌%◌, ◌^◌, ◌<◌, List, [], ◌∷◌, map, ok, ◌≡◌, refl, All, length, Bool,
  if◌then◌else◌, ◌≤◌, ◌>>=◌, replicate, ap, arith, ◌∙◌,
}
use argo_rust.CapnpRpc.Encode.{RegisterArgs}
use argo_rust.Schema.{Layout, Primitive, boolean, u8}
use argo_rust.Schema.Writes.{
  LayoutLaws, Write, pointer, data_field, write_all, are_inside, are_clear, pointer_after,
  number_after, Fits, same_field,
}
use argo_rust.Schema.Writes.ReadBack.{
  built-get_struct, built-get_text, built-get_data, built-get_list, built-number,
}
use argo_rust.Rpc.{Received, receive, set_texts, texts_of}
use argo_rust.Rpc.Texts.{set_texts_lem, texts_of-to_text}
use argo_rust.Rpc.Params.{
  auth_size, options_size, client_size, params_size, fill_register_connection,
}
use argo_rust.Rpc.Request.{RegisterInputs, arguments_of, fill_request}
use argo_rust.Schema.RegisterConnectionParams

-- A registration as a server receives it: first attempt, no compression, nothing replaced.
abbrev pub first_attempt : (l : Layout) → RegisterArgs → Received l
first_attempt l a = record {
  arguments = a;
  num_previous_attempts = 0;
  compression_quality = 0;
  replaces_existing = false;
}

module _ (l : Layout) where
  open l use {Struct, Pointer, init_struct, null, to_struct, to_text, to_data, to_list, get_struct}

  auth_writes : RegisterArgs → List (Write l)
  auth_writes a = pointer 0 (to_text a.account_tag) ∷ pointer 1 (to_data a.tunnel_secret) ∷ []

  client_writes : RegisterArgs → List (Write l)
  client_writes a =
      pointer 0 (to_data a.client_id)
      ∷ pointer 1 (to_list (set_texts l a.features 0 (replicate (length a.features % 2 ^ 32) null)))
      ∷ pointer 2 (to_text a.version)
      ∷ pointer 3 (to_text a.arch)
      ∷ []

  client_of : RegisterArgs → Struct
  client_of a = write_all l (init_struct client_size) (client_writes a)

  -- The attempts are written at byte `i`.
  options_writes : ℕ → RegisterArgs → List (Write l)
  options_writes i a = data_field u8 i 0 ∷ pointer 0 (to_struct (client_of a)) ∷ []

  options_of : ℕ → RegisterArgs → Struct
  options_of i a = write_all l (init_struct options_size) (options_writes i a)

  auth_of : RegisterArgs → Struct
  auth_of a = write_all l (init_struct auth_size) (auth_writes a)

  texts_sent :
      (a : RegisterArgs)
      → length a.features < 2 ^ 32
      → set_texts l a.features 0 (replicate (length a.features % 2 ^ 32) null)
        ≡ map to_text a.features
  texts_sent a short =
      let same : length a.features % 2 ^ 32 ≡ length a.features = omega arith in
      rw same (set_texts_lem l a.features)

  if_same : (b : Bool) → ◌≡◌ {A = ℕ} (if b then 0 else 0) 0
  if_same true = refl
  if_same false = refl

  -- The options read as zero wherever the attempts were written.
  option_number :
      (laws : LayoutLaws l) (a : RegisterArgs) (i : ℕ) (u : Primitive) (j : ℕ)
      → are_inside l options_size (options_writes i a) ≡ true
      → are_clear l u j (options_writes i a) ≡ true
      → Layout.get_data_field l u (options_of i a) j ≡ 0
  unfolding options_of options_writes
  option_number laws a i u j inside clear =
      let fits : 0 < 2 ^ 8 = omega arith in
      let fits_0 : 0 ≤ 0 = omega arith in
      built-number l laws options_size (options_writes i a) u j inside clear (fits, (fits_0, tt))
      ∙ if_same (same_field u8 i u j)

  receive-write_all :
      (laws : LayoutLaws l) (a : RegisterArgs) (i : ℕ) (ws : List (Write l))
      → length a.features < 2 ^ 32
      → are_inside l options_size (options_writes i a) ≡ true
      → are_clear l u8 2 (options_writes i a) ≡ true
      → are_clear l u8 1 (options_writes i a) ≡ true
      → are_clear l boolean 0 (options_writes i a) ≡ true
      → are_inside l params_size ws ≡ true
      → are_clear l u8 0 ws ≡ true
      → All (Fits l) ws
      → pointer_after l 0 null ws ≡ to_struct (auth_of a)
      → pointer_after l 1 null ws ≡ to_data a.tunnel_id
      → pointer_after l 2 null ws ≡ to_struct (options_of i a)
      → number_after l u8 0 0 ws ≡ a.conn_index
      → receive l (write_all l (init_struct params_size) ws) ≡ ok (first_attempt l a)
  unfolding auth_of auth_writes options_of options_writes client_of client_writes
  receive-write_all laws a i ws short inside c2 c1 c0 inside_p clear_p fits p0 p1 p2 n =
      let list =
        built-get_list l laws client_size (client_writes a) 1
          (set_texts l a.features 0 (replicate (length a.features % 2 ^ 32) null)) refl refl in
      rw
        (
          built-get_struct l laws params_size ws 0 (auth_of a) inside_p p0,
          built-get_text l laws auth_size (auth_writes a) 0 a.account_tag refl refl,
          built-get_data l laws auth_size (auth_writes a) 1 a.tunnel_secret refl refl,
          built-get_data l laws params_size ws 1 a.tunnel_id inside_p p1,
          built-get_struct l laws params_size ws 2 (options_of i a) inside_p p2,
          built-get_struct l laws options_size (options_writes i a) 0 (client_of a) inside refl,
          built-get_data l laws client_size (client_writes a) 0 a.client_id refl refl,
          list,
          ap (texts_of l) (texts_sent a short) ∙ texts_of-to_text l laws a.features,
          built-get_text l laws client_size (client_writes a) 2 a.version refl refl,
          built-get_text l laws client_size (client_writes a) 3 a.arch refl refl,
          built-number l laws params_size ws u8 0 inside_p clear_p fits,
          n,
          option_number laws a i u8 2 inside c2,
          option_number laws a i u8 1 inside c1,
          option_number laws a i boolean 0 inside c0,
        )
        refl

  -- `fill_register_connection` leaves a struct from which a server reads exactly the arguments, on a
  -- first attempt, when the connection index fits a byte and there are fewer than 2^32 features.
  pub fill_register_connection-receive :
      (laws : LayoutLaws l) (a : RegisterArgs)
      → a.conn_index < 2 ^ 8
      → length a.features < 2 ^ 32
      → (get_struct (fill_register_connection l a) >>= receive l) ≡ ok (first_attempt l a)
  unfolding fill_register_connection auth_of auth_writes options_of options_writes client_of
      client_writes
  fill_register_connection-receive laws a byte short =
      let ws : List (Write l) =
        data_field u8 0 a.conn_index
        ∷ pointer 0 (to_struct (auth_of a))
        ∷ pointer 1 (to_data a.tunnel_id)
        ∷ pointer 2 (to_struct (options_of 4 a))
        ∷ [] in
      let zero_le : 0 ≤ 0 = omega arith in
      rw (LayoutLaws.get_struct-to_struct laws (write_all l (init_struct params_size) ws)) (
        receive-write_all laws a 4 ws short refl refl refl refl refl refl
          (byte, (zero_le, (zero_le, (zero_le, tt)))) refl refl refl refl)

  -- The request that `rpc_register` sends reads as its inputs with the connection index 0, the
  -- version, the platform and the two features of the program, on a first attempt.
  pub fill_request-receive :
      (laws : LayoutLaws l) (r : RegisterInputs)
      → receive l (fill_request l r (init_struct RegisterConnectionParams.struct_size))
        ≡ ok (first_attempt l (arguments_of r))
  unfolding fill_request auth_of auth_writes options_of options_writes client_of client_writes
  fill_request-receive laws r =
      let a = arguments_of r in
      let ws : List (Write l) =
        pointer 0 (to_struct (auth_of a))
        ∷ pointer 1 (to_data a.tunnel_id)
        ∷ data_field u8 0 0
        ∷ pointer 2 (to_struct (options_of 2 a))
        ∷ [] in
      let zero_le : 0 ≤ 0 = omega arith in
      let byte : 0 < 2 ^ 8 = omega arith in
      let short : 2 < 2 ^ 32 = omega arith in
      receive-write_all laws a 2 ws short refl refl refl refl refl refl
        (zero_le, (zero_le, (byte, (zero_le, tt)))) refl refl refl refl
