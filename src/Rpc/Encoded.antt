-- ===== src/Rpc/Encoded.antt =====
-- The registration that src/capnp_rpc.rs encodes by hand, read by the generated accessors of
-- src/tunnelrpc_capnp.rs.
use argo_rust.Base.{
  ℕ, ◌+◌, ◌^◌, ◌<◌, List, Option, none, some, Str, Result, ok, ◌>>=◌, ◌≡◌, refl, ap, subst, ◌∙◌,
  arith,
}
use argo_rust.CapnpRpc.Bytes.{Bytes}
use argo_rust.CapnpRpc.Wire.{struct_at, data_at, text_at, texts_at, u8_at}
use mathlib.Core.Option
use argo_rust.CapnpRpc.Encode.{RegisterArgs, encode_register_connection, strip_framing}
use argo_rust.CapnpRpc.Encode.Allocated.{IsValid}
use argo_rust.CapnpRpc.Encode.Bounds.{size}
use argo_rust.CapnpRpc.Encode.Framing.{encode_register_connection-strip_framing}
use argo_rust.CapnpRpc.Encode.Registration.{read_registration}
use argo_rust.Schema.{Layout}
use argo_rust.Rpc.{Received, receive}
use argo_rust.CapnpRpc.Wire.Followed.{and_then-eq-some}
use argo_rust.Rpc.Segment.{SegmentLaws}

at_index {ℓ} :
    {A : Type ℓ} (f : ℕ → Option A) {i j : ℕ} {a : A} → i ≡ j → f i ≡ some a → f j ≡ some a
at_index f {a = a} same e = subst (λ j. f j ≡ some a) same e

same_arguments :
    {x y : RegisterArgs} → some x ≡ some y → Path (Result Str RegisterArgs) (ok x) (ok y)
same_arguments e = cc e

given {ℓ} : {A : Type ℓ} {o : Option A} {a : A} → some o ≡ some (some a) → o ≡ some a
given e = cc e

map-implies {ℓ κ μ} :
    {A : Type ℓ} {B : Type κ} {C : Type μ} (g : A → Option B) (h : A → C) (o : Option A) {b : B}
    {c : C}
    → ((a : A) → g a ≡ some b → h a ≡ c)
    → Option.map g o ≡ some (some b)
    → Option.map h o ≡ some c
map-implies g h none step e = cc e
map-implies g h (some a) step e = ap some (step a (given e))

-- What a server reads of the arguments.
abbrev pub received_arguments : (l : Layout) → Layout.Struct l → Result Str RegisterArgs
received_arguments l s = do r ← receive l s; ok (Received.arguments r)

module _ (l : Layout) (reader : List ℕ → ℕ → ℕ → ℕ → Layout.Struct l)
    (laws : SegmentLaws l reader) where
  open laws use {first_byte, struct, data_bytes, text, text_list}

  -- The accessors along the pointers of a registration.
  receive-reader :
      (ws : List ℕ) (k n auth options client : ℕ) (account secret id client_id version arch : Bytes)
      (features : List Bytes)
      → u8_at ws k 0 ≡ some n
      → struct_at ws (k + 1) 0 2 ≡ some auth
      → data_at ws (k + 2) ≡ some id
      → struct_at ws (k + 3) 1 2 ≡ some options
      → text_at ws (auth + 0) ≡ some account
      → data_at ws (auth + 1) ≡ some secret
      → struct_at ws (options + 1) 0 4 ≡ some client
      → data_at ws (client + 0) ≡ some client_id
      → texts_at ws (client + 1) ≡ some features
      → text_at ws (client + 2) ≡ some version
      → text_at ws (client + 3) ≡ some arch
      → received_arguments l (reader ws k 1 3)
        ≡ ok record {
          account_tag = account;
          tunnel_secret = secret;
          tunnel_id = id;
          conn_index = n;
          client_id = client_id;
          version = version;
          arch = arch;
          features = features;
        }
  receive-reader ws k n auth options client account secret id client_id version arch features index
        has_auth has_id has_options has_account has_secret has_client has_client_id has_features
        has_version has_arch =
      let auth_read =
        struct ws k 1 3 0 0 2 auth (omega arith) (omega arith)
          (at_index (λ i. struct_at ws i 0 2) (omega arith) has_auth) in
      let id_read =
        data_bytes ws k 1 3 1 id (omega arith) (at_index (data_at ws) (omega arith) has_id) in
      let options_read =
        struct ws k 1 3 2 1 2 options (omega arith) (omega arith)
          (at_index (λ i. struct_at ws i 1 2) (omega arith) has_options) in
      let account_read =
        text ws auth 0 2 0 account (omega arith)
          (at_index (text_at ws) (omega arith) has_account) in
      let secret_read =
        data_bytes ws auth 0 2 1 secret (omega arith)
          (at_index (data_at ws) (omega arith) has_secret) in
      let client_read =
        struct ws options 1 2 0 0 4 client (omega arith) (omega arith)
          (at_index (λ i. struct_at ws i 0 4) (omega arith) has_client) in
      let client_id_read =
        data_bytes ws client 0 4 0 client_id (omega arith)
          (at_index (data_at ws) (omega arith) has_client_id) in
      let (cells, features_list, features_read) =
        text_list ws client 0 4 1 features (omega arith)
          (at_index (texts_at ws) (omega arith) has_features) in
      let version_read =
        text ws client 0 4 2 version (omega arith)
          (at_index (text_at ws) (omega arith) has_version) in
      let arch_read =
        text ws client 0 4 3 arch (omega arith) (at_index (text_at ws) (omega arith) has_arch) in
      let conn_read = first_byte ws k 3 n index in
      rw
        (
          auth_read, account_read, secret_read, id_read, options_read, client_read, client_id_read,
          features_list, features_read, version_read, arch_read, conn_read,
        )
        refl

  -- Where the registration reads by its schema, the generated accessors read the same arguments.
  receive-read_registration :
      (ws : List ℕ) (k : ℕ) (a : RegisterArgs)
      → read_registration ws k ≡ some a
      → received_arguments l (reader ws k 1 3) ≡ ok a
  unfolding read_registration
  receive-read_registration ws k a e =
      let (n, index, e1) = and_then-eq-some (u8_at ws k 0) _ e in
      let (auth, has_auth, e2) = and_then-eq-some (struct_at ws (k + 1) 0 2) _ e1 in
      let (id, has_id, e3) = and_then-eq-some (data_at ws (k + 2)) _ e2 in
      let (options, has_options, e4) = and_then-eq-some (struct_at ws (k + 3) 1 2) _ e3 in
      let (account, has_account, e5) = and_then-eq-some (text_at ws (auth + 0)) _ e4 in
      let (secret, has_secret, e6) = and_then-eq-some (data_at ws (auth + 1)) _ e5 in
      let (client, has_client, e7) = and_then-eq-some (struct_at ws (options + 1) 0 4) _ e6 in
      let (client_id, has_client_id, e8) = and_then-eq-some (data_at ws (client + 0)) _ e7 in
      let (features, has_features, e9) = and_then-eq-some (texts_at ws (client + 1)) _ e8 in
      let (version, has_version, e10) = and_then-eq-some (text_at ws (client + 2)) _ e9 in
      let (arch, has_arch, e11) = and_then-eq-some (text_at ws (client + 3)) _ e10 in
      receive-reader ws k n auth options client account secret id client_id version arch features
        index has_auth has_id has_options has_account has_secret has_client has_client_id
        has_features has_version has_arch
      ∙ same_arguments e11

  -- Where a message in one segment is read by the laws: valid arguments whose texts and secret take
  -- less than 2 ^ 25 bytes are encoded without a panic, and the generated accessors read the same
  -- arguments back from the words behind the frame, without an error.
  pub encode_register_connection-receive :
      (a : RegisterArgs)
      → IsValid a
      → size a < 2 ^ 25
      → Option.map
          (λ framed. received_arguments l (reader (strip_framing framed) 0 1 3))
          (encode_register_connection a)
        ≡ some (ok a)
  encode_register_connection-receive a v small =
      map-implies (λ framed. read_registration (strip_framing framed) 0)
        (λ framed. received_arguments l (reader (strip_framing framed) 0 1 3))
        (encode_register_connection a)
        (λ framed read. receive-read_registration (strip_framing framed) 0 a read)
        (encode_register_connection-strip_framing a v small)
