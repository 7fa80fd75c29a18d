-- ===== src/Tests/Registration.antt =====
-- The generated accessors and the registration over them at a concrete layout, server and token.
use argo_rust.Base.{
  ℕ, ◌+◌, ◌-◌, ◌<◌, All, true, false, [], ◌∷◌, ◌≡◌, ◌↔◌, refl, some, Str, codes, Result, ok, err,
  ◌>>=◌, if◌then◌else◌, is_empty, arith, replicate,
}
use mathlib.Core.Option
use argo_rust.CapnpRpc.Bytes.{IsByte}
use argo_rust.CapnpRpc.Encode.{RegisterArgs, encode_register_connection, strip_framing}
use argo_rust.CapnpRpc.Encode.Allocated.{IsValid}
use argo_rust.Rpc.Segment.{memory-SegmentLaws}
use argo_rust.Rpc.Encoded.{received_arguments, encode_register_connection-receive}
use argo_rust.Schema.{Layout}
use argo_rust.Schema.Memory.{memory, record_at}
use argo_rust.Schema.Memory.Laws.{memory-LayoutLaws}
use argo_rust.Schema.Writes.{LayoutLaws}
use argo_rust.Schema.Messages.{
  RegistrationAgrees, SessionAgrees, registration-Agrees, session-Agrees,
}
use argo_rust.Schema.ConnectionOptions
use argo_rust.Schema.ClientInfo
use argo_rust.Schema.ConnectionOptions.Builder as Options
use argo_rust.Schema.ConnectionOptions.Written.{view, connection_options-view}
use argo_rust.Schema.CloudflaredServer
use argo_rust.Schema.CloudflaredServer.Routing.{Routed, dispatch_call-Routed}
use argo_rust.Schema.ConfigurationManager
use argo_rust.Schema.UnregisterUdpSessionParams as Unregister
use argo_rust.Schema.RegistrationServer.{Server, default_server}
use argo_rust.Rpc.{Received, receive}
use argo_rust.Rpc.Params.{fill_register_connection}
use argo_rust.Rpc.Request.{RegisterInputs}
use argo_rust.Rpc.Reading.{first_attempt, fill_register_connection-receive}
use argo_rust.Rpc.Register.{RpcLib, rpc_register}
use argo_rust.Rpc.Registered.{HasDetails, sent, rpc_register_iff}
use argo_rust.Rpc.Answered.{
  Verdict, accepted, rejected, results_of, Decides, connected, rpc_register-Decides,
}

abbrev Value : Type 0
Value = Layout.Struct memory

abbrev arguments : RegisterArgs
arguments = record {
  account_tag = codes "acc";
  tunnel_secret = 1 ∷ 2 ∷ 3 ∷ [];
  tunnel_id = replicate 16 7;
  conn_index = 3;
  client_id = replicate 16 9;
  version = codes "v";
  arch = codes "x-y";
  features = codes "f" ∷ codes "g" ∷ [];
}

sixteen : (b : ℕ) → b < 256 → All IsByte (replicate 16 b)
sixteen b h = (h, (h, (h, (h, (h, (h, (h, (h, (h, (h, (h, (h, (h, (h, (h, (h, tt))))))))))))))))

arguments-IsValid : IsValid arguments
arguments-IsValid = record {
  account_tag = (omega arith, (omega arith, (omega arith, tt)));
  tunnel_secret = (omega arith, (omega arith, (omega arith, tt)));
  tunnel_id = sixteen 7 (omega arith);
  tunnel_id_size = refl;
  conn_index = omega arith;
  client_id = sixteen 9 (omega arith);
  client_id_size = refl;
  version = (omega arith, tt);
  arch = (omega arith, (omega arith, (omega arith, tt)));
  features = ((omega arith, tt), ((omega arith, tt), tt));
}

encode_register_connection-receive_example :
    Option.map
      (λ framed. received_arguments memory (record_at (strip_framing framed) 0 1 3))
      (encode_register_connection arguments)
    ≡ some (ok arguments)
encode_register_connection-receive_example =
    encode_register_connection-receive memory record_at memory-SegmentLaws arguments
      arguments-IsValid (omega arith)

abbrev inputs : RegisterInputs
inputs = record {
  account_tag = codes "acc";
  tunnel_secret = 1 ∷ 2 ∷ 3 ∷ [];
  tunnel_id = replicate 16 7;
  client_id = replicate 16 9;
  os = codes "linux";
  arch = codes "x86_64";
}

fill_register_connection-receive_example :
    (Layout.get_struct memory (fill_register_connection memory arguments) >>= receive memory)
    ≡ ok (first_attempt memory arguments)
fill_register_connection-receive_example =
    fill_register_connection-receive memory memory-LayoutLaws arguments (omega arith) (omega arith)

-- A server that counts its calls and accepts every account that has a name.
abbrev pub decide : RegisterArgs → Verdict
decide a =
    if is_empty a.account_tag then rejected (codes "no account") else accepted (codes "lhr01")

abbrev answer : Result Str (Received memory) → Result Str Value
answer (ok r) = ok (results_of memory (decide r.arguments))
answer (err e) = err e

abbrev pub same : Str → Str
same e = e

abbrev pub server : Server memory ℕ
server = record {
  register_connection = λ params calls. (calls + 1, answer (receive memory params));
  unregister_connection = Server.unregister_connection (default_server same memory);
  update_local_configuration = Server.update_local_configuration (default_server same memory);
}

pub server-Decides : Decides memory server decide
server-Decides params state a received = rw received refl

abbrev pub rpc_lib : RpcLib memory
rpc_lib = record {
  call = connected memory same server 0;
  to_str = λ b. some b;
  show_not_in_schema = λ n. codes "not in schema";
}

rpc_register-Decides_example : rpc_register memory rpc_lib inputs ≡ ok (codes "lhr01")
rpc_register-Decides_example =
    rpc_register-Decides memory memory-LayoutLaws rpc_lib server decide same 0 inputs server-Decides
      (λ request params. refl) refl

rpc_register_iff_example :
    (rpc_register memory rpc_lib inputs ≡ ok (codes "lhr01"))
    ↔ HasDetails memory rpc_lib (sent memory rpc_lib inputs) (codes "lhr01")
rpc_register_iff_example = rpc_register_iff memory rpc_lib inputs (codes "lhr01")

abbrev options : Value
options = Layout.init_struct memory ConnectionOptions.struct_size

-- A client that nobody wrote.
abbrev empty_client : Result Str Value
empty_client = ConnectionOptions.get_client memory options

registration-Agrees_example : RegistrationAgrees memory options
registration-Agrees_example = registration-Agrees memory options

session-Agrees_example : SessionAgrees memory options
session-Agrees_example = session-Agrees memory options

connection_options-view_example :
    ((do t ← Options.set_client memory options options; ok (view memory t))
      ≡ ok (ok options, ok [], false, 0, 0))
    × (view memory (Options.init_client memory (λ c. c) options)
        ≡ (ok (Layout.init_struct memory ClientInfo.struct_size), ok [], false, 0, 0))
    × (view memory (Options.set_origin_local_ip memory (127 ∷ []) options)
        ≡ (empty_client, ok (127 ∷ []), false, 0, 0))
    × (view memory (Options.init_origin_local_ip memory 2 (λ b. b) options)
        ≡ (empty_client, ok (0 ∷ 0 ∷ []), false, 0, 0))
    × (view memory (Options.set_replace_existing memory true options)
        ≡ (empty_client, ok [], true, 0, 0))
    × (view memory (Options.set_compression_quality memory 7 options)
        ≡ (empty_client, ok [], false, 7, 0))
    × (view memory (Options.set_num_previous_attempts memory 255 options)
        ≡ (empty_client, ok [], false, 0, 255))
connection_options-view_example =
    connection_options-view memory memory-LayoutLaws options options (λ c. c) (127 ∷ []) (λ b. b) 2
      true 7 255 (LayoutLaws.size-init_struct memory-LayoutLaws ConnectionOptions.struct_size)
      (omega arith) (omega arith)

-- A server that counts the sessions and keeps the default for the configuration.
abbrev counting : CloudflaredServer.Server memory ℕ
counting = record {
  session = record {
    register_udp_session = λ params count. (count + 1, ok params);
    unregister_udp_session = λ params count. (count - 1, ok params);
  };
  configuration = ConfigurationManager.default_server same memory;
}

dispatch_call-Routed_example :
    Routed same memory counting 0x839445a59fb01686 1
      (Layout.init_struct memory Unregister.struct_size)
      4
dispatch_call-Routed_example =
    dispatch_call-Routed same memory counting 0x839445a59fb01686 1
      (Layout.init_struct memory Unregister.struct_size) 4
