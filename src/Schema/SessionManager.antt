-- ===== src/Schema/SessionManager.antt =====
-- `session_manager` of src/tunnelrpc_capnp.rs: the requests of the client, the trait of a server with
-- its default methods, and the dispatch of a call.
use argo_rust.Base.{ℕ, Str, Result, err, codes, ◌==◌, ◌++◌, if◌then◌else◌}
use argo_rust.Schema.{Layout, StructSize}
use argo_rust.Schema.RegistrationServer.{Request}
use argo_rust.Schema.UnregisterUdpSessionParams

abbrev pub type_id : ℕ
type_id = 0x839445a59fb01686

-- The size of `register_udp_session_params`.
abbrev pub register_udp_session_size : StructSize
register_udp_session_size = record { data_words = 2; pointers = 3 }

unfoldable pub register_udp_session_request : Request
register_udp_session_request = record {
  interface_id = type_id;
  method_id = 0;
  params_size = register_udp_session_size;
}

unfoldable pub unregister_udp_session_request : Request
unregister_udp_session_request = record {
  interface_id = type_id;
  method_id = 1;
  params_size = UnregisterUdpSessionParams.struct_size;
}

pub record Server (l : Layout) (S : Type 0) : Type 0 where
  pub register_udp_session : Layout.Struct l → S → S × Result Str (Layout.Struct l)
  pub unregister_udp_session : Layout.Struct l → S → S × Result Str (Layout.Struct l)

module _ (unimplemented : Str → Str) (l : Layout) {S : Type 0} where
  open l use {Struct}

  abbrev refuse : Str → S → S × Result Str Struct
  refuse text state = (state, err (unimplemented text))

  abbrev missing : Str → Struct → S → S × Result Str Struct
  missing method params state =
      refuse (codes "method session_manager::Server::" ++ method ++ codes " not implemented") state

  -- The methods of the trait that a server does not write itself.
  unfoldable pub default_server : Server l S
  default_server = record {
    register_udp_session = missing (codes "register_udp_session");
    unregister_udp_session = missing (codes "unregister_udp_session");
  }

  unfoldable pub dispatch_call_internal : Server l S → ℕ → Struct → S → S × Result Str Struct
  dispatch_call_internal server method_id params state =
      if method_id == 0
      then server.register_udp_session params state
      else if method_id == 1
      then server.unregister_udp_session params state
      else refuse (codes "Method not implemented.") state

  unfoldable pub dispatch_call : Server l S → ℕ → ℕ → Struct → S → S × Result Str Struct
  dispatch_call server interface_id method_id params state =
      if interface_id == type_id
      then dispatch_call_internal server method_id params state
      else refuse (codes "Method not implemented.") state
