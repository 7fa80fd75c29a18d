-- ===== src/Schema/RegistrationServer.antt =====
-- `registration_server` of src/tunnelrpc_capnp.rs: the requests of the client, the trait of a server
-- with its default methods, and the dispatch of a call. A server changes its state by a call; its
-- methods get the parameters and give the results or an error. How the crate capnp writes an error of
-- the kind `unimplemented` is an argument.
use argo_rust.Base.{ℕ, Str, Result, err, codes, ◌==◌, ◌++◌, if◌then◌else◌}
use argo_rust.Schema.{Layout, StructSize}
use argo_rust.Schema.RegisterConnectionParams
use argo_rust.Schema.UnregisterConnectionParams
use argo_rust.Schema.UpdateLocalConfigurationParams

abbrev pub type_id : ℕ
type_id = 0xf71695ec7fe85497

-- A call that `new_call` begins: its parameters are a struct of the size.
pub record Request : Type 0 where
  pub interface_id : ℕ
  pub method_id : ℕ
  pub params_size : StructSize

unfoldable pub register_connection_request : Request
register_connection_request = record {
  interface_id = type_id;
  method_id = 0;
  params_size = RegisterConnectionParams.struct_size;
}

unfoldable pub unregister_connection_request : Request
unregister_connection_request = record {
  interface_id = type_id;
  method_id = 1;
  params_size = UnregisterConnectionParams.struct_size;
}

unfoldable pub update_local_configuration_request : Request
update_local_configuration_request = record {
  interface_id = type_id;
  method_id = 2;
  params_size = UpdateLocalConfigurationParams.struct_size;
}

-- `Server`, over the state of the server.
pub record Server (l : Layout) (S : Type 0) : Type 0 where
  pub register_connection : Layout.Struct l → S → S × Result Str (Layout.Struct l)
  pub unregister_connection : Layout.Struct l → S → S × Result Str (Layout.Struct l)
  pub update_local_configuration : Layout.Struct l → S → S × Result Str (Layout.Struct l)

module _ (unimplemented : Str → Str) (l : Layout) {S : Type 0} where
  open l use {Struct}

  abbrev refuse : Str → S → S × Result Str Struct
  refuse text state = (state, err (unimplemented text))

  abbrev missing : Str → Struct → S → S × Result Str Struct
  missing method params state =
      refuse (codes "method registration_server::Server::" ++ method ++ codes " not implemented")
        state

  -- The methods of the trait that a server does not write itself.
  unfoldable pub default_server : Server l S
  default_server = record {
    register_connection = missing (codes "register_connection");
    unregister_connection = missing (codes "unregister_connection");
    update_local_configuration = missing (codes "update_local_configuration");
  }

  unfoldable pub dispatch_call_internal : Server l S → ℕ → Struct → S → S × Result Str Struct
  dispatch_call_internal server method_id params state =
      if method_id == 0
      then server.register_connection params state
      else if method_id == 1
      then server.unregister_connection params state
      else if method_id == 2
      then server.update_local_configuration params state
      else refuse (codes "Method not implemented.") state

  unfoldable pub dispatch_call : Server l S → ℕ → ℕ → Struct → S → S × Result Str Struct
  dispatch_call server interface_id method_id params state =
      if interface_id == type_id
      then dispatch_call_internal server method_id params state
      else refuse (codes "Method not implemented.") state
