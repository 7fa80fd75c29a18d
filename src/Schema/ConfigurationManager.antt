-- ===== src/Schema/ConfigurationManager.antt =====
-- `configuration_manager` of src/tunnelrpc_capnp.rs: the request of the client, the trait of a server
-- with its default method, and the dispatch of a call.
use argo_rust.Base.{ℕ, Str, Result, err, codes, ◌==◌, ◌++◌, if◌then◌else◌}
use argo_rust.Schema.{Layout}
use argo_rust.Schema.RegistrationServer.{Request}
use argo_rust.Schema.UpdateConfigurationParams

abbrev pub type_id : ℕ
type_id = 0xb48edfbdaa25db04

unfoldable pub update_configuration_request : Request
update_configuration_request = record {
  interface_id = type_id;
  method_id = 0;
  params_size = UpdateConfigurationParams.struct_size;
}

pub record Server (l : Layout) (S : Type 0) : Type 0 where
  pub update_configuration : Layout.Struct l → S → S × Result Str (Layout.Struct l)

module _ (unimplemented : Str → Str) (l : Layout) {S : Type 0} where
  open l use {Struct}

  abbrev refuse : Str → S → S × Result Str Struct
  refuse text state = (state, err (unimplemented text))

  abbrev missing : Str → Struct → S → S × Result Str Struct
  missing method params state =
      refuse (codes "method configuration_manager::Server::" ++ method ++ codes " not implemented")
        state

  -- The method of the trait where a server does not write it itself.
  unfoldable pub default_server : Server l S
  default_server = record { update_configuration = missing (codes "update_configuration") }

  unfoldable pub dispatch_call_internal : Server l S → ℕ → Struct → S → S × Result Str Struct
  dispatch_call_internal server method_id params state =
      if method_id == 0
      then server.update_configuration params state
      else refuse (codes "Method not implemented.") state

  unfoldable pub dispatch_call : Server l S → ℕ → ℕ → Struct → S → S × Result Str Struct
  dispatch_call server interface_id method_id params state =
      if interface_id == type_id
      then dispatch_call_internal server method_id params state
      else refuse (codes "Method not implemented.") state
