-- ===== src/Schema/CloudflaredServer.antt =====
-- `cloudflared_server` of src/tunnelrpc_capnp.rs: an interface without methods of its own that
-- extends `session_manager` and `configuration_manager`.
pub mod Routing
use argo_rust.Base.{
  ℕ, Str, Result, err, codes, ◌==◌, ◌≡◌, ◌⊎◌, inl, inr, refl, if◌then◌else◌, Bool, true, false,
  Bool-cases, arith, tests, ==_iff,
}
use argo_rust.Schema.{Layout}
use argo_rust.Schema.RegistrationServer.{Request}
use argo_rust.Schema.SessionManager
use argo_rust.Schema.SessionManager.{register_udp_session_request, unregister_udp_session_request}
use argo_rust.Schema.ConfigurationManager
use argo_rust.Schema.ConfigurationManager.{update_configuration_request}

abbrev pub type_id : ℕ
type_id = 0xf548cef9dea2a4a1

-- `Server`: a server of both interfaces, over one state.
pub record Server (l : Layout) (S : Type 0) : Type 0 where
  pub session : SessionManager.Server l S
  pub configuration : ConfigurationManager.Server l S

module _ (unimplemented : Str → Str) (l : Layout) {S : Type 0} where
  open l use {Struct}

  abbrev pub refused : S → S × Result Str Struct
  refused state = (state, err (unimplemented (codes "Method not implemented.")))

  unfoldable pub dispatch_call_internal : Server l S → ℕ → Struct → S → S × Result Str Struct
  dispatch_call_internal server method_id params state = refused state

  unfoldable pub dispatch_call : Server l S → ℕ → ℕ → Struct → S → S × Result Str Struct
  dispatch_call server interface_id method_id params state =
      if interface_id == type_id
      then dispatch_call_internal server method_id params state
      else if interface_id == 0x839445a59fb01686
      then SessionManager.dispatch_call_internal unimplemented l server.session method_id params
          state
      else if interface_id == 0xb48edfbdaa25db04
      then ConfigurationManager.dispatch_call_internal unimplemented l server.configuration
          method_id params state
      else refused state
