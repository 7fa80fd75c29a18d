-- ===== src/Schema/CloudflaredServer/Routing.antt =====
-- Which method of a server a call of `cloudflared_server` in src/tunnelrpc_capnp.rs reaches.
use argo_rust.Base.{ℕ, Str, ◌≡◌, ◌⊎◌, arith}
use argo_rust.Schema.{Layout}
use argo_rust.Schema.RegistrationServer.{Request}
use argo_rust.Schema.SessionManager
use argo_rust.Schema.SessionManager.{register_udp_session_request, unregister_udp_session_request}
use argo_rust.Schema.ConfigurationManager
use argo_rust.Schema.ConfigurationManager.{update_configuration_request}
use argo_rust.Schema.CloudflaredServer.{Server, dispatch_call, dispatch_call_internal, refused}

-- The call is the one that a request begins.
abbrev pub Begins : Request → ℕ → ℕ → Type 0
Begins r interface_id method_id =
    (interface_id ≡ Request.interface_id r) × (method_id ≡ Request.method_id r)

module _ (unimplemented : Str → Str) (l : Layout) {S : Type 0} where
  open l use {Struct}

  -- The four cases of a call, which exclude each other.
  abbrev pub Routed : Server l S → ℕ → ℕ → Struct → S → Type 0
  Routed server i m params state =
      (Begins register_udp_session_request i m
        × (dispatch_call unimplemented l server i m params state
            ≡ server.session.register_udp_session params state))
      ⊎ ((Begins unregister_udp_session_request i m
            × (dispatch_call unimplemented l server i m params state
                ≡ server.session.unregister_udp_session params state))
          ⊎ ((Begins update_configuration_request i m
                × (dispatch_call unimplemented l server i m params state
                    ≡ server.configuration.update_configuration params state))
              ⊎ ((¬ Begins register_udp_session_request i m)
                  × (¬ Begins unregister_udp_session_request i m)
                  × (¬ Begins update_configuration_request i m)
                  × (dispatch_call unimplemented l server i m params state
                      ≡ refused unimplemented l state))))

  -- A call goes to the method whose request the generated clients begin with its two numbers, and
  -- any other call is refused and leaves the state as it was.
  pub dispatch_call-Routed :
      (server : Server l S) (i m : ℕ) (params : Struct) (state : S) → Routed server i m params state
  unfolding dispatch_call dispatch_call_internal SessionManager.dispatch_call_internal
      ConfigurationManager.dispatch_call_internal register_udp_session_request
      unregister_udp_session_request update_configuration_request
  dispatch_call-Routed server i m params state = ground arith
