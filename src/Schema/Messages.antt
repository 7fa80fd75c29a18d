-- ===== src/Schema/Messages.antt =====
-- The schemas of the interfaces in src/tunnelrpc_capnp.rs, all messages of each.
use argo_rust.Schema.{Layout}
use argo_rust.Schema.RegisterConnectionParams.Described as RegisterConnectionParams
use argo_rust.Schema.TunnelAuth.Described as TunnelAuth
use argo_rust.Schema.ConnectionOptions.Described as ConnectionOptions
use argo_rust.Schema.ClientInfo.Described as ClientInfo
use argo_rust.Schema.RegisterConnectionResults.Described as RegisterConnectionResults
use argo_rust.Schema.ConnectionResponse.Described as ConnectionResponse
use argo_rust.Schema.ConnectionResult.Described as ConnectionResult
use argo_rust.Schema.ConnectionError.Described as ConnectionError
use argo_rust.Schema.ConnectionDetails.Described as ConnectionDetails
use argo_rust.Schema.UnregisterConnectionParams.Described as UnregisterConnectionParams
use argo_rust.Schema.UnregisterConnectionResults.Described as UnregisterConnectionResults
use argo_rust.Schema.UpdateLocalConfigurationParams.Described as UpdateLocalConfigurationParams
use argo_rust.Schema.UpdateLocalConfigurationResults.Described as UpdateLocalConfigurationResults
use argo_rust.Schema.RegisterUdpSessionResponse.Described as RegisterUdpSessionResponse
use argo_rust.Schema.RegisterUdpSessionResults.Described as RegisterUdpSessionResults
use argo_rust.Schema.UnregisterUdpSessionParams.Described as UnregisterUdpSessionParams
use argo_rust.Schema.UnregisterUdpSessionResults.Described as UnregisterUdpSessionResults
use argo_rust.Schema.UpdateConfigurationResponse.Described as UpdateConfigurationResponse
use argo_rust.Schema.UpdateConfigurationParams.Described as UpdateConfigurationParams
use argo_rust.Schema.UpdateConfigurationResults.Described as UpdateConfigurationResults
use argo_rust.Schema.Tag.Described as Tag

abbrev pub RegistrationAgrees : (l : Layout) → Layout.Struct l → Type 0
RegistrationAgrees l s =
    RegisterConnectionParams.Agrees l s
    × TunnelAuth.Agrees l s
    × ConnectionOptions.Agrees l s
    × ClientInfo.Agrees l s
    × RegisterConnectionResults.Agrees l s
    × ConnectionResponse.Agrees l s
    × ConnectionResult.Agrees l s
    × ConnectionError.Agrees l s
    × ConnectionDetails.Agrees l s
    × UnregisterConnectionParams.Agrees l s
    × UnregisterConnectionResults.Agrees l s
    × UpdateLocalConfigurationParams.Agrees l s
    × UpdateLocalConfigurationResults.Agrees l s

-- For every message of the interface RegistrationServer, whatever the struct holds: its encoded
-- schema node reads by the encoding, and gives the type id, the sizes, the table of field types and
-- the union of the generated code, and each accessor returns what the node says of its field.
pub registration-Agrees : (l : Layout) (s : Layout.Struct l) → RegistrationAgrees l s
registration-Agrees l s = (
  RegisterConnectionParams.register_connection_params-Agrees l s,
  TunnelAuth.tunnel_auth-Agrees l s,
  ConnectionOptions.connection_options-Agrees l s,
  ClientInfo.client_info-Agrees l s,
  RegisterConnectionResults.register_connection_results-Agrees l s,
  ConnectionResponse.connection_response-Agrees l s,
  ConnectionResult.connection_result-Agrees l s,
  ConnectionError.connection_error-Agrees l s,
  ConnectionDetails.connection_details-Agrees l s,
  UnregisterConnectionParams.unregister_connection_params-Agrees l s,
  UnregisterConnectionResults.unregister_connection_results-Agrees l s,
  UpdateLocalConfigurationParams.update_local_configuration_params-Agrees l s,
  UpdateLocalConfigurationResults.update_local_configuration_results-Agrees l s,
)

abbrev pub SessionAgrees : (l : Layout) → Layout.Struct l → Type 0
SessionAgrees l s =
    RegisterUdpSessionResponse.Agrees l s
    × RegisterUdpSessionResults.Agrees l s
    × UnregisterUdpSessionParams.Agrees l s
    × UnregisterUdpSessionResults.Agrees l s
    × UpdateConfigurationResponse.Agrees l s
    × UpdateConfigurationParams.Agrees l s
    × UpdateConfigurationResults.Agrees l s
    × Tag.Agrees l s

-- The encoded schema nodes and the accessors agree in the same way for the messages of
-- SessionManager, without the parameters of registerUdpSession, for those of ConfigurationManager,
-- and for Tag.
pub session-Agrees : (l : Layout) (s : Layout.Struct l) → SessionAgrees l s
session-Agrees l s = (
  RegisterUdpSessionResponse.register_udp_session_response-Agrees l s,
  RegisterUdpSessionResults.register_udp_session_results-Agrees l s,
  UnregisterUdpSessionParams.unregister_udp_session_params-Agrees l s,
  UnregisterUdpSessionResults.unregister_udp_session_results-Agrees l s,
  UpdateConfigurationResponse.update_configuration_response-Agrees l s,
  UpdateConfigurationParams.update_configuration_params-Agrees l s,
  UpdateConfigurationResults.update_configuration_results-Agrees l s,
  Tag.tag-Agrees l s,
)
