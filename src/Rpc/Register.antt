-- ===== src/Rpc/Register.antt =====
-- `rpc_register` of src/tunnel.rs. The RPC system of the crate capnp-rpc is an argument: what becomes
-- of a call. So are the crate's reading of a text as UTF-8 and its text for a tag that is not in the
-- schema.
use argo_rust.Base.{ℕ, Str, Result, ok, err, ◌>>=◌, Option, some_or, codes, [], ◌++◌}
use argo_rust.CapnpRpc.Bytes.{Bytes}
use argo_rust.Schema.{Layout}
use argo_rust.Schema.RegistrationServer.{Request, register_connection_request}
use argo_rust.Schema.RegisterConnectionResults
use argo_rust.Schema.ConnectionResponse
use argo_rust.Schema.ConnectionResult
use argo_rust.Schema.ConnectionResult.{
  Which, error, connection_details, NotInSchema, not_in_schema, which,
}
use argo_rust.Schema.ConnectionError
use argo_rust.Schema.ConnectionDetails
use argo_rust.Rpc.Request.{RegisterInputs, fill_request}

-- The RPC system ends before there is a response, the call fails, or it returns a pointer to its
-- results.
pub data Outcome (l : Layout) : Type 0 where
  exited : Outcome l
  failed : Str → Outcome l
  response : Layout.Pointer l → Outcome l

pub record RpcLib (l : Layout) : Type 0 where
  pub call : Request → Layout.Struct l → Outcome l
  pub to_str : Bytes → Option Bytes
  pub show_not_in_schema : ℕ → Str

-- `map_err` with a text in front of the error.
abbrev pub with_context {ℓ} : {A : Type ℓ} → Str → Result Str A → Result Str A
with_context text (ok a) = ok a
with_context text (err e) = err (text ++ e)

module _ (l : Layout) (lib : RpcLib l) where
  open l use {Struct, Pointer, init_struct}

  -- The text, empty if it is not UTF-8, or "unknown" if it cannot be read.
  abbrev pub text_or_unknown : Result Str Bytes → Bytes
  text_or_unknown (ok c) = some_or (lib.to_str c) []
  text_or_unknown (err e) = codes "unknown"

  abbrev pub schema_error {ℓ} : {A : Type ℓ} → Result NotInSchema A → Result Str A
  schema_error (ok a) = ok a
  schema_error (err (not_in_schema tag)) = err (codes "which: " ++ lib.show_not_in_schema tag)

  abbrev pub on_which : ConnectionResult.WhichReader l → Result Str Bytes
  on_which (error e) = do
    e ← with_context (codes "error read: ") e
    err (codes "Edge rejected registration: " ++ text_or_unknown (ConnectionError.get_cause l e))
  on_which (connection_details d) = do
    details ← with_context (codes "details read: ") d
    ok (text_or_unknown (ConnectionDetails.get_location_name l details))

  unfoldable pub read_response : Pointer → Result Str Bytes
  read_response p = do
    results ← with_context (codes "response.get: ") (RegisterConnectionResults.from_pointer l p)
    conn_resp ← with_context (codes "get_result: ") (RegisterConnectionResults.get_result l results)
    w ← schema_error (which l (ConnectionResponse.get_result l conn_resp))
    on_which w

  abbrev pub on_outcome : Outcome l → Result Str Bytes
  on_outcome exited = err (codes "RPC system exited before response")
  on_outcome (failed e) = err (codes "RegisterConnection: " ++ e)
  on_outcome (response p) = read_response p

  -- The location of the edge that the tunnel is registered with.
  unfoldable pub rpc_register : RegisterInputs → Result Str Bytes
  rpc_register r =
      let request = register_connection_request in
      on_outcome (lib.call request (fill_request l r (init_struct request.params_size)))
