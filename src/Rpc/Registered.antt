-- ===== src/Rpc/Registered.antt =====
-- When `rpc_register` of src/tunnel.rs succeeds.
use argo_rust.Base.{
  codes, Str, Result, ok, err, ◌>>=◌, ◌≡◌, ◌↔◌, refl, Result-cases, Bool-cases, bind-eq-ok, inl,
  inr, ◌==◌, ==_iff,
}
use argo_rust.CapnpRpc.Bytes.{Bytes}
use argo_rust.Schema.{Layout, u16}
use argo_rust.Schema.RegistrationServer.{register_connection_request}
use argo_rust.Schema.ConnectionResult.{which}
use argo_rust.Schema.ConnectionDetails
use argo_rust.Schema.RegisterConnectionParams
use argo_rust.Rpc.Request.{RegisterInputs, fill_request}
use argo_rust.Rpc.Register.{
  Outcome, exited, failed, response, RpcLib, rpc_register, read_response, text_or_unknown,
  with_context, schema_error, on_which, on_outcome,
}

module _ (l : Layout) (lib : RpcLib l) where
  open l use {Struct, Pointer, init_struct, get_struct, get_pointer_field, get_data_field}

  -- The call for the inputs.
  abbrev pub sent : RegisterInputs → Outcome l
  sent r =
      lib.call register_connection_request
        (fill_request l r (init_struct RegisterConnectionParams.struct_size))

  -- The response holds connection details with the location.
  pub record HasDetails (o : Outcome l) (location : Bytes) : Type 0 where
    pub results_pointer : Pointer
    pub results : Struct
    pub answer : Struct
    pub details : Struct
    pub is_response : o ≡ response results_pointer
    pub has_results : get_struct results_pointer ≡ ok results
    pub has_answer : get_struct (get_pointer_field results 0) ≡ ok answer
    pub has_tag : get_data_field u16 answer 0 ≡ 1
    pub has_details : get_struct (get_pointer_field answer 0) ≡ ok details
    pub has_location :
        text_or_unknown l lib (ConnectionDetails.get_location_name l details) ≡ location

  with_context-eq-ok :
      {A : Type 0} (text : Str) (m : Result Str A) {a : A} → with_context text m ≡ ok a → m ≡ ok a
  with_context-eq-ok text (ok a) e = cc e
  with_context-eq-ok text (err m) e = cc e

  details_lem :
      (answer : Struct) (location : Bytes)
      → (schema_error l lib (which l answer) >>= on_which l lib) ≡ ok location
      → (get_data_field u16 answer 0 ≡ 1)
        × ((details : Struct) × (get_struct (get_pointer_field answer 0) ≡ ok details)
            × (text_or_unknown l lib (ConnectionDetails.get_location_name l details) ≡ location))
  details_lem answer location e = elim (Bool-cases (get_data_field u16 answer 0 == 0)) [
    | inl zero_tag ↦ elim (Result-cases (get_struct (get_pointer_field answer 0))) [
      | inl (child, c) ↦ let wrong = (rw (zero_tag, c) at e) in cc wrong
      | inr (m, c) ↦ let wrong = (rw (zero_tag, c) at e) in cc wrong
    ]
    | inr no_zero ↦ elim (Bool-cases (get_data_field u16 answer 0 == 1)) [
      | inl one_tag ↦ elim (Result-cases (get_struct (get_pointer_field answer 0))) [
        | inl (child, c) ↦
            let found = (rw (no_zero, one_tag, c) at e) in
            ((==_iff (get_data_field u16 answer 0) 1).0 one_tag, (child, c, cc found))
        | inr (m, c) ↦ let wrong = (rw (no_zero, one_tag, c) at e) in cc wrong
      ]
      | inr no_one ↦ let wrong = (rw (no_zero, no_one) at e) in cc wrong
    ]
  ]

  on_outcome_lem :
      (o : Outcome l) (location : Bytes) → on_outcome l lib o ≡ ok location → HasDetails o location
  unfolding read_response
  on_outcome_lem exited location e = cc e
  on_outcome_lem (failed m) location e = cc e
  on_outcome_lem (response p) location e =
      let (results, r, rest) =
        bind-eq-ok (with_context (codes "response.get: ") (get_struct p))
          (λ results. do
            conn_resp ←
                with_context (codes "get_result: ") (get_struct (get_pointer_field results 0))
            w ← schema_error l lib (which l conn_resp)
            on_which l lib w)
          e in
      let (answer, a, last) =
        bind-eq-ok (with_context (codes "get_result: ") (get_struct (get_pointer_field results 0)))
          (λ conn_resp. do w ← schema_error l lib (which l conn_resp); on_which l lib w) rest in
      let (tag, found) = details_lem answer location last in
      record {
        results_pointer = p;
        results = results;
        answer = answer;
        details = found.0;
        is_response = refl;
        has_results = with_context-eq-ok (codes "response.get: ") (get_struct p) r;
        has_answer =
            with_context-eq-ok (codes "get_result: ") (get_struct (get_pointer_field results 0)) a;
        has_tag = tag;
        has_details = found.1;
        has_location = found.2;
      }

  -- `rpc_register` succeeds with a location exactly when the call gets a response whose results, the
  -- answer in them and its details can be read, the tag of the union is 1, and the location is the
  -- name in the details, or empty or "unknown" where that is no text.
  pub rpc_register_iff :
      (r : RegisterInputs) (location : Bytes)
      → (rpc_register l lib r ≡ ok location) ↔ HasDetails (sent r) location
  unfolding rpc_register register_connection_request read_response
  rpc_register_iff r location = (
    on_outcome_lem (sent r) location,
    λ h.
        rw
          (
            HasDetails.is_response h,
            HasDetails.has_results h,
            HasDetails.has_answer h,
            HasDetails.has_tag h,
            HasDetails.has_details h,
            HasDetails.has_location h,
          )
          refl,
  )
