-- ===== src/Rpc/Answered.antt =====
-- The registration against a server of the generated interface: the call is dispatched to its
-- `register_connection`, which reads the parameters and builds its answer by the generated builders.
use argo_rust.Base.{
  ℕ, ◌≤◌, ◌<◌, ◌^◌, List, [], ◌∷◌, ◌++◌, Str, Result, ok, err, ◌≡◌, refl, All, arith, some, codes,
}
use argo_rust.CapnpRpc.Bytes.{Bytes}
use argo_rust.CapnpRpc.Encode.{RegisterArgs}
use argo_rust.Schema.{Layout, u16}
use argo_rust.Schema.Writes.{LayoutLaws, Write, pointer, data_field, write_all, Fits}
use argo_rust.Schema.Writes.ReadBack.{built-get_struct, built-get_text, built-number}
use argo_rust.Schema.RegistrationServer.{
  Request, Server, dispatch_call, dispatch_call_internal, register_connection_request,
}
use argo_rust.Schema.RegisterConnectionParams
use argo_rust.Schema.RegisterConnectionResults
use argo_rust.Schema.RegisterConnectionResults.Builder as ResultsBuilder
use argo_rust.Schema.ConnectionResponse.Builder as ResponseBuilder
use argo_rust.Schema.ConnectionResult
use argo_rust.Schema.ConnectionResult.Builder as UnionBuilder
use argo_rust.Schema.ConnectionError
use argo_rust.Schema.ConnectionError.Builder as ErrorBuilder
use argo_rust.Schema.ConnectionDetails
use argo_rust.Schema.ConnectionDetails.Builder as DetailsBuilder
use argo_rust.Rpc.{receive}
use argo_rust.Rpc.Request.{RegisterInputs, arguments_of, fill_request}
use argo_rust.Rpc.Reading.{first_attempt, fill_request-receive}
use argo_rust.Rpc.Register.{Outcome, failed, response, RpcLib, rpc_register, read_response}

-- What a server decides on a registration: the location, or the cause of a rejection.
pub data Verdict : Type 0 where
  accepted : Bytes → Verdict
  rejected : Bytes → Verdict

-- The result of `rpc_register` that the verdict asks for.
abbrev pub verdict_result : Verdict → Result Str Bytes
verdict_result (accepted location) = ok location
verdict_result (rejected cause) = err (codes "Edge rejected registration: " ++ cause)

abbrev pub verdict_text : Verdict → Bytes
verdict_text (accepted location) = location
verdict_text (rejected cause) = cause

module _ (l : Layout) where
  open l use {Struct, Pointer, init_struct, null, to_struct, to_text, get_struct}

  abbrev fill_result : Verdict → Struct → Struct
  fill_result (accepted location) =
      UnionBuilder.init_connection_details l (DetailsBuilder.set_location_name l location)
  fill_result (rejected cause) = UnionBuilder.init_error l (ErrorBuilder.set_cause l cause)

  -- The results that a server builds for its verdict.
  abbrev pub results_of : Verdict → Struct
  results_of v =
      ResultsBuilder.init_result l (ResponseBuilder.init_result l (fill_result v))
        (init_struct RegisterConnectionResults.struct_size)

  -- A server that decides by the arguments of a first attempt.
  abbrev pub Decides : {S : Type 0} → Server l S → (RegisterArgs → Verdict) → Type 0
  Decides {S} server decide =
      (params : Struct) (state : S) (a : RegisterArgs)
      → receive l params ≡ ok (first_attempt l a)
      → (server.register_connection params state).1 ≡ ok (results_of (decide a))

  abbrev answer : Result Str Struct → Outcome l
  answer (ok results) = response (to_struct results)
  answer (err e) = failed e

  -- The calls of a client whose connection leads to a server in a state.
  abbrev pub connected : {S : Type 0} → (Str → Str) → Server l S → S → Request → Struct → Outcome l
  connected unimplemented server state request params =
      answer
        (dispatch_call unimplemented l server request.interface_id request.method_id params state).1

  union_writes : ℕ → Struct → List (Write l)
  union_writes tag child =
      data_field u16 0 0 ∷ pointer 0 null ∷ data_field u16 0 tag ∷ pointer 0 (to_struct child) ∷ []

  union_of : ℕ → Struct → Struct
  union_of tag child =
      write_all l (init_struct ConnectionResult.struct_size) (union_writes tag child)

  details_of : Bytes → Struct
  details_of location =
      write_all l (init_struct ConnectionDetails.struct_size) (pointer 1 (to_text location) ∷ [])

  error_of : Bytes → Struct
  error_of cause =
      write_all l (init_struct ConnectionError.struct_size) (pointer 0 (to_text cause) ∷ [])

  tag-Fits : (tag : ℕ) (child : Struct) → tag < 2 ^ 16 → All (Fits l) (union_writes tag child)
  unfolding union_writes
  tag-Fits tag child fits =
      let zero_fits : 0 < 2 ^ 16 = omega arith in
      let always : 0 ≤ 0 = omega arith in (zero_fits, (always, (fits, (always, tt))))

  -- The union that the answer holds, its tag and its member.
  read_union :
      (laws : LayoutLaws l) (tag : ℕ) (child : Struct)
      → tag < 2 ^ 16
      → (RegisterConnectionResults.get_result l (
            write_all l
              (init_struct RegisterConnectionResults.struct_size)
              (pointer 0 (to_struct (union_of tag child)) ∷ []))
          ≡ ok (union_of tag child))
        × (Layout.get_data_field l u16 (union_of tag child) 0 ≡ tag)
        × (get_struct (Layout.get_pointer_field l (union_of tag child) 0) ≡ ok child)
  unfolding union_of union_writes
  read_union laws tag child fits = (
    built-get_struct l laws RegisterConnectionResults.struct_size
        (pointer 0 (to_struct (union_of tag child)) ∷ []) 0 (union_of tag child) refl refl,
    built-number l laws ConnectionResult.struct_size (union_writes tag child) u16 0 refl refl
        (tag-Fits tag child fits),
    built-get_struct l laws ConnectionResult.struct_size (union_writes tag child) 0 child refl refl,
  )

  read_response-results_of :
      (laws : LayoutLaws l) (lib : RpcLib l) (v : Verdict)
      → lib.to_str (verdict_text v) ≡ some (verdict_text v)
      → read_response l lib (to_struct (results_of v)) ≡ verdict_result v
  unfolding read_response union_of union_writes details_of error_of
  read_response-results_of laws lib (accepted location) utf8 =
      let fits : 1 < 2 ^ 16 = omega arith in
      let (result, tag, child) = read_union laws 1 (details_of location) fits in
      let name =
        built-get_text l laws ConnectionDetails.struct_size (pointer 1 (to_text location) ∷ []) 1
          location refl refl in
      rw
        (
          LayoutLaws.get_struct-to_struct laws (results_of (accepted location)),
          result,
          tag,
          child,
          name,
          utf8,
        )
        refl
  read_response-results_of laws lib (rejected cause) utf8 =
      let fits : 0 < 2 ^ 16 = omega arith in
      let (result, tag, child) = read_union laws 0 (error_of cause) fits in
      let name =
        built-get_text l laws ConnectionError.struct_size (pointer 0 (to_text cause) ∷ []) 0 cause
          refl refl in
      rw
        (
          LayoutLaws.get_struct-to_struct laws (results_of (rejected cause)),
          result,
          tag,
          child,
          name,
          utf8,
        )
        refl

  -- Against a server that decides by the arguments it reads, `rpc_register` returns what the server
  -- decides on its inputs: the location, or an error with the cause, when that text is UTF-8 and
  -- calls reach the server.
  pub rpc_register-Decides :
      (laws : LayoutLaws l) (lib : RpcLib l) {S : Type 0} (server : Server l S)
      (decide : RegisterArgs → Verdict) (unimplemented : Str → Str) (state : S) (r : RegisterInputs)
      → Decides server decide
      → ((request : Request) (params : Struct)
          → lib.call request params ≡ connected unimplemented server state request params)
      → lib.to_str (verdict_text (decide (arguments_of r)))
        ≡ some (verdict_text (decide (arguments_of r)))
      → rpc_register l lib r ≡ verdict_result (decide (arguments_of r))
  unfolding rpc_register dispatch_call dispatch_call_internal register_connection_request
  rpc_register-Decides laws lib server decide unimplemented state r decides calls utf8 =
      let params = fill_request l r (init_struct RegisterConnectionParams.struct_size) in
      let answered = decides params state (arguments_of r) (fill_request-receive l laws r) in
      rw (calls register_connection_request params, answered)
        (read_response-results_of laws lib (decide (arguments_of r)) utf8)
