-- ===== src/Origin/Forwarded.antt =====
-- What `dispatch` answers without the origin.
use argo_rust.Base.{◌≡◌, refl, ℕ, [], some, some_or, ok}
use argo_rust.Config.{IngressRule, status_code}
use argo_rust.Http.{Request, HttpLib}
use argo_rust.Origin.{dispatch}

module _ (lib : HttpLib) where
  pub dispatch_status :
      (rule : IngressRule) (code : ℕ) (req : Request)
      → status_code rule ≡ some code
      → let status : ℕ = some_or (lib.from_u16 code) 404 in
        dispatch lib rule req
        ≡ ok (record { status = status; headers = []; body = lib.show_status status })
  unfolding dispatch
  dispatch_status rule code req e = rw (dispatch, e) refl
