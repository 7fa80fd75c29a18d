-- ===== src/Http.antt =====
-- What src/origin.rs and src/tunnel.rs use of the crates http, url and httparse, and of the network.
-- A text stands for its UTF-8 bytes.
use argo_rust.Base.{ℕ, List, Option, Str, Result}
use argo_rust.CapnpRpc.Bytes.{Bytes}

-- The headers in the order of iteration: a name in lower case, and a value that may be no text.
abbrev pub HeaderMap : Type 0
HeaderMap = List (Str × Bytes)

pub record Uri : Type 0 where
  pub path : Str
  pub path_and_query : Option Str

pub record Url : Type 0 where
  pub scheme : Str
  pub host_str : Option Str
  pub port_or_known_default : Option ℕ

pub record Request : Type 0 where
  pub method : Str
  pub uri : Uri
  pub headers : HeaderMap
  pub body : Bytes

pub record Response : Type 0 where
  pub status : ℕ
  pub headers : HeaderMap
  pub body : Bytes

-- A complete response as httparse reads it.
pub record Parsed : Type 0 where
  pub header_len : ℕ
  pub code : Option ℕ
  pub headers : List (Str × Bytes)

pub record HttpLib : Type 0 where
  -- `HeaderMap::get`, `HeaderMap::insert`, and `Builder::header` for each of a list.
  pub get : HeaderMap → Str → Option Bytes
  pub insert : HeaderMap → Str → Bytes → HeaderMap
  pub from_headers : List (Str × Bytes) → Option HeaderMap
  -- `HeaderValue::to_str`, and the conversion of a `String` to a `HeaderValue`.
  pub to_str : Bytes → Option Str
  pub header_value : Str → Option Bytes
  -- `StatusCode::from_u16`, as the code itself, and its `Display`.
  pub from_u16 : ℕ → Option ℕ
  pub show_status : ℕ → Str
  pub parse_uri : Str → Option Uri
  pub parse_url : Str → Option Url
  -- `httparse::Response::parse`: an error, `none` for a partial response, or the response.
  pub parse_response : Bytes → Result Str (Option Parsed)
  -- A connection to `host:port` on which the bytes are written and all bytes are read.
  pub exchange : Str → Bytes → Result Str Bytes
