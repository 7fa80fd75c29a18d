-- ===== src/LocalProxy.antt =====
-- src/proxy.rs: the local TCP proxy. The URL reader and the connections are arguments; the bytes that
-- are copied are not modelled.
use argo_rust.Base.{ℕ, List, [], ◌∷◌, ◌++◌, some_or, Str, Result, ok, err, codes, decimal}
use argo_rust.Http.{Url}

-- A connection that `accept` gives: its number, and the address of its peer.
pub record Client : Type 0 where
  pub number : ℕ
  pub peer : Str

pub record ProxyLib : Type 0 where
  pub parse_url : Str → Result Str Url
  -- The outcome of the connection to an address, made for a client.
  pub connect : Client → Str → Result Str (Unit {0})
  pub bind : Str → Result Str (Unit {0})

-- What `accept` answers: a connection, or an error.
pub data Answer : Type 0 where
  connection : Client → Answer
  accept_error : Str → Answer

-- How far the loop is.
pub data Progress : Type 0 where
  returned : Str → Progress
  accepting : Progress

-- What a task does, in order: it connects to an address, it copies between the client and that
-- connection until one direction ends, it logs a line.
pub data Event : Type 0 where
  connects : Str → Event
  copies : Client → Str → Event
  logs : Str → Event

-- The events of a connection to an address.
abbrev pub connected : Client → Str → Result Str (Unit {0}) → List Event × Result Str (Unit {0})
connected client address (err e) = (connects address ∷ [], err e)
connected client address (ok upstream) = (connects address ∷ copies client address ∷ [], ok tt)

-- The line that the task of a connection logs behind what it did.
abbrev pub logged : Client → List Event × Result Str (Unit {0}) → List Event
logged client (events, ok u) = events
logged client (events, err e) =
    events ++ logs (codes "Proxy error from " ++ client.peer ++ codes ": " ++ e) ∷ []

-- The address of a target: what the URL leaves out is the local host, or port 80.
abbrev pub address_of : Url → Str
address_of parsed =
    let host = some_or parsed.host_str (codes "127.0.0.1") in
    let port = some_or parsed.port_or_known_default 80 in host ++ codes ":" ++ decimal port

module _ (lib : ProxyLib) where
  unfoldable pub proxy_conn : Client → Str → List Event × Result Str (Unit {0})
  proxy_conn client target = elim (lib.parse_url target) [
    | err e ↦ ([], err e)
    | ok parsed ↦ connected client (address_of parsed) (lib.connect client (address_of parsed))
  ]

  -- The loop over what `accept` answers: the events of each spawned task, and how far the loop is.
  unfoldable pub accept_all : Str → List Answer → List (List Event) × Progress
  unfolding proxy_conn
  accept_all target [] = ([], accepting)
  accept_all target (accept_error e ∷ rest) = ([], returned e)
  accept_all target (connection client ∷ rest) =
      let (tasks, end) = accept_all target rest in
      (logged client (proxy_conn client target) ∷ tasks, end)

  unfoldable pub run_proxy : ℕ → Str → List Answer → List (List Event) × Progress
  unfolding accept_all
  run_proxy port target answers = elim (lib.bind (codes "0.0.0.0:" ++ decimal port)) [
    | err e ↦ ([], returned e)
    | ok listener ↦ accept_all target answers
  ]

-- The connections, and what `accept` answers later.
abbrev pub connections : List Client → List Answer → List Answer
connections [] rest = rest
connections (client ∷ clients) rest = connection client ∷ connections clients rest

-- What the task of a client does for a target that reads as a URL: it connects once, to the address
-- of the URL, and copies, or logs the peer and the error of that connection.
abbrev pub relayed : Client → Str → Result Str (Unit {0}) → List Event
relayed client address (ok upstream) = connects address ∷ copies client address ∷ []
relayed client address (err e) =
    connects address ∷ logs (codes "Proxy error from " ++ client.peer ++ codes ": " ++ e) ∷ []

abbrev pub relays : ProxyLib → Url → Client → List Event
relays lib url client = relayed client (address_of url) (lib.connect client (address_of url))
