-- ===== src/Lib.antt =====
-- The tunnel client: it reads a token and ingress rules, connects to the edge over HTTP/2, registers
-- the tunnel by Cap'n Proto messages on a control stream, and answers the edge's requests from local
-- origins. The development models the program's own logic; crates and the network are arguments.
--
-- The parts, by file from the repository's root, and the modules that model them:
--   src/config.rs: Config. The token's credentials over three base64 engines and a JSON reader
--     (Config/Token), the rules with `matches` and `status_code` (Config/Rule), their theorems
--     (Config/Credentials, Config/Matching).
--   src/ingress.rs: Ingress. Loading, validation, resolution and the printed lines (Ingress/Rules), file
--     names (Ingress/FilePath), the reload task as a relation on tables (Ingress/Reload), and what a
--     request finds in a table (Ingress/Resolve).
--   src/capnp_rpc.rs: CapnpRpc. Words and bytes (CapnpRpc/Bytes), the segment builder as a monad on its
--     words in which an access out of bounds is `none` (CapnpRpc/SegBuilder), the encoders
--     (CapnpRpc/Encode) and the decoder with its panics (CapnpRpc/Decode). CapnpRpc/Wire is a reader
--     written from the encoding's definition, against which both are measured.
--   src/h2_stream.rs: H2Stream. A stream of h2 is the sequence of its answers.
--   src/edge.rs: Edge. The resolver and the random order are arguments.
--   src/origin.rs: Origin, over Http, the record of what is used of http, url, httparse and the
--     network.
--   src/tunnel.rs: Tunnel. The start (Tunnel/StartUp), the loop that connects again (Tunnel/Retry),
--     the loop that accepts requests and the control stream (Tunnel/Serve, Tunnel/Served), the
--     control stream with the registration in place (Tunnel/ControlStream), a proxied request
--     (Tunnel/Proxy) and its helpers (Tunnel/Headers), and what an origin gets of it (Tunnel/Sent). `rpc_register` is in Rpc (Rpc/Request, Rpc/Register), the root store of the
--     TLS configuration in Certificates. Of the answer to the edge the head and the body are
--     modelled, and not how h2 sends them.
--   src/tunnelrpc_capnp.rs: Schema. The layout module of the crate capnp is the record Layout, with
--     the laws that a built message reads back in Schema/Writes and one instance in Schema/Memory. A
--     module per struct has the reader (Schema/ClientInfo), its children the builder, the encoded
--     schema (Described) and what the writes do (Written). Schema/Node reads an encoded schema, from
--     schema.capnp. Schema/RegistrationServer, Schema/SessionManager, Schema/ConfigurationManager and
--     Schema/CloudflaredServer have the requests, the traits of a server and the dispatch.
--   src/capnp_params.rs: Rpc/Params, read back with the request of `rpc_register` in Rpc/Reading.
--     Rpc/Answered is the registration against a server of the generated interface, and Rpc/Encoded
--     reads what src/capnp_rpc.rs writes by those accessors, where a message in one segment is read
--     by the laws of Rpc/Segment.
--   src/rpc.rs: Payload. src/cf_ca.rs: Certificates. src/proxy.rs: LocalProxy. src/main.rs:
--     CommandLine.
--
-- The parts interact so: CommandLine starts Tunnel with a Config token and an Ingress table, or the
-- LocalProxy; the accept loop of Tunnel answers the control stream, which registers by Rpc over the
-- accessors of Schema, and hands every other request to Ingress and Origin. While the loop waits for
-- the control stream nobody polls the connection; that its streams stand still then is a hypothesis
-- on h2, and a call without an answer an outcome of the model.
--
-- Base holds what all parts share: Boolean tests, lists over native numbers, texts as lists of code
-- points, decimal numbers, `Result`, and bit operations. Tests applies the theorems to concrete
-- inputs. In Http, Origin, Tunnel, CapnpRpc, Schema and Rpc a text stands for its UTF-8 bytes.
--
-- All loops are structural: over lists, over the answers of a stream, or over what `accept` answers,
-- but two on fuel: the digits of `decimal`, which has one more than the number, and the loop of
-- Certificates, which has one more than the bytes of the input, each item taking one at least. A
-- registration over CapnpRpc is taken to have less than 2^25 bytes of texts, which keeps every offset
-- below the 2^29 words that a pointer reaches. A `usize` has 64 bits.
--
-- Not modelled: of src/tunnelrpc_capnp.rs the messages and the dispatch of TunnelServer, which the
-- program does not use, the parameters of registerUdpSession but their size, the getters that hand out
-- a builder, pipelines and the introspection traits; the constant text of the certificates;
-- the byte copies of src/proxy.rs; clap and the log filter of src/main.rs; src/protocol.rs, a constant
-- that no module uses.
pub mod Base
pub mod Config
pub mod Ingress
pub mod CapnpRpc
pub mod H2Stream
pub mod Edge
pub mod Http
pub mod Tests
pub mod Origin
pub mod Tunnel
pub mod Schema
pub mod Rpc
pub mod Payload
pub mod Certificates
pub mod LocalProxy
pub mod CommandLine
