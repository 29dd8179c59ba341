-- ===== src/Lib.antt =====
-- libcfd: a client for Cloudflare tunnels. It finds the edge by DNS, connects over QUIC or HTTP/2,
-- registers the tunnel by an RPC exchange on a control stream, serves the streams that the edge
-- opens from the user's origin handlers, and reconnects.
--
-- The parts and the files:
--   Prelude             library names, Boolean tests, lists, results, machine words and texts
--   Rpc/Io              rpc/src/io.rs: framed messages on a byte stream. A stream is the list of the
--                       answers of its next polls, so every cut into chunks is covered
--   Rpc/Client          rpc/src/rpc.rs: the client of a control stream. Messages stand as the values
--                       that Cap'n Proto's accessors give; Rpc/Client/Monitor is the peer's view
--   Rpc/Server          rpc/src/cloudflared.rs: the server of the edge's calls, over the bytes of its
--                       stream in Rpc/Server/Wire; Rpc/Incoming is the summary of a message that
--                       rpc/src/rpc.rs offers to other servers
--   Rpc/Tunnel          rpc/src/tunnel.rs: the typed registration calls, on Rpc/Client
--   Edge/Control        src/edge/control.rs: the registration, on Rpc/Tunnel
--   Edge/Configuration  src/edge/configuration.rs: the configuration pushes that Rpc/Server hands on
--   Edge/Connector      src/edge/connector/mod.rs, options.rs and backoff.rs: the reconnecting loop,
--                       over the rounds that the world gives it; Edge/Connector/Trials builds the
--                       connections of each round and runs them by Edge/Runtime
--   Edge/Runtime        src/edge/connector/runtime.rs: what a connection's run ends with
--   Edge/Discovery      src/edge/discovery.rs: DNS names, SRV responses and the list of edges;
--                       Edge/Discovery/Resolvers is the lookup over the resolvers
--   Edge/H2             src/edge/h2: the loop of an HTTP/2 connection, the byte streams over its bodies,
--                       the handlers, the headers and the task of the control stream, which takes its
--                       steps with the loop in Edge/H2/Session
--   Edge/Event          src/edge/event.rs: the event of the shutdown
--   Edge/Quic           src/edge/quic/quiche: the shared state of a QUIC connection, its streams and
--                       wakers, and the driver; the operations of its tasks come in any order;
--                       src/edge/quic/quinn.rs: the outcome of an accept and a stream's halves
--   Edge/Serve          src/edge/serve.rs: the streams of the edge, from their signature to the
--                       origin's answer; Edge/Drain is the drain of an unread request body
--   Rpc/Quic            rpc/src/quic.rs: the connect requests and responses on such a stream
--   Origin              src/origin: the handlers, bodies, the pump between two streams, and the
--                       origin over an axum router
--   Tunnel              src/tunnel: tunnel identities, tokens, and the creation of a quick tunnel:
--                       Tunnel/Quick is its request, Tunnel/Quick/Response the answer's parser
--   Witnesses           the theorems at concrete inputs
--
-- Asynchronous code is a function of what its awaits answer: lists of polls, of events of a
-- `select!` or of rounds. Numbers are natural numbers with the wrap or saturation of the source
-- written out. JSON, base64, UUIDs, the lossy text conversion, host lookups and the release of
-- HTTP/2 capacity are parameters, as are quiche's operations, the http crate's checked texts and
-- the sockets of the quick-tunnel client.
--
-- Fuel: the loops over DNS names run on fuel, and the copy of an axum body, where the polls and
-- bytes to come are enough. `skip_name` gets one unit more than the message
-- has bytes, and each turn goes forward by a byte; `decode_name` takes its fuel as an argument,
-- since its loop need not end.
--
-- Not modelled: sockets, TLS and the generated Cap'n Proto code (libraries and I/O), quinn's own
-- connections, and a router that panics.
pub mod Edge
pub mod Origin
pub mod Prelude
pub mod Rpc
pub mod Tunnel
pub mod Witnesses
