-- ===== src/Lib.antt =====
-- NPT, a tester of network forwarding: clients that produce traffic of several kinds, servers that
-- answer it, and a probe (ci) that tests forwarded ports against an echo server and gives a verdict.
-- This library models its logic: the wire format, the echo server, the runs of the probe and their
-- verdicts, the client's choice of a server with its health and failover, the sessions of client and
-- server over TCP and QUIC, the collector of metrics, the report, and the log buffer.
--
-- How the parts interact: the client's connections ask the server pool for an address, connect with
-- failover, and report to the pool what came of it, while health checks report on their own; every
-- connection records into the metrics collector, which the interface and the report sample. The ci
-- probe sends frames and datagrams of the ci protocol through a forwarded port to the echo server;
-- its watchdog looks at the flows' shared state, finalize turns that state into metrics, evaluate
-- gives the verdict on them, and the summary counts the verdicts and sets the exit code.
--
-- Files and the code that they model:
--   Prelude and its children: what all parts share; Words (u32 and u64 that wrap round), Bytes
--     (little-endian numbers, read_exact), Float (f64 as a parameter without laws), Sums (u64 sums),
--     Table (a concurrent map as its entries in iteration order), Result (error values and `?`).
--   Ci/Protocol: ci/src/protocol.rs. A stream is its bytes and the way it ends; RoundTrip has the
--     proofs on encode, read, encode_udp and decode_udp.
--   Ci/Server: ci/src/server.rs. tcp_echo, udp_echo, and the accepting loop as a list of events;
--     Echo has the proofs.
--   Ci/Client: ci/src/client.rs. The shared state of a run and one turn of each flow's reader and writer
--     (flow_step); Watchdog has the stall watchdog and runs as lists of steps, Summary finalize,
--     rtt_summary and the throughput sampler. Counting, Stalls, Turns, Breaks and Caps
--     have the proofs.
--   Ci/Detect, Ci/Report: ci/src/detect.rs and ci/src/report.rs. The verdict on a port, and the summary
--     of a run with its exit code.
--   Ci/Config, Ci/Panel, Ci/Archive: ci/src/config.rs, ci/src/panel.rs and ci/src/archive.rs. What the
--     panel's client makes of an answer, and the files written for a port that failed; Archive/Names
--     has the proofs on their names.
--   Ci/Suite: ci/src/main.rs. A run over the ports, from the configuration to the exit code; Legs has the
--     proofs on one port, Files those on its artifacts, Exit those on the run.
--   Shared/Config: shared/src/config.rs.
--   Shared/Protocol: the data of shared/src/protocol.rs.
--   Shared/LogBuffer: shared/src/log_buffer.rs. History has the proofs on the buffer and the file
--     channel, Message those on the visitor that takes the message out of an event.
--   Shared/Metrics: shared/src/metrics.rs, its samples in Metrics/Sampling. Connections has sequences
--     of operations; Activity, Errors and Throughput have the proofs.
--   Shared/Report: shared/src/report.rs, with its percentiles in Report/Latency, the performance in
--     Report/Performance and the errors in Report/Recent. Bands, Ranks, Kinds and Generated have the
--     proofs.
--   Wire: the messages of client/src/tcp_client.rs and server/src/tcp_server.rs on a connection, and the
--     programs that both are written as; RoundTrip and Progress have the proofs.
--   Client/TcpClient, Server/TcpServer: the sessions of client/src/tcp_client.rs and the handlers of
--     server/src/tcp_server.rs. Programs, Chunks, Download, Accounting and Lifecycle have the proofs.
--   Client/QuicClient: client/src/quic_client.rs. Leaks has the proofs on what a session leaves, Exchange
--     those on a request and its answer.
--   Server/QuicServer: server/src/quic_server.rs. Sessions and Ownership have the proofs.
--   Client/Simulator: the users of client/src/simulator.rs; Users has the proofs on the count of the active
--     users, Sessions those on a user's session.
--   Client/Tui: the state behind the panel of client/src/tui.rs; Histories has the proofs on the charts, Logs
--     those on the log.
--   Client/ServerPool: client/src/server_pool.rs. Selection and RoundRobin have the proofs on the
--     choice of a server, Health those on the thresholds, Accounting those on the pool as a whole.
--   Client/Failover: connect_with_failover of client/src/tcp_client.rs; Trace has the proofs.
--
-- How state and time are modelled: a component's state is a record, an operation a function on it by
-- the name that the source gives it. What the program gets from outside (the time, new UUIDs, random
-- numbers, whether a connection is reached, the bytes that a peer sends) is an argument. Atomics and
-- locks: each operation is one step, and theorems on sequences of steps hold for every interleaving.
-- In the probe client a step is one turn of a task's loop, from the answer of the network to the next
-- wait; the single atomics inside a turn are not interleaved.
-- A map of the source has an order that its hash decides; here the place of a new key is an argument,
-- so that every order can arise.
--
-- Bounds and fuel: u32 and u64 counters wrap round at 2^32 and 2^64 where the source adds with
-- fetch_add or in a release build. A loop that ends when its stream does runs on fuel; more than
-- the stream has bytes is enough, since each turn consumes a header of 24 bytes; the proof is in
-- Ci/Server/Echo. A user's loop has fuel for one turn in each millisecond of its session, since a turn
-- sleeps for one at least. The failover loop makes at most 3 attempts. A panic
-- on an index is the result `none`; a panic on an empty range, of which a number is to be drawn, ends a
-- session with `panicked` and the user's task with it, as it stands. A connection takes so many
-- bytes or messages before writing fails, which it may do inside a frame or a message.
--
-- Not modelled: sockets, files, terminals, TLS and the QUIC library, the clock, the parsing of JSON and
-- TOML, and HTTP, which are input and output; and, of the logic, the rendering of the report, the
-- command lines, the drawing of the panels, and the panel of the server, which is the client's with
-- one history more.
pub mod Ci
pub mod Client
pub mod Prelude
pub mod Server
pub mod Shared
pub mod Wire
