-- ===== src/Lib.antt =====
-- MeshCompute pools the computers of many people to serve language models. This library models the
-- parts that decide: the credit ledger and the frames of the wire protocol
-- (packages/protocol/meshcompute_protocol), the scheduler, the link graph, the rendezvous, the
-- database and the application of the control plane (apps/control-plane/meshcompute_control), the
-- routing and the sessions of the gateway (apps/gateway/meshcompute_gateway), and on a node the
-- chunk transfer (node/runtime/meshcompute_runtime), the streams, the STUN client, the fetching of
-- files and the contribution policy (node/daemon/meshcompute_node).
--
-- How they interact: a node announces itself to the rendezvous, which tells it who holds or fetches
-- the content that it wants, and gives tickets to peers; it fetches a file from such a peer in
-- chunks, or from the origin if no other node does. The scheduler reads the nodes' capability
-- records and the link graph and gives an execution plan, which the gateway follows to the backend
-- that answers a session. The work that nodes do comes back as signed receipts; the database stores
-- each once, and a node's chain of ledger blocks credits each to an account. The application of the
-- control plane joins these: its handlers register nodes, take their heartbeats, publish models,
-- call the scheduler with what the database holds, and accept receipts. Large payloads, and the
-- chunks of a model, travel in frames on the streams of a connection.
--
-- Files:
-- Prelude and its children: lists and integers that the automation reads, Python's dicts with their
--   keys, strings, bytes, exclusive or, sorting and comparisons, and results of code that raises.
-- Python: floats, as a parameter with the operations that the program uses. No theorem depends on
--   how floats round; what one needs of their order is a hypothesis.
-- Protocol/Json, Identity, Receipts, Content: canonical_json of identity.py, printed in full;
--   NodeIdentity, verify and verify_json with Ed25519, BLAKE3 and base64 as a parameter; the
--   receipts of receipts.py; the chunk ids of content.py. The models of pydantic are records, and
--   model_dump is written out.
-- Ledger/Merkle, Block, Chain: ledger.py. verify_block is check_header, then check_entries, each
--   check in the order of the code; ChainFault names the place that raises a ChainError, and
--   value_error is the ValueError of a key that cannot be read. An operation gives the new state,
--   so an error leaves the state as it was. A set of nonces is a list. merkle_root halves a level
--   in each round; the number of entries is fuel enough. Ledger/Minting, Nonces, Tamper,
--   Replication, Production, Balances and ForkChoice prove the results.
-- Frames/Struct, Frame: struct's pack and unpack, and encode and decode of frames.py in full. The
--   session id is given as its bytes; zlib is a parameter. Frames/RoundTrip and Bounds prove.
-- Scheduler/Topology, Node, Cost, Assign, Plan: topology.py; the fields of capability.py,
--   manifest.py and session.py that are read; scheduler.py. Each stage of Scheduler.plan is a
--   function on the lists of candidates and of rejections. The texts of the decision trace, which
--   nothing reads, are left out, and a rejection is kept by what it names. Scheduler/Feasible,
--   Best, Layers and Links prove.
-- Rendezvous/Peers, Tracker: rendezvous.py with the messages of api_models.py. The queues of a
--   relay are lists of what waits; the session id of a ticket is an argument. Rendezvous/Leader,
--   Roles, Tickets and Takeover prove.
-- Store/Tables: store.py, each table as a dict or a list of rows and each method as a function, in
--   place of the SQL. Store/Replay and History prove; History takes any sequence of writing calls.
-- Control/Read, Requests, Nodes, Catalog, Scheduling, Receipts, Meetings, Relay: app.py, a function
--   for each handler of create_app, from the state that it closes over (App) and a request to the
--   new state and the answer, or to the fault that an HTTPException carries. The clock, the fresh
--   nonces, ids and the member that set.pop takes are arguments. Read is how JSON of the database is
--   read; Relay has the turns of the four tasks of a relay, in any order. Control/Steps is the
--   relation of the states that sequences of requests reach, which Served inverts. Control/Trust,
--   Buckets, Accounts, Credit, Assigned, Scanning, Versions and Delivery prove.
-- Swarm/Seeder, Leecher, Handshake: node/runtime/meshcompute_runtime/swarm.py, seed_file, leech_file
--   and serve_chunk_stream. A stream is the list of the frames that arrive, the file and its sidecar
--   are values, and an error carries the state that it leaves. Retries are the structural argument.
--   Swarm/Digest, Resume, Exchange and Transfer prove, with Written on what is on disk.
-- Contribution/Controller, Budgets: node/daemon/meshcompute_node/contribution.py, the idle test,
--   the controller's tick, and the resource budgets. Contribution/Gate proves.
-- Gateway/Router: apps/gateway/meshcompute_gateway/router.py with the settings that it reads. The
--   answers of the control plane and of the backend are arguments. Gateway/Routing and Serving
--   prove.
-- Gateway/Sessions, Posting, Relaying: app.py of the same directory, the native sessions with their
--   logs, kept in three dicts, the messages to them, and the way of the backend's chunks to the
--   client. The clock, fresh ids, the route and the chunks are arguments. create_session forgets one
--   session in each round, so their number is fuel enough. Gateway/Kept, Changes, Conversation and
--   Relayed prove.
-- Daemon/Wire: node/daemon/meshcompute_node/transport_quic.py, the frames of a stream, the dispatcher
--   of the streams that a peer opens, and the check of a ping. A reader is the list of the bytes that
--   arrive before the stream ends. Daemon/Delivered and Pings prove.
-- Daemon/Stun: stun.py of the same directory, with what the servers answer as an argument. The loop
--   over the attributes advances by four bytes or more in a round, so the length of the body is fuel
--   enough. Attributes, Masks and Responses lay messages out; Daemon/Reflexive
--   and Answers prove.
-- Daemon/Fetch: daemon.py of the same directory, PeerSwarm.fetch: the rounds of the tracker, the peers
--   of a round and the deadline, with what each address gives as an argument. Daemon/Fetched proves.
-- Sample and the Tests modules: small instances of the parameters, and runs.
--
-- All other loops are structural, so no other fuel is used. Not modelled: the list of models and the
-- settings of the gateway, the command line, the daemon's connections, its choice of a model and its
-- readings of the operating system, the installer and the backends; they are mostly input and output
-- around these parts.
--
-- Exceptions that the models leave out: the OverflowError of a float of an integer that is too large
-- (credit_for_receipt, the predictions and kv_allowance), the ZeroDivisionError of a prediction, the
-- IntegrityError of a ledger row whose amount is NaN, which stops submit_receipt behind put_receipt,
-- and the ValueError of a seeder's frame above MAX_PAYLOAD. The definitions give the values that the
-- code gives where none of these is raised.
pub mod Prelude
pub mod Python
pub mod Protocol
pub mod Ledger
pub mod Frames
pub mod Scheduler
pub mod Rendezvous
pub mod Store
pub mod Sample
pub mod Swarm
pub mod Contribution
pub mod Control
pub mod Daemon
pub mod Gateway
