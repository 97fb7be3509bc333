-- ===== src/Lib.antt =====
-- A model of the operator of the AOS network: the node that takes jobs from a dispatcher, draws
-- with a verifiable random function whether it is selected for them, has them answered by TEE
-- workers or OPML servers, and returns the answers with a logical clock.
--
-- The parts, each in a module with its proofs below it:
--   Shared     natural numbers, texts, maps, hexadecimal and decimal text, results with panics,
--              and the arithmetic of machine words in checked and in wrapping builds
--   Clock      crates/common/src/ordinary_clock.rs, the vector clock. A clock is a BTreeMap, a
--              sorted list of entries.
--   Config     operator/node_api/src/config.rs and error.rs, crates/tools/src/helper.rs, and
--              construct_node_config of operator/runer/src/cli/operator.rs
--   Vrf        crates/vrf (ecvrf.rs, traits.rs, sample.rs) and operator/runer/src/api/vrf_key.rs. The
--              curve, the hash and the hexadecimal crate are parameters with their laws.
--   Signer     crates/signer/src/msg_signer.rs, over the crates that sign and hash
--   Websocket  crates/websocket/src/lib.rs: the messages, the state that both ends of a
--              connection share (WsCoreSync and the callback map), and its operations. An
--              operation is cut where the code awaits; each part is one step, and Event lists
--              the steps. The callers' channels are numbered as they are made. JSON keeps a
--              message but for values that are null, which are read as missing, and is only relied
--              on for values without floating point numbers and of bounded depth.
--   Hub        operator/verify_hub: the channels on which questions wait, the handlers, cut the
--              same way, and the workers.
--   Jobs       operator/runer/src/api/msg.rs and msg_handler.rs, error.rs, and sinker_job of
--              storage.rs: the work on one job (Work), the loop over the queue, the connection to
--              the dispatcher and the tasks that each connection starts (Dispatch), which may end in
--              any order. The workers, the contract, floats and serde_json are parameters.
--   Cli        operator/runer/src/cli: the command line, with the address of the database, and how a
--              run ends
--   Storage    the insertions of operator/runer/src/storage.rs, and the tables of
--              operator/db_sql/src/pg/migrator; Setup has setup_db of pg_client.rs. The database
--              and its server are parameters: a database keeps to the constraints of its tables, and
--              a statement that fails changes nothing. Their laws are on plain names of databases and
--              on addresses of a server without a path and a query.
--   Signature  crates/alloy-wrapper/src/signature.rs, without the feature optimism, and the signing
--              and the recovery of util.rs. The RLP of integers and the curve are parameters.
--   Crypto     crates/common/src/crypto/core.rs and recovery.rs: digests, keys of three kinds, and
--              public keys recovered from signatures, over the crates that hash and sign
--   Queue      operator/runer/src/queue/msg_queue.rs, over an interface of a Redis stream (XADD,
--              XREAD, XDEL), and the queue in the order of arrival that it implements
--   Share      crates/tools/src/rw_share.rs, over a lock with timeouts
--   Node       operator/runer/src/node_factory.rs and operator.rs, and Storage::new: how the operator
--              is made of its configuration
--
-- Cli loads a configuration with Config, makes the operator with Node, and connects to the
-- dispatcher. The websocket carries what Signer signs and brings the jobs, which wait in Queue; a
-- job computes the VRF, asks the hub, and returns a clock of one entry.
--
-- The loop of hash_to_curve runs on 256 rounds of fuel, one for each value of its counter byte.
-- The loop of recv_inner is recursion on the frames that are still to come, the wait for a worker
-- recursion on the attempts that are left, and the loop over the queue recursion on the rounds.
-- trim_end_matches runs on the length of the text as fuel, of which each round takes some.
--
-- A panic is an outcome of its own. What the code awaits (sockets, HTTP, timers) is an argument:
-- how a send ended, which frame came, whether the time is over. A step is atomic: the steps
-- interleave in any order, the code between two awaits does not. Not modelled: the sockets and the
-- HTTP server, logging, and the generation of keys but for Crypto.
pub mod Shared
pub mod Clock
pub mod Config
pub mod Vrf
pub mod Signer
pub mod Websocket
pub mod Hub
pub mod Jobs
pub mod Signature
pub mod Crypto
pub mod Queue
pub mod Node
pub mod Storage
pub mod Cli
pub mod Share
