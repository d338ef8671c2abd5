-- ===== src/Lib.antt =====
-- The OTAP protocol library: a model of the Rust crates under crates/ and what holds of them.
--
-- OTAP carries application messages as optical Transients. An application posts work requests to a
-- send queue; the soft driver (crates/otap-obg) encodes them (crates/otap-codec) with a sequence
-- number and a polarization trajectory that is derived from a shared secret (crates/otap-crypto); the
-- receiving driver checks the wavelength, dispatches the payload by its OAM mode to a schema
-- (crates/otap-schema), verifies the trajectory and pushes a completion. The driver is configured
-- from a register file that the FPGA shares (crates/otap-csr). crates/luxstream-otap-d3 adds an
-- authenticated envelope: a handshake over a byte stream, checksummed and signed frames, and a
-- persistent replay cache. crates/otap-modq is the other way to the hardware: a ring of slots in the
-- memory that host and FPGA share. crates/otap-fabric joins two drivers by channels of crates/otap-sim,
-- and crates/otap-flr-client programs a register file from the registry of schemas. The programs of
-- crates/otap-cli put these parts together.
--
-- Files and the code that each is about:
--   Common, Common/      lists, results, tests, bits, bytes and slices, the layout of a buffer
--                        that fields are copied into, integers over the native numbers
--   Core/                crates/otap-core: Error, Float (the f32 operations as a parameter),
--                        Dimensions, Grid, Stokes (samples and the winding number) with Angle, Transient
--   Crypto/              crates/otap-crypto: Secret, Hmac (a parameter), Trajectory
--                        (derive_trajectory), Verify (verify_trajectory), Label (the key of the
--                        demonstration); Match and Preimage reason about them
--   Schema/              crates/otap-schema: Interface (the trait and its laws), EquityOrder,
--                        MarketTick, Heartbeat, each with a Wire file on its layout, Registry
--                        (SchemaId, AnySchemaValue) and Registry/Dispatch
--   Codec/               crates/otap-codec: Encoder, Decoder; RoundTrip and Sequence
--   Csr/                 crates/otap-csr: Registers (read_u32, write_u32), Writer, View; Access,
--                        Lanes, PayloadTable, OamTable, Secret and Channel reason about them
--   Obg/                 crates/otap-obg/src/lib.rs: Queues, Driver, Arm; QueueLaws, Armed, Loopback
--                        and Endpoint (modq_backend.rs) with Numbering
--   D3/                  crates/luxstream-otap-d3: ReplayCache (replay_cache.rs) with Ring, Window,
--                        Restart and Opening, Rpc (rpc.rs), Keys (key_domain.rs), Session
--                        (session.rs) with Seal and Preimage, Handshake (handshake.rs) with Wire
--                        and Agreement, Transport (transport.rs) with Streams,
--                        Honest and Exchange
--   Modq/                crates/otap-modq: Bar (bar.rs) with Words, Ring (ring.rs) with Geometry,
--                        Slots (the invariant), Device (an FPGA that completes, in the protocol
--                        of poll), Waits (any device), Spin, Fill, Enqueue and Unchecked, Queue
--                        (lib.rs) with Submission, Polling, Steps, Answer, Freed and Opened,
--                        Consumer (the loops of src/bin that stand for the FPGA) with Served (the
--                        invariant), Serving, Runs, Loopback, Waiting and Simulated, Programs
--                        (the rest of src/bin) with Accepted, Opened, Ordering and Bench
--   Flr/                 crates/otap-flr-client: Flr, with Url, Utf8, Escapes, Handles, Tables,
--                        Refresh and Defaults
--   Sim                  crates/otap-sim
--   Fabric/              crates/otap-fabric: Fabric, with Arrivals and Pump
--   Cli/                 crates/otap-cli: Cli and Link (what the programs share), Demo (main.rs)
--                        with Scenarios, Local (bin/otap-local.rs) and Fullstack
--                        (bin/otap-fullstack.rs), each with Delivery, ModqDemo
--                        (bin/otap-modq-loopback.rs) with Numbering
--   Tests/               concrete values, and the theorems applied to them
--
-- Correspondence. A method with `&mut self` is a function that returns the new state beside its
-- result, or the state alone where it cannot fail. Results are values of `Result`, with an error
-- type that has the source's variants, or one variant for each message where the source returns
-- text. An unsigned integer is a native number, with its bound as a predicate (IsOrder, IsChannel,
-- …) and its wrap-around written out; `i8` and `i64` are integers with their two's complement
-- bits. Arrays and byte vectors are lists of numbers. Private helpers that split a source function
-- (put_half, drain, load, …) are named beside it.
--
-- Parameters. HMAC-SHA256, SHA-256, Ed25519, P-256, the comparison of the crate subtle, the file
-- operations, shared memory and maps, HTTP and JSON, the f32 and f64 arithmetic are not in the
-- repository: they are records of operations that the definitions take, and what is relied on is a
-- named hypothesis (Works, IsEquality, Signs, Unforged, MapsWhole, Arithmetic, KeepsSize, Reads,
-- Whole). The bytes of the generator for a nonce, the bytes that arrive on a stream, what the FPGA
-- does to the shared memory while the host waits, and what the registry answers in each round of the
-- refresh loop are arguments.
--
-- Bounds and fuel. Loops over arrays run by the number of elements left. The two loops of
-- winding_number_s3 that bring an angle difference into range run on wrap_fuel = 2 rounds each; a
-- difference of two results of atan2 that are numbers lies between -2π and 2π, so one round is
-- enough. The loop of PersistentReplayCache::open is bounded by the capacity, as in the source. The
-- loop of TxRing::submit has the limit of the source, max_spins rounds; that of submit_unchecked
-- has none, so the rounds that it waits are an argument, with no result where they are not enough.
-- The loop of the programs that polls a completion queue runs one round more than the queue has
-- completions, which ends it. A code point has at most six hexadecimal digits and an i32 at most
-- ten decimal ones, for which the texts of a URL have fuel.
--
-- Not modelled: the values of f32 and f64 results, texts and debug output, memory fences, the byte
-- order of hosts that are not little-endian, derived JSON forms, what the programs print and
-- measure, and the parts of the repository in other languages (flr, stage-chronos, rtl).
pub mod Common
pub mod Core
pub mod Crypto
pub mod Csr
pub mod Schema
pub mod Codec
pub mod Obg
pub mod D3
pub mod Modq
pub mod Flr
pub mod Sim
pub mod Fabric
pub mod Cli
pub mod Tests
