-- ===== src/Lib.antt =====
-- A model of the core of hardy, a bundle protocol agent for delay-tolerant networking (RFC 9171), with
-- the theorems that make it correct.
--
-- The program and its parts. Bundles are CBOR items that the crate cbor reads and writes. They are sent
-- between endpoints (bpv7/src/eid/mod.rs), which the agent's routes select by patterns (eid-patterns). The
-- agent (bpa) keeps bundles in storage, moves them through channels that spill to storage, puts fragments
-- together, drops what has expired, and looks up where a bundle goes next. The crate tcpclv4 carries bundles
-- between agents over TCP.
--
-- Which file models what:
-- - Prelude: the names that all files share, tests on numbers and lists measured by them.
-- - Cbor: cbor/src. Cbor/Item has the data of decode/head.rs, Cbor/Minor its integers, Cbor/Head
--   `Head::from_cbor` with its path for at least nine bytes and its slow path, and Cbor/Encode the
--   `Encoder` of encode.rs. A panic and the end of the fuel are values of `Result` of their own.
-- - Eid: bpv7/src/eid/mod.rs, endpoint identifiers, node identifiers and their conversions. Eid/Text has the
--   text of a node identifier, and the parsers of bpv7/src/eid/parse.rs.
-- - Bpv7: bpv7/src/dtn_time.rs and creation_timestamp.rs. Bpv7/CreationTimestamp/Steps has the atomic
--   accesses of `CreationTimestamp::now` in any interleaving; a load that may be stale reads any value.
-- - EidPatterns: eid-patterns/src. EidPatterns/Ipn is ipn_pattern.rs, with the merging of intervals that
--   its parser does, EidPatterns/Dtn is dtn_pattern.rs, and EidPatterns/Pattern is lib.rs: items and
--   unions, built with the feature dtn-pat-item.
-- - Bpa/NodeIds: bpa/src/node_ids.rs.
-- - Bpa/Channel: bpa/src/storage/channel.rs. `System` is the shared state; `send_step`, `poll_step` and
--   `close_step` are one atomic access each of `Sender::send_to`, of `Store::poll_queue` with `poll_once`,
--   and of `Sender::close`. Bpa/Channel/Steps interleaves any number of calls with the poller, the
--   receiver, the closing, the shutdown and other writers of the store.
-- - Bpa/Reassembly: bpa/src/storage/adu_reassembly.rs, `poll_fragments` and `reassemble` up to the bytes of
--   the ADU.
-- - Bpa/Routing: bpa/src/routing/table.rs and action.rs: the sorted maps of the table, their changes, and
--   in Bpa/Routing/Find the lookups.
-- - Bpa/Metadata: the metadata store in memory, bpa/src/storage/metadata_mem.rs, with the status of a bundle
--   (bundle/status.rs) and its expiry (bundle/mod.rs). Bpa/Metadata/Store has each method as one step under the
--   store's lock, with the evictions, the counters and the watermarks. Bpa/Metadata/Operations has the calls of
--   the trait in storage/backend.rs, and what they promise of a map from ids to live bundles and tombstones.
-- - Bpa/Reaper: bpa/src/storage/reaper.rs. The set of entries is a list in their order; Bpa/Reaper/Steps
--   interleaves the task of `Reaper::run` with the calls of `watch` and the rows of a refill.
-- - Tcpclv4: tcpclv4/src/codec.rs. Tcpclv4/Wire has the reads of `BytesMut` with their outcomes, also those that
--   panic; a module of Tcpclv4/Codec for each message has its data, flags and reason codes, `encode` and
--   `decode`, and Tcpclv4/Codec/MessageCodec the codec that chooses among them.
-- - The modules named Runs hold runs on concrete values.
--
-- Bounds and fuel. A `usize` has 64 bits. The loop over tags has fuel for each byte and one more, and the
-- decoder is shown equal to one that reads byte by byte. `find_recurse` has fuel for the depth of its
-- recursion; the number of the table's targets and two more is shown to be enough. The loop over extension
-- items has fuel for each octet of their announced length and one more, which is shown to be enough. The
-- lengths that an encoder writes wrap at 16 or 32 bits. The counters of the metadata store wrap at 64 bits, and
-- a number that `CreationTimestamp::now` issues stops at the last of 64 bits.
--
-- Parameters: the floating-point conversions (`Floats`), the crate glob (`Globs`), the query of pending
-- bundles that a storage backend implements (`Storage`, with its contract), the loads of stored data
-- (`Store`), the orders that the compiler derives (`Orders`, `IdOrders`), the crate lru with the behaviour
-- that it documents (`LruCache`), the parsers and the percent decoding of the crates winnow and
-- percent_encoding (`TextCrates`), and what is read of a date of the crate time (`Instants`). The time at
-- which a method of the store or of the reaper runs is an argument.
--
-- Not modelled: the series and values of the CBOR decoder, the CBOR form of endpoints, the text forms of
-- patterns, the display of endpoints with services, the codec of bundles and their security blocks, the
-- rewriting of a reassembled bundle, the dispatcher, what the reaper does with an expired bundle, the
-- sessions of tcpclv4 and the other convergence layers, the storage of payloads and the storage in
-- databases, the time-variant routing agent, and the server around the agent. In Bpa/Channel the time does
-- not pass: whether a bundle has expired is a fixed test; the bounded buffer is that of the crate flume; a
-- receiver that is dropped is left out. In Bpv7 a call of `now` returns in the step of its exchange. A
-- length that an XFER_SEGMENT announces is taken as a `usize` of 64 bits. Texts are lists of bytes.
pub mod Prelude
pub mod Cbor
pub mod Bpv7
pub mod Eid
pub mod EidPatterns
pub mod Tcpclv4
pub mod Bpa
