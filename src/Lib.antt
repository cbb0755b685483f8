-- ===== src/Lib.antt =====
-- A verification library for idnx, a network topology discovery tool whose instances exchange what
-- they found. Paths below are from the repository's root.
--
-- The parts, and the files that model them:
--
-- - Topology: the evidence record that every provider emits (src/topology/evidence.rs) is
--   Topology/Names.antt (the enumerations, `weight`) and Topology/Evidence.antt (`Fact`,
--   `DeviceKey`, `TopologyEvidence`, `from_peer`). `score_role` of src/topology/role.rs is
--   Topology/Role.antt, with its laws in Role/Scoring.antt. src/topology/realm.rs is
--   Topology/Realm.antt, with what its names read back as in Realm/Domains.antt and when they are
--   equal in Realm/Apart.antt.
-- - Federation: src/federation/wire.rs is Federation/Wire: the wire data types (Records.antt, and
--   Records/Fields.antt for `text_fields`), the names of the enumerations (Names.antt to write and
--   Names/Reading.antt to read them), `from_evidence` and `to_evidence` (Convert.antt), and the
--   bytes that are signed (Payload.antt). src/federation/identity.rs is Federation/Identity.antt,
--   src/federation/bundle.rs is Federation/Bundle.antt, and the checks of src/federation/limits.rs
--   and of `check_message` in src/federation/transport.rs are Federation/Limits.antt.
--   src/federation/ledger.rs is Federation/Ledger.antt (`prepare`, cut into `authorise`, `convert`
--   and `reserve`, the stages of its body), Ledger/Decode.antt (its loop over the records) and
--   Ledger/Finish.antt (`split`, `commit`, `abandon`, `restore_cursor`, `accept_immediately`).
--   Ledger/Runs.antt is any interleaving of these calls by several connections.
--   src/federation/source.rs is Federation/Source.antt, with runs of its calls in
--   Source/Handover.antt. The queue of src/federation/relay.rs is Federation/Relay.antt:
--   Relay/Boxes.antt and Relay/Room.antt are about its mailboxes and its loop, Relay/Runs.antt and
--   Relay/Delivered.antt about runs; Relay/Client.antt is a connection to it.
--   src/federation/session.rs is Federation/Session.antt: Session/Agreed.antt is about the handshake
--   and Session/Frames.antt about sealed messages. src/federation/store.rs is Federation/Store.antt;
--   Store/Lives.antt is the processes that use one file, with crashes.
-- - Probes: src/probes/usm_state.rs with the salts of src/probes/usm.rs is Probes/Usm.antt, the
--   checks of an answer and `ReportReason::from_oid` of src/probes/snmp_v3.rs are
--   Probes/Usm/Checks.antt, the parser of src/probes/rip.rs is Probes/Rip.antt, and the table that
--   its `request_table` makes of the datagrams that arrive before its deadlines is
--   Probes/Rip/Table.antt. src/probes/snmp.rs is Probes/Snmp.antt (identifiers and values), with the
--   BER encoders in Snmp/Encode.antt, `Reader` in Snmp/Reader.antt, the decoders in Snmp/Decode.antt
--   and `snmp_request` and `snmp_walk_target` in Snmp/Walk.antt; Snmp/RoundTrip.antt is about the
--   codec, Snmp/Values.antt and Snmp/Varbinds.antt about values and the list of varbinds, Snmp/Inside.antt and Snmp/Turns.antt about
--   what the reader reads of any bytes, Walk/Accepts.antt about the checks of an answer,
--   Walk/Ascends.antt about the rows of any walk and Walk/Complete.antt about a walk over an agent that serves a table;
--   Snmp/Arp.antt is the part of `harvest_snmp_target` that makes the ARP cache.
--   src/probes/inet_route.rs is Probes/InetRoute.antt, against the layout of an index in
--   InetRoute/Layout.antt, and `harvest_inet_routes` is InetRoute/Harvest.antt.
-- - Common: lists, text and bytes, big-endian words, and `HashMap` as an association list.
-- - Examples: the definitions and results at concrete inputs.
--
-- How they interact: a bundle is published from evidence (Bundle over Wire), its receiver checks
-- its limits (Limits), verifies it (Bundle over Identity), and the ledger prepares, commits or
-- abandons it (Ledger over Bundle and Wire). What was committed is delivered to the engine's queue
-- (Source over Ledger), sealed messages travel in envelopes (Session), which a relay holds for
-- peers that are away (Relay), and the engine names the devices of a peer's evidence by their
-- domain (Realm over Evidence).
--
-- The SNMP client asks with the encoder, reads with the decoder, walks over the answers that pass its
-- checks, and the routing table is put together from the rows of such a walk.
--
-- How the code is rendered: a method that changes `self` returns the new record; `?` is a bind or a
-- case on the result; a process that panics in a conversion is an outcome of its own (`panicked`).
-- Text is its UTF-8 bytes. The counters are natural numbers with the `u64` wrap or the saturation
-- written out; times of the monotonic clock are nanoseconds. A `BTreeSet` of role signals is a
-- list, since only its sum and two of its tests are read. A `HashMap` that is iterated over has the
-- order of its list. A lock's critical section is one step; the two sections of `deliver` are one
-- step, since they touch different fields. The relay's clock readings are arguments, in no order.
-- An `i64` of SNMP is its two's complement; a text that says what is wrong is a constructor that
-- names it. The walk of an agent takes, for each step, whether its time is out, the request id that
-- is drawn from the clock, and what comes of sending a datagram.
--
-- Parameters: what the repository calls and does not define. `Formats` (Wire/Convert.antt) is the
-- printing and parsing of prefixes and addresses, `{:?}` of a text, and the last second after the
-- epoch that `SystemTime` holds; `IsReadable` says that what is printed parses as what it was.
-- `Crypto` (Identity.antt) is Ed25519, and `IsSound` of Bundle/Signed.antt says that an honest
-- signature checks and that keys and signatures have their sizes. `encode` is the JSON form of a
-- record. `Ipv4Nets` (Rip.antt) is ipnet's `Ipv4Net::new` and `trunc`, and `same_net`
-- (Rip/Table.antt) is its equality, of which
-- `IsEquality` says that it holds exactly of equal networks. `Suite` (Session.antt) is X25519, HKDF, SHA-256 and
-- ChaCha20-Poly1305, and `sha256` (Relay/Client.antt) is SHA-256; `IsExchange` and `Decrypts` say
-- that both ends compute the same secret, that 32 bytes can be derived, and that what was encrypted
-- decrypts. `lossy` (Snmp/Decode.antt) is `String::from_utf8_lossy`. `Storage` (Store.antt) is the JSON of the stored state and a key's 32 bytes; `Reads`
-- says that a state is read back from its JSON. A file is replaced whole or left, since `persist`
-- renames.
--
-- Bounds and fuel: the loop over a RIP datagram runs on fuel, the length of the datagram, of which
-- each turn takes 20 bytes, so it does not run out. The relay's loop runs on fuel, the number of
-- envelopes that it holds, of which each turn discards one. The encoder of an integer runs on 8 bytes
-- of fuel and that of a component on 5 groups of seven bits, which hold an `i64` and a `u32`; the
-- loop over the varbinds runs on the length of the list, of which each turn takes at least 2 bytes.
-- The walk runs on the steps that it may take. The ledger's tokens wrap at 2 ^ 64, so
-- what is said of a receipt for good is said of fewer calls than that.
--
-- Not modelled: sockets, the file system and tasks; peer discovery; the topology graph; the other
-- probes and the providers; the other MIB-II tables that are
-- harvested; rendering.
pub mod Common
pub mod Topology
pub mod Federation
pub mod Probes
pub mod Examples
