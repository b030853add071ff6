-- ===== src/Lib.antt =====
-- rmw_desert: a ROS 2 middleware over the DESERT underwater network stack.
--
-- A node's publishers, subscribers, clients and services write messages to a TxStream, which encodes
-- them as CBOR and hands the packet to the TcpDaemon. The daemon frames it on a TCP socket to DESERT.
-- On the way back the daemon finds the frames in the bytes it receives, RxStream interprets the
-- packets and queues them at the streams that listen for their type and topic, and the typed reads
-- take the fields out again.
--
-- The files, and the code they model:
--   Tcp (Step, Header, Delivery, Bounds, Queues, Socket): src/desert_classes/TcpDaemon.cpp. A
--     `Receiver` holds the variables of `socket_rx_communication`; `receive_byte` is the body of its
--     loop over the bytes, and `read_loop` the reads around it. `frame`, `send_loop` and `send_round`
--     are `socket_tx_communication`; `read_packet` and `enqueue_packet` have their names.
--   Utf (Point, Decoded, RoundTrip, Exchange): `toUTF8` and `toUTF16` of
--     src/desert_classes/NanoCBorStream.cpp, as `to_utf8` and `to_utf16`.
--   Topics (Inverse): src/desert_classes/TopicsConfig.cpp, function by function.
--   Cbor: the parameter `Nanocbor` for the NanoCBOR library, which is not in the repository.
--   Cbor/Queue (Window): `CircularQueue` of src/desert_classes/CBorStream.h.
--   Cbor/Tx (Whole): `TxStream` of src/desert_classes/NanoCBorStream.cpp. `write_uint64` and its like are the
--     overloads of `operator<<`.
--   Cbor/Rx (Select): `RxStream` of the same file. `read_uint64` and its like are the overloads of
--     `operator>>`; `data_available` has its name.
--   Cbor/Interpret (Fields, Values, Reads, Exchange, Ends): `interpret_packets` and `interpret_field` of
--     the same file. `interpret_loop` is the loop over the received packets, `interpret_packet` and
--     `interpret_fields` the loop over the items of one, `dispatch` the loop over the listening streams.
--     Values has one constructor for each type that the streams write and read.
--   Node (Registry, Requests, Beacons): src/desert_classes/DesertNode.cpp, function by function; the beacons that
--     are sent are kept in the order of the calls. Node/Handles (Tracked, Changes, Lifetime) has the
--     entry points of src/rmw.cpp that create and destroy what a node registers, with the live objects
--     in `Process`.
--   Message (Strings, Fields, Whole): src/desert_classes/MessageSerialization.h and CStringHelper.cpp. A
--     message type is its `Members`, a message the values in its `Memory`; `serialize` and `deserialize`
--     have their names, `serialize_c_field` and `serialize_cpp_field` are the two versions of
--     `serialize_field`, and a call returns, throws or is undefined, as `Result` says. Values is the
--     description of what is written; Writes, Reads, Back, RoundTrip, Typed, Exchange, Throws and Mixed
--     hold proofs.
--   Endpoint (Publisher, Subscriber, Client, Service, Rmw): src/desert_classes/DesertPublisher.cpp,
--     DesertSubscriber.cpp, DesertClient.cpp, DesertService.cpp and DesertGuardCondition.cpp, and the entry
--     points of src/rmw.cpp that move messages or wait for them, each under its name. The `World` is what
--     the endpoints of a process share. Carried, Delivery, Requests, Conversation and Waits hold proofs.
--   Mcu (Tx, Rx, Interpret): src/desert_classes/LibMcuCBorStream.cpp, the streams over the other CBOR
--     library, with the names of Cbor. `interpret_items` is the loop over the items of a packet. Values has
--     a constructor for each type; Fields, Exchange and Overruns hold proofs.
--   Discovery (Text, Demangle, Thread): src/desert_classes/Discovery.cpp and demangle.cpp.
--     `send_discovery_beacon` has its name; `discovery_round` is the body of the loop of `discovery_thread`,
--     `read_beacon` its reads, `push_topics` and `push_previous` its two loops, and `register` its calls of
--     the graph. Fields, Nodes, Registers and Demangle/Prefixes hold proofs.
--   Discovery/Queries (Graph, Counts, Unlisted): the counts of src/rmw.cpp and the queries of
--     src/get_node_info_and_types.cpp, under their names.
--   Init (Lifecycle): src/init.cpp: the port, and a context with the thread that it owns; `Session` has the
--     objects that the context has lost too.
--   Security (Packets, Nonce): src/desert_classes/security/SecurityLayer.cpp: the nonce, the compression,
--     `wrap` and `unwrap`, and as `unwrap_packet` the call of it in NanoCBorStream.cpp. Security/Keys (Crossed)
--     has AeadParams.cpp and the keys: `security_layer` is the constructor that reads the environment.
--   Hex (Decoding): src/desert_classes/security/sec_utils.cpp.
--   Prelude (Tests, Lists, Bits, Int): shared helpers. Tests: runs on concrete inputs.
--
-- Bytes, units and identifiers are native numbers; a cast to w bits is `% 2 ^ w`. Strings are
-- lists of bytes, and a variable that a read does not assign is `none`. What the code leaves
-- undefined is the result `undefined`, or a parameter where only the value of a read or of memory
-- is open; a read of a field behind the end of a packet sets `overrun` of its stream, and the
-- operation is then undefined. The loop of `toUTF16` runs on fuel, the length of the source, of
-- which each round takes a byte at least. The loop over the items of a packet runs on fuel too,
-- the length of the packet behind its header, and is `endless` where that is not enough: no fuel
-- is, where the library takes nothing of an item. The search of `data_available` runs for at most
-- the number of packets that the queue holds at its start, which never grows.
--
-- Parameters: what a read in front of a vector's storage yields (`Junk`), the NanoCBOR library
-- (`Nanocbor`), `float` and `double` with what a local variable holds that is not initialised
-- (`Floats`), the security layer around a packet, the value behind a pointer of another type (`alias`),
-- what the generated `resize_function` makes of a sequence (`resized`), the COSE library (`Suite`, and
-- `Crypto` for the keys), the libmcu CBOR library with the bits of floats (`LibMcu`), and the graph of
-- rmw_dds_common (`GraphCache`, and `GraphQueries` for what it is asked). Allocations are taken to succeed.
--
-- Not modelled: sockets, threads, sleeps and locks; the JSON parser and the file behind TopicsConfig;
-- what `GraphCache` does with its calls; the constructor of the security layer that is given its keys;
-- the creation of nodes, guard conditions and wait sets, and the queries that pass a function of
-- demangle.cpp on to the graph of all nodes.
pub mod Prelude
pub mod Tcp
pub mod Utf
pub mod Topics
pub mod Cbor
pub mod Node
pub mod Hex
pub mod Message
pub mod Endpoint
pub mod Mcu
pub mod Discovery
pub mod Init
pub mod Security
pub mod Tests
