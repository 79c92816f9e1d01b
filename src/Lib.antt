-- ===== src/Lib.antt =====
-- The network stack of this repository: ADNL datagrams with their channels and peers, RLDP
-- transfers over them, the DHT and the overlays. This library models the parts that keep state
-- of their own, and proves what makes them correct.
--
-- Parts and files. A path is from the repository's root.
-- * src/util/packets_history.rs, the replay window of a channel: Util/PacketsHistory. `History`
--   and its bits are records; `reset`, `bump_seqno` and `deliver_packet` are functions to the new
--   state. A channel asks it about each packet.
-- * src/adnl/peers_set.rs, the bounded set of peers that the DHT and the overlays keep:
--   Adnl/PeersSet. The state is the ring, the map and the next place; `insert`, `extend`,
--   `with_peers_and_capacity`, `get_random_peers` and `randomly_fill_from` are functions.
-- * src/adnl/transfer.rs, a message that is sent in parts: Adnl/Transfer. `add_part` is the whole
--   function, and its joining loop is `join`.
-- * src/rldp/incoming_transfer.rs, src/rldp/decoder.rs and the receiving loop of
--   src/rldp/transfers_cache.rs: Rldp/Incoming. `process_chunk` is cut at its matches into
--   `check_total_size`, `part_step` and `decode_step`; `receive` is given all the messages that
--   its channel ever holds.
-- * src/rldp/outgoing_transfer.rs and src/rldp/encoder.rs: Rldp/Outgoing. The atomic fields that
--   the task for confirmations shares with the sender are `OutgoingTransferState`; the steps of
--   both, in any order, are the relation `Step` of Rldp/Outgoing/Window.
-- * src/rldp/compression.rs, around the codec zstd: Rldp/Compression.
-- * src/rldp/transfers_cache.rs, in two parts: Rldp/Cache for the map of transfers and
--   `handle_message`, Rldp/Options for the timeouts. Parts of a message go from the cache through
--   a channel to Rldp/Incoming; confirmations go to the shared state of Rldp/Outgoing.
-- * src/dht/buckets.rs, the table of known DHT nodes: Dht/Buckets. A table is a function from the
--   number of a bucket to its nodes; the loops of `find` are `visited_from`, which says what
--   buckets it looks at, and `collect`, which takes nodes from them.
-- * src/dht/storage.rs, the stored values, and src/dht/peers_iter.rs, the order in which peers are
--   asked: Dht/Storage and Dht/PeersIter.
-- * src/adnl/keystore.rs and src/adnl/peer.rs: Adnl/Keystore and Adnl/Peer. A peer has four packet
--   histories of Util/PacketsHistory.
-- * src/adnl/encryption.rs, the masking of packets: Adnl/Encryption, with the layout of a packet
--   behind its header, `seal` and `unseal`, which src/adnl/channel.rs and src/adnl/handshake.rs
--   have in common. The hash and the key stream are a parameter, the record `Cipher`.
-- * src/adnl/channel.rs and src/adnl/handshake.rs: Adnl/Channel and Adnl/Handshake. Keys are
--   numbers; the agreement on a secret is a parameter.
-- * src/adnl/node/mod.rs, and what src/adnl/node/receiver.rs does to the channels: Adnl/Node. The
--   state has the peers and the two tables of channels. A channel is shared by these tables, so
--   they hold places in `store`; a place that no table holds is never used again.
-- * src/adnl/node/sender.rs, the cutting of a long message: Adnl/Sender/Parts. Its parts go to
--   `add_part` of Adnl/Transfer.
-- * src/adnl/node/receiver.rs, the way of a packet from its bytes to its contents: Adnl/Incoming.
--   `open_packet` asks Adnl/Handshake and Adnl/Channel, and `receive_packet` then Adnl/Receiver.
-- * src/adnl/node/receiver.rs, the parts of messages: Adnl/Transfers, the table of transfers over
--   Adnl/Transfer.
-- * src/adnl/node/receiver.rs, what is done with a message: Adnl/Messages, over Adnl/Transfers,
--   Adnl/Queries, Adnl/Node and Adnl/Sender.
-- * src/adnl/queries_cache.rs, the queries that wait: Adnl/Queries. One-shot channels are places in
--   a table that are never used again.
-- * src/adnl/node/sender.rs, how a message is sent: Adnl/Sender/Messages, up to the packets before
--   they are serialized, signed and encrypted.
-- * src/adnl/node/receiver.rs, the check of a packet: Adnl/Receiver. `check_packet` is cut into
--   its stages `find_source`, `find_peer`, `verify`, `check_reinit`, `check_history` and
--   `check_confirm`. The list of addresses of a packet goes through src/util/address_list.rs,
--   Util/AddressList.
-- * src/overlay/overlay.rs, the state of an overlay: Overlay/Defs. The tasks that the code spawns are
--   part of that state, as lists of the broadcasts that they wait for.
-- * src/overlay/overlay.rs, broadcasts: Overlay/Broadcasts takes those in one message, Overlay/Fec
--   those in parts with the tasks of their transfers, Overlay/Outgoing sends both, and Overlay/Gc
--   forgets them. A task of a transfer is the one of the transfer in the map: one that outlives the
--   forgetting of its transfer is left out. Data is compressed with Rldp/Compression; the recipients are chosen by
--   Adnl/PeersSet/Choose; numbers of parts are checked by Util/PacketsHistory.
-- * src/overlay/overlay.rs, peers, and src/overlay/overlay_id.rs, the check of a node: Overlay/Peers.
--   `add_public_peer` calls `add_peer` of Adnl/Node.
-- * src/overlay/node.rs, the overlays of a node and who gets a message: Overlay/Node.
-- * src/proto/adnl.rs, the contents of a packet: Adnl/Packet, with how it is written and how its
--   signature is cut out. What the crate tl_proto writes stands for its bytes.
--
-- Conventions. Numbers are natural numbers, and a machine word's addition is written with its
-- wrap-around as a release build makes it. A map that the code never walks over is a function. A
-- call that holds a lock, or a loop of compare-exchange that no other thread disturbs, is one
-- step. Random choices, hashes, codecs and subscribers are parameters, with laws where a theorem
-- needs them.
--
-- Fuel. `join` takes fuel, and `none` means that it has not ended: with no empty part stored, more
-- fuel than the announced length is enough. `handle_part` takes fuel for the rounds of its loop,
-- and two are enough as long as the id stays in the map. `scan` has fuel for the eight bits of a
-- byte, since each round shifts one out. `part_loop` has a round for each part of a message, and as
-- many as the message has bytes are enough. `gc_loop` and `send_waves` take fuel for their rounds,
-- and the theorems on them say how much is enough.
--
-- Not modelled: sockets, timers and the spawning of tasks, the cryptography, what the crate tl_proto
-- generates, the builders and the examples, which keep no state of their own or are not code of
-- the repository. Nor are the queries of an overlay and the tasks that wait for its broadcasts, the
-- DHT node with its streams, the RLDP node and its query loop, the tables of subscribers of the
-- ADNL node and the waiting of its queries for their timeouts. With the error that the date of the
-- destination is too old, `check_packet` also sends the message Nop, which is left out.
pub mod Prelude
pub mod Util
pub mod Adnl
pub mod Rldp
pub mod Dht
pub mod Overlay
