-- ===== src/Lib.antt =====
-- GoTorrent, a BitTorrent client: a model of its Go packages under internal/.
--
-- Each module models one package, or one part of it:
--
--   Bitfield       internal/bitfield/bitfield.go: the packed set of pieces. A record of the bytes,
--                  the width and the running count; `Set`, `Clear` and `CopyFrom` return the new
--                  bitfield, and the iteration of `Each` threads the state of its callback.
--   Peer           internal/peer: one connection. Peer/Message is message.go and `ReadMessage` of
--                  peer.go on a list of bytes, Peer/HashWire is v2wire.go, Peer/Handshake is the
--                  handshake, and Peer/Client is the state of a connection with `handleMessage`,
--                  `UpgradeMetadata`, `serveRequest`, `sendInitialState` and the step of `writeLoop`.
--   Picker         internal/picker: which blocks to request next. Picker is picker.go and priority.go
--                  but for the choice of pieces, which is Picker/Select; Picker/Progress holds the
--                  blocks of one piece and Picker/Availability the counts of availability.go.
--   Torrent        internal/torrent: state.go, the states of a torrent (Torrent/State) and the state
--                  machine as a whole (Torrent/Lifecycle), and priority.go (Torrent/Priority), which
--                  makes the priorities of pieces for the Picker out of those of files, and tells the
--                  Storage which files to make.
--   Choker         internal/choker/choker.go: which peers to unchoke. A round of `Run` gives the new
--                  state, the peers it chose and the messages it sent.
--   Engine         internal/engine/queue.go: the queue of torrents. Engine/Queue has its operations,
--                  the other files what they keep.
--   Storage        internal/storage: Storage is `New`, `ReadAt` and `WriteAt` of storage.go over a disk
--                  that maps paths to byte strings, Storage/Allocation its `Allocate`, and
--                  Storage/PieceCache is piececache.go, and Storage/Handles is handles.go, the cache of
--                  open files; the other files are proofs.
--   Merkle         internal/merkle: the hash trees of version 2, with SHA-256 as a parameter; the other
--                  files are proofs.
--   Metainfo       internal/metainfo: how the pieces of a torrent lie in its files, from metainfo.go and
--                  v2.go.
--   Dht            internal/dht: Dht/Id is id.go, with a node's identifier as its list of bytes, and
--                  Dht/Table is table.go, the routing table.
--   Bencode        internal/bencode: Bencode/Scan and Bencode/Decode are decode.go for an `any` or a
--                  `RawMessage`,
--                  Bencode/Encode is encode.go for such values, and Bencode/Number the decimal
--                  numbers of Go's strconv. The other files prove that they fit.
--   Ws             internal/ws: WebSocket frames (Ws/Frame is frame.go) and `ReadMessage` of conn.go
--                  (Ws/Message), which runs on the bytes of the frames; the other files are proofs.
--   IpFilter       internal/ipfilter/ipfilter.go: the blocked address ranges and the lookup among them.
--   Api            internal/api/authlimiter.go: the limit on failed logins (Api/AuthLimiter).
--   Utp            internal/utp: Utp/Seq is seq.go, Utp/Packet and Utp/Sack are packet.go.
--
-- A connection keeps the bitfield of its peer; the torrent that owns it is seen through the
-- callbacks. What a handler sends, or hands to the torrent, is a list of effects.
--
-- Base, Bits and Bytes hold what the components share: Boolean tests, sorting and lists over the
-- native numbers, integers, results, the bits of a byte and big-endian integers. A Go `int` that may be
-- negative is ℤ; one that never is, is ℕ, and no model counts beyond what a list in memory holds. A
-- uint32 from the wire is below 2 ^ 32 since it is read from four bytes.
--
-- Loops are structural recursion: over the bytes of a bitfield, the bits left in a byte, or the
-- number of pieces. The loop of `Pick` that starts pieces runs on fuel: the free places, of which
-- each round uses one. The loop over the extensions of a µTP packet runs on the number of bytes, of
-- which each round takes two. So do the loops of the bencode decoder over the elements of a list or
-- a dictionary, where each takes a byte at least; its nesting runs on the 64 levels of `maxDepth`.
-- `ReadMessage` runs on the number of bytes, of which each frame takes two. A binary search runs on
-- the number of elements, since each round leaves fewer; a read or a write over several files on
-- the number of bytes, of which each round takes one at least. The loops over the levels of a hash
-- tree run on the number of its leaves, since each level has half of them.
--
-- Not modelled: goroutines, channels, deadlines and sockets, which the handlers meet as arguments
-- (the callbacks, the outcome of the limiters and of the write queue, the clock, random draws); the
-- extension protocol, a parameter; files that are mapped into memory, and what a disk refuses but a
-- file that is missing; the parsing of torrent files; and the packages that are network or file access throughout.
pub mod Api
pub mod Base
pub mod Bencode
pub mod Bitfield
pub mod Bits
pub mod Bytes
pub mod Choker
pub mod Dht
pub mod Engine
pub mod IpFilter
pub mod Merkle
pub mod Metainfo
pub mod Peer
pub mod Picker
pub mod Storage
pub mod Torrent
pub mod Utp
pub mod Ws
