-- ===== src/Lib.antt =====
-- PixelScrape, a BitTorrent client in C++: the parts that read torrents, hash
-- pieces, keep what was downloaded, talk to a peer and know the nodes of the
-- distributed hash table.
--
-- The parts and the files:
-- - src/bencode/parser.cpp, include/bencode_parser.hpp: Bencode holds the values
--   (Value, Items for BencodeList, Fields for BencodeDict) and the encoder,
--   Bencode/Parser the recursive descent. The position is an argument and
--   BencodeError a constructor of Result; the parser runs on fuel, which each
--   call of parse_value and each turn of parse_list and parse_dict uses up.
--   Decimal holds the conversions of the standard library that it calls
--   (std::stoll, std::stoul and the printing of numbers).
-- - src/crypto/sha1.cpp, include/sha1.hpp: Sha1 is the class SHA1 with its
--   buffer, its index and its 64-bit bit count. Words are numbers below 2 ^ 32
--   with the wrap-around written out; the loop of update runs on as much fuel
--   as there are bytes, and each turn takes at least one.
-- - src/crypto/mse_crypto.cpp, include/mse_crypto.hpp: Rc4 is the class RC4, with
--   the array S_ as a list. An empty key is a division by zero, none.
-- - src/torrent/metadata.cpp, include/torrent_metadata.hpp: Torrent holds the data
--   types, Torrent/Reading the parser of the bencoded dictionary, with the parts
--   of std::filesystem::path that it uses. The opening of the file is left out.
-- - src/storage/piece_manager.cpp, include/piece_manager.hpp: PieceManager is
--   the class with its downloads, its had pieces, its disk queue and its file
--   mappings; each method is a function from a state to the next. The map of
--   downloads is a list with an optional entry per piece. A division by zero
--   (a torrent of piece length 0) is none. PieceManager/History has the calls
--   as a data type and a run of calls as a list. PieceManager/Storage has the
--   pieces on the disk, which is a function from paths to contents (a file that
--   is not there cannot be opened; whether the constructor may make a file is a
--   parameter, and other failures of the disk are left out),
--   PieceManager/Selection the choice of the next piece, PieceManager/Progress
--   the bytes counted.
-- - src/peer/connection.cpp, include/peer_connection.hpp: PeerConnection is the
--   state of a connection, with its socket as the bytes still to come, the
--   bytes that went out and the kernel's answers to send; PeerConnection/Wire
--   has the messages on the wire, PeerConnection/Bitfield the packed bits,
--   PeerConnection/Handling what a message changes (none is a read outside of
--   a piece or a write outside of the bits), PeerConnection/Handshake the
--   handshakes, and PeerConnection/Worker the turn of the loop of
--   src/manager/connection_worker.cpp for a connection that is not yet
--   established, with what select and the socket say as an argument. The loop of
--   send_message runs on as much fuel as there are bytes; each turn that does
--   not end it sends at least one.
-- - src/dht/node.cpp, include/dht_node.hpp: Dht/Node has the ids and the nodes,
--   Dht/KBucket a bucket as the list of its nodes, Dht/RoutingTable the table as
--   its id and its list of buckets, with its saved form. The time of a call is
--   an argument. Dht/KBucket/Calls has the calls on a bucket as a data type. The
--   counter of failed queries is a number without a bound.
-- - src/dht/protocol.cpp, include/dht_protocol.hpp: Dht/Protocol has the queries,
--   Dht/Protocol/Response the responses and the errors, Dht/Protocol/Compact the
--   compact lists, on a little-endian machine, and Dht/Protocol/Tokens the tokens
--   and the transaction ids. Bencode/Writing says
--   what a text is read as that is written with its keys in any order.
-- - src/tracker/client.cpp, include/tracker_client.hpp: Tracker has the URL of an
--   announce and the reading of the reply. The HTTP request is a parameter, a
--   function from a URL to a response.
-- - src/api/websocket_server.cpp: WebSocket has the frames as they are written to a
--   socket and read from it, where a call of recv may give less than it is asked
--   for, and the key that accepts a handshake.
-- - src/storage/state_manager.cpp: StateManager has the texts in base 64 and the
--   hexadecimal names. The JSON of a state and its file are left out.
-- - src/peer/extension_protocol.cpp, src/peer/metadata_exchange.cpp and their
--   headers: Extension has the extension messages, Extension/Metadata the
--   fetching of an info dictionary as a state machine, whose handlers give what
--   they send. Fuel is for the bencode parser in them, and a message that it is
--   too little for ends a run without a result.
--
-- How they interact: the piece manager is made from the metadata that the
-- bencode parser reads, and checks each piece with SHA1::hash. A connection
-- reads the pieces that it serves from the piece manager, which is a function
-- from pieces to bytes there, and gives the blocks that come to a callback.
--
-- A byte is a number below 256 and a string a list of bytes. size_t is 64 bits
-- wide. What an uninitialised buffer holds is a parameter.
--
-- Not modelled: threads and locks (each method holds the lock of its object, so
-- a history is a sequence of whole calls), the creation of directories, the
-- opening of sockets, and the overflow of the stack in deep recursion.

pub mod Base
pub mod Sha1
pub mod Rc4
pub mod Torrent
pub mod Tracker
pub mod WebSocket
pub mod PeerConnection
pub mod PieceManager
pub mod Decimal
pub mod Bencode
pub mod Dht
pub mod Extension
pub mod StateManager
