-- ===== src/PeerConnection.antt =====
-- src/peer/connection.cpp and include/peer_connection.hpp: one connection to a peer. A method is a
-- function from the state of the connection, its socket included, to the next. Opening and closing
-- the socket, the thread and the locks are left out.
pub mod Bitfield
pub mod Wire
pub mod Handling
pub mod Handshake
pub mod Worker
mod Examples
use pixel_scrape.Base.{ℕ, Bool, true, false, Option, none, some, List}
use pixel_scrape.Base.Bytes.{Bytes}
use pixel_scrape.Torrent.{TorrentMetadata}

-- The enumerators, and the other values that a cast from a byte can give.
pub data PeerMessageType : Type 0 where
  choke unchoke interested not_interested have bitfield request piece cancel port keep_alive
        extended :
      PeerMessageType
  unnamed : ℕ → PeerMessageType

pub record PeerMessage : Type 0 where
  pub type : PeerMessageType
  pub payload : Bytes

pub record PieceBlock : Type 0 where
  pub index : ℕ
  pub begin : ℕ
  pub payload : Bytes

-- What the kernel answers to a `send`: it takes at most so many bytes, or fails.
pub data Answer : Type 0 where
  accepts : ℕ → Answer
  would_block broken : Answer

-- A socket: what the peer sends before it closes, what has been sent to it, and the kernel's
-- answers to the calls of `send` to come.
pub record Socket : Type 0 where
  pub incoming : Bytes
  pub outgoing : Bytes
  pub answers : List Answer

-- `socket` is none where `socket_fd_` is negative; `has_callback` says whether a
-- `piece_callback_` is set.
pub record PeerConnection : Type 0 where
  pub metadata : TorrentMetadata
  pub info_hash : Bytes
  pub peer_id : Bytes
  pub socket : Option Socket
  pub connected : Bool
  pub am_choking : Bool
  pub am_interested : Bool
  pub peer_choking : Bool
  pub peer_interested : Bool
  pub bits : List Bool
  pub dht_port : Option ℕ
  pub has_callback : Bool
  pub handshake_buffer : Bytes
  pub handshake_bytes_received : ℕ
  pub write_buffer : Bytes
