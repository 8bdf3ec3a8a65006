-- ===== src/PeerConnection/Worker.antt =====
-- src/manager/connection_worker.cpp: a turn of the worker's loop for one pending connection, behind
-- the call of select.
pub mod Handshakes
use pixel_scrape.Base.{Bool, true, false, Option, none, some, [], if◌then◌else◌}
use pixel_scrape.PeerConnection.{PeerConnection}
use pixel_scrape.PeerConnection.Handshake.{
  Arrival, send_handshake, receive_handshake_nonblocking, start,
}

pub data ConnectionState : Type 0 where
  connecting handshaking completed failed : ConnectionState

-- The torrent's id, the peer's name and the start time of the request are not used in a turn, but to
-- look the torrent up.
pub record ConnectionRequest : Type 0 where
  pub state : ConnectionState
  pub peer_connection : PeerConnection

-- What the system says in a turn: the sets of select, whether the socket has no error, what its
-- `recv` gives, and whether the torrent of the connection is still there.
pub record Events : Type 0 where
  pub writable : Bool
  pub readable : Bool
  pub connects : Bool
  pub arrival : Arrival
  pub known : Bool

-- The request stays, or it is erased: with its connection closed, or started as one of the peers.
pub data Turned : Type 0 where
  stays : ConnectionRequest → Turned
  drops : PeerConnection → Turned
  joins : PeerConnection → Turned

-- `PeerConnection::disconnect`, but for the thread.
unfoldable pub disconnect : PeerConnection → PeerConnection
disconnect p = record p {
  connected = false;
  handshake_buffer = [];
  handshake_bytes_received = 0;
  socket = none;
}

unfoldable pub check_connect_result : PeerConnection → Bool → PeerConnection × Bool
check_connect_result p connects = elim p.socket [
  | none ↦ (p, false)
  | some s ↦ if connects then (p, true) else (record p { socket = none }, false)
]

-- The handshake is sent, and its answer is waited for.
unfoldable pub begin_handshake : PeerConnection → Turned
begin_handshake p =
    let (p', sent) = send_handshake p in
    if sent
    then stays (record { state = handshaking; peer_connection = p' })
    else drops (disconnect p')

unfoldable pub finish_connecting : PeerConnection → Bool → Turned
finish_connecting p connects =
    let (p', connected) = check_connect_result p connects in
    if connected then begin_handshake p' else drops (disconnect p')

-- A connection whose handshake is done.
unfoldable pub admit : PeerConnection → Bool → Turned
admit p known = if known then joins (start p) else drops (disconnect p)

unfoldable pub continue_handshake : PeerConnection → Arrival → Bool → Turned
continue_handshake p arrival known =
    let (p', finished) = receive_handshake_nonblocking p arrival in
    if finished then admit p' known else drops (disconnect p')

unfoldable pub turn_open : ConnectionRequest → Events → Turned
turn_open r e = elim r.state [
  | connecting ↦ if e.writable then finish_connecting r.peer_connection e.connects else stays r
  | handshaking ↦
      if e.readable then continue_handshake r.peer_connection e.arrival e.known else stays r
  | completed ↦ stays r
  | failed ↦ stays r
]

unfoldable pub turn : ConnectionRequest → Events → Turned
turn r e = elim r.peer_connection.socket [ none ↦ stays r | some s ↦ turn_open r e ]
