-- ===== src/Extension/Metadata.antt =====
-- src/peer/metadata_exchange.cpp: the info dictionary of a torrent, fetched piece by piece. Each
-- handler runs under the object's lock, and is a function from the state to the new state and what
-- it does to the outside.
pub mod Outcome
pub mod Runs
pub mod Stuck
use pixel_scrape.Base.{
  ℕ, zero, suc, ◌+◌, ◌-◌, ◌/◌, ◌%◌, Bool, true, false, not, ◌&&◌, ◌||◌, Option, none, some, List,
  [], ◌∷◌, ◌++◌, ltb, leb, ◌==◌, if◌then◌else◌, length, get_or, set, resize, all, is_empty,
}
use pixel_scrape.Base.Bytes.{Bytes, codes, equal, size_mod}
use pixel_scrape.Bencode.Parser.{Result, ok, failed, out_of_fuel, ◌>>=◌}
use pixel_scrape.Sha1.{hash}
use pixel_scrape.PieceManager.{concat}
use pixel_scrape.Extension.{
  Peer, no_peer, lookup, parse_extended_handshake, MetadataMessage, parse_metadata_message,
  build_metadata_request, build_metadata_reject,
}

-- The pieces are kept by their data alone: a piece's index is its place.
pub record MetadataExchange : Type 0 where
  pub info_hash : Bytes
  pub metadata_complete : Bool
  pub metadata_size : Option ℕ
  pub peer_ut_metadata_id : Option ℕ
  pub received_pieces : List Bytes
  pub piece_status : List Bool
  pub complete_metadata : Bytes
  pub callback_set : Bool

-- A call of `send_extended_message` of the peer, or of the completion callback.
pub data Effect : Type 0 where
  sends : ℕ → Bytes → Effect
  completes : Bytes → Effect

-- The constructor, and `set_metadata_complete_callback`.
unfoldable pub new_exchange : Bytes → MetadataExchange
new_exchange info_hash = record {
  info_hash = info_hash;
  metadata_complete = false;
  metadata_size = none;
  peer_ut_metadata_id = none;
  received_pieces = [];
  piece_status = [];
  complete_metadata = [];
  callback_set = false;
}

unfoldable pub set_callback : MetadataExchange → MetadataExchange
set_callback x = record x { callback_set = true }

abbrev pub metadata_piece_size : ℕ
metadata_piece_size = 16384

-- What a parsed handshake changes: the size of the first peer that names one counts.
unfoldable pub adopt_size : ℕ → MetadataExchange → MetadataExchange
adopt_size size x =
    let pieces = (size + metadata_piece_size + size_mod - 1) % size_mod / metadata_piece_size in
    if ltb 0 size
    then record x {
      metadata_size = some size;
      piece_status = resize pieces false x.piece_status;
      received_pieces = resize pieces [] x.received_pieces;
    }
    else x

unfoldable pub learn_size : ℕ → MetadataExchange → MetadataExchange
learn_size size x = elim x.metadata_size [ none ↦ adopt_size size x | some _ ↦ x ]

unfoldable pub handle_extension_handshake : ℕ → Bytes → MetadataExchange → Result MetadataExchange
handle_extension_handshake fuel payload x = elim (parse_extended_handshake fuel payload no_peer) [
  | out_of_fuel ↦ out_of_fuel
  | failed ↦ ok x
  | ok peer ↦ ok (
      learn_size peer.peer_metadata_size
        (record x { peer_ut_metadata_id = lookup (codes "ut_metadata") peer.peer_extensions }))
]

-- `SHA1` objects hold `junk` in their buffers.
module _ (junk : Bytes) where
  unfoldable pub verify_metadata : MetadataExchange → Bool
  verify_metadata x =
      if is_empty x.complete_metadata
      then false
      else equal (hash junk x.complete_metadata) x.info_hash

  -- The assembly of pieces that are all there, whose joined data are `buffer`, against the size.
  unfoldable pub accept : Bytes → ℕ → MetadataExchange → MetadataExchange × List Effect
  accept buffer size x =
      if not (length buffer == size)
      then (x, [])
      else if verify_metadata (record x { complete_metadata = buffer })
      then (
        record x { complete_metadata = buffer; metadata_complete = true },
        if x.callback_set then completes buffer ∷ [] else [],
      )
      else (record x { complete_metadata = buffer }, [])

  unfoldable pub finish_assembly : Bytes → MetadataExchange → MetadataExchange × List Effect
  finish_assembly buffer x = elim x.metadata_size [
    | none ↦ (x, [])
    | some size ↦ accept buffer size x
  ]

  unfoldable pub assemble_metadata : MetadataExchange → MetadataExchange × List Effect
  assemble_metadata x =
      if not (all (λ b. b) x.piece_status)
      then (x, [])
      else finish_assembly (concat x.received_pieces) x

  -- The branch for a piece of the data.
  unfoldable pub store_piece : ℕ → Bytes → MetadataExchange → MetadataExchange × List Effect
  store_piece piece bytes x =
      if get_or x.piece_status piece true
      then (x, [])
      else assemble_metadata (record x {
        received_pieces = set x.received_pieces piece bytes;
        piece_status = set x.piece_status piece true;
      })

  -- `switch (msg.msg_type)`.
  unfoldable pub handle_parsed : MetadataMessage → MetadataExchange → MetadataExchange × List Effect
  handle_parsed msg x =
      if msg.msg_type == 0
      then (
        x,
        elim x.peer_ut_metadata_id [
          | none ↦ []
          | some id ↦ sends id (build_metadata_reject id msg.piece) ∷ []
        ],
      )
      else if msg.msg_type == 1
      then elim x.metadata_size [ none ↦ (x, []) | some _ ↦ store_piece msg.piece msg.bytes x ]
      else (x, [])

  -- The message is parsed into one that is not initialised, here `stale`.
  unfoldable pub handle_metadata_message :
      ℕ → Bytes → MetadataMessage → MetadataExchange → Result (MetadataExchange × List Effect)
  handle_metadata_message fuel payload stale x = elim (parse_metadata_message fuel payload stale) [
    | out_of_fuel ↦ out_of_fuel
    | failed ↦ ok (x, [])
    | ok msg ↦ ok (handle_parsed msg x)
  ]

-- The requests for the pieces from `i` on that are missing.
unfoldable pub request_missing : ℕ → ℕ → List Bool → List Effect
request_missing id i [] = []
request_missing id i (received ∷ rest) =
    let more = request_missing id (suc i) rest in
    if received then more else sends id (build_metadata_request id i) ∷ more

unfoldable pub request_metadata : MetadataExchange → List Effect
request_metadata x = elim x.peer_ut_metadata_id [
  | none ↦ []
  | some id ↦ elim x.metadata_size [
    | none ↦ []
    | some _ ↦ if x.metadata_complete then [] else request_missing id 0 x.piece_status
  ]
]

-- What reaches the object, in the order in which its lock admits it.
pub data Event : Type 0 where
  handshakes : Bytes → Event
  messages : Bytes → MetadataMessage → Event
  requests : Event

module _ (junk : Bytes) (fuel : ℕ) where
  unfoldable pub step : MetadataExchange → Event → Result (MetadataExchange × List Effect)
  step x (handshakes payload) = handle_extension_handshake fuel payload x >>= λ x'. ok (x', [])
  step x (messages payload stale) = handle_metadata_message junk fuel payload stale x
  step x requests = ok (x, request_metadata x)

  unfoldable pub run : MetadataExchange → List Event → Result (MetadataExchange × List Effect)
  run x [] = ok (x, [])
  run x (e ∷ es) = step x e >>= λ (x', now). run x' es >>= λ (x'', later). ok (x'', now ++ later)
