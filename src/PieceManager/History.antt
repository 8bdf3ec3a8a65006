-- ===== src/PieceManager/History.antt =====
-- Sequences of calls of a piece manager, in the order in which its lock admits them.
pub mod Shape
pub mod Backing
use pixel_scrape.Base.{ℕ, Bool, Option, none, some, List, [], ◌∷◌}
use pixel_scrape.Base.Bytes.{Bytes}
use pixel_scrape.PieceManager.{
  PieceManager, request_block, receive_block, verify_piece, load_state, take_request,
}

-- A call with its arguments; `takes` is a turn of the disk thread.
pub data Call : Type 0 where
  requests : (piece block size : ℕ) → Call
  receives : (piece begin : ℕ) → Bytes → Call
  verifies : ℕ → Call
  loads : List Bool → Call
  takes : Call

abbrev pub IsLoad : Call → Type 0
IsLoad (loads _) = Unit
IsLoad _ = ⊥

module _ (junk : Bytes) where
  -- `none` is a division by zero, which ends the program.
  unfoldable pub step : PieceManager → Call → Option PieceManager
  step pm (requests i block size) = elim (request_block pm i block size) [
    | none ↦ none
    | some r ↦ some r.0
  ]
  step pm (receives i begin xs) = some (receive_block pm i begin xs).0
  step pm (verifies i) = some (verify_piece junk pm i).0
  step pm (loads bits) = some (load_state pm bits)
  step pm takes = elim (take_request pm) [ none ↦ some pm | some r ↦ some r.1 ]

  unfoldable pub run : PieceManager → List Call → Option PieceManager
  run pm [] = some pm
  run pm (c ∷ cs) = elim (step pm c) [ none ↦ none | some pm' ↦ run pm' cs ]
