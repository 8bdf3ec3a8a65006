-- ===== src/PieceManager/Selection.antt =====
-- src/storage/piece_manager.cpp: `select_rarest_piece`, which decides what to ask of a peer next.
pub mod Choice
use pixel_scrape.Base.{
  ℕ, zero, suc, ◌+◌, ◌-◌, ◌≤◌, ◌<◌, max, ◌≡◌, refl, sym, ap, subst, ◌∙◌, ◌⊎◌, inl, inr, Bool, true,
  false, not, ◌&&◌, ◌||◌, Option, none, some, List, [], ◌∷◌, map, arith, ltb, ◌==◌, if◌then◌else◌,
  Bool-cases, length, get_elem?, get_or, replicate, is_empty, length-replicate, get_or-replicate,
}
use native.Mathlib.Decide.{ℕ_discrete}
use pixel_scrape.Base.Bytes.{size_mod}
use pixel_scrape.PieceManager.{PieceManager, PieceDownload, FileMapping, all_set}

abbrev pub size_max : ℕ
size_max = size_mod - 1

-- The pieces of one peer counted in.
unfoldable pub add_bits : List ℕ → List Bool → List ℕ
add_bits [] bits = []
add_bits (a ∷ counts) [] = a ∷ counts
add_bits (a ∷ counts) (b ∷ bits) = (if b then suc a else a) ∷ add_bits counts bits

-- How many peers have each of `n` pieces; a bitfield of another size does not count.
unfoldable pub count_peers : ℕ → List (List Bool) → List ℕ → List ℕ
count_peers n [] counts = counts
count_peers n (bits ∷ peers) counts =
    count_peers n peers (if length bits == n then add_bits counts bits else counts)

unfoldable pub availability : ℕ → List (List Bool) → List ℕ
availability n peers = count_peers n peers (replicate n 0)

-- The highest priority of the files of a piece.
unfoldable pub piece_priority : List ℕ → List FileMapping → ℕ → ℕ
piece_priority priorities [] acc = acc
piece_priority priorities (m ∷ ms) acc =
    piece_priority priorities ms (max acc (get_or priorities m.file_index 0))

unfoldable pub piece_priorities : PieceManager → List ℕ
piece_priorities pm = map (λ ms. piece_priority pm.file_priorities ms 0) pm.piece_file_mappings

-- The filter mask lets a piece through.
unfoldable pub is_allowed : Option (List Bool) → ℕ → Bool
is_allowed none i = true
is_allowed (some mask) i = get_or mask i false

unfoldable pub is_fully_requested : PieceManager → ℕ → Bool
is_fully_requested pm i = elim (get_elem? pm.active_downloads i) [
  | none ↦ false
  | some d ↦ all_set d.blocks_requested
]

-- The tests before the comparison.
unfoldable pub is_candidate : PieceManager → List (List Bool) → Option (List Bool) → ℕ → Bool
is_candidate pm peers mask i =
    not (get_or pm.have_pieces i false)
    && ltb 0 (get_or (availability (length pm.metadata.piece_hashes) peers) i 0)
    && is_allowed mask i
    && not (is_fully_requested pm i)

pub record Best : Type 0 where
  pub best_index : ℕ
  pub min_availability : ℕ
  pub max_priority : ℕ

module _ (candidate : ℕ → Bool) (available priority : ℕ → ℕ) where
  -- One turn of the loop over the pieces.
  unfoldable pub consider : ℕ → Best → Best
  consider i best =
      if candidate i
        && (ltb (available i) best.min_availability
            || ((available i == best.min_availability) && ltb best.max_priority (priority i)))
      then record { best_index = i; min_availability = available i; max_priority = priority i }
      else best

  -- The pieces from `i` on, of which there are as many as the first number says.
  unfoldable pub scan : ℕ → ℕ → Best → Best
  scan zero i best = best
  scan (suc left) i best = scan left (suc i) (consider i best)

unfoldable pub select_rarest_piece : PieceManager → List (List Bool) → Option (List Bool) → ℕ
select_rarest_piece pm peers mask =
    let counts = availability (length pm.metadata.piece_hashes) peers in
    (scan (is_candidate pm peers mask) (λ i. get_or counts i 0)
      (λ i. get_or (piece_priorities pm) i 0) (length counts) 0
      (record { best_index = size_max; min_availability = size_max; max_priority = 0 })).best_index
