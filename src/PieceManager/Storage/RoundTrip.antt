-- ===== src/PieceManager/Storage/RoundTrip.antt =====
-- Pieces written and read back.
use pixel_scrape.Base.{
  ℕ, ◌+◌, ◌-◌, ◌*◌, ◌≤◌, ◌<◌, ◌≡◌, ◌≢◌, sym, ap, ◌∙◌, ◌⊎◌, inl, inr, true, false, ◌&&◌, Option,
  some, [], arith, ltb, leb, Bool-cases, length, get_elem?, get_or, list_ext, get_elem?-of_le,
}
use native.Mathlib.Decide.{dec_lt}
use pixel_scrape.Base.Bytes.{Bytes}
use pixel_scrape.PieceManager.{PieceManager}
use pixel_scrape.PieceManager.Mapping.Cover.{row_le}
use pixel_scrape.PieceManager.Storage.{Disk, write_piece, read_piece}
use pixel_scrape.PieceManager.Storage.Flat.{IsAllocated}
use pixel_scrape.PieceManager.Storage.Pieces.{bytes_of}
use pixel_scrape.PieceManager.Storage.Refines.{
  Manages, byte_at, overwrite, write_piece-overwrite, read_piece-slice,
}

list_ext_lt :
    (xs ys : Bytes)
    → length xs ≡ length ys
    → ((j : ℕ) → j < length xs → get_elem? xs j ≡ get_elem? ys j)
    → xs ≡ ys
list_ext_lt xs ys e h = list_ext xs ys (λ j. elim (dec_lt j (length xs)) [
  | yes lt ↦ h j lt
  | no ge ↦ get_elem?-of_le xs j (omega arith) ∙ sym (get_elem?-of_le ys j (omega arith))
])

overwrite_inside :
    (old : ℕ → Option ℕ) (base j : ℕ) (new : Bytes)
    → j < length new
    → overwrite old base new (base + j) ≡ get_elem? new j
overwrite_inside old base j new h =
    let inside : (leb base (base + j) && ltb (base + j) (base + length new)) ≡ true =
      ground arith in
    let back : base + j - base ≡ j = omega arith in rw inside (ap (get_elem? new) back)

overwrite_outside :
    (old : ℕ → Option ℕ) (base g : ℕ) (new : Bytes)
    → (g < base) ⊎ (base + length new ≤ g)
    → overwrite old base new g ≡ old g
overwrite_outside old base g new h =
    let outside : (leb base g && ltb g (base + length new)) ≡ false = ground arith in rw outside

read_piece_missing :
    (pm : PieceManager) (disk : Disk) (i : ℕ)
    → get_or pm.have_pieces i false ≡ false
    → read_piece pm disk i ≡ some []
unfolding read_piece
read_piece_missing pm disk i e = rw (e, read_piece)

module _ (pm : PieceManager) (w : Manages pm) where
  -- Two disks with the same bytes of a piece.
  read_piece-same :
      (disk disk' : Disk) (i : ℕ)
      → i < length pm.metadata.piece_hashes
      → IsAllocated pm.metadata.files disk
      → IsAllocated pm.metadata.files disk'
      → ((j : ℕ)
          → j < bytes_of pm.metadata i
          → byte_at pm.metadata disk' (i * pm.metadata.piece_length + j)
            ≡ byte_at pm.metadata disk (i * pm.metadata.piece_length + j))
      → read_piece pm disk' i ≡ read_piece pm disk i
  read_piece-same disk disk' i hi ok ok' same = elim (Bool-cases (get_or pm.have_pieces i false)) [
    | inr missing ↦
        read_piece_missing pm disk' i missing ∙ sym (read_piece_missing pm disk i missing)
    | inl held ↦
        let (xs, e, l, at) = read_piece-slice pm w disk i hi held ok in
        let (ys, e', l', at') = read_piece-slice pm w disk' i hi held ok' in
        e'
        ∙ ap some (
            list_ext_lt ys xs (omega arith)
              (λ j h. at' j h ∙ same j (omega arith) ∙ sym (at j (omega arith))))
        ∙ sym e
  ]

  -- A piece that was written is read back, and what is read of the others stays.
  pub read_piece-write_piece :
      (disk : Disk) (i : ℕ) (bytes : Bytes)
      → i < length pm.metadata.piece_hashes
      → length bytes ≡ bytes_of pm.metadata i
      → get_or pm.have_pieces i false ≡ true
      → IsAllocated pm.metadata.files disk
      → (disk' : Disk) × (write_piece pm disk i bytes ≡ some (disk', true))
        × (read_piece pm disk' i ≡ some bytes)
        × ((k : ℕ)
            → k < length pm.metadata.piece_hashes
            → k ≢ i
            → read_piece pm disk' k ≡ read_piece pm disk k)
  read_piece-write_piece disk i bytes hi sized held ok =
      let (disk', e, ok', over) = write_piece-overwrite pm w disk i hi bytes sized ok in
      let base = i * pm.metadata.piece_length in
      let (xs, read, l, at) = read_piece-slice pm w disk' i hi held ok' in
      (
        disk',
        e,
        read
            ∙ ap some (
                list_ext_lt xs bytes (omega arith) (λ j h.
                  at j h
                  ∙ over (base + j)
                  ∙ overwrite_inside (byte_at pm.metadata disk) base j bytes (omega arith))),
        λ k hk ne. read_piece-same disk disk' k hk ok ok' (λ j h.
            over (k * pm.metadata.piece_length + j)
            ∙ overwrite_outside (byte_at pm.metadata disk) base (k * pm.metadata.piece_length + j)
                bytes
                (elim (dec_lt k i) [
                  | yes lt ↦ inl (omega (arith, row_le k i pm.metadata.piece_length lt))
                  | no ge ↦ inr (omega (arith, row_le i k pm.metadata.piece_length (omega arith)))
                ])),
      )
