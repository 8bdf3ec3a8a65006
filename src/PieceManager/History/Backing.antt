-- ===== src/PieceManager/History/Backing.antt =====
-- What the program takes for verified data is verified, over every sequence of calls.
use native.Mathlib.Decide.{ℕ_discrete}
use pixel_scrape.Base.{
  some_eq, none-ne-some, ℕ, zero, suc, ◌≡◌, ◌≢◌, sym, subst, ◌∙◌, inl, inr, Bool, true, false, some,
  List, [], ◌∷◌, arith, Option-cases, length, get_elem?, get_or, set, is_empty, all, All,
  All-append, get_elem?-set_self, get_elem?-set_ne, get_or-set_ne, get_or-replicate, get_elem?-lt,
}
use pixel_scrape.Base.Bytes.{Bytes}
use pixel_scrape.Sha1.{hash}
use pixel_scrape.Torrent.{TorrentMetadata}
use pixel_scrape.PieceManager.{
  PieceManager, PieceDownload, DiskRequest, create, request_block, store_block, take_request,
  all_set, concat, no_download,
}
use pixel_scrape.PieceManager.Downloads.{
  RequestOutcome, ReceiveOutcome, request_block-Outcome, receive_block-Outcome,
}
use pixel_scrape.PieceManager.Verifying.{
  VerifyOutcome, verify_piece-Outcome, take_request_lem, take_request-queue, load_state-cases,
}
use pixel_scrape.PieceManager.History.{
  Call, requests, receives, verifies, loads, takes, IsLoad, step, run,
}

not-empty_of_all_set : (flags : List Bool) → all_set flags ≡ true → is_empty flags ≡ false
not-empty_of_all_set flags h = ground arith

all_set-get_elem? :
    (flags : List Bool) (b : ℕ) → all (λ x. x) flags ≡ true → get_elem? flags b ≢ some false
all_set-get_elem? [] b h e = cc
all_set-get_elem? (x ∷ flags) zero h e = ground arith
all_set-get_elem? (x ∷ flags) (suc b) h e = all_set-get_elem? flags b (ground arith) e

module _ (junk : Bytes) where
  -- The stored blocks of a download hash to what the torrent says of piece `i`.
  abbrev pub Matches : PieceManager → ℕ → PieceDownload → Type 0
  Matches pm i d =
      (all_set d.blocks_received ≡ true)
      × (hash junk (concat d.block_data) ≡ get_or pm.metadata.piece_hashes i [])

  abbrev pub IsKept : PieceManager → Type 0
  IsKept pm =
      (i : ℕ) (d : PieceDownload)
      → get_or pm.have_pieces i false ≡ true
      → get_elem? pm.active_downloads i ≡ some d
      → Matches pm i d

  abbrev pub IsQueueVerified : PieceManager → Type 0
  IsQueueVerified pm =
      All (λ r. hash junk r.payload ≡ get_or pm.metadata.piece_hashes r.piece_index [])
        pm.disk_queue

  -- One download replaced: the others keep matching.
  IsKept-set :
      (pm : PieceManager) (i : ℕ) (d d' : PieceDownload)
      → IsKept pm
      → get_elem? pm.active_downloads i ≡ some d
      → (get_or pm.have_pieces i false ≡ true → Matches pm i d → Matches pm i d')
      → IsKept (record pm { active_downloads = set pm.active_downloads i d' })
  IsKept-set pm i d d' k found again j e have at_j = elim (ℕ_discrete i j) [
    | no ne ↦ k j e have (sym (get_elem?-set_ne pm.active_downloads i j d' ne) ∙ at_j)
    | yes same ↦
        let stored : get_elem? (set pm.active_downloads i d') i ≡ some d' =
          get_elem?-set_self pm.active_downloads i d' (get_elem?-lt pm.active_downloads i found) in
        let at_i : get_elem? (set pm.active_downloads i d') i ≡ some e =
          subst (λ n. get_elem? (set pm.active_downloads i d') n ≡ some e) (sym same) at_j in
        let have_i : get_or pm.have_pieces i false ≡ true = rw same have in
        subst (λ n. Matches pm n e) same
          (subst (Matches pm i) (some_eq (sym stored ∙ at_i)) (again have_i (k i d have_i found)))
  ]

  request_block-IsKept :
      (pm : PieceManager) (i : ℕ) {pm' : PieceManager}
      → RequestOutcome pm i pm'
      → IsKept pm
      → IsKept pm'
  request_block-IsKept pm i (inl same) k = subst IsKept (sym same) k
  request_block-IsKept pm i (inr (d, d', found, r, changed)) k = subst IsKept (sym changed) (
      IsKept-set pm i d d' k found λ _ m.
        let (received, stored) = r.keeps (not-empty_of_all_set d.blocks_received m.0) in
        (rw received m.0, rw stored m.1))

  receive_block-IsKept :
      (pm : PieceManager) (i block : ℕ) (xs : Bytes) {r : PieceManager × Bool}
      → ReceiveOutcome pm i block xs r
      → IsKept pm
      → IsKept r.0
  receive_block-IsKept pm i block xs (inl same) k = rw same k
  receive_block-IsKept pm i block xs (inr (d, found, free, changed)) k = rw changed (
      IsKept-set pm i d (store_block d block xs) k found
        λ _ m. absurd (all_set-get_elem? d.blocks_received block (ground (arith, m.0)) free))

  verify_piece-IsKept :
      (pm : PieceManager) (i : ℕ) {r : PieceManager × Bool}
      → VerifyOutcome junk pm i r
      → IsKept pm
      → IsKept r.0
  verify_piece-IsKept pm i (inl (_, same)) k = rw same k
  verify_piece-IsKept pm i (inr (inr (d, found, whole, differs, thrown))) k =
      rw thrown (IsKept-set pm i d no_download k found λ _ m. absurd (differs m.1))
  verify_piece-IsKept pm i (inr (inl (d, found, whole, same, taken))) k = rw taken λ j e have at_j.
      elim (ℕ_discrete i j) [
        | no ne ↦ k j e (sym (get_or-set_ne pm.have_pieces i j true false ne) ∙ have) at_j
        | yes i_j ↦
            let at_i : get_elem? pm.active_downloads i ≡ some e = rw i_j at_j in
            subst (λ n. Matches pm n e) i_j
              (subst (Matches pm i) (some_eq (sym found ∙ at_i)) (whole, same))
      ]

  take_request-IsKept :
      (pm : PieceManager) (r : DiskRequest) (pm' : PieceManager)
      → take_request pm ≡ some (r, pm')
      → IsKept pm
      → IsKept pm'
  take_request-IsKept pm r pm' e k = subst IsKept (sym (take_request_lem pm r pm' e)) k

  step-IsKept :
      (pm pm' : PieceManager) (c : Call)
      → ¬ IsLoad c
      → IsKept pm
      → step junk pm c ≡ some pm'
      → IsKept pm'
  unfolding step
  step-IsKept pm pm' (requests i block size) _ k e =
      elim (Option-cases (request_block pm i block size)) [
        | inl trapped ↦ none-ne-some (rw (trapped, step) at e)
        | inr ((pm'', done), ran) ↦
            subst IsKept (some_eq (rw (ran, step) at e))
              (request_block-IsKept pm i (request_block-Outcome pm i block size ran) k)
      ]
  step-IsKept pm pm' (receives i begin xs) _ k e =
      subst IsKept (some_eq e)
        (receive_block-IsKept pm i _ xs (receive_block-Outcome pm i begin xs) k)
  step-IsKept pm pm' (verifies i) _ k e =
      subst IsKept (some_eq e) (verify_piece-IsKept pm i (verify_piece-Outcome junk pm i) k)
  step-IsKept pm pm' (loads bits) not_load k e = absurd (not_load tt)
  step-IsKept pm pm' takes _ k e = elim (Option-cases (take_request pm)) [
    | inl idle ↦ subst IsKept (some_eq (rw (idle, step) at e)) k
    | inr ((r, pm''), taken) ↦
        subst IsKept (some_eq (rw (taken, step) at e)) (take_request-IsKept pm r pm'' taken k)
  ]

  create-IsKept : (m : TorrentMetadata) (priorities : List ℕ) → IsKept (create m priorities)
  unfolding create
  create-IsKept m priorities i d have found =
      absurd (ground (arith, get_or-replicate (length m.piece_hashes) i false))

  run-IsKept :
      (pm pm' : PieceManager) (cs : List Call)
      → All (λ c. ¬ IsLoad c) cs
      → IsKept pm
      → run junk pm cs ≡ some pm'
      → IsKept pm'
  unfolding run
  run-IsKept pm pm' [] h k e = subst IsKept (some_eq e) k
  run-IsKept pm pm' (c ∷ cs) h k e = elim (Option-cases (step junk pm c)) [
    | inl trapped ↦ none-ne-some (rw (trapped, run) at e)
    | inr (pm₁, ran) ↦
        run-IsKept pm₁ pm' cs h.1 (step-IsKept pm pm₁ c h.0 k ran) (rw (ran, run) at e)
  ]

  -- After any calls but `load_state`, the stored blocks of each piece that counts as had are
  -- complete, and hash to the value that the torrent gives for it.
  pub run-create-IsKept :
      (m : TorrentMetadata) (priorities : List ℕ) (cs : List Call) (pm : PieceManager)
      → All (λ c. ¬ IsLoad c) cs
      → run junk (create m priorities) cs ≡ some pm
      → IsKept pm
  run-create-IsKept m priorities cs pm h e =
      run-IsKept (create m priorities) pm cs h (create-IsKept m priorities) e

  verify_piece-IsQueueVerified :
      (pm : PieceManager) (i : ℕ) {r : PieceManager × Bool}
      → VerifyOutcome junk pm i r
      → IsQueueVerified pm
      → IsQueueVerified r.0
  verify_piece-IsQueueVerified pm i (inl (_, same)) q = rw same q
  verify_piece-IsQueueVerified pm i (inr (inl (d, _, _, same, taken))) q =
      rw taken (All-append _ pm.disk_queue _ q (same, tt))
  verify_piece-IsQueueVerified pm i (inr (inr (d, _, _, _, thrown))) q = rw thrown q

  step-IsQueueVerified :
      (pm pm' : PieceManager) (c : Call)
      → IsQueueVerified pm
      → step junk pm c ≡ some pm'
      → IsQueueVerified pm'
  unfolding step
  step-IsQueueVerified pm pm' (requests i block size) q e =
      elim (Option-cases (request_block pm i block size)) [
        | inl trapped ↦ none-ne-some (rw (trapped, step) at e)
        | inr ((pm'', done), ran) ↦
            subst IsQueueVerified (some_eq (rw (ran, step) at e))
              (elim (request_block-Outcome pm i block size ran) [
                | inl same ↦ subst IsQueueVerified (sym same) q
                | inr (_, _, _, _, changed) ↦ subst IsQueueVerified (sym changed) q
              ])
      ]
  step-IsQueueVerified pm pm' (receives i begin xs) q e =
      subst IsQueueVerified (some_eq e) (elim (receive_block-Outcome pm i begin xs) [
        | inl same ↦ rw same q
        | inr (_, _, _, changed) ↦ rw changed q
      ])
  step-IsQueueVerified pm pm' (verifies i) q e =
      subst IsQueueVerified (some_eq e)
        (verify_piece-IsQueueVerified pm i (verify_piece-Outcome junk pm i) q)
  step-IsQueueVerified pm pm' (loads bits) q e =
      subst IsQueueVerified (some_eq e)
        (elim (load_state-cases pm bits) [ inl same ↦ rw same q | inr loaded ↦ rw loaded q ])
  step-IsQueueVerified pm pm' takes q e = elim (Option-cases (take_request pm)) [
    | inl idle ↦ subst IsQueueVerified (some_eq (rw (idle, step) at e)) q
    | inr ((r, pm''), taken) ↦
        let rest : All (λ t. hash junk t.payload ≡ get_or pm.metadata.piece_hashes t.piece_index [])
            (r ∷ pm''.disk_queue) =
          rw (take_request-queue pm r pm'' taken) at q in
        subst IsQueueVerified (some_eq (rw (taken, step) at e))
          (subst IsQueueVerified (sym (take_request_lem pm r pm'' taken)) rest.1)
  ]

  run-IsQueueVerified :
      (pm pm' : PieceManager) (cs : List Call)
      → IsQueueVerified pm
      → run junk pm cs ≡ some pm'
      → IsQueueVerified pm'
  unfolding run
  run-IsQueueVerified pm pm' [] q e = subst IsQueueVerified (some_eq e) q
  run-IsQueueVerified pm pm' (c ∷ cs) q e = elim (Option-cases (step junk pm c)) [
    | inl trapped ↦ none-ne-some (rw (trapped, run) at e)
    | inr (pm₁, ran) ↦
        run-IsQueueVerified pm₁ pm' cs (step-IsQueueVerified pm pm₁ c q ran) (rw (ran, run) at e)
  ]

  -- Whatever the calls, every write that waits for the disk holds data whose hash is the one that
  -- the torrent gives for its piece.
  pub run-create-IsQueueVerified :
      (m : TorrentMetadata) (priorities : List ℕ) (cs : List Call) (pm : PieceManager)
      → run junk (create m priorities) cs ≡ some pm
      → IsQueueVerified pm
  run-create-IsQueueVerified m priorities cs pm e =
      run-IsQueueVerified (create m priorities) pm cs (unfold create in tt) e
