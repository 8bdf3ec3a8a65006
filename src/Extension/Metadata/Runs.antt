-- ===== src/Extension/Metadata/Runs.antt =====
-- The metadata exchange over any sequence of handshakes, messages and requests.
use pixel_scrape.Base.{
  ℕ, zero, suc, ◌≡◌, refl, sym, subst, ◌∙◌, inl, inr, Bool, true, false, Option, none, some, List,
  [], ◌∷◌, arith, ltb, ◌==◌, if◌then◌else◌, Bool-cases, get_or, set, all, All, All-append,
  none-ne-some,
}
use pixel_scrape.Base.Bytes.{Bytes, codes}
use pixel_scrape.Bencode.Parser.{Result, ok, failed, out_of_fuel}
use pixel_scrape.PieceManager.{concat}
use pixel_scrape.Torrent.Layout.{ok_inj, >>=-ok}
use pixel_scrape.Extension.{
  MetadataMessage, Peer, lookup, build_metadata_reject, parse_extended_handshake, no_peer,
  parse_metadata_message,
}
use pixel_scrape.Extension.Metadata.{
  MetadataExchange, Effect, sends, adopt_size, learn_size, handle_extension_handshake,
  assemble_metadata, store_piece, handle_parsed, handle_metadata_message, request_missing,
  request_metadata, Event, handshakes, messages, requests, step, run, finish_assembly,
}
use pixel_scrape.Extension.Metadata.Outcome.{
  all_received, IsRight, IsSound, Sound, incomplete-IsSound, Assembled-Sound,
  finish_assembly-Assembled,
}

pub all-get_or : (bs : List Bool) (i : ℕ) → all (λ b. b) bs ≡ true → get_or bs i true ≡ true
all-get_or [] i h = refl
all-get_or (b ∷ bs) zero h = ground arith
all-get_or (b ∷ bs) (suc i) h = all-get_or bs i (ground arith)

module _ (junk info_hash : Bytes) where
  same_state : (x : MetadataExchange) → IsSound junk info_hash x → Sound junk info_hash (x, [])
  same_state x s = (s, tt)

  assemble_metadata-Sound :
      (x : MetadataExchange)
      → x.info_hash ≡ info_hash
      → x.metadata_complete ≡ false
      → Sound junk info_hash (assemble_metadata junk x)
  unfolding assemble_metadata
  assemble_metadata-Sound x same part = elim (Bool-cases (all_received x)) [
    | inr missing ↦ rw missing (incomplete-IsSound junk info_hash x same part, tt)
    | inl whole ↦ rw whole (
        Assembled-Sound junk info_hash (concat x.received_pieces) x
          (finish_assembly junk (concat x.received_pieces) x) same part whole
          (finish_assembly-Assembled junk (concat x.received_pieces) x))
  ]

  store_piece-Sound :
      (piece : ℕ) (bytes : Bytes) (x : MetadataExchange)
      → IsSound junk info_hash x
      → Sound junk info_hash (store_piece junk piece bytes x)
  unfolding store_piece
  store_piece-Sound piece bytes x s = elim (Bool-cases (get_or x.piece_status piece true)) [
    | inl held ↦ rw held (same_state x s)
    | inr missing ↦ elim (Bool-cases x.metadata_complete) [
      | inl complete ↦
          let held = all-get_or x.piece_status piece (s.whole complete) in absurd (ground arith)
      | inr part ↦ rw missing (
          assemble_metadata-Sound
            (record x {
              received_pieces = set x.received_pieces piece bytes;
              piece_status = set x.piece_status piece true;
            })
            s.same_hash part)
    ]
  ]

  handle_parsed-Sound :
      (msg : MetadataMessage) (x : MetadataExchange)
      → IsSound junk info_hash x
      → Sound junk info_hash (handle_parsed junk msg x)
  unfolding handle_parsed
  handle_parsed-Sound msg x s = elim (Bool-cases (msg.msg_type == 0)) [
    | inl request ↦ rw request (s, rejection x.peer_ut_metadata_id)
    | inr other ↦ elim (Bool-cases (msg.msg_type == 1)) [
      | inr neither ↦ rw (other, neither) (same_state x s)
      | inl piece_data ↦ rw (other, piece_data) (by_size x.metadata_size)
    ]
  ]
    where
      rejection :
          (o : Option ℕ)
          → All
              (IsRight junk info_hash)
              (elim o [ none ↦ [] | some id ↦ sends id (build_metadata_reject id msg.piece) ∷ [] ])
      rejection none = tt
      rejection (some id) = (tt, tt)

      by_size :
          (o : Option ℕ)
          → Sound junk info_hash
              (elim o [ none ↦ (x, []) | some _ ↦ store_piece junk msg.piece msg.bytes x ])
      by_size none = same_state x s
      by_size (some _) = store_piece-Sound msg.piece msg.bytes x s

  adopt_size-IsSound :
      (size : ℕ) (x : MetadataExchange)
      → x.info_hash ≡ info_hash
      → x.metadata_complete ≡ false
      → IsSound junk info_hash (adopt_size size x)
  unfolding adopt_size
  adopt_size-IsSound size x same part = elim (Bool-cases (ltb 0 size)) [
    | inl named ↦ rw named (incomplete-IsSound junk info_hash _ same part)
    | inr unnamed ↦ rw unnamed (incomplete-IsSound junk info_hash x same part)
  ]

  learn_size-IsSound :
      (size : ℕ) (x : MetadataExchange)
      → IsSound junk info_hash x
      → IsSound junk info_hash (learn_size size x)
  unfolding learn_size
  learn_size-IsSound size x s = by_size x.metadata_size refl
    where
      by_size :
          (o : Option ℕ)
          → x.metadata_size ≡ o
          → IsSound junk info_hash (elim o [ none ↦ adopt_size size x | some _ ↦ x ])
      by_size (some _) e = s
      by_size none e = elim (Bool-cases x.metadata_complete) [
        | inl complete ↦ none-ne-some (sym e ∙ s.sized complete)
        | inr part ↦ adopt_size-IsSound size x s.same_hash part
      ]

  request_missing-All :
      (id i : ℕ) (status : List Bool) → All (IsRight junk info_hash) (request_missing id i status)
  unfolding request_missing
  request_missing-All id i [] = tt
  request_missing-All id i (true ∷ rest) = request_missing-All id (suc i) rest
  request_missing-All id i (false ∷ rest) = (tt, request_missing-All id (suc i) rest)

  request_metadata-All : (x : MetadataExchange) → All (IsRight junk info_hash) (request_metadata x)
  unfolding request_metadata
  request_metadata-All x = by_id x.peer_ut_metadata_id x.metadata_size
    where
      by_id :
          (o p : Option ℕ)
          → All (IsRight junk info_hash) (elim o [
            | none ↦ []
            | some id ↦ elim p [
              | none ↦ []
              | some _ ↦ if x.metadata_complete then [] else request_missing id 0 x.piece_status
            ]
          ])
      by_id none p = tt
      by_id (some id) none = tt
      by_id (some id) (some _) = elim (Bool-cases x.metadata_complete) [
        | inl complete ↦ rw complete tt
        | inr part ↦ rw part (request_missing-All id 0 x.piece_status)
      ]

  handshake-Sound :
      (fuel : ℕ) (payload : Bytes) (x x' : MetadataExchange)
      → IsSound junk info_hash x
      → handle_extension_handshake fuel payload x ≡ ok x'
      → IsSound junk info_hash x'
  unfolding handle_extension_handshake
  handshake-Sound fuel payload x x' s = by_result (parse_extended_handshake fuel payload no_peer)
    where
      by_result :
          (r : Result Peer)
          → (elim r [
            | out_of_fuel ↦ out_of_fuel
            | failed ↦ ok x
            | ok peer ↦ ok (
                learn_size peer.peer_metadata_size (record x {
                  peer_ut_metadata_id = lookup (codes "ut_metadata") peer.peer_extensions;
                }))
          ])
            ≡ ok x'
          → IsSound junk info_hash x'
      by_result out_of_fuel e = absurd (cc)
      by_result failed e = subst (IsSound junk info_hash) (ok_inj e) s
      by_result (ok peer) e = subst (IsSound junk info_hash) (ok_inj e) (
          learn_size-IsSound peer.peer_metadata_size
            (record x { peer_ut_metadata_id = lookup (codes "ut_metadata") peer.peer_extensions })
            (record {
              same_hash = s.same_hash;
              verified = s.verified;
              sized = s.sized;
              whole = s.whole;
            }))

  message-Sound :
      (fuel : ℕ) (payload : Bytes) (stale : MetadataMessage) (x : MetadataExchange)
      (r : MetadataExchange × List Effect)
      → IsSound junk info_hash x
      → handle_metadata_message junk fuel payload stale x ≡ ok r
      → Sound junk info_hash r
  unfolding handle_metadata_message
  message-Sound fuel payload stale x r s = by_result (parse_metadata_message fuel payload stale)
    where
      by_result :
          (m : Result MetadataMessage)
          → (elim m [
            | out_of_fuel ↦ out_of_fuel
            | failed ↦ ok (x, [])
            | ok msg ↦ ok (handle_parsed junk msg x)
          ])
            ≡ ok r
          → Sound junk info_hash r
      by_result out_of_fuel e = absurd (cc)
      by_result failed e = subst (Sound junk info_hash) (ok_inj e) (same_state x s)
      by_result (ok msg) e = subst (Sound junk info_hash) (ok_inj e) (handle_parsed-Sound msg x s)

  step-Sound :
      (fuel : ℕ) (x : MetadataExchange) (event : Event) (r : MetadataExchange × List Effect)
      → IsSound junk info_hash x
      → step junk fuel x event ≡ ok r
      → Sound junk info_hash r
  unfolding step
  step-Sound fuel x (handshakes payload) r s e =
      let (x', told, e') = >>=-ok (handle_extension_handshake fuel payload x) _ e in
      subst (Sound junk info_hash) (ok_inj e')
        (same_state x' (handshake-Sound fuel payload x x' s told))
  step-Sound fuel x (messages payload stale) r s e = message-Sound fuel payload stale x r s e
  step-Sound fuel x requests r s e =
      subst (Sound junk info_hash) (ok_inj e) (s, request_metadata-All x)

  -- Whatever peers send, and in whatever order: what is given to the callback has the torrent's
  -- hash, and a state that is complete holds data with that hash and of the size agreed on.
  pub run-Sound :
      (fuel : ℕ) (x : MetadataExchange) (events : List Event) (r : MetadataExchange × List Effect)
      → IsSound junk info_hash x
      → run junk fuel x events ≡ ok r
      → Sound junk info_hash r
  unfolding run
  run-Sound fuel x [] r s e = subst (Sound junk info_hash) (ok_inj e) (same_state x s)
  run-Sound fuel x (event ∷ events) r s e =
      let (now, stepped, e1) = >>=-ok (step junk fuel x event) _ e in
      let (later, rest, e2) = >>=-ok (run junk fuel now.0 events) _ e1 in
      let (s1, right1) = step-Sound fuel x event now s stepped in
      let (s2, right2) = run-Sound fuel now.0 events later s1 rest in
      subst (Sound junk info_hash) (ok_inj e2)
        (s2, All-append (IsRight junk info_hash) now.1 later.1 right1 right2)
