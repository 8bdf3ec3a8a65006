-- ===== src/Extension/Metadata/Stuck.antt =====
-- A metadata exchange whose pieces are all there, and wrong.
use pixel_scrape.Base.{
  ℕ, suc, ◌≡◌, refl, sym, ap, subst, inl, inr, Bool, true, false, Option, none, some, List, [], ◌∷◌,
  arith, ◌==◌, if◌then◌else◌, Bool-cases, all, All, All-append,
}
use pixel_scrape.Base.Bytes.{Bytes, codes}
use pixel_scrape.Bencode.Parser.{Result, ok, failed, out_of_fuel}
use pixel_scrape.Torrent.Layout.{ok_inj, >>=-ok}
use pixel_scrape.Extension.{
  MetadataMessage, Peer, lookup, build_metadata_reject, parse_extended_handshake, no_peer,
  parse_metadata_message,
}
use pixel_scrape.Extension.Metadata.{
  MetadataExchange, Effect, sends, completes, adopt_size, learn_size, handle_extension_handshake,
  store_piece, handle_parsed, handle_metadata_message, request_missing, request_metadata, Event,
  handshakes, messages, requests, step, run,
}
use pixel_scrape.Extension.Metadata.Outcome.{all_received}
use pixel_scrape.Extension.Metadata.Runs.{all-get_or}

-- All pieces of a known size are there, and did not verify.
pub record IsStuck (x : MetadataExchange) : Type 0 where
  pub size : ℕ
  pub sized : x.metadata_size ≡ some size
  pub whole : all_received x ≡ true
  pub incomplete : x.metadata_complete ≡ false

abbrev pub IsNoCompletion : Effect → Type 0
IsNoCompletion (sends _ _) = Unit
IsNoCompletion (completes _) = ⊥

abbrev pub Stays : MetadataExchange × List Effect → Type 0
Stays (x, effects) = IsStuck x × All IsNoCompletion effects

request_missing_whole :
    (id i : ℕ) (status : List Bool) → all (λ b. b) status ≡ true → request_missing id i status ≡ []
unfolding request_missing
request_missing_whole id i [] h = refl
request_missing_whole id i (true ∷ rest) h = request_missing_whole id (suc i) rest (ground arith)
request_missing_whole id i (false ∷ rest) h = absurd (ground arith)

-- Nothing is asked for any more.
request_metadata-stuck : (x : MetadataExchange) → IsStuck x → request_metadata x ≡ []
unfolding request_metadata
request_metadata-stuck x s = by_id x.peer_ut_metadata_id x.metadata_size
  where
    by_id :
        (o p : Option ℕ)
        → (elim o [
          | none ↦ []
          | some id ↦ elim p [
            | none ↦ []
            | some _ ↦ if x.metadata_complete then [] else request_missing id 0 x.piece_status
          ]
        ])
          ≡ []
    by_id none p = refl
    by_id (some id) none = refl
    by_id (some id) (some _) =
        let none_missing = request_missing_whole id 0 x.piece_status s.whole in
        let part = s.incomplete in rw part none_missing

module _ (junk : Bytes) where
  handle_parsed-Stays :
      (msg : MetadataMessage) (x : MetadataExchange) → IsStuck x → Stays (handle_parsed junk msg x)
  unfolding handle_parsed store_piece
  handle_parsed-Stays msg x s = elim (Bool-cases (msg.msg_type == 0)) [
    | inl request ↦ rw request (s, rejection x.peer_ut_metadata_id)
    | inr other ↦ elim (Bool-cases (msg.msg_type == 1)) [
      | inr neither ↦ rw (other, neither) (s, tt)
      | inl piece_data ↦ rw (other, piece_data) (by_size x.metadata_size)
    ]
  ]
    where
      rejection :
          (o : Option ℕ)
          → All IsNoCompletion
              (elim o [ none ↦ [] | some id ↦ sends id (build_metadata_reject id msg.piece) ∷ [] ])
      rejection none = tt
      rejection (some id) = (tt, tt)

      by_size :
          (o : Option ℕ)
          → Stays (elim o [ none ↦ (x, []) | some _ ↦ store_piece junk msg.piece msg.bytes x ])
      by_size none = (s, tt)
      by_size (some _) = let held = all-get_or x.piece_status msg.piece s.whole in rw held (s, tt)

  learn_size-IsStuck :
      (n : ℕ) (id : Option ℕ) (x : MetadataExchange)
      → IsStuck x
      → IsStuck (learn_size n (record x { peer_ut_metadata_id = id }))
  learn_size-IsStuck n id x s =
      let y = record x { peer_ut_metadata_id = id } in
      let same : learn_size n y ≡ y =
        unfold learn_size in ap (λ o. elim o [ none ↦ adopt_size n y | some _ ↦ y ]) s.sized in
      subst IsStuck (sym same)
        (record { size = s.size; sized = s.sized; whole = s.whole; incomplete = s.incomplete })

  handshake-IsStuck :
      (fuel : ℕ) (payload : Bytes) (x x' : MetadataExchange)
      → IsStuck x
      → handle_extension_handshake fuel payload x ≡ ok x'
      → IsStuck x'
  unfolding handle_extension_handshake
  handshake-IsStuck fuel payload x x' s = by_result (parse_extended_handshake fuel payload no_peer)
    where
      by_result :
          (r : Result Peer)
          → (elim r [
            | out_of_fuel ↦ out_of_fuel
            | failed ↦ ok x
            | ok peer ↦ ok (
                learn_size peer.peer_metadata_size (record x {
                  peer_ut_metadata_id = lookup (codes "ut_metadata") peer.peer_extensions;
                }))
          ])
            ≡ ok x'
          → IsStuck x'
      by_result out_of_fuel e = absurd (cc)
      by_result failed e = subst IsStuck (ok_inj e) s
      by_result (ok peer) e = subst IsStuck (ok_inj e) (
          learn_size-IsStuck peer.peer_metadata_size
            (lookup (codes "ut_metadata") peer.peer_extensions) x s)

  message-Stays :
      (fuel : ℕ) (payload : Bytes) (stale : MetadataMessage) (x : MetadataExchange)
      (r : MetadataExchange × List Effect)
      → IsStuck x
      → handle_metadata_message junk fuel payload stale x ≡ ok r
      → Stays r
  unfolding handle_metadata_message
  message-Stays fuel payload stale x r s = by_result (parse_metadata_message fuel payload stale)
    where
      by_result :
          (m : Result MetadataMessage)
          → (elim m [
            | out_of_fuel ↦ out_of_fuel
            | failed ↦ ok (x, [])
            | ok msg ↦ ok (handle_parsed junk msg x)
          ])
            ≡ ok r
          → Stays r
      by_result out_of_fuel e = absurd (cc)
      by_result failed e = subst Stays (ok_inj e) (s, tt)
      by_result (ok msg) e = subst Stays (ok_inj e) (handle_parsed-Stays msg x s)

  step-Stays :
      (fuel : ℕ) (x : MetadataExchange) (event : Event) (r : MetadataExchange × List Effect)
      → IsStuck x
      → step junk fuel x event ≡ ok r
      → Stays r
  unfolding step
  step-Stays fuel x (handshakes payload) r s e =
      let (x', told, e') = >>=-ok (handle_extension_handshake fuel payload x) _ e in
      subst Stays (ok_inj e') (handshake-IsStuck fuel payload x x' s told, tt)
  step-Stays fuel x (messages payload stale) r s e = message-Stays fuel payload stale x r s e
  step-Stays fuel x requests r s e =
      subst Stays (ok_inj e) (s, subst (All IsNoCompletion) (sym (request_metadata-stuck x s)) tt)

  -- There is no way out: whatever comes, the exchange never completes, and its callback is never
  -- called.
  pub run-Stays :
      (fuel : ℕ) (x : MetadataExchange) (events : List Event) (r : MetadataExchange × List Effect)
      → IsStuck x
      → run junk fuel x events ≡ ok r
      → Stays r
  unfolding run
  run-Stays fuel x [] r s e = subst Stays (ok_inj e) (s, tt)
  run-Stays fuel x (event ∷ events) r s e =
      let (now, stepped, e1) = >>=-ok (step junk fuel x event) _ e in
      let (later, rest, e2) = >>=-ok (run junk fuel now.0 events) _ e1 in
      let (s1, quiet1) = step-Stays fuel x event now s stepped in
      let (s2, quiet2) = run-Stays fuel now.0 events later s1 rest in
      subst Stays (ok_inj e2) (s2, All-append IsNoCompletion now.1 later.1 quiet1 quiet2)
