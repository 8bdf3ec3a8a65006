-- ===== src/Tracker/Reply.antt =====
-- The reply of a tracker, an HTTP response with a bencoded body.
use pixel_scrape.Base.{
  ℕ, suc, ◌+◌, ◌*◌, ◌/◌, ◌%◌, ◌^◌, ◌≤◌, ◌<◌, ◌≡◌, refl, ap, ◌∙◌, Bool, true, false, not, all, some,
  none, List, [], ◌∷◌, ◌++◌, arith, ◌==◌, length, length-append, All, is_empty,
}
use pixel_scrape.Base.Bytes.{Bytes, codes, equal, size_mod}
use pixel_scrape.Bencode.{Fields, string, dict, find, encode}
use pixel_scrape.Bencode.Parser.{Result, ok, failed, ◌>>=◌}
use pixel_scrape.Bencode.RoundTrip.Canonical.{IsCanonical, calls}
use pixel_scrape.Bencode.Writing.{Reads-canonical, parse-Reads}
use pixel_scrape.Torrent.{TorrentMetadata}
use pixel_scrape.Tracker.{
  PeerInfo, Report, build_tracker_url, split_compact, parse_compact_peers, body_of, read_reply,
  peers_of, read_body, read_response, fetch, get_peers,
}

-- The compact form of BEP 23: four bytes of the address and the port in network order.
unfoldable pub compact : List PeerInfo → Bytes
compact [] = []
compact (p ∷ ps) = p.ip ++ (p.port / 256) ∷ (p.port % 256) ∷ compact ps

abbrev pub IsPeer : PeerInfo → Type 0
IsPeer p = (length p.ip ≡ 4) × (p.port < 2 ^ 16)

split_compact-one :
    (ip : Bytes) (port n : ℕ) (rest : Bytes)
    → length ip ≡ 4
    → split_compact (suc n) (ip ++ (port / 256) ∷ (port % 256) ∷ rest)
      ≡ record { ip = ip; port = port } ∷ split_compact n rest
unfolding split_compact
split_compact-one (a ∷ b ∷ c ∷ d ∷ []) port n rest h =
    let whole : port / 256 * 256 + port % 256 ≡ port = omega arith in
    ap (λ q. record { ip = a ∷ b ∷ c ∷ d ∷ []; port = q } ∷ split_compact n rest) whole
split_compact-one [] port n rest h = absurd (omega (arith, h))
split_compact-one (a ∷ []) port n rest h = absurd (omega (arith, h))
split_compact-one (a ∷ b ∷ []) port n rest h = absurd (omega (arith, h))
split_compact-one (a ∷ b ∷ c ∷ []) port n rest h = absurd (omega (arith, h))
split_compact-one (a ∷ b ∷ c ∷ d ∷ e ∷ xs) port n rest h = absurd (omega (arith, h))

split_compact-compact :
    (ps : List PeerInfo) → All IsPeer ps → split_compact (length ps) (compact ps) ≡ ps
unfolding split_compact compact
split_compact-compact [] h = refl
split_compact-compact (p ∷ ps) (one, others) =
    split_compact-one p.ip p.port (length ps) (compact ps) one.0
    ∙ ap (λ qs. p ∷ qs) (split_compact-compact ps others)

length-compact_one :
    (ip : Bytes) (a b : ℕ) (rest : Bytes)
    → length ip ≡ 4
    → length (ip ++ a ∷ b ∷ rest) ≡ 6 + length rest
length-compact_one ip a b rest h = omega (arith, h, length-append ip (a ∷ b ∷ rest))

length-compact : (ps : List PeerInfo) → All IsPeer ps → length (compact ps) ≡ 6 * length ps
unfolding compact
length-compact [] h = refl
length-compact (p ∷ ps) (one, others) = omega (
  arith,
  length-compact_one p.ip (p.port / 256) (p.port % 256) (compact ps) one.0,
  length-compact ps others,
)

parse_compact_peers-compact :
    (ps : List PeerInfo) → All IsPeer ps → parse_compact_peers (compact ps) ≡ ok ps
unfolding parse_compact_peers
parse_compact_peers-compact ps h =
    let size = length-compact ps h in
    let whole : (length (compact ps) % 6 == 0) ≡ true = ground (arith, size) in
    let count : length (compact ps) / 6 ≡ length ps = omega (arith, size) in
    rw (whole, count) (ap ok (split_compact-compact ps h))

-- An HTTP response: the lines of its head, an empty line and the body.
unfoldable pub response : List Bytes → Bytes → Bytes
response [] body = 13 ∷ 10 ∷ body
response (line ∷ lines) body = line ++ 13 ∷ 10 ∷ response lines body

abbrev is_no_return : ℕ → Bool
is_no_return c = not (c == 13)

abbrev pub IsLine : Bytes → Type 0
IsLine line = (is_empty line ≡ false) × (all is_no_return line ≡ true)

body_of-other : (c : ℕ) (cs : Bytes) → (c == 13) ≡ false → body_of (c ∷ cs) ≡ body_of cs
unfolding body_of equal
body_of-other c cs h = rw h refl

no_return_cons :
    (x : ℕ) (xs : Bytes)
    → all is_no_return (x ∷ xs) ≡ true
    → ((x == 13) ≡ false) × (all is_no_return xs ≡ true)
no_return_cons x xs h = (ground (arith, h), ground (arith, h))

body_of-append : (xs ys : Bytes) → all is_no_return xs ≡ true → body_of (xs ++ ys) ≡ body_of ys
body_of-append [] ys h = refl
body_of-append (x ∷ xs) ys h =
    let plain = no_return_cons x xs h in
    body_of-other x (xs ++ ys) plain.0 ∙ body_of-append xs ys plain.1

body_of-blank : (body : Bytes) → body_of (13 ∷ 10 ∷ 13 ∷ 10 ∷ body) ≡ some body
unfolding body_of equal
body_of-blank body = refl

body_of-line_end :
    (c : ℕ) (cs : Bytes) → (c == 13) ≡ false → body_of (13 ∷ 10 ∷ c ∷ cs) ≡ body_of (c ∷ cs)
unfolding body_of equal
body_of-line_end c cs h = rw h refl

-- The body is found behind the head.
body_of-response :
    (line : Bytes) (lines : List Bytes) (body : Bytes)
    → All IsLine (line ∷ lines)
    → body_of (response (line ∷ lines) body) ≡ some body
unfolding response
body_of-response line [] body ((_, plain), _) =
    body_of-append line (13 ∷ 10 ∷ 13 ∷ 10 ∷ body) plain ∙ body_of-blank body
body_of-response line ([] ∷ lines) body (_, ((full, _), _)) = absurd (cc full)
body_of-response line ((c ∷ cs) ∷ lines) body ((_, plain), rest) =
    body_of-append line (13 ∷ 10 ∷ response ((c ∷ cs) ∷ lines) body) plain
    ∙ body_of-line_end c (cs ++ 13 ∷ 10 ∷ response lines body) (no_return_cons c cs rest.0.1).0
    ∙ body_of-response (c ∷ cs) lines body rest

-- A tracker that answers with the compact form of a list of peers, in a bencoded dictionary without
-- a failure reason behind the head of an HTTP response, makes `get_peers` return these peers.
pub get_peers-compact :
    (https_get http_get : Bytes → Result Bytes) (fuel : ℕ) (m : TorrentMetadata) (r : Report)
    (line : Bytes) (lines : List Bytes) (fs : Fields) (peers : List PeerInfo)
    → fetch https_get http_get (build_tracker_url m r)
      ≡ ok (response (line ∷ lines) (encode (dict fs)))
    → All IsLine (line ∷ lines)
    → IsCanonical (dict fs)
    → length (encode (dict fs)) < size_mod
    → calls (dict fs) ≤ fuel
    → find (codes "failure reason") fs ≡ none
    → find (codes "peers") fs ≡ some (string (compact peers))
    → All IsPeer peers
    → get_peers https_get http_get fuel m r ≡ ok peers
unfolding get_peers read_response read_body read_reply peers_of
get_peers-compact https_get http_get fuel m r line lines fs peers answer head canonical small enough
      no_failure listed ok_peers =
    let parsed =
      parse-Reads (encode (dict fs)) (dict fs) (calls (dict fs)) fuel
        (Reads-canonical (dict fs) canonical) small enough in
    ap (λ x. x >>= read_response fuel) answer
    ∙ ap (λ o. elim o [ none ↦ failed | some body ↦ read_body fuel body ])
        (body_of-response line lines (encode (dict fs)) head)
    ∙ ap (λ x. x >>= λ (v, _). elim v [ dict fs ↦ read_reply fs | _ ↦ failed ]) parsed
    ∙ ap (λ o. elim o [ some (string _) ↦ failed | _ ↦ peers_of (find (codes "peers") fs) ])
        no_failure
    ∙ ap peers_of listed
    ∙ parse_compact_peers-compact peers ok_peers
