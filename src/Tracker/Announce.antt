-- ===== src/Tracker/Announce.antt =====
-- The URL of an announce, read back by the rules of percent-encoding.
use pixel_scrape.Base.{
  ℕ, ◌+◌, ◌*◌, ◌<◌, ◌≡◌, refl, ap, ◌∙◌, inl, inr, Bool, true, false, not, all, ◌&&◌, ◌||◌, none,
  some, [], ◌∷◌, ◌++◌, arith, ◌==◌, if◌then◌else◌, below, below_at, Bool-cases, All,
}
use pixel_scrape.Base.Bytes.{Bytes, AreBytes, codes}
use pixel_scrape.StateManager.{hex_byte, hex_value}
use pixel_scrape.Tracker.{is_alnum, is_unreserved, url_encode}

-- Two hexadecimal digits behind a percent sign stand for a byte, all else for itself.
unfoldable pub digit_value : ℕ → ℕ
digit_value c = elim (hex_value c) [ none ↦ 0 | some x ↦ x ]

unfoldable pub url_decode : Bytes → Bytes
unfolding digit_value
url_decode (c ∷ d ∷ e ∷ cs) = elim (c == b'%') [
  | true ↦ (digit_value d * 16 + digit_value e) ∷ url_decode cs
  | false ↦ c ∷ url_decode (d ∷ e ∷ cs)
]
url_decode cs = cs

-- The unreserved characters of RFC 3986 and the percent sign.
abbrev pub safe_characters : Bytes
safe_characters = codes "ABCDEFGHIJKLMNOPQRSTUVWXYZabcdefghijklmnopqrstuvwxyz0123456789-._~%"

unfoldable pub is_safe : ℕ → Bool
is_safe c = not (all (λ x. not (x == c)) safe_characters)

abbrev pub IsSafe : ℕ → Type 0
IsSafe c = is_safe c ≡ true

abbrev is_read : ℕ → Bool
is_read b = elim (hex_byte b) [
  | d ∷ e ∷ [] ↦ (digit_value d * 16 + digit_value e == b) && is_safe d && is_safe e
  | _ ↦ false
]

all_read : below 256 is_read ≡ true
unfolding hex_byte digit_value hex_value is_safe
all_read = refl

read_at : (b : ℕ) → b < 256 → is_read b ≡ true
read_at b h = below_at 256 b is_read all_read h

-- What is not encoded may stand for itself.
abbrev is_kept : ℕ → Bool
is_kept b = not (is_unreserved b) || is_safe b

all_kept : below 256 is_kept ≡ true
unfolding is_unreserved is_alnum is_safe
all_kept = refl

unreserved-IsSafe : (b : ℕ) → b < 256 → is_unreserved b ≡ true → IsSafe b
unreserved-IsSafe b h u = ground (arith, u, below_at 256 b is_kept all_kept h)

percent-IsSafe : IsSafe b'%'
unfolding is_safe
percent-IsSafe = refl

unreserved-ne : (c : ℕ) → is_unreserved c ≡ true → (c == b'%') ≡ false
unfolding is_unreserved is_alnum
unreserved-ne c h = ground arith

url_decode-plain :
    (c : ℕ) (cs : Bytes) → (c == b'%') ≡ false → url_decode (c ∷ cs) ≡ c ∷ url_decode cs
unfolding url_decode
url_decode-plain c [] h = refl
url_decode-plain c (d ∷ []) h = refl
url_decode-plain c (d ∷ e ∷ cs) h =
    ap
      (λ t. elim t [
        | true ↦ (digit_value d * 16 + digit_value e) ∷ url_decode cs
        | false ↦ c ∷ url_decode (d ∷ e ∷ cs)
      ])
      h

url_decode-hex_byte :
    (b : ℕ) (cs : Bytes) → b < 256 → url_decode (b'%' ∷ (hex_byte b ++ cs)) ≡ b ∷ url_decode cs
unfolding url_decode hex_byte
url_decode-hex_byte b cs h = ap (λ n. n ∷ url_decode cs) (ground (arith, read_at b h))

abbrev IsRead : Bytes → Bytes → Type 0
IsRead xs text = (url_decode text ≡ xs) × All IsSafe text

-- One more byte.
encode_one :
    (b : ℕ) (bs text : Bytes)
    → b < 256
    → IsRead bs text
    → IsRead (b ∷ bs) ((if is_unreserved b then b ∷ [] else b'%' ∷ hex_byte b) ++ text)
unfolding hex_byte
encode_one b bs text h (same, safe) = elim (Bool-cases (is_unreserved b)) [
  | inl e ↦ rw e (
    url_decode-plain b text (unreserved-ne b e) ∙ ap (λ ys. b ∷ ys) same,
    (unreserved-IsSafe b h e, safe),
  )
  | inr e ↦ rw e (
    url_decode-hex_byte b text h ∙ ap (λ ys. b ∷ ys) same,
    (percent-IsSafe, (ground (arith, read_at b h), (ground (arith, read_at b h), safe))),
  )
]

-- Percent-decoding gives back the bytes that `url_encode` was given, and what it writes are letters,
-- digits, the characters - . _ ~ and percent signs only.
pub url_decode-url_encode :
    (xs : Bytes) → AreBytes xs → (url_decode (url_encode xs) ≡ xs) × All IsSafe (url_encode xs)
unfolding url_encode url_decode
url_decode-url_encode [] h = (refl, tt)
url_decode-url_encode (b ∷ bs) (h, hs) =
    encode_one b bs (url_encode bs) h (url_decode-url_encode bs hs)
