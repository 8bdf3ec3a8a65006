-- ===== src/Sha1/Examples.antt =====
-- The hash at concrete messages.
use pixel_scrape.Base.{◌*◌, ◌/◌, ◌≡◌, refl, [], ◌∷◌, ◌++◌, arith, length, replicate}
use pixel_scrape.Base.Bytes.{Bytes, codes}
use pixel_scrape.Sha1.{initial_words, new, update, compress, digest, hash}
use pixel_scrape.Sha1.Stream.{IsReady, update-update}
use pixel_scrape.Sha1.Blocks.{pad, fold_blocks, hash-eq-fold_blocks}

abbrev junk : Bytes
junk = replicate 64 7

-- The test vector of FIPS 180 for a message of one block.
hash_abc :
    hash junk (codes "abc")
    ≡ 169 ∷ 153 ∷ 62 ∷ 54 ∷ 71 ∷ 6 ∷ 129 ∷ 106 ∷ 186 ∷ 62 ∷ 37 ∷ 113 ∷ 120 ∷ 80 ∷ 194 ∷ 108 ∷ 156
      ∷ 208 ∷ 216 ∷ 157 ∷ []
unfolding hash compress
hash_abc = refl

junk-IsReady : IsReady (new junk)
unfolding new
junk-IsReady = record { full_size = refl; room = omega arith }

-- 40 bytes and 30 bytes, across a block boundary.
update-update_example :
    update (update (new junk) (replicate 40 1)) (replicate 30 2)
    ≡ update (new junk) (replicate 40 1 ++ replicate 30 2)
update-update_example = update-update (new junk) (replicate 40 1) (replicate 30 2) junk-IsReady

hash-eq-fold_blocks_example :
    (length (pad (codes "abc")) ≡ 64 * (length (pad (codes "abc")) / 64))
    × (hash junk (codes "abc")
        ≡ digest (fold_blocks (length (pad (codes "abc")) / 64) initial_words (pad (codes "abc"))))
hash-eq-fold_blocks_example = hash-eq-fold_blocks junk (codes "abc") refl
