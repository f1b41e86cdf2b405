-- ===== src/Common/Words.antt =====
-- Machine words in memory, little endian, as the hosts of the server lay them out.
use open_fusion.Common.{
  ℕ, zero, suc, ◌+◌, ◌*◌, ◌/◌, ◌%◌, ◌^◌, ◌<◌, ◌≡◌, refl, List, [], ◌∷◌, arith, length, All,
}

-- The `k` bytes of a word of `k` bytes.
unfoldable pub word_bytes : ℕ → ℕ → List ℕ
word_bytes zero w = []
word_bytes (suc k) w = w % 256 ∷ word_bytes k (w / 256)

-- The word that bytes stand for.
unfoldable pub bytes_word : List ℕ → ℕ
bytes_word [] = 0
bytes_word (b ∷ bs) = b + 256 * bytes_word bs

pub length-word_bytes : (k w : ℕ) → length (word_bytes k w) ≡ k
unfolding word_bytes
length-word_bytes zero w = refl
length-word_bytes (suc k) w = omega (arith, length-word_bytes k (w / 256))

-- A word of four bytes, stored and loaded again.
pub bytes_word-word_bytes : (w : ℕ) → w < 2 ^ 32 → bytes_word (word_bytes 4 w) ≡ w
unfolding word_bytes bytes_word
bytes_word-word_bytes w h = omega arith

pub word_bytes-All-lt : (k w : ℕ) → All (λ b. b < 256) (word_bytes k w)
unfolding word_bytes
word_bytes-All-lt zero w = tt
word_bytes-All-lt (suc k) w = (omega arith, word_bytes-All-lt k (w / 256))
