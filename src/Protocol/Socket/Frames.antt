-- ===== src/Protocol/Socket/Frames.antt =====
-- The packet that sendPacket builds.
use open_fusion.Common.{
  ℕ, ◌+◌, ◌≤◌, ◌≡◌, sym, ◌∙◌, ap, false, some, List, ◌++◌, arith, length, take, drop, length-append,
  length-take, take-length-append, drop-length-append, ltb,
}
use open_fusion.Common.Words.{word_bytes, bytes_word, length-word_bytes, bytes_word-word_bytes}
use open_fusion.Common.Int.{pos}
use open_fusion.Protocol.Cipher.{◌>>=◌, key_length, encrypt_data, decrypt_data}
use open_fusion.Protocol.Cipher.RoundTrip.{cipher_in_bounds, decrypt_data-encrypt_data}
use open_fusion.Protocol.Packets.{cn_packet_buffer_size}
use open_fusion.Protocol.Socket.{full_packet}

-- Splitting at a known length.
pub take_front : (n : ℕ) (xs ys : List ℕ) → length xs ≡ n → take n (xs ++ ys) ≡ xs
take_front n xs ys h = ap (λ (k : ℕ). take k (xs ++ ys)) (sym h) ∙ take-length-append xs ys

pub drop_front : (n : ℕ) (xs ys : List ℕ) → length xs ≡ n → drop n (xs ++ ys) ≡ ys
drop_front n xs ys h = ap (λ (k : ℕ). drop k (xs ++ ys)) (sym h) ∙ drop-length-append xs ys

abbrev pub plain_body : List ℕ → ℕ → ℕ → List ℕ
plain_body buf type size = word_bytes 4 type ++ take size buf

pub length-plain_body :
    (buf : List ℕ) (type size : ℕ)
    → size ≤ length buf
    → length (plain_body buf type size) ≡ size + 4
length-plain_body buf type size h = omega (
  arith,
  length-append (word_bytes 4 type) (take size buf),
  length-word_bytes 4 type,
  length-take size buf,
)

-- For a body of `size` bytes that fits the buffer of 4096 with its 8 bytes of header, and an 8-byte
-- key, sendPacket builds a frame inside its buffer: `size` + 8 bytes, of which the first four say
-- `size` + 4, and the others decrypt under the same key to the type and the body.
pub full_packet_lem :
    (key buf : List ℕ) (type size : ℕ)
    → length key ≡ key_length
    → size + 8 ≤ cn_packet_buffer_size
    → size ≤ length buf
    → (frame : List ℕ) × (full_packet key buf type size ≡ some frame)
      × (length frame ≡ size + 8)
      × (bytes_word (take 4 frame) ≡ size + 4)
      × (decrypt_data (drop 4 frame) key (pos (size + 4))
          ≡ some (plain_body buf type size, pos (size + 4)))
unfolding full_packet
full_packet_lem key buf type size keyed fits inside =
    let n = size + 4 in
    let plain = plain_body buf type size in
    let len = length-plain_body buf type size inside in
    let (body, e, same, _) = (cipher_in_bounds key n keyed plain (omega arith)).0 in
    let header = word_bytes 4 n in
    let hl = length-word_bytes 4 n in
    (
      header ++ body,
      rw (ltb_no cn_packet_buffer_size (size + 8) fits, ltb_no (length buf) size inside, e),
      omega (arith, length-append header body, hl),
      ap bytes_word (take_front 4 header body hl) ∙ bytes_word-word_bytes n (omega arith),
      ap (λ (t : List ℕ). decrypt_data t key (pos n)) (drop_front 4 header body hl)
          ∙ decrypts plain body e (decrypt_data-encrypt_data key n keyed plain (omega arith)).0,
    )
  where
    ltb_no : (a b : ℕ) → b ≤ a → ltb a b ≡ false
    ltb_no a b h = ground arith

    decrypts :
        (plain body : List ℕ)
        → encrypt_data plain key (pos (size + 4)) ≡ some (body, pos (size + 4))
        → (encrypt_data plain key (pos (size + 4)) >>= λ (c, m). decrypt_data c key m)
          ≡ some (plain, pos (size + 4))
        → decrypt_data body key (pos (size + 4)) ≡ some (plain, pos (size + 4))
    decrypts plain body e round = rw e at round
