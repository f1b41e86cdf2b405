-- ===== src/Protocol/Cipher.antt =====
-- The namespace CNSocketEncryption of src/core/CNProtocol.cpp. A buffer is a list of bytes; a read
-- or a write outside it is `none`. `int` sizes are integers, since a client chooses them.
pub mod Swap
pub mod Shuffle
pub mod Xor
pub mod RoundTrip
mod Tests
use open_fusion.Common.{
  ℕ, zero, suc, ◌+◌, ◌-◌, ◌*◌, ◌/◌, ◌%◌, ◌^◌, bit_xor, Option, none, some, List, ltb, leb,
  if◌then◌else◌, get_elem?, set, ◌∷◌, [],
}
use open_fusion.Common.Int.{ℤ, pos, negsuc, pattern32, to_size_t, ◌+ℤ◌}

-- A buffer operation that can leave the buffer yields none.
infixl 5 ◌>>=◌
abbrev pub ◌>>=◌ {ℓ κ} : {A : Type ℓ} {B : Type κ} → Option A → (A → Option B) → Option B
none >>= f = none
some a >>= f = f a

-- keyLength
abbrev pub key_length : ℕ
key_length = 8

-- defaultKey: "m@rQn~W#"
unfoldable pub default_key : List ℕ
default_key = b'm' ∷ b'@' ∷ b'r' ∷ b'Q' ∷ b'n' ∷ b'~' ∷ b'W' ∷ b'#' ∷ []

-- The exchange of data[num4] and data[num5].
unfoldable pub exchange : List ℕ → ℕ → ℕ → Option (List ℕ)
exchange data_ num4 num5 = do
  b ← get_elem? data_ num4
  c ← get_elem? data_ num5
  some (set (set data_ num4 c) num5 b)

-- num3++; if (num3 > ERSize / 2) num3 = 0;
unfoldable pub next_num3 : ℕ → ℕ → ℕ
next_num3 er_size num3 = if ltb (er_size / 2) (num3 + 1) then 0 else num3 + 1

-- The loop of Encrypt_byte_change_A, on fuel; it ends with the buffer and the value returned.
unfoldable pub change_loop : ℕ → ℕ → ℕ → ℕ → ℕ → List ℕ → Option (List ℕ × ℤ)
change_loop zero er_size size num num3 data_ = none
change_loop (suc fuel) er_size size num num3 data_ =
    let rest =
      exchange data_ (num + num3) (num + (er_size - 1 - num3))
      >>= change_loop fuel er_size size (num + er_size) (next_num3 er_size num3) in
    if leb (num + er_size) size
    then rest
    else some (data_, pos (num + (er_size - (num + er_size - size))))

-- Encrypt_byte_change_A. At a negative size the test of the loop fails at once.
unfoldable pub encrypt_byte_change_a : ℕ → List ℕ → ℤ → Option (List ℕ × ℤ)
encrypt_byte_change_a er_size data_ (pos size) = change_loop (suc size) er_size size 0 0 data_
encrypt_byte_change_a er_size data_ (negsuc n) = some (data_, negsuc n)

-- The loop of xorData at index i, with `left` rounds to go.
unfoldable pub xor_loop : ℕ → ℕ → List ℕ → List ℕ → Option (List ℕ)
xor_loop zero i buffer key = some buffer
xor_loop (suc left) i buffer key = do
  b ← get_elem? buffer i
  k ← get_elem? key (i % key_length)
  xor_loop left (i + 1) (set buffer i (bit_xor b k)) key

unfoldable pub xor_data : List ℕ → List ℕ → ℤ → Option (List ℕ × ℤ)
xor_data buffer key (pos size) = do out ← xor_loop size 0 buffer key; some (out, pos size)
xor_data buffer key (negsuc n) = some (buffer, negsuc n)

-- `size % (keyLength / 2 + 1) * 2 + keyLength`, in `unsigned int`.
unfoldable pub er_size_of : ℤ → ℕ
er_size_of size = pattern32 size % (key_length / 2 + 1) * 2 + key_length

unfoldable pub encrypt_data : List ℕ → List ℕ → ℤ → Option (List ℕ × ℤ)
encrypt_data buffer key size = do
  (mixed, size2) ← xor_data buffer key size
  encrypt_byte_change_a (er_size_of size) mixed size2

unfoldable pub decrypt_data : List ℕ → List ℕ → ℤ → Option (List ℕ × ℤ)
decrypt_data buffer key size = do
  (mixed, size2) ← encrypt_byte_change_a (er_size_of size) buffer size
  xor_data mixed key size2

-- (uint64_t)(iv + 1): the sum is an `int`, then converted.
iv_factor : ℤ → ℕ
iv_factor iv = to_size_t (iv +ℤ pos 1)

-- createNewKey, over the word that the default key is in memory.
pub create_new_key : ℕ → ℕ → ℤ → ℤ → ℕ
unfolding iv_factor
create_new_key default_word u_time iv1 iv2 =
    default_word * (u_time * iv_factor iv1 % 2 ^ 64 * iv_factor iv2 % 2 ^ 64) % 2 ^ 64
