-- ===== src/Protocol/Cipher/Tests.antt =====
-- Tests and applications of the cipher's theorems.
use open_fusion.Common.{drop, ℕ, ◌≡◌, refl, List, [], ◌∷◌, some, arith, length}
use open_fusion.Common.Int.{pos, negsuc, ◌+ℤ◌}
use open_fusion.Protocol.Cipher.{
  ◌>>=◌, default_key, xor_data, encrypt_byte_change_a, encrypt_data, decrypt_data, er_size_of,
  change_loop, exchange, next_num3, create_new_key,
}
use open_fusion.Protocol.Cipher.RoundTrip.{decrypt_data-encrypt_data, cipher_in_bounds}

abbrev greeting : List ℕ
greeting = 1 ∷ 2 ∷ 3 ∷ 4 ∷ 5 ∷ 6 ∷ 7 ∷ 8 ∷ 9 ∷ 10 ∷ 11 ∷ 12 ∷ 13 ∷ 14 ∷ 15 ∷ 16 ∷ 17 ∷ 18 ∷ []

-- At size 18 the block length is 14: the first and the last byte of the one whole block change
-- places.
exchange_test :
    encrypt_byte_change_a (er_size_of (pos 18)) greeting (pos 18)
    ≡ some (
      14 ∷ 2 ∷ 3 ∷ 4 ∷ 5 ∷ 6 ∷ 7 ∷ 8 ∷ 9 ∷ 10 ∷ 11 ∷ 12 ∷ 13 ∷ 1 ∷ 15 ∷ 16 ∷ 17 ∷ 18 ∷ [],
      pos 18,
    )
unfolding encrypt_byte_change_a er_size_of change_loop exchange next_num3
exchange_test = refl

negative_size_test : decrypt_data greeting default_key (negsuc 6) ≡ some (greeting, negsuc 6)
unfolding decrypt_data encrypt_byte_change_a xor_data
negative_size_test = refl

-- A client that sends -1 for an iv gets the zero key.
zero_key_test : create_new_key 77 1234 (negsuc 0) (pos 5) ≡ 0
unfolding create_new_key ◌+ℤ◌
zero_key_test = refl

decrypt_data-encrypt_data_example :
    ((encrypt_data greeting default_key (pos 18) >>= λ (c, m). decrypt_data c default_key m)
      ≡ some (greeting, pos 18))
    × ((decrypt_data greeting default_key (pos 18) >>= λ (c, m). encrypt_data c default_key m)
        ≡ some (greeting, pos 18))
unfolding default_key
decrypt_data-encrypt_data_example =
    decrypt_data-encrypt_data default_key 18 refl greeting (omega arith)

cipher_in_bounds_example :
    ((c : List ℕ) × (encrypt_data greeting default_key (pos 10) ≡ some (c, pos 10))
      × (length c ≡ 18)
      × (drop 10 c ≡ drop 10 greeting))
    × ((c : List ℕ) × (decrypt_data greeting default_key (pos 10) ≡ some (c, pos 10))
        × (length c ≡ 18)
        × (drop 10 c ≡ drop 10 greeting))
unfolding default_key
cipher_in_bounds_example = cipher_in_bounds default_key 10 refl greeting (omega arith)
