-- ===== src/Protocol/Cipher/RoundTrip.antt =====
-- The two directions of the packet cipher are inverse, and stay inside the buffer.
use open_fusion.Common.{
  drop, drop_ext, ◌++◌, length-append, ap, refl, ℕ, ◌≤◌, ◌<◌, ◌≡◌, ◌∙◌, some, List, arith, length,
}
use open_fusion.Common.Int.{negsuc, pos}
use open_fusion.Protocol.Cipher.{
  xor_data, encrypt_byte_change_a, ◌>>=◌, key_length, er_size_of, encrypt_data, decrypt_data,
}
use open_fusion.Protocol.Cipher.Shuffle.{
  scramble, scramble-append, length-scramble, scramble-scramble, scramble_after,
  encrypt_byte_change_a-scramble,
}
use open_fusion.Protocol.Cipher.Xor.{
  mask, mask-append, length-mask, mask-mask, get_or-mask, xor_data-mask,
}

-- The block length that both directions compute is from 8 to 16.
er_size_of-pos : (n : ℕ) → 0 < er_size_of (pos n)
unfolding er_size_of
er_size_of-pos n = omega arith

module _ (key : List ℕ) (n : ℕ) (keyed : length key ≡ key_length) where
  pub encrypt_data-scramble :
      (b : List ℕ)
      → n ≤ length b
      → encrypt_data b key (pos n) ≡ some (scramble (er_size_of (pos n)) n (mask key n 0 b), pos n)
  unfolding encrypt_data
  encrypt_data-scramble b h = rw (xor_data-mask key n b keyed h) (
      encrypt_byte_change_a-scramble (er_size_of (pos n)) n (mask key n 0 b) (er_size_of-pos n)
        (omega (arith, length-mask key n 0 b)))

  pub decrypt_data-mask :
      (b : List ℕ)
      → n ≤ length b
      → decrypt_data b key (pos n) ≡ some (mask key n 0 (scramble (er_size_of (pos n)) n b), pos n)
  unfolding decrypt_data
  decrypt_data-mask b h =
      rw (encrypt_byte_change_a-scramble (er_size_of (pos n)) n b (er_size_of-pos n) h) (
        xor_data-mask key n (scramble (er_size_of (pos n)) n b) keyed
          (omega (arith, length-scramble (er_size_of (pos n)) n b)))

  -- Decryption does not depend on what stands behind the first n bytes, and leaves it there.
  pub decrypt_data-append :
      (b t c : List ℕ)
      → n ≤ length b
      → decrypt_data b key (pos n) ≡ some (c, pos n)
      → decrypt_data (b ++ t) key (pos n) ≡ some (c ++ t, pos n)
  decrypt_data-append b t c h e =
      let er = er_size_of (pos n) in
      let mixed = scramble er n b in
      let same : mask key n 0 mixed ≡ c = cc (decrypt_data-mask b h) in
      decrypt_data-mask (b ++ t) (omega (arith, length-append b t))
      ∙ ap (λ (x : List ℕ). some (mask key n 0 x, pos n))
          (scramble-append er n b t (er_size_of-pos n) h)
      ∙ ap (λ (x : List ℕ). some (x, pos n))
          (mask-append key n 0 mixed t (omega (arith, length-scramble er n b)))
      ∙ ap (λ (x : List ℕ). some (x ++ t, pos n)) same

  -- What encryptData does to the first n bytes of a buffer of at least n bytes, decryptData undoes
  -- under the same 8-byte key, and the other way round; both return n.
  pub decrypt_data-encrypt_data :
      (b : List ℕ)
      → n ≤ length b
      → ((encrypt_data b key (pos n) >>= λ (c, m). decrypt_data c key m) ≡ some (b, pos n))
        × ((decrypt_data b key (pos n) >>= λ (c, m). encrypt_data c key m) ≡ some (b, pos n))
  decrypt_data-encrypt_data b h =
      let er = er_size_of (pos n) in
      let masked = mask key n 0 b in
      let mixed = scramble er n b in
      (
        rw (
          encrypt_data-scramble b h,
          decrypt_data-mask (scramble er n masked)
              (omega (arith, length-scramble er n masked, length-mask key n 0 b)),
          scramble-scramble er n masked (er_size_of-pos n) (omega (arith, length-mask key n 0 b)),
          mask-mask key n b h,
        ),
        rw (
          decrypt_data-mask b h,
          encrypt_data-scramble (mask key n 0 mixed)
              (omega (arith, length-mask key n 0 mixed, length-scramble er n b)),
          mask-mask key n mixed (omega (arith, length-scramble er n b)),
          scramble-scramble er n b (er_size_of-pos n) h,
        ),
      )

  -- On a buffer of at least n bytes and with an 8-byte key, encryptData and decryptData access no
  -- byte outside the buffer or the key, end, return n, keep the buffer's length and leave every
  -- byte behind the first n as it was.
  pub cipher_in_bounds :
      (b : List ℕ)
      → n ≤ length b
      → ((c : List ℕ) × (encrypt_data b key (pos n) ≡ some (c, pos n))
          × (length c ≡ length b)
          × (drop n c ≡ drop n b))
        × ((c : List ℕ) × (decrypt_data b key (pos n) ≡ some (c, pos n))
            × (length c ≡ length b)
            × (drop n c ≡ drop n b))
  cipher_in_bounds b h =
      let er = er_size_of (pos n) in
      let masked = mask key n 0 b in
      let mixed = scramble er n b in
      (
        (
          scramble er n masked,
          encrypt_data-scramble b h,
          length-scramble er n masked ∙ length-mask key n 0 b,
          drop_ext n 0 _ _ (length-scramble er n masked ∙ length-mask key n 0 b) λ p hp. ground (
            arith,
            length-mask key n 0 b,
            scramble_after er n p masked (er_size_of-pos n),
            get_or-mask key n 0 p b,
          ),
        ),
        (
          mask key n 0 mixed,
          decrypt_data-mask b h,
          length-mask key n 0 mixed ∙ length-scramble er n b,
          drop_ext n 0 _ _ (length-mask key n 0 mixed ∙ length-scramble er n b) λ p hp. ground (
            arith,
            length-scramble er n b,
            scramble_after er n p b (er_size_of-pos n),
            get_or-mask key n 0 p mixed,
          ),
        ),
      )

-- A negative size changes nothing.
pub decrypt_negative : (b key : List ℕ) (n : ℕ) → decrypt_data b key (negsuc n) ≡ some (b, negsuc n)
unfolding decrypt_data encrypt_byte_change_a xor_data
decrypt_negative b key n = refl
