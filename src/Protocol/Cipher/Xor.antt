-- ===== src/Protocol/Cipher/Xor.antt =====
-- xorData stays inside its buffer, and undoes itself.
use open_fusion.Common.{
  ◌++◌, get_or-append_left, set-append_left, ℕ, zero, suc, ◌+◌, ◌%◌, ◌≤◌, ◌≡◌, refl, ◌∙◌, some,
  List, arith, if◌then◌else◌, length, get_or, set, length-set, get_or-set_self, get_or-set_ne,
  get_elem?-eq-get_or, get_or_ext, bit_xor, ltb, leb, ◌&&◌,
}
use open_fusion.Common.Bits.{bit_xor_undo}
use open_fusion.Common.Int.{pos}
use open_fusion.Protocol.Cipher.{key_length, xor_loop, xor_data}

-- One round without the checks.
mask_byte : List ℕ → List ℕ → ℕ → List ℕ
mask_byte key b i = set b i (bit_xor (get_or b i 0) (get_or key (i % key_length) 0))

module _ (key : List ℕ) where
  pub mask : ℕ → ℕ → List ℕ → List ℕ
  mask zero i b = b
  mask (suc left) i b = mask left (i + 1) (mask_byte key b i)

  pub length-mask : (left i : ℕ) (b : List ℕ) → length (mask left i b) ≡ length b
  unfolding mask mask_byte
  length-mask zero i b = refl
  length-mask (suc left) i b = length-mask left (i + 1) _ ∙ length-set b i _

  -- Each byte of the range is masked once, by the byte of the key at its index.
  pub get_or-mask :
      (left i p : ℕ) (b : List ℕ)
      → i + left ≤ length b
      → get_or (mask left i b) p 0 ≡ (
          if leb i p && ltb p (i + left)
          then bit_xor (get_or b p 0) (get_or key (p % key_length) 0)
          else get_or b p 0)
  unfolding mask mask_byte
  get_or-mask zero i p b h = ground arith
  get_or-mask (suc left) i p b h =
      let v = bit_xor (get_or b i 0) (get_or key (i % key_length) 0) in
      ground (
        arith,
        get_or-mask left (i + 1) p (set b i v),
        length-set b i v,
        get_or-set_self b i v 0,
        get_or-set_ne b i p v 0,
      )

  pub mask-mask : (n : ℕ) (b : List ℕ) → n ≤ length b → mask n 0 (mask n 0 b) ≡ b
  mask-mask n b h = get_or_ext 0 _ _ (length-mask n 0 _ ∙ length-mask n 0 b) λ p _. ground (
    arith,
    length-mask n 0 b,
    get_or-mask n 0 p (mask n 0 b),
    get_or-mask n 0 p b,
    bit_xor_undo (get_or b p 0) (get_or key (p % key_length) 0),
  )

  xor_loop-mask :
      (left i : ℕ) (b : List ℕ)
      → length key ≡ key_length
      → i + left ≤ length b
      → xor_loop left i b key ≡ some (mask left i b)
  unfolding xor_loop mask mask_byte
  xor_loop-mask zero i b hk h = refl
  xor_loop-mask (suc left) i b hk h =
      rw
        (
          get_elem?-eq-get_or b i 0 (omega arith),
          get_elem?-eq-get_or key (i % key_length) 0 (omega arith),
        )
        (xor_loop-mask left (i + 1) _ hk
          (omega (arith, length-set b i (bit_xor (get_or b i 0) (get_or key (i % key_length) 0)))))

  pub xor_data-mask :
      (n : ℕ) (b : List ℕ)
      → length key ≡ key_length
      → n ≤ length b
      → xor_data b key (pos n) ≡ some (mask n 0 b, pos n)
  unfolding xor_data
  xor_data-mask n b hk h = rw (xor_loop-mask n 0 b hk (omega arith))

  -- What stands behind the masked bytes does not matter.
  pub mask-append :
      (left i : ℕ) (b t : List ℕ) → i + left ≤ length b → mask left i (b ++ t) ≡ mask left i b ++ t
  unfolding mask mask_byte
  mask-append zero i b t h = refl
  mask-append (suc left) i b t h =
      let v = bit_xor (get_or b i 0) (get_or key (i % key_length) 0) in
      rw (get_or-append_left b t i 0 (omega arith), set-append_left b t i v (omega arith))
        (mask-append left (i + 1) (set b i v) t (omega (arith, length-set b i v)))
