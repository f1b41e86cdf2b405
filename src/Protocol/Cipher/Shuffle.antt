-- ===== src/Protocol/Cipher/Shuffle.antt =====
-- Encrypt_byte_change_A stays inside its buffer, ends, and undoes itself.
use open_fusion.Common.{
  ◌++◌, ℕ, zero, suc, ◌+◌, ◌-◌, ◌/◌, ◌≤◌, ◌<◌, ◌≡◌, refl, inl, inr, some, List, arith, true, false,
  leb, leb→le, if◌then◌else◌, Bool-cases, length, get_or,
}
use open_fusion.Common.Int.{pos}
use open_fusion.Protocol.Cipher.{next_num3, change_loop, encrypt_byte_change_a}
use open_fusion.Protocol.Cipher.Swap.{
  swap, length-swap, exchange-swap, get_or-swap, swap-swap, swap_comm, swap-append,
}

module _ (er_size size : ℕ) where
  -- The loop without the checks.
  pub shuffle : ℕ → ℕ → ℕ → List ℕ → List ℕ
  shuffle zero num num3 d = d
  shuffle (suc fuel) num num3 d =
      let rest =
        shuffle fuel (num + er_size) (next_num3 er_size num3)
          (swap d (num + num3) (num + (er_size - 1 - num3))) in
      if leb (num + er_size) size then rest else d

  pub length-shuffle :
      (fuel num num3 : ℕ) (d : List ℕ) → length (shuffle fuel num num3 d) ≡ length d
  unfolding shuffle
  length-shuffle zero num num3 d = refl
  length-shuffle (suc fuel) num num3 d = ground (
    arith,
    length-swap d (num + num3) (num + (er_size - 1 - num3)),
    length-shuffle fuel (num + er_size) (next_num3 er_size num3)
        (swap d (num + num3) (num + (er_size - 1 - num3))),
  )

  -- One round that passes the test of the loop.
  shuffle-suc :
      (fuel num num3 : ℕ) (d : List ℕ)
      → leb (num + er_size) size ≡ true
      → shuffle (suc fuel) num num3 d
        ≡ shuffle fuel
            (num + er_size)
            (next_num3 er_size num3)
            (swap d (num + num3) (num + (er_size - 1 - num3)))
  unfolding shuffle
  shuffle-suc fuel num num3 d h = rw h

  shuffle_end :
      (fuel num num3 : ℕ) (d : List ℕ)
      → leb (num + er_size) size ≡ false
      → shuffle (suc fuel) num num3 d ≡ d
  unfolding shuffle
  shuffle_end fuel num num3 d h = rw h

next_num3-le : (er_size num3 : ℕ) → next_num3 er_size num3 ≤ er_size / 2
unfolding next_num3
next_num3-le er_size num3 = ground arith

module _ (er_size size : ℕ) (positive : 0 < er_size) where
  -- What the loop does after `num` leaves the bytes before `num` alone, and does not look at them.
  shuffle-swap :
      (fuel num num3 i j : ℕ) (d : List ℕ)
      → num3 ≤ er_size / 2
      → size ≤ length d
      → num ≤ length d
      → i < num
      → j < num
      → shuffle er_size size fuel num num3 (swap d i j)
        ≡ swap (shuffle er_size size fuel num num3 d) i j
  unfolding shuffle
  shuffle-swap zero num num3 i j d h3 hs hn hi hj = refl
  shuffle-swap (suc fuel) num num3 i j d h3 hs hn hi hj =
      let a = num + num3 in
      let b = num + (er_size - 1 - num3) in
      elim (Bool-cases (leb (num + er_size) size)) [
        | inl more ↦
            let fits = leb→le (num + er_size) size more in
            rw
              (
                shuffle-suc er_size size fuel num num3 (swap d i j) more,
                shuffle-suc er_size size fuel num num3 d more,
                swap_comm d i j a b num hi hj (omega arith) (omega arith) hn (omega arith)
                    (omega arith),
              )
              (shuffle-swap fuel (num + er_size) (next_num3 er_size num3) i j (swap d a b)
                (next_num3-le er_size num3) (omega (arith, length-swap d a b))
                (omega (arith, length-swap d a b)) (omega arith) (omega arith))
        | inr done ↦ rw (
          shuffle_end er_size size fuel num num3 (swap d i j) done,
          shuffle_end er_size size fuel num num3 d done,
        )
      ]

  -- Bytes behind the size stay as they are.
  shuffle_after :
      (fuel num num3 p : ℕ) (d : List ℕ)
      → num3 ≤ er_size / 2
      → size ≤ length d
      → size ≤ p
      → get_or (shuffle er_size size fuel num num3 d) p 0 ≡ get_or d p 0
  unfolding shuffle
  shuffle_after zero num num3 p d h3 hs hp = refl
  shuffle_after (suc fuel) num num3 p d h3 hs hp =
      let a = num + num3 in
      let b = num + (er_size - 1 - num3) in
      ground (
        arith,
        next_num3-le er_size num3,
        length-swap d a b,
        get_or-swap d a b p,
        shuffle_after fuel (num + er_size) (next_num3 er_size num3) p (swap d a b),
      )

  shuffle-shuffle :
      (fuel num num3 : ℕ) (d : List ℕ)
      → num3 ≤ er_size / 2
      → size ≤ length d
      → shuffle er_size size fuel num num3 (shuffle er_size size fuel num num3 d) ≡ d
  unfolding shuffle
  shuffle-shuffle zero num num3 d h3 hs = refl
  shuffle-shuffle (suc fuel) num num3 d h3 hs =
      let a = num + num3 in
      let b = num + (er_size - 1 - num3) in
      let n' = num + er_size in
      let k' = next_num3 er_size num3 in
      let later = shuffle er_size size fuel n' k' in
      elim (Bool-cases (leb (num + er_size) size)) [
        | inl more ↦
            let fits = leb→le (num + er_size) size more in
            rw
              (
                shuffle-suc er_size size fuel num num3 d more,
                shuffle-suc er_size size fuel num num3 (later (swap d a b)) more,
                shuffle-swap fuel n' k' a b d (next_num3-le er_size num3) hs (omega arith)
                    (omega arith) (omega arith),
                swap-swap (later d) a b (omega (arith, length-shuffle er_size size fuel n' k' d))
                    (omega (arith, length-shuffle er_size size fuel n' k' d)),
              )
              (shuffle-shuffle fuel n' k' d (next_num3-le er_size num3) hs)
        | inr done ↦ rw (
          shuffle_end er_size size fuel num num3 d done,
          shuffle_end er_size size fuel num num3 d done,
        )
      ]

  -- With enough fuel the loop stays inside the buffer and ends.
  change_loop-shuffle :
      (fuel num num3 : ℕ) (d : List ℕ)
      → num3 ≤ er_size / 2
      → size ≤ length d
      → num ≤ size
      → size < fuel + num
      → change_loop fuel er_size size num num3 d
        ≡ some (shuffle er_size size fuel num num3 d, pos size)
  unfolding change_loop
  change_loop-shuffle zero num num3 d h3 hs hn hf = absurd (omega arith)
  change_loop-shuffle (suc fuel) num num3 d h3 hs hn hf =
      let a = num + num3 in
      let b = num + (er_size - 1 - num3) in
      elim (Bool-cases (leb (num + er_size) size)) [
        | inl more ↦
            let fits = leb→le (num + er_size) size more in
            rw
              (
                more,
                exchange-swap d a b (omega arith) (omega arith),
                shuffle-suc er_size size fuel num num3 d more,
              )
              (change_loop-shuffle fuel (num + er_size) (next_num3 er_size num3) (swap d a b)
                (next_num3-le er_size num3) (omega (arith, length-swap d a b)) fits (omega arith))
        | inr done ↦ rw (done, shuffle_end er_size size fuel num num3 d done) (ground (arith))
      ]

  -- What stands behind the first `size` bytes does not matter.
  shuffle-append :
      (fuel num num3 : ℕ) (d t : List ℕ)
      → num3 ≤ er_size / 2
      → size ≤ length d
      → shuffle er_size size fuel num num3 (d ++ t) ≡ shuffle er_size size fuel num num3 d ++ t
  unfolding shuffle
  shuffle-append zero num num3 d t h3 hs = refl
  shuffle-append (suc fuel) num num3 d t h3 hs =
      let a = num + num3 in
      let b = num + (er_size - 1 - num3) in
      elim (Bool-cases (leb (num + er_size) size)) [
        | inl more ↦
            let fits = leb→le (num + er_size) size more in
            rw
              (
                shuffle-suc er_size size fuel num num3 (d ++ t) more,
                shuffle-suc er_size size fuel num num3 d more,
                swap-append d t a b (omega arith) (omega arith),
              )
              (shuffle-append fuel (num + er_size) (next_num3 er_size num3) (swap d a b) t
                (next_num3-le er_size num3) (omega (arith, length-swap d a b)))
        | inr done ↦ rw (
          shuffle_end er_size size fuel num num3 (d ++ t) done,
          shuffle_end er_size size fuel num num3 d done,
        )
      ]

-- The whole exchange, as a function of the buffer.
pub scramble : ℕ → ℕ → List ℕ → List ℕ
scramble er_size size d = shuffle er_size size (suc size) 0 0 d

pub length-scramble : (er_size size : ℕ) (d : List ℕ) → length (scramble er_size size d) ≡ length d
unfolding scramble
length-scramble er_size size d = length-shuffle er_size size (suc size) 0 0 d

pub scramble-append :
    (er_size size : ℕ) (d t : List ℕ)
    → 0 < er_size
    → size ≤ length d
    → scramble er_size size (d ++ t) ≡ scramble er_size size d ++ t
unfolding scramble
scramble-append er_size size d t p h =
    shuffle-append er_size size p (suc size) 0 0 d t (omega arith) h

pub scramble-scramble :
    (er_size size : ℕ) (d : List ℕ)
    → 0 < er_size
    → size ≤ length d
    → scramble er_size size (scramble er_size size d) ≡ d
unfolding scramble
scramble-scramble er_size size d p h =
    shuffle-shuffle er_size size p (suc size) 0 0 d (omega arith) h

pub scramble_after :
    (er_size size p : ℕ) (d : List ℕ)
    → 0 < er_size
    → size ≤ length d
    → size ≤ p
    → get_or (scramble er_size size d) p 0 ≡ get_or d p 0
unfolding scramble
scramble_after er_size size p d h hs hp =
    shuffle_after er_size size h (suc size) 0 0 p d (omega arith) hs hp

-- Encrypt_byte_change_A neither leaves a buffer of at least `size` bytes nor runs on, and it
-- returns the size that it was given.
pub encrypt_byte_change_a-scramble :
    (er_size size : ℕ) (d : List ℕ)
    → 0 < er_size
    → size ≤ length d
    → encrypt_byte_change_a er_size d (pos size) ≡ some (scramble er_size size d, pos size)
unfolding encrypt_byte_change_a scramble
encrypt_byte_change_a-scramble er_size size d p h =
    change_loop-shuffle er_size size p (suc size) 0 0 d (omega arith) h (omega arith) (omega arith)
