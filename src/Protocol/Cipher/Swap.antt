-- ===== src/Protocol/Cipher/Swap.antt =====
-- The exchange of two bytes of a buffer, which undoes itself and commutes with others.
use open_fusion.Common.{
  ◌++◌, get_or-append_left, set-append_left, ℕ, ◌≤◌, ◌<◌, ◌≡◌, ◌∙◌, some, List, arith, ◌==◌,
  if◌then◌else◌, length, get_or, set, length-set, get_or-set_self, get_or-set_ne,
  get_elem?-eq-get_or, get_or_ext,
}
use open_fusion.Protocol.Cipher.{exchange}

-- The exchange of two bytes, without the checks.
pub swap : List ℕ → ℕ → ℕ → List ℕ
swap d i j = set (set d i (get_or d j 0)) j (get_or d i 0)

pub length-swap : (d : List ℕ) (i j : ℕ) → length (swap d i j) ≡ length d
unfolding swap
length-swap d i j = length-set _ j _ ∙ length-set d i _

pub exchange-swap :
    (d : List ℕ) (i j : ℕ) → i < length d → j < length d → exchange d i j ≡ some (swap d i j)
unfolding exchange swap
exchange-swap d i j p q = rw (get_elem?-eq-get_or d i 0 p, get_elem?-eq-get_or d j 0 q)

pub get_or-swap :
    (d : List ℕ) (i j p : ℕ)
    → i < length d
    → j < length d
    → get_or (swap d i j) p 0
      ≡ (if p == j then get_or d i 0 else if p == i then get_or d j 0 else get_or d p 0)
unfolding swap
get_or-swap d i j p hi hj = ground (
  arith,
  length-set d i (get_or d j 0),
  get_or-set_self (set d i (get_or d j 0)) j (get_or d i 0) 0,
  get_or-set_ne (set d i (get_or d j 0)) j p (get_or d i 0) 0,
  get_or-set_self d i (get_or d j 0) 0,
  get_or-set_ne d i p (get_or d j 0) 0,
)

pub swap-swap : (d : List ℕ) (i j : ℕ) → i < length d → j < length d → swap (swap d i j) i j ≡ d
swap-swap d i j hi hj = get_or_ext 0 _ _ (length-swap _ i j ∙ length-swap d i j) λ p _. ground (
  arith,
  length-swap d i j,
  get_or-swap (swap d i j) i j p,
  get_or-swap d i j i,
  get_or-swap d i j j,
  get_or-swap d i j p,
)

pub swap-append :
    (d t : List ℕ) (i j : ℕ) → i < length d → j < length d → swap (d ++ t) i j ≡ swap d i j ++ t
unfolding swap
swap-append d t i j hi hj =
    rw
      (
        get_or-append_left d t j 0 hj,
        get_or-append_left d t i 0 hi,
        set-append_left d t i (get_or d j 0) hi,
      )
      (set-append_left (set d i (get_or d j 0)) t j (get_or d i 0)
        (omega (arith, length-set d i (get_or d j 0))))

-- Two exchanges at four distinct places commute.
pub swap_comm :
    (d : List ℕ) (i j a b n : ℕ)
    → i < n
    → j < n
    → n ≤ a
    → n ≤ b
    → n ≤ length d
    → a < length d
    → b < length d
    → swap (swap d i j) a b ≡ swap (swap d a b) i j
swap_comm d i j a b n hi hj ha hb hn la lb =
    get_or_ext 0 _ _
      (omega (
        arith,
        length-swap (swap d i j) a b,
        length-swap d i j,
        length-swap (swap d a b) i j,
        length-swap d a b,
      ))
      λ p _. ground (
        arith,
        length-swap d i j,
        length-swap d a b,
        get_or-swap (swap d i j) a b p,
        get_or-swap (swap d a b) i j p,
        get_or-swap d i j a,
        get_or-swap d i j b,
        get_or-swap d i j p,
        get_or-swap d a b i,
        get_or-swap d a b j,
        get_or-swap d a b p,
      )
