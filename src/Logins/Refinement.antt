-- ===== src/Logins/Refinement.antt =====
-- The functions of core/CNShared.cpp keep to a plain map from keys to data.
use open_fusion.Common.{
  ℕ, ◌≡◌, refl, sym, ap, ap₂, ◌∙◌, inl, inr, Bool, true, false, ◌&&◌, Option, none, some, List, [],
  ◌∷◌, arith, if◌then◌else◌, Bool-cases,
}
use open_fusion.Common.Int.{ℤ, eqb_ℤ}
use open_fusion.Logins.{
  LoginMetadata, Logins, find_login, store_login, erase_login, get_login, is_hung, prune_logins,
  LoginCall, store_call, get_call, prune_call, run_call, run_calls,
}

-- The map: the data that a key stands for.
abbrev pub LoginMap : Type 0
LoginMap = ℤ → Option LoginMetadata

abbrev drop_hung : ℕ → Option LoginMetadata → Option LoginMetadata
drop_hung now none = none
drop_hung now (some lm) = if is_hung now lm then none else some lm

-- What a call does to the map, and its reply.
abbrev pub map_call : LoginMap → LoginCall → LoginMap × Option LoginMetadata
map_call f (store_call sk lm) = (λ key. if eqb_ℤ sk key then some lm else f key, none)
map_call f (get_call sk) = (λ key. if eqb_ℤ sk key then none else f key, f sk)
map_call f (prune_call now) = (λ key. drop_hung now (f key), none)

unfoldable pub map_calls : LoginMap → List LoginCall → List (Option LoginMetadata)
map_calls f [] = []
map_calls f (call ∷ calls) = let after = map_call f call in after.1 ∷ map_calls after.0 calls

-- One entry to a key.
abbrev IsUnique : Logins → Type 0
IsUnique [] = Unit
IsUnique ((key, lm) ∷ logins) = (find_login logins key ≡ none) × IsUnique logins

-- The list stands for the map.
abbrev Represents : Logins → LoginMap → Type 0
Represents logins f = IsUnique logins × ((key : ℤ) → find_login logins key ≡ f key)

equal : (a b : ℤ) → eqb_ℤ a b ≡ true → a ≡ b
equal a b h = ground arith

-- Two keys that differ are not both equal to a third.
not_both : (a b key : ℤ) → eqb_ℤ a b ≡ false → eqb_ℤ a key && eqb_ℤ b key ≡ false
not_both a b key h = ground arith

if_again {ℓ} :
    {A : Type ℓ} (b : Bool) (x y z : A)
    → (if b then x else z) ≡ (if b then x else (if b then y else z))
if_again true x y z = refl
if_again false x y z = refl

if_swap {ℓ} :
    {A : Type ℓ} (a b : Bool) (x y z : A)
    → a && b ≡ false
    → (if a then x else (if b then y else z)) ≡ (if b then y else (if a then x else z))
if_swap true true x y z h = absurd (ground arith)
if_swap true false x y z h = refl
if_swap false b x y z h = refl

find-store :
    (logins : Logins) (sk : ℤ) (lm : LoginMetadata) (key : ℤ)
    → find_login (store_login logins sk lm) key
      ≡ (if eqb_ℤ sk key then some lm else find_login logins key)
unfolding find_login store_login
find-store [] sk lm key = refl
find-store ((k, old) ∷ logins) sk lm key = elim (Bool-cases (eqb_ℤ k sk)) [
  | inl e ↦ simp e (
      if_again (eqb_ℤ k key) (some lm) (some old) (find_login logins key)
      ∙ ap
          (λ (j : ℤ).
            if eqb_ℤ j key
            then some lm
            else (if eqb_ℤ k key then some old else find_login logins key))
          (equal k sk e))
  | inr e ↦
      simp (e, find-store logins sk lm key)
        (if_swap (eqb_ℤ k key) (eqb_ℤ sk key) (some old) (some lm) (find_login logins key)
          (not_both k sk key e))
]

store-IsUnique :
    (logins : Logins) (sk : ℤ) (lm : LoginMetadata)
    → IsUnique logins
    → IsUnique (store_login logins sk lm)
unfolding store_login find_login
store-IsUnique [] sk lm h = (refl, tt)
store-IsUnique ((k, old) ∷ logins) sk lm (h, u) = elim (Bool-cases (eqb_ℤ k sk)) [
  | inl e ↦ simp e (h, u)
  | inr e ↦
      simp e (find-store logins sk lm k ∙ simp (apart k sk e) h, store-IsUnique logins sk lm u)
]
  where
    apart : (a b : ℤ) → eqb_ℤ a b ≡ false → eqb_ℤ b a ≡ false
    apart a b h = ground arith

find-erase :
    (logins : Logins) (sk key : ℤ)
    → IsUnique logins
    → find_login (erase_login logins sk) key
      ≡ (if eqb_ℤ sk key then none else find_login logins key)
unfolding find_login erase_login
find-erase [] sk key h = none_either (eqb_ℤ sk key)
  where
    none_either : (b : Bool) → ◌≡◌ {A = Option LoginMetadata} none (if b then none else none)
    none_either true = refl
    none_either false = refl
find-erase ((k, old) ∷ logins) sk key (h, u) = elim (Bool-cases (eqb_ℤ k sk)) [
  | inl e ↦ simp e (
      gone (eqb_ℤ k key) refl
      ∙ ap
          (λ (j : ℤ).
            if eqb_ℤ j key then none else (if eqb_ℤ k key then some old else find_login logins key))
          (equal k sk e))
  | inr e ↦
      simp (e, find-erase logins sk key u)
        (if_swap (eqb_ℤ k key) (eqb_ℤ sk key) (some old) none (find_login logins key)
          (not_both k sk key e))
]
  where
    gone :
        (b : Bool)
        → eqb_ℤ k key ≡ b
        → find_login logins key
          ≡ (if b then none else (if b then some old else find_login logins key))
    gone true e = ap (find_login logins) (sym (equal k key e)) ∙ h
    gone false e = refl

erase-IsUnique : (logins : Logins) (sk : ℤ) → IsUnique logins → IsUnique (erase_login logins sk)
unfolding erase_login
erase-IsUnique [] sk h = tt
erase-IsUnique ((k, old) ∷ logins) sk (h, u) = elim (Bool-cases (eqb_ℤ k sk)) [
  | inl e ↦ simp e u
  | inr e ↦ simp e (find-erase logins sk k u ∙ none_left (eqb_ℤ sk k), erase-IsUnique logins sk u)
]
  where
    none_left : (b : Bool) → (if b then none else find_login logins k) ≡ none
    none_left true = refl
    none_left false = h

find-prune :
    (logins : Logins) (now : ℕ) (key : ℤ)
    → IsUnique logins
    → find_login (prune_logins logins now) key ≡ drop_hung now (find_login logins key)
unfolding find_login prune_logins
find-prune [] now key h = refl
find-prune ((k, lm) ∷ logins) now key (h, u) = elim (Bool-cases (is_hung now lm)) [
  | inl e ↦ simp e (find-prune logins now key u ∙ hung e (eqb_ℤ k key) refl)
  | inr e ↦ simp (e, find-prune logins now key u) (kept e (eqb_ℤ k key))
]
  where
    hung :
        is_hung now lm ≡ true
        → (b : Bool) → eqb_ℤ k key ≡ b
        → drop_hung now (find_login logins key)
          ≡ drop_hung now (if b then some lm else find_login logins key)
    hung e true g =
        ap (drop_hung now) (ap (find_login logins) (sym (equal k key g)) ∙ h) ∙ simp e refl
    hung e false g = refl

    kept :
        is_hung now lm ≡ false
        → (b : Bool)
        → (if b then some lm else drop_hung now (find_login logins key))
          ≡ drop_hung now (if b then some lm else find_login logins key)
    kept e true = simp e refl
    kept e false = refl

prune-IsUnique : (logins : Logins) (now : ℕ) → IsUnique logins → IsUnique (prune_logins logins now)
unfolding prune_logins
prune-IsUnique [] now h = tt
prune-IsUnique ((k, lm) ∷ logins) now (h, u) = elim (Bool-cases (is_hung now lm)) [
  | inl e ↦ simp e (prune-IsUnique logins now u)
  | inr e ↦ simp e (find-prune logins now k u ∙ ap (drop_hung now) h, prune-IsUnique logins now u)
]

-- A call keeps the list and the map in step, and both give the same reply.
run_call-Represents :
    (logins : Logins) (f : LoginMap) (call : LoginCall)
    → Represents logins f
    → ((run_call logins call).1 ≡ (map_call f call).1)
      × Represents (run_call logins call).0 (map_call f call).0
unfolding run_call get_login
run_call-Represents logins f (store_call sk lm) (u, h) = (
  refl,
  (
    store-IsUnique logins sk lm u,
    λ key. find-store logins sk lm key ∙ ap (λ o. if eqb_ℤ sk key then some lm else o) (h key),
  ),
)
run_call-Represents logins f (prune_call now) (u, h) = (
  refl,
  (prune-IsUnique logins now u, λ key. find-prune logins now key u ∙ ap (drop_hung now) (h key)),
)
run_call-Represents logins f (get_call sk) (u, h) = get (find_login logins sk) refl
  where
    picked : Option LoginMetadata → Logins × Option LoginMetadata
    picked none = (logins, none)
    picked (some lm) = (erase_login logins sk, some lm)

    missed :
        find_login logins sk ≡ none
        → (key : ℤ) → (b : Bool) → eqb_ℤ sk key ≡ b
        → find_login logins key ≡ (if b then none else f key)
    missed e key true g = ap (find_login logins) (sym (equal sk key g)) ∙ e
    missed e key false g = h key

    get :
        (o : Option LoginMetadata)
        → find_login logins sk ≡ o
        → ((picked o).1 ≡ f sk)
          × Represents (picked o).0 (λ key. if eqb_ℤ sk key then none else f key)
    get none e = (sym e ∙ h sk, (u, λ key. missed e key (eqb_ℤ sk key) refl))
    get (some lm) e = (
      sym e ∙ h sk,
      (
        erase-IsUnique logins sk u,
        λ key. find-erase logins sk key u ∙ ap (λ o. if eqb_ℤ sk key then none else o) (h key),
      ),
    )

-- For any sequence of calls of storeLoginMetadata, getLoginMetadata and pruneLoginMetadata from an
-- empty store, the replies are those of a plain map from keys to data: a store sets its key, a get
-- reads its key and unsets it, and a prune unsets the keys whose data are older than the timeout.
pub run_calls_lem : (calls : List LoginCall) → run_calls [] calls ≡ map_calls (λ key. none) calls
unfolding map_calls run_calls find_login
run_calls_lem calls = follow [] (λ key. none) calls (tt, λ key. nothing key)
  where
    nothing : (key : ℤ) → find_login [] key ≡ none
    nothing key = refl

    follow :
        (logins : Logins) (f : LoginMap) (calls : List LoginCall)
        → Represents logins f
        → run_calls logins calls ≡ map_calls f calls
    follow logins f [] h = refl
    follow logins f (call ∷ calls) h =
        let (same, next) = run_call-Represents logins f call h in
        ap₂ (λ (x : Option LoginMetadata) (l : List (Option LoginMetadata)). x ∷ l) same
          (follow (run_call logins call).0 (map_call f call).0 calls next)
