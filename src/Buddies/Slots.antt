-- ===== src/Buddies/Slots.antt =====
-- Slots of a list of buddies, and players of a roster after a change of one of them.
use open_fusion.Common.{
  ℕ, zero, suc, ◌+◌, ◌<◌, ◌≡◌, refl, sym, ap, subst, ◌∙◌, ◌≢◌, inl, inr, true, false, ◌||◌, Option,
  none, some, List, [], ◌∷◌, arith, if◌then◌else◌, if_true, if_false, or_false, Bool-cases, length,
  get_elem?, set,
}
use open_fusion.Common.Int.{ℤ, pos, negsuc, ltb_ℤ, leb_ℤ, eqb_ℤ, wrap32}
use open_fusion.Items.Kitted.{some_elem}
use open_fusion.Vendors.Costs.{some_inj}
use open_fusion.Buddies.{
  buddy_at, Member, Roster, first_place_of, later, is_in, sock_from, find_sock, named_slot,
}

module _ {ℓ} {A : Type ℓ} where
  pub set_again : (xs : List A) (n : ℕ) (x y : A) → set (set xs n x) n y ≡ set xs n y
  set_again [] n x y = refl
  set_again (z ∷ xs) zero x y = refl
  set_again (z ∷ xs) (suc n) x y = ap (◌∷◌ z) (set_again xs n x y)

  pub set_held : (xs : List A) (n : ℕ) (x : A) → get_elem? xs n ≡ some x → set xs n x ≡ xs
  set_held [] n x h = refl
  set_held (z ∷ xs) zero x h = ap (λ (y : A). y ∷ xs) (sym (some_inj h))
  set_held (z ∷ xs) (suc n) x h = ap (◌∷◌ z) (set_held xs n x h)

  pub set_comm :
      (xs : List A) (n m : ℕ) (x y : A) → n ≢ m → set (set xs n x) m y ≡ set (set xs m y) n x
  set_comm [] n m x y h = refl
  set_comm (z ∷ xs) zero zero x y h = absurd (h refl)
  set_comm (z ∷ xs) zero (suc m) x y h = refl
  set_comm (z ∷ xs) (suc n) zero x y h = refl
  set_comm (z ∷ xs) (suc n) (suc m) x y h = ap (◌∷◌ z) (set_comm xs n m x y (λ e. h (ap suc e)))

pub eqb_self : (v : ℤ) → eqb_ℤ v v ≡ true
eqb_self (pos n) = ground arith
eqb_self (negsuc n) = ground arith

eqb_true : (u v : ℤ) → eqb_ℤ u v ≡ true → u ≡ v
eqb_true u v h = ground arith

-- A place that is found holds the number.
pub first_place_of_holds :
    (v : ℤ) (xs : List ℤ) (n : ℕ) → first_place_of v xs ≡ some n → get_elem? xs n ≡ some v
unfolding first_place_of
first_place_of_holds v [] n h = absurd (ground arith)
first_place_of_holds v (x ∷ xs) n h = elim (Bool-cases (eqb_ℤ x v)) [
  | inl e ↦
      subst (λ (k : ℕ). get_elem? (x ∷ xs) k ≡ some v)
        (some_inj (sym (if_true (eqb_ℤ x v) (some 0) _ e) ∙ h)) (ap some (eqb_true x v e))
  | inr e ↦
      further (λ m. first_place_of_holds v xs m) (first_place_of v xs) refl
        (sym (if_false (eqb_ℤ x v) (some 0) _ e) ∙ h)
]
  where
    further :
        ((m : ℕ) → first_place_of v xs ≡ some m → get_elem? xs m ≡ some v)
        → (o : Option ℕ) → first_place_of v xs ≡ o
        → later o ≡ some n
        → get_elem? (x ∷ xs) n ≡ some v
    further rest none e h = absurd (ground arith)
    further rest (some m) e h =
        subst (λ (k : ℕ). get_elem? (x ∷ xs) k ≡ some v) (some_inj h) (rest m e)

-- A number that is not in the list is found where it is stored.
pub first_place_of-set :
    (v : ℤ) (xs : List ℤ) (n : ℕ)
    → is_in v xs ≡ false
    → n < length xs
    → first_place_of v (set xs n v) ≡ some n
unfolding first_place_of
first_place_of-set v [] n h l = absurd (omega arith)
first_place_of-set v (x ∷ xs) zero h l = if_true (eqb_ℤ v v) (some 0) _ (eqb_self v)
first_place_of-set v (x ∷ xs) (suc n) h l =
    let (ne, out) = or_false (eqb_ℤ x v) (is_in v xs) h in
    if_false (eqb_ℤ x v) (some 0) _ ne ∙ ap later (first_place_of-set v xs n out (omega (arith, l)))

-- A change that keeps the id of a player keeps all sockets.
sock_from-set :
    (w : Roster) (n : ℕ) (p q : Member) (id : ℤ) (k : ℕ)
    → get_elem? w n ≡ some p
    → q.id ≡ p.id
    → sock_from (set w n q) id k ≡ sock_from w id k
unfolding sock_from
sock_from-set [] n p q id k h e = refl
sock_from-set (x ∷ w) zero p q id k h e =
    ap (λ (i : ℤ). if eqb_ℤ i id then some k else sock_from w id (k + 1))
      (e ∙ sym (ap (λ (z : Member). z.id) (some_inj h)))
sock_from-set (x ∷ w) (suc n) p q id k h e =
    ap (λ (o : Option ℕ). if eqb_ℤ x.id id then some k else o)
      (sock_from-set w n p q id (k + 1) h e)

pub find_sock-set :
    (w : Roster) (n : ℕ) (p q : Member) (id : ℤ)
    → get_elem? w n ≡ some p
    → q.id ≡ p.id
    → find_sock (set w n q) id ≡ find_sock w id
unfolding find_sock
find_sock-set w n p q id = sock_from-set w n p q (wrap32 id) 0

-- A slot that holds the id is the one that is named.
pub named_slot_lem :
    (p : Member) (n : ℕ) (uid : ℤ)
    → n < 50
    → get_elem? p.buddy_ids n ≡ some uid
    → named_slot p (pos n) uid ≡ some (some n)
unfolding named_slot buddy_at
named_slot_lem p n uid near h =
    let range : (ltb_ℤ (pos n) (pos 0) || leb_ℤ (pos 50) (pos n)) ≡ false = ground arith in
    simp (range, h, eqb_self uid) refl

-- In a list of 50 places the test of a slot reads inside, whatever the slot is.
pub slot_tested :
    (p : Member) (slot uid : ℤ)
    → length p.buddy_ids ≡ 50
    → (named : Option ℕ) × (named_slot p slot uid ≡ some named)
      × ((n : ℕ) → named ≡ some n → n < 50)
unfolding named_slot buddy_at
slot_tested p (negsuc k) uid l =
    let below : (ltb_ℤ (negsuc k) (pos 0) || leb_ℤ (pos 50) (negsuc k)) ≡ true = ground arith in
    (none, simp below refl, λ n e. absurd (ground arith))
slot_tested p (pos k) uid l = elim (Bool-cases (ltb_ℤ (pos k) (pos 0) || leb_ℤ (pos 50) (pos k))) [
  | inl far ↦ (none, simp (far) refl, λ n e. absurd (ground arith))
  | inr near ↦
      let (x, e) = some_elem p.buddy_ids k (ground arith) in
      (if eqb_ℤ x uid then some k else none, simp (near, e) refl, λ n e. ground arith)
]
