-- ===== src/Items/Places.antt =====
-- Reading and writing the places of a player, and what they hold of a kind of item together.
use open_fusion.Common.{
  ℕ, zero, suc, ◌≡◌, refl, ap, ◌≢◌, ◌⊎◌, inl, inr, some, List, [], ◌∷◌, arith, get_elem?, set,
}
use open_fusion.Common.Int.{ℤ, pos, ◌+ℤ◌, int_laws, parts_of_eq}
use open_fusion.Player.{Item, Player}
use open_fusion.Trading.Exchange.Units.{counted, units, units-set}
use open_fusion.Items.{equip_slot, inventory_slot, bank_slot, Place, item_at, put_item}

-- Two places that are not the same.
abbrev pub Apart : Place → Place → Type 0
Apart s t = (s.0 ≢ t.0) ⊎ (s.1 ≢ t.1)

-- The units of a kind in all places of a player.
abbrev pub held : ℕ → ℕ → Player → ℤ
held t i p = units t i p.equip +ℤ units t i p.inven +ℤ units t i p.bank

abbrev pub weight : ℕ → ℕ → Item → ℤ
weight t i x = counted t i x.type x.id x.opt

pub get_elem?-set_self {ℓ} :
    {A : Type ℓ} (xs : List A) (n : ℕ) (old x : A)
    → get_elem? xs n ≡ some old
    → get_elem? (set xs n x) n ≡ some x
get_elem?-set_self [] n old x h = absurd (ground arith)
get_elem?-set_self (y ∷ xs) zero old x h = refl
get_elem?-set_self (y ∷ xs) (suc n) old x h = get_elem?-set_self xs n old x h

pub get_elem?-set_ne {ℓ} :
    {A : Type ℓ} (xs : List A) (n m : ℕ) (x : A) → n ≢ m → get_elem? (set xs n x) m ≡ get_elem? xs m
get_elem?-set_ne [] n m x h = refl
get_elem?-set_ne (y ∷ xs) zero zero x h = absurd (h refl)
get_elem?-set_ne (y ∷ xs) zero (suc m) x h = refl
get_elem?-set_ne (y ∷ xs) (suc n) zero x h = refl
get_elem?-set_ne (y ∷ xs) (suc n) (suc m) x h = get_elem?-set_ne xs n m x (λ e. h (ap suc e))

pub item_at-put_self :
    (p : Player) (s : Place) (old x : Item)
    → item_at p s ≡ some old
    → item_at (put_item p s x) s ≡ some x
unfolding item_at put_item
item_at-put_self p (equip_slot, n) old x h = get_elem?-set_self p.equip n old x h
item_at-put_self p (inventory_slot, n) old x h = get_elem?-set_self p.inven n old x h
item_at-put_self p (bank_slot, n) old x h = get_elem?-set_self p.bank n old x h

pub item_at-put_ne :
    (p : Player) (s t : Place) (x : Item) → Apart s t → item_at (put_item p s x) t ≡ item_at p t
unfolding item_at put_item
item_at-put_ne p (equip_slot, n) (equip_slot, m) x (inr h) = get_elem?-set_ne p.equip n m x h
item_at-put_ne p (inventory_slot, n) (inventory_slot, m) x (inr h) =
    get_elem?-set_ne p.inven n m x h
item_at-put_ne p (bank_slot, n) (bank_slot, m) x (inr h) = get_elem?-set_ne p.bank n m x h
item_at-put_ne p (equip_slot, n) (equip_slot, m) x (inl h) = absurd (h refl)
item_at-put_ne p (inventory_slot, n) (inventory_slot, m) x (inl h) = absurd (h refl)
item_at-put_ne p (bank_slot, n) (bank_slot, m) x (inl h) = absurd (h refl)
item_at-put_ne p (equip_slot, n) (inventory_slot, m) x h = refl
item_at-put_ne p (equip_slot, n) (bank_slot, m) x h = refl
item_at-put_ne p (inventory_slot, n) (equip_slot, m) x h = refl
item_at-put_ne p (inventory_slot, n) (bank_slot, m) x h = refl
item_at-put_ne p (bank_slot, n) (equip_slot, m) x h = refl
item_at-put_ne p (bank_slot, n) (inventory_slot, m) x h = refl

pub held-put_item :
    (t i : ℕ) (p : Player) (s : Place) (old x : Item)
    → item_at p s ≡ some old
    → held t i (put_item p s x) +ℤ weight t i old ≡ held t i p +ℤ weight t i x
unfolding item_at put_item
held-put_item t i p (equip_slot, n) old x h =
    omega (int_laws, parts_of_eq (units-set t i p.equip n old x h))
held-put_item t i p (inventory_slot, n) old x h =
    omega (int_laws, parts_of_eq (units-set t i p.inven n old x h))
held-put_item t i p (bank_slot, n) old x h =
    omega (int_laws, parts_of_eq (units-set t i p.bank n old x h))

-- The weight of an amount is additive in it.
pub counted-+ℤ :
    (t i type id : ℕ) (a b : ℤ)
    → counted t i type id (a +ℤ b) ≡ counted t i type id a +ℤ counted t i type id b
unfolding counted ◌+ℤ◌
counted-+ℤ t i type id a b = ground arith

pub counted-zero : (t i type id : ℕ) → counted t i type id (pos 0) ≡ pos 0
unfolding counted
counted-zero t i type id = ground arith

pub counted_none_id : (t i type id : ℕ) (a : ℤ) → i ≢ 0 → id ≡ 0 → counted t i type id a ≡ pos 0
unfolding counted
counted_none_id t i type id a h e = ground arith
