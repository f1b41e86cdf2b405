-- ===== src/Trading/Exchange/Units.antt =====
-- What an inventory of Trading.cpp holds of a kind of item: the sum of the amounts over the slots
-- with its type and id.
use open_fusion.Common.{
  ℕ, zero, suc, ◌+◌, ◌≡◌, refl, ap, ◌≢◌, ◌⊎◌, Bool, true, false, ◌&&◌, Option, none, some, List, [],
  ◌∷◌, arith, ◌==◌, if◌then◌else◌, get_elem?, set, All,
}
use open_fusion.Common.Int.{parts_of_eq, ℤ, pos, ◌+ℤ◌, ◌-ℤ◌, ◌≤ℤ◌, int_laws}
use open_fusion.Player.{Item, TradeItem}
use open_fusion.Trading.Exchange.{place, differs, take_from}

-- An amount, if it is of the kind (t, i).
unfoldable pub counted : ℕ → ℕ → ℕ → ℕ → ℤ → ℤ
counted t i type id amount = if (type == t) && (id == i) then amount else pos 0

abbrev pub units : ℕ → ℕ → List Item → ℤ
units t i [] = pos 0
units t i (x ∷ xs) = counted t i x.type x.id x.opt +ℤ units t i xs

abbrev pub worth : ℕ → ℕ → TradeItem → ℤ
worth t i offer = counted t i offer.type offer.id offer.opt

module _ (t i : ℕ) where
  units-set_same :
      (xs : List Item) (x y z : Item)
      → z ≡ x
      → units t i (y ∷ xs) +ℤ counted t i x.type x.id x.opt
        ≡ units t i (z ∷ xs) +ℤ counted t i y.type y.id y.opt
  units-set_same xs x y z e = simp e (omega int_laws)

  pub units-set :
      (xs : List Item) (n : ℕ) (x y : Item)
      → get_elem? xs n ≡ some x
      → units t i (set xs n y) +ℤ counted t i x.type x.id x.opt
        ≡ units t i xs +ℤ counted t i y.type y.id y.opt
  units-set [] n x y h = ground arith
  units-set (z ∷ xs) zero x y h = units-set_same xs x y z (ground arith)
  units-set (z ∷ xs) (suc n) x y h = omega (int_laws, parts_of_eq (units-set xs n x y h))

  pub counted_none :
      (type id : ℕ) (amount : ℤ) → i ≢ 0 → (id == 0) ≡ true → counted t i type id amount ≡ pos 0
  unfolding counted
  counted_none type id amount h e = ground arith

  -- What is left of an item, when the amount of an offer of its kind is taken.
  pub take_from-counted :
      (item left : Item) (offer : TradeItem)
      → i ≢ 0
      → differs offer item ≡ false
      → some left ≡ take_from item offer.opt
      → counted t i item.type item.id item.opt
        ≡ counted t i left.type left.id left.opt +ℤ counted t i offer.type offer.id offer.opt
  unfolding counted ◌+ℤ◌ ◌-ℤ◌
  take_from-counted item left offer i≢0 same e = ground arith

-- An item that is there has a positive amount.
abbrev pub IsStack : Item → Type 0
IsStack item = (item.id ≡ 0) ⊎ (pos 1 ≤ℤ item.opt)

abbrev pub IsStacked : List Item → Type 0
IsStacked = All IsStack

pub take_from-IsStack :
    (item left : Item) (amount : ℤ) → some left ≡ take_from item amount → IsStack left
unfolding ◌-ℤ◌
take_from-IsStack item left amount e = ground arith

pub IsStacked-set :
    (xs : List Item) (n : ℕ) (y : Item) → IsStack y → IsStacked xs → IsStacked (set xs n y)
IsStacked-set [] n y h a = tt
IsStacked-set (x ∷ xs) zero y h (s, a) = (h, a)
IsStacked-set (x ∷ xs) (suc n) y h (s, a) = (s, IsStacked-set xs n y h a)

-- Where an offer is placed: the index of the slot in the list, its old item, and the list after.
abbrev pub Placed : List Item → ℕ → TradeItem → List Item × ℕ → Type 0
Placed xs n offer r =
    (k : ℕ) × (x : Item) × (get_elem? xs k ≡ some x)
    × (x.id ≡ 0)
    × (r.0 ≡ set xs k (record x { id = offer.id; type = offer.type; opt = offer.opt }))
    × (r.1 ≡ n + k)

abbrev pub IfPlaced : List Item → ℕ → TradeItem → Option (List Item × ℕ) → Type 0
IfPlaced xs n offer none = Unit
IfPlaced xs n offer (some r) = Placed xs n offer r

pub place-Placed :
    (xs : List Item) (n : ℕ) (offer : TradeItem) → IfPlaced xs n offer (place xs n offer)
unfolding place
place-Placed [] n offer = tt
place-Placed (x ∷ xs) n offer = here (place-Placed xs (n + 1) offer) (x.id == 0) refl
  where
    behind :
        (o : Option (List Item × ℕ))
        → IfPlaced xs (n + 1) offer o
        → IfPlaced (x ∷ xs) n offer (elim o [ none ↦ none | some (rest, m) ↦ some (x ∷ rest, m) ])
    behind none h = tt
    behind (some (rest, m)) (k, y, at_, e, same, where_) =
        (suc k, y, at_, e, ap (λ (l : List Item). x ∷ l) same, omega arith)

    here :
        IfPlaced xs (n + 1) offer (place xs (n + 1) offer)
        → (b : Bool) → b ≡ (x.id == 0)
        → IfPlaced (x ∷ xs) n offer (
            if b
            then some (record x { id = offer.id; type = offer.type; opt = offer.opt } ∷ xs, n)
            else elim (place xs (n + 1) offer) [
              | none ↦ none
              | some (rest, m) ↦ some (x ∷ rest, m)
            ])
    here h true e = (0, x, refl, ground arith, refl, omega arith)
    here h false e = behind (place xs (n + 1) offer) h
