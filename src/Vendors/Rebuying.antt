-- ===== src/Vendors/Rebuying.antt =====
-- What vendorBuyback does to the buyback list, to the money and to the inventory.
use open_fusion.Common.{
  false, ◌≢◌, ◌++◌, All, if_false, ℕ, zero, suc, ◌+◌, ◌≡◌, refl, sym, ap, subst, ◌∙◌, ◌⊎◌, inl, inr,
  true, not, Option, none, some, List, [], ◌∷◌, arith, Bool-cases, Option-cases, length, get_elem?,
  set,
}
use open_fusion.Common.Int.{ℤ, pos, ◌≤ℤ◌, ◌<ℤ◌, ltb_ℤ}
use open_fusion.Player.{Item, Player}
use open_fusion.Player.Range.{IsCapped}
use open_fusion.Items.{ItemData, ItemTable, find_free_slot}
use open_fusion.Vendors.{
  charged, VendorMessage, rebuy_fail, rebuy_succ, check, or_else, total_cost, same_item,
  erase_first, try_rebuy, vendor_buyback,
}
use open_fusion.Vendors.Costs.{
  buyback-IsCapped, check_inv, bind_inv, some_inj, paid, charged_money, charged_inven,
  charged_buyback,
}

same_item_refl : (x : Item) → same_item x x ≡ true
same_item_refl x = ground arith

-- An item of the list, or one identical to it, goes.
length-erase_first :
    (xs : List Item) (n : ℕ) (x : Item)
    → get_elem? xs n ≡ some x
    → length (erase_first x xs) + 1 ≡ length xs
unfolding erase_first
length-erase_first [] n x h = absurd (ground arith)
length-erase_first (y ∷ xs) zero x h =
    let e : same_item y x ≡ true =
      subst (λ z. same_item y z ≡ true) (some_inj h) (same_item_refl y) in
    simp e (omega arith)
length-erase_first (y ∷ xs) (suc n) x h = elim (Bool-cases (same_item y x)) [
  | inl e ↦ simp e (omega arith)
  | inr e ↦ simp e (omega (arith, length-erase_first xs n x h))
]

same_item_eq : (x y : Item) → same_item x y ≡ true → x ≡ y
same_item_eq x y h = ground arith

not_same : (x y : Item) → same_item x y ≡ false → x ≢ y
not_same x y h e = clash (sym (same_item_refl x) ∙ ap (same_item x) e ∙ h)
  where
    clash : true ≡ false → ⊥
    clash h = ground arith

-- The list without the first of the items that equal one of its items.
erase_first_splits :
    (xs : List Item) (n : ℕ) (x : Item)
    → get_elem? xs n ≡ some x
    → (before : List Item) × (after : List Item) × (xs ≡ before ++ x ∷ after)
      × All (λ y. y ≢ x) before
      × (erase_first x xs ≡ before ++ after)
unfolding erase_first
erase_first_splits [] n x h = absurd (ground arith)
erase_first_splits (y ∷ xs) zero x h =
    let e : same_item y x ≡ true =
      subst (λ z. same_item y z ≡ true) (some_inj h) (same_item_refl y) in
    ([], xs, ap (λ z. z ∷ xs) (some_inj h), tt, simp e refl)
erase_first_splits (y ∷ xs) (suc n) x h = elim (Bool-cases (same_item y x)) [
  | inl e ↦ ([], xs, ap (λ z. z ∷ xs) (same_item_eq y x e), tt, simp e refl)
  | inr e ↦
      let (before, after, split, others, run) = erase_first_splits xs n x h in
      (
        y ∷ before,
        after,
        ap (◌∷◌ y) split,
        (not_same y x e, others),
        if_false (same_item y x) xs (y ∷ erase_first x xs) e ∙ ap (◌∷◌ y) run,
      )
]

-- What holds of a rebuy, for the player with the shorter list.
abbrev pub Rebought : ItemTable → Player → Item → Player → VendorMessage → Type 0
Rebought table p item q msg =
    (d : ItemData) × (slot : ℕ) × (table item.id item.type ≡ some d)
    × (find_free_slot p ≡ some slot)
    × (total_cost d.sell_price d item ≤ℤ p.money)
    × (q.money ≡ paid p.money (total_cost d.sell_price d item))
    × (q.inven ≡ set p.inven slot item)
    × (q.buyback ≡ p.buyback)
    × (msg ≡ rebuy_succ q.money slot item)

affordable : (money cost : ℤ) → not (ltb_ℤ money cost) ≡ true → cost ≤ℤ money
affordable money cost h = ground arith

try_rebuy-Rebought :
    (table : ItemTable) (p : Player) (item : Item) (q : Player) (msg : VendorMessage)
    → IsCapped p
    → try_rebuy table p item ≡ some (q, msg)
    → Rebought table p item q msg
unfolding try_rebuy
try_rebuy-Rebought table p item q msg c h =
    let (d, known, h) = bind_inv (table item.id item.type) _ (q, msg) h in
    let cost = total_cost d.sell_price d item in
    let (slot, free, h) = bind_inv (find_free_slot p) _ (q, msg) h in
    let (u, rich, h) = bind_inv (check (not (ltb_ℤ p.money cost))) _ (q, msg) h in
    let rich' = affordable p.money cost (check_inv _ u rich) in
    let same = some_inj h in
    let who = ap (λ z. z.0) same in
    (
      d,
      slot,
      known,
      free,
      rich',
      sym (ap (λ (z : Player). z.money) who) ∙ charged_money p cost slot item c rich',
      sym (ap (λ (z : Player). z.inven) who) ∙ charged_inven p cost slot item,
      sym (ap (λ (z : Player). z.buyback) who) ∙ charged_buyback p cost slot item,
      sym (ap (λ z. z.1) same) ∙ ap (λ (z : Player). rebuy_succ z.money slot item) who,
    )

abbrev pub without : Item → Player → Player
without item p = record p { buyback = erase_first item p.buyback }

pub vendor_buyback_at :
    (table : ItemTable) (p : Player) (n : ℕ) (item : Item)
    → get_elem? p.buyback n ≡ some item
    → vendor_buyback table p (pos (suc n))
      ≡ or_else (try_rebuy table (without item p) item) (without item p, rebuy_fail)
unfolding vendor_buyback
vendor_buyback_at table p n item h =
    ap
      (λ (o : Option Item). elim o as (λ _. Player × VendorMessage) [
        | none ↦ (p, rebuy_fail)
        | some x ↦ or_else (try_rebuy table (without x p) x) (without x p, rebuy_fail)
      ])
      h

-- What a rebuy needs: an item of the table, a free place, and the money.
abbrev pub IsRebuyable : ItemTable → Player → Item → Type 0
IsRebuyable table p item =
    (d : ItemData) × (slot : ℕ) × (table item.id item.type ≡ some d)
    × (find_free_slot p ≡ some slot)
    × (total_cost d.sell_price d item ≤ℤ p.money)

-- A rebuy that has all it needs.
pub rebuy_there :
    (table : ItemTable) (p : Player) (x : Item) (d : ItemData) (m : ℕ)
    → table x.id x.type ≡ some d
    → find_free_slot p ≡ some m
    → total_cost d.sell_price d x ≤ℤ p.money
    → try_rebuy table p x
      ≡ some (
        charged p (total_cost d.sell_price d x) m x,
        rebuy_succ (charged p (total_cost d.sell_price d x) m x).money m x,
      )
unfolding try_rebuy
rebuy_there table p x d m known free rich =
    let enough : ltb_ℤ p.money (total_cost d.sell_price d x) ≡ false = ground arith in
    simp (known, free, enough) refl

no_rebuy {ℓ} : {A : Type ℓ} {r : A} → none ≡ some r → ⊥
no_rebuy h = ground arith

-- The player with another buyback list.
abbrev pub relisted : List Item → Player → Player
relisted l p = record p { buyback = l }

-- vendorBuyback of a number that the list has, for a player with values within their caps: the list
-- loses one item in any case, the first one that equals the item with that number, and keeps the
-- others in their order; and either the player is left like that, which is so only if the item is not
-- in the table, no place is free, or the money is short; or the player has the money, pays
-- exactly the price, and has the item in the free place that findFreeSlot finds.
pub vendor_buyback_lem :
    (table : ItemTable) (p : Player) (n : ℕ) (item : Item)
    → IsCapped p
    → get_elem? p.buyback n ≡ some item
    → (before : List Item) × (after : List Item) × (p.buyback ≡ before ++ item ∷ after)
      × All (λ y. y ≢ item) before
      × ((IsRebuyable table (relisted (before ++ after) p) item → ⊥)
            × (vendor_buyback table p (pos (suc n)) ≡ (relisted (before ++ after) p, rebuy_fail))
          ⊎ ((q : Player) × (msg : VendorMessage) × (vendor_buyback table p (pos (suc n))
                ≡ (q, msg))
              × Rebought table (relisted (before ++ after) p) item q msg))
vendor_buyback_lem table p n item c h =
    let (before, after, split, others, run) = erase_first_splits p.buyback n item h in
    let answer = vendor_buyback_at table p n item h in
    (
      before,
      after,
      split,
      others,
      subst
          (λ (l : List Item).
            ((IsRebuyable table (relisted l p) item → ⊥)
              × (vendor_buyback table p (pos (suc n)) ≡ (relisted l p, rebuy_fail)))
            ⊎ ((q : Player) × (msg : VendorMessage) × (vendor_buyback table p (pos (suc n))
                  ≡ (q, msg))
                × Rebought table (relisted l p) item q msg))
          run
          (elim (Option-cases (try_rebuy table (without item p) item)) [
            | inl e ↦ inl (
              λ (d, slot, known, free, rich).
                  no_rebuy (sym e ∙ rebuy_there table (without item p) item d slot known free rich),
              answer ∙ simp e refl,
            )
            | inr ((q, msg), e) ↦ inr (
              q,
              msg,
              answer ∙ simp e refl,
              try_rebuy-Rebought table (without item p) item q msg
                  (buyback-IsCapped (erase_first item p.buyback) p c) e,
            )
          ]),
    )

-- vendorBuyback of an item that the player has not the money for fails, and the item is gone: it is
-- off the list, and the inventory and the money are as they were.
pub vendor_buyback_loses :
    (table : ItemTable) (p : Player) (n : ℕ) (item : Item) (d : ItemData)
    → get_elem? p.buyback n ≡ some item
    → table item.id item.type ≡ some d
    → p.money <ℤ total_cost d.sell_price d item
    → (vendor_buyback table p (pos (suc n)) ≡ (without item p, rebuy_fail))
      × (length (without item p).buyback + 1 ≡ length p.buyback)
unfolding try_rebuy
vendor_buyback_loses table p n item d h known poor =
    let e : ltb_ℤ p.money (total_cost d.sell_price d item) ≡ true = ground arith in
    (
      vendor_buyback_at table p n item h ∙ refused e (find_free_slot (without item p)) refl,
      length-erase_first p.buyback n item h,
    )
  where
    refused :
        ltb_ℤ p.money (total_cost d.sell_price d item) ≡ true
        → (o : Option ℕ) → find_free_slot (without item p) ≡ o
        → or_else (try_rebuy table (without item p) item) (without item p, rebuy_fail)
          ≡ (without item p, rebuy_fail)
    refused e none full = simp (known, full) refl
    refused e (some slot) free = simp (known, free, e) refl
