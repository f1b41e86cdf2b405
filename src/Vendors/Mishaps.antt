-- ===== src/Vendors/Mishaps.antt =====
-- Requests to a vendor that no check stops: a sale of no item, and an item combined with itself.
use open_fusion.Common.{
  ◌||◌, false, ◌++◌, ℕ, zero, suc, ◌*◌, ◌^◌, ◌<◌, ◌≡◌, refl, sym, ap, ap₂, subst, ◌∙◌, true, false,
  Option, some, List, [], ◌∷◌, arith, ◌==◌, get_elem?, set,
}
use open_fusion.Common.Int.{ℤ, pos, ◌+ℤ◌, ◌-ℤ◌, ◌*ℤ◌, ◌≤ℤ◌, ◌<ℤ◌, ltb_ℤ, leb_ℤ, wrap32, int_laws}
use open_fusion.Player.{Item, Player, no_item, add_capped, subtract_capped, taros}
use open_fusion.Player.Range.{IsCapped}
use open_fusion.Player.Others.{add_capped_nothing, subtract_capped-SameTrade}
use open_fusion.Items.{ItemData, ItemTable, find_free_slot}
use open_fusion.Items.Places.{get_elem?-set_self}
use open_fusion.Vendors.{
  inven_at, VendorMessage, rebuy_fail, sell_succ, rebuy_succ, combine_succ, or_else, charged,
  total_cost, forget_oldest, split_stack, try_sell, vendor_sell, vendor_buyback,
}
use open_fusion.Vendors.CrocPot.{
  CrocPotEntry, style_id, abs_ℤ, may_combine, combined, combine_cost, after_roll, try_combine,
  vendor_combine_items,
}
use open_fusion.Vendors.Costs.{buyback-IsCapped, some_inj, paid, charged_money, charged_inven}
use open_fusion.Vendors.Rebuying.{rebuy_there, vendor_buyback_at, without}

combine_cost_self :
    (table : ItemTable) (crocs : ℤ → Option CrocPotEntry) (x : Item) (d : ItemData)
    (recipe : CrocPotEntry)
    → style_id x ≡ x.id
    → table x.id x.type ≡ some d
    → crocs (pos 0) ≡ some recipe
    → (cost : ℤ) × (combine_cost table crocs x x ≡ some cost)
unfolding combine_cost
combine_cost_self table crocs x d recipe style known croc =
    let own : style_id x == x.id ≡ true = ground arith in
    let alike : may_combine x x d d ≡ true = ground arith in
    let level : abs_ℤ (d.level -ℤ d.level) ≡ pos 0 = none_apart d.level in
    (
      wrap32 (d.buy_price *ℤ recipe.mult_stats +ℤ d.buy_price *ℤ recipe.mult_looks),
      simp (known, own, level, croc, alike) refl,
    )
  where
    none_apart : (a : ℤ) → abs_ℤ (a -ℤ a) ≡ pos 0
    none_apart a = let e : a -ℤ a ≡ pos 0 = omega int_laws in ap abs_ℤ e

after_roll_self :
    (p : Player) (cost : ℤ) (n : ℕ) (x : Item)
    → get_elem? p.inven n ≡ some x
    → (q : Player) × (after_roll true p cost (pos n) (pos n) x x
        ≡ some (q, combine_succ true q.money (pos n) (pos n) no_item))
      × (get_elem? q.inven n ≡ some no_item)
unfolding after_roll
after_roll_self p cost n x h =
    let paid = subtract_capped p taros cost in
    let there : get_elem? paid.inven n ≡ some x =
      ap (λ (k : List Item). get_elem? k n) (subtract_capped-SameTrade p taros cost).0 ∙ h in
    let blend : Item = record x { opt = wrap32 (pos (style_id x * 2 ^ 16)); id = x.id } in
    let empty : get_elem? (combined paid.inven n n x x) n ≡ some no_item =
      get_elem?-set_self (set paid.inven n blend) n blend no_item
        (get_elem?-set_self paid.inven n x blend there) in
    (record paid { inven = combined paid.inven n n x x }, simp empty refl, empty)

-- vendorCombineItems of an item with itself, at one place n of the inventory, destroys the item when
-- the roll succeeds: the place is empty then. The item has data and looks of its own, and the croc
-- pot has an entry for a difference of 0 levels.
pub vendor_combine_self_destroys :
    (table : ItemTable) (crocs : ℤ → Option CrocPotEntry) (p : Player) (n : ℕ) (x : Item)
    (d : ItemData) (recipe : CrocPotEntry)
    → n < 50
    → get_elem? p.inven n ≡ some x
    → style_id x ≡ x.id
    → table x.id x.type ≡ some d
    → crocs (pos 0) ≡ some recipe
    → (q : Player) × (vendor_combine_items table crocs true p (pos n) (pos n)
        ≡ (q, combine_succ true q.money (pos n) (pos n) no_item))
      × (get_elem? q.inven n ≡ some no_item)
unfolding vendor_combine_items try_combine
vendor_combine_self_destroys table crocs p n x d recipe l h style known croc =
    let (cost, price) = combine_cost_self table crocs x d recipe style known croc in
    let (q, e, empty) = after_roll_self p cost n x h in
    let range : ltb_ℤ (pos n) (pos 50) ≡ true = ground arith in
    let low : leb_ℤ (pos 0) (pos n) ≡ true = ground arith in
    (q, simp (range, low, h, price, e) refl, empty)

set_same {ℓ} :
    {A : Type ℓ} (xs : List A) (n : ℕ) (x : A) → get_elem? xs n ≡ some x → set xs n x ≡ xs
set_same [] n x h = refl
set_same (y ∷ xs) zero x h = ap (λ z. z ∷ xs) (some_inj (sym h))
set_same (y ∷ xs) (suc n) x h = ap (λ l. y ∷ l) (set_same xs n x h)

sub_zero : (a : ℤ) → a -ℤ pos 0 ≡ a
sub_zero a = omega int_laws

free : (price : ℤ) → wrap32 (price *ℤ pos 0) ≡ pos 0
unfolding ◌*ℤ◌
free price = let e : price *ℤ pos 0 ≡ pos 0 = ground arith in ap wrap32 e

split_nothing : (x : Item) → pos 0 <ℤ x.opt → split_stack x (pos 0) ≡ (x, record x { opt = pos 0 })
split_nothing x h =
    let e : ltb_ℤ (pos 0) (x.opt -ℤ pos 0) ≡ true =
      subst (λ (v : ℤ). ltb_ℤ (pos 0) v ≡ true) (sym (sub_zero x.opt)) (ground arith) in
    simp e (ap (λ (v : ℤ). (record x { opt = v }, record x { opt = pos 0 })) (sub_zero x.opt))

-- The sale of none of an item: a copy with the number 0 goes on the list.
sell_nothing :
    (table : ItemTable) (p : Player) (n : ℕ) (x : Item) (d : ItemData)
    → n < 50
    → get_elem? p.inven n ≡ some x
    → table x.id x.type ≡ some d
    → d.sellable ≡ true
    → pos 0 <ℤ x.opt
    → x.opt <ℤ pos (2 ^ 16)
    → p.buyback ≡ []
    → try_sell table p (pos n) (pos 0) x
      ≡ some (
        record p { buyback = record x { opt = pos 0 } ∷ [] },
        sell_succ (pos n) p.money (record x { opt = pos 0 }) x,
      )
unfolding try_sell
sell_nothing table p n x d l h known sellable some_ few none_ =
    let enough : leb_ℤ (pos 0) x.opt ≡ true = ground arith in
    let plain : ltb_ℤ x.opt (pos (2 ^ 16)) ≡ true = ground arith in
    let step : try_sell table p (pos n) (pos 0) x
        ≡ sold (add_capped p taros (wrap32 (d.sell_price *ℤ pos 0))) (split_stack x (pos 0)) =
      simp (known, sellable, enough, plain) refl in
    step
    ∙ ap₂ sold (ap (add_capped p taros) (free d.sell_price) ∙ add_capped_nothing p taros)
        (split_nothing x some_)
    ∙ ap₂
        (λ (inven buyback : List Item). some (
          record p { inven = inven; buyback = buyback },
          sell_succ (pos n) p.money (record x { opt = pos 0 }) x,
        ))
        (set_same p.inven n x h)
        (ap (λ (l : List Item). forget_oldest (l ++ record x { opt = pos 0 } ∷ [])) none_)
  where
    sold : Player → Item × Item → Option (Player × VendorMessage)
    sold q (stay, original) = some (
      record q { inven = set q.inven n stay; buyback = forget_oldest (q.buyback ++ original ∷ []) },
      sell_succ (pos n) q.money original stay,
    )

relisted_slot :
    (l : List Item) (p : Player) → find_free_slot (record p { buyback = l }) ≡ find_free_slot p
unfolding find_free_slot
relisted_slot l p = refl

-- vendorSell of none of an item that can be sold leaves the item where it is and puts it on the empty
-- buyback list with the number 0; vendorBuyback then gives a second item of the same type and id for
-- the price of the number 0, which is 0 for a kind that stacks.
pub vendor_sell_nothing_copies :
    (table : ItemTable) (p : Player) (n m : ℕ) (x : Item) (d : ItemData)
    → IsCapped p
    → n < 50
    → get_elem? p.inven n ≡ some x
    → table x.id x.type ≡ some d
    → d.sellable ≡ true
    → pos 0 <ℤ x.opt
    → x.opt <ℤ pos (2 ^ 16)
    → p.buyback ≡ []
    → find_free_slot p ≡ some m
    → total_cost d.sell_price d (record x { opt = pos 0 }) ≤ℤ p.money
    → (s : Player) × (msg : VendorMessage) × (q : Player) × (vendor_sell table p (pos n) (pos 0)
        ≡ some (s, msg))
      × (vendor_buyback table s (pos 1) ≡ (q, rebuy_succ q.money m (record x { opt = pos 0 })))
      × (q.inven ≡ set p.inven m (record x { opt = pos 0 }))
      × (q.money ≡ paid p.money (total_cost d.sell_price d (record x { opt = pos 0 })))
unfolding vendor_sell inven_at
vendor_sell_nothing_copies table p n m x d c l h known sellable some_ few none_ free rich =
    let copy : Item = record x { opt = pos 0 } in
    let listed : Player = record p { buyback = copy ∷ [] } in
    let cost = total_cost d.sell_price d copy in
    let w = without copy listed in
    let taken : (ltb_ℤ (pos n) (pos 0) || leb_ℤ (pos 50) (pos n) || ltb_ℤ (pos 0) (pos 0)) ≡ false =
      ground arith in
    let sold = sell_nothing table p n x d l h known sellable some_ few none_ in
    let there = rebuy_there table w copy d m known (relisted_slot w.buyback p ∙ free) rich in
    (
      listed,
      sell_succ (pos n) p.money copy x,
      charged w cost m copy,
      simp (taken, h, sold) refl,
      vendor_buyback_at table listed 0 copy refl
          ∙ ap (λ (o : Option (Player × VendorMessage)). or_else o (w, rebuy_fail)) there,
      charged_inven w cost m copy,
      charged_money w cost m copy (buyback-IsCapped w.buyback p c) rich,
    )
