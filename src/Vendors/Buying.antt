-- ===== src/Vendors/Buying.antt =====
-- What vendorBuy gives and takes.
use open_fusion.Common.{
  ℕ, ◌≡◌, refl, sym, ap, ◌∙◌, ◌⊎◌, inl, inr, true, false, ◌||◌, not, some, List, arith,
  Option-cases, set,
}
use open_fusion.Common.Int.{ℤ, pos, negsuc, ◌≤ℤ◌, ltb_ℤ, eqb_ℤ}
use open_fusion.Player.{Player, taros, capped_value}
use open_fusion.Player.Range.{IsCapped}
use open_fusion.Items.{ItemData, ItemTable, find_free_slot}
use open_fusion.Vendors.{
  Listing, VendorTables, VendorMessage, buy_fail, buy_succ, check, on_sale, total_cost, stamped,
  charged, BuyRequest, try_buy, vendor_buy,
}
use open_fusion.Vendors.Costs.{check_inv, bind_inv, some_inj, paid, charged_money, charged_inven}

-- What holds of a purchase that succeeds.
abbrev pub Bought :
    VendorTables → ItemTable → ℕ → Player → BuyRequest → Player → VendorMessage → Type 0
Bought tables table now p req q msg =
    (listings : List Listing) × (d : ItemData) × (slot : ℕ) × (tables req.vendor_id ≡ some listings)
    × (on_sale listings req.item ≡ true)
    × (table req.item.id req.item.type ≡ some d)
    × ((d.stack_size ≡ pos 0) ⊎ (req.item.opt ≤ℤ d.stack_size))
    × (find_free_slot p ≡ some slot)
    × (total_cost d.buy_price d req.item ≤ℤ p.money)
    × (q.money ≡ paid p.money (total_cost d.buy_price d req.item))
    × (q.inven ≡ set p.inven slot (stamped now req.item))
    × (msg ≡ buy_succ q.money slot (stamped now req.item))

fits_inv :
    (size opt : ℤ)
    → eqb_ℤ size (pos 0) || not (ltb_ℤ size opt) ≡ true
    → (size ≡ pos 0) ⊎ (opt ≤ℤ size)
fits_inv (pos n) opt h = ground arith
fits_inv (negsuc n) opt h = ground arith

affordable : (money cost : ℤ) → not (ltb_ℤ money cost) ≡ true → cost ≤ℤ money
affordable money cost h = ground arith

try_buy-Bought :
    (tables : VendorTables) (table : ItemTable) (now : ℕ) (p : Player) (req : BuyRequest)
    (q : Player) (msg : VendorMessage)
    → IsCapped p
    → try_buy tables table now p req ≡ some (q, msg)
    → Bought tables table now p req q msg
unfolding try_buy
try_buy-Bought tables table now p req q msg c h =
    let (u, e, h) = bind_inv (check (eqb_ℤ req.vendor_id req.npc_id)) _ (q, msg) h in
    let (listings, found, h) = bind_inv (tables req.vendor_id) _ (q, msg) h in
    let (u', listed, h) = bind_inv (check (on_sale listings req.item)) _ (q, msg) h in
    let (d, known, h) = bind_inv (table req.item.id req.item.type) _ (q, msg) h in
    let cost = total_cost d.buy_price d req.item in
    let (slot, free, h) = bind_inv (find_free_slot p) _ (q, msg) h in
    let (u2, rich, h) = bind_inv (check (not (ltb_ℤ p.money cost))) _ (q, msg) h in
    let (u3, fits, h) =
      bind_inv (check (eqb_ℤ d.stack_size (pos 0) || not (ltb_ℤ d.stack_size req.item.opt))) _
        (q, msg) h in
    let rich' = affordable p.money cost (check_inv _ u2 rich) in
    let new = charged p cost slot (stamped now req.item) in
    let same = some_inj h in
    let same_player : new ≡ q = ap (λ z. z.0) same in
    (
      listings,
      d,
      slot,
      found,
      check_inv _ u' listed,
      known,
      fits_inv d.stack_size req.item.opt (check_inv _ u3 fits),
      free,
      rich',
      sym (ap (λ (z : Player). z.money) same_player)
          ∙ charged_money p cost slot (stamped now req.item) c rich',
      sym (ap (λ (z : Player). z.inven) same_player)
          ∙ charged_inven p cost slot (stamped now req.item),
      sym (ap (λ z. z.1) same)
          ∙ ap (λ (z : Player). buy_succ z.money slot (stamped now req.item)) same_player,
    )

-- vendorBuy, for a player with values within their caps, either fails and changes nothing, or the
-- item is on the list of the vendor and in the table, its number is within the size of a stack (if
-- it has one), the player has the money, pays exactly the price (nothing, if that is negative), and
-- has the item, a vehicle with its time limit, in the free place that findFreeSlot finds.
pub vendor_buy_lem :
    (tables : VendorTables) (table : ItemTable) (now : ℕ) (p : Player) (req : BuyRequest)
    → IsCapped p
    → (vendor_buy tables table now p req ≡ (p, buy_fail))
      ⊎ ((q : Player) × (msg : VendorMessage) × (vendor_buy tables table now p req ≡ (q, msg))
          × Bought tables table now p req q msg)
unfolding vendor_buy
vendor_buy_lem tables table now p req c = elim (Option-cases (try_buy tables table now p req)) [
  | inl e ↦ inl (rw e refl)
  | inr ((q, msg), e) ↦ inr (q, msg, rw e refl, try_buy-Bought tables table now p req q msg c e)
]

-- A request for a listed item whose number is 0 or less, so that the price is not positive, succeeds
-- if there is a free place: vendorBuy gives the item and takes no money.
pub vendor_buy_for_nothing :
    (tables : VendorTables) (table : ItemTable) (now : ℕ) (p : Player) (req : BuyRequest)
    (listings : List Listing) (d : ItemData) (slot : ℕ)
    → IsCapped p
    → eqb_ℤ req.vendor_id req.npc_id ≡ true
    → tables req.vendor_id ≡ some listings
    → on_sale listings req.item ≡ true
    → table req.item.id req.item.type ≡ some d
    → find_free_slot p ≡ some slot
    → pos 0 ≤ℤ d.stack_size
    → req.item.opt ≤ℤ pos 0
    → total_cost d.buy_price d req.item ≤ℤ pos 0
    → (q : Player) × (vendor_buy tables table now p req
        ≡ (q, buy_succ q.money slot (stamped now req.item)))
      × (q.money ≡ p.money)
      × (q.inven ≡ set p.inven slot (stamped now req.item))
unfolding vendor_buy try_buy capped_value
vendor_buy_for_nothing tables table now p req listings d slot c named found listed known free size
      few cheap =
    let cost = total_cost d.buy_price d req.item in
    let item = stamped now req.item in
    let rich : cost ≤ℤ p.money = omega (arith, cheap, (c taros).0) in
    let rich' : ltb_ℤ p.money cost ≡ false = ground arith in
    let fits : ltb_ℤ d.stack_size req.item.opt ≡ false = ground arith in
    let fits' : (eqb_ℤ d.stack_size (pos 0) || not (ltb_ℤ d.stack_size req.item.opt)) ≡ true =
      ground arith in
    (
      charged p cost slot item,
      simp (named, found, listed, known, free, rich', fits') refl,
      charged_money p cost slot item c rich ∙ paid_nothing p.money cost cheap,
      charged_inven p cost slot item,
    )
  where
    paid_nothing : (money cost : ℤ) → cost ≤ℤ pos 0 → paid money cost ≡ money
    paid_nothing money cost h = ground arith
