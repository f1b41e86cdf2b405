-- ===== src/Vendors.antt =====
-- Vendors.cpp: what a player may buy, sell, buy back and combine at a vendor. The tables of vendors,
-- of items and of the croc pot, which are loaded from files, are arguments, and so are the time and
-- the outcome of a roll. An `int` is an integer whose products wrap around; `none` of a handler is
-- an access outside an array. What only goes to the log is left out, as is iErrorCode, always 0.
pub mod Costs
pub mod Buying
pub mod Selling
pub mod Rebuying
pub mod Battery
pub mod CrocPot
pub mod Combining
pub mod Mishaps
mod Tests
use open_fusion.Common.{
  take, map, ◌++◌, ℕ, zero, suc, ◌+◌, ◌-◌, ◌*◌, ◌/◌, ◌%◌, ◌^◌, Bool, true, false, ◌&&◌, ◌||◌, not,
  Option, none, some, List, [], ◌∷◌, ltb, leb, ◌==◌, if◌then◌else◌, length, get_elem?, set,
}
use open_fusion.Common.Int.{ℤ, pos, negsuc, ◌+ℤ◌, ◌-ℤ◌, ◌*ℤ◌, ltb_ℤ, leb_ℤ, eqb_ℤ, pos_part, wrap32}
use open_fusion.Player.{
  Item, Player, no_item, add_capped, subtract_capped, taros, battery_weapon, battery_nano,
}
use open_fusion.Protocol.Cipher.{◌>>=◌}
use open_fusion.Items.{ItemData, ItemTable, find_free_slot}

-- VendorListing
pub record Listing : Type 0 where
  pub sort : ℤ
  pub type : ℕ
  pub id : ℕ

-- VendorTables
abbrev pub VendorTables : Type 0
VendorTables = ℤ → Option (List Listing)

-- sItemVendor, without the price that no one sets.
pub record VendorItem : Type 0 where
  pub vendor_id : ℤ
  pub item : Item
  pub sort_num : ℤ

-- What the handlers send.
pub data VendorMessage : Type 0 where
  buy_fail sell_fail rebuy_fail battery_fail : VendorMessage
  buy_succ : ℤ → ℕ → Item → VendorMessage
  sell_succ : ℤ → ℤ → Item → Item → VendorMessage
  rebuy_succ : ℤ → ℕ → Item → VendorMessage
  battery_succ : ℤ → ℤ → ℤ → VendorMessage
  table_succ : List VendorItem → VendorMessage
  start_succ : ℤ → ℤ → VendorMessage
  combine_fail : ℤ → ℤ → VendorMessage
  combine_succ : Bool → ℤ → ℤ → ℤ → Item → VendorMessage

-- A guard: what fails it goes to the one reply of failure.
abbrev pub check : Bool → Option {0} Unit
check b = if b then some tt else none

abbrev pub or_else {ℓ} : {A : Type ℓ} → Option A → A → A
or_else none d = d
or_else (some x) d = x

-- VEHICLE_EXPIRY_DURATION
abbrev pub vehicle_expiry : ℕ
vehicle_expiry = 604800

-- std::find over the listings, with their operator==
unfoldable pub on_sale : List Listing → Item → Bool
on_sale [] item = false
on_sale (l ∷ listings) item = l.type == item.type && l.id == item.id || on_sale listings item

-- The price of an item, times its number if it is of a kind that stacks.
abbrev pub total_cost : ℤ → ItemData → Item → ℤ
total_cost price d item = wrap32 (price *ℤ (if ltb_ℤ (pos 1) d.stack_size then item.opt else pos 1))

-- The time limit that a vehicle is sold with.
abbrev pub stamped : ℕ → Item → Item
stamped now item =
    if item.type == 10 then record item { time_limit = (now + vehicle_expiry) % 2 ^ 32 } else item

-- Taking the cost and storing the item.
abbrev pub charged : Player → ℤ → ℕ → Item → Player
charged p cost slot item =
    let q = subtract_capped p taros cost in record q { inven = set q.inven slot item }

-- sP_CL2FE_REQ_PC_VENDOR_ITEM_BUY
pub record BuyRequest : Type 0 where
  pub npc_id : ℤ
  pub vendor_id : ℤ
  pub item : Item

unfoldable pub try_buy :
    VendorTables → ItemTable → ℕ → Player → BuyRequest → Option (Player × VendorMessage)
unfolding on_sale
try_buy tables table now p req = do
  named ← check (eqb_ℤ req.vendor_id req.npc_id)
  listings ← tables req.vendor_id
  listed ← check (on_sale listings req.item)
  d ← table req.item.id req.item.type
  let cost = total_cost d.buy_price d req.item
  slot ← find_free_slot p
  paid ← check (not (ltb_ℤ p.money cost))
  fits ← check (eqb_ℤ d.stack_size (pos 0) || not (ltb_ℤ d.stack_size req.item.opt))
  let q = charged p cost slot (stamped now req.item)
  some (q, buy_succ q.money slot (stamped now req.item))

-- vendorBuy
pub vendor_buy : VendorTables → ItemTable → ℕ → Player → BuyRequest → Player × VendorMessage
unfolding try_buy
vendor_buy tables table now p req = or_else (try_buy tables table now p req) (p, buy_fail)

-- "forget oldest member if there's more than 5"
abbrev pub forget_oldest : List Item → List Item
forget_oldest [] = []
forget_oldest (x ∷ xs) = if ltb 5 (length (x ∷ xs)) then xs else x ∷ xs

-- The place and the item for the buyback list after the sale of a number of an item.
abbrev pub split_stack : Item → ℤ → Item × Item
split_stack item cnt =
    if ltb_ℤ (pos 0) (item.opt -ℤ cnt)
    then (record item { opt = item.opt -ℤ cnt }, record item { opt = cnt })
    else (no_item, item)

-- The sale of a number of the item of a slot; `none` is a refusal.
unfoldable pub try_sell : ItemTable → Player → ℤ → ℤ → Item → Option (Player × VendorMessage)
try_sell table p slot cnt item = do
  d ← table item.id item.type
  sellable ← check (d.sellable && leb_ℤ cnt item.opt)
  plain ← check (ltb_ℤ item.opt (pos (2 ^ 16)))
  let q = add_capped p taros (wrap32 (d.sell_price *ℤ cnt))
  let stay = (split_stack item cnt).0
  let original = (split_stack item cnt).1
  let inven = set q.inven (pos_part slot) stay
  let buyback = forget_oldest (q.buyback ++ original ∷ [])
  some (record q { inven = inven; buyback = buyback }, sell_succ slot q.money original stay)

-- Inven at an index; `none` is a read outside the array.
unfoldable pub inven_at : List Item → ℤ → Option Item
inven_at inven (pos n) = get_elem? inven n
inven_at inven (negsuc n) = none

-- vendorSell
pub vendor_sell : ItemTable → Player → ℤ → ℤ → Option (Player × VendorMessage)
unfolding inven_at try_sell
vendor_sell table p slot cnt =
    if ltb_ℤ slot (pos 0) || leb_ℤ (pos 50) slot || ltb_ℤ cnt (pos 0)
    then some (p, sell_fail)
    else (inven_at p.inven slot >>= λ item.
        some (or_else (try_sell table p slot cnt item) (p, sell_fail)))

abbrev pub same_item : Item → Item → Bool
same_item a b =
    a.type == b.type && a.id == b.id && eqb_ℤ a.opt b.opt && a.time_limit == b.time_limit

-- The list without the first identical item.
unfoldable pub erase_first : Item → List Item → List Item
erase_first item [] = []
erase_first item (x ∷ xs) =
    let rest = erase_first item xs in if same_item x item then xs else x ∷ rest

unfoldable pub try_rebuy : ItemTable → Player → Item → Option (Player × VendorMessage)
try_rebuy table p item = do
  d ← table item.id item.type
  let cost = total_cost d.sell_price d item
  slot ← find_free_slot p
  paid ← check (not (ltb_ℤ p.money cost))
  let q = charged p cost slot item
  some (q, rebuy_succ q.money slot item)

-- vendorBuyback, of the item with a number that counts from 1.
unfoldable pub vendor_buyback : ItemTable → Player → ℤ → Player × VendorMessage
unfolding erase_first try_rebuy
vendor_buyback table p (negsuc n) = (p, rebuy_fail)
vendor_buyback table p (pos zero) = (p, rebuy_fail)
vendor_buyback table p (pos (suc n)) = elim (get_elem? p.buyback n) [
  | none ↦ (p, rebuy_fail)
  | some item ↦
      let q : Player = record p { buyback = erase_first item p.buyback } in
      or_else (try_rebuy table q item) (q, rebuy_fail)
]

abbrev pub vendor_item : ℤ → Listing → VendorItem
vendor_item vendor_id l = record {
  vendor_id = vendor_id;
  item = record no_item {
    id = l.id;
    type = l.type;
    time_limit = if l.type == 10 then vehicle_expiry else 0;
  };
  sort_num = l.sort;
}

-- vendorTable: at most 20 items, or no reply.
unfoldable pub vendor_table : VendorTables → ℤ → ℤ → Option VendorMessage
vendor_table tables npc_id vendor_id = do
  named ← check (eqb_ℤ vendor_id npc_id)
  listings ← tables vendor_id
  some (table_succ (take 20 (map (vendor_item vendor_id) listings)))

-- vendorStart
abbrev pub vendor_start : ℤ → ℤ → VendorMessage
vendor_start npc_id vendor_id = start_succ npc_id vendor_id

-- PC_BATTERY_MAX
abbrev pub battery_max : ℤ
battery_max = pos 9999

-- vendorBuyBattery, of a number of hundreds of batteries of the kind 3 (weapons) or 4 (nanos).
unfoldable pub vendor_buy_battery : Player → ℕ → ℤ → Player × VendorMessage
vendor_buy_battery p id opt =
    let cost = wrap32 (opt *ℤ pos 100) in
    let full = if id == 3 then leb_ℤ battery_max p.battery_w else leb_ℤ battery_max p.battery_n in
    if full || ltb_ℤ p.money cost || ltb_ℤ opt (pos 0)
    then (p, battery_fail)
    else (let before = p.battery_w +ℤ p.battery_n in
        let p1 = add_capped p battery_weapon (if id == 3 then cost else pos 0) in
        let p2 = add_capped p1 battery_nano (if id == 4 then cost else pos 0) in
        let p3 = subtract_capped p2 taros (p2.battery_w +ℤ p2.battery_n -ℤ before) in
        (p3, battery_succ p3.money p3.battery_w p3.battery_n))
