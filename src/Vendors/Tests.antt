-- ===== src/Vendors/Tests.antt =====
-- Runs of the handlers of vendors.
use open_fusion.Common.{
  List, All, ◌≢◌, ◌++◌, ℕ, suc, ◌+◌, ◌≡◌, refl, ◌⊎◌, true, Option, none, some, [], ◌∷◌, arith, ◌==◌,
  if◌then◌else◌, length, get_elem?, set,
}
use open_fusion.Common.Int.{ℤ, pos, ◌*ℤ◌, eqb_ℤ}
use open_fusion.Player.{
  fusion_matter, taros_in_trade, Item, Player, no_item, new_player, taros, battery_weapon,
  battery_nano, capped_value, get_cap,
}
use open_fusion.Player.Range.{IsCapped}
use open_fusion.Items.{ItemData, ItemTable, find_free_slot, free_from}
use open_fusion.Vendors.{
  VendorTables, VendorMessage, buy_fail, buy_succ, rebuy_fail, rebuy_succ, combine_fail,
  combine_succ, on_sale, total_cost, BuyRequest, vendor_buy, vendor_sell, vendor_buyback,
  vendor_buy_battery,
}
use open_fusion.Vendors.CrocPot.{CrocPotEntry, vendor_combine_items}
use open_fusion.Vendors.Costs.{paid, buyback-IsCapped}
use open_fusion.Vendors.Buying.{Bought, vendor_buy_lem, vendor_buy_for_nothing}
use open_fusion.Vendors.Selling.{SellsOrFails, vendor_sell_lem}
use open_fusion.Vendors.Rebuying.{
  IsRebuyable, Rebought, relisted, vendor_buyback_lem, vendor_buyback_loses, without,
}
use open_fusion.Vendors.Battery.{funds, vendor_buy_battery_conserves}
use open_fusion.Vendors.Combining.{Combined, vendor_combine_items_lem}
use open_fusion.Vendors.Mishaps.{vendor_combine_self_destroys, vendor_sell_nothing_copies}

abbrev goods : ℤ → ItemData
goods size = record {
  tradeable = true;
  sellable = true;
  buy_price = pos 10;
  sell_price = pos 2;
  stack_size = size;
  level = pos 1;
  rarity = pos 1;
  point_damage = pos 0;
  group_damage = pos 0;
  fire_rate = pos 0;
  defense = pos 0;
  gender = pos 0;
  weapon_type = pos 0;
}

-- Items of type 7 stack, those of type 1 do not.
abbrev goods_table : ItemTable
goods_table id type =
    if type == 7 then some (goods (pos 100)) else if type == 1 then some (goods (pos 1)) else none

abbrev vendors : VendorTables
vendors id =
    if eqb_ℤ id (pos 5) then some (record { sort = pos 0; type = 7; id = 3 } ∷ []) else none

abbrev stock : ℕ → ℤ → Item
stock type n = record { type = type; id = 3; opt = n; time_limit = 0 }

abbrev customer : Player
customer = record new_player {
  money = pos 500;
  inven = set (set new_player.inven 0 (stock 1 (pos 1))) 1 (stock 1 (pos 1));
}

customer-IsCapped : IsCapped customer
unfolding capped_value get_cap
customer-IsCapped taros = (omega arith, omega arith)
customer-IsCapped fusion_matter = (omega arith, omega arith)
customer-IsCapped battery_weapon = (omega arith, omega arith)
customer-IsCapped battery_nano = (omega arith, omega arith)
customer-IsCapped taros_in_trade = (omega arith, omega arith)

abbrev order : ℤ → BuyRequest
order n = record { npc_id = pos 5; vendor_id = pos 5; item = stock 7 n }

vendor_buy_lem_example :
    (vendor_buy vendors goods_table 0 customer (order (pos 4)) ≡ (customer, buy_fail))
    ⊎ ((q : Player) × (msg : VendorMessage) × (vendor_buy vendors goods_table 0 customer
            (order (pos 4))
          ≡ (q, msg))
        × Bought vendors goods_table 0 customer (order (pos 4)) q msg)
vendor_buy_lem_example =
    vendor_buy_lem vendors goods_table 0 customer (order (pos 4)) customer-IsCapped

free_pills :
    (q : Player) × (vendor_buy vendors goods_table 0 customer (order (pos 0))
      ≡ (q, buy_succ q.money 2 (stock 7 (pos 0))))
    × (q.money ≡ pos 500)
    × (q.inven ≡ set customer.inven 2 (stock 7 (pos 0)))
unfolding on_sale find_free_slot free_from ◌*ℤ◌
free_pills =
    vendor_buy_for_nothing vendors goods_table 0 customer (order (pos 0))
      (record { sort = pos 0; type = 7; id = 3 } ∷ []) (goods (pos 100)) 2 customer-IsCapped refl
      refl refl refl refl (omega arith) (omega arith) (omega arith)

vendor_sell_lem_example :
    (q : Player) × (msg : VendorMessage) × (vendor_sell goods_table customer (pos 1) (pos 1)
      ≡ some (q, msg))
    × SellsOrFails goods_table 1 3 customer (pos 1) (pos 1) q msg
vendor_sell_lem_example =
    vendor_sell_lem goods_table 1 3 customer (pos 1) (pos 1) customer-IsCapped (λ e. ground arith)
      refl

-- After a sale of 400 of a kind that stacks, for 800.
abbrev regretful : Player
regretful = record customer { buyback = stock 7 (pos 400) ∷ [] }

regretful-IsCapped : IsCapped regretful
unfolding capped_value get_cap
regretful-IsCapped taros = (omega arith, omega arith)
regretful-IsCapped fusion_matter = (omega arith, omega arith)
regretful-IsCapped battery_weapon = (omega arith, omega arith)
regretful-IsCapped battery_nano = (omega arith, omega arith)
regretful-IsCapped taros_in_trade = (omega arith, omega arith)

-- With another item before it on the list.
abbrev hesitant : Player
hesitant = record customer { buyback = stock 1 (pos 3) ∷ stock 7 (pos 400) ∷ [] }

vendor_buyback_lem_example :
    (before : List Item) × (after : List Item) × (stock 1 (pos 3) ∷ stock 7 (pos 400) ∷ []
      ≡ before ++ stock 7 (pos 400) ∷ after)
    × All (λ y. y ≢ stock 7 (pos 400)) before
    × ((IsRebuyable goods_table (relisted (before ++ after) hesitant) (stock 7 (pos 400)) → ⊥)
          × (vendor_buyback goods_table hesitant (pos (suc 1))
              ≡ (relisted (before ++ after) hesitant, rebuy_fail))
        ⊎ ((q : Player) × (msg : VendorMessage) × (vendor_buyback goods_table hesitant (pos (suc 1))
              ≡ (q, msg))
            × Rebought goods_table (relisted (before ++ after) hesitant) (stock 7 (pos 400)) q msg))
vendor_buyback_lem_example =
    vendor_buyback_lem goods_table hesitant 1 (stock 7 (pos 400))
      (buyback-IsCapped hesitant.buyback customer customer-IsCapped) refl

poor_player :
    (vendor_buyback goods_table regretful (pos (suc 0))
      ≡ (without (stock 7 (pos 400)) regretful, rebuy_fail))
    × (length (without (stock 7 (pos 400)) regretful).buyback + 1 ≡ 1)
unfolding ◌*ℤ◌
poor_player =
    vendor_buyback_loses goods_table regretful 0 (stock 7 (pos 400)) (goods (pos 100)) refl refl
      (omega arith)

-- The cost of 42949673 hundreds wraps around to 4.
vendor_buy_battery_conserves_example :
    (funds (vendor_buy_battery customer 3 (pos 42949673)).0 ≡ funds customer)
    × IsCapped (vendor_buy_battery customer 3 (pos 42949673)).0
vendor_buy_battery_conserves_example =
    vendor_buy_battery_conserves customer 3 (pos 42949673) customer-IsCapped

abbrev crocs : ℤ → Option CrocPotEntry
crocs diff = some (record { mult_stats = pos 2; mult_looks = pos 3 })

vendor_combine_items_lem_example :
    (vendor_combine_items goods_table crocs true customer (pos 0) (pos 1)
      ≡ (customer, combine_fail (pos 0) (pos 1)))
    ⊎ ((q : Player) × (msg : VendorMessage) × (vendor_combine_items goods_table crocs true customer
            (pos 0)
            (pos 1)
          ≡ (q, msg))
        × Combined goods_table crocs true customer 0 1 (stock 1 (pos 1)) (stock 1 (pos 1)) q msg)
vendor_combine_items_lem_example =
    vendor_combine_items_lem goods_table crocs true customer 0 1 (stock 1 (pos 1)) (stock 1 (pos 1))
      customer-IsCapped (λ e. ground arith) refl refl (omega arith) (omega arith)

self_combination :
    (q : Player) × (vendor_combine_items goods_table crocs true customer (pos 0) (pos 0)
      ≡ (q, combine_succ true q.money (pos 0) (pos 0) no_item))
    × (get_elem? q.inven 0 ≡ some no_item)
self_combination =
    vendor_combine_self_destroys goods_table crocs customer 0 (stock 1 (pos 1)) (goods (pos 1))
      (record { mult_stats = pos 2; mult_looks = pos 3 }) (omega arith) refl refl refl refl

sale_of_nothing :
    (s : Player) × (msg : VendorMessage) × (q : Player) × (vendor_sell goods_table customer
        (pos 0)
        (pos 0)
      ≡ some (s, msg))
    × (vendor_buyback goods_table s (pos 1) ≡ (q, rebuy_succ q.money 2 (stock 1 (pos 0))))
    × (q.inven ≡ set customer.inven 2 (stock 1 (pos 0)))
    × (q.money ≡ paid (pos 500) (total_cost (pos 2) (goods (pos 1)) (stock 1 (pos 0))))
unfolding find_free_slot free_from ◌*ℤ◌
sale_of_nothing =
    vendor_sell_nothing_copies goods_table customer 0 2 (stock 1 (pos 1)) (goods (pos 1))
      customer-IsCapped (omega arith) refl refl refl (omega arith) (omega arith) refl refl
      (omega arith)
