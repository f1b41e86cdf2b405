-- ===== src/Items/Tests.antt =====
-- Runs of the handlers of items.
use open_fusion.Common.{
  none, some, ℕ, ◌≤◌, ◌≡◌, refl, inr, true, List, [], ◌∷◌, arith, ◌==◌, if◌then◌else◌, set,
}
use open_fusion.Common.Int.{◌+ℤ◌, ◌-ℤ◌, pos}
use open_fusion.Player.{Item, Player, no_item, new_player}
use open_fusion.Items.{
  ItemData, ItemTable, find_free_slot, inventory_slot, Place, item_at, put_item,
}
use open_fusion.Items.Move.{
  request_places, common_stack, MoveRequest, ItemMessage, item_move, item_delete, item_move_succ,
  item_delete_succ,
}
use open_fusion.Items.Places.{Apart, held}
use open_fusion.Items.Kitted.{IsKitted}
use open_fusion.Items.Moves.{item_move_conserves}
use open_fusion.Items.Slots.{IsFirstFree, find_free_slot-IsFirstFree, item_delete_frees}
use open_fusion.Items.InPlace.{onto_itself, item_move_in_place_empties}

abbrev pill_data : ItemData
pill_data = record {
  tradeable = true;
  sellable = true;
  buy_price = pos 10;
  sell_price = pos 2;
  stack_size = pos 100;
  level = pos 1;
  rarity = pos 1;
  point_damage = pos 0;
  group_damage = pos 0;
  fire_rate = pos 0;
  defense = pos 0;
  gender = pos 0;
  weapon_type = pos 0;
}

-- Items of type 7 stack.
abbrev pill_table : ItemTable
pill_table id type = if type == 7 then some pill_data else none

abbrev pills : ℕ → Item
pills n = record { type = 7; id = 3; opt = pos n; time_limit = 0 }

abbrev two_pills : Player
two_pills = record new_player { inven = set (set new_player.inven 0 (pills 40)) 1 (pills 70) }

abbrev pile_up : MoveRequest
pile_up = record { e_from = pos 1; from_slot_num = pos 0; e_to = pos 1; to_slot_num = pos 1 }

-- 40 and 70 make a full stack of 100, and 10 are left.
run_pile_up :
    item_move pill_table two_pills pile_up
    ≡ some (
      record new_player { inven = set (set new_player.inven 0 (pills 10)) 1 (pills 100) },
      item_move_succ (pos 1) (pos 0) (pills 10) (pos 1) (pos 1) (pills 100) ∷ [],
    )
unfolding item_move request_places item_at common_stack put_item ◌+ℤ◌ ◌-ℤ◌
run_pile_up = refl

item_move_conserves_example :
    (q : Player) × (msgs : List ItemMessage) × (item_move pill_table two_pills pile_up
      ≡ some (q, msgs))
    × IsKitted q
    × (held 7 3 q ≡ held 7 3 two_pills)
item_move_conserves_example =
    item_move_conserves pill_table two_pills pile_up 7 3 (refl, refl, refl)
      (inr (λ e. ground arith)) (λ e. ground arith)

first_free : IsFirstFree two_pills.inven (find_free_slot two_pills)
first_free = find_free_slot-IsFirstFree two_pills

pills_deleted :
    (q : Player) × (item_delete two_pills (pos 1) (pos 1)
      ≡ some (q, item_delete_succ (pos 1) (pos 1) ∷ []))
    × IsKitted q
    × ((s : Place) → Apart (inventory_slot, 1) s → item_at q s ≡ item_at two_pills s)
    × ((m : ℕ) × (find_free_slot q ≡ some m) × (m ≤ 1))
pills_deleted = item_delete_frees two_pills (pos 1) 1 (refl, refl, refl) (omega arith)

pills_moved_in_place :
    (q : Player) × (msgs : List ItemMessage) × (item_move pill_table two_pills (onto_itself 1)
      ≡ some (q, msgs))
    × (item_at q (inventory_slot, 1) ≡ some no_item)
unfolding item_at
pills_moved_in_place =
    item_move_in_place_empties pill_table two_pills 1 (pills 70) pill_data (omega arith) refl refl
      refl (omega arith) (omega arith)
