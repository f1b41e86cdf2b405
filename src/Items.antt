-- ===== src/Items.antt =====
-- Items.cpp: the table of items, the places where a player keeps items, and the handlers that move
-- and delete them. The table ItemData, which is loaded from files, is an argument. An `int` is an
-- integer; `none` is an access outside an array.
pub mod Move
pub mod Places
pub mod Kitted
pub mod Stacking
pub mod Moves
pub mod Slots
pub mod InPlace
mod Tests
use open_fusion.Common.{
  ◌++◌, bit_and, take, ℕ, ◌+◌, ◌-◌, Bool, true, false, ◌&&◌, ◌||◌, not, Option, none, some, List,
  [], ◌∷◌, leb, ◌==◌, if◌then◌else◌, get_elem?, set,
}
use open_fusion.Common.Int.{pos_part, ℤ, pos, ◌+ℤ◌, ◌-ℤ◌, ltb_ℤ, eqb_ℤ}
use open_fusion.Player.{Item, Player}
use open_fusion.Protocol.Cipher.{◌>>=◌}

-- Items::Item
pub record ItemData : Type 0 where
  pub tradeable : Bool
  pub sellable : Bool
  pub buy_price : ℤ
  pub sell_price : ℤ
  pub stack_size : ℤ
  pub level : ℤ
  pub rarity : ℤ
  pub point_damage : ℤ
  pub group_damage : ℤ
  pub fire_rate : ℤ
  pub defense : ℤ
  pub gender : ℤ
  pub weapon_type : ℤ

-- Items::ItemData, as getItemData reads it: by id and type.
abbrev pub ItemTable : Type 0
ItemTable = ℕ → ℕ → Option ItemData

abbrev pub is_free : Item → Bool
is_free item = item.type == 0 && item.id == 0 && eqb_ℤ item.opt (pos 0)

-- findFreeSlot, from place n on; `none` for -1.
unfoldable pub free_from : List Item → ℕ → Option ℕ
free_from [] n = none
free_from (item ∷ inven) n =
    let rest = free_from inven (n + 1) in if is_free item then some n else rest

unfoldable pub find_free_slot : Player → Option ℕ
unfolding free_from
find_free_slot plr = free_from plr.inven 0

-- SlotType
pub data SlotType : Type 0 where
  equip_slot inventory_slot bank_slot : SlotType

abbrev pub Place : Type 0
Place = SlotType × ℕ

-- The array of a SlotType.
abbrev pub places : Player → SlotType → List Item
places p equip_slot = p.equip
places p inventory_slot = p.inven
places p bank_slot = p.bank

abbrev pub store_places : Player → SlotType → List Item → Player
store_places p equip_slot l = record p { equip = l }
store_places p inventory_slot l = record p { inven = l }
store_places p bank_slot l = record p { bank = l }

-- Reading and writing through the pointer to a place.
unfoldable pub item_at : Player → Place → Option Item
item_at p s = get_elem? (places p s.0) s.1

unfoldable pub put_item : Player → Place → Item → Player
put_item p s x = store_places p s.0 (set (places p s.0) s.1 x)

-- AEQUIP_COUNT, AINVEN_COUNT, ABANK_COUNT
abbrev pub size_of : SlotType → ℕ
size_of equip_slot = 9
size_of inventory_slot = 50
size_of bank_slot = 119

-- The SlotType of a number.
abbrev pub slot_type : ℤ → Option SlotType
slot_type e =
    if eqb_ℤ e (pos 0)
    then some equip_slot
    else if eqb_ℤ e (pos 1)
    then some inventory_slot
    else if eqb_ℤ e (pos 3)
    then some bank_slot
    else none

-- One `switch` of itemMoveHandler: the place, if its number is below the size of its array.
abbrev pub place_of : ℤ → ℤ → Option Place
place_of e n = slot_type e >>= λ k. if ltb_ℤ n (pos (size_of k)) then some (k, pos_part n) else none
