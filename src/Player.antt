-- ===== src/Player.antt =====
-- The parts of struct Player (Player.hpp) that the modelled components use, and its capped values:
-- getCap, getCappedValue, addCapped, subtractCapped and setCapped of Entities.cpp. An int32_t is an
-- integer; Player.Range shows that no sum leaves the range of the type.
pub mod Range
pub mod Others
mod Tests
use open_fusion.Common.{[], replicate, ℕ, Bool, true, false, List, if◌then◌else◌}
use open_fusion.Common.Int.{ℤ, pos, ◌+ℤ◌, ◌-ℤ◌, ltb_ℤ, leb_ℤ}

-- sItemBase of structs/0104.hpp
pub record Item : Type 0 where
  pub type : ℕ
  pub id : ℕ
  pub opt : ℤ
  pub time_limit : ℕ

-- A place that is all zero.
abbrev pub no_item : Item
no_item = record { type = 0; id = 0; opt = pos 0; time_limit = 0 }

-- sItemTrade of structs/0104.hpp
pub record TradeItem : Type 0 where
  pub type : ℕ
  pub id : ℕ
  pub opt : ℤ
  pub inven_num : ℤ
  pub slot_num : ℤ

abbrev pub no_trade_item : TradeItem
no_trade_item = record { type = 0; id = 0; opt = pos 0; inven_num = pos 0; slot_num = pos 0 }

-- Of the 12 places of `Trade` the code uses the first five.
pub record Player : Type 0 where
  pub id : ℤ
  pub money : ℤ
  pub fusionmatter : ℤ
  pub battery_w : ℤ
  pub battery_n : ℤ
  pub level : ℤ
  pub pc_state : ℕ
  pub equip : List Item
  pub inven : List Item
  pub bank : List Item
  pub trade : List TradeItem
  pub money_in_trade : ℤ
  pub is_trading : Bool
  pub is_trade_confirm : Bool
  pub point_damage : ℤ
  pub group_damage : ℤ
  pub fire_rate : ℤ
  pub defense : ℤ
  pub buyback : List Item

-- The initial values of the fields.
abbrev pub new_player : Player
new_player = record {
  id = pos 0;
  money = pos 0;
  fusionmatter = pos 0;
  battery_w = pos 0;
  battery_n = pos 0;
  level = pos 0;
  pc_state = 0;
  equip = replicate 9 no_item;
  inven = replicate 50 no_item;
  bank = replicate 119 no_item;
  trade = replicate 5 no_trade_item;
  money_in_trade = pos 0;
  is_trading = false;
  is_trade_confirm = false;
  point_damage = pos 0;
  group_damage = pos 0;
  fire_rate = pos 0;
  defense = pos 0;
  buyback = [];
}

-- CappedValueType
pub data CappedValueType : Type 0 where
  taros fusion_matter battery_weapon battery_nano taros_in_trade : CappedValueType

-- getCap
unfoldable pub get_cap : CappedValueType → ℤ
get_cap taros = pos 999999999
get_cap fusion_matter = pos 999999999
get_cap battery_weapon = pos 9999
get_cap battery_nano = pos 9999
get_cap taros_in_trade = pos 999999999

-- getCappedValue: reading through the pointer.
unfoldable pub capped_value : Player → CappedValueType → ℤ
capped_value p taros = p.money
capped_value p fusion_matter = p.fusionmatter
capped_value p battery_weapon = p.battery_w
capped_value p battery_nano = p.battery_n
capped_value p taros_in_trade = p.money_in_trade

-- getCappedValue: writing through the pointer.
unfoldable pub store_value : Player → CappedValueType → ℤ → Player
store_value p taros v = record p { money = v }
store_value p fusion_matter v = record p { fusionmatter = v }
store_value p battery_weapon v = record p { battery_w = v }
store_value p battery_nano v = record p { battery_n = v }
store_value p taros_in_trade v = record p { money_in_trade = v }

-- if (diff > max) diff = max;
abbrev limit_diff : ℤ → ℤ → ℤ
limit_diff max diff = if ltb_ℤ max diff then max else diff

unfoldable pub raised : ℤ → ℤ → ℤ → ℤ
raised max value diff =
    if ltb_ℤ max (value +ℤ limit_diff max diff) then max else value +ℤ limit_diff max diff

unfoldable pub lowered : ℤ → ℤ → ℤ → ℤ
lowered max value diff =
    if ltb_ℤ (value -ℤ limit_diff max diff) (pos 0) then pos 0 else value -ℤ limit_diff max diff

pub clamped : ℤ → ℤ → ℤ
clamped max value = if ltb_ℤ value (pos 0) then pos 0 else if ltb_ℤ max value then max else value

-- Player::addCapped
unfoldable pub add_capped : Player → CappedValueType → ℤ → Player
add_capped p t diff =
    if leb_ℤ diff (pos 0) then p else store_value p t (raised (get_cap t) (capped_value p t) diff)

-- Player::subtractCapped
unfoldable pub subtract_capped : Player → CappedValueType → ℤ → Player
subtract_capped p t diff =
    if leb_ℤ diff (pos 0) then p else store_value p t (lowered (get_cap t) (capped_value p t) diff)

-- Player::setCapped
pub set_capped : Player → CappedValueType → ℤ → Player
set_capped p t value = store_value p t (clamped (get_cap t) value)
