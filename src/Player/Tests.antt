-- ===== src/Player/Tests.antt =====
-- Tests and applications of the theorems on the capped values.
use open_fusion.Common.{◌⊎◌, true, false, ◌≡◌, refl, [], arith}
use open_fusion.Common.Int.{IsInt32, leb_ℤ, pos, negsuc, ◌+ℤ◌, ◌-ℤ◌}
use open_fusion.Player.{
  new_player, limit_diff, Player, taros, fusion_matter, battery_weapon, battery_nano,
  taros_in_trade, get_cap, capped_value, store_value, add_capped, subtract_capped, set_capped,
  raised, lowered, clamped,
}
use open_fusion.Player.Range.{
  IsCapped, Changes, add_spec, subtract_spec, add_capped_lem, subtract_capped_lem,
  operations-IsCapped,
}

abbrev hero : Player
hero = record new_player {
  id = pos 7;
  money = pos 999999000;
  fusionmatter = pos 12;
  battery_w = pos 9990;
  battery_n = pos 0;
  inven = [];
  trade = [];
  money_in_trade = pos 5;
  is_trading = false;
  is_trade_confirm = false;
}

hero-IsCapped : IsCapped hero
unfolding get_cap capped_value
hero-IsCapped taros = (omega arith, omega arith)
hero-IsCapped fusion_matter = (omega arith, omega arith)
hero-IsCapped battery_weapon = (omega arith, omega arith)
hero-IsCapped battery_nano = (omega arith, omega arith)
hero-IsCapped taros_in_trade = (omega arith, omega arith)

-- More than the cap leaves room for.
full_test : (add_capped hero battery_weapon (pos 50)).battery_w ≡ pos 9999
unfolding add_capped raised store_value get_cap capped_value ◌+ℤ◌
full_test = refl

-- A negative amount adds nothing.
negative_test : add_capped hero taros (negsuc 4) ≡ hero
unfolding add_capped
negative_test = refl

spent_test : (subtract_capped hero fusion_matter (pos 20)).fusionmatter ≡ pos 0
unfolding subtract_capped lowered store_value get_cap capped_value ◌-ℤ◌
spent_test = refl

set_test : (set_capped hero battery_nano (pos 20000)).battery_n ≡ pos 9999
unfolding set_capped clamped store_value get_cap
set_test = refl

taros_are_added :
    Changes hero taros
      (add_spec (get_cap taros) (capped_value hero taros) (pos 5000))
      (add_capped hero taros (pos 5000))
      battery_nano
    × ((leb_ℤ (pos 5000) (pos 0) ≡ true)
        ⊎ IsInt32 (capped_value hero taros +ℤ limit_diff (get_cap taros) (pos 5000)))
taros_are_added = add_capped_lem hero taros battery_nano (pos 5000) hero-IsCapped

fusion_matter_is_spent :
    Changes hero fusion_matter
      (subtract_spec (capped_value hero fusion_matter) (pos 20))
      (subtract_capped hero fusion_matter (pos 20))
      taros
    × ((leb_ℤ (pos 20) (pos 0) ≡ true)
        ⊎ IsInt32 (capped_value hero fusion_matter -ℤ limit_diff (get_cap fusion_matter) (pos 20)))
fusion_matter_is_spent = subtract_capped_lem hero fusion_matter taros (pos 20) hero-IsCapped

operations-IsCapped_example :
    IsCapped (add_capped hero battery_weapon (pos 50))
    × IsCapped (subtract_capped hero battery_weapon (pos 50))
    × IsCapped (set_capped hero battery_weapon (pos 50))
operations-IsCapped_example = operations-IsCapped hero battery_weapon (pos 50) hero-IsCapped
