-- ===== src/Vendors/CrocPot.antt =====
-- vendorCombineItems of Vendors.cpp: the croc pot.
use open_fusion.Common.{
  ℕ, suc, ◌*◌, ◌/◌, ◌^◌, Bool, ◌&&◌, not, Option, some, List, ltb, ◌==◌, if◌then◌else◌, get_elem?,
  set,
}
use open_fusion.Common.Int.{ℤ, pos, negsuc, ◌+ℤ◌, ◌-ℤ◌, ◌*ℤ◌, ltb_ℤ, leb_ℤ, eqb_ℤ, pos_part, wrap32}
use open_fusion.Player.{Item, Player, no_item, subtract_capped, taros}
use open_fusion.Protocol.Cipher.{◌>>=◌}
use open_fusion.Items.{ItemData, ItemTable}
use open_fusion.Vendors.{VendorMessage, combine_fail, combine_succ, check, or_else}

-- CrocPotEntry, without the chances, which only the roll uses.
pub record CrocPotEntry : Type 0 where
  pub mult_stats : ℤ
  pub mult_looks : ℤ

-- The higher 16 bits of iOpt, if that is positive.
abbrev pub high_half : ℤ → ℕ
high_half (pos n) = n / 2 ^ 16
high_half (negsuc n) = 0

-- itemLooksNonCombinedID
abbrev pub style_id : Item → ℕ
style_id looks = if ltb 0 (high_half looks.opt) then high_half looks.opt else looks.id

abbrev pub abs_ℤ : ℤ → ℤ
abs_ℤ (pos n) = pos n
abs_ℤ (negsuc n) = pos (suc n)

-- "sanity check matching item types"
abbrev pub may_combine : Item → Item → ItemData → ItemData → Bool
may_combine stats looks d_stats d_looks =
    stats.type == looks.type
    && not (stats.type == 0 && not (eqb_ℤ d_stats.weapon_type d_looks.weapon_type))

-- "modify the looks item with the new stats", "delete stats item"; they may be one place.
abbrev pub combined : List Item → ℕ → ℕ → Item → Item → List Item
combined inven costume stat looks stats =
    set
      (set inven costume
        (record looks { opt = wrap32 (pos (style_id looks * 2 ^ 16)); id = stats.id }))
      stat no_item

-- The cost of a combination, if there are data for the items and they are of matching types.
unfoldable pub combine_cost : ItemTable → (ℤ → Option CrocPotEntry) → Item → Item → Option ℤ
combine_cost table crocs stats looks = do
  d_stats ← table stats.id stats.type
  d_looks ← table looks.id looks.type
  d_style ← (if style_id looks == looks.id then some d_looks else table (style_id looks) looks.type)
  recipe ← crocs (abs_ℤ (d_stats.level -ℤ d_looks.level))
  alike ← check (may_combine stats looks d_stats d_looks)
  some (wrap32 (d_stats.buy_price *ℤ recipe.mult_stats +ℤ d_style.buy_price *ℤ recipe.mult_looks))

-- What follows the roll.
unfoldable pub after_roll :
    Bool → Player → ℤ → ℤ → ℤ → Item → Item → Option (Player × VendorMessage)
after_roll succeeds p cost costume stat looks stats =
    let paid = subtract_capped p taros cost in
    let inven =
      if succeeds
      then combined paid.inven (pos_part costume) (pos_part stat) looks stats
      else paid.inven in
    get_elem? inven (pos_part costume) >>= λ new.
    some (record paid { inven = inven }, combine_succ succeeds paid.money costume stat new)

unfoldable pub try_combine :
    ItemTable → (ℤ → Option CrocPotEntry) → Bool → Player → ℤ → ℤ → Option (Player × VendorMessage)
unfolding combine_cost after_roll
try_combine table crocs succeeds p costume stat = do
  range ←
      check (
        leb_ℤ (pos 0) costume
        && ltb_ℤ costume (pos 50)
        && leb_ℤ (pos 0) stat
        && ltb_ℤ stat (pos 50))
  stats ← get_elem? p.inven (pos_part stat)
  looks ← get_elem? p.inven (pos_part costume)
  cost ← combine_cost table crocs stats looks
  after_roll succeeds p cost costume stat looks stats

-- vendorCombineItems, for a player with a whole inventory, with the outcome of the roll.
unfoldable pub vendor_combine_items :
    ItemTable → (ℤ → Option CrocPotEntry) → Bool → Player → ℤ → ℤ → Player × VendorMessage
unfolding try_combine
vendor_combine_items table crocs succeeds p costume stat =
    or_else (try_combine table crocs succeeds p costume stat) (p, combine_fail costume stat)
