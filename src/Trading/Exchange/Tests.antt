-- ===== src/Trading/Exchange/Tests.antt =====
-- Tests and applications of the theorems on doTrade.
use open_fusion.Common.{
  ℕ, ◌≡◌, refl, inl, inr, Bool, true, false, some, List, [], ◌∷◌, arith, length,
}
use open_fusion.Common.Int.{ℤ, pos, ◌+ℤ◌, ◌-ℤ◌}
use open_fusion.Player.{new_player, Item, TradeItem, Player}
use open_fusion.Trading.Exchange.{
  do_trade, trade_loop, trade_round, remove_offer, take_slot, after_take, add_offer, place,
  after_place,
}
use open_fusion.Trading.Exchange.Units.{units, IsStacked}
use open_fusion.Trading.Exchange.Conservation.{
  do_trade_conserves, do_trade-IsStacked, do_trade_returns,
}

abbrev no_item : Item
no_item = record { type = 0; id = 0; opt = pos 0; time_limit = 0 }

abbrev no_offer : TradeItem
no_offer = record { type = 0; id = 0; opt = pos 0; inven_num = pos 0; slot_num = pos 0 }

-- Two slots hold what these examples need.
abbrev trader : ℤ → List Item → TradeItem → Player
trader id inven offer = record new_player {
  id = id;
  money = pos 100;
  fusionmatter = pos 0;
  battery_w = pos 0;
  battery_n = pos 0;
  inven = inven;
  trade = offer ∷ no_offer ∷ no_offer ∷ no_offer ∷ no_offer ∷ [];
  money_in_trade = pos 0;
  is_trading = false;
  is_trade_confirm = false;
}

abbrev gumballs : ℤ → Item
gumballs n = record { type = 7; id = 121; opt = n; time_limit = 0 }

abbrev gumball_offer : ℤ → ℤ → TradeItem
gumball_offer n slot = record { type = 7; id = 121; opt = n; inven_num = slot; slot_num = pos 0 }

abbrev giver : Player
giver = trader (pos 1) (no_item ∷ gumballs (pos 10) ∷ []) (gumball_offer (pos 4) (pos 1))

abbrev taker : Player
taker = trader (pos 2) (gumballs (pos 1) ∷ no_item ∷ []) no_offer

abbrev giver_after : Player
giver_after = trader (pos 1) (no_item ∷ gumballs (pos 6) ∷ []) (gumball_offer (pos 4) (pos 1))

abbrev taker_after : Player
taker_after = trader (pos 2) (gumballs (pos 1) ∷ gumballs (pos 4) ∷ []) no_offer

-- Four of ten gumballs go to the first free slot of the other.
given_test : do_trade giver taker ≡ some (true, giver_after, taker_after)
unfolding do_trade trade_loop trade_round remove_offer take_slot after_take add_offer place
    after_place ◌-ℤ◌
given_test = refl

abbrev greedy : Player
greedy = trader (pos 1) (no_item ∷ gumballs (pos 3) ∷ []) (gumball_offer (pos 4) (pos 1))

-- More than there is: refused, and nothing moves.
greedy_test : do_trade greedy taker ≡ some (false, greedy, taker)
unfolding do_trade trade_loop trade_round remove_offer take_slot after_take ◌-ℤ◌
greedy_test = refl

abbrev timed : ℕ → Item
timed limit = record { type = 0; id = 55; opt = pos 1; time_limit = limit }

abbrev timed_offer : TradeItem
timed_offer = record { type = 0; id = 55; opt = pos 1; inven_num = pos 0; slot_num = pos 0 }

-- The time limit of an item does not go with it: the item arrives with the limit of the slot that it
-- goes to, and its own limit stays in the slot that it leaves.
time_limit_test :
    do_trade (trader (pos 1) (timed 9000 ∷ []) timed_offer) (trader (pos 2) (no_item ∷ []) no_offer)
    ≡ some (
      true,
      trader (pos 1) (record { type = 0; id = 0; opt = pos 0; time_limit = 9000 } ∷ []) timed_offer,
      trader (pos 2) (timed 0 ∷ []) no_offer,
    )
unfolding do_trade trade_loop trade_round remove_offer take_slot after_take add_offer place
    after_place ◌-ℤ◌
time_limit_test = refl

do_trade_conserves_example :
    units 7 121 giver_after.inven +ℤ units 7 121 taker_after.inven
    ≡ units 7 121 giver.inven +ℤ units 7 121 taker.inven
do_trade_conserves_example =
    do_trade_conserves giver taker giver_after taker_after true 7 121 (ground arith) given_test

do_trade-IsStacked_example :
    IsStacked giver_after.inven
    × IsStacked taker_after.inven
    × (length giver_after.inven ≡ length giver.inven)
    × (length taker_after.inven ≡ length taker.inven)
do_trade-IsStacked_example =
    do_trade-IsStacked giver taker giver_after taker_after true (inl refl, (inr (omega arith), tt))
      (inr (omega arith), (inl refl, tt)) given_test

do_trade_returns_example : (r : Bool × Player × Player) × (do_trade giver taker ≡ some r)
do_trade_returns_example =
    do_trade_returns giver taker
      (refl, (inr (1, refl, omega arith), (inl refl, (inl refl, (inl refl, (inl refl, tt))))))
      (refl, (inl refl, (inl refl, (inl refl, (inl refl, (inl refl, tt))))))
