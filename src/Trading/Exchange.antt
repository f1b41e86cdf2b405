-- ===== src/Trading/Exchange.antt =====
-- doTrade of Trading.cpp. do_trade is for two players, self_trade for a player who trades with
-- himself; `fault` is an access outside an array.
pub mod Units
mod Rounds
pub mod Parts
mod Kept
pub mod Conservation
mod Tests
use open_fusion.Common.{
  ℕ, zero, suc, ◌+◌, Bool, true, false, ◌||◌, not, Option, none, some, List, [], ◌∷◌, ◌==◌,
  if◌then◌else◌, get_elem?, set,
}
use open_fusion.Common.Int.{ℤ, pos, negsuc, ◌-ℤ◌, ltb_ℤ, eqb_ℤ}
use open_fusion.Player.{Item, TradeItem, Player}

-- AINVEN_COUNT of structs/0104.hpp
abbrev pub ainven_count : ℕ
ainven_count = 50

-- How a part of doTrade ends: it goes on with a value, or returns false, with what it has written
-- to the offer or the offers by then.
pub data Outcome (A B : Type 0) : Type 0 where
  went_on : A → Outcome A B
  refused : B → Outcome A B
  fault : Outcome A B

-- An array access by an `int`.
abbrev pub elem_at : {A : Type 0} → List A → ℤ → Option A
elem_at xs (pos n) = get_elem? xs n
elem_at xs (negsuc n) = none

abbrev pub set_at : {A : Type 0} → List A → ℤ → A → List A
set_at xs (pos n) a = set xs n a
set_at xs (negsuc n) a = xs

-- if (iOpt < 1) iOpt = 1;
abbrev pub at_least_one : TradeItem → TradeItem
at_least_one offer = if ltb_ℤ offer.opt (pos 1) then record offer { opt = pos 1 } else offer

abbrev pub differs : TradeItem → Item → Bool
differs offer item = item.id == 0 || not (offer.id == item.id) || not (offer.type == item.type)

-- The offered amount leaves its slot: what is left in it, or none for a negative rest. The time
-- limit of an emptied slot stays.
abbrev pub take_from : Item → ℤ → Option Item
take_from item amount =
    let rest = item.opt -ℤ amount in
    if eqb_ℤ rest (pos 0)
    then some (record item { id = 0; type = 0; opt = pos 0 })
    else if ltb_ℤ rest (pos 0)
    then none
    else some (record item { opt = rest })

after_take : List Item → TradeItem → Option Item → Outcome (List Item × TradeItem) TradeItem
after_take inven offer none = refused offer
after_take inven offer (some item) = went_on (set_at inven offer.inven_num item, offer)

take_slot : List Item → TradeItem → Option Item → Outcome (List Item × TradeItem) TradeItem
unfolding after_take
take_slot inven offer none = fault
take_slot inven offer (some item) =
    if differs offer item
    then refused offer
    else (let offer' = at_least_one offer in after_take inven offer' (take_from item offer'.opt))

-- "remove items offered by us": the inventory without the offer.
pub remove_offer : List Item → TradeItem → Outcome (List Item × TradeItem) TradeItem
unfolding take_slot
remove_offer inven offer =
    if offer.id == 0
    then went_on (inven, offer)
    else take_slot inven offer (elem_at inven offer.inven_num)

-- The search of "add items offered to us", from the slot of index n on.
pub place : List Item → ℕ → TradeItem → Option (List Item × ℕ)
place [] n offer = none
place (item ∷ inven) n offer =
    if item.id == 0
    then some (record item { id = offer.id; type = offer.type; opt = offer.opt } ∷ inven, n)
    else elim (place inven (n + 1) offer) [ none ↦ none | some (rest, m) ↦ some (item ∷ rest, m) ]

after_place : TradeItem → Option (List Item × ℕ) → Outcome (List Item × TradeItem) TradeItem
after_place offer none = refused offer
after_place offer (some (inven, n)) = went_on (inven, record offer { inven_num = pos n })

-- "add items offered to us"; the offer then names the slot that it went to.
pub add_offer : List Item → TradeItem → Outcome (List Item × TradeItem) TradeItem
unfolding after_place
add_offer inven offer =
    if offer.id == 0 then went_on (inven, offer) else after_place offer (place inven 0 offer)

-- The two inventories and the two offers of one round.
pub record Round : Type 0 where
  pub inven : List Item
  pub inven2 : List Item
  pub offer : TradeItem
  pub offer2 : TradeItem

-- A part of a round on one side, put back into the round.
abbrev pub on_ours :
    Round → Outcome (List Item × TradeItem) TradeItem → Outcome Round (TradeItem × TradeItem)
on_ours r (went_on (inven, offer)) = went_on (record r { inven = inven; offer = offer })
on_ours r (refused offer) = refused (offer, r.offer2)
on_ours r fault = fault

abbrev pub on_theirs :
    Round → Outcome (List Item × TradeItem) TradeItem → Outcome Round (TradeItem × TradeItem)
on_theirs r (went_on (inven, offer)) = went_on (record r { inven2 = inven; offer2 = offer })
on_theirs r (refused offer) = refused (r.offer, offer)
on_theirs r fault = fault

-- Our inventory gets their offer, and theirs ours.
abbrev pub to_ours :
    Round → Outcome (List Item × TradeItem) TradeItem → Outcome Round (TradeItem × TradeItem)
to_ours r (went_on (inven, offer)) = went_on (record r { inven = inven; offer2 = offer })
to_ours r (refused offer) = refused (r.offer, offer)
to_ours r fault = fault

abbrev pub to_theirs :
    Round → Outcome (List Item × TradeItem) TradeItem → Outcome Round (TradeItem × TradeItem)
to_theirs r (went_on (inven, offer)) = went_on (record r { inven2 = inven; offer = offer })
to_theirs r (refused offer) = refused (offer, r.offer2)
to_theirs r fault = fault

infixl 5 ◌>>=◌
abbrev pub ◌>>=◌ : {A A' B : Type 0} → Outcome A B → (A → Outcome A' B) → Outcome A' B
went_on a >>= f = f a
refused b >>= f = refused b
fault >>= f = fault

-- The body of the loop of doTrade.
pub trade_round : Round → Outcome Round (TradeItem × TradeItem)
trade_round r0 = do
  r1 ← on_ours r0 (remove_offer r0.inven r0.offer)
  r2 ← on_theirs r1 (remove_offer r1.inven2 r1.offer2)
  r3 ← to_ours r2 (add_offer r2.inven r2.offer2)
  to_theirs r3 (add_offer r3.inven2 r3.offer)

-- What doTrade leaves: the inventories of its copies and the trade slots of both players.
pub record Traded : Type 0 where
  pub ok : Bool
  pub inven : List Item
  pub inven2 : List Item
  pub trade : List TradeItem
  pub trade2 : List TradeItem

-- The slot at the head of both trade lists, when the rounds behind it are over.
abbrev pub with_heads : TradeItem × TradeItem → Traded → Traded
with_heads (o, o2) t = record t { trade = o ∷ t.trade; trade2 = o2 ∷ t.trade2 }

-- The loop of doTrade over the slots i to 4, of which `left` are to go.
pub trade_loop : ℕ → List Item → List Item → List TradeItem → List TradeItem → Option Traded
trade_loop zero inven inven2 trade trade2 =
    some (record { ok = true; inven = inven; inven2 = inven2; trade = trade; trade2 = trade2 })
trade_loop (suc left) inven inven2 (o ∷ trade) (o2 ∷ trade2) =
    elim (trade_round (record { inven = inven; inven2 = inven2; offer = o; offer2 = o2 })) [
      | went_on r ↦ elim (trade_loop left r.inven r.inven2 trade trade2) [
        | none ↦ none
        | some t ↦ some (with_heads (r.offer, r.offer2) t)
      ]
      | refused offers ↦ some (
          with_heads offers
            (record { ok = false; inven = inven; inven2 = inven2; trade = trade; trade2 = trade2 }))
      | fault ↦ none
    ]
trade_loop (suc left) inven inven2 _ _ = none

-- The inventories are copied back only if everything went well.
abbrev pub commit : Player → Player → Traded → Bool × Player × Player
commit plr plr2 t = (
  t.ok,
  record plr { inven = if t.ok then t.inven else plr.inven; trade = t.trade },
  record plr2 { inven = if t.ok then t.inven2 else plr2.inven; trade = t.trade2 },
)

-- doTrade: its result and the two players. `none` is an access outside an array.
pub do_trade : Player → Player → Option (Bool × Player × Player)
do_trade plr plr2 = elim (trade_loop 5 plr.inven plr2.inven plr.trade plr2.trade) [
  | none ↦ none
  | some t ↦ some (commit plr plr2 t)
]

-- A round and the loop of doTrade, when both players are the same object: two copies of one
-- inventory, and one list of offers.
self_round :
    List Item → List Item → TradeItem → Outcome (List Item × List Item × TradeItem) TradeItem
self_round inven inven2 offer = do
  (i, o) ← remove_offer inven offer
  (i2, o2) ← remove_offer inven2 o
  (j, p) ← add_offer i o2
  (j2, p2) ← add_offer i2 p
  went_on (j, j2, p2)

-- The result, the second copy of the inventory, and the offers.
pub self_loop :
    ℕ → List Item → List Item → List TradeItem → Option (Bool × List Item × List TradeItem)
unfolding self_round
self_loop zero inven inven2 trade = some (true, inven2, trade)
self_loop (suc left) inven inven2 (o ∷ trade) = elim (self_round inven inven2 o) [
  | went_on (j, j2, p) ↦ elim (self_loop left j j2 trade) [
    | none ↦ none
    | some (ok, k, os) ↦ some (ok, k, p ∷ os)
  ]
  | refused p ↦ some (false, inven2, p ∷ trade)
  | fault ↦ none
]
self_loop (suc left) inven inven2 [] = none

-- doTrade of a player with himself: the second copy of the inventory is stored last.
pub self_trade : Player → Option (Bool × Player)
unfolding self_loop
self_trade plr = elim (self_loop 5 plr.inven plr.inven plr.trade) [
  | none ↦ none
  | some (ok, inven, trade) ↦
      some (ok, record plr { inven = if ok then inven else plr.inven; trade = trade })
]
