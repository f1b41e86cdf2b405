-- ===== src/Trading/Tests.antt =====
-- Tests and applications of the theorems on the trade handlers.
use open_fusion.Common.{inl, ◌⊎◌, ◌≡◌, refl, true, false, some, [], ◌∷◌, arith, replicate}
use open_fusion.Common.Int.{ℤ, pos, ◌+ℤ◌, ◌-ℤ◌, ◌≤ℤ◌, int_laws}
use open_fusion.Player.{
  new_player, Item, Player, taros, fusion_matter, battery_weapon, battery_nano, taros_in_trade,
  get_cap, capped_value,
}
use open_fusion.Player.Range.{IsCapped}
use open_fusion.Trading.World.{Ids, World, send, offer_succ, confirm, get_sock_from_id, find_from}
use open_fusion.Trading.Handlers.{
  start_trading, pay, trade_offer_accept, accept_from, trade_confirm, confirm_with, confirmed_by,
}
use open_fusion.Trading.Register.{trade_register_cash, register_cash}
use open_fusion.Trading.Dispatch.{react, req_confirm, req_offer_accept, req_cash_register}
use open_fusion.Trading.Safety.{IsSafeWorld}
use open_fusion.Trading.Consent.{invens, IsAgreed, react_moves_by_consent}
use open_fusion.Trading.Money.{pay_lem, pay_mints}

abbrev empty_place : Item
empty_place = record { type = 0; id = 0; opt = pos 0; time_limit = 0 }

abbrev person : ℤ → ℤ → ℤ → Player
person id money in_trade = record new_player {
  id = id;
  money = money;
  fusionmatter = pos 0;
  battery_w = pos 0;
  battery_n = pos 0;
  inven = replicate 50 empty_place;
  trade = [];
  money_in_trade = in_trade;
  is_trading = false;
  is_trade_confirm = false;
}

abbrev ann : Player
ann = person (pos 1) (pos 100) (pos 0)

abbrev bob : Player
bob = person (pos 2) (pos 50) (pos 0)

abbrev ann_to_bob : Ids
ann_to_bob = record { request = pos 2; from = pos 1; to = pos 2 }

-- Bob, on socket 1, accepts the offer of Ann, on socket 0.
accept_test :
    react (ann ∷ bob ∷ []) 1 (req_offer_accept ann_to_bob)
    ≡ some (
      start_trading ann ∷ start_trading bob ∷ [],
      send 1 (offer_succ ann_to_bob) ∷ send 0 (offer_succ ann_to_bob) ∷ [],
    )
unfolding trade_offer_accept accept_from get_sock_from_id find_from
accept_test = refl

-- More taros than Bob has are not registered.
cash_test :
    react (ann ∷ bob ∷ []) 1 (req_cash_register ann_to_bob (pos 51)) ≡ some (ann ∷ bob ∷ [], [])
unfolding trade_register_cash register_cash get_sock_from_id find_from
cash_test = refl

-- The first confirmation only marks the player.
confirm_test :
    react (start_trading ann ∷ start_trading bob ∷ []) 1 (req_confirm ann_to_bob)
    ≡ some (
      start_trading ann ∷ record (start_trading bob) { is_trade_confirm = true } ∷ [],
      send 1 (confirm ann_to_bob) ∷ send 0 (confirm ann_to_bob) ∷ [],
    )
unfolding trade_confirm confirm_with confirmed_by get_sock_from_id find_from
confirm_test = refl

-- The same two players, in a packet from Ann.
abbrev by_ann : Ids
by_ann = record { request = pos 1; from = pos 1; to = pos 2 }

person-IsCapped :
    (id money in_trade : ℤ)
    → (pos 0 ≤ℤ money) × (money ≤ℤ pos 999999999)
    → (pos 0 ≤ℤ in_trade) × (in_trade ≤ℤ pos 999999999)
    → IsCapped (person id money in_trade)
unfolding get_cap capped_value
person-IsCapped id money in_trade m t taros = m
person-IsCapped id money in_trade m t fusion_matter = (omega arith, omega arith)
person-IsCapped id money in_trade m t battery_weapon = (omega arith, omega arith)
person-IsCapped id money in_trade m t battery_nano = (omega arith, omega arith)
person-IsCapped id money in_trade m t taros_in_trade = t

react_moves_by_consent_example :
    (invens (start_trading ann ∷ start_trading bob ∷ []) ≡ invens (ann ∷ bob ∷ []))
    ⊎ IsAgreed (ann ∷ bob ∷ []) 1 (req_offer_accept ann_to_bob)
react_moves_by_consent_example =
    react_moves_by_consent (ann ∷ bob ∷ []) 1 (req_offer_accept ann_to_bob)
      (start_trading ann ∷ start_trading bob ∷ [])
      (send 1 (offer_succ ann_to_bob) ∷ send 0 (offer_succ ann_to_bob) ∷ []) accept_test

abbrev payer : Player
payer = person (pos 1) (pos 100) (pos 30)

abbrev payee : Player
payee = person (pos 2) (pos 50) (pos 10)

pay_lem_example :
    ((pay payer payee).money ≡ pos 100 -ℤ pos 30 +ℤ pos 10)
    × ((pay payee (pay payer payee)).money ≡ pos 50 -ℤ pos 10 +ℤ pos 30)
    × ((pay payer payee).money +ℤ (pay payee (pay payer payee)).money ≡ pos 100 +ℤ pos 50)
pay_lem_example =
    pay_lem payer payee
      (person-IsCapped (pos 1) (pos 100) (pos 30) (omega arith, omega arith)
        (omega arith, omega arith))
      (person-IsCapped (pos 2) (pos 50) (pos 10) (omega arith, omega arith)
        (omega arith, omega arith))
      (omega arith) (omega arith) (omega int_laws) (omega int_laws)

-- Thirty in the trade, of which twenty-five were spent meanwhile.
abbrev spender : Player
spender = person (pos 1) (pos 5) (pos 30)

overdrawn_trade :
    ((pay spender bob).money ≡ pos 0)
    × ((pay bob (pay spender bob)).money ≡ pos 50 +ℤ pos 30)
    × ((pay spender bob).money +ℤ (pay bob (pay spender bob)).money
        ≡ pos 5 +ℤ pos 50 +ℤ (pos 30 -ℤ pos 5))
overdrawn_trade =
    pay_mints spender bob
      (person-IsCapped (pos 1) (pos 5) (pos 30) (omega arith, omega arith)
        (omega arith, omega arith))
      (person-IsCapped (pos 2) (pos 50) (pos 0) (omega arith, omega arith)
        (omega arith, omega arith))
      (omega arith) refl (omega int_laws)

ann_and_bob-IsSafeWorld : IsSafeWorld (ann ∷ bob ∷ [])
ann_and_bob-IsSafeWorld = ((refl, inl refl), ((refl, inl refl), tt))
