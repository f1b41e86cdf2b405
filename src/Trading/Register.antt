-- ===== src/Trading/Register.antt =====
-- The handlers of Trading.cpp that change what is offered: tradeRegisterItem, tradeUnregisterItem
-- and tradeRegisterCash.
use open_fusion.Common.{
  ℕ, Bool, false, ◌&&◌, ◌||◌, not, Option, none, some, List, [], ◌∷◌, if◌then◌else◌, get_elem?,
}
use open_fusion.Common.Int.{wrap32, ℤ, pos, ◌+ℤ◌, ◌-ℤ◌, ltb_ℤ, eqb_ℤ}
use open_fusion.Player.{TradeItem, Player, taros_in_trade, set_capped}
use open_fusion.Protocol.Cipher.{◌>>=◌}
use open_fusion.Trading.Exchange.{ainven_count, elem_at, set_at}
use open_fusion.Trading.World.{
  Ids, World, modify, other_of, send, item_register_succ, item_unregister_succ, cash_register_succ,
}
use open_fusion.Trading.Handlers.{Reaction, no_offer, set_confirm}

-- iInvenNum and iSlotNum against the sizes of the arrays.
abbrev pub is_inven_num : ℤ → Bool
is_inven_num n = not (ltb_ℤ n (pos 0) || not (ltb_ℤ n (pos ainven_count)))

abbrev pub is_slot_num : ℤ → Bool
is_slot_num n = not (ltb_ℤ n (pos 0) || ltb_ℤ (pos 4) n)

-- The amount that the slots offer from a place of the inventory; each sum is an `int`.
pub count_offered : ℤ → ℤ → List TradeItem → ℤ
count_offered inven_num count [] = count
count_offered inven_num count (o ∷ trade) =
    count_offered inven_num (if eqb_ℤ o.inven_num inven_num then wrap32 (count +ℤ o.opt) else count)
      trade

-- resp.InvenItem: an offer, with what is left in its place of the inventory.
abbrev pub inven_item : Player → TradeItem → Option TradeItem
inven_item plr item = do
  there ← elem_at plr.inven item.inven_num
  some (record item { opt = wrap32 (there.opt -ℤ count_offered item.inven_num (pos 0) plr.trade) })

abbrev pub put_offer : ℤ → TradeItem → Player → Player
put_offer slot item p = record p { trade = set_at p.trade slot item; is_trade_confirm = false }

-- The part of tradeRegisterItem behind the checks.
unfoldable pub registered : World → ℕ → ℕ → Ids → TradeItem → Reaction
registered w sock other ids item = do
  let w' = modify (modify w sock (put_offer item.slot_num item)) other (set_confirm false)
  plr ← get_elem? w' sock
  shown ← inven_item plr item
  some (
    w',
    send sock (item_register_succ ids item shown)
        ∷ send other (item_register_succ ids item shown)
        ∷ [],
  )

-- The part of tradeUnregisterItem behind the checks.
unfoldable pub unregistered : World → ℕ → ℕ → Ids → TradeItem → Reaction
unregistered w sock other ids item = do
  old_plr ← get_elem? w sock
  old ← elem_at old_plr.trade item.slot_num
  let w' = modify (modify w sock (put_offer item.slot_num no_offer)) other (set_confirm false)
  plr ← get_elem? w' sock
  shown ← inven_item plr old
  some (
    w',
    send sock (item_unregister_succ ids item shown)
        ∷ send other (item_unregister_succ ids item shown)
        ∷ [],
  )

-- Both players must be trading.
abbrev pub if_trading : World → ℕ → ℕ → Reaction → Reaction
if_trading w sock other then_ = do
  plr ← get_elem? w sock
  plr2 ← get_elem? w other
  if plr.is_trading && plr2.is_trading then then_ else some (w, [])

-- tradeRegisterItem
unfoldable pub trade_register_item : World → ℕ → Ids → TradeItem → Reaction
unfolding registered
trade_register_item w sock ids item =
    if not (is_inven_num item.inven_num) || not (is_slot_num item.slot_num)
    then some (w, [])
    else elim (other_of w ids) [
      | none ↦ some (w, [])
      | some other ↦ if_trading w sock other (registered w sock other ids item)
    ]

-- tradeUnregisterItem
unfoldable pub trade_unregister_item : World → ℕ → Ids → TradeItem → Reaction
unfolding unregistered
trade_unregister_item w sock ids item =
    if not (is_slot_num item.slot_num) then some (w, []) else elim (other_of w ids) [
      | none ↦ some (w, [])
      | some other ↦ if_trading w sock other (unregistered w sock other ids item)
    ]

abbrev cash_change : World → ℕ → ℕ → ℤ → World
cash_change w sock other candy =
    modify (modify w other (set_confirm false)) sock
      (λ p. set_confirm false (set_capped p taros_in_trade candy))

unfoldable pub register_cash : World → ℕ → Ids → ℤ → Reaction
register_cash w sock ids candy = elim (other_of w ids) [
  | none ↦ some (w, [])
  | some other ↦ some (
    cash_change w sock other candy,
    send sock (cash_register_succ ids candy) ∷ send other (cash_register_succ ids candy) ∷ [],
  )
]

-- tradeRegisterCash. It does not ask whether the players trade.
unfoldable pub trade_register_cash : World → ℕ → Ids → ℤ → Reaction
unfolding register_cash
trade_register_cash w sock ids candy = do
  plr ← get_elem? w sock
  if ltb_ℤ candy (pos 0) || ltb_ℤ plr.money candy
      then some (w, [])
      else register_cash w sock ids candy
