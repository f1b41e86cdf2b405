-- ===== src/Trading/Dispatch.antt =====
-- Trading::init: which handler a packet goes to.
use open_fusion.Common.{ℕ}
use open_fusion.Common.Int.{ℤ}
use open_fusion.Player.{TradeItem}
use open_fusion.Trading.World.{Ids, World}
use open_fusion.Trading.Handlers.{
  Reaction, trade_offer, trade_offer_accept, trade_offer_refusal, trade_offer_cancel,
  trade_offer_abort, trade_confirm, trade_confirm_cancel,
}
use open_fusion.Trading.Register.{trade_register_item, trade_unregister_item, trade_register_cash}

-- A trade packet, named after its type without P_CL2FE_REQ_PC_TRADE_.
pub data Request : Type 0 where
  req_offer req_offer_accept req_offer_refusal req_offer_cancel req_offer_abort : Ids → Request
  req_confirm req_confirm_cancel : Ids → Request
  req_item_register req_item_unregister : Ids → TradeItem → Request
  req_cash_register : Ids → ℤ → Request

-- The handler of a packet, for the socket that it came from.
abbrev pub react : World → ℕ → Request → Reaction
react w sock (req_offer ids) = trade_offer w sock ids
react w sock (req_offer_accept ids) = trade_offer_accept w sock ids
react w sock (req_offer_refusal ids) = trade_offer_refusal w sock ids
react w sock (req_offer_cancel ids) = trade_offer_cancel w sock ids
react w sock (req_offer_abort ids) = trade_offer_abort w sock ids
react w sock (req_confirm ids) = trade_confirm w sock ids
react w sock (req_confirm_cancel ids) = trade_confirm_cancel w sock ids
react w sock (req_item_register ids item) = trade_register_item w sock ids item
react w sock (req_item_unregister ids item) = trade_unregister_item w sock ids item
react w sock (req_cash_register ids candy) = trade_register_cash w sock ids candy
