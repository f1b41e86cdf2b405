-- ===== src/Trading/World.antt =====
-- The players on the shard, as the trade handlers of Trading.cpp see them, and the packets that the
-- handlers read and send. A socket is the place of its player in the list; the map `players` of
-- PlayerManager.cpp is that list, in its order.
use open_fusion.Common.{if◌then◌else◌, ℕ, zero, suc, ◌+◌, Option, none, some, List, [], ◌∷◌}
use open_fusion.Common.Int.{ℤ, eqb_ℤ}
use open_fusion.Player.{Player, TradeItem}

-- iID_Request, iID_From and iID_To, which every trade packet has.
pub record Ids : Type 0 where
  pub request : ℤ
  pub from : ℤ
  pub to : ℤ

-- The packets to the client, named after their types without P_FE2CL_REP_PC_TRADE_.
pub data Message : Type 0 where
  offer offer_refusal offer_succ offer_cancel offer_abort : Ids → Message
  confirm confirm_abort confirm_cancel : Ids → Message
  confirm_succ : Ids → ℤ → List TradeItem → List TradeItem → Message
  item_register_succ item_unregister_succ : Ids → TradeItem → TradeItem → Message
  cash_register_succ : Ids → ℤ → Message
  announce : Message

-- What a handler does besides changing players: sendPacket on a socket, Database::commitTrade.
pub data Effect : Type 0 where
  send : ℕ → Message → Effect
  commit_trade : Player → Player → Effect

abbrev pub World : Type 0
World = List Player

unfoldable pub find_from : List Player → ℕ → ℤ → Option ℕ
find_from [] s id = none
find_from (p ∷ ps) s id = if eqb_ℤ p.id id then some s else find_from ps (s + 1) id

-- PlayerManager::getSockFromID
unfoldable pub get_sock_from_id : World → ℤ → Option ℕ
unfolding find_from
get_sock_from_id w id = find_from w 0 id

-- A change of the player of a socket.
abbrev pub modify : World → ℕ → (Player → Player) → World
modify [] s f = []
modify (p ∷ w) zero f = f p ∷ w
modify (p ∷ w) (suc s) f = p ∷ modify w s f

-- "weird flip flop because we need to know who the other player is"
abbrev pub other_of : World → Ids → Option ℕ
other_of w ids = get_sock_from_id w (if eqb_ℤ ids.request ids.from then ids.to else ids.from)
