-- ===== src/Trading/Handlers.antt =====
-- The packet handlers of Trading.cpp, on the players of the shard. A handler yields the players
-- afterwards and what it sends, in order; `none` is an access outside an array.
use open_fusion.Common.{
  ℕ, Bool, true, false, ◌&&◌, not, Option, none, some, List, [], ◌∷◌, ◌==◌, if◌then◌else◌,
  get_elem?, set,
}
use open_fusion.Common.Int.{ℤ, pos}
use open_fusion.Player.{TradeItem, Player, taros, add_capped, subtract_capped}
use open_fusion.Protocol.Cipher.{◌>>=◌}
use open_fusion.Trading.Exchange.{do_trade, self_trade}
use open_fusion.Trading.World.{
  Ids, Message, Effect, World, get_sock_from_id, modify, other_of, send, commit_trade, offer,
  offer_refusal, offer_succ, offer_cancel, offer_abort, confirm, confirm_abort, confirm_cancel,
  confirm_succ, announce,
}

abbrev pub Reaction : Type 0
Reaction = Option (World × List Effect)

-- "clearing up trade slots", and the marks of a player who trades.
abbrev pub no_offer : TradeItem
no_offer = record { type = 0; id = 0; opt = pos 0; inven_num = pos 0; slot_num = pos 0 }

abbrev pub start_trading : Player → Player
start_trading p = record p {
  money_in_trade = pos 0;
  trade = no_offer ∷ no_offer ∷ no_offer ∷ no_offer ∷ no_offer ∷ [];
  is_trading = true;
  is_trade_confirm = false;
}

abbrev pub stop_trading : Player → Player
stop_trading p = record p { is_trading = false; is_trade_confirm = false }

abbrev pub set_confirm : Bool → Player → Player
set_confirm b p = record p { is_trade_confirm = b }

-- A packet for the other player alone.
abbrev pub forward : World → ℤ → Message → Reaction
forward w id msg = elim (get_sock_from_id w id) [
  | none ↦ some (w, [])
  | some other ↦ some (w, send other msg ∷ [])
]

unfoldable pub offer_to : World → ℕ → ℕ → Ids → Reaction
offer_to w sock other ids = do
  plr ← get_elem? w other
  some (
    w,
    if plr.is_trading
        then send sock (offer_refusal (record ids { request = ids.to })) ∷ []
        else send other (offer ids) ∷ [],
  )

-- tradeOffer
unfoldable pub trade_offer : World → ℕ → Ids → Reaction
unfolding offer_to
trade_offer w sock ids = elim (get_sock_from_id w ids.to) [
  | none ↦ some (w, [])
  | some other ↦ offer_to w sock other ids
]

abbrev accepted : World → ℕ → ℕ → Ids → Player → World × List Effect
accepted w sock other ids plr2 =
    if plr2.is_trading
    then (w, send sock (offer_refusal (record ids { request = ids.from })) ∷ [])
    else (
      modify (modify w sock start_trading) other start_trading,
      send sock (offer_succ ids) ∷ send other (offer_succ ids) ∷ [],
    )

unfoldable pub accept_from : World → ℕ → ℕ → Ids → Reaction
accept_from w sock other ids = get_elem? w other >>= λ plr2. some (accepted w sock other ids plr2)

-- tradeOfferAccept
unfoldable pub trade_offer_accept : World → ℕ → Ids → Reaction
unfolding accept_from
trade_offer_accept w sock ids = elim (get_sock_from_id w ids.from) [
  | none ↦ some (w, [])
  | some other ↦ accept_from w sock other ids
]

unfoldable pub trade_offer_refusal : World → ℕ → Ids → Reaction
trade_offer_refusal w sock ids = forward w ids.from (offer_refusal ids)

unfoldable pub trade_offer_cancel : World → ℕ → Ids → Reaction
trade_offer_cancel w sock ids = forward w ids.from (offer_cancel ids)

unfoldable pub trade_offer_abort : World → ℕ → Ids → Reaction
trade_offer_abort w sock ids = forward w ids.from (offer_abort ids)

-- The taros of plr after a trade that succeeded.
unfoldable pub pay : Player → Player → Player
pay plr plr2 = add_capped (subtract_capped plr taros plr.money_in_trade) taros plr2.money_in_trade

abbrev pub succ_message : Ids → Player → Player → Message
succ_message ids plr plr2 = confirm_succ ids plr.money plr2.trade plr.trade

abbrev pub failed_messages : ℕ → ℕ → Ids → Player → Player → List Effect
failed_messages sock other ids plr plr2 =
    send sock (confirm_abort (record ids { request = plr.id }))
    ∷ send other (confirm_abort (record ids { request = plr2.id }))
    ∷ send sock announce
    ∷ send other announce
    ∷ []

-- The end of tradeConfirm for two players: the trade, and what follows it. The money in trade is
-- not checked again.
unfoldable pub settle : World → ℕ → ℕ → Ids → Bool × Player × Player → World × List Effect
settle w sock other ids (false, plr, plr2) = (
  set (set w sock plr) other plr2,
  send sock (confirm ids) ∷ failed_messages sock other ids plr plr2,
)
settle w sock other ids (true, plr, plr2) =
    let q : Player = pay plr plr2 in
    let q2 : Player = pay plr2 q in
    (
      set (set w sock q) other q2,
      send sock (confirm ids)
          ∷ send sock (succ_message ids q plr2)
          ∷ send other (succ_message ids q2 q)
          ∷ commit_trade q q2
          ∷ [],
    )

-- The same for a player who trades with himself.
unfoldable pub settle_self : World → ℕ → Ids → Bool × Player → World × List Effect
settle_self w sock ids (false, plr) =
    (set w sock plr, send sock (confirm ids) ∷ failed_messages sock sock ids plr plr)
settle_self w sock ids (true, plr) =
    let q : Player = pay plr plr in
    let q2 : Player = pay q q in
    (
      set w sock q2,
      send sock (confirm ids)
          ∷ send sock (succ_message ids q q)
          ∷ send sock (succ_message ids q2 q2)
          ∷ commit_trade q2 q2
          ∷ [],
    )

unfoldable pub exchange_between : World → ℕ → ℕ → Ids → Player → Player → Reaction
exchange_between w sock other ids plr plr2 =
    if sock == other
    then (do r ← self_trade (stop_trading plr); some (settle_self w sock ids r))
    else (do r ← do_trade (stop_trading plr) (stop_trading plr2); some (settle w sock other ids r))

-- tradeConfirm between two players who are looked up.
unfoldable pub confirmed_by : World → ℕ → ℕ → Ids → Player → Player → Reaction
confirmed_by w sock other ids plr plr2 =
    if not (plr.is_trading && plr2.is_trading)
    then some (
      modify (modify w sock stop_trading) other stop_trading,
      send sock (confirm_abort (record ids { request = plr2.id }))
          ∷ send other (confirm_abort (record ids { request = plr.id }))
          ∷ [],
    )
    else if not plr2.is_trade_confirm
    then some
        (modify w sock (set_confirm true), send sock (confirm ids) ∷ send other (confirm ids) ∷ [])
    else exchange_between w sock other ids plr plr2

unfoldable pub confirm_with : World → ℕ → ℕ → Ids → Reaction
unfolding confirmed_by
confirm_with w sock other ids = do
  plr ← get_elem? w sock
  plr2 ← get_elem? w other
  confirmed_by w sock other ids plr plr2

-- tradeConfirm
unfoldable pub trade_confirm : World → ℕ → Ids → Reaction
unfolding confirm_with
trade_confirm w sock ids = elim (other_of w ids) [
  | none ↦ some (w, [])
  | some other ↦ confirm_with w sock other ids
]

-- tradeConfirmCancel
unfoldable pub trade_confirm_cancel : World → ℕ → Ids → Reaction
trade_confirm_cancel w sock ids = elim (other_of w ids) [
  | none ↦ some (w, [])
  | some other ↦
      some (
        modify (modify w sock stop_trading) other stop_trading,
        send other (confirm_cancel ids) ∷ [],
      )
]
