-- ===== src/Trading/Preservation.antt =====
-- Every trade handler keeps the players on the shard safe, and stays inside their arrays.
use open_fusion.Common.{
  ℕ, ◌<◌, ◌≡◌, refl, sym, ap, ◌∙◌, ◌≢◌, inl, Bool, true, false, ◌&&◌, not, some, List, arith, ◌==◌,
  if◌then◌else◌, length, set, length-set,
}
use open_fusion.Common.Int.{ℤ}
use open_fusion.Player.{Player, taros, add_capped, subtract_capped}
use open_fusion.Player.Others.{add_capped-SameTrade, subtract_capped-SameTrade}
use open_fusion.Trading.Exchange.Conservation.{do_trade_sized}
use open_fusion.Trading.World.{Ids, Effect, World, Message, modify, other_of}
use open_fusion.Trading.Handlers.{
  Reaction, forward, start_trading, stop_trading, set_confirm, pay, settle, exchange_between,
  confirmed_by, confirm_with, offer_to, accept_from, trade_offer, trade_offer_accept,
  trade_offer_refusal, trade_offer_cancel, trade_offer_abort, trade_confirm, trade_confirm_cancel,
}
use open_fusion.Trading.Dispatch.{
  Request, react, req_offer, req_offer_accept, req_offer_refusal, req_offer_cancel, req_offer_abort,
  req_confirm, req_confirm_cancel, req_item_register, req_item_unregister, req_cash_register,
}
use open_fusion.Trading.Safety.{
  IsSafe, IsSafeWorld, Reacts, modify_two, modify-IsSafeWorld, length-modify, All-set, with_player,
  with_other, start_trading-IsSafe, stop_trading-IsSafe, set_confirm-IsSafe, SameTrade-IsSafe,
  IsSafe-IsTrader,
}
use open_fusion.Trading.Offers.{
  trade_register_item-Reacts, trade_unregister_item-Reacts, trade_register_cash-Reacts,
}

pay-IsSafe : (p p2 : Player) → IsSafe p → IsSafe (pay p p2)
unfolding pay
pay-IsSafe p p2 v =
    let q : Player = subtract_capped p taros p.money_in_trade in
    SameTrade-IsSafe q (add_capped q taros p2.money_in_trade) (add_capped-SameTrade q taros _)
      (SameTrade-IsSafe p q (subtract_capped-SameTrade p taros _) v)

-- Only a confirmation can make a player trade with himself.
abbrev pub IsWithAnother : World → ℕ → Request → Type 0
IsWithAnother w sock (req_confirm ids) = other_of w ids ≢ some sock
IsWithAnother w sock (req_offer ids) = Unit
IsWithAnother w sock (req_offer_accept ids) = Unit
IsWithAnother w sock (req_offer_refusal ids) = Unit
IsWithAnother w sock (req_offer_cancel ids) = Unit
IsWithAnother w sock (req_offer_abort ids) = Unit
IsWithAnother w sock (req_confirm_cancel ids) = Unit
IsWithAnother w sock (req_item_register ids item) = Unit
IsWithAnother w sock (req_item_unregister ids item) = Unit
IsWithAnother w sock (req_cash_register ids candy) = Unit

module _ (n : ℕ) (w : World) (sock : ℕ) (a : IsSafeWorld w) (l : length w ≡ n)
    (s : sock < length w) where
  forward-Reacts : (id : ℤ) (msg : Message) → Reacts n (forward w id msg)
  forward-Reacts id msg = with_other n w id _ a l (λ other found b. (a, l))

  trade_offer-Reacts : (ids : Ids) → Reacts n (trade_offer w sock ids)
  unfolding trade_offer offer_to
  trade_offer-Reacts ids =
      with_other n w _ _ a l (λ other found b. with_player n w other _ a b (λ plr e v. (a, l)))

  trade_offer_accept-Reacts : (ids : Ids) → Reacts n (trade_offer_accept w sock ids)
  unfolding trade_offer_accept accept_from
  trade_offer_accept-Reacts ids =
      with_other n w _ _ a l (λ other found b.
        with_player n w other _ a b (λ plr e v. answer other (plr.is_trading) _ _))
    where
      answer :
          (other : ℕ) (b : Bool) (es es2 : List Effect)
          → Reacts n (
              some (
                if b
                then (w, es)
                else (modify (modify w sock start_trading) other start_trading, es2)))
      answer other true es es2 = (a, l)
      answer other false es es2 =
          modify_two n w sock other start_trading start_trading start_trading-IsSafe
            start_trading-IsSafe a l

  trade_confirm_cancel-Reacts : (ids : Ids) → Reacts n (trade_confirm_cancel w sock ids)
  unfolding trade_confirm_cancel
  trade_confirm_cancel-Reacts ids = with_other n w _ _ a l (λ other found b.
      modify_two n w sock other stop_trading stop_trading stop_trading-IsSafe stop_trading-IsSafe a
        l)

  set_two :
      (other : ℕ) (p p2 : Player)
      → IsSafe p
      → IsSafe p2
      → IsSafeWorld (set (set w sock p) other p2) × (length (set (set w sock p) other p2) ≡ n)
  set_two other p p2 v v2 = (
    All-set IsSafe (set w sock p) other p2 v2 (All-set IsSafe w sock p v a),
    length-set (set w sock p) other p2 ∙ length-set w sock p ∙ l,
  )

  settle-Reacts :
      (other : ℕ) (ids : Ids) (ok : Bool) (p p2 : Player)
      → IsSafe p
      → IsSafe p2
      → Reacts n (some (settle w sock other ids (ok, p, p2)))
  unfolding settle
  settle-Reacts other ids true p p2 v v2 =
      set_two other (pay p p2) (pay p2 (pay p p2)) (pay-IsSafe p p2 v) (pay-IsSafe p2 (pay p p2) v2)
  settle-Reacts other ids false p p2 v v2 = set_two other p p2 v v2

  exchange_between-Reacts :
      (other : ℕ) (ids : Ids) (p p2 : Player)
      → sock ≢ other
      → IsSafe p
      → IsSafe p2
      → p.is_trading ≡ true
      → p2.is_trading ≡ true
      → Reacts n (exchange_between w sock other ids p p2)
  unfolding exchange_between
  exchange_between-Reacts other ids p p2 apart v v2 on on2 =
      let (r, e, lq, lq2, mq, mq2) =
        do_trade_sized (stop_trading p) (stop_trading p2) (IsSafe-IsTrader p v on)
          (IsSafe-IsTrader p2 v2 on2) in
      let differ : (sock == other) ≡ false = ground arith in
      simp (differ, e)
        (settle-Reacts other ids r.0 r.1 r.2 (lq ∙ v.0, inl mq) (lq2 ∙ v2.0, inl mq2))

  if-Reacts :
      (b : Bool) (x y : Reaction)
      → (b ≡ true → Reacts n x)
      → (b ≡ false → Reacts n y)
      → Reacts n (if b then x else y)
  if-Reacts true x y h h2 = h refl
  if-Reacts false x y h h2 = h2 refl

  both_on : (b b2 : Bool) → not (b && b2) ≡ false → (b ≡ true) × (b2 ≡ true)
  both_on b b2 h = ground arith

  confirm_with-Reacts :
      (other : ℕ) (ids : Ids)
      → sock ≢ other
      → other < length w
      → Reacts n (confirm_with w sock other ids)
  unfolding confirm_with confirmed_by
  confirm_with-Reacts other ids apart b =
      let marked : IsSafeWorld (modify w sock (set_confirm true))
          × (length (modify w sock (set_confirm true)) ≡ n) =
        (
          modify-IsSafeWorld w sock (set_confirm true) (set_confirm-IsSafe true) a,
          length-modify w sock (set_confirm true) ∙ l,
        ) in
      with_player n w sock _ a s (λ p e v. with_player n w other _ a b (λ p2 e2 v2.
        if-Reacts _ _ _
          (λ off.
            modify_two n w sock other stop_trading stop_trading stop_trading-IsSafe
              stop_trading-IsSafe a l)
          (λ both.
            if-Reacts (not p2.is_trade_confirm) _ _ (λ c. marked)
              (λ c.
                exchange_between-Reacts other ids p p2 apart v v2
                  (both_on p.is_trading p2.is_trading both).0
                  (both_on p.is_trading p2.is_trading both).1))))

  trade_confirm-Reacts :
      (ids : Ids) → other_of w ids ≢ some sock → Reacts n (trade_confirm w sock ids)
  unfolding trade_confirm
  trade_confirm-Reacts ids apart =
      with_other n w _ _ a l
        (λ other found b. confirm_with-Reacts other ids (λ e. apart (found ∙ ap some (sym e))) b)

  pub react-Reacts : (r : Request) → IsWithAnother w sock r → Reacts n (react w sock r)
  unfolding trade_offer_refusal trade_offer_cancel trade_offer_abort
  react-Reacts (req_offer ids) h = trade_offer-Reacts ids
  react-Reacts (req_offer_accept ids) h = trade_offer_accept-Reacts ids
  react-Reacts (req_offer_refusal ids) h = forward-Reacts ids.from _
  react-Reacts (req_offer_cancel ids) h = forward-Reacts ids.from _
  react-Reacts (req_offer_abort ids) h = forward-Reacts ids.from _
  react-Reacts (req_confirm ids) h = trade_confirm-Reacts ids h
  react-Reacts (req_confirm_cancel ids) h = trade_confirm_cancel-Reacts ids
  react-Reacts (req_item_register ids item) h = trade_register_item-Reacts n w sock a l s ids item
  react-Reacts (req_item_unregister ids item) h =
      trade_unregister_item-Reacts n w sock a l s ids item
  react-Reacts (req_cash_register ids candy) h = trade_register_cash-Reacts n w sock a l s ids candy
