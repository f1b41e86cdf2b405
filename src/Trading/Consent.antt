-- ===== src/Trading/Consent.antt =====
-- When a trade packet can change an inventory.
use open_fusion.Common.{
  ℕ, zero, suc, ◌≡◌, refl, ap, subst, ◌∙◌, ◌⊎◌, inl, inr, Bool, true, false, ◌&&◌, ◌||◌, not,
  Option, none, some, List, [], ◌∷◌, arith, if◌then◌else◌, get_elem?,
}
use open_fusion.Common.Int.{ℤ, pos, ltb_ℤ}
use open_fusion.Player.{Item, TradeItem, Player, taros_in_trade, set_capped}
use open_fusion.Protocol.Cipher.{◌>>=◌}
use open_fusion.Player.Others.{set_capped-SameTrade}
use open_fusion.Trading.Exchange.{elem_at}
use open_fusion.Trading.World.{Ids, Effect, World, Message, modify, other_of, get_sock_from_id}
use open_fusion.Trading.Handlers.{
  Reaction, no_offer, forward, start_trading, stop_trading, set_confirm, exchange_between,
  confirmed_by, confirm_with, offer_to, accept_from, trade_offer, trade_offer_accept,
  trade_offer_refusal, trade_offer_cancel, trade_offer_abort, trade_confirm, trade_confirm_cancel,
}
use open_fusion.Trading.Register.{
  inven_item, is_inven_num, is_slot_num, put_offer, registered, unregistered, trade_register_item,
  trade_unregister_item, register_cash, trade_register_cash,
}
use open_fusion.Trading.Dispatch.{
  Request, react, req_offer, req_offer_accept, req_offer_refusal, req_offer_cancel, req_offer_abort,
  req_confirm, req_confirm_cancel, req_item_register, req_item_unregister, req_cash_register,
}

-- The inventories on the shard.
abbrev pub invens : World → List (List Item)
invens [] = []
invens (p ∷ w) = p.inven ∷ invens w

-- A confirmation in a trade of two players, the other of whom has confirmed before.
abbrev pub IsAgreed : World → ℕ → Request → Type 0
IsAgreed w sock r =
    (ids : Ids) × (other : ℕ) × (p : Player) × (p2 : Player) × (r ≡ req_confirm ids)
    × (other_of w ids ≡ some other)
    × (get_elem? w sock ≡ some p)
    × (get_elem? w other ≡ some p2)
    × (p.is_trading ≡ true)
    × (p2.is_trading ≡ true)
    × (p2.is_trade_confirm ≡ true)

modify-invens :
    (w : World) (s : ℕ) (f : Player → Player)
    → ((p : Player) → (f p).inven ≡ p.inven)
    → invens (modify w s f) ≡ invens w
modify-invens [] s f h = refl
modify-invens (p ∷ w) zero f h = ap (λ (i : List Item). i ∷ invens w) (h p)
modify-invens (p ∷ w) (suc s) f h =
    ap (λ (l : List (List Item)). p.inven ∷ l) (modify-invens w s f h)

module _ (w : World) (Q : Type 0) where
  abbrev Stays : Reaction → Type 0
  Stays none = Unit
  Stays (some (w', es)) = (invens w' ≡ invens w) ⊎ Q

  with_value :
      {A : Type 0} (o : Option A) (k : A → Reaction)
      → ((x : A) → o ≡ some x → Stays (k x))
      → Stays (o >>= k)
  with_value none k h = tt
  with_value (some x) k h = h x refl

  with_partner :
      (found : Option ℕ) (k : ℕ → Reaction)
      → ((x : ℕ) → found ≡ some x → Stays (k x))
      → Stays (elim found [ none ↦ some (w, []) | some other ↦ k other ])
  with_partner none k h = inl refl
  with_partner (some x) k h = h x refl

  if-Stays :
      (b : Bool) (x y : Reaction)
      → (b ≡ true → Stays x)
      → (b ≡ false → Stays y)
      → Stays (if b then x else y)
  if-Stays true x y h h2 = h refl
  if-Stays false x y h h2 = h2 refl

  two_modified :
      (s s2 : ℕ) (f f2 : Player → Player)
      → ((p : Player) → (f p).inven ≡ p.inven)
      → ((p : Player) → (f2 p).inven ≡ p.inven)
      → (invens (modify (modify w s f) s2 f2) ≡ invens w) ⊎ Q
  two_modified s s2 f f2 h h2 = inl (modify-invens (modify w s f) s2 f2 h2 ∙ modify-invens w s f h)

  module _ (sock : ℕ) where
    trade_offer-Stays : (ids : Ids) → Stays (trade_offer w sock ids)
    unfolding trade_offer offer_to
    trade_offer-Stays ids =
        with_partner (get_sock_from_id w ids.to) _
          (λ other f. with_value (get_elem? w other) _ (λ p e. inl refl))

    trade_offer_accept-Stays : (ids : Ids) → Stays (trade_offer_accept w sock ids)
    unfolding trade_offer_accept accept_from
    trade_offer_accept-Stays ids =
        with_partner (get_sock_from_id w ids.from) _
          (λ other f. with_value (get_elem? w other) _ (λ p e. answer other p.is_trading _ _))
      where
        answer :
            (other : ℕ) (b : Bool) (es es2 : List Effect)
            → Stays (
                some (
                  if b
                  then (w, es)
                  else (modify (modify w sock start_trading) other start_trading, es2)))
        answer other true es es2 = inl refl
        answer other false es es2 =
            two_modified sock other start_trading start_trading (λ p. refl) (λ p. refl)

    forward-Stays : (id : ℤ) (msg : Message) → Stays (forward w id msg)
    forward-Stays id msg = with_partner (get_sock_from_id w id) _ (λ other f. inl refl)

    trade_confirm_cancel-Stays : (ids : Ids) → Stays (trade_confirm_cancel w sock ids)
    unfolding trade_confirm_cancel
    trade_confirm_cancel-Stays ids =
        with_partner (other_of w ids) _
          (λ other f. two_modified sock other stop_trading stop_trading (λ p. refl) (λ p. refl))

    trade_register_item-Stays :
        (ids : Ids) (item : TradeItem) → Stays (trade_register_item w sock ids item)
    unfolding trade_register_item registered
    trade_register_item-Stays ids item =
        if-Stays (not (is_inven_num item.inven_num) || not (is_slot_num item.slot_num)) _ _
          (λ c. inl refl)
          (λ c. with_partner (other_of w ids) _ (λ other f. with_value (get_elem? w sock) _ (λ p e.
            with_value (get_elem? w other) _ (λ p2 e2.
              if-Stays (p.is_trading && p2.is_trading) _ _
                (λ on.
                  with_value
                    (get_elem?
                      (modify (modify w sock (put_offer item.slot_num item)) other
                        (set_confirm false))
                      sock)
                    _
                    (λ q e3. with_value (inven_item q item) _ (λ shown e4.
                      two_modified sock other (put_offer item.slot_num item) (set_confirm false)
                        (λ p. refl) (λ p. refl))))
                (λ off. inl refl)))))

    trade_unregister_item-Stays :
        (ids : Ids) (item : TradeItem) → Stays (trade_unregister_item w sock ids item)
    unfolding trade_unregister_item unregistered
    trade_unregister_item-Stays ids item =
        if-Stays (not (is_slot_num item.slot_num)) _ _ (λ c. inl refl)
          (λ c. with_partner (other_of w ids) _ (λ other f. with_value (get_elem? w sock) _ (λ p e.
            with_value (get_elem? w other) _ (λ p2 e2.
              if-Stays (p.is_trading && p2.is_trading) _ _
                (λ on. with_value (get_elem? w sock) _ (λ o e5.
                  with_value (elem_at o.trade item.slot_num) _ (λ old e6.
                    with_value
                      (get_elem?
                        (modify (modify w sock (put_offer item.slot_num no_offer)) other
                          (set_confirm false))
                        sock)
                      _
                      (λ q e3. with_value (inven_item q old) _ (λ shown e4.
                        two_modified sock other (put_offer item.slot_num no_offer)
                          (set_confirm false) (λ p. refl) (λ p. refl))))))
                (λ off. inl refl)))))

    trade_register_cash-Stays :
        (ids : Ids) (candy : ℤ) → Stays (trade_register_cash w sock ids candy)
    unfolding trade_register_cash register_cash
    trade_register_cash-Stays ids candy = with_value (get_elem? w sock) _ (λ p e.
        if-Stays (ltb_ℤ candy (pos 0) || ltb_ℤ p.money candy) _ _ (λ c. inl refl)
          (λ c. with_partner (other_of w ids) _ (λ other f.
            two_modified other sock (set_confirm false)
              (λ p. set_confirm false (set_capped p taros_in_trade candy)) (λ p. refl)
              (λ p. (set_capped-SameTrade p taros_in_trade candy).0))))

    trade_confirm-Stays :
        (ids : Ids)
        → ((other : ℕ) (p p2 : Player)
            → other_of w ids ≡ some other
            → get_elem? w sock ≡ some p
            → get_elem? w other ≡ some p2
            → p.is_trading && p2.is_trading ≡ true
            → p2.is_trade_confirm ≡ true
            → Q)
        → Stays (trade_confirm w sock ids)
    unfolding trade_confirm confirm_with confirmed_by
    trade_confirm-Stays ids agreed = with_partner (other_of w ids) _ (λ other f.
        with_value (get_elem? w sock) _ (λ p e. with_value (get_elem? w other) _ (λ p2 e2.
          if-Stays (not (p.is_trading && p2.is_trading)) _ _
            (λ off. two_modified sock other stop_trading stop_trading (λ p. refl) (λ p. refl))
            (λ on.
              if-Stays (not p2.is_trade_confirm) _ _
                (λ c. inl (modify-invens w sock (set_confirm true) (λ p. refl)))
                (λ c.
                  settled (exchange_between w sock other ids p p2)
                    (agreed other p p2 f e e2 (ground arith) (ground arith)))))))
      where
        settled : (o : Reaction) → Q → Stays o
        settled none q = tt
        settled (some r) q = inr q

stays : (w : World) (sock : ℕ) (r : Request) → Stays w (IsAgreed w sock r) (react w sock r)
unfolding trade_offer_refusal trade_offer_cancel trade_offer_abort
stays w sock (req_offer ids) = trade_offer-Stays w _ sock ids
stays w sock (req_offer_accept ids) = trade_offer_accept-Stays w _ sock ids
stays w sock (req_offer_refusal ids) = forward-Stays w _ sock ids.from _
stays w sock (req_offer_cancel ids) = forward-Stays w _ sock ids.from _
stays w sock (req_offer_abort ids) = forward-Stays w _ sock ids.from _
stays w sock (req_confirm ids) =
    trade_confirm-Stays w _ sock ids
      (λ other p p2 f e e2 on c. (ids, other, p, p2, refl, f, e, e2, ground arith, ground arith, c))
stays w sock (req_confirm_cancel ids) = trade_confirm_cancel-Stays w _ sock ids
stays w sock (req_item_register ids item) = trade_register_item-Stays w _ sock ids item
stays w sock (req_item_unregister ids item) = trade_unregister_item-Stays w _ sock ids item
stays w sock (req_cash_register ids candy) = trade_register_cash-Stays w _ sock ids candy

-- A trade packet that is handled leaves all inventories as they are, unless it is a confirmation by
-- a player who trades, while the other player of the packet trades too and has confirmed before.
pub react_moves_by_consent :
    (w : World) (sock : ℕ) (r : Request) (w' : World) (es : List Effect)
    → react w sock r ≡ some (w', es)
    → (invens w' ≡ invens w) ⊎ IsAgreed w sock r
react_moves_by_consent w sock r w' es h = subst (Stays w (IsAgreed w sock r)) h (stays w sock r)
