-- ===== src/Trading/Offers.antt =====
-- The handlers that change what is offered keep the players safe.
use open_fusion.Common.{
  ℕ, ◌<◌, ◌≡◌, refl, sym, ap, ◌∙◌, inl, inr, Bool, true, false, ◌&&◌, ◌||◌, some, List, [], arith,
  if◌then◌else◌, Bool-cases, length, get_elem?, length-set, All,
}
use open_fusion.Common.Int.{ℤ, pos, negsuc, ltb_ℤ}
use open_fusion.Player.{TradeItem, Player, taros_in_trade, set_capped}
use open_fusion.Protocol.Cipher.{◌>>=◌}
use open_fusion.Player.Others.{set_capped-SameTrade}
use open_fusion.Trading.Exchange.{elem_at, set_at}
use open_fusion.Trading.World.{Ids, World}
use open_fusion.Trading.Handlers.{Reaction, no_offer, set_confirm}
use open_fusion.Trading.Register.{
  inven_item, is_inven_num, is_slot_num, put_offer, registered, unregistered, if_trading,
  trade_register_item, trade_unregister_item, register_cash, trade_register_cash,
}
use open_fusion.Trading.Safety.{
  All-get_elem?, IsSlot, IsSafe, IsSafeWorld, Reacts, modify_two, All-set, get_elem?_found,
  with_player, with_other, set_confirm-IsSafe, SameTrade-IsSafe,
}

is_inven_num-IsSlot : (o : TradeItem) → is_inven_num o.inven_num ≡ true → IsSlot o
is_inven_num-IsSlot o h = number o.inven_num refl
  where
    number : (z : ℤ) → z ≡ o.inven_num → IsSlot o
    number (pos n) e = (n, sym e, ground arith)
    number (negsuc n) e = absurd (ground arith)

set_at-All :
    (xs : List TradeItem) (s : ℤ) (o : TradeItem)
    → IsSlot o
    → All IsSlot xs
    → All IsSlot (set_at xs s o)
set_at-All xs (pos n) o h a = All-set IsSlot xs n o h a
set_at-All xs (negsuc n) o h a = a

length-set_at : (xs : List TradeItem) (s : ℤ) (o : TradeItem) → length (set_at xs s o) ≡ length xs
length-set_at xs (pos n) o = length-set xs n o
length-set_at xs (negsuc n) o = refl

put_offer-IsSafe :
    (s : ℤ) (o : TradeItem) → IsSlot o → (p : Player) → IsSafe p → IsSafe (put_offer s o p)
put_offer-IsSafe s o h p (l, inl off) = (l, inl off)
put_offer-IsSafe s o h p (l, inr (five, slots)) =
    (l, inr (length-set_at p.trade s o ∙ five, set_at-All p.trade s o h slots))

-- A place that an offer names can be read.
with_item :
    (n : ℕ) (p : Player) (o : TradeItem) (k : TradeItem → Reaction)
    → IsSafe p
    → IsSlot o
    → ((shown : TradeItem) → Reacts n (k shown))
    → Reacts n (inven_item p o >>= k)
with_item n p o k (l, v) (m, e, b) r =
    let (there, found) = get_elem?_found p.inven m (omega (arith, l, b)) in rw (e, found) (r _)

slot_index : (z : ℤ) → is_slot_num z ≡ true → (m : ℕ) × (z ≡ pos m) × (m < 5)
slot_index (pos m) h = (m, refl, ground arith)
slot_index (negsuc m) h = absurd (ground arith)

module _ (n : ℕ) (w : World) (sock : ℕ) (a : IsSafeWorld w) (l : length w ≡ n)
    (s : sock < length w) where
  if_trading-Reacts :
      (other : ℕ) (k : Reaction)
      → other < length w
      → ((plr : Player)
          → get_elem? w sock ≡ some plr
          → plr.is_trading ≡ true
          → IsSafe plr
          → Reacts n k)
      → Reacts n (if_trading w sock other k)
  if_trading-Reacts other k b r = with_player n w sock _ a s (λ plr e v.
      with_player n w other _ a b
        (λ plr2 e2 v2. both (plr.is_trading) (plr2.is_trading) (λ on. r plr e on v)))
    where
      both :
          (b b2 : Bool) → (b ≡ true → Reacts n k) → Reacts n (if b && b2 then k else some (w, []))
      both true true h = h refl
      both true false h = (a, l)
      both false b2 h = (a, l)

  registered-Reacts :
      (other : ℕ) (ids : Ids) (item : TradeItem)
      → IsSlot item
      → Reacts n (registered w sock other ids item)
  unfolding registered
  registered-Reacts other ids item h =
      let f : Player → Player = put_offer item.slot_num item in
      let (a', l') =
        modify_two n w sock other f (set_confirm false) (put_offer-IsSafe item.slot_num item h)
          (set_confirm-IsSafe false) a l in
      with_player n _ sock _ a' (omega (arith, l', l, s))
        (λ plr e v. with_item n plr item _ v h (λ shown. (a', l')))

  pub trade_register_item-Reacts :
      (ids : Ids) (item : TradeItem) → Reacts n (trade_register_item w sock ids item)
  unfolding trade_register_item
  trade_register_item-Reacts ids item = elim (Bool-cases (is_inven_num item.inven_num)) [
    | inr e ↦ simp e (a, l)
    | inl e ↦ elim (Bool-cases (is_slot_num item.slot_num)) [
      | inr e2 ↦ simp (e, e2) (a, l)
      | inl e2 ↦
          simp (e, e2)
            (with_other n w _ _ a l (λ other found b.
              if_trading-Reacts other (registered w sock other ids item) b
                (λ plr at_ on v. registered-Reacts other ids item (is_inven_num-IsSlot item e))))
    ]
  ]

  unregistered-Reacts :
      (other : ℕ) (ids : Ids) (item : TradeItem) (plr : Player)
      → get_elem? w sock ≡ some plr
      → plr.is_trading ≡ true
      → is_slot_num item.slot_num ≡ true
      → IsSafe plr
      → Reacts n (unregistered w sock other ids item)
  unfolding unregistered
  unregistered-Reacts other ids item plr e on slot (len, inl off) = absurd (ground arith)
  unregistered-Reacts other ids item plr e on slot (len, inr (five, slots)) =
      let (m, at_, bound) = slot_index item.slot_num slot in
      let (old, found, h) = All-get_elem? IsSlot plr.trade m slots (omega (arith, five)) in
      let f : Player → Player = put_offer item.slot_num no_offer in
      let (a', l') =
        modify_two n w sock other f (set_confirm false)
          (put_offer-IsSafe item.slot_num no_offer (0, refl, omega arith))
          (set_confirm-IsSafe false) a l in
      rw (e, ap (elem_at plr.trade) at_, found)
        (with_player n _ sock _ a' (omega (arith, l', l, s))
          (λ plr' e' v. with_item n plr' old _ v h (λ shown. (a', l'))))

  pub trade_unregister_item-Reacts :
      (ids : Ids) (item : TradeItem) → Reacts n (trade_unregister_item w sock ids item)
  unfolding trade_unregister_item
  trade_unregister_item-Reacts ids item = elim (Bool-cases (is_slot_num item.slot_num)) [
    | inr e ↦ simp e (a, l)
    | inl e ↦ simp e (
        with_other n w _ _ a l (λ other found b.
          if_trading-Reacts other (unregistered w sock other ids item) b
            (λ plr at_ on v. unregistered-Reacts other ids item plr at_ on e v)))
  ]

  pub trade_register_cash-Reacts :
      (ids : Ids) (candy : ℤ) → Reacts n (trade_register_cash w sock ids candy)
  unfolding trade_register_cash register_cash
  trade_register_cash-Reacts ids candy =
      with_player n w sock _ a s (λ plr e v. guarded (ltb_ℤ candy (pos 0) || ltb_ℤ plr.money candy))
    where
      guarded : (b : Bool) → Reacts n (if b then some (w, []) else register_cash w sock ids candy)
      guarded true = (a, l)
      guarded false = with_other n w _ _ a l (λ other found b.
          modify_two n w other sock (set_confirm false)
            (λ p. set_confirm false (set_capped p taros_in_trade candy)) (set_confirm-IsSafe false)
            (λ p v.
              SameTrade-IsSafe p (set_capped p taros_in_trade candy)
                (set_capped-SameTrade p taros_in_trade candy) v)
            a l)
