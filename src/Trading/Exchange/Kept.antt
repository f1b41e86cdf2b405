-- ===== src/Trading/Exchange/Kept.antt =====
-- What the loop of doTrade keeps of the two inventories together.
use open_fusion.Common.{
  ℕ, zero, suc, ◌≡◌, refl, ◌∙◌, ◌≢◌, ◌⊎◌, inl, inr, false, Option, none, some, List, [], ◌∷◌, arith,
  length, All,
}
use open_fusion.Common.Int.{parts_of_eq, ◌+ℤ◌, int_laws}
use open_fusion.Player.{Item, TradeItem}
use open_fusion.Trading.Exchange.{
  Outcome, went_on, refused, fault, Round, trade_round, Traded, with_heads, trade_loop,
}
use open_fusion.Trading.Exchange.Units.{IsStacked, units}
use open_fusion.Trading.Exchange.Rounds.{After, Rounded, trade_round-Rounded}
use open_fusion.Trading.Exchange.Parts.{Leaves, Comes, Pre, removes, adds, IsInRange}

module _ (t i : ℕ) (i≢0 : i ≢ 0) (F : Type 0) where
  -- From two inventories to two inventories.
  abbrev pub Kept : List Item → List Item → List Item → List Item → Type 0
  Kept a b a' b' =
      (units t i a' +ℤ units t i b' ≡ units t i a +ℤ units t i b)
      × (length a' ≡ length a)
      × (length b' ≡ length b)
      × (IsStacked a → IsStacked b → IsStacked a' × IsStacked b')

  Rounded-Kept :
      (r r' : Round)
      → Rounded (Leaves t i i≢0) (Comes t i i≢0) r r'
      → Kept r.inven r.inven2 r'.inven r'.inven2
  Rounded-Kept r r' (a, o, b, o2, (u1, l1, s1, p1), (u2, l2, s2, p2), (u3, l3, s3), (u4, l4, s4)) =
      (
        omega (int_laws, parts_of_eq u1, parts_of_eq u2, parts_of_eq u3, parts_of_eq u4),
        l3 ∙ l1,
        l4 ∙ l2,
        λ sa sb. (s3 p2 (s1 sa), s4 p1 (s2 sb)),
      )

  Kept-trans :
      (a b a' b' a'' b'' : List Item) → Kept a b a' b' → Kept a' b' a'' b'' → Kept a b a'' b''
  Kept-trans a b a' b' a'' b'' (u1, l1, m1, s1) (u2, l2, m2, s2) =
      (u2 ∙ u1, l2 ∙ l1, m2 ∙ m1, λ sa sb. s2 (s1 sa sb).0 (s1 sa sb).1)

  -- What the loop does from two inventories.
  abbrev pub Looped : List Item → List Item → Option Traded → Type 0
  Looped a b none = F
  Looped a b (some r) = (r.ok ≡ false) ⊎ Kept a b r.inven r.inven2

  abbrev pub Ready : ℕ → ℕ → List TradeItem → Type 0
  Ready left size trade = F ⊎ ((length trade ≡ left) × All (IsInRange size) trade)

  Looped-heads :
      (a b a' b' : List Item) (heads : TradeItem × TradeItem)
      → Kept a b a' b'
      → (found : Option Traded) → Looped a' b' found
      → Looped a b (elim found [ none ↦ none | some t' ↦ some (with_heads heads t') ])
  Looped-heads a b a' b' heads k none l = l
  Looped-heads a b a' b' heads k (some r) (inl e) = inl e
  Looped-heads a b a' b' heads k (some r) (inr l) = inr (Kept-trans a b a' b' r.inven r.inven2 k l)

  Ready-tail :
      (left size size' : ℕ) (o : TradeItem) (trade : List TradeItem)
      → Ready (suc left) size (o ∷ trade)
      → size' ≡ size
      → Ready left size' trade
  Ready-tail left size size' o trade (inl f) e = inl f
  Ready-tail left size size' o trade (inr (l, (p, ps))) e = inr (omega (arith, l), rw e ps)

  Ready-head :
      (left : ℕ) (inven : List Item) (o : TradeItem) (trade : List TradeItem)
      → Ready (suc left) (length inven) (o ∷ trade)
      → Pre t i i≢0 F inven o
  Ready-head left inven o trade (inl f) = inl f
  Ready-head left inven o trade (inr (l, (p, ps))) = inr p

  Ready-nil : (left size : ℕ) → Ready (suc left) size [] → F
  Ready-nil left size (inl f) = f
  Ready-nil left size (inr (l, ps)) = absurd (omega (arith, l))

  trade_round-Kept :
      (r : Round)
      → Pre t i i≢0 F r.inven r.offer
      → Pre t i i≢0 F r.inven2 r.offer2
      → After F (λ r'. Kept r.inven r.inven2 r'.inven r'.inven2) (trade_round r)
  trade_round-Kept r p p2 = weaken (trade_round r) (
      trade_round-Rounded F (Pre t i i≢0 F) (Leaves t i i≢0) (Comes t i i≢0) (removes t i i≢0 F)
        (adds t i i≢0 F) r p p2)
    where
      weaken :
          (out : Outcome Round (TradeItem × TradeItem))
          → After F (Rounded (Leaves t i i≢0) (Comes t i i≢0) r) out
          → After F (λ r'. Kept r.inven r.inven2 r'.inven r'.inven2) out
      weaken (went_on r') h = Rounded-Kept r r' h
      weaken (refused b) h = tt
      weaken fault h = h

  pub loop-Looped :
      (left : ℕ) (a b : List Item) (trade trade2 : List TradeItem)
      → Ready left (length a) trade
      → Ready left (length b) trade2
      → Looped a b (trade_loop left a b trade trade2)
  unfolding trade_loop
  loop-Looped zero a b trade trade2 h h2 = inr (refl, refl, refl, λ sa sb. (sa, sb))
  loop-Looped (suc left) a b [] trade2 h h2 = Ready-nil left (length a) h
  loop-Looped (suc left) a b (o ∷ trade) [] h h2 = Ready-nil left (length b) h2
  loop-Looped (suc left) a b (o ∷ trade) (o2 ∷ trade2) h h2 =
      onward (λ a' b' p p2. loop-Looped left a' b' trade trade2 p p2) (trade_round r)
        (trade_round-Kept r (Ready-head left a o trade h) (Ready-head left b o2 trade2 h2))
    where
      r : Round
      r = record { inven = a; inven2 = b; offer = o; offer2 = o2 }

      onward :
          ((a' b' : List Item)
            → Ready left (length a') trade
            → Ready left (length b') trade2
            → Looped a' b' (trade_loop left a' b' trade trade2))
          → (out : Outcome Round (TradeItem × TradeItem))
          → After F (λ r'. Kept a b r'.inven r'.inven2) out
          → Looped a b (elim out [
            | went_on r' ↦ elim (trade_loop left r'.inven r'.inven2 trade trade2) [
              | none ↦ none
              | some t' ↦ some (with_heads (r'.offer, r'.offer2) t')
            ]
            | refused offers ↦ some (
                with_heads offers
                  (record { ok = false; inven = a; inven2 = b; trade = trade; trade2 = trade2 }))
            | fault ↦ none
          ])
      onward rest (went_on r') k =
          Looped-heads a b r'.inven r'.inven2 (r'.offer, r'.offer2) k
            (trade_loop left r'.inven r'.inven2 trade trade2)
            (rest r'.inven r'.inven2 (Ready-tail left (length a) (length r'.inven) o trade h k.1)
              (Ready-tail left (length b) (length r'.inven2) o2 trade2 h2 k.2))
      onward rest (refused offers) k = inl refl
      onward rest fault k = k
