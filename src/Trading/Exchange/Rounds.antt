-- ===== src/Trading/Exchange/Rounds.antt =====
-- How the parts of doTrade compose: what holds after every part holds after a round, and what holds
-- of every round holds of the loop.
use open_fusion.Common.{List}
use open_fusion.Player.{Item, TradeItem}
use open_fusion.Trading.Exchange.{
  Outcome, went_on, refused, fault, remove_offer, add_offer, Round, on_ours, on_theirs, to_ours,
  to_theirs, ◌>>=◌, trade_round,
}

-- `F` at an access outside an array, `P` of a value that it goes on with.
abbrev pub After : {A B : Type 0} → Type 0 → (A → Type 0) → Outcome A B → Type 0
After F P (went_on a) = P a
After F P (refused b) = Unit
After F P fault = F

-- A part of a round takes an inventory and an offer to others.
abbrev pub Part : Type 1
Part = List Item → TradeItem → List Item → TradeItem → Type 0

abbrev pub Ends :
    Type 0 → Part → List Item → TradeItem → Outcome (List Item × TradeItem) TradeItem → Type 0
Ends F P inven offer = After F (λ r. P inven offer r.0 r.1)

-- A round is two removals and two additions.
abbrev pub Rounded : Part → Part → Round → Round → Type 0
Rounded R A r r' =
    (i : List Item) × (o : TradeItem) × (i2 : List Item) × (o2 : TradeItem) × R r.inven r.offer i o
    × R r.inven2 r.offer2 i2 o2
    × A i o2 r'.inven r'.offer2
    × A i2 o r'.inven2 r'.offer

module _ (F : Type 0) (Pre : List Item → TradeItem → Type 0) (R A : Part)
    (removes : (i : List Item) (o : TradeItem) → Pre i o → Ends F R i o (remove_offer i o))
    (adds : (i : List Item) (o : TradeItem) → Ends F A i o (add_offer i o)) where
  theirs-After :
      (r : Round) (i1 : List Item) (o1 : TradeItem) (i2 : List Item) (o2 : TradeItem)
      → R r.inven r.offer i1 o1
      → R r.inven2 r.offer2 i2 o2
      → (out : Outcome (List Item × TradeItem) TradeItem) → Ends F A i1 o2 out
      → After F (Rounded R A r) (
          to_ours (record { inven = i1; inven2 = i2; offer = o1; offer2 = o2 }) out >>= λ r3.
          to_theirs r3 (add_offer r3.inven2 r3.offer))
  theirs-After r i1 o1 i2 o2 h1 h2 (refused b) e = tt
  theirs-After r i1 o1 i2 o2 h1 h2 fault e = e
  theirs-After r i1 o1 i2 o2 h1 h2 (went_on (i3, o3)) e = close (add_offer i2 o1) (adds i2 o1)
    where
      close :
          (out : Outcome (List Item × TradeItem) TradeItem)
          → Ends F A i2 o1 out
          → After F
              (Rounded R A r)
              (to_theirs (record { inven = i3; inven2 = i2; offer = o1; offer2 = o3 }) out)
      close (went_on (i4, o4)) e' = (i1, o1, i2, o2, h1, h2, e, e')
      close (refused b) e' = tt
      close fault e' = e'

  ours-After :
      (r : Round) (i1 : List Item) (o1 : TradeItem)
      → R r.inven r.offer i1 o1
      → (out : Outcome (List Item × TradeItem) TradeItem) → Ends F R r.inven2 r.offer2 out
      → After F (Rounded R A r) (
          on_theirs (record r { inven = i1; offer = o1 }) out >>= λ r2.
          to_ours r2 (add_offer r2.inven r2.offer2) >>= λ r3.
          to_theirs r3 (add_offer r3.inven2 r3.offer))
  ours-After r i1 o1 h1 (went_on (i2, o2)) h2 =
      theirs-After r i1 o1 i2 o2 h1 h2 (add_offer i1 o2) (adds i1 o2)
  ours-After r i1 o1 h1 (refused b) h2 = tt
  ours-After r i1 o1 h1 fault h2 = h2

  pub trade_round-Rounded :
      (r : Round)
      → Pre r.inven r.offer
      → Pre r.inven2 r.offer2
      → After F (Rounded R A r) (trade_round r)
  unfolding trade_round
  trade_round-Rounded r p p2 = start (remove_offer r.inven r.offer) (removes r.inven r.offer p)
    where
      start :
          (out : Outcome (List Item × TradeItem) TradeItem)
          → Ends F R r.inven r.offer out
          → After F (Rounded R A r) (
              on_ours r out >>= λ r1. on_theirs r1 (remove_offer r1.inven2 r1.offer2) >>= λ r2.
              to_ours r2 (add_offer r2.inven r2.offer2) >>= λ r3.
              to_theirs r3 (add_offer r3.inven2 r3.offer))
      start (went_on (i1, o1)) h1 =
          ours-After r i1 o1 h1 (remove_offer r.inven2 r.offer2) (removes r.inven2 r.offer2 p2)
      start (refused b) h1 = tt
      start fault h1 = h1
