-- ===== src/Trading/Exchange/Conservation.antt =====
-- What doTrade does to the two inventories together.
use open_fusion.Common.{
  ℕ, ◌≡◌, refl, subst, ◌≢◌, ◌⊎◌, inl, inr, Bool, Option, none, some, arith, Bool-cases, length, All,
}
use open_fusion.Common.Int.{◌+ℤ◌}
use open_fusion.Player.{Player}
use open_fusion.Trading.Exchange.{commit, do_trade, trade_loop, Traded}
use open_fusion.Trading.Exchange.Units.{units, IsStacked}
use open_fusion.Trading.Exchange.Parts.{IsInRange}
use open_fusion.Trading.Exchange.Kept.{Kept, Looped, loop-Looped}

-- A player whose trade slots can be read: five of them, each empty or naming a slot of the
-- inventory.
abbrev pub IsTrader : Player → Type 0
IsTrader p = (length p.trade ≡ 5) × All (IsInRange (length p.inven)) p.trade

module _ (t i : ℕ) (i≢0 : i ≢ 0) (F : Type 0) (p p2 : Player) where
  -- What doTrade does to the players.
  abbrev Done : Option (Bool × Player × Player) → Type 0
  Done none = F
  Done (some (ok, q, q2)) = Kept t i i≢0 F p.inven p2.inven q.inven q2.inven

  commit-Done :
      (found : Option Traded)
      → Looped t i i≢0 F p.inven p2.inven found
      → Done (elim found [ none ↦ none | some r ↦ some (commit p p2 r) ])
  commit-Done none l = l
  commit-Done (some r) l = elim (Bool-cases r.ok) [
    | inl e ↦ simp e (elim l [ inl f ↦ absurd (ground arith) | inr k ↦ k ])
    | inr e ↦ simp e (refl, refl, refl, λ sa sb. (sa, sb))
  ]

  pub do_trade-Done : F ⊎ IsTrader p → F ⊎ IsTrader p2 → Done (do_trade p p2)
  unfolding do_trade
  do_trade-Done h h2 =
      commit-Done (trade_loop 5 p.inven p2.inven p.trade p2.trade)
        (loop-Looped t i i≢0 F 5 p.inven p2.inven p.trade p2.trade h h2)

-- When doTrade returns, whatever the offers and whether the trade succeeded or was refused, the two
-- inventories together hold as many units of every kind of item as before: the amounts of the slots
-- with a given type and a given id other than 0 have the same sum.
pub do_trade_conserves :
    (p p2 q q2 : Player) (ok : Bool) (t i : ℕ)
    → i ≢ 0
    → do_trade p p2 ≡ some (ok, q, q2)
    → units t i q.inven +ℤ units t i q2.inven ≡ units t i p.inven +ℤ units t i p2.inven
do_trade_conserves p p2 q q2 ok t i i≢0 h =
    (subst (Done t i i≢0 Unit p p2) h (do_trade-Done t i i≢0 Unit p p2 (inl tt) (inl tt))).0

one≢0 : ◌≢◌ {A = ℕ} 1 0
one≢0 = ground arith

-- From two inventories in which every item that is there has a positive amount, doTrade returns to
-- two such inventories, and neither changes its size.
pub do_trade-IsStacked :
    (p p2 q q2 : Player) (ok : Bool)
    → IsStacked p.inven
    → IsStacked p2.inven
    → do_trade p p2 ≡ some (ok, q, q2)
    → IsStacked q.inven
      × IsStacked q2.inven
      × (length q.inven ≡ length p.inven)
      × (length q2.inven ≡ length p2.inven)
do_trade-IsStacked p p2 q q2 ok s s2 h =
    let (u, l, l2, keeps) =
      subst (Done 0 1 one≢0 Unit p p2) h (do_trade-Done 0 1 one≢0 Unit p p2 (inl tt) (inl tt)) in
    ((keeps s s2).0, (keeps s s2).1, l, l2)

some_of_Done :
    (p p2 : Player) (found : Option (Bool × Player × Player))
    → Done 0 1 one≢0 ⊥ p p2 found
    → (r : Bool × Player × Player) × (found ≡ some r)
some_of_Done p p2 none d = absurd d
some_of_Done p p2 (some r) d = (r, refl)

-- If both players have five trade slots, each empty or naming a slot of the owner's inventory,
-- doTrade returns: it reads and writes no slot outside an inventory.
pub do_trade_returns :
    (p p2 : Player)
    → IsTrader p
    → IsTrader p2
    → (r : Bool × Player × Player) × (do_trade p p2 ≡ some r)
do_trade_returns p p2 h h2 =
    some_of_Done p p2 (do_trade p p2) (do_trade-Done 0 1 one≢0 ⊥ p p2 (inr h) (inr h2))

-- doTrade leaves the marks of both players as they are.
abbrev pub SameMarks : Player → Player → Option (Bool × Player × Player) → Type 0
SameMarks p p2 none = Unit
SameMarks p p2 (some (ok, q, q2)) = (q.is_trading ≡ p.is_trading) × (q2.is_trading ≡ p2.is_trading)

commit-SameMarks :
    (p p2 : Player) (found : Option Traded)
    → SameMarks p p2 (elim found [ none ↦ none | some r ↦ some (commit p p2 r) ])
commit-SameMarks p p2 none = tt
commit-SameMarks p p2 (some r) = (refl, refl)

pub do_trade-SameMarks : (p p2 : Player) → SameMarks p p2 (do_trade p p2)
unfolding do_trade
do_trade-SameMarks p p2 = commit-SameMarks p p2 (trade_loop 5 p.inven p2.inven p.trade p2.trade)

-- From two inventories of one size, doTrade between traders returns two players with inventories of
-- that size and unchanged marks.
pub do_trade_sized :
    (p p2 : Player)
    → IsTrader p
    → IsTrader p2
    → (r : Bool × Player × Player) × (do_trade p p2 ≡ some r)
      × (length r.1.inven ≡ length p.inven)
      × (length r.2.inven ≡ length p2.inven)
      × (r.1.is_trading ≡ p.is_trading)
      × (r.2.is_trading ≡ p2.is_trading)
do_trade_sized p p2 h h2 =
    let (r, e) = do_trade_returns p p2 h h2 in
    let (u, l, l2, keeps) =
      subst (Done 0 1 one≢0 ⊥ p p2) e (do_trade-Done 0 1 one≢0 ⊥ p p2 (inr h) (inr h2)) in
    let (m, m2) = subst (SameMarks p p2) e (do_trade-SameMarks p p2) in (r, e, l, l2, m, m2)
