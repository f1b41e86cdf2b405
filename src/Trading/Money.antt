-- ===== src/Trading/Money.antt =====
-- The taros that change hands at the end of a trade.
use open_fusion.Common.{ap, ◌∙◌, ◌≡◌, inl, inr, arith}
use open_fusion.Common.Int.{parts_of_eq, ℤ, pos, ◌+ℤ◌, ◌-ℤ◌, ◌≤ℤ◌, int_laws}
use open_fusion.Player.{
  Player, taros, taros_in_trade, get_cap, capped_value, add_capped, subtract_capped,
}
use open_fusion.Player.Range.{
  IsCapped, Changes, add_spec, subtract_spec, add_capped_lem, subtract_capped_lem,
  operations-IsCapped,
}
use open_fusion.Trading.Handlers.{pay}

abbrev cap : ℤ
cap = pos 999999999

-- Another value than taros.
other_value :
    (p q : Player) (v : ℤ)
    → Changes p taros v q taros_in_trade
    → (q.money ≡ v) × (q.money_in_trade ≡ p.money_in_trade)
unfolding capped_value
other_value p q v (e, inl f) = absurd (ground arith)
other_value p q v (e, inr f) = (e, f)

pay_values :
    (p p2 : Player)
    → IsCapped p
    → ((pay p p2).money ≡ add_spec cap (subtract_spec p.money p.money_in_trade) p2.money_in_trade)
      × ((pay p p2).money_in_trade ≡ p.money_in_trade)
unfolding pay get_cap capped_value
pay_values p p2 v =
    let q : Player = subtract_capped p taros p.money_in_trade in
    let (m, t) =
      other_value p q _ (subtract_capped_lem p taros taros_in_trade p.money_in_trade v).0 in
    let v' = (operations-IsCapped p taros p.money_in_trade v).1 in
    let (m2, t2) =
      other_value q (add_capped q taros p2.money_in_trade) _
        (add_capped_lem q taros taros_in_trade p2.money_in_trade v').0 in
    (m2 ∙ ap (λ (x : ℤ). add_spec cap x p2.money_in_trade) m, t2 ∙ t)

exact :
    (money mine theirs : ℤ)
    → mine ≤ℤ money
    → pos 0 ≤ℤ mine
    → pos 0 ≤ℤ theirs
    → money -ℤ mine +ℤ theirs ≤ℤ cap
    → add_spec cap (subtract_spec money mine) theirs ≡ money -ℤ mine +ℤ theirs
unfolding ◌+ℤ◌ ◌-ℤ◌
exact money mine theirs h p q c = ground arith

-- The taros of two players after a trade that succeeded, from values within their caps: if neither
-- has more in the trade than he owns, and what each would own is within the cap, each pays what he
-- has in the trade and gets what the other has there. Together they own what they owned before.
pub pay_lem :
    (p p2 : Player)
    → IsCapped p
    → IsCapped p2
    → p.money_in_trade ≤ℤ p.money
    → p2.money_in_trade ≤ℤ p2.money
    → p.money -ℤ p.money_in_trade +ℤ p2.money_in_trade ≤ℤ pos 999999999
    → p2.money -ℤ p2.money_in_trade +ℤ p.money_in_trade ≤ℤ pos 999999999
    → ((pay p p2).money ≡ p.money -ℤ p.money_in_trade +ℤ p2.money_in_trade)
      × ((pay p2 (pay p p2)).money ≡ p2.money -ℤ p2.money_in_trade +ℤ p.money_in_trade)
      × ((pay p p2).money +ℤ (pay p2 (pay p p2)).money ≡ p.money +ℤ p2.money)
unfolding capped_value
pay_lem p p2 v v2 h h2 c c2 =
    let (m, t) = pay_values p p2 v in
    let (m2, t2) = pay_values p2 (pay p p2) v2 in
    let e =
      m
      ∙ exact p.money p.money_in_trade p2.money_in_trade h (v taros_in_trade).0
          (v2 taros_in_trade).0 c in
    let e2 =
      m2
      ∙ ap (add_spec cap (subtract_spec p2.money p2.money_in_trade)) t
      ∙ exact p2.money p2.money_in_trade p.money_in_trade h2 (v2 taros_in_trade).0
          (v taros_in_trade).0 c2 in
    (e, e2, omega (int_laws, parts_of_eq e, parts_of_eq e2))

poor :
    (money mine : ℤ)
    → money ≤ℤ mine
    → pos 0 ≤ℤ money
    → add_spec cap (subtract_spec money mine) (pos 0) ≡ pos 0
unfolding ◌-ℤ◌
poor money mine h p = ground arith

rich :
    (money theirs : ℤ)
    → pos 0 ≤ℤ money
    → pos 0 ≤ℤ theirs
    → money +ℤ theirs ≤ℤ cap
    → add_spec cap (subtract_spec money (pos 0)) theirs ≡ money +ℤ theirs
unfolding ◌+ℤ◌ ◌-ℤ◌
rich money theirs p q c = ground arith

-- The amount in the trade is not checked again when the trade is confirmed. A player who by then
-- owns less than he has in the trade, and gets nothing, ends with nothing; the other gets the whole
-- amount, where the cap leaves room for it. Together they own more than before, by what was missing.
pub pay_mints :
    (p p2 : Player)
    → IsCapped p
    → IsCapped p2
    → p.money ≤ℤ p.money_in_trade
    → p2.money_in_trade ≡ pos 0
    → p2.money +ℤ p.money_in_trade ≤ℤ pos 999999999
    → ((pay p p2).money ≡ pos 0)
      × ((pay p2 (pay p p2)).money ≡ p2.money +ℤ p.money_in_trade)
      × ((pay p p2).money +ℤ (pay p2 (pay p p2)).money
          ≡ p.money +ℤ p2.money +ℤ (p.money_in_trade -ℤ p.money))
unfolding capped_value
pay_mints p p2 v v2 h z c =
    let (m, t) = pay_values p p2 v in
    let (m2, t2) = pay_values p2 (pay p p2) v2 in
    let e =
      m
      ∙ ap (add_spec cap (subtract_spec p.money p.money_in_trade)) z
      ∙ poor p.money p.money_in_trade h (v taros).0 in
    let e2 =
      m2
      ∙ ap (add_spec cap (subtract_spec p2.money p2.money_in_trade)) t
      ∙ ap (λ (x : ℤ). add_spec cap (subtract_spec p2.money x) p.money_in_trade) z
      ∙ rich p2.money p.money_in_trade (v2 taros).0 (v taros_in_trade).0 c in
    (e, e2, omega (int_laws, parts_of_eq e, parts_of_eq e2))
