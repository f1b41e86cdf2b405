-- ===== src/Vendors/Costs.antt =====
-- What a guard lets through, and what the payment of a cost does.
use open_fusion.Common.{
  sym, ℕ, ◌≡◌, refl, ap, ◌∙◌, Bool, true, false, Option, none, some, List, arith, if◌then◌else◌,
  set,
}
use open_fusion.Common.Int.{ℤ, pos, ◌-ℤ◌, ◌≤ℤ◌, leb_ℤ}
use open_fusion.Player.{
  fusion_matter, battery_weapon, battery_nano, taros_in_trade, Item, Player, taros, capped_value,
}
use open_fusion.Player.Range.{IsCapped, subtract_spec, subtract_capped_lem}
use open_fusion.Player.Others.{subtract_capped-SameTrade, subtract_capped-buyback}
use open_fusion.Protocol.Cipher.{◌>>=◌}
use open_fusion.Vendors.{check, charged}

pub check_inv : (b : Bool) (u : Unit) → check b ≡ some u → b ≡ true
check_inv true u h = refl
check_inv false u h = absurd (ground arith)

pub bind_inv :
    {A B : Type 0} (o : Option A) (k : A → Option B) (y : B)
    → (o >>= k) ≡ some y
    → (x : A) × (o ≡ some x) × (k x ≡ some y)
bind_inv none k y h = absurd (ground arith)
bind_inv (some x) k y h = (x, refl, h)

pub bind_some :
    {A B : Type 0} (o : Option A) (k : A → Option B) (x : A) (y : B)
    → o ≡ some x
    → (o >>= k) ≡ some y
    → k x ≡ some y
bind_some o k x y e h = sym (ap (λ r. r >>= k) e) ∙ h

pub some_inj {ℓ} : {A : Type ℓ} {x y : A} → some x ≡ some y → x ≡ y
some_inj h = ground arith

-- Money after a cost that does not exceed it.
abbrev pub paid : ℤ → ℤ → ℤ
paid money cost = if leb_ℤ cost (pos 0) then money else money -ℤ cost

paid-subtract_spec : (money cost : ℤ) → cost ≤ℤ money → subtract_spec money cost ≡ paid money cost
paid-subtract_spec money cost h = ground arith

pub charged_money :
    (p : Player) (cost : ℤ) (slot : ℕ) (item : Item)
    → IsCapped p
    → cost ≤ℤ p.money
    → (charged p cost slot item).money ≡ paid p.money cost
unfolding capped_value
charged_money p cost slot item c h =
    (subtract_capped_lem p taros taros cost c).0.0 ∙ paid-subtract_spec p.money cost h

pub charged_inven :
    (p : Player) (cost : ℤ) (slot : ℕ) (item : Item)
    → (charged p cost slot item).inven ≡ set p.inven slot item
charged_inven p cost slot item =
    ap (λ (inven : List Item). set inven slot item) (subtract_capped-SameTrade p taros cost).0

pub charged_buyback :
    (p : Player) (cost : ℤ) (slot : ℕ) (item : Item)
    → (charged p cost slot item).buyback ≡ p.buyback
charged_buyback p cost slot item = subtract_capped-buyback p taros cost

-- The buyback list is no capped value.
pub buyback-IsCapped :
    (l : List Item) (p : Player) → IsCapped p → IsCapped (record p { buyback = l })
unfolding capped_value
buyback-IsCapped l p c taros = c taros
buyback-IsCapped l p c fusion_matter = c fusion_matter
buyback-IsCapped l p c battery_weapon = c battery_weapon
buyback-IsCapped l p c battery_nano = c battery_nano
buyback-IsCapped l p c taros_in_trade = c taros_in_trade
