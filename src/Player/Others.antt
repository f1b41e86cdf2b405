-- ===== src/Player/Others.antt =====
-- The capped values leave the other fields of a player alone.
use open_fusion.Common.{Bool, true, false, refl, ◌≡◌, if◌then◌else◌}
use open_fusion.Common.Int.{ℤ, pos, leb_ℤ}
use open_fusion.Player.{
  Player, CappedValueType, taros, fusion_matter, battery_weapon, battery_nano, taros_in_trade,
  store_value, add_capped, subtract_capped, set_capped,
}

-- The same inventory and the same state of trading.
abbrev pub SameTrade : Player → Player → Type 0
SameTrade p q = (q.inven ≡ p.inven) × (q.trade ≡ p.trade) × (q.is_trading ≡ p.is_trading)

store_value-SameTrade : (p : Player) (t : CappedValueType) (v : ℤ) → SameTrade p (store_value p t v)
unfolding store_value
store_value-SameTrade p taros v = (refl, refl, refl)
store_value-SameTrade p fusion_matter v = (refl, refl, refl)
store_value-SameTrade p battery_weapon v = (refl, refl, refl)
store_value-SameTrade p battery_nano v = (refl, refl, refl)
store_value-SameTrade p taros_in_trade v = (refl, refl, refl)

if-SameTrade : (p q : Player) (b : Bool) → SameTrade p q → SameTrade p (if b then p else q)
if-SameTrade p q true h = (refl, refl, refl)
if-SameTrade p q false h = h

pub add_capped-SameTrade :
    (p : Player) (t : CappedValueType) (d : ℤ) → SameTrade p (add_capped p t d)
unfolding add_capped
add_capped-SameTrade p t d = if-SameTrade p _ (leb_ℤ d (pos 0)) (store_value-SameTrade p t _)

pub subtract_capped-SameTrade :
    (p : Player) (t : CappedValueType) (d : ℤ) → SameTrade p (subtract_capped p t d)
unfolding subtract_capped
subtract_capped-SameTrade p t d = if-SameTrade p _ (leb_ℤ d (pos 0)) (store_value-SameTrade p t _)

pub set_capped-SameTrade :
    (p : Player) (t : CappedValueType) (d : ℤ) → SameTrade p (set_capped p t d)
unfolding set_capped
set_capped-SameTrade p t d = store_value-SameTrade p t _

-- The same list of items to buy back.
store_value-buyback :
    (p : Player) (t : CappedValueType) (v : ℤ) → (store_value p t v).buyback ≡ p.buyback
unfolding store_value
store_value-buyback p taros v = refl
store_value-buyback p fusion_matter v = refl
store_value-buyback p battery_weapon v = refl
store_value-buyback p battery_nano v = refl
store_value-buyback p taros_in_trade v = refl

if-buyback :
    (p q : Player) (b : Bool) → q.buyback ≡ p.buyback → (if b then p else q).buyback ≡ p.buyback
if-buyback p q true h = refl
if-buyback p q false h = h

pub add_capped-buyback :
    (p : Player) (t : CappedValueType) (d : ℤ) → (add_capped p t d).buyback ≡ p.buyback
unfolding add_capped
add_capped-buyback p t d = if-buyback p _ (leb_ℤ d (pos 0)) (store_value-buyback p t _)

pub subtract_capped-buyback :
    (p : Player) (t : CappedValueType) (d : ℤ) → (subtract_capped p t d).buyback ≡ p.buyback
unfolding subtract_capped
subtract_capped-buyback p t d = if-buyback p _ (leb_ℤ d (pos 0)) (store_value-buyback p t _)

pub add_capped_nothing : (p : Player) (t : CappedValueType) → add_capped p t (pos 0) ≡ p
unfolding add_capped
add_capped_nothing p t = refl
