-- ===== src/Vendors/Battery.antt =====
-- What vendorBuyBattery gives and takes.
use open_fusion.Common.{
  ℕ, ◌≡◌, refl, sym, ap, ap₂, subst, ◌∙◌, ◌≢◌, inl, inr, Bool, true, false, ◌&&◌, ◌||◌, arith, ◌==◌,
  if◌then◌else◌, Bool-cases,
}
use open_fusion.Common.Int.{
  ℤ, pos, ◌+ℤ◌, ◌-ℤ◌, ◌*ℤ◌, ◌≤ℤ◌, ltb_ℤ, leb_ℤ, wrap32, int_laws, parts_of_eq,
}
use open_fusion.Player.{
  Player, add_capped, subtract_capped, taros, battery_weapon, battery_nano, capped_value, get_cap,
  CappedValueType,
}
use open_fusion.Player.Range.{
  IsCapped, add_spec, subtract_spec, Changes, add_capped_lem, subtract_capped_lem,
  operations-IsCapped,
}
use open_fusion.Vendors.{battery_max, vendor_buy_battery}

-- The taros and batteries of a player, one taro to a battery.
abbrev pub funds : Player → ℤ
funds p = p.money +ℤ (p.battery_w +ℤ p.battery_n)

-- The three values that the handler changes.
abbrev Trio : Player → ℤ → ℤ → ℤ → Type 0
Trio p money w n = (p.money ≡ money) × (p.battery_w ≡ w) × (p.battery_n ≡ n)

-- A value that an operation does not name stays.
kept :
    (p q : Player) (t : CappedValueType) (v : ℤ) (u : CappedValueType)
    → Changes p t v q u
    → u ≢ t
    → capped_value q u ≡ capped_value p u
kept p q t v u (a, inl e) h = absurd (h e)
kept p q t v u (a, inr e) h = e

add_weapon_batteries :
    (p : Player) (d : ℤ)
    → IsCapped p
    → Trio (add_capped p battery_weapon d) p.money (add_spec battery_max p.battery_w d) p.battery_n
unfolding capped_value get_cap
add_weapon_batteries p d c =
    let step = λ (u : CappedValueType). (add_capped_lem p battery_weapon u d c).0 in
    (
      kept p (add_capped p battery_weapon d) battery_weapon _ taros (step taros)
          (λ e. ground arith),
      (step battery_weapon).0,
      kept p (add_capped p battery_weapon d) battery_weapon _ battery_nano (step battery_nano)
          (λ e. ground arith),
    )

add_nano_batteries :
    (p : Player) (d : ℤ)
    → IsCapped p
    → Trio (add_capped p battery_nano d) p.money p.battery_w (add_spec battery_max p.battery_n d)
unfolding capped_value get_cap
add_nano_batteries p d c =
    let step = λ (u : CappedValueType). (add_capped_lem p battery_nano u d c).0 in
    (
      kept p (add_capped p battery_nano d) battery_nano _ taros (step taros) (λ e. ground arith),
      kept p (add_capped p battery_nano d) battery_nano _ battery_weapon (step battery_weapon)
          (λ e. ground arith),
      (step battery_nano).0,
    )

take_taros :
    (p : Player) (d : ℤ)
    → IsCapped p
    → Trio (subtract_capped p taros d) (subtract_spec p.money d) p.battery_w p.battery_n
unfolding capped_value
take_taros p d c =
    let step = λ (u : CappedValueType). (subtract_capped_lem p taros u d c).0 in
    (
      (step taros).0,
      kept p (subtract_capped p taros d) taros _ battery_weapon (step battery_weapon)
          (λ e. ground arith),
      kept p (subtract_capped p taros d) taros _ battery_nano (step battery_nano)
          (λ e. ground arith),
    )

-- What a growth by at most a sum does to one value.
add_up :
    (money cap v d : ℤ)
    → pos 0 ≤ℤ money
    → d ≤ℤ money
    → v ≤ℤ cap
    → (v ≤ℤ add_spec cap v d) × (add_spec cap v d ≤ℤ money +ℤ v)
unfolding ◌+ℤ◌ ◌-ℤ◌
add_up money cap v d m h b = ground arith

add_nothing : (cap v : ℤ) → add_spec cap v (pos 0) ≡ v
add_nothing cap v = refl

-- Only one of the two values grows, and by no more than the cost.
growth :
    (a b : Bool) (money cost w n : ℤ)
    → a && b ≡ false
    → pos 0 ≤ℤ money
    → cost ≤ℤ money
    → w ≤ℤ battery_max
    → n ≤ℤ battery_max
    → (w ≤ℤ add_spec battery_max w (if a then cost else pos 0))
      × (n ≤ℤ add_spec battery_max n (if b then cost else pos 0))
      × (add_spec battery_max w (if a then cost else pos 0)
            +ℤ add_spec battery_max n (if b then cost else pos 0)
          ≤ℤ money +ℤ (w +ℤ n))
growth true true money cost w n one m c h g = absurd (ground arith)
growth true false money cost w n one m c h g =
    let (low, high) = add_up money battery_max w cost m c h in
    (low, omega arith, omega (int_laws, high))
growth false true money cost w n one m c h g =
    let (low, high) = add_up money battery_max n cost m c g in
    (omega arith, low, omega (int_laws, high))
growth false false money cost w n one m c h g = (omega arith, omega arith, omega (int_laws, m))

take_within : (money d : ℤ) → pos 0 ≤ℤ d → d ≤ℤ money → subtract_spec money d +ℤ d ≡ money
unfolding ◌+ℤ◌ ◌-ℤ◌
take_within money d h g = ground arith

balance :
    (money w n m2 w2 n2 m3 w3 n3 : ℤ)
    → w ≤ℤ w2
    → n ≤ℤ n2
    → w2 +ℤ n2 ≤ℤ money +ℤ (w +ℤ n)
    → m2 ≡ money
    → m3 ≡ subtract_spec m2 (w2 +ℤ n2 -ℤ (w +ℤ n))
    → w3 ≡ w2
    → n3 ≡ n2
    → m3 +ℤ (w3 +ℤ n3) ≡ money +ℤ (w +ℤ n)
balance money w n m2 w2 n2 m3 w3 n3 a b c e2 e3 f g =
    let within =
      take_within m2 (w2 +ℤ n2 -ℤ (w +ℤ n)) (omega (int_laws, a, b))
        (omega (int_laws, c, parts_of_eq e2)) in
    omega
      (int_laws, parts_of_eq within, parts_of_eq e2, parts_of_eq e3, parts_of_eq f, parts_of_eq g)

-- The successful branch.
abbrev bought_batteries : Player → ℕ → ℤ → Player
bought_batteries p id cost =
    let p1 = add_capped p battery_weapon (if id == 3 then cost else pos 0) in
    let p2 = add_capped p1 battery_nano (if id == 4 then cost else pos 0) in
    subtract_capped p2 taros (p2.battery_w +ℤ p2.battery_n -ℤ (p.battery_w +ℤ p.battery_n))

bought_batteries-IsCapped :
    (p : Player) (id : ℕ) (cost : ℤ) → IsCapped p → IsCapped (bought_batteries p id cost)
bought_batteries-IsCapped p id cost c =
    let c1 = (operations-IsCapped p battery_weapon (if id == 3 then cost else pos 0) c).0 in
    let c2 = (operations-IsCapped _ battery_nano (if id == 4 then cost else pos 0) c1).0 in
    (operations-IsCapped _ taros _ c2).1

bought_batteries_worth :
    (p : Player) (id : ℕ) (cost : ℤ)
    → IsCapped p
    → cost ≤ℤ p.money
    → funds (bought_batteries p id cost) ≡ funds p
unfolding capped_value get_cap
bought_batteries_worth p id cost c h =
    let d1 = if id == 3 then cost else pos 0 in
    let d2 = if id == 4 then cost else pos 0 in
    let p1 = add_capped p battery_weapon d1 in
    let c1 = (operations-IsCapped p battery_weapon d1 c).0 in
    let p2 = add_capped p1 battery_nano d2 in
    let c2 = (operations-IsCapped p1 battery_nano d2 c1).0 in
    let (m1, w1, n1) = add_weapon_batteries p d1 c in
    let (m2, w2, n2) = add_nano_batteries p1 d2 c1 in
    let (m3, w3, n3) =
      take_taros p2 (p2.battery_w +ℤ p2.battery_n -ℤ (p.battery_w +ℤ p.battery_n)) c2 in
    let (gw, gn, g) =
      growth (id == 3) (id == 4) p.money cost p.battery_w p.battery_n (one_kind id) (c taros).0 h
        (c battery_weapon).1 (c battery_nano).1 in
    let w12 = w2 ∙ w1 in
    let n12 = n2 ∙ ap (λ (v : ℤ). add_spec battery_max v d2) n1 in
    balance p.money p.battery_w p.battery_n p2.money p2.battery_w p2.battery_n _ _ _
      (subst (λ (v : ℤ). p.battery_w ≤ℤ v) (sym w12) gw)
      (subst (λ (v : ℤ). p.battery_n ≤ℤ v) (sym n12) gn)
      (subst (λ (v : ℤ). v ≤ℤ funds p) (sym (ap₂ (λ (x y : ℤ). x +ℤ y) w12 n12)) g) (m2 ∙ m1) m3 w3
      n3
  where
    one_kind : (id : ℕ) → id == 3 && id == 4 ≡ false
    one_kind id = ground arith

-- vendorBuyBattery, for a player with values within their caps and any request: the taros and the
-- batteries of the two kinds come to the same sum as before, also where a cap cuts the purchase off
-- or the cost wraps around, and the values stay within their caps.
pub vendor_buy_battery_conserves :
    (p : Player) (id : ℕ) (opt : ℤ)
    → IsCapped p
    → (funds (vendor_buy_battery p id opt).0 ≡ funds p) × IsCapped (vendor_buy_battery p id opt).0
unfolding vendor_buy_battery
vendor_buy_battery_conserves p id opt c =
    let cost = wrap32 (opt *ℤ pos 100) in
    let full : Bool =
      if id == 3 then leb_ℤ battery_max p.battery_w else leb_ℤ battery_max p.battery_n in
    elim (Bool-cases (full || ltb_ℤ p.money cost || ltb_ℤ opt (pos 0))) [
      | inl e ↦ rw e (refl, c)
      | inr e ↦ rw e (
        bought_batteries_worth p id cost c (cheap full (ltb_ℤ opt (pos 0)) p.money cost e),
        bought_batteries-IsCapped p id cost c,
      )
    ]
  where
    cheap : (a b : Bool) (money cost : ℤ) → a || ltb_ℤ money cost || b ≡ false → cost ≤ℤ money
    cheap a b money cost h = ground arith
