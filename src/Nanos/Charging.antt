-- ===== src/Nanos/Charging.antt =====
-- What nanoPotionHandler takes from the batteries and gives to a nano.
use open_fusion.Common.{
  ℕ, ◌≡◌, refl, ap, ◌∙◌, ◌≢◌, inl, inr, ◌||◌, Option, some, List, [], ◌∷◌, arith, if◌then◌else◌,
  Bool-cases, get_elem?,
}
use open_fusion.Common.Int.{ℤ, pos, negsuc, ◌+ℤ◌, ◌-ℤ◌, ◌≤ℤ◌, ltb_ℤ, eqb_ℤ, int_laws}
use open_fusion.Player.{battery_nano, capped_value}
use open_fusion.Player.Range.{IsCapped, subtract_spec, subtract_capped_lem}
use open_fusion.Protocol.Cipher.{◌>>=◌}
use open_fusion.Items.Places.{get_elem?-set_self, get_elem?-set_ne}
use open_fusion.Common.{if_true, if_false}
use open_fusion.Nanos.{
  Nano, NanoPlayer, NanoMessage, at_int, recharged, recharge, charge, nano_potion, charge_succ,
}

-- The stamina that the batteries allow, up to 150.
abbrev pub gain : ℤ → ℤ → ℤ
gain battery stamina = if ltb_ℤ battery (pos 150 -ℤ stamina) then battery else pos 150 -ℤ stamina

spent :
    (battery stamina : ℤ)
    → pos 0 ≤ℤ battery
    → stamina ≤ℤ pos 150
    → (subtract_spec battery (gain battery stamina) +ℤ (stamina +ℤ gain battery stamina)
        ≡ battery +ℤ stamina)
      × (stamina +ℤ gain battery stamina ≤ℤ pos 150)
      × (stamina ≤ℤ stamina +ℤ gain battery stamina)
unfolding ◌+ℤ◌ ◌-ℤ◌
spent battery stamina low high = (ground arith, ground arith, ground arith)

-- A player with other batteries and another stamina of the nano in place n.
abbrev pub Charged : NanoPlayer → ℕ → Nano → NanoPlayer → Type 0
Charged p n nano q =
    (later : Nano) × (get_elem? q.nanos n ≡ some later)
    × (q.plr.battery_n +ℤ later.stamina ≡ p.plr.battery_n +ℤ nano.stamina)
    × (later.stamina ≤ℤ pos 150)
    × (nano.stamina ≤ℤ later.stamina)
    × ((k : ℕ) → n ≢ k → get_elem? q.nanos k ≡ get_elem? p.nanos k)

unchanged :
    (p : NanoPlayer) (n : ℕ) (nano : Nano)
    → get_elem? p.nanos n ≡ some nano
    → nano.stamina ≤ℤ pos 150
    → Charged p n nano p
unchanged p n nano there high = (nano, there, refl, high, omega int_laws, λ k apart. refl)

recharge_run :
    (p : NanoPlayer) (n : ℕ) (nano : Nano) (d : ℤ)
    → get_elem? p.nanos n ≡ some nano
    → nano.id ≡ pos n
    → (msgs : List NanoMessage) × (recharge p nano.id nano.stamina d
        ≡ some (recharged p (pos n) d nano, msgs))
unfolding recharge at_int
recharge_run p n nano d there same = (
  charge_succ (pos n) (nano.stamina +ℤ d) (p.plr.battery_n -ℤ d) ∷ [],
  ap (λ (i : ℤ). recharge p i nano.stamina d) same
      ∙ ap
          (λ (o : Option Nano). o >>= λ target. some (
            recharged p (pos n) d target,
            charge_succ (pos n) (nano.stamina +ℤ d) (p.plr.battery_n -ℤ d) ∷ [],
          ))
          there,
)

charge-Charged :
    (p : NanoPlayer) (n : ℕ) (nano : Nano)
    → get_elem? p.nanos n ≡ some nano
    → nano.id ≡ pos n
    → IsCapped p.plr
    → nano.stamina ≤ℤ pos 150
    → (q : NanoPlayer) × (msgs : List NanoMessage) × (charge p nano ≡ some (q, msgs))
      × Charged p n nano q
unfolding charge at_int capped_value
charge-Charged p n nano there same c high =
    let d = gain p.plr.battery_n nano.stamina in
    elim (Bool-cases (eqb_ℤ d (pos 0))) [
      | inl none_ ↦ (p, [], if_true (eqb_ℤ d (pos 0)) _ _ none_, unchanged p n nano there high)
      | inr some_ ↦
          let (msgs, run) = recharge_run p n nano d there same in
          let (kept, below, above) = spent p.plr.battery_n nano.stamina (c battery_nano).0 high in
          let later : Nano = record nano { stamina = nano.stamina +ℤ d } in
          (
            recharged p (pos n) d nano,
            msgs,
            if_false (eqb_ℤ d (pos 0)) _ _ some_ ∙ run,
            (
              later,
              get_elem?-set_self p.nanos n nano later there,
              ap (λ (b : ℤ). b +ℤ later.stamina)
                    (subtract_capped_lem p.plr battery_nano battery_nano d c).0.0
                  ∙ kept,
              below,
              above,
              λ k apart. get_elem?-set_ne p.nanos n k later apart,
            ),
          )
    ]

-- nanoPotionHandler, for a player with values within their caps whose active nano is in place n,
-- has that number as its id, and has a stamina of at most 150: it answers, the batteries for nanos
-- and the stamina together stay the same, the stamina does not fall and is at most 150, and the
-- other nanos stay as they are.
pub nano_potion_conserves :
    (p : NanoPlayer) (n : ℕ) (nano : Nano)
    → p.active_nano ≡ pos n
    → get_elem? p.nanos n ≡ some nano
    → nano.id ≡ pos n
    → IsCapped p.plr
    → nano.stamina ≤ℤ pos 150
    → (q : NanoPlayer) × (msgs : List NanoMessage) × (nano_potion p ≡ some (q, msgs))
      × Charged p n nano q
unfolding nano_potion at_int
nano_potion_conserves p n nano active there same c high =
    let idle = eqb_ℤ p.active_nano (negsuc 0) || eqb_ℤ p.plr.battery_n (pos 0) in
    elim (Bool-cases idle) [
      | inl none_ ↦ (p, [], if_true idle _ _ none_, unchanged p n nano there high)
      | inr some_ ↦
          let (q, msgs, run, h) = charge-Charged p n nano there same c high in
          (
            q,
            msgs,
            if_false idle _ _ some_
                ∙ ap (λ (i : ℤ). at_int p.nanos i >>= charge p) active
                ∙ ap (λ (o : Option Nano). o >>= charge p) there
                ∙ run,
            h,
          )
    ]
