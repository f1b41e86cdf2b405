-- ===== src/Nanos/Tests.antt =====
-- Runs of the handlers of nanos.
use open_fusion.Common.{
  List, All, [], ◌∷◌, ◌≡◌, refl, ◌⊎◌, true, false, some, List, [], ◌∷◌, arith, length, get_elem?,
  set,
}
use open_fusion.Common.Int.{ℤ, pos, ◌+ℤ◌, ◌-ℤ◌, ◌≤ℤ◌, ltb_ℤ}
use open_fusion.Player.{
  new_player, subtract_capped, taros, battery_weapon, battery_nano, capped_value, get_cap,
}
use open_fusion.Player.Range.{IsCapped, subtract_spec}
use open_fusion.Trading.Exchange.Units.{units}
use open_fusion.Common.{replicate}
use open_fusion.Nanos.{
  told, tune_succ, Nano, NanoPlayer, NanoMessage, at_int, recharge, charge, nano_potion,
}
use open_fusion.Player.{fusion_matter}
use open_fusion.Nanos.{
  unsummon_if, nano_equip, nano_summon, TuneRequest, Tuning, pay_tuning, set_nano_skill,
}
use open_fusion.Player.{fusion_matter, taros_in_trade, lowered, store_value}
use open_fusion.Nanos.Charging.{Charged, nano_potion_conserves}
use open_fusion.Nanos.Consumption.{IsSpent, pay_tuning_lem}
use open_fusion.Nanos.Summoning.{free_tuning, set_nano_skill_summons}

abbrev no_nano : Nano
no_nano = record { id = pos 0; skill_id = pos 0; stamina = pos 0 }

abbrev tired_nano : Nano
tired_nano = record { id = pos 5; skill_id = pos 1; stamina = pos 100 }

abbrev trainer : NanoPlayer
trainer = record {
  plr = record new_player {
    fusionmatter = pos 70;
    battery_n = pos 40;
    inven = set new_player.inven 2 (record { type = 7; id = 9; opt = pos 3; time_limit = 0 });
  };
  nanos = set (replicate 37 no_nano) 5 tired_nano;
  equipped_nanos = pos 5 ∷ pos 0 ∷ pos 0 ∷ [];
  active_nano = pos 5;
}

trainer-IsCapped : IsCapped trainer.plr
unfolding capped_value get_cap
trainer-IsCapped taros = (omega arith, omega arith)
trainer-IsCapped fusion_matter = (omega arith, omega arith)
trainer-IsCapped battery_weapon = (omega arith, omega arith)
trainer-IsCapped battery_nano = (omega arith, omega arith)
trainer-IsCapped taros_in_trade = (omega arith, omega arith)

nano_potion_conserves_example :
    (q : NanoPlayer) × (msgs : List NanoMessage) × (nano_potion trainer ≡ some (q, msgs))
    × Charged trainer 5 tired_nano q
nano_potion_conserves_example =
    nano_potion_conserves trainer 5 tired_nano refl refl refl trainer-IsCapped (omega arith)

-- With no nano active the batteries charge the empty place 0.
wasted_batteries :
    (q : NanoPlayer) × (msgs : List NanoMessage) × (nano_potion
        (record trainer { active_nano = pos 0 })
      ≡ some (q, msgs))
    × (q.plr.battery_n ≡ pos 0)
    × (get_elem? q.nanos 0 ≡ some (record no_nano { stamina = pos 40 }))
unfolding nano_potion at_int charge recharge ◌-ℤ◌ ◌+ℤ◌ subtract_capped lowered capped_value
    store_value get_cap
wasted_batteries = (_, _, refl, refl, refl)

-- Five of the item are required, and 50 fusion matter.
abbrev costly : Tuning
costly = record { req_item_count = pos 5; req_items = 9; cost = λ level. pos 50 }

abbrev paying : TuneRequest
paying = record { nano_id = pos 5; tune_id = pos 2; need_item_slot_num = replicate 10 (pos 2) }

pay_tuning_lem_example :
    (q : NanoPlayer) × (msgs : List NanoMessage) × (pay_tuning costly trainer paying
      ≡ some (q, msgs))
    × ((ltb_ℤ (pos 70) (pos 50) ≡ true) × (q ≡ trainer) × (msgs ≡ [])
        ⊎ ((left : ℤ) × (ltb_ℤ (pos 70) (pos 50) ≡ false)
            × (q.plr.fusionmatter ≡ subtract_spec (pos 70) (pos 50))
            × (msgs
                ≡ tune_succ
                    (pos 5)
                    (pos 2)
                    q.plr.fusionmatter
                    (told q.plr.inven (replicate 10 (pos 2)))
                  ∷ [])
            × (units 7 9 q.plr.inven +ℤ pos 5 ≡ units 7 9 trainer.plr.inven +ℤ left)
            × (length q.plr.inven ≡ 50)
            × (pos 0 ≤ℤ left)
            × ((left ≡ pos 0) ⊎ All (IsSpent 9 q.plr.inven) (replicate 10 (pos 2)))))
pay_tuning_lem_example =
    pay_tuning_lem costly trainer paying trainer-IsCapped refl refl (omega arith)

set_nano_skill_summons_example :
    (p1 : NanoPlayer) × (p2 : NanoPlayer) × (q : NanoPlayer) × (m1 : List NanoMessage) × (m2 : List
      NanoMessage)
    × (m3 : List NanoMessage) × (set_nano_skill
          (λ skill. false)
          costly
          (record trainer { active_nano = pos 0 })
          (free_tuning 30 (pos 2))
        ≡ some (p1, m1))
    × (nano_equip (λ skill. false) p1 (pos 30) (pos 0) ≡ some (p2, m2))
    × (nano_summon (λ skill. false) p2 (pos 0) ≡ some (q, m3))
    × (q.active_nano ≡ pos 30)
    × (get_elem? q.nanos 30 ≡ some (record no_nano { skill_id = pos 2 }))
    × (q.plr ≡ trainer.plr)
set_nano_skill_summons_example =
    set_nano_skill_summons (λ skill. false) costly (record trainer { active_nano = pos 0 }) 30
      no_nano (pos 2) refl (omega arith) (omega arith) refl refl refl

-- The active nano is replaced, and stays active.
stale_nano :
    (q : NanoPlayer) × (msgs : List NanoMessage) × (nano_equip
        (λ skill. false)
        trainer
        (pos 6)
        (pos 0)
      ≡ some (q, msgs))
    × (q.active_nano ≡ pos 5)
    × (q.equipped_nanos ≡ pos 6 ∷ pos 0 ∷ pos 0 ∷ [])
unfolding nano_equip unsummon_if
stale_nano = (_, _, refl, refl, refl)
