-- ===== src/Nanos/Summoning.antt =====
-- How a player gets any nano: tuned without a nano station, equipped and summoned.
use open_fusion.Common.{
  ℕ, ◌≤◌, ◌<◌, ◌≡◌, refl, ap, ◌∙◌, Bool, false, ◌&&◌, ◌||◌, some, List, [], ◌∷◌, arith, length,
  get_elem?, set,
}
use open_fusion.Common.Int.{ℤ, pos, negsuc, ltb_ℤ, leb_ℤ, eqb_ℤ}
use open_fusion.Items.Places.{get_elem?-set_self}
use open_fusion.Common.{replicate}
use open_fusion.Nanos.{Nano, NanoPlayer, NanoMessage, at_int}
use open_fusion.Items.Kitted.{some_elem}
use open_fusion.Nanos.{
  Skills, summoned, nano_count, nano_in, summon_nano, unsummon_if, nano_equip, nano_summon,
  TuneRequest, Tuning, set_nano_skill, tune_succ, equip_succ,
}

-- A request to tune a nano that names no slots of the inventory.
abbrev pub free_tuning : ℕ → ℤ → TuneRequest
free_tuning n skill = record {
  nano_id = pos n;
  tune_id = skill;
  need_item_slot_num = replicate 10 (negsuc 0);
}

module _ (is_passive : ℤ → Bool) (tuning : Tuning) (p : NanoPlayer) (n : ℕ) (old : Nano) (skill : ℤ)
    (idle : p.active_nano ≡ pos 0) (low : 1 ≤ n) (high : n < 37)
    (there : get_elem? p.nanos n ≡ some old) where
  abbrev tuned : Nano
  tuned = record old { skill_id = skill }

  abbrev p_tuned : NanoPlayer
  p_tuned = record p { nanos = set p.nanos n tuned }

  abbrev p_equipped : NanoPlayer
  p_equipped = record p_tuned { equipped_nanos = set p.equipped_nanos 0 (pos n) }

  tunes :
      set_nano_skill is_passive tuning p (free_tuning n skill)
      ≡ some (p_tuned, tune_succ (pos n) skill p.plr.fusionmatter [] ∷ [])
  unfolding set_nano_skill unsummon_if at_int
  tunes =
      let range : (leb_ℤ nano_count (pos n) || ltb_ℤ (pos n) (pos 0)) ≡ false = ground arith in
      let other : (ltb_ℤ (pos 0) p.active_nano && eqb_ℤ p.active_nano (pos n)) ≡ false =
        ap (λ (a : ℤ). ltb_ℤ (pos 0) a && eqb_ℤ a (pos n)) idle in
      simp (range, other, there) refl

  equips :
      nano_equip is_passive p_tuned (pos n) (pos 0)
      ≡ some (p_equipped, equip_succ (pos n) (pos 0) ∷ [])
  unfolding nano_equip unsummon_if
  equips =
      let range : (ltb_ℤ (pos 2) (pos 0)
            || ltb_ℤ (pos 0) (pos 0)
            || ltb_ℤ (pos n) (pos 0)
            || leb_ℤ nano_count (pos n))
          ≡ false =
        ground arith in
      let apart : eqb_ℤ (pos 0) (pos n) ≡ false = ground arith in
      let other : eqb_ℤ p.active_nano (pos n) ≡ false =
        ap (λ (a : ℤ). eqb_ℤ a (pos n)) idle ∙ apart in
      simp (range, other) refl

  summons :
      length p.equipped_nanos ≡ 3
      → eqb_ℤ skill (pos 0) ≡ false
      → (msgs : List NanoMessage) × (nano_summon is_passive p_equipped (pos 0)
          ≡ some (record p_equipped { active_nano = pos n }, msgs))
  unfolding summon_nano nano_in at_int
  summons size powered =
      let (first, e) = some_elem p.equipped_nanos 0 (omega (arith, size)) in
      (
        (summoned is_passive p_equipped (pos 0) false (pos n) tuned).1,
        simp
            (
              get_elem?-set_self p.equipped_nanos 0 first (pos n) e,
              get_elem?-set_self p.nanos n old tuned there,
              powered,
            )
            refl,
      )

-- A player with no active nano tunes a nano of a number from 1 to 36 with a skill other than 0, in a
-- request that names no slots of the inventory, equips it and summons it. Whatever the place of the
-- nano held, also if it was never acquired, and whatever the tuning costs: it is active with that
-- skill, and nothing but the nanos of the player has changed.
pub set_nano_skill_summons :
    (is_passive : Skills) (tuning : Tuning) (p : NanoPlayer) (n : ℕ) (old : Nano) (skill : ℤ)
    → p.active_nano ≡ pos 0
    → 1 ≤ n
    → n < 37
    → get_elem? p.nanos n ≡ some old
    → length p.equipped_nanos ≡ 3
    → eqb_ℤ skill (pos 0) ≡ false
    → (p1 : NanoPlayer) × (p2 : NanoPlayer) × (q : NanoPlayer) × (m1 : List NanoMessage)
      × (m2 : List NanoMessage) × (m3 : List NanoMessage) × (set_nano_skill is_passive tuning p
            (free_tuning n skill)
          ≡ some (p1, m1))
      × (nano_equip is_passive p1 (pos n) (pos 0) ≡ some (p2, m2))
      × (nano_summon is_passive p2 (pos 0) ≡ some (q, m3))
      × (q.active_nano ≡ pos n)
      × (get_elem? q.nanos n ≡ some (record old { skill_id = skill }))
      × (q.plr ≡ p.plr)
set_nano_skill_summons is_passive tuning p n old skill idle low high there size powered =
    let (m3, run) = summons is_passive tuning p n old skill idle low high there size powered in
    (
      p_tuned is_passive tuning p n old skill idle low high there,
      p_equipped is_passive tuning p n old skill idle low high there,
      _,
      _,
      _,
      m3,
      tunes is_passive tuning p n old skill idle low high there,
      equips is_passive tuning p n old skill idle low high there,
      run,
      refl,
      get_elem?-set_self p.nanos n old (record old { skill_id = skill }) there,
      refl,
    )
