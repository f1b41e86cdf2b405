-- ===== src/Nanos.antt =====
-- Nanos.cpp: the nanos of a player, their summoning, tuning and charging. The table of skills, the
-- growth table and the table of tunings, which are loaded from files, are arguments; what a skill does
-- and the warps of a recall are left out, as is the item of slot 0 in the answer to a tuning. An `int` is an integer; `none` of a handler is an access
-- outside an array.
pub mod Charging
pub mod Consumption
pub mod Summoning
mod Tests
use open_fusion.Common.{
  ◌++◌, ℕ, Bool, true, false, ◌&&◌, ◌||◌, not, Option, none, some, List, [], ◌∷◌, map, ◌==◌,
  if◌then◌else◌, get_elem?, set,
}
use open_fusion.Common.Int.{ℤ, pos, negsuc, ◌+ℤ◌, ◌-ℤ◌, ltb_ℤ, leb_ℤ, eqb_ℤ, pos_part}
use open_fusion.Player.{Item, Player, subtract_capped, fusion_matter, battery_nano}
use open_fusion.Protocol.Cipher.{◌>>=◌}

-- sNano
pub record Nano : Type 0 where
  pub id : ℤ
  pub skill_id : ℤ
  pub stamina : ℤ

-- The fields of struct Player for nanos, with the others.
pub record NanoPlayer : Type 0 where
  pub plr : Player
  pub nanos : List Nano
  pub equipped_nanos : List ℤ
  pub active_nano : ℤ

-- What the handlers send, and the call of useNanoSkill for a passive skill.
pub data NanoMessage : Type 0 where
  use_passive : Nano → NanoMessage
  active_succ : ℤ → Bool → NanoMessage
  nano_active : ℤ → Nano → NanoMessage
  tune_succ : ℤ → ℤ → ℤ → List (ℤ × Item) → NanoMessage
  equip_succ : ℤ → ℤ → NanoMessage
  unequip_succ : ℤ → NanoMessage
  charge_succ : ℤ → ℤ → ℤ → NanoMessage
  create_succ : Nano → ℤ → ℤ → ℤ → NanoMessage
  change_level : ℤ → ℤ → NanoMessage

abbrev pub NanoAnswer : Type 0
NanoAnswer = NanoPlayer × List NanoMessage

abbrev pub nano_count : ℤ
nano_count = pos 37

-- An array at an `int`.
unfoldable pub at_int {ℓ} : {A : Type ℓ} → List A → ℤ → Option A
at_int xs (pos n) = get_elem? xs n
at_int xs (negsuc n) = none

abbrev pub unsummon_slot : ℤ
unsummon_slot = negsuc 0

unfoldable pub nano_in : NanoPlayer → ℤ → Option ℤ
unfolding at_int
nano_in p slot = if eqb_ℤ slot unsummon_slot then some (pos 0) else at_int p.equipped_nanos slot

-- Whether a skill is passive.
abbrev pub Skills : Type 0
Skills = ℤ → Bool

abbrev pub summoned : Skills → NanoPlayer → ℤ → Bool → ℤ → Nano → NanoAnswer
summoned is_passive p slot silent nano_id nano =
    let passive = not (eqb_ℤ slot unsummon_slot) && is_passive nano.skill_id in
    (
      record p { active_nano = nano_id },
      (if passive then use_passive nano ∷ [] else [])
          ++ (if silent then [] else active_succ slot passive ∷ [])
          ++ nano_active p.plr.id nano ∷ [],
    )

-- summonNano
unfoldable pub summon_nano : Skills → NanoPlayer → ℤ → Bool → Option NanoAnswer
unfolding nano_in at_int
summon_nano is_passive p slot silent =
    if ltb_ℤ (pos 2) slot || ltb_ℤ slot (negsuc 0)
    then some (p, [])
    else (nano_in p slot >>= λ nano_id. at_int p.nanos nano_id >>= λ nano.
        if not (eqb_ℤ slot unsummon_slot) && eqb_ℤ nano.skill_id (pos 0)
        then some (p, [])
        else some (summoned is_passive p slot silent nano_id nano))

-- "just unsummon the nano to prevent infinite buffs"
unfoldable pub unsummon_if : Skills → NanoPlayer → Bool → Option NanoAnswer
unfolding summon_nano
unsummon_if is_passive p b =
    if b then summon_nano is_passive p unsummon_slot false else some (p, [])

-- addNano, with the fusion matter that a nano costs at a level.
pub add_nano : Skills → (ℤ → ℤ) → NanoPlayer → ℤ → ℤ → Bool → Option NanoAnswer
unfolding unsummon_if
add_nano is_passive growth p nano_id slot spendfm =
    if leb_ℤ nano_id (pos 0) || leb_ℤ nano_count nano_id
    then some (p, [])
    else (let level = if ltb_ℤ nano_id p.plr.level then p.plr.level else nano_id in
        let grown : Player = record p.plr { level = level } in
        let paid =
          if spendfm
          then subtract_capped grown fusion_matter (growth (level -ℤ pos 1))
          else grown in
        let nano : Nano = record { id = nano_id; skill_id = pos 0; stamina = pos 150 } in
        unsummon_if is_passive (record p { plr = paid })
          (ltb_ℤ (pos 0) p.active_nano && eqb_ℤ p.active_nano nano_id)
        >>= λ answer. some (
          record answer.0 { nanos = set answer.0.nanos (pos_part nano_id) nano },
          answer.1
              ++ create_succ nano slot level paid.fusionmatter ∷ change_level paid.id level ∷ [],
        ))

-- nanoEquipHandler
unfoldable pub nano_equip : Skills → NanoPlayer → ℤ → ℤ → Option NanoAnswer
unfolding unsummon_if
nano_equip is_passive p nano_id slot =
    if ltb_ℤ (pos 2) slot || ltb_ℤ slot (pos 0) || ltb_ℤ nano_id (pos 0) || leb_ℤ nano_count nano_id
    then some (p, [])
    else (unsummon_if is_passive
          (record p { equipped_nanos = set p.equipped_nanos (pos_part slot) nano_id })
          (eqb_ℤ p.active_nano nano_id)
        >>= λ answer. some (answer.0, answer.1 ++ equip_succ nano_id slot ∷ []))

-- nanoUnEquipHandler
pub nano_un_equip : Skills → NanoPlayer → ℤ → Option NanoAnswer
unfolding at_int unsummon_if
nano_un_equip is_passive p slot =
    if ltb_ℤ (pos 2) slot || ltb_ℤ slot (pos 0)
    then some (p, [])
    else (at_int p.equipped_nanos slot >>= λ equipped.
        unsummon_if is_passive p (eqb_ℤ equipped p.active_nano) >>= λ answer. some (
          record answer.0 { equipped_nanos = set answer.0.equipped_nanos (pos_part slot) (pos 0) },
          answer.1 ++ unequip_succ slot ∷ [],
        ))

-- nanoSummonHandler
abbrev pub nano_summon : Skills → NanoPlayer → ℤ → Option NanoAnswer
nano_summon is_passive p slot = summon_nano is_passive p slot false

-- A nano, its stamina and the batteries after so much is moved.
abbrev pub recharged : NanoPlayer → ℤ → ℤ → Nano → NanoPlayer
recharged p id difference target = record p {
  plr = subtract_capped p.plr battery_nano difference;
  nanos = set p.nanos (pos_part id) (record target { stamina = target.stamina +ℤ difference });
}

-- "now update serverside"
unfoldable pub recharge : NanoPlayer → ℤ → ℤ → ℤ → Option NanoAnswer
recharge p id stamina difference = at_int p.nanos id >>= λ target. some (
  recharged p id difference target,
  charge_succ id (stamina +ℤ difference) (p.plr.battery_n -ℤ difference) ∷ [],
)

-- nanoPotionHandler, for the active nano.
unfoldable pub charge : NanoPlayer → Nano → Option NanoAnswer
unfolding recharge
charge p nano =
    let missing = pos 150 -ℤ nano.stamina in
    let difference = if ltb_ℤ p.plr.battery_n missing then p.plr.battery_n else missing in
    if eqb_ℤ difference (pos 0) then some (p, []) else recharge p nano.id nano.stamina difference

-- nanoPotionHandler
unfoldable pub nano_potion : NanoPlayer → Option NanoAnswer
unfolding at_int charge
nano_potion p =
    if eqb_ℤ p.active_nano (negsuc 0) || eqb_ℤ p.plr.battery_n (pos 0)
    then some (p, [])
    else (at_int p.nanos p.active_nano >>= charge p)

-- sP_CL2FE_REQ_NANO_TUNE
pub record TuneRequest : Type 0 where
  pub nano_id : ℤ
  pub tune_id : ℤ
  pub need_item_slot_num : List ℤ

-- An item without its kind and number.
abbrev pub used_up : Item → Item
used_up item = record item { id = 0; type = 0; opt = pos 0 }

-- The loop that consumes items: the inventory, and how many are still required.
unfoldable pub consume : ℕ → List Item → List ℤ → ℤ → Option (List Item × ℤ)
unfolding at_int
consume req_id inven [] count = some (inven, count)
consume req_id inven (slot ∷ slots) count =
    if leb_ℤ count (pos 0)
    then some (inven, count)
    else (at_int inven slot >>= λ item.
        if item.type == 7 && item.id == req_id
        then (if ltb_ℤ count item.opt
            then consume req_id
                (set inven (pos_part slot) (record item { opt = item.opt -ℤ count })) slots (pos 0)
            else consume req_id (set inven (pos_part slot) (used_up item)) slots
                (count -ℤ item.opt))
        else consume req_id inven slots count)

-- Whether a slot number is out of the range of the inventory.
abbrev pub is_garbage : List ℤ → Bool
is_garbage [] = false
is_garbage (n ∷ ns) = ltb_ℤ n (pos 0) || leb_ℤ (pos 50) n || is_garbage ns

-- NanoTuning, and the fusion matter that a tuning costs at a level.
pub record Tuning : Type 0 where
  pub req_item_count : ℤ
  pub req_items : ℕ
  pub cost : ℤ → ℤ

-- What the client is told of the slots; a slot with the number 0 is left out.
abbrev pub told : List Item → List ℤ → List (ℤ × Item)
told inven [] = []
told inven (n ∷ ns) = elim (at_int inven n) [
  | none ↦ told inven ns
  | some item ↦ if eqb_ℤ n (pos 0) then told inven ns else (n, item) ∷ told inven ns
]

-- The payment of a tuning.
unfoldable pub pay_tuning : Tuning → NanoPlayer → TuneRequest → Option NanoAnswer
unfolding consume
pay_tuning tuning p req =
    if ltb_ℤ p.plr.fusionmatter (tuning.cost p.plr.level)
    then some (p, [])
    else (let paid = subtract_capped p.plr fusion_matter (tuning.cost p.plr.level) in
        consume tuning.req_items paid.inven req.need_item_slot_num tuning.req_item_count >>= λ used.
        some (
          record p { plr = record paid { inven = used.0 } },
          tune_succ req.nano_id req.tune_id paid.fusionmatter (told used.0 req.need_item_slot_num)
              ∷ [],
        ))

-- setNanoSkill, with the tuning of the skill.
unfoldable pub set_nano_skill : Skills → Tuning → NanoPlayer → TuneRequest → Option NanoAnswer
unfolding unsummon_if pay_tuning at_int
set_nano_skill is_passive tuning p req =
    if leb_ℤ nano_count req.nano_id || ltb_ℤ req.nano_id (pos 0)
    then some (p, [])
    else (unsummon_if is_passive p (ltb_ℤ (pos 0) p.active_nano && eqb_ℤ p.active_nano req.nano_id)
        >>= λ answer. at_int answer.0.nanos req.nano_id >>= λ nano.
            let tuned : NanoPlayer = record answer.0 {
              nanos =
                  set answer.0.nanos (pos_part req.nano_id)
                    (record nano { skill_id = req.tune_id });
            } in
            if is_garbage req.need_item_slot_num
            then some
                (tuned, answer.1 ++ tune_succ req.nano_id req.tune_id p.plr.fusionmatter [] ∷ [])
            else (pay_tuning tuning tuned req >>= λ paid. some (paid.0, answer.1 ++ paid.1)))
