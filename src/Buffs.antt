-- ===== src/Buffs.antt =====
-- class Buff of Buffs.hpp and Buffs.cpp: the stacks of a buff, and the calls of its callbacks, which
-- are values. A callback sees the stacks as they are at its call. The stacks' values are `int`:
-- their sum wraps around, and the smallest `int`, whose `abs` is undefined, is taken as it is.
pub mod Ticks
pub mod Values
pub mod Classes
mod Tests
use open_fusion.Common.{
  ◌++◌, ℕ, suc, ◌+◌, ◌-◌, Bool, true, false, Option, none, some, List, [], ◌∷◌, ltb, ◌==◌,
  if◌then◌else◌, ◌||◌,
}
use open_fusion.Common.Int.{ℤ, pos, negsuc, ◌+ℤ◌, ◌-ℤ◌, ltb_ℤ, eqb_ℤ, wrap32}
use open_fusion.Entity.{EntityRef}

-- BuffClass
pub data BuffClass : Type 0 where
  no_class nano group_nano egg environment item cash_item : BuffClass

-- The ETBT number of a class.
abbrev pub class_number : BuffClass → ℕ
class_number no_class = 0
class_number nano = 1
class_number group_nano = 2
class_number egg = 3
class_number environment = 4
class_number item = 5
class_number cash_item = 6

abbrev pub same_class : BuffClass → BuffClass → Bool
same_class a b = class_number a == class_number b

-- BuffStack
pub record BuffStack : Type 0 where
  pub duration_ticks : ℤ
  pub value : ℤ
  pub source : EntityRef
  pub buff_stack_class : BuffClass

-- What a callback is called with: ETBU_ADD or ETBU_DEL, the stack, and the stacks of the buff; or
-- the time of a combat tick.
pub data BuffEvent : Type 0 where
  stack_added stack_deleted : BuffStack → List BuffStack → BuffEvent
  combat_ticked : ℕ → BuffEvent

-- Buff; of the two callbacks, whether they are there.
pub record Buff : Type 0 where
  pub id : ℤ
  pub self : EntityRef
  pub stacks : List BuffStack
  pub on_update : Bool
  pub on_combat_tick : Bool

-- A call of onUpdate, if it is there.
abbrev pub notify : Bool → BuffEvent → List BuffEvent
notify b event = if b then event ∷ [] else []

abbrev pub count_down : BuffStack → BuffStack
count_down s =
    if ltb_ℤ (pos 0) s.duration_ticks
    then record s { duration_ticks = s.duration_ticks -ℤ pos 1 }
    else s

-- The loop of tick, behind the stacks that it has kept.
unfoldable pub tick_stacks :
    Bool → List BuffStack → List BuffStack → List BuffStack × List BuffEvent
tick_stacks b kept [] = (kept, [])
tick_stacks b kept (s ∷ stacks) =
    let dead = tick_stacks b kept stacks in
    let alive = tick_stacks b (kept ++ count_down s ∷ []) stacks in
    if eqb_ℤ s.duration_ticks (pos 0)
    then (dead.0, notify b (stack_deleted s (kept ++ stacks)) ++ dead.1)
    else alive

-- Buff::tick
unfoldable pub tick : Buff → Buff × List BuffEvent
unfolding tick_stacks
tick buff =
    let after = tick_stacks buff.on_update [] buff.stacks in
    (record buff { stacks = after.0 }, after.1)

-- Buff::combatTick
abbrev pub combat_tick : Buff → ℕ → List BuffEvent
combat_tick buff now = if buff.on_combat_tick then combat_ticked now ∷ [] else []

-- The loop of clear, from the back: the callbacks of the stacks behind the first come first.
unfoldable pub pop_all : Bool → List BuffStack → List BuffStack → List BuffEvent
pop_all b front [] = []
pop_all b front (s ∷ stacks) =
    let behind = pop_all b (front ++ s ∷ []) stacks in behind ++ notify b (stack_deleted s front)

-- Buff::clear
unfoldable pub clear : Buff → Buff × List BuffEvent
unfolding pop_all
clear buff = (record buff { stacks = [] }, pop_all buff.on_update [] buff.stacks)

-- The loop of clear of a class, behind the stacks that it has kept.
unfoldable pub clear_stacks :
    Bool → BuffClass → List BuffStack → List BuffStack → List BuffStack × List BuffEvent
clear_stacks b c kept [] = (kept, [])
clear_stacks b c kept (s ∷ stacks) =
    let dead = clear_stacks b c kept stacks in
    let alive = clear_stacks b c (kept ++ s ∷ []) stacks in
    if same_class s.buff_stack_class c
    then (dead.0, notify b (stack_deleted s (kept ++ stacks)) ++ dead.1)
    else alive

-- Buff::clear of a class
unfoldable pub clear_class : Buff → BuffClass → Buff × List BuffEvent
unfolding clear_stacks
clear_class buff c =
    let after = clear_stacks buff.on_update c [] buff.stacks in
    (record buff { stacks = after.0 }, after.1)

-- Buff::addStack
unfoldable pub add_stack : Buff → BuffStack → Buff × List BuffEvent
add_stack buff s =
    let stacks = buff.stacks ++ s ∷ [] in
    (record buff { stacks = stacks }, notify buff.on_update (stack_added s stacks))

-- The constructor of Buff
unfoldable pub new_buff : ℤ → EntityRef → Bool → Bool → BuffStack → Buff × List BuffEvent
unfolding add_stack
new_buff id self on_update on_combat_tick s =
    add_stack
      (record {
        id = id;
        self = self;
        stacks = [];
        on_update = on_update;
        on_combat_tick = on_combat_tick;
      })
      s

-- Buff::hasClass
unfoldable pub has_class : List BuffStack → BuffClass → Bool
has_class [] c = false
has_class (s ∷ stacks) c = same_class s.buff_stack_class c || has_class stacks c

-- The loop of maxClass.
unfoldable pub max_class_from : BuffClass → List BuffStack → BuffClass
max_class_from c [] = c
max_class_from c (s ∷ stacks) =
    max_class_from
      (if ltb (class_number c) (class_number s.buff_stack_class) then s.buff_stack_class else c)
      stacks

-- Buff::maxClass
unfoldable pub max_class : List BuffStack → BuffClass
unfolding max_class_from
max_class stacks = max_class_from no_class stacks

-- BuffValueSelector
pub data BuffValueSelector : Type 0 where
  max_value min_value max_magnitude min_magnitude net_total : BuffValueSelector

abbrev pub magnitude : ℤ → ℤ
magnitude (pos n) = pos n
magnitude (negsuc n) = pos (suc n)

-- The value after a stack with the value v.
abbrev pub next_value : BuffValueSelector → ℤ → ℤ → ℤ
next_value net_total value v = wrap32 (value +ℤ v)
next_value min_value value v = if ltb_ℤ v value then v else value
next_value max_value value v = if ltb_ℤ value v then v else value
next_value min_magnitude value v = if ltb_ℤ (magnitude v) (magnitude value) then v else value
next_value max_magnitude value v = if ltb_ℤ (magnitude value) (magnitude v) then v else value

unfoldable pub value_from : BuffValueSelector → ℤ → List BuffStack → ℤ
value_from sel value [] = value
value_from sel value (s ∷ stacks) = value_from sel (next_value sel value s.value) stacks

abbrev pub first_value : BuffValueSelector → ℤ → ℤ
first_value net_total v = pos 0
first_value min_value v = v
first_value max_value v = v
first_value min_magnitude v = v
first_value max_magnitude v = v

-- Buff::getValue
unfoldable pub get_value : List BuffStack → BuffValueSelector → ℤ
unfolding value_from
get_value [] sel = pos 0
get_value (s ∷ stacks) sel = value_from sel (first_value sel s.value) (s ∷ stacks)

-- Buff::getLastSource
unfoldable pub last_source : EntityRef → List BuffStack → EntityRef
last_source self [] = self
last_source self (s ∷ stacks) = last_source s.source stacks

-- Buff::isStale
abbrev pub is_stale : List BuffStack → Bool
is_stale [] = true
is_stale (s ∷ stacks) = false

-- Buff::updateCallbacks
abbrev pub update_callbacks : Buff → Bool → Bool → Buff
update_callbacks buff on_update on_combat_tick = record buff {
  on_update = buff.on_update || on_update;
  on_combat_tick = buff.on_combat_tick || on_combat_tick;
}
