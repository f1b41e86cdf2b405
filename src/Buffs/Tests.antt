-- ===== src/Buffs/Tests.antt =====
-- A buff with three stacks.
use open_fusion.Common.{◌≡◌, refl, true, false, List, [], ◌∷◌, arith, if◌then◌else◌}
use open_fusion.Common.Int.{ℤ, pos, negsuc, ◌-ℤ◌}
use open_fusion.Entity.{EntityRef}
use open_fusion.Entity.{player}
use open_fusion.Buffs.{
  BuffStack, Buff, BuffClass, nano, egg, same_class, stack_deleted, tick, tick_stacks, clear_class,
  has_class, get_value, max_class, max_class_from, max_value, max_magnitude, value_from,
}
use open_fusion.Buffs.Ticks.{ticks, remaining, ticks-remaining}
use open_fusion.Buffs.Values.{IsValueOf, IsUnbeaten, get_value_lem}
use open_fusion.Buffs.Classes.{clear_class_lem}

abbrev me : EntityRef
me = record { kind = player; key = 1 }

abbrev stack_of : ℤ → ℤ → BuffClass → BuffStack
stack_of ticks_left value c = record {
  duration_ticks = ticks_left;
  value = value;
  source = me;
  buff_stack_class = c;
}

abbrev three : List BuffStack
three =
    stack_of (pos 0) (negsuc 8) nano
    ∷ stack_of (negsuc 0) (pos 5) egg
    ∷ stack_of (pos 2) (pos 1) nano
    ∷ []

abbrev buff : Buff
buff = record { id = pos 3; self = me; stacks = three; on_update = true; on_combat_tick = false }

one_tick : tick buff ≡ (
  record buff { stacks = stack_of (negsuc 0) (pos 5) egg ∷ stack_of (pos 1) (pos 1) nano ∷ [] },
  stack_deleted
        (stack_of (pos 0) (negsuc 8) nano)
        (stack_of (negsuc 0) (pos 5) egg ∷ stack_of (pos 2) (pos 1) nano ∷ [])
      ∷ [],
)
unfolding tick tick_stacks ◌-ℤ◌
one_tick = refl

largest : get_value three max_magnitude ≡ negsuc 8
unfolding get_value value_from
largest = refl

best_class : max_class three ≡ egg
unfolding max_class max_class_from
best_class = refl

ticks-remaining_example : (ticks 2 buff).stacks ≡ remaining 2 three
ticks-remaining_example = ticks-remaining 2 buff

one_stack_is_picked :
    IsValueOf three (get_value three max_value)
    × IsUnbeaten max_value three (get_value three max_value)
one_stack_is_picked =
    get_value_lem max_value (stack_of (pos 0) (negsuc 8) nano)
      (stack_of (negsuc 0) (pos 5) egg ∷ stack_of (pos 2) (pos 1) nano ∷ []) (λ e. ground arith)

nano_cleared :
    has_class (clear_class buff nano).0.stacks egg
    ≡ (if same_class nano egg then false else has_class three egg)
nano_cleared = clear_class_lem buff nano egg
