-- ===== src/Buffs/Classes.antt =====
-- The classes of the stacks of a buff.
use open_fusion.Common.{
  ◌++◌, ◌≡◌, refl, ap, ◌∙◌, inl, inr, Bool, true, false, ◌||◌, ◌&&◌, List, [], ◌∷◌, arith,
  if◌then◌else◌, Bool-cases,
}
use open_fusion.Buffs.{BuffStack, Buff, BuffClass, same_class, clear_stacks, clear_class, has_class}

class-append :
    (xs ys : List BuffStack) (c : BuffClass)
    → has_class (xs ++ ys) c ≡ has_class xs c || has_class ys c
unfolding has_class
class-append [] ys c = refl
class-append (x ∷ xs) ys c =
    ap (λ (b : Bool). same_class x.buff_stack_class c || b) (class-append xs ys c)
    ∙ or_assoc (same_class x.buff_stack_class c) (has_class xs c) (has_class ys c)
  where
    or_assoc : (a b c : Bool) → a || (b || c) ≡ (a || b) || c
    or_assoc a b c = ground arith

-- What a list has of a class after all stacks of a class are gone.
abbrev cleared : BuffClass → List BuffStack → BuffClass → Bool
cleared c stacks d = if same_class c d then false else has_class stacks d

clear_stacks_lem :
    (b : Bool) (c d : BuffClass) (kept stacks : List BuffStack)
    → has_class (clear_stacks b c kept stacks).0 d ≡ has_class kept d || cleared c stacks d
unfolding clear_stacks has_class
clear_stacks_lem b c d kept [] = ground arith
clear_stacks_lem b c d kept (s ∷ stacks) = elim (Bool-cases (same_class s.buff_stack_class c)) [
  | inl e ↦
      simp e (clear_stacks_lem b c d kept stacks ∙ gone (same_class_trans s.buff_stack_class c d e))
  | inr e ↦ simp e (
      clear_stacks_lem b c d (kept ++ s ∷ []) stacks
      ∙ ap (λ (x : Bool). x || cleared c stacks d) (class-append kept (s ∷ []) d)
      ∙ stays (not_both s.buff_stack_class c d e))
]
  where
    same_class_trans : (a c d : BuffClass) → same_class a c ≡ true → same_class a d ≡ same_class c d
    same_class_trans a c d h = ground arith

    not_both :
        (a c d : BuffClass) → same_class a c ≡ false → same_class a d && same_class c d ≡ false
    not_both a c d h = ground arith

    gone :
        same_class s.buff_stack_class d ≡ same_class c d
        → has_class kept d || cleared c stacks d
          ≡ has_class kept d
            || (if same_class c d
                then false
                else (same_class s.buff_stack_class d || has_class stacks d))
    gone h = ground arith

    stays :
        same_class s.buff_stack_class d && same_class c d ≡ false
        → (has_class kept d || (same_class s.buff_stack_class d || false)) || cleared c stacks d
          ≡ has_class kept d
            || (if same_class c d
                then false
                else (same_class s.buff_stack_class d || has_class stacks d))
    stays h = ground arith

-- After clear of a class a buff has no stack of it, and of every other class it has one exactly if it
-- had one.
pub clear_class_lem :
    (buff : Buff) (c d : BuffClass)
    → has_class (clear_class buff c).0.stacks d
      ≡ (if same_class c d then false else has_class buff.stacks d)
unfolding clear_class has_class
clear_class_lem buff c d = clear_stacks_lem buff.on_update c d [] buff.stacks
