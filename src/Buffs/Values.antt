-- ===== src/Buffs/Values.antt =====
-- The value that getValue selects.
use open_fusion.Common.{◌≡◌, refl, sym, ◌∙◌, ◌≢◌, ◌⊎◌, inl, inr, Bool, false, List, [], ◌∷◌, arith}
use open_fusion.Common.Int.{ℤ, ltb_ℤ}
use open_fusion.Buffs.{
  BuffStack, BuffValueSelector, max_value, min_value, max_magnitude, min_magnitude, net_total,
  magnitude, next_value, value_from, first_value, get_value,
}

-- Whether a value goes before another under a selector.
abbrev pub beats : BuffValueSelector → ℤ → ℤ → Bool
beats max_value a b = ltb_ℤ b a
beats min_value a b = ltb_ℤ a b
beats max_magnitude a b = ltb_ℤ (magnitude b) (magnitude a)
beats min_magnitude a b = ltb_ℤ (magnitude a) (magnitude b)
beats net_total a b = false

-- A value of one of the stacks.
abbrev pub IsValueOf : List BuffStack → ℤ → Type 0
IsValueOf [] v = ⊥
IsValueOf (s ∷ stacks) v = (s.value ≡ v) ⊎ IsValueOf stacks v

-- No stack has a value that goes before it.
abbrev pub IsUnbeaten : BuffValueSelector → List BuffStack → ℤ → Type 0
IsUnbeaten sel [] v = Unit
IsUnbeaten sel (s ∷ stacks) v = (beats sel s.value v ≡ false) × IsUnbeaten sel stacks v

beats_trans :
    (sel : BuffValueSelector) (a b c : ℤ)
    → beats sel a b ≡ false
    → beats sel b c ≡ false
    → beats sel a c ≡ false
beats_trans max_value a b c h g = ground arith
beats_trans min_value a b c h g = ground arith
beats_trans max_magnitude a b c h g = ground arith
beats_trans min_magnitude a b c h g = ground arith
beats_trans net_total a b c h g = refl

-- One round of the loop.
abbrev Picked : BuffValueSelector → ℤ → ℤ → ℤ → Type 0
Picked sel value v next =
    ((next ≡ value) ⊎ (next ≡ v)) × (beats sel value next ≡ false) × (beats sel v next ≡ false)

next_value-Picked :
    (sel : BuffValueSelector) (value v : ℤ)
    → sel ≢ net_total
    → Picked sel value v (next_value sel value v)
next_value-Picked max_value value v h = ground arith
next_value-Picked min_value value v h = ground arith
next_value-Picked max_magnitude value v h = ground arith
next_value-Picked min_magnitude value v h = ground arith
next_value-Picked net_total value v h = absurd (h refl)

value_from_lem :
    (sel : BuffValueSelector) (value : ℤ) (stacks : List BuffStack)
    → sel ≢ net_total
    → ((value ≡ value_from sel value stacks) ⊎ IsValueOf stacks (value_from sel value stacks))
      × (beats sel value (value_from sel value stacks) ≡ false)
      × IsUnbeaten sel stacks (value_from sel value stacks)
unfolding value_from
value_from_lem sel value [] h = (inl refl, beats_refl sel value, tt)
  where
    beats_refl : (sel : BuffValueSelector) (a : ℤ) → beats sel a a ≡ false
    beats_refl max_value a = ground arith
    beats_refl min_value a = ground arith
    beats_refl max_magnitude a = ground arith
    beats_refl min_magnitude a = ground arith
    beats_refl net_total a = refl
value_from_lem sel value (s ∷ stacks) h =
    let (which, old, new) = next_value-Picked sel value s.value h in
    let (here, first, rest) = value_from_lem sel (next_value sel value s.value) stacks h in
    let v = value_from sel (next_value sel value s.value) stacks in
    (
      found which here,
      beats_trans sel value (next_value sel value s.value) v old first,
      (beats_trans sel s.value (next_value sel value s.value) v new first, rest),
    )
  where
    found :
        {next v : ℤ}
        → (next ≡ value) ⊎ (next ≡ s.value)
        → (next ≡ v) ⊎ IsValueOf stacks v
        → (value ≡ v) ⊎ ((s.value ≡ v) ⊎ IsValueOf stacks v)
    found (inl e) (inl g) = inl (sym e ∙ g)
    found (inr e) (inl g) = inr (inl (sym e ∙ g))
    found w (inr g) = inr (inr g)

-- getValue of a buff with stacks, for every selector but NET_TOTAL, returns the value of one of the
-- stacks, and no stack has one that is larger (or smaller; or of a larger or smaller magnitude).
pub get_value_lem :
    (sel : BuffValueSelector) (s : BuffStack) (stacks : List BuffStack)
    → sel ≢ net_total
    → IsValueOf (s ∷ stacks) (get_value (s ∷ stacks) sel)
      × IsUnbeaten sel (s ∷ stacks) (get_value (s ∷ stacks) sel)
unfolding get_value
get_value_lem sel s stacks h =
    let (here, first, rest) = value_from_lem sel (first_value sel s.value) (s ∷ stacks) h in
    (front sel h here, rest)
  where
    front :
        {v : ℤ} (sel : BuffValueSelector)
        → sel ≢ net_total
        → (first_value sel s.value ≡ v) ⊎ IsValueOf (s ∷ stacks) v
        → IsValueOf (s ∷ stacks) v
    front sel h (inr g) = g
    front max_value h (inl g) = inl g
    front min_value h (inl g) = inl g
    front max_magnitude h (inl g) = inl g
    front min_magnitude h (inl g) = inl g
    front net_total h (inl g) = absurd (h refl)
