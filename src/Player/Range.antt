-- ===== src/Player/Range.antt =====
-- The capped values of a player stay between 0 and their caps, and are changed as announced.
use open_fusion.Common.{
  ◌∙◌, true, false, sym, subst, inr, inl, Bool-cases, ◌⊎◌, ◌≡◌, refl, arith, if◌then◌else◌,
}
use open_fusion.Common.Int.{negsuc, IsInt32, ℤ, pos, ◌+ℤ◌, ◌-ℤ◌, ◌≤ℤ◌, ltb_ℤ, leb_ℤ}
use open_fusion.Player.{
  set_capped, clamped, subtract_capped, limit_diff, add_capped, Player, CappedValueType, taros,
  fusion_matter, battery_weapon, battery_nano, taros_in_trade, get_cap, capped_value, store_value,
  raised, lowered,
}

abbrev Between : ℤ → ℤ → ℤ → Type 0
Between lo hi v = (lo ≤ℤ v) × (v ≤ℤ hi)

-- All five values lie between 0 and their caps.
abbrev pub IsCapped : Player → Type 0
IsCapped p = (t : CappedValueType) → Between (pos 0) (get_cap t) (capped_value p t)

-- What the three operations promise for a value with the given cap.
abbrev pub add_spec : ℤ → ℤ → ℤ → ℤ
add_spec cap value diff =
    if leb_ℤ diff (pos 0) then value else if ltb_ℤ (cap -ℤ value) diff then cap else value +ℤ diff

abbrev pub subtract_spec : ℤ → ℤ → ℤ
subtract_spec value diff =
    if leb_ℤ diff (pos 0) then value else if ltb_ℤ value diff then pos 0 else value -ℤ diff

value-store_self :
    (p : Player) (t : CappedValueType) (v : ℤ) → capped_value (store_value p t v) t ≡ v
unfolding capped_value store_value
value-store_self p taros v = refl
value-store_self p fusion_matter v = refl
value-store_self p battery_weapon v = refl
value-store_self p battery_nano v = refl
value-store_self p taros_in_trade v = refl

-- Every cap is a number that an int32_t holds twice.
abbrev IsCap : ℤ → Type 0
IsCap = Between (pos 0) (pos 999999999)

get_cap-IsCap : (t : CappedValueType) → IsCap (get_cap t)
unfolding get_cap
get_cap-IsCap taros = omega arith
get_cap-IsCap fusion_matter = omega arith
get_cap-IsCap battery_weapon = omega arith
get_cap-IsCap battery_nano = omega arith
get_cap-IsCap taros_in_trade = omega arith

raised-spec :
    (cap v d : ℤ)
    → IsCap cap
    → Between (pos 0) cap v
    → leb_ℤ d (pos 0) ≡ false
    → (raised cap v d ≡ add_spec cap v d) × IsInt32 (v +ℤ limit_diff cap d)
unfolding raised ◌+ℤ◌ ◌-ℤ◌
raised-spec (pos n) v d c b h = (ground arith, ground arith)
raised-spec (negsuc n) v d c b h = absurd (omega arith)

lowered-spec :
    (cap v d : ℤ)
    → IsCap cap
    → Between (pos 0) cap v
    → leb_ℤ d (pos 0) ≡ false
    → (lowered cap v d ≡ subtract_spec v d) × IsInt32 (v -ℤ limit_diff cap d)
unfolding lowered ◌+ℤ◌ ◌-ℤ◌
lowered-spec (pos n) v d c b h = (ground arith, ground arith)
lowered-spec (negsuc n) v d c b h = absurd (omega arith)

store_other :
    (p : Player) (t u : CappedValueType) (v : ℤ)
    → (u ≡ t) ⊎ (capped_value (store_value p t v) u ≡ capped_value p u)
unfolding capped_value store_value
store_other p taros u v = ground arith
store_other p fusion_matter u v = ground arith
store_other p battery_weapon u v = ground arith
store_other p battery_nano u v = ground arith
store_other p taros_in_trade u v = ground arith

-- What one operation does to one value, seen through all values.
abbrev pub Changes : Player → CappedValueType → ℤ → Player → CappedValueType → Type 0
Changes p t v q u = (capped_value q t ≡ v) × ((u ≡ t) ⊎ (capped_value q u ≡ capped_value p u))

store-Changes :
    (p : Player) (t u : CappedValueType) (v w : ℤ) → v ≡ w → Changes p t w (store_value p t v) u
store-Changes p t u v w e = (value-store_self p t v ∙ e, store_other p t u v)

-- The two branches of addCapped and subtractCapped.
branches :
    (p : Player) (t u : CappedValueType) (diff v w : ℤ)
    → ((leb_ℤ diff (pos 0) ≡ true) → w ≡ capped_value p t)
    → ((leb_ℤ diff (pos 0) ≡ false) → v ≡ w)
    → Changes p t w (if leb_ℤ diff (pos 0) then p else store_value p t v) u
branches p t u diff v w same new = elim (Bool-cases (leb_ℤ diff (pos 0))) [
  | inl none_ ↦ rw none_ (sym (same none_), inr refl)
  | inr some_ ↦ rw some_ (store-Changes p t u v w (new some_))
]

-- addCapped with any amount, from values within their caps: an amount that is not positive changes
-- nothing; else the value grows by the amount, up to its cap. No other value changes, and the sum
-- that is computed for a positive amount is an int32_t.
pub add_capped_lem :
    (p : Player) (t u : CappedValueType) (diff : ℤ)
    → IsCapped p
    → Changes p t (add_spec (get_cap t) (capped_value p t) diff) (add_capped p t diff) u
      × ((leb_ℤ diff (pos 0) ≡ true) ⊎ IsInt32 (capped_value p t +ℤ limit_diff (get_cap t) diff))
unfolding add_capped
add_capped_lem p t u diff v =
    let r = raised-spec (get_cap t) (capped_value p t) diff (get_cap-IsCap t) (v t) in
    (
      branches p t u diff _ _ (λ h. rw h) (λ h. (r h).0),
      elim (Bool-cases (leb_ℤ diff (pos 0))) [ inl h ↦ inl h | inr h ↦ inr (r h).1 ],
    )

-- subtractCapped with any amount, from values within their caps: an amount that is not positive
-- changes nothing; else the value falls by the amount, down to 0. No other value changes, and the
-- difference that is computed for a positive amount is an int32_t.
pub subtract_capped_lem :
    (p : Player) (t u : CappedValueType) (diff : ℤ)
    → IsCapped p
    → Changes p t (subtract_spec (capped_value p t) diff) (subtract_capped p t diff) u
      × ((leb_ℤ diff (pos 0) ≡ true) ⊎ IsInt32 (capped_value p t -ℤ limit_diff (get_cap t) diff))
unfolding subtract_capped
subtract_capped_lem p t u diff v =
    let r = lowered-spec (get_cap t) (capped_value p t) diff (get_cap-IsCap t) (v t) in
    (
      branches p t u diff _ _ (λ h. rw h) (λ h. (r h).0),
      elim (Bool-cases (leb_ℤ diff (pos 0))) [ inl h ↦ inl h | inr h ↦ inr (r h).1 ],
    )

add_spec-Between : (cap v d : ℤ) → Between (pos 0) cap v → Between (pos 0) cap (add_spec cap v d)
unfolding ◌+ℤ◌ ◌-ℤ◌
add_spec-Between cap v d b = ground arith

subtract_spec-Between :
    (cap v d : ℤ) → Between (pos 0) cap v → Between (pos 0) cap (subtract_spec v d)
unfolding ◌-ℤ◌
subtract_spec-Between cap v d b = ground arith

clamped-Between : (cap v : ℤ) → IsCap cap → Between (pos 0) cap (clamped cap v)
unfolding clamped
clamped-Between cap v c = ground arith

Changes-IsCapped :
    (p q : Player) (t : CappedValueType) (v : ℤ)
    → IsCapped p
    → Between (pos 0) (get_cap t) v
    → ((u : CappedValueType) → Changes p t v q u)
    → IsCapped q
Changes-IsCapped p q t v c b h u = elim (h u).1 [
  | inl e ↦
      subst (λ (w : CappedValueType). Between (pos 0) (get_cap w) (capped_value q w)) (sym e)
        (subst (Between (pos 0) (get_cap t)) (sym (h u).0) b)
  | inr e ↦ subst (Between (pos 0) (get_cap u)) (sym e) (c u)
]

-- From values within 0 and their caps, addCapped, subtractCapped and setCapped with any argument
-- leave all values within 0 and their caps.
pub operations-IsCapped :
    (p : Player) (t : CappedValueType) (x : ℤ)
    → IsCapped p
    → IsCapped (add_capped p t x) × IsCapped (subtract_capped p t x) × IsCapped (set_capped p t x)
unfolding set_capped
operations-IsCapped p t x v = (
  Changes-IsCapped p (add_capped p t x) t _ v
      (add_spec-Between (get_cap t) (capped_value p t) x (v t)) (λ u. (add_capped_lem p t u x v).0),
  Changes-IsCapped p (subtract_capped p t x) t _ v
      (subtract_spec-Between (get_cap t) (capped_value p t) x (v t))
      (λ u. (subtract_capped_lem p t u x v).0),
  Changes-IsCapped p (set_capped p t x) t _ v (clamped-Between (get_cap t) x (get_cap-IsCap t))
      (λ u. store-Changes p t u (clamped (get_cap t) x) _ refl),
)
