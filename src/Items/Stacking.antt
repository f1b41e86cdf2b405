-- ===== src/Items/Stacking.antt =====
-- The stacking of one item on another keeps the amount that the two places hold together.
use open_fusion.Common.{
  ℕ, ◌≡◌, refl, sym, ap, ap₂, ◌∙◌, ◌≢◌, inl, inr, true, Option, some, arith, Bool-cases,
}
use open_fusion.Common.Int.{ℤ, pos, ◌+ℤ◌, ◌-ℤ◌, ltb_ℤ, eqb_ℤ, int_laws, parts_of_eq}
use open_fusion.Player.{Item, Player}
use open_fusion.Trading.Exchange.Units.{counted}
use open_fusion.Items.{Place, item_at, put_item}
use open_fusion.Items.Move.{spill, clear_depleted, stack_items}
use open_fusion.Items.Places.{
  Apart, held, weight, item_at-put_self, item_at-put_ne, held-put_item, counted-+ℤ, counted-zero,
  counted_none_id,
}

-- A step that ends with a player who holds as many units as before.
abbrev pub Exact : ℕ → ℕ → Player → Option Player → Type 0
Exact t i p o = (q : Player) × (o ≡ some q) × (held t i q ≡ held t i p)

-- The same, with an item at a place.
abbrev Leaves : ℕ → ℕ → Player → Place → Option Player → Type 0
Leaves t i p s o =
    (q : Player) × (o ≡ some q) × (held t i q ≡ held t i p) × (x : Item) × (item_at q s ≡ some x)

pub differ_both_ways : (s t : Place) → Apart s t → Apart t s
differ_both_ways s t (inl h) = inl (λ e. h (sym e))
differ_both_ways s t (inr h) = inr (λ e. h (sym e))

zero_of : (a : ℤ) → eqb_ℤ a (pos 0) ≡ true → a ≡ pos 0
zero_of a h = ground arith

sub-add : (a b : ℤ) → a -ℤ b +ℤ b ≡ a
sub-add a b = omega int_laws

module _ (t i : ℕ) where
  clear_depleted-Exact :
      (p : Player) (s : Place) (from : Item)
      → i ≢ 0
      → item_at p s ≡ some from
      → Exact t i p (clear_depleted p s)
  unfolding clear_depleted
  clear_depleted-Exact p s from i≢0 h = elim (Bool-cases (eqb_ℤ from.opt (pos 0))) [
    | inr e ↦ (p, simp (h, e) refl, refl)
    | inl e ↦
        let cleared : Item = record from { id = 0; type = 0; time_limit = 0 } in
        let old : weight t i from ≡ pos 0 =
          ap (counted t i from.type from.id) (zero_of from.opt e)
          ∙ counted-zero t i from.type from.id in
        let new : weight t i cleared ≡ pos 0 = counted_none_id t i 0 0 from.opt i≢0 refl in
        (
          put_item p s cleared,
          simp (h, e) refl,
          omega (
            int_laws,
            parts_of_eq (held-put_item t i p s from cleared h),
            parts_of_eq old,
            parts_of_eq new,
          ),
        )
  ]

  module _ (s d : Place) (apart : Apart s d) where
    spill-Leaves :
        (p : Player) (stack : ℤ) (from to : Item)
        → item_at p s ≡ some from
        → item_at p d ≡ some to
        → from.type ≡ to.type
        → from.id ≡ to.id
        → Leaves t i p s (spill stack p s d)
    unfolding spill
    spill-Leaves p stack from to hs hd ty id = elim (Bool-cases (ltb_ℤ stack to.opt)) [
      | inr e ↦ (p, simp (hd, e) refl, refl, from, hs)
      | inl e ↦
          let extra = to.opt -ℤ stack in
          let from' : Item = record from { opt = from.opt +ℤ extra } in
          let to' : Item = record to { opt = stack } in
          let p' = put_item p s from' in
          let hd' = item_at-put_ne p s d from' apart ∙ hd in
          let hs' =
            item_at-put_ne p' d s to' (differ_both_ways s d apart)
            ∙ item_at-put_self p s from from' hs in
          (
            put_item p' d to',
            simp (hd, e, hs, hd') refl,
            omega (
              int_laws,
              parts_of_eq (held-put_item t i p s from from' hs),
              parts_of_eq (held-put_item t i p' d to to' hd'),
              parts_of_eq (counted-+ℤ t i from.type from.id from.opt extra),
              parts_of_eq (counted-+ℤ t i to.type to.id extra stack),
              parts_of_eq (ap (counted t i to.type to.id) (sub-add to.opt stack)),
              parts_of_eq (ap₂ (λ (a b : ℕ). counted t i a b extra) ty id),
            ),
            from',
            hs',
          )
    ]

    pub stack_items-Exact :
        (p : Player) (stack : ℤ) (from to : Item)
        → i ≢ 0
        → item_at p s ≡ some from
        → item_at p d ≡ some to
        → from.type ≡ to.type
        → from.id ≡ to.id
        → Exact t i p (stack_items stack p s d)
    unfolding stack_items
    stack_items-Exact p stack from to i≢0 hs hd ty id =
        let to1 : Item = record to { opt = to.opt +ℤ from.opt } in
        let from1 : Item = record from { opt = pos 0 } in
        let p1 = put_item p d to1 in
        let hs1 = item_at-put_ne p d s to1 (differ_both_ways s d apart) ∙ hs in
        let p2 = put_item p1 s from1 in
        let hd2 = item_at-put_ne p1 s d from1 apart ∙ item_at-put_self p d to to1 hd in
        let hs2 = item_at-put_self p1 s from from1 hs1 in
        let (p3, e3, k3, x, hx) = spill-Leaves p2 stack from1 to1 hs2 hd2 ty id in
        let (q, e4, k4) = clear_depleted-Exact p3 s x i≢0 hx in
        (
          q,
          simp (hs, hd, hs1, e3) e4,
          omega (
            int_laws,
            parts_of_eq (held-put_item t i p d to to1 hd),
            parts_of_eq (held-put_item t i p1 s from from1 hs1),
            parts_of_eq (counted-+ℤ t i to.type to.id to.opt from.opt),
            parts_of_eq (counted-zero t i from.type from.id),
            parts_of_eq (ap₂ (λ (a b : ℕ). counted t i a b from.opt) ty id),
            parts_of_eq k3,
            parts_of_eq k4,
          ),
        )
