-- ===== src/Items/Moves.antt =====
-- What itemMoveHandler does to the items of a player.
use open_fusion.Common.{
  ◌++◌, ℕ, ◌-◌, ◌≡◌, refl, sym, ap, ap₂, bit_and, ◌∙◌, ◌≢◌, ◌⊎◌, inl, inr, Bool, true, false, ◌&&◌,
  ◌||◌, not, Option, none, some, List, [], ◌∷◌, arith, ◌==◌, if◌then◌else◌, Bool-cases, length,
}
use open_fusion.Common.Int.{ℤ, pos, ◌+ℤ◌, ltb_ℤ, int_laws, parts_of_eq}
use open_fusion.Player.{Item, Player}
use open_fusion.Trading.Exchange.Units.{units}
use open_fusion.Protocol.Cipher.{◌>>=◌}
use open_fusion.Items.{
  ItemTable, SlotType, equip_slot, inventory_slot, bank_slot, Place, slot_type, place_of, item_at,
  put_item,
}
use open_fusion.Items.Move.{
  common_stack, move_items, swap_items, stack_items, may_move, vehicle_off, is_equip, changed_equip,
  after_move, moved, move_between, request_places, item_move, MoveRequest, ItemMessage,
  set_item_stats, equip_change, item_move_succ, vehicle_off_succ, state_change, equip_slot_vehicle,
}
use open_fusion.Items.Places.{Apart, held, item_at-put_ne, held-put_item}
use open_fusion.Items.Stacking.{Exact, differ_both_ways, stack_items-Exact}
use open_fusion.Items.Kitted.{
  IsKitted, IsPlace, item_at_found, move_items-IsKitted, SamePlaces, set_item_stats-SamePlaces,
  place_of_inv,
}

-- Stacked items are of one kind.
is_stackable_kind :
    (table : ItemTable) (from to : Item) (stack : ℤ)
    → common_stack table from to ≡ some stack
    → (from.type ≡ to.type) × (from.id ≡ to.id)
unfolding common_stack
is_stackable_kind table from to stack h = ground arith

SamePlaces-held : (t i : ℕ) (p q : Player) → SamePlaces p q → held t i q ≡ held t i p
SamePlaces-held t i p q (a, b, c) =
    ap₂ (λ (x y : ℤ). x +ℤ y) (ap₂ (λ (x y : ℤ). x +ℤ y) (ap (units t i) a) (ap (units t i) b))
      (ap (units t i) c)

SamePlaces-IsKitted : (p q : Player) → SamePlaces p q → IsKitted p → IsKitted q
SamePlaces-IsKitted p q (a, b, c) (x, y, z) = (ap length a ∙ x, ap length b ∙ y, ap length c ∙ z)

-- A part of the handler returns, with the same three arrays.
abbrev Returns : Player → Option (Player × List ItemMessage) → Type 0
Returns p o = (q : Player) × (msgs : List ItemMessage) × (o ≡ some (q, msgs)) × SamePlaces p q

vehicle_off-Returns : (p : Player) → IsKitted p → Returns p (vehicle_off p)
vehicle_off-Returns p k =
    let (v, e) = item_at_found p (equip_slot, equip_slot_vehicle) k (omega arith) in
    elim (Bool-cases (v.id == 0 && not (bit_and p.pc_state 8 == 0))) [
      | inl on ↦ (
        record p { pc_state = p.pc_state - 8 },
        vehicle_off_succ ∷ state_change p.id (p.pc_state - 8) ∷ [],
        simp (e, on) refl,
        (refl, refl, refl),
      )
      | inr off ↦ (p, [], simp (e, off) refl, (refl, refl, refl))
    ]

after_move-Returns :
    (table : ItemTable) (p : Player) (s d : Place) (from to : Item)
    → IsKitted p
    → Returns p (after_move table p s d from to)
unfolding after_move
after_move-Returns table p s d from to k = elim (Bool-cases (is_equip s || is_equip d)) [
  | inr no_ ↦ (p, [], simp no_ refl, (refl, refl, refl))
  | inl some_ ↦
      let (q, msgs, e, (a, b, c)) = vehicle_off-Returns p k in
      let change = changed_equip s d from to in
      let (a', b', c') = set_item_stats-SamePlaces table q in
      (
        set_item_stats table q,
        msgs ++ equip_change p.id change.0 change.1 ∷ [],
        simp (some_, e) refl,
        (a' ∙ a, b' ∙ b, c' ∙ c),
      )
]

module _ (t i : ℕ) (i≢0 : i ≢ 0) where
  swap_items-Exact :
      (p : Player) (s d : Place) (from to : Item)
      → Apart s d
      → item_at p s ≡ some from
      → item_at p d ≡ some to
      → Exact t i p (swap_items p s d)
  unfolding swap_items
  swap_items-Exact p s d from to apart hs hd =
      let hs' = item_at-put_ne p d s from (differ_both_ways s d apart) ∙ hs in
      (
        put_item (put_item p d from) s to,
        simp (hs, hd) refl,
        omega (
          int_laws,
          parts_of_eq (held-put_item t i p d to from hd),
          parts_of_eq (held-put_item t i (put_item p d from) s from to hs'),
        ),
      )

  move_items-Exact :
      (table : ItemTable) (p : Player) (s d : Place) (from to : Item)
      → Apart s d
      → item_at p s ≡ some from
      → item_at p d ≡ some to
      → Exact t i p (move_items table p s d from to)
  unfolding move_items
  move_items-Exact table p s d from to apart hs hd =
      choice (common_stack table from to) (is_stackable_kind table from to)
    where
      choice :
          (o : Option ℤ)
          → ((stack : ℤ) → o ≡ some stack → (from.type ≡ to.type) × (from.id ≡ to.id))
          → Exact t i p (elim o [ some stack ↦ stack_items stack p s d | none ↦ swap_items p s d ])
      choice none kind = swap_items-Exact p s d from to apart hs hd
      choice (some stack) kind =
          let (ty, id) = kind stack refl in
          stack_items-Exact t i s d apart p stack from to i≢0 hs hd ty id

  -- The handler returns, with sized arrays and as many units.
  abbrev pub Fine : Player → Option (Player × List ItemMessage) → Type 0
  Fine p o =
      (q : Player) × (msgs : List ItemMessage) × (o ≡ some (q, msgs))
      × IsKitted q
      × (held t i q ≡ held t i p)

  moved-Fine :
      (table : ItemTable) (req : MoveRequest) (p : Player) (s d : Place) (from to : Item)
      → IsKitted p
      → IsPlace s
      → IsPlace d
      → Apart s d
      → item_at p s ≡ some from
      → item_at p d ≡ some to
      → Fine p (moved table req p s d from to)
  unfolding moved
  moved-Fine table req p s d from to k ps pd apart hs hd =
      let (q, e, h) = move_items-Exact table p s d from to apart hs hd in
      let kq = move_items-IsKitted table p q s d from to k e in
      let (x, ex) = item_at_found q s kq ps in
      let (y, ey) = item_at_found q d kq pd in
      let stacked : Bool = elim (common_stack table from to) as (λ _. Bool) [
        | some _ ↦ true
        | none ↦ false
      ] in
      let (r, msgs, er, same) =
        after_move-Returns table q s d (if stacked then x else from) (if stacked then y else to)
          kq in
      (
        r,
        msgs
            ++ item_move_succ req.e_to (if stacked then req.from_slot_num else req.to_slot_num)
                (if stacked then x else from) req.e_from
                (if stacked then req.to_slot_num else req.from_slot_num) (if stacked then y else to)
              ∷ [],
        simp (e, ex, ey, er) refl,
        SamePlaces-IsKitted q r same kq,
        SamePlaces-held t i q r same ∙ h,
      )

  move_between-Fine :
      (table : ItemTable) (req : MoveRequest) (p : Player) (s d : Place)
      → IsKitted p
      → IsPlace s
      → IsPlace d
      → Apart s d
      → Fine p (move_between table req p s d)
  unfolding move_between
  move_between-Fine table req p s d k ps pd apart =
      let (x, ex) = item_at_found p s k ps in
      let (y, ey) = item_at_found p d k pd in
      elim (Bool-cases (may_move x d)) [
        | inl e ↦ simp (ex, ey, e) (moved-Fine table req p s d x y k ps pd apart ex ey)
        | inr e ↦ simp (ex, ey, e) (p, [], refl, k, refl)
      ]

-- The number of a SlotType.
abbrev number_of : SlotType → ℤ
number_of equip_slot = pos 0
number_of inventory_slot = pos 1
number_of bank_slot = pos 3

slot_type_inv : (e : ℤ) (k : SlotType) → slot_type e ≡ some k → e ≡ number_of k
slot_type_inv e equip_slot h = ground arith
slot_type_inv e inventory_slot h = ground arith
slot_type_inv e bank_slot h = ground arith

abbrev both : Option Place → Option Place → Option (Place × Place)
both o r = o >>= λ u. r >>= λ v. some (u, v)

both_inv : (o r : Option Place) (x y : Place) → both o r ≡ some (x, y) → (o ≡ some x) × (r ≡ some y)
both_inv none r x y h = absurd (ground arith)
both_inv (some u) none x y h = absurd (ground arith)
both_inv (some u) (some v) x y h =
    let e = some_inj h in (ap (λ z. some z.0) e, ap (λ z. some z.1) e)
  where
    some_inj : {A : Type 0} {a b : A} → some a ≡ some b → a ≡ b
    some_inj h = ground arith

-- The two places of a request that passes the checks.
request_places_inv :
    (p : Player) (req : MoveRequest) (s d : Place)
    → request_places p req ≡ some (s, d)
    → IsPlace s
      × IsPlace d
      × ((req.e_from ≢ req.e_to) ⊎ (req.from_slot_num ≢ req.to_slot_num) → Apart s d)
unfolding request_places
request_places_inv p req s d h =
    elim (Bool-cases
      (ltb_ℤ req.to_slot_num (pos 0) || ltb_ℤ req.from_slot_num (pos 0) || p.is_trading)) [
        | inl e ↦ absurd (no_places (simp e at h))
        | inr e ↦
            let (es, ed) =
              both_inv (place_of req.e_from req.from_slot_num) (place_of req.e_to req.to_slot_num) s
                d (simp e at h) in
            let (ps, ns, ks) = place_of_inv req.e_from req.from_slot_num s (ground arith) es in
            let (pd, nd, kd) = place_of_inv req.e_to req.to_slot_num d (ground arith) ed in
            let as_ = slot_type_inv req.e_from s.0 ks in
            let ad_ = slot_type_inv req.e_to d.0 kd in
            (
              ps,
              pd,
              λ r. elim r [
                | inl x ↦ inl (λ q. x (as_ ∙ ap number_of q ∙ sym ad_))
                | inr x ↦ inr (λ q. x (ns ∙ ap pos q ∙ sym nd))
              ],
            )
      ]
  where
    no_places : {x : Place × Place} → none ≡ some x → ⊥
    no_places h = ground arith

-- itemMoveHandler always answers, and leaves the arrays of a player at their sizes; for a request
-- whose two places differ in the array or in the number, the three arrays hold together as many
-- units of each kind of item (type t, id i other than 0) as before.
pub item_move_conserves :
    (table : ItemTable) (p : Player) (req : MoveRequest) (t i : ℕ)
    → IsKitted p
    → (req.e_from ≢ req.e_to) ⊎ (req.from_slot_num ≢ req.to_slot_num)
    → i ≢ 0
    → (q : Player) × (msgs : List ItemMessage) × (item_move table p req ≡ some (q, msgs))
      × IsKitted q
      × (held t i q ≡ held t i p)
unfolding item_move
item_move_conserves table p req t i k apart i≢0 =
    go (request_places p req) (λ s d h. request_places_inv p req s d h)
  where
    go :
        (o : Option (Place × Place))
        → ((s d : Place)
            → o ≡ some (s, d)
            → IsPlace s
              × IsPlace d
              × ((req.e_from ≢ req.e_to) ⊎ (req.from_slot_num ≢ req.to_slot_num) → Apart s d))
        → Fine t i i≢0 p
            (elim o [ none ↦ some (p, []) | some (s, d) ↦ move_between table req p s d ])
    go none h = (p, [], refl, k, refl)
    go (some (s, d)) h =
        let (ps, pd, ap_) = h s d refl in
        move_between-Fine t i i≢0 table req p s d k ps pd (ap_ apart)
