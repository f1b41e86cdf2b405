-- ===== src/Trading/Exchange/Parts.antt =====
-- What the parts of a round of doTrade do to an inventory.
use open_fusion.Common.{
  ℕ, zero, suc, ◌≤◌, ◌<◌, ◌≡◌, refl, sym, ap, ◌∙◌, ◌≢◌, ◌⊎◌, inl, inr, false, Option, none, some,
  List, [], ◌∷◌, arith, ◌==◌, Bool-cases, length, get_elem?, length-set,
}
use open_fusion.Common.Int.{parts_of_eq, ℤ, pos, negsuc, ◌+ℤ◌, ◌≤ℤ◌, int_laws}
use open_fusion.Player.{Item, TradeItem}
use open_fusion.Trading.Exchange.{
  remove_offer, add_offer, take_slot, after_take, take_from, at_least_one, differs, elem_at, place,
  after_place,
}
use open_fusion.Trading.Exchange.Units.{
  IsStacked, take_from-counted, take_from-IsStack, IsStacked-set, IfPlaced, place-Placed, units,
  worth, units-set, counted_none,
}
use open_fusion.Trading.Exchange.Rounds.{After, Part, Ends}

-- An offer names one of the first `size` slots.
abbrev pub IsInRange : ℕ → TradeItem → Type 0
IsInRange size offer = (offer.id ≡ 0) ⊎ ((n : ℕ) × (offer.inven_num ≡ pos n) × (n < size))

-- What an access by an `int` finds.
elem_at_found :
    (inven : List Item) (n : ℤ) (item : Item)
    → some item ≡ elem_at inven n
    → (m : ℕ) × (n ≡ pos m) × (get_elem? inven m ≡ some item)
elem_at_found inven (pos m) item e = (m, refl, sym e)
elem_at_found inven (negsuc m) item e = absurd (ground arith)

elem_missing : (inven : List Item) (n : ℕ) → none ≡ get_elem? inven n → length inven ≤ n
elem_missing [] n e = omega arith
elem_missing (x ∷ inven) zero e = absurd (ground arith)
elem_missing (x ∷ inven) (suc n) e = omega (arith, elem_missing inven n e)

module _ (t i : ℕ) (i≢0 : i ≢ 0) where
  -- An offer leaves an inventory, or comes to it.
  abbrev pub Leaves : Part
  Leaves inven offer inven' offer' =
      (units t i inven ≡ units t i inven' +ℤ worth t i offer')
      × (length inven' ≡ length inven)
      × (IsStacked inven → IsStacked inven')
      × ((offer'.id ≡ 0) ⊎ (pos 1 ≤ℤ offer'.opt))

  abbrev pub Comes : Part
  Comes inven offer inven' offer' =
      (units t i inven' ≡ units t i inven +ℤ worth t i offer)
      × (length inven' ≡ length inven)
      × ((offer.id ≡ 0) ⊎ (pos 1 ≤ℤ offer.opt) → IsStacked inven → IsStacked inven')

  module _ (F : Type 0) where
    abbrev pub Pre : List Item → TradeItem → Type 0
    Pre inven offer = F ⊎ IsInRange (length inven) offer

    taken :
        (inven : List Item) (offer : TradeItem) (n : ℕ) (item : Item)
        → get_elem? inven n ≡ some item
        → offer.inven_num ≡ pos n
        → differs offer item ≡ false
        → pos 1 ≤ℤ offer.opt
        → (rest : Option Item) → rest ≡ take_from item offer.opt
        → After F (λ r. Leaves inven offer r.0 r.1) (after_take inven offer rest)
    unfolding after_take
    taken inven offer n item at_ slot same amount none e = tt
    taken inven offer n item at_ slot same amount (some left) e = simp slot (
      omega (
        int_laws,
        parts_of_eq (units-set t i inven n item left at_),
        parts_of_eq (take_from-counted t i item left offer i≢0 same e),
      ),
      length-set inven n left,
      IsStacked-set inven n left (take_from-IsStack item left offer.opt e),
      inr amount,
    )

    at_slot :
        (inven : List Item) (offer : TradeItem)
        → Pre inven offer
        → (offer.id == 0) ≡ false
        → (found : Option Item) → found ≡ elem_at inven offer.inven_num
        → Ends F Leaves inven offer (take_slot inven offer found)
    unfolding take_slot
    at_slot inven offer p real none e = elim p [
      | inl f ↦ f
      | inr (inl zero_) ↦ absurd (ground arith)
      | inr (inr (n, slot, bound)) ↦
          absurd (omega (arith, elem_missing inven n (e ∙ ap (elem_at inven) slot)))
    ]
    at_slot inven offer p real (some item) e = elim (Bool-cases (differs offer item)) [
      | inl d ↦ simp d tt
      | inr d ↦
          let (n, slot, at_) = elem_at_found inven offer.inven_num item e in
          simp d (
            taken inven (at_least_one offer) n item at_ (ground arith) (ground arith) (ground arith)
              (take_from item (at_least_one offer).opt) refl)
    ]

    pub removes :
        (inven : List Item) (offer : TradeItem)
        → Pre inven offer
        → Ends F Leaves inven offer (remove_offer inven offer)
    unfolding remove_offer
    removes inven offer p = elim (Bool-cases (offer.id == 0)) [
      | inl e ↦ simp e (
        omega (int_laws, parts_of_eq (counted_none t i offer.type offer.id offer.opt i≢0 e)),
        refl,
        λ a. a,
        inl (ground arith),
      )
      | inr e ↦ simp e (at_slot inven offer p e (elem_at inven offer.inven_num) refl)
    ]

    placed :
        (inven : List Item) (offer : TradeItem) (o : Option (List Item × ℕ))
        → IfPlaced inven 0 offer o
        → Ends F Comes inven offer (after_place offer o)
    unfolding after_place
    placed inven offer none h = tt
    placed inven offer (some (inven', m)) (k, x, at_, e, same, where_) =
        let y : Item = record x { id = offer.id; type = offer.type; opt = offer.opt } in
        rw same (
          omega (
            int_laws,
            parts_of_eq (units-set t i inven k x y at_),
            parts_of_eq (counted_none t i x.type x.id x.opt i≢0 (ground arith)),
          ),
          length-set inven k y,
          λ s a. IsStacked-set inven k y s a,
        )

    pub adds :
        (inven : List Item) (offer : TradeItem) → Ends F Comes inven offer (add_offer inven offer)
    unfolding add_offer
    adds inven offer = elim (Bool-cases (offer.id == 0)) [
      | inl e ↦ simp e (
        omega (int_laws, parts_of_eq (counted_none t i offer.type offer.id offer.opt i≢0 e)),
        refl,
        λ s a. a,
      )
      | inr e ↦ simp e (placed inven offer (place inven 0 offer) (place-Placed inven 0 offer))
    ]
