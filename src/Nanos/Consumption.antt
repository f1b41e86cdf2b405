-- ===== src/Nanos/Consumption.antt =====
-- What a tuning takes from the inventory.
use open_fusion.Common.{
  ℕ, ◌<◌, ◌≡◌, refl, sym, ap, subst, ◌∙◌, ◌⊎◌, inl, inr, Bool, true, false, ◌&&◌, ◌||◌, Option,
  some, List, [], ◌∷◌, arith, ◌==◌, if◌then◌else◌, Bool-cases, length, get_elem?, set, length-set,
  All, ◌≢◌,
}
use open_fusion.Common.Int.{ℤ, pos, negsuc, ◌+ℤ◌, ◌-ℤ◌, ◌≤ℤ◌, ltb_ℤ, leb_ℤ, int_laws, parts_of_eq}
use open_fusion.Player.{Item, Player, subtract_capped, capped_value}
use open_fusion.Player.Range.{IsCapped, subtract_spec, subtract_capped_lem}
use open_fusion.Player.Others.{subtract_capped-SameTrade}
use open_fusion.Protocol.Cipher.{◌>>=◌}
use open_fusion.Trading.Exchange.Units.{counted, units, units-set}
use open_fusion.Items.Places.{weight, get_elem?-set_self, get_elem?-set_ne}
use open_fusion.Vendors.Costs.{some_inj}
use open_fusion.Common.{if_true, if_false, or_false}
use open_fusion.Nanos.{NanoPlayer, NanoMessage, at_int}
use open_fusion.Player.{fusion_matter}
use open_fusion.Items.Places.{counted-zero}
use open_fusion.Items.Kitted.{some_elem}
use open_fusion.Nanos.{
  told, TuneRequest, used_up, consume, is_garbage, Tuning, pay_tuning, tune_succ,
}

abbrev pub is_kind : ℕ → Item → Bool
is_kind req_id item = item.type == 7 && item.id == req_id

-- A slot without an item of the kind.
abbrev pub IsSpent : ℕ → List Item → ℤ → Type 0
IsSpent req_id inven slot =
    (item : Item) → at_int inven slot ≡ some item → is_kind req_id item ≡ false

-- The loop ends with an inventory and a number of items that are still required: what the inventory
-- lost of the kind is what is no more required, and if some are still required, then no slot that was
-- named has an item of the kind left.
abbrev pub Consumes : ℕ → List ℤ → List Item → ℤ → Option (List Item × ℤ) → Type 0
Consumes req_id slots inven count o =
    (used : List Item) × (left : ℤ) × (o ≡ some (used, left))
    × (units 7 req_id used +ℤ count ≡ units 7 req_id inven +ℤ left)
    × (length used ≡ length inven)
    × (pos 0 ≤ℤ count → (pos 0 ≤ℤ left) × ((left ≡ pos 0) ⊎ All (IsSpent req_id used) slots))
    × ((m : ℕ) → IsSpent req_id inven (pos m) → IsSpent req_id used (pos m))

kind_weight :
    (req_id : ℕ) (item : Item) → is_kind req_id item ≡ true → weight 7 req_id item ≡ item.opt
unfolding counted
kind_weight req_id item h = ground arith

not_negative : (a b : ℤ) → ltb_ℤ a b ≡ false → pos 0 ≤ℤ a -ℤ b
unfolding ◌-ℤ◌
not_negative a b h = ground arith

none_required :
    (req_id : ℕ) (inven : List Item) (slots : List ℤ)
    → consume req_id inven slots (pos 0) ≡ some (inven, pos 0)
unfolding consume
none_required req_id inven [] = refl
none_required req_id inven (slot ∷ slots) = refl

-- A place with an item of the kind that changes, or a place that gets another item: the spent slots
-- stay spent.
slots_still_free :
    (req_id : ℕ) (inven : List Item) (n m : ℕ) (item stays : Item)
    → get_elem? inven n ≡ some item
    → is_kind req_id item ≡ true
    → IsSpent req_id inven (pos m)
    → IsSpent req_id (set inven n stays) (pos m)
unfolding at_int
slots_still_free req_id inven n m item stays there same spent other h = elim (Bool-cases (m == n)) [
  | inl e ↦
      let at_m : get_elem? inven m ≡ some item =
        subst (λ (k : ℕ). get_elem? inven k ≡ some item) (ground arith) there in
      absurd (clash (sym same ∙ spent item at_m))
  | inr e ↦
      let apart : n ≢ m = λ z. ground arith in
      spent other (sym (get_elem?-set_ne inven n m stays apart) ∙ h)
]
  where
    clash : true ≡ false → ⊥
    clash h = ground arith

-- One round, and the rounds after it.
later_round :
    (req_id : ℕ) (slots : List ℤ) (inven inven' : List Item) (count rest : ℤ) (n : ℕ)
    (o : Option (List Item × ℤ))
    → units 7 req_id inven' +ℤ count ≡ units 7 req_id inven +ℤ rest
    → length inven' ≡ length inven
    → (pos 0 ≤ℤ count → pos 0 ≤ℤ rest)
    → IsSpent req_id inven' (pos n)
    → ((m : ℕ) → IsSpent req_id inven (pos m) → IsSpent req_id inven' (pos m))
    → Consumes req_id slots inven' rest o
    → Consumes req_id (pos n ∷ slots) inven count o
later_round req_id slots inven inven' count rest n o e size low spent still
      (used, left, run, kept, length_, high, keep) =
    (
      used,
      left,
      run,
      omega (int_laws, parts_of_eq kept, parts_of_eq e),
      length_ ∙ size,
      λ h. let (l, ends) = high (low h) in (l, more ends),
      λ m f. keep m (still m f),
    )
  where
    more :
        (left ≡ pos 0) ⊎ All (IsSpent req_id used) slots
        → (left ≡ pos 0) ⊎ All (IsSpent req_id used) (pos n ∷ slots)
    more (inl e) = inl e
    more (inr all) = inr (keep n spent, all)

abbrev next_round : ℕ → List Item → ℕ → List ℤ → ℤ → Item → Option (List Item × ℤ)
next_round req_id inven n slots count item =
    if is_kind req_id item
    then (if ltb_ℤ count item.opt
        then consume req_id (set inven n (record item { opt = item.opt -ℤ count })) slots (pos 0)
        else consume req_id (set inven n (used_up item)) slots (count -ℤ item.opt))
    else consume req_id inven slots count

module _ (req_id : ℕ) (inven : List Item) (n : ℕ) (slots : List ℤ) (count : ℤ) (item : Item)
    (there : get_elem? inven n ≡ some item) where
  -- The round that takes a part of a stack, which ends the loop.
  last_round :
      is_kind req_id item ≡ true
      → Consumes req_id
          (pos n ∷ slots)
          inven
          count
          (consume req_id (set inven n (record item { opt = item.opt -ℤ count })) slots (pos 0))
  last_round same =
      let stays : Item = record item { opt = item.opt -ℤ count } in
      (
        set inven n stays,
        pos 0,
        none_required req_id (set inven n stays) slots,
        omega (
          int_laws,
          parts_of_eq (kind_weight req_id item same),
          parts_of_eq (kind_weight req_id stays same),
          parts_of_eq (units-set 7 req_id inven n item stays there),
        ),
        length-set inven n stays,
        λ h. (omega arith, inl refl),
        λ m. slots_still_free req_id inven n m item stays there same,
      )

  -- The round that takes all of a stack.
  whole_stack :
      is_kind req_id item ≡ true
      → ltb_ℤ count item.opt ≡ false
      → Consumes req_id slots
          (set inven n (used_up item))
          (count -ℤ item.opt)
          (consume req_id (set inven n (used_up item)) slots (count -ℤ item.opt))
      → Consumes req_id
          (pos n ∷ slots)
          inven
          count
          (consume req_id (set inven n (used_up item)) slots (count -ℤ item.opt))
  unfolding at_int
  whole_stack same less rest =
      later_round req_id slots inven (set inven n (used_up item)) count (count -ℤ item.opt) n _
        (omega (
          int_laws,
          parts_of_eq (kind_weight req_id item same),
          parts_of_eq (counted-zero 7 req_id 0 0),
          parts_of_eq (units-set 7 req_id inven n item (used_up item) there),
        ))
        (length-set inven n (used_up item)) (λ h. not_negative count item.opt less)
        (λ other e.
          subst (λ (x : Item). is_kind req_id x ≡ false)
            (some_inj (sym (get_elem?-set_self inven n item (used_up item) there) ∙ e)) refl)
        (λ m. slots_still_free req_id inven n m item (used_up item) there same) rest

  -- The round that finds another item.
  other_item :
      is_kind req_id item ≡ false
      → Consumes req_id slots inven count (consume req_id inven slots count)
      → Consumes req_id (pos n ∷ slots) inven count (consume req_id inven slots count)
  unfolding at_int
  other_item other rest =
      later_round req_id slots inven inven count count n _ refl refl (λ h. h)
        (λ x e. subst (λ (x : Item). is_kind req_id x ≡ false) (some_inj (sym there ∙ e)) other)
        (λ m f. f) rest

module _ (req_id : ℕ) (slots : List ℤ)
    (rest : (inven : List Item) (count : ℤ)
      → length inven ≡ 50
      → Consumes req_id slots inven count (consume req_id inven slots count)) where
  next_round-Consumes :
      (inven : List Item) (n : ℕ) (count : ℤ) (item : Item)
      → length inven ≡ 50
      → get_elem? inven n ≡ some item
      → Consumes req_id (pos n ∷ slots) inven count (next_round req_id inven n slots count item)
  next_round-Consumes inven n count item size there = elim (Bool-cases (is_kind req_id item)) [
    | inl same ↦
        subst (Consumes req_id (pos n ∷ slots) inven count)
          (sym (if_true (is_kind req_id item) _ _ same))
          (elim (Bool-cases (ltb_ℤ count item.opt)) [
            | inl more ↦
                subst (Consumes req_id (pos n ∷ slots) inven count)
                  (sym (if_true (ltb_ℤ count item.opt) _ _ more))
                  (last_round req_id inven n slots count item there same)
            | inr less ↦
                subst (Consumes req_id (pos n ∷ slots) inven count)
                  (sym (if_false (ltb_ℤ count item.opt) _ _ less))
                  (whole_stack req_id inven n slots count item there same less (
                    rest (set inven n (used_up item)) (count -ℤ item.opt)
                      (length-set inven n (used_up item) ∙ size)))
          ])
    | inr other ↦
        subst (Consumes req_id (pos n ∷ slots) inven count)
          (sym (if_false (is_kind req_id item) _ _ other))
          (other_item req_id inven n slots count item there other (rest inven count size))
  ]

nothing_left : (left : ℤ) → leb_ℤ left (pos 0) ≡ true → pos 0 ≤ℤ left → left ≡ pos 0
nothing_left left h k = ground arith

consume-Consumes :
    (req_id : ℕ) (inven : List Item) (slots : List ℤ) (count : ℤ)
    → length inven ≡ 50
    → is_garbage slots ≡ false
    → Consumes req_id slots inven count (consume req_id inven slots count)
unfolding consume at_int
consume-Consumes req_id inven [] count size h =
    (inven, count, refl, refl, refl, λ low. (low, inr tt), λ m f. f)
consume-Consumes req_id inven (negsuc n ∷ slots) count size h = absurd (ground arith)
consume-Consumes req_id inven (pos n ∷ slots) count size h =
    let (far, fine) =
      or_false (ltb_ℤ (pos n) (pos 0) || leb_ℤ (pos 50) (pos n)) (is_garbage slots) h in
    let near : n < 50 = ground arith in
    let (item, there) = some_elem inven n (omega (arith, near, size)) in
    elim (Bool-cases (leb_ℤ count (pos 0))) [
      | inl done ↦
          subst (Consumes req_id (pos n ∷ slots) inven count)
            (sym (if_true (leb_ℤ count (pos 0)) _ _ done))
            (
              inven,
              count,
              refl,
              refl,
              refl,
              λ low. (low, inl (nothing_left count done low)),
              λ m f. f,
            )
      | inr more ↦
          subst (Consumes req_id (pos n ∷ slots) inven count)
            (sym (
              if_false (leb_ℤ count (pos 0)) _ _ more
              ∙ ap (λ (o : Option Item). o >>= next_round req_id inven n slots count) there))
            (next_round-Consumes req_id slots
              (λ inven count size. consume-Consumes req_id inven slots count size fine) inven n
              count item size there)
    ]

paid_matter :
    (p : Player) (cost : ℤ)
    → IsCapped p
    → ((subtract_capped p fusion_matter cost).fusionmatter ≡ subtract_spec p.fusionmatter cost)
      × ((subtract_capped p fusion_matter cost).inven ≡ p.inven)
unfolding capped_value
paid_matter p cost c = (
  (subtract_capped_lem p fusion_matter fusion_matter cost c).0.0,
  (subtract_capped-SameTrade p fusion_matter cost).0,
)

-- setNanoSkill once the skill is set, for a player with values within their caps and a whole
-- inventory, slots in its range and a required number that is not negative: it answers. Without the
-- fusion matter for the cost nothing happens. Else the cost is paid, the client is told of a success,
-- and what the inventory lost of the required kind of item is the required number less what is still
-- required after the loop, which is not negative; if it is not 0, then no slot that was named has an
-- item of the kind left. A tuning with too few items thus succeeds and takes them all.
pub pay_tuning_lem :
    (tuning : Tuning) (p : NanoPlayer) (req : TuneRequest)
    → IsCapped p.plr
    → length p.plr.inven ≡ 50
    → is_garbage req.need_item_slot_num ≡ false
    → pos 0 ≤ℤ tuning.req_item_count
    → (q : NanoPlayer) × (msgs : List NanoMessage) × (pay_tuning tuning p req ≡ some (q, msgs))
      × ((ltb_ℤ p.plr.fusionmatter (tuning.cost p.plr.level) ≡ true) × (q ≡ p) × (msgs ≡ [])
          ⊎ ((left : ℤ) × (ltb_ℤ p.plr.fusionmatter (tuning.cost p.plr.level) ≡ false)
              × (q.plr.fusionmatter ≡ subtract_spec p.plr.fusionmatter (tuning.cost p.plr.level))
              × (msgs
                  ≡ tune_succ req.nano_id req.tune_id q.plr.fusionmatter
                      (told q.plr.inven req.need_item_slot_num)
                    ∷ [])
              × (units 7 tuning.req_items q.plr.inven +ℤ tuning.req_item_count
                  ≡ units 7 tuning.req_items p.plr.inven +ℤ left)
              × (length q.plr.inven ≡ 50)
              × (pos 0 ≤ℤ left)
              × ((left ≡ pos 0)
                  ⊎ All (IsSpent tuning.req_items q.plr.inven) req.need_item_slot_num)))
unfolding pay_tuning
pay_tuning_lem tuning p req c size fine required =
    let cost = tuning.cost p.plr.level in
    let paid = subtract_capped p.plr fusion_matter cost in
    let (matter, same) = paid_matter p.plr cost c in
    let (used, left, run, kept, length_, ends, _) =
      consume-Consumes tuning.req_items paid.inven req.need_item_slot_num tuning.req_item_count
        (ap length same ∙ size) fine in
    elim (Bool-cases (ltb_ℤ p.plr.fusionmatter cost)) [
      | inl poor ↦ (p, [], if_true (ltb_ℤ p.plr.fusionmatter cost) _ _ poor, inl (poor, refl, refl))
      | inr rich ↦ (
        record p { plr = record paid { inven = used } },
        _,
        if_false (ltb_ℤ p.plr.fusionmatter cost) _ _ rich
            ∙ ap
                (λ (o : Option (List Item × ℤ)). o >>= λ used. some (
                  record p { plr = record paid { inven = used.0 } },
                  tune_succ req.nano_id req.tune_id paid.fusionmatter
                        (told used.0 req.need_item_slot_num)
                      ∷ [],
                ))
                run,
        inr (
          left,
          rich,
          matter,
          refl,
          kept ∙ ap (λ (l : List Item). units 7 tuning.req_items l +ℤ left) same,
          length_ ∙ ap length same ∙ size,
          (ends required).0,
          (ends required).1,
        ),
      )
    ]
