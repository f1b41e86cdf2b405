-- ===== src/Vendors/Combining.antt =====
-- What vendorCombineItems makes of two items.
use open_fusion.Common.{
  ℕ, ◌*◌, ◌/◌, ◌^◌, ◌<◌, ◌≡◌, refl, sym, ap, ◌∙◌, ◌≢◌, ◌⊎◌, inl, inr, Bool, true, false, ◌&&◌,
  Option, some, List, arith, ltb, if◌then◌else◌, Option-cases, get_elem?, set,
}
use open_fusion.Common.Int.{ℤ, pos, ltb_ℤ, leb_ℤ, wrap32}
use open_fusion.Player.{Item, Player, no_item, subtract_capped, taros, capped_value}
use open_fusion.Player.Range.{IsCapped, subtract_spec, subtract_capped_lem}
use open_fusion.Player.Others.{subtract_capped-SameTrade}
use open_fusion.Items.{ItemTable}
use open_fusion.Items.Places.{get_elem?-set_self, get_elem?-set_ne}
use open_fusion.Vendors.{VendorMessage, combine_fail, combine_succ, check}
use open_fusion.Vendors.CrocPot.{
  CrocPotEntry, style_id, combined, combine_cost, after_roll, try_combine, vendor_combine_items,
}
use open_fusion.Vendors.Costs.{bind_inv, bind_some, some_inj}

-- An item with the looks of one item and the id of another.
abbrev pub IsBlend : Item → Item → Item → Type 0
IsBlend new looks stats =
    (new.id ≡ stats.id) × (new.type ≡ looks.type) × (style_id new ≡ style_id looks)

-- The inventory after the roll.
abbrev pub Rolled : Bool → Player → Player → ℕ → ℕ → Item → Item → Type 0
Rolled false p q n m looks stats = q.inven ≡ p.inven
Rolled true p q n m looks stats =
    ((new : Item) × (get_elem? q.inven n ≡ some new) × IsBlend new looks stats)
    × (get_elem? q.inven m ≡ some no_item)

wrap32_small : (n : ℕ) → n < 2 ^ 31 → wrap32 (pos n) ≡ pos n
wrap32_small n h = ground arith

style_kept :
    (looks : Item) (id : ℕ)
    → 0 < style_id looks
    → style_id looks < 2 ^ 15
    → style_id (record looks { opt = wrap32 (pos (style_id looks * 2 ^ 16)); id = id })
      ≡ style_id looks
style_kept looks id low high =
    let e = wrap32_small (style_id looks * 2 ^ 16) (omega (arith, high)) in
    simp e (blend (style_id looks) id low)
  where
    blend :
        (s id : ℕ) → 0 < s → (if ltb 0 (s * 2 ^ 16 / 2 ^ 16) then s * 2 ^ 16 / 2 ^ 16 else id) ≡ s
    blend s id h = ground arith

combined_lem :
    (inven : List Item) (n m : ℕ) (looks stats : Item)
    → n ≢ m
    → get_elem? inven n ≡ some looks
    → get_elem? inven m ≡ some stats
    → 0 < style_id looks
    → style_id looks < 2 ^ 15
    → ((new : Item) × (get_elem? (combined inven n m looks stats) n ≡ some new)
        × IsBlend new looks stats)
      × (get_elem? (combined inven n m looks stats) m ≡ some no_item)
combined_lem inven n m looks stats apart hn hm low high =
    let new : Item = record looks { opt = wrap32 (pos (style_id looks * 2 ^ 16)); id = stats.id } in
    (
      (
        new,
        get_elem?-set_ne (set inven n new) m n no_item (λ e. apart (sym e))
            ∙ get_elem?-set_self inven n looks new hn,
        (refl, refl, style_kept looks stats.id low high),
      ),
      get_elem?-set_self (set inven n new) m stats no_item
          (get_elem?-set_ne inven n m new apart ∙ hm),
    )

-- What holds of a player and a reply after a roll.
abbrev pub Combined :
    ItemTable
    → (ℤ → Option CrocPotEntry)
    → Bool
    → Player
    → ℕ
    → ℕ
    → Item
    → Item
    → Player
    → VendorMessage
    → Type 0
Combined table crocs succeeds p n m looks stats q msg =
    (cost : ℤ) × (new : Item) × (combine_cost table crocs stats looks ≡ some cost)
    × (q.money ≡ subtract_spec p.money cost)
    × (get_elem? q.inven n ≡ some new)
    × (msg ≡ combine_succ succeeds q.money (pos n) (pos m) new)
    × Rolled succeeds p q n m looks stats

charge :
    (p : Player) (cost : ℤ)
    → IsCapped p
    → (subtract_capped p taros cost).money ≡ subtract_spec p.money cost
unfolding capped_value
charge p cost c = (subtract_capped_lem p taros taros cost c).0.0

module _ (n m : ℕ) (looks stats : Item) (n≢m : n ≢ m) (low : 0 < style_id looks)
    (high : style_id looks < 2 ^ 15) where
  rolled :
      (p q : Player) (cost : ℤ) (succeeds : Bool)
      → get_elem? p.inven n ≡ some looks
      → get_elem? p.inven m ≡ some stats
      → q.inven ≡ (
          if succeeds
          then combined (subtract_capped p taros cost).inven n m looks stats
          else (subtract_capped p taros cost).inven)
      → Rolled succeeds p q n m looks stats
  rolled p q cost false hn hm e = e ∙ (subtract_capped-SameTrade p taros cost).0
  rolled p q cost true hn hm e =
      let e' =
        e
        ∙ ap (λ (l : List Item). combined l n m looks stats)
            (subtract_capped-SameTrade p taros cost).0 in
      let ((new, h, b), g) = combined_lem p.inven n m looks stats n≢m hn hm low high in
      (
        (new, ap (λ (l : List Item). get_elem? l n) e' ∙ h, b),
        ap (λ (l : List Item). get_elem? l m) e' ∙ g,
      )

  after_roll_inv :
      (succeeds : Bool) (p q : Player) (cost : ℤ) (msg : VendorMessage)
      → IsCapped p
      → get_elem? p.inven n ≡ some looks
      → get_elem? p.inven m ≡ some stats
      → after_roll succeeds p cost (pos n) (pos m) looks stats ≡ some (q, msg)
      → (new : Item) × (q.money ≡ subtract_spec p.money cost)
        × (get_elem? q.inven n ≡ some new)
        × (msg ≡ combine_succ succeeds q.money (pos n) (pos m) new)
        × Rolled succeeds p q n m looks stats
  unfolding after_roll
  after_roll_inv succeeds p q cost msg c hn hm h =
      let paid = subtract_capped p taros cost in
      let inven = if succeeds then combined paid.inven n m looks stats else paid.inven in
      let (new, here, h) = bind_inv (get_elem? inven n) _ (q, msg) h in
      let same = some_inj h in
      let who = sym (ap (λ z. z.0) same) in
      let money = ap (λ (z : Player). z.money) who in
      (
        new,
        money ∙ charge p cost c,
        ap (λ (z : Player). get_elem? z.inven n) who ∙ here,
        sym (ap (λ z. z.1) same)
            ∙ ap (λ (v : ℤ). combine_succ succeeds v (pos n) (pos m) new) (sym money),
        rolled p q cost succeeds hn hm (ap (λ (z : Player). z.inven) who),
      )

  try_combine-Combined :
      (table : ItemTable) (crocs : ℤ → Option CrocPotEntry) (succeeds : Bool) (p q : Player)
      (msg : VendorMessage)
      → IsCapped p
      → get_elem? p.inven n ≡ some looks
      → get_elem? p.inven m ≡ some stats
      → try_combine table crocs succeeds p (pos n) (pos m) ≡ some (q, msg)
      → Combined table crocs succeeds p n m looks stats q msg
  unfolding try_combine
  try_combine-Combined table crocs succeeds p q msg c hn hm h =
      let (u1, range, h) =
        bind_inv
          (check (
            leb_ℤ (pos 0) (pos n)
            && ltb_ℤ (pos n) (pos 50)
            && leb_ℤ (pos 0) (pos m)
            && ltb_ℤ (pos m) (pos 50)))
          _ (q, msg) h in
      let h = bind_some (get_elem? p.inven m) _ stats (q, msg) hm h in
      let h = bind_some (get_elem? p.inven n) _ looks (q, msg) hn h in
      let (cost, price, h) = bind_inv (combine_cost table crocs stats looks) _ (q, msg) h in
      let (new, money, here, reply, kept) = after_roll_inv succeeds p q cost msg c hn hm h in
      (cost, new, price, money, here, reply, kept)

-- vendorCombineItems on two different places, for a player with values within their caps and looks
-- of a style with an id between 1 and 2 ^ 15 - 1: it fails and changes nothing, or a cost is taken
-- (what there is of it), and if the roll succeeds the place of the looks has an item with their type
-- and style and the id of the stats, and the place of the stats is empty; else the items stay.
pub vendor_combine_items_lem :
    (table : ItemTable) (crocs : ℤ → Option CrocPotEntry) (succeeds : Bool) (p : Player) (n m : ℕ)
    (looks stats : Item)
    → IsCapped p
    → n ≢ m
    → get_elem? p.inven n ≡ some looks
    → get_elem? p.inven m ≡ some stats
    → 0 < style_id looks
    → style_id looks < 2 ^ 15
    → (vendor_combine_items table crocs succeeds p (pos n) (pos m)
        ≡ (p, combine_fail (pos n) (pos m)))
      ⊎ ((q : Player) × (msg : VendorMessage) × (vendor_combine_items table crocs succeeds p
              (pos n)
              (pos m)
            ≡ (q, msg))
          × Combined table crocs succeeds p n m looks stats q msg)
unfolding vendor_combine_items
vendor_combine_items_lem table crocs succeeds p n m looks stats c apart hn hm low high =
    elim (Option-cases (try_combine table crocs succeeds p (pos n) (pos m))) [
      | inl e ↦ inl (rw e refl)
      | inr ((q, msg), e) ↦ inr (
        q,
        msg,
        rw e refl,
        try_combine-Combined n m looks stats apart low high table crocs succeeds p q msg c hn hm e,
      )
    ]
