-- ===== src/Email/Checking.antt =====
-- The sanity checks of emailSend: what they say of each item, and of the slots together.
-- The items of a request that are attached.
use open_fusion.Common.{or_false, if_true, if_false}
use open_fusion.Common.{
  ℕ, suc, ◌<◌, ◌≡◌, refl, sym, ap, subst, ◌∙◌, ◌≢◌, ◌⊎◌, inl, inr, true, false, ◌||◌, none, some,
  List, [], ◌∷◌, arith, leb, ◌==◌, if◌then◌else◌, Bool-cases, get_elem?,
}
use open_fusion.Common.Int.{ℤ, pos, negsuc, ltb_ℤ, leb_ℤ, pos_part}
use open_fusion.Player.{Item}
use open_fusion.Protocol.Cipher.{◌>>=◌}
use open_fusion.Email.{SentItem}
use open_fusion.Email.Post.{is_seen, is_forged, real_item, check_items}
use open_fusion.Vendors.Costs.{bind_inv, some_inj}

abbrev pub attached_of : List SentItem → List SentItem
attached_of [] = []
attached_of (a ∷ items) = if a.item.id == 0 then attached_of items else a ∷ attached_of items

pub attached_of_empty :
    (a : SentItem) (items : List SentItem)
    → (a.item.id == 0) ≡ true
    → attached_of (a ∷ items) ≡ attached_of items
attached_of_empty a items e = if_true (a.item.id == 0) (attached_of items) (a ∷ attached_of items) e

pub attached_of_full :
    (a : SentItem) (items : List SentItem)
    → (a.item.id == 0) ≡ false
    → attached_of (a ∷ items) ≡ a ∷ attached_of items
attached_of_full a items e = if_false (a.item.id == 0) (attached_of items) (a ∷ attached_of items) e

-- A slot that no item names.
abbrev pub IsSpared : ℕ → List SentItem → Type 0
IsSpared k [] = Unit
IsSpared k (a ∷ attached) = (pos_part a.slot_num ≢ k) × IsSpared k attached

-- Slots of the inventory, none twice.
abbrev pub AreApart : List SentItem → Type 0
AreApart [] = Unit
AreApart (a ∷ attached) =
    (pos_part a.slot_num < 50) × IsSpared (pos_part a.slot_num) attached × AreApart attached

real_item_inv :
    (inven : List Item) (a : SentItem) (real : Item)
    → real_item inven a ≡ some real
    → (pos (pos_part a.slot_num) ≡ a.slot_num)
      × (pos_part a.slot_num < 50)
      × (get_elem? inven (pos_part a.slot_num) ≡ some real)
unfolding real_item
real_item_inv inven a real h = by_sign a.slot_num h
  where
    by_sign :
        (s : ℤ)
        → (if ltb_ℤ s (pos 0) || leb_ℤ (pos 50) s then none else get_elem? inven (pos_part s))
          ≡ some real
        → (pos (pos_part s) ≡ s) × (pos_part s < 50) × (get_elem? inven (pos_part s) ≡ some real)
    by_sign (negsuc n) h = absurd (ground arith)
    by_sign (pos n) h = elim (Bool-cases (leb 50 n)) [
      | inl far ↦ absurd (ground arith)
      | inr near ↦ (refl, ground arith, ground arith)
    ]

-- An item that passes the checks of its slot, and the checks of the items after it.
rest_of_checks :
    (inven : List Item) (seen : List ℤ) (a : SentItem) (items : List SentItem) (real : Item)
    (count : ℕ)
    → (if is_seen a.slot_num seen || is_forged a.item real
        then none
        else (check_items inven (a.slot_num ∷ seen) items >>= λ n. some (suc n)))
      ≡ some count
    → (is_seen a.slot_num seen ≡ false)
      × (is_forged a.item real ≡ false)
      × ((rest : ℕ) × (check_items inven (a.slot_num ∷ seen) items ≡ some rest)
          × (suc rest ≡ count))
rest_of_checks inven seen a items real count h =
    elim (Bool-cases (is_seen a.slot_num seen || is_forged a.item real)) [
      | inl bad ↦ absurd (ground arith)
      | inr good ↦
          let (fresh, honest) = or_false (is_seen a.slot_num seen) (is_forged a.item real) good in
          let (rest, e, f) =
            bind_inv (check_items inven (a.slot_num ∷ seen) items) (λ n. some (suc n)) count
              (ground arith) in
          (fresh, honest, (rest, e, some_inj f))
    ]

-- An empty place, or an item that is attached and the checks of those after it.
abbrev Checks : List Item → List ℤ → SentItem → List SentItem → ℕ → Type 0
Checks inven seen a items count =
    (((a.item.id == 0) ≡ true) × (check_items inven seen items ≡ some count))
    ⊎ ((real : Item) × (rest : ℕ) × ((a.item.id == 0) ≡ false)
        × (pos (pos_part a.slot_num) ≡ a.slot_num)
        × (pos_part a.slot_num < 50)
        × (get_elem? inven (pos_part a.slot_num) ≡ some real)
        × (is_seen a.slot_num seen ≡ false)
        × (is_forged a.item real ≡ false)
        × (check_items inven (a.slot_num ∷ seen) items ≡ some rest)
        × (suc rest ≡ count))

pub check_cases :
    (inven : List Item) (seen : List ℤ) (a : SentItem) (items : List SentItem) (count : ℕ)
    → check_items inven seen (a ∷ items) ≡ some count
    → Checks inven seen a items count
unfolding check_items
check_cases inven seen a items count h =
    let (real, there, goes_on) =
      bind_inv (real_item inven a)
        (λ real.
          if a.item.id == 0
          then check_items inven seen items
          else if is_seen a.slot_num seen || is_forged a.item real
          then none
          else (check_items inven (a.slot_num ∷ seen) items >>= λ n. some (suc n)))
        count h in
    let (same, near, holds) = real_item_inv inven a real there in
    elim (Bool-cases (a.item.id == 0)) [
      | inl empty ↦ inl (empty, sym (if_true (a.item.id == 0) _ _ empty) ∙ goes_on)
      | inr full ↦
          let (fresh, honest, (rest, after, counts)) =
            rest_of_checks inven seen a items real count
              (sym (if_false (a.item.id == 0) _ _ full) ∙ goes_on) in
          inr (real, rest, full, same, near, holds, fresh, honest, after, counts)
    ]

seen_first : (k : ℕ) (s : ℤ) (seen : List ℤ) → pos k ≡ s → is_seen (pos k) (s ∷ seen) ≡ true
seen_first k s seen e = ground arith

seen_later : (k s : ℤ) (seen : List ℤ) → is_seen k seen ≡ true → is_seen k (s ∷ seen) ≡ true
seen_later k s seen e = ground arith

-- A slot that was seen is not attached again.
seen-IsSpared :
    (inven : List Item) (seen : List ℤ) (items : List SentItem) (count k : ℕ)
    → check_items inven seen items ≡ some count
    → is_seen (pos k) seen ≡ true
    → IsSpared k (attached_of items)
seen-IsSpared inven seen [] count k h s = tt
seen-IsSpared inven seen (a ∷ items) count k h s = elim (check_cases inven seen a items count h) [
  | inl (empty, after) ↦
      subst (IsSpared k) (sym (attached_of_empty a items empty))
        (seen-IsSpared inven seen items count k after s)
  | inr (real, rest, full, same, near, holds, fresh, honest, after, counts) ↦
      subst (IsSpared k) (sym (attached_of_full a items full)) (
        λ e. true_false (sym s ∙ ap (λ (z : ℤ). is_seen z seen) (ap pos (sym e) ∙ same) ∙ fresh),
        seen-IsSpared inven (a.slot_num ∷ seen) items rest k after
            (seen_later (pos k) a.slot_num seen s),
      )
]
  where
    true_false : true ≡ false → ⊥
    true_false h = ground arith

-- Items that pass the checks are in different slots of the inventory.
pub checks-AreApart :
    (inven : List Item) (seen : List ℤ) (items : List SentItem) (count : ℕ)
    → check_items inven seen items ≡ some count
    → AreApart (attached_of items)
checks-AreApart inven seen [] count h = tt
checks-AreApart inven seen (a ∷ items) count h = elim (check_cases inven seen a items count h) [
  | inl (empty, after) ↦
      subst AreApart (sym (attached_of_empty a items empty))
        (checks-AreApart inven seen items count after)
  | inr (real, rest, full, same, near, holds, fresh, honest, after, counts) ↦
      subst AreApart (sym (attached_of_full a items full)) (
        near,
        seen-IsSpared inven (a.slot_num ∷ seen) items rest (pos_part a.slot_num) after
            (seen_first (pos_part a.slot_num) a.slot_num seen same),
        checks-AreApart inven (a.slot_num ∷ seen) items rest after,
      )
]
