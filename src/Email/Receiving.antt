-- ===== src/Email/Receiving.antt =====
-- What emailReceiveItemSingle and emailReceiveItemAll do to an inventory.
use open_fusion.Common.{if_false}
use open_fusion.Common.{
  ◌++◌, ℕ, zero, suc, ◌+◌, ◌-◌, ◌≤◌, ◌<◌, ◌≡◌, refl, sym, ap, subst, ◌∙◌, ◌≢◌, ◌⊎◌, inl, inr, Bool,
  true, false, ◌||◌, Option, none, some, List, [], ◌∷◌, arith, leb, if◌then◌else◌, Bool-cases,
  Option-cases, length, get_elem?, set, length-set,
}
use open_fusion.Common.Int.{ℤ, pos, negsuc, ◌+ℤ◌, ltb_ℤ, leb_ℤ, int_laws, parts_of_eq}
use open_fusion.Player.{Item, Player, no_item}
use open_fusion.Protocol.Cipher.{◌>>=◌}
use open_fusion.Items.{find_free_slot, free_from, is_free}
use open_fusion.Trading.Exchange.Units.{counted, units, units-set}
use open_fusion.Items.Places.{weight, get_elem?-set_self, get_elem?-set_ne}
use open_fusion.Items.Kitted.{some_lt}
use open_fusion.Email.{
  give_item, item_succ, EmailAction, receive_items, slot_for, email_receive_item_all,
  email_receive_item_single,
}
use open_fusion.Vendors.Costs.{some_inj}
use open_fusion.Items.Slots.{IsFirstFree, find_free_slot-IsFirstFree}
use open_fusion.Email.{email_receive_item_single, delete_attachments}
use open_fusion.Email.{receive_item, item_all_succ}

abbrev pub free_count : List Item → ℕ
free_count [] = 0
free_count (x ∷ xs) = (if is_free x then 1 else 0) + free_count xs

abbrev pub item_count : List Item → ℕ
item_count [] = 0
item_count (x ∷ xs) = (if is_free x then 0 else 1) + item_count xs

no_place_is_free : (l : List Item) (k : ℕ) → free_from l k ≡ none → free_count l ≡ 0
unfolding free_from
no_place_is_free [] k h = refl
no_place_is_free (x ∷ xs) k h = elim (Bool-cases (is_free x)) [
  | inl e ↦ absurd (ground arith)
  | inr e ↦
      simp e (omega (arith, no_place_is_free xs (k + 1) (sym (if_false (is_free x) _ _ e) ∙ h)))
]

free_count-set :
    (l : List Item) (n : ℕ) (old x : Item)
    → get_elem? l n ≡ some old
    → is_free old ≡ true
    → free_count (set l n x) + 1 ≡ free_count l + (if is_free x then 1 else 0)
free_count-set [] n old x h e = absurd (ground arith)
free_count-set (y ∷ l) zero old x h e = simp (ap is_free (some_inj h) ∙ e) (omega arith)
free_count-set (y ∷ l) (suc n) old x h e = omega (arith, free_count-set l n old x h e)

-- A free place counts for nothing.
free_weight : (t i : ℕ) (x : Item) → is_free x ≡ true → weight t i x ≡ pos 0
unfolding counted
free_weight t i x h = ground arith

no_items_weight : (t i : ℕ) (xs : List Item) → item_count xs ≡ 0 → units t i xs ≡ pos 0
no_items_weight t i [] h = refl
no_items_weight t i (x ∷ xs) h = elim (Bool-cases (is_free x)) [
  | inl e ↦ omega (
    int_laws,
    parts_of_eq (free_weight t i x e),
    parts_of_eq (no_items_weight t i xs (counts_rest e)),
  )
  | inr e ↦ absurd (counts_one e)
]
  where
    counts_rest : is_free x ≡ true → item_count xs ≡ 0
    counts_rest e = omega (arith, ap (λ (b : Bool). (if b then 0 else 1) + item_count xs) e, h)

    counts_one : is_free x ≡ false → ⊥
    counts_one e = ground arith

-- What the search for a slot returns for a whole inventory.
abbrev Slot : Player → Option ℕ → Type 0
Slot p o =
    ((o ≡ none) × (free_count p.inven ≡ 0))
    ⊎ ((n : ℕ) × (old : Item) × (o ≡ some n)
        × (get_elem? p.inven n ≡ some old)
        × (is_free old ≡ true))

slot_for_lem : (p : Player) → length p.inven ≡ 50 → Slot p (slot_for p)
unfolding slot_for find_free_slot
slot_for_lem p size = elim (Option-cases (free_from p.inven 0)) [
  | inl none_ ↦ inl (
    ap (λ (o : Option ℕ). o >>= λ slot. if leb 50 slot then none else some slot) none_,
    no_place_is_free p.inven 0 none_,
  )
  | inr (n, some_) ↦
      let ((old, there, free), first) =
        subst (IsFirstFree p.inven) some_ (find_free_slot-IsFirstFree p) in
      let near : leb 50 n ≡ false = below (some_lt p.inven n old there) in
      inr (
        n,
        old,
        ap (λ (o : Option ℕ). o >>= λ slot. if leb 50 slot then none else some slot) some_
            ∙ if_false (leb 50 n) none (some n) near,
        there,
        free,
      )
]
  where
    below : {n : ℕ} → n < length p.inven → leb 50 n ≡ false
    below h = ground (arith, size)

-- The player with an inventory that holds the items as well.
abbrev pub Received : ℕ → ℕ → Player → List Item → Player → Type 0
Received t i p items r =
    (l : List Item) × (r ≡ record p { inven = l })
    × (length l ≡ 50)
    × (units t i l ≡ units t i p.inven +ℤ units t i items)

receive_full :
    (p : Player) (items : List Item) → slot_for p ≡ none → receive_items p items ≡ (p, [])
unfolding receive_items
receive_full p [] h = refl
receive_full p (x ∷ xs) h = ap (receive_item p x (λ q. receive_items q xs)) h

receive_one :
    (p : Player) (x : Item) (xs : List Item) (n : ℕ)
    → slot_for p ≡ some n
    → (receive_items p (x ∷ xs)).0 ≡ (receive_items (record p { inven = set p.inven n x }) xs).0
unfolding receive_items
receive_one p x xs n h = ap (λ (o : Option ℕ). (receive_item p x (λ q. receive_items q xs) o).0) h

room_after :
    {a b c : ℕ} (x : Item)
    → (if is_free x then 0 else 1) + a ≤ b
    → c + 1 ≡ b + (if is_free x then 1 else 0)
    → a ≤ c
room_after x h e = ground arith

pub receive_items-Received :
    (t i : ℕ) (p : Player) (items : List Item)
    → length p.inven ≡ 50
    → item_count items ≤ free_count p.inven
    → Received t i p items (receive_items p items).0
unfolding receive_items
receive_items-Received t i p [] size room = (p.inven, refl, size, omega int_laws)
receive_items-Received t i p (x ∷ xs) size room = elim (slot_for_lem p size) [
  | inl (full, none_) ↦ (
    p.inven,
    ap (λ z. z.0) (receive_full p (x ∷ xs) full),
    size,
    omega (int_laws, parts_of_eq (no_items_weight t i (x ∷ xs) (omega (arith, room, none_)))),
  )
  | inr (n, old, found, there, free) ↦
      let q = record p { inven = set p.inven n x } in
      let (l, same, size_, h) =
        receive_items-Received t i q xs (length-set p.inven n x ∙ size)
          (room_after x room (free_count-set p.inven n old x there free)) in
      (
        l,
        receive_one p x xs n found ∙ same,
        size_,
        omega (
          int_laws,
          parts_of_eq h,
          parts_of_eq (units-set t i p.inven n old x there),
          parts_of_eq (free_weight t i old free),
        ),
      )
]

-- emailReceiveItemAll, for a player with a whole inventory that has a free place for each
-- attachment: it holds as much of any kind of item (type t, id i) as before and the attachments
-- together, its size and everything else of the player stay, and the email has lost its attachments.
pub email_receive_item_all_lem :
    (t i : ℕ) (attachments : List Item) (p : Player) (index : ℤ)
    → length p.inven ≡ 50
    → item_count attachments ≤ free_count p.inven
    → Received t i p attachments (email_receive_item_all attachments p index).0
unfolding email_receive_item_all
email_receive_item_all_lem t i attachments p index = receive_items-Received t i p attachments

-- emailReceiveItemAll, for a player with a whole inventory that is full: nothing arrives, and all
-- attachments are deleted.
pub email_receive_item_all_loses :
    (attachments : List Item) (p : Player) (index : ℤ)
    → length p.inven ≡ 50
    → free_count p.inven ≡ 0
    → email_receive_item_all attachments p index
      ≡ (p, delete_attachments p.id index (negsuc 0) ∷ item_all_succ index ∷ [])
unfolding email_receive_item_all
email_receive_item_all_loses attachments p index size none_ = elim (slot_for_lem p size) [
  | inl (full, e) ↦
      ap
        (λ (z : Player × List EmailAction).
          (z.0, z.1 ++ delete_attachments p.id index (negsuc 0) ∷ item_all_succ index ∷ []))
        (receive_full p attachments full)
  | inr (n, old, found, there, free) ↦
      absurd (
        omega (arith, none_, free_count-set p.inven n old (record no_item { type = 1 }) there free))
]

-- emailReceiveItemSingle, for an attachment x and a slot of the inventory that holds `old`: the slot
-- holds the attachment, every other slot is as before, and what was there is gone.
pub email_receive_item_single_lem :
    (t i : ℕ) (attachments : List Item) (p : Player) (index : ℤ) (slot n : ℕ) (old x : Item)
    → slot < 50
    → n < 4
    → get_elem? attachments n ≡ some x
    → get_elem? p.inven slot ≡ some old
    → (q : Player) × (msgs : List EmailAction) × (email_receive_item_single attachments p index
          (pos slot)
          (pos (suc n))
        ≡ some (q, msgs))
      × (get_elem? q.inven slot ≡ some x)
      × ((k : ℕ) → slot ≢ k → get_elem? q.inven k ≡ get_elem? p.inven k)
      × (units t i q.inven +ℤ weight t i old ≡ units t i p.inven +ℤ weight t i x)
unfolding email_receive_item_single
email_receive_item_single_lem t i attachments p index slot n old x near few here there =
    let range : (ltb_ℤ (pos slot) (pos 0)
          || leb_ℤ (pos 50) (pos slot)
          || ltb_ℤ (pos (suc n)) (pos 1)
          || ltb_ℤ (pos 4) (pos (suc n)))
        ≡ false =
      ground arith in
    let first : suc n - 1 ≡ n = omega arith in
    (
      record p { inven = set p.inven slot x },
      delete_attachments p.id index (pos (suc n))
          ∷ item_succ index (pos (suc n)) (pos slot)
          ∷ give_item slot x
          ∷ [],
      simp (range, first, here, there) refl,
      get_elem?-set_self p.inven slot old x there,
      λ k apart. get_elem?-set_ne p.inven slot k x apart,
      units-set t i p.inven slot old x there,
    )
