-- ===== src/Items/Slots.antt =====
-- Free places of the inventory: findFreeSlot and itemDeleteHandler.
use open_fusion.Common.{
  ℕ, zero, suc, ◌+◌, ◌≤◌, ◌<◌, ◌≡◌, refl, sym, ap, subst, ◌∙◌, inl, inr, true, false, Option, none,
  some, List, [], ◌∷◌, arith, leb, if◌then◌else◌, Bool-cases, length, get_elem?,
}
use open_fusion.Common.Int.{ℤ, pos, ltb_ℤ}
use open_fusion.Player.{Item, Player}
use open_fusion.Items.{is_free, free_from, find_free_slot, inventory_slot, Place, item_at, put_item}
use open_fusion.Items.Move.{item_delete, item_delete_succ}
use open_fusion.Items.Places.{Apart, item_at-put_self, item_at-put_ne}
use open_fusion.Items.Kitted.{IsKitted, item_at_found, put_item-IsKitted}

-- The places of a list before n that hold an item, all of them.
abbrev pub TakenBefore : List Item → ℕ → Type 0
TakenBefore xs n = (m : ℕ) → m < n → (x : Item) → get_elem? xs m ≡ some x → is_free x ≡ false

-- What a search for a free place returns.
abbrev pub IsFirstFree : List Item → Option ℕ → Type 0
IsFirstFree xs none = TakenBefore xs (length xs)
IsFirstFree xs (some n) =
    ((x : Item) × (get_elem? xs n ≡ some x) × (is_free x ≡ true)) × TakenBefore xs n

-- The search counts from k.
abbrev shift : ℕ → Option ℕ → Option ℕ
shift k none = none
shift k (some n) = some (n + k)

taken_cons :
    (x : Item) (xs : List Item) (n : ℕ)
    → is_free x ≡ false
    → TakenBefore xs n
    → TakenBefore (x ∷ xs) (suc n)
taken_cons x xs n e h zero l y g = subst (λ z. is_free z ≡ false) (some_inj g) e
  where
    some_inj : {a b : Item} → some a ≡ some b → a ≡ b
    some_inj h = ground arith
taken_cons x xs n e h (suc m) l y g = h m (omega (arith, l)) y g

free_from-IsFirstFree :
    (xs : List Item) (k : ℕ) → (o : Option ℕ) × (free_from xs k ≡ shift k o) × IsFirstFree xs o
unfolding free_from
free_from-IsFirstFree [] k = (none, refl, λ m h. absurd (omega (arith, h)))
free_from-IsFirstFree (x ∷ xs) k = elim (Bool-cases (is_free x)) [
  | inl e ↦
      (some 0, simp e (ap some (omega arith)), ((x, refl, e), λ m h. absurd (omega (arith, h))))
  | inr e ↦ later e (free_from-IsFirstFree xs (k + 1))
]
  where
    later :
        is_free x ≡ false
        → (o : Option ℕ) × (free_from xs (k + 1) ≡ shift (k + 1) o) × IsFirstFree xs o
        → (o : Option ℕ) × ((if is_free x then some k else free_from xs (k + 1)) ≡ shift k o)
          × IsFirstFree (x ∷ xs) o
    later e (none, g, h) = (none, simp (e, g) refl, taken_cons x xs (length xs) e h)
    later e (some n, g, (f, h)) =
        (some (suc n), simp e (g ∙ ap some (omega arith)), (f, taken_cons x xs n e h))

-- findFreeSlot returns the first place of the inventory whose type, id and amount are 0, and -1 only
-- if there is none.
pub find_free_slot-IsFirstFree : (p : Player) → IsFirstFree p.inven (find_free_slot p)
unfolding find_free_slot
find_free_slot-IsFirstFree p =
    let (o, e, h) = free_from-IsFirstFree p.inven 0 in
    subst (IsFirstFree p.inven) (sym (e ∙ unshift o)) h
  where
    unshift : (o : Option ℕ) → shift 0 o ≡ o
    unshift none = refl
    unshift (some n) = ap some (omega arith)

-- A place that is free ends the search there or before.
found_before :
    (xs : List Item) (n : ℕ) (x : Item) (o : Option ℕ)
    → get_elem? xs n ≡ some x
    → is_free x ≡ true
    → n < length xs
    → IsFirstFree xs o
    → (m : ℕ) × (o ≡ some m) × (m ≤ n)
found_before xs n x none g f l h = absurd (true_false (sym f ∙ h n l x g))
  where
    true_false : true ≡ false → ⊥
    true_false h = ground arith
found_before xs n x (some m) g f l (h, before) = elim (Bool-cases (leb m n)) [
  | inl e ↦ (m, refl, ground arith)
  | inr e ↦ absurd (true_false (sym f ∙ before n (ground arith) x g))
]
  where
    true_false : true ≡ false → ⊥
    true_false h = ground arith

inven_of : (q : Player) (n : ℕ) → get_elem? q.inven n ≡ item_at q (inventory_slot, n)
unfolding item_at
inven_of q n = refl

-- itemDeleteHandler with a number in the range of the inventory answers, leaves every other place
-- as it is, and makes findFreeSlot succeed, with that place or one before it.
pub item_delete_frees :
    (p : Player) (e_il : ℤ) (n : ℕ)
    → IsKitted p
    → n < 50
    → (q : Player) × (item_delete p e_il (pos n) ≡ some (q, item_delete_succ e_il (pos n) ∷ []))
      × IsKitted q
      × ((s : Place) → Apart (inventory_slot, n) s → item_at q s ≡ item_at p s)
      × ((m : ℕ) × (find_free_slot q ≡ some m) × (m ≤ n))
unfolding item_delete
item_delete_frees p e_il n k l =
    let (old, e) = item_at_found p (inventory_slot, n) k l in
    let cleared : Item = record old { id = 0; type = 0; opt = pos 0 } in
    let q = put_item p (inventory_slot, n) cleared in
    let kq = put_item-IsKitted p (inventory_slot, n) cleared k in
    let range : ltb_ℤ (pos n) (pos 50) ≡ true = ground arith in
    let low : ltb_ℤ (pos n) (pos 0) ≡ false = ground arith in
    (
      q,
      simp (low, range, e) refl,
      kq,
      λ s apart. item_at-put_ne p (inventory_slot, n) s cleared apart,
      found_before q.inven n cleared (find_free_slot q)
          (inven_of q n ∙ item_at-put_self p (inventory_slot, n) old cleared e) refl
          (omega (arith, l, kq.1)) (find_free_slot-IsFirstFree q),
    )
