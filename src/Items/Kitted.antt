-- ===== src/Items/Kitted.antt =====
-- The sizes of a player's arrays, which no handler changes.
use open_fusion.Common.{
  ℕ, zero, suc, ◌<◌, ◌≡◌, refl, take, subst, ◌∙◌, inl, inr, Bool, true, false, Option, none, some,
  List, [], ◌∷◌, arith, if◌then◌else◌, Bool-cases, length, get_elem?, length-set,
}
use open_fusion.Common.Int.{pos_part, ℤ, pos, negsuc, ◌+ℤ◌, ◌-ℤ◌, ltb_ℤ, eqb_ℤ}
use open_fusion.Player.{Item, Player}
use open_fusion.Protocol.Cipher.{◌>>=◌}
use open_fusion.Items.{
  ItemTable, SlotType, equip_slot, inventory_slot, bank_slot, Place, size_of, slot_type, place_of,
  item_at, put_item,
}
use open_fusion.Items.Move.{
  common_stack, spill, clear_depleted, stack_items, swap_items, move_items, add_stats,
  add_all_stats, set_item_stats,
}

abbrev pub IsKitted : Player → Type 0
IsKitted p = (length p.equip ≡ 9) × (length p.inven ≡ 50) × (length p.bank ≡ 119)

abbrev pub IsPlace : Place → Type 0
IsPlace s = s.1 < size_of s.0

pub some_elem {ℓ} :
    {A : Type ℓ} (xs : List A) (n : ℕ) → n < length xs → (x : A) × (get_elem? xs n ≡ some x)
some_elem [] n h = absurd (omega (arith, h))
some_elem (x ∷ xs) zero h = (x, refl)
some_elem (x ∷ xs) (suc n) h = some_elem xs n (omega (arith, h))

pub some_lt {ℓ} :
    {A : Type ℓ} (xs : List A) (n : ℕ) (x : A) → get_elem? xs n ≡ some x → n < length xs
some_lt [] n x h = absurd (ground arith)
some_lt (y ∷ xs) zero x h = omega arith
some_lt (y ∷ xs) (suc n) x h = omega (arith, some_lt xs n x h)

pub item_at_found :
    (p : Player) (s : Place) → IsKitted p → IsPlace s → (x : Item) × (item_at p s ≡ some x)
unfolding item_at
item_at_found p (equip_slot, n) k h = some_elem p.equip n (omega (arith, k.0, h))
item_at_found p (inventory_slot, n) k h = some_elem p.inven n (omega (arith, k.1, h))
item_at_found p (bank_slot, n) k h = some_elem p.bank n (omega (arith, k.2, h))

pub put_item-IsKitted : (p : Player) (s : Place) (x : Item) → IsKitted p → IsKitted (put_item p s x)
unfolding put_item
put_item-IsKitted p (equip_slot, n) x (a, b, c) = (length-set p.equip n x ∙ a, b, c)
put_item-IsKitted p (inventory_slot, n) x (a, b, c) = (a, length-set p.inven n x ∙ b, c)
put_item-IsKitted p (bank_slot, n) x (a, b, c) = (a, b, length-set p.bank n x ∙ c)

-- A step that ends, if it ends, with a player whose arrays have their sizes.
abbrev Keeps : Option Player → Type 0
Keeps none = Unit
Keeps (some p) = IsKitted p

with_item :
    {A : Type 0} (o : Option A) (k : A → Option Player) → ((x : A) → Keeps (k x)) → Keeps (o >>= k)
with_item none k h = tt
with_item (some x) k h = h x

with_player :
    (o : Option Player) (k : Player → Option Player)
    → Keeps o
    → ((p : Player) → IsKitted p → Keeps (k p))
    → Keeps (o >>= k)
with_player none k h r = tt
with_player (some p) k h r = r p h

if-Keeps : (b : Bool) (x y : Option Player) → Keeps x → Keeps y → Keeps (if b then x else y)
if-Keeps true x y h g = h
if-Keeps false x y h g = g

spill-Keeps : (stack : ℤ) (p : Player) (s d : Place) → IsKitted p → Keeps (spill stack p s d)
unfolding spill
spill-Keeps stack p s d k = with_item (item_at p d) _ (λ to.
    if-Keeps (ltb_ℤ stack to.opt) _ _
      (with_item (item_at p s) _ (λ from.
        with_item (item_at (put_item p s (record from { opt = from.opt +ℤ (to.opt -ℤ stack) })) d) _
          (λ to'. put_item-IsKitted _ d _ (put_item-IsKitted p s _ k))))
      k)

clear_depleted-Keeps : (p : Player) (s : Place) → IsKitted p → Keeps (clear_depleted p s)
unfolding clear_depleted
clear_depleted-Keeps p s k =
    with_item (item_at p s) _
      (λ from. if-Keeps (eqb_ℤ from.opt (pos 0)) _ _ (put_item-IsKitted p s _ k) k)

stack_items-Keeps :
    (stack : ℤ) (p : Player) (s d : Place) → IsKitted p → Keeps (stack_items stack p s d)
unfolding stack_items
stack_items-Keeps stack p s d k = with_item (item_at p s) _ (λ from.
    with_item (item_at p d) _ (λ to.
      let p1 = put_item p d (record to { opt = to.opt +ℤ from.opt }) in
      with_item (item_at p1 s) _ (λ from1.
        let p2 = put_item p1 s (record from1 { opt = pos 0 }) in
        with_player (spill stack p2 s d) _
          (spill-Keeps stack p2 s d (put_item-IsKitted p1 s _ (put_item-IsKitted p d _ k)))
          (λ p3 k3. clear_depleted-Keeps p3 s k3))))

swap_items-Keeps : (p : Player) (s d : Place) → IsKitted p → Keeps (swap_items p s d)
unfolding swap_items
swap_items-Keeps p s d k =
    with_item (item_at p s) _ (λ from.
      with_item (item_at p d) _ (λ to. put_item-IsKitted _ s _ (put_item-IsKitted p d _ k)))

pub move_items-IsKitted :
    (table : ItemTable) (p q : Player) (s d : Place) (from to : Item)
    → IsKitted p
    → move_items table p s d from to ≡ some q
    → IsKitted q
unfolding move_items
move_items-IsKitted table p q s d from to k h = subst Keeps h (choice (common_stack table from to))
  where
    choice :
        (o : Option ℤ)
        → Keeps (elim o [ some stack ↦ stack_items stack p s d | none ↦ swap_items p s d ])
    choice none = swap_items-Keeps p s d k
    choice (some stack) = stack_items-Keeps stack p s d k

-- The same three arrays.
abbrev pub SamePlaces : Player → Player → Type 0
SamePlaces p q = (q.equip ≡ p.equip) × (q.inven ≡ p.inven) × (q.bank ≡ p.bank)

add_stats-SamePlaces :
    (table : ItemTable) (p : Player) (x : Item) → SamePlaces p (add_stats table p x)
add_stats-SamePlaces table p x = ground arith

add_all_stats-SamePlaces :
    (table : ItemTable) (p : Player) (xs : List Item) → SamePlaces p (add_all_stats table p xs)
unfolding add_all_stats
add_all_stats-SamePlaces table p [] = (refl, refl, refl)
add_all_stats-SamePlaces table p (x ∷ xs) =
    let (a, b, c) = add_stats-SamePlaces table p x in
    let (a', b', c') = add_all_stats-SamePlaces table (add_stats table p x) xs in
    (a' ∙ a, b' ∙ b, c' ∙ c)

pub set_item_stats-SamePlaces :
    (table : ItemTable) (p : Player) → SamePlaces p (set_item_stats table p)
unfolding set_item_stats
set_item_stats-SamePlaces table p = add_all_stats-SamePlaces table _ (take 4 p.equip)

below : (m j : ℕ) → ltb_ℤ (pos m) (pos j) ≡ true → m < j
below m j h = ground arith

sized :
    (k : SlotType) (m : ℕ) (s : Place)
    → (if ltb_ℤ (pos m) (pos (size_of k)) then some (k, m) else none) ≡ some s
    → (m < size_of k) × (s ≡ (k, m))
sized k m s h = elim (Bool-cases (ltb_ℤ (pos m) (pos (size_of k)))) [
  | inl e ↦ (below m (size_of k) e, place_inj (simp e at h))
  | inr e ↦ absurd (no_place (simp e at h))
]
  where
    no_place : {s : Place} → none ≡ some s → ⊥
    no_place h = ground arith

    place_inj : {s t : Place} → some s ≡ some t → t ≡ s
    place_inj h = ground arith

bound_inv :
    (o : Option SlotType) (n : ℤ) (s : Place)
    → ltb_ℤ n (pos 0) ≡ false
    → (o >>= λ k. if ltb_ℤ n (pos (size_of k)) then some (k, pos_part n) else none) ≡ some s
    → IsPlace s × (n ≡ pos s.1) × (o ≡ some s.0)
bound_inv none n s h g = absurd (ground arith)
bound_inv (some k) (negsuc m) s h g = absurd (ground arith)
bound_inv (some k) (pos m) s h g =
    let (small, e) = sized k m s g in (rw e small, rw e refl, rw e refl)

-- A place that is read from a request is there.
pub place_of_inv :
    (e n : ℤ) (s : Place)
    → ltb_ℤ n (pos 0) ≡ false
    → place_of e n ≡ some s
    → IsPlace s × (n ≡ pos s.1) × (slot_type e ≡ some s.0)
place_of_inv e n s h g = bound_inv (slot_type e) n s h g
