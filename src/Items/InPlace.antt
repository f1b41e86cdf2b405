-- ===== src/Items/InPlace.antt =====
-- A request of itemMoveHandler that names one place twice.
use open_fusion.Common.{
  none, Option, ◌∙◌, ap, ℕ, ◌<◌, ◌≡◌, refl, true, false, some, List, [], ◌∷◌, arith, ◌==◌,
}
use open_fusion.Common.Int.{ℤ, pos, ◌+ℤ◌, ◌≤ℤ◌, ◌<ℤ◌, ltb_ℤ}
use open_fusion.Player.{Item, Player, no_item}
use open_fusion.Items.{ItemData, ItemTable, inventory_slot, Place, item_at, put_item}
use open_fusion.Items.Move.{
  MoveRequest, is_stackable, common_stack, spill, clear_depleted, stack_items, move_items,
  ItemMessage, move_between, moved, after_move, request_places, item_move, item_move_succ,
  swap_items, is_equip,
}
use open_fusion.Items.Places.{item_at-put_self}

-- An item stacked on itself is cleared.
stack_items_self :
    (p : Player) (s : Place) (x : Item) (stack : ℤ)
    → item_at p s ≡ some x
    → pos 0 ≤ℤ stack
    → (q : Player) × (stack_items stack p s s ≡ some q) × (item_at q s ≡ some no_item)
unfolding stack_items spill clear_depleted
stack_items_self p s x stack h small =
    let x1 : Item = record x { opt = x.opt +ℤ x.opt } in
    let p1 = put_item p s x1 in
    let h1 = item_at-put_self p s x x1 h in
    let x2 : Item = record x { opt = pos 0 } in
    let p2 = put_item p1 s x2 in
    let h2 = item_at-put_self p1 s x1 x2 h1 in
    let full : ltb_ℤ stack (pos 0) ≡ false = ground arith in
    (put_item p2 s no_item, simp (h, h1, h2, full) refl, item_at-put_self p2 s x2 no_item h2)

common_stack_self :
    (table : ItemTable) (x : Item) (d : ItemData)
    → table x.id x.type ≡ some d
    → pos 1 <ℤ d.stack_size
    → x.opt <ℤ d.stack_size
    → common_stack table x x ≡ some d.stack_size
unfolding common_stack is_stackable
common_stack_self table x d e one less =
    let a : ltb_ℤ (pos 1) d.stack_size ≡ true = ground arith in
    let b : ltb_ℤ x.opt d.stack_size ≡ true = ground arith in
    let c : x.id == x.id ≡ true = ground arith in
    let c' : x.type == x.type ≡ true = ground arith in simp (e, a, b, c, c') refl

-- From a place of the inventory to the same place.
abbrev pub onto_itself : ℕ → MoveRequest
onto_itself n = record { e_from = pos 1; from_slot_num = pos n; e_to = pos 1; to_slot_num = pos n }

request_places-onto_itself :
    (p : Player) (n : ℕ)
    → n < 50
    → p.is_trading ≡ false
    → request_places p (onto_itself n) ≡ some ((inventory_slot, n), (inventory_slot, n))
unfolding request_places
request_places-onto_itself p n l free =
    let range : ltb_ℤ (pos n) (pos 50) ≡ true = ground arith in
    let low : ltb_ℤ (pos n) (pos 0) ≡ false = ground arith in simp (low, free, range) refl

item_move_at :
    (table : ItemTable) (p : Player) (req : MoveRequest) (s d : Place)
    → request_places p req ≡ some (s, d)
    → item_move table p req ≡ move_between table req p s d
unfolding item_move
item_move_at table p req s d e =
    ap
      (λ (o : Option (Place × Place)). elim o as (λ _. Option (Player × List ItemMessage)) [
        | none ↦ some (p, [])
        | some (s, t) ↦ move_between table req p s t
      ])
      e

move_items_stacked :
    (table : ItemTable) (p : Player) (s d : Place) (from to : Item) (stack : ℤ)
    → common_stack table from to ≡ some stack
    → move_items table p s d from to ≡ stack_items stack p s d
unfolding move_items
move_items_stacked table p s d from to stack e =
    ap
      (λ (o : Option ℤ). elim o as (λ _. Option Player) [
        | some n ↦ stack_items n p s d
        | none ↦ swap_items p s d
      ])
      e

moved_self :
    (table : ItemTable) (req : MoveRequest) (p q : Player) (s : Place) (x : Item) (stack : ℤ)
    → is_equip s ≡ false
    → common_stack table x x ≡ some stack
    → stack_items stack p s s ≡ some q
    → item_at q s ≡ some no_item
    → moved table req p s s x x
      ≡ some (
        q,
        item_move_succ req.e_to req.from_slot_num no_item req.e_from req.to_slot_num no_item ∷ [],
      )
unfolding moved after_move
moved_self table req p q s x stack no_ e g h =
    simp (e, move_items_stacked table p s s x x stack e ∙ g, h, no_) refl

-- A request to move a stack of the inventory to the place it is at, which itemMoveHandler does not
-- single out, empties that place, if the player is not trading and the stack is not full.
pub item_move_in_place_empties :
    (table : ItemTable) (p : Player) (n : ℕ) (x : Item) (d : ItemData)
    → n < 50
    → p.is_trading ≡ false
    → item_at p (inventory_slot, n) ≡ some x
    → table x.id x.type ≡ some d
    → pos 1 <ℤ d.stack_size
    → x.opt <ℤ d.stack_size
    → (q : Player) × (msgs : List ItemMessage) × (item_move table p (onto_itself n)
        ≡ some (q, msgs))
      × (item_at q (inventory_slot, n) ≡ some no_item)
unfolding move_between
item_move_in_place_empties table p n x d l free h e one less =
    let (q, eq, hq) =
      stack_items_self p (inventory_slot, n) x d.stack_size h (omega (arith, one)) in
    (
      q,
      item_move_succ (pos 1) (pos n) no_item (pos 1) (pos n) no_item ∷ [],
      item_move_at table p (onto_itself n) _ _ (request_places-onto_itself p n l free)
          ∙ simp h (
              moved_self table (onto_itself n) p q (inventory_slot, n) x d.stack_size refl
                (common_stack_self table x d e one less) eq hq),
      hq,
    )
