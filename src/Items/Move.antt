-- ===== src/Items/Move.antt =====
-- itemMoveHandler and itemDeleteHandler of Items.cpp, and setItemStats.
use open_fusion.Common.{
  ◌++◌, bit_and, take, ℕ, ◌-◌, Bool, true, false, ◌&&◌, ◌||◌, not, Option, none, some, List, [],
  ◌∷◌, leb, ◌==◌, if◌then◌else◌,
}
use open_fusion.Common.Int.{pos_part, ℤ, pos, ◌+ℤ◌, ◌-ℤ◌, ltb_ℤ, eqb_ℤ}
use open_fusion.Player.{Item, Player}
use open_fusion.Protocol.Cipher.{◌>>=◌}
use open_fusion.Items.{
  ItemData, ItemTable, equip_slot, inventory_slot, bank_slot, Place, size_of, place_of, item_at,
  put_item,
}

abbrev pub equip_slot_vehicle : ℕ
equip_slot_vehicle = 8

-- AEQUIP_COUNT_MINUS_BOOSTERS
abbrev pub equip_count_minus_boosters : ℕ
equip_count_minus_boosters = 9

-- Whether an item may go to a place in the equipment.
pub fits_equip : Item → ℕ → Bool
fits_equip item n =
    if item.type == 10 && not (n == equip_slot_vehicle)
    then false
    else if not (item.type == 10) && not (item.type == 0 && n == 7) && not (item.type == n)
    then false
    else not (leb equip_count_minus_boosters n)

abbrev pub may_move : Item → Place → Bool
may_move item (equip_slot, n) = fits_equip item n
may_move item (inventory_slot, n) = true
may_move item (bank_slot, n) = true

-- Whether two items are stackable, identical and not maxed, where the second has the data `d`.
unfoldable pub is_stackable : ItemData → Item → Item → Bool
is_stackable d from to =
    ltb_ℤ (pos 1) d.stack_size
    && (to.id == from.id && to.type == from.type)
    && (ltb_ℤ from.opt d.stack_size && ltb_ℤ to.opt d.stack_size)

-- The stack size, if the two items are stacked.
unfoldable pub common_stack : ItemTable → Item → Item → Option ℤ
unfolding is_stackable
common_stack table from to = table to.id to.type >>= λ d.
    table from.id from.type >>= λ d_from. if is_stackable d from to then some d.stack_size else none

-- "handle overflow"
unfoldable pub spill : ℤ → Player → Place → Place → Option Player
spill stack p s t = item_at p t >>= λ to.
    if ltb_ℤ stack to.opt
    then (do
      from ← item_at p s
      let p' = put_item p s (record from { opt = from.opt +ℤ (to.opt -ℤ stack) })
      to' ← item_at p' t
      some (put_item p' t (record to' { opt = stack })))
    else some p

-- "from item count depleted"
unfoldable pub clear_depleted : Player → Place → Option Player
clear_depleted p s = item_at p s >>= λ from.
    if eqb_ℤ from.opt (pos 0)
    then some (put_item p s (record from { id = 0; type = 0; time_limit = 0 }))
    else some p

-- The stacking of the item at s on that at t, which may be the same place.
unfoldable pub stack_items : ℤ → Player → Place → Place → Option Player
unfolding spill clear_depleted
stack_items stack p s t = do
  from ← item_at p s
  to ← item_at p t
  let p1 = put_item p t (record to { opt = to.opt +ℤ from.opt })
  from1 ← item_at p1 s
  let p2 = put_item p1 s (record from1 { opt = pos 0 })
  p3 ← spill stack p2 s t
  clear_depleted p3 s

unfoldable pub swap_items : Player → Place → Place → Option Player
swap_items p s t = do from ← item_at p s; to ← item_at p t; some (put_item (put_item p t from) s to)

-- "swap/stack items in session"
unfoldable pub move_items : ItemTable → Player → Place → Place → Item → Item → Option Player
unfolding stack_items swap_items
move_items table p s t from to = elim (common_stack table from to) [
  | some stack ↦ stack_items stack p s t
  | none ↦ swap_items p s t
]

-- setItemStats: the items in the first four places of the equipment.
abbrev pub add_stats : ItemTable → Player → Item → Player
add_stats table p item = elim (table item.id item.type) [
  | none ↦ p
  | some d ↦ record p {
    point_damage = p.point_damage +ℤ d.point_damage;
    group_damage = p.group_damage +ℤ d.group_damage;
    fire_rate = p.fire_rate +ℤ d.fire_rate;
    defense = p.defense +ℤ d.defense;
  }
]

unfoldable pub add_all_stats : ItemTable → Player → List Item → Player
add_all_stats table p [] = p
add_all_stats table p (item ∷ items) = add_all_stats table (add_stats table p item) items

unfoldable pub set_item_stats : ItemTable → Player → Player
unfolding add_all_stats
set_item_stats table p =
    add_all_stats table
      (record p {
        point_damage = pos 8 +ℤ (p.level +ℤ p.level);
        group_damage = pos 8 +ℤ (p.level +ℤ p.level);
        fire_rate = pos 0;
        defense = pos 16 +ℤ (p.level +ℤ p.level +ℤ (p.level +ℤ p.level));
      })
      (take 4 p.equip)

-- sP_CL2FE_REQ_ITEM_MOVE
pub record MoveRequest : Type 0 where
  pub e_from : ℤ
  pub from_slot_num : ℤ
  pub e_to : ℤ
  pub to_slot_num : ℤ

-- What the handlers send: to the client, or to the players around.
pub data ItemMessage : Type 0 where
  item_move_succ : ℤ → ℤ → Item → ℤ → ℤ → Item → ItemMessage
  equip_change : ℤ → ℕ → Item → ItemMessage
  vehicle_off_succ : ItemMessage
  state_change : ℤ → ℕ → ItemMessage
  item_delete_succ : ℤ → ℤ → ItemMessage

-- "unequip vehicle if equip slot 8 is 0"; `true` if it was.
abbrev pub vehicle_off : Player → Option (Player × List ItemMessage)
vehicle_off p = item_at p (equip_slot, equip_slot_vehicle) >>= λ vehicle.
    if vehicle.id == 0 && not (bit_and p.pc_state 8 == 0)
    then (let q : Player = record p { pc_state = p.pc_state - 8 } in
        some (q, vehicle_off_succ ∷ state_change q.id q.pc_state ∷ []))
    else some (p, [])

abbrev pub is_equip : Place → Bool
is_equip (equip_slot, n) = true
is_equip (inventory_slot, n) = false
is_equip (bank_slot, n) = false

-- The place in the equipment that changed, with the item that the response has for it.
abbrev pub changed_equip : Place → Place → Item → Item → ℕ × Item
changed_equip s t resp_from resp_to = if is_equip t then (t.1, resp_from) else (s.1, resp_to)

-- "send equip change to viewable players", and the stats.
unfoldable pub after_move :
    ItemTable → Player → Place → Place → Item → Item → Option (Player × List ItemMessage)
unfolding set_item_stats
after_move table p s t resp_from resp_to =
    if is_equip s || is_equip t
    then (do
      (q, msgs) ← vehicle_off p
      let change = changed_equip s t resp_from resp_to
      some (set_item_stats table q, msgs ++ equip_change p.id change.0 change.1 ∷ []))
    else some (p, [])

-- The response: after stacking with the items as they are now, after a swap as they were.
unfoldable pub moved :
    ItemTable
    → MoveRequest
    → Player
    → Place
    → Place
    → Item
    → Item
    → Option (Player × List ItemMessage)
unfolding move_items after_move
moved table req p s t from to = do
  q ← move_items table p s t from to
  from' ← item_at q s
  to' ← item_at q t
  let stacked = elim (common_stack table from to) as (λ _. Bool) [ some _ ↦ true | none ↦ false ]
  let resp_from = if stacked then from' else from
  let resp_to = if stacked then to' else to
  (r, msgs) ← after_move table q s t resp_from resp_to
  some (
    r,
    msgs
        ++ item_move_succ req.e_to (if stacked then req.from_slot_num else req.to_slot_num)
            resp_from req.e_from (if stacked then req.to_slot_num else req.from_slot_num) resp_to
          ∷ [],
  )

unfoldable pub move_between :
    ItemTable → MoveRequest → Player → Place → Place → Option (Player × List ItemMessage)
unfolding moved
move_between table req p s t = do
  from ← item_at p s
  to ← item_at p t
  if may_move from t then moved table req p s t from to else some (p, [])

-- The two places of a request, if it passes the checks in front.
unfoldable pub request_places : Player → MoveRequest → Option (Place × Place)
request_places p req =
    if ltb_ℤ req.to_slot_num (pos 0) || ltb_ℤ req.from_slot_num (pos 0) || p.is_trading
    then none
    else (do
      s ← place_of req.e_from req.from_slot_num
      t ← place_of req.e_to req.to_slot_num
      some (s, t))

-- itemMoveHandler
unfoldable pub item_move : ItemTable → Player → MoveRequest → Option (Player × List ItemMessage)
unfolding move_between
item_move table p req = elim (request_places p req) [
  | none ↦ some (p, [])
  | some (s, t) ↦ move_between table req p s t
]

-- itemDeleteHandler
unfoldable pub item_delete : Player → ℤ → ℤ → Option (Player × List ItemMessage)
item_delete p e_il slot =
    if ltb_ℤ slot (pos 0) || not (ltb_ℤ slot (pos (size_of inventory_slot)))
    then some (p, [])
    else (do
      old ← item_at p (inventory_slot, pos_part slot)
      some (
        put_item p (inventory_slot, pos_part slot) (record old { id = 0; type = 0; opt = pos 0 }),
        item_delete_succ e_il slot ∷ [],
      ))
