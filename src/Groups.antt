-- ===== src/Groups.antt =====
-- Groups.cpp and Groups.hpp: groups of players and NPCs. The groups are a heap from addresses to
-- lists of members, where a deleted group has none; every entity that can be in a group has a
-- pointer to one. `none` of an operation is a use of a deleted group or of an empty list. The sizes
-- of the packets, the ids of players and the lookup of a player by his id are arguments, and so is
-- the address of a new group. What a packet says of the members is left to their references.
pub mod Members
mod Frames
pub mod Removal
pub mod Disbanding
pub mod Handlers
pub mod Leaving
pub mod Joining
pub mod Soundness
mod Tests
use open_fusion.Common.{
  ◌++◌, map, ℕ, zero, suc, ◌+◌, ◌-◌, ◌*◌, ◌≤◌, ◌<◌, ◌≡◌, refl, sym, ap, ap₂, subst, ◌∙◌, ◌≢◌, ◌⊎◌,
  inl, inr, Bool, true, false, ◌||◌, ◌&&◌, not, Option, none, some, List, [], ◌∷◌, arith, ltb, leb,
  ◌==◌, if◌then◌else◌, Bool-cases, Option-cases, All, length,
}
use open_fusion.Common.Int.{ℤ, pos, negsuc}
use open_fusion.Entity.{
  EntityKind, EntityRef, same_entity, kind_number, player, combat_npc, invalid, simple_npc, mob,
  egg, bus,
}
use open_fusion.Protocol.Cipher.{◌>>=◌}
use open_fusion.Protocol.Packets.{valid_out_var_packet}

-- The members of each group, and the `group` of each entity.
pub record Groups : Type 0 where
  pub members_at : ℕ → Option (List EntityRef)
  pub group_of : EntityRef → Option ℕ

-- The sizes of the group packets and of the infos in them, and the players.
pub record GroupContext : Type 0 where
  pub join_size : ℕ
  pub leave_size : ℕ
  pub info_size : ℕ
  pub pc_info_size : ℕ
  pub npc_info_size : ℕ
  pub id_of : EntityRef → ℤ
  pub find_player : ℤ → Option EntityRef

-- What is sent to a player; of the lists of members, the players and the NPCs.
pub data GroupMessage : Type 0 where
  join_succ group_join group_leave member_info :
      EntityRef → ℤ → List EntityRef → List EntityRef → GroupMessage
  leave_succ invite_fail join_fail : EntityRef → GroupMessage
  invite invite_refuse : EntityRef → ℤ → GroupMessage

abbrev pub is_kind : EntityKind → EntityRef → Bool
is_kind k ref = kind_number ref.kind == kind_number k

-- Group::filter
unfoldable pub filter_kind : EntityKind → List EntityRef → List EntityRef
filter_kind k [] = []
filter_kind k (ref ∷ members) =
    let rest = filter_kind k members in if is_kind k ref then ref ∷ rest else rest

-- An entity with a pointer to a group.
abbrev pub has_group : EntityRef → Bool
has_group ref = is_kind player ref || is_kind combat_npc ref

abbrev pub set_group : Groups → EntityRef → Option ℕ → Groups
set_group w member g = record w {
  group_of = λ ref. if same_entity ref member && has_group member then g else w.group_of ref;
}

abbrev pub set_members : Groups → ℕ → Option (List EntityRef) → Groups
set_members w a members = record w { members_at = λ b. if b == a then members else w.members_at b }

-- Whether a packet of a size and the infos of the members fit.
abbrev pub fits : GroupContext → ℕ → List EntityRef → List EntityRef → Bool
fits c size pcs npcs =
    valid_out_var_packet size (length pcs) c.pc_info_size
    && valid_out_var_packet (size + length pcs * c.pc_info_size) (length npcs) c.npc_info_size

-- sendToGroup, to all players or to those but one.
abbrev pub send_to_group : List EntityRef → (EntityRef → GroupMessage) → List GroupMessage
send_to_group members message = map message (filter_kind player members)

unfoldable pub others : EntityRef → List EntityRef → List EntityRef
others excluded [] = []
others excluded (ref ∷ members) =
    let rest = others excluded members in if same_entity ref excluded then rest else ref ∷ rest

abbrev pub join_messages : GroupContext → List EntityRef → EntityRef → List GroupMessage
join_messages c members member =
    let pcs = filter_kind player members in
    let npcs = filter_kind combat_npc members in
    if is_kind player member && fits c c.join_size pcs npcs
    then join_succ member (c.id_of member) pcs npcs
      ∷ map (λ ref. group_join ref (c.id_of member) pcs npcs) (others member pcs)
    else []

-- addToGroup
unfoldable pub add_to_group :
    GroupContext → Groups → Option ℕ → EntityRef → Option (Groups × List GroupMessage)
add_to_group c w none member = some (w, [])
add_to_group c w (some a) member = do
  old ← w.members_at a
  let members = old ++ member ∷ []
  some (set_members (set_group w member (some a)) a (some members), join_messages c members member)

-- The erasure of the first member that is equal.
unfoldable pub erase_member : EntityRef → List EntityRef → List EntityRef
erase_member member [] = []
erase_member member (ref ∷ members) =
    let rest = erase_member member members in if same_entity ref member then members else ref ∷ rest

abbrev pub leave_messages : GroupContext → List EntityRef → EntityRef → List GroupMessage
leave_messages c members member =
    let pcs = filter_kind player members in
    let npcs = filter_kind combat_npc members in
    if is_kind player member
    then leave_succ member
      ∷ (if fits c c.leave_size pcs npcs
          then send_to_group members (λ ref. group_leave ref (c.id_of member) pcs npcs)
          else [])
    else []

-- The last member.
unfoldable pub back : List EntityRef → Option EntityRef
back [] = none
back (ref ∷ []) = some ref
back (ref ∷ next ∷ members) = back (next ∷ members)

-- removeFromGroup, for a group that is there, with a number of recursive calls at most; `true` if the
-- group is deleted.
unfoldable pub remove_from_group :
    ℕ → GroupContext → Groups → ℕ → EntityRef → Option (Groups × List GroupMessage × Bool)
remove_from_group zero c w a member = none
remove_from_group (suc fuel) c w a member = w.members_at a >>= λ old.
    let members = erase_member member old in
    let left = set_members (set_group w member none) a (some members) in
    let messages = leave_messages c members member in
    let again = back members >>= λ last. remove_from_group fuel c left a last in
    if length members == 1
    then (again >>= λ after. some (after.0, messages ++ after.1, after.2))
    else if length members == 0
    then some (set_members left a none, messages, true)
    else some (left, messages, false)

-- A call of removeFromGroup calls itself once more at most.
abbrev pub removal_depth : ℕ
removal_depth = 2

-- The loop of disbandGroup, with a number of rounds at most.
unfoldable pub disband_loop : ℕ → GroupContext → Groups → ℕ → Option (Groups × List GroupMessage)
disband_loop zero c w a = none
disband_loop (suc fuel) c w a = do
  members ← w.members_at a
  last ← back members
  after ← remove_from_group removal_depth c w a last
  let next = disband_loop fuel c after.0 a
  if after.2 then some (after.0, after.1) else next >>= λ more. some (more.0, after.1 ++ more.1)

-- disbandGroup: one round for each member is enough.
unfoldable pub disband_group :
    GroupContext → Groups → Option ℕ → Option (Groups × List GroupMessage)
disband_group c w none = some (w, [])
disband_group c w (some a) = w.members_at a >>= λ members. disband_loop (length members) c w a
