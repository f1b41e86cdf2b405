-- ===== src/Groups/Handlers.antt =====
-- The handlers of the group packets of Groups.cpp, and groupKick and groupTickInfo.
use open_fusion.Common.{
  ◌++◌, ℕ, ◌+◌, Bool, true, false, ◌||◌, Option, none, some, List, [], ◌∷◌, ltb, leb, if◌then◌else◌,
  length,
}
use open_fusion.Common.Int.{ℤ}
use open_fusion.Entity.{EntityRef, same_entity, player, combat_npc}
use open_fusion.Protocol.Cipher.{◌>>=◌}
use open_fusion.Groups.{
  Groups, GroupContext, GroupMessage, member_info, invite_fail, invite, invite_refuse, join_fail,
  filter_kind, set_members, fits, add_to_group, remove_from_group, removal_depth, disband_group,
}

-- The first member, which is the leader.
abbrev pub leader : List EntityRef → Option EntityRef
leader [] = none
leader (ref ∷ members) = some ref

-- groupKick
unfoldable pub group_kick :
    GroupContext → Groups → Option ℕ → EntityRef → Option (Groups × List GroupMessage)
group_kick c w none ref = some (w, [])
group_kick c w (some a) ref = do
  members ← w.members_at a
  first ← leader members
  let kicked = remove_from_group removal_depth c w a ref >>= λ after. some (after.0, after.1)
  if same_entity first ref then disband_group c w (some a) else kicked

-- leaveGroup
abbrev pub leave_group : GroupContext → Groups → EntityRef → Option (Groups × List GroupMessage)
leave_group c w sock = group_kick c w (w.group_of sock) sock

-- The number of players of a group, where no group is one player.
abbrev pub group_size : Groups → Option ℕ → ℕ → Option ℕ
group_size w none alone = some alone
group_size w (some a) alone =
    w.members_at a >>= λ members. some (length (filter_kind player members))

abbrev pub in_group : Option ℕ → Bool
in_group none = false
in_group (some a) = true

-- requestGroup
unfoldable pub request_group : GroupContext → Groups → EntityRef → ℤ → Option (List GroupMessage)
request_group c w sock id_to = elim (c.find_player id_to) [
  | none ↦ some []
  | some other ↦ (do
    size ← group_size w (w.group_of sock) 0
    some (
        if leb 4 size || in_group (w.group_of other)
        then invite_fail sock ∷ []
        else invite other (c.id_of sock) ∷ []))
]

-- refuseGroup
abbrev pub refuse_group : GroupContext → EntityRef → ℤ → List GroupMessage
refuse_group c sock id_from = elim (c.find_player id_from) [
  | none ↦ []
  | some other ↦ invite_refuse other (c.id_of sock) ∷ []
]

-- new Group
unfoldable pub new_group :
    GroupContext → Groups → ℕ → EntityRef → Option (Groups × List GroupMessage)
new_group c w a ref = add_to_group c (set_members w a (some [])) (some a) ref

-- The end of joinGroup: "create group", if the other player has none, and join it.
unfoldable pub join_other :
    GroupContext → Groups → ℕ → EntityRef → EntityRef → Option (Groups × List GroupMessage)
join_other c w fresh other sock = do
  first ← (if in_group (w.group_of other) then some (w, []) else new_group c w fresh other)
  after ← add_to_group c first.0 (first.0.group_of other) sock
  some (after.0, first.1 ++ after.1)

-- joinGroup, where a new group would be at the address `fresh`.
unfoldable pub join_group :
    GroupContext → Groups → ℕ → EntityRef → ℤ → Option (Groups × List GroupMessage)
join_group c w fresh sock id_from = elim (c.find_player id_from) [
  | none ↦ some (w, [])
  | some other ↦ group_size w (w.group_of other) 1 >>= λ size.
      if in_group (w.group_of sock) || ltb 4 (size + 1)
      then some (w, join_fail sock ∷ [])
      else join_other c w fresh other sock
]

-- groupTickInfo
unfoldable pub group_tick_info : GroupContext → Groups → EntityRef → Option (List GroupMessage)
group_tick_info c w sock = do
  a ← w.group_of sock
  members ← w.members_at a
  let pcs = filter_kind player members
  let npcs = filter_kind combat_npc members
  some (if fits c c.info_size pcs npcs then member_info sock (c.id_of sock) pcs npcs ∷ [] else [])

-- The packets that Groups::init registers, with the id in the packet; with a join, the address that a
-- new group would have.
pub data GroupRequest : Type 0 where
  req_invite req_refuse : ℤ → GroupRequest
  req_join : ℕ → ℤ → GroupRequest
  req_leave : GroupRequest

unfoldable pub react_group :
    GroupContext → Groups → EntityRef → GroupRequest → Option (Groups × List GroupMessage)
react_group c w sock (req_invite id_to) =
    request_group c w sock id_to >>= λ messages. some (w, messages)
react_group c w sock (req_refuse id_from) = some (w, refuse_group c sock id_from)
react_group c w sock (req_join fresh id_from) = join_group c w fresh sock id_from
react_group c w sock req_leave = leave_group c w sock
