-- ===== src/Groups/Soundness.antt =====
-- The handlers of the group packets, in any order, leave no dangling pointer to a group.
use open_fusion.Common.{
  ℕ, ◌+◌, ◌≡◌, refl, Bool, true, false, ◌||◌, Option, none, some, List, [], ◌∷◌, ltb, leb,
  if◌then◌else◌,
}
use open_fusion.Common.Int.{ℤ}
use open_fusion.Entity.{EntityRef}
use open_fusion.Protocol.Cipher.{◌>>=◌}
use open_fusion.Groups.{
  Groups, GroupContext, GroupMessage, has_group, join_fail, invite, invite_fail,
}
use open_fusion.Groups.Handlers.{
  group_size, in_group, join_other, join_group, request_group, refuse_group, GroupRequest,
  req_invite, req_refuse, req_join, req_leave, react_group,
}
use open_fusion.Groups.Leaving.{IsSound, leave_group-Leaves}
use open_fusion.Groups.Joining.{EndsSound, group_size_found, join_other-EndsSound}

-- A new group gets an address that no group has.
abbrev pub IsFresh : Groups → GroupRequest → Type 0
IsFresh w (req_invite id) = Unit
IsFresh w (req_refuse id) = Unit
IsFresh w (req_join fresh id) = w.members_at fresh ≡ none
IsFresh w req_leave = Unit

-- A player who is found by an id can be in a group.
abbrev pub FindsPlayers : GroupContext → Type 0
FindsPlayers c = (id : ℤ) (ref : EntityRef) → c.find_player id ≡ some ref → has_group ref ≡ true

module _ (c : GroupContext) (w : Groups) (sound : IsSound w) (sock : EntityRef) where
  if-EndsSound :
      (b : Bool) (x y : Option (Groups × List GroupMessage))
      → EndsSound x
      → EndsSound y
      → EndsSound (if b then x else y)
  if-EndsSound true x y h g = h
  if-EndsSound false x y h g = g

  join_group-EndsSound :
      (fresh : ℕ) (id : ℤ)
      → FindsPlayers c
      → w.members_at fresh ≡ none
      → EndsSound (join_group c w fresh sock id)
  unfolding join_group
  join_group-EndsSound fresh id finds free = go (c.find_player id) refl
    where
      go :
          (o : Option EntityRef)
          → c.find_player id ≡ o
          → EndsSound (elim o [
            | none ↦ some (w, [])
            | some other ↦ group_size w (w.group_of other) 1 >>= λ size.
                if in_group (w.group_of sock) || ltb 4 (size + 1)
                then some (w, join_fail sock ∷ [])
                else join_other c w fresh other sock
          ])
      go none e = (w, [], refl, sound)
      go (some other) e =
          let (size, found) = group_size_found c w sound other sock (w.group_of other) refl 1 in
          simp found (
            if-EndsSound (in_group (w.group_of sock) || ltb 4 (size + 1))
              (some (w, join_fail sock ∷ [])) (join_other c w fresh other sock)
              (w, join_fail sock ∷ [], refl, sound)
              (join_other-EndsSound c w sound other sock fresh free (finds id other e)))

  request_group_returns :
      (id : ℤ) → (messages : List GroupMessage) × (request_group c w sock id ≡ some messages)
  unfolding request_group
  request_group_returns id = go (c.find_player id)
    where
      go :
          (o : Option EntityRef)
          → (messages : List GroupMessage) × (elim o as (λ _. Option (List GroupMessage)) [
            | none ↦ some []
            | some other ↦ (do
              size ← group_size w (w.group_of sock) 0
              some (
                  if leb 4 size || in_group (w.group_of other)
                  then invite_fail sock ∷ []
                  else invite other (c.id_of sock) ∷ []))
          ]
              ≡ some messages)
      go none = ([], refl)
      go (some other) =
          let (size, found) = group_size_found c w sound sock sock (w.group_of sock) refl 0 in
          (
            if leb 4 size || in_group (w.group_of other)
                then invite_fail sock ∷ []
                else invite other (c.id_of sock) ∷ [],
            simp found refl,
          )

-- Every handler of a group packet returns, and uses no deleted group, where every pointer to a group
-- has its group with the entity among the members, the lookup finds players, and the address of a
-- new group is one that no group has; and afterwards every pointer to a group has its group again.
pub react_group-IsSound :
    (c : GroupContext) (w : Groups) (sock : EntityRef) (req : GroupRequest)
    → FindsPlayers c
    → IsFresh w req
    → IsSound w
    → (w' : Groups) × (msgs : List GroupMessage) × (react_group c w sock req ≡ some (w', msgs))
      × IsSound w'
unfolding react_group
react_group-IsSound c w sock (req_invite id) finds fresh sound =
    let (messages, e) = request_group_returns c w sound sock id in (w, messages, simp e refl, sound)
react_group-IsSound c w sock (req_refuse id) finds fresh sound =
    (w, refuse_group c sock id, refl, sound)
react_group-IsSound c w sock (req_join address id) finds fresh sound =
    join_group-EndsSound c w sound sock address id finds fresh
react_group-IsSound c w sock req_leave finds fresh sound =
    let (w', msgs, e, end, out) = leave_group-Leaves c w sock sound in (w', msgs, e, end)
