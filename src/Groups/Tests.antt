-- ===== src/Groups/Tests.antt =====
-- Runs of the operations on groups.
use open_fusion.Common.{
  ℕ, ◌≡◌, refl, sym, subst, ◌⊎◌, inl, inr, Bool, true, false, Option, none, some, List, [], ◌∷◌,
  arith, ◌==◌, if◌then◌else◌, Bool-cases,
}
use open_fusion.Common.Int.{pos, negsuc}
use open_fusion.Entity.{EntityRef, same_entity, player}
use open_fusion.Protocol.Cipher.{◌>>=◌}
use open_fusion.Groups.{
  Groups, GroupContext, GroupMessage, has_group, erase_member, add_to_group, remove_from_group,
  removal_depth, disband_group,
}
use open_fusion.Groups.Handlers.{new_group, join_other, join_group, react_group, req_join}
use open_fusion.Groups.Leaving.{IsSound, some_inj, no_group}
use open_fusion.Groups.Soundness.{FindsPlayers, react_group-IsSound}
use open_fusion.Groups.Members.{IsMember, IsRooted, same_entity_eq}
use open_fusion.Groups.Removal.{Removed, remove_from_group-Removed}
use open_fusion.Groups.Disbanding.{IsDisbanded, disband_group_ends}

abbrev person : ℕ → EntityRef
person n = record { kind = player; key = n }

abbrev context : GroupContext
context = record {
  join_size = 12;
  leave_size = 12;
  info_size = 12;
  pc_info_size = 200;
  npc_info_size = 40;
  id_of = λ ref. pos ref.key;
  find_player = λ id. some (person (elim id as (λ _. ℕ) [ pos n ↦ n | negsuc n ↦ 0 ]));
}

-- Two players in the group at 7.
abbrev two : Groups
two = record {
  members_at = λ a. if a == 7 then some (person 1 ∷ person 2 ∷ []) else none;
  group_of = λ ref.
      if same_entity ref (person 1)
      then some 7
      else if same_entity ref (person 2)
      then some 7
      else none;
}

two-IsRooted : IsRooted two 7 (person 1 ∷ person 2 ∷ [])
two-IsRooted ref h = elim (Bool-cases (same_entity ref (person 1))) [
  | inl e ↦ (is_player 1 e, inl (sym (same_entity_eq ref (person 1) e)))
  | inr e ↦ second e (Bool-cases (same_entity ref (person 2)))
]
  where
    nowhere : ◌≡◌ {A = Option ℕ} none (some 7) → ⊥
    nowhere h = ground arith

    is_player : (n : ℕ) → same_entity ref (person n) ≡ true → has_group ref ≡ true
    is_player n e =
        subst (λ (z : EntityRef). has_group z ≡ true) (sym (same_entity_eq ref (person n) e)) refl

    second :
        same_entity ref (person 1) ≡ false
        → (same_entity ref (person 2) ≡ true) ⊎ (same_entity ref (person 2) ≡ false)
        → (has_group ref ≡ true) × IsMember ref (person 1 ∷ person 2 ∷ [])
    second e (inl g) = (is_player 2 g, inr (inl (sym (same_entity_eq ref (person 2) g))))
    second e (inr g) = absurd (nowhere (simp (e, g) at h))

disband_group_ends_example : IsDisbanded two 7 (disband_group context two (some 7))
disband_group_ends_example =
    disband_group_ends context two 7 (person 1 ∷ person 2 ∷ []) refl two-IsRooted (omega arith)

second_leaves :
    (w : Groups) × (msgs : List GroupMessage) × (done : Bool) × (remove_from_group removal_depth
        context two 7
        (person 2)
      ≡ some (w, msgs, done))
    × Removed two w 7 (person 2) (erase_member (person 2) (person 1 ∷ person 2 ∷ [])) done
second_leaves =
    remove_from_group-Removed context two 7 (person 2) (person 1 ∷ person 2 ∷ []) refl
      (inr (inl refl)) two-IsRooted

abbrev no_groups : Groups
no_groups = record { members_at = λ a. none; group_of = λ ref. none }

abbrev members_after : Option (Groups × List GroupMessage) → ℕ → Option (List EntityRef)
members_after o a = o >>= λ after. after.0.members_at a

-- A player who joins another makes a group of the two.
pair_up :
    members_after (join_group context no_groups 7 (person 2) (pos 1)) 7
    ≡ some (person 1 ∷ person 2 ∷ [])
unfolding join_group join_other new_group add_to_group
pair_up = refl

-- A player who joins himself is in his group twice.
self_join :
    members_after (join_group context no_groups 7 (person 1) (pos 1)) 7
    ≡ some (person 1 ∷ person 1 ∷ [])
unfolding join_group join_other new_group add_to_group
self_join = refl

context-FindsPlayers : FindsPlayers context
context-FindsPlayers id ref h = subst (λ (z : EntityRef). has_group z ≡ true) (some_inj h) refl

no_groups-IsSound : IsSound no_groups
no_groups-IsSound ref a h = absurd (no_group h)

react_group-IsSound_example :
    (w : Groups) × (msgs : List GroupMessage) × (react_group context no_groups
        (person 2)
        (req_join 7 (pos 1))
      ≡ some (w, msgs))
    × IsSound w
react_group-IsSound_example =
    react_group-IsSound context no_groups (person 2) (req_join 7 (pos 1)) context-FindsPlayers refl
      no_groups-IsSound
