-- ===== src/Groups/Leaving.antt =====
-- leaveGroup and groupKick, in a world where every pointer to a group has its group.
use open_fusion.Common.{
  ℕ, ◌≤◌, ◌≡◌, refl, sym, ap, subst, ◌∙◌, ◌≢◌, ◌⊎◌, inl, inr, Bool, true, false, Option, none, some,
  List, [], ◌∷◌, arith, ◌==◌, Bool-cases, length,
}
use open_fusion.Entity.{EntityRef, same_entity}
use open_fusion.Protocol.Cipher.{◌>>=◌}
use open_fusion.Groups.{
  Groups, GroupContext, GroupMessage, has_group, erase_member, remove_from_group, removal_depth,
  disband_group,
}
use open_fusion.Groups.Handlers.{group_kick, leave_group}
use open_fusion.Groups.Members.{IsMember, IsRooted}
use open_fusion.Groups.Frames.{IsFramed, IsReleased}
use open_fusion.Groups.Removal.{IsGone, IsLeft, remove_from_group-Removed}
use open_fusion.Groups.Disbanding.{disband_group_ends}

-- Whoever points to a group can be in one, the group is there, and it has him as a member.
abbrev pub IsSound : Groups → Type 0
IsSound w =
    (ref : EntityRef) (a : ℕ)
    → w.group_of ref ≡ some a
    → (has_group ref ≡ true)
      × (members : List EntityRef) × (w.members_at a ≡ some members)
      × IsMember ref members

pub some_inj {ℓ} : {A : Type ℓ} {x y : A} → some x ≡ some y → x ≡ y
some_inj h = ground arith

pub no_group : {a : ℕ} → none ≡ some a → ⊥
no_group h = ground arith

not_both_ways : true ≡ false → ⊥
not_both_ways h = ground arith

pub same_number : (a b : ℕ) → b == a ≡ true → b ≡ a
same_number a b h = ground arith

sound-IsRooted :
    (w : Groups) (a : ℕ) (members : List EntityRef)
    → IsSound w
    → w.members_at a ≡ some members
    → IsRooted w a members
sound-IsRooted w a members sound h ref e =
    let (has, found, there, within) = sound ref a e in
    (has, subst (IsMember ref) (some_inj (sym there ∙ h)) within)

-- Soundness after a step on one group.
gone-IsSound : (w v : Groups) (a : ℕ) → IsSound w → IsFramed w v a → IsGone v a → IsSound v
gone-IsSound w v a sound (same, fewer) (gone, no_one) ref b h =
    let (has, members, there, within) = sound ref b (fewer ref b h) in
    elim (Bool-cases (b == a)) [
      | inl e ↦ absurd (no_one ref (h ∙ ap some (same_number a b e)))
      | inr e ↦ (has, members, same b e ∙ there, within)
    ]

left-IsSound :
    (w v : Groups) (a : ℕ) (rest : List EntityRef)
    → IsSound w
    → IsFramed w v a
    → IsLeft v a rest
    → IsSound v
left-IsSound w v a rest sound (same, fewer) (left, rooted, two) ref b h =
    let (has, members, there, within) = sound ref b (fewer ref b h) in
    elim (Bool-cases (b == a)) [
      | inl e ↦
          let here = same_number a b e in
          (has, rest, ap v.members_at here ∙ left, (rooted ref (h ∙ ap some here)).1)
      | inr e ↦ (has, members, same b e ∙ there, within)
    ]

-- What a player who leaves comes to.
abbrev pub Leaves : EntityRef → Option (Groups × List GroupMessage) → Type 0
Leaves sock o =
    (w' : Groups) × (msgs : List GroupMessage) × (o ≡ some (w', msgs))
    × IsSound w'
    × (w'.group_of sock ≡ none)

pointer_none :
    (v : Groups) (sock : EntityRef) → ((b : ℕ) → v.group_of sock ≢ some b) → v.group_of sock ≡ none
pointer_none v sock h = go (v.group_of sock) h
  where
    go : (o : Option ℕ) → ((b : ℕ) → o ≢ some b) → o ≡ none
    go none h = refl
    go (some b) h = absurd (h b refl)

released_none :
    (v : Groups) (sock : EntityRef)
    → has_group sock ≡ true
    → IsReleased v sock
    → v.group_of sock ≡ none
released_none v sock has (inl e) = absurd (not_both_ways (sym has ∙ e))
released_none v sock has (inr e) = e

module _ (c : GroupContext) (w : Groups) (sound : IsSound w) (sock : EntityRef) (a : ℕ)
    (inside : w.group_of sock ≡ some a) where
  disband-Leaves :
      (members : List EntityRef)
      → w.members_at a ≡ some members
      → 1 ≤ length members
      → Leaves sock (disband_group c w (some a))
  disband-Leaves members h some_ =
      let (v, msgs, e, framed, gone) =
        disband_group_ends c w a members h (sound-IsRooted w a members sound h) some_ in
      (
        v,
        msgs,
        e,
        gone-IsSound w v a sound framed gone,
        pointer_none v sock (λ b g. gone.1 sock (g ∙ sym (framed.1 sock b g) ∙ inside)),
      )

  kick-Leaves :
      (members : List EntityRef)
      → w.members_at a ≡ some members
      → IsMember sock members
      → has_group sock ≡ true
      → Leaves sock
          (remove_from_group removal_depth c w a sock >>= λ after. some (after.0, after.1))
  kick-Leaves members h there has =
      let (v, msgs, done, e, (framed, free, end)) =
        remove_from_group-Removed c w a sock members h there (sound-IsRooted w a members sound h) in
      (v, msgs, simp e refl, still v done framed end, released_none v sock has free)
    where
      still :
          (v : Groups) (done : Bool)
          → IsFramed w v a
          → ((done ≡ true) × IsGone v a) ⊎ ((done ≡ false) × IsLeft v a (erase_member sock members))
          → IsSound v
      still v done framed (inl (d, gone)) = gone-IsSound w v a sound framed gone
      still v done framed (inr (d, left)) =
          left-IsSound w v a (erase_member sock members) sound framed left

  group_kick-Leaves :
      (members : List EntityRef)
      → w.members_at a ≡ some members
      → IsMember sock members
      → has_group sock ≡ true
      → Leaves sock (group_kick c w (some a) sock)
  unfolding group_kick
  group_kick-Leaves [] h there has = absurd there
  group_kick-Leaves (first ∷ members) h there has = elim (Bool-cases (same_entity first sock)) [
    | inl e ↦ simp (h, e) (disband-Leaves (first ∷ members) h (omega arith))
    | inr e ↦ simp (h, e) (kick-Leaves (first ∷ members) h there has)
  ]

kick_none :
    (c : GroupContext) (w : Groups) (ref : EntityRef) → group_kick c w none ref ≡ some (w, [])
unfolding group_kick
kick_none c w ref = refl

-- leaveGroup returns, where every pointer to a group has its group, with the entity among the
-- members; the same holds afterwards, so no pointer to a deleted group is left, and the player is in
-- no group.
pub leave_group-Leaves :
    (c : GroupContext) (w : Groups) (sock : EntityRef)
    → IsSound w
    → Leaves sock (leave_group c w sock)
leave_group-Leaves c w sock sound = go (w.group_of sock) refl
  where
    go : (g : Option ℕ) → w.group_of sock ≡ g → Leaves sock (group_kick c w g sock)
    go none e = (w, [], kick_none c w sock, sound, e)
    go (some a) e =
        let (has, members, h, there) = sound sock a e in
        group_kick-Leaves c w sound sock a e members h there has
