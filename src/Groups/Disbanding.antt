-- ===== src/Groups/Disbanding.antt =====
-- disbandGroup comes to an end, and no one is left with a pointer to the group.
use open_fusion.Common.{
  ◌++◌, ℕ, zero, suc, ◌+◌, ◌≤◌, ◌≡◌, refl, inl, inr, Bool, some, List, arith, length, Option, true,
  false, ◌⊎◌,
}
use open_fusion.Entity.{EntityRef}
use open_fusion.Groups.{
  Groups, GroupContext, GroupMessage, erase_member, back, remove_from_group, removal_depth,
  disband_loop, disband_group,
}
use open_fusion.Groups.Members.{length-erase_member, IsRooted}
use open_fusion.Groups.Frames.{IsFramed, frames_compose}
use open_fusion.Groups.Removal.{IsLeft, IsGone, back_found, remove_from_group-Removed}

-- The group is deleted, and nothing else is changed.
abbrev pub IsDisbanded : Groups → ℕ → Option (Groups × List GroupMessage) → Type 0
IsDisbanded w a o =
    (w' : Groups) × (msgs : List GroupMessage) × (o ≡ some (w', msgs))
    × IsFramed w w' a
    × IsGone w' a

disband_loop_ends :
    (n : ℕ) (c : GroupContext) (w : Groups) (a : ℕ) (members : List EntityRef)
    → w.members_at a ≡ some members
    → IsRooted w a members
    → 1 ≤ length members
    → length members ≤ n
    → IsDisbanded w a (disband_loop n c w a)
unfolding disband_loop
disband_loop_ends zero c w a members h rooted some_ few = absurd (omega (arith, some_, few))
disband_loop_ends (suc n) c w a members h rooted some_ few =
    let (last, found, there) = back_found members some_ in
    let (v, msgs, done, e, (framed, released, end)) =
      remove_from_group-Removed c w a last members h there rooted in
    let shorter = length-erase_member last members there in
    go (disband_loop_ends n c) last found v msgs done e shorter framed end
  where
    go :
        ((w : Groups) (a : ℕ) (members : List EntityRef)
          → w.members_at a ≡ some members
          → IsRooted w a members
          → 1 ≤ length members
          → length members ≤ n
          → IsDisbanded w a (disband_loop n c w a))
        → (last : EntityRef) → back members ≡ some last
        → (v : Groups) (msgs : List GroupMessage) (done : Bool)
        → remove_from_group removal_depth c w a last ≡ some (v, msgs, done)
        → length (erase_member last members) + 1 ≡ length members
        → IsFramed w v a
        → ((done ≡ true) × IsGone v a) ⊎ ((done ≡ false) × IsLeft v a (erase_member last members))
        → IsDisbanded w a (disband_loop (suc n) c w a)
    go again last found v msgs done e shorter framed (inl (d, gone)) =
        (v, msgs, simp (h, found, e, d) refl, framed, gone)
    go again last found v msgs done e shorter framed (inr (d, (there, rooted', two))) =
        let (w', more, e', framed', gone) =
          again v a (erase_member last members) there rooted' (omega (arith, two))
            (omega (arith, shorter, few)) in
        (
          w',
          msgs ++ more,
          simp (h, found, e, d, e') refl,
          frames_compose w v w' a framed framed',
          gone,
        )

-- disbandGroup of a group that has a member, where whoever points to the group is one of its members,
-- comes to an end, with as many rounds as the group has members at most; the group is deleted then,
-- no one points to it, the other groups are as they were, and no one got a pointer to one of them.
pub disband_group_ends :
    (c : GroupContext) (w : Groups) (a : ℕ) (members : List EntityRef)
    → w.members_at a ≡ some members
    → IsRooted w a members
    → 1 ≤ length members
    → IsDisbanded w a (disband_group c w (some a))
unfolding disband_group
disband_group_ends c w a members h rooted some_ =
    let (w', msgs, e, framed, gone) =
      disband_loop_ends (length members) c w a members h rooted some_ (omega arith) in
    (w', msgs, simp (h, e) refl, framed, gone)
