-- ===== src/Groups/Removal.antt =====
-- What removeFromGroup leaves of a group.
use open_fusion.Common.{
  ◌∙◌, ◌++◌, ℕ, zero, suc, ◌≤◌, ◌≡◌, refl, ◌≢◌, ◌⊎◌, inl, inr, Bool, true, false, none, some, List,
  [], ◌∷◌, arith, ◌==◌, length,
}
use open_fusion.Entity.{EntityRef}
use open_fusion.Protocol.Cipher.{◌>>=◌}
use open_fusion.Groups.{
  Groups, GroupContext, GroupMessage, set_members, erase_member, back, leave_messages,
  remove_from_group, removal_depth,
}
use open_fusion.Groups.Frames.{
  IsFramed, IsReleased, parted-IsReleased, parted_keeps, frames_compose, set_members-IsFramed,
  parted-IsFramed,
}
use open_fusion.Groups.Members.{
  IsMember, back-IsMember, length-erase_member, IsRooted, parted, parted-IsRooted,
}

-- The group is deleted, and no one points to it.
abbrev pub IsGone : Groups → ℕ → Type 0
IsGone w a = (w.members_at a ≡ none) × ((ref : EntityRef) → w.group_of ref ≢ some a)

-- The group is there with the given members, two at least, and whoever points to it is one of them.
abbrev pub IsLeft : Groups → ℕ → List EntityRef → Type 0
IsLeft w a members = (w.members_at a ≡ some members) × IsRooted w a members × (2 ≤ length members)

self_eq : (n : ℕ) → n == n ≡ true
self_eq n = ground arith

-- A group without members, when it is deleted.
deleted-IsGone :
    (w : Groups) (a : ℕ) (members : List EntityRef)
    → IsRooted w a members
    → length members ≡ 0
    → IsGone (set_members w a none) a
deleted-IsGone w a [] rooted h = (simp (self_eq a) refl, λ ref e. (rooted ref e).1)
deleted-IsGone w a (x ∷ members) rooted h = absurd (omega (arith, h))

-- The two ends of a call that does not call itself again.
remove_last :
    (fuel : ℕ) (c : GroupContext) (w : Groups) (a : ℕ) (member : EntityRef)
    (members : List EntityRef)
    → w.members_at a ≡ some members
    → length (erase_member member members) ≡ 0
    → remove_from_group (suc fuel) c w a member
      ≡ some (
        set_members (parted w a member members) a none,
        leave_messages c (erase_member member members) member,
        true,
      )
unfolding remove_from_group
remove_last fuel c w a member members h e = simp (h, e) refl

remove_one :
    (fuel : ℕ) (c : GroupContext) (w : Groups) (a : ℕ) (member : EntityRef)
    (members : List EntityRef)
    → w.members_at a ≡ some members
    → 2 ≤ length (erase_member member members)
    → remove_from_group (suc fuel) c w a member
      ≡ some
          (parted w a member members, leave_messages c (erase_member member members) member, false)
unfolding remove_from_group
remove_one fuel c w a member members h l =
    let not_one : length (erase_member member members) == 1 ≡ false = ground arith in
    let not_none : length (erase_member member members) == 0 ≡ false = ground arith in
    simp (h, not_one, not_none) refl

pub back_found :
    (members : List EntityRef)
    → 1 ≤ length members
    → (last : EntityRef) × (back members ≡ some last) × IsMember last members
back_found [] h = absurd (omega (arith, h))
back_found (x ∷ members) h = back-IsMember x members

parted_there :
    (w : Groups) (a : ℕ) (member : EntityRef) (members : List EntityRef)
    → (parted w a member members).members_at a ≡ some (erase_member member members)
parted_there w a member members = simp (self_eq a) refl

-- What a call comes to.
abbrev pub Removed : Groups → Groups → ℕ → EntityRef → List EntityRef → Bool → Type 0
Removed w w' a member rest done =
    IsFramed w w' a
    × IsReleased w' member
    × (((done ≡ true) × IsGone w' a) ⊎ ((done ≡ false) × IsLeft w' a rest))

remove_again :
    (fuel : ℕ) (c : GroupContext) (w : Groups) (a : ℕ) (member : EntityRef)
    (members : List EntityRef)
    → w.members_at a ≡ some members
    → length (erase_member member members) ≡ 1
    → remove_from_group (suc fuel) c w a member
      ≡ (back (erase_member member members) >>= λ last.
          remove_from_group fuel c (parted w a member members) a last)
        >>= λ after.
            some
              (after.0, leave_messages c (erase_member member members) member ++ after.1, after.2)
unfolding remove_from_group
remove_again fuel c w a member members h e = simp (h, e) refl

remove_two_run :
    (c : GroupContext) (w : Groups) (a : ℕ) (member last : EntityRef) (members : List EntityRef)
    → w.members_at a ≡ some members
    → length (erase_member member members) ≡ 1
    → back (erase_member member members) ≡ some last
    → length (erase_member last (erase_member member members)) ≡ 0
    → remove_from_group 2 c w a member
      ≡ some (
        set_members
            (parted (parted w a member members) a last (erase_member member members))
            a
            none,
        leave_messages c (erase_member member members) member
            ++ leave_messages c (erase_member last (erase_member member members)) last,
        true,
      )
remove_two_run c w a member last members h e found none_left =
    let inner =
      remove_last 0 c (parted w a member members) a last (erase_member member members)
        (parted_there w a member members) none_left in
    remove_again 1 c w a member members h e ∙ simp (found, inner) refl

-- A call that leaves one member behind, and removes that one too.
remove_two :
    (c : GroupContext) (w : Groups) (a : ℕ) (member : EntityRef) (members : List EntityRef)
    → w.members_at a ≡ some members
    → IsRooted w a members
    → length (erase_member member members) ≡ 1
    → (w' : Groups) × (msgs : List GroupMessage) × (remove_from_group 2 c w a member
        ≡ some (w', msgs, true))
      × IsFramed w w' a
      × IsReleased w' member
      × IsGone w' a
remove_two c w a member members h rooted e =
    let rest = erase_member member members in
    let left = parted w a member members in
    let (last, found, there) = back_found rest (omega (arith, e)) in
    let none_left : length (erase_member last rest) ≡ 0 =
      omega (arith, length-erase_member last rest there, e) in
    (
      set_members (parted left a last rest) a none,
      leave_messages c rest member ++ leave_messages c (erase_member last rest) last,
      remove_two_run c w a member last members h e found none_left,
      frames_compose w left (set_members (parted left a last rest) a none) a
          (parted-IsFramed w a member members)
          (frames_compose left (parted left a last rest)
            (set_members (parted left a last rest) a none) a (parted-IsFramed left a last rest)
            (set_members-IsFramed (parted left a last rest) a none)),
      parted_keeps left a member last rest (parted-IsReleased w a member members),
      deleted-IsGone (parted left a last rest) a (erase_member last rest)
          (parted-IsRooted left a last rest (parted-IsRooted w a member members rooted)) none_left,
    )

-- removeFromGroup of a member, in a group where whoever points to it is one of its members, returns,
-- with one recursive call at most: the member is in no group, if it can be in one; the other groups
-- are as they were, and no one got a pointer to one of them; and the group is deleted and no one
-- points to it, or it has at least two members left, those before without the one removed, and
-- whoever points to it is one of them.
pub remove_from_group-Removed :
    (c : GroupContext) (w : Groups) (a : ℕ) (member : EntityRef) (members : List EntityRef)
    → w.members_at a ≡ some members
    → IsMember member members
    → IsRooted w a members
    → (w' : Groups) × (msgs : List GroupMessage) × (done : Bool) × (remove_from_group removal_depth
          c w a member
        ≡ some (w', msgs, done))
      × Removed w w' a member (erase_member member members) done
remove_from_group-Removed c w a member members h there rooted =
    size (length (erase_member member members)) refl
  where
    size :
        (n : ℕ)
        → length (erase_member member members) ≡ n
        → (w' : Groups) × (msgs : List GroupMessage) × (done : Bool) × (remove_from_group
              removal_depth c w a member
            ≡ some (w', msgs, done))
          × Removed w w' a member (erase_member member members) done
    size zero e =
        let gone = set_members (parted w a member members) a none in
        (
          gone,
          leave_messages c (erase_member member members) member,
          true,
          remove_last 1 c w a member members h e,
          (
            frames_compose w (parted w a member members) gone a (parted-IsFramed w a member members)
                (set_members-IsFramed (parted w a member members) a none),
            parted-IsReleased w a member members,
            inl (
              refl,
              deleted-IsGone (parted w a member members) a (erase_member member members)
                  (parted-IsRooted w a member members rooted) e,
            ),
          ),
        )
    size (suc zero) e =
        let (w', msgs, run, framed, free, gone) = remove_two c w a member members h rooted e in
        (w', msgs, true, run, (framed, free, inl (refl, gone)))
    size (suc (suc n)) e = (
      parted w a member members,
      leave_messages c (erase_member member members) member,
      false,
      remove_one 1 c w a member members h (omega (arith, e)),
      (
        parted-IsFramed w a member members,
        parted-IsReleased w a member members,
        inr (
          refl,
          (
            parted_there w a member members,
            parted-IsRooted w a member members rooted,
            omega (arith, e),
          ),
        ),
      ),
    )
