-- ===== src/Groups/Frames.antt =====
-- What an operation on one group leaves of the others.
use open_fusion.Common.{
  Bool, ℕ, ◌≡◌, refl, ◌∙◌, inl, inr, false, ◌&&◌, Option, none, some, List, arith, ◌==◌, Bool-cases,
  true, ◌⊎◌, if◌then◌else◌,
}
use open_fusion.Entity.{EntityRef, same_entity}
use open_fusion.Groups.{Groups, has_group, set_members}
use open_fusion.Groups.Members.{same_entity_refl, parted}

-- The other groups are as they were, and no one got a pointer that was not there.
abbrev pub IsFramed : Groups → Groups → ℕ → Type 0
IsFramed w v a =
    ((b : ℕ) → b == a ≡ false → v.members_at b ≡ w.members_at b)
    × ((ref : EntityRef) (b : ℕ) → v.group_of ref ≡ some b → w.group_of ref ≡ some b)

pub frames_compose : (u v w : Groups) (a : ℕ) → IsFramed u v a → IsFramed v w a → IsFramed u w a
frames_compose u v w a (p, q) (r, s) = (λ b h. r b h ∙ p b h, λ ref b h. q ref b (s ref b h))

pub set_members-IsFramed :
    (w : Groups) (a : ℕ) (members : Option (List EntityRef))
    → IsFramed w (set_members w a members) a
set_members-IsFramed w a members = (λ b h. simp h refl, λ ref b h. h)

pub parted-IsFramed :
    (w : Groups) (a : ℕ) (member : EntityRef) (members : List EntityRef)
    → IsFramed w (parted w a member members) a
parted-IsFramed w a member members = (λ b h. simp h refl, pointers)
  where
    nowhere : (b : ℕ) → none ≡ some b → ⊥
    nowhere b h = ground arith

    pointers :
        (ref : EntityRef) (b : ℕ)
        → (parted w a member members).group_of ref ≡ some b
        → w.group_of ref ≡ some b
    pointers ref b h = elim (Bool-cases (same_entity ref member && has_group member)) [
      | inl e ↦ absurd (nowhere b (simp e at h))
      | inr e ↦ simp e at h
    ]

-- An entity that can be in a group is in none.
abbrev pub IsReleased : Groups → EntityRef → Type 0
IsReleased w ref = (has_group ref ≡ false) ⊎ (w.group_of ref ≡ none)

pub parted-IsReleased :
    (w : Groups) (a : ℕ) (member : EntityRef) (members : List EntityRef)
    → IsReleased (parted w a member members) member
parted-IsReleased w a member members = elim (Bool-cases (has_group member)) [
  | inl e ↦ inr (simp (same_entity_refl member, e) refl)
  | inr e ↦ inl e
]

-- It stays so when another member goes.
pub parted_keeps :
    (w : Groups) (a : ℕ) (ref member : EntityRef) (members : List EntityRef)
    → IsReleased w ref
    → IsReleased (parted w a member members) ref
parted_keeps w a ref member members (inl e) = inl e
parted_keeps w a ref member members (inr e) =
    inr (either (same_entity ref member && has_group member))
  where
    either : (b : Bool) → (if b then none else w.group_of ref) ≡ none
    either true = refl
    either false = e
