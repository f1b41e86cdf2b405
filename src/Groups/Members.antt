-- ===== src/Groups/Members.antt =====
-- Members of a group: what the erasure of one leaves, and the pointers to the group.
use open_fusion.Common.{
  if◌then◌else◌, ◌==◌, ℕ, ◌+◌, ◌≡◌, refl, sym, ap, ap₂, subst, ◌∙◌, ◌⊎◌, inl, inr, true, false,
  ◌&&◌, none, some, List, [], ◌∷◌, arith, Bool-cases, length,
}
use open_fusion.Entity.{
  EntityKind, EntityRef, same_entity, kind_number, player, combat_npc, invalid, simple_npc, mob,
  egg, bus,
}
use open_fusion.Groups.{Groups, has_group, set_group, set_members, erase_member, back}

abbrev kind_of : ℕ → EntityKind
kind_of n =
    if n == 0
    then invalid
    else if n == 1
    then player
    else if n == 2
    then simple_npc
    else if n == 3
    then combat_npc
    else if n == 4
    then mob
    else if n == 5
    then egg
    else bus

kind_of-kind_number : (k : EntityKind) → kind_of (kind_number k) ≡ k
kind_of-kind_number invalid = refl
kind_of-kind_number player = refl
kind_of-kind_number simple_npc = refl
kind_of-kind_number combat_npc = refl
kind_of-kind_number mob = refl
kind_of-kind_number egg = refl
kind_of-kind_number bus = refl

pub same_entity_eq : (a b : EntityRef) → same_entity a b ≡ true → a ≡ b
same_entity_eq a b h =
    let kinds : kind_number a.kind ≡ kind_number b.kind = ground arith in
    let keys : a.key ≡ b.key = ground arith in
    ap₂ entity (sym (kind_of-kind_number a.kind) ∙ ap kind_of kinds ∙ kind_of-kind_number b.kind)
      keys
  where
    entity : EntityKind → ℕ → EntityRef
    entity k n = record { kind = k; key = n }

pub same_entity_refl : (a : EntityRef) → same_entity a a ≡ true
same_entity_refl a = ground arith

-- An entity is in a list of members.
abbrev pub IsMember : EntityRef → List EntityRef → Type 0
IsMember ref [] = ⊥
IsMember ref (x ∷ members) = (x ≡ ref) ⊎ IsMember ref members

pub back-IsMember :
    (x : EntityRef) (members : List EntityRef)
    → (last : EntityRef) × (back (x ∷ members) ≡ some last) × IsMember last (x ∷ members)
unfolding back
back-IsMember x [] = (x, refl, inl refl)
back-IsMember x (y ∷ members) = let (last, e, h) = back-IsMember y members in (last, e, inr h)

pub length-erase_member :
    (member : EntityRef) (members : List EntityRef)
    → IsMember member members
    → length (erase_member member members) + 1 ≡ length members
unfolding erase_member
length-erase_member member [] h = absurd h
length-erase_member member (x ∷ members) (inl e) =
    let same : same_entity x member ≡ true =
      subst (λ (z : EntityRef). same_entity x z ≡ true) e (same_entity_refl x) in
    simp same (omega arith)
length-erase_member member (x ∷ members) (inr h) = elim (Bool-cases (same_entity x member)) [
  | inl e ↦ simp e (omega arith)
  | inr e ↦ simp e (omega (arith, length-erase_member member members h))
]

erase_member-IsMember :
    (ref member : EntityRef) (members : List EntityRef)
    → IsMember ref members
    → same_entity ref member ≡ false
    → IsMember ref (erase_member member members)
unfolding erase_member
erase_member-IsMember ref member [] h apart = absurd h
erase_member-IsMember ref member (x ∷ members) (inl e) apart =
    let other : same_entity x member ≡ false =
      subst (λ (z : EntityRef). same_entity z member ≡ false) (sym e) apart in
    simp other (inl e)
erase_member-IsMember ref member (x ∷ members) (inr h) apart =
    elim (Bool-cases (same_entity x member)) [
      | inl e ↦ simp e h
      | inr e ↦ simp e (inr (erase_member-IsMember ref member members h apart))
    ]

-- Whoever points to the group is one of its members.
abbrev pub IsRooted : Groups → ℕ → List EntityRef → Type 0
IsRooted w a members =
    (ref : EntityRef) → w.group_of ref ≡ some a → (has_group ref ≡ true) × IsMember ref members

-- The member that goes, and the pointer to the group with it.
abbrev pub parted : Groups → ℕ → EntityRef → List EntityRef → Groups
parted w a member members =
    set_members (set_group w member none) a (some (erase_member member members))

pub parted-IsRooted :
    (w : Groups) (a : ℕ) (member : EntityRef) (members : List EntityRef)
    → IsRooted w a members
    → IsRooted (parted w a member members) a (erase_member member members)
parted-IsRooted w a member members rooted ref h =
    elim (Bool-cases (same_entity ref member && has_group member)) [
      | inl e ↦ absurd (nowhere (simp e at h))
      | inr e ↦
          let (has, there) = rooted ref (simp e at h) in
          (
            has,
            erase_member-IsMember ref member members there
                (differs has e (Bool-cases (same_entity ref member))),
          )
    ]
  where
    nowhere : none ≡ some a → ⊥
    nowhere h = ground arith

    not_both_ways : true ≡ false → ⊥
    not_both_ways h = ground arith

    differs :
        has_group ref ≡ true
        → same_entity ref member && has_group member ≡ false
        → (same_entity ref member ≡ true) ⊎ (same_entity ref member ≡ false)
        → same_entity ref member ≡ false
    differs has e (inr g) = g
    differs has e (inl g) =
        let has' : has_group member ≡ true =
          subst (λ (z : EntityRef). has_group z ≡ true) (same_entity_eq ref member g) has in
        absurd (not_both_ways (sym has' ∙ simp g at e))
