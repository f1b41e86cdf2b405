-- ===== src/Groups/Joining.antt =====
-- addToGroup and joinGroup keep every pointer to a group sound.
use open_fusion.Common.{
  ◌++◌, ℕ, ◌≡◌, refl, sym, ap, subst, ◌∙◌, inl, inr, true, ◌&&◌, Option, none, some, List, [], ◌∷◌,
  arith, ◌==◌, if◌then◌else◌, Bool-cases, length,
}
use open_fusion.Entity.{EntityRef, same_entity, player}
use open_fusion.Protocol.Cipher.{◌>>=◌}
use open_fusion.Groups.{
  Groups, GroupContext, GroupMessage, filter_kind, has_group, set_group, set_members, join_messages,
  add_to_group,
}
use open_fusion.Groups.Handlers.{group_size, in_group, new_group, join_other}
use open_fusion.Groups.Members.{IsMember, same_entity_eq, same_entity_refl}
use open_fusion.Groups.Leaving.{IsSound, some_inj, same_number}

newest_is_in : (members : List EntityRef) (ref : EntityRef) → IsMember ref (members ++ ref ∷ [])
newest_is_in [] ref = inl refl
newest_is_in (x ∷ members) ref = inr (newest_is_in members ref)

older_are_in :
    (members : List EntityRef) (ref new : EntityRef)
    → IsMember ref members
    → IsMember ref (members ++ new ∷ [])
older_are_in [] ref new h = absurd h
older_are_in (x ∷ members) ref new (inl e) = inl e
older_are_in (x ∷ members) ref new (inr h) = inr (older_are_in members ref new h)

self_eq : (n : ℕ) → n == n ≡ true
self_eq n = ground arith

-- The state after addToGroup.
abbrev pub added : Groups → ℕ → EntityRef → List EntityRef → Groups
added w a member members =
    set_members (set_group w member (some a)) a (some (members ++ member ∷ []))

added-IsSound :
    (w : Groups) (a : ℕ) (member : EntityRef) (members : List EntityRef)
    → IsSound w
    → w.members_at a ≡ some members
    → IsSound (added w a member members)
added-IsSound w a member members sound h ref b e =
    elim (Bool-cases (same_entity ref member && has_group member)) [
      | inl is_new ↦ newcomer is_new (some_inj (simp is_new at e))
      | inr is_old ↦
          (let (has, old, there, within) = sound ref b (simp is_old at e) in
            elim (Bool-cases (b == a)) [
              | inl here ↦
                  let same = some_inj (sym there ∙ ap w.members_at (same_number a b here) ∙ h) in
                  (
                    has,
                    members ++ member ∷ [],
                    simp here refl,
                    older_are_in members ref member (subst (IsMember ref) same within),
                  )
              | inr other ↦ (has, old, simp other there, within)
            ])
    ]
  where
    newcomer :
        same_entity ref member && has_group member ≡ true
        → a ≡ b
        → (has_group ref ≡ true)
          × (l : List EntityRef) × ((added w a member members).members_at b ≡ some l)
          × IsMember ref l
    newcomer is_new here =
        let one : same_entity ref member ≡ true = ground arith in
        let has : has_group member ≡ true = ground arith in
        let who = sym (same_entity_eq ref member one) in
        (
          subst (λ (z : EntityRef). has_group z ≡ true) who has,
          members ++ member ∷ [],
          subst (λ (z : ℕ). (added w a member members).members_at z ≡ some (members ++ member ∷ []))
              here (simp (self_eq a) refl),
          subst (λ (z : EntityRef). IsMember z (members ++ member ∷ [])) who
              (newest_is_in members member),
        )

-- A step that returns with a sound state.
abbrev pub EndsSound : Option (Groups × List GroupMessage) → Type 0
EndsSound o = (w' : Groups) × (msgs : List GroupMessage) × (o ≡ some (w', msgs)) × IsSound w'

-- The same, with a member at the end of the group.
pub add_to_group-EndsSound :
    (c : GroupContext) (w : Groups) (a : ℕ) (member : EntityRef) (members : List EntityRef)
    → IsSound w
    → w.members_at a ≡ some members
    → EndsSound (add_to_group c w (some a) member)
unfolding add_to_group
add_to_group-EndsSound c w a member members sound h = (
  added w a member members,
  join_messages c (members ++ member ∷ []) member,
  simp h refl,
  added-IsSound w a member members sound h,
)

-- An address without a group becomes that of an empty one.
allocated-IsSound :
    (w : Groups) (fresh : ℕ)
    → IsSound w
    → w.members_at fresh ≡ none
    → IsSound (set_members w fresh (some []))
allocated-IsSound w fresh sound free ref b e =
    let (has, members, there, within) = sound ref b e in
    elim (Bool-cases (b == fresh)) [
      | inl here ↦
          absurd (missing (sym free ∙ sym (ap w.members_at (same_number fresh b here)) ∙ there))
      | inr other ↦ (has, members, simp other there, within)
    ]
  where
    missing : {l : List EntityRef} → none ≡ some l → ⊥
    missing h = ground arith

new_group_run :
    (c : GroupContext) (w : Groups) (fresh : ℕ) (other : EntityRef)
    → new_group c w fresh other
      ≡ some
          (added (set_members w fresh (some [])) fresh other [], join_messages c (other ∷ []) other)
unfolding new_group add_to_group
new_group_run c w fresh other = simp (self_eq fresh) refl

module _ (c : GroupContext) (w : Groups) (sound : IsSound w) (other sock : EntityRef) where
  -- The player joins the group that the other one has by now.
  joins :
      (v : Groups) (msgs : List GroupMessage) (a : ℕ)
      → IsSound v
      → v.group_of other ≡ some a
      → EndsSound
          (add_to_group c v (v.group_of other) sock >>= λ after. some (after.0, msgs ++ after.1))
  joins v msgs a sound' e =
      let (has, members, there, within) = sound' other a e in
      let (u, more, run, end) = add_to_group-EndsSound c v a sock members sound' there in
      (u, msgs ++ more, simp (e, run) refl, end)

  pub join_other-EndsSound :
      (fresh : ℕ)
      → w.members_at fresh ≡ none
      → has_group other ≡ true
      → EndsSound (join_other c w fresh other sock)
  unfolding join_other
  join_other-EndsSound fresh free has = go (w.group_of other) refl
    where
      started :
          new_group c w fresh other
          ≡ some (
            added (set_members w fresh (some [])) fresh other [],
            join_messages c (other ∷ []) other,
          )
      started = new_group_run c w fresh other

      led : (added (set_members w fresh (some [])) fresh other []).group_of other ≡ some fresh
      led = simp (same_entity_refl other, has) refl

      go :
          (g : Option ℕ)
          → w.group_of other ≡ g
          → EndsSound (
              (if in_group g then some (w, []) else new_group c w fresh other) >>= λ start.
              add_to_group c start.0 (start.0.group_of other) sock >>= λ after.
              some (after.0, start.1 ++ after.1))
      go (some a) e = joins w [] a sound e
      go none e = simp started (
          joins (added (set_members w fresh (some [])) fresh other [])
            (join_messages c (other ∷ []) other) fresh
            (added-IsSound (set_members w fresh (some [])) fresh other []
              (allocated-IsSound w fresh sound free) (simp (self_eq fresh) refl))
            led)

  -- The number of players of a group is there.
  pub group_size_found :
      (g : Option ℕ)
      → w.group_of other ≡ g
      → (alone : ℕ) → (n : ℕ) × (group_size w g alone ≡ some n)
  group_size_found none e alone = (alone, refl)
  group_size_found (some a) e alone =
      let (has, members, there, within) = sound other a e in
      (length (filter_kind player members), simp there refl)
