-- ===== src/Buddies/Friends.antt =====
-- Two players become buddies, and no buddies again.
use open_fusion.Common.{
  ℕ, ◌≡◌, refl, sym, ap, ap₂, ◌∙◌, ◌≢◌, Bool, true, false, some, List, [], ◌∷◌, arith, length,
  get_elem?, set,
}
use open_fusion.Common.Int.{ℤ, pos, eqb_ℤ}
use open_fusion.Items.Places.{get_elem?-set_self, get_elem?-set_ne}
use open_fusion.Items.Kitted.{some_lt}
use open_fusion.Vendors.Costs.{some_inj}
use open_fusion.Buddies.{
  Member, Roster, BuddyEffect, first_place_of, get_available_buddy_slot, player_has_buddy_with_id,
  find_sock, befriended, named_slot, send, add_buddyship, remove_buddyship, remove_block,
  accept_succ, remove_succ,
}
use open_fusion.Buddies.Handlers.{
  accept_slots, accept_request, req_accept_buddy, drop_buddy, notify_other, unfriended, delete_at,
  req_buddy_delete,
}
use open_fusion.Buddies.Slots.{
  set_again, set_held, set_comm, first_place_of_holds, first_place_of-set, find_sock-set,
  named_slot_lem, eqb_self,
}

-- Two different players on the shard, at the sockets s and o, who have a free slot each, a and b, and
-- neither of whom has the other in the list.
pub record AreStrangers (w : Roster) (s o : ℕ) (p other : Member) (a b : ℕ) : Type 0 where
  pub here : get_elem? w s ≡ some p
  pub there : get_elem? w o ≡ some other
  pub differ : eqb_ℤ p.id other.id ≡ false
  pub sizes : (length p.buddy_ids ≡ 50) × (length other.buddy_ids ≡ 50)
  pub free_here : get_available_buddy_slot p ≡ some a
  pub free_there : get_available_buddy_slot other ≡ some b
  pub unknown_here : player_has_buddy_with_id p other.id ≡ false
  pub unknown_there : player_has_buddy_with_id other p.pc_uid ≡ false

-- The shard with the two as buddies.
abbrev pub joined : Roster → ℕ → ℕ → Member → Member → ℕ → ℕ → Roster
joined w s o p other a b =
    set (set w s (befriended p a other.pc_uid)) o (befriended other b p.pc_uid)

clash : true ≡ false → ⊥
clash h = ground arith

pub sockets_differ :
    (w : Roster) (s o : ℕ) (p other : Member)
    → get_elem? w s ≡ some p
    → get_elem? w o ≡ some other
    → eqb_ℤ p.id other.id ≡ false
    → s ≢ o
sockets_differ w s o p other here there differ e = clash (
    sym (eqb_self other.id)
    ∙ ap (λ (z : Member). eqb_ℤ z.id other.id)
        (some_inj (sym there ∙ ap (get_elem? w) (sym e) ∙ here))
    ∙ differ)

pub accepts :
    (w : Roster) (s o : ℕ) (p other : Member) (a b : ℕ) (id uid : ℤ)
    → AreStrangers w s o p other a b
    → find_sock w id ≡ some o
    → req_accept_buddy w s (pos 1) id uid
      ≡ some (
        joined w s o p other a b,
        send s (accept_succ a other.id other.pc_uid)
            ∷ send o (accept_succ b p.id p.pc_uid)
            ∷ add_buddyship p.id other.id
            ∷ [],
      )
unfolding req_accept_buddy accept_request accept_slots
accepts w s o p other a b id uid h found =
    simp (h.here, found, h.there, h.free_here, h.free_there, h.differ, h.unknown_here) refl

module _ (w : Roster) (s o : ℕ) (p other : Member) (a b : ℕ)
    (h : AreStrangers w s o p other a b) where
  abbrev p_joined : Member
  p_joined = befriended p a other.pc_uid

  abbrev other_joined : Member
  other_joined = befriended other b p.pc_uid

  abbrev p_alone : Member
  p_alone = unfriended p_joined a

  apart : s ≢ o
  apart = sockets_differ w s o p other h.here h.there h.differ

  slot_here : get_elem? p.buddy_ids a ≡ some (pos 0)
  slot_here = first_place_of_holds (pos 0) p.buddy_ids a h.free_here

  slot_there : get_elem? other.buddy_ids b ≡ some (pos 0)
  slot_there = first_place_of_holds (pos 0) other.buddy_ids b h.free_there

  pub here_joined : get_elem? (joined w s o p other a b) s ≡ some p_joined
  here_joined =
      get_elem?-set_ne (set w s p_joined) o s other_joined (λ e. apart (sym e))
      ∙ get_elem?-set_self w s p p_joined h.here

  there_joined : get_elem? (set (joined w s o p other a b) s p_alone) o ≡ some other_joined
  there_joined =
      get_elem?-set_ne (joined w s o p other a b) s o p_alone apart
      ∙ get_elem?-set_self (set w s p_joined) o other other_joined
          (get_elem?-set_ne w s o p_joined apart ∙ h.there)

  -- The sockets stay.
  finds_other : (id : ℤ) → find_sock (set (joined w s o p other a b) s p_alone) id ≡ find_sock w id
  finds_other id =
      find_sock-set (joined w s o p other a b) s p_joined p_alone id here_joined refl
      ∙ find_sock-set (set w s p_joined) o other other_joined id
          (get_elem?-set_ne w s o p_joined apart ∙ h.there) refl
      ∙ find_sock-set w s p p_joined id h.here refl

  -- Both slots are as they were.
  p_as_before : get_elem? p.is_buddy_blocked a ≡ some false → p_alone ≡ p
  p_as_before clean =
      ap₂
        (λ (ids : List ℤ) (flags : List Bool). record p {
          buddy_ids = ids;
          is_buddy_blocked = flags;
        })
        (set_again p.buddy_ids a other.pc_uid (pos 0) ∙ set_held p.buddy_ids a (pos 0) slot_here)
        (set_held p.is_buddy_blocked a false clean)

  other_as_before : befriended other_joined b (pos 0) ≡ other
  other_as_before =
      ap (λ (ids : List ℤ). record other { buddy_ids = ids })
        (set_again other.buddy_ids b p.pc_uid (pos 0)
          ∙ set_held other.buddy_ids b (pos 0) slot_there)

  w_as_before :
      get_elem? p.is_buddy_blocked a ≡ some false
      → set (set (joined w s o p other a b) s p_alone) o (befriended other_joined b (pos 0)) ≡ w
  w_as_before clean =
      ap (λ (l : Roster). set l o (befriended other_joined b (pos 0)))
        (set_comm (set w s p_joined) o s other_joined p_alone (λ e. apart (sym e)))
      ∙ set_again (set (set w s p_joined) s p_alone) o other_joined
          (befriended other_joined b (pos 0))
      ∙ ap₂ (λ (l : Roster) (q : Member). set l o q)
          (set_again w s p_joined p_alone
            ∙ ap (set w s) (p_as_before clean)
            ∙ set_held w s p h.here)
          other_as_before
      ∙ set_held w o other h.there

  names_other : named_slot p_joined (pos a) other.pc_uid ≡ some (some a)
  names_other =
      named_slot_lem p_joined a other.pc_uid
        (omega (arith, h.sizes.0, some_lt p.buddy_ids a (pos 0) slot_here))
        (get_elem?-set_self p.buddy_ids a (pos 0) other.pc_uid slot_here)

  finds_slot : first_place_of p.pc_uid other_joined.buddy_ids ≡ some b
  finds_slot =
      first_place_of-set p.pc_uid other.buddy_ids b h.unknown_there
        (some_lt other.buddy_ids b (pos 0) slot_there)

  pub notifies :
      find_sock w other.pc_uid ≡ some o
      → notify_other (set (joined w s o p other a b) s p_alone) p.pc_uid other.pc_uid
        ≡ some (
          set (set (joined w s o p other a b) s p_alone) o (befriended other_joined b (pos 0)),
          send o (remove_succ p.pc_uid (pos b)) ∷ [],
        )
  unfolding notify_other drop_buddy
  notifies again = simp (finds_other other.pc_uid, again, there_joined, finds_slot) refl

  pub deletes :
      find_sock w other.pc_uid ≡ some o
      → get_elem? p.is_buddy_blocked a ≡ some false
      → (undo : List BuddyEffect) × (req_buddy_delete
            (joined w s o p other a b)
            s
            other.pc_uid
            (pos a)
          ≡ some (
            set (set (joined w s o p other a b) s p_alone) o (befriended other_joined b (pos 0)),
            undo,
          ))
  unfolding req_buddy_delete delete_at
  deletes again clean = (
    send s (remove_succ other.pc_uid (pos a))
        ∷ remove_buddyship p.pc_uid other.pc_uid
        ∷ remove_block p.pc_uid other.pc_uid
        ∷ send o (remove_succ p.pc_uid (pos b))
        ∷ [],
    simp (here_joined, names_other, clean, notifies again) refl,
  )

-- A player who accepts a request of another player, where both have a free slot and neither has the
-- other in the list, and whose free slot is not marked as blocked: reqAcceptBuddy stores each in the
-- first free slot of the other, and reqBuddyDelete of that slot restores both lists, all slots and
-- marks of all players.
pub req_buddy_delete-accept :
    (w : Roster) (s o : ℕ) (p other : Member) (a b : ℕ) (id uid : ℤ)
    → AreStrangers w s o p other a b
    → find_sock w id ≡ some o
    → find_sock w other.pc_uid ≡ some o
    → get_elem? p.is_buddy_blocked a ≡ some false
    → (w1 : Roster) × (msgs : List BuddyEffect) × (undo : List BuddyEffect) × (req_accept_buddy w s
          (pos 1)
          id
          uid
        ≡ some (w1, msgs))
      × (w1 ≡ joined w s o p other a b)
      × (req_buddy_delete w1 s other.pc_uid (pos a) ≡ some (w, undo))
req_buddy_delete-accept w s o p other a b id uid h found again clean =
    let (undo, run) = deletes w s o p other a b h again clean in
    (
      joined w s o p other a b,
      _,
      undo,
      accepts w s o p other a b id uid h found,
      refl,
      run ∙ ap (λ (l : Roster). some (l, undo)) (w_as_before w s o p other a b h clean),
    )
