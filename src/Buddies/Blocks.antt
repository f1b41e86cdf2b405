-- ===== src/Buddies/Blocks.antt =====
-- A block, and how the blocked player gets rid of it.
use open_fusion.Common.{
  ℕ, ◌≡◌, refl, ◌∙◌, ◌≢◌, true, false, some, List, [], ◌∷◌, arith, length, get_elem?, set,
  length-set,
}
use open_fusion.Common.Int.{ℤ, pos, eqb_ℤ}
use open_fusion.Items.Places.{get_elem?-set_self, get_elem?-set_ne}
use open_fusion.Items.Kitted.{some_lt}
use open_fusion.Buddies.{
  player_block_succ, Member, Roster, BuddyEffect, first_place_of, get_available_buddy_slot,
  player_has_buddy_with_id, find_sock, befriended, named_slot, send, remove_buddyship, add_block,
  buddy_block_succ, remove_succ,
}
use open_fusion.Buddies.Handlers.{
  drop_buddy, notify_other, req_accept_buddy, req_buddy_block, req_player_block,
}
use open_fusion.Buddies.Slots.{first_place_of_holds, find_sock-set, named_slot_lem}
use open_fusion.Buddies.Friends.{sockets_differ, AreStrangers, accepts, here_joined}

-- Two different players at the sockets s and o: the first has a free slot n, and the other has
-- blocked him, in the slot j.
pub record IsBlockedBy (w : Roster) (s o : ℕ) (p other : Member) (n j : ℕ) : Type 0 where
  pub here : get_elem? w s ≡ some p
  pub there : get_elem? w o ≡ some other
  pub differ : eqb_ℤ p.id other.id ≡ false
  pub size : length p.buddy_ids ≡ 50
  pub free_here : get_available_buddy_slot p ≡ some n
  pub named_there : first_place_of p.pc_uid other.buddy_ids ≡ some j
  pub blocked_there : get_elem? other.is_buddy_blocked j ≡ some true

module _ (w : Roster) (s o : ℕ) (p other : Member) (n j : ℕ)
    (h : IsBlockedBy w s o p other n j) where
  abbrev p_blocking : Member
  p_blocking = record p {
    buddy_ids = set p.buddy_ids n other.pc_uid;
    is_buddy_blocked = set p.is_buddy_blocked n true;
  }

  abbrev p_after : Member
  p_after = record p_blocking { is_buddy_blocked = set p_blocking.is_buddy_blocked n true }

  apart : s ≢ o
  apart = sockets_differ w s o p other h.here h.there h.differ

  blocks_back :
      (id : ℤ)
      → (msgs : List BuddyEffect) × (req_player_block w s id other.pc_uid
          ≡ some (set w s p_blocking, msgs))
  unfolding req_player_block
  blocks_back id = (
    add_block p.id other.pc_uid ∷ send s (player_block_succ id other.pc_uid n) ∷ [],
    simp (h.here, h.free_here) refl,
  )

  here_blocking : get_elem? (set w s p_blocking) s ≡ some p_blocking
  here_blocking = get_elem?-set_self w s p p_blocking h.here

  there_still : get_elem? (set (set w s p_blocking) s p_after) o ≡ some other
  there_still =
      get_elem?-set_ne (set w s p_blocking) s o p_after apart
      ∙ get_elem?-set_ne w s o p_blocking apart
      ∙ h.there

  finds_still : (id : ℤ) → find_sock (set (set w s p_blocking) s p_after) id ≡ find_sock w id
  finds_still id =
      find_sock-set (set w s p_blocking) s p_blocking p_after id here_blocking refl
      ∙ find_sock-set w s p p_blocking id h.here refl

  names_other : named_slot p_blocking (pos n) other.pc_uid ≡ some (some n)
  names_other =
      let free = first_place_of_holds (pos 0) p.buddy_ids n h.free_here in
      named_slot_lem p_blocking n other.pc_uid
        (omega (arith, h.size, some_lt p.buddy_ids n (pos 0) free))
        (get_elem?-set_self p.buddy_ids n (pos 0) other.pc_uid free)

  notifies :
      find_sock w other.pc_uid ≡ some o
      → notify_other (set (set w s p_blocking) s p_after) p.pc_uid other.pc_uid
        ≡ some (
          set (set (set w s p_blocking) s p_after) o (befriended other j (pos 0)),
          send o (remove_succ p.pc_uid (pos j)) ∷ [],
        )
  unfolding notify_other drop_buddy
  notifies found = simp (finds_still other.pc_uid, found, there_still, h.named_there) refl

  blocks_again :
      find_sock w other.pc_uid ≡ some o
      → (msgs : List BuddyEffect) × (req_buddy_block (set w s p_blocking) s other.pc_uid (pos n)
          ≡ some (set (set (set w s p_blocking) s p_after) o (befriended other j (pos 0)), msgs))
  unfolding req_buddy_block
  blocks_again found = (
    remove_buddyship p.id other.pc_uid
        ∷ add_block p.id other.pc_uid
        ∷ send s (buddy_block_succ other.pc_uid (pos n))
        ∷ send o (remove_succ p.pc_uid (pos j))
        ∷ [],
    simp (here_blocking, names_other, notifies found) refl,
  )

-- A third player at the socket z with a free slot c, who may become a buddy of the other one once
-- the slot j of that list is free: neither is in the list of the other then.
pub record IsNewcomer (w : Roster) (z : ℕ) (p other x : Member) (j c : ℕ) : Type 0 where
  pub there : get_elem? w z ≡ some x
  pub not_p : eqb_ℤ p.id x.id ≡ false
  pub not_other : eqb_ℤ other.id x.id ≡ false
  pub sizes : (length other.buddy_ids ≡ 50) × (length x.buddy_ids ≡ 50)
  pub first_free : get_available_buddy_slot (befriended other j (pos 0)) ≡ some j
  pub free_there : get_available_buddy_slot x ≡ some c
  pub unknown_here : player_has_buddy_with_id (befriended other j (pos 0)) x.id ≡ false
  pub unknown_there : player_has_buddy_with_id x other.pc_uid ≡ false
  pub found : find_sock w x.id ≡ some z

module _ (w : Roster) (s o : ℕ) (p other : Member) (n j : ℕ) (h : IsBlockedBy w s o p other n j)
    (z : ℕ) (x : Member) (c : ℕ) (new : IsNewcomer w z p other x j c) where
  abbrev lifted : Roster
  lifted =
      set (set (set w s (p_blocking w s o p other n j h)) s (p_after w s o p other n j h)) o
        (befriended other j (pos 0))

  lifted_here : get_elem? lifted o ≡ some (befriended other j (pos 0))
  lifted_here =
      get_elem?-set_self _ o other (befriended other j (pos 0)) (there_still w s o p other n j h)

  newcomer_there : get_elem? lifted z ≡ some x
  newcomer_there =
      let from_s = sockets_differ w s z p x h.here new.there new.not_p in
      let from_o = sockets_differ w o z other x h.there new.there new.not_other in
      get_elem?-set_ne
        (set (set w s (p_blocking w s o p other n j h)) s (p_after w s o p other n j h)) o z
        (befriended other j (pos 0)) from_o
      ∙ get_elem?-set_ne (set w s (p_blocking w s o p other n j h)) s z
          (p_after w s o p other n j h) from_s
      ∙ get_elem?-set_ne w s z (p_blocking w s o p other n j h) from_s
      ∙ new.there

  newcomer_found : find_sock lifted x.id ≡ some z
  newcomer_found =
      find_sock-set (set (set w s (p_blocking w s o p other n j h)) s (p_after w s o p other n j h))
        o other (befriended other j (pos 0)) x.id (there_still w s o p other n j h) refl
      ∙ finds_still w s o p other n j h x.id
      ∙ new.found

  lifted-AreStrangers : AreStrangers lifted o z (befriended other j (pos 0)) x j c
  lifted-AreStrangers = record {
    here = lifted_here;
    there = newcomer_there;
    differ = new.not_other;
    sizes = (length-set other.buddy_ids j (pos 0) ∙ new.sizes.0, new.sizes.1);
    free_here = new.first_free;
    free_there = new.free_there;
    unknown_here = new.unknown_here;
    unknown_there = new.unknown_there;
  }

  -- The list of the other player with the newcomer in the slot of the lifted block.
  abbrev marked : Member
  marked = befriended (befriended other j (pos 0)) j x.pc_uid

  accepts_newcomer :
      (uid : ℤ)
      → (w3 : Roster) × (rest : List BuddyEffect) × (req_accept_buddy lifted o (pos 1) x.id uid
          ≡ some (w3, rest))
        × (get_elem? w3 o ≡ some marked)
  accepts_newcomer uid = (
    _,
    _,
    accepts lifted o z (befriended other j (pos 0)) x j c x.id uid lifted-AreStrangers
        newcomer_found,
    here_joined lifted o z (befriended other j (pos 0)) x j c lifted-AreStrangers,
  )

-- A player who was blocked by another one blocks him in turn with reqPlayerBlock and then names
-- that slot to reqBuddyBlock: the slot in which the other player had blocked him is free again, and
-- its mark of a block stays. When the other player then accepts a request of a third player, and
-- that slot is his first free one, the third player becomes his buddy in that slot, with the mark
-- of a block.
pub req_buddy_block_lifts :
    (w : Roster) (s o : ℕ) (p other : Member) (n j : ℕ) (id : ℤ)
    → (h : IsBlockedBy w s o p other n j) → find_sock w other.pc_uid ≡ some o
    → (z : ℕ) (x : Member) (c : ℕ) (uid : ℤ) → IsNewcomer w z p other x j c
    → (w1 : Roster) × (w2 : Roster) × (w3 : Roster) × (msgs : List BuddyEffect) × (more : List
        BuddyEffect)
      × (rest : List BuddyEffect) × (req_player_block w s id other.pc_uid ≡ some (w1, msgs))
      × (req_buddy_block w1 s other.pc_uid (pos n) ≡ some (w2, more))
      × (get_elem? w2 o ≡ some (befriended other j (pos 0)))
      × (get_elem? (befriended other j (pos 0)).buddy_ids j ≡ some (pos 0))
      × (req_accept_buddy w2 o (pos 1) x.id uid ≡ some (w3, rest))
      × (get_elem? w3 o ≡ some (befriended (befriended other j (pos 0)) j x.pc_uid))
      × (get_elem? (befriended (befriended other j (pos 0)) j x.pc_uid).buddy_ids j ≡ some x.pc_uid)
      × (get_elem? (befriended (befriended other j (pos 0)) j x.pc_uid).is_buddy_blocked j
          ≡ some true)
req_buddy_block_lifts w s o p other n j id h found z x c uid new =
    let (msgs, first) = blocks_back w s o p other n j h id in
    let (more, second) = blocks_again w s o p other n j h found in
    let (w3, rest, third, there) = accepts_newcomer w s o p other n j h z x c new uid in
    let freed =
      get_elem?-set_self other.buddy_ids j p.pc_uid (pos 0)
        (first_place_of_holds p.pc_uid other.buddy_ids j h.named_there) in
    (
      set w s (p_blocking w s o p other n j h),
      lifted w s o p other n j h z x c new,
      w3,
      msgs,
      more,
      rest,
      first,
      second,
      lifted_here w s o p other n j h z x c new,
      freed,
      third,
      there,
      get_elem?-set_self (set other.buddy_ids j (pos 0)) j (pos 0) x.pc_uid freed,
      h.blocked_there,
    )
