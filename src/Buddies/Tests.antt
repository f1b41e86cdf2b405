-- ===== src/Buddies/Tests.antt =====
-- Runs of the handlers of buddies.
use open_fusion.Common.{◌≡◌, refl, true, false, some, List, [], ◌∷◌, get_elem?, set, replicate}
use open_fusion.Common.Int.{ℤ, pos}
use open_fusion.Buddies.{
  Member, Roster, BuddyEffect, first_place_of, sock_from, find_sock, befriended,
}
use open_fusion.Buddies.Handlers.{
  accept_slots, accept_request, req_accept_buddy, req_buddy_block, req_player_block,
  req_buddy_delete,
}
use open_fusion.Buddies.Friends.{joined, req_buddy_delete-accept}
use open_fusion.Buddies.Blocks.{req_buddy_block_lifts}

abbrev member : ℤ → Member
member n = record {
  id = n;
  pc_uid = n;
  buddy_ids = replicate 50 (pos 0);
  is_buddy_blocked = replicate 50 false;
  payzone = pos 1;
  instance_id = 0;
  on_monkey = false;
  unwarpable = false;
  spot = (pos 0, pos 0, pos 0);
}

abbrev two_players : Roster
two_players = member (pos 1) ∷ member (pos 2) ∷ []

req_buddy_delete-accept_example :
    (w1 : Roster) × (msgs : List BuddyEffect) × (undo : List BuddyEffect) × (req_accept_buddy
        two_players 0
        (pos 1)
        (pos 2)
        (pos 2)
      ≡ some (w1, msgs))
    × (w1 ≡ joined two_players 0 1 (member (pos 1)) (member (pos 2)) 0 0)
    × (req_buddy_delete w1 0 (pos 2) (pos 0) ≡ some (two_players, undo))
unfolding first_place_of find_sock sock_from
req_buddy_delete-accept_example =
    req_buddy_delete-accept two_players 0 1 (member (pos 1)) (member (pos 2)) 0 0 (pos 2) (pos 2)
      (record {
        here = refl;
        there = refl;
        differ = refl;
        sizes = (refl, refl);
        free_here = refl;
        free_there = refl;
        unknown_here = refl;
        unknown_there = refl;
      })
      refl refl refl

-- A player who has blocked player 1 in his first slot.
abbrev blocker : Member
blocker = record (member (pos 2)) {
  buddy_ids = set (replicate 50 (pos 0)) 0 (pos 1);
  is_buddy_blocked = set (replicate 50 false) 0 true;
}

abbrev with_blocker : Roster
with_blocker = member (pos 1) ∷ blocker ∷ []

abbrev with_newcomer : Roster
with_newcomer = member (pos 1) ∷ blocker ∷ member (pos 3) ∷ []

req_buddy_block_lifts_example :
    (w1 : Roster) × (w2 : Roster) × (w3 : Roster) × (msgs : List BuddyEffect) × (more : List
      BuddyEffect)
    × (rest : List BuddyEffect) × (req_player_block with_newcomer 0 (pos 2) (pos 2)
        ≡ some (w1, msgs))
    × (req_buddy_block w1 0 (pos 2) (pos 0) ≡ some (w2, more))
    × (get_elem? w2 1 ≡ some (befriended blocker 0 (pos 0)))
    × (get_elem? (befriended blocker 0 (pos 0)).buddy_ids 0 ≡ some (pos 0))
    × (req_accept_buddy w2 1 (pos 1) (pos 3) (pos 3) ≡ some (w3, rest))
    × (get_elem? w3 1 ≡ some (befriended (befriended blocker 0 (pos 0)) 0 (pos 3)))
    × (get_elem? (befriended (befriended blocker 0 (pos 0)) 0 (pos 3)).buddy_ids 0 ≡ some (pos 3))
    × (get_elem? (befriended (befriended blocker 0 (pos 0)) 0 (pos 3)).is_buddy_blocked 0
        ≡ some true)
unfolding first_place_of find_sock sock_from
req_buddy_block_lifts_example =
    req_buddy_block_lifts with_newcomer 0 1 (member (pos 1)) blocker 0 0 (pos 2)
      (record {
        here = refl;
        there = refl;
        differ = refl;
        size = refl;
        free_here = refl;
        named_there = refl;
        blocked_there = refl;
      })
      refl 2 (member (pos 3)) 0 (pos 3)
      (record {
        there = refl;
        not_p = refl;
        not_other = refl;
        sizes = (refl, refl);
        first_free = refl;
        free_there = refl;
        unknown_here = refl;
        unknown_there = refl;
        found = refl;
      })

-- The blocker takes a request of the player he blocked, who does not have him: he has him twice.
twice_in_the_list :
    (msgs : List BuddyEffect) × (req_accept_buddy with_blocker 0 (pos 1) (pos 2) (pos 2)
      ≡ some (befriended (member (pos 1)) 0 (pos 2) ∷ befriended blocker 1 (pos 1) ∷ [], msgs))
unfolding req_accept_buddy accept_request accept_slots first_place_of find_sock sock_from
twice_in_the_list = (_, refl)
