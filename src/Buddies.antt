-- ===== src/Buddies.antt =====
-- Buddies.cpp: the lists of buddies and of blocked players, and their handlers. A socket is the
-- place of its player in the list of the players on the shard. The calls that change the database
-- and the warp are listed with the packets, in their order. An `int64_t` is an integer; `none` of a
-- handler is an access outside an array, or a socket without a player. Names and looks are left out.
pub mod Handlers
pub mod Slots
pub mod Friends
pub mod Blocks
pub mod Rosters
pub mod Reactions
mod Tests
use open_fusion.Common.{
  ℕ, zero, suc, ◌+◌, Bool, true, false, ◌&&◌, ◌||◌, not, Option, none, some, List, [], ◌∷◌, map,
  ◌++◌, if◌then◌else◌, get_elem?, set,
}
use open_fusion.Protocol.Cipher.{◌>>=◌}
use open_fusion.Common.Int.{ℤ, pos, negsuc, ltb_ℤ, leb_ℤ, eqb_ℤ, pos_part, wrap32}

-- The parts of struct Player that the buddy lists use.
pub record Member : Type 0 where
  pub id : ℤ
  pub pc_uid : ℤ
  pub buddy_ids : List ℤ
  pub is_buddy_blocked : List Bool
  pub payzone : ℤ
  pub instance_id : ℕ
  pub on_monkey : Bool
  pub unwarpable : Bool
  pub spot : ℤ × ℤ × ℤ

-- The players on the shard.
abbrev pub Roster : Type 0
Roster = List Member

-- The packets to the client.
pub data BuddyMessage : Type 0 where
  request_fail : BuddyMessage
  request_succ : ℤ → ℤ → ℤ → BuddyMessage
  request_succ_to_accepter : ℤ → ℤ → BuddyMessage
  find_name_succ : ℤ → BuddyMessage
  accept_succ : ℕ → ℤ → ℤ → BuddyMessage
  accept_fail : ℤ → ℤ → BuddyMessage
  buddy_state : List (ℤ × Bool) → BuddyMessage
  buddy_block_succ : ℤ → ℤ → BuddyMessage
  player_block_succ : ℤ → ℤ → ℕ → BuddyMessage
  remove_succ : ℤ → ℤ → BuddyMessage
  buddy_warp_fail : ℤ → BuddyMessage

-- What a handler does besides changing players.
pub data BuddyEffect : Type 0 where
  send : ℕ → BuddyMessage → BuddyEffect
  add_buddyship : ℤ → ℤ → BuddyEffect
  remove_buddyship : ℤ → ℤ → BuddyEffect
  add_block : ℤ → ℤ → BuddyEffect
  remove_block : ℤ → ℤ → BuddyEffect
  send_player_to : ℕ → ℤ × ℤ × ℤ → ℕ → BuddyEffect

-- One place later.
abbrev pub later : Option ℕ → Option ℕ
later none = none
later (some n) = some (suc n)

-- The first place of a number in a list.
unfoldable pub first_place_of : ℤ → List ℤ → Option ℕ
first_place_of v [] = none
first_place_of v (x ∷ xs) =
    let rest = first_place_of v xs in if eqb_ℤ x v then some 0 else later rest

-- getAvailableBuddySlot
abbrev pub get_available_buddy_slot : Member → Option ℕ
get_available_buddy_slot p = first_place_of (pos 0) p.buddy_ids

abbrev pub is_in : ℤ → List ℤ → Bool
is_in v [] = false
is_in v (x ∷ xs) = eqb_ℤ x v || is_in v xs

-- playerHasBuddyWithID
abbrev pub player_has_buddy_with_id : Member → ℤ → Bool
player_has_buddy_with_id p v = is_in v p.buddy_ids

unfoldable pub sock_from : Roster → ℤ → ℕ → Option ℕ
sock_from [] id s = none
sock_from (p ∷ ps) id s = if eqb_ℤ p.id id then some s else sock_from ps id (s + 1)

-- PlayerManager::getSockFromID, whose argument is an int32_t.
unfoldable pub find_sock : Roster → ℤ → Option ℕ
unfolding sock_from
find_sock w id = sock_from w (wrap32 id) 0

-- A new buddy in a slot.
abbrev pub befriended : Member → ℕ → ℤ → Member
befriended p slot uid = record p { buddy_ids = set p.buddy_ids slot uid }

-- What the array holds at an index; `none` is a read outside it.
unfoldable pub buddy_at : List ℤ → ℤ → Option ℤ
buddy_at ids (pos n) = get_elem? ids n
buddy_at ids (negsuc n) = none

-- A slot of the list that the player sees, if its number is in range and it holds the id.
unfoldable pub named_slot : Member → ℤ → ℤ → Option (Option ℕ)
unfolding buddy_at
named_slot p slot uid =
    if ltb_ℤ slot (pos 0) || leb_ℤ (pos 50) slot
    then some none
    else (buddy_at p.buddy_ids slot >>= λ x.
        some (if eqb_ℤ x uid then some (pos_part slot) else none))
