-- ===== src/Buddies/Handlers.antt =====
-- The handlers of Buddies.cpp.
use open_fusion.Common.{
  ℕ, Bool, true, false, ◌&&◌, ◌||◌, not, Option, none, some, List, [], ◌∷◌, map, ◌++◌,
  if◌then◌else◌, get_elem?, set, ◌==◌,
}
use open_fusion.Common.Int.{ℤ, pos, ltb_ℤ, leb_ℤ, eqb_ℤ}
use open_fusion.Protocol.Cipher.{◌>>=◌}
use open_fusion.Buddies.{
  Member, Roster, BuddyMessage, BuddyEffect, first_place_of, get_available_buddy_slot,
  player_has_buddy_with_id, find_sock, befriended, named_slot, send, add_buddyship,
  remove_buddyship, add_block, remove_block, send_player_to, request_fail, request_succ,
  request_succ_to_accepter, find_name_succ, accept_succ, accept_fail, buddy_state, buddy_block_succ,
  player_block_succ, remove_succ, buddy_warp_fail,
}

abbrev pub Answer : Type 0
Answer = Roster × List BuddyEffect

-- The other player, if he is on the shard; nothing happens if not.
abbrev pub when_online : Roster → Option ℕ → (ℕ → Member → Answer) → Option Answer
when_online w none k = some (w, [])
when_online w (some o) k = get_elem? w o >>= λ other. some (k o other)

-- requestBuddy
abbrev pub requested : Roster → ℕ → Member → ℤ → ℤ → ℕ → Member → Option ℕ → Option ℕ → Answer
requested w s p id uid o other none b = (w, send s request_fail ∷ [])
requested w s p id uid o other (some a) none = (w, send s request_fail ∷ [])
requested w s p id uid o other (some a) (some b) =
    (w, send s (request_succ p.id id uid) ∷ send o (request_succ_to_accepter p.id id) ∷ [])

unfoldable pub request_buddy : Roster → ℕ → ℤ → ℤ → Option Answer
request_buddy w s id uid = get_elem? w s >>= λ p. when_online w (find_sock w id) (λ o other.
    requested w s p id uid o other (get_available_buddy_slot p) (get_available_buddy_slot other))

-- reqBuddyByName, of the player that getSockFromName finds.
unfoldable pub req_buddy_by_name : Roster → ℕ → Option ℕ → Option Answer
req_buddy_by_name w s found = get_elem? w s >>= λ p. when_online w found (λ o other.
    if player_has_buddy_with_id p other.id
    then (w, [])
    else (w, send o (find_name_succ p.pc_uid) ∷ []))

-- What reqAcceptBuddy and reqFindNameBuddyAccept do with the two slots; the message is for a decline.
unfoldable pub accept_slots :
    Roster → ℕ → Member → Bool → BuddyMessage → ℕ → Member → Option ℕ → Option ℕ → Answer
accept_slots w s p flag declined o other none b = (w, [])
accept_slots w s p flag declined o other (some a) none = (w, [])
accept_slots w s p flag declined o other (some a) (some b) =
    if flag && not (eqb_ℤ p.id other.id) && not (player_has_buddy_with_id p other.id)
    then (
      set (set w s (befriended p a other.pc_uid)) o (befriended other b p.pc_uid),
      send s (accept_succ a other.id other.pc_uid)
          ∷ send o (accept_succ b p.id p.pc_uid)
          ∷ add_buddyship p.id other.id
          ∷ [],
    )
    else (w, send o declined ∷ [])

unfoldable pub accept_request : Roster → ℕ → ℤ → Bool → BuddyMessage → Option Answer
unfolding accept_slots
accept_request w s id flag declined = get_elem? w s >>= λ p.
    when_online w (find_sock w id) (λ o other.
      accept_slots w s p flag declined o other (get_available_buddy_slot p)
        (get_available_buddy_slot other))

-- reqAcceptBuddy
unfoldable pub req_accept_buddy : Roster → ℕ → ℤ → ℤ → ℤ → Option Answer
unfolding accept_request
req_accept_buddy w s flag id uid = accept_request w s id (eqb_ℤ flag (pos 1)) (accept_fail id uid)

-- reqFindNameBuddyAccept
unfoldable pub req_find_name_buddy_accept : Roster → ℕ → ℤ → ℤ → Option Answer
unfolding accept_request
req_find_name_buddy_accept w s flag uid =
    accept_request w s uid (eqb_ℤ flag (pos 1)) (accept_fail (pos 0) uid)

-- reqPktGetBuddyState
unfoldable pub req_pkt_get_buddy_state : Roster → ℕ → Option Answer
req_pkt_get_buddy_state w s = get_elem? w s >>= λ p.
    some (
      w,
      send s (buddy_state (map (λ (id : ℤ). (id, is_online (find_sock w id))) p.buddy_ids)) ∷ [],
    )
  where
    is_online : Option ℕ → Bool
    is_online none = false
    is_online (some o) = true

-- "search for the slot with the requesting player's ID", and "remove buddy"
unfoldable pub drop_buddy : Roster → ℕ → Member → ℤ → Option ℕ → Answer
drop_buddy w o other uid none = (w, [])
drop_buddy w o other uid (some i) =
    (set w o (befriended other i (pos 0)), send o (remove_succ uid (pos i)) ∷ [])

-- "notify the other player he isn't a buddy anymore"
unfoldable pub notify_other : Roster → ℤ → ℤ → Option Answer
unfolding drop_buddy
notify_other w own uid =
    when_online w (find_sock w uid)
      (λ o other. drop_buddy w o other own (first_place_of own other.buddy_ids))

abbrev pub after : List BuddyEffect → Answer → Answer
after effects answer = (answer.0, effects ++ answer.1)

abbrev pub block_in : Roster → ℕ → Member → ℤ → ℤ → Option ℕ → Option Answer
block_in w s p uid slot none = some (w, [])
block_in w s p uid slot (some n) =
    notify_other (set w s (record p { is_buddy_blocked = set p.is_buddy_blocked n true })) p.pc_uid
      uid
    >>= λ answer. some (
        after
          (remove_buddyship p.id uid ∷ add_block p.id uid ∷ send s (buddy_block_succ uid slot) ∷ [])
          answer)

-- reqBuddyBlock
unfoldable pub req_buddy_block : Roster → ℕ → ℤ → ℤ → Option Answer
unfolding named_slot notify_other
req_buddy_block w s uid slot =
    get_elem? w s >>= λ p. named_slot p slot uid >>= λ named. block_in w s p uid slot named

abbrev pub block_at : Roster → ℕ → Member → ℤ → ℤ → Option ℕ → Answer
block_at w s p id uid none = (w, [])
block_at w s p id uid (some n) = (
  set w s (record p {
    buddy_ids = set p.buddy_ids n uid;
    is_buddy_blocked = set p.is_buddy_blocked n true;
  }),
  add_block p.id uid ∷ send s (player_block_succ id uid n) ∷ [],
)

-- reqPlayerBlock
unfoldable pub req_player_block : Roster → ℕ → ℤ → ℤ → Option Answer
req_player_block w s id uid =
    get_elem? w s >>= λ p. some (block_at w s p id uid (get_available_buddy_slot p))

-- The player without the buddy in a slot.
abbrev pub unfriended : Member → ℕ → Member
unfriended p n = record p {
  buddy_ids = set p.buddy_ids n (pos 0);
  is_buddy_blocked = set p.is_buddy_blocked n false;
}

unfoldable pub delete_at : Roster → ℕ → Member → ℤ → ℤ → Option ℕ → Option Answer
unfolding notify_other
delete_at w s p uid slot none = some (w, [])
delete_at w s p uid slot (some n) = get_elem? p.is_buddy_blocked n >>= λ was_blocked.
    (if was_blocked
      then some (set w s (unfriended p n), [])
      else notify_other (set w s (unfriended p n)) p.pc_uid uid)
    >>= λ answer. some (
        after
          (send s (remove_succ uid slot)
            ∷ remove_buddyship p.pc_uid uid
            ∷ remove_block p.pc_uid uid
            ∷ [])
          answer)

-- reqBuddyDelete
unfoldable pub req_buddy_delete : Roster → ℕ → ℤ → ℤ → Option Answer
unfolding named_slot delete_at
req_buddy_delete w s uid slot =
    get_elem? w s >>= λ p. named_slot p slot uid >>= λ named. delete_at w s p uid slot named

-- No warp is allowed to a player who is instanced, in another time, on a monkey or unwarpable.
abbrev pub is_unreachable : Member → Member → Bool
is_unreachable p other =
    not (other.instance_id == 0)
    || not (eqb_ℤ other.payzone p.payzone)
    || other.on_monkey
    || other.unwarpable

-- reqBuddyWarp; the overworld is the instance 0.
unfoldable pub req_buddy_warp : Roster → ℕ → ℤ → ℤ → Option Answer
req_buddy_warp w s uid slot =
    if ltb_ℤ slot (pos 0) || leb_ℤ (pos 50) slot
    then some (w, [])
    else (get_elem? w s >>= λ p. when_online w (find_sock w uid) (λ o other.
        if is_unreachable p other
        then (w, send s (buddy_warp_fail uid) ∷ [])
        else (w, send_player_to s other.spot other.instance_id ∷ [])))

-- The packets of the table in Buddies::init, of which the one with a name carries what it finds.
pub data BuddyRequest : Type 0 where
  make_buddy : ℤ → ℤ → BuddyRequest
  find_name_make_buddy : Option ℕ → BuddyRequest
  accept_make_buddy : ℤ → ℤ → ℤ → BuddyRequest
  find_name_accept_buddy : ℤ → ℤ → BuddyRequest
  get_buddy_state : BuddyRequest
  set_buddy_block : ℤ → ℤ → BuddyRequest
  set_pc_block : ℤ → ℤ → BuddyRequest
  remove_buddy : ℤ → ℤ → BuddyRequest
  pc_buddy_warp : ℤ → ℤ → BuddyRequest

-- Buddies::init
unfoldable pub react_buddy : Roster → ℕ → BuddyRequest → Option Answer
react_buddy w s (make_buddy id uid) = request_buddy w s id uid
react_buddy w s (find_name_make_buddy found) = req_buddy_by_name w s found
react_buddy w s (accept_make_buddy flag id uid) = req_accept_buddy w s flag id uid
react_buddy w s (find_name_accept_buddy flag uid) = req_find_name_buddy_accept w s flag uid
react_buddy w s get_buddy_state = req_pkt_get_buddy_state w s
react_buddy w s (set_buddy_block uid slot) = req_buddy_block w s uid slot
react_buddy w s (set_pc_block id uid) = req_player_block w s id uid
react_buddy w s (remove_buddy uid slot) = req_buddy_delete w s uid slot
react_buddy w s (pc_buddy_warp uid slot) = req_buddy_warp w s uid slot
