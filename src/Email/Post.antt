-- ===== src/Email/Post.antt =====
-- emailSend of Email.cpp: its checks, the items it takes, and the email.
use open_fusion.Common.{
  map, ◌++◌, ℕ, suc, ◌*◌, Bool, false, ◌&&◌, ◌||◌, not, Option, none, some, List, [], ◌∷◌, ltb,
  ◌==◌, if◌then◌else◌, length, get_elem?, set,
}
use open_fusion.Common.Int.{ℤ, pos, ◌+ℤ◌, ◌-ℤ◌, ltb_ℤ, leb_ℤ, eqb_ℤ, pos_part, wrap32}
use open_fusion.Player.{Item, Player, no_item, add_capped, subtract_capped, taros}
use open_fusion.Protocol.Cipher.{◌>>=◌}
use open_fusion.Email.{
  EmailAction, EmailData, SendRequest, SentItem, email_update_check, send_fail, send_succ,
  set_value, slot_update, store_email,
}

abbrev pub is_seen : ℤ → List ℤ → Bool
is_seen slot [] = false
is_seen slot (x ∷ xs) = eqb_ℤ slot x || is_seen slot xs

-- Whether an item is not the one that the slot holds, or more of it than the slot holds.
abbrev pub is_forged : Item → Item → Bool
is_forged item real =
    not (item.type == real.type)
    || not (item.id == real.id)
    || leb_ℤ item.opt (pos 0)
    || ltb_ℤ real.opt item.opt

-- The item in a slot, if its number is in the range of the inventory.
unfoldable pub real_item : List Item → SentItem → Option Item
real_item inven a =
    if ltb_ℤ a.slot_num (pos 0) || leb_ℤ (pos 50) a.slot_num
    then none
    else get_elem? inven (pos_part a.slot_num)

-- The sanity checks of emailSend: the number of the items, or `none` if they are invalid.
unfoldable pub check_items : List Item → List ℤ → List SentItem → Option ℕ
unfolding real_item
check_items inven seen [] = some 0
check_items inven seen (a ∷ items) = real_item inven a >>= λ real.
    if a.item.id == 0
    then check_items inven seen items
    else if is_seen a.slot_num seen || is_forged a.item real
    then none
    else (check_items inven (a.slot_num ∷ seen) items >>= λ n. some (suc n))

-- What is left of a slot: nothing, if the whole stack is attached.
abbrev pub left_of : Item → Item → Item
left_of real item =
    if leb_ℤ real.opt item.opt then no_item else record real { opt = real.opt -ℤ item.opt }

-- The loop that takes the items out of the inventory.
unfoldable pub take_items :
    List Item → List SentItem → Option (List Item × List SentItem × List EmailAction)
take_items inven [] = some (inven, [], [])
take_items inven (a ∷ items) =
    if a.item.id == 0
    then take_items inven items
    else (get_elem? inven (pos_part a.slot_num) >>= λ real.
        take_items (set inven (pos_part a.slot_num) (left_of real a.item)) items >>= λ taken.
        some (taken.0, a ∷ taken.1, slot_update a.slot_num (left_of real a.item) ∷ taken.2))

-- "give items back", from the last to the first.
unfoldable pub give_back : List Item → List SentItem → List Item
give_back inven [] = inven
give_back inven (a ∷ attached) = set (give_back inven attached) (pos_part a.slot_num) a.item

-- What the sender is told about an item.
abbrev pub echoed : SentItem → SentItem
echoed a = if a.item.id == 0 then record { slot_num = pos 0; item = no_item } else a

-- What the other parts answer to emailSend: the recipient's id (0 if there is none) and time period,
-- the sender's time period, the next index, the time, whether the database takes the email, and
-- the number of unread emails of a recipient who is online.
pub record Answers : Type 0 where
  pub recipient : ℤ
  pub recipient_zone : ℤ
  pub own_zone : ℤ
  pub next_index : ℤ
  pub now : ℕ
  pub is_stored : Bool
  pub online : Option ℤ

-- Whether emailSend refuses attachments "across time".
unfoldable pub crosses_time : Answers → SendRequest → Bool
crosses_time ans req =
    attaches req.items
    && (not (eqb_ℤ ans.recipient (pos 0)) && not (eqb_ℤ ans.own_zone ans.recipient_zone))
  where
    attaches : List SentItem → Bool
    attaches [] = not (eqb_ℤ req.cash (pos 0))
    attaches (a ∷ items) = not (eqb_ℤ req.cash (pos 0)) || not (a.item.id == 0)

-- Attached taros and postage.
abbrev pub mail_cost : ℤ → ℕ → ℤ
mail_cost cash count = cash +ℤ pos 50 +ℤ pos (20 * count)

abbrev pub mail_of : Answers → Player → SendRequest → List SentItem → EmailData
mail_of ans p req attached = record {
  player_id = wrap32 req.to_id;
  msg_index = ans.next_index;
  read_flag = pos 0;
  item_flag = if ltb_ℤ (pos 0) req.cash || ltb 0 (length attached) then pos 1 else pos 0;
  sender_id = p.id;
  taros = req.cash;
  send_time = ans.now;
  delete_time = 0;
}

abbrev pub notices : Option ℤ → List EmailAction
notices none = []
notices (some unread) = email_update_check unread ∷ []

-- The call of Database::sendEmail.
abbrev pub posted : Answers → Player → SendRequest → List SentItem → EmailAction
posted ans p req attached =
    store_email (mail_of ans p req attached) (map (λ (a : SentItem). a.item) attached)

-- "give money back", and the items.
abbrev pub paid_back : Player → ℤ → List SentItem → Player
paid_back q cost attached = record (add_capped q taros cost) { inven = give_back q.inven attached }

-- emailSend, once the items are taken.
unfoldable pub post :
    Answers
    → Player
    → SendRequest
    → List Item
    → List SentItem
    → List EmailAction
    → Player × List EmailAction
unfolding give_back
post ans p req inven attached updates =
    let cost = mail_cost req.cash (length attached) in
    let q = subtract_capped (record p { inven = inven }) taros cost in
    if ans.is_stored
    then (
      q,
      updates
          ++ posted ans p req attached
            ∷ set_value q.money
            ∷ send_succ req.to_id q.money (map echoed req.items)
            ∷ notices ans.online,
    )
    else (
      paid_back q cost attached,
      updates ++ posted ans p req attached ∷ send_fail (pos 1) req.to_id ∷ [],
    )

-- emailSend, with so many items that passed the checks.
unfoldable pub after_checks :
    Answers → Player → SendRequest → ℕ → Option (Player × List EmailAction)
unfolding take_items post crosses_time
after_checks ans p req count =
    if ltb_ℤ req.cash (pos 0) || ltb_ℤ (mail_cost p.money count) req.cash
    then some (p, send_fail (pos 1) req.to_id ∷ [])
    else if crosses_time ans req
    then some (p, send_fail (pos 9) req.to_id ∷ [])
    else (take_items p.inven req.items >>= λ taken. some (post ans p req taken.0 taken.1 taken.2))

unfoldable pub refuse_or :
    Answers → Player → SendRequest → Option ℕ → Option (Player × List EmailAction)
unfolding after_checks
refuse_or ans p req none = some (p, send_fail (pos 1) req.to_id ∷ [])
refuse_or ans p req (some count) = after_checks ans p req count

-- emailSend
unfoldable pub email_send : Answers → Player → SendRequest → Option (Player × List EmailAction)
unfolding check_items refuse_or
email_send ans p req = refuse_or ans p req (check_items p.inven [] req.items)
