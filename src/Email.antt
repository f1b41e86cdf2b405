-- ===== src/Email.antt =====
-- Email.cpp and the parts of db/email.cpp that are not SQL: emails, their attachments, and the
-- handlers that read them and take from them. What a query answers is an argument, and the calls that
-- change the database are listed with the packets, in their order. An `int` is an integer; `none` of a
-- handler is an access outside an array. Names and texts are left out.
pub mod Post
pub mod Checking
pub mod Taking
pub mod GiveBack
pub mod Sending
pub mod Receiving
pub mod Storage
pub mod Delivery
pub mod Overdraft
mod Tests
use open_fusion.Common.{
  map, ◌++◌, ℕ, suc, ◌+◌, ◌-◌, ◌*◌, Bool, true, false, ◌&&◌, ◌||◌, not, Option, none, some, List,
  [], ◌∷◌, ltb, leb, ◌==◌, if◌then◌else◌, length, get_elem?, set, replicate,
}
use open_fusion.Common.Int.{ℤ, pos, negsuc, ◌+ℤ◌, ◌-ℤ◌, ltb_ℤ, leb_ℤ, eqb_ℤ, pos_part, wrap32}
use open_fusion.Player.{Item, Player, no_item, add_capped, subtract_capped, taros}
use open_fusion.Protocol.Cipher.{◌>>=◌}
use open_fusion.Items.{find_free_slot}

-- Database::EmailData
pub record EmailData : Type 0 where
  pub player_id : ℤ
  pub msg_index : ℤ
  pub read_flag : ℤ
  pub item_flag : ℤ
  pub sender_id : ℤ
  pub taros : ℤ
  pub send_time : ℕ
  pub delete_time : ℕ

-- sEmailItemInfoFromCL
pub record SentItem : Type 0 where
  pub slot_num : ℤ
  pub item : Item

-- sP_CL2FE_REQ_PC_SEND_EMAIL
pub record SendRequest : Type 0 where
  pub to_id : ℤ
  pub items : List SentItem
  pub cash : ℤ

-- sEmailInfo
pub record EmailInfo : Type 0 where
  pub email_index : ℤ
  pub from_id : ℤ
  pub read_flag : ℤ
  pub send_time : ℕ
  pub delete_time : ℕ
  pub item_candy_flag : ℤ

-- The calls that change the database, and the packets.
pub data EmailAction : Type 0 where
  update_content : EmailData → EmailAction
  delete_attachments : ℤ → ℤ → ℤ → EmailAction
  delete_emails : ℤ → List ℤ → EmailAction
  store_email : EmailData → List Item → EmailAction
  new_email : ℤ → EmailAction
  page_list : ℤ → List EmailInfo → EmailAction
  read_succ : ℤ → ℤ → List Item → EmailAction
  candy_succ : ℤ → ℤ → EmailAction
  item_succ : ℤ → ℤ → ℤ → EmailAction
  give_item : ℕ → Item → EmailAction
  item_all_succ : ℤ → EmailAction
  delete_succ : List ℤ → EmailAction
  send_fail : ℤ → ℤ → EmailAction
  slot_update : ℤ → Item → EmailAction
  set_value : ℤ → EmailAction
  send_succ : ℤ → ℤ → List SentItem → EmailAction

-- emailUpdateCheck
abbrev pub email_update_check : ℤ → EmailAction
email_update_check unread = new_email unread

abbrev email_info : EmailData → EmailInfo
email_info e = record {
  email_index = e.msg_index;
  from_id = e.sender_id;
  read_flag = e.read_flag;
  send_time = e.send_time;
  delete_time = e.delete_time;
  item_candy_flag = e.item_flag;
}

-- emailReceivePageList; the array of the packet has five places.
pub email_receive_page_list : List EmailData → ℤ → Option EmailAction
email_receive_page_list emails page_num =
    if leb (length emails) 5 then some (page_list page_num (map email_info emails)) else none

-- Database::updateEmailContent, of an email that has so many attachments.
abbrev pub flagged : ℤ → EmailData → EmailData
flagged count e = record e {
  item_flag = if ltb_ℤ (pos 0) e.taros || ltb_ℤ (pos 0) count then pos 1 else pos 0;
}

-- emailRead, of an email that has so many attachments in the database.
pub email_read : EmailData → ℤ → List Item → ℤ → List EmailAction
email_read email count attachments index =
    update_content (flagged count (record email { read_flag = pos 1 }))
    ∷ read_succ index email.taros attachments
    ∷ []

-- emailReceiveTaros
pub email_receive_taros : EmailData → ℤ → Player → ℤ → Player × List EmailAction
email_receive_taros email count p index =
    let q = add_capped p taros email.taros in
    (
      q,
      update_content (flagged count (record email { taros = pos 0 }))
          ∷ candy_succ q.money index
          ∷ [],
    )

-- emailReceiveItemSingle
pub email_receive_item_single : List Item → Player → ℤ → ℤ → ℤ → Option (Player × List EmailAction)
email_receive_item_single attachments p index slot n =
    if ltb_ℤ slot (pos 0) || leb_ℤ (pos 50) slot || ltb_ℤ n (pos 1) || ltb_ℤ (pos 4) n
    then some (p, [])
    else (get_elem? attachments (pos_part n - 1) >>= λ item_from.
        get_elem? p.inven (pos_part slot) >>= λ item_to. some (
          record p { inven = set p.inven (pos_part slot) item_from },
          delete_attachments p.id index n
              ∷ item_succ index n slot
              ∷ give_item (pos_part slot) item_from
              ∷ [],
        ))

-- The slot for an item: findFreeSlot, if it is in the range of the inventory.
unfoldable pub slot_for : Player → Option ℕ
slot_for p = find_free_slot p >>= λ slot. if leb 50 slot then none else some slot

-- An item and then the rest, or the end of the loop.
abbrev pub receive_item :
    Player → Item → (Player → Player × List EmailAction) → Option ℕ → Player × List EmailAction
receive_item p x rest none = (p, [])
receive_item p x rest (some slot) =
    let moved = rest (record p { inven = set p.inven slot x }) in
    (moved.0, give_item slot x ∷ moved.1)

unfoldable pub receive_items : Player → List Item → Player × List EmailAction
receive_items p [] = (p, [])
receive_items p (x ∷ xs) = receive_item p x (λ q. receive_items q xs) (slot_for p)

-- emailReceiveItemAll
pub email_receive_item_all : List Item → Player → ℤ → Player × List EmailAction
unfolding receive_items
email_receive_item_all attachments p index =
    let moved = receive_items p attachments in
    (moved.0, moved.1 ++ delete_attachments p.id index (negsuc 0) ∷ item_all_succ index ∷ [])

-- emailDelete
pub email_delete : Player → List ℤ → List EmailAction
email_delete p indices = delete_emails p.id indices ∷ delete_succ indices ∷ []

-- Database::getNextEmailIndex, from the highest index of the player or 0.
abbrev pub next_email_index : ℤ → ℤ
next_email_index index = if ltb_ℤ (pos 0) index then index +ℤ pos 1 else pos 1

unfoldable pub attachments_from : List Item → List (ℤ × Item) → List Item
attachments_from items [] = items
attachments_from items ((slot, x) ∷ rows) =
    attachments_from
      (if ltb_ℤ slot (pos 1) || ltb_ℤ (pos 4) slot then items else set items (pos_part slot - 1) x)
      rows

-- Database::getEmailAttachments, from the rows that the query returns.
unfoldable pub get_email_attachments : List (ℤ × Item) → List Item
unfolding attachments_from
get_email_attachments rows = attachments_from (replicate 4 no_item) rows
