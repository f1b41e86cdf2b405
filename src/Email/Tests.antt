-- ===== src/Email/Tests.antt =====
-- Runs of the handlers of emails.
use open_fusion.Common.{
  Option, ◌++◌, if_true, if_false, if◌then◌else◌, ◌≡◌, refl, Bool, true, false, none, some, List,
  [], ◌∷◌, arith, set,
}
use open_fusion.Common.Int.{ℤ, pos, negsuc, ◌+ℤ◌, ◌-ℤ◌}
use open_fusion.Player.{
  raised, store_value, lowered, Item, Player, no_item, new_player, add_capped, subtract_capped,
  taros, battery_weapon, battery_nano, capped_value, get_cap,
}
use open_fusion.Player.Range.{IsCapped}
use open_fusion.Trading.Exchange.Units.{units}
use open_fusion.Email.{SentItem, SendRequest, EmailAction, email_receive_item_all}
use open_fusion.Email.Post.{
  real_item, check_items, take_items, give_back, email_send, Answers, post, mail_of, crosses_time,
}
use open_fusion.Email.Post.{after_checks, refuse_or}
use open_fusion.Player.{fusion_matter, taros_in_trade}
use open_fusion.Email.Sending.{email_send_lem, SendOutcome}
use open_fusion.Email.{email_receive_taros, delete_attachments}
use open_fusion.Common.{replicate}
use open_fusion.Email.Delivery.{mail_conserves, fetched}
use open_fusion.Email.Storage.{
  Rows, IsTable, is_taken, store_rows, send_email, rows_from, send_email_loses,
}
use open_fusion.Email.Overdraft.{mail_mints, overdraft}
use open_fusion.Email.{email_receive_item_all, item_all_succ, delete_attachments}
use open_fusion.Email.Post.{crosses_time}
use open_fusion.Email.Receiving.{email_receive_item_all_loses}

abbrev pills : ℤ → Item
pills n = record { type = 7; id = 3; opt = n; time_limit = 0 }

abbrev sender : Player
sender = record new_player {
  id = pos 1;
  money = pos 100;
  inven = set new_player.inven 4 (pills (pos 30));
}

abbrev recipient : Player
recipient = record new_player { id = pos 2 }

abbrev empty_place : SentItem
empty_place = record { slot_num = pos 0; item = no_item }

-- Ten of the thirty pills and 20 taros.
abbrev gift : SendRequest
gift = record {
  to_id = pos 2;
  items =
      record { slot_num = pos 4; item = pills (pos 10) }
      ∷ empty_place
      ∷ empty_place
      ∷ empty_place
      ∷ [];
  cash = pos 20;
}

abbrev answers : Bool → Answers
answers stored = record {
  recipient = pos 2;
  recipient_zone = pos 1;
  own_zone = pos 1;
  next_index = pos 1;
  now = 0;
  is_stored = stored;
  online = none;
}

sender-IsCapped : IsCapped sender
unfolding capped_value get_cap
sender-IsCapped taros = (omega arith, omega arith)
sender-IsCapped fusion_matter = (omega arith, omega arith)
sender-IsCapped battery_weapon = (omega arith, omega arith)
sender-IsCapped battery_nano = (omega arith, omega arith)
sender-IsCapped taros_in_trade = (omega arith, omega arith)

recipient-IsCapped : IsCapped recipient
unfolding capped_value get_cap
recipient-IsCapped taros = (omega arith, omega arith)
recipient-IsCapped fusion_matter = (omega arith, omega arith)
recipient-IsCapped battery_weapon = (omega arith, omega arith)
recipient-IsCapped battery_nano = (omega arith, omega arith)
recipient-IsCapped taros_in_trade = (omega arith, omega arith)

email_send_lem_example :
    (q : Player) × (msgs : List EmailAction) × (email_send (answers true) sender gift
      ≡ some (q, msgs))
    × SendOutcome 7 3 (answers true) sender gift q msgs
email_send_lem_example =
    email_send_lem 7 3 (answers true) sender gift (refl, refl, refl) sender-IsCapped

-- The gift is sent: 20 pills stay, and 10 of the taros.
gift_is_sent :
    (msgs : List EmailAction) × (email_send (answers true) sender gift
      ≡ some
          (record sender { money = pos 10; inven = set new_player.inven 4 (pills (pos 20)) }, msgs))
unfolding email_send refuse_or check_items real_item after_checks crosses_time take_items post ◌+ℤ◌
    ◌-ℤ◌ subtract_capped lowered capped_value store_value get_cap
gift_is_sent = (_, refl)

-- The database fails: 10 pills are back, and 20 are gone.
gift_is_returned :
    (msgs : List EmailAction) × (email_send (answers false) sender gift
      ≡ some (record sender { inven = set new_player.inven 4 (pills (pos 10)) }, msgs))
unfolding email_send refuse_or check_items real_item after_checks crosses_time take_items post
    give_back ◌+ℤ◌ ◌-ℤ◌ subtract_capped add_capped lowered raised capped_value store_value get_cap
gift_is_returned = (_, refl)

-- SQLite with the UNIQUE constraint.
abbrev unique_insert : Rows → ℤ × Item → Option Rows
unique_insert rows row = if is_taken row.0 rows then none else some (rows ++ row ∷ [])

unique_insert-IsTable : IsTable unique_insert
unique_insert-IsTable = record {
  stores =
      λ rows slot x free. if_false (is_taken slot rows) none (some (rows ++ (slot, x) ∷ [])) free;
  refuses =
      λ rows slot x taken. if_true (is_taken slot rows) none (some (rows ++ (slot, x) ∷ [])) taken;
}

mail_conserves_example :
    (q : Player) × (msgs : List EmailAction) × (email_send (answers true) sender gift
      ≡ some (q, msgs))
    × (units 7 3 q.inven
          +ℤ units 7 3
              (email_receive_item_all
                (fetched unique_insert true true msgs)
                recipient
                (pos 1)).0.inven
        ≡ units 7 3 sender.inven +ℤ units 7 3 recipient.inven)
unfolding send_email store_rows
mail_conserves_example =
    mail_conserves unique_insert true true 7 3 (answers true) sender gift recipient (pos 1)
      unique_insert-IsTable (refl, refl, refl) sender-IsCapped refl refl refl (omega arith)
      (omega arith)

-- An orphan in the second slot: the first of two attachments is lost.
send_email_loses_example :
    send_email unique_insert
      ((pos 2, pills (pos 9)) ∷ [])
      true
      true
      (pills (pos 1) ∷ pills (pos 2) ∷ [])
    ≡ (true, rows_from 2 (pills (pos 2) ∷ []))
send_email_loses_example =
    send_email_loses unique_insert unique_insert-IsTable ((pos 2, pills (pos 9)) ∷ [])
      (pills (pos 1) ∷ []) (pills (pos 2)) [] (λ m low high. ground arith) refl

mail_mints_example :
    (q : Player) × (msgs : List EmailAction) × (email_send
        (answers true)
        sender
        (overdraft sender (pos 2))
      ≡ some (q, msgs))
    × (q.money ≡ pos 0)
    × ((email_receive_taros
          (mail_of (answers true) sender (overdraft sender (pos 2)) [])
          (pos 0)
          recipient
          (pos 1)).0.money
        ≡ recipient.money +ℤ sender.money +ℤ pos 50)
unfolding crosses_time ◌+ℤ◌
mail_mints_example =
    mail_mints (answers true) sender (pos 2) recipient (pos 0) (pos 1) (refl, refl, refl)
      sender-IsCapped recipient-IsCapped refl refl (omega arith)

abbrev hoarder : Player
hoarder = record recipient { inven = replicate 50 (pills (pos 1)) }

all_is_lost :
    email_receive_item_all (pills (pos 10) ∷ []) hoarder (pos 1)
    ≡ (hoarder, delete_attachments (pos 2) (pos 1) (negsuc 0) ∷ item_all_succ (pos 1) ∷ [])
all_is_lost = email_receive_item_all_loses (pills (pos 10) ∷ []) hoarder (pos 1) refl refl
