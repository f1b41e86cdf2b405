-- ===== src/Email/Delivery.antt =====
-- An email from its sender to its recipient: emailSend, the rows of the database, and
-- emailReceiveItemAll and emailReceiveTaros.
use open_fusion.Common.{
  Bool, subst, append_nil, ◌++◌, ℕ, zero, suc, ◌+◌, ◌-◌, ◌≤◌, ◌≡◌, refl, sym, ap, ◌∙◌, inl, inr,
  true, false, Option, none, some, List, [], ◌∷◌, arith, ◌==◌, Bool-cases, length, All,
}
use open_fusion.Common.Int.{ℤ, pos, ◌+ℤ◌, int_laws, parts_of_eq}
use open_fusion.Player.{Item, Player, no_item}
use open_fusion.Player.Range.{IsCapped}
use open_fusion.Trading.Exchange.Units.{units}
use open_fusion.Items.Kitted.{IsKitted}
use open_fusion.Email.{
  SentItem, SendRequest, EmailAction, get_email_attachments, attachments_from,
  email_receive_item_all, store_email,
}
use open_fusion.Email.Storage.{Rows, IsTable, send_email, rows_from, answered_rows, nothing_stored}
use open_fusion.Email.Post.{email_send, Answers, notices}
use open_fusion.Email.Checking.{attached_of, attached_of_empty, attached_of_full}
use open_fusion.Email.Taking.{contents, IsSlotUpdate}
use open_fusion.Email.Sending.{email_send_lem, Sent, SendOutcome}
use open_fusion.Email.Receiving.{free_count, item_count, email_receive_item_all_lem}
use open_fusion.Common.{replicate}
use open_fusion.Items.Places.{counted-zero}

-- The attachments of the emails that go to the database.
abbrev pub attachments_in : EmailAction → List Item
attachments_in action = elim action [ store_email e xs ↦ xs | _ ↦ [] ]

abbrev pub delivered : List EmailAction → List Item
delivered [] = []
delivered (action ∷ msgs) = attachments_in action ++ delivered msgs

-- What the query for the attachments of an email returns, once sendEmail has stored them, where the
-- index had no rows before.
abbrev pub fetched : (Rows → ℤ × Item → Option Rows) → Bool → Bool → List EmailAction → List Item
fetched insert email_ok player_ok msgs =
    get_email_attachments (send_email insert [] email_ok player_ok (delivered msgs)).1

-- Four places, of which the first hold the items.
abbrev padded : List Item → List Item
padded xs = xs ++ replicate (4 - length xs) no_item

-- getEmailAttachments reads back the attachments that sendEmail stores.
pub get_email_attachments-rows :
    (xs : List Item) → length xs ≤ 4 → get_email_attachments (rows_from 1 xs) ≡ padded xs
unfolding get_email_attachments attachments_from rows_from
get_email_attachments-rows [] h = refl
get_email_attachments-rows (a ∷ []) h = refl
get_email_attachments-rows (a ∷ b ∷ []) h = refl
get_email_attachments-rows (a ∷ b ∷ c ∷ []) h = refl
get_email_attachments-rows (a ∷ b ∷ c ∷ d ∷ []) h = refl
get_email_attachments-rows (a ∷ b ∷ c ∷ d ∷ e ∷ xs) h = absurd (omega arith)

units-append : (t i : ℕ) (xs ys : List Item) → units t i (xs ++ ys) ≡ units t i xs +ℤ units t i ys
units-append t i [] ys = omega int_laws
units-append t i (x ∷ xs) ys = omega (int_laws, parts_of_eq (units-append t i xs ys))

item_count-append : (xs ys : List Item) → item_count (xs ++ ys) ≡ item_count xs + item_count ys
item_count-append [] ys = omega arith
item_count-append (x ∷ xs) ys = omega (arith, item_count-append xs ys)

units_empty : (t i n : ℕ) → units t i (replicate n no_item) ≡ pos 0
units_empty t i zero = refl
units_empty t i (suc n) =
    omega (int_laws, parts_of_eq (counted-zero t i 0 0), parts_of_eq (units_empty t i n))

item_count_empty : (n : ℕ) → item_count (replicate n no_item) ≡ 0
item_count_empty zero = refl
item_count_empty (suc n) = omega (arith, item_count_empty n)

updates_deliver_nothing :
    (updates msgs : List EmailAction)
    → All IsSlotUpdate updates
    → delivered (updates ++ msgs) ≡ delivered msgs
updates_deliver_nothing [] msgs h = refl
updates_deliver_nothing (u ∷ updates) msgs ((slot, x, e), hs) =
    ap (λ (a : EmailAction). attachments_in a ++ delivered (updates ++ msgs)) e
    ∙ updates_deliver_nothing updates msgs hs

length-attached_of : (items : List SentItem) → length (attached_of items) ≤ length items
length-attached_of [] = omega arith
length-attached_of (a ∷ items) = elim (Bool-cases (a.item.id == 0)) [
  | inl e ↦ omega (arith, ap length (attached_of_empty a items e), length-attached_of items)
  | inr e ↦ omega (arith, ap length (attached_of_full a items e), length-attached_of items)
]

length-contents : (items : List SentItem) → length (contents items) ≡ length items
length-contents [] = refl
length-contents (a ∷ items) = ap suc (length-contents items)

notices_deliver_nothing : (online : Option ℤ) → delivered (notices online) ≡ []
notices_deliver_nothing none = refl
notices_deliver_nothing (some n) = refl

-- What is delivered of an email that is sent.
mail_carries :
    (t i : ℕ) (ans : Answers) (p : Player) (req : SendRequest) (q : Player)
    (msgs : List EmailAction)
    → Sent t i ans p req q msgs
    → delivered msgs ≡ contents (attached_of req.items)
mail_carries t i ans p req q msgs (updates, only, stored, kept, money, same) =
    ap delivered same
    ∙ updates_deliver_nothing updates _ only
    ∙ ap (λ (l : List Item). contents (attached_of req.items) ++ l)
        (notices_deliver_nothing ans.online)
    ∙ append_nil (contents (attached_of req.items))

module _ (insert : Rows → ℤ × Item → Option Rows) (email_ok player_ok : Bool) (t i : ℕ) where
  -- Whatever is stored arrives.
  arrives :
      (msgs : List EmailAction) (r : Player) (index : ℤ)
      → (send_email insert [] email_ok player_ok (delivered msgs)).1 ≡ rows_from 1 (delivered msgs)
      → length r.inven ≡ 50
      → length (delivered msgs) ≤ 4
      → item_count (delivered msgs) ≤ free_count r.inven
      → units t i (email_receive_item_all (fetched insert email_ok player_ok msgs) r index).0.inven
        ≡ units t i r.inven +ℤ units t i (delivered msgs)
  arrives msgs r index stored size few room =
      let xs = delivered msgs in
      let attachments = fetched insert email_ok player_ok msgs in
      let back : attachments ≡ padded xs =
        ap get_email_attachments stored ∙ get_email_attachments-rows xs few in
      let (l, same, whole, h) = email_receive_item_all_lem t i attachments r index size (
        omega (
          arith,
          room,
          ap item_count back,
          item_count-append xs (replicate (4 - length xs) no_item),
          item_count_empty (4 - length xs),
        )) in
      ap (λ (z : Player). units t i z.inven) same
      ∙ omega (
        int_laws,
        parts_of_eq h,
        parts_of_eq (ap (units t i) back),
        parts_of_eq (units-append t i xs (replicate (4 - length xs) no_item)),
        parts_of_eq (units_empty t i (4 - length xs)),
      )

clash : true ≡ false → ⊥
clash h = ground arith

-- An email from a sender with arrays of the right sizes and values within their caps to another
-- player with a whole inventory, in a table of attachments that stores a row if its slot is free and
-- has no rows of the index yet, where Database::sendEmail answers that the email is stored, with four
-- places for items at most and a free place of the recipient for each attached item: when the
-- recipient has taken all items that the database returns for it, the two inventories together hold
-- of any kind of item (type t, id i) what they held before, whether the email was sent or refused.
pub mail_conserves :
    (insert : Rows → ℤ × Item → Option Rows) (email_ok player_ok : Bool) (t i : ℕ) (ans : Answers)
    (p : Player) (req : SendRequest) (r : Player) (index : ℤ)
    → IsTable insert
    → IsKitted p
    → IsCapped p
    → length r.inven ≡ 50
    → ans.is_stored ≡ true
    → (send_email insert [] email_ok player_ok (contents (attached_of req.items))).0 ≡ ans.is_stored
    → length req.items ≤ 4
    → item_count (contents (attached_of req.items)) ≤ free_count r.inven
    → (q : Player) × (msgs : List EmailAction) × (email_send ans p req ≡ some (q, msgs))
      × (units t i q.inven
            +ℤ units t i
                (email_receive_item_all (fetched insert email_ok player_ok msgs) r index).0.inven
          ≡ units t i p.inven +ℤ units t i r.inven)
mail_conserves insert email_ok player_ok t i ans p req r index table kitted c size stored answer few
      room =
    let (q, msgs, run, outcome) = email_send_lem t i ans p req kitted c in
    (q, msgs, run, settled q msgs outcome)
  where
    short : length (contents (attached_of req.items)) ≤ 4
    short =
        omega (arith, few, length-attached_of req.items, length-contents (attached_of req.items))

    nothing :
        (q : Player) (msgs : List EmailAction)
        → q ≡ p
        → delivered msgs ≡ []
        → units t i q.inven
            +ℤ units t i
                (email_receive_item_all (fetched insert email_ok player_ok msgs) r index).0.inven
          ≡ units t i p.inven +ℤ units t i r.inven
    nothing q msgs same e = omega (
      int_laws,
      parts_of_eq (ap (λ (z : Player). units t i z.inven) same),
      parts_of_eq (ap (units t i) e),
      parts_of_eq (
          arrives insert email_ok player_ok t i msgs r index
            (subst
              (λ (l : List Item). (send_email insert [] email_ok player_ok l).1 ≡ rows_from 1 l)
              (sym e) (nothing_stored insert email_ok player_ok))
            size (omega (arith, ap length e)) (omega (arith, ap item_count e))),
    )

    settled :
        (q : Player) (msgs : List EmailAction)
        → SendOutcome t i ans p req q msgs
        → units t i q.inven
            +ℤ units t i
                (email_receive_item_all (fetched insert email_ok player_ok msgs) r index).0.inven
          ≡ units t i p.inven +ℤ units t i r.inven
    settled q msgs (inl (same, inl (why, e))) = nothing q msgs same (ap delivered e)
    settled q msgs (inl (same, inr (inl (why, e)))) = nothing q msgs same (ap delivered e)
    settled q msgs (inl (same, inr (inr (why, e)))) = nothing q msgs same (ap delivered e)
    settled q msgs (inr (accepted, inl sent)) =
        let e = mail_carries t i ans p req q msgs sent in
        let (updates, only, taken, kept, money, same) = sent in
        omega (
          int_laws,
          parts_of_eq kept,
          parts_of_eq (ap (units t i) e),
          parts_of_eq (
              arrives insert email_ok player_ok t i msgs r index
                (subst
                  (λ (l : List Item). (send_email insert [] email_ok player_ok l).1 ≡ rows_from 1 l)
                  (sym e)
                  (answered_rows insert table email_ok player_ok (contents (attached_of req.items))
                    (answer ∙ stored)))
                size (omega (arith, ap length e, short)) (omega (arith, ap item_count e, room))),
        )
    settled q msgs (inr (accepted, inr (updates, only, lost, there, spared, money, e))) =
        absurd (clash (sym stored ∙ lost))
