-- ===== src/Email/Overdraft.antt =====
-- The check of the taros in emailSend, and what it lets through.
use open_fusion.Common.{
  ℕ, ◌≡◌, refl, sym, ◌∙◌, inl, inr, true, false, ◌||◌, none, some, List, [], arith, length,
}
use open_fusion.Common.Int.{ℤ, pos, ◌+ℤ◌, ◌-ℤ◌, ◌≤ℤ◌, ltb_ℤ}
use open_fusion.Player.{Player, no_item, taros, capped_value, get_cap}
use open_fusion.Player.Range.{IsCapped, add_spec, subtract_spec, add_capped_lem}
use open_fusion.Items.Kitted.{IsKitted, some_elem}
use open_fusion.Email.{SentItem, SendRequest, EmailAction}
use open_fusion.Email.Post.{real_item, check_items, email_send, Answers, mail_of, crosses_time}
use open_fusion.Email.Sending.{email_send_lem, SendOutcome}
use open_fusion.Email.{email_receive_taros}
use open_fusion.Common.{replicate}

clash : true ≡ false → ⊥
clash h = ground arith

abbrev pub no_sent_item : SentItem
no_sent_item = record { slot_num = pos 0; item = no_item }

-- A request without items that sends all taros of a player and the postage on top.
abbrev pub overdraft : Player → ℤ → SendRequest
overdraft p to = record { to_id = to; items = replicate 4 no_sent_item; cash = p.money +ℤ pos 50 }

overdraft_passes :
    (p : Player) (to : ℤ)
    → length p.inven ≡ 50
    → check_items p.inven [] (overdraft p to).items ≡ some 0
unfolding check_items real_item
overdraft_passes p to size =
    let (x, there) = some_elem p.inven 0 (omega (arith, size)) in simp there refl

no_number : {n : ℕ} → none ≡ some n → ⊥
no_number h = ground arith

module _ (money : ℤ) (low : pos 0 ≤ℤ money) where
  overdraft_is_no_bad_cash :
      (ltb_ℤ (money +ℤ pos 50) (pos 0) || ltb_ℤ (money +ℤ pos 50 +ℤ pos 0) (money +ℤ pos 50))
      ≡ false
  unfolding ◌+ℤ◌
  overdraft_is_no_bad_cash = ground arith

  overdraft_leaves_nothing : subtract_spec money (money +ℤ pos 50 +ℤ pos 50 +ℤ pos 0) ≡ pos 0
  unfolding ◌+ℤ◌ ◌-ℤ◌
  overdraft_leaves_nothing = ground arith

  overdraft_gains :
      (own : ℤ)
      → own +ℤ money +ℤ pos 50 ≤ℤ pos 999999999
      → add_spec (pos 999999999) own (money +ℤ pos 50) ≡ own +ℤ money +ℤ pos 50
  unfolding ◌+ℤ◌ ◌-ℤ◌
  overdraft_gains own room = ground arith

-- The check of the taros has the postage on the wrong side: a player with a whole inventory and
-- values within their caps sends all taros and the postage of 50 on top, in one time period and on a
-- database that takes the email. The sender is left with nothing, and a recipient who has room for
-- the taros of the email gets 50 more than the sender had.
pub mail_mints :
    (ans : Answers) (p : Player) (to : ℤ) (r : Player) (count index : ℤ)
    → IsKitted p
    → IsCapped p
    → IsCapped r
    → ans.is_stored ≡ true
    → crosses_time ans (overdraft p to) ≡ false
    → r.money +ℤ p.money +ℤ pos 50 ≤ℤ pos 999999999
    → (q : Player) × (msgs : List EmailAction) × (email_send ans p (overdraft p to)
        ≡ some (q, msgs))
      × (q.money ≡ pos 0)
      × ((email_receive_taros (mail_of ans p (overdraft p to) []) count r index).0.money
          ≡ r.money +ℤ p.money +ℤ pos 50)
unfolding email_receive_taros capped_value get_cap
mail_mints ans p to r count index kitted c d stored near room =
    let (q, msgs, run, outcome) = email_send_lem 0 1 ans p (overdraft p to) kitted c in
    (
      q,
      msgs,
      run,
      left q msgs outcome,
      (add_capped_lem r taros taros (p.money +ℤ pos 50) d).0.0
          ∙ overdraft_gains p.money (c taros).0 r.money room,
    )
  where
    left :
        (q : Player) (msgs : List EmailAction)
        → SendOutcome 0 1 ans p (overdraft p to) q msgs
        → q.money ≡ pos 0
    left q msgs (inl (same, inl (bad, e))) =
        absurd (no_number (sym bad ∙ overdraft_passes p to kitted.1))
    left q msgs (inl (same, inr (inl (bad, e)))) =
        absurd (clash (sym bad ∙ overdraft_is_no_bad_cash p.money (c taros).0))
    left q msgs (inl (same, inr (inr (across, e)))) = absurd (clash (sym across ∙ near))
    left q msgs (inr (accepted, inl sent)) =
        let (updates, only, taken, kept, money, e) = sent in
        money ∙ overdraft_leaves_nothing p.money (c taros).0
    left q msgs (inr (accepted, inr (updates, only, lost, there, spared, money, e))) =
        absurd (clash (sym stored ∙ lost))
