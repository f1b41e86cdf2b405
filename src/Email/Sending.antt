-- ===== src/Email/Sending.antt =====
-- What emailSend does, on every way through it.
use open_fusion.Common.{if_true, if_false}
use open_fusion.Common.{
  map, ◌++◌, ℕ, ◌≡◌, refl, sym, ap, subst, ◌∙◌, ◌⊎◌, inl, inr, Bool, true, false, ◌||◌, Option,
  none, some, List, [], ◌∷◌, Bool-cases, Option-cases, length, get_elem?, All,
}
use open_fusion.Common.Int.{ℤ, pos, ◌+ℤ◌, ltb_ℤ}
use open_fusion.Player.{
  Item, Player, subtract_capped, taros, battery_weapon, battery_nano, capped_value, get_cap,
}
use open_fusion.Player.Range.{
  IsCapped, add_spec, subtract_spec, add_capped_lem, subtract_capped_lem, operations-IsCapped,
}
use open_fusion.Player.Others.{subtract_capped-SameTrade}
use open_fusion.Protocol.Cipher.{◌>>=◌}
use open_fusion.Trading.Exchange.Units.{units}
use open_fusion.Items.Kitted.{IsKitted}
use open_fusion.Email.{SendRequest, EmailAction, send_fail}
use open_fusion.Email.Post.{
  check_items, take_items, give_back, email_send, Answers, post, mail_cost, crosses_time, echoed,
  notices,
}
use open_fusion.Email.Checking.{attached_of, IsSpared, AreApart, checks-AreApart}
use open_fusion.Email.Taking.{contents, Taken, take_items-Taken, IsSlotUpdate}
use open_fusion.Email.GiveBack.{AreThere, give_back-AreThere, give_back_spares}
use open_fusion.Email.{set_value, send_succ}
use open_fusion.Email.Post.{after_checks, refuse_or, posted, paid_back}
use open_fusion.Player.{fusion_matter, taros_in_trade}

-- The inventory is no capped value.
inven-IsCapped : (l : List Item) (p : Player) → IsCapped p → IsCapped (record p { inven = l })
unfolding capped_value
inven-IsCapped l p c taros = c taros
inven-IsCapped l p c fusion_matter = c fusion_matter
inven-IsCapped l p c battery_weapon = c battery_weapon
inven-IsCapped l p c battery_nano = c battery_nano
inven-IsCapped l p c taros_in_trade = c taros_in_trade

abbrev pub cost_of : SendRequest → ℤ
cost_of req = mail_cost req.cash (length (attached_of req.items))

-- The email is on its way.
abbrev pub Sent : ℕ → ℕ → Answers → Player → SendRequest → Player → List EmailAction → Type 0
Sent t i ans p req q msgs =
    (updates : List EmailAction) × All IsSlotUpdate updates
    × (ans.is_stored ≡ true)
    × (units t i q.inven +ℤ units t i (contents (attached_of req.items)) ≡ units t i p.inven)
    × (q.money ≡ subtract_spec p.money (cost_of req))
    × (msgs
        ≡ updates
          ++ posted ans p req (attached_of req.items)
            ∷ set_value q.money
            ∷ send_succ req.to_id q.money (map echoed req.items)
            ∷ notices ans.online)

-- The database did not take the email.
abbrev pub Returned : Answers → Player → SendRequest → Player → List EmailAction → Type 0
Returned ans p req q msgs =
    (updates : List EmailAction) × All IsSlotUpdate updates
    × (ans.is_stored ≡ false)
    × AreThere q.inven (attached_of req.items)
    × ((k : ℕ) → IsSpared k (attached_of req.items) → get_elem? q.inven k ≡ get_elem? p.inven k)
    × (q.money ≡ add_spec (pos 999999999) (subtract_spec p.money (cost_of req)) (cost_of req))
    × (msgs
        ≡ updates ++ posted ans p req (attached_of req.items) ∷ send_fail (pos 1) req.to_id ∷ [])

-- The cash is negative, or more than the taros and the postage together.
abbrev pub is_bad_cash : Player → SendRequest → ℕ → Bool
is_bad_cash p req count = ltb_ℤ req.cash (pos 0) || ltb_ℤ (mail_cost p.money count) req.cash

-- The reasons of a refusal.
abbrev pub Refused : Answers → Player → SendRequest → Player → List EmailAction → Type 0
Refused ans p req q msgs =
    (q ≡ p)
    × ((check_items p.inven [] req.items ≡ none) × (msgs ≡ send_fail (pos 1) req.to_id ∷ [])
        ⊎ (is_bad_cash p req (length (attached_of req.items)) ≡ true)
          × (msgs ≡ send_fail (pos 1) req.to_id ∷ [])
        ⊎ (crosses_time ans req ≡ true) × (msgs ≡ send_fail (pos 9) req.to_id ∷ []))

module _ (t i : ℕ) (ans : Answers) (p : Player) (req : SendRequest) (count : ℕ)
    (taken : Taken t i p.inven req.items (attached_of req.items) count) (c : IsCapped p) where
  abbrev charged_for : Player
  charged_for = subtract_capped (record p { inven = taken.left }) taros (cost_of req)

  charged_for_money : charged_for.money ≡ subtract_spec p.money (cost_of req)
  unfolding capped_value
  charged_for_money =
      (subtract_capped_lem (record p { inven = taken.left }) taros taros (cost_of req)
        (inven-IsCapped taken.left p c)).0.0

  charged_for_inven : charged_for.inven ≡ taken.left
  charged_for_inven =
      (subtract_capped-SameTrade (record p { inven = taken.left }) taros (cost_of req)).0

  -- The money comes back on top of what is left, and the items to their slots.
  paid_back_money :
      (paid_back charged_for (cost_of req) (attached_of req.items)).money
      ≡ add_spec (pos 999999999) (subtract_spec p.money (cost_of req)) (cost_of req)
  unfolding capped_value get_cap
  paid_back_money =
      (add_capped_lem charged_for taros taros (cost_of req)
        (operations-IsCapped (record p { inven = taken.left }) taros (cost_of req)
          (inven-IsCapped taken.left p c)).1).0.0
      ∙ ap (λ (m : ℤ). add_spec (pos 999999999) m (cost_of req)) charged_for_money

  post-Sent :
      ans.is_stored ≡ true
      → (q : Player) × (msgs : List EmailAction) × (post ans p req taken.left
            (attached_of req.items)
            taken.updates
          ≡ (q, msgs))
        × Sent t i ans p req q msgs
  unfolding post
  post-Sent stored = (
    charged_for,
    _,
    if_true ans.is_stored _ _ stored,
    (
      taken.updates,
      taken.only_updates,
      stored,
      ap (λ (l : List Item). units t i l +ℤ units t i (contents (attached_of req.items)))
            charged_for_inven
          ∙ taken.conserves,
      charged_for_money,
      refl,
    ),
  )

  post-Returned :
      ans.is_stored ≡ false
      → length p.inven ≡ 50
      → AreApart (attached_of req.items)
      → (q : Player) × (msgs : List EmailAction) × (post ans p req taken.left
            (attached_of req.items)
            taken.updates
          ≡ (q, msgs))
        × Returned ans p req q msgs
  unfolding post
  post-Returned lost size apart =
      let attached = attached_of req.items in
      let same : give_back taken.left attached ≡ give_back charged_for.inven attached =
        ap (λ (l : List Item). give_back l attached) (sym charged_for_inven) in
      (
        paid_back charged_for (cost_of req) attached,
        _,
        if_false ans.is_stored _ _ lost,
        (
          taken.updates,
          taken.only_updates,
          lost,
          subst (λ (l : List Item). AreThere l attached) same
              (give_back-AreThere taken.left attached (taken.keeps_length ∙ size) apart),
          λ k spared.
              ap (λ (l : List Item). get_elem? l k) (sym same)
              ∙ give_back_spares taken.left attached k spared
              ∙ taken.spares k spared,
          paid_back_money,
          refl,
        ),
      )

-- An email that passes every check.
abbrev pub Accepted : Answers → Player → SendRequest → Type 0
Accepted ans p req =
    (check_items p.inven [] req.items ≡ some (length (attached_of req.items)))
    × (is_bad_cash p req (length (attached_of req.items)) ≡ false)
    × (crosses_time ans req ≡ false)

-- What becomes of an email.
abbrev pub SendOutcome : ℕ → ℕ → Answers → Player → SendRequest → Player → List EmailAction → Type 0
SendOutcome t i ans p req q msgs =
    Refused ans p req q msgs
    ⊎ Accepted ans p req × (Sent t i ans p req q msgs ⊎ Returned ans p req q msgs)

abbrev Ends : (Player → List EmailAction → Type 0) → Option (Player × List EmailAction) → Type 0
Ends P o = (q : Player) × (msgs : List EmailAction) × (o ≡ some (q, msgs)) × P q msgs

module _ (t i : ℕ) (ans : Answers) (p : Player) (req : SendRequest) (kitted : IsKitted p)
    (c : IsCapped p) where
  posted-Ends :
      (taken : Taken t i p.inven req.items (attached_of req.items) (length (attached_of req.items)))
      → Accepted ans p req
      → Ends
          (SendOutcome t i ans p req)
          (take_items p.inven req.items >>= λ taken. some (post ans p req taken.0 taken.1 taken.2))
  posted-Ends taken accepted = elim (Bool-cases ans.is_stored) [
    | inl yes_ ↦
        let (q, msgs, run, h) =
          post-Sent t i ans p req (length (attached_of req.items)) taken c yes_ in
        (q, msgs, simp taken.run (ap some run), inr (accepted, inl h))
    | inr no_ ↦
        let (q, msgs, run, h) =
          post-Returned t i ans p req (length (attached_of req.items)) taken c no_ kitted.1
            (checks-AreApart p.inven [] req.items (length (attached_of req.items)) accepted.0) in
        (q, msgs, simp taken.run (ap some run), inr (accepted, inr h))
  ]

  after_checks-Ends :
      check_items p.inven [] req.items ≡ some (length (attached_of req.items))
      → Taken t i p.inven req.items (attached_of req.items) (length (attached_of req.items))
      → Ends (SendOutcome t i ans p req) (after_checks ans p req (length (attached_of req.items)))
  unfolding after_checks
  after_checks-Ends passed taken =
      let count = length (attached_of req.items) in
      elim (Bool-cases (is_bad_cash p req count)) [
        | inl bad ↦
            (p, _, if_true (is_bad_cash p req count) _ _ bad, inl (refl, inr (inl (bad, refl))))
        | inr good ↦
            subst (Ends (SendOutcome t i ans p req))
              (sym (if_false (is_bad_cash p req count) _ _ good))
              (elim (Bool-cases (crosses_time ans req)) [
                | inl across ↦ (
                  p,
                  _,
                  if_true (crosses_time ans req) _ _ across,
                  inl (refl, inr (inr (across, refl))),
                )
                | inr near ↦
                    subst (Ends (SendOutcome t i ans p req))
                      (sym (if_false (crosses_time ans req) _ _ near))
                      (posted-Ends taken (passed, good, near))
              ])
      ]

-- emailSend, for a player with arrays of the right sizes and values within their caps, and a kind
-- of item (type t, id i), always answers. It changes nothing and fails with the code 1 if an item
-- is not what its slot holds, or too many of it, or named twice, or if the cash is negative or more
-- than the taros plus the postage, and with the code 9 if it crosses the time periods. Otherwise
-- one email with exactly the attached items and the cash goes to the database. If that takes it,
-- the inventory and the attachments together hold as much of the kind as the inventory before, and
-- the player has paid the cost, or all taros if the cost is more. If not, every attached slot
-- holds what was attached, all other slots are as before, and the cost is added to the taros.
pub email_send_lem :
    (t i : ℕ) (ans : Answers) (p : Player) (req : SendRequest)
    → IsKitted p
    → IsCapped p
    → (q : Player) × (msgs : List EmailAction) × (email_send ans p req ≡ some (q, msgs))
      × SendOutcome t i ans p req q msgs
unfolding email_send refuse_or
email_send_lem t i ans p req kitted c = elim (Option-cases (check_items p.inven [] req.items)) [
  | inl bad ↦ (p, _, ap (refuse_or ans p req) bad, inl (refl, inl (bad, refl)))
  | inr (count, passed) ↦
      let taken = take_items-Taken t i p.inven p.inven [] req.items count passed (λ k h. refl) in
      let counted_all = passed ∙ ap some (sym taken.counts) in
      subst (Ends (SendOutcome t i ans p req)) (sym (ap (refuse_or ans p req) counted_all)) (
        after_checks-Ends t i ans p req kitted c counted_all
          (subst (Taken t i p.inven req.items (attached_of req.items)) (sym taken.counts) taken))
]
