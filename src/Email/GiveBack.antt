-- ===== src/Email/GiveBack.antt =====
-- The items that emailSend puts back when the database does not take the email.
use open_fusion.Common.{
  ℕ, ◌≡◌, refl, sym, ◌∙◌, some, List, [], ◌∷◌, arith, length, get_elem?, set, length-set, All,
}
use open_fusion.Common.Int.{pos_part}
use open_fusion.Player.{Item}
use open_fusion.Items.Places.{get_elem?-set_self, get_elem?-set_ne}
use open_fusion.Items.Kitted.{some_elem}
use open_fusion.Email.{SentItem}
use open_fusion.Email.Post.{give_back}
use open_fusion.Email.Checking.{IsSpared, AreApart}

-- Every attached item is in its slot.
abbrev pub AreThere : List Item → List SentItem → Type 0
AreThere inven attached =
    All (λ (a : SentItem). get_elem? inven (pos_part a.slot_num) ≡ some a.item) attached

length-give_back :
    (inven : List Item) (attached : List SentItem)
    → length (give_back inven attached) ≡ length inven
unfolding give_back
length-give_back inven [] = refl
length-give_back inven (a ∷ attached) =
    length-set (give_back inven attached) (pos_part a.slot_num) a.item
    ∙ length-give_back inven attached

pub give_back_spares :
    (inven : List Item) (attached : List SentItem) (k : ℕ)
    → IsSpared k attached
    → get_elem? (give_back inven attached) k ≡ get_elem? inven k
unfolding give_back
give_back_spares inven [] k h = refl
give_back_spares inven (a ∷ attached) k h =
    get_elem?-set_ne (give_back inven attached) (pos_part a.slot_num) k a.item h.0
    ∙ give_back_spares inven attached k h.1

kept_in_their_slots :
    (inven : List Item) (attached : List SentItem) (n : ℕ) (x : Item)
    → IsSpared n attached
    → AreThere inven attached
    → AreThere (set inven n x) attached
kept_in_their_slots inven [] n x h there = tt
kept_in_their_slots inven (a ∷ attached) n x (apart, h) (e, there) = (
  get_elem?-set_ne inven n (pos_part a.slot_num) x (λ same. apart (sym same)) ∙ e,
  kept_in_their_slots inven attached n x h there,
)

pub give_back-AreThere :
    (inven : List Item) (attached : List SentItem)
    → length inven ≡ 50
    → AreApart attached
    → AreThere (give_back inven attached) attached
unfolding give_back
give_back-AreThere inven [] l h = tt
give_back-AreThere inven (a ∷ attached) l (near, apart, h) =
    let back = give_back inven attached in
    let slot = pos_part a.slot_num in
    let (old, e) = some_elem back slot (omega (arith, near, l, length-give_back inven attached)) in
    (
      get_elem?-set_self back slot old a.item e,
      kept_in_their_slots back attached slot a.item apart (give_back-AreThere inven attached l h),
    )
