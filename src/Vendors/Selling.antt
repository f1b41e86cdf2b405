-- ===== src/Vendors/Selling.antt =====
-- What vendorSell takes and keeps.
use open_fusion.Common.{
  ◌++◌, ℕ, ◌^◌, ◌≡◌, refl, sym, ap, ◌∙◌, ◌≢◌, ◌⊎◌, inl, inr, Bool, true, false, ◌&&◌, ◌||◌, Option,
  none, some, List, [], ◌∷◌, ◌<◌, length, arith, Bool-cases, get_elem?, set, if◌then◌else◌,
}
use open_fusion.Common.Int.{
  ℤ, pos, negsuc, ◌+ℤ◌, ◌-ℤ◌, ◌*ℤ◌, ◌≤ℤ◌, ◌<ℤ◌, ltb_ℤ, leb_ℤ, wrap32, pos_part, int_laws,
  parts_of_eq,
}
use open_fusion.Player.{Item, Player, no_item, add_capped, taros, capped_value, get_cap}
use open_fusion.Player.Range.{IsCapped, add_spec, add_capped_lem}
use open_fusion.Player.Others.{add_capped-SameTrade, add_capped-buyback}
use open_fusion.Items.{ItemData, ItemTable}
use open_fusion.Items.Kitted.{some_elem}
use open_fusion.Trading.Exchange.Units.{counted, units, units-set}
use open_fusion.Items.Places.{weight, counted-+ℤ, counted_none_id}
use open_fusion.Vendors.{
  VendorMessage, sell_fail, sell_succ, or_else, check, forget_oldest, split_stack, inven_at,
  try_sell, vendor_sell,
}
use open_fusion.Vendors.Costs.{check_inv, bind_inv, some_inj}

-- What holds of a sale that succeeds.
abbrev pub Sold : ItemTable → ℕ → ℕ → Player → ℤ → ℤ → Player → VendorMessage → Type 0
Sold table t i p slot cnt q msg =
    (n : ℕ) × (d : ItemData) × (item : Item) × (original : Item) × (stay : Item) × (slot ≡ pos n)
    × (n < 50)
    × (get_elem? p.inven n ≡ some item)
    × (pos 0 ≤ℤ cnt)
    × (cnt ≤ℤ item.opt)
    × (table item.id item.type ≡ some d)
    × (d.sellable ≡ true)
    × (original ≡ record item { opt = cnt })
    × (stay ≡ (if ltb_ℤ cnt item.opt then record item { opt = item.opt -ℤ cnt } else no_item))
    × (q.money ≡ add_spec (pos 999999999) p.money (wrap32 (d.sell_price *ℤ cnt)))
    × (q.inven ≡ set p.inven n stay)
    × (q.buyback ≡ forget_oldest (p.buyback ++ original ∷ []))
    × (units t i q.inven +ℤ weight t i original ≡ units t i p.inven)
    × (msg ≡ sell_succ slot q.money original stay)

more_left : (a b : ℤ) → ltb_ℤ (pos 0) (a -ℤ b) ≡ ltb_ℤ b a
unfolding ◌-ℤ◌ ◌+ℤ◌
more_left a b = ground arith

all_sold : (a b : ℤ) → b ≤ℤ a → ltb_ℤ b a ≡ false → b ≡ a
all_sold a b h e = ground arith

-- What stays and what is sold.
split_exactly :
    (item : Item) (cnt : ℤ)
    → cnt ≤ℤ item.opt
    → ((split_stack item cnt).1 ≡ record item { opt = cnt })
      × ((split_stack item cnt).0
          ≡ (if ltb_ℤ cnt item.opt then record item { opt = item.opt -ℤ cnt } else no_item))
split_exactly item cnt h = elim (Bool-cases (ltb_ℤ cnt item.opt)) [
  | inl e ↦ let m = more_left item.opt cnt ∙ e in (simp m refl, simp (m, e) refl)
  | inr e ↦
      let m = more_left item.opt cnt ∙ e in
      (
        simp m (ap (λ (v : ℤ). record item { opt = v }) (sym (all_sold item.opt cnt h e))),
        simp (m, e) refl,
      )
]

split_stack_lem :
    (t i : ℕ) (item : Item) (cnt : ℤ)
    → i ≢ 0
    → weight t i (split_stack item cnt).0 +ℤ weight t i (split_stack item cnt).1 ≡ weight t i item
split_stack_lem t i item cnt i≢0 = elim (Bool-cases (ltb_ℤ (pos 0) (item.opt -ℤ cnt))) [
  | inl e ↦ simp e (
      sym (counted-+ℤ t i item.type item.id (item.opt -ℤ cnt) cnt)
      ∙ ap (counted t i item.type item.id) (back item.opt cnt))
  | inr e ↦ simp e (none_left (counted_none_id t i 0 0 (pos 0) i≢0 refl))
]
  where
    back : (a b : ℤ) → a -ℤ b +ℤ b ≡ a
    back a b = omega int_laws

    none_left : {a b : ℤ} → a ≡ pos 0 → a +ℤ b ≡ b
    none_left h = omega (int_laws, parts_of_eq h)

sold_money :
    (p : Player) (v : ℤ)
    → IsCapped p
    → (add_capped p taros v).money ≡ add_spec (pos 999999999) p.money v
unfolding capped_value get_cap
sold_money p v c = (add_capped_lem p taros taros v c).0.0

try_sell-Sold :
    (table : ItemTable) (t i : ℕ) (p : Player) (n : ℕ) (cnt : ℤ) (item : Item) (q : Player)
    (msg : VendorMessage)
    → IsCapped p
    → i ≢ 0
    → n < 50
    → get_elem? p.inven n ≡ some item
    → pos 0 ≤ℤ cnt
    → try_sell table p (pos n) cnt item ≡ some (q, msg)
    → Sold table t i p (pos n) cnt q msg
unfolding try_sell
try_sell-Sold table t i p n cnt item q msg c i≢0 near there some_ h =
    let (d, known, h) = bind_inv (table item.id item.type) _ (q, msg) h in
    let (u2, can, h) = bind_inv (check (d.sellable && leb_ℤ cnt item.opt)) _ (q, msg) h in
    let (u3, plain, h) = bind_inv (check (ltb_ℤ item.opt (pos (2 ^ 16)))) _ (q, msg) h in
    let (sellable, enough) = both d.sellable (leb_ℤ cnt item.opt) (check_inv _ u2 can) in
    let le : cnt ≤ℤ item.opt = ground arith in
    let same = some_inj h in
    let who = ap (λ z. z.0) same in
    let stay = (split_stack item cnt).0 in
    let original = (split_stack item cnt).1 in
    let exactly = split_exactly item cnt le in
    let gain = wrap32 (d.sell_price *ℤ cnt) in
    let money = sym (ap (λ (z : Player). z.money) who) ∙ sold_money p gain c in
    let inven : q.inven ≡ set p.inven n stay =
      sym (ap (λ (z : Player). z.inven) who)
      ∙ ap (λ (l : List Item). set l n stay) (add_capped-SameTrade p taros gain).0 in
    (
      n,
      d,
      item,
      original,
      stay,
      refl,
      near,
      there,
      some_,
      le,
      known,
      sellable,
      exactly.0,
      exactly.1,
      money,
      inven,
      sym (ap (λ (z : Player). z.buyback) who)
          ∙ ap (λ (l : List Item). forget_oldest (l ++ original ∷ []))
              (add_capped-buyback p taros gain),
      omega (
        int_laws,
        parts_of_eq (ap (units t i) inven),
        parts_of_eq (units-set t i p.inven n item stay there),
        parts_of_eq (split_stack_lem t i item cnt i≢0),
      ),
      sym (ap (λ z. z.1) same) ∙ ap (λ (z : Player). sell_succ (pos n) z.money original stay) who,
    )
  where
    both : (a b : Bool) → a && b ≡ true → (a ≡ true) × (b ≡ true)
    both a b h = ground arith

-- What a sale needs: a slot of the inventory, a number that is not negative and that its item has,
-- and an item that can be sold and has no style of the croc pot.
abbrev pub IsSellable : ItemTable → Player → ℤ → ℤ → Type 0
IsSellable table p slot cnt =
    (n : ℕ) × (item : Item) × (d : ItemData) × (slot ≡ pos n)
    × (n < 50)
    × (get_elem? p.inven n ≡ some item)
    × (pos 0 ≤ℤ cnt)
    × (cnt ≤ℤ item.opt)
    × (item.opt <ℤ pos (2 ^ 16))
    × (table item.id item.type ≡ some d)
    × (d.sellable ≡ true)

sells :
    (table : ItemTable) (p : Player) (slot cnt : ℤ) (item : Item) (d : ItemData)
    → cnt ≤ℤ item.opt
    → item.opt <ℤ pos (2 ^ 16)
    → table item.id item.type ≡ some d
    → d.sellable ≡ true
    → (r : Player × VendorMessage) × (try_sell table p slot cnt item ≡ some r)
unfolding try_sell
sells table p slot cnt item d enough plain known sellable =
    let enough' : leb_ℤ cnt item.opt ≡ true = ground arith in
    let plain' : ltb_ℤ item.opt (pos (2 ^ 16)) ≡ true = ground arith in
    let q = add_capped p taros (wrap32 (d.sell_price *ℤ cnt)) in
    let stay = (split_stack item cnt).0 in
    let original = (split_stack item cnt).1 in
    (
      (
        record q {
          inven = set q.inven (pos_part slot) stay;
          buyback = forget_oldest (q.buyback ++ original ∷ []);
        },
        sell_succ slot q.money original stay,
      ),
      simp (known, sellable, enough', plain') refl,
    )

no_sale {ℓ} : {A : Type ℓ} {r : A} → none ≡ some r → ⊥
no_sale h = ground arith

pos_inj : (m n : ℕ) → pos m ≡ pos n → m ≡ n
pos_inj m n h = ground arith

refused_unsellable :
    (table : ItemTable) (p : Player) (n : ℕ) (cnt : ℤ) (item : Item)
    → get_elem? p.inven n ≡ some item
    → try_sell table p (pos n) cnt item ≡ none
    → IsSellable table p (pos n) cnt
    → ⊥
refused_unsellable table p n cnt item there e
      (m, x, d, at, near, held, some_, enough, plain, known, sellable) =
    let same : x ≡ item =
      some_inj (sym held ∙ ap (λ (k : ℕ). get_elem? p.inven k) (sym (pos_inj n m at)) ∙ there) in
    let (r, run) = sells table p (pos n) cnt x d enough plain known sellable in
    no_sale (sym e ∙ ap (try_sell table p (pos n) cnt) (sym same) ∙ run)

-- A sale that failed, or succeeded.
abbrev pub SellsOrFails : ItemTable → ℕ → ℕ → Player → ℤ → ℤ → Player → VendorMessage → Type 0
SellsOrFails table t i p slot cnt q msg =
    ((IsSellable table p slot cnt → ⊥) × (q ≡ p) × (msg ≡ sell_fail))
    ⊎ Sold table t i p slot cnt q msg

sells_or_fails :
    (table : ItemTable) (t i : ℕ) (p : Player) (n : ℕ) (cnt : ℤ) (item : Item)
    → IsCapped p
    → i ≢ 0
    → n < 50
    → get_elem? p.inven n ≡ some item
    → pos 0 ≤ℤ cnt
    → (r : Option (Player × VendorMessage)) → try_sell table p (pos n) cnt item ≡ r
    → SellsOrFails table t i p (pos n) cnt (or_else r (p, sell_fail)).0 (or_else r (p, sell_fail)).1
sells_or_fails table t i p n cnt item c i≢0 near there some_ none e =
    inl (refused_unsellable table p n cnt item there e, refl, refl)
sells_or_fails table t i p n cnt item c i≢0 near there some_ (some (q, msg)) e =
    inr (try_sell-Sold table t i p n cnt item q msg c i≢0 near there some_ e)

out_of_range :
    (n m : ℕ) (cnt : ℤ)
    → pos n ≡ pos m
    → m < 50
    → pos 0 ≤ℤ cnt
    → ltb_ℤ (pos n) (pos 0) || leb_ℤ (pos 50) (pos n) || ltb_ℤ cnt (pos 0) ≡ true
    → ⊥
out_of_range n m cnt at near some_ refused = ground arith

-- vendorSell, for a player with values within their caps and an inventory of 50 places, a kind of
-- item (type t, id i other than 0) and any request, also for a slot outside the inventory: it
-- answers. It fails and changes nothing, which is so only if the slot or the number is out of range,
-- the item cannot be sold or has a style of the croc pot; or the number sold is not negative and at most what the item
-- of the slot has, the slot keeps the item with the rest of its number, or nothing when all of it is
-- sold, the player gets the price of the number sold, up to the cap of taros, and the item with the
-- number sold is put last on the buyback list, from which the oldest goes when there are more than
-- five. What the inventory loses of the kind is what that item has.
pub vendor_sell_lem :
    (table : ItemTable) (t i : ℕ) (p : Player) (slot cnt : ℤ)
    → IsCapped p
    → i ≢ 0
    → length p.inven ≡ 50
    → (q : Player) × (msg : VendorMessage) × (vendor_sell table p slot cnt ≡ some (q, msg))
      × SellsOrFails table t i p slot cnt q msg
unfolding vendor_sell inven_at
vendor_sell_lem table t i p (negsuc k) cnt c i≢0 l =
    let below : (ltb_ℤ (negsuc k) (pos 0) || leb_ℤ (pos 50) (negsuc k) || ltb_ℤ cnt (pos 0))
        ≡ true =
      ground arith in
    (
      p,
      sell_fail,
      simp below refl,
      inl (
        (λ (m, x, d, at, near, held, some_, enough, plain, known, sellable). ground arith),
        refl,
        refl,
      ),
    )
vendor_sell_lem table t i p (pos n) cnt c i≢0 l =
    elim (Bool-cases (ltb_ℤ (pos n) (pos 0) || leb_ℤ (pos 50) (pos n) || ltb_ℤ cnt (pos 0))) [
      | inl refused ↦ (
        p,
        sell_fail,
        simp refused refl,
        inl (
          (λ (m, x, d, at, near, held, some_, enough, plain, known, sellable).
              out_of_range n m cnt at near some_ refused),
          refl,
          refl,
        ),
      )
      | inr taken ↦
          let near : n < 50 = ground arith in
          let some_ : pos 0 ≤ℤ cnt = ground arith in
          let (item, there) = some_elem p.inven n (omega arith) in
          let r = or_else (try_sell table p (pos n) cnt item) (p, sell_fail) in
          (
            r.0,
            r.1,
            simp (taken, there) refl,
            sells_or_fails table t i p n cnt item c i≢0 near there some_
                (try_sell table p (pos n) cnt item) refl,
          )
    ]
