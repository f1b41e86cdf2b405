-- ===== src/Email/Taking.antt =====
-- The items that emailSend takes out of an inventory after its sanity checks.
use open_fusion.Common.{
  map, ℕ, suc, ◌≡◌, refl, sym, ap, subst, ◌∙◌, ◌≢◌, inl, inr, true, false, some, List, [], ◌∷◌,
  arith, ◌==◌, length, get_elem?, set, length-set, All,
}
use open_fusion.Common.Int.{ℤ, pos, ◌+ℤ◌, ◌-ℤ◌, pos_part, int_laws, parts_of_eq}
use open_fusion.Player.{Item}
use open_fusion.Trading.Exchange.Units.{counted, units, units-set}
use open_fusion.Items.Places.{weight, get_elem?-set_ne}
use open_fusion.Email.{SentItem, EmailAction, slot_update}
use open_fusion.Email.Post.{is_seen, is_forged, check_items, left_of, take_items}
use open_fusion.Vendors.Costs.{some_inj}
use open_fusion.Email.Checking.{
  attached_of, attached_of_empty, attached_of_full, check_cases, IsSpared,
}

-- The items that are mailed.
abbrev pub contents : List SentItem → List Item
contents attached = map (λ (a : SentItem). a.item) attached

abbrev pub IsSlotUpdate : EmailAction → Type 0
IsSlotUpdate action = (slot : ℤ) × (x : Item) × (action ≡ slot_update slot x)

-- What holds of an inventory after the items are taken out.
pub record Taken (t i : ℕ) (inven : List Item) (items attached : List SentItem) (count : ℕ)
    : Type 0 where
  pub left : List Item
  pub updates : List EmailAction
  pub only_updates : All IsSlotUpdate updates
  pub run : take_items inven items ≡ some (left, attached, updates)
  pub counts : length attached ≡ count
  pub conserves : units t i left +ℤ units t i (contents attached) ≡ units t i inven
  pub keeps_length : length left ≡ length inven
  pub spares : (k : ℕ) → IsSpared k attached → get_elem? left k ≡ get_elem? inven k

-- An inventory that differs from another only in slots that were seen.
abbrev Unseen : List Item → List Item → List ℤ → Type 0
Unseen inven now seen = (k : ℕ) → is_seen (pos k) seen ≡ false → get_elem? now k ≡ get_elem? inven k

left_of_lem :
    (t i : ℕ) (item real : Item)
    → is_forged item real ≡ false
    → weight t i (left_of real item) +ℤ weight t i item ≡ weight t i real
unfolding counted ◌+ℤ◌ ◌-ℤ◌
left_of_lem t i item real h = ground arith

not_seen_again :
    (n k : ℕ) (seen : List ℤ)
    → is_seen (pos k) (pos n ∷ seen) ≡ false
    → (n ≢ k) × (is_seen (pos k) seen ≡ false)
not_seen_again n k seen h = (λ e. ground arith, ground arith)

untouched_so_far :
    (inven now : List Item) (seen : List ℤ) (n : ℕ) (x : Item)
    → Unseen inven now seen
    → Unseen inven (set now n x) (pos n ∷ seen)
untouched_so_far inven now seen n x u k h =
    let (apart, fresh) = not_seen_again n k seen h in get_elem?-set_ne now n k x apart ∙ u k fresh

module _ (now : List Item) (a : SentItem) (items : List SentItem) where
  take_items_skips : (a.item.id == 0) ≡ true → take_items now (a ∷ items) ≡ take_items now items
  unfolding take_items
  take_items_skips e = simp e refl

  take_items_goes :
      (real : Item) (left : List Item) (attached : List SentItem) (updates : List EmailAction)
      → (a.item.id == 0) ≡ false
      → get_elem? now (pos_part a.slot_num) ≡ some real
      → take_items (set now (pos_part a.slot_num) (left_of real a.item)) items
        ≡ some (left, attached, updates)
      → take_items now (a ∷ items)
        ≡ some (left, a ∷ attached, slot_update a.slot_num (left_of real a.item) ∷ updates)
  unfolding take_items
  take_items_goes real left attached updates e there run = simp (e, there, run) refl

  module _ (t i : ℕ) where
    skipped :
        (attached : List SentItem) (count : ℕ)
        → (a.item.id == 0) ≡ true
        → Taken t i now items attached count
        → Taken t i now (a ∷ items) attached count
    skipped attached count e taken = record {
      left = taken.left;
      updates = taken.updates;
      only_updates = taken.only_updates;
      run = take_items_skips e ∙ taken.run;
      counts = taken.counts;
      conserves = taken.conserves;
      keeps_length = taken.keeps_length;
      spares = taken.spares;
    }

    added :
        (real : Item) (attached : List SentItem) (count : ℕ)
        → (a.item.id == 0) ≡ false
        → get_elem? now (pos_part a.slot_num) ≡ some real
        → is_forged a.item real ≡ false
        → Taken t i (set now (pos_part a.slot_num) (left_of real a.item)) items attached count
        → Taken t i now (a ∷ items) (a ∷ attached) (suc count)
    added real attached count e there honest taken =
        let slot = pos_part a.slot_num in
        let stays = left_of real a.item in
        record {
          left = taken.left;
          updates = slot_update a.slot_num stays ∷ taken.updates;
          only_updates = ((a.slot_num, stays, refl), taken.only_updates);
          run = take_items_goes real taken.left attached taken.updates e there taken.run;
          counts = ap suc taken.counts;
          conserves = omega (
            int_laws,
            parts_of_eq taken.conserves,
            parts_of_eq (units-set t i now slot real stays there),
            parts_of_eq (left_of_lem t i a.item real honest),
          );
          keeps_length = taken.keeps_length ∙ length-set now slot stays;
          spares = λ k spared. taken.spares k spared.1 ∙ get_elem?-set_ne now slot k stays spared.0;
        }

-- The checks let exactly such items through as the loop takes out.
pub take_items-Taken :
    (t i : ℕ) (inven now : List Item) (seen : List ℤ) (items : List SentItem) (count : ℕ)
    → check_items inven seen items ≡ some count
    → Unseen inven now seen
    → Taken t i now items (attached_of items) count
unfolding check_items take_items
take_items-Taken t i inven now seen [] count h u = record {
  left = now;
  updates = [];
  only_updates = tt;
  run = refl;
  counts = some_inj h;
  conserves = omega int_laws;
  keeps_length = refl;
  spares = λ k spared. refl;
}
take_items-Taken t i inven now seen (a ∷ items) count h u =
    elim (check_cases inven seen a items count h) [
      | inl (empty, after) ↦
          subst (λ (l : List SentItem). Taken t i now (a ∷ items) l count)
            (sym (attached_of_empty a items empty))
            (skipped now a items t i (attached_of items) count empty
              (take_items-Taken t i inven now seen items count after u))
      | inr (real, rest, full, same, near, holds, fresh, honest, after, counts) ↦
          let slot = pos_part a.slot_num in
          let stays = left_of real a.item in
          let holds_now =
            u slot (subst (λ (s : ℤ). is_seen s seen ≡ false) (sym same) fresh) ∙ holds in
          let u_after =
            subst (λ (s : ℤ). Unseen inven (set now slot stays) (s ∷ seen)) same
              (untouched_so_far inven now seen slot stays u) in
          subst (λ (l : List SentItem). Taken t i now (a ∷ items) l count)
            (sym (attached_of_full a items full))
            (subst (Taken t i now (a ∷ items) (a ∷ attached_of items)) counts (
              added now a items t i real (attached_of items) rest full holds_now honest (
                take_items-Taken t i inven (set now slot stays) (a.slot_num ∷ seen) items rest after
                  u_after)))
    ]
