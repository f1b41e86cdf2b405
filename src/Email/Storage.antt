-- ===== src/Email/Storage.antt =====
-- Database::sendEmail of db/email.cpp: how the attachments of an email are stored. The rows are those
-- of EmailItems for one player and one index, with their slots. SQLite's INSERT is a parameter.
use open_fusion.Common.{
  ℕ, suc, ◌+◌, ◌≤◌, ◌<◌, ◌≡◌, refl, sym, ap, ap₂, subst, ◌∙◌, Bool, true, false, ◌||◌, Option, none,
  some, List, [], ◌∷◌, ◌++◌, arith, if◌then◌else◌, length, append_nil,
}
use open_fusion.Common.Int.{ℤ, pos, eqb_ℤ}
use open_fusion.Protocol.Cipher.{◌>>=◌}
use open_fusion.Player.{Item}

abbrev pub Rows : Type 0
Rows = List (ℤ × Item)

-- "try again", once all attachments of the index are deleted.
abbrev pub insert_or : Option Rows → Option Rows → Option Rows
insert_or none again = again
insert_or (some rows) again = some rows

-- The loop "send attachments", with the slots from n on; `none` gives up.
unfoldable pub store_rows : (Rows → ℤ × Item → Option Rows) → Rows → ℕ → List Item → Option Rows
store_rows insert rows n [] = some rows
store_rows insert rows n (x ∷ xs) =
    insert_or (insert rows (pos n, x)) (insert [] (pos n, x)) >>= λ stored.
    store_rows insert stored (n + 1) xs

-- The end of the transaction: a rollback keeps the rows.
abbrev pub committed : Rows → Bool → Option Rows → Bool × Rows
committed rows player_ok none = (false, rows)
committed rows player_ok (some stored) = if player_ok then (true, stored) else (false, rows)

-- Database::sendEmail: its answer and the rows afterwards. The two flags say whether the email and
-- the sender are stored.
unfoldable pub send_email :
    (Rows → ℤ × Item → Option Rows) → Rows → Bool → Bool → List Item → Bool × Rows
unfolding store_rows
send_email insert rows email_ok player_ok items =
    if email_ok then committed rows player_ok (store_rows insert rows 1 items) else (false, rows)

abbrev pub is_taken : ℤ → Rows → Bool
is_taken slot [] = false
is_taken slot (row ∷ rows) = eqb_ℤ row.0 slot || is_taken slot rows

-- UNIQUE (PlayerID, MsgIndex, Slot): a row is stored if its slot is free, and only then.
pub record IsTable (insert : Rows → ℤ × Item → Option Rows) : Type 0 where
  pub stores :
      (rows : Rows) (slot : ℤ) (x : Item)
      → is_taken slot rows ≡ false
      → insert rows (slot, x) ≡ some (rows ++ (slot, x) ∷ [])
  pub refuses :
      (rows : Rows) (slot : ℤ) (x : Item) → is_taken slot rows ≡ true → insert rows (slot, x) ≡ none

-- The rows of all items, with the slots from n on.
unfoldable pub rows_from : ℕ → List Item → Rows
rows_from n [] = []
rows_from n (x ∷ xs) = (pos n, x) ∷ rows_from (n + 1) xs

later_slot :
    (rows : Rows) (n m : ℕ) (x : Item)
    → n < m
    → is_taken (pos m) (rows ++ (pos n, x) ∷ []) ≡ is_taken (pos m) rows
later_slot [] n m x h = ground arith
later_slot (row ∷ rows) n m x h =
    ap (λ (b : Bool). eqb_ℤ row.0 (pos m) || b) (later_slot rows n m x h)

append_one :
    (rows : Rows) (row : ℤ × Item) (more : Rows) → (rows ++ row ∷ []) ++ more ≡ rows ++ row ∷ more
append_one [] row more = refl
append_one (r ∷ rows) row more = ap (◌∷◌ r) (append_one rows row more)

-- Whether the slots from n on are free.
abbrev AreFree : Rows → ℕ → Type 0
AreFree rows n = (m : ℕ) → n ≤ m → is_taken (pos m) rows ≡ false

module _ (insert : Rows → ℤ × Item → Option Rows) (table : IsTable insert) where
  stored_all :
      (rows : Rows) (n : ℕ) (xs : List Item)
      → AreFree rows n
      → store_rows insert rows n xs ≡ some (rows ++ rows_from n xs)
  unfolding store_rows rows_from
  stored_all rows n [] free = ap some (sym (append_nil rows))
  stored_all rows n (x ∷ xs) free =
      let row : ℤ × Item = (pos n, x) in
      ap
        (λ (o : Option Rows).
          insert_or o (insert [] row) >>= λ stored. store_rows insert stored (n + 1) xs)
        (table.stores rows (pos n) x (free n (omega arith)))
      ∙ stored_all (rows ++ row ∷ []) (n + 1) xs
          (λ m h. later_slot rows n m x (omega (arith, h)) ∙ free m (omega (arith, h)))
      ∙ ap some (append_one rows row (rows_from (n + 1) xs))

  -- A slot that is taken: what was stored before it is deleted.
  stored_rest :
      (rows : Rows) (n : ℕ) (before : List Item) (b : Item) (rest : List Item)
      → ((m : ℕ) → n ≤ m → m < n + length before → is_taken (pos m) rows ≡ false)
      → is_taken (pos (n + length before)) rows ≡ true
      → store_rows insert rows n (before ++ b ∷ rest)
        ≡ some (rows_from (n + length before) (b ∷ rest))
  unfolding store_rows rows_from
  stored_rest rows n [] b rest free taken =
      let here : n + 0 ≡ n = omega arith in
      let taken_here = subst (λ (k : ℕ). is_taken (pos k) rows ≡ true) here taken in
      ap₂
        (λ (o again : Option Rows).
          insert_or o again >>= λ stored. store_rows insert stored (n + 1) rest)
        (table.refuses rows (pos n) b taken_here) (table.stores [] (pos n) b refl)
      ∙ stored_all ((pos n, b) ∷ []) (n + 1) rest (λ m h. ground arith)
      ∙ ap (λ (k : ℕ). some (rows_from k (b ∷ rest))) (sym here)
  stored_rest rows n (a ∷ before) b rest free taken =
      let row : ℤ × Item = (pos n, a) in
      let next : n + 1 + length before ≡ n + suc (length before) = omega arith in
      ap
        (λ (o : Option Rows). insert_or o (insert [] row) >>= λ stored.
          store_rows insert stored (n + 1) (before ++ b ∷ rest))
        (table.stores rows (pos n) a (free n (omega arith) (omega arith)))
      ∙ stored_rest (rows ++ row ∷ []) (n + 1) before b rest
          (λ m h l.
            later_slot rows n m a (omega (arith, h)) ∙ free m (omega (arith, h)) (omega (arith, l)))
          (later_slot rows n (n + 1 + length before) a (omega arith)
            ∙ ap (λ (k : ℕ). is_taken (pos k) rows) next
            ∙ taken)
      ∙ ap (λ (k : ℕ). some (rows_from k (b ∷ rest))) next

  -- An email without orphaned rows: if sendEmail answers that it is stored, all attachments are.
  pub answered_rows :
      (email_ok player_ok : Bool) (xs : List Item)
      → (send_email insert [] email_ok player_ok xs).0 ≡ true
      → (send_email insert [] email_ok player_ok xs).1 ≡ rows_from 1 xs
  unfolding send_email
  answered_rows false player_ok xs h = absurd (ground arith)
  answered_rows true false xs h = absurd (
      clash (
        sym (ap (λ (o : Option Rows). (committed [] false o).0) (stored_all [] 1 xs (λ m h. refl)))
        ∙ h))
    where
      clash : false ≡ true → ⊥
      clash h = ground arith
  answered_rows true true xs h =
      ap (λ (o : Option Rows). (committed [] true o).1) (stored_all [] 1 xs (λ m h. refl))

  -- An email whose index has orphaned rows of an old email, in a table that refuses a slot that is
  -- taken: where the first taken slot is that of the attachment b, sendEmail deletes the attachments
  -- before b that it has just stored, stores b and the rest, and answers that the email is stored.
  pub send_email_loses :
      (orphans : Rows) (before : List Item) (b : Item) (rest : List Item)
      → ((m : ℕ) → 1 ≤ m → m < 1 + length before → is_taken (pos m) orphans ≡ false)
      → is_taken (pos (1 + length before)) orphans ≡ true
      → send_email insert orphans true true (before ++ b ∷ rest)
        ≡ (true, rows_from (1 + length before) (b ∷ rest))
  unfolding send_email
  send_email_loses orphans before b rest free taken =
      ap (committed orphans true) (stored_rest orphans 1 before b rest free taken)

pub nothing_stored :
    (insert : Rows → ℤ × Item → Option Rows) (email_ok player_ok : Bool)
    → (send_email insert [] email_ok player_ok []).1 ≡ rows_from 1 []
unfolding send_email rows_from
nothing_stored insert false player_ok = refl
nothing_stored insert true true = refl
nothing_stored insert true false = refl
