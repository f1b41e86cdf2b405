-- ===== src/Trading/Safety.antt =====
-- What the trade handlers keep of the players on the shard.
use open_fusion.Common.{
  ℕ, zero, suc, ◌+◌, ◌<◌, ◌≡◌, refl, sym, ap, subst, ◌∙◌, ◌⊎◌, inl, inr, Bool, true, false, Option,
  none, some, List, [], ◌∷◌, arith, Bool-cases, length, get_elem?, set, All,
}
use open_fusion.Common.Int.{ℤ, pos, eqb_ℤ}
use open_fusion.Player.{TradeItem, Player}
use open_fusion.Protocol.Cipher.{◌>>=◌}
use open_fusion.Player.Others.{SameTrade}
use open_fusion.Trading.Exchange.{ainven_count}
use open_fusion.Trading.Exchange.Parts.{IsInRange}
use open_fusion.Trading.Exchange.Conservation.{IsTrader}
use open_fusion.Trading.World.{find_from, World, modify, get_sock_from_id}
use open_fusion.Trading.Handlers.{Reaction, no_offer, start_trading, stop_trading, set_confirm}

-- A trade slot names a place of the inventory, whether it offers something or not.
abbrev pub IsSlot : TradeItem → Type 0
IsSlot o = (n : ℕ) × (o.inven_num ≡ pos n) × (n < ainven_count)

-- A player's inventory has its 50 places, and while the player trades, there are five slots that
-- name places of it.
abbrev pub IsSafe : Player → Type 0
IsSafe p =
    (length p.inven ≡ ainven_count)
    × ((p.is_trading ≡ false) ⊎ ((length p.trade ≡ 5) × All IsSlot p.trade))

abbrev pub IsSafeWorld : World → Type 0
IsSafeWorld = All IsSafe

-- A handler returned, with as many players, all of them safe.
abbrev pub Reacts : ℕ → Reaction → Type 0
Reacts n none = ⊥
Reacts n (some (w, es)) = IsSafeWorld w × (length w ≡ n)

pub modify-IsSafeWorld :
    (w : World) (s : ℕ) (f : Player → Player)
    → ((p : Player) → IsSafe p → IsSafe (f p))
    → IsSafeWorld w
    → IsSafeWorld (modify w s f)
modify-IsSafeWorld [] s f h a = tt
modify-IsSafeWorld (p ∷ w) zero f h (a, b) = (h p a, b)
modify-IsSafeWorld (p ∷ w) (suc s) f h (a, b) = (a, modify-IsSafeWorld w s f h b)

pub length-modify : (w : World) (s : ℕ) (f : Player → Player) → length (modify w s f) ≡ length w
length-modify [] s f = refl
length-modify (p ∷ w) zero f = refl
length-modify (p ∷ w) (suc s) f = ap suc (length-modify w s f)

pub All-set {ℓ κ} :
    {A : Type ℓ} (P : A → Type κ) (xs : List A) (s : ℕ) (x : A)
    → P x
    → All P xs
    → All P (set xs s x)
All-set P [] s x h a = a
All-set P (y ∷ xs) zero x h (a, b) = (h, b)
All-set P (y ∷ xs) (suc s) x h (a, b) = (a, All-set P xs s x h b)

pub All-get_elem? {ℓ κ} :
    {A : Type ℓ} (P : A → Type κ) (xs : List A) (s : ℕ)
    → All P xs
    → s < length xs
    → (x : A) × (get_elem? xs s ≡ some x) × P x
All-get_elem? P [] s a h = absurd (omega (arith, h))
All-get_elem? P (y ∷ xs) zero (a, b) h = (y, refl, a)
All-get_elem? P (y ∷ xs) (suc s) (a, b) h = All-get_elem? P xs s b (omega (arith, h))

pub get_elem?_found {ℓ} :
    {A : Type ℓ} (xs : List A) (s : ℕ) → s < length xs → (x : A) × (get_elem? xs s ≡ some x)
get_elem?_found [] s h = absurd (omega (arith, h))
get_elem?_found (y ∷ xs) zero h = (y, refl)
get_elem?_found (y ∷ xs) (suc s) h = get_elem?_found xs s (omega (arith, h))

-- A handler that looks up a player who is there.
pub with_player :
    (n : ℕ) (w : World) (s : ℕ) (k : Player → Reaction)
    → IsSafeWorld w
    → s < length w
    → ((p : Player) → get_elem? w s ≡ some p → IsSafe p → Reacts n (k p))
    → Reacts n (get_elem? w s >>= k)
with_player n w s k a h r = let (p, e, v) = All-get_elem? IsSafe w s a h in rw e (r p e v)

-- The marks that the handlers set.
pub start_trading-IsSafe : (p : Player) → IsSafe p → IsSafe (start_trading p)
start_trading-IsSafe p (l, v) =
    let slot : IsSlot no_offer = (0, refl, omega arith) in
    (l, inr (refl, (slot, (slot, (slot, (slot, (slot, tt)))))))

pub stop_trading-IsSafe : (p : Player) → IsSafe p → IsSafe (stop_trading p)
stop_trading-IsSafe p (l, v) = (l, inl refl)

pub set_confirm-IsSafe : (b : Bool) (p : Player) → IsSafe p → IsSafe (set_confirm b p)
set_confirm-IsSafe b p v = v

pub SameTrade-IsSafe : (p q : Player) → SameTrade p q → IsSafe p → IsSafe q
SameTrade-IsSafe p q (i, t, m) (l, v) = (
  ap length i ∙ l,
  elim v [
    | inl off ↦ inl (m ∙ off)
    | inr (five, slots) ↦ inr (ap length t ∙ five, subst (All IsSlot) (sym t) slots)
  ],
)

IsSlot-IsInRange : (os : List TradeItem) → All IsSlot os → All (IsInRange ainven_count) os
IsSlot-IsInRange [] a = tt
IsSlot-IsInRange (o ∷ os) (a, b) = (inr a, IsSlot-IsInRange os b)

-- A safe player who trades can go through doTrade.
pub IsSafe-IsTrader : (p : Player) → IsSafe p → p.is_trading ≡ true → IsTrader p
IsSafe-IsTrader p (l, inl off) on = absurd (ground arith)
IsSafe-IsTrader p (l, inr (five, slots)) on =
    (five, subst (λ (n : ℕ). All (IsInRange n) p.trade) (sym l) (IsSlot-IsInRange p.trade slots))

index_of : {o s : ℕ} → some o ≡ some s → o ≡ s
index_of h = ground arith

find_from-bound :
    (w : World) (s : ℕ) (id : ℤ) (o : ℕ) → find_from w s id ≡ some o → o < s + length w
unfolding find_from
find_from-bound [] s id o h = absurd (ground arith)
find_from-bound (p ∷ w) s id o h = elim (Bool-cases (eqb_ℤ p.id id)) [
  | inl e ↦ omega (arith, index_of (simp e at h))
  | inr e ↦ omega (arith, find_from-bound w (s + 1) id o (simp e at h))
]

-- A handler that looks for another player.
pub with_other :
    (n : ℕ) (w : World) (id : ℤ) (k : ℕ → Reaction)
    → IsSafeWorld w
    → length w ≡ n
    → ((o : ℕ) → get_sock_from_id w id ≡ some o → o < length w → Reacts n (k o))
    → Reacts n (elim (get_sock_from_id w id) [ none ↦ some (w, []) | some other ↦ k other ])
unfolding get_sock_from_id
with_other n w id k a l r = go (find_from w 0 id) refl
  where
    go :
        (found : Option ℕ)
        → found ≡ find_from w 0 id
        → Reacts n (elim found [ none ↦ some (w, []) | some other ↦ k other ])
    go none e = (a, l)
    go (some o) e = r o (sym e) (omega (arith, find_from-bound w 0 id o (sym e)))

-- Two players are changed.
pub modify_two :
    (n : ℕ) (w : World) (s s2 : ℕ) (f f2 : Player → Player)
    → ((p : Player) → IsSafe p → IsSafe (f p))
    → ((p : Player) → IsSafe p → IsSafe (f2 p))
    → IsSafeWorld w
    → length w ≡ n
    → IsSafeWorld (modify (modify w s f) s2 f2) × (length (modify (modify w s f) s2 f2) ≡ n)
modify_two n w s s2 f f2 h h2 a l = (
  modify-IsSafeWorld (modify w s f) s2 f2 h2 (modify-IsSafeWorld w s f h a),
  length-modify (modify w s f) s2 f2 ∙ length-modify w s f ∙ l,
)
