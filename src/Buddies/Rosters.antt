-- ===== src/Buddies/Rosters.antt =====
-- The sizes of the lists of buddies, under all handlers.
use open_fusion.Common.{
  ℕ, zero, suc, ◌+◌, ◌<◌, ◌≡◌, refl, sym, ap, subst, ◌∙◌, inl, inr, Bool, true, false, Option, none,
  some, List, [], ◌∷◌, ◌++◌, arith, if◌then◌else◌, if_true, if_false, Bool-cases, length, get_elem?,
  set, length-set, All,
}
use open_fusion.Common.Int.{ℤ, pos, eqb_ℤ, wrap32}
use open_fusion.Protocol.Cipher.{◌>>=◌}
use open_fusion.Items.Kitted.{some_elem}
use open_fusion.Vendors.Costs.{some_inj}
use open_fusion.Buddies.{
  Member, Roster, BuddyEffect, first_place_of, sock_from, find_sock, befriended,
}
use open_fusion.Buddies.Handlers.{Answer, drop_buddy, notify_other}
use open_fusion.Buddies.Handlers.{when_online, after, BuddyRequest, find_name_make_buddy}

-- The arrays of a player have their 50 places.
abbrev pub IsMember : Member → Type 0
IsMember p = (length p.buddy_ids ≡ 50) × (length p.is_buddy_blocked ≡ 50)

abbrev pub IsRoster : Roster → Type 0
IsRoster = All IsMember

-- A socket, if there is one, that has a player.
abbrev pub IsSocket : Roster → Option ℕ → Type 0
IsSocket w none = Unit
IsSocket w (some o) = o < length w

-- What a search for a name may find.
abbrev pub IsFindable : Roster → BuddyRequest → Type 0
IsFindable w req = elim req [ find_name_make_buddy found ↦ IsSocket w found | _ ↦ Unit ]

-- What a handler promises: an answer, and arrays of the same sizes for as many players.
abbrev pub Replies : Roster → Option Answer → Type 0
Replies w o =
    (w1 : Roster) × (msgs : List BuddyEffect) × (o ≡ some (w1, msgs))
    × IsRoster w1
    × (length w1 ≡ length w)

pub set-IsRoster :
    (w : Roster) (n : ℕ) (p : Member) → IsMember p → IsRoster w → IsRoster (set w n p)
set-IsRoster [] n p m h = tt
set-IsRoster (x ∷ w) zero p m (hx, h) = (m, h)
set-IsRoster (x ∷ w) (suc n) p m (hx, h) = (hx, set-IsRoster w n p m h)

member_at : (w : Roster) (n : ℕ) (p : Member) → IsRoster w → get_elem? w n ≡ some p → IsMember p
member_at [] n p h e = absurd (ground arith)
member_at (x ∷ w) zero p (hx, h) e = subst IsMember (some_inj e) hx
member_at (x ∷ w) (suc n) p (hx, h) e = member_at w n p h e

sock_from-IsSocket :
    (w : Roster) (id : ℤ) (k : ℕ) (m : ℕ)
    → m ≡ k + length w
    → (o : ℕ) → sock_from w id k ≡ some o
    → o < m
unfolding sock_from
sock_from-IsSocket [] id k m e o h = absurd (ground arith)
sock_from-IsSocket (p ∷ w) id k m e o h = elim (Bool-cases (eqb_ℤ p.id id)) [
  | inl yes_ ↦ omega (arith, e, some_inj (sym (if_true (eqb_ℤ p.id id) (some k) _ yes_) ∙ h))
  | inr no_ ↦
      sock_from-IsSocket w id (k + 1) m (omega (arith, e)) o
        (sym (if_false (eqb_ℤ p.id id) (some k) _ no_) ∙ h)
]

pub find_sock-IsSocket : (w : Roster) (id : ℤ) → IsSocket w (find_sock w id)
unfolding find_sock
find_sock-IsSocket w id = by_cases (sock_from w (wrap32 id) 0) refl
  where
    by_cases : (o : Option ℕ) → sock_from w (wrap32 id) 0 ≡ o → IsSocket w o
    by_cases none e = tt
    by_cases (some o) e = sock_from-IsSocket w (wrap32 id) 0 (length w) (omega arith) o e

pub keeps : (w : Roster) (msgs : List BuddyEffect) → IsRoster w → Replies w (some (w, msgs))
keeps w msgs h = (w, msgs, refl, h, refl)

-- A handler that answers for each player who may be the other one.
pub when_online-Replies :
    (w : Roster) (found : Option ℕ) (k : ℕ → Member → Answer)
    → IsRoster w
    → IsSocket w found
    → ((o : ℕ) (other : Member) → IsMember other → Replies w (some (k o other)))
    → Replies w (when_online w found k)
when_online-Replies w none k h l f = keeps w [] h
when_online-Replies w (some o) k h l f =
    let (other, e) = some_elem w o l in
    subst (Replies w) (sym (ap (λ (r : Option Member). r >>= λ other. some (k o other)) e))
      (f o other (member_at w o other h e))

pub stored :
    (w : Roster) (n : ℕ) (p : Member) (msgs : List BuddyEffect)
    → IsRoster w
    → IsMember p
    → Replies w (some (set w n p, msgs))
stored w n p msgs h m = (set w n p, msgs, refl, set-IsRoster w n p m h, length-set w n p)

pub befriended-IsMember :
    (p : Member) (n : ℕ) (uid : ℤ) → IsMember p → IsMember (befriended p n uid)
befriended-IsMember p n uid (a, b) = (length-set p.buddy_ids n uid ∙ a, b)

pub if-Replies :
    (w : Roster) (b : Bool) (x y : Answer)
    → Replies w (some x)
    → Replies w (some y)
    → Replies w (some (if b then x else y))
if-Replies w true x y f g = f
if-Replies w false x y f g = g

pub drop_buddy-Replies :
    (w : Roster)
    → IsRoster w
    → (o : ℕ) (other : Member) (uid : ℤ) (found : Option ℕ) → IsMember other
    → Replies w (some (drop_buddy w o other uid found))
unfolding drop_buddy
drop_buddy-Replies w h o other uid none n = keeps w _ h
drop_buddy-Replies w h o other uid (some i) n =
    stored w o (befriended other i (pos 0)) _ h (befriended-IsMember other i (pos 0) n)

pub notify_other-Replies :
    (w : Roster) (own uid : ℤ) → IsRoster w → Replies w (notify_other w own uid)
unfolding notify_other
notify_other-Replies w own uid h =
    when_online-Replies w (find_sock w uid) _ h (find_sock-IsSocket w uid)
      (λ o other n. drop_buddy-Replies w h o other own (first_place_of own other.buddy_ids) n)

-- A handler with the player of a socket.
pub at_socket :
    (w : Roster) (s : ℕ) (k : Member → Option Answer)
    → IsRoster w
    → s < length w
    → ((p : Member) → IsMember p → Replies w (k p))
    → Replies w (get_elem? w s >>= k)
at_socket w s k h l f =
    let (p, e) = some_elem w s l in
    subst (Replies w) (sym (ap (λ (r : Option Member). r >>= k) e)) (f p (member_at w s p h e))

-- A player is stored, and then others are told.
pub stored_after :
    (w : Roster) (s : ℕ) (p : Member) (effects : List BuddyEffect) (o : Option Answer)
    → Replies (set w s p) o
    → Replies w (o >>= λ answer. some (after effects answer))
stored_after w s p effects o (w1, msgs, run, h, l) = (
  w1,
  effects ++ msgs,
  ap (λ (r : Option Answer). r >>= λ answer. some (after effects answer)) run,
  h,
  l ∙ length-set w s p,
)
