-- ===== src/Logins.antt =====
-- core/CNShared.cpp: the login server leaves the data of a login under a serial key, the shard server
-- takes it, and what no one takes is pruned. The map is a list of its entries in the order of the
-- iteration, with one entry to a key; the mutex makes every call one step. Times are milliseconds.
pub mod Refinement
mod Tests
use open_fusion.Common.{
  ℕ, ◌+◌, Bool, true, false, Option, none, some, List, [], ◌∷◌, ltb, if◌then◌else◌,
}
use open_fusion.Common.Int.{ℤ, eqb_ℤ}

-- LoginMetadata
pub record LoginMetadata : Type 0 where
  pub fe_key : ℕ
  pub player_id : ℤ
  pub timestamp : ℕ

-- `logins`
abbrev pub Logins : Type 0
Logins = List (ℤ × LoginMetadata)

-- CNSHARED_TIMEOUT
abbrev pub shared_timeout : ℕ
shared_timeout = 300000

-- logins.find
unfoldable pub find_login : Logins → ℤ → Option LoginMetadata
find_login [] sk = none
find_login ((key, lm) ∷ logins) sk =
    let rest = find_login logins sk in if eqb_ℤ key sk then some lm else rest

-- storeLoginMetadata
unfoldable pub store_login : Logins → ℤ → LoginMetadata → Logins
store_login [] sk lm = (sk, lm) ∷ []
store_login ((key, old) ∷ logins) sk lm =
    let rest = store_login logins sk lm in
    if eqb_ℤ key sk then (key, lm) ∷ logins else (key, old) ∷ rest

-- logins.erase
unfoldable pub erase_login : Logins → ℤ → Logins
erase_login [] sk = []
erase_login ((key, lm) ∷ logins) sk =
    let rest = erase_login logins sk in if eqb_ℤ key sk then logins else (key, lm) ∷ rest

-- getLoginMetadata
unfoldable pub get_login : Logins → ℤ → Logins × Option LoginMetadata
unfolding find_login erase_login
get_login logins sk = elim (find_login logins sk) [
  | none ↦ (logins, none)
  | some lm ↦ (erase_login logins sk, some lm)
]

-- The test of pruneLoginMetadata.
abbrev pub is_hung : ℕ → LoginMetadata → Bool
is_hung now lm = ltb (lm.timestamp + shared_timeout) now

-- pruneLoginMetadata
unfoldable pub prune_logins : Logins → ℕ → Logins
prune_logins [] now = []
prune_logins ((key, lm) ∷ logins) now =
    let rest = prune_logins logins now in if is_hung now lm then rest else (key, lm) ∷ rest

-- A call of one of the three functions.
pub data LoginCall : Type 0 where
  store_call : ℤ → LoginMetadata → LoginCall
  get_call : ℤ → LoginCall
  prune_call : ℕ → LoginCall

-- The state and the reply after a call.
unfoldable pub run_call : Logins → LoginCall → Logins × Option LoginMetadata
unfolding store_login get_login prune_logins
run_call logins (store_call sk lm) = (store_login logins sk lm, none)
run_call logins (get_call sk) = get_login logins sk
run_call logins (prune_call now) = (prune_logins logins now, none)

-- The replies to a sequence of calls.
unfoldable pub run_calls : Logins → List LoginCall → List (Option LoginMetadata)
unfolding run_call
run_calls logins [] = []
run_calls logins (call ∷ calls) =
    let after = run_call logins call in after.1 ∷ run_calls after.0 calls
