-- ===== src/Logins/Tests.antt =====
-- A run of the calls on logins.
use open_fusion.Common.{◌≡◌, refl, none, some, List, [], ◌∷◌}
use open_fusion.Common.Int.{pos}
use open_fusion.Logins.{
  LoginMetadata, LoginCall, store_call, get_call, prune_call, find_login, store_login, erase_login,
  get_login, prune_logins, run_call, run_calls,
}
use open_fusion.Logins.Refinement.{map_calls, run_calls_lem}

abbrev login : LoginMetadata
login = record { fe_key = 99; player_id = pos 4; timestamp = 1000 }

-- The second get finds nothing; what is left for too long is pruned.
abbrev calls : List LoginCall
calls =
    store_call (pos 7) login
    ∷ get_call (pos 7)
    ∷ get_call (pos 7)
    ∷ store_call (pos 8) login
    ∷ prune_call 301000
    ∷ get_call (pos 8)
    ∷ store_call (pos 8) login
    ∷ prune_call 301001
    ∷ get_call (pos 8)
    ∷ []

run_of_calls :
    run_calls [] calls
    ≡ none ∷ some login ∷ none ∷ none ∷ none ∷ some login ∷ none ∷ none ∷ none ∷ []
unfolding run_calls run_call find_login store_login erase_login get_login prune_logins
run_of_calls = refl

run_calls_lem_example : run_calls [] calls ≡ map_calls (λ key. none) calls
run_calls_lem_example = run_calls_lem calls
