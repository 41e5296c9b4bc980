-- ===== src/Pool/Examples.antt =====
-- The theorems about pools at concrete inputs.
use warren.Prelude.{ℕ, refl, Bool, false, List, [], ◌∷◌, nat_eq, nat_Eq, string_Eq}
use warren.Pool.{new_pool, Pool, opened, panicked}
use warren.Pool.Conserved.{step, Event, acquires, releases, drains, run, run-Sound, Sound, start}

-- The broker has closed channel 4.
abbrev four : ℕ → Bool
four x = nat_eq x 4

abbrev events : List Event
events =
    acquires four (opened 3)
    ∷ acquires four (opened 4)
    ∷ releases (λ _. false) 4
    ∷ acquires four (opened 5)
    ∷ acquires four panicked
    ∷ releases four 3
    ∷ drains
    ∷ []

run-Sound_example : Sound 2 (run 2 events (start 2)) 3
unfolding new_pool step
run-Sound_example = run-Sound 2 events 3 refl

abbrev pool : Pool
pool = record { tokens = 1; free = 4 ∷ 6 ∷ []; discarded = [] }
