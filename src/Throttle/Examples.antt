-- ===== src/Throttle/Examples.antt =====
-- The theorems about the limiters at concrete inputs.
use warren.Prelude.{◌+◌, ◌*◌, ◌≤◌, refl, [], ◌∷◌, arith, nat_Eq, string_Eq}
use warren.Throttle.{RateLimiter}
use warren.Throttle.Rate.{grant, after, grant-spaced}
use warren.Throttle.Bytes.{System, acquires, releases, run, Within, run-Within}

abbrev two_per_second : RateLimiter
two_per_second = record { interval = 500000000; tau = 500000000; tat = 0 }

grant-spaced_example :
    grant two_per_second 5 + 2 * 500000000 ≤ grant (after two_per_second (5 ∷ 6 ∷ [])) 7 + 500000000
grant-spaced_example = grant-spaced two_per_second 5 7 (6 ∷ [])

abbrev idle : System
idle = record { limiter = record { limit = 10; inflight = 0 }; held = [] }

run-Within_example : Within 10 (run (acquires 50 ∷ acquires 5 ∷ releases 0 ∷ acquires 5 ∷ []) idle)
run-Within_example =
    run-Within 10 (acquires 50 ∷ acquires 5 ∷ releases 0 ∷ acquires 5 ∷ []) idle
      (refl, refl, omega arith)
