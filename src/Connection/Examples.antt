-- ===== src/Connection/Examples.antt =====
-- The theorems about connections at concrete inputs.
use warren.Prelude.{
  bytes_Eq, pos, ℕ, zero, suc, ◌<◌, String, ◌≡◌, refl, ◌⊎◌, inl, inr, Bool, true, false, not,
  Option, none, some, List, [], ◌∷◌, map, arith, nat_eq, nat_Eq, string_Eq,
}
use warren.Errors.{Err, sentinel, wrap_one, reconnecting, foreign}
use warren.Connection.Redial.{
  Attempt, Ends, run, run-limited, connected, fired, run-connects, goes_on,
}
use warren.Connection.Supervisor.{
  Round, hooks_done, capped, blocking, is_settled, start, supervise, is_present,
}
use warren.Connection.Barrier.{
  Look, wait_barrier, waiting, refused, any_free, wait_loop, wait_barrier-capped,
  wait_barrier-unanchored, wait_barrier-passed,
}
use warren.Connection.Options.{first_link, count_connected, open_pool}
use warren.Connection.Checked.{open_pool-settled}

abbrev refused_once : ℕ → Attempt
refused_once zero = record {
  error = some (foreign 3);
  context_done = false;
  ends_in_backoff = false;
}
refused_once (suc k) = record { error = none; context_done = false; ends_in_backoff = false }

run-limited_example : Ends 3 (run (pos 3) refused_once 3 0)
run-limited_example = run-limited refused_once 2

first_fails : (j : ℕ) → j < 1 → goes_on (refused_once j) ≡ true
first_fails zero lt = refl
first_fails (suc j) lt = absurd (omega (arith, lt))

run-connects_example :
    (run (pos 0) refused_once 2 0 ≡ connected 2)
    × (fired {A = ℕ} (7 ∷ []) (run (pos 0) refused_once 2 0) ≡ 7 ∷ [])
run-connects_example = run-connects (7 ∷ []) (pos 0) refused_once 1 refl first_fails refl

abbrev look : Bool → Bool → ℕ → Look
look barrier blocked now = record {
  is_reconnecting = barrier;
  is_blocked = blocked;
  now = now;
  context_error = none;
}

wait_barrier-capped_example :
    (wait_barrier 30 none (look true false 5) (look true false 20 ∷ []) ≡ waiting)
    × (wait_barrier 30 none (look true false 5) (look true false 20 ∷ look true false 35 ∷ [])
        ≡ refused (wrap_one (sentinel reconnecting)))
wait_barrier-capped_example =
    wait_barrier-capped 30 none (look true false 5) (look true false 35) (look true false 20 ∷ [])
      refl refl refl (omega arith)

-- One second after a cap of thirty has begun at the earliest.
wait_barrier-unanchored_example :
    wait_barrier 30 none (look false true 5) (look true false 6 ∷ [])
    ≡ refused (wrap_one (sentinel reconnecting))
wait_barrier-unanchored_example =
    wait_barrier-unanchored 30 none (look false true 5) (look true false 6) [] refl refl refl refl

abbrev broken : Option Err
broken = some (foreign 4)

wait_barrier-passed_example :
    (broken ≡ broken) × (any_free (look true false 5 ∷ look false false 9 ∷ []) ≡ true)
unfolding wait_barrier wait_loop
wait_barrier-passed_example =
    wait_barrier-passed 30 broken broken (look true false 5) (look false false 9 ∷ []) refl

abbrev nodes : List String
nodes = "a" ∷ "b" ∷ "c" ∷ []

-- The second socket connects; the first is dialled, capped and dialled again.
abbrev connects : List (Err ⊎ ℕ)
connects = inl (foreign 3) ∷ inr 8 ∷ []

abbrev rounds : List Round
rounds =
    record { context_done = false; dialled = some 9; barrier = capped }
    ∷ record { context_done = false; dialled = some 10; barrier = hooks_done none }
    ∷ []

open_pool-settled_example :
    (nat_eq (count_connected connects) 0 ≡ false)
    × (true ≡ not (is_present none))
    × (is_settled
          (supervise true (start true (first_link (inl (foreign 3))) rounds) (blocking true ∷ []))
        ≡ true)
unfolding open_pool
open_pool-settled_example =
    open_pool-settled connects (map first_link connects) 0 (first_link (inl (foreign 3))) rounds
      (blocking true ∷ []) refl refl
