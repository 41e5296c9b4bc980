-- ===== src/Lifecycle/Pace.antt =====
-- The pace of the recovery, consumer.go.
use warren.Prelude.{
  bytes_Eq, ℕ, suc, ◌+◌, ◌*◌, ◌^◌, ◌≤◌, min, ◌≡◌, Bool, true, false, ◌&&◌, Option, none, some, List,
  [], ◌∷◌, ltb, nat_eq, if◌then◌else◌, nat_Eq, string_Eq,
}
use warren.Lifecycle.{Consumer}
use warren.Lifecycle.Recovery.{Pick, Round, Recovery}

-- The waits of the loop from the k-th on: 50 ms doubled each time, up to 2 s.
unfoldable pub is_schedule : ℕ → List ℕ → Bool
is_schedule k [] = true
is_schedule k (w ∷ ws) = nat_eq w (min (50 * 2 ^ k) 2000) && is_schedule (suc k) ws

unfoldable pub is_paced : Option Pick → List ℕ → Bool
unfolding is_schedule
is_paced none ws = is_schedule 0 ws
is_paced (some p) [] = true
is_paced (some p) (w ∷ ws) = nat_eq w 50 && is_schedule 0 ws

unfoldable pub reopenings : List Round → ℕ
reopenings [] = 0
reopenings (r ∷ rs) =
    let rest = reopenings rs in
    if r.is_paused then rest else if r.is_reconnecting then rest else 1 + rest

-- The recovery, whatever its selects and the broker answer.
pub record Paced (flap : Option Pick) (rs : List Round) (c : Consumer) (r : Recovery) : Type 0 where
  pub schedule : is_paced flap r.waits ≡ true
  pub asked_rarely : r.opens ≤ reopenings rs
  pub parked : (c.paused && ltb 0 r.opens) ≡ false
