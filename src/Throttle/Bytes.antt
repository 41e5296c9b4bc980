-- ===== src/Throttle/Bytes.antt =====
-- The bytes in flight of the concurrent handlers, consumer.go: byteLimiter.
use warren.Prelude.{
  ℕ, zero, suc, ◌+◌, ◌≤◌, max, ◌≡◌, none, some, List, [], ◌∷◌, arith, nat_Eq, string_Eq,
}
use warren.Throttle.{ByteLimiter, must_wait, acquire, release}

-- The limiter and the sizes that the running handlers hold.
pub record System : Type 0 where
  pub limiter : ByteLimiter
  pub held : List ℕ

pub data Event : Type 0 where
  acquires : ℕ → Event
  releases : ℕ → Event

abbrev pub total : List ℕ → ℕ
total [] = 0
total (n ∷ ns) = n + total ns

abbrev pub largest : List ℕ → ℕ
largest [] = 0
largest (n ∷ ns) = max n (largest ns)

-- The handler at a position is done.
abbrev pub without : ℕ → List ℕ → List ℕ
without i [] = []
without zero (n ∷ ns) = ns
without (suc i) (n ∷ ns) = n ∷ without i ns

abbrev pub size_at : ℕ → List ℕ → ℕ
size_at i [] = 0
size_at zero (n ∷ ns) = n
size_at (suc i) (n ∷ ns) = size_at i ns

-- A delivery that must wait changes nothing yet.
unfoldable pub step : Event → System → System
unfolding acquire release
step (acquires n) s = elim (acquire s.limiter n) [
  | none ↦ s
  | some bl ↦ record { limiter = bl; held = n ∷ s.held }
]
step (releases i) s = record {
  limiter = release s.limiter (size_at i s.held);
  held = without i s.held;
}

unfoldable pub run : List Event → System → System
unfolding step
run [] s = s
run (e ∷ es) s = run es (step e s)

abbrev pub Within : ℕ → System → Type 0
Within limit s =
    (s.limiter.limit ≡ limit)
    × (s.limiter.inflight ≡ total s.held)
    × (total s.held ≤ max limit (largest s.held))

without_lem :
    (i : ℕ) (ns : List ℕ)
    → (total (without i ns) + size_at i ns ≡ total ns)
      × (largest (without i ns) ≤ largest ns)
      × (largest ns ≤ max (size_at i ns) (largest (without i ns)))
without_lem i [] = ground arith
without_lem zero (n ∷ ns) = ground arith
without_lem (suc i) (n ∷ ns) = ground (arith, without_lem i ns)

step-Within : (limit : ℕ) (e : Event) (s : System) → Within limit s → Within limit (step e s)
unfolding step acquire must_wait release
step-Within limit (acquires n) s h = ground arith
step-Within limit (releases i) s h = ground (arith, without_lem i s.held)

-- Under any interleaving the bytes in flight are those that the running handlers hold, and they
-- stay within the budget or are those of one oversized delivery.
pub run-Within :
    (limit : ℕ) (es : List Event) (s : System) → Within limit s → Within limit (run es s)
unfolding run
run-Within limit [] s h = h
run-Within limit (e ∷ es) s h = run-Within limit es (step e s) (step-Within limit e s h)

-- When every handler is done, a delivery of any size gets its bytes: no oversized one waits for ever.
pub acquire-progress :
    (limit n : ℕ) (s : System)
    → Within limit s
    → total s.held ≡ 0
    → acquire s.limiter n ≡ some (record { limit = limit; inflight = n })
unfolding acquire must_wait
acquire-progress limit n s h idle = ground arith
