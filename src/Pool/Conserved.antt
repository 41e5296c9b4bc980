-- ===== src/Pool/Conserved.antt =====
-- Tokens, idle entries and entries in use of a pool over any sequence of operations, channelpool.go
-- and publisher.go.
use warren.Prelude.{
  ℕ, ◌+◌, ◌≤◌, ◌≡◌, ◌⊎◌, Bool, true, false, ◌&&◌, some, List, [], ◌∷◌, arith, nat_eq, if◌then◌else◌,
  nat_Eq, string_Eq, length, length-append,
}
use warren.Pool.{
  Pool, Opened, opened, failed, panicked, Acquired, blocked, got, open_failed, open_panicked,
  take_live, get_or_open, publisher_acquire, release, drain, new_pool,
}
use warren.Pool.Walk.{count, count-append, take_live_lem}

-- A pool and the entries that its callers hold.
pub record System : Type 0 where
  pub pool : Pool
  pub held : List ℕ

pub data Event : Type 0 where
  acquires : (ℕ → Bool) → Opened → Event
  releases : (ℕ → Bool) → ℕ → Event
  drains : Event

abbrev pub hold : Acquired → List ℕ → List ℕ
hold blocked held = held
hold (got x) held = x ∷ held
hold (open_failed e) held = held
hold open_panicked held = held

abbrev pub give_back : ℕ → List ℕ → List ℕ
give_back x [] = []
give_back x (y ∷ ys) = if nat_eq x y then ys else y ∷ give_back x ys

-- One operation on the publisher's pool; an entry that is not held is not released.
unfoldable pub step : ℕ → Event → System → System
unfolding publisher_acquire release drain
step size (acquires closed o) s = record {
  pool = (publisher_acquire closed o s.pool).0;
  held = hold (publisher_acquire closed o s.pool).1 s.held;
}
step size (releases closed x) s =
    if nat_eq (count x s.held) 0
    then s
    else record { pool = release size closed x s.pool; held = give_back x s.held }
step size drains s = record { pool = drain s.pool; held = s.held }

unfoldable pub run : ℕ → List Event → System → System
unfolding step
run size [] s = s
run size (e ∷ es) s = run size es (step size e s)

-- What openFn returns is a channel that nobody has yet.
abbrev pub is_fresh : Event → System → Bool
is_fresh (acquires closed (opened x)) s = nat_eq (count x s.pool.free + count x s.held) 0
is_fresh (acquires closed (failed e)) s = true
is_fresh (acquires closed panicked) s = true
is_fresh (releases closed x) s = true
is_fresh drains s = true

abbrev pub all_fresh : ℕ → List Event → System → Bool
all_fresh size [] s = true
all_fresh size (e ∷ es) s = is_fresh e s && all_fresh size es (step size e s)

abbrev pub Sound : ℕ → System → ℕ → Type 0
Sound size s x =
    (s.pool.tokens + length s.held ≡ size)
    × (length s.pool.free + length s.held ≤ size)
    × (count x s.pool.free + count x s.held ≤ 1)

give_back_lem :
    (x y : ℕ) (held : List ℕ)
    → nat_eq (count x held) 0 ≡ false
    → (count y (give_back x held) + (if nat_eq y x then 1 else 0) ≡ count y held)
      × (1 + length (give_back x held) ≡ length held)
give_back_lem x y [] h = ground arith
give_back_lem x y (z ∷ zs) h = ground (arith, give_back_lem x y zs)

acquires-Sound :
    (size : ℕ) (closed : ℕ → Bool) (o : Opened) (s : System) (x : ℕ)
    → is_fresh (acquires closed o) s ≡ true
    → Sound size s x
    → Sound size (step size (acquires closed o) s) x
unfolding step publisher_acquire get_or_open
acquires-Sound size closed (opened y) s x fresh h =
    ground (arith, take_live_lem closed s.pool.free x)
acquires-Sound size closed (failed e) s x fresh h =
    ground (arith, take_live_lem closed s.pool.free x)
acquires-Sound size closed panicked s x fresh h = ground (arith, take_live_lem closed s.pool.free x)

step-Sound :
    (size : ℕ) (e : Event) (s : System) (x : ℕ)
    → is_fresh e s ≡ true
    → Sound size s x
    → Sound size (step size e s) x
unfolding step release drain
step-Sound size (acquires closed o) s x fresh h = acquires-Sound size closed o s x fresh h
step-Sound size (releases closed y) s x fresh h = ground (
  arith,
  give_back_lem y x s.held,
  count-append x s.pool.free (y ∷ []),
  length-append s.pool.free (y ∷ []),
)
step-Sound size drains s x fresh h = ground arith

abbrev pub start : ℕ → System
start size = record { pool = new_pool size; held = [] }

run_from :
    (size : ℕ) (es : List Event) (s : System) (x : ℕ)
    → all_fresh size es s ≡ true
    → Sound size s x
    → Sound size (run size es s) x
unfolding run
run_from size [] s x fresh h = h
run_from size (e ∷ es) s x fresh h =
    run_from size es (step size e s) x (ground arith) (step-Sound size e s x (ground arith) h)

-- However acquires, failing and panicking openFn's, releases and reconnect drains interleave, the
-- publisher's pool never loses or invents a token, never holds more entries than its size, so that
-- the idle list cannot overflow, and no channel is held by two callers or idle while it is held,
-- given that openFn returns new channels.
pub run-Sound :
    (size : ℕ) (es : List Event) (x : ℕ)
    → all_fresh size es (start size) ≡ true
    → Sound size (run size es (start size)) x
unfolding new_pool
run-Sound size es x fresh =
    run_from size es (start size) x fresh (omega arith, omega arith, omega arith)

abbrev pub lost : Acquired → ℕ
lost blocked = 0
lost (got x) = 0
lost (open_failed e) = 0
lost open_panicked = 1

live_lem :
    (closed : ℕ → Bool) (free : List ℕ) (x : ℕ)
    → (take_live closed free).live ≡ some x
    → closed x ≡ false
live_lem closed free x h = ground (arith, take_live_lem closed free x)

-- An entry that Acquire hands out was not closed by the broker when it was taken, or it is the one
-- that openFn has just opened, and then no idle entry is left.
pub acquire-live :
    (closed : ℕ → Bool) (o : Opened) (p : Pool) (x : ℕ)
    → (publisher_acquire closed o p).1 ≡ got x
    → (closed x ≡ false) ⊎ ((o ≡ opened x) × ((publisher_acquire closed o p).0.free ≡ []))
unfolding publisher_acquire get_or_open
acquire-live closed o p x h = ground (arith, live_lem closed p.free, take_live_lem closed p.free x)
