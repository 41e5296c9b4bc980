-- ===== src/Throttle/Rate.antt =====
-- The grants of the rate limiter, publisher_rate_limiter.go.
use warren.Prelude.{
  ℕ, zero, suc, ◌+◌, ◌-◌, ◌*◌, ◌≤◌, ◌≡◌, refl, sym, subst, ◌∙◌, some, List, [], ◌∷◌, arith, ltb,
  if◌then◌else◌, nat_Eq, string_Eq, length, if_false,
}
use native.Mathlib.Nat.{mul-le-mul_right}
use warren.Throttle.{RateLimiter, new_rate_limiter, reserve}

-- The limiter after calls at the given times.
unfoldable pub after : RateLimiter → List ℕ → RateLimiter
after rl [] = rl
after rl (now ∷ nows) = after (reserve rl now).0 nows

-- When a call at a time is let through.
abbrev pub grant : RateLimiter → ℕ → ℕ
grant rl now = now + (reserve rl now).1

reserve_lem :
    (rl : RateLimiter) (now : ℕ)
    → ((reserve rl now).0.interval ≡ rl.interval)
      × ((reserve rl now).0.tau ≡ rl.tau)
      × (rl.tat + rl.interval ≤ (reserve rl now).0.tat)
      × (grant rl now + rl.interval ≤ (reserve rl now).0.tat)
      × (rl.tat ≤ grant rl now + rl.tau)
unfolding reserve
reserve_lem rl now = ground arith

same_interval :
    (rl : RateLimiter) (now : ℕ) (nows : List ℕ)
    → (reserve rl now).0.tat + length nows * (reserve rl now).0.interval
      ≤ (after (reserve rl now).0 nows).tat
    → (reserve rl now).0.tat + length nows * rl.interval ≤ (after (reserve rl now).0 nows).tat
same_interval rl now nows h =
    subst (λ i. (reserve rl now).0.tat + length nows * i ≤ (after (reserve rl now).0 nows).tat)
      (reserve_lem rl now).0 h

after_lem :
    (rl : RateLimiter) (nows : List ℕ)
    → ((after rl nows).interval ≡ rl.interval)
      × ((after rl nows).tau ≡ rl.tau)
      × (rl.tat + length nows * rl.interval ≤ (after rl nows).tat)
unfolding after
after_lem rl [] = (refl, refl, omega arith)
after_lem rl (now ∷ nows) =
    let l = reserve_lem rl now in
    let h = after_lem (reserve rl now).0 nows in
    (h.0 ∙ l.0, h.1 ∙ l.1, omega (arith, l.2, same_interval rl now nows h.2))

-- However calls are spaced, two grants with n calls in between are at least n + 1 emission intervals
-- apart, less the burst tolerance: no window of time holds more grants than the rate and one burst.
pub grant-spaced :
    (rl : RateLimiter) (first last : ℕ) (between : List ℕ)
    → grant rl first + (length between + 1) * rl.interval
      ≤ grant (after rl (first ∷ between)) last + rl.tau
unfolding after
grant-spaced rl first last between =
    let l = reserve_lem rl first in
    let h = after_lem (reserve rl first).0 between in
    let u = after (reserve rl first).0 between in
    let m = reserve_lem u last in
    omega (arith, l.3, m.4, h.1, l.1, same_interval rl first between h.2)

-- The calls of an idle limiter at one instant: which of them wait.
unfoldable pub burst : RateLimiter → ℕ → ℕ → ℕ
unfolding reserve
burst rl now zero = (reserve rl now).1
burst rl now (suc n) = burst (reserve rl now).0 now n

abbrev pub limiter : ℕ → ℕ → ℕ → RateLimiter
limiter i b t = record { interval = i; tau = b; tat = t }

busy_burst : (i b t now n : ℕ) → now ≤ t → burst (limiter i b t) now n ≡ (t + n * i - b) - now
unfolding burst reserve
busy_burst i b t now zero h = ground arith
busy_burst i b t now (suc n) h =
    subst (λ u. burst (limiter i b (u + i)) now n ≡ (t + suc n * i - b) - now)
      (sym (if_false (ltb t now) now t (ground arith)))
      (busy_burst i b (t + i) now n (omega arith) ∙ omega arith)

the_later : (t now : ℕ) → t ≤ now → (if ltb t now then now else t) ≡ now
the_later t now h = ground arith

tau_of : (k : ℕ) (rl : RateLimiter) → new_rate_limiter (suc k) ≡ some rl → rl.tau ≡ k * rl.interval
unfolding new_rate_limiter
tau_of k rl h = ground arith

idle_burst : (i b t now n : ℕ) → t ≤ now → burst (limiter i b t) now n ≡ n * i - b
unfolding burst reserve
idle_burst i b t now zero h = ground arith
idle_burst i b t now (suc n) h =
    subst (λ u. burst (limiter i b (u + i)) now n ≡ suc n * i - b) (sym (the_later t now h))
      (busy_burst i b (now + i) now n (omega arith) ∙ omega arith)

-- A limiter of k + 1 per second that has been idle lets a burst of k + 1 calls through at once, and
-- holds the next one back for one emission interval.
pub new_rate_limiter-burst :
    (k t now n : ℕ) (rl : RateLimiter)
    → new_rate_limiter (suc k) ≡ some rl
    → t ≤ now
    → n ≤ k
    → (burst (limiter rl.interval rl.tau t) now n ≡ 0)
      × (burst (limiter rl.interval rl.tau t) now (suc k) ≡ rl.interval)
unfolding new_rate_limiter
new_rate_limiter-burst k t now n rl made idle few =
    let b = tau_of k rl made in
    (
      idle_burst rl.interval rl.tau t now n idle
          ∙ omega (arith, b, mul-le-mul_right rl.interval few),
      idle_burst rl.interval rl.tau t now (suc k) idle ∙ omega (arith, b),
    )
