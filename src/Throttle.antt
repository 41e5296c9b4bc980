-- ===== src/Throttle.antt =====
-- What slows a client down: the publish rate limiter (publisher_rate_limiter.go), the in-flight byte
-- budget, the back-off of the depth sampler and the sampled log (consumer.go).
--
-- Times and durations are nanoseconds, counted from a start before every clock reading; they are far
-- below the range of int64. A time before that start is never compared with a clock reading as later,
-- so subtraction that stops at 0 gives the comparison of the source.
pub mod Rate
pub mod Bytes
pub mod Delay
pub mod Examples
use warren.Prelude.{
  ℕ, zero, suc, ◌+◌, ◌-◌, ◌*◌, ◌/◌, ◌%◌, ◌^◌, ◌≤◌, ◌<◌, min, max, String, ◌≡◌, refl, sym, ap, subst,
  fun_ext, ◌∙◌, ◌≢◌, ◌↔◌, ◌⊎◌, inl, inr, Bool, true, false, not, ◌&&◌, ◌||◌, Option, none, some,
  List, [], ◌∷◌, ◌++◌, map, arith, ltb, leb, nat_eq, if◌then◌else◌, nat_eq_iff, leb_iff, ltb_iff,
  ltb-false, leb-false, Bool-cases, Option-cases, Eq, ◌==◌, nat_Eq, str_eq, str_eq_iff, string_Eq,
  length, get_elem?, take, drop, replicate, length-append, length-drop, drop_all, In, lookup,
  insert, erase, lookup-insert, lookup-erase, if_both, if_true, if_false, ℕ_discrete,
}

pub record RateLimiter : Type 0 where
  pub interval : ℕ
  pub tau : ℕ
  pub tat : ℕ

abbrev pub second : ℕ
second = 1000000000

-- newRateLimiter: `none` is the nil limiter, for perSec that is not positive.
unfoldable pub new_rate_limiter : ℕ → Option RateLimiter
new_rate_limiter zero = none
new_rate_limiter (suc n) =
    let interval = if nat_eq (second / suc n) 0 then 1 else second / suc n in
    some (record { interval = interval; tau = n * interval; tat = 0 })

-- reserve: the limiter after it and how long the caller waits.
unfoldable pub reserve : RateLimiter → ℕ → RateLimiter × ℕ
reserve rl now =
    let tat = if ltb rl.tat now then now else rl.tat in
    let allow_at = tat - rl.tau in
    (
      record { interval = rl.interval; tau = rl.tau; tat = tat + rl.interval },
      if ltb now allow_at then allow_at - now else 0,
    )

-- wait: whether the call was throttled, for a caller whose context does not end first.
unfoldable pub wait : Option RateLimiter → ℕ → Option RateLimiter × Bool
unfolding reserve
wait none now = (none, false)
wait (some rl) now = (some (reserve rl now).0, ltb 0 (reserve rl now).1)

-- byteLimiter: the budget and what is in flight. `none` is the nil limiter.
pub record ByteLimiter : Type 0 where
  pub limit : ℕ
  pub inflight : ℕ

unfoldable pub new_byte_limiter : ℕ → Option ByteLimiter
new_byte_limiter zero = none
new_byte_limiter (suc n) = some (record { limit = suc n; inflight = 0 })

-- The condition that acquire waits for to end.
unfoldable pub must_wait : ByteLimiter → ℕ → Bool
must_wait bl n = ltb 0 bl.inflight && ltb bl.limit (bl.inflight + n)

-- acquire: `none` while it blocks.
unfoldable pub acquire : ByteLimiter → ℕ → Option ByteLimiter
unfolding must_wait
acquire bl n = if must_wait bl n then none else some (record bl { inflight = bl.inflight + n })

unfoldable pub release : ByteLimiter → ℕ → ByteLimiter
release bl n = record bl { inflight = bl.inflight - n }

abbrev pub max_depth_sample_backoff : ℕ
max_depth_sample_backoff = 30 * second

-- The doubling loop of depthSampleDelay.
unfoldable pub double_until : ℕ → ℕ → ℕ → ℕ
double_until ceiling delay zero = delay
double_until ceiling delay (suc n) =
    if ltb delay ceiling then double_until ceiling (delay * 2) n else delay

unfoldable pub depth_sample_delay : ℕ → ℕ → ℕ
unfolding double_until
depth_sample_delay base zero = base
depth_sample_delay base (suc n) =
    let ceiling = if ltb max_depth_sample_backoff base then base else max_depth_sample_backoff in
    let delay = double_until ceiling base (suc n) in if ltb ceiling delay then ceiling else delay

-- dropSampler.sample: the counter wraps as a uint64 does.
unfoldable pub sample : ℕ → ℕ → ℕ × Bool
sample every n =
    let total = (n + 1) % 2 ^ 64 in
    (total, if leb every 1 then true else nat_eq (((total + 2 ^ 64 - 1) % 2 ^ 64) % every) 0)
