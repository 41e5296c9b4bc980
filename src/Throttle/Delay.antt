-- ===== src/Throttle/Delay.antt =====
-- The back-off of the depth sampler, consumer.go: depthSampleDelay.
use warren.Prelude.{ℕ, zero, suc, ◌*◌, ◌≤◌, max, arith, nat_Eq, string_Eq}
use warren.Throttle.{max_depth_sample_backoff, double_until, depth_sample_delay}

double_until_above : (ceiling delay n : ℕ) → delay ≤ double_until ceiling delay n
unfolding double_until
double_until_above ceiling delay zero = omega arith
double_until_above ceiling delay (suc n) = ground (arith, double_until_above ceiling (delay * 2) n)

double_until_mono :
    (ceiling delay n : ℕ) → double_until ceiling delay n ≤ double_until ceiling delay (suc n)
unfolding double_until
double_until_mono ceiling delay zero = ground arith
double_until_mono ceiling delay (suc n) = ground (arith, double_until_mono ceiling (delay * 2) n)

-- The delay is never below the configured interval nor above the larger of it and the cap, and does
-- not shrink as failures go on.
pub depth_sample_delay-bounds :
    (base failures : ℕ)
    → (base ≤ depth_sample_delay base failures)
      × (depth_sample_delay base failures ≤ max base max_depth_sample_backoff)
      × (depth_sample_delay base failures ≤ depth_sample_delay base (suc failures))
unfolding depth_sample_delay
depth_sample_delay-bounds base zero = ground arith
depth_sample_delay-bounds base (suc n) = ground (
  arith,
  double_until_above (max base max_depth_sample_backoff) base (suc n),
  double_until_mono (max base max_depth_sample_backoff) base (suc n),
)
