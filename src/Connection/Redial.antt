-- ===== src/Connection/Redial.antt =====
-- The loop that connects with back-off, internal/reconnect/loop.go, and RetryPolicy.NextBackoff of
-- retry.go.
--
-- Each attempt has its answer: the error of connect, whether the context is done after it, and whether
-- it ends during the back-off. The loop runs on fuel, one unit for each attempt. The float arithmetic of
-- NextBackoff is a parameter: `power` is float64(lo) * Pow(factor, n-1), `portion` what a random portion of
-- a delay is, and both are whole nanoseconds or infinite, which is `none`.
use warren.Prelude.{
  nat_eq, if_true, if_false, bytes_Eq, ℤ, pos, negsuc, ℕ, zero, suc, ◌+◌, ◌*◌, ◌/◌, ◌≤◌, ◌<◌, min,
  max, ◌≡◌, refl, ap, subst, ◌∙◌, Bool, true, false, not, ◌&&◌, ◌||◌, Option, none, some, List, [],
  arith, ltb, leb, if◌then◌else◌, nat_Eq, string_Eq,
}
use warren.Errors.{Err}

pub record Attempt : Type 0 where
  pub error : Option Err
  pub context_done : Bool
  pub ends_in_backoff : Bool

-- How the loop ends: with a call of the callbacks or without, after a number of attempts.
pub data Ended : Type 0 where
  out_of_fuel : Ended
  connected : ℕ → Ended
  gave_up : ℕ → Ended

abbrev pub at_limit : ℤ → ℕ → Bool
at_limit (pos n) attempt = ltb 0 n && leb n attempt
at_limit (negsuc n) attempt = false

abbrev pub is_some : Option Err → Bool
is_some none = false
is_some (some e) = true

abbrev pub after_error : ℤ → ℕ → Bool → Ended → Ended
after_error max_retries k ends_in_backoff rest =
    if at_limit max_retries (suc k) || ends_in_backoff then gave_up (suc k) else rest

abbrev pub after_connect : ℤ → ℕ → Attempt → Option Err → Ended → Ended
after_connect max_retries k a none rest = connected (suc k)
after_connect max_retries k a (some e) rest = after_error max_retries k a.ends_in_backoff rest

unfoldable pub run : ℤ → (ℕ → Attempt) → ℕ → ℕ → Ended
run max_retries attempts zero k = out_of_fuel
run max_retries attempts (suc fuel) k =
    let rest = run max_retries attempts fuel (suc k) in
    if (attempts k).context_done
    then gave_up (suc k)
    else after_connect max_retries k (attempts k) (attempts k).error rest

-- fireCallbacks: each registered callback once, in order, if the loop has connected.
abbrev pub fired : {A : Type 0} → List A → Ended → List A
fired callbacks out_of_fuel = []
fired callbacks (connected n) = callbacks
fired callbacks (gave_up n) = []

pub data Jitter : Type 0 where
  full equal_part unjittered : Jitter

pub record RetryPolicy : Type 0 where
  pub min_delay : ℤ
  pub max_delay : ℤ
  pub jitter : Jitter

abbrev pub second : ℕ
second = 1000000000

abbrev pub or_default : ℤ → ℕ → ℕ
or_default (pos zero) d = d
or_default (pos (suc n)) d = suc n
or_default (negsuc n) d = d

abbrev pub floor_delay : RetryPolicy → ℕ
floor_delay p = or_default p.min_delay second

-- Max, which is raised to the floor.
abbrev pub ceiling_delay : RetryPolicy → ℕ
ceiling_delay p = max (or_default p.max_delay (30 * second)) (floor_delay p)

abbrev pub capped : Option ℕ → ℕ → ℕ
capped none hi = hi
capped (some n) hi = min n hi

unfoldable pub next_backoff : (ℕ → Option ℕ) → (ℕ → ℕ) → RetryPolicy → ℕ → ℕ
next_backoff power portion p n =
    let lo = floor_delay p in
    let hi = ceiling_delay p in
    let exp = capped (power n) hi in
    let d = elim p.jitter as (λ j. ℕ) [
      | unjittered ↦ exp
      | equal_part ↦ exp / 2 + portion (exp / 2)
      | full ↦ portion exp
    ] in
    max lo (min d hi)

-- Enough fuel for a positive limit is one unit for each attempt that it allows: the loop then ends, after
-- no more attempts than that, and the callbacks run exactly if its last attempt connected.
abbrev pub Ends : ℕ → Ended → Type 0
Ends bound out_of_fuel = ⊥
Ends bound (connected n) = n ≤ bound
Ends bound (gave_up n) = n ≤ bound

Ends-if :
    (bound : ℕ) (b : Bool) (x y : Ended)
    → Ends bound x
    → (b ≡ false → Ends bound y)
    → Ends bound (if b then x else y)
Ends-if bound true x y ex ey = ex
Ends-if bound false x y ex ey = ey refl

after_connect-Ends :
    (n k : ℕ) (a : Attempt) (e : Option Err) (rest : Ended)
    → k ≤ n
    → (k < n → Ends (suc n) rest)
    → Ends (suc n) (after_connect (pos (suc n)) k a e rest)
after_connect-Ends n k a none rest le more = omega arith
after_connect-Ends n k a (some e) rest le more =
    Ends-if (suc n) (at_limit (pos (suc n)) (suc k) || a.ends_in_backoff) (gave_up (suc k)) rest
      (omega arith) (λ on. more (ground arith))

run-Ends :
    (attempts : ℕ → Attempt) (n fuel k : ℕ)
    → k + fuel ≡ n
    → Ends (suc n) (run (pos (suc n)) attempts (suc fuel) k)
unfolding run
run-Ends attempts n zero k e =
    Ends-if (suc n) (attempts k).context_done (gave_up (suc k)) _ (omega arith) (λ on.
      after_connect-Ends n k (attempts k) (attempts k).error out_of_fuel (omega arith)
        (λ lt. absurd (omega arith)))
run-Ends attempts n (suc fuel) k e =
    Ends-if (suc n) (attempts k).context_done (gave_up (suc k)) _ (omega arith) (λ on.
      after_connect-Ends n k (attempts k) (attempts k).error _ (omega arith)
        (λ lt. run-Ends attempts n fuel (suc k) (omega arith)))

-- With a positive limit the loop ends, whatever the attempts come to: as much fuel as attempts are
-- allowed is enough, and no more attempts are made.
pub run-limited :
    (attempts : ℕ → Attempt) (n : ℕ) → Ends (suc n) (run (pos (suc n)) attempts (suc n) 0)
run-limited attempts n = run-Ends attempts n n 0 (omega arith)

-- An attempt that fails and leaves the loop running.
abbrev pub goes_on : Attempt → Bool
goes_on a = is_some a.error && not a.context_done && not a.ends_in_backoff

-- An attempt that connects before the context is done.
abbrev pub connects : Attempt → Bool
connects a = not (is_some a.error) && not a.context_done

abbrev pub is_unlimited : ℤ → Bool
is_unlimited (pos n) = nat_eq n 0
is_unlimited (negsuc n) = true

no_limit : (limit : ℤ) (k : ℕ) → is_unlimited limit ≡ true → at_limit limit k ≡ false
no_limit (pos n) k free = ground arith
no_limit (negsuc n) k free = refl

after_no_limit :
    (limit : ℤ) (a : Attempt) (k : ℕ) (e : Option Err) (rest : Ended)
    → at_limit limit (suc k) ≡ false
    → (if a.context_done then gave_up (suc k) else after_connect limit k a e rest) ≡ (
        if is_some e && not a.context_done && not a.ends_in_backoff
        then rest
        else if not (is_some e) && not a.context_done
        then connected (suc k)
        else gave_up (suc k))
after_no_limit limit a k none rest free = ground arith
after_no_limit limit a k (some e) rest free = ground arith

ends_at :
    (limit : ℤ) (attempts : ℕ → Attempt) (fuel k m : ℕ)
    → is_unlimited limit ≡ true
    → ((j : ℕ) → j < k + m → goes_on (attempts j) ≡ true)
    → goes_on (attempts (k + m)) ≡ false
    → m < fuel
    → run limit attempts fuel k
      ≡ (if connects (attempts (k + m)) then connected (k + m + 1) else gave_up (k + m + 1))
unfolding run
ends_at limit attempts zero k m free failing stop lt = absurd (omega (arith, lt))
ends_at limit attempts (suc fuel) k zero free failing stop lt =
    let here : goes_on (attempts k) ≡ false =
      subst (λ j. goes_on (attempts j) ≡ false) (omega arith) stop in
    after_no_limit limit (attempts k) k (attempts k).error (run limit attempts fuel (suc k))
      (no_limit limit (suc k) free)
    ∙ if_false (goes_on (attempts k)) _ _ here
    ∙ ap (λ j. if connects (attempts j) then connected (suc j) else gave_up (suc j)) {x = k}
        {y = k + 0} (omega arith)
    ∙ ap (λ j. if connects (attempts (k + 0)) then connected j else gave_up j) (omega arith)
ends_at limit attempts (suc fuel) k (suc m) free failing stop lt =
    after_no_limit limit (attempts k) k (attempts k).error (run limit attempts fuel (suc k))
      (no_limit limit (suc k) free)
    ∙ if_true (goes_on (attempts k)) _ _ (failing k (omega arith))
    ∙ ends_at limit attempts fuel (suc k) m free (λ j lj. failing j (omega arith))
        (subst (λ j. goes_on (attempts j) ≡ false) (omega arith) stop) (omega arith)
    ∙ ap (λ j. if connects (attempts j) then connected (j + 1) else gave_up (j + 1)) {x = suc k + m}
        {y = k + suc m} (omega arith)

fired_if :
    {A : Type 0} (callbacks : List A) (b : Bool) (n : ℕ)
    → fired callbacks (if b then connected n else gave_up n) ≡ (if b then callbacks else [])
fired_if callbacks true n = refl
fired_if callbacks false n = refl

-- Without a limit, which is zero or negative, the loop ends at the first attempt that connects, or after
-- which the context is done or ends the back-off, and fuel for the attempts up to it is enough. The
-- callbacks run, once each and in order, exactly if that attempt connects before the context is done.
pub run-connects :
    {A : Type 0} (callbacks : List A) (limit : ℤ) (attempts : ℕ → Attempt) (m : ℕ)
    → is_unlimited limit ≡ true
    → ((j : ℕ) → j < m → goes_on (attempts j) ≡ true)
    → goes_on (attempts m) ≡ false
    → (run limit attempts (suc m) 0
        ≡ (if connects (attempts m) then connected (suc m) else gave_up (suc m)))
      × (fired callbacks (run limit attempts (suc m) 0)
          ≡ (if connects (attempts m) then callbacks else []))
run-connects callbacks limit attempts m free failing stop =
    let ended : run limit attempts (suc m) 0
        ≡ (if connects (attempts m) then connected (suc m) else gave_up (suc m)) =
      ends_at limit attempts (suc m) 0 m free (λ j lt. failing j (omega arith))
        (subst (λ j. goes_on (attempts j) ≡ false) (omega arith) stop) (omega arith)
      ∙ ap (λ j. if connects (attempts j) then connected (j + 1) else gave_up (j + 1)) {x = 0 + m}
          {y = m} (omega arith)
      ∙ ap (λ j. if connects (attempts m) then connected j else gave_up j) (omega arith) in
    (ended, ap (fired callbacks) ended ∙ fired_if callbacks (connects (attempts m)) (suc m))

-- NextBackoff stays between the floor and the ceiling, whatever the random portion and the power are,
-- and without jitter a later attempt with no smaller a power never waits less.
pub next_backoff-bounds :
    (power : ℕ → Option ℕ) (portion : ℕ → ℕ) (p : RetryPolicy) (m n : ℕ)
    → capped (power m) (ceiling_delay p) ≤ capped (power n) (ceiling_delay p)
    → (floor_delay p ≤ next_backoff power portion p n)
      × (next_backoff power portion p n ≤ ceiling_delay p)
      × (next_backoff power portion (record p { jitter = unjittered }) m
          ≤ next_backoff power portion (record p { jitter = unjittered }) n)
unfolding next_backoff
next_backoff-bounds power portion p m n le = (omega arith, omega arith, omega arith)
