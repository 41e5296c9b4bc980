-- ===== src/Publisher/Retry.antt =====
-- Publish with its retries, Close and the choice of the pool, publisher.go.
--
-- The k-th attempt runs in the k-th `World`; whether the context is done after it, and whether it ends
-- during the back-off, is given too. RetryPolicy.Retries is an int, `none` a publisher without a policy.
-- The loop runs on fuel, one unit for each attempt.
pub mod Stops
use warren.Prelude.{
  is_positive, bytes_eq, bytes_eq_iff, bytes_Eq, ℤ, pos, negsuc, ℕ, zero, suc, ◌+◌, ◌-◌, ◌*◌, ◌/◌,
  ◌%◌, ◌^◌, ◌≤◌, ◌<◌, min, max, String, ◌≡◌, refl, sym, ap, subst, fun_ext, ◌∙◌, ◌≢◌, ◌↔◌, ◌⊎◌, inl,
  inr, Bool, true, false, not, ◌&&◌, ◌||◌, Option, none, some, List, [], ◌∷◌, ◌++◌, map, arith, ltb,
  leb, nat_eq, if◌then◌else◌, nat_eq_iff, leb_iff, ltb_iff, ltb-false, leb-false, Bool-cases,
  Option-cases, Eq, ◌==◌, nat_Eq, str_eq, str_eq_iff, string_Eq, length, get_elem?, take, drop,
  replicate, length-append, length-drop, drop_all, In, lookup, insert, erase, lookup-insert,
  lookup-erase, if_both, if_true, if_false, ℕ_discrete,
}
use warren.Errors.{Err, Sentinel, sentinel, already_closed, is_transient}
use warren.Publisher.Outcome.{retry_reason}
use warren.Publisher.Attempt.{
  Options, World, Line, Attempt, not_ready, panicked, ended, publish_once,
}

pub record Calls : Type 0 where
  pub world : ℕ → World
  pub context_done : ℕ → Bool
  pub ends_in_backoff : ℕ → Bool

-- What Publish comes to: the error, the number of attempts and the reasons of the retries.
pub data Published : Type 0 where
  out_of_fuel unready : Published
  crashed : Line → Published
  finished : Line → Option Err → ℕ → List String → Published

-- attempt >= Retries, for a positive Retries.
abbrev pub at_limit : ℤ → ℕ → Bool
at_limit (pos n) attempt = ltb 0 n && leb n attempt
at_limit (negsuc n) attempt = false

unfoldable pub gives_up : Option ℤ → ℕ → Err → Bool
gives_up none attempt e = true
gives_up (some retries) attempt e = not (is_transient (some e)) || at_limit retries attempt

abbrev pub with_reason : String → Published → Published
with_reason s (finished l r n reasons) = finished l r n (s ∷ reasons)
with_reason s out_of_fuel = out_of_fuel
with_reason s unready = unready
with_reason s (crashed l) = crashed l

-- The loop's body after an attempt.
unfoldable pub after_attempt : Option ℤ → Calls → ℕ → (Line → Published) → Attempt → Published
unfolding gives_up retry_reason
after_attempt policy c k retry not_ready = unready
after_attempt policy c k retry (panicked l) = crashed l
after_attempt policy c k retry (ended l none) = finished l none (suc k) []
after_attempt policy c k retry (ended l (some e)) =
    if gives_up policy k e || c.context_done k
    then finished l (some e) (suc k) []
    else with_reason (retry_reason e)
        (if c.ends_in_backoff k then finished l (some e) (suc k) [] else retry l)

unfoldable pub publish_loop : Options → Option ℤ → Calls → String → ℕ → ℕ → Line → Published
unfolding after_attempt publish_once
publish_loop o policy c id zero k l = out_of_fuel
publish_loop o policy c id (suc fuel) k l =
    after_attempt policy c k (publish_loop o policy c id fuel (suc k))
      (publish_once o (c.world k) id l)

-- The publisher's own state: closed, and the calls that Close waits for.
pub record Gate : Type 0 where
  pub is_closed : Bool
  pub active : ℕ

-- The start of Publish and PublishBatch: the gate with the call counted, or ErrAlreadyClosed.
unfoldable pub enter : Gate → Err ⊎ Gate
enter g =
    if g.is_closed then inl (sentinel already_closed) else inr (record g { active = g.active + 1 })

unfoldable pub leave : Gate → Gate
leave g = record g { active = g.active - 1 }

-- Close sets the flag at once; `can_drain` is when wg.Wait returns and the pools are closed.
unfoldable pub begin_close : Gate → Err ⊎ Gate
begin_close g =
    if g.is_closed then inl (sentinel already_closed) else inr (record g { is_closed = true })

unfoldable pub can_drain : Gate → Bool
can_drain g = nat_eq g.active 0

-- selectPool over the in-flight counts: the index of the least, and of the first of these.
unfoldable pub select_from : List ℕ → ℕ → ℕ → ℕ → ℕ
select_from [] i min_flight min_idx = min_idx
select_from (n ∷ ns) i min_flight min_idx =
    let next = select_from ns (suc i) n i in
    let same = select_from ns (suc i) min_flight min_idx in if ltb n min_flight then next else same

unfoldable pub select_pool : List ℕ → ℕ
unfolding select_from
select_pool [] = 0
select_pool (n ∷ ns) = select_from ns 1 n 0
