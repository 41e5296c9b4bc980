-- ===== src/Publisher/Retry/Stops.antt =====
-- How often Publish tries, when Close may close the pools, and which pool a publish takes, publisher.go.
use warren.Prelude.{
  ◌≢◌, bytes_Eq, ℤ, pos, ℕ, zero, suc, ◌+◌, ◌≤◌, ◌<◌, String, ◌≡◌, refl, sym, ap, subst, ◌⊎◌, inl,
  inr, Bool, true, false, ◌||◌, Option, none, some, List, [], ◌∷◌, arith, ltb, nat_eq,
  if◌then◌else◌, ltb_iff, ltb-false, Bool-cases, nat_Eq, string_Eq, length, get_elem?,
}
use warren.Errors.{Err, sentinel, already_closed, is_transient}
use warren.Publisher.Outcome.{retry_reason}
use warren.Publisher.Attempt.{Options, Line, Attempt, not_ready, panicked, ended, publish_once}
use warren.Publisher.Retry.{
  Calls, Published, out_of_fuel, unready, crashed, finished, gives_up, with_reason, after_attempt,
  publish_loop, Gate, enter, begin_close, can_drain, select_from, select_pool,
}

-- A call that ends after at most a number of attempts, as many as the retries that were counted or one
-- more.
abbrev pub Stops : ℕ → ℕ → Published → Type 0
Stops from bound out_of_fuel = ⊥
Stops from bound unready = Unit {0}
Stops from bound (crashed l) = Unit {0}
Stops from bound (finished l r n reasons) =
    (n ≤ bound) × (n ≤ from + 1 + length reasons) × (from + length reasons ≤ n)

unless :
    {A : Type 0} (P : A → Type 0) (b : Bool) (x y : A)
    → P x
    → (b ≡ false → P y)
    → P (if b then x else y)
unless P true x y px py = px
unless P false x y px py = py refl

below_limit :
    (n k : ℕ) (e : Err) (b : Bool) → (gives_up (some (pos (suc n))) k e || b) ≡ false → k < suc n
unfolding gives_up
below_limit n k e b on = ground arith

with_reason-Stops :
    (k bound : ℕ) (s : String) (r : Published)
    → Stops (suc k) bound r
    → Stops k bound (with_reason s r)
with_reason-Stops k bound s out_of_fuel h = h
with_reason-Stops k bound s unready h = h
with_reason-Stops k bound s (crashed l) h = h
with_reason-Stops k bound s (finished l r n reasons) h =
    (h.0, omega (arith, h.1), omega (arith, h.2))

after_attempt-Stops :
    (n k : ℕ) (c : Calls) (retry : Line → Published) (a : Attempt)
    → k ≤ suc n
    → ((l : Line) → k < suc n → Stops (suc k) (n + 2) (retry l))
    → Stops k (n + 2) (after_attempt (some (pos (suc n))) c k retry a)
unfolding after_attempt gives_up
after_attempt-Stops n k c retry not_ready lt go = tt
after_attempt-Stops n k c retry (panicked l) lt go = tt
after_attempt-Stops n k c retry (ended l none) lt go = (omega arith, omega arith, omega arith)
after_attempt-Stops n k c retry (ended l (some e)) lt go =
    unless (Stops k (n + 2)) (gives_up (some (pos (suc n))) k e || c.context_done k) _ _
      (omega arith, omega arith, omega arith)
      (λ on.
        unless (λ r. Stops k (n + 2) (with_reason (retry_reason e) r)) (c.ends_in_backoff k) _ _
          (omega arith, omega arith, omega arith)
          (λ waited.
            with_reason-Stops k (n + 2) (retry_reason e) (retry l) (go l (below_limit n k e _ on))))

publish_loop-Stops :
    (o : Options) (c : Calls) (id : String) (n fuel k : ℕ) (l : Line)
    → k + fuel ≡ n + 1
    → Stops k (n + 2) (publish_loop o (some (pos (suc n))) c id (suc fuel) k l)
unfolding publish_loop
publish_loop-Stops o c id n zero k l e =
    after_attempt-Stops n k c _ (publish_once o (c.world k) id l) (omega arith)
      (λ u lt. absurd (omega arith))
publish_loop-Stops o c id n (suc fuel) k l e =
    after_attempt-Stops n k c _ (publish_once o (c.world k) id l) (omega arith)
      (λ u lt. publish_loop-Stops o c id n fuel (suc k) u (omega arith))

-- With a positive number of retries, Publish ends, whatever the attempts come to: fuel for one attempt
-- more than retries is enough, no more attempts are made, and as many as were counted as retries or one more.
pub publish_loop-ends :
    (o : Options) (c : Calls) (id : String) (n : ℕ) (l : Line)
    → Stops 0 (n + 2) (publish_loop o (some (pos (suc n))) c id (n + 2) 0 l)
publish_loop-ends o c id n l =
    subst (λ f. Stops 0 (n + 2) (publish_loop o (some (pos (suc n))) c id f 0 l)) (omega arith)
      (publish_loop-Stops o c id n (n + 1) 0 l (omega arith))

retries_on :
    (policy : Option ℤ) (k : ℕ) (e : Err) (b : Bool)
    → (gives_up policy k e || b) ≡ false
    → (is_transient (some e) ≡ true) × (policy ≢ none)
unfolding gives_up
retries_on none k e b on = cc on
retries_on (some n) k e b on = (ground arith, λ none_left. cc none_left)

-- Attempts from the k-th on, each of which ended with a transient error under a policy.
unfoldable pub Transient : Options → Option ℤ → Calls → String → ℕ → ℕ → Line → Type 0
Transient o policy c id k zero l = Unit {0}
Transient o policy c id k (suc d) l =
    (u : Line) × (e : Err) × (publish_once o (c.world k) id l ≡ ended u (some e))
    × (is_transient (some e) ≡ true)
    × (policy ≢ none)
    × Transient o policy c id (suc k) d u

-- The last of n attempts comes after attempts that were all transient.
unfoldable pub Justified : Options → Option ℤ → Calls → String → ℕ → Line → Published → Type 0
unfolding Transient
Justified o policy c id k l out_of_fuel = Unit {0}
Justified o policy c id k l unready = Unit {0}
Justified o policy c id k l (crashed u) = Unit {0}
Justified o policy c id k l (finished u r n reasons) =
    (d : ℕ) × (n ≡ k + d + 1) × Transient o policy c id k d l

module _ (o : Options) (policy : Option ℤ) (c : Calls) (id : String) where
  retried-Justified :
      (k : ℕ) (l u : Line) (e : Err) (s : String) (r : Published)
      → publish_once o (c.world k) id l ≡ ended u (some e)
      → (is_transient (some e) ≡ true) × (policy ≢ none)
      → Justified o policy c id (suc k) u r
      → Justified o policy c id k l (with_reason s r)
  unfolding Justified Transient
  retried-Justified k l u e s out_of_fuel at why h = tt
  retried-Justified k l u e s unready at why h = tt
  retried-Justified k l u e s (crashed v) at why h = tt
  retried-Justified k l u e s (finished v r n reasons) at why (d, count, more) =
      (suc d, omega arith, (u, e, at, why.0, why.1, more))

  after_attempt-Justified :
      (k : ℕ) (l : Line) (retry : Line → Published) (a : Attempt)
      → publish_once o (c.world k) id l ≡ a
      → ((u : Line) → Justified o policy c id (suc k) u (retry u))
      → Justified o policy c id k l (after_attempt policy c k retry a)
  unfolding Justified Transient after_attempt
  after_attempt-Justified k l retry not_ready at more = tt
  after_attempt-Justified k l retry (panicked u) at more = tt
  after_attempt-Justified k l retry (ended u none) at more = (0, omega arith, tt)
  after_attempt-Justified k l retry (ended u (some e)) at more =
      unless (Justified o policy c id k l) (gives_up policy k e || c.context_done k) _ _
        (0, omega arith, tt)
        (λ on.
          unless (λ r. Justified o policy c id k l (with_reason (retry_reason e) r))
            (c.ends_in_backoff k) _ _ (0, omega arith, tt)
            (λ waited.
              retried-Justified k l u e (retry_reason e) (retry u) at (retries_on policy k e _ on)
                (more u)))

  -- Only transient errors are retried: however Publish goes, each attempt that it has made before its
  -- last one ended with a transient error, and there is a policy if there is any.
  pub publish_loop-Justified :
      (fuel k : ℕ) (l : Line) → Justified o policy c id k l (publish_loop o policy c id fuel k l)
  unfolding publish_loop
  publish_loop-Justified zero k l = unfold Justified in tt
  publish_loop-Justified (suc fuel) k l =
      after_attempt-Justified k l (publish_loop o policy c id fuel (suc k))
        (publish_once o (c.world k) id l) refl (λ u. publish_loop-Justified fuel (suc k) u)

-- Calls that are still running when Close begins: none enters after it, a second Close is refused, and
-- the pools are closed only when every call that had entered has left.
pub begin_close-gate :
    (g : Gate)
    → (begin_close g ≡ inl (sentinel already_closed))
      ⊎ ((begin_close g ≡ inr (record g { is_closed = true }))
          × (enter (record g { is_closed = true }) ≡ inl (sentinel already_closed))
          × (begin_close (record g { is_closed = true }) ≡ inl (sentinel already_closed))
          × ((can_drain (record g { is_closed = true }) ≡ nat_eq g.active 0)))
unfolding begin_close enter can_drain
begin_close-gate g = ground arith

abbrev Lower : ℕ → List ℕ → Type 0
Lower m [] = Unit {0}
Lower m (x ∷ xs) = (m ≤ x) × Lower m xs

Lower-trans : (m n : ℕ) (xs : List ℕ) → m ≤ n → Lower n xs → Lower m xs
Lower-trans m n [] le h = tt
Lower-trans m n (x ∷ xs) le h = (omega (arith, h.0), Lower-trans m n xs le h.1)

-- The index that the loop ends with, for the count at that index.
record Chosen (ns : List ℕ) (i min_flight min_idx : ℕ) (r m : ℕ) : Type 0 where
  place : ((r ≡ min_idx) × (m ≡ min_flight)) ⊎ ((t : ℕ) × (r ≡ i + t) × (get_elem? ns t ≡ some m))
  below : m ≤ min_flight
  lower : Lower m ns

new_least :
    (ns : List ℕ) (n i r m : ℕ)
    → ((r ≡ i) × (m ≡ n)) ⊎ ((t : ℕ) × (r ≡ suc i + t) × (get_elem? ns t ≡ some m))
    → (t : ℕ) × (r ≡ i + t) × (get_elem? (n ∷ ns) t ≡ some m)
new_least ns n i r m (inl (at_i, same)) = (0, omega arith, ap some (sym same))
new_least ns n i r m (inr (t, at_t, found)) = (suc t, omega arith, found)

same_least :
    (ns : List ℕ) (n i mf mi r m : ℕ)
    → ((r ≡ mi) × (m ≡ mf)) ⊎ ((t : ℕ) × (r ≡ suc i + t) × (get_elem? ns t ≡ some m))
    → ((r ≡ mi) × (m ≡ mf)) ⊎ ((t : ℕ) × (r ≡ i + t) × (get_elem? (n ∷ ns) t ≡ some m))
same_least ns n i mf mi r m (inl kept) = inl kept
same_least ns n i mf mi r m (inr (t, at_t, found)) = inr (suc t, omega arith, found)

select_from_lem :
    (ns : List ℕ) (i min_flight min_idx : ℕ)
    → (m : ℕ) × Chosen ns i min_flight min_idx (select_from ns i min_flight min_idx) m
unfolding select_from
select_from_lem [] i mf mi =
    (mf, record { place = inl (refl, refl); below = omega arith; lower = tt })
select_from_lem (n ∷ ns) i mf mi = elim (Bool-cases (ltb n mf)) [
  | inl less ↦
      let c = select_from_lem ns (suc i) n i in
      rw less (
        c.0,
        record {
          place = inr (new_least ns n i _ c.0 c.1.place);
          below = omega (arith, c.1.below, (ltb_iff n mf).0 less);
          lower = (c.1.below, c.1.lower);
        },
      )
  | inr not_less ↦
      let c = select_from_lem ns (suc i) mf mi in
      rw not_less (
        c.0,
        record {
          place = same_least ns n i mf mi _ c.0 c.1.place;
          below = c.1.below;
          lower = (omega (arith, c.1.below, ltb-false n mf not_less), c.1.lower);
        },
      )
]

Lower-get_elem? : (m j n : ℕ) (ns : List ℕ) → Lower m ns → get_elem? ns j ≡ some n → m ≤ n
Lower-get_elem? m j n [] h e = absurd (ground arith)
Lower-get_elem? m zero n (x ∷ xs) h e = ground (arith, h.0)
Lower-get_elem? m (suc j) n (x ∷ xs) h e = Lower-get_elem? m j n xs h.1 e

-- selectPool: the pool that it takes exists, and no pool has fewer publishes in flight.
pub select_pool_lem :
    (n : ℕ) (ns : List ℕ) (j k : ℕ)
    → get_elem? (n ∷ ns) j ≡ some k
    → (m : ℕ) × (get_elem? (n ∷ ns) (select_pool (n ∷ ns)) ≡ some m) × (m ≤ k)
unfolding select_pool
select_pool_lem n ns j k e =
    let c = select_from_lem ns 1 n 0 in
    (
      c.0,
      (elim c.1.place [ inl (at_head, same) ↦ ground arith | inr (t, at_t, found) ↦ ground arith ]),
      Lower-get_elem? c.0 j k (n ∷ ns) (c.1.below, c.1.lower) e,
    )
