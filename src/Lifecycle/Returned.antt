-- ===== src/Lifecycle/Returned.antt =====
-- What Resume leaves behind, consumer.go.
use warren.Prelude.{
  bytes_Eq, ◌≡◌, refl, Bool, true, false, Option, none, some, arith, if◌then◌else◌, nat_Eq,
  string_Eq, ◌∙◌,
}
use warren.Errors.{Err}
use warren.Lifecycle.{
  Consumer, refusal, resubscribe_locked, Handoff, taken, given_up, fresh_counter, cancel_quietly,
  hand_over, resumed, resume,
}

pub if_cases {ℓ ℓ2} :
    {A : Type ℓ} (P : A → Type ℓ2) (b : Bool) (x y : A)
    → (b ≡ true → P x)
    → (b ≡ false → P y)
    → P (if b then x else y)
if_cases P true x y p q = p refl
if_cases P false x y p q = q refl

pub record Kept (c d : Consumer) : Type 0 where
  pub paused : d.paused ≡ c.paused
  pub live : d.live ≡ c.live
  pub counter : d.counter ≡ c.counter

-- All or nothing: no error and delivery on the same channel, or an error and the consumer as it was.
unfoldable pub Whole : Consumer → Consumer × Option Err → Type 0
Whole c (d, none) = (d.paused ≡ false) × (d.live ≡ c.live)
Whole c (d, some e) = Kept c d

cancel_quietly-Kept : (answer : Option Err) (c : Consumer) → Kept c (cancel_quietly answer c)
unfolding cancel_quietly
cancel_quietly-Kept none c = record {
  paused = ground arith;
  live = ground arith;
  counter = ground arith;
}
cancel_quietly-Kept (some e) c = record { paused = refl; live = refl; counter = refl }

resubscribe_locked-Kept :
    (answer : Option Err) (c : Consumer) → Kept c (resubscribe_locked answer c).0
unfolding resubscribe_locked
resubscribe_locked-Kept answer c = record {
  paused = ground arith;
  live = ground arith;
  counter = ground arith;
}

resumed-Whole :
    (h : Handoff) (c d : Consumer) (r : Option Err) → Kept c d → Whole c (resumed h (d, r))
unfolding Whole resumed hand_over
resumed-Whole h c d (some e) k = k
resumed-Whole taken c d none k = (refl, k.live)
resumed-Whole (given_up e answer) c d none k =
    let u = cancel_quietly-Kept answer (record (fresh_counter d) { counter = d.counter }) in
    record { paused = u.paused ∙ k.paused; live = u.live ∙ k.live; counter = u.counter ∙ k.counter }

-- Resume is all or nothing: either it returns no error and the consumer is not paused, its live
-- channel the one it had, or it returns an error and pause flag, channel and redelivery counter are those
-- of before, wherever it failed: at its guards, at basic.consume or waiting for the loop.
pub resume-Whole :
    (context answer : Option Err) (h : Handoff) (c : Consumer) → Whole c (resume context answer h c)
unfolding resume refusal Whole
resume-Whole context answer h c =
    elim (refusal context c)
      as (λ x. Whole c (elim x [
        | some e ↦ (c, some e)
        | none ↦ if c.paused then resumed h (resubscribe_locked answer c) else (c, none)
      ])) [
        | some e ↦ record { paused = refl; live = refl; counter = refl }
        | none ↦
            if_cases (Whole c) c.paused _ _
              (λ is_paused. resumed-Whole h c _ _ (resubscribe_locked-Kept answer c))
              (λ not_paused. (not_paused, refl))
      ]
