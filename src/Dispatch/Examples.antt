-- ===== src/Dispatch/Examples.antt =====
-- The theorems about dispatch at concrete inputs.
use warren.Prelude.{
  ◌+◌, ◌<◌, ltb, bytes_Eq, ℕ, ◌≤◌, ◌≡◌, refl, Bool, true, false, Option, none, some, List, [], ◌∷◌,
  arith, nat_Eq, string_Eq, length, lookup, insert, lookup-insert,
}
use warren.Errors.{Err, sentinel, requeue}
use warren.Delivery.Examples.{plain}
use warren.Delivery.Once.{acks}
use warren.Dispatch.{Consumer, returns, deadline, dispatch}
use warren.Dispatch.Frames.{dispatch-once, dispatch-deadline, dispatch-verdict, expected_frame}
use warren.Dispatch.Dedupe.{Turn, wrap_dedupe-once, successes}

abbrev consumer : Consumer
consumer = record {
  broker_auto_ack = false;
  max_redeliveries = 3;
  counter_b_disabled = false;
  tag = 99 ∷ [];
  timeout_requeues = true;
}

abbrev again : Option Err
again = some (sentinel requeue)

dispatch-once_example :
    length
      (dispatch consumer true
        (some [])
        none
        0
        (plain 7 (97 ∷ []))
        (acks none ∷ [])
        (acks none ∷ [])
        deadline
        none).frames
    ≤ 1
dispatch-once_example =
    dispatch-once consumer true (some []) none 0 (plain 7 (97 ∷ [])) (acks none ∷ [])
      (acks none ∷ []) deadline none

dispatch-deadline_example :
    length
      (dispatch consumer true
        (some [])
        none
        0
        (plain 7 (97 ∷ []))
        []
        (acks none ∷ [])
        deadline
        none).frames
    ≡ 1
dispatch-deadline_example =
    dispatch-deadline consumer true (some []) 0 (plain 7 (97 ∷ [])) [] (acks none ∷ []) none refl
      refl

dispatch-verdict_example :
    (dispatch consumer true
      (some [])
      none
      0
      (plain 7 (97 ∷ []))
      []
      []
      (returns false again)
      none).frames
    ≡ expected_frame consumer (some []) (plain 7 (97 ∷ [])) again ∷ []
dispatch-verdict_example =
    dispatch-verdict consumer (some []) 0 (plain 7 (97 ∷ [])) false again none refl refl refl

-- A store that keeps its ids, each with the time it ends, in a list.
abbrev ids_seen : List (List ℕ × ℕ) → ℕ → List ℕ → Bool × Option Err
ids_seen s now id = elim (lookup id s) [ none ↦ (false, none) | some end ↦ (ltb now end, none) ]

abbrev ids_mark : List (List ℕ × ℕ) → ℕ → List ℕ → ℕ → List (List ℕ × ℕ) × Option Err
ids_mark s now id ttl = (insert id (now + ttl) s, none)

ids_kept :
    (s : List (List ℕ × ℕ)) (now : ℕ) (id : List ℕ) (t : ℕ)
    → t < now + 60
    → ids_seen (ids_mark s now id 60).0 t id ≡ (true, none)
ids_kept s now id t lt =
    ground (arith, lookup-insert id id (now + 60) s, (bytes_Eq.beq_iff id id).1 refl)

abbrev at_time : ℕ → Option Err → Turn
at_time t e = record { begins = t; ends = t + 1; answer = e }

abbrev three_turns : List Turn
three_turns = at_time 5 again ∷ at_time 9 none ∷ at_time 30 none ∷ []

wrap_dedupe-once_example : successes ids_seen ids_mark 60 [] (97 ∷ []) three_turns ≡ 1
wrap_dedupe-once_example =
    wrap_dedupe-once ids_seen ids_mark 60 ids_kept [] 97 [] 5 three_turns (λ t. refl) refl
