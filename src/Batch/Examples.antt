-- ===== src/Batch/Examples.antt =====
-- The theorems about batches at concrete inputs.
use warren.Prelude.{◌+◌, ◌≤◌, true, false, none, some, List, [], ◌∷◌, nat_Eq, string_Eq}
use warren.Delivery.{Delivery}
use warren.Delivery.Examples.{plain}
use warren.Delivery.Once.{acks}
use warren.Batch.{BatchConsumer}
use warren.Batch.Once.{
  Event, verdicts, timeout_begins, timeout_ends, on_one, frames_of, frames_of-once_multiple,
  multiples,
}
use warren.Batch.Verdict.{batch_of}

abbrev consumer : BatchConsumer
consumer = record {
  max_redeliveries = 3;
  counter_b_disabled = false;
  tag = 99 ∷ [];
  timeout_requeues = true;
}

abbrev two : List Delivery
two = plain 5 (97 ∷ []) ∷ plain 9 [] ∷ []

abbrev events : List Event
events = timeout_begins ∷ on_one 0 (acks none) ∷ timeout_ends true none ∷ verdicts none none ∷ []

frames_of-once_multiple_example :
    multiples (frames_of consumer events (batch_of two false) (some [])) + 0 ≤ 1
frames_of-once_multiple_example =
    frames_of-once_multiple consumer events (batch_of two false) (some [])
