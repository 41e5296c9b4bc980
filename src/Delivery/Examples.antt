-- ===== src/Delivery/Examples.antt =====
-- The theorems about deliveries at concrete inputs.
use warren.Prelude.{
  ℕ, ◌+◌, ◌≤◌, ◌≡◌, true, false, none, some, List, [], ◌∷◌, nat_Eq, string_Eq, length,
}
use warren.Errors.{sentinel, requeue, amqp_closed}
use warren.Delivery.{Delivery}
use warren.Delivery.Once.{
  Call, acks, times_out, acks_if, shuts_down, frames_of, frames_of-once, all_name,
}

abbrev pub plain : ℕ → List ℕ → Delivery
plain n id = record {
  tag = n;
  message_id = id;
  done = some false;
  resolved = false;
  notifies = true;
}

abbrev calls : List Call
calls =
    acks_if (some (sentinel requeue)) (some amqp_closed)
    ∷ times_out false
    ∷ shuts_down
    ∷ acks none
    ∷ []

frames_of-once_example :
    (all_name 7 (frames_of calls (plain 7 [])) ≡ true)
    × (length (frames_of calls (plain 7 [])) + 0 ≤ 1)
    × (1 ≤ length (frames_of calls (plain 7 [])) + 0)
frames_of-once_example = frames_of-once calls (plain 7 [])
