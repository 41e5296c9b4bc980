-- ===== src/Confirms/Examples.antt =====
-- The theorems about the confirm tracker at concrete inputs, and runs of its operations.
use warren.Prelude.{
  ◌≡◌, refl, ◌⊎◌, true, false, none, some, [], ◌∷◌, arith, nat_Eq, string_Eq, lookup, erase,
}
use warren.Confirms.{
  Tracker, update, confirmed, timer_fired, closed, timeout, nacked, unroutable, register,
  mark_returned, ack, nack, close_all, wait, wait_begin, wait_end, new,
}
use warren.Confirms.Views.{waiter_of, resolve_if}
use warren.Confirms.Refines.{ack-nack_scan}
use warren.Confirms.Preserved.{new-Inv, register-Inv}
use warren.Confirms.Reachable.{Reach-Inv}
use warren.Confirms.Bounded.{Bounded, Reach-Bounded}
use warren.Confirms.Outcomes.{
  Step-keeps_outcome, wait_releases_slot, received_by, confirm_reported, close_all_lem,
}
use warren.Confirms.Invariant.{
  Inv, System, SystemInv, silent, received, registers, acks, closes, waits, receives, Reach, here,
  next_step, start,
}

abbrev two_pending : Tracker
two_pending = (register (register new 1).0 2).0

two_pending-Inv : Inv two_pending
two_pending-Inv = register-Inv _ 2 (register-Inv _ 1 new-Inv)

ack-nack_scan_example :
    (waiter_of (ack two_pending 2 true) 1 ≡ resolve_if true none (waiter_of two_pending 1))
    × (waiter_of (nack two_pending 2 true) 1
        ≡ resolve_if true (some nacked) (waiter_of two_pending 1))
ack-nack_scan_example = ack-nack_scan two_pending 2 1 true two_pending-Inv (λ p e h. h)

abbrev after_ack : System
after_ack = record { tracker = ack (register new 1).0 1 true; waiting = []; leaving = [] }

after_ack-Reach : Reach start after_ack
after_ack-Reach = next_step (next_step here (registers 1)) (acks 1 true)

-- The Wait of tag 1 has received its outcome, has not deleted its slot, and tag 2 comes in.
abbrev acked : Tracker
acked = ack (register new 1).0 1 true

abbrev taken : Tracker
taken = record acked { heap = update acked.heap 0 (record (acked.heap 0) { done = none }) }

abbrev between_receive_and_delete : System
between_receive_and_delete = record {
  tracker = (register taken 2).0;
  waiting = [];
  leaving = (1, 0) ∷ [];
}

between-Reach : Reach start between_receive_and_delete
unfolding new register ack wait_begin
between-Reach =
    next_step
      (next_step
        (next_step (next_step (next_step here (registers 1)) (waits 1 0 refl)) (acks 1 true))
        (receives [] [] 1 0 taken none refl refl))
      (registers 2)

Reach-Inv_example : SystemInv between_receive_and_delete
Reach-Inv_example = Reach-Inv between-Reach

Reach-Bounded_example : Bounded after_ack.tracker
Reach-Bounded_example = Reach-Bounded after_ack-Reach

-- The ack came first, so the close does not turn it into ErrClosed.
Step-keeps_outcome_example :
    (((close_all (ack (register new 1).0 1 false)).heap 0).done ≡ some none)
    ⊎ (silent ≡ received 0 none)
unfolding new register ack
Step-keeps_outcome_example =
    Step-keeps_outcome
      {s = record { tracker = ack (register new 1).0 1 false; waiting = []; leaving = [] }} 0 none
      closes (omega arith) refl

wait_releases_slot_example :
    lookup 1 (record two_pending { pending = erase 1 two_pending.pending }).pending ≡ none
unfolding wait wait_begin wait_end new register
wait_releases_slot_example =
    wait_releases_slot two_pending (record two_pending { pending = erase 1 two_pending.pending }) 1
      true timer_fired (some timeout) refl

confirm_reported_example :
    let u = (register new 1).0 in
    let v = mark_returned u 1 312 in
    (received_by (wait (ack u 3 true) 1 true confirmed) ≡ some none)
    × (received_by (wait (ack v 3 true) 1 true confirmed) ≡ some (some (unroutable 312)))
    × (received_by (wait (nack u 3 true) 1 true confirmed) ≡ some (some nacked))
    × (received_by (wait (nack v 3 true) 1 true confirmed) ≡ some (some nacked))
unfolding new
confirm_reported_example = confirm_reported new 1 3 312 true true new-Inv refl refl

close_all_lem_example :
    (((close_all two_pending).heap 1).done ≡ some (some closed))
    × (register (close_all two_pending) 3 ≡ (close_all two_pending, some closed))
unfolding new register
close_all_lem_example = close_all_lem two_pending 2 1 3 refl

-- The frame passes every tag of the index, so the index is emptied.
frame_moves_head : (ack two_pending 2 true).head ≡ 0
unfolding new register ack
frame_moves_head = refl

-- A tag that arrives below the low-water-mark is put back into the window.
late_tag : (register (ack (register two_pending 5).0 2 true) 1).0.order ≡ 1 ∷ 1 ∷ 2 ∷ 5 ∷ []
unfolding new register ack
late_tag = refl
