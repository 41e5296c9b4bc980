-- ===== src/Lifecycle/Examples.antt =====
-- The theorems about the life of a consumer at concrete inputs.
use warren.Prelude.{true, bytes_Eq, ◌≡◌, refl, false, none, some, List, [], ◌∷◌}
use warren.Errors.{foreign}
use warren.Lifecycle.{
  Event, begins, opens, pause_begins, pause_ends, resume_begins, resume_ends, opened, given_up,
  no_channel, Consumer, happen_all, built, snapshot, resume,
}
use warren.Lifecycle.Recovery.{timer, Round}
use warren.Lifecycle.Truth.{on_channel, has_drained, happen_all-active}
use warren.Lifecycle.Returned.{Whole, resume-Whole}

-- Started, paused, resumed until the context ended, then reconnected on another channel
-- with a Pause that the broker refuses.
abbrev day : List Event
day =
    begins
    ∷ opens (opened 4)
    ∷ pause_begins
    ∷ pause_ends none
    ∷ resume_begins none
    ∷ resume_ends (given_up (foreign 1) none)
    ∷ opens (opened 9)
    ∷ pause_begins
    ∷ pause_ends (some (foreign 2))
    ∷ []

happen_all-active_example : on_channel 9 (happen_all day built).consumer.sent ≡ true
unfolding happen_all has_drained snapshot
happen_all-active_example = happen_all-active day 9 refl refl refl

abbrev paused_consumer : Consumer
paused_consumer =
    (happen_all (begins ∷ opens (opened 4) ∷ pause_begins ∷ pause_ends none ∷ []) built).consumer

resume-Whole_example :
    Whole paused_consumer
      (resume none none (given_up (foreign 1) (some (foreign 2))) paused_consumer)
resume-Whole_example =
    resume-Whole none none (given_up (foreign 1) (some (foreign 2))) paused_consumer

abbrev no_luck : Round
no_luck = record {
  first = timer;
  is_reconnecting = false;
  is_paused = false;
  opening = no_channel (foreign 3);
  second = timer;
}

abbrev running : Consumer
running = (happen_all (begins ∷ opens (opened 4) ∷ []) built).consumer
