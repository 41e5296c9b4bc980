-- ===== src/Batch.antt =====
-- A batch of deliveries and its verdict, batch_consumer.go.
--
-- The batch's flag and its deliveries are one state; each critical section of its mutex is one step.
-- A delivery's Ack or Nack sets the flag by the ackNotify that flush wires. The timeout branch of
-- flush reads the flag twice, with the handler still running in between, so it is two steps.
pub mod Highest
pub mod Once
pub mod Verdict
pub mod Examples
use warren.Prelude.{
  ℕ, zero, suc, ◌+◌, ◌-◌, ◌*◌, ◌/◌, ◌%◌, ◌^◌, ◌≤◌, ◌<◌, min, max, String, ◌≡◌, refl, sym, ap, subst,
  fun_ext, ◌∙◌, ◌≢◌, ◌↔◌, ◌⊎◌, inl, inr, Bool, true, false, not, ◌&&◌, ◌||◌, Option, none, some,
  List, [], ◌∷◌, ◌++◌, map, arith, ltb, leb, nat_eq, if◌then◌else◌, nat_eq_iff, leb_iff, ltb_iff,
  ltb-false, leb-false, Bool-cases, Option-cases, Eq, ◌==◌, nat_Eq, str_eq, str_eq_iff, string_Eq,
  length, get_elem?, take, drop, replicate, length-append, length-drop, drop_all, In, lookup,
  insert, erase, lookup-insert, lookup-erase, if_both, if_true, if_false, ℕ_discrete,
}
use warren.Errors.{Err, requeue, errors_is, is_err, sentinel}
use warren.Delivery.{Frame, Delivery, Settled, ack_frame, nack_frame, map_ack_err}
use warren.Delivery.Once.{Call, perform}
use warren.Redelivery.{Counter, apply_batch_counter_b}
use warren.Dispatch.{handler_outcome}

pub record Batch : Type 0 where
  pub deliveries : List Delivery
  pub acked : Bool

-- The loop of Batch.highest.
unfoldable pub highest_from : Delivery → List Delivery → Delivery
highest_from h [] = h
highest_from h (d ∷ ds) = if ltb h.tag d.tag then highest_from d ds else highest_from h ds

unfoldable pub highest : List Delivery → Option Delivery
unfolding highest_from
highest [] = none
highest (d ∷ ds) = some (highest_from d ds)

abbrev pub mapped : Option Err → Option Err
mapped none = none
mapped (some e) = some (map_ack_err e)

-- The frame of ackAll and nackAll and the error they report, for the broker's answer.
unfoldable pub ack_all : Option Err → List Delivery → List Frame × Option Err
unfolding highest
ack_all reply ds = elim (highest ds) [
  | none ↦ ([], none)
  | some h ↦ (ack_frame h.tag true ∷ [], mapped reply)
]

unfoldable pub nack_all : Bool → Option Err → List Delivery → List Frame × Option Err
unfolding highest
nack_all again reply ds = elim (highest ds) [
  | none ↦ ([], none)
  | some h ↦ (nack_frame h.tag true again ∷ [], mapped reply)
]

-- A step on a batch: the batch and the counter after it, the frames, the error that the caller gets
-- and the handler label that is recorded.
pub record Stepped : Type 0 where
  pub batch : Batch
  pub counter : Option Counter
  pub frames : List Frame
  pub error : Option Err
  pub recorded : List String

abbrev pub quiet : Batch → Option Counter → List String → Stepped
quiet b cs labels = record { batch = b; counter = cs; frames = []; error = none; recorded = labels }

abbrev pub sent : Batch → Option Counter → List Frame × Option Err → List String → Stepped
sent b cs r labels = record {
  batch = record b { acked = true };
  counter = cs;
  frames = r.0;
  error = r.1;
  recorded = labels;
}

unfoldable pub ack : Option Err → Batch → Option Counter → Stepped
unfolding ack_all
ack reply b cs = if b.acked then quiet b cs [] else sent b cs (ack_all reply b.deliveries) []

unfoldable pub nack : Bool → Option Err → Batch → Option Counter → Stepped
unfolding nack_all
nack again reply b cs =
    if b.acked then quiet b cs [] else sent b cs (nack_all again reply b.deliveries) []

-- The fields of BatchConsumer that the verdict reads.
pub record BatchConsumer : Type 0 where
  pub max_redeliveries : ℕ
  pub counter_b_disabled : Bool
  pub tag : List ℕ
  pub timeout_requeues : Bool

abbrev pub counted :
    BatchConsumer → Batch → Option Err → Option Counter → Option Counter × Option Err
counted c b e cs =
    apply_batch_counter_b c.max_redeliveries c.counter_b_disabled c.tag b.deliveries e cs

abbrev pub verdict_frames : Option Err → Option Err → List Delivery → List Frame × Option Err
verdict_frames none reply ds = ack_all reply ds
verdict_frames (some e) reply ds = nack_all (errors_is e requeue) reply ds

abbrev pub unreported : List Frame × Option Err → List Frame × Option Err
unreported r = (r.0, none)

unfoldable pub apply_batch_verdict :
    BatchConsumer → Option Err → Option Err → Batch → Option Counter → Stepped
unfolding ack_all nack_all
apply_batch_verdict c e reply b cs =
    let r = counted c b e cs in
    if b.acked
    then quiet b cs (handler_outcome e ∷ [])
    else sent b r.0 (unreported (verdict_frames r.1 reply b.deliveries)) (handler_outcome r.1 ∷ [])

-- The timeout branch of flush: the first look at the flag counts the redelivery and decides whether
-- to requeue, the second one sends the frame.
unfoldable pub timeout_begin : BatchConsumer → Batch → Option Counter → Stepped × Bool
timeout_begin c b cs =
    let r = counted c b (some (sentinel requeue)) cs in
    if b.acked
    then (quiet b cs [], false)
    else if c.timeout_requeues
    then (quiet b r.0 ("timeout_nack_requeue" ∷ []), is_err r.1 requeue)
    else (quiet b cs ("timeout_nack_no_requeue" ∷ []), false)

unfoldable pub timeout_end : Bool → Option Err → Batch → Option Counter → Stepped
unfolding nack_all
timeout_end again reply b cs =
    if b.acked then quiet b cs [] else sent b cs (unreported (nack_all again reply b.deliveries)) []

-- A verdict call on the delivery at a position.
unfoldable pub call_at : ℕ → Call → List Delivery → List Delivery × (List Frame × Bool)
unfolding perform
call_at i c [] = ([], ([], false))
call_at zero c (d ∷ ds) = let s = perform c d in (s.delivery ∷ ds, (s.frames, s.notified))
call_at (suc i) c (d ∷ ds) = let r = call_at i c ds in (d ∷ r.0, r.1)

unfoldable pub on_delivery : ℕ → Call → Batch → Option Counter → Stepped
unfolding call_at
on_delivery i c b cs =
    let r = call_at i c b.deliveries in
    record {
      batch = record { deliveries = r.0; acked = b.acked || r.1.1 };
      counter = cs;
      frames = r.1.0;
      error = none;
      recorded = [];
    }
