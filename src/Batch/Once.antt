-- ===== src/Batch/Once.antt =====
-- The events of a batch, in sequence, batch_consumer.go.
use warren.Prelude.{
  ℕ, zero, suc, ◌+◌, ◌≤◌, ◌≡◌, refl, Bool, true, Option, none, some, List, [], ◌∷◌, ◌++◌, arith,
  nat_Eq, string_Eq,
}
use warren.Errors.{Err, errors_is, requeue}
use warren.Delivery.{Frame, Delivery, ack_frame, nack_frame}
use warren.Delivery.Once.{Call, perform, bit, all_name, perform-Verdict}
use warren.Redelivery.{Counter}
use warren.Batch.{
  Batch, BatchConsumer, Stepped, ack, nack, apply_batch_verdict, timeout_begin, timeout_end,
  on_delivery, call_at, ack_all, nack_all, verdict_frames, counted,
}

-- What can happen to a batch, in any order: Batch.Ack, Batch.Nack, the auto-verdict, the two looks of
-- the timeout branch, and a verdict call on one of its deliveries.
pub data Event : Type 0 where
  acks : Option Err → Event
  nacks : Bool → Option Err → Event
  verdicts : Option Err → Option Err → Event
  timeout_begins : Event
  timeout_ends : Bool → Option Err → Event
  on_one : ℕ → Call → Event

unfoldable pub step : BatchConsumer → Event → Batch → Option Counter → Stepped
unfolding ack nack apply_batch_verdict timeout_begin timeout_end on_delivery
step c (acks r) b cs = ack r b cs
step c (nacks again r) b cs = nack again r b cs
step c (verdicts e r) b cs = apply_batch_verdict c e r b cs
step c timeout_begins b cs = (timeout_begin c b cs).0
step c (timeout_ends again r) b cs = timeout_end again r b cs
step c (on_one i call) b cs = on_delivery i call b cs

unfoldable pub frames_of : BatchConsumer → List Event → Batch → Option Counter → List Frame
unfolding step
frames_of c [] b cs = []
frames_of c (e ∷ es) b cs = let s = step c e b cs in s.frames ++ frames_of c es s.batch s.counter

abbrev pub multiples : List Frame → ℕ
multiples [] = 0
multiples (ack_frame n multiple ∷ fs) = bit multiple + multiples fs
multiples (nack_frame n multiple again ∷ fs) = bit multiple + multiples fs

multiples-append : (fs gs : List Frame) → multiples (fs ++ gs) ≡ multiples fs + multiples gs
multiples-append [] gs = omega arith
multiples-append (ack_frame n m ∷ fs) gs = omega (arith, multiples-append fs gs)
multiples-append (nack_frame n m r ∷ fs) gs = omega (arith, multiples-append fs gs)

ack_all-one : (r : Option Err) (ds : List Delivery) → multiples (ack_all r ds).0 ≤ 1
unfolding ack_all
ack_all-one r ds = ground arith

nack_all-one :
    (again : Bool) (r : Option Err) (ds : List Delivery) → multiples (nack_all again r ds).0 ≤ 1
unfolding nack_all
nack_all-one again r ds = ground arith

verdict-one : (e r : Option Err) (ds : List Delivery) → multiples (verdict_frames e r ds).0 ≤ 1
verdict-one none r ds = ack_all-one r ds
verdict-one (some e) r ds = nack_all-one (errors_is e requeue) r ds

named-none : (n : ℕ) (fs : List Frame) → all_name n fs ≡ true → multiples fs ≡ 0
named-none n [] h = refl
named-none n (ack_frame m multiple ∷ fs) h = ground (arith, named-none n fs)
named-none n (nack_frame m multiple again ∷ fs) h = ground (arith, named-none n fs)

call_at-none : (i : ℕ) (c : Call) (ds : List Delivery) → multiples (call_at i c ds).1.0 ≡ 0
unfolding call_at
call_at-none i c [] = refl
call_at-none zero c (d ∷ ds) = named-none d.tag (perform c d).frames (perform-Verdict c d).1
call_at-none (suc i) c (d ∷ ds) = call_at-none i c ds

step-counts :
    (c : BatchConsumer) (e : Event) (b : Batch) (cs : Option Counter)
    → multiples (step c e b cs).frames + bit b.acked ≤ bit (step c e b cs).batch.acked
unfolding step ack nack apply_batch_verdict timeout_begin timeout_end on_delivery
step-counts c (acks r) b cs = ground (arith, ack_all-one r b.deliveries)
step-counts c (nacks again r) b cs = ground (arith, nack_all-one again r b.deliveries)
step-counts c (verdicts e r) b cs = ground (arith, verdict-one (counted c b e cs).1 r b.deliveries)
step-counts c timeout_begins b cs = ground arith
step-counts c (timeout_ends again r) b cs = ground (arith, nack_all-one again r b.deliveries)
step-counts c (on_one i call) b cs = ground (arith, call_at-none i call b.deliveries)

-- Whatever order the handler's calls, the calls on single deliveries, the auto-verdict and the two
-- looks of the timeout branch come in, a batch gets at most one frame with multiple=true, and none
-- once its flag is set.
pub frames_of-once_multiple :
    (c : BatchConsumer) (es : List Event) (b : Batch) (cs : Option Counter)
    → multiples (frames_of c es b cs) + bit b.acked ≤ 1
unfolding frames_of
frames_of-once_multiple c [] b cs = ground arith
frames_of-once_multiple c (e ∷ es) b cs =
    let s = step c e b cs in
    omega (
      arith,
      step-counts c e b cs,
      frames_of-once_multiple c es s.batch s.counter,
      multiples-append s.frames (frames_of c es s.batch s.counter),
    )
