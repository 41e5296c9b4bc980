-- ===== src/Batch/Verdict.antt =====
-- The auto-verdict of a batch and what suppresses it, batch_consumer.go.
use warren.Prelude.{
  ℕ, zero, suc, ◌≡◌, refl, ◌⊎◌, Bool, true, false, Option, none, some, List, [], ◌∷◌, arith,
  if◌then◌else◌, nat_Eq, string_Eq, get_elem?,
}
use warren.Errors.{Err, requeue, errors_is}
use warren.Delivery.{Frame, Delivery, ack_frame, nack_frame, is_shut, ack}
use warren.Delivery.Once.{Call, acks, perform}
use warren.Redelivery.{Counter}
use warren.Batch.{
  Batch, BatchConsumer, apply_batch_verdict, on_delivery, call_at, counted, highest_from, ack_all,
  nack_all, verdict_frames,
}

abbrev pub batch_of : List Delivery → Bool → Batch
batch_of ds flag = record { deliveries = ds; acked = flag }

abbrev pub batch_frame : Option Err → ℕ → Frame
batch_frame none n = ack_frame n true
batch_frame (some e) n = nack_frame n true (errors_is e requeue)

verdict_frames_lem :
    (e reply : Option Err) (d : Delivery) (ds : List Delivery)
    → (verdict_frames e reply (d ∷ ds)).0 ≡ batch_frame e (highest_from d ds).tag ∷ []
unfolding ack_all nack_all
verdict_frames_lem none reply d ds = refl
verdict_frames_lem (some e) reply d ds = refl

-- The auto-verdict of a batch whose flag is not set is one frame on the highest tag, an ack or a nack
-- as the error after counter B says, and it sets the flag. With the flag set it sends nothing and
-- leaves counter B alone.
pub apply_batch_verdict_lem :
    (c : BatchConsumer) (e reply : Option Err) (d : Delivery) (ds : List Delivery) (flag : Bool)
    (cs : Option Counter)
    → let b = batch_of (d ∷ ds) flag in
      let s = apply_batch_verdict c e reply b cs in
      (s.frames
        ≡ (if flag then [] else batch_frame (counted c b e cs).1 (highest_from d ds).tag ∷ []))
      × (s.counter ≡ (if flag then cs else (counted c b e cs).0))
      × (s.batch.acked ≡ true)
unfolding apply_batch_verdict
apply_batch_verdict_lem c e reply d ds true cs = (refl, refl, refl)
apply_batch_verdict_lem c e reply d ds false cs =
    let b = batch_of (d ∷ ds) false in
    (verdict_frames_lem (counted c b e cs).1 reply d ds, refl, refl)

call_at_lem :
    (i : ℕ) (d : Delivery) (ds : List Delivery) (call : Call)
    → get_elem? ds i ≡ some d
    → ((call_at i call ds).1.0 ≡ (perform call d).frames)
      × ((call_at i call ds).1.1 ≡ (perform call d).notified)
unfolding call_at
call_at_lem i d [] call h = ground arith
call_at_lem zero d (x ∷ ds) call h = ground arith
call_at_lem (suc i) d (x ∷ ds) call h = call_at_lem i d ds call h

-- An Ack on one open delivery of a batch suppresses the auto-verdict when the broker takes the frame:
-- nothing more is sent and counter B stays. When the broker refuses it the flag stays unset.
pub on_delivery-suppresses :
    (c : BatchConsumer) (i : ℕ) (d : Delivery) (b : Batch) (cs : Option Counter)
    (refusal e reply : Option Err)
    → get_elem? b.deliveries i ≡ some d
    → is_shut d ≡ false
    → d.resolved ≡ false
    → d.notifies ≡ true
    → b.acked ≡ false
    → let u = on_delivery i (acks refusal) b cs in
      let s = apply_batch_verdict c e reply u.batch u.counter in
      (u.frames ≡ ack_frame d.tag false ∷ [])
      × (u.batch.acked ≡ (elim refusal [ none ↦ true | some _ ↦ false ]))
      × ((u.batch.acked ≡ false) ⊎ ((s.frames ≡ []) × (s.counter ≡ cs)))
unfolding on_delivery apply_batch_verdict perform ack
on_delivery-suppresses c i d b cs none e reply at running unresolved wired unset =
    ground (arith, call_at_lem i d b.deliveries (acks none) at)
on_delivery-suppresses c i d b cs (some r) e reply at running unresolved wired unset =
    ground (arith, call_at_lem i d b.deliveries (acks (some r)) at)
