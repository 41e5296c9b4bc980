-- ===== src/Dispatch/Frames.antt =====
-- The frames that dispatch sends for one delivery, consumer.go.
use warren.Prelude.{
  ap, sym, ◌∙◌, inl, inr, not, Bool-cases, ℕ, ◌≤◌, ◌≡◌, refl, Bool, true, false, ◌&&◌, ◌||◌, Option,
  none, some, List, [], ◌∷◌, ◌++◌, arith, ltb, leb, if◌then◌else◌, nat_Eq, string_Eq, length,
}
use warren.Errors.{Err, requeue, errors_is}
use warren.Delivery.{Delivery, is_shut, Frame, ack_frame, nack_frame}
use warren.Delivery.Once.{
  Call, acks, nacks, shuts_down, acks_if, times_out, frames_of, frames_of-once, times_out_in,
  perform,
}
use warren.Delivery.Mapping.{verdict_frame, ack_if_lem}
use warren.Redelivery.{Counter, apply_counter_b, count_verdict, batch_counter_b_key, is_empty, load}
use warren.Dispatch.{
  Consumer, Race, returns, channel_done, deadline, cancelled, settle_verdict, run_handler, dispatch,
  counter_state, counter_b_key,
}

few : (cs : List Call) (d : Delivery) → length (frames_of cs d) ≤ 1
few cs d = omega (arith, (frames_of-once cs d).1)

-- One delivery costs one settlement frame at most, whatever happens: a payload that does not decode,
-- a poisoned message, a handler that settles by itself, before or after a timeout, a shutdown, a
-- broker that refuses.
pub dispatch-once :
    (c : Consumer) (auto_ack : Bool) (cs : Option Counter) (decode : Option Err) (deaths : ℕ)
    (d : Delivery) (before after : List Call) (race : Race) (reply : Option Err)
    → length (dispatch c auto_ack cs decode deaths d before after race reply).frames ≤ 1
unfolding dispatch run_handler
dispatch-once c auto_ack cs (some e) deaths d before after race reply = ground arith
dispatch-once c auto_ack cs none deaths d before after (returns closed e) reply =
    let v =
      settle_verdict c auto_ack (counter_state c auto_ack cs) (counter_b_key c auto_ack d) e
        reply in
    ground (arith, few (before ++ after) d, few (before ++ v.calls ++ after) d)
dispatch-once c auto_ack cs none deaths d before after channel_done reply =
    ground (arith, few (before ++ after) d)
dispatch-once c auto_ack cs none deaths d before after deadline reply =
    ground (
      arith,
      few (before ++ after) d,
      few (before ++ (times_out c.timeout_requeues ∷ []) ++ after) d,
    )
dispatch-once c auto_ack cs none deaths d before after cancelled reply =
    ground (arith, few (before ++ after) d)

times_out_in-append :
    (before after : List Call) (again : Bool)
    → times_out_in (before ++ (times_out again ∷ []) ++ after) ≡ true
times_out_in-append [] after again = refl
times_out_in-append (acks r ∷ cs) after again = times_out_in-append cs after again
times_out_in-append (nacks b r ∷ cs) after again = times_out_in-append cs after again
times_out_in-append (times_out b ∷ cs) after again = refl
times_out_in-append (acks_if e r ∷ cs) after again = times_out_in-append cs after again
times_out_in-append (shuts_down ∷ cs) after again = times_out_in-append cs after again

-- A handler that runs into its deadline never leaves its message unsettled under manual ack: exactly
-- one frame goes out for the delivery, be it the handler's or the timeout's.
pub dispatch-deadline :
    (c : Consumer) (auto_ack : Bool) (cs : Option Counter) (deaths : ℕ) (d : Delivery)
    (before after : List Call) (reply : Option Err)
    → c.broker_auto_ack ≡ false
    → d.resolved ≡ false
    → length (dispatch c auto_ack cs none deaths d before after deadline reply).frames ≡ 1
unfolding dispatch run_handler
dispatch-deadline c auto_ack cs deaths d before after reply manual unresolved =
    let calls = before ++ (times_out c.timeout_requeues ∷ []) ++ after in
    ground (
      arith,
      (frames_of-once calls d).1,
      (frames_of-once calls d).2,
      times_out_in-append before after c.timeout_requeues,
    )

-- What dispatch settles for a typed handler: the frame is that of the error after counter B.
abbrev pub processed : Consumer → Option Counter → Delivery → Option Err → Option Err
processed c cs d e =
    (apply_counter_b c.max_redeliveries (counter_b_key c true d) e (counter_state c true cs)).1

single : (f : Call) (d : Delivery) → frames_of (f ∷ []) d ≡ (perform f d).frames ++ []
unfolding frames_of
single f d = refl

-- The frame by the rules for a typed handler: an ack for nil; for an error a nack, which requeues if
-- the error says so and the counter of the message, where there is one, has not reached the limit.
abbrev pub has_reached : Consumer → Option Counter → Delivery → Bool
has_reached c none d = false
has_reached c (some m) d =
    let key = batch_counter_b_key c.tag d.message_id d.tag in
    ltb 0 c.max_redeliveries
    && not c.counter_b_disabled
    && not (is_empty key)
    && leb c.max_redeliveries (load key m)

abbrev pub expected_frame : Consumer → Option Counter → Delivery → Option Err → Frame
expected_frame c cs d none = ack_frame d.tag false
expected_frame c cs d (some e) =
    nack_frame d.tag false (errors_is e requeue && not (has_reached c cs d))

and_true : (b : Bool) → (b && true) ≡ b
and_true b = ground arith

counted_frame :
    (limit tag : ℕ) (key : List ℕ) (e : Err) (m : Counter)
    → verdict_frame (apply_counter_b limit key (some e) (some m)).1 tag
      ≡ nack_frame tag false
          (errors_is e requeue && not (not (is_empty key) && leb limit (load key m)))
unfolding apply_counter_b count_verdict errors_is
counted_frame limit tag [] e m = ground arith
counted_frame limit tag (b ∷ s) e m = ground arith

gated_frame :
    (on : Bool) (limit tag : ℕ) (key : List ℕ) (e : Err) (m : Counter)
    → verdict_frame
        (apply_counter_b limit (if on then key else []) (some e) (if on then some m else none)).1
        tag
      ≡ nack_frame tag false
          (errors_is e requeue && not (on && not (is_empty key) && leb limit (load key m)))
unfolding apply_counter_b
gated_frame true limit tag key e m = counted_frame limit tag key e m
gated_frame false limit tag key e m =
    ap (nack_frame tag false) (sym (and_true (errors_is e requeue)))

manual_gate :
    (auto limited off x y : Bool)
    → auto ≡ false
    → ((true && not auto && limited && not off) && x && y) ≡ (limited && not off && x && y)
manual_gate auto limited off x y manual = ground arith

pub processed-expected :
    (c : Consumer) (cs : Option Counter) (d : Delivery) (e : Option Err)
    → c.broker_auto_ack ≡ false
    → verdict_frame (processed c cs d e) d.tag ≡ expected_frame c cs d e
unfolding apply_counter_b count_verdict
processed-expected c none d none manual = ground arith
processed-expected c none d (some e) manual = ground arith
processed-expected c (some m) d none manual = ground arith
processed-expected c (some m) d (some e) manual =
    let key = batch_counter_b_key c.tag d.message_id d.tag in
    gated_frame _ c.max_redeliveries d.tag key e m
    ∙ ap (λ b. nack_frame d.tag false (errors_is e requeue && not b))
        (manual_gate c.broker_auto_ack (ltb 0 c.max_redeliveries) c.counter_b_disabled
          (not (is_empty key)) (leb c.max_redeliveries (load key m)) manual)

-- A typed handler that returns, on a consumer that is not closed by then and for a message that is not
-- poisoned by its x-death count, gets its message settled by one frame: an ack for nil, a requeueing
-- nack for an error with ErrRequeue while the counter of the message is under the limit or off, a nack
-- without requeue for any other error and at the limit. If the channel has closed under a failing
-- handler nothing is sent, and with broker auto-ack nothing is sent in any case.
pub dispatch-verdict :
    (c : Consumer) (cs : Option Counter) (deaths : ℕ) (d : Delivery) (closed : Bool)
    (e reply : Option Err)
    → (ltb 0 c.max_redeliveries && leb c.max_redeliveries deaths) ≡ false
    → is_shut d ≡ false
    → d.resolved ≡ false
    → (dispatch c true cs none deaths d [] [] (returns closed e) reply).frames ≡ (
        if c.broker_auto_ack || (closed && (elim e [ none ↦ false | some _ ↦ true ]))
        then []
        else expected_frame c cs d e ∷ [])
unfolding dispatch run_handler settle_verdict frames_of perform
dispatch-verdict c cs deaths d closed e reply alive running unresolved =
    let l = ack_if_lem (processed c cs d e) reply d in
    elim (Bool-cases c.broker_auto_ack) [
      | inl auto ↦ ground (arith, l)
      | inr manual ↦ ground (arith, l, processed-expected c cs d e manual)
    ]
