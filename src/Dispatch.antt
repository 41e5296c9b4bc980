-- ===== src/Dispatch.antt =====
-- The dispatch of one delivery to its handler, consumer.go: dispatch and settleVerdict.
--
-- What happens around the handler is input: whether the payload decodes, the x-death count, the
-- verdict calls that the handler (or a shutdown) makes on the delivery before and after the select,
-- and the case that the select takes. Without a HandlerTimeout only `returns` occurs. The frames
-- that reach the broker, the counter, the labels given to RecordHandler and the outcome of the span
-- come out. The handler's error is what safeCallHandler returns.
pub mod Labels
pub mod Frames
pub mod Dedupe
pub mod Examples
use warren.Prelude.{
  ℕ, zero, suc, ◌+◌, ◌-◌, ◌*◌, ◌/◌, ◌%◌, ◌^◌, ◌≤◌, ◌<◌, min, max, String, ◌≡◌, refl, sym, ap, subst,
  fun_ext, ◌∙◌, ◌≢◌, ◌↔◌, ◌⊎◌, inl, inr, Bool, true, false, not, ◌&&◌, ◌||◌, Option, none, some,
  List, [], ◌∷◌, ◌++◌, map, arith, ltb, leb, nat_eq, if◌then◌else◌, nat_eq_iff, leb_iff, ltb_iff,
  ltb-false, leb-false, Bool-cases, Option-cases, Eq, ◌==◌, nat_Eq, str_eq, str_eq_iff, string_Eq,
  length, get_elem?, take, drop, replicate, length-append, length-drop, drop_all, In, lookup,
  insert, erase, lookup-insert, lookup-erase, if_both, if_true, if_false, ℕ_discrete,
}
use warren.Errors.{
  Err, sentinel, requeue, poison, channel_closed, deadline_exceeded, max_redeliveries, errors_is,
  is_err,
}
use warren.Delivery.{Frame, Delivery, ack_frame, nack_frame}
use warren.Delivery.Once.{Call, acks_if, times_out, frames_of}
use warren.Redelivery.{Counter, apply_counter_b, batch_counter_b_key}

-- The fields of Consumer that dispatch reads. A limit that is not positive is 0.
pub record Consumer : Type 0 where
  pub broker_auto_ack : Bool
  pub max_redeliveries : ℕ
  pub counter_b_disabled : Bool
  pub tag : List ℕ
  pub timeout_requeues : Bool

-- The cases of the select: the handler returns (and the channel is closed then or not), the channel
-- closes, the deadline passes, the outer context ends.
pub data Race : Type 0 where
  returns : Bool → Option Err → Race
  channel_done deadline cancelled : Race

pub record Dispatched : Type 0 where
  pub frames : List Frame
  pub counter : Option Counter
  pub recorded : List String
  pub span : Option String

unfoldable pub handler_outcome : Option Err → String
handler_outcome none = "ack"
handler_outcome (some e) = if errors_is e requeue then "nack_requeue" else "nack_no_requeue"

unfoldable pub consume_verdict_outcome : Option Err → String
consume_verdict_outcome none = "ack"
consume_verdict_outcome (some e) =
    if errors_is e max_redeliveries
    then "max_redeliveries"
    else if errors_is e requeue
    then "nack_requeue"
    else "nack_no_requeue"

unfoldable pub consume_error_type : Option Err → String
consume_error_type e =
    if is_err e max_redeliveries
    then "ErrMaxRedeliveries"
    else if is_err e requeue
    then "ErrRequeue"
    else if is_err e poison
    then "ErrPoison"
    else if is_err e channel_closed
    then "ErrChannelClosed"
    else if is_err e deadline_exceeded
    then "DeadlineExceeded"
    else "error"

-- The counter of the channel, when counter B applies at all.
abbrev pub counter_state : Consumer → Bool → Option Counter → Option Counter
counter_state c auto_ack cs =
    if auto_ack && not c.broker_auto_ack && ltb 0 c.max_redeliveries && not c.counter_b_disabled
    then cs
    else none

abbrev pub counter_b_key : Consumer → Bool → Delivery → List ℕ
counter_b_key c auto_ack d =
    if auto_ack && not c.broker_auto_ack && ltb 0 c.max_redeliveries && not c.counter_b_disabled
    then batch_counter_b_key c.tag d.message_id d.tag
    else []

-- What settleVerdict leaves to do: the calls on the delivery, the counter, the labels.
pub record Verdict : Type 0 where
  pub calls : List Call
  pub counter : Option Counter
  pub recorded : String
  pub span : String

unfoldable pub settle_verdict :
    Consumer → Bool → Option Counter → List ℕ → Option Err → Option Err → Verdict
unfolding handler_outcome consume_verdict_outcome
settle_verdict c auto_ack cs key e reply =
    let processed = apply_counter_b c.max_redeliveries key e cs in
    if c.broker_auto_ack
    then record {
      calls = [];
      counter = cs;
      recorded = handler_outcome e;
      span = consume_verdict_outcome e;
    }
    else if auto_ack
    then record {
      calls = acks_if processed.1 reply ∷ [];
      counter = processed.0;
      recorded = handler_outcome processed.1;
      span = consume_verdict_outcome processed.1;
    }
    else record { calls = []; counter = cs; recorded = "raw"; span = consume_verdict_outcome e }

-- A store that settleVerdict was not given stays as it is.
abbrev pub kept_counter : Option Counter → Option Counter → Option Counter
kept_counter cs none = cs
kept_counter cs (some m) = some m

-- From the select on.
unfoldable pub run_handler :
    Consumer
    → Bool
    → Option Counter
    → Delivery
    → List Call
    → List Call
    → Race
    → Option Err
    → Dispatched
unfolding settle_verdict frames_of
run_handler c auto_ack cs d before after (returns closed e) reply =
    let v =
      settle_verdict c auto_ack (counter_state c auto_ack cs) (counter_b_key c auto_ack d) e
        reply in
    if closed && (elim e [ none ↦ false | some _ ↦ true ])
    then record {
      frames = frames_of (before ++ after) d;
      counter = cs;
      recorded = "channel_closed" ∷ [];
      span = some "handler_aborted_channel_closed";
    }
    else record {
      frames = frames_of (before ++ v.calls ++ after) d;
      counter = kept_counter cs v.counter;
      recorded = v.recorded ∷ [];
      span = some v.span;
    }
run_handler c auto_ack cs d before after channel_done reply = record {
  frames = frames_of (before ++ after) d;
  counter = cs;
  recorded = "channel_closed" ∷ [];
  span = some "handler_aborted_channel_closed";
}
run_handler c auto_ack cs d before after deadline reply =
    if c.broker_auto_ack
    then record {
      frames = frames_of (before ++ after) d;
      counter = cs;
      recorded = "timeout_nack_no_requeue" ∷ [];
      span = some "timeout";
    }
    else record {
      frames = frames_of (before ++ (times_out c.timeout_requeues ∷ []) ++ after) d;
      counter = cs;
      recorded =
          (if c.timeout_requeues then "timeout_nack_requeue" else "timeout_nack_no_requeue") ∷ [];
      span = some "timeout";
    }
run_handler c auto_ack cs d before after cancelled reply = record {
  frames = frames_of (before ++ after) d;
  counter = cs;
  recorded = [];
  span = none;
}

unfoldable pub dispatch :
    Consumer
    → Bool
    → Option Counter
    → Option Err
    → ℕ
    → Delivery
    → List Call
    → List Call
    → Race
    → Option Err
    → Dispatched
unfolding run_handler
dispatch c auto_ack cs (some decode_error) deaths d before after race reply =
    if c.broker_auto_ack
    then record { frames = []; counter = cs; recorded = "decode_error" ∷ []; span = none }
    else record {
      frames = nack_frame d.tag false false ∷ [];
      counter = cs;
      recorded = "decode_error" ∷ [];
      span = none;
    }
dispatch c auto_ack cs none deaths d before after race reply =
    if not c.broker_auto_ack && ltb 0 c.max_redeliveries && leb c.max_redeliveries deaths
    then record {
      frames = nack_frame d.tag false false ∷ [];
      counter = cs;
      recorded = [];
      span = some "max_redeliveries";
    }
    else run_handler c auto_ack cs d before after race reply
