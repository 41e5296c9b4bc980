-- ===== src/Delivery.antt =====
-- The verdicts of one delivery, delivery.go.
--
-- A verdict takes what the broker library answers to its frame, `none` for nil: that library is not
-- modelled. `done` is the consumer's shutdown channel, absent or present and closed or not,
-- `resolved` the compare-and-swap flag, `notifies` whether the batch has set ackNotify. What a
-- verdict does is a record: the new delivery, the frames that went out, whether ackNotify was called
-- and the error. Each verdict is one step, since the flag is swapped atomically.
pub mod Once
pub mod Mapping
pub mod Examples
use warren.Prelude.{
  ℕ, zero, suc, ◌+◌, ◌-◌, ◌*◌, ◌/◌, ◌%◌, ◌^◌, ◌≤◌, ◌<◌, min, max, String, ◌≡◌, refl, sym, ap, subst,
  fun_ext, ◌∙◌, ◌≢◌, ◌↔◌, ◌⊎◌, inl, inr, Bool, true, false, not, ◌&&◌, ◌||◌, Option, none, some,
  List, [], ◌∷◌, ◌++◌, map, arith, ltb, leb, nat_eq, if◌then◌else◌, nat_eq_iff, leb_iff, ltb_iff,
  ltb-false, leb-false, Bool-cases, Option-cases, Eq, ◌==◌, nat_Eq, str_eq, str_eq_iff, string_Eq,
  length, get_elem?, take, drop, replicate, length-append, length-drop, drop_all, In, lookup,
  insert, erase, lookup-insert, lookup-erase, if_both, if_true, if_false, ℕ_discrete,
}
use warren.Errors.{
  Err, sentinel, already_closed, already_resolved, channel_closed, requeue, errors_is,
  is_amqp_closed,
}

-- basic.ack with its tag and `multiple`, basic.nack with `requeue` as well.
pub data Frame : Type 0 where
  ack_frame : ℕ → Bool → Frame
  nack_frame : ℕ → Bool → Bool → Frame

pub record Delivery : Type 0 where
  pub tag : ℕ
  pub message_id : List ℕ
  pub done : Option Bool
  pub resolved : Bool
  pub notifies : Bool

pub record Settled : Type 0 where
  pub delivery : Delivery
  pub frames : List Frame
  pub notified : Bool
  pub error : Option Err

abbrev pub is_shut : Delivery → Bool
is_shut d = elim d.done [ none ↦ false | some shut ↦ shut ]

unfoldable pub map_ack_err : Err → Err
map_ack_err e = if is_amqp_closed e then sentinel channel_closed else e

abbrev pub refused : Delivery → Err → Settled
refused d e = record { delivery = d; frames = []; notified = false; error = some e }

-- What Ack and Nack share after their guards: the frame, then the answer.
abbrev pub emit : Frame → Option Err → Delivery → Settled
emit f none d = record {
  delivery = record d { resolved = true };
  frames = f ∷ [];
  notified = d.notifies;
  error = none;
}
emit f (some e) d = record {
  delivery = record d { resolved = true };
  frames = f ∷ [];
  notified = false;
  error = some (map_ack_err e);
}

unfoldable pub ack : Option Err → Delivery → Settled
ack reply d =
    if is_shut d
    then refused d (sentinel already_closed)
    else if d.resolved
    then refused d (sentinel already_resolved)
    else emit (ack_frame d.tag false) reply d

unfoldable pub nack : Bool → Option Err → Delivery → Settled
nack again reply d =
    if is_shut d
    then refused d (sentinel already_closed)
    else if d.resolved
    then refused d (sentinel already_resolved)
    else emit (nack_frame d.tag false again) reply d

-- The broker's answer is dropped and ackNotify is not called.
unfoldable pub nack_on_timeout : Bool → Delivery → Settled
nack_on_timeout again d =
    if d.resolved
    then record { delivery = d; frames = []; notified = false; error = none }
    else record {
      delivery = record d { resolved = true };
      frames = nack_frame d.tag false again ∷ [];
      notified = false;
      error = none;
    }

unfoldable pub ack_if : Option Err → Option Err → Delivery → Settled
unfolding ack nack
ack_if none reply d = ack reply d
ack_if (some e) reply d = nack (errors_is e requeue) reply d
