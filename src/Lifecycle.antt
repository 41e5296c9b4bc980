-- ===== src/Lifecycle.antt =====
-- The life of a consumer between Build and Close, consumer.go: the flags behind Pause, Resume, Health
-- and Close, the subscription on the live channel and the recovery of a channel that has closed.
--
-- A channel and a counter B are numbers. The answers of the broker and of the contexts are input. `sent`
-- lists, newest first, the basic.consume and basic.cancel that the broker has accepted. `pause` and
-- `resume` are whole calls with no other step in between; a `Machine` runs their parts, between which the
-- lock-free reads of Health may come; the sources that tests inject in place of a channel are left out.
pub mod Recovery
pub mod Truth
pub mod Returned
pub mod Pace
pub mod Cancelled
pub mod Examples
use warren.Prelude.{
  bytes_Eq, ℕ, suc, zero, ◌+◌, ◌*◌, ◌≤◌, ◌<◌, min, String, ◌≡◌, refl, ◌⊎◌, inl, inr, Bool, true,
  false, not, ◌&&◌, ◌||◌, Option, none, some, List, [], ◌∷◌, ◌++◌, arith, ltb, leb, nat_eq,
  if◌then◌else◌, nat_eq_iff, Bool-cases, Option-cases, nat_Eq, string_Eq, if_both,
}
use warren.Errors.{
  Err, sentinel, wrap_one, wrap_amqp_error, invalid_options, already_closed, reconnecting,
  errors_is,
}

pub data Sent : Type 0 where
  consume cancel : ℕ → Sent

pub record Consumer : Type 0 where
  pub started : Bool
  pub stopped : Bool
  pub closed : Bool
  pub paused : Bool
  pub live : Option ℕ
  pub counter : ℕ
  pub next_counter : ℕ
  pub last_delivery_nanos : ℕ
  pub in_flight : ℕ
  pub sent : List Sent

abbrev pub new_consumer : Consumer
new_consumer = record {
  started = false;
  stopped = false;
  closed = false;
  paused = false;
  live = none;
  counter = 0;
  next_counter = 1;
  last_delivery_nanos = 0;
  in_flight = 0;
  sent = [];
}

pub record ConsumerHealth : Type 0 where
  pub active : Bool
  pub paused : Bool
  pub last_delivery_at : Option ℕ
  pub in_flight_handlers : ℕ

abbrev pub delivered_at : ℕ → Option ℕ
delivered_at n = if nat_eq n 0 then none else some n

unfoldable pub snapshot : Consumer → ConsumerHealth
snapshot c = record {
  active = c.started && not c.stopped && not c.closed && not c.paused;
  paused = c.paused;
  last_delivery_at = delivered_at c.last_delivery_nanos;
  in_flight_handlers = c.in_flight;
}

-- Health, with what the check of the connection returns.
unfoldable pub health : Option Err → Consumer → Err ⊎ ConsumerHealth
health (some e) c = inl e
health none c = inr (snapshot c)

-- The error of a broker call, translated and wrapped.
abbrev pub broker_error : Err → Err
broker_error e = elim (wrap_amqp_error (some e)) [ none ↦ wrap_one e | some w ↦ wrap_one w ]

-- The guards that Pause and Resume share: the context, started, closed.
unfoldable pub refusal : Option Err → Consumer → Option Err
refusal (some e) c = some e
refusal none c =
    if not c.started
    then some (wrap_one (sentinel invalid_options))
    else if c.closed
    then some (sentinel already_closed)
    else none

unfoldable pub cancel_live : ℕ → Option Err → Consumer → Consumer × Option Err
cancel_live ch none c = (record c { sent = cancel ch ∷ c.sent }, none)
cancel_live ch (some e) c = (record c { paused = false }, some (broker_error e))

unfoldable pub pause_locked : Option Err → Consumer → Consumer × Option Err
unfolding cancel_live
pause_locked answer c = if c.paused then (c, none) else elim c.live [
  | none ↦ (c, some (wrap_one (sentinel reconnecting)))
  | some ch ↦ cancel_live ch answer (record c { paused = true })
]

-- Pause, with the error of its context and that of basic.cancel.
unfoldable pub pause : Option Err → Option Err → Consumer → Consumer × Option Err
unfolding refusal pause_locked
pause context answer c = elim (refusal context c) [
  | some e ↦ (c, some e)
  | none ↦ pause_locked answer c
]

unfoldable pub resubscribe_locked : Option Err → Consumer → Consumer × Option Err
resubscribe_locked answer c = elim c.live [
  | none ↦ (c, some (wrap_one (sentinel reconnecting)))
  | some ch ↦ elim answer [
    | none ↦ (record c { sent = consume ch ∷ c.sent }, none)
    | some e ↦ (c, some (broker_error e))
  ]
]

-- How the select of Resume ends: the loop takes the subscription, or the context ends first, and what
-- the basic.cancel of the rollback returns.
pub data Handoff : Type 0 where
  taken : Handoff
  given_up : Err → Option Err → Handoff

abbrev pub fresh_counter : Consumer → Consumer
fresh_counter c = record c { counter = c.next_counter; next_counter = suc c.next_counter }

-- A basic.cancel whose error is ignored.
unfoldable pub cancel_quietly : Option Err → Consumer → Consumer
cancel_quietly (some e) c = c
cancel_quietly none c = elim c.live [ none ↦ c | some ch ↦ record c { sent = cancel ch ∷ c.sent } ]

unfoldable pub hand_over : Handoff → ℕ → Consumer → Consumer × Option Err
unfolding cancel_quietly
hand_over taken previous c = (record c { paused = false }, none)
hand_over (given_up e answer) previous c =
    (cancel_quietly answer (record c { counter = previous }), some e)

unfoldable pub resumed : Handoff → Consumer × Option Err → Consumer × Option Err
unfolding hand_over
resumed h (c, some e) = (c, some e)
resumed h (c, none) = hand_over h c.counter (fresh_counter c)

-- Resume, with the error of its context, that of basic.consume and the end of its select.
unfoldable pub resume : Option Err → Option Err → Handoff → Consumer → Consumer × Option Err
unfolding refusal resubscribe_locked resumed
resume context answer h c = elim (refusal context c) [
  | some e ↦ (c, some e)
  | none ↦ if c.paused then resumed h (resubscribe_locked answer c) else (c, none)
]

abbrev pub close : Consumer → Consumer
close c = record c { closed = true }

-- How far openDeliveryCh comes on a real channel. `odd_channel` has the error that it makes for a
-- channel of another type.
pub data Opening : Type 0 where
  no_channel odd_channel no_qos no_subscription : Err → Opening
  opened : ℕ → Opening

unfoldable pub subscribed : Opening → Consumer → Consumer × Option Err
subscribed (no_channel e) c = (c, some (wrap_one e))
subscribed (odd_channel e) c = (c, some e)
subscribed (no_qos e) c = (c, some (broker_error e))
subscribed (no_subscription e) c = (c, some (broker_error e))
subscribed (opened ch) c =
    (record c { live = some ch; paused = false; sent = consume ch ∷ c.sent }, none)

unfoldable pub open_delivery_ch : Opening → Consumer → Consumer × Option Err
unfolding subscribed
open_delivery_ch o c = subscribed o (fresh_counter c)

-- The start of runConsume, and its return.
unfoldable pub begin : Consumer → Consumer × Option Err
begin c =
    if c.started
    then (c, some (wrap_one (sentinel invalid_options)))
    else (record c { started = true }, none)

abbrev pub stop : Consumer → Consumer
stop c = record c { stopped = true }

-- Who holds pauseMu between two writes that Health can see: a Pause that waits for its basic.cancel on a
-- channel, or a Resume in its select, with the counter of before.
pub data Holder : Type 0 where
  nobody : Holder
  pausing resuming : ℕ → Holder

pub record Machine : Type 0 where
  pub consumer : Consumer
  pub holder : Holder

-- Pause behind its guards, up to basic.cancel.
unfoldable pub pause_begin : Consumer → Machine
pause_begin c = if c.paused then record { consumer = c; holder = nobody } else elim c.live [
  | none ↦ record { consumer = c; holder = nobody }
  | some ch ↦ record { consumer = record c { paused = true }; holder = pausing ch }
]

abbrev pub selecting : ℕ → Consumer × Option Err → Machine
selecting previous (c, none) = record { consumer = fresh_counter c; holder = resuming previous }
selecting previous (c, some e) = record { consumer = c; holder = nobody }

-- Resume behind its guards, up to the select.
unfoldable pub resume_begin : Option Err → Consumer → Machine
unfolding resubscribe_locked
resume_begin answer c =
    if c.paused
    then selecting c.counter (resubscribe_locked answer c)
    else record { consumer = c; holder = nobody }

-- The steps that change the state, in any order and from any goroutine. The guards of Pause and Resume
-- are read before the lock, so the state may no longer satisfy them at `pause_begins`.
pub data Event : Type 0 where
  begins closes stops : Event
  opens : Opening → Event
  pause_begins : Event
  pause_ends : Option Err → Event
  resume_begins : Option Err → Event
  resume_ends : Handoff → Event
  drains : Option Err → Event

-- A step that takes the lock waits while another holds it. openDeliveryCh takes it to publish its
-- channel, on which nobody has issued a command before.
unfoldable pub happen_free : Event → Consumer → Machine
unfolding begin open_delivery_ch pause_begin resume_begin cancel_quietly
happen_free begins c = record { consumer = (begin c).0; holder = nobody }
happen_free closes c = record { consumer = close c; holder = nobody }
happen_free stops c = record { consumer = stop c; holder = nobody }
happen_free (opens o) c = record { consumer = (open_delivery_ch o c).0; holder = nobody }
happen_free pause_begins c = pause_begin c
happen_free (pause_ends answer) c = record { consumer = c; holder = nobody }
happen_free (resume_begins answer) c = resume_begin answer c
happen_free (resume_ends h) c = record { consumer = c; holder = nobody }
happen_free (drains answer) c = record { consumer = cancel_quietly answer c; holder = nobody }

unfoldable pub happen_held : Event → Consumer → Holder → Machine
unfolding begin cancel_live hand_over
happen_held begins c h = record { consumer = (begin c).0; holder = h }
happen_held closes c h = record { consumer = close c; holder = h }
happen_held stops c h = record { consumer = stop c; holder = h }
happen_held (pause_ends answer) c (pausing ch) = record {
  consumer = (cancel_live ch answer c).0;
  holder = nobody;
}
happen_held (resume_ends end) c (resuming previous) = record {
  consumer = (hand_over end previous c).0;
  holder = nobody;
}
happen_held _ c h = record { consumer = c; holder = h }

unfoldable pub happen : Event → Machine → Machine
unfolding happen_free happen_held
happen e m = elim m.holder [
  | nobody ↦ happen_free e m.consumer
  | pausing ch ↦ happen_held e m.consumer (pausing ch)
  | resuming previous ↦ happen_held e m.consumer (resuming previous)
]

unfoldable pub happen_all : List Event → Machine → Machine
unfolding happen
happen_all [] m = m
happen_all (e ∷ es) m = happen_all es (happen e m)

abbrev pub built : Machine
built = record { consumer = new_consumer; holder = nobody }
