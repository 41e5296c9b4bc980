-- ===== src/Lifecycle/Recovery.antt =====
-- The recovery of a delivery channel that has closed, consumer.go: recoverDeliveryChannel, and the end
-- of a delivery stream in startPump.
--
-- Each round of the loop has its answers in a `Round`; a list of rounds that ends early leaves the loop
-- running. Durations are in milliseconds.
use warren.Prelude.{
  bytes_Eq, ℕ, ◌+◌, ◌*◌, min, String, Bool, true, not, ◌&&◌, ◌||◌, Option, none, some, List, [],
  ◌∷◌, ltb, if◌then◌else◌, nat_Eq, string_Eq,
}
use warren.Lifecycle.{Consumer, Opening, open_delivery_ch}

abbrev pub channel_recover_initial_backoff : ℕ
channel_recover_initial_backoff = 50

abbrev pub channel_recover_max_backoff : ℕ
channel_recover_max_backoff = 2000

-- What a select of the loop picks: the end of the context, a basic.cancel, a subscription from the
-- reconnect hook or Resume, or none of them (the default case, or the timer).
pub data Pick : Type 0 where
  context_done : Pick
  broker_cancel : String → Pick
  replacement : Pick
  timer : Pick

pub data Recovered : Type 0 where
  stop : Recovered
  cancelled : String → Recovered
  resubscribed : Recovered

abbrev pub picked : Pick → Option Recovered
picked context_done = some stop
picked (broker_cancel reason) = some (cancelled reason)
picked replacement = some resubscribed
picked timer = none

-- `is_reconnecting` and `is_paused` are what the test of the round reads; the flags may have changed when
-- the channel is opened, whose answer is `opening`.
pub record Round : Type 0 where
  pub first : Pick
  pub is_reconnecting : Bool
  pub is_paused : Bool
  pub opening : Opening
  pub second : Pick

-- The result, none while the loop runs; the state; the waits; and the numbers of channels that were
-- asked for and of consumer_resubscribed_total.
pub record Recovery : Type 0 where
  pub result : Option Recovered
  pub consumer : Consumer
  pub waits : List ℕ
  pub opens : ℕ
  pub notified : ℕ

abbrev pub ended : Recovered → Consumer → Recovery
ended r c = record { result = some r; consumer = c; waits = []; opens = 0; notified = 0 }

abbrev pub waited : ℕ → Recovery → Recovery
waited b r = record r { waits = b ∷ r.waits }

abbrev pub asked : Recovery → Recovery
asked r = record r { opens = r.opens + 1 }

abbrev pub reopened : Consumer → Recovery
reopened c = record {
  result = some resubscribed;
  consumer = c;
  waits = [];
  opens = 1;
  notified = 1;
}

abbrev pub next_backoff : ℕ → ℕ
next_backoff b =
    if ltb b channel_recover_max_backoff then min (b * 2) channel_recover_max_backoff else b

abbrev pub may_reopen : Round → Bool
may_reopen r = not r.is_reconnecting && not r.is_paused

-- The select with the timer, at the end of a round: `go_on` is the next round.
unfoldable pub wait_for : ℕ → Pick → Consumer → Recovery → Recovery
wait_for b p c go_on = elim (picked p) [ some r ↦ waited b (ended r c) | none ↦ waited b go_on ]

-- One round up to its timer, given what follows from the state that it leaves.
unfoldable pub reopen : Round → Consumer → (Consumer → Recovery) → Recovery
reopen r c go_on =
    if may_reopen r
    then (let o = open_delivery_ch r.opening c in
        elim o.1 [ none ↦ reopened o.0 | some e ↦ asked (go_on o.0) ])
    else go_on c

-- The select at the start of a round.
unfoldable pub look : Pick → Consumer → Recovery → Recovery
look p c go_on = elim (picked p) [ some r ↦ ended r c | none ↦ go_on ]

unfoldable pub recover_loop : ℕ → List Round → Consumer → Recovery
unfolding look wait_for reopen
recover_loop b [] c = record { result = none; consumer = c; waits = []; opens = 0; notified = 0 }
recover_loop b (r ∷ rs) c =
    look r.first c (reopen r c (λ d. wait_for b r.second d (recover_loop (next_backoff b) rs d)))

-- The floor between two reopens of a flapping channel.
unfoldable pub flap_floor : Option Pick → List Round → Consumer → Recovery
unfolding wait_for recover_loop
flap_floor none rs c = recover_loop channel_recover_initial_backoff rs c
flap_floor (some p) rs c =
    wait_for channel_recover_initial_backoff p c (recover_loop channel_recover_initial_backoff rs c)

-- Parked while paused: the select has no timer, and `timer` stands for a select that still blocks.
unfoldable pub park : Pick → Consumer → Recovery
park p c = record { result = picked p; consumer = c; waits = []; opens = 0; notified = 0 }

-- recoverDeliveryChannel: what the first select picks, whether the last reopen is within the horizon
-- (and what the select at the floor picks), and the rounds.
unfoldable pub recover_delivery_channel : Pick → Option Pick → List Round → Consumer → Recovery
unfolding park flap_floor
recover_delivery_channel p flap rs c = if c.paused then park p c else flap_floor flap rs c

-- The end of a delivery stream: whether closeCh is ready, what cancelCh holds (nothing, its close or a
-- basic.cancel) and whether Pause has ended the stream; out come the reason that is forwarded and
-- whether channelDone is closed.
unfoldable pub stream_closed : Bool → Option (Option String) → Bool → Option String × Bool
stream_closed close_ready none is_paused = (none, close_ready || not is_paused)
stream_closed close_ready (some reason) is_paused = (reason, true)
