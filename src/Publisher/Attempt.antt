-- ===== src/Publisher/Attempt.antt =====
-- One attempt to publish, publishOnce in publisher.go.
--
-- A step of the attempt that depends on the broker, the clock or the caller's context has its answer in
-- `World`; the pool and the tracker are the modelled ones. Other goroutines of the channel act through
-- the frames that the demultiplexer takes: `early` before Wait finds its waiter, `late` while it blocks.
-- The select of Wait takes a case that is ready; where `wake` is none such, the run is `not_ready`. The
-- sequence number of the channel is amqp091's.
pub mod Released
pub mod Verdicts
use warren.Prelude.{
  bytes_eq, bytes_eq_iff, bytes_Eq, ℤ, pos, negsuc, ℕ, zero, suc, ◌+◌, ◌-◌, ◌*◌, ◌/◌, ◌%◌, ◌^◌, ◌≤◌,
  ◌<◌, min, max, String, ◌≡◌, refl, sym, ap, subst, fun_ext, ◌∙◌, ◌≢◌, ◌↔◌, ◌⊎◌, inl, inr, Bool,
  true, false, not, ◌&&◌, ◌||◌, Option, none, some, List, [], ◌∷◌, ◌++◌, map, arith, ltb, leb,
  nat_eq, if◌then◌else◌, nat_eq_iff, leb_iff, ltb_iff, ltb-false, leb-false, Bool-cases,
  Option-cases, Eq, ◌==◌, nat_Eq, str_eq, str_eq_iff, string_Eq, length, get_elem?, take, drop,
  replicate, length-append, length-drop, drop_all, In, lookup, insert, erase, lookup-insert,
  lookup-erase, if_both, if_true, if_false, ℕ_discrete,
}
use warren.Errors.{Err, sentinel, wrap_two, channel_pool_exhausted, rate_limited, wrap_amqp_error}
use warren.Confirms.{Tracker, GoError, Wake, register, cancel, wait_begin, wait_end, closed}
use warren.Pool.{
  Pool, Opened, Acquired, blocked, got, open_failed, open_panicked, publisher_acquire, release,
}
use warren.Publisher.Outcome.{map_confirm_error, confirm_err}
use warren.Publisher.Demux.{Entry, Frame, demux_all}

-- Of the publisher: mandatory, confirmTimeout > 0, the size of the pool.
pub record Options : Type 0 where
  pub mandatory : Bool
  pub is_bounded : Bool
  pub pool_size : ℕ

pub record World : Type 0 where
  pub is_throttled : Bool
  pub limiter_error : Option Err
  pub barrier_error : Option Err
  pub closed_before : ℕ → Bool
  pub opened : Opened
  pub closed_after : ℕ → Bool
  pub sequence_number : ℕ
  pub publish_error : Option Err
  pub early : List Frame
  pub late : List Frame
  pub wake : Wake
  pub context_error : Err

-- The pool with its in-flight count, the in-flight gauge of the metrics, the entries of the channels,
-- and what is recorded: the throttled attempts and the outcomes.
pub record Line : Type 0 where
  pub pool : Pool
  pub inflight : ℕ
  pub gauge : ℕ
  pub entries : ℕ → Entry
  pub throttled : ℕ
  pub samples : List String

pub data Attempt : Type 0 where
  not_ready : Attempt
  panicked : Line → Attempt
  ended : Line → Option Err → Attempt

-- What happens on the channel: the entry after it, the error and the outcome that is recorded.
pub data Sent : Type 0 where
  never : Sent
  sent : Entry → Option Err → String → Sent

abbrev pub stored : Options → String → ℕ → Entry → Entry
stored o id tag d =
    if o.mandatory then record d { return_tag_map = insert id tag d.return_tag_map } else d

-- The deferred Delete.
abbrev pub forgotten : Options → String → Entry → Entry
forgotten o id d =
    if o.mandatory then record d { return_tag_map = erase id d.return_tag_map } else d

unfoldable pub sent_after : Options → World → String → Entry → GoError → Sent
unfolding map_confirm_error
sent_after o w id d (some e) =
    sent (forgotten o id d) (some (map_confirm_error (confirm_err w.context_error e))) "error"
sent_after o w id d none = sent (forgotten o id d) none "success"

unfoldable pub woken : Options → World → String → Entry → Option (Tracker × GoError) → Sent
unfolding sent_after
woken o w id d none = never
woken o w id d (some (t, r)) = sent_after o w id (record d { tracker = t }) r

-- Wait, with the frames that arrive before and during it.
unfoldable pub waited : Options → World → String → ℕ → Entry → Option ℕ → Sent
unfolding demux_all wait_end woken
waited o w id tag d none = sent_after o w id d (some closed)
waited o w id tag d (some p) =
    let u = demux_all d w.late in woken o w id u (wait_end u.tracker tag p o.is_bounded w.wake)

unfoldable pub published : Options → World → String → ℕ → Entry → Option Err → Sent
unfolding waited cancel wait_begin demux_all
published o w id tag d (some e) =
    sent (forgotten o id (record d { tracker = cancel d.tracker tag })) (wrap_amqp_error (some e))
      "error"
published o w id tag d none =
    let u = demux_all d w.early in waited o w id tag u (wait_begin u.tracker tag)

unfoldable pub registered : Options → World → String → ℕ → Entry → Tracker × GoError → Sent
unfolding published
registered o w id tag d (t, some e) = sent_after o w id (record d { tracker = t }) (some e)
registered o w id tag d (t, none) = published o w id tag (record d { tracker = t }) w.publish_error

unfoldable pub send_on : Options → World → String → Entry → Sent
unfolding registered register
send_on o w id d =
    let tag = w.sequence_number in
    let kept = stored o id tag d in registered o w id tag kept (register kept.tracker tag)

abbrev pub set_entry : (ℕ → Entry) → ℕ → Entry → ℕ → Entry
set_entry f x d y = if nat_eq x y then d else f y

-- The deferred function, after the attempt has used the channel x.
unfoldable pub given_back : Options → World → ℕ → Line → Sent → Attempt
unfolding release
given_back o w x l never = not_ready
given_back o w x l (sent d r sample) =
    ended
      (record {
        pool = release o.pool_size w.closed_after x l.pool;
        inflight = l.inflight - 1;
        gauge = l.gauge - 1;
        entries = set_entry l.entries x d;
        throttled = l.throttled;
        samples = l.samples ++ sample ∷ [];
      })
      r

unfoldable pub acquired : Options → World → String → Line → Pool × Acquired → Attempt
unfolding given_back send_on
acquired o w id l (p, got x) =
    given_back o w x (record l { pool = p; inflight = l.inflight + 1; gauge = l.gauge + 1 })
      (send_on o w id (l.entries x))
acquired o w id l (p, blocked) =
    ended (record l { pool = p })
      (some (wrap_two (sentinel channel_pool_exhausted) w.context_error))
acquired o w id l (p, open_failed e) = ended (record l { pool = p }) (some e)
acquired o w id l (p, open_panicked) = panicked (record l { pool = p })

unfoldable pub past_barrier : Options → World → String → Line → Option Err → Attempt
unfolding acquired publisher_acquire
past_barrier o w id l (some e) = ended l (some e)
past_barrier o w id l none = acquired o w id l (publisher_acquire w.closed_before w.opened l.pool)

unfoldable pub past_limiter : Options → World → String → Line → Option Err → Attempt
unfolding past_barrier
past_limiter o w id l (some e) = ended l (some (wrap_two (sentinel rate_limited) e))
past_limiter o w id l none = past_barrier o w id l w.barrier_error

unfoldable pub publish_once : Options → World → String → Line → Attempt
unfolding past_limiter
publish_once o w id l =
    past_limiter o w id
      (record l { throttled = if w.is_throttled then l.throttled + 1 else l.throttled })
      w.limiter_error
