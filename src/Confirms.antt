-- ===== src/Confirms.antt =====
-- The publisher-confirm tracker of one AMQP channel, internal/confirms/tracker.go.
--
-- A `*waiter` is an index into `heap`: the map `pending`, a blocked Wait and a caller share one
-- waiter. The buffered channel `done` of capacity 1 is an `Option`, and a Go error is an `Option`
-- too, `none` for nil. Each operation runs under the mutex, so it is one step on the state. Wait
-- takes the lock twice: `wait_begin` finds the waiter, `wait_end` is the case that `select` takes, for an
-- outcome the receive `wait_receive` and, later, the delete `wait_release`.
-- Delivery tags are uint64 that the code only compares; the tracker's counters are slice lengths.
pub mod Order
pub mod Window
pub mod Views
pub mod Invariant
pub mod Kept
pub mod Preserved
pub mod Refines
pub mod Reachable
pub mod Outcomes
pub mod Bounded
pub mod Examples
use warren.Prelude.{
  ℕ, zero, suc, ◌+◌, ◌*◌, ◌≤◌, ◌<◌, Bool, true, false, ◌&&◌, ◌||◌, List, [], ◌∷◌, ◌++◌, Option,
  none, some, ltb, leb, nat_eq, if◌then◌else◌, length, take, drop, lookup, insert, erase, nat_Eq,
}

-- ErrTimeout, ErrNacked, ErrClosed, *UnroutableError, and the error of the caller's context.
pub data ConfirmError : Type 0 where
  timeout nacked closed context_done : ConfirmError
  unroutable : ℕ → ConfirmError

abbrev pub GoError : Type 0
GoError = Option ConfirmError

pub record Waiter : Type 0 where
  pub done : Option GoError
  pub return_code : ℕ
  pub returned : Bool

pub record Tracker : Type 0 where
  pub heap : ℕ → Waiter
  pub next : ℕ
  pub pending : List (ℕ × ℕ)
  pub order : List ℕ
  pub head : ℕ
  pub is_closed : Bool

abbrev pub update : (ℕ → Waiter) → ℕ → Waiter → ℕ → Waiter
update h p w q = if nat_eq p q then w else h q

abbrev pub fresh_waiter : Waiter
fresh_waiter = record { done = none; return_code = 0; returned = false }

unfoldable pub new : Tracker
new = record {
  heap = λ _. fresh_waiter;
  next = 0;
  pending = [];
  order = [];
  head = 0;
  is_closed = false;
}

-- The non-blocking send `select { case w.done <- err: default: }`.
unfoldable pub send : GoError → Waiter → Waiter
send err w = elim w.done [ none ↦ record w { done = some err } | some _ ↦ w ]

-- slices.BinarySearch on an ascending slice: the position of the first element that is not below.
pub search_order : List ℕ → ℕ → ℕ
search_order [] tag = 0
search_order (x ∷ xs) tag = if ltb x tag then suc (search_order xs tag) else 0

last_or : ℕ → List ℕ → ℕ
last_or d [] = d
last_or d (x ∷ xs) = last_or x xs

-- The test `n == 0 || tag > t.order[n-1]`.
pub beyond_last : List ℕ → ℕ → Bool
unfolding last_or
beyond_last [] tag = true
beyond_last (x ∷ xs) tag = ltb (last_or x xs) tag

pub order_insert : Tracker → ℕ → Tracker
unfolding search_order beyond_last
order_insert t tag =
    let idx = search_order t.order tag in
    if beyond_last t.order tag then record t { order = t.order ++ tag ∷ [] } else record t {
      order = take idx t.order ++ tag ∷ drop idx t.order;
      head = if ltb idx t.head then idx else t.head;
    }

abbrev pub order_compact_min_prefix : ℕ
order_compact_min_prefix = 64

pub compact_order : Tracker → Tracker
compact_order t =
    if nat_eq t.head 0
    then t
    else if leb (length t.order) t.head
    then record t { order = []; head = 0 }
    else if ltb order_compact_min_prefix t.head && leb (length t.order) (t.head * 2)
    then record t { order = drop t.head t.order; head = 0 }
    else t

-- The loop of advanceLowWater over order[head:]: how many leading tags are not pending.
pub dead_prefix : List (ℕ × ℕ) → List ℕ → ℕ
dead_prefix m [] = 0
dead_prefix m (x ∷ xs) = elim (lookup x m) [ some _ ↦ 0 | none ↦ suc (dead_prefix m xs) ]

pub advance_low_water : Tracker → Tracker
unfolding dead_prefix compact_order
advance_low_water t =
    compact_order (record t { head = t.head + dead_prefix t.pending (drop t.head t.order) })

unfoldable pub register : Tracker → ℕ → Tracker × GoError
unfolding order_insert advance_low_water
register t tag = if t.is_closed then (t, some closed) else (
  advance_low_water (
      order_insert
        (record t {
          heap = update t.heap t.next fresh_waiter;
          next = suc t.next;
          pending = insert tag t.next t.pending;
        })
        tag),
  none,
)

pub mark_returned : Tracker → ℕ → ℕ → Tracker
mark_returned t tag code = elim (lookup tag t.pending) [
  | none ↦ t
  | some p ↦ record t {
    heap = update t.heap p (record (t.heap p) { returned = true; return_code = code });
  }
]

-- The error of resolveOne: a return turns a clean ack into an unroutable error.
unfoldable pub outcome : GoError → Waiter → GoError
outcome (some e) w = some e
outcome none w = if w.returned then some (unroutable w.return_code) else none

abbrev pub resolve : GoError → Waiter → Waiter
resolve base w = send (outcome base w) w

pub resolve_one : Tracker → ℕ → GoError → Tracker
unfolding send outcome
resolve_one t tag base = elim (lookup tag t.pending) [
  | none ↦ t
  | some p ↦ record t { heap = update t.heap p (resolve base (t.heap p)) }
]

-- The walk of resolveUpTo over order[head:], and the number of tags that it passes.
pub resolve_walk : Tracker → List ℕ → ℕ → GoError → Tracker × ℕ
unfolding resolve_one
resolve_walk t [] tag base = (t, 0)
resolve_walk t (x ∷ xs) tag base =
    let rest = resolve_walk (resolve_one t x base) xs tag base in
    if leb x tag then (rest.0, suc rest.1) else (t, 0)

pub resolve_up_to : Tracker → ℕ → GoError → Tracker
unfolding resolve_walk advance_low_water
resolve_up_to t tag base =
    let walked = resolve_walk t (drop t.head t.order) tag base in
    advance_low_water (record walked.0 { head = t.head + walked.1 })

pub settle : Tracker → ℕ → Bool → GoError → Tracker
unfolding resolve_up_to resolve_one
settle t tag multiple base = if multiple then resolve_up_to t tag base else resolve_one t tag base

pub ack : Tracker → ℕ → Bool → Tracker
unfolding settle
ack t tag multiple = settle t tag multiple none

pub nack : Tracker → ℕ → Bool → Tracker
unfolding settle
nack t tag multiple = settle t tag multiple (some nacked)

-- One round of the loop of CloseAll.
pub close_one : Tracker → ℕ × ℕ → Tracker
unfolding send
close_one t (tag, p) = elim (t.heap p).done [
  | some _ ↦ t
  | none ↦ record t {
    heap = update t.heap p (send (some closed) (t.heap p));
    pending = erase tag t.pending;
  }
]

pub close_loop : Tracker → List (ℕ × ℕ) → Tracker
unfolding close_one
close_loop t [] = t
close_loop t (e ∷ es) = close_loop (close_one t e) es

pub close_all : Tracker → Tracker
unfolding close_loop
close_all t = close_loop (record t { is_closed = true }) t.pending

unfoldable pub cancel : Tracker → ℕ → Tracker
unfolding send
cancel t tag = elim (lookup tag t.pending) [
  | none ↦ t
  | some p ↦ record t {
    heap = update t.heap p (send (some closed) (t.heap p));
    pending = erase tag t.pending;
  }
]

-- The first part of Wait: the waiter that it blocks on, or `none` for its early return of ErrClosed.
unfoldable pub wait_begin : Tracker → ℕ → Option ℕ
wait_begin t tag = lookup tag t.pending

-- The case that the `select` of Wait takes. A receive needs a value in the buffer, and the timer
-- is armed only if `timeout > 0`.
pub data Wake : Type 0 where
  confirmed timer_fired context_cancelled : Wake

-- The receive of the outcome, without the lock, and the delete of the slot under it, with which every
-- case of the select ends.
abbrev pub wait_receive : Tracker → ℕ → Option (Tracker × GoError)
wait_receive t p = elim (t.heap p).done [
  | none ↦ none
  | some err ↦ some (record t { heap = update t.heap p (record (t.heap p) { done = none }) }, err)
]

abbrev pub wait_release : Tracker → ℕ → Tracker
wait_release t tag = record t { pending = erase tag t.pending }

-- The second part of Wait with no other step between its case and its delete, `bounded` being
-- `timeout > 0`. `none` says that the case is not ready. The cases of the timer and of the context do
-- nothing before their delete.
unfoldable pub wait_end : Tracker → ℕ → ℕ → Bool → Wake → Option (Tracker × GoError)
wait_end t tag p bounded confirmed = elim (wait_receive t p) [
  | none ↦ none
  | some r ↦ some (wait_release r.0 tag, r.1)
]
wait_end t tag p bounded timer_fired =
    if bounded then some (wait_release t tag, some timeout) else none
wait_end t tag p bounded context_cancelled = some (wait_release t tag, some context_done)

-- Wait with no other step between its two parts.
unfoldable pub wait : Tracker → ℕ → Bool → Wake → Option (Tracker × GoError)
unfolding wait_begin wait_end
wait t tag bounded wake = elim (wait_begin t tag) [
  | none ↦ some (t, some closed)
  | some p ↦ wait_end t tag p bounded wake
]
