-- ===== src/Connection/Supervisor.antt =====
-- The supervisor of a socket and its reconnect barrier, connection.go: supervisor, reconnectRaw and
-- runBarrier.
--
-- A raw connection is a number. The supervisor takes one signal at a time while it watches a socket; a
-- lost socket is dialled again until the barrier has run or the supervisor stops, each round with its
-- answers in a `Round`. A list of rounds that ends early leaves the supervisor dialling.
use warren.Prelude.{
  bytes_Eq, ℕ, ◌+◌, ◌≡◌, refl, Bool, true, false, not, ◌&&◌, ◌||◌, Option, none, some, List, [],
  ◌∷◌, ◌++◌, arith, if◌then◌else◌, nat_Eq, string_Eq, if_both,
}
use warren.Errors.{Err, sentinel, wrap_two, topology_redeclare_failed}

-- What the supervisor and the waiting publishers share, and what it has reported.
pub record Link : Type 0 where
  pub raw : Option ℕ
  pub is_blocked : Bool
  pub is_reconnecting : Bool
  pub degraded_error : Option Err
  pub reconnects : ℕ
  pub degraded_calls : List Err
  pub reconnect_calls : ℕ

-- How the hooks of a barrier end.
pub data Barrier : Type 0 where
  hooks_done : Option Err → Barrier
  shut_down capped : Barrier

-- One round: whether the context is done at its start, the socket that the back-off loop comes to, if
-- any, and the barrier after it.
pub record Round : Type 0 where
  pub context_done : Bool
  pub dialled : Option ℕ
  pub barrier : Barrier

pub data Signal : Type 0 where
  cancelled : Signal
  blocking : Bool → Signal
  blocking_closed : List Round → Signal
  closed : Bool → Bool → List Round → Signal
  forced : List Round → Signal

pub data Phase : Type 0 where
  watching stopped dialling : Phase

abbrev pub is_present : Option ℕ → Bool
is_present none = false
is_present (some c) = true

abbrev pub degraded_by : Err → Err
degraded_by e = wrap_two (sentinel topology_redeclare_failed) e

abbrev pub is_degraded : Link → Bool
is_degraded l = elim l.degraded_error [ none ↦ false | some e ↦ true ]

-- The barrier, from the end of the hooks to the broadcast.
unfoldable pub run_barrier : Link → Barrier → Link
run_barrier l (hooks_done (some e)) = record l {
  degraded_error = some (degraded_by e);
  degraded_calls =
      if is_degraded l then l.degraded_calls else l.degraded_calls ++ degraded_by e ∷ [];
  is_reconnecting = false;
}
run_barrier l (hooks_done none) = record l {
  degraded_error = none;
  reconnect_calls = l.reconnect_calls + 1;
  is_reconnecting = false;
}
run_barrier l shut_down = record l { is_reconnecting = false }
run_barrier l capped = record l { raw = none }

abbrev pub starts_redial : Link → Link
starts_redial l = record l {
  is_blocked = false;
  is_reconnecting = true;
  reconnects = l.reconnects + 1;
}

-- From the label `reconnect` to the top of the loop: the barrier runs on the new socket, and the top
-- watches the socket that is there then, or dials again if there is none and `boot_degraded` or a barrier
-- that is still up says so.
unfoldable pub redial : Bool → Link → List Round → Link × Phase
unfolding run_barrier
redial boot_degraded l [] = (l, dialling)
redial boot_degraded l (r ∷ rs) =
    let u = run_barrier (record (starts_redial l) { raw = r.dialled }) r.barrier in
    let again = redial boot_degraded u rs in
    if r.context_done then (l, stopped) else (elim r.dialled [
      | none ↦ (record (starts_redial l) { is_reconnecting = false }, stopped)
      | some c ↦ elim u.raw [
        | some d ↦ (u, watching)
        | none ↦ if boot_degraded || u.is_reconnecting then again else (u, stopped)
      ]
    ])

-- One signal while the socket is watched. `closed ok done` is what closeCh gave and whether the context
-- was done.
unfoldable pub on_signal : Bool → Link → Signal → Link × Phase
unfolding redial
on_signal boot_degraded l cancelled = (l, stopped)
on_signal boot_degraded l (blocking true) = (record l { is_blocked = true }, watching)
on_signal boot_degraded l (blocking false) = (record l { is_blocked = false }, watching)
on_signal boot_degraded l (blocking_closed rs) = redial boot_degraded l rs
on_signal boot_degraded l (closed ok done rs) =
    if not ok || done then (l, stopped) else redial boot_degraded l rs
on_signal boot_degraded l (forced rs) = redial boot_degraded l rs

-- The entry of the supervisor, for a socket whose first connect failed (`bootDegraded`) or did not.
unfoldable pub start : Bool → Link → List Round → Link × Phase
unfolding redial
start boot_degraded l rs = elim l.raw [
  | some c ↦ (l, watching)
  | none ↦ if boot_degraded || l.is_reconnecting then redial boot_degraded l rs else (l, stopped)
]

unfoldable pub supervise : Bool → Link × Phase → List Signal → Link × Phase
unfolding on_signal
supervise boot_degraded s [] = s
supervise boot_degraded (l, watching) (e ∷ es) =
    supervise boot_degraded (on_signal boot_degraded l e) es
supervise boot_degraded (l, stopped) (e ∷ es) = (l, stopped)
supervise boot_degraded (l, dialling) (e ∷ es) = (l, dialling)

-- A socket that is watched is there, and no publisher waits for its barrier.
abbrev pub is_settled : Link × Phase → Bool
is_settled (l, watching) = is_present l.raw && not l.is_reconnecting
is_settled (l, stopped) = true
is_settled (l, dialling) = true

-- A barrier that leaves a socket has come down.
run_barrier-settled :
    (l : Link) (b : Barrier)
    → not (is_present (run_barrier l b).raw && (run_barrier l b).is_reconnecting) ≡ true
unfolding run_barrier
run_barrier-settled l (hooks_done none) = ground arith
run_barrier-settled l (hooks_done (some e)) = ground arith
run_barrier-settled l shut_down = ground arith
run_barrier-settled l capped = refl

redial-settled :
    (boot_degraded : Bool) (l : Link) (rs : List Round)
    → is_settled (redial boot_degraded l rs) ≡ true
unfolding redial
redial-settled boot_degraded l [] = refl
redial-settled boot_degraded l (r ∷ rs) =
    let v = record (starts_redial l) { raw = r.dialled } in
    ground (
      arith,
      redial-settled boot_degraded (run_barrier v r.barrier) rs,
      run_barrier-settled v r.barrier,
    )

on_signal-settled :
    (boot_degraded : Bool) (l : Link) (e : Signal)
    → is_settled (l, watching) ≡ true
    → is_settled (on_signal boot_degraded l e) ≡ true
unfolding on_signal
on_signal-settled d l cancelled h = refl
on_signal-settled d l (blocking true) h = h
on_signal-settled d l (blocking false) h = h
on_signal-settled d l (blocking_closed rs) h = redial-settled d l rs
on_signal-settled d l (closed ok done rs) h =
    if_both (λ s. is_settled s ≡ true) (not ok || done) _ _ refl (redial-settled d l rs)
on_signal-settled d l (forced rs) h = redial-settled d l rs

supervise-settled :
    (boot_degraded : Bool) (s : Link × Phase) (es : List Signal)
    → is_settled s ≡ true
    → is_settled (supervise boot_degraded s es) ≡ true
unfolding supervise
supervise-settled d s [] h = h
supervise-settled d (l, watching) (e ∷ es) h =
    supervise-settled d (on_signal d l e) es (on_signal-settled d l e h)
supervise-settled d (l, stopped) (e ∷ es) h = h
supervise-settled d (l, dialling) (e ∷ es) h = h

-- Whatever signals arrive and however the dials, the hooks and the cap of each barrier go: whenever the
-- supervisor watches a socket, there is one and no barrier is up, so a publisher that is not blocked by
-- the broker passes. The supervisor starts with a socket and no barrier up, or with a failed first
-- connect.
pub start-settled :
    (boot_degraded : Bool) (l : Link) (rs : List Round) (es : List Signal)
    → (is_present l.raw && l.is_reconnecting) ≡ false
    → is_settled (supervise boot_degraded (start boot_degraded l rs) es) ≡ true
unfolding start
start-settled boot_degraded l rs es h =
    supervise-settled boot_degraded (start boot_degraded l rs) es
      (ground (arith, redial-settled boot_degraded l rs))

-- A topology that stays broken is reported once: a barrier whose hooks fail reports only if the one
-- before it did not fail, and one whose hooks succeed clears the error.
pub run_barrier-reports :
    (l : Link) (e f : Err)
    → let once = run_barrier l (hooks_done (some e)) in
      let twice = run_barrier once (hooks_done (some f)) in
      let cleared = run_barrier twice (hooks_done none) in
      (twice.degraded_calls ≡ once.degraded_calls)
      × (twice.degraded_error ≡ some (degraded_by f))
      × (cleared.degraded_error ≡ none)
      × ((run_barrier cleared (hooks_done (some e))).degraded_calls
          ≡ once.degraded_calls ++ degraded_by e ∷ [])
unfolding run_barrier
run_barrier-reports l e f = (refl, refl, refl, refl)
