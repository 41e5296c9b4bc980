-- ===== src/Confirms/Outcomes.antt =====
-- What a caller of Wait gets, tracker.go: Wait, Cancel, CloseAll.
use warren.Prelude.{
  ℕ, ◌<◌, ◌≡◌, refl, sym, ap, ◌∙◌, ◌≢◌, ◌⊎◌, inl, inr, Bool, true, false, Option, none, some, List,
  [], ◌∷◌, arith, leb, nat_eq, if◌then◌else◌, Bool-cases, Option-cases, nat_Eq, string_Eq, lookup,
  erase, lookup-insert, lookup-erase, ℕ_discrete,
}
use warren.Confirms.{
  Tracker, Waiter, GoError, Wake, confirmed, timer_fired, context_cancelled, closed, nacked,
  unroutable, fresh_waiter, send, outcome, resolve, register, mark_returned, close_one, close_loop,
  ack, nack, close_all, cancel, wait_begin, wait_end, wait_receive, wait, settle,
}
use warren.Confirms.Views.{waiter_of, resolve_if, Injective, resolve_one_frame}
use warren.Confirms.Refines.{ack-nack_scan}
use warren.Confirms.Kept.{
  register-Keeps, ack-Keeps, nack-Keeps, mark_returned-Keeps, close_all-Keeps, cancel-Keeps,
}
use warren.Confirms.Preserved.{register-Inv, mark_returned-Inv, register_frame, inserted}
use warren.Confirms.Reachable.{wait_end_frame, wait_receive_frame}
use warren.Confirms.Invariant.{
  Inv, System, Event, received, event_of, Step, registers, marks, acks, nacks, closes, cancels,
  waits, wakes, receives, releases,
}

wait_end_other :
    (t u : Tracker) (tag p q : ℕ) (bounded : Bool) (wake : Wake) (r : GoError)
    → wait_end t tag q bounded wake ≡ some (u, r)
    → q ≢ p
    → u.heap p ≡ t.heap p
wait_end_other t u tag p q bounded wake r e other =
    (wait_end_frame t u tag q bounded wake r e).4 p (λ same. other (sym same))

wait_end_kept :
    (t u : Tracker) (tag q p : ℕ) (bounded : Bool) (wake : Wake) (r s : GoError)
    → wait_end t tag q bounded wake ≡ some (u, s)
    → (t.heap p).done ≡ some r
    → ((u.heap p).done ≡ some r) ⊎ (event_of q wake s ≡ received p r)
unfolding wait_end
wait_end_kept t u tag q p bounded confirmed r s e d = elim (ℕ_discrete q p) [
  | yes same ↦ inr (ground arith)
  | no other ↦
      inl
        ((ap (λ (w : Waiter). w.done) (wait_end_other t u tag p q bounded confirmed s e other)) ∙ d)
]
wait_end_kept t u tag q p bounded timer_fired r s e d = inl (ground arith)
wait_end_kept t u tag q p bounded context_cancelled r s e d = inl (ground arith)

wait_receive_kept :
    (t u : Tracker) (q p : ℕ) (r s : GoError)
    → wait_receive t q ≡ some (u, s)
    → (t.heap p).done ≡ some r
    → ((u.heap p).done ≡ some r) ⊎ (received q s ≡ received p r)
wait_receive_kept t u q p r s e d = elim (ℕ_discrete q p) [
  | yes same ↦ inr (ground arith)
  | no other ↦
      inl
        (ap (λ (w : Waiter). w.done) ((wait_receive_frame t u q s e).4 p (λ h. other (sym h))) ∙ d)
]

-- Once a waiter holds an outcome, no operation overwrites it: it stays until a Wait receives it,
-- and that Wait returns this outcome.
pub Step-keeps_outcome :
    {s u : System} {e : Event} (p : ℕ) (r : GoError)
    → Step s e u
    → p < s.tracker.next
    → (s.tracker.heap p).done ≡ some r
    → ((u.tracker.heap p).done ≡ some r) ⊎ (e ≡ received p r)
Step-keeps_outcome {s} p r (registers tag) lt d = inl ((register-Keeps s.tracker tag).1 p r lt d)
Step-keeps_outcome {s} p r (marks tag code) lt d =
    inl ((mark_returned-Keeps s.tracker tag code).1 p r lt d)
Step-keeps_outcome {s} p r (acks tag m) lt d = inl ((ack-Keeps s.tracker tag m).1 p r lt d)
Step-keeps_outcome {s} p r (nacks tag m) lt d = inl ((nack-Keeps s.tracker tag m).1 p r lt d)
Step-keeps_outcome {s} p r closes lt d = inl ((close_all-Keeps s.tracker).1 p r lt d)
Step-keeps_outcome {s} p r (cancels tag) lt d = inl ((cancel-Keeps s.tracker tag).1 p r lt d)
Step-keeps_outcome p r (waits tag q found) lt d = inl d
Step-keeps_outcome {s} p r (wakes before after tag q bounded wake t o at_q done) lt d =
    wait_end_kept s.tracker t tag q p bounded wake r o done d
Step-keeps_outcome {s} p r (receives before after tag q t o at_q done) lt d =
    wait_receive_kept s.tracker t q p r o done d
Step-keeps_outcome p r (releases before after tag q at_q) lt d = inl d

erased_gone : (m : List (ℕ × ℕ)) (tag : ℕ) → lookup tag (erase tag m) ≡ none
erased_gone m tag = ground (arith, lookup-erase tag tag m)

-- When Wait returns, by whichever case of its select or by its early return, its tag is pending no
-- more.
pub wait_releases_slot :
    (t u : Tracker) (tag : ℕ) (bounded : Bool) (wake : Wake) (r : GoError)
    → wait t tag bounded wake ≡ some (u, r)
    → lookup tag u.pending ≡ none
unfolding wait wait_begin
wait_releases_slot t u tag bounded wake r e = elim (Option-cases (lookup tag t.pending)) [
  | inl gone ↦ ground arith
  | inr (p, found) ↦
      let frame = wait_end_frame t u tag p bounded wake r (rw (found, wait) at e) in
      rw frame.3 (erased_gone t.pending tag)
]

abbrev pub received_by : Option (Tracker × GoError) → Option GoError
received_by none = none
received_by (some (u, r)) = some r

wait_confirmed :
    (t : Tracker) (tag : ℕ) (bounded : Bool) (w : Waiter) (r : GoError)
    → waiter_of t tag ≡ some w
    → w.done ≡ some r
    → received_by (wait t tag bounded confirmed) ≡ some r
unfolding wait wait_begin wait_end waiter_of
wait_confirmed t tag bounded w r e d = elim (Option-cases (lookup tag t.pending)) [
  | inl gone ↦ cc gone
  | inr (p, found) ↦ ground arith
]

registered_waiter : (t : Tracker) (tag : ℕ) → waiter_of (inserted t tag) tag ≡ some fresh_waiter
unfolding waiter_of inserted
registered_waiter t tag = ground (arith, lookup-insert tag tag t.next t.pending)

pub waiter_of-register :
    (t : Tracker) (tag : ℕ)
    → t.is_closed ≡ false
    → waiter_of (register t tag).0 tag ≡ some fresh_waiter
unfolding waiter_of
waiter_of-register t tag c = ground (arith, register_frame t tag c, registered_waiter t tag)

pub waiter_of-mark_returned :
    (t : Tracker) (tag code : ℕ) (w : Waiter)
    → waiter_of t tag ≡ some w
    → waiter_of (mark_returned t tag code) tag
      ≡ some (record w { returned = true; return_code = code })
unfolding waiter_of mark_returned
waiter_of-mark_returned t tag code w e = elim (Option-cases (lookup tag t.pending)) [
  | inl gone ↦ cc gone
  | inr (p, found) ↦ ground arith
]

pub mark_returned_other :
    (t : Tracker) (n tag code : ℕ)
    → Injective t.pending
    → n ≢ tag
    → waiter_of (mark_returned t n code) tag ≡ waiter_of t tag
unfolding waiter_of mark_returned
mark_returned_other t n tag code inj other = elim (Option-cases (lookup n t.pending)) [
  | inl gone ↦ ground arith
  | inr (p, found) ↦ elim (Option-cases (lookup tag t.pending)) [
    | inl absent ↦ ground arith
    | inr (q, present) ↦ ground (arith, inj n tag p found)
  ]
]

resolved_by :
    (base : GoError) {b : Bool} {o o' : Option Waiter} {w : Waiter}
    → b ≡ true
    → o' ≡ resolve_if b base o
    → o ≡ some w
    → o' ≡ some (resolve base w)
resolved_by base covered e f = ground arith

-- What Wait reports once the first confirm that covers a fresh tag is in: success for an ack, the
-- reply code of the return for a return and an ack, ErrNacked for a nack with a return or without.
pub confirm_reported :
    (t : Tracker) (tag n code : ℕ) (multiple bounded : Bool)
    → Inv t
    → t.is_closed ≡ false
    → (if multiple then leb tag n else nat_eq n tag) ≡ true
    → let u = (register t tag).0 in
      let v = mark_returned u tag code in
      (received_by (wait (ack u n multiple) tag bounded confirmed) ≡ some none)
      × (received_by (wait (ack v n multiple) tag bounded confirmed)
          ≡ some (some (unroutable code)))
      × (received_by (wait (nack u n multiple) tag bounded confirmed) ≡ some (some nacked))
      × (received_by (wait (nack v n multiple) tag bounded confirmed) ≡ some (some nacked))
unfolding send outcome
confirm_reported t tag n code multiple bounded i c covered =
    let u = (register t tag).0 in
    let v = mark_returned u tag code in
    let w = waiter_of-register t tag c in
    let x = waiter_of-mark_returned u tag code fresh_waiter w in
    let u_inv = register-Inv t tag i in
    let v_inv = mark_returned-Inv u tag code u_inv in
    let us = ack-nack_scan u n tag multiple u_inv (λ p e h. h) in
    let vs = ack-nack_scan v n tag multiple v_inv (λ p e h. h) in
    (
      wait_confirmed (ack u n multiple) tag bounded _ none (resolved_by none covered us.0 w) refl,
      wait_confirmed (ack v n multiple) tag bounded _ (some (unroutable code))
          (resolved_by none covered vs.0 x) refl,
      wait_confirmed (nack u n multiple) tag bounded _ (some nacked)
          (resolved_by (some nacked) covered us.1 w) refl,
      wait_confirmed (nack v n multiple) tag bounded _ (some nacked)
          (resolved_by (some nacked) covered vs.1 x) refl,
    )

-- The early and the late side of a cancelled publish: a Wait that starts afterwards returns
-- ErrClosed at once, and the waiter of one that was blocked holds ErrClosed unless a confirm came
-- first.
pub cancel_lem :
    (t : Tracker) (tag p : ℕ) (bounded : Bool) (wake : Wake)
    → lookup tag t.pending ≡ some p
    → (wait (cancel t tag) tag bounded wake ≡ some (cancel t tag, some closed))
      × (((cancel t tag).heap p).done
          ≡ elim (t.heap p).done [ none ↦ some (some closed) | some r ↦ some r ])
unfolding cancel wait wait_begin send
cancel_lem t tag p bounded wake found = (ground (arith, erased_gone t.pending tag), ground arith)

close_one-closed : (t : Tracker) (e : ℕ × ℕ) → (close_one t e).is_closed ≡ t.is_closed
unfolding close_one
close_one-closed t (tag, p) = ground arith

close_loop-closed : (t : Tracker) (es : List (ℕ × ℕ)) → (close_loop t es).is_closed ≡ t.is_closed
unfolding close_loop close_one
close_loop-closed t [] = refl
close_loop-closed t (e ∷ es) = close_loop-closed (close_one t e) es ∙ close_one-closed t e

-- The entry that a lookup finds is one that the loop of CloseAll visits.
abbrev Visits : ℕ → List (ℕ × ℕ) → Type 0
Visits p [] = ⊥
Visits p (e ∷ es) = (e.1 ≡ p) ⊎ Visits p es

lookup-Visits : (m : List (ℕ × ℕ)) (tag p : ℕ) → lookup tag m ≡ some p → Visits p m
lookup-Visits [] tag p e = cc
lookup-Visits ((i, w) ∷ m) tag p e = elim (Bool-cases (nat_eq i tag)) [
  | inl hit ↦ inl (ground arith)
  | inr miss ↦ inr (lookup-Visits m tag p (ground arith))
]

abbrev closing : Option GoError → Option GoError
closing none = some (some closed)
closing (some r) = some r

close_one-done :
    (t : Tracker) (e : ℕ × ℕ) (p : ℕ)
    → ((close_one t e).heap p).done
      ≡ (if nat_eq e.1 p then closing (t.heap p).done else (t.heap p).done)
unfolding close_one send
close_one-done t (tag, q) p = ground arith

closing_idem : (o : Option GoError) → closing (closing o) ≡ closing o
closing_idem none = refl
closing_idem (some r) = refl

-- Past its visit a waiter keeps what it holds.
close_loop-resolved :
    (t : Tracker) (es : List (ℕ × ℕ)) (p : ℕ) (r : GoError)
    → (t.heap p).done ≡ some r
    → ((close_loop t es).heap p).done ≡ some r
unfolding close_loop
close_loop-resolved t [] p r d = d
close_loop-resolved t (e ∷ es) p r d =
    close_loop-resolved (close_one t e) es p r (ground (arith, close_one-done t e p))

close_loop-done :
    (t : Tracker) (es : List (ℕ × ℕ)) (p : ℕ)
    → Visits p es
    → ((close_loop t es).heap p).done ≡ closing (t.heap p).done
unfolding close_loop
close_loop-done t [] p m = absurd m
close_loop-done t (e ∷ es) p (inl here) = elim (Option-cases (t.heap p).done) [
  | inl open_waiter ↦ rw open_waiter (
      close_loop-resolved (close_one t e) es p (some closed) (ground (arith, close_one-done t e p)))
  | inr (r, d) ↦
      rw d (close_loop-resolved (close_one t e) es p r (ground (arith, close_one-done t e p)))
]
close_loop-done t (e ∷ es) p (inr later) =
    close_loop-done (close_one t e) es p later
    ∙ ground (arith, close_one-done t e p, closing_idem (t.heap p).done)

-- After CloseAll every pending publish has an outcome, its own if it had one and ErrClosed
-- otherwise, and every later Register is refused with ErrClosed and changes nothing.
pub close_all_lem :
    (t : Tracker) (tag p later : ℕ)
    → lookup tag t.pending ≡ some p
    → (((close_all t).heap p).done
        ≡ elim (t.heap p).done [ none ↦ some (some closed) | some r ↦ some r ])
      × (register (close_all t) later ≡ (close_all t, some closed))
unfolding close_all register
close_all_lem t tag p later found =
    let u = record t { is_closed = true } in
    (
      close_loop-done u t.pending p (lookup-Visits t.pending tag p found) ∙ ground arith,
      simp (close_loop-closed u t.pending),
    )

pub ack_one-pending : (t : Tracker) (n : ℕ) → (ack t n false).pending ≡ t.pending
unfolding ack settle
ack_one-pending t n = (resolve_one_frame t n none).0

pub nack_one-pending : (t : Tracker) (n : ℕ) → (nack t n false).pending ≡ t.pending
unfolding nack settle
nack_one-pending t n = (resolve_one_frame t n (some nacked)).0

pub mark_returned-pending :
    (t : Tracker) (n code : ℕ) → (mark_returned t n code).pending ≡ t.pending
unfolding mark_returned
mark_returned-pending t n code = ground arith

pub register_open :
    (t : Tracker) (tag : ℕ) → t.is_closed ≡ false → register t tag ≡ ((register t tag).0, none)
unfolding register
register_open t tag e = rw e refl

pub waiter_of-done :
    (t : Tracker) (tag p : ℕ) (w : Waiter)
    → lookup tag t.pending ≡ some p
    → waiter_of t tag ≡ some w
    → (t.heap p).done ≡ w.done
unfolding waiter_of
waiter_of-done t tag p w e f = ground arith
