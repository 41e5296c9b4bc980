-- ===== src/Confirms/Bounded.antt =====
-- The size of the index against the window of outstanding tags, tracker.go: compactOrder.
use warren.Prelude.{
  ℕ, suc, ◌+◌, ◌*◌, ◌≤◌, ◌<◌, ◌≡◌, ap, ◌⊎◌, inl, Bool, true, false, List, [], ◌∷◌, arith, nat_Eq,
  string_Eq, length, drop, insert, if_both,
}
use warren.Confirms.{
  Tracker, GoError, update, fresh_waiter, resolve_one, resolve_walk, resolve_up_to, settle,
  register, mark_returned, close_one, close_loop, order_compact_min_prefix, compact_order, ack,
  nack, close_all, cancel, order_insert, advance_low_water, new, dead_prefix,
}
use warren.Confirms.Views.{resolve_one_frame}
use warren.Confirms.Reachable.{wait_end_frame, wait_receive_frame}
use warren.Confirms.Invariant.{
  System, Event, Step, registers, marks, acks, nacks, closes, cancels, waits, wakes, receives,
  releases, Reach, here, next_step, start,
}

-- The dead prefix order[:head] is short, or shorter than the window behind it.
abbrev pub Bounded : Tracker → Type 0
Bounded t = (t.head ≤ order_compact_min_prefix) ⊎ (t.head * 2 < length t.order)

compact_order-Bounded : (t : Tracker) → Bounded (compact_order t)
unfolding compact_order
compact_order-Bounded t = ground arith

advance_low_water-Bounded : (t : Tracker) → Bounded (advance_low_water t)
unfolding advance_low_water
advance_low_water-Bounded t =
    compact_order-Bounded (record t { head = t.head + dead_prefix t.pending (drop t.head t.order) })

register-Bounded : (t : Tracker) (tag : ℕ) → Bounded t → Bounded (register t tag).0
unfolding register
register-Bounded t tag b =
    if_both (λ (r : Tracker × GoError). Bounded r.0) t.is_closed _ _ b
      (advance_low_water-Bounded (
        order_insert
          (record t {
            heap = update t.heap t.next fresh_waiter;
            next = suc t.next;
            pending = insert tag t.next t.pending;
          })
          tag))

Bounded-same : (t u : Tracker) → u.order ≡ t.order → u.head ≡ t.head → Bounded t → Bounded u
Bounded-same t u o h b = omega (arith, ap length o)

settle-Bounded :
    (t : Tracker) (n : ℕ) (multiple : Bool) (base : GoError)
    → Bounded t
    → Bounded (settle t n multiple base)
unfolding settle resolve_up_to
settle-Bounded t n true base b =
    let walked = resolve_walk t (drop t.head t.order) n base in
    advance_low_water-Bounded (record walked.0 { head = t.head + walked.1 })
settle-Bounded t n false base b =
    let f = resolve_one_frame t n base in Bounded-same t (resolve_one t n base) f.1 f.2 b

close_loop-Bounded : (t : Tracker) (es : List (ℕ × ℕ)) → Bounded t → Bounded (close_loop t es)
unfolding close_loop close_one
close_loop-Bounded t [] b = b
close_loop-Bounded t (e ∷ es) b =
    close_loop-Bounded (close_one t e) es
      (Bounded-same t (close_one t e) (ground arith) (ground arith) b)

Step-Bounded : {s u : System} {e : Event} → Step s e u → Bounded s.tracker → Bounded u.tracker
unfolding ack nack close_all cancel mark_returned
Step-Bounded {s} (registers tag) b = register-Bounded s.tracker tag b
Step-Bounded {s} (marks tag code) b =
    Bounded-same s.tracker (mark_returned s.tracker tag code) (ground arith) (ground arith) b
Step-Bounded {s} (acks tag multiple) b = settle-Bounded s.tracker tag multiple _ b
Step-Bounded {s} (nacks tag multiple) b = settle-Bounded s.tracker tag multiple _ b
Step-Bounded {s} closes b =
    close_loop-Bounded (record s.tracker { is_closed = true }) s.tracker.pending b
Step-Bounded {s} (cancels tag) b =
    Bounded-same s.tracker (cancel s.tracker tag) (ground arith) (ground arith) b
Step-Bounded (waits tag q found) b = b
Step-Bounded {s} (wakes before after tag q bounded wake t o at_q done) b =
    let f = wait_end_frame s.tracker t tag q bounded wake o done in
    Bounded-same s.tracker t f.1 f.2 b
Step-Bounded {s} (receives before after tag q t o at_q done) b =
    let f = wait_receive_frame s.tracker t q o done in Bounded-same s.tracker t f.1 f.2 b
Step-Bounded (releases before after tag q at_q) b = b

-- After any interleaving the dead prefix of the index has at most 64 tags or is shorter than half
-- of the index.
pub Reach-Bounded : {s : System} → Reach start s → Bounded s.tracker
unfolding new
Reach-Bounded here = inl (omega arith)
Reach-Bounded (next_step r st) = Step-Bounded st (Reach-Bounded r)
