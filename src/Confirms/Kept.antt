-- ===== src/Confirms/Kept.antt =====
-- What each operation of the tracker does to the waiters that exist, tracker.go.
use warren.Prelude.{
  ℕ, ◌+◌, ◌≤◌, ◌<◌, ◌≡◌, refl, inl, inr, Bool, true, false, none, some, List, [], ◌∷◌, arith, leb,
  Bool-cases, Option-cases, nat_Eq, string_Eq, drop, lookup,
}
use warren.Confirms.{
  Tracker, GoError, send, resolve_one, resolve_walk, resolve_up_to, settle, register, mark_returned,
  close_one, close_loop, ack, nack, close_all, cancel, advance_low_water,
}
use warren.Confirms.Order.{order_insert_frame}
use warren.Confirms.Window.{advance_low_water_frame}

abbrev pub Keeps : Tracker → Tracker → Type 0
Keeps t u =
    (t.next ≤ u.next)
    × ((p : ℕ) (r : GoError) → p < t.next → (t.heap p).done ≡ some r → (u.heap p).done ≡ some r)

pub Keeps-trans : (t u v : Tracker) → Keeps t u → Keeps u v → Keeps t v
Keeps-trans t u v (tu, f) (uv, g) = (omega arith, λ p r lt e. g p r (omega arith) (f p r lt e))

pub Keeps-unresolved :
    (t u : Tracker) (p : ℕ)
    → Keeps t u
    → p < t.next
    → (u.heap p).done ≡ none
    → (t.heap p).done ≡ none
Keeps-unresolved t u p (_, f) lt d = elim (Option-cases (t.heap p).done) [
  | inl e ↦ e
  | inr (r, e) ↦ cc (f p r lt e)
]

pub resolve_one-Keeps : (t : Tracker) (x : ℕ) (base : GoError) → Keeps t (resolve_one t x base)
unfolding resolve_one send
resolve_one-Keeps t x base = elim (Option-cases (lookup x t.pending)) [
  | inl gone ↦ (ground arith, λ p r lt e. ground arith)
  | inr (q, found) ↦ (ground arith, λ p r lt e. ground arith)
]

pub resolve_walk-Keeps :
    (t : Tracker) (l : List ℕ) (n : ℕ) (base : GoError) → Keeps t (resolve_walk t l n base).0
unfolding resolve_walk
resolve_walk-Keeps t [] n base = (ground arith, λ p r lt e. e)
resolve_walk-Keeps t (x ∷ xs) n base = elim (Bool-cases (leb x n)) [
  | inl low ↦ rw low (
      Keeps-trans t (resolve_one t x base) (resolve_walk (resolve_one t x base) xs n base).0
        (resolve_one-Keeps t x base) (resolve_walk-Keeps (resolve_one t x base) xs n base))
  | inr high ↦ rw high (ground arith, λ p r lt e. e)
]

-- A step that leaves the store of waiters alone.
Keeps-heap : (t u : Tracker) → u.heap ≡ t.heap → u.next ≡ t.next → Keeps t u
Keeps-heap t u h n = (omega arith, λ p r lt e. ground arith)

advance_low_water-Keeps : (t : Tracker) → Keeps t (advance_low_water t)
advance_low_water-Keeps t =
    let f = advance_low_water_frame t in Keeps-heap t (advance_low_water t) f.1 f.2

pub resolve_up_to-Keeps : (t : Tracker) (n : ℕ) (base : GoError) → Keeps t (resolve_up_to t n base)
unfolding resolve_up_to
resolve_up_to-Keeps t n base =
    let walked = resolve_walk t (drop t.head t.order) n base in
    let moved = record walked.0 { head = t.head + walked.1 } in
    Keeps-trans t walked.0 (advance_low_water moved)
      (resolve_walk-Keeps t (drop t.head t.order) n base)
      (Keeps-trans walked.0 moved (advance_low_water moved) (Keeps-heap walked.0 moved refl refl)
        (advance_low_water-Keeps moved))

settle-Keeps :
    (t : Tracker) (n : ℕ) (multiple : Bool) (base : GoError) → Keeps t (settle t n multiple base)
unfolding settle
settle-Keeps t n true base = resolve_up_to-Keeps t n base
settle-Keeps t n false base = resolve_one-Keeps t n base

pub ack-Keeps : (t : Tracker) (n : ℕ) (multiple : Bool) → Keeps t (ack t n multiple)
unfolding ack
ack-Keeps t n multiple = settle-Keeps t n multiple _

pub nack-Keeps : (t : Tracker) (n : ℕ) (multiple : Bool) → Keeps t (nack t n multiple)
unfolding nack
nack-Keeps t n multiple = settle-Keeps t n multiple _

pub register-Keeps : (t : Tracker) (tag : ℕ) → Keeps t (register t tag).0
unfolding register
register-Keeps t tag = elim (Bool-cases t.is_closed) [
  | inl c ↦ rw c (ground arith, λ p r lt e. e)
  | inr c ↦ rw c (
    ground (arith, advance_low_water_frame _, order_insert_frame _ tag),
    λ p r lt e. ground (arith, advance_low_water_frame _, order_insert_frame _ tag),
  )
]

pub mark_returned-Keeps : (t : Tracker) (tag code : ℕ) → Keeps t (mark_returned t tag code)
unfolding mark_returned
mark_returned-Keeps t tag code = (ground arith, λ p r lt e. ground arith)

pub close_one-Keeps : (t : Tracker) (e : ℕ × ℕ) → Keeps t (close_one t e)
unfolding close_one send
close_one-Keeps t (tag, q) = (ground arith, λ p r lt e. ground arith)

pub close_loop-Keeps : (t : Tracker) (es : List (ℕ × ℕ)) → Keeps t (close_loop t es)
unfolding close_loop
close_loop-Keeps t [] = (ground arith, λ p r lt e. e)
close_loop-Keeps t (e ∷ es) =
    Keeps-trans t (close_one t e) (close_loop (close_one t e) es) (close_one-Keeps t e)
      (close_loop-Keeps (close_one t e) es)

pub close_all-Keeps : (t : Tracker) → Keeps t (close_all t)
unfolding close_all
close_all-Keeps t =
    let u = record t { is_closed = true } in
    Keeps-trans t u (close_loop u t.pending) (Keeps-heap t u refl refl)
      (close_loop-Keeps u t.pending)

pub cancel-Keeps : (t : Tracker) (tag : ℕ) → Keeps t (cancel t tag)
unfolding cancel send
cancel-Keeps t tag = (ground arith, λ p r lt e. ground arith)
