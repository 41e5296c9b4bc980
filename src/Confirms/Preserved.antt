-- ===== src/Confirms/Preserved.antt =====
-- The tracker's invariant through each operation and each step of the system, tracker.go.
use warren.Prelude.{
  ℕ, suc, ◌+◌, ◌<◌, ◌≡◌, refl, sym, ap, ◌∙◌, ◌≢◌, ◌⊎◌, inl, inr, Bool, true, false, none, some,
  List, [], ◌∷◌, arith, leb, Bool-cases, if_both, if_false, nat_Eq, string_Eq, length, drop,
  length-drop, In, lookup, insert, erase, lookup-insert, lookup-erase,
}
use warren.Confirms.{
  Tracker, GoError, update, fresh_waiter, send, resolve_one, resolve_walk, resolve_up_to, settle,
  register, mark_returned, close_one, close_loop, ack, nack, close_all, cancel, order_insert,
  advance_low_water, new,
}
use warren.Confirms.Order.{
  live, order_insert_frame, order_insert-IsSorted, order_insert-live, order_insert-head,
}
use warren.Confirms.Window.{
  advance_low_water_frame, advance_low_water-IsSorted, advance_low_water-live,
  advance_low_water-head, drop-drop,
}
use warren.Confirms.Views.{Injective, resolve_one_frame}
use warren.Confirms.Refines.{resolve_walk_frame}
use warren.Confirms.Kept.{resolve_one-Keeps, resolve_walk-Keeps, Keeps-unresolved}
use warren.Confirms.Invariant.{InvBut, HasLeft}

pub new-Inv : {gone : List (ℕ × ℕ)} → InvBut gone new
unfolding new
new-Inv = record {
  sorted = tt;
  head_fits = omega arith;
  fresh = λ a p e. cc;
  injective = λ a b p e f. cc;
  indexed = λ a p e d n. cc;
}

resolve_one-done :
    (t : Tracker) (a p : ℕ) (base : GoError)
    → lookup a t.pending ≡ some p
    → ((resolve_one t a base).heap p).done ≢ none
unfolding resolve_one send
resolve_one-done t a p base e d = ground arith

-- A pending tag that is still unresolved after the walk is behind the tags that it passed.
unresolved_behind_walk :
    (t : Tracker) (l : List ℕ) (n a p : ℕ) (base : GoError)
    → p < t.next
    → lookup a t.pending ≡ some p
    → ((resolve_walk t l n base).0.heap p).done ≡ none
    → In a l
    → In a (drop (resolve_walk t l n base).1 l)
unfolding resolve_walk
unresolved_behind_walk t [] n a p base lt e d m = m
unresolved_behind_walk t (x ∷ xs) n a p base lt e d m = elim (Bool-cases (leb x n)) [
  | inr high ↦ rw high m
  | inl low ↦
      let u = resolve_one t x base in
      let frame = resolve_one_frame t x base in
      let d' : ((resolve_walk u xs n base).0.heap p).done ≡ none = rw low at d in
      let lt' : p < u.next = rw frame.3 lt in
      rw low (elim m [
        | inl same ↦ absurd (
            resolve_one-done t x p base (rw same e) (
              Keeps-unresolved u (resolve_walk u xs n base).0 p (resolve_walk-Keeps u xs n base) lt'
                d'))
        | inr later ↦ unresolved_behind_walk u xs n a p base lt' (rw frame.0 e) d' later
      ])
]

advance_low_water-Inv :
    {gone : List (ℕ × ℕ)} (t : Tracker) → InvBut gone t → InvBut gone (advance_low_water t)
advance_low_water-Inv t v =
    let (f_pending, f_heap, f_next, f_closed) = advance_low_water_frame t in
    record {
      sorted = advance_low_water-IsSorted t v.sorted;
      head_fits = advance_low_water-head t v.head_fits;
      fresh = λ a p e. rw f_next (v.fresh a p (rw (← f_pending) e));
      injective = rw f_pending v.injective;
      indexed = λ a p e d n.
          let e' : lookup a t.pending ≡ some p = rw (← f_pending) e in
          advance_low_water-live t a p e' (v.indexed a p e' (rw (← f_heap) d) n);
    }

resolve_walk-Inv :
    {gone : List (ℕ × ℕ)} (t : Tracker) (n : ℕ) (base : GoError)
    → InvBut gone t
    → let walked = resolve_walk t (live t) n base in
      InvBut gone (record walked.0 { head = t.head + walked.1 })
resolve_walk-Inv t n base v =
    let walked = resolve_walk t (live t) n base in
    let (f_pending, f_order, f_head, f_next, f_closed, few) =
      resolve_walk_frame t (live t) n base in
    record {
      sorted = rw f_order v.sorted;
      head_fits = omega (arith, few, ap length f_order, length-drop t.head t.order, v.head_fits);
      fresh = λ a p e. rw f_next (v.fresh a p (rw (← f_pending) e));
      injective = rw f_pending v.injective;
      indexed = λ a p e d stays.
          let e' : lookup a t.pending ≡ some p = rw (← f_pending) e in
          let before =
            Keeps-unresolved t walked.0 p (resolve_walk-Keeps t (live t) n base) (v.fresh a p e')
              d in
          rw (f_order, drop-drop t.head walked.1 t.order)
            (unresolved_behind_walk t (live t) n a p base (v.fresh a p e') e' d
              (v.indexed a p e' before stays));
    }

resolve_up_to-Inv :
    {gone : List (ℕ × ℕ)} (t : Tracker) (n : ℕ) (base : GoError)
    → InvBut gone t
    → InvBut gone (resolve_up_to t n base)
unfolding resolve_up_to
resolve_up_to-Inv t n base v =
    unfold advance_low_water in advance_low_water-Inv _ (resolve_walk-Inv t n base v)

unfoldable pub inserted : Tracker → ℕ → Tracker
inserted t tag = record t {
  heap = update t.heap t.next fresh_waiter;
  next = suc t.next;
  pending = insert tag t.next t.pending;
}

inserted_index :
    (t : Tracker) (tag : ℕ) → ((inserted t tag).order ≡ t.order) × ((inserted t tag).head ≡ t.head)
unfolding inserted
inserted_index t tag = (refl, refl)

pub inserted_next : (t : Tracker) (tag : ℕ) → (inserted t tag).next ≡ suc t.next
unfolding inserted
inserted_next t tag = refl

pub inserted_cases :
    (t : Tracker) (tag a p : ℕ)
    → lookup a (inserted t tag).pending ≡ some p
    → ((a ≡ tag) × (p ≡ t.next)) ⊎ (lookup a t.pending ≡ some p)
unfolding inserted
inserted_cases t tag a p e = ground (arith, lookup-insert tag a t.next t.pending)

inserted-fresh :
    {gone : List (ℕ × ℕ)} (t : Tracker) (tag a p : ℕ)
    → InvBut gone t
    → lookup a (inserted t tag).pending ≡ some p
    → p < (inserted t tag).next
unfolding inserted
inserted-fresh t tag a p v e = ground (arith, inserted_cases t tag a p e, v.fresh a p)

inserted-Injective :
    {gone : List (ℕ × ℕ)} (t : Tracker) (tag : ℕ)
    → InvBut gone t
    → Injective (inserted t tag).pending
inserted-Injective t tag v a b p e f = ground (
  arith,
  inserted_cases t tag a p e,
  inserted_cases t tag b p f,
  v.fresh a p,
  v.fresh b p,
  v.injective a b p,
)

inserted-indexed :
    {gone : List (ℕ × ℕ)} (t : Tracker) (tag a p : ℕ)
    → InvBut gone t
    → lookup a (inserted t tag).pending ≡ some p
    → ((inserted t tag).heap p).done ≡ none
    → (HasLeft gone p → ⊥)
    → (a ≡ tag) ⊎ In a (live t)
unfolding inserted
inserted-indexed t tag a p v e d n = elim (inserted_cases t tag a p e) [
  | inl new_tag ↦ inl new_tag.0
  | inr old ↦ inr (v.indexed a p old (ground (arith, v.fresh a p old)) n)
]

insert_order-Inv :
    {gone : List (ℕ × ℕ)} (t : Tracker) (tag : ℕ)
    → InvBut gone t
    → InvBut gone (order_insert (inserted t tag) tag)
insert_order-Inv t tag v =
    let u = inserted t tag in
    let (f_pending, f_heap, f_next, f_closed) = order_insert_frame u tag in
    let (same_order, same_head) = inserted_index t tag in
    record {
      sorted = order_insert-IsSorted u tag (rw same_order v.sorted);
      head_fits = order_insert-head u tag (rw (same_order, same_head) v.head_fits);
      fresh = λ a p e. rw f_next (inserted-fresh t tag a p v (rw (← f_pending) e));
      injective = rw f_pending (inserted-Injective t tag v);
      indexed = λ a p e d n. order_insert-live u a tag (rw (same_order, same_head) v.head_fits) (
          rw (same_order, same_head)
            (inserted-indexed t tag a p v (rw (← f_pending) e) (rw (← f_heap) d) n));
    }

pub register_frame :
    (t : Tracker) (tag : ℕ)
    → t.is_closed ≡ false
    → ((register t tag).0.pending ≡ (inserted t tag).pending)
      × ((register t tag).0.heap ≡ (inserted t tag).heap)
unfolding register inserted
register_frame t tag c =
    let u = inserted t tag in
    let f = advance_low_water_frame (order_insert u tag) in
    let g = order_insert_frame u tag in
    let opened = if_false {A = Tracker × GoError} t.is_closed _ _ c in
    (
      ap (λ (r : Tracker × GoError). r.0.pending) opened ∙ f.0 ∙ g.0,
      ap (λ (r : Tracker × GoError). r.0.heap) opened ∙ f.1 ∙ g.1,
    )

pub register-Inv :
    {gone : List (ℕ × ℕ)} (t : Tracker) (tag : ℕ) → InvBut gone t → InvBut gone (register t tag).0
unfolding register inserted
register-Inv {gone = gone} t tag v =
    if_both (λ (r : Tracker × GoError). InvBut gone r.0) t.is_closed _ _ v
      (advance_low_water-Inv _ (insert_order-Inv t tag v))

-- The invariant is kept by an operation that leaves the index and only removes or resolves waiters, or
-- lets a Wait receive its outcome or delete its slot.
pub Inv-left :
    (old new : List (ℕ × ℕ)) (t u : Tracker)
    → u.order ≡ t.order
    → u.head ≡ t.head
    → t.next ≡ u.next
    → ((a p : ℕ) → lookup a u.pending ≡ some p → lookup a t.pending ≡ some p)
    → ((a p : ℕ)
        → lookup a u.pending ≡ some p
        → (u.heap p).done ≡ none
        → (HasLeft new p → ⊥)
        → ((t.heap p).done ≡ none) × (HasLeft old p → ⊥))
    → InvBut old t
    → InvBut new u
Inv-left old new t u o h n sub und v = record {
  sorted = ground arith;
  head_fits = ground arith;
  fresh = λ a p e. omega (arith, v.fresh a p (sub a p e));
  injective = λ a b p e f. v.injective a b p (sub a p e) (sub b p f);
  indexed = λ a p e d stays.
      let before = und a p e d stays in rw (o, h) (v.indexed a p (sub a p e) before.0 before.1);
}

pub Inv-fewer :
    {gone : List (ℕ × ℕ)} (t u : Tracker)
    → u.order ≡ t.order
    → u.head ≡ t.head
    → t.next ≡ u.next
    → ((a p : ℕ) → lookup a u.pending ≡ some p → lookup a t.pending ≡ some p)
    → ((a p : ℕ) → lookup a u.pending ≡ some p → (u.heap p).done ≡ none → (t.heap p).done ≡ none)
    → InvBut gone t
    → InvBut gone u
Inv-fewer {gone} t u o h n sub und v =
    Inv-left gone gone t u o h n sub (λ a p e d stays. (und a p e d, stays)) v

resolve_one-Inv :
    {gone : List (ℕ × ℕ)} (t : Tracker) (x : ℕ) (base : GoError)
    → InvBut gone t
    → InvBut gone (resolve_one t x base)
resolve_one-Inv t x base v =
    let u = resolve_one t x base in
    let (f_pending, f_order, f_head, f_next, f_closed) = resolve_one_frame t x base in
    Inv-fewer t u f_order f_head (sym f_next) (λ a p e. rw (← f_pending) e)
      (λ a p e d.
        Keeps-unresolved t u p (resolve_one-Keeps t x base) (v.fresh a p (rw (← f_pending) e)) d)
      v

settle-Inv :
    {gone : List (ℕ × ℕ)} (t : Tracker) (n : ℕ) (multiple : Bool) (base : GoError)
    → InvBut gone t
    → InvBut gone (settle t n multiple base)
unfolding settle
settle-Inv t n true base v = resolve_up_to-Inv t n base v
settle-Inv t n false base v = resolve_one-Inv t n base v

pub ack-Inv :
    {gone : List (ℕ × ℕ)} (t : Tracker) (n : ℕ) (multiple : Bool)
    → InvBut gone t
    → InvBut gone (ack t n multiple)
unfolding ack
ack-Inv t n multiple v = settle-Inv t n multiple _ v

pub nack-Inv :
    {gone : List (ℕ × ℕ)} (t : Tracker) (n : ℕ) (multiple : Bool)
    → InvBut gone t
    → InvBut gone (nack t n multiple)
unfolding nack
nack-Inv t n multiple v = settle-Inv t n multiple _ v

pub mark_returned-Inv :
    {gone : List (ℕ × ℕ)} (t : Tracker) (tag code : ℕ)
    → InvBut gone t
    → InvBut gone (mark_returned t tag code)
unfolding mark_returned
mark_returned-Inv t tag code v =
    Inv-fewer t (mark_returned t tag code) (ground arith) (ground arith) (ground arith)
      (λ a p e. ground arith) (λ a p e d. ground arith) v

pub erased_sub :
    (m : List (ℕ × ℕ)) (tag a p : ℕ) → lookup a (erase tag m) ≡ some p → lookup a m ≡ some p
erased_sub m tag a p e = ground (arith, lookup-erase tag a m)

close_one-Inv :
    {gone : List (ℕ × ℕ)} (t : Tracker) (e : ℕ × ℕ) → InvBut gone t → InvBut gone (close_one t e)
unfolding close_one send
close_one-Inv t (tag, q) v =
    Inv-fewer t (close_one t (tag, q)) (ground arith) (ground arith) (ground arith)
      (λ a p e. ground (arith, erased_sub t.pending tag a p)) (λ a p e d. ground arith) v

close_loop-Inv :
    {gone : List (ℕ × ℕ)} (t : Tracker) (es : List (ℕ × ℕ))
    → InvBut gone t
    → InvBut gone (close_loop t es)
unfolding close_loop
close_loop-Inv t [] v = v
close_loop-Inv t (e ∷ es) v = close_loop-Inv (close_one t e) es (close_one-Inv t e v)

pub close_all-Inv : {gone : List (ℕ × ℕ)} (t : Tracker) → InvBut gone t → InvBut gone (close_all t)
unfolding close_all
close_all-Inv t v =
    let u = record t { is_closed = true } in
    close_loop-Inv u t.pending (Inv-fewer t u refl refl refl (λ a p e. e) (λ a p e d. d) v)

pub cancel-Inv :
    {gone : List (ℕ × ℕ)} (t : Tracker) (tag : ℕ) → InvBut gone t → InvBut gone (cancel t tag)
unfolding cancel send
cancel-Inv t tag v =
    Inv-fewer t (cancel t tag) (ground arith) (ground arith) (ground arith)
      (λ a p e. ground (arith, erased_sub t.pending tag a p)) (λ a p e d. ground arith) v
