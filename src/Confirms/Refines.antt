-- ===== src/Confirms/Refines.antt =====
-- A multiple=true confirm through the index against a scan of the pending tags, tracker.go.
use warren.Prelude.{
  ℕ, ◌+◌, ◌≤◌, ◌≡◌, refl, sym, ap, subst, ◌∙◌, inl, inr, Bool, true, false, ◌&&◌, ◌||◌, Option,
  none, some, List, [], ◌∷◌, arith, leb, nat_eq, if◌then◌else◌, Bool-cases, Option-cases, nat_Eq,
  string_Eq, length, In, lookup,
}
use warren.Confirms.{
  Tracker, Waiter, GoError, nacked, resolve_one, resolve_walk, resolve_up_to, settle, ack, nack,
  advance_low_water,
}
use warren.Confirms.Order.{IsSorted, In-ge, live}
use warren.Confirms.Window.{advance_low_water_frame, live-IsSorted}
use warren.Confirms.Views.{
  waiter_of, Injective, resolve_if, resolve_if-false, resolve_idem, resolve_resolved,
  resolve_one_frame, waiter_of-resolve_one,
}
use warren.Confirms.Invariant.{InvBut, HasLeft}

-- The tags of a list that a frame up to `n` covers.
abbrev covered_in : ℕ → ℕ → List ℕ → Bool
covered_in n a [] = false
covered_in n a (x ∷ xs) = leb x n && (nat_eq x a || covered_in n a xs)

resolve_if-twice :
    (b c : Bool) (base : GoError) (o : Option Waiter)
    → resolve_if c base (resolve_if b base o) ≡ resolve_if (b || c) base o
resolve_if-twice b c base none = refl
resolve_if-twice true c base (some w) = ground (arith, resolve_idem base w)
resolve_if-twice false c base (some w) = refl

pub resolve_walk_frame :
    (t : Tracker) (l : List ℕ) (n : ℕ) (base : GoError)
    → ((resolve_walk t l n base).0.pending ≡ t.pending)
      × ((resolve_walk t l n base).0.order ≡ t.order)
      × ((resolve_walk t l n base).0.head ≡ t.head)
      × ((resolve_walk t l n base).0.next ≡ t.next)
      × ((resolve_walk t l n base).0.is_closed ≡ t.is_closed)
      × ((resolve_walk t l n base).1 ≤ length l)
unfolding resolve_walk
resolve_walk_frame t [] n base = ground arith
resolve_walk_frame t (x ∷ xs) n base =
    ground (arith, resolve_one_frame t x base, resolve_walk_frame (resolve_one t x base) xs n base)

waiter_of-resolve_walk :
    (t : Tracker) (l : List ℕ) (n a : ℕ) (base : GoError)
    → Injective t.pending
    → waiter_of (resolve_walk t l n base).0 a ≡ resolve_if (covered_in n a l) base (waiter_of t a)
unfolding resolve_walk
waiter_of-resolve_walk t [] n a base inj = sym (resolve_if-false base (waiter_of t a))
waiter_of-resolve_walk t (x ∷ xs) n a base inj = elim (Bool-cases (leb x n)) [
  | inl low ↦ rw low (
      waiter_of-resolve_walk (resolve_one t x base) xs n a base
        (subst Injective (sym (resolve_one_frame t x base).0) inj)
      ∙ ap (resolve_if (covered_in n a xs) base) (waiter_of-resolve_one t x a base inj)
      ∙ resolve_if-twice (nat_eq x a) (covered_in n a xs) base (waiter_of t a))
  | inr high ↦ rw high (sym (resolve_if-false base (waiter_of t a)))
]

-- In an ascending list the walk covers exactly the members up to `n`.
covered_in-sorted : (n a : ℕ) (l : List ℕ) → IsSorted l → In a l → covered_in n a l ≡ leb a n
covered_in-sorted n a [] s m = absurd m
covered_in-sorted n a (x ∷ xs) s (inl e) = ground arith
covered_in-sorted n a (x ∷ xs) s (inr m) =
    ground (arith, covered_in-sorted n a xs s.1 m, In-ge x a xs s.0 m)

waiter_of-advance_low_water :
    (t : Tracker) (a : ℕ) → waiter_of (advance_low_water t) a ≡ waiter_of t a
unfolding waiter_of
waiter_of-advance_low_water t a = ground (arith, advance_low_water_frame t)

resolve_if-none :
    (b : Bool) (base : GoError) (o : Option Waiter) → o ≡ none → resolve_if b base o ≡ o
resolve_if-none b base o e = ground arith

resolve_if-resolved :
    (b : Bool) (base r : GoError) (w : Waiter) (o : Option Waiter)
    → o ≡ some w
    → w.done ≡ some r
    → resolve_if b base o ≡ o
resolve_if-resolved true base r w o e d = rw e (ap some (resolve_resolved base r w d))
resolve_if-resolved false base r w o e d = resolve_if-false base o

waiter_of-none : (t : Tracker) (a : ℕ) → lookup a t.pending ≡ none → waiter_of t a ≡ none
unfolding waiter_of
waiter_of-none t a e = rw (e, waiter_of)

waiter_of-some :
    (t : Tracker) (a p : ℕ) → lookup a t.pending ≡ some p → waiter_of t a ≡ some (t.heap p)
unfolding waiter_of
waiter_of-some t a p e = rw (e, waiter_of)

-- Where the walk and a scan differ, the waiter is resolved already.
covered_in-live :
    {gone : List (ℕ × ℕ)} (t : Tracker) (n a : ℕ) (base : GoError)
    → InvBut gone t
    → ((p : ℕ) → lookup a t.pending ≡ some p → HasLeft gone p → ⊥)
    → resolve_if (covered_in n a (live t)) base (waiter_of t a)
      ≡ resolve_if (leb a n) base (waiter_of t a)
covered_in-live t n a base v stays = elim (Option-cases (lookup a t.pending)) [
  | inl gone ↦
      let e = waiter_of-none t a gone in
      resolve_if-none (covered_in n a (live t)) base _ e ∙ sym (resolve_if-none (leb a n) base _ e)
  | inr (p, found) ↦ elim (Option-cases (t.heap p).done) [
    | inl unresolved ↦
        ap (λ b. resolve_if b base (waiter_of t a))
          (covered_in-sorted n a (live t) (live-IsSorted t v.sorted)
            (v.indexed a p found unresolved (stays p found)))
    | inr (r, done) ↦
        let e = waiter_of-some t a p found in
        resolve_if-resolved (covered_in n a (live t)) base r _ _ e done
        ∙ sym (resolve_if-resolved (leb a n) base r _ _ e done)
  ]
]

waiter_of-head : (t : Tracker) (h a : ℕ) → waiter_of (record t { head = h }) a ≡ waiter_of t a
unfolding waiter_of
waiter_of-head t h a = refl

pub waiter_of-resolve_up_to :
    {gone : List (ℕ × ℕ)} (t : Tracker) (n a : ℕ) (base : GoError)
    → InvBut gone t
    → ((p : ℕ) → lookup a t.pending ≡ some p → HasLeft gone p → ⊥)
    → waiter_of (resolve_up_to t n base) a ≡ resolve_if (leb a n) base (waiter_of t a)
unfolding resolve_up_to
waiter_of-resolve_up_to t n a base v stays =
    let walked = resolve_walk t (live t) n base in
    waiter_of-advance_low_water (record walked.0 { head = t.head + walked.1 }) a
    ∙ waiter_of-head walked.0 (t.head + walked.1) a
    ∙ waiter_of-resolve_walk t (live t) n a base v.injective
    ∙ covered_in-live t n a base v stays

settle-waiter_of :
    {gone : List (ℕ × ℕ)} (t : Tracker) (n a : ℕ) (multiple : Bool) (base : GoError)
    → InvBut gone t
    → ((p : ℕ) → lookup a t.pending ≡ some p → HasLeft gone p → ⊥)
    → waiter_of (settle t n multiple base) a
      ≡ resolve_if (if multiple then leb a n else nat_eq n a) base (waiter_of t a)
unfolding settle
settle-waiter_of t n a true base v stays = waiter_of-resolve_up_to t n a base v stays
settle-waiter_of t n a false base v stays = waiter_of-resolve_one t n a base v.injective

-- Ack and Nack, single or multiple, resolve the waiters of exactly the tags that the frame covers
-- (with success or the noted return for Ack, with ErrNacked for Nack) and leave every other tag's
-- waiter as it was: the walk over the ascending index from the low-water-mark does what a scan of
-- all pending tags does, but for the tags of calls of Wait that have received their outcome and not yet
-- deleted their slot.
pub ack-nack_scan :
    {gone : List (ℕ × ℕ)} (t : Tracker) (n a : ℕ) (multiple : Bool)
    → InvBut gone t
    → ((p : ℕ) → lookup a t.pending ≡ some p → HasLeft gone p → ⊥)
    → (waiter_of (ack t n multiple) a
        ≡ resolve_if (if multiple then leb a n else nat_eq n a) none (waiter_of t a))
      × (waiter_of (nack t n multiple) a
          ≡ resolve_if (if multiple then leb a n else nat_eq n a) (some nacked) (waiter_of t a))
unfolding ack nack
ack-nack_scan t n a multiple v stays = (
  settle-waiter_of t n a multiple none v stays,
  settle-waiter_of t n a multiple (some nacked) v stays,
)
