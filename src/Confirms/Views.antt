-- ===== src/Confirms/Views.antt =====
-- What the callers of a tracker see: the waiter of each pending tag.
use warren.Prelude.{
  ℕ, ◌≡◌, refl, inl, inr, Bool, false, List, Option, none, some, arith, nat_eq, if◌then◌else◌,
  lookup, nat_Eq, Bool-cases, Option-cases,
}
use warren.Confirms.{Tracker, Waiter, GoError, send, resolve, resolve_one}

unfoldable pub waiter_of : Tracker → ℕ → Option Waiter
waiter_of t tag = elim (lookup tag t.pending) [ none ↦ none | some p ↦ some (t.heap p) ]

-- No two tags share a waiter.
abbrev pub Injective : List (ℕ × ℕ) → Type 0
Injective m = (a b p : ℕ) → lookup a m ≡ some p → lookup b m ≡ some p → a ≡ b

-- What a confirm does to the waiter of a tag that it covers.
abbrev pub resolve_if : Bool → GoError → Option Waiter → Option Waiter
resolve_if covered base none = none
resolve_if covered base (some w) = some (if covered then resolve base w else w)

pub resolve_if-false : (base : GoError) (o : Option Waiter) → resolve_if false base o ≡ o
resolve_if-false base none = refl
resolve_if-false base (some w) = refl

pub resolve_idem : (base : GoError) (w : Waiter) → resolve base (resolve base w) ≡ resolve base w
unfolding send
resolve_idem base w = ground arith

pub resolve_resolved : (base r : GoError) (w : Waiter) → w.done ≡ some r → resolve base w ≡ w
unfolding send
resolve_resolved base r w e = ground arith

pub resolve_one_frame :
    (t : Tracker) (x : ℕ) (base : GoError)
    → ((resolve_one t x base).pending ≡ t.pending)
      × ((resolve_one t x base).order ≡ t.order)
      × ((resolve_one t x base).head ≡ t.head)
      × ((resolve_one t x base).next ≡ t.next)
      × ((resolve_one t x base).is_closed ≡ t.is_closed)
unfolding resolve_one
resolve_one_frame t x base = ground arith

-- One resolution touches the waiter of its own tag.
pub waiter_of-resolve_one :
    (t : Tracker) (x a : ℕ) (base : GoError)
    → Injective t.pending
    → waiter_of (resolve_one t x base) a ≡ resolve_if (nat_eq x a) base (waiter_of t a)
unfolding waiter_of resolve_one
waiter_of-resolve_one t x a base inj = elim (Option-cases (lookup x t.pending)) [
  | inl none_x ↦ elim (Option-cases (lookup a t.pending)) [
    | inl none_a ↦ ground arith
    | inr (q, a_q) ↦ ground arith
  ]
  | inr (p, x_p) ↦ elim (Option-cases (lookup a t.pending)) [
    | inl none_a ↦ ground arith
    | inr (q, a_q) ↦ elim (Bool-cases (nat_eq p q)) [
      | inl same ↦ ground (arith, inj x a p)
      | inr other ↦ ground arith
    ]
  ]
]
