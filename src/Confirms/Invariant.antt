-- ===== src/Confirms/Invariant.antt =====
-- The invariant of a tracker, and of a tracker with the calls of Wait that block on it.
use warren.Prelude.{
  ◌⊎◌, ℕ, ◌≤◌, ◌<◌, ◌≡◌, Bool, none, some, List, [], ◌∷◌, ◌++◌, nat_Eq, string_Eq, length, In,
  lookup,
}
use warren.Confirms.{
  Tracker, GoError, Wake, register, mark_returned, ack, nack, close_all, cancel, wait_begin,
  wait_end, wait_receive, wait_release, new,
}
use warren.Confirms.Order.{IsSorted, live}
use warren.Confirms.Views.{Injective}

-- The waiters of calls of Wait that have received their outcome and not yet deleted their slot.
abbrev pub HasLeft : List (ℕ × ℕ) → ℕ → Type 0
HasLeft [] p = ⊥
HasLeft ((tag, q) ∷ ws) p = (p ≡ q) ⊎ HasLeft ws p

-- Every unresolved pending tag is in the window that a multiple=true frame walks, but for the slots that
-- such calls have still to delete.
pub record InvBut (gone : List (ℕ × ℕ)) (t : Tracker) : Type 0 where
  pub sorted : IsSorted t.order
  pub head_fits : t.head ≤ length t.order
  pub fresh : (a p : ℕ) → lookup a t.pending ≡ some p → p < t.next
  pub injective : Injective t.pending
  pub indexed :
      (a p : ℕ)
      → lookup a t.pending ≡ some p
      → (t.heap p).done ≡ none
      → (HasLeft gone p → ⊥)
      → In a (live t)

-- The invariant of a tracker that no such call stands in.
abbrev pub Inv : Tracker → Type 0
Inv t = InvBut [] t

-- A blocked call of Wait: its tag and the waiter that it found.
abbrev pub Owned : Tracker → ℕ × ℕ → Type 0
Owned t (tag, p) = (p < t.next) × ((b : ℕ) → lookup b t.pending ≡ some p → b ≡ tag)

abbrev pub AllOwned : Tracker → List (ℕ × ℕ) → Type 0
AllOwned t [] = Unit {0}
AllOwned t (w ∷ ws) = Owned t w × AllOwned t ws

pub record System : Type 0 where
  pub tracker : Tracker
  pub waiting : List (ℕ × ℕ)
  pub leaving : List (ℕ × ℕ)

pub record SystemInv (s : System) : Type 0 where
  pub inv : InvBut s.leaving s.tracker
  pub owned : AllOwned s.tracker s.waiting
  pub left : AllOwned s.tracker s.leaving

-- What a step shows: a Wait that took the outcome `r` out of the waiter `p`, or nothing.
pub data Event : Type 0 where
  silent : Event
  received : ℕ → GoError → Event

abbrev pub event_of : ℕ → Wake → GoError → Event
event_of p Wake.confirmed r = received p r
event_of p Wake.timer_fired r = silent
event_of p Wake.context_cancelled r = silent

-- The steps of the publishers, of the broker's frames and of the shutdown, in any order. A Wait that
-- takes an outcome does so in two steps, between which any other may come.
pub data Step (s : System) : Event → System → Type 0 where
  registers : (tag : ℕ) → Step s silent (record s { tracker = (register s.tracker tag).0 })
  marks : (tag code : ℕ) → Step s silent (record s { tracker = mark_returned s.tracker tag code })
  acks :
      (tag : ℕ) (multiple : Bool)
      → Step s silent (record s { tracker = ack s.tracker tag multiple })
  nacks :
      (tag : ℕ) (multiple : Bool)
      → Step s silent (record s { tracker = nack s.tracker tag multiple })
  closes : Step s silent (record s { tracker = close_all s.tracker })
  cancels : (tag : ℕ) → Step s silent (record s { tracker = cancel s.tracker tag })
  waits :
      (tag p : ℕ)
      → wait_begin s.tracker tag ≡ some p
      → Step s silent (record s { waiting = (tag, p) ∷ s.waiting })
  wakes :
      (before after : List (ℕ × ℕ)) (tag p : ℕ) (bounded : Bool) (wake : Wake) (t : Tracker)
      (r : GoError)
      → s.waiting ≡ before ++ (tag, p) ∷ after
      → wait_end s.tracker tag p bounded wake ≡ some (t, r)
      → Step s (event_of p wake r) (record s { tracker = t; waiting = before ++ after })
  receives :
      (before after : List (ℕ × ℕ)) (tag p : ℕ) (t : Tracker) (r : GoError)
      → s.waiting ≡ before ++ (tag, p) ∷ after
      → wait_receive s.tracker p ≡ some (t, r)
      → Step s
          (received p r)
          (record { tracker = t; waiting = before ++ after; leaving = (tag, p) ∷ s.leaving })
  releases :
      (before after : List (ℕ × ℕ)) (tag p : ℕ)
      → s.leaving ≡ before ++ (tag, p) ∷ after
      → Step s silent (record s { tracker = wait_release s.tracker tag; leaving = before ++ after })

pub data Reach (s : System) : System → Type 0 where
  here : Reach s s
  next_step : {t u : System} {e : Event} → Reach s t → Step t e u → Reach s u

abbrev pub start : System
start = record { tracker = new; waiting = []; leaving = [] }
