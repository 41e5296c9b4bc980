-- ===== src/Confirms/Window.antt =====
-- The confirmed low-water-mark of the index, tracker.go: advanceLowWater, compactOrder.
use native.Mathlib.Nat.{suc-add}
use warren.Prelude.{
  ℕ, zero, suc, ◌+◌, ◌≤◌, ◌≡◌, refl, ap, inl, inr, List, [], ◌∷◌, none, some, arith, length, drop,
  lookup, nat_Eq, In, drop_all, length-drop, Option-cases,
}
use warren.Confirms.{Tracker, compact_order, dead_prefix, advance_low_water}
use warren.Confirms.Order.{IsSorted, live}

drop-nil : (n : ℕ) → drop {A = ℕ} n [] ≡ []
drop-nil zero = refl
drop-nil (suc n) = refl

pub drop-drop : (a b : ℕ) (xs : List ℕ) → drop (a + b) xs ≡ drop b (drop a xs)
drop-drop zero b xs = ap (λ n. drop n xs) (omega arith)
drop-drop (suc a) b [] = rw (suc-add, drop-nil b)
drop-drop (suc a) b (x ∷ xs) = rw suc-add (drop-drop a b xs)

dead_prefix-le : (m : List (ℕ × ℕ)) (xs : List ℕ) → dead_prefix m xs ≤ length xs
unfolding dead_prefix
dead_prefix-le m [] = omega arith
dead_prefix-le m (x ∷ xs) = ground (arith, dead_prefix-le m xs)

In-drop-dead_prefix :
    (m : List (ℕ × ℕ)) (a p : ℕ) (xs : List ℕ)
    → lookup a m ≡ some p
    → In a xs
    → In a (drop (dead_prefix m xs) xs)
unfolding dead_prefix
In-drop-dead_prefix m a p [] e i = i
In-drop-dead_prefix m a p (x ∷ xs) e i = elim (Option-cases (lookup x m)) [
  | inr (q, found) ↦ rw (found, dead_prefix) i
  | inl gone ↦ rw (gone, dead_prefix) (In-drop-dead_prefix m a p xs e (still gone i))
]
  where
    still : lookup x m ≡ none → In a (x ∷ xs) → In a xs
    still gone (inl same) = cc
    still gone (inr later) = later

-- Compaction drops the dead prefix only.
pub live-compact_order : (t : Tracker) → live (compact_order t) ≡ live t
unfolding compact_order
live-compact_order t = ground (arith, drop_all t.head t.order)

-- Advancing the low-water-mark keeps every pending tag of the window in it.
pub advance_low_water-live :
    (t : Tracker) (a p : ℕ)
    → lookup a t.pending ≡ some p
    → In a (live t)
    → In a (live (advance_low_water t))
unfolding advance_low_water
advance_low_water-live t a p e i = rw live-compact_order (
    rw (drop-drop t.head (dead_prefix t.pending (live t)) t.order)
      (In-drop-dead_prefix t.pending a p (live t) e i))

drop-IsSorted : (n : ℕ) (xs : List ℕ) → IsSorted xs → IsSorted (drop n xs)
drop-IsSorted zero xs s = s
drop-IsSorted (suc n) [] s = s
drop-IsSorted (suc n) (x ∷ xs) s = drop-IsSorted n xs s.1

pub live-IsSorted : (t : Tracker) → IsSorted t.order → IsSorted (live t)
live-IsSorted t s = drop-IsSorted t.head t.order s

compact_order-IsSorted : (t : Tracker) → IsSorted t.order → IsSorted (compact_order t).order
unfolding compact_order
compact_order-IsSorted t s = ground (arith, drop-IsSorted t.head t.order s)

pub advance_low_water-IsSorted :
    (t : Tracker) → IsSorted t.order → IsSorted (advance_low_water t).order
unfolding advance_low_water
advance_low_water-IsSorted t s = compact_order-IsSorted _ s

pub advance_low_water-head :
    (t : Tracker)
    → t.head ≤ length t.order
    → (advance_low_water t).head ≤ length (advance_low_water t).order
unfolding advance_low_water compact_order
advance_low_water-head t le =
    ground (arith, dead_prefix-le t.pending (live t), length-drop t.head t.order)

pub advance_low_water_frame :
    (t : Tracker)
    → ((advance_low_water t).pending ≡ t.pending)
      × ((advance_low_water t).heap ≡ t.heap)
      × ((advance_low_water t).next ≡ t.next)
      × ((advance_low_water t).is_closed ≡ t.is_closed)
unfolding advance_low_water compact_order
advance_low_water_frame t = ground arith
