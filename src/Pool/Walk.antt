-- ===== src/Pool/Walk.antt =====
-- What getOrOpen does to the idle list, channelpool.go.
use warren.Prelude.{
  ℕ, ◌+◌, ◌≡◌, refl, ◌⊎◌, inl, inr, Bool, true, not, ◌&&◌, Option, none, some, List, [], ◌∷◌, ◌++◌,
  arith, nat_eq, if◌then◌else◌, Bool-cases, nat_Eq, string_Eq, length,
}
use warren.Pool.{take_live}

abbrev pub count : ℕ → List ℕ → ℕ
count x [] = 0
count x (y ∷ ys) = (if nat_eq x y then 1 else 0) + count x ys

pub count-append : (x : ℕ) (xs ys : List ℕ) → count x (xs ++ ys) ≡ count x xs + count x ys
count-append x [] ys = omega arith
count-append x (y ∷ xs) ys = omega (arith, count-append x xs ys)

abbrev pub count_found : ℕ → Option ℕ → ℕ
count_found x none = 0
count_found x (some y) = if nat_eq x y then 1 else 0

abbrev pub size_found : Option ℕ → ℕ
size_found none = 0
size_found (some y) = 1

abbrev pub all_closed : (ℕ → Bool) → List ℕ → Bool
all_closed closed [] = true
all_closed closed (x ∷ xs) = closed x && all_closed closed xs

abbrev pub live_ok : (ℕ → Bool) → Option ℕ → Bool
live_ok closed none = true
live_ok closed (some x) = not (closed x)

-- No idle entry is lost or doubled by the walk, only entries that the broker has closed are thrown
-- away, the entry that is found is live, and when none is found nothing stays idle.
pub take_live_lem :
    (closed : ℕ → Bool) (free : List ℕ) (x : ℕ)
    → let t = take_live closed free in
      (count_found x t.live + count x t.rest + count x t.stale ≡ count x free)
      × (size_found t.live + length t.rest + length t.stale ≡ length free)
      × (all_closed closed t.stale ≡ true)
      × (live_ok closed t.live ≡ true)
      × ((t.rest ≡ []) ⊎ (size_found t.live ≡ 1))
unfolding take_live
take_live_lem closed [] x = (refl, refl, refl, refl, inl refl)
take_live_lem closed (y ∷ ys) x = elim (Bool-cases (closed y)) [
  | inl stale ↦ ground (arith, take_live_lem closed ys x)
  | inr live ↦ ground arith
]
