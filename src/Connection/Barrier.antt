-- ===== src/Connection/Barrier.antt =====
-- The wait of a publisher for the reconnect barrier, connection.go: waitBarrier.
--
-- A `Look` is what the waiter sees at one turn under the lock: the two flags, the clock and the error of
-- its context. The first look is the test of the loop on entry; each later one is a wake-up of the
-- condition variable and, if the loop goes on, the test after it. A list that ends leaves it waiting. The
-- zero time of `capDeadline` is `none`, which no clock reading is before.
use warren.Prelude.{
  bytes_Eq, ℕ, ◌+◌, ◌≤◌, ◌≡◌, refl, ◌∙◌, Bool, true, false, not, ◌&&◌, ◌||◌, Option, none, some,
  List, [], ◌∷◌, ◌++◌, arith, ltb, leb, if◌then◌else◌, nat_Eq, string_Eq,
}
use warren.Errors.{Err, sentinel, wrap_one, wrap_two, reconnecting, connection_blocked}

pub record Look : Type 0 where
  pub is_reconnecting : Bool
  pub is_blocked : Bool
  pub now : ℕ
  pub context_error : Option Err

pub data Waited : Type 0 where
  waiting : Waited
  passed : Option Err → Waited
  refused : Err → Waited

-- capDeadline at the test of the loop.
abbrev pub deadline_at : ℕ → Option ℕ → Look → Option ℕ
deadline_at cap d s =
    if s.is_reconnecting then (elim d [ some t ↦ some t | none ↦ some (s.now + cap) ]) else none

abbrev pub is_past : Option ℕ → ℕ → Bool
is_past none now = true
is_past (some t) now = leb t now

abbrev pub context_refusal : Look → Err → Waited
context_refusal s e =
    refused (wrap_two (sentinel (if s.is_reconnecting then reconnecting else connection_blocked)) e)

-- What follows a wake-up: `rest` is the next turn of the loop.
abbrev pub after_wake : Option ℕ → Look → Option Err → Waited → Waited
after_wake d s (some e) rest = context_refusal s e
after_wake d s none rest =
    if s.is_reconnecting && is_past d s.now
    then refused (wrap_one (sentinel reconnecting))
    else rest

-- The loop from a test on: the state at the test, the deadline before it, the wake-ups to come.
unfoldable pub wait_loop : ℕ → Option Err → Option ℕ → Look → List Look → Waited
wait_loop cap degraded d s [] =
    if s.is_reconnecting || s.is_blocked then waiting else passed degraded
wait_loop cap degraded d s (w ∷ ws) =
    let next = deadline_at cap d s in
    let rest = wait_loop cap degraded next w ws in
    if s.is_reconnecting || s.is_blocked
    then after_wake next w w.context_error rest
    else passed degraded

unfoldable pub wait_barrier : ℕ → Option Err → Look → List Look → Waited
unfolding wait_loop
wait_barrier cap degraded s ws = wait_loop cap degraded none s ws

-- The looks at which a waiter stays: something holds it, and its context is not done.
abbrev pub is_none : Option Err → Bool
is_none none = true
is_none (some e) = false

abbrev pub all_reconnecting : List Look → Bool
all_reconnecting [] = true
all_reconnecting (w ∷ ws) = w.is_reconnecting && is_none w.context_error && all_reconnecting ws

abbrev pub all_before : ℕ → List Look → Bool
all_before t [] = true
all_before t (w ∷ ws) = ltb w.now t && all_before t ws

reconnecting_waits :
    (cap t : ℕ) (degraded : Option Err) (s : Look) (ws : List Look)
    → s.is_reconnecting ≡ true
    → all_reconnecting ws ≡ true
    → all_before t ws ≡ true
    → wait_loop cap degraded (some t) s ws ≡ waiting
unfolding wait_loop
reconnecting_waits cap t degraded s [] r a b = ground arith
reconnecting_waits cap t degraded s (w ∷ ws) r a b =
    ground (arith, reconnecting_waits cap t degraded w ws)

refused_late :
    (cap t : ℕ) (degraded : Option Err) (s w : Look) (ws : List Look)
    → s.is_reconnecting ≡ true
    → all_reconnecting (ws ++ w ∷ []) ≡ true
    → all_before t ws ≡ true
    → t ≤ w.now
    → wait_loop cap degraded (some t) s (ws ++ w ∷ []) ≡ refused (wrap_one (sentinel reconnecting))
unfolding wait_loop
refused_late cap t degraded s w [] r a b late = ground arith
refused_late cap t degraded s w (v ∷ ws) r a b late =
    ground (arith, refused_late cap t degraded v w ws)

anchored :
    (cap : ℕ) (degraded : Option Err) (s : Look) (ws : List Look)
    → s.is_reconnecting ≡ true
    → wait_loop cap degraded none s ws ≡ wait_loop cap degraded (some (s.now + cap)) s ws
unfolding wait_loop
anchored cap degraded s [] r = refl
anchored cap degraded s (w ∷ ws) r = rw r refl

init_reconnecting :
    (ws : List Look) (w : Look)
    → all_reconnecting (ws ++ w ∷ []) ≡ true
    → all_reconnecting ws ≡ true
init_reconnecting [] w h = refl
init_reconnecting (v ∷ ws) w h = ground (arith, init_reconnecting ws w)

-- A publisher that finds a barrier up waits for as long as the barrier is up, its context is not done and
-- less than the cap has passed; at the first wake-up after the cap it gets ErrReconnecting.
pub wait_barrier-capped :
    (cap : ℕ) (degraded : Option Err) (s w : Look) (ws : List Look)
    → s.is_reconnecting ≡ true
    → all_reconnecting (ws ++ w ∷ []) ≡ true
    → all_before (s.now + cap) ws ≡ true
    → s.now + cap ≤ w.now
    → (wait_barrier cap degraded s ws ≡ waiting)
      × (wait_barrier cap degraded s (ws ++ w ∷ []) ≡ refused (wrap_one (sentinel reconnecting)))
unfolding wait_barrier
wait_barrier-capped cap degraded s w ws r a b late = (
  anchored cap degraded s ws r
      ∙ reconnecting_waits cap (s.now + cap) degraded s ws r (init_reconnecting ws w a) b,
  anchored cap degraded s (ws ++ w ∷ []) r
      ∙ refused_late cap (s.now + cap) degraded s w ws r a b late,
)

-- A publisher that waits because the broker blocks the connection and is woken while a barrier is up
-- gets ErrReconnecting at once, whatever the cap and the time are: the deadline that it compares with
-- was never set.
pub wait_barrier-unanchored :
    (cap : ℕ) (degraded : Option Err) (s w : Look) (ws : List Look)
    → s.is_reconnecting ≡ false
    → s.is_blocked ≡ true
    → w.is_reconnecting ≡ true
    → w.context_error ≡ none
    → wait_barrier cap degraded s (w ∷ ws) ≡ refused (wrap_one (sentinel reconnecting))
unfolding wait_barrier wait_loop
wait_barrier-unanchored cap degraded s w ws r b u c = rw (r, b, c, u) refl

abbrev pub is_free : Look → Bool
is_free s = not s.is_reconnecting && not s.is_blocked

abbrev pub any_free : List Look → Bool
any_free [] = false
any_free (s ∷ ws) = is_free s || any_free ws

loop_passed :
    (cap : ℕ) (degraded r : Option Err) (d : Option ℕ) (s : Look) (ws : List Look)
    → wait_loop cap degraded d s ws ≡ passed r
    → (r ≡ degraded) × (any_free (s ∷ ws) ≡ true)
unfolding wait_loop
loop_passed cap degraded r d s [] h = ground arith
loop_passed cap degraded r d s (w ∷ ws) h =
    ground (arith, loop_passed cap degraded r (deadline_at cap d s) w ws)

-- A publisher passes only at a moment when neither a barrier is up nor the broker blocks, and then with
-- the error of a degraded topology if there is one.
pub wait_barrier-passed :
    (cap : ℕ) (degraded r : Option Err) (s : Look) (ws : List Look)
    → wait_barrier cap degraded s ws ≡ passed r
    → (r ≡ degraded) × (any_free (s ∷ ws) ≡ true)
unfolding wait_barrier
wait_barrier-passed cap degraded r s ws h = loop_passed cap degraded r none s ws h
