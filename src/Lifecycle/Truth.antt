-- ===== src/Lifecycle/Truth.antt =====
-- What Health says of a consumer and what the broker was told, consumer.go.
use warren.Prelude.{
  ◌≢◌, bytes_Eq, ℕ, ◌≡◌, refl, Bool, true, false, not, ◌&&◌, ◌||◌, Option, none, some, List, [],
  ◌∷◌, arith, nat_eq, nat_eq_iff, nat_Eq, string_Eq,
}
use warren.Errors.{Err}
use warren.Lifecycle.{
  Sent, consume, cancel, Consumer, snapshot, cancel_live, resubscribe_locked, Handoff, taken,
  given_up, fresh_counter, cancel_quietly, hand_over, Opening, no_channel, odd_channel, no_qos,
  no_subscription, opened, subscribed, open_delivery_ch, begin, Holder, nobody, pausing, resuming,
  Machine, pause_begin, resume_begin, Event, begins, closes, stops, opens, pause_begins, pause_ends,
  resume_begins, resume_ends, drains, happen_free, happen_held, happen, happen_all, built,
}

-- Whether the last word of the consumer on a channel is basic.consume.
unfoldable pub on_channel : ℕ → List Sent → Bool
on_channel ch [] = false
on_channel ch (consume d ∷ s) = nat_eq ch d || on_channel ch s
on_channel ch (cancel d ∷ s) = not (nat_eq ch d) && on_channel ch s

abbrev pub live_on : Option ℕ → List Sent → Bool
live_on none s = true
live_on (some ch) s = on_channel ch s

abbrev is_live : ℕ → Option ℕ → Bool
is_live ch none = false
is_live ch (some d) = nat_eq ch d

-- A consumer that is not paused is subscribed, and who holds the lock has paused the one and found the
-- other.
unfoldable pub is_truthful : Machine → Bool
unfolding on_channel
is_truthful m = elim m.holder [
  | nobody ↦ m.consumer.paused || live_on m.consumer.live m.consumer.sent
  | pausing ch ↦ m.consumer.paused && is_live ch m.consumer.live && on_channel ch m.consumer.sent
  | resuming previous ↦ m.consumer.paused && live_on m.consumer.live m.consumer.sent
]

abbrev pub is_drain : Event → Bool
is_drain (drains answer) = true
is_drain _ = false

unfoldable pub has_drained : List Event → Bool
has_drained [] = false
has_drained (e ∷ es) = is_drain e || has_drained es

on_channel-consume : (ch : ℕ) (s : List Sent) → on_channel ch (consume ch ∷ s) ≡ true
unfolding on_channel
on_channel-consume ch s = ground (arith, nat_eq_iff ch ch)

subscribed-on :
    (o : Opening) (c : Consumer)
    → (c.paused || live_on c.live c.sent) ≡ true
    → ((subscribed o c).0.paused || live_on (subscribed o c).0.live (subscribed o c).0.sent) ≡ true
unfolding subscribed
subscribed-on (no_channel e) c t = t
subscribed-on (odd_channel e) c t = t
subscribed-on (no_qos e) c t = t
subscribed-on (no_subscription e) c t = t
subscribed-on (opened ch) c t = on_channel-consume ch c.sent

pause_begin-is_truthful :
    (c : Consumer) → (c.paused || live_on c.live c.sent) ≡ true → is_truthful (pause_begin c) ≡ true
unfolding is_truthful pause_begin
pause_begin-is_truthful c t = grind (arith, nat_eq_iff)

resume_begin-is_truthful :
    (answer : Option Err) (c : Consumer)
    → (c.paused || live_on c.live c.sent) ≡ true
    → is_truthful (resume_begin answer c) ≡ true
unfolding is_truthful resume_begin resubscribe_locked
resume_begin-is_truthful none c t = grind (arith, on_channel-consume)
resume_begin-is_truthful (some e) c t = grind (arith, on_channel-consume)

happen_free-is_truthful :
    (e : Event) (c : Consumer)
    → is_drain e ≡ false
    → (c.paused || live_on c.live c.sent) ≡ true
    → is_truthful (happen_free e c) ≡ true
unfolding is_truthful happen_free begin open_delivery_ch
happen_free-is_truthful begins c going t = ground arith
happen_free-is_truthful closes c going t = t
happen_free-is_truthful stops c going t = t
happen_free-is_truthful (opens o) c going t = subscribed-on o (fresh_counter c) t
happen_free-is_truthful pause_begins c going t = pause_begin-is_truthful c t
happen_free-is_truthful (pause_ends answer) c going t = t
happen_free-is_truthful (resume_begins answer) c going t = resume_begin-is_truthful answer c t
happen_free-is_truthful (resume_ends h) c going t = t
happen_free-is_truthful (drains answer) c going t = cc going

cancel_live-on :
    (ch : ℕ) (answer : Option Err) (c : Consumer)
    → (c.paused && is_live ch c.live && on_channel ch c.sent) ≡ true
    → ((cancel_live ch answer c).0.paused
        || live_on (cancel_live ch answer c).0.live (cancel_live ch answer c).0.sent)
      ≡ true
unfolding cancel_live
cancel_live-on ch none c t = ground arith
cancel_live-on ch (some e) c t = grind (arith, nat_eq_iff)

hand_over-on :
    (h : Handoff) (previous : ℕ) (c : Consumer)
    → (c.paused && live_on c.live c.sent) ≡ true
    → ((hand_over h previous c).0.paused
        || live_on (hand_over h previous c).0.live (hand_over h previous c).0.sent)
      ≡ true
unfolding hand_over cancel_quietly
hand_over-on taken previous c t = ground arith
hand_over-on (given_up e none) previous c t = ground arith
hand_over-on (given_up e (some f)) previous c t = ground arith

happen_held-is_truthful :
    (e : Event) (c : Consumer) (h : Holder)
    → h ≢ nobody
    → is_truthful (record { consumer = c; holder = h }) ≡ true
    → is_truthful (happen_held e c h) ≡ true
unfolding is_truthful happen_held begin
happen_held-is_truthful e c nobody held t = absurd (held refl)
happen_held-is_truthful begins c (pausing ch) held t = ground arith
happen_held-is_truthful closes c (pausing ch) held t = t
happen_held-is_truthful stops c (pausing ch) held t = t
happen_held-is_truthful (opens o) c (pausing ch) held t = t
happen_held-is_truthful pause_begins c (pausing ch) held t = t
happen_held-is_truthful (pause_ends answer) c (pausing ch) held t = cancel_live-on ch answer c t
happen_held-is_truthful (resume_begins answer) c (pausing ch) held t = t
happen_held-is_truthful (resume_ends end) c (pausing ch) held t = t
happen_held-is_truthful (drains answer) c (pausing ch) held t = t
happen_held-is_truthful begins c (resuming n) held t = ground arith
happen_held-is_truthful closes c (resuming n) held t = t
happen_held-is_truthful stops c (resuming n) held t = t
happen_held-is_truthful (opens o) c (resuming n) held t = t
happen_held-is_truthful pause_begins c (resuming n) held t = t
happen_held-is_truthful (pause_ends answer) c (resuming n) held t = t
happen_held-is_truthful (resume_begins answer) c (resuming n) held t = t
happen_held-is_truthful (resume_ends end) c (resuming n) held t = hand_over-on end n c t
happen_held-is_truthful (drains answer) c (resuming n) held t = t

happen-is_truthful :
    (e : Event) (c : Consumer) (h : Holder)
    → is_drain e ≡ false
    → is_truthful (record { consumer = c; holder = h }) ≡ true
    → is_truthful (happen e (record { consumer = c; holder = h })) ≡ true
unfolding happen is_truthful
happen-is_truthful e c nobody going t = happen_free-is_truthful e c going t
happen-is_truthful e c (pausing ch) going t =
    happen_held-is_truthful e c (pausing ch) (λ same. cc same) t
happen-is_truthful e c (resuming n) going t =
    happen_held-is_truthful e c (resuming n) (λ same. cc same) t

happen_all-is_truthful :
    (es : List Event) (m : Machine)
    → has_drained es ≡ false
    → is_truthful m ≡ true
    → is_truthful (happen_all es m) ≡ true
unfolding happen_all has_drained
happen_all-is_truthful [] m going t = t
happen_all-is_truthful (e ∷ es) m going t =
    happen_all-is_truthful es (happen e m) (ground arith)
      (happen-is_truthful e m.consumer m.holder (ground arith) t)

truthful_active :
    (c : Consumer) (h : Holder) (ch : ℕ)
    → is_truthful (record { consumer = c; holder = h }) ≡ true
    → (snapshot c).active ≡ true
    → c.live ≡ some ch
    → on_channel ch c.sent ≡ true
unfolding is_truthful snapshot
truthful_active c nobody ch t active here = grind arith
truthful_active c (pausing d) ch t active here = absurd (ground arith)
truthful_active c (resuming n) ch t active here = absurd (ground arith)

-- At every moment, also between the writes of a Pause or a Resume, whatever calls, reconnects and broker
-- errors come in whatever order before the shutdown of the loop cancels the subscription: when Health
-- reports Active, the last command that the broker has accepted on the live channel, if there is one, is
-- a basic.consume.
pub happen_all-active :
    (es : List Event) (ch : ℕ)
    → has_drained es ≡ false
    → (snapshot (happen_all es built).consumer).active ≡ true
    → (happen_all es built).consumer.live ≡ some ch
    → on_channel ch (happen_all es built).consumer.sent ≡ true
happen_all-active es ch going active here =
    truthful_active (happen_all es built).consumer (happen_all es built).holder ch
      (happen_all-is_truthful es built going (unfold is_truthful in refl)) active here
