-- ===== src/Delivery/Once.antt =====
-- The verdict calls on one delivery, in sequence, delivery.go.
use warren.Prelude.{
  ℕ, ◌+◌, ◌≤◌, ◌≡◌, refl, subst, Bool, true, false, not, ◌&&◌, Option, none, some, List, [], ◌∷◌,
  ◌++◌, arith, nat_eq, if◌then◌else◌, nat_Eq, string_Eq, length, length-append,
}
use warren.Errors.{Err}
use warren.Delivery.{
  Frame, Delivery, Settled, ack_frame, nack_frame, ack, nack, nack_on_timeout, ack_if,
}

-- The calls that race for the verdict, and the shutdown of the consumer.
pub data Call : Type 0 where
  acks : Option Err → Call
  nacks : Bool → Option Err → Call
  times_out : Bool → Call
  acks_if : Option Err → Option Err → Call
  shuts_down : Call

unfoldable pub perform : Call → Delivery → Settled
unfolding ack nack nack_on_timeout ack_if
perform (acks reply) d = ack reply d
perform (nacks again reply) d = nack again reply d
perform (times_out again) d = nack_on_timeout again d
perform (acks_if e reply) d = ack_if e reply d
perform shuts_down d = record {
  delivery = record d { done = elim d.done [ none ↦ none | some shut ↦ some true ] };
  frames = [];
  notified = false;
  error = none;
}

-- The frames of a sequence of calls.
unfoldable pub frames_of : List Call → Delivery → List Frame
unfolding perform
frames_of [] d = []
frames_of (c ∷ cs) d = let s = perform c d in s.frames ++ frames_of cs s.delivery

abbrev pub names_tag : ℕ → Frame → Bool
names_tag n (ack_frame m multiple) = nat_eq m n && not multiple
names_tag n (nack_frame m multiple again) = nat_eq m n && not multiple

abbrev pub all_name : ℕ → List Frame → Bool
all_name n [] = true
all_name n (f ∷ fs) = names_tag n f && all_name n fs

abbrev pub times_out_in : List Call → Bool
times_out_in [] = false
times_out_in (times_out again ∷ cs) = true
times_out_in (acks reply ∷ cs) = times_out_in cs
times_out_in (nacks again reply ∷ cs) = times_out_in cs
times_out_in (acks_if e reply ∷ cs) = times_out_in cs
times_out_in (shuts_down ∷ cs) = times_out_in cs

abbrev pub bit : Bool → ℕ
bit b = if b then 1 else 0

-- A call sends a frame exactly when it takes the verdict, and the frame names the delivery alone.
abbrev pub Verdict : Call → Delivery → Type 0
Verdict c d =
    ((perform c d).delivery.tag ≡ d.tag)
    × (all_name d.tag (perform c d).frames ≡ true)
    × (length (perform c d).frames + bit d.resolved ≡ bit (perform c d).delivery.resolved)

pub perform-Verdict : (c : Call) (d : Delivery) → Verdict c d
unfolding perform ack nack nack_on_timeout ack_if
perform-Verdict (acks none) d = ground arith
perform-Verdict (acks (some e)) d = ground arith
perform-Verdict (nacks again none) d = ground arith
perform-Verdict (nacks again (some e)) d = ground arith
perform-Verdict (times_out again) d = ground arith
perform-Verdict (acks_if none none) d = ground arith
perform-Verdict (acks_if none (some r)) d = ground arith
perform-Verdict (acks_if (some e) none) d = ground arith
perform-Verdict (acks_if (some e) (some r)) d = ground arith
perform-Verdict shuts_down d = ground arith

all_name-append :
    (n : ℕ) (fs gs : List Frame)
    → all_name n fs ≡ true
    → all_name n gs ≡ true
    → all_name n (fs ++ gs) ≡ true
all_name-append n [] gs h k = k
all_name-append n (f ∷ fs) gs h k = ground (arith, all_name-append n fs gs)

resolves : (again : Bool) (d : Delivery) → (perform (times_out again) d).delivery.resolved ≡ true
unfolding perform nack_on_timeout
resolves again d = ground arith

abbrev pub times_out_call : Call → Bool
times_out_call (times_out again) = true
times_out_call (acks reply) = false
times_out_call (nacks again reply) = false
times_out_call (acks_if e reply) = false
times_out_call shuts_down = false

times_out_step :
    (c : Call) (d : Delivery) → bit (times_out_call c) ≤ bit (perform c d).delivery.resolved
unfolding perform nack_on_timeout
times_out_step (acks reply) d = omega arith
times_out_step (nacks again reply) d = omega arith
times_out_step (times_out again) d = ground (arith, resolves again d)
times_out_step (acks_if e reply) d = omega arith
times_out_step shuts_down d = omega arith

times_out_cons :
    (c : Call) (cs : List Call)
    → bit (times_out_in (c ∷ cs)) ≤ bit (times_out_call c) + bit (times_out_in cs)
times_out_cons (acks reply) cs = omega arith
times_out_cons (nacks again reply) cs = omega arith
times_out_cons (times_out again) cs = omega arith
times_out_cons (acks_if e reply) cs = omega arith
times_out_cons shuts_down cs = omega arith

bit_small : (b : Bool) → bit b ≤ 1
bit_small b = ground arith

-- Over any sequence of verdict calls on one delivery, with timeouts, shutdowns and failing brokers
-- in between, at most one frame goes out, it names this delivery alone, none goes out when the
-- delivery was resolved before, and one does when it was open and a timeout is among the calls.
pub frames_of-once :
    (cs : List Call) (d : Delivery)
    → (all_name d.tag (frames_of cs d) ≡ true)
      × (length (frames_of cs d) + bit d.resolved ≤ 1)
      × (bit (times_out_in cs) ≤ length (frames_of cs d) + bit d.resolved)
unfolding frames_of
frames_of-once [] d = (refl, omega (arith, bit_small d.resolved), omega arith)
frames_of-once (c ∷ cs) d =
    let (own, named, counted) = perform-Verdict c d in
    let (rest_named, rest_few, rest_timed) = frames_of-once cs (perform c d).delivery in
    (
      all_name-append d.tag (perform c d).frames (frames_of cs (perform c d).delivery) named
          (subst (λ n. all_name n (frames_of cs (perform c d).delivery) ≡ true) own rest_named),
      omega (
        arith,
        counted,
        rest_few,
        length-append (perform c d).frames (frames_of cs (perform c d).delivery),
      ),
      omega (
        arith,
        counted,
        rest_few,
        rest_timed,
        bit_small (times_out_in (c ∷ cs)),
        bit_small (perform c d).delivery.resolved,
        times_out_cons c cs,
        times_out_step c d,
        length-append (perform c d).frames (frames_of cs (perform c d).delivery),
      ),
    )
