-- ===== src/Publisher/Attempt/Released.antt =====
-- What an attempt to publish holds on to when it ends, publishOnce in publisher.go.
use warren.Prelude.{
  bytes_Eq, ℕ, ◌+◌, String, ◌≡◌, refl, ap, ◌∙◌, ◌⊎◌, inl, inr, Bool, true, false, ◌&&◌, Option,
  none, some, List, arith, nat_eq, Bool-cases, Option-cases, nat_Eq, str_eq_iff, string_Eq, lookup,
  erase, lookup-erase, if_both,
}
use warren.Errors.{Err}
use warren.Confirms.{Tracker, GoError, register, cancel, wait_begin, wait_end, closed}
use warren.Confirms.Reachable.{wait_end_frame}
use warren.Pool.{
  Pool, Opened, Acquired, blocked, got, open_failed, open_panicked, publisher_acquire, release,
}
use warren.Publisher.Demux.{Entry, demux_all}
use warren.Publisher.Attempt.{
  Options, World, Line, Attempt, not_ready, panicked, ended, Sent, never, sent, stored, forgotten,
  sent_after, woken, waited, published, registered, send_on, given_back, acquired, past_barrier,
  past_limiter, publish_once,
}

abbrev is_present : Option ℕ → Bool
is_present none = false
is_present (some n) = true

-- The channel keeps neither the tag nor, for a mandatory publisher, the id.
pub record Clear (o : Options) (w : World) (id : String) (d : Entry) : Type 0 where
  pub tag : lookup w.sequence_number d.tracker.pending ≡ none
  pub id_gone : (o.mandatory && is_present (lookup id d.return_tag_map)) ≡ false

erased_gone : (tag : ℕ) (m : List (ℕ × ℕ)) → lookup tag (erase tag m) ≡ none
erased_gone tag m = ground (arith, lookup-erase tag tag m)

abbrev SentClear : Options → World → String → Sent → Type 0
SentClear o w id never = Unit {0}
SentClear o w id (sent d r s) = Clear o w id d

forgotten_gone :
    (o : Options) (id : String) (d : Entry)
    → (o.mandatory && is_present (lookup id (forgotten o id d).return_tag_map)) ≡ false
forgotten_gone o id d = ground (arith, lookup-erase id id d.return_tag_map, str_eq_iff id id)

forgotten_tracker : (o : Options) (id : String) (d : Entry) → (forgotten o id d).tracker ≡ d.tracker
forgotten_tracker o id d = ground arith

forgotten-Clear :
    (o : Options) (w : World) (id : String) (d : Entry)
    → lookup w.sequence_number d.tracker.pending ≡ none
    → Clear o w id (forgotten o id d)
forgotten-Clear o w id d gone = record {
  tag = ap (λ (t : Tracker). lookup w.sequence_number t.pending) (forgotten_tracker o id d) ∙ gone;
  id_gone = forgotten_gone o id d;
}

sent_after-Clear :
    (o : Options) (w : World) (id : String) (d : Entry) (r : GoError)
    → lookup w.sequence_number d.tracker.pending ≡ none
    → SentClear o w id (sent_after o w id d r)
unfolding sent_after
sent_after-Clear o w id d none gone = forgotten-Clear o w id d gone
sent_after-Clear o w id d (some e) gone = forgotten-Clear o w id d gone

woken-Clear :
    (o : Options) (w : World) (id : String) (d : Entry) (p : ℕ) (r : Option (Tracker × GoError))
    → wait_end d.tracker w.sequence_number p o.is_bounded w.wake ≡ r
    → SentClear o w id (woken o w id d r)
unfolding woken
woken-Clear o w id d p none e = tt
woken-Clear o w id d p (some (t, r)) e =
    let frame = wait_end_frame d.tracker t w.sequence_number p o.is_bounded w.wake r e in
    sent_after-Clear o w id (record d { tracker = t }) r
      (rw frame.3 (erased_gone w.sequence_number d.tracker.pending))

waited-Clear :
    (o : Options) (w : World) (id : String) (d : Entry) (p : Option ℕ)
    → lookup w.sequence_number d.tracker.pending ≡ p
    → SentClear o w id (waited o w id w.sequence_number d p)
unfolding waited
waited-Clear o w id d none e = sent_after-Clear o w id d (some closed) e
waited-Clear o w id d (some p) e = woken-Clear o w id (demux_all d w.late) p _ refl

cancelled : (t : Tracker) (tag : ℕ) → lookup tag (cancel t tag).pending ≡ none
unfolding cancel
cancelled t tag = elim (Option-cases (lookup tag t.pending)) [
  | inl gone ↦ ground arith
  | inr (p, found) ↦ ground (arith, erased_gone tag t.pending)
]

published-Clear :
    (o : Options) (w : World) (id : String) (d : Entry) (r : Option Err)
    → SentClear o w id (published o w id w.sequence_number d r)
unfolding published wait_begin
published-Clear o w id d (some e) = forgotten-Clear o w id _ (cancelled d.tracker w.sequence_number)
published-Clear o w id d none = waited-Clear o w id (demux_all d w.early) _ refl

register_refuses : (t : Tracker) (tag : ℕ) → ((register t tag).1 ≡ none) ⊎ ((register t tag).0 ≡ t)
unfolding register
register_refuses t tag =
    if_both (λ (r : Tracker × GoError). (r.1 ≡ none) ⊎ (r.0 ≡ t)) t.is_closed _ _ (inr refl)
      (inl refl)

registered-Clear :
    (o : Options) (w : World) (id : String) (d : Entry) (r : Tracker × GoError)
    → (r.1 ≡ none) ⊎ (r.0 ≡ d.tracker)
    → lookup w.sequence_number d.tracker.pending ≡ none
    → SentClear o w id (registered o w id w.sequence_number d r)
unfolding registered
registered-Clear o w id d (t, none) h gone =
    published-Clear o w id (record d { tracker = t }) w.publish_error
registered-Clear o w id d (t, some e) h gone =
    sent_after-Clear o w id (record d { tracker = t }) (some e) (ground arith)

stored_tracker :
    (o : Options) (id : String) (tag : ℕ) (d : Entry) → (stored o id tag d).tracker ≡ d.tracker
stored_tracker o id tag d = ground arith

send_on-Clear :
    (o : Options) (w : World) (id : String) (d : Entry)
    → lookup w.sequence_number d.tracker.pending ≡ none
    → SentClear o w id (send_on o w id d)
unfolding send_on
send_on-Clear o w id d gone =
    let kept = stored o id w.sequence_number d in
    registered-Clear o w id kept (register kept.tracker w.sequence_number)
      (register_refuses kept.tracker w.sequence_number)
      (ap (λ (t : Tracker). lookup w.sequence_number t.pending)
          (stored_tracker o id w.sequence_number d)
        ∙ gone)

-- The counts of the line are those of before, and a channel is as it was or clear.
pub record Restored (o : Options) (w : World) (id : String) (l u : Line) : Type 0 where
  pub tokens : u.pool.tokens ≡ l.pool.tokens
  pub inflight : u.inflight ≡ l.inflight
  pub gauge : u.gauge ≡ l.gauge
  pub entries : (x : ℕ) → (u.entries x ≡ l.entries x) ⊎ Clear o w id (u.entries x)

unfoldable pub Leaves : Options → World → String → Line → Attempt → Type 0
Leaves o w id l not_ready = Unit
Leaves o w id l (panicked u) = Restored o w id l u
Leaves o w id l (ended u r) = Restored o w id l u

unchanged :
    (o : Options) (w : World) (id : String) (l : Line) (p : Pool)
    → p.tokens ≡ l.pool.tokens
    → Restored o w id l (record l { pool = p })
unchanged o w id l p e = record {
  tokens = e;
  inflight = refl;
  gauge = refl;
  entries = λ x. inl refl;
}

release_tokens :
    (size : ℕ) (is_closed : ℕ → Bool) (x : ℕ) (p : Pool)
    → (release size is_closed x p).tokens ≡ p.tokens + 1
unfolding release
release_tokens size is_closed x p = ground arith

given_back-Leaves :
    (o : Options) (w : World) (id : String) (l : Line) (p : Pool) (x : ℕ) (s : Sent)
    → p.tokens + 1 ≡ l.pool.tokens
    → SentClear o w id s
    → Leaves o w id l
        (given_back o w x (record l { pool = p; inflight = l.inflight + 1; gauge = l.gauge + 1 }) s)
unfolding Leaves given_back
given_back-Leaves o w id l p x never e c = tt
given_back-Leaves o w id l p x (sent d r sample) e c = record {
  tokens = release_tokens o.pool_size w.closed_after x p ∙ e;
  inflight = omega arith;
  gauge = omega arith;
  entries = λ y. elim (Bool-cases (nat_eq x y)) [
    | inl used ↦ rw used (inr c)
    | inr other ↦ rw other (inl refl)
  ];
}

-- How publisher_acquire leaves the tokens.
abbrev Tokens : Pool → Pool × Acquired → Type 0
Tokens p (q, blocked) = q.tokens ≡ p.tokens
Tokens p (q, got x) = q.tokens + 1 ≡ p.tokens
Tokens p (q, open_failed e) = q.tokens ≡ p.tokens
Tokens p (q, open_panicked) = q.tokens ≡ p.tokens

publisher_acquire-Tokens :
    (is_closed : ℕ → Bool) (o : Opened) (p : Pool) → Tokens p (publisher_acquire is_closed o p)
unfolding publisher_acquire
publisher_acquire-Tokens is_closed o p = ground arith

acquired-Leaves :
    (o : Options) (w : World) (id : String) (l : Line) (r : Pool × Acquired)
    → Tokens l.pool r
    → ((x : ℕ) → lookup w.sequence_number (l.entries x).tracker.pending ≡ none)
    → Leaves o w id l (acquired o w id l r)
unfolding acquired Leaves
acquired-Leaves o w id l (p, got x) t fresh =
    given_back-Leaves o w id l p x _ t (send_on-Clear o w id (l.entries x) (fresh x))
acquired-Leaves o w id l (p, blocked) t fresh = unchanged o w id l p t
acquired-Leaves o w id l (p, open_failed e) t fresh = unchanged o w id l p t
acquired-Leaves o w id l (p, open_panicked) t fresh = unchanged o w id l p t

past_barrier-Leaves :
    (o : Options) (w : World) (id : String) (l : Line) (r : Option Err)
    → ((x : ℕ) → lookup w.sequence_number (l.entries x).tracker.pending ≡ none)
    → Leaves o w id l (past_barrier o w id l r)
unfolding past_barrier Leaves
past_barrier-Leaves o w id l (some e) fresh = unchanged o w id l l.pool refl
past_barrier-Leaves o w id l none fresh =
    acquired-Leaves o w id l _ (publisher_acquire-Tokens w.closed_before w.opened l.pool) fresh

past_limiter-Leaves :
    (o : Options) (w : World) (id : String) (l : Line) (r : Option Err)
    → ((x : ℕ) → lookup w.sequence_number (l.entries x).tracker.pending ≡ none)
    → Leaves o w id l (past_limiter o w id l r)
unfolding past_limiter Leaves
past_limiter-Leaves o w id l (some e) fresh = unchanged o w id l l.pool refl
past_limiter-Leaves o w id l none fresh = past_barrier-Leaves o w id l w.barrier_error fresh

retold :
    (o : Options) (w : World) (id : String) (l : Line) (n : ℕ) (a : Attempt)
    → Leaves o w id (record l { throttled = n }) a
    → Leaves o w id l a
unfolding Leaves
retold o w id l n not_ready r = tt
retold o w id l n (panicked u) r = record {
  tokens = r.tokens;
  inflight = r.inflight;
  gauge = r.gauge;
  entries = r.entries;
}
retold o w id l n (ended u e) r = record {
  tokens = r.tokens;
  inflight = r.inflight;
  gauge = r.gauge;
  entries = r.entries;
}

-- However an attempt ends, by an error before it has a channel, a panic while a channel is opened, an
-- error of Register, of the publish or of Wait, or success: the pool has as many tokens as before, the
-- in-flight counts are those of before, and the channel that it used, if any, keeps neither a waiter
-- for the tag of the attempt nor, for a mandatory publisher, an entry for the id of the message; the
-- sequence number of the attempt has no waiter before.
pub publish_once-Leaves :
    (o : Options) (w : World) (id : String) (l : Line)
    → ((x : ℕ) → lookup w.sequence_number (l.entries x).tracker.pending ≡ none)
    → Leaves o w id l (publish_once o w id l)
unfolding publish_once
publish_once-Leaves o w id l fresh =
    retold o w id l _ _ (past_limiter-Leaves o w id _ w.limiter_error fresh)
