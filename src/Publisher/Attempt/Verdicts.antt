-- ===== src/Publisher/Attempt/Verdicts.antt =====
-- What the caller of an attempt is told once the broker has answered, publisher.go.
use warren.Prelude.{
  bytes_Eq, ℕ, ◌+◌, String, ◌≡◌, refl, sym, ap, ◌∙◌, ◌≢◌, inl, inr, Bool, true, false, ◌&&◌, Option,
  none, some, List, [], ◌∷◌, ◌++◌, arith, if◌then◌else◌, Bool-cases, Option-cases, nat_Eq, str_eq,
  str_eq_iff, string_Eq, lookup, insert, erase, lookup-insert, if_both, if_true, if_false,
}
use warren.Errors.{Err, sentinel, code_error, mandatory_unroutable, publish_nacked, errors_is}
use warren.Confirms.{
  Tracker, update, Waiter, GoError, Wake, register, wait_begin, wait_end, fresh_waiter, unroutable,
  nacked,
}
use warren.Confirms.Invariant.{Inv}
use warren.Confirms.Views.{waiter_of}
use warren.Confirms.Preserved.{register-Inv}
use warren.Confirms.Outcomes.{
  waiter_of-register, ack_one-pending, nack_one-pending, mark_returned-pending, register_open,
}
use warren.Pool.{Pool, Acquired, blocked, got, open_failed, open_panicked, publisher_acquire}
use warren.Publisher.Outcome.{map_confirm_error, confirm_err}
use warren.Publisher.Demux.{
  Entry, Frame, returned, confirmed, returns_closed, confirms_closed, noted, demux, demux_all,
}
use warren.Publisher.Demux.Correlated.{
  Awaits, are_unrelated, is_unrelated, after, done_of, answer, after-append, demux_all-correlates,
  demux_all-append,
}
use warren.Publisher.Attempt.{
  Options, World, Line, Attempt, not_ready, panicked, ended, Sent, never, sent, stored, sent_after,
  woken, waited, published, registered, send_on, given_back, acquired, past_barrier, past_limiter,
  publish_once,
}

-- The confirm channel stays open.
abbrev stays_open : List Frame → Bool
stays_open [] = true
stays_open (returned id code ∷ fs) = stays_open fs
stays_open (confirmed n a ∷ fs) = stays_open fs
stays_open (returns_closed ∷ fs) = stays_open fs
stays_open (confirms_closed ∷ fs) = false

noted-pending :
    (d : Entry) (id : String) (code : ℕ) (o : Option ℕ)
    → (noted d id code o).tracker.pending ≡ d.tracker.pending
noted-pending d id code none = refl
noted-pending d id code (some tag) = mark_returned-pending d.tracker tag code

demux_all-pending :
    (d : Entry) (fs : List Frame)
    → stays_open fs ≡ true
    → (demux_all d fs).tracker.pending ≡ d.tracker.pending
unfolding demux_all demux
demux_all-pending d [] s = refl
demux_all-pending d (returned id code ∷ fs) s =
    demux_all-pending (demux d (returned id code)) fs s
    ∙ if_both (λ (e : Entry). e.tracker.pending ≡ d.tracker.pending) (str_eq id "") _ _ refl
        (noted-pending d id code (lookup id d.return_tag_map))
demux_all-pending d (confirmed n true ∷ fs) s =
    demux_all-pending (demux d (confirmed n true)) fs s ∙ ack_one-pending d.tracker n
demux_all-pending d (confirmed n false ∷ fs) s =
    demux_all-pending (demux d (confirmed n false)) fs s ∙ nack_one-pending d.tracker n
demux_all-pending d (returns_closed ∷ fs) s = demux_all-pending d fs s
demux_all-pending d (confirms_closed ∷ fs) s = cc s

abbrev pub error_of : Sent → Option (Option Err)
error_of never = none
error_of (sent d r s) = some r

abbrev told : World → GoError → Option Err
told w none = none
told w (some e) = some (map_confirm_error (confirm_err w.context_error e))

sent_after-told :
    (o : Options) (w : World) (id : String) (d : Entry) (r : GoError)
    → error_of (sent_after o w id d r) ≡ some (told w r)
unfolding sent_after
sent_after-told o w id d none = refl
sent_after-told o w id d (some e) = refl

wait_end_received :
    (t : Tracker) (tag p : ℕ) (bounded : Bool) (wake : Wake) (r : GoError)
    → wake ≡ Wake.confirmed
    → (t.heap p).done ≡ some r
    → wait_end t tag p bounded wake
      ≡ some (
        record t {
          heap = update t.heap p (record (t.heap p) { done = none });
          pending = erase tag t.pending;
        },
        r,
      )
unfolding wait_end
wait_end_received t tag p bounded Wake.confirmed r e d = ground arith
wait_end_received t tag p bounded Wake.timer_fired r e d = cc e
wait_end_received t tag p bounded Wake.context_cancelled r e d = cc e

waited-told :
    (o : Options) (w : World) (id : String) (d : Entry) (p : ℕ) (r : GoError)
    → w.wake ≡ Wake.confirmed
    → ((demux_all d w.late).tracker.heap p).done ≡ some r
    → error_of (waited o w id w.sequence_number d (some p)) ≡ some (told w r)
unfolding waited woken
waited-told o w id d p r awake done =
    let u = demux_all d w.late in
    ap (λ x. error_of (woken o w id u x))
      (wait_end_received u.tracker w.sequence_number p o.is_bounded w.wake r awake done)
    ∙ sent_after-told o w id _ r

-- A tag with a waiter is pending.
pending_of :
    (t : Tracker) (tag : ℕ) (v : Waiter)
    → waiter_of t tag ≡ some v
    → (p : ℕ) × (lookup tag t.pending ≡ some p)
unfolding waiter_of
pending_of t tag v e = elim (Option-cases (lookup tag t.pending)) [
  | inl gone ↦ cc gone
  | inr (p, found) ↦ (p, found)
]

stays_open-append : (fs gs : List Frame) → stays_open (fs ++ gs) ≡ (stays_open fs && stays_open gs)
stays_open-append [] gs = refl
stays_open-append (returned id code ∷ fs) gs = stays_open-append fs gs
stays_open-append (confirmed n a ∷ fs) gs = stays_open-append fs gs
stays_open-append (returns_closed ∷ fs) gs = stays_open-append fs gs
stays_open-append (confirms_closed ∷ fs) gs = refl

done_at :
    (t : Tracker) (tag p : ℕ) (r : GoError)
    → lookup tag t.pending ≡ some p
    → done_of (waiter_of t tag) ≡ some r
    → (t.heap p).done ≡ some r
unfolding waiter_of
done_at t tag p r found e = ground arith

-- The value in the waiter of a tag that is pending since before the frames.
after_done :
    (d : Entry) (fs : List Frame) (tag p : ℕ) (r : GoError)
    → stays_open fs ≡ true
    → lookup tag d.tracker.pending ≡ some p
    → after d fs tag ≡ some r
    → ((demux_all d fs).tracker.heap p).done ≡ some r
unfolding after
after_done d fs tag p r open_all found e =
    done_at (demux_all d fs).tracker tag p r
      (ap (lookup tag) (demux_all-pending d fs open_all) ∙ found) e

published-told :
    (o : Options) (w : World) (id : String) (d : Entry) (v : Waiter) (r : GoError)
    → w.wake ≡ Wake.confirmed
    → waiter_of d.tracker w.sequence_number ≡ some v
    → stays_open (w.early ++ w.late) ≡ true
    → after d (w.early ++ w.late) w.sequence_number ≡ some r
    → error_of (published o w id w.sequence_number d none) ≡ some (told w r)
unfolding published wait_begin
published-told o w id d v r awake waits open_all done =
    let u = demux_all d w.early in
    let p = pending_of d.tracker w.sequence_number v waits in
    let early_open : stays_open w.early ≡ true = ground (arith, stays_open-append w.early w.late) in
    let at_u = ap (lookup w.sequence_number) (demux_all-pending d w.early early_open) ∙ p.1 in
    ap (λ x. error_of (waited o w id w.sequence_number u x)) at_u
    ∙ waited-told o w id u p.0 r awake (
        ap (λ (e : Entry). (e.tracker.heap p.0).done) (sym (demux_all-append d w.early w.late))
        ∙ after_done d (w.early ++ w.late) w.sequence_number p.0 r open_all p.1 done)

-- The channel x is open and its map has no id for the sequence number of the attempt.
pub record Usable (w : World) (d : Entry) : Type 0 where
  pub inv : Inv d.tracker
  pub is_open : d.tracker.is_closed ≡ false
  pub unused : (k : String) → lookup k d.return_tag_map ≢ some w.sequence_number

-- The attempt of a mandatory publisher gets the channel x, publishes without an error, and is woken by
-- its confirm.
pub record Reaches (o : Options) (w : World) (l : Line) (x : ℕ) : Type 0 where
  pub is_mandatory : o.mandatory ≡ true
  pub has_token : w.limiter_error ≡ none
  pub past_barrier : w.barrier_error ≡ none
  pub has_channel : (publisher_acquire w.closed_before w.opened l.pool).1 ≡ got x
  pub is_written : w.publish_error ≡ none
  pub is_woken : w.wake ≡ Wake.confirmed

only_own :
    (id : String) (tag : ℕ) (m : List (String × ℕ))
    → ((k : String) → lookup k m ≢ some tag)
    → (k : String) → lookup k (insert id tag m) ≡ some tag
    → k ≡ id
only_own id tag m unused k e = elim (Bool-cases (str_eq id k)) [
  | inl same ↦ sym ((str_eq_iff id k).0 same)
  | inr other ↦
      absurd (unused k (sym (lookup-insert id k tag m ∙ if_false (str_eq id k) _ _ other) ∙ e))
]

-- The entry with the attempt registered.
abbrev entry_in : Options → World → String → Entry → Entry
entry_in o w id d =
    let kept = stored o id w.sequence_number d in
    record kept { tracker = (register kept.tracker w.sequence_number).0 }

after_register :
    (o : Options) (w : World) (id : String) (d : Entry)
    → o.mandatory ≡ true
    → Usable w d
    → Awaits id w.sequence_number fresh_waiter (some w.sequence_number) (entry_in o w id d)
after_register o w id d m u = rw m (record {
  inv = register-Inv d.tracker w.sequence_number u.inv;
  waits = waiter_of-register d.tracker w.sequence_number u.is_open;
  own = only_own id w.sequence_number d.return_tag_map u.unused;
  mapped =
      lookup-insert id id w.sequence_number d.return_tag_map
      ∙ if_true (str_eq id id) _ _ (ground (arith, str_eq_iff id id));
})

send_on-told :
    (o : Options) (w : World) (id : String) (d : Entry) (v : Waiter) (r : GoError)
    → (stored o id w.sequence_number d).tracker.is_closed ≡ false
    → w.publish_error ≡ none
    → w.wake ≡ Wake.confirmed
    → waiter_of (entry_in o w id d).tracker w.sequence_number ≡ some v
    → stays_open (w.early ++ w.late) ≡ true
    → after (entry_in o w id d) (w.early ++ w.late) w.sequence_number ≡ some r
    → error_of (send_on o w id d) ≡ some (told w r)
unfolding send_on registered
send_on-told o w id d v r is_open written awake waits open_all done =
    let tag = w.sequence_number in
    let kept = stored o id tag d in
    let u = entry_in o w id d in
    ap (λ x. error_of (registered o w id tag kept x)) (register_open kept.tracker tag is_open)
    ∙ ap (λ x. error_of (published o w id tag u x)) written
    ∙ published-told o w id u v r awake waits open_all done

abbrev pub attempt_error : Attempt → Option (Option Err)
attempt_error not_ready = none
attempt_error (panicked l) = none
attempt_error (ended l r) = some r

given_back-error :
    (o : Options) (w : World) (x : ℕ) (l : Line) (s : Sent)
    → attempt_error (given_back o w x l s) ≡ error_of s
unfolding given_back
given_back-error o w x l never = refl
given_back-error o w x l (sent d r sample) = refl

acquired-error :
    (o : Options) (w : World) (id : String) (l : Line) (x : ℕ) (r : Pool × Acquired)
    → r.1 ≡ got x
    → attempt_error (acquired o w id l r) ≡ error_of (send_on o w id (l.entries x))
unfolding acquired
acquired-error o w id l x (p, got y) e =
    let same : y ≡ x = ground arith in
    given_back-error o w y _ (send_on o w id (l.entries y))
    ∙ ap (λ z. error_of (send_on o w id (l.entries z))) same
acquired-error o w id l x (p, blocked) e = cc e
acquired-error o w id l x (p, open_failed f) e = cc e
acquired-error o w id l x (p, open_panicked) e = cc e

publish_once-error :
    (o : Options) (w : World) (id : String) (l : Line) (x : ℕ)
    → Reaches o w l x
    → attempt_error (publish_once o w id l) ≡ error_of (send_on o w id (l.entries x))
unfolding publish_once past_limiter past_barrier
publish_once-error o w id l x c =
    let u = record l { throttled = if w.is_throttled then l.throttled + 1 else l.throttled } in
    ap (λ r. attempt_error (past_limiter o w id u r)) c.has_token
    ∙ ap (λ r. attempt_error (past_barrier o w id u r)) c.past_barrier
    ∙ acquired-error o w id u x (publisher_acquire w.closed_before w.opened l.pool) c.has_channel

unrelated_open :
    (id : String) (tag : ℕ) (fs : List Frame)
    → are_unrelated id tag fs ≡ true
    → stays_open fs ≡ true
unfolding are_unrelated is_unrelated
unrelated_open id tag [] u = refl
unrelated_open id tag (returned k code ∷ fs) u = unrelated_open id tag fs (ground arith)
unrelated_open id tag (confirmed n a ∷ fs) u = unrelated_open id tag fs (ground arith)
unrelated_open id tag (returns_closed ∷ fs) u = unrelated_open id tag fs (ground arith)
unrelated_open id tag (confirms_closed ∷ fs) u = cc u

-- What the caller should be told.
abbrev pub verdict : Option ℕ → Bool → Option Err
verdict none true = none
verdict (some code) true = some (code_error code (sentinel mandatory_unroutable))
verdict _ false = some (sentinel publish_nacked)

abbrev outcome_of : Option ℕ → Bool → GoError
outcome_of none true = none
outcome_of (some code) true = some (unroutable code)
outcome_of _ false = some nacked

told-verdict : (w : World) (o : Option ℕ) (a : Bool) → told w (outcome_of o a) ≡ verdict o a
unfolding map_confirm_error errors_is
told-verdict w none true = refl
told-verdict w (some code) true = refl
told-verdict w none false = refl
told-verdict w (some code) false = refl

answer_open :
    (id : String) (tag : ℕ) (o : Option ℕ) (before between : List Frame) (a : Bool)
    → stays_open before ≡ true
    → stays_open between ≡ true
    → stays_open (answer id tag o before between a) ≡ true
answer_open id tag none before between a b c = stays_open-append before _ ∙ ground arith
answer_open id tag (some code) before between a b c =
    stays_open-append (before ++ returned id code ∷ between) _
    ∙ ap (λ x. x && true) (stays_open-append before (returned id code ∷ between))
    ∙ ground arith

answered :
    (id : String) (tag : ℕ) (o : Option ℕ) (d : Entry) (before between : List Frame) (a : Bool)
    → Awaits id tag fresh_waiter (some tag) d
    → id ≢ ""
    → are_unrelated id tag before ≡ true
    → are_unrelated id tag between ≡ true
    → after d (answer id tag o before between a) tag ≡ some (outcome_of o a)
answered id tag none d before between true w n b c =
    (demux_all-correlates id tag 0 d before between w n b c).2
answered id tag none d before between false w n b c =
    (demux_all-correlates id tag 0 d before between w n b c).3
answered id tag (some code) d before between true w n b c =
    (demux_all-correlates id tag code d before between w n b c).0
answered id tag (some code) d before between false w n b c =
    (demux_all-correlates id tag code d before between w n b c).1

stored_closed :
    (o : Options) (id : String) (tag : ℕ) (d : Entry)
    → (stored o id tag d).tracker.is_closed ≡ d.tracker.is_closed
stored_closed o id tag d = ground arith

both_true : {a b : Bool} → a ≡ true → b ≡ true → (a && b) ≡ true
both_true p q = ground arith

-- An attempt of a mandatory publisher that takes a token, passes the barrier, gets a usable channel and
-- writes its frame, and whose Wait takes the outcome (its timer has not fired, its context is not done),
-- tells its caller what the broker did with this message, if its confirm is among the frames that the
-- channel has delivered by then and its confirm channel is still open. The frames of other messages may
-- stand anywhere before, between and after those of this one, and Wait may be reached before or after any
-- of them: success for an ack, ErrUnroutable with the reply code for a return and an ack, ErrPublishNacked
-- for a nack with a return or without.
pub publish_once-verdict :
    (o : Options) (w : World) (id : String) (l : Line) (x : ℕ) (code : Option ℕ)
    (before between rest : List Frame) (positive : Bool)
    → Reaches o w l x
    → Usable w (l.entries x)
    → id ≢ ""
    → are_unrelated id w.sequence_number before ≡ true
    → are_unrelated id w.sequence_number between ≡ true
    → are_unrelated id w.sequence_number rest ≡ true
    → w.early ++ w.late ≡ answer id w.sequence_number code before between positive ++ rest
    → attempt_error (publish_once o w id l) ≡ some (verdict code positive)
publish_once-verdict o w id l x code before between rest positive r u named ub ui ur frames =
    let tag = w.sequence_number in
    let a = after_register o w id (l.entries x) r.is_mandatory u in
    publish_once-error o w id l x r
    ∙ send_on-told o w id (l.entries x) fresh_waiter (outcome_of code positive)
        (stored_closed o id tag (l.entries x) ∙ u.is_open) r.is_written r.is_woken a.waits
        (ap stays_open frames
          ∙ stays_open-append (answer id tag code before between positive) rest
          ∙ both_true
              (answer_open id tag code before between positive (unrelated_open id tag before ub)
                (unrelated_open id tag between ui))
              (unrelated_open id tag rest ur))
        (ap (λ fs. after (entry_in o w id (l.entries x)) fs tag) frames
          ∙ after-append id tag code _ before between rest positive a named ub ui ur
          ∙ answered id tag code _ before between positive a named ub ui)
    ∙ ap some (told-verdict w code positive)
