-- ===== src/Publisher/Demux/Correlated.antt =====
-- A return and a confirm of one message meet at one waiter, startConfirmDemux in publisher.go.
use warren.Prelude.{
  subst, sym, bytes_Eq, ℕ, String, ◌≡◌, refl, ap, ◌∙◌, ◌≢◌, Bool, true, false, not, ◌&&◌, Option,
  none, some, List, [], ◌∷◌, ◌++◌, arith, nat_eq, nat_Eq, str_eq, str_eq_iff, string_Eq, lookup,
  lookup-erase, if_both, if_true, if_false,
}
use warren.Confirms.{
  Tracker, Waiter, GoError, ack, nack, unroutable, nacked, outcome, send, fresh_waiter,
}
use warren.Confirms.Views.{waiter_of, resolve_if, resolve_if-false}
use warren.Confirms.Refines.{ack-nack_scan}
use warren.Confirms.Invariant.{Inv}
use warren.Confirms.Outcomes.{waiter_of-mark_returned, mark_returned_other}
use warren.Confirms.Preserved.{ack-Inv, nack-Inv, mark_returned-Inv}
use warren.Publisher.Demux.{
  Entry, Frame, returned, confirmed, returns_closed, confirms_closed, noted, demux, demux_all,
}

-- A frame that is not about the message of an id and a tag, and does not close the channel.
unfoldable pub is_unrelated : String → ℕ → Frame → Bool
is_unrelated id tag (returned k code) = not (str_eq k id)
is_unrelated id tag (confirmed n a) = not (nat_eq n tag)
is_unrelated id tag returns_closed = true
is_unrelated id tag confirms_closed = false

unfoldable pub are_unrelated : String → ℕ → List Frame → Bool
are_unrelated id tag [] = true
are_unrelated id tag (f ∷ fs) = is_unrelated id tag f && are_unrelated id tag fs

-- The tag of a published message has a waiter, and no other id of the map stands for the tag.
pub record Awaits (id : String) (tag : ℕ) (w : Waiter) (o : Option ℕ) (d : Entry) : Type 0 where
  pub inv : Inv d.tracker
  pub waits : waiter_of d.tracker tag ≡ some w
  pub own : (k : String) → lookup k d.return_tag_map ≡ some tag → k ≡ id
  pub mapped : lookup id d.return_tag_map ≡ o

noted-Awaits :
    (id : String) (tag : ℕ) (w : Waiter) (o : Option ℕ) (d : Entry) (k : String) (code : ℕ)
    (at_k : Option ℕ)
    → Awaits id tag w o d
    → k ≢ id
    → lookup k d.return_tag_map ≡ at_k
    → Awaits id tag w o (noted d k code at_k)
noted-Awaits id tag w o d k code none a other e = a
noted-Awaits id tag w o d k code (some n) a other e = record {
  inv = mark_returned-Inv d.tracker n code a.inv;
  waits =
      mark_returned_other d.tracker n tag code a.inv.injective
        (λ same. other (a.own k (e ∙ ap some same)))
      ∙ a.waits;
  own = λ j f. a.own j (ground (arith, lookup-erase k j d.return_tag_map));
  mapped =
      lookup-erase k id d.return_tag_map
      ∙ if_false (str_eq k id) _ _ (ground (arith, str_eq_iff k id))
      ∙ a.mapped;
}

untouched :
    (t : Tracker) (n tag : ℕ) (base : GoError) (u : Tracker)
    → waiter_of u tag ≡ resolve_if (nat_eq n tag) base (waiter_of t tag)
    → nat_eq n tag ≡ false
    → waiter_of u tag ≡ waiter_of t tag
untouched t n tag base u e other =
    e
    ∙ ap (λ b. resolve_if b base (waiter_of t tag)) other
    ∙ resolve_if-false base (waiter_of t tag)

demux-Awaits :
    (id : String) (tag : ℕ) (w : Waiter) (o : Option ℕ) (d : Entry) (f : Frame)
    → Awaits id tag w o d
    → is_unrelated id tag f ≡ true
    → Awaits id tag w o (demux d f)
unfolding demux is_unrelated
demux-Awaits id tag w o d (returned k code) a u = if_both (Awaits id tag w o) (str_eq k "") _ _ a (
    noted-Awaits id tag w o d k code (lookup k d.return_tag_map) a (ground (arith, str_eq_iff k id))
      refl)
demux-Awaits id tag w o d (confirmed n true) a u = record {
  inv = ack-Inv d.tracker n false a.inv;
  waits =
      untouched d.tracker n tag none (ack d.tracker n false)
        (ack-nack_scan d.tracker n tag false a.inv (λ p e h. h)).0 (ground arith)
      ∙ a.waits;
  own = a.own;
  mapped = a.mapped;
}
demux-Awaits id tag w o d (confirmed n false) a u = record {
  inv = nack-Inv d.tracker n false a.inv;
  waits =
      untouched d.tracker n tag (some nacked) (nack d.tracker n false)
        (ack-nack_scan d.tracker n tag false a.inv (λ p e h. h)).1 (ground arith)
      ∙ a.waits;
  own = a.own;
  mapped = a.mapped;
}
demux-Awaits id tag w o d returns_closed a u = a
demux-Awaits id tag w o d confirms_closed a u = cc u

demux_all-Awaits :
    (id : String) (tag : ℕ) (w : Waiter) (o : Option ℕ) (d : Entry) (fs : List Frame)
    → Awaits id tag w o d
    → are_unrelated id tag fs ≡ true
    → Awaits id tag w o (demux_all d fs)
unfolding demux_all are_unrelated
demux_all-Awaits id tag w o d [] a u = a
demux_all-Awaits id tag w o d (f ∷ fs) a u =
    demux_all-Awaits id tag w o (demux d f) fs (demux-Awaits id tag w o d f a (ground arith))
      (ground arith)

pub demux_all-append :
    (d : Entry) (fs gs : List Frame) → demux_all d (fs ++ gs) ≡ demux_all (demux_all d fs) gs
unfolding demux_all
demux_all-append d [] gs = refl
demux_all-append d (f ∷ fs) gs = demux_all-append (demux d f) fs gs

-- The return of the message itself.
returned-Awaits :
    (id : String) (tag code : ℕ) (w : Waiter) (d : Entry)
    → Awaits id tag w (some tag) d
    → id ≢ ""
    → Awaits id tag
        (record w { returned = true; return_code = code })
        none
        (demux d (returned id code))
unfolding demux
returned-Awaits id tag code w d a named =
    rw
      (
        a.mapped,
        if_false (str_eq id "") d (noted d id code (some tag)) (ground (arith, str_eq_iff id "")),
      )
      (record {
        inv = mark_returned-Inv d.tracker tag code a.inv;
        waits = waiter_of-mark_returned d.tracker tag code w a.waits;
        own = λ k f. a.own k (ground (arith, lookup-erase id k d.return_tag_map));
        mapped =
            lookup-erase id id d.return_tag_map
            ∙ if_true (str_eq id id) _ _ (ground (arith, str_eq_iff id id));
      })

-- What the buffered channel of a tag's waiter holds.
abbrev pub done_of : Option Waiter → Option GoError
done_of none = none
done_of (some w) = w.done

resolved_done :
    (base : GoError) (w : Waiter) (o : Option Waiter)
    → w.done ≡ none
    → o ≡ resolve_if true base (some w)
    → done_of o ≡ some (outcome base w)
unfolding send
resolved_done base w o e f = ground arith

confirmed-done :
    (id : String) (tag : ℕ) (w : Waiter) (o : Option ℕ) (d : Entry)
    → Awaits id tag w o d
    → w.done ≡ none
    → (done_of (waiter_of (demux d (confirmed tag true)).tracker tag) ≡ some (outcome none w))
      × (done_of (waiter_of (demux d (confirmed tag false)).tracker tag) ≡ some (some nacked))
unfolding demux outcome
confirmed-done id tag w o d a e =
    let scan = ack-nack_scan d.tracker tag tag false a.inv (λ p e h. h) in
    let own =
      λ (base : GoError) (x : Option Waiter)
          (f : x ≡ resolve_if (nat_eq tag tag) base (waiter_of d.tracker tag)).
        resolved_done base w x e (
          f
          ∙ ap (λ b. resolve_if b base (waiter_of d.tracker tag)) {y = true} (ground arith)
          ∙ ap (resolve_if true base) a.waits) in
    (own none _ scan.0, own (some nacked) _ scan.1)

unfoldable pub after : Entry → List Frame → ℕ → Option GoError
unfolding demux_all
after d fs tag = done_of (waiter_of (demux_all d fs).tracker tag)

after_last :
    (d : Entry) (fs : List Frame) (f : Frame) (tag : ℕ)
    → after d (fs ++ f ∷ []) tag ≡ done_of (waiter_of (demux (demux_all d fs) f).tracker tag)
unfolding demux_all after
after_last d fs f tag =
    ap (λ (e : Entry). done_of (waiter_of e.tracker tag)) (demux_all-append d fs (f ∷ []))

after_between :
    (d : Entry) (fs gs : List Frame) (r f : Frame) (tag : ℕ)
    → after d (fs ++ r ∷ gs ++ f ∷ []) tag
      ≡ done_of (waiter_of (demux (demux_all (demux (demux_all d fs) r) gs) f).tracker tag)
unfolding demux_all after
after_between d fs gs r f tag =
    after_last d (fs ++ r ∷ gs) f tag
    ∙ ap (λ (e : Entry). done_of (waiter_of (demux e f).tracker tag))
        (demux_all-append d fs (r ∷ gs))

-- After its confirm the message still has its waiter.
confirmed-Awaits :
    (id : String) (tag : ℕ) (w : Waiter) (o : Option ℕ) (d : Entry) (positive : Bool)
    → Awaits id tag w o d
    → (u : Waiter) × Awaits id tag u o (demux d (confirmed tag positive))
unfolding demux
confirmed-Awaits id tag w o d true a = (
  _,
  record {
    inv = ack-Inv d.tracker tag false a.inv;
    waits =
        (ack-nack_scan d.tracker tag tag false a.inv (λ p e h. h)).0
        ∙ ap (resolve_if (nat_eq tag tag) none) a.waits;
    own = a.own;
    mapped = a.mapped;
  },
)
confirmed-Awaits id tag w o d false a = (
  _,
  record {
    inv = nack-Inv d.tracker tag false a.inv;
    waits =
        (ack-nack_scan d.tracker tag tag false a.inv (λ p e h. h)).1
        ∙ ap (resolve_if (nat_eq tag tag) (some nacked)) a.waits;
    own = a.own;
    mapped = a.mapped;
  },
)

-- The frames up to the confirm of the message, with its return or without.
abbrev pub answer : String → ℕ → Option ℕ → List Frame → List Frame → Bool → List Frame
answer id tag none before between positive = before ++ confirmed tag positive ∷ []
answer id tag (some code) before between positive =
    before ++ returned id code ∷ between ++ confirmed tag positive ∷ []

last-Awaits :
    (id : String) (tag : ℕ) (w : Waiter) (o : Option ℕ) (d : Entry) (fs : List Frame)
    (positive : Bool)
    → Awaits id tag w o d
    → are_unrelated id tag fs ≡ true
    → (u : Waiter) × Awaits id tag u o (demux_all d (fs ++ confirmed tag positive ∷ []))
unfolding demux_all
last-Awaits id tag w o d fs positive a unrelated =
    let c =
      confirmed-Awaits id tag w o (demux_all d fs) positive
        (demux_all-Awaits id tag w o d fs a unrelated) in
    (
      c.0,
      subst (Awaits id tag c.0 o) (sym (demux_all-append d fs (confirmed tag positive ∷ []))) c.1,
    )

answer_split :
    (id : String) (tag code : ℕ) (d : Entry) (before between : List Frame) (positive : Bool)
    → demux_all d (answer id tag (some code) before between positive)
      ≡ demux_all
          (demux (demux_all d before) (returned id code))
          (between ++ confirmed tag positive ∷ [])
unfolding demux_all
answer_split id tag code d before between positive =
    let last = confirmed tag positive ∷ [] in
    demux_all-append d (before ++ returned id code ∷ between) last
    ∙ ap (λ e. demux_all e last) (demux_all-append d before (returned id code ∷ between))
    ∙ sym (demux_all-append (demux (demux_all d before) (returned id code)) between last)

answer-Awaits :
    (id : String) (tag : ℕ) (code : Option ℕ) (d : Entry) (before between : List Frame)
    (positive : Bool)
    → Awaits id tag fresh_waiter (some tag) d
    → id ≢ ""
    → are_unrelated id tag before ≡ true
    → are_unrelated id tag between ≡ true
    → (u : Waiter) × (o : Option ℕ) × Awaits id tag u o
        (demux_all d (answer id tag code before between positive))
unfolding demux_all
answer-Awaits id tag none d before between positive a named ub ui =
    let c = last-Awaits id tag fresh_waiter (some tag) d before positive a ub in
    (c.0, some tag, c.1)
answer-Awaits id tag (some code) d before between positive a named ub ui =
    let b = demux_all-Awaits id tag fresh_waiter (some tag) d before a ub in
    let r = returned-Awaits id tag code fresh_waiter (demux_all d before) b named in
    let c =
      last-Awaits id tag _ none (demux (demux_all d before) (returned id code)) between positive r
        ui in
    (
      c.0,
      none,
      subst (Awaits id tag c.0 none) (sym (answer_split id tag code d before between positive)) c.1,
    )

-- The frames of other messages that follow change nothing for the message.
pub after-append :
    (id : String) (tag : ℕ) (code : Option ℕ) (d : Entry) (before between rest : List Frame)
    (positive : Bool)
    → Awaits id tag fresh_waiter (some tag) d
    → id ≢ ""
    → are_unrelated id tag before ≡ true
    → are_unrelated id tag between ≡ true
    → are_unrelated id tag rest ≡ true
    → after d (answer id tag code before between positive ++ rest) tag
      ≡ after d (answer id tag code before between positive) tag
unfolding after
after-append id tag code d before between rest positive a named ub ui ur =
    let frames = answer id tag code before between positive in
    let now = answer-Awaits id tag code d before between positive a named ub ui in
    let later = demux_all-Awaits id tag now.0 now.1 (demux_all d frames) rest now.2 ur in
    ap (λ (e : Entry). done_of (waiter_of e.tracker tag)) (demux_all-append d frames rest)
    ∙ ap done_of (later.waits ∙ sym now.2.waits)

-- Wherever other messages' returns and confirms stand between: a published message whose return comes
-- before its ack ends in an unroutable error with the code of the return, one without a return in
-- success, and a nack ends in ErrNacked with a return or without.
pub demux_all-correlates :
    (id : String) (tag code : ℕ) (d : Entry) (before between : List Frame)
    → Awaits id tag fresh_waiter (some tag) d
    → id ≢ ""
    → are_unrelated id tag before ≡ true
    → are_unrelated id tag between ≡ true
    → let returned_first = λ (f : Frame). before ++ returned id code ∷ between ++ f ∷ [] in
      let routed = λ (f : Frame). before ++ f ∷ [] in
      (after d (returned_first (confirmed tag true)) tag ≡ some (some (unroutable code)))
      × (after d (returned_first (confirmed tag false)) tag ≡ some (some nacked))
      × (after d (routed (confirmed tag true)) tag ≡ some none)
      × (after d (routed (confirmed tag false)) tag ≡ some (some nacked))
unfolding demux_all outcome
demux_all-correlates id tag code d before between a named ub ui =
    let b = demux_all-Awaits id tag fresh_waiter (some tag) d before a ub in
    let r = returned-Awaits id tag code fresh_waiter (demux_all d before) b named in
    let i =
      demux_all-Awaits id tag _ none (demux (demux_all d before) (returned id code)) between r ui in
    let unreturned = confirmed-done id tag fresh_waiter (some tag) (demux_all d before) b refl in
    let with_return = confirmed-done id tag _ none _ i refl in
    (
      after_between d before between (returned id code) (confirmed tag true) tag ∙ with_return.0,
      after_between d before between (returned id code) (confirmed tag false) tag ∙ with_return.1,
      after_last d before (confirmed tag true) tag ∙ unreturned.0,
      after_last d before (confirmed tag false) tag ∙ unreturned.1,
    )
