-- ===== src/Confirms/Reachable.antt =====
-- The tracker with its blocked calls of Wait, after any interleaving of the operations.
use warren.Prelude.{
  ◌⊎◌, refl, ℕ, ◌+◌, ◌≤◌, ◌<◌, ◌≡◌, sym, subst, ◌∙◌, ◌≢◌, inl, inr, Bool, true, false, some, List,
  [], ◌∷◌, ◌++◌, arith, nat_eq, Option-cases, nat_Eq, string_Eq, lookup, erase, lookup-erase,
  if_both, ℕ_discrete,
}
use warren.Confirms.{
  Tracker, GoError, Wake, confirmed, timer_fired, context_cancelled, resolve_one, resolve_walk,
  resolve_up_to, settle, register, mark_returned, close_one, close_loop, ack, nack, close_all,
  cancel, wait_begin, wait_end, wait_receive, wait_release, order_insert, advance_low_water,
}
use warren.Confirms.Order.{live, order_insert_frame}
use warren.Confirms.Window.{advance_low_water_frame}
use warren.Confirms.Views.{resolve_one_frame}
use warren.Confirms.Refines.{resolve_walk_frame}
use warren.Confirms.Preserved.{
  new-Inv, register-Inv, ack-Inv, nack-Inv, mark_returned-Inv, close_all-Inv, cancel-Inv,
  erased_sub, inserted, inserted_cases, inserted_next, Inv-fewer, Inv-left,
}
use warren.Confirms.Invariant.{
  InvBut, HasLeft, receives, releases, Owned, AllOwned, System, SystemInv, Event, Step, registers,
  marks, acks, nacks, closes, cancels, waits, wakes, Reach, here, next_step, start,
}

-- Old waiters are not handed to another tag.
abbrev Sub : Tracker → Tracker → Type 0
Sub t u =
    (t.next ≤ u.next)
    × ((b p : ℕ) → p < t.next → lookup b u.pending ≡ some p → lookup b t.pending ≡ some p)

Sub-AllOwned : (t u : Tracker) (ws : List (ℕ × ℕ)) → Sub t u → AllOwned t ws → AllOwned u ws
Sub-AllOwned t u [] s o = tt
Sub-AllOwned t u ((tag, p) ∷ ws) s o =
    ((omega (arith, s.0, o.0.0), λ b e. o.0.1 b (s.1 b p o.0.0 e)), Sub-AllOwned t u ws s o.1)

Sub-pending : (t u : Tracker) → u.next ≡ t.next → u.pending ≡ t.pending → Sub t u
Sub-pending t u n e = (omega arith, λ b p lt f. rw (← e) f)

Sub-trans : (t u v : Tracker) → Sub t u → Sub u v → Sub t v
Sub-trans t u v (tu, f) (uv, g) = (omega arith, λ b p lt e. f b p lt (g b p (omega arith) e))

inserted-Sub : (t : Tracker) (tag : ℕ) → Sub t (order_insert (inserted t tag) tag)
inserted-Sub t tag =
    let u = inserted t tag in
    let f = order_insert_frame u tag in
    (
      ground (arith, f.2, inserted_next t tag),
      λ b p lt e. elim (inserted_cases t tag b p (rw f.0 at e)) [
        | inl fresh ↦ absurd (omega (arith, fresh.1))
        | inr old ↦ old
      ],
    )

advance_low_water-Sub : (t : Tracker) → Sub t (advance_low_water t)
advance_low_water-Sub t =
    let f = advance_low_water_frame t in Sub-pending t (advance_low_water t) f.2 f.0

register-Sub : (t : Tracker) (tag : ℕ) → Sub t (register t tag).0
unfolding register
register-Sub t tag =
    let u = order_insert (inserted t tag) tag in
    if_both (λ (r : Tracker × GoError). Sub t r.0) t.is_closed _ _ (omega arith, λ b p lt f. f)
      (unfold inserted in
        Sub-trans t u (advance_low_water u) (inserted-Sub t tag) (advance_low_water-Sub u))

settle-Sub :
    (t : Tracker) (n : ℕ) (multiple : Bool) (base : GoError) → Sub t (settle t n multiple base)
unfolding settle resolve_up_to
settle-Sub t n true base =
    let walked = resolve_walk t (live t) n base in
    let moved = record walked.0 { head = t.head + walked.1 } in
    let f = resolve_walk_frame t (live t) n base in
    let g = advance_low_water_frame moved in
    Sub-pending t (advance_low_water moved) (g.2 ∙ f.3) (g.0 ∙ f.0)
settle-Sub t n false base =
    let f = resolve_one_frame t n base in Sub-pending t (resolve_one t n base) f.3 f.0

ack-Sub : (t : Tracker) (n : ℕ) (multiple : Bool) → Sub t (ack t n multiple)
unfolding ack
ack-Sub t n multiple = settle-Sub t n multiple _

nack-Sub : (t : Tracker) (n : ℕ) (multiple : Bool) → Sub t (nack t n multiple)
unfolding nack
nack-Sub t n multiple = settle-Sub t n multiple _

mark_returned-Sub : (t : Tracker) (tag code : ℕ) → Sub t (mark_returned t tag code)
unfolding mark_returned
mark_returned-Sub t tag code =
    Sub-pending t (mark_returned t tag code) (ground arith) (ground arith)

close_one-Sub : (t : Tracker) (e : ℕ × ℕ) → Sub t (close_one t e)
unfolding close_one
close_one-Sub t (tag, q) = (ground arith, λ b p lt f. ground (arith, erased_sub t.pending tag b p))

close_loop-Sub : (t : Tracker) (es : List (ℕ × ℕ)) → Sub t (close_loop t es)
unfolding close_loop
close_loop-Sub t [] = (omega arith, λ b p lt f. f)
close_loop-Sub t (e ∷ es) =
    Sub-trans t (close_one t e) (close_loop (close_one t e) es) (close_one-Sub t e)
      (close_loop-Sub (close_one t e) es)

close_all-Sub : (t : Tracker) → Sub t (close_all t)
unfolding close_all
close_all-Sub t = close_loop-Sub (record t { is_closed = true }) t.pending

cancel-Sub : (t : Tracker) (tag : ℕ) → Sub t (cancel t tag)
unfolding cancel
cancel-Sub t tag = (ground arith, λ b p lt f. ground (arith, erased_sub t.pending tag b p))

pub wait_end_frame :
    (t u : Tracker) (tag p : ℕ) (bounded : Bool) (wake : Wake) (r : GoError)
    → wait_end t tag p bounded wake ≡ some (u, r)
    → (u.next ≡ t.next)
      × (u.order ≡ t.order)
      × (u.head ≡ t.head)
      × (u.pending ≡ erase tag t.pending)
      × ((q : ℕ) → q ≢ p → u.heap q ≡ t.heap q)
unfolding wait_end
wait_end_frame t u tag p bounded confirmed r e = elim (Option-cases (t.heap p).done) [
  | inl d ↦ cc d
  | inr (o, d) ↦ (ground arith, ground arith, ground arith, ground arith, λ q ne. ground arith)
]
wait_end_frame t u tag p bounded timer_fired r e =
    (ground arith, ground arith, ground arith, ground arith, λ q ne. ground arith)
wait_end_frame t u tag p bounded context_cancelled r e =
    (ground arith, ground arith, ground arith, ground arith, λ q ne. ground arith)

wait_end-Sub :
    (t u : Tracker) (tag p : ℕ) (bounded : Bool) (wake : Wake) (r : GoError)
    → wait_end t tag p bounded wake ≡ some (u, r)
    → Sub t u
wait_end-Sub t u tag p bounded wake r e =
    let (next, order, head, pending, heap) = wait_end_frame t u tag p bounded wake r e in
    (omega (arith, next), λ b q lt f. erased_sub t.pending tag b q (rw (← pending) f))

-- The waiter that a Wait gives up is pending under no tag.
nat_eq_refl : (a : ℕ) → nat_eq a a ≡ true
nat_eq_refl a = ground arith

wait_end-Inv :
    {gone : List (ℕ × ℕ)} (t u : Tracker) (tag p : ℕ) (bounded : Bool) (wake : Wake) (r : GoError)
    → wait_end t tag p bounded wake ≡ some (u, r)
    → Owned t (tag, p)
    → InvBut gone t
    → InvBut gone u
wait_end-Inv t u tag p bounded wake r e (lt, only) v =
    let (next, order, head, pending, heap) = wait_end_frame t u tag p bounded wake r e in
    Inv-fewer t u order head (sym next) (λ a q f. erased_sub t.pending tag a q (rw (← pending) f))
      (λ a q f d. elim (ℕ_discrete q p) [
        | yes same ↦
            let at_tag = only a (erased_sub t.pending tag a p (rw (← same, ← pending) f)) in
            cc (at_tag, pending, lookup-erase tag tag t.pending, nat_eq_refl tag, f)
        | no other ↦ rw (← heap q other) d
      ])
      v

pub wait_receive_frame :
    (t u : Tracker) (p : ℕ) (r : GoError)
    → wait_receive t p ≡ some (u, r)
    → (u.next ≡ t.next)
      × (u.order ≡ t.order)
      × (u.head ≡ t.head)
      × (u.pending ≡ t.pending)
      × ((q : ℕ) → q ≢ p → u.heap q ≡ t.heap q)
wait_receive_frame t u p r e = elim (Option-cases (t.heap p).done) [
  | inl d ↦ cc d
  | inr (o, d) ↦ (ground arith, ground arith, ground arith, ground arith, λ q ne. ground arith)
]

-- The slot of a Wait that has received its outcome leaves the invariant.
wait_receive-InvBut :
    (gone : List (ℕ × ℕ)) (t u : Tracker) (tag p : ℕ) (r : GoError)
    → wait_receive t p ≡ some (u, r)
    → InvBut gone t
    → InvBut ((tag, p) ∷ gone) u
wait_receive-InvBut gone t u tag p r e v =
    let (next, order, head, pending, heap) = wait_receive_frame t u p r e in
    Inv-left gone ((tag, p) ∷ gone) t u order head (sym next) (λ a q f. rw (← pending) f)
      (λ a q f d stays. (rw (← heap q (λ same. stays (inl same))) d, λ left. stays (inr left))) v

HasLeft-remove :
    (before after : List (ℕ × ℕ)) (tag p q : ℕ)
    → HasLeft (before ++ (tag, p) ∷ after) q
    → (q ≡ p) ⊎ HasLeft (before ++ after) q
HasLeft-remove [] after tag p q h = h
HasLeft-remove ((b, o) ∷ before) after tag p q (inl same) = inr (inl same)
HasLeft-remove ((b, o) ∷ before) after tag p q (inr later) =
    elim (HasLeft-remove before after tag p q later) [
      | inl same ↦ inl same
      | inr kept ↦ inr (inr kept)
    ]

-- Its delete takes the slot away.
wait_release-InvBut :
    (before after : List (ℕ × ℕ)) (t : Tracker) (tag p : ℕ)
    → Owned t (tag, p)
    → InvBut (before ++ (tag, p) ∷ after) t
    → InvBut (before ++ after) (wait_release t tag)
wait_release-InvBut before after t tag p (lt, only) v =
    Inv-left (before ++ (tag, p) ∷ after) (before ++ after) t (wait_release t tag) refl refl refl
      (λ a q f. erased_sub t.pending tag a q f)
      (λ a q f d stays. (
        d,
        λ left. elim (HasLeft-remove before after tag p q left) [
          | inr kept ↦ stays kept
          | inl same ↦
              let at_tag = only a (erased_sub t.pending tag a p (rw (← same) f)) in
              cc (at_tag, lookup-erase tag tag t.pending, nat_eq_refl tag, f)
        ],
      ))
      v

wait_release-Sub : (t : Tracker) (tag : ℕ) → Sub t (wait_release t tag)
wait_release-Sub t tag = (omega arith, λ b p lt f. erased_sub t.pending tag b p f)

AllOwned-remove :
    (t : Tracker) (before after : List (ℕ × ℕ)) (w : ℕ × ℕ)
    → AllOwned t (before ++ w ∷ after)
    → Owned t w × AllOwned t (before ++ after)
AllOwned-remove t [] after w o = o
AllOwned-remove t (b ∷ before) after w o =
    let (ow, rest) = AllOwned-remove t before after w o.1 in (ow, (o.0, rest))

begins :
    {gone : List (ℕ × ℕ)} (t : Tracker) (tag p : ℕ)
    → InvBut gone t
    → wait_begin t tag ≡ some p
    → Owned t (tag, p)
unfolding wait_begin
begins t tag p v found = (v.fresh tag p found, λ b e. v.injective b tag p e found)

-- A step of the tracker that hands out no old waiter and keeps its invariant.
moves :
    {s : System} (t : Tracker)
    → Sub s.tracker t
    → InvBut s.leaving t
    → SystemInv s
    → SystemInv (record s { tracker = t })
moves {s} t sub inv v = record {
  inv = inv;
  owned = Sub-AllOwned s.tracker t s.waiting sub v.owned;
  left = Sub-AllOwned s.tracker t s.leaving sub v.left;
}

-- Every step keeps the invariant, whichever operation comes next.
pub Step-SystemInv : {s u : System} {e : Event} → Step s e u → SystemInv s → SystemInv u
Step-SystemInv {s} (registers tag) v =
    moves (register s.tracker tag).0 (register-Sub s.tracker tag) (register-Inv s.tracker tag v.inv)
      v
Step-SystemInv {s} (marks tag code) v =
    moves (mark_returned s.tracker tag code) (mark_returned-Sub s.tracker tag code)
      (mark_returned-Inv s.tracker tag code v.inv) v
Step-SystemInv {s} (acks tag multiple) v =
    moves (ack s.tracker tag multiple) (ack-Sub s.tracker tag multiple)
      (ack-Inv s.tracker tag multiple v.inv) v
Step-SystemInv {s} (nacks tag multiple) v =
    moves (nack s.tracker tag multiple) (nack-Sub s.tracker tag multiple)
      (nack-Inv s.tracker tag multiple v.inv) v
Step-SystemInv {s} closes v =
    moves (close_all s.tracker) (close_all-Sub s.tracker) (close_all-Inv s.tracker v.inv) v
Step-SystemInv {s} (cancels tag) v =
    moves (cancel s.tracker tag) (cancel-Sub s.tracker tag) (cancel-Inv s.tracker tag v.inv) v
Step-SystemInv {s} (waits tag p found) v = record {
  inv = v.inv;
  owned = (begins s.tracker tag p v.inv found, v.owned);
  left = v.left;
}
Step-SystemInv {s} (wakes before after tag p bounded wake t r at_p done) v =
    let (mine, rest) =
      AllOwned-remove s.tracker before after (tag, p) (subst (AllOwned s.tracker) at_p v.owned) in
    let sub = wait_end-Sub s.tracker t tag p bounded wake r done in
    record {
      inv = wait_end-Inv s.tracker t tag p bounded wake r done mine v.inv;
      owned = Sub-AllOwned s.tracker t (before ++ after) sub rest;
      left = Sub-AllOwned s.tracker t s.leaving sub v.left;
    }
Step-SystemInv {s} (receives before after tag p t r at_p done) v =
    let (mine, rest) =
      AllOwned-remove s.tracker before after (tag, p) (subst (AllOwned s.tracker) at_p v.owned) in
    let f = wait_receive_frame s.tracker t p r done in
    let sub = Sub-pending s.tracker t f.0 f.3 in
    record {
      inv = wait_receive-InvBut s.leaving s.tracker t tag p r done v.inv;
      owned = Sub-AllOwned s.tracker t (before ++ after) sub rest;
      left = Sub-AllOwned s.tracker t ((tag, p) ∷ s.leaving) sub (mine, v.left);
    }
Step-SystemInv {s} (releases before after tag p at_p) v =
    let (mine, rest) =
      AllOwned-remove s.tracker before after (tag, p) (subst (AllOwned s.tracker) at_p v.left) in
    let t = wait_release s.tracker tag in
    let sub = wait_release-Sub s.tracker tag in
    record {
      inv =
          wait_release-InvBut before after s.tracker tag p mine
            (subst (λ ws. InvBut ws s.tracker) at_p v.inv);
      owned = Sub-AllOwned s.tracker t s.waiting sub v.owned;
      left = Sub-AllOwned s.tracker t (before ++ after) sub rest;
    }

start-SystemInv : SystemInv start
start-SystemInv = record { inv = new-Inv; owned = tt; left = tt }

-- After any interleaving of registrations, returns, acks, nacks, cancellations, closes and waits, where
-- a Wait receives its outcome in one step and deletes its slot in a later one, the tracker keeps its
-- invariant: the index is ascending, no two tags share a waiter, and every unresolved pending tag is in
-- the window that a multiple=true frame walks, unless its Wait has received its outcome and has only
-- the delete of the slot before it.
pub Reach-Inv : {s : System} → Reach start s → SystemInv s
Reach-Inv here = start-SystemInv
Reach-Inv (next_step r st) = Step-SystemInv st (Reach-Inv r)
