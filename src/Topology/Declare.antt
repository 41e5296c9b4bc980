-- ===== src/Topology/Declare.antt =====
-- The declarations on a channel, topology.go: declareOnChannel. The broker's answer to each is input.
use warren.Prelude.{
  bytes_Eq, ◌≡◌, refl, sym, ap, subst, ◌∙◌, ◌⊎◌, inl, inr, Bool, true, false, Option, none, some,
  List, [], ◌∷◌, ◌++◌, map, arith, if◌then◌else◌, nat_Eq, string_Eq, length, drop,
}
use warren.Errors.{
  Err, sentinel, topology_mismatch, precondition_failed, errors_is, wrap_two, wrap_amqp_error,
}
use warren.Topology.{Exchange, Queue, Binding, ExchangeBinding, Topology}

-- The calls of topologyChannel with their arguments.
pub data Declaration : Type 0 where
  exchange_declare : Exchange → Declaration
  queue_declare : Queue → Declaration
  queue_bind : Binding → Declaration
  exchange_bind : ExchangeBinding → Declaration

unfoldable pub wrap_mismatch : Err → Option Err
unfolding wrap_amqp_error
wrap_mismatch e = elim (wrap_amqp_error (some e)) [
  | none ↦ none
  | some wrapped ↦
      if errors_is wrapped precondition_failed
      then some (wrap_two (sentinel topology_mismatch) wrapped)
      else some wrapped
]

-- One turn of a loop, for the broker's answer and what the rest of the loop would do.
unfoldable pub sent_then :
    Option Err → Declaration → List Declaration × Option Err → List Declaration × Option Err
unfolding wrap_mismatch
sent_then none d rest = (d ∷ rest.0, rest.1)
sent_then (some e) d rest = (d ∷ [], wrap_mismatch e)

-- A loop over declarations: the ones that were sent, and the error that ended it.
unfoldable pub send_all :
    (Declaration → Option Err) → List Declaration → List Declaration × Option Err
unfolding sent_then
send_all broker [] = ([], none)
send_all broker (d ∷ ds) = sent_then (broker d) d (send_all broker ds)

-- One loop after another: the next starts only if the one before it returned no error.
unfoldable pub and_then :
    List Declaration × Option Err → List Declaration × Option Err → List Declaration × Option Err
and_then r next = elim r.1 [ some e ↦ r | none ↦ (r.0 ++ next.0, next.1) ]

unfoldable pub declare_on_channel :
    (Declaration → Option Err) → Topology → List Declaration × Option Err
unfolding send_all and_then
declare_on_channel broker t = and_then (send_all broker (map exchange_declare t.exchanges)) (
    and_then (send_all broker (map queue_declare t.queues)) (
      and_then (send_all broker (map queue_bind t.bindings))
        (send_all broker (map exchange_bind t.exchange_bindings))))

-- The whole topology in the order of its dependencies.
abbrev pub in_order : Topology → List Declaration
in_order t =
    map exchange_declare t.exchanges
    ++ (map queue_declare t.queues
        ++ (map queue_bind t.bindings ++ map exchange_bind t.exchange_bindings))

abbrev pub is_none : Option Err → Bool
is_none none = true
is_none (some e) = false

refused_errors : (e : Err) → is_none (wrap_mismatch e) ≡ false
unfolding wrap_mismatch wrap_amqp_error
refused_errors e = ground arith

and_then-sent_then :
    (o : Option Err) (d : Declaration) (r next : List Declaration × Option Err)
    → and_then (sent_then o d r) next ≡ sent_then o d (and_then r next)
unfolding and_then sent_then
and_then-sent_then none d (xs, none) next = refl
and_then-sent_then none d (xs, some x) next = refl
and_then-sent_then (some e) d r next = ground (arith, refused_errors e)

send_all-append :
    (broker : Declaration → Option Err) (xs ys : List Declaration)
    → send_all broker (xs ++ ys) ≡ and_then (send_all broker xs) (send_all broker ys)
unfolding send_all and_then
send_all-append broker [] ys = refl
send_all-append broker (d ∷ xs) ys =
    ap (sent_then (broker d) d) (send_all-append broker xs ys)
    ∙ sym (and_then-sent_then (broker d) d (send_all broker xs) (send_all broker ys))

in_one_loop :
    (broker : Declaration → Option Err) (t : Topology)
    → declare_on_channel broker t ≡ send_all broker (in_order t)
unfolding declare_on_channel
in_one_loop broker t =
    let xs = map exchange_declare t.exchanges in
    let qs = map queue_declare t.queues in
    let bs = map queue_bind t.bindings in
    let es = map exchange_bind t.exchange_bindings in
    sym (
      send_all-append broker xs (qs ++ (bs ++ es))
      ∙ ap (and_then (send_all broker xs)) (
          send_all-append broker qs (bs ++ es)
          ∙ ap (and_then (send_all broker qs)) (send_all-append broker bs es)))

abbrev pub refusal : Option Err → Option Err → Option Err
refusal none rest = rest
refusal (some e) rest = wrap_mismatch e

-- The error of the first declaration that the broker refuses.
unfoldable pub first_refusal : (Declaration → Option Err) → List Declaration → Option Err
first_refusal broker [] = none
first_refusal broker (d ∷ ds) = refusal (broker d) (first_refusal broker ds)

abbrev pub Sends :
    (Declaration → Option Err) → List Declaration → List Declaration × Option Err → Type 0
Sends broker ds r =
    (r.0 ++ drop (length r.0) ds ≡ ds)
    × (r.1 ≡ first_refusal broker ds)
    × ((is_none r.1 ≡ false) ⊎ (r.0 ≡ ds))

sent_then-Sends :
    (broker : Declaration → Option Err) (o : Option Err) (d : Declaration) (ds : List Declaration)
    (r : List Declaration × Option Err)
    → broker d ≡ o
    → Sends broker ds r
    → Sends broker (d ∷ ds) (sent_then o d r)
unfolding sent_then first_refusal
sent_then-Sends broker none d ds r answer h = (
  ap (λ xs. d ∷ xs) h.0,
  h.1 ∙ sym (ap (λ o. refusal o (first_refusal broker ds)) answer),
  elim h.2 [ inl failed ↦ inl failed | inr whole ↦ inr (ap (λ xs. d ∷ xs) whole) ],
)
sent_then-Sends broker (some e) d ds r answer h =
    (refl, sym (ap (λ o. refusal o (first_refusal broker ds)) answer), inl (refused_errors e))

send_all-Sends :
    (broker : Declaration → Option Err) (ds : List Declaration)
    → Sends broker ds (send_all broker ds)
unfolding send_all first_refusal
send_all-Sends broker [] = (refl, refl, inr refl)
send_all-Sends broker (d ∷ ds) =
    sent_then-Sends broker (broker d) d ds (send_all broker ds) refl (send_all-Sends broker ds)

-- Declaring sends exchanges, queues, bindings and exchange bindings in this order and stops at the
-- first one that the broker refuses: what was sent is a front part of the whole, the error is that of
-- the first refusal, and there is no error only if everything was sent.
pub declare_on_channel-Sends :
    (broker : Declaration → Option Err) (t : Topology)
    → Sends broker (in_order t) (declare_on_channel broker t)
declare_on_channel-Sends broker t =
    subst (λ r. Sends broker (in_order t) r) (sym (in_one_loop broker t))
      (send_all-Sends broker (in_order t))
