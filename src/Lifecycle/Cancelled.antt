-- ===== src/Lifecycle/Cancelled.antt =====
-- The answer to a basic.cancel of the broker and the deliveries that are given back at a shutdown,
-- consumer.go.
use warren.Prelude.{
  bytes_Eq, ℕ, String, ◌≡◌, refl, Bool, true, false, ◌&&◌, ◌||◌, Option, none, some, List, [], ◌∷◌,
  ◌++◌, map, if◌then◌else◌, nat_Eq, str_eq, string_Eq, Bool-cases, inl, inr,
}
use warren.Errors.{Err, sentinel, wrap_one, wrap_amqp_error, not_found, consumer_cancelled, is_err}

-- How far the passive declaration comes: no channel, a channel that cannot declare, its error, or none.
pub data Probe : Type 0 where
  no_channel no_inspector : Probe
  refused : Err → Probe
  declared : Probe

unfoldable pub classify_broker_cancel : Probe → String
classify_broker_cancel no_channel = "unknown"
classify_broker_cancel no_inspector = "unknown"
classify_broker_cancel (refused e) =
    if is_err (wrap_amqp_error (some e)) not_found then "queue_deleted" else "unknown"
classify_broker_cancel declared = "exclusive_revoked"

-- Whether OnCancel is set and whether the metrics are the default that does nothing.
unfoldable pub classify_cancel : Bool → Bool → Probe → String
unfolding classify_broker_cancel
classify_cancel has_on_cancel is_no_op p =
    if has_on_cancel && is_no_op then "unknown" else classify_broker_cancel p

-- The size-1 channel that relays the reason: a full buffer keeps the first.
abbrev pub forward_cancel_reason : Option String → String → Option String
forward_cancel_reason none reason = some reason
forward_cancel_reason (some first) reason = some first

pub record BrokerCancel : Type 0 where
  pub tag : String
  pub class : String

-- The call of OnCancel, the reason of the warning, the label of the metric and the error of Consume.
pub record Surfaced : Type 0 where
  pub on_cancel : Option String
  pub warned : Option String
  pub recorded : String
  pub error : Err

unfoldable pub surface_broker_cancel : Bool → BrokerCancel → Surfaced
surface_broker_cancel has_on_cancel bc = record {
  on_cancel = if has_on_cancel then some bc.tag else none;
  warned = if has_on_cancel then none else some bc.class;
  recorded = bc.class;
  error = wrap_one (sentinel consumer_cancelled);
}

unfoldable pub handle_broker_cancel : Bool → Bool → Probe → String → Surfaced
unfolding surface_broker_cancel classify_cancel
handle_broker_cancel has_on_cancel is_no_op p tag =
    surface_broker_cancel has_on_cancel
      (record { tag = tag; class = classify_cancel has_on_cancel is_no_op p })

-- The buffered deliveries with the error of each nack: the tags that were given back and counted.
unfoldable pub drained : List (ℕ × Option Err) → List ℕ
drained [] = []
drained ((tag, none) ∷ ds) = tag ∷ drained ds
drained ((tag, some e) ∷ ds) = []

unfoldable pub requeue_undispatched : Bool → List (ℕ × Option Err) → List ℕ
unfolding drained
requeue_undispatched auto_ack ds = if auto_ack then [] else drained ds

classified :
    (p : Probe)
    → (str_eq (classify_broker_cancel p) "unknown"
        || str_eq (classify_broker_cancel p) "queue_deleted"
        || str_eq (classify_broker_cancel p) "exclusive_revoked")
      ≡ true
unfolding classify_broker_cancel
classified no_channel = refl
classified no_inspector = refl
classified (refused e) = elim (Bool-cases (is_err (wrap_amqp_error (some e)) not_found)) [
  | inl gone ↦ rw gone refl
  | inr kept ↦ rw kept refl
]
classified declared = refl

-- The label of the metric is one of three, whatever the broker answers.
pub handle_broker_cancel-recorded :
    (has_on_cancel is_no_op : Bool) (p : Probe) (tag : String)
    → let label = (handle_broker_cancel has_on_cancel is_no_op p tag).recorded in
      (str_eq label "unknown" || str_eq label "queue_deleted" || str_eq label "exclusive_revoked")
      ≡ true
unfolding handle_broker_cancel surface_broker_cancel classify_cancel classify_broker_cancel
handle_broker_cancel-recorded true true p tag = refl
handle_broker_cancel-recorded true false p tag = classified p
handle_broker_cancel-recorded false b p tag = classified p

abbrev accepted : ℕ → ℕ × Option Err
accepted tag = (tag, none)

-- Deliveries of a manual consumer that the broker takes back go back in order, up to the first nack
-- that fails.
pub requeue_undispatched-accepted :
    (tags : List ℕ) (tag : ℕ) (e : Err) (ds : List (ℕ × Option Err))
    → (requeue_undispatched false (map accepted tags) ≡ tags)
      × (requeue_undispatched false (map accepted tags ++ (tag, some e) ∷ ds) ≡ tags)
unfolding requeue_undispatched drained
requeue_undispatched-accepted [] tag e ds = (refl, refl)
requeue_undispatched-accepted (t ∷ ts) tag e ds =
    let r = requeue_undispatched-accepted ts tag e ds in (simp (r.0), simp (r.1))
