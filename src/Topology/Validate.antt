-- ===== src/Topology/Validate.antt =====
-- The checks before a topology is declared, topology.go: validate, and DelayedTopic of delay.go.
--
-- Every refusal wraps ErrInvalidOptions, so a check is a test. `print` is fmt.Sprint of an argument that
-- is no string.
use warren.Prelude.{
  is_positive, bytes_Eq, ℤ, pos, negsuc, String, Bool, true, false, not, ◌&&◌, ◌||◌, Option, none,
  some, List, [], ◌∷◌, leb, if◌then◌else◌, nat_Eq, str_eq, string_Eq, lookup,
}
use warren.Errors.{Err, sentinel, wrap_one, invalid_options}
use warren.Topology.{
  Arg, text, policy, number, flag, other_value, Args, Exchange, Queue, Binding, ExchangeBinding,
  DeadLetter, Topology, is_quorum, is_present,
}
use warren.Topology.Expand.{overflow_accepted}

abbrev pub is_routing_kind : String → Bool
is_routing_kind k = str_eq k "direct" || str_eq k "fanout" || str_eq k "topic" || str_eq k "headers"

abbrev pub is_valid_kind : String → Bool
is_valid_kind k = is_routing_kind k || str_eq k "x-delayed-message"

abbrev pub is_valid_queue_type : String → Bool
is_valid_queue_type k = str_eq k "" || str_eq k "classic" || str_eq k "quorum" || str_eq k "stream"

abbrev pub is_valid_overflow : String → Bool
is_valid_overflow k =
    str_eq k ""
    || str_eq k "drop-head"
    || str_eq k "reject-publish"
    || str_eq k "reject-publish-dlx"

abbrev pub has_name : String → List String → Bool
has_name n [] = false
has_name n (k ∷ ks) = str_eq k n || has_name n ks

abbrev pub has_arg : String → Args → Bool
has_arg k m = is_present (lookup k m)

-- Args["x-delayed-type"], which must be a string.
abbrev pub delayed_type_ok : Option Arg → Bool
delayed_type_ok none = false
delayed_type_ok (some (text s)) =
    not (str_eq s "") && not (str_eq s "x-delayed-message") && is_valid_kind s
delayed_type_ok (some (policy s)) = false
delayed_type_ok (some (number n)) = false
delayed_type_ok (some (flag b)) = false
delayed_type_ok (some (other_value n)) = false

unfoldable pub exchange_ok : Exchange → Bool
exchange_ok e =
    not (str_eq e.kind "")
    && is_valid_kind e.kind
    && not (has_arg "alternate-exchange" e.args)
    && not (has_arg "x-alternate-exchange" e.args)
    && (not (str_eq e.kind "x-delayed-message") || delayed_type_ok (lookup "x-delayed-type" e.args))

unfoldable pub exchanges_ok : List String → List Exchange → Bool
unfolding exchange_ok
exchanges_ok seen [] = true
exchanges_ok seen (e ∷ es) =
    not (str_eq e.name "")
    && not (has_name e.name seen)
    && exchange_ok e
    && exchanges_ok (e.name ∷ seen) es

abbrev pub managed_ok : Args → Bool
managed_ok m =
    not (has_arg "x-queue-type" m)
    && not (has_arg "x-delivery-limit" m)
    && not (has_arg "x-single-active-consumer" m)
    && not (has_arg "x-max-priority" m)

abbrev pub at_most_255 : ℤ → Bool
at_most_255 (pos n) = leb n 255
at_most_255 (negsuc n) = false

abbrev pub is_stream : Queue → Bool
is_stream q = str_eq q.queue_type "stream"

unfoldable pub queue_ok : Queue → Bool
queue_ok q =
    managed_ok q.args
    && is_valid_queue_type q.queue_type
    && (not (is_positive q.delivery_limit) || is_quorum q)
    && at_most_255 q.max_priority
    && (not (is_positive q.max_priority) || str_eq q.queue_type "" || str_eq q.queue_type "classic")
    && (not (is_quorum q) || (q.durable && not q.exclusive && not q.auto_delete))
    && (not (is_stream q)
        || (q.durable && not q.single_active_consumer && not q.exclusive && not q.auto_delete))

unfoldable pub queues_ok : (Arg → String) → List DeadLetter → List String → List Queue → Bool
unfolding queue_ok overflow_accepted
queues_ok print dls seen [] = true
queues_ok print dls seen (q ∷ qs) =
    not (str_eq q.name "")
    && not (has_name q.name seen)
    && queue_ok q
    && overflow_accepted print dls q
    && queues_ok print dls (q.name ∷ seen) qs

abbrev pub is_fanout : String → List Exchange → Bool
is_fanout n [] = false
is_fanout n (e ∷ es) = if str_eq e.name n then str_eq e.kind "fanout" else is_fanout n es

unfoldable pub bindings_ok : List Exchange → List Binding → Bool
bindings_ok es [] = true
bindings_ok es (b ∷ bs) =
    not (str_eq b.exchange "")
    && not (str_eq b.queue "")
    && (str_eq b.routing_key "" || not (is_fanout b.exchange es))
    && bindings_ok es bs

unfoldable pub exchange_bindings_ok : List ExchangeBinding → Bool
exchange_bindings_ok [] = true
exchange_bindings_ok (b ∷ bs) =
    not (str_eq b.source "") && not (str_eq b.destination "") && exchange_bindings_ok bs

abbrev pub is_stream_name : String → List Queue → Bool
is_stream_name n [] = false
is_stream_name n (q ∷ qs) = (str_eq q.name n && is_stream q) || is_stream_name n qs

unfoldable pub dead_letters_ok : List Queue → List DeadLetter → Bool
dead_letters_ok qs [] = true
dead_letters_ok qs (dl ∷ dls) =
    not (str_eq dl.source "")
    && not (is_stream_name dl.source qs)
    && is_valid_overflow dl.overflow
    && is_valid_overflow dl.dlq_overflow
    && dead_letters_ok qs dls

unfoldable pub is_valid : (Arg → String) → Topology → Bool
unfolding exchanges_ok queues_ok bindings_ok exchange_bindings_ok dead_letters_ok
is_valid print t =
    exchanges_ok [] t.exchanges
    && queues_ok print t.dead_letters [] t.queues
    && bindings_ok t.exchanges t.bindings
    && exchange_bindings_ok t.exchange_bindings
    && dead_letters_ok t.queues t.dead_letters

unfoldable pub validate : (Arg → String) → Topology → Option Err
unfolding is_valid
validate print t = if is_valid print t then none else some (wrap_one (sentinel invalid_options))

unfoldable pub delayed_topic : String → Exchange
delayed_topic name = record {
  name = name;
  kind = "x-delayed-message";
  durable = true;
  auto_delete = false;
  internal = false;
  no_wait = false;
  alternate_exchange = "";
  args = ("x-delayed-type", text "topic") ∷ [];
}
