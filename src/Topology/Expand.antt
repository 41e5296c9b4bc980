-- ===== src/Topology/Expand.antt =====
-- The expansion before anything is declared, topology.go: expand, autoDLQArgs, quorumAtLeastOnce.
use Prim.Native.String.{◌++◌ as append}
use warren.Prelude.{
  is_positive, is_zero, milliseconds, bytes_Eq, ℤ, pos, ℕ, zero, suc, ◌*◌, String, Bool, true,
  false, not, ◌&&◌, ◌||◌, Option, none, some, List, [], ◌∷◌, ◌++◌, map, if◌then◌else◌, nat_Eq,
  str_eq, string_Eq, lookup, insert,
}
use warren.Topology.{
  Arg, text, policy, number, flag, other_value, Args, Exchange, Queue, Binding, DeadLetter,
  Topology, is_quorum, is_present,
}

unfoldable pub set_if : Bool → String → Arg → Args → Args
set_if b k v m = if b then insert k v m else m

unfoldable pub expand_exchange : Exchange → Exchange
unfolding set_if
expand_exchange e = record e {
  args =
      set_if (not (str_eq e.alternate_exchange "")) "alternate-exchange" (text e.alternate_exchange)
        e.args;
}

abbrev pub or_default : ℤ → ℤ → ℤ
or_default n d = if is_zero n then d else n

abbrev pub or_text : String → String → String
or_text s d = if str_eq s "" then d else s

-- defaultDLQMaxLength, and defaultDLQMessageTTL in nanoseconds.
abbrev pub default_dlq_max_length : ℤ
default_dlq_max_length = pos 100000

abbrev pub default_dlq_message_ttl : ℤ
default_dlq_message_ttl = pos (7 * 24 * 3600 * 1000000000)

unfoldable pub auto_dlq_args : DeadLetter → Args
auto_dlq_args dl =
    if dl.dlq_unbounded
    then []
    else (("x-max-length", number (or_default dl.dlq_max_length default_dlq_max_length))
        ∷ (
          "x-message-ttl",
          number (milliseconds (or_default dl.dlq_message_ttl default_dlq_message_ttl)),
        )
        ∷ ("x-overflow", text (or_text dl.dlq_overflow "drop-head"))
        ∷ [])

-- What a dead letter sets on its source queue.
unfoldable pub source_args : DeadLetter → String → Args → Args
unfolding set_if
source_args dl dlx m = set_if (not (str_eq dl.overflow "")) "x-overflow" (text dl.overflow) (
    set_if (is_positive dl.max_length_bytes) "x-max-length-bytes" (number dl.max_length_bytes) (
      set_if (is_positive dl.max_length) "x-max-length" (number dl.max_length) (
        set_if (is_positive dl.ttl) "x-message-ttl" (number (milliseconds dl.ttl)) (
          set_if (not (str_eq dl.routing_key "")) "x-dead-letter-routing-key" (text dl.routing_key)
            (insert "x-dead-letter-exchange" (text dlx) m)))))

-- queueIdx: the last position of a name among the declared queues.
unfoldable pub queue_idx : ℕ → List Queue → List (String × ℕ) → List (String × ℕ)
queue_idx i [] m = m
queue_idx i (q ∷ qs) m = queue_idx (suc i) qs (insert q.name i m)

unfoldable pub update_args : ℕ → (Args → Args) → List Queue → List Queue
update_args i f [] = []
update_args zero f (q ∷ qs) = record q { args = f q.args } ∷ qs
update_args (suc i) f (q ∷ qs) = q ∷ update_args i f qs

unfoldable pub has_exchange : String → List Exchange → Bool
has_exchange n [] = false
has_exchange n (e ∷ es) = str_eq e.name n || has_exchange n es

unfoldable pub has_queue : String → List Queue → Bool
has_queue n [] = false
has_queue n (q ∷ qs) = str_eq q.name n || has_queue n qs

unfoldable pub has_binding : String → String → String → List Binding → Bool
has_binding x q k [] = false
has_binding x q k (b ∷ bs) =
    (str_eq b.exchange x && str_eq b.queue q && str_eq b.routing_key k) || has_binding x q k bs

abbrev pub new_dlx : String → Exchange
new_dlx n = record {
  name = n;
  kind = "topic";
  durable = true;
  auto_delete = false;
  internal = false;
  no_wait = false;
  alternate_exchange = "";
  args = [];
}

abbrev pub new_dlq : String → DeadLetter → Queue
unfolding auto_dlq_args
new_dlq n dl = record {
  name = n;
  durable = true;
  exclusive = false;
  auto_delete = false;
  no_wait = false;
  queue_type = "";
  delivery_limit = pos 0;
  single_active_consumer = false;
  max_priority = pos 0;
  args = auto_dlq_args dl;
}

abbrev pub new_binding : String → String → String → Binding
new_binding x q k = record { exchange = x; queue = q; routing_key = k; no_wait = false; args = [] }

abbrev pub dlx_name : DeadLetter → String
dlx_name dl = or_text dl.exchange (append dl.source ".dlx")

abbrev pub dlq_name : DeadLetter → String
dlq_name dl = append dl.source ".dlq"

-- The exchange, queue and binding that a dead letter adds where they are missing.
unfoldable pub add_dlx : DeadLetter → Topology → Topology
unfolding has_exchange has_queue has_binding new_dlq
add_dlx dl t =
    let key = or_text dl.routing_key "#" in
    record t {
      exchanges =
          if has_exchange (dlx_name dl) t.exchanges
          then t.exchanges
          else t.exchanges ++ new_dlx (dlx_name dl) ∷ [];
      queues =
          if has_queue (dlq_name dl) t.queues
          then t.queues
          else t.queues ++ new_dlq (dlq_name dl) dl ∷ [];
      bindings =
          if has_binding (dlx_name dl) (dlq_name dl) key t.bindings
          then t.bindings
          else t.bindings ++ new_binding (dlx_name dl) (dlq_name dl) key ∷ [];
    }

-- One turn of the dead-letter loop, with what the index of the declared queues says of the source.
unfoldable pub expand_at : Option ℕ → DeadLetter → Topology → Topology
unfolding update_args source_args add_dlx
expand_at none dl t = t
expand_at (some i) dl t =
    add_dlx dl (record t { queues = update_args i (source_args dl (dlx_name dl)) t.queues })

unfoldable pub expand_dead_letter : List (String × ℕ) → DeadLetter → Topology → Topology
unfolding expand_at
expand_dead_letter idx dl t = expand_at (lookup dl.source idx) dl t

unfoldable pub expand_dead_letters : List (String × ℕ) → List DeadLetter → Topology → Topology
unfolding expand_dead_letter
expand_dead_letters idx [] t = t
expand_dead_letters idx (dl ∷ dls) t = expand_dead_letters idx dls (expand_dead_letter idx dl t)

-- The arguments of the typed fields.
unfoldable pub field_args : Queue → Args
unfolding set_if
field_args q = set_if (is_positive q.max_priority) "x-max-priority" (number q.max_priority) (
    set_if (not (str_eq q.queue_type "")) "x-queue-type" (text q.queue_type) (
      set_if q.single_active_consumer "x-single-active-consumer" (flag true) (
        set_if (is_positive q.delivery_limit) "x-delivery-limit" (number q.delivery_limit) q.args)))

abbrev pub is_at_least_once : Option Arg → Bool
is_at_least_once none = true
is_at_least_once (some (text s)) = str_eq s "at-least-once"
is_at_least_once (some (policy s)) = false
is_at_least_once (some (number n)) = false
is_at_least_once (some (flag b)) = false
is_at_least_once (some (other_value n)) = false

-- The strategy of a quorum queue with a dead-letter exchange, and its overflow.
unfoldable pub couple : Args → Args
couple m =
    let strategy = lookup "x-dead-letter-strategy" m in
    let m1 =
      if is_present strategy then m else insert "x-dead-letter-strategy" (text "at-least-once") m in
    if is_at_least_once strategy
    then (if is_present (lookup "x-overflow" m1)
        then m1
        else insert "x-overflow" (text "reject-publish") m1)
    else m1

unfoldable pub inject : Queue → Queue
unfolding field_args couple
inject q = record q {
  args =
      if is_quorum q && is_present (lookup "x-dead-letter-exchange" (field_args q))
      then couple (field_args q)
      else field_args q;
}

unfoldable pub expand : Topology → Topology
unfolding expand_exchange queue_idx expand_dead_letters inject
expand t =
    let out =
      expand_dead_letters (queue_idx 0 t.queues []) t.dead_letters
        (record t { exchanges = map expand_exchange t.exchanges }) in
    record out { queues = map inject out.queues }

-- overflowString; a value that is no string is printed by fmt, which yields some other text.
abbrev pub overflow_string : Arg → Option String
overflow_string (text s) = some s
overflow_string (policy s) = some s
overflow_string (number n) = none
overflow_string (flag b) = none
overflow_string (other_value n) = none

abbrev pub shown : (Arg → String) → Arg → String
shown print a = elim (overflow_string a) [ none ↦ print a | some s ↦ s ]

abbrev pub shown_overflow : (Arg → String) → Option Arg → Option String
shown_overflow print none = none
shown_overflow print (some a) = some (shown print a)

-- The loop over the dead letters of quorumAtLeastOnce: has the queue a dead-letter exchange, and
-- which overflow is set.
unfoldable pub walk_dead_letters :
    String → List DeadLetter → Bool × Option String → Bool × Option String
walk_dead_letters name [] s = s
walk_dead_letters name (dl ∷ dls) s = walk_dead_letters name dls (
    if str_eq dl.source name
    then (true, if str_eq dl.overflow "" then s.1 else some dl.overflow)
    else s)

-- quorumAtLeastOnce, for what fmt prints of a value that is no string: whether the queue couples, and
-- the overflow that is set, if any.
unfoldable pub quorum_at_least_once :
    (Arg → String) → List DeadLetter → Queue → Bool × Option String
unfolding walk_dead_letters
quorum_at_least_once print dls q =
    let s = walk_dead_letters q.name dls (
      is_present (lookup "x-dead-letter-exchange" q.args),
      shown_overflow print (lookup "x-overflow" q.args),
    ) in
    if not (is_quorum q)
    then (false, none)
    else if not s.0
    then (false, none)
    else (is_at_least_once (lookup "x-dead-letter-strategy" q.args), s.1)

-- The check of validate on a queue's overflow.
unfoldable pub overflow_accepted : (Arg → String) → List DeadLetter → Queue → Bool
unfolding quorum_at_least_once
overflow_accepted print dls q =
    let r = quorum_at_least_once print dls q in
    not (r.0 && (elim r.1 [ none ↦ false | some s ↦ not (str_eq s "reject-publish") ]))
