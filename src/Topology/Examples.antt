-- ===== src/Topology/Examples.antt =====
-- The theorems about topologies at concrete inputs.
use warren.Prelude.{
  bytes_Eq, pos, String, ◌≡◌, refl, true, false, none, some, List, [], ◌∷◌, nat_Eq, string_Eq,
  get_elem?,
}
use warren.Topology.{Arg, Queue, DeadLetter, Topology}
use warren.Topology.Expand.{expand, overflow_accepted, quorum_at_least_once, walk_dead_letters}
use warren.Topology.Coupling.{Coupled}
use warren.Topology.Validate.{
  validate, is_valid, exchanges_ok, queues_ok, queue_ok, bindings_ok, exchange_bindings_ok,
  dead_letters_ok,
}
use warren.Topology.Validated.{validate-Coupled}
use warren.Topology.Redeclare.{Run, Exclusive, turns, turns-Exclusive, asking, finishing, Turn}

abbrev orders : Queue
orders = record {
  name = "orders";
  durable = true;
  exclusive = false;
  auto_delete = false;
  no_wait = false;
  queue_type = "quorum";
  delivery_limit = pos 5;
  single_active_consumer = false;
  max_priority = pos 0;
  args = [];
}

abbrev dead : DeadLetter
dead = record {
  source = "orders";
  exchange = "";
  routing_key = "";
  ttl = pos 0;
  max_length = pos 10;
  max_length_bytes = pos 0;
  overflow = "";
  dlq_max_length = pos 0;
  dlq_message_ttl = pos 0;
  dlq_overflow = "";
  dlq_unbounded = false;
}

abbrev topology : Topology
topology = record {
  exchanges = [];
  queues = orders ∷ [];
  bindings = [];
  dead_letters = dead ∷ [];
  exchange_bindings = [];
}

abbrev print : Arg → String
print a = ""

validate-Coupled_example :
    (u : Queue) × (get_elem? (expand topology).queues 0 ≡ some u)
    × (u.name ≡ "orders")
    × Coupled print u.args
unfolding validate is_valid exchanges_ok queues_ok queue_ok bindings_ok exchange_bindings_ok
    dead_letters_ok overflow_accepted quorum_at_least_once walk_dead_letters
validate-Coupled_example = validate-Coupled print topology 0 orders refl refl refl

-- Three barriers ask in turn while the first redeclares, which then succeeds.
abbrev barriers : List Turn
barriers = asking 5 ∷ asking 6 ∷ finishing none 7 ∷ asking 8 ∷ []

abbrev no_run : Run
no_run = record {
  coordinator = record { last_declare = none; in_flight = false };
  running = 0;
  started = 0;
}

turns-Exclusive_example : Exclusive (turns no_run barriers)
turns-Exclusive_example = turns-Exclusive no_run barriers refl
