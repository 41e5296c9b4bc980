-- ===== src/Topology/Redeclare.antt =====
-- The topologies attached to a connection and their redeclaration after a reconnect, topology.go:
-- AttachTo, ensureTopologyRedeclare and runTopologyRedeclare.
--
-- A topology is attached under its pointer, a number. The barriers of the sockets share one coordinator;
-- `asks` is one pass of the loop of ensureTopologyRedeclare up to where the lock is given back, and
-- `finishes` the part after the redeclaration. A time is a clock reading, none of which is zero.
use warren.Prelude.{
  bytes_Eq, ℕ, ◌+◌, ◌-◌, ◌*◌, String, ◌≡◌, refl, ap, ◌∙◌, Bool, true, false, ◌&&◌, Option, none,
  some, List, [], ◌∷◌, ◌++◌, arith, ltb, nat_eq, if◌then◌else◌, nat_Eq, string_Eq, lookup, insert,
  lookup-insert,
}
use warren.Errors.{Err}
use warren.Topology.{Topology, Arg}
use warren.Topology.Expand.{expand}
use warren.Topology.Validate.{validate}
use warren.Topology.Declare.{Declaration, declare_on_channel}

pub record Attached : Type 0 where
  pub keys : List ℕ
  pub snapshots : List (ℕ × Topology)
  pub is_hooked : Bool
  pub hooks : ℕ

unfoldable pub attach_checked : ℕ → ℕ → Topology → Attached → Option Err → Attached × Option Err
unfolding expand
attach_checked sockets key t c (some e) = (c, some e)
attach_checked sockets key t c none = (
  record {
    keys = elim (lookup key c.snapshots) [ some _ ↦ c.keys | none ↦ c.keys ++ key ∷ [] ];
    snapshots = insert key (expand t) c.snapshots;
    is_hooked = true;
    hooks = if c.is_hooked then c.hooks else c.hooks + sockets;
  },
  none,
)

-- AttachTo for a connection with some sockets, each of which gets a hook the first time.
unfoldable pub attach_to : (Arg → String) → ℕ → ℕ → Topology → Attached → Attached × Option Err
unfolding validate attach_checked
attach_to print sockets key t c = attach_checked sockets key t c (validate print t)

abbrev pub second : ℕ
second = 1000000000

abbrev pub coalesce_window : ℕ
coalesce_window = 10 * second

-- Of the coordinator: topoLastDeclare and whether a redeclaration is in flight.
pub record Coordinator : Type 0 where
  pub last_declare : Option ℕ
  pub in_flight : Bool

pub data Pass : Type 0 where
  skips waits owns : Pass

abbrev pub is_recent : Option ℕ → ℕ → Bool
is_recent none now = false
is_recent (some t) now = ltb (now - t) coalesce_window

unfoldable pub asks : Coordinator → ℕ → Coordinator × Pass
asks c now =
    if is_recent c.last_declare now
    then (c, skips)
    else if c.in_flight
    then (c, waits)
    else (record c { in_flight = true }, owns)

abbrev pub is_none : Option Err → Bool
is_none none = true
is_none (some e) = false

unfoldable pub finishes : Coordinator → Option Err → ℕ → Coordinator
finishes c err now = record {
  last_declare = if is_none err then some now else c.last_declare;
  in_flight = false;
}

-- runTopologyRedeclare over the keys: each topology on a channel of its own, until an error. The answers
-- to one topology are those of the context, of the channel and of the broker.
pub record Answers : Type 0 where
  pub context_error : Option Err
  pub channel_error : Option Err
  pub broker : Declaration → Option Err

abbrev pub then_rest :
    List Declaration × Option Err → List Declaration × Option Err → List Declaration × Option Err
then_rest (ds, some e) rest = (ds, some e)
then_rest (ds, none) rest = (ds ++ rest.0, rest.1)

unfoldable pub declared : Answers → Option Topology → List Declaration × Option Err
unfolding declare_on_channel
declared a none = ([], none)
declared a (some t) = declare_on_channel a.broker t

unfoldable pub run_topology_redeclare :
    (ℕ → Answers) → List (ℕ × Topology) → List ℕ → List Declaration × Option Err
unfolding declared
run_topology_redeclare answers snapshots [] = ([], none)
run_topology_redeclare answers snapshots (k ∷ ks) =
    let rest = run_topology_redeclare answers snapshots ks in
    let here = then_rest (declared (answers k) (lookup k snapshots)) rest in
    elim (answers k).context_error [
      | some e ↦ ([], some e)
      | none ↦ elim (answers k).channel_error [ some e ↦ ([], some e) | none ↦ here ]
    ]

-- The barriers of a reconnect: a pass of the loop, or the end of the redeclaration that is in flight.
pub data Turn : Type 0 where
  asking : ℕ → Turn
  finishing : Option Err → ℕ → Turn

pub record Run : Type 0 where
  pub coordinator : Coordinator
  pub running : ℕ
  pub started : ℕ

abbrev pub began : Coordinator × Pass → Run → Run
began (c, skips) r = record r { coordinator = c }
began (c, waits) r = record r { coordinator = c }
began (c, owns) r = record { coordinator = c; running = r.running + 1; started = r.started + 1 }

unfoldable pub turn : Run → Turn → Run
unfolding asks finishes
turn r (asking now) = began (asks r.coordinator now) r
turn r (finishing err now) = if nat_eq r.running 0 then r else record {
  coordinator = finishes r.coordinator err now;
  running = r.running - 1;
  started = r.started;
}

unfoldable pub turns : Run → List Turn → Run
unfolding turn
turns r [] = r
turns r (t ∷ ts) = turns (turn r t) ts

abbrev pub Exclusive : Run → Type 0
Exclusive r = (if r.coordinator.in_flight then 1 else 0) ≡ r.running

turn-Exclusive : (r : Run) (t : Turn) → Exclusive r → Exclusive (turn r t)
unfolding turn asks finishes
turn-Exclusive r (asking now) e = ground arith
turn-Exclusive r (finishing err now) e = ground arith

-- However the barriers of the sockets interleave, at most one redeclaration of the topology is running,
-- and the coordinator says so exactly while it runs.
pub turns-Exclusive : (r : Run) (ts : List Turn) → Exclusive r → Exclusive (turns r ts)
unfolding turns
turns-Exclusive r [] e = e
turns-Exclusive r (t ∷ ts) e = turns-Exclusive (turn r t) ts (turn-Exclusive r t e)

abbrev pub all_within : ℕ → List Turn → Bool
all_within bound [] = true
all_within bound (asking now ∷ ts) = ltb now bound && all_within bound ts
all_within bound (finishing err now ∷ ts) = all_within bound ts

window_open :
    (t now : ℕ) → ltb now (t + coalesce_window) ≡ true → ltb (now - t) coalesce_window ≡ true
window_open t now lt = ground arith

quiet_turn :
    (r : Run) (t now : ℕ)
    → r.coordinator.last_declare ≡ some t
    → ltb now (t + coalesce_window) ≡ true
    → turn r (asking now) ≡ r
unfolding turn asks
quiet_turn r t now last lt = rw (last, window_open t now lt) refl

idle_turn : (r : Run) (err : Option Err) (now : ℕ) → r.running ≡ 0 → turn r (finishing err now) ≡ r
unfolding turn
idle_turn r err now idle = rw idle refl

-- Once a redeclaration has succeeded and none is running, no barrier that asks in the ten seconds after
-- it starts another or waits: the coordinator stays as it is.
pub turns-coalesced :
    (r : Run) (t : ℕ) (ts : List Turn)
    → r.coordinator.last_declare ≡ some t
    → r.running ≡ 0
    → all_within (t + coalesce_window) ts ≡ true
    → turns r ts ≡ r
unfolding turns
turns-coalesced r t [] last idle w = refl
turns-coalesced r t (asking now ∷ ts) last idle w =
    ap (λ u. turns u ts) (quiet_turn r t now last (ground arith))
    ∙ turns-coalesced r t ts last idle (ground arith)
turns-coalesced r t (finishing err now ∷ ts) last idle w =
    ap (λ u. turns u ts) (idle_turn r err now idle) ∙ turns-coalesced r t ts last idle w

-- Attachments in a row.
unfoldable pub attach_all : (Arg → String) → ℕ → List (ℕ × Topology) → Attached → Attached
unfolding attach_to
attach_all print sockets [] c = c
attach_all print sockets ((k, t) ∷ ts) c =
    attach_all print sockets ts (attach_to print sockets k t c).0

abbrev pub is_present : Option Topology → Bool
is_present none = false
is_present (some t) = true

abbrev pub all_present : List ℕ → List (ℕ × Topology) → Bool
all_present [] snaps = true
all_present (k ∷ ks) snaps = is_present (lookup k snaps) && all_present ks snaps

-- Every key has a snapshot, and the hooks are those of one round over the sockets.
abbrev pub Registered : ℕ → Attached → Type 0
Registered sockets c =
    (all_present c.keys c.snapshots ≡ true) × (c.hooks ≡ (if c.is_hooked then sockets else 0))

all_present-insert :
    (ks : List ℕ) (k : ℕ) (t : Topology) (snaps : List (ℕ × Topology))
    → all_present ks snaps ≡ true
    → all_present ks (insert k t snaps) ≡ true
all_present-insert [] k t snaps h = refl
all_present-insert (j ∷ ks) k t snaps h =
    ground (arith, lookup-insert k j t snaps, all_present-insert ks k t snaps)

all_present-append :
    (ks : List ℕ) (k : ℕ) (t : Topology) (snaps : List (ℕ × Topology))
    → all_present ks (insert k t snaps) ≡ true
    → all_present (ks ++ k ∷ []) (insert k t snaps) ≡ true
all_present-append [] k t snaps h = ground (arith, lookup-insert k k t snaps)
all_present-append (j ∷ ks) k t snaps h = ground (arith, all_present-append ks k t snaps)

registered_keys :
    (o : Option Topology) (ks : List ℕ) (k : ℕ) (t : Topology) (snaps : List (ℕ × Topology))
    → all_present ks snaps ≡ true
    → all_present (elim o [ some _ ↦ ks | none ↦ ks ++ k ∷ [] ]) (insert k t snaps) ≡ true
registered_keys (some u) ks k t snaps h = all_present-insert ks k t snaps h
registered_keys none ks k t snaps h =
    all_present-append ks k t snaps (all_present-insert ks k t snaps h)

attach_checked-Registered :
    (sockets k : ℕ) (t : Topology) (c : Attached) (o : Option Err)
    → Registered sockets c
    → Registered sockets (attach_checked sockets k t c o).0
unfolding attach_checked
attach_checked-Registered sockets k t c (some e) h = h
attach_checked-Registered sockets k t c none h = (
  registered_keys (lookup k c.snapshots) c.keys k (expand t) c.snapshots h.0,
  ground (arith, h.1),
)

-- After any attachments to a fresh connection, accepted or refused, of new topologies or the same again:
-- the redeclaration finds a snapshot under every key, and each socket has one hook or, before the first
-- accepted attachment, none.
pub attach_all-Registered :
    (print : Arg → String) (sockets : ℕ) (ts : List (ℕ × Topology)) (c : Attached)
    → Registered sockets c
    → Registered sockets (attach_all print sockets ts c)
unfolding attach_all attach_to
attach_all-Registered print sockets [] c h = h
attach_all-Registered print sockets ((k, t) ∷ ts) c h =
    attach_all-Registered print sockets ts _
      (attach_checked-Registered sockets k t c (validate print t) h)
