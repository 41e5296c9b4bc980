-- ===== src/Topology.antt =====
-- Topologies as data, topology.go.
--
-- A map of arguments is an association list: a nil map and an empty one are both the empty list, for
-- the broker library encodes both as an empty table. An argument is a string, an OverflowPolicy, an
-- integer, a Boolean or a value of another type. Kinds, types and policies are Go strings.
pub mod Expand
pub mod Declare
pub mod Coupling
pub mod Position
pub mod Validate
pub mod Validated
pub mod Redeclare
pub mod Examples
use warren.Prelude.{
  is_positive, is_zero, milliseconds, bytes_eq, bytes_eq_iff, bytes_Eq, ℤ, pos, negsuc, ℕ, zero,
  suc, ◌+◌, ◌-◌, ◌*◌, ◌/◌, ◌%◌, ◌^◌, ◌≤◌, ◌<◌, min, max, String, ◌≡◌, refl, sym, ap, subst, fun_ext,
  ◌∙◌, ◌≢◌, ◌↔◌, ◌⊎◌, inl, inr, Bool, true, false, not, ◌&&◌, ◌||◌, Option, none, some, List, [],
  ◌∷◌, ◌++◌, map, arith, ltb, leb, nat_eq, if◌then◌else◌, nat_eq_iff, leb_iff, ltb_iff, ltb-false,
  leb-false, Bool-cases, Option-cases, Eq, ◌==◌, nat_Eq, str_eq, str_eq_iff, string_Eq, length,
  get_elem?, take, drop, replicate, length-append, length-drop, drop_all, In, lookup, insert, erase,
  lookup-insert, lookup-erase, if_both, if_true, if_false, ℕ_discrete,
}

pub data Arg : Type 0 where
  text policy : String → Arg
  number : ℤ → Arg
  flag : Bool → Arg
  other_value : ℕ → Arg

abbrev pub Args : Type 0
Args = List (String × Arg)

pub record Exchange : Type 0 where
  pub name : String
  pub kind : String
  pub durable : Bool
  pub auto_delete : Bool
  pub internal : Bool
  pub no_wait : Bool
  pub alternate_exchange : String
  pub args : Args

pub record Queue : Type 0 where
  pub name : String
  pub durable : Bool
  pub exclusive : Bool
  pub auto_delete : Bool
  pub no_wait : Bool
  pub queue_type : String
  pub delivery_limit : ℤ
  pub single_active_consumer : Bool
  pub max_priority : ℤ
  pub args : Args

pub record Binding : Type 0 where
  pub exchange : String
  pub queue : String
  pub routing_key : String
  pub no_wait : Bool
  pub args : Args

pub record ExchangeBinding : Type 0 where
  pub source : String
  pub destination : String
  pub routing_key : String
  pub no_wait : Bool
  pub args : Args

-- Durations are nanoseconds.
pub record DeadLetter : Type 0 where
  pub source : String
  pub exchange : String
  pub routing_key : String
  pub ttl : ℤ
  pub max_length : ℤ
  pub max_length_bytes : ℤ
  pub overflow : String
  pub dlq_max_length : ℤ
  pub dlq_message_ttl : ℤ
  pub dlq_overflow : String
  pub dlq_unbounded : Bool

pub record Topology : Type 0 where
  pub exchanges : List Exchange
  pub queues : List Queue
  pub bindings : List Binding
  pub dead_letters : List DeadLetter
  pub exchange_bindings : List ExchangeBinding

abbrev pub is_quorum : Queue → Bool
is_quorum q = str_eq q.queue_type "quorum"

abbrev pub is_present : Option Arg → Bool
is_present none = false
is_present (some a) = true
