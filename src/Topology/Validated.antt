-- ===== src/Topology/Validated.antt =====
-- What a topology that validate accepts expands to, topology.go and delay.go.
use warren.Prelude.{
  bytes_Eq, ℕ, zero, suc, ◌+◌, String, ◌≡◌, refl, sym, ap, subst, ◌∙◌, ◌≢◌, inl, inr, Bool, true,
  false, not, ◌&&◌, ◌||◌, none, some, List, [], ◌∷◌, arith, if◌then◌else◌, Bool-cases, nat_Eq,
  str_eq, str_eq_iff, string_Eq, get_elem?, lookup, insert, lookup-insert, if_true, if_false,
}
use warren.Errors.{sentinel, wrap_one, invalid_options}
use warren.Topology.{Arg, Queue, DeadLetter, Topology, is_quorum}
use warren.Topology.Expand.{queue_idx, expand, overflow_accepted}
use warren.Topology.Coupling.{Coupled}
use warren.Topology.Position.{expand-Coupled}
use warren.Topology.Validate.{
  has_name, exchange_ok, exchanges_ok, queue_ok, queues_ok, bindings_ok, exchange_bindings_ok,
  dead_letters_ok, is_valid, validate, delayed_topic,
}

all_five :
    (a b c d e : Bool)
    → (not a && not b && c && d && e) ≡ true
    → (b ≡ false) × (c ≡ true) × (d ≡ true) × (e ≡ true)
all_five a b c d e h = ground arith

first_passes :
    (print : Arg → String) (dls : List DeadLetter) (seen : List String) (x : Queue)
    (qs : List Queue)
    → queues_ok print dls seen (x ∷ qs) ≡ true
    → (has_name x.name seen ≡ false)
      × (queue_ok x ≡ true)
      × (overflow_accepted print dls x ≡ true)
      × (queues_ok print dls (x.name ∷ seen) qs ≡ true)
unfolding queues_ok
first_passes print dls seen x qs h =
    all_five (str_eq x.name "") (has_name x.name seen) (queue_ok x) (overflow_accepted print dls x)
      (queues_ok print dls (x.name ∷ seen) qs) h

-- What a queue of a list that passes has passed.
queues_ok-accepted :
    (print : Arg → String) (dls : List DeadLetter) (seen : List String) (qs : List Queue) (i : ℕ)
    (q : Queue)
    → queues_ok print dls seen qs ≡ true
    → get_elem? qs i ≡ some q
    → overflow_accepted print dls q ≡ true
queues_ok-accepted print dls seen [] i q ok h = absurd (ground arith)
queues_ok-accepted print dls seen (x ∷ qs) zero q ok h =
    let same : x ≡ q = ground arith in
    subst (λ (y : Queue). overflow_accepted print dls y ≡ true) same
      (first_passes print dls seen x qs ok).2
queues_ok-accepted print dls seen (x ∷ qs) (suc i) q ok h =
    queues_ok-accepted print dls (x.name ∷ seen) qs i q (first_passes print dls seen x qs ok).3 h

bools_differ : true ≢ false
bools_differ e = ground arith

or_true : (a b : Bool) → b ≡ true → (a || b) ≡ true
or_true a b e = ground arith

true_or : (a b : Bool) → a ≡ true → (a || b) ≡ true
true_or a b e = ground arith

apart :
    (n k : String) (seen : List String)
    → has_name n seen ≡ true
    → has_name k seen ≡ false
    → str_eq k n ≡ false
apart n k seen h g = elim (Bool-cases (str_eq k n)) [
  | inr other ↦ other
  | inl same ↦
      absurd (bools_differ (sym h ∙ ap (λ j. has_name j seen) (sym ((str_eq_iff k n).0 same)) ∙ g))
]

-- The names of the queues are distinct, so the index finds each at its place.
queue_idx_later :
    (print : Arg → String) (dls : List DeadLetter) (seen : List String) (qs : List Queue) (k : ℕ)
    (n : String) (m : List (String × ℕ))
    → queues_ok print dls seen qs ≡ true
    → has_name n seen ≡ true
    → lookup n (queue_idx k qs m) ≡ lookup n m
unfolding queue_idx
queue_idx_later print dls seen [] k n m ok h = refl
queue_idx_later print dls seen (q ∷ qs) k n m ok h =
    let passed = first_passes print dls seen q qs ok in
    queue_idx_later print dls (q.name ∷ seen) qs (suc k) n (insert q.name k m) passed.3
      (or_true (str_eq q.name n) (has_name n seen) h)
    ∙ lookup-insert q.name n k m
    ∙ if_false (str_eq q.name n) _ _ (apart n q.name seen h passed.0)

queue_idx_found :
    (print : Arg → String) (dls : List DeadLetter) (seen : List String) (qs : List Queue) (k i : ℕ)
    (q : Queue) (m : List (String × ℕ))
    → queues_ok print dls seen qs ≡ true
    → get_elem? qs i ≡ some q
    → lookup q.name (queue_idx k qs m) ≡ some (k + i)
unfolding queue_idx
queue_idx_found print dls seen [] k i q m ok h = absurd (ground arith)
queue_idx_found print dls seen (x ∷ qs) k zero q m ok h =
    let same : x ≡ q = ground arith in
    let itself : str_eq x.name x.name ≡ true = (str_eq_iff x.name x.name).1 refl in
    subst (λ (y : Queue). lookup y.name (queue_idx (suc k) qs (insert x.name k m)) ≡ some (k + 0))
      same
      (queue_idx_later print dls (x.name ∷ seen) qs (suc k) x.name (insert x.name k m)
          (first_passes print dls seen x qs ok).3
          (true_or (str_eq x.name x.name) (has_name x.name seen) itself)
        ∙ lookup-insert x.name x.name k m
        ∙ if_true (str_eq x.name x.name) _ _ itself
        ∙ ap some (omega arith))
queue_idx_found print dls seen (x ∷ qs) k (suc i) q m ok h =
    queue_idx_found print dls (x.name ∷ seen) qs (suc k) i q (insert x.name k m)
      (first_passes print dls seen x qs ok).3 h
    ∙ ap some (omega arith)

second_of :
    (a b c d e : Bool)
    → (if a && b && c && d && e then none else some (wrap_one (sentinel invalid_options))) ≡ none
    → b ≡ true
second_of a b c d e h = ground arith

-- Once validate accepts a topology, every quorum queue of it stands at its place in the expansion with
-- its name, and if it ends up with a dead-letter exchange and the at-least-once strategy, then its
-- x-overflow is reject-publish.
pub validate-Coupled :
    (print : Arg → String) (t : Topology) (i : ℕ) (q : Queue)
    → validate print t ≡ none
    → get_elem? t.queues i ≡ some q
    → is_quorum q ≡ true
    → (u : Queue) × (get_elem? (expand t).queues i ≡ some u)
      × (u.name ≡ q.name)
      × Coupled print u.args
unfolding validate is_valid
validate-Coupled print t i q valid stands quorum =
    let ok =
      second_of (exchanges_ok [] t.exchanges) (queues_ok print t.dead_letters [] t.queues) _ _ _
        valid in
    expand-Coupled print t i q stands
      (queue_idx_found print t.dead_letters [] t.queues 0 i q [] ok stands ∙ ap some (omega arith))
      quorum (queues_ok-accepted print t.dead_letters [] t.queues i q ok stands)

-- A topology with only the exchange of DelayedTopic passes, for every name that is not empty.
pub delayed_topic-validate :
    (print : Arg → String) (name : String)
    → name ≢ ""
    → validate print (record {
      exchanges = delayed_topic name ∷ [];
      queues = [];
      bindings = [];
      dead_letters = [];
      exchange_bindings = [];
    })
      ≡ none
unfolding validate is_valid exchanges_ok exchange_ok delayed_topic queues_ok bindings_ok
    exchange_bindings_ok dead_letters_ok
delayed_topic-validate print name named = ground (arith, str_eq_iff name "")
