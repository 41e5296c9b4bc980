-- ===== src/Topology/Coupling.antt =====
-- The arguments of a quorum queue through the expansion, topology.go.
use warren.Prelude.{
  bytes_Eq, String, ◌≡◌, refl, sym, ap, subst, ◌∙◌, ◌⊎◌, inl, inr, Bool, true, false, not, ◌&&◌,
  Option, none, some, List, [], ◌∷◌, arith, if◌then◌else◌, Bool-cases, nat_Eq, str_eq, string_Eq,
  lookup, insert, lookup-insert, if_true, if_false,
}
use warren.Topology.{Arg, text, Args, Queue, DeadLetter, is_quorum, is_present}
use warren.Topology.Expand.{
  set_if, source_args, dlx_name, is_at_least_once, couple, field_args, inject, shown_overflow,
  walk_dead_letters, quorum_at_least_once, overflow_accepted,
}

lookup-set_if :
    (b : Bool) (k j : String) (v : Arg) (m : Args)
    → lookup j (set_if b k v m) ≡ (if b && str_eq k j then some v else lookup j m)
unfolding set_if
lookup-set_if b k j v m = ground (arith, lookup-insert k j v m)

and_false : (b : Bool) → (b && false) ≡ false
and_false b = ground arith

and_true : (b : Bool) → (b && true) ≡ b
and_true b = ground arith

-- A dead letter leaves the strategy alone.
source_args-strategy :
    (dl : DeadLetter) (dlx : String) (m : Args)
    → lookup "x-dead-letter-strategy" (source_args dl dlx m) ≡ lookup "x-dead-letter-strategy" m
unfolding source_args
source_args-strategy dl dlx m =
    simp (lookup-set_if, and_false)
      (lookup-insert "x-dead-letter-exchange" "x-dead-letter-strategy" (text dlx) m)

source_args-overflow :
    (dl : DeadLetter) (dlx : String) (m : Args)
    → lookup "x-overflow" (source_args dl dlx m)
      ≡ (if str_eq dl.overflow "" then lookup "x-overflow" m else some (text dl.overflow))
unfolding source_args
source_args-overflow dl dlx m =
    simp (lookup-set_if, and_false, and_true)
      (ground (arith, lookup-insert "x-dead-letter-exchange" "x-overflow" (text dlx) m))

pub couple_lem :
    (m : Args)
    → (lookup "x-overflow" (couple m) ≡ (
        if is_at_least_once (lookup "x-dead-letter-strategy" m)
          && not (is_present (lookup "x-overflow" m))
        then some (text "reject-publish")
        else lookup "x-overflow" m))
      × (is_at_least_once (lookup "x-dead-letter-strategy" (couple m))
          ≡ is_at_least_once (lookup "x-dead-letter-strategy" m))
      × (is_present (lookup "x-dead-letter-strategy" (couple m)) ≡ true)
unfolding couple
couple_lem m =
    let m1 = insert "x-dead-letter-strategy" (text "at-least-once") m in
    ground (
      arith,
      lookup-insert "x-dead-letter-strategy" "x-dead-letter-strategy" (text "at-least-once") m,
      lookup-insert "x-dead-letter-strategy" "x-overflow" (text "at-least-once") m,
      lookup-insert "x-overflow" "x-overflow" (text "reject-publish") m,
      lookup-insert "x-overflow" "x-overflow" (text "reject-publish") m1,
      lookup-insert "x-overflow" "x-dead-letter-strategy" (text "reject-publish") m,
      lookup-insert "x-overflow" "x-dead-letter-strategy" (text "reject-publish") m1,
    )

source_args-exchange :
    (dl : DeadLetter) (dlx : String) (m : Args)
    → lookup "x-dead-letter-exchange" (source_args dl dlx m) ≡ some (text dlx)
unfolding source_args
source_args-exchange dl dlx m =
    simp (lookup-set_if, and_false)
      (lookup-insert "x-dead-letter-exchange" "x-dead-letter-exchange" (text dlx) m)

pub field_args-strategy :
    (q : Queue)
    → lookup "x-dead-letter-strategy" (field_args q) ≡ lookup "x-dead-letter-strategy" q.args
unfolding field_args
field_args-strategy q = simp (lookup-set_if, and_false) refl

pub field_args-overflow :
    (q : Queue) → lookup "x-overflow" (field_args q) ≡ lookup "x-overflow" q.args
unfolding field_args
field_args-overflow q = simp (lookup-set_if, and_false) refl

pub field_args-exchange :
    (q : Queue)
    → lookup "x-dead-letter-exchange" (field_args q) ≡ lookup "x-dead-letter-exchange" q.args
unfolding field_args
field_args-exchange q = simp (lookup-set_if, and_false) refl

-- The arguments of a queue of a name after all dead letters.
unfoldable pub all_source_args : String → List DeadLetter → Args → Args
unfolding source_args
all_source_args name [] m = m
all_source_args name (dl ∷ dls) m =
    all_source_args name dls (if str_eq dl.source name then source_args dl (dlx_name dl) m else m)

abbrev pub state_of : (Arg → String) → Args → Bool × Option String
state_of print m =
    (is_present (lookup "x-dead-letter-exchange" m), shown_overflow print (lookup "x-overflow" m))

walk_step :
    (print : Arg → String) (name : String) (dl : DeadLetter) (m : Args)
    → (if str_eq dl.source name
        then (true, if str_eq dl.overflow "" then (state_of print m).1 else some dl.overflow)
        else state_of print m)
      ≡ state_of print (if str_eq dl.source name then source_args dl (dlx_name dl) m else m)
walk_step print name dl m =
    ground (arith, source_args-exchange dl (dlx_name dl) m, source_args-overflow dl (dlx_name dl) m)

-- What validate reads off the dead letters is what expand writes.
pub walk_lem :
    (print : Arg → String) (name : String) (dls : List DeadLetter) (m : Args)
    → walk_dead_letters name dls (state_of print m) ≡ state_of print (all_source_args name dls m)
unfolding walk_dead_letters all_source_args
walk_lem print name [] m = refl
walk_lem print name (dl ∷ dls) m =
    ap (walk_dead_letters name dls) (walk_step print name dl m)
    ∙ walk_lem print name dls (if str_eq dl.source name then source_args dl (dlx_name dl) m else m)

pub strategy_lem :
    (name : String) (dls : List DeadLetter) (m : Args)
    → lookup "x-dead-letter-strategy" (all_source_args name dls m)
      ≡ lookup "x-dead-letter-strategy" m
unfolding all_source_args
strategy_lem name [] m = refl
strategy_lem name (dl ∷ dls) m =
    strategy_lem name dls (if str_eq dl.source name then source_args dl (dlx_name dl) m else m)
    ∙ ground (arith, source_args-strategy dl (dlx_name dl) m)

abbrev pub rejects : Option String → Bool
rejects none = false
rejects (some s) = str_eq s "reject-publish"

abbrev pub Coupled : (Arg → String) → Args → Type 0
Coupled print m =
    ((is_present (lookup "x-dead-letter-exchange" m)
        && is_at_least_once (lookup "x-dead-letter-strategy" m))
      ≡ false)
    ⊎ (rejects (shown_overflow print (lookup "x-overflow" m)) ≡ true)

abbrev pub with_args : Queue → Args → Queue
with_args q m = record q { args = m }

abbrev pub accepts : Bool → Option String → Bool
accepts alo ov = not (alo && (elim ov [ none ↦ false | some s ↦ not (str_eq s "reject-publish") ]))

accepted_state :
    (print : Arg → String) (q : Queue) (dls : List DeadLetter)
    → is_quorum q ≡ true
    → overflow_accepted print dls q ≡ true
    → let m = all_source_args q.name dls q.args in
      is_present (lookup "x-dead-letter-exchange" m) ≡ true
      → accepts
          (is_at_least_once (lookup "x-dead-letter-strategy" m))
          (shown_overflow print (lookup "x-overflow" m))
        ≡ true
unfolding overflow_accepted quorum_at_least_once
accepted_state print q dls quorum accepted present =
    let walked = walk_lem print q.name dls q.args in
    ground (
      arith,
      ap (λ (s : Bool × Option String). s.0) walked,
      ap (λ (s : Bool × Option String). s.1) walked,
      strategy_lem q.name dls q.args,
    )

coupling_cases :
    (print : Arg → String) (p b : Bool) (ov : Option Arg)
    → accepts b (shown_overflow print ov) ≡ true
    → ((p && b) ≡ false)
      ⊎ (rejects (
            shown_overflow print
              (if b && not (is_present ov) then some (text "reject-publish") else ov))
          ≡ true)
coupling_cases print p false ov h = inl (and_false p)
coupling_cases print p true none h = inr refl
coupling_cases print p true (some a) h = inr (ground arith)

couple-Coupled :
    (print : Arg → String) (m : Args)
    → accepts
        (is_at_least_once (lookup "x-dead-letter-strategy" m))
        (shown_overflow print (lookup "x-overflow" m))
      ≡ true
    → Coupled print (couple m)
couple-Coupled print m h =
    let p = is_present (lookup "x-dead-letter-exchange" (couple m)) in
    let l = couple_lem m in
    subst
      (λ o.
        ((p && is_at_least_once (lookup "x-dead-letter-strategy" (couple m))) ≡ false)
        ⊎ (rejects (shown_overflow print o) ≡ true))
      (sym l.0)
      (subst
        (λ b.
          ((p && b) ≡ false)
          ⊎ (rejects (
                shown_overflow print (
                  if is_at_least_once (lookup "x-dead-letter-strategy" m)
                    && not (is_present (lookup "x-overflow" m))
                  then some (text "reject-publish")
                  else lookup "x-overflow" m))
              ≡ true))
        (sym l.1)
        (coupling_cases print p (is_at_least_once (lookup "x-dead-letter-strategy" m))
          (lookup "x-overflow" m) h))

accepted_fields :
    (print : Arg → String) (q : Queue) (dls : List DeadLetter)
    → is_quorum q ≡ true
    → overflow_accepted print dls q ≡ true
    → let m = field_args (with_args q (all_source_args q.name dls q.args)) in
      is_present (lookup "x-dead-letter-exchange" m) ≡ true
      → accepts
          (is_at_least_once (lookup "x-dead-letter-strategy" m))
          (shown_overflow print (lookup "x-overflow" m))
        ≡ true
accepted_fields print q dls quorum accepted present =
    let a = all_source_args q.name dls q.args in
    let u = with_args q a in
    subst
      (λ o.
        accepts (is_at_least_once o) (shown_overflow print (lookup "x-overflow" (field_args u)))
        ≡ true)
      (sym (field_args-strategy u))
      (subst
        (λ o.
          accepts (is_at_least_once (lookup "x-dead-letter-strategy" a)) (shown_overflow print o)
          ≡ true)
        (sym (field_args-overflow u))
        (accepted_state print q dls quorum accepted
          (ap is_present (sym (field_args-exchange u)) ∙ present)))

-- A quorum queue that validate accepts is coupled once its arguments are expanded.
pub inject-Coupled :
    (print : Arg → String) (q : Queue) (dls : List DeadLetter)
    → is_quorum q ≡ true
    → overflow_accepted print dls q ≡ true
    → Coupled print (inject (with_args q (all_source_args q.name dls q.args))).args
unfolding inject
inject-Coupled print q dls quorum accepted =
    let u = with_args q (all_source_args q.name dls q.args) in
    let m = field_args u in
    elim (Bool-cases (is_present (lookup "x-dead-letter-exchange" m))) [
      | inl present ↦
          subst (λ a. Coupled print a) (sym (if_true _ (couple m) m (ground arith)))
            (couple-Coupled print m (accepted_fields print q dls quorum accepted present))
      | inr absent ↦
          subst (λ a. Coupled print a) (sym (if_false _ (couple m) m (ground arith)))
            (inl (ground arith))
    ]
