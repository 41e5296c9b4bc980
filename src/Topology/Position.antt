-- ===== src/Topology/Position.antt =====
-- Which queue of the expansion stands where, topology.go: expand.
use warren.Prelude.{
  bytes_Eq, ℕ, zero, suc, ◌+◌, String, ◌≡◌, refl, sym, ap, subst, ◌∙◌, ◌⊎◌, inl, inr, Bool, true,
  false, Option, none, some, List, [], ◌∷◌, ◌++◌, map, arith, nat_eq, if◌then◌else◌, nat_eq_iff,
  Bool-cases, nat_Eq, str_eq, str_eq_iff, string_Eq, get_elem?, lookup, insert, lookup-insert,
  if_both,
}
use warren.Topology.{Arg, Args, Queue, DeadLetter, Topology, is_quorum}
use warren.Topology.Expand.{
  source_args, dlx_name, inject, overflow_accepted, queue_idx, update_args, add_dlx, expand_at,
  expand_dead_letter, expand_dead_letters, expand, expand_exchange,
}
use warren.Topology.Coupling.{with_args, all_source_args, Coupled, inject-Coupled}

get_elem?-append :
    (i : ℕ) (xs ys : List Queue) (q : Queue)
    → get_elem? xs i ≡ some q
    → get_elem? (xs ++ ys) i ≡ some q
get_elem?-append i [] ys q h = ground arith
get_elem?-append zero (x ∷ xs) ys q h = h
get_elem?-append (suc i) (x ∷ xs) ys q h = get_elem?-append i xs ys q h

get_elem?-map :
    (i : ℕ) (f : Queue → Queue) (xs : List Queue) (q : Queue)
    → get_elem? xs i ≡ some q
    → get_elem? (map f xs) i ≡ some (f q)
get_elem?-map i f [] q h = ground arith
get_elem?-map zero f (x ∷ xs) q h = ground arith
get_elem?-map (suc i) f (x ∷ xs) q h = get_elem?-map i f xs q h

get_elem?-update_args :
    (j i : ℕ) (f : Args → Args) (xs : List Queue) (q : Queue)
    → get_elem? xs i ≡ some q
    → get_elem? (update_args j f xs) i ≡ some (if nat_eq j i then with_args q (f q.args) else q)
unfolding update_args
get_elem?-update_args j i f [] q h = ground arith
get_elem?-update_args zero zero f (x ∷ xs) q h = ground arith
get_elem?-update_args zero (suc i) f (x ∷ xs) q h = h ∙ ground arith
get_elem?-update_args (suc j) zero f (x ∷ xs) q h = h ∙ ground arith
get_elem?-update_args (suc j) (suc i) f (x ∷ xs) q h =
    get_elem?-update_args j i f xs q h ∙ ground arith

add_dlx-queue :
    (dl : DeadLetter) (t : Topology) (i : ℕ) (q : Queue)
    → get_elem? t.queues i ≡ some q
    → get_elem? (add_dlx dl t).queues i ≡ some q
unfolding add_dlx
add_dlx-queue dl t i q h =
    if_both (λ (xs : List Queue). get_elem? xs i ≡ some q) _ t.queues _ h
      (get_elem?-append i t.queues _ q h)

-- Whether the index names a position.
abbrev pub at : Option ℕ → ℕ → Bool
at none i = false
at (some j) i = nat_eq j i

expand_at-queue :
    (o : Option ℕ) (dl : DeadLetter) (t : Topology) (i : ℕ) (q : Queue)
    → get_elem? t.queues i ≡ some q
    → get_elem? (expand_at o dl t).queues i
      ≡ some (if at o i then with_args q (source_args dl (dlx_name dl) q.args) else q)
unfolding expand_at
expand_at-queue none dl t i q h = h
expand_at-queue (some j) dl t i q h =
    add_dlx-queue dl (record t { queues = update_args j (source_args dl (dlx_name dl)) t.queues }) i
      (if nat_eq j i then with_args q (source_args dl (dlx_name dl) q.args) else q)
      (get_elem?-update_args j i (source_args dl (dlx_name dl)) t.queues q h)

push_if :
    (b : Bool) (q : Queue) (m : Args)
    → (if b then with_args q m else q) ≡ with_args q (if b then m else q.args)
push_if true q m = refl
push_if false q m = refl

expand_dead_letters-queue :
    (idx : List (String × ℕ)) (dls : List DeadLetter) (t : Topology) (i : ℕ) (q : Queue)
    → ((n : String) → at (lookup n idx) i ≡ str_eq n q.name)
    → get_elem? t.queues i ≡ some q
    → get_elem? (expand_dead_letters idx dls t).queues i
      ≡ some (with_args q (all_source_args q.name dls q.args))
unfolding expand_dead_letters all_source_args expand_dead_letter
expand_dead_letters-queue idx [] t i q named h = h
expand_dead_letters-queue idx (dl ∷ dls) t i q named h =
    let m = source_args dl (dlx_name dl) q.args in
    expand_dead_letters-queue idx dls (expand_dead_letter idx dl t) i
      (with_args q (if str_eq dl.source q.name then m else q.args)) named
      (expand_at-queue (lookup dl.source idx) dl t i q h
        ∙ ap (λ b. some (if b then with_args q m else q)) (named dl.source)
        ∙ ap some (push_if (str_eq dl.source q.name) q m))

abbrev pub name_at : List Queue → ℕ → Option String
name_at [] i = none
name_at (q ∷ qs) zero = some q.name
name_at (q ∷ qs) (suc i) = name_at qs i

queue_idx_sound :
    (k : ℕ) (qs : List Queue) (m : List (String × ℕ)) (n : String) (j : ℕ)
    → lookup n (queue_idx k qs m) ≡ some j
    → (lookup n m ≡ some j) ⊎ ((i : ℕ) × (j ≡ k + i) × (name_at qs i ≡ some n))
unfolding queue_idx
queue_idx_sound k [] m n j h = inl h
queue_idx_sound k (q ∷ qs) m n j h = elim (queue_idx_sound (suc k) qs (insert q.name k m) n j h) [
  | inr (i, far, here) ↦ inr (suc i, omega arith, here)
  | inl found ↦ elim (Bool-cases (str_eq q.name n)) [
    | inl same ↦
        inr (0, ground (arith, lookup-insert q.name n k m), ap some ((str_eq_iff q.name n).0 same))
    | inr other ↦ inl (ground (arith, lookup-insert q.name n k m))
  ]
]

name_at-get_elem? :
    (qs : List Queue) (i : ℕ) (q : Queue) → get_elem? qs i ≡ some q → name_at qs i ≡ some q.name
name_at-get_elem? [] i q h = ground arith
name_at-get_elem? (x ∷ xs) zero q h = ground arith
name_at-get_elem? (x ∷ xs) (suc i) q h = name_at-get_elem? xs i q h

moved :
    (qs : List Queue) (k i : ℕ) (n : String) → k ≡ i → name_at qs k ≡ some n → name_at qs i ≡ some n
moved qs k i n e h = subst (λ x. name_at qs x ≡ some n) e h

position_found :
    (qs : List Queue) (i : ℕ) (q : Queue) (n : String) (j : ℕ)
    → get_elem? qs i ≡ some q
    → lookup n (queue_idx 0 qs []) ≡ some j
    → j ≡ i
    → n ≡ q.name
position_found qs i q n j stands found same = elim (queue_idx_sound 0 qs [] n j found) [
  | inl none_yet ↦ ground arith
  | inr (k, at_k, named) ↦
      let here = moved qs k i n (omega (arith, at_k, same)) named in
      ground (arith, here, name_at-get_elem? qs i q stands)
]

unnamed :
    (qs : List Queue) (i : ℕ) (q : Queue) (n : String) (o : Option ℕ)
    → get_elem? qs i ≡ some q
    → lookup n (queue_idx 0 qs []) ≡ o
    → str_eq n q.name ≡ false
    → at o i ≡ false
unnamed qs i q n none stands found other = refl
unnamed qs i q n (some j) stands found other = elim (Bool-cases (nat_eq j i)) [
  | inr apart ↦ apart
  | inl same ↦
      let e = position_found qs i q n j stands found ((nat_eq_iff j i).0 same) in
      ground (arith, (str_eq_iff n q.name).1 e)
]

indexed :
    (qs : List Queue) (i : ℕ) (q : Queue) (n : String)
    → get_elem? qs i ≡ some q
    → lookup q.name (queue_idx 0 qs []) ≡ some i
    → at (lookup n (queue_idx 0 qs [])) i ≡ str_eq n q.name
indexed qs i q n stands home = elim (Bool-cases (str_eq n q.name)) [
  | inl same ↦
      ap (λ x. at (lookup x (queue_idx 0 qs [])) i) ((str_eq_iff n q.name).0 same)
      ∙ ap (λ o. at o i) home
      ∙ (nat_eq_iff i i).1 refl
      ∙ sym same
  | inr other ↦ unnamed qs i q n (lookup n (queue_idx 0 qs [])) stands refl other ∙ sym other
]

-- A quorum queue that validate's overflow check accepts stands at its place in the expansion, with
-- its name, and if it ends up with a dead-letter exchange and the at-least-once strategy, then its
-- x-overflow is reject-publish: whether these come from the queue's own arguments or from any number
-- of dead letters, and whatever other queues, exchanges and bindings the expansion adds.
pub expand-Coupled :
    (print : Arg → String) (t : Topology) (i : ℕ) (q : Queue)
    → get_elem? t.queues i ≡ some q
    → lookup q.name (queue_idx 0 t.queues []) ≡ some i
    → is_quorum q ≡ true
    → overflow_accepted print t.dead_letters q ≡ true
    → (u : Queue) × (get_elem? (expand t).queues i ≡ some u)
      × (u.name ≡ q.name)
      × Coupled print u.args
unfolding expand inject
expand-Coupled print t i q stands home quorum accepted =
    let v = with_args q (all_source_args q.name t.dead_letters q.args) in
    let start = record t { exchanges = map expand_exchange t.exchanges } in
    let placed =
      expand_dead_letters-queue (queue_idx 0 t.queues []) t.dead_letters start i q
        (λ n. indexed t.queues i q n stands home) stands in
    (
      inject v,
      get_elem?-map i inject
          (expand_dead_letters (queue_idx 0 t.queues []) t.dead_letters start).queues v placed,
      refl,
      inject-Coupled print q t.dead_letters quorum accepted,
    )
