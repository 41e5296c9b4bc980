-- ===== src/Headers/Counts.antt =====
-- The counts of the parsed x-death header, internal/headers/xdeath.go.
use warren.Prelude.{
  bytes_eq, bytes_eq_iff, bytes_Eq, ℕ, ◌+◌, ◌≤◌, min, ◌≡◌, refl, ap, Bool, false, ◌&&◌, ◌||◌,
  Option, none, some, List, [], ◌∷◌, arith, if◌then◌else◌, nat_Eq, string_Eq, lookup, lookup-insert,
}
use warren.Headers.{
  Text, Entry, entries, XDeathResult, max_int, normalize_reason, rejected, delivery_limit, text_or,
  clamp, add_capped, or_zero, add_entry, parse_entry, parse_entries, parse_x_death, count_by_reason,
  no_deaths,
}

abbrev pub of_queue : Text → Option Entry → Bool
of_queue queue none = false
of_queue queue (some e) = bytes_eq (text_or e.queue) queue

-- The unbounded sum of the counts that the queue's entries have for a reason.
unfoldable pub sum_for : Text → Text → List (Option Entry) → ℕ
unfolding clamp
sum_for queue reason [] = 0
sum_for queue reason (none ∷ es) = sum_for queue reason es
sum_for queue reason (some e ∷ es) =
    (if bytes_eq (text_or e.queue) queue && bytes_eq (normalize_reason (text_or e.reason)) reason
      then clamp e.count
      else 0)
    + sum_for queue reason es

add_capped_lem : (total n : ℕ) → total ≤ max_int → add_capped total n ≡ min max_int (total + n)
unfolding add_capped
add_capped_lem total n h = ground arith

normalize_reason_idem : (s : Text) → normalize_reason (normalize_reason s) ≡ normalize_reason s
normalize_reason_idem [] = refl
normalize_reason_idem (b ∷ s) = ground (arith, normalize_reason_idem s)

abbrev pub by : Text → XDeathResult → ℕ
by reason r = or_zero (lookup reason r.by_reason)

by-add_entry :
    (reason key : Text) (n : ℕ) (r : XDeathResult)
    → by key r ≤ max_int
    → by key (add_entry reason n r)
      ≡ (if bytes_eq reason key then min max_int (by key r + n) else by key r)
unfolding add_entry
by-add_entry reason key n r h = ground (
  arith,
  lookup-insert reason key (add_capped (or_zero (lookup reason r.by_reason)) n) r.by_reason,
  bytes_eq_iff reason key,
  add_capped_lem (or_zero (lookup key r.by_reason)) n,
)

count-add_entry :
    (reason : Text) (n : ℕ) (r : XDeathResult)
    → r.count ≤ max_int
    → (add_entry reason n r).count ≡ (
        if bytes_eq reason rejected || bytes_eq reason delivery_limit
        then min max_int (r.count + n)
        else r.count)
unfolding add_entry
count-add_entry reason n r h = ground (arith, add_capped_lem r.count n)

by-parse_entry :
    (queue key : Text) (e : Option Entry) (r : XDeathResult)
    → by key r ≤ max_int
    → by key (parse_entry queue e r) ≡ min max_int (by key r + sum_for queue key (e ∷ []))
unfolding sum_for parse_entry
by-parse_entry queue key none r h = omega arith
by-parse_entry queue key (some e) r h =
    ground (arith, by-add_entry (normalize_reason (text_or e.reason)) key (clamp e.count) r h)

sum_for-cons :
    (queue key : Text) (e : Option Entry) (es : List (Option Entry))
    → sum_for queue key (e ∷ es) ≡ sum_for queue key (e ∷ []) + sum_for queue key es
unfolding sum_for
sum_for-cons queue key none es = omega arith
sum_for-cons queue key (some e) es = omega arith

by-parse_entries :
    (queue key : Text) (es : List (Option Entry)) (r : XDeathResult)
    → by key r ≤ max_int
    → by key (parse_entries queue es r) ≡ min max_int (by key r + sum_for queue key es)
unfolding parse_entries sum_for
by-parse_entries queue key [] r h = omega arith
by-parse_entries queue key (e ∷ es) r h =
    let step = by-parse_entry queue key e r h in
    let rest = by-parse_entries queue key es (parse_entry queue e r) (omega (arith, step)) in
    omega (arith, step, rest, sum_for-cons queue key e es)

apart : (s : Text) → (bytes_eq s rejected && bytes_eq s delivery_limit) ≡ false
apart [] = refl
apart (b ∷ s) = ground arith

count-parse_entry :
    (queue : Text) (e : Option Entry) (r : XDeathResult)
    → r.count ≤ max_int
    → (parse_entry queue e r).count
      ≡ min max_int
          (r.count + (sum_for queue rejected (e ∷ []) + sum_for queue delivery_limit (e ∷ [])))
unfolding sum_for parse_entry
count-parse_entry queue none r h = omega arith
count-parse_entry queue (some e) r h = ground (
  arith,
  count-add_entry (normalize_reason (text_or e.reason)) (clamp e.count) r h,
  apart (normalize_reason (text_or e.reason)),
)

count-parse_entries :
    (queue : Text) (es : List (Option Entry)) (r : XDeathResult)
    → r.count ≤ max_int
    → (parse_entries queue es r).count
      ≡ min max_int (r.count + (sum_for queue rejected es + sum_for queue delivery_limit es))
unfolding parse_entries sum_for
count-parse_entries queue [] r h = omega arith
count-parse_entries queue (e ∷ es) r h =
    let step = count-parse_entry queue e r h in
    let rest = count-parse_entries queue es (parse_entry queue e r) (omega (arith, step)) in
    omega
      (arith, step, rest, sum_for-cons queue rejected e es, sum_for-cons queue delivery_limit e es)

-- Whatever the broker wrote, DeathCount is the exact sum of the counts for "rejected" and
-- "delivery-limit" of this queue, capped at math.MaxInt and never wrapped, and DeathCountByReason is
-- the capped sum for the reason, in either spelling of its separators.
pub parse_x_death_lem :
    (queue reason : Text) (es : List (Option Entry))
    → let r = parse_x_death (entries es) queue in
      (r.count ≡ min max_int (sum_for queue rejected es + sum_for queue delivery_limit es))
      × (count_by_reason r reason ≡ min max_int (sum_for queue (normalize_reason reason) es))
      × (count_by_reason r (normalize_reason reason) ≡ count_by_reason r reason)
unfolding parse_x_death count_by_reason
parse_x_death_lem queue reason es = (
  omega (arith, count-parse_entries queue es no_deaths (omega arith)),
  omega (arith, by-parse_entries queue (normalize_reason reason) es no_deaths (omega arith)),
  ap (λ k. by k (parse_entries queue es no_deaths)) (normalize_reason_idem reason),
)
