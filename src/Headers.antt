-- ===== src/Headers.antt =====
-- The x-death header, internal/headers/xdeath.go.
--
-- Texts are byte strings, int is 64 bits wide. An entry of the header that is no table is `none`; a
-- field of an entry that is absent or has another type is `none` too.
pub mod Counts
use warren.Prelude.{
  bytes_eq, bytes_eq_iff, bytes_Eq, ℤ, pos, negsuc, ℕ, zero, suc, ◌+◌, ◌-◌, ◌*◌, ◌/◌, ◌%◌, ◌^◌, ◌≤◌,
  ◌<◌, min, max, String, ◌≡◌, refl, sym, ap, subst, fun_ext, ◌∙◌, ◌≢◌, ◌↔◌, ◌⊎◌, inl, inr, Bool,
  true, false, not, ◌&&◌, ◌||◌, Option, none, some, List, [], ◌∷◌, ◌++◌, map, arith, ltb, leb,
  nat_eq, if◌then◌else◌, nat_eq_iff, leb_iff, ltb_iff, ltb-false, leb-false, Bool-cases,
  Option-cases, Eq, ◌==◌, nat_Eq, str_eq, str_eq_iff, string_Eq, length, get_elem?, take, drop,
  replicate, length-append, length-drop, drop_all, In, lookup, insert, erase, lookup-insert,
  lookup-erase, if_both, if_true, if_false, ℕ_discrete,
}

abbrev pub Text : Type 0
Text = List ℕ

pub record Entry : Type 0 where
  pub queue : Option Text
  pub reason : Option Text
  pub count : Option ℤ

-- What stands under "x-death": nothing, a value that is no list, or a list.
pub data Header : Type 0 where
  absent other : Header
  entries : List (Option Entry) → Header

pub record XDeathResult : Type 0 where
  pub count : ℕ
  pub reasons : List Text
  pub by_reason : List (Text × ℕ)

abbrev pub max_int : ℕ
max_int = 2 ^ 63 - 1

-- strings.ReplaceAll(reason, "_", "-").
abbrev pub normalize_reason : Text → Text
normalize_reason [] = []
normalize_reason (b ∷ s) = (if nat_eq b 95 then 45 else b) ∷ normalize_reason s

abbrev pub rejected : Text
rejected = 114 ∷ 101 ∷ 106 ∷ 101 ∷ 99 ∷ 116 ∷ 101 ∷ 100 ∷ []

abbrev pub delivery_limit : Text
delivery_limit =
    100 ∷ 101 ∷ 108 ∷ 105 ∷ 118 ∷ 101 ∷ 114 ∷ 121 ∷ 45 ∷ 108 ∷ 105 ∷ 109 ∷ 105 ∷ 116 ∷ []

abbrev pub text_or : Option Text → Text
text_or none = []
text_or (some s) = s

-- The count of an entry, at least 0 and at most math.MaxInt.
unfoldable pub clamp : Option ℤ → ℕ
clamp none = 0
clamp (some (negsuc n)) = 0
clamp (some (pos n)) = if ltb max_int n then max_int else n

-- The saturating sum.
unfoldable pub add_capped : ℕ → ℕ → ℕ
add_capped total n = if ltb (max_int - total) n then max_int else total + n

abbrev pub or_zero : Option ℕ → ℕ
or_zero none = 0
or_zero (some n) = n

unfoldable pub add_entry : Text → ℕ → XDeathResult → XDeathResult
unfolding add_capped
add_entry reason n r = record {
  count =
      if bytes_eq reason rejected || bytes_eq reason delivery_limit
      then add_capped r.count n
      else r.count;
  reasons = elim (lookup reason r.by_reason) [
    | some _ ↦ r.reasons
    | none ↦ r.reasons ++ reason ∷ []
  ];
  by_reason = insert reason (add_capped (or_zero (lookup reason r.by_reason)) n) r.by_reason;
}

-- One turn of the loop.
unfoldable pub parse_entry : Text → Option Entry → XDeathResult → XDeathResult
unfolding clamp add_entry
parse_entry queue none r = r
parse_entry queue (some e) r =
    if bytes_eq (text_or e.queue) queue
    then add_entry (normalize_reason (text_or e.reason)) (clamp e.count) r
    else r

unfoldable pub parse_entries : Text → List (Option Entry) → XDeathResult → XDeathResult
unfolding parse_entry
parse_entries queue [] r = r
parse_entries queue (e ∷ es) r = parse_entries queue es (parse_entry queue e r)

abbrev pub no_deaths : XDeathResult
no_deaths = record { count = 0; reasons = []; by_reason = [] }

-- ParseXDeath, on what the table holds under "x-death".
unfoldable pub parse_x_death : Header → Text → XDeathResult
unfolding parse_entries
parse_x_death absent queue = no_deaths
parse_x_death other queue = no_deaths
parse_x_death (entries es) queue = parse_entries queue es no_deaths

unfoldable pub count_by_reason : XDeathResult → Text → ℕ
count_by_reason r reason = or_zero (lookup (normalize_reason reason) r.by_reason)
