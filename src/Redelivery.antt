-- ===== src/Redelivery.antt =====
-- The in-process redelivery counter (counter B), consumer.go and batch_consumer.go.
--
-- A Go string is the list of its bytes. The sync.Map is an association list from keys to counts, an
-- int64 that stays below the limit and so never overflows. A limit that is not positive turns the
-- counter off, so the limit is a natural number and 0 stands for every such value. A nil counter is
-- `none`.
pub mod Keys
pub mod Counts
pub mod Batches
pub mod Examples
use warren.Prelude.{
  bytes_Eq, ℕ, zero, suc, ◌+◌, ◌-◌, ◌*◌, ◌/◌, ◌%◌, ◌^◌, ◌≤◌, ◌<◌, min, max, String, ◌≡◌, refl, sym,
  ap, subst, fun_ext, ◌∙◌, ◌≢◌, ◌↔◌, ◌⊎◌, inl, inr, Bool, true, false, not, ◌&&◌, ◌||◌, Option,
  none, some, List, [], ◌∷◌, ◌++◌, map, arith, ltb, leb, nat_eq, if◌then◌else◌, nat_eq_iff, leb_iff,
  ltb_iff, ltb-false, leb-false, Bool-cases, Option-cases, Eq, ◌==◌, nat_Eq, str_eq, str_eq_iff,
  string_Eq, length, get_elem?, take, drop, replicate, length-append, length-drop, drop_all, In,
  lookup, insert, erase, lookup-insert, lookup-erase, if_both, if_true, if_false, ℕ_discrete,
}
use warren.Errors.{Err, sentinel, requeue, max_redeliveries, errors_is, is_err, wrap_one}
use warren.Delivery.{Delivery}

-- utf8.RuneStart: not a continuation byte.
abbrev pub rune_start : ℕ → Bool
rune_start b = not (leb 128 b && ltb b 192)

abbrev pub starts_at : List ℕ → ℕ → Bool
starts_at s n = elim (get_elem? s n) [ none ↦ false | some b ↦ rune_start b ]

-- The loop of truncateAtRuneBoundary, backwards from n.
unfoldable pub rune_boundary : List ℕ → ℕ → ℕ
rune_boundary s zero = 0
rune_boundary s (suc n) = if starts_at s (suc n) then suc n else rune_boundary s n

unfoldable pub truncate_at_rune_boundary : List ℕ → ℕ → List ℕ
unfolding rune_boundary
truncate_at_rune_boundary s n = if leb (length s) n then s else take (rune_boundary s n) s

abbrev pub max_msg_id_key_len : ℕ
max_msg_id_key_len = 512

abbrev pub max_consumer_tag_key_len : ℕ
max_consumer_tag_key_len = 256

-- The bytes of "mid:" and "dlv:".
abbrev pub mid_prefix : List ℕ
mid_prefix = 109 ∷ 105 ∷ 100 ∷ 58 ∷ []

abbrev pub dlv_prefix : List ℕ
dlv_prefix = 100 ∷ 108 ∷ 118 ∷ 58 ∷ []

abbrev pub colon : List ℕ
colon = 58 ∷ []

-- The decimal digits of a number, at most 1 + fuel of them: a uint64 has at most 20.
unfoldable pub decimal : ℕ → ℕ → List ℕ
decimal zero n = (48 + n % 10) ∷ []
decimal (suc fuel) n =
    if ltb n 10 then (48 + n % 10) ∷ [] else decimal fuel (n / 10) ++ (48 + n % 10) ∷ []

abbrev pub key_of : List ℕ → List ℕ
key_of [] = []
key_of (b ∷ s) = mid_prefix ++ b ∷ s

-- The guard `if len(s) > cap { s = truncateAtRuneBoundary(s, cap) }`.
unfoldable pub capped : ℕ → List ℕ → List ℕ
unfolding truncate_at_rune_boundary
capped cap s = if ltb cap (length s) then truncate_at_rune_boundary s cap else s

unfoldable pub counter_b_key_for_msg_id : List ℕ → List ℕ
unfolding capped
counter_b_key_for_msg_id id = key_of (capped max_msg_id_key_len id)

unfoldable pub counter_b_key_for_delivery_tag : List ℕ → ℕ → List ℕ
unfolding capped decimal
counter_b_key_for_delivery_tag consumer_tag delivery_tag =
    dlv_prefix ++ capped max_consumer_tag_key_len consumer_tag ++ colon ++ decimal 19 delivery_tag

-- The first key that is not empty: batchCounterBKey, and the same choice in dispatch.
abbrev pub or_key : List ℕ → List ℕ → List ℕ
or_key [] other = other
or_key (b ∷ s) other = b ∷ s

unfoldable pub batch_counter_b_key : List ℕ → List ℕ → ℕ → List ℕ
unfolding counter_b_key_for_msg_id counter_b_key_for_delivery_tag
batch_counter_b_key consumer_tag [] delivery_tag =
    counter_b_key_for_delivery_tag consumer_tag delivery_tag
batch_counter_b_key consumer_tag (b ∷ id) delivery_tag =
    or_key (counter_b_key_for_msg_id (b ∷ id))
      (counter_b_key_for_delivery_tag consumer_tag delivery_tag)

abbrev pub Counter : Type 0
Counter = List (List ℕ × ℕ)

abbrev pub load : List ℕ → Counter → ℕ
load key m = elim (lookup key m) [ none ↦ 0 | some n ↦ n ]

abbrev pub exceeded_error : Option Err
exceeded_error = some (wrap_one (sentinel max_redeliveries))

abbrev pub is_empty : List ℕ → Bool
is_empty [] = true
is_empty (b ∷ s) = false

-- The body under the lock, for a counter that is there.
unfoldable pub count_verdict : ℕ → List ℕ → Option Err → Counter → Counter × Option Err
count_verdict limit key e m =
    if is_err e requeue
    then (if ltb limit (load key m + 1)
        then (erase key m, exceeded_error)
        else (insert key (load key m + 1) m, e))
    else (erase key m, e)

unfoldable pub apply_counter_b :
    ℕ → List ℕ → Option Err → Option Counter → Option Counter × Option Err
unfolding count_verdict
apply_counter_b limit key e none = (none, e)
apply_counter_b limit key e (some m) =
    if is_empty key
    then (some m, e)
    else (some (count_verdict limit key e m).0, (count_verdict limit key e m).1)

abbrev pub key_for : List ℕ → Delivery → List ℕ
key_for consumer_tag d = batch_counter_b_key consumer_tag d.message_id d.tag

abbrev pub keys_for : List ℕ → List Delivery → List (List ℕ)
keys_for consumer_tag ds = map (key_for consumer_tag) ds

unfoldable pub delete_all : List (List ℕ) → Counter → Counter
delete_all [] m = m
delete_all (k ∷ ks) m = delete_all ks (erase k m)

-- The collecting loop: `none` when a count would exceed the limit.
unfoldable pub collect : ℕ → List (List ℕ) → Counter → Option (List (List ℕ × ℕ))
collect limit [] m = some []
collect limit (k ∷ ks) m =
    if ltb limit (load k m + 1)
    then none
    else (elim (collect limit ks m) [ none ↦ none | some pairs ↦ some ((k, load k m) ∷ pairs) ])

unfoldable pub store_all : List (List ℕ × ℕ) → Counter → Counter
store_all [] m = m
store_all ((k, n) ∷ pairs) m = store_all pairs (insert k (n + 1) m)

-- The path for a batch of several deliveries.
unfoldable pub count_batch : ℕ → List (List ℕ) → Option Err → Counter → Counter × Option Err
unfolding delete_all collect store_all
count_batch limit ks e m = elim (collect limit ks m) [
  | none ↦ (delete_all ks m, exceeded_error)
  | some pairs ↦ (store_all pairs m, e)
]

-- The path for a batch of one delivery.
unfoldable pub count_single : ℕ → List ℕ → Option Err → Counter → Counter × Option Err
count_single limit k e m =
    if ltb limit (load k m + 1) then (erase k m, exceeded_error) else (insert k (load k m + 1) m, e)

unfoldable pub count_requeue : ℕ → List (List ℕ) → Option Err → Counter → Counter × Option Err
unfolding count_batch count_single
count_requeue limit [] e m = count_batch limit [] e m
count_requeue limit (k ∷ []) e m = count_single limit k e m
count_requeue limit (k ∷ j ∷ ks) e m = count_batch limit (k ∷ j ∷ ks) e m

unfoldable pub apply_batch_counter_b :
    ℕ → Bool → List ℕ → List Delivery → Option Err → Option Counter → Option Counter × Option Err
unfolding delete_all count_requeue
apply_batch_counter_b limit disabled consumer_tag ds e none = (none, e)
apply_batch_counter_b limit disabled consumer_tag ds e (some m) =
    let r = count_requeue limit (keys_for consumer_tag ds) e m in
    if nat_eq limit 0 || disabled
    then (some m, e)
    else if is_err e requeue
    then (some r.0, r.1)
    else (some (delete_all (keys_for consumer_tag ds) m), e)
