-- ===== src/Redelivery/Batches.antt =====
-- The counters of a whole batch, batch_consumer.go: applyBatchCounterB.
use warren.Prelude.{
  bytes_Eq, ℕ, ◌+◌, ◌<◌, ◌≡◌, refl, Bool, true, false, not, ◌&&◌, ◌||◌, Option, none, some, List,
  [], ◌∷◌, arith, leb, if◌then◌else◌, ◌==◌, nat_Eq, string_Eq, insert, erase,
}
use warren.Errors.{Err, requeue, is_err}
use warren.Delivery.{Delivery}
use warren.Redelivery.{
  Counter, load, count_verdict, exceeded_error, delete_all, collect, store_all, count_batch,
  count_single, count_requeue, apply_batch_counter_b, keys_for,
}
use warren.Redelivery.Counts.{load-insert, load-erase}

-- The path for one delivery, the path for several and the counter of the plain consumer do the same
-- to a batch of one.
pub count_single-agrees :
    (limit : ℕ) (k : List ℕ) (e : Option Err) (m : Counter)
    → is_err e requeue ≡ true
    → (count_single limit k e m ≡ count_batch limit (k ∷ []) e m)
      × (count_single limit k e m ≡ count_verdict limit k e m)
unfolding count_single count_batch count_verdict delete_all collect store_all
count_single-agrees limit k e m again = (ground arith, ground arith)

abbrev pub mem : List ℕ → List (List ℕ) → Bool
mem j [] = false
mem j (k ∷ ks) = k == j || mem j ks

load-delete_all :
    (ks : List (List ℕ)) (j : List ℕ) (m : Counter)
    → load j (delete_all ks m) ≡ (if mem j ks then 0 else load j m)
unfolding delete_all
load-delete_all [] j m = refl
load-delete_all (k ∷ ks) j m = ground (arith, load-delete_all ks j (erase k m), load-erase k j m)

-- Whether a key of the batch is at the limit.
abbrev pub any_full : ℕ → List (List ℕ) → Counter → Bool
any_full limit [] m = false
any_full limit (k ∷ ks) m = leb limit (load k m) || any_full limit ks m

-- The pairs that are read before anything is stored.
abbrev pub pairs_of : List (List ℕ) → Counter → List (List ℕ × ℕ)
pairs_of [] m = []
pairs_of (k ∷ ks) m = (k, load k m) ∷ pairs_of ks m

collect_lem :
    (limit : ℕ) (ks : List (List ℕ)) (m : Counter)
    → collect limit ks m ≡ (if any_full limit ks m then none else some (pairs_of ks m))
unfolding collect
collect_lem limit [] m = refl
collect_lem limit (k ∷ ks) m = ground (arith, collect_lem limit ks m)

load-store_all :
    (ks : List (List ℕ)) (j : List ℕ) (m u : Counter)
    → load j (store_all (pairs_of ks m) u) ≡ (if mem j ks then load j m + 1 else load j u)
unfolding store_all
load-store_all [] j m u = refl
load-store_all (k ∷ ks) j m u = ground (
  arith,
  load-store_all ks j m (insert k (load k m + 1) u),
  load-insert k j (load k m + 1) u,
  bytes_Eq.beq_iff k j,
)

count_batch_lem :
    (limit : ℕ) (ks : List (List ℕ)) (e : Option Err) (m : Counter)
    → count_batch limit ks e m ≡ (
        if any_full limit ks m
        then (delete_all ks m, exceeded_error)
        else (store_all (pairs_of ks m) m, e))
unfolding count_batch
count_batch_lem limit ks e m = ground (arith, collect_lem limit ks m)

count_requeue_lem :
    (limit : ℕ) (ks : List (List ℕ)) (e : Option Err) (m : Counter)
    → is_err e requeue ≡ true
    → count_requeue limit ks e m ≡ count_batch limit ks e m
unfolding count_requeue
count_requeue_lem limit [] e m again = refl
count_requeue_lem limit (k ∷ []) e m again = (count_single-agrees limit k e m again).0
count_requeue_lem limit (k ∷ i ∷ ks) e m again = refl

abbrev pub loaded : List ℕ → Option Counter → ℕ
loaded j none = 0
loaded j (some m) = load j m

-- With counter B on, a batch verdict treats all its messages alike: a verdict that does not requeue
-- forgets the count of each of them, a requeue that finds one at the limit forgets all of them and
-- becomes ErrMaxRedeliveries, and any other requeue adds one to the count of each key of the batch
-- and stands. The counts of messages outside the batch do not change.
pub apply_batch_counter_b_lem :
    (limit : ℕ) (tag : List ℕ) (ds : List Delivery) (e : Option Err) (m : Counter) (j : List ℕ)
    → 0 < limit
    → let ks = keys_for tag ds in
      let again = is_err e requeue in
      let full = any_full limit ks m in
      let r = apply_batch_counter_b limit false tag ds e (some m) in
      (r.1 ≡ (if again && full then exceeded_error else e))
      × (loaded j r.0
          ≡ (if mem j ks then (if again && not full then load j m + 1 else 0) else load j m))
unfolding apply_batch_counter_b
apply_batch_counter_b_lem limit tag ds e m j on =
    let ks = keys_for tag ds in
    ground (
      arith,
      count_requeue_lem limit ks e m,
      count_batch_lem limit ks e m,
      load-delete_all ks j m,
      load-store_all ks j m m,
    )
