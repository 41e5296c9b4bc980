-- ===== src/Redelivery/Counts.antt =====
-- The counter of one key over a run of verdicts, consumer.go: applyCounterB.
use warren.Prelude.{
  bytes_Eq, ℕ, zero, suc, ◌+◌, ◌≤◌, ◌<◌, ◌≡◌, refl, ap, ◌⊎◌, true, Option, List, [], ◌∷◌, ◌++◌,
  arith, if◌then◌else◌, ◌==◌, nat_Eq, string_Eq, replicate, insert, erase, lookup-insert,
  lookup-erase,
}
use warren.Errors.{Err, requeue, is_err}
use warren.Redelivery.{Counter, load, count_verdict, exceeded_error}

pub load-insert :
    (k j : List ℕ) (n : ℕ) (m : Counter) → load j (insert k n m) ≡ (if k == j then n else load j m)
load-insert k j n m = ground (arith, lookup-insert k j n m)

pub load-erase :
    (k j : List ℕ) (m : Counter) → load j (erase k m) ≡ (if k == j then 0 else load j m)
load-erase k j m = ground (arith, lookup-erase k j m)

-- The verdicts of n deliveries of one key whose handler returns e each time, and the counter after.
unfoldable pub repeat_verdict : ℕ → ℕ → List ℕ → Option Err → Counter → List (Option Err) × Counter
unfolding count_verdict
repeat_verdict limit zero key e m = ([], m)
repeat_verdict limit (suc n) key e m =
    let r = count_verdict limit key e m in
    let rest = repeat_verdict limit n key e r.0 in (r.1 ∷ rest.0, rest.1)

accepted :
    (limit : ℕ) (key : List ℕ) (e : Option Err) (m : Counter)
    → is_err e requeue ≡ true
    → load key m < limit
    → count_verdict limit key e m ≡ (insert key (load key m + 1) m, e)
unfolding count_verdict
accepted limit key e m again below = ground arith

rejected :
    (limit : ℕ) (key : List ℕ) (e : Option Err) (m : Counter)
    → is_err e requeue ≡ true
    → load key m ≡ limit
    → count_verdict limit key e m ≡ (erase key m, exceeded_error)
unfolding count_verdict
rejected limit key e m again full = ground arith

pub same_key : (k : List ℕ) → (k == k) ≡ true
same_key k = ground (arith, bytes_Eq.beq_iff k k)

pub load-insert_same : (k : List ℕ) (n : ℕ) (m : Counter) → load k (insert k n m) ≡ n
load-insert_same k n m = ground (arith, load-insert k k n m, same_key k)

pub load-erase_same : (k : List ℕ) (m : Counter) → load k (erase k m) ≡ 0
load-erase_same k m = ground (arith, load-erase k k m, same_key k)

-- A message that its handler asks to requeue each time is requeued as often as the limit leaves,
-- the next verdict is rewritten to ErrMaxRedeliveries, and the counter of its key is gone then.
pub repeat_verdict-limit :
    (n limit : ℕ) (key : List ℕ) (e : Option Err) (m : Counter)
    → is_err e requeue ≡ true
    → load key m + n ≡ limit
    → ((repeat_verdict limit (suc n) key e m).0 ≡ replicate n e ++ exceeded_error ∷ [])
      × (load key (repeat_verdict limit (suc n) key e m).1 ≡ 0)
unfolding repeat_verdict
repeat_verdict-limit zero limit key e m again full =
    rw (rejected limit key e m again (omega arith)) (refl, load-erase_same key m)
repeat_verdict-limit (suc n) limit key e m again full =
    let m1 = insert key (load key m + 1) m in
    let rest =
      repeat_verdict-limit n limit key e m1 again
        (omega (arith, load-insert_same key (load key m + 1) m)) in
    rw (accepted limit key e m again (omega arith)) (ap (λ t. e ∷ t) rest.0, rest.1)

-- Whatever the verdict is, no count passes the limit and no other key's count changes.
pub count_verdict-bound :
    (limit : ℕ) (key j : List ℕ) (e : Option Err) (m : Counter)
    → load j m ≤ limit
    → (load j (count_verdict limit key e m).0 ≤ limit)
      × (((key == j) ≡ true) ⊎ (load j (count_verdict limit key e m).0 ≡ load j m))
unfolding count_verdict
count_verdict-bound limit key j e m h =
    ground (arith, load-insert key j (load key m + 1) m, load-erase key j m, bytes_Eq.beq_iff key j)
