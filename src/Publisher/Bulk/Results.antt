-- ===== src/Publisher/Bulk/Results.antt =====
-- The results of a batch and what it leaves on its channel, PublishBatch in publisher.go.
use warren.Prelude.{
  false, get_elem?, replicate, bytes_Eq, ℕ, suc, ◌≡◌, refl, ap, subst, ◌⊎◌, inl, inr, Bool, true,
  ◌&&◌, Option, none, some, List, [], ◌∷◌, map, ltb, if◌then◌else◌, Bool-cases, nat_Eq, string_Eq,
  length, if_both,
}
use warren.Errors.{Err, sentinel, partial_batch}
use warren.Pool.{Acquired, blocked, got, open_failed, open_panicked}
use warren.Publisher.Message.{Message, Encoded, accepted, rejected}
use warren.Publisher.Demux.{Entry}
use warren.Publisher.Retry.{Gate, enter}
use warren.Publisher.Bulk.{
  Turn, BatchOptions, has_duplicate, encode_all, all_rejected, error_of, Slot, publish_one,
  publish_all, wait_one, wait_all, with_result, continued, forgotten_all, connected, entered,
  any_failed, Batched, unready, panicked, replied, run_on, reply_of, on_acquired, Route,
  publish_encoded, publish_batch, effective_max_size,
}

-- One of the results is an error.
abbrev pub Failing : List (Option Err) → Type 0
Failing rs = (i : ℕ) × (x : Err) × (get_elem? rs i ≡ some (some x))

any_failed_lem :
    (rs : List (Option Err))
    → ((any_failed rs ≡ true) × Failing rs)
      ⊎ ((any_failed rs ≡ false) × (rs ≡ replicate (length rs) none))
unfolding any_failed
any_failed_lem [] = inr (refl, refl)
any_failed_lem (none ∷ rs) = elim (any_failed_lem rs) [
  | inl (failed, (i, x, at_i)) ↦ inl (failed, (suc i, x, at_i))
  | inr (fine, all) ↦ inr (fine, ap (λ l. none ∷ l) all)
]
any_failed_lem (some e ∷ rs) = inl (refl, (0, e, refl))

partial_error :
    (rs : List (Option Err))
    → let e = if any_failed rs then some (sentinel partial_batch) else none in
      ((e ≡ some (sentinel partial_batch)) × Failing rs)
      ⊎ ((e ≡ none) × (rs ≡ replicate (length rs) none))
partial_error rs = elim (any_failed_lem rs) [
  | inl (failed, at) ↦ inl (rw failed refl, at)
  | inr (fine, all) ↦ inr (rw fine refl, all)
]

-- A reply with results has one for each of n messages, and ErrPartialBatch exactly if one of them is an
-- error. One without has no messages or an error.
unfoldable pub Complete : ℕ → Batched → Type 0
unfolding any_failed
Complete n unready = Unit
Complete n panicked = Unit
Complete n (replied none none) = n ≡ 0
Complete n (replied none (some e)) = Unit
Complete n (replied (some rs) e) =
    (length rs ≡ n)
    × (((e ≡ some (sentinel partial_batch)) × Failing rs)
        ⊎ ((e ≡ none) × (rs ≡ replicate (length rs) none)))

length-encode_all :
    (o : BatchOptions) (turns : ℕ → Turn) (i : ℕ) (ms : List Message)
    → length (encode_all o turns i ms) ≡ length ms
unfolding encode_all
length-encode_all o turns i [] = refl
length-encode_all o turns i (m ∷ ms) = ap suc (length-encode_all o turns (suc i) ms)

length-publish_all :
    (o : BatchOptions) (turns : ℕ → Turn) (i : ℕ) (d : Entry) (es : List Encoded)
    → length (publish_all o turns i d es).1 ≡ length es
unfolding publish_all
length-publish_all o turns i d [] = refl
length-publish_all o turns i d (e ∷ es) =
    ap suc (length-publish_all o turns (suc i) (publish_one o (turns i) d e).0 es)

LengthOf : Option (Entry × List (Option Err)) → ℕ → Type 0
LengthOf none n = Unit
LengthOf (some (d, rs)) n = length rs ≡ n

with_result-length :
    (r : Option Err) (n : ℕ) (w : Option (Entry × List (Option Err)))
    → LengthOf w n
    → LengthOf (with_result r w) (suc n)
unfolding LengthOf
with_result-length r n none h = tt
with_result-length r n (some (d, rs)) h = ap suc h

continued-length :
    (n : ℕ) (r : Option (Entry × Option Err)) (k : Entry → Option (Entry × List (Option Err)))
    → ((u : Entry) → LengthOf (k u) n)
    → LengthOf (continued r k) (suc n)
unfolding LengthOf
continued-length n none k h = tt
continued-length n (some (u, x)) k h = with_result-length x n (k u) (h u)

length-wait_all :
    (o : BatchOptions) (turns : ℕ → Turn) (i : ℕ) (d : Entry) (ss : List Slot)
    → LengthOf (wait_all o turns i d ss) (length ss)
unfolding wait_all LengthOf
length-wait_all o turns i d [] = refl
length-wait_all o turns i d (s ∷ ss) =
    continued-length (length ss) (wait_one o (turns i) d s) _
      (λ u. length-wait_all o turns (suc i) u ss)

reply_of-Complete :
    (n : ℕ) (w : Option (Entry × List (Option Err))) → LengthOf w n → Complete n (reply_of w)
unfolding Complete reply_of LengthOf
reply_of-Complete n none h = tt
reply_of-Complete n (some (d, rs)) h = (h, partial_error rs)

forgotten-length :
    (m : Bool) (es : List Encoded) (n : ℕ) (w : Option (Entry × List (Option Err)))
    → LengthOf w n
    → LengthOf (forgotten_all m es w) n
unfolding LengthOf forgotten_all
forgotten-length m es n none h = tt
forgotten-length m es n (some (d, rs)) h = h

length-run_on :
    (o : BatchOptions) (turns : ℕ → Turn) (d : Entry) (es : List Encoded)
    → LengthOf (run_on o turns d es) (length es)
unfolding run_on
length-run_on o turns d es =
    let sent = publish_all o turns 0 d es in
    forgotten-length o.mandatory es (length es) _ (
      subst (LengthOf (wait_all o turns 0 sent.0 sent.1)) (length-publish_all o turns 0 d es)
        (length-wait_all o turns 0 sent.0 sent.1))

on_acquired-Complete :
    (o : BatchOptions) (turns : ℕ → Turn) (entries : ℕ → Entry) (es : List Encoded) (a : Acquired)
    → Complete (length es) (on_acquired o turns entries es a)
unfolding on_acquired Complete
on_acquired-Complete o turns entries es (got x) =
    reply_of-Complete (length es) (run_on o turns (entries x) es)
      (length-run_on o turns (entries x) es)
on_acquired-Complete o turns entries es blocked = tt
on_acquired-Complete o turns entries es (open_failed e) = tt
on_acquired-Complete o turns entries es open_panicked = tt

length-map_error : (es : List Encoded) → length (map error_of es) ≡ length es
length-map_error [] = refl
length-map_error (e ∷ es) = ap suc (length-map_error es)

-- A batch that failed at the client has failed.
failed_first :
    (e : Encoded) (es : List Encoded)
    → all_rejected (e ∷ es) ≡ true
    → ((some (sentinel partial_batch) ≡ some (sentinel partial_batch))
        × Failing (map error_of (e ∷ es)))
      ⊎ ((some (sentinel partial_batch) ≡ none)
          × (map error_of (e ∷ es) ≡ replicate (length (map error_of (e ∷ es))) none))
unfolding all_rejected
failed_first (accepted m body) es h = cc h
failed_first (rejected e) es h = inl (refl, (0, e, refl))

connected-Complete :
    (o : BatchOptions) (turns : ℕ → Turn) (entries : ℕ → Entry) (a : Acquired) (es : List Encoded)
    (b : Option Err)
    → Complete (length es) (connected o turns entries a es b)
unfolding Complete connected
connected-Complete o turns entries a es none = on_acquired-Complete o turns entries es a
connected-Complete o turns entries a es (some e) = tt

publish_encoded-Complete :
    (o : BatchOptions) (turns : ℕ → Turn) (entries : ℕ → Entry) (route : Route) (e : Encoded)
    (es : List Encoded)
    → Complete (suc (length es)) (publish_encoded o turns entries route (e ∷ es))
unfolding publish_encoded
publish_encoded-Complete o turns entries route e es = elim (Bool-cases (all_rejected (e ∷ es))) [
  | inl all ↦ rw all (unfold Complete in (length-map_error (e ∷ es), failed_first e es all))
  | inr some_accepted ↦
      rw some_accepted
        (connected-Complete o turns entries route.acquired (e ∷ es) route.barrier_error)
]

entered-Complete :
    (o : BatchOptions) (turns : ℕ → Turn) (entries : ℕ → Entry) (route : Route) (m : Message)
    (ms : List Message) (g : Err ⊎ Gate)
    → Complete (suc (length ms)) (entered o turns entries route (m ∷ ms) g)
unfolding entered encode_all
entered-Complete o turns entries route m ms (inl e) = unfold Complete in tt
entered-Complete o turns entries route m ms (inr g) =
    subst (λ n. Complete (suc n) (entered o turns entries route (m ∷ ms) (inr g)))
      (length-encode_all o turns 1 ms)
      (publish_encoded-Complete o turns entries route _ (encode_all o turns 1 ms))

-- PublishBatch of n messages, whatever the broker does, replies with n results, and then with
-- ErrPartialBatch if one of them is an error and with no error if none of them is; or without results, then
-- with an error, unless the batch is empty.
pub publish_batch-Complete :
    (o : BatchOptions) (g : Gate) (turns : ℕ → Turn) (entries : ℕ → Entry) (route : Route)
    (ms : List Message)
    → Complete (length ms) (publish_batch o g turns entries route ms)
unfolding publish_batch
publish_batch-Complete o g turns entries route [] = unfold Complete in refl
publish_batch-Complete o g turns entries route (m ∷ ms) =
    if_both (Complete (suc (length ms))) (ltb (effective_max_size o) (length (m ∷ ms))) _ _
      (unfold Complete in tt)
      (if_both (Complete (suc (length ms))) (o.mandatory && has_duplicate [] (m ∷ ms)) _ _
        (unfold Complete in tt) (entered-Complete o turns entries route m ms (enter g)))
