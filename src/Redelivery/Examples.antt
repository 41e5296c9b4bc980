-- ===== src/Redelivery/Examples.antt =====
-- The theorems about the redelivery counter at concrete inputs.
use warren.Prelude.{
  bytes_Eq, ℕ, ◌≡◌, refl, false, not, ◌&&◌, Option, some, List, [], ◌∷◌, ◌++◌, arith, if◌then◌else◌,
  nat_Eq, string_Eq, replicate,
}
use warren.Errors.{Err, sentinel, requeue, is_err, errors_is}
use warren.Delivery.{Delivery}
use warren.Delivery.Examples.{plain}
use warren.Redelivery.{load, exceeded_error, apply_batch_counter_b, keys_for}
use warren.Redelivery.Counts.{repeat_verdict, repeat_verdict-limit}
use warren.Redelivery.Batches.{apply_batch_counter_b_lem, any_full, mem, loaded}

-- "aé" cut at two bytes leaves "a".
abbrev text : List ℕ
text = 97 ∷ 195 ∷ 169 ∷ []

abbrev again : Option Err
again = some (sentinel requeue)

repeat_verdict_example :
    ((repeat_verdict 3 3 text again ((text, 1) ∷ [])).0 ≡ replicate 2 again ++ exceeded_error ∷ [])
    × (load text (repeat_verdict 3 3 text again ((text, 1) ∷ [])).1 ≡ 0)
unfolding errors_is
repeat_verdict_example = repeat_verdict-limit 2 3 text again ((text, 1) ∷ []) refl refl

abbrev two : List Delivery
two = plain 1 (97 ∷ []) ∷ plain 2 (98 ∷ []) ∷ []

abbrev key : List ℕ
key = 109 ∷ 105 ∷ 100 ∷ 58 ∷ 97 ∷ []

apply_batch_counter_b_example :
    let full = any_full 2 (keys_for [] two) ((key, 2) ∷ []) in
    let r = apply_batch_counter_b 2 false [] two again (some ((key, 2) ∷ [])) in
    (r.1 ≡ (if is_err again requeue && full then exceeded_error else again))
    × (loaded key r.0 ≡ (
        if mem key (keys_for [] two)
        then (if is_err again requeue && not full then 3 else 0)
        else 2))
apply_batch_counter_b_example =
    apply_batch_counter_b_lem 2 [] two again ((key, 2) ∷ []) key (omega arith)
