-- ===== src/Errors/Laws.antt =====
-- How errors.Is, IsTransient, IsPermanent and AMQPCode treat wrapped errors.
use warren.Prelude.{
  ◌≡◌, refl, false, not, ◌&&◌, ◌||◌, some, List, [], ◌∷◌, arith, nat_Eq, string_Eq,
}
use warren.Errors.{
  not_connected, Sentinel, Err, canceled, sentinel, wrap_two, errors_is, any_is, is_any_of,
  is_transient, is_permanent, transient_sentinels, permanent_sentinels,
}

pub errors_is-wrap_two :
    (a b : Err) (t : Sentinel) → errors_is (wrap_two a b) t ≡ (errors_is a t || errors_is b t)
unfolding errors_is any_is
errors_is-wrap_two a b t = ground arith

pub is_any_of-wrap_two :
    (ss : List Sentinel) (a b : Err)
    → is_any_of ss (wrap_two a b) ≡ (is_any_of ss a || is_any_of ss b)
unfolding is_any_of errors_is any_is
is_any_of-wrap_two [] a b = refl
is_any_of-wrap_two (s ∷ ss) a b = ground (arith, is_any_of-wrap_two ss a b)

-- An error that wraps two is permanent exactly when one of the two is, and retryable exactly when
-- one of them is and neither chain holds context.Canceled.
pub classification-wrap_two :
    (a b : Err)
    → (is_permanent (some (wrap_two a b)) ≡ (is_permanent (some a) || is_permanent (some b)))
      × (is_transient (some (wrap_two a b)) ≡ (
          (is_transient (some a) && not (errors_is b canceled))
          || (is_transient (some b) && not (errors_is a canceled))))
unfolding is_permanent is_transient errors_is any_is
classification-wrap_two a b = (
  ground (arith, is_any_of-wrap_two permanent_sentinels a b),
  ground (arith, is_any_of-wrap_two transient_sentinels a b),
)

-- No sentinel is both retryable and permanent.
pub sentinel-exclusive :
    (s : Sentinel) → (is_transient (some (sentinel s)) && is_permanent (some (sentinel s))) ≡ false
unfolding is_transient is_permanent errors_is
sentinel-exclusive not_connected = refl
sentinel-exclusive _ = refl
