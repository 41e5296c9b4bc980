-- ===== src/Batch/Highest.antt =====
-- The delivery whose tag a batch frame carries, batch_consumer.go: highest.
use warren.Prelude.{
  ℕ, ◌≤◌, ◌≡◌, refl, inl, inr, Bool, true, ◌&&◌, Option, List, [], ◌∷◌, arith, ltb, leb, nat_Eq,
  string_Eq, In, if_both,
}
use warren.Errors.{Err}
use warren.Delivery.{Delivery, ack_frame, nack_frame}
use warren.Batch.{highest_from, ack_all, nack_all}

abbrev pub all_below : ℕ → List Delivery → Bool
all_below n [] = true
all_below n (d ∷ ds) = leb d.tag n && all_below n ds

highest_from_above : (h : Delivery) (ds : List Delivery) → h.tag ≤ (highest_from h ds).tag
unfolding highest_from
highest_from_above h [] = omega arith
highest_from_above h (d ∷ ds) = ground (arith, highest_from_above h ds, highest_from_above d ds)

highest_from-all :
    (h : Delivery) (ds : List Delivery) → all_below (highest_from h ds).tag (h ∷ ds) ≡ true
unfolding highest_from
highest_from-all h [] = ground arith
highest_from-all h (d ∷ ds) = ground (
  arith,
  highest_from-all h ds,
  highest_from-all d ds,
  highest_from_above h ds,
  highest_from_above d ds,
)

widen : (x h d : Delivery) (ds : List Delivery) → In x (h ∷ ds) → In x (h ∷ d ∷ ds)
widen x h d ds (inl same) = inl same
widen x h d ds (inr later) = inr (inr later)

highest_from-In : (h : Delivery) (ds : List Delivery) → In (highest_from h ds) (h ∷ ds)
unfolding highest_from
highest_from-In h [] = inl refl
highest_from-In h (d ∷ ds) =
    if_both (λ x. In x (h ∷ d ∷ ds)) (ltb h.tag d.tag) (highest_from d ds) (highest_from h ds)
      (inr (highest_from-In d ds)) (widen (highest_from h ds) h d ds (highest_from-In h ds))

-- The frame of a batch that is not empty names one of its deliveries and no tag of the batch is above
-- that delivery's, so the frame, sent with multiple=true, covers every delivery of the batch.
pub highest_lem :
    (d : Delivery) (ds : List Delivery) (again : Bool) (reply : Option Err)
    → In (highest_from d ds) (d ∷ ds)
      × (all_below (highest_from d ds).tag (d ∷ ds) ≡ true)
      × ((ack_all reply (d ∷ ds)).0 ≡ ack_frame (highest_from d ds).tag true ∷ [])
      × ((nack_all again reply (d ∷ ds)).0 ≡ nack_frame (highest_from d ds).tag true again ∷ [])
unfolding ack_all nack_all
highest_lem d ds again reply = (highest_from-In d ds, highest_from-all d ds, refl, refl)
