-- ===== src/Dispatch/Labels.antt =====
-- The metric labels that dispatch records, consumer.go.
use warren.Prelude.{
  ℕ, String, ◌≡◌, refl, sym, ap, ◌∙◌, Bool, true, false, ◌&&◌, ◌||◌, Option, none, some, [], ◌∷◌,
  map, arith, ltb, leb, if◌then◌else◌, nat_Eq, string_Eq, if_false,
}
use warren.Errors.{Err}
use warren.Delivery.{Frame, Delivery, ack_frame, nack_frame, is_shut}
use warren.Delivery.Mapping.{verdict_frame}
use warren.Redelivery.{Counter}
use warren.Dispatch.{Consumer, returns, settle_verdict, run_handler, dispatch, handler_outcome}
use warren.Dispatch.Frames.{processed, processed-expected, expected_frame, dispatch-verdict}

abbrev pub label_of : Frame → String
label_of (ack_frame n multiple) = "ack"
label_of (nack_frame n multiple again) = if again then "nack_requeue" else "nack_no_requeue"

handler_outcome-verdict_frame :
    (e : Option Err) (n : ℕ) → handler_outcome e ≡ label_of (verdict_frame e n)
unfolding handler_outcome
handler_outcome-verdict_frame none n = refl
handler_outcome-verdict_frame (some e) n = refl

recorded_label :
    (c : Consumer) (cs : Option Counter) (deaths : ℕ) (d : Delivery) (closed : Bool)
    (e reply : Option Err)
    → c.broker_auto_ack ≡ false
    → (ltb 0 c.max_redeliveries && leb c.max_redeliveries deaths) ≡ false
    → (closed && (elim e [ none ↦ false | some _ ↦ true ])) ≡ false
    → (dispatch c true cs none deaths d [] [] (returns closed e) reply).recorded
      ≡ handler_outcome (processed c cs d e) ∷ []
unfolding dispatch run_handler settle_verdict
recorded_label c cs deaths d closed e reply manual alive sent = ground arith

-- The handler metric of a typed handler under manual ack names the frame that went out.
pub dispatch-label :
    (c : Consumer) (cs : Option Counter) (deaths : ℕ) (d : Delivery) (closed : Bool)
    (e reply : Option Err)
    → c.broker_auto_ack ≡ false
    → (ltb 0 c.max_redeliveries && leb c.max_redeliveries deaths) ≡ false
    → (closed && (elim e [ none ↦ false | some _ ↦ true ])) ≡ false
    → is_shut d ≡ false
    → d.resolved ≡ false
    → (dispatch c true cs none deaths d [] [] (returns closed e) reply).recorded
      ≡ map label_of (dispatch c true cs none deaths d [] [] (returns closed e) reply).frames
dispatch-label c cs deaths d closed e reply manual alive sent running unresolved =
    recorded_label c cs deaths d closed e reply manual alive sent
    ∙ ap (λ s. s ∷ []) (handler_outcome-verdict_frame (processed c cs d e) d.tag)
    ∙ ap (λ f. label_of f ∷ []) (processed-expected c cs d e manual)
    ∙ sym (
        ap (map label_of) (
          dispatch-verdict c cs deaths d closed e reply alive running unresolved
          ∙ if_false (c.broker_auto_ack || (closed && (elim e [ none ↦ false | some _ ↦ true ]))) []
              (expected_frame c cs d e ∷ []) (ground arith)))
