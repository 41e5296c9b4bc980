-- ===== src/Publisher/Outcome.antt =====
-- How the publisher names and translates the errors of an attempt: mapConfirmError, retryReason,
-- publishOutcome and finishPublishSpan of publisher.go.
use warren.Prelude.{
  bytes_Eq, ℕ, String, ◌≡◌, refl, Bool, true, false, Option, none, some, List, [], ◌∷◌,
  if◌then◌else◌, nat_Eq, string_Eq,
}
use warren.Errors.{
  Err, Sentinel, sentinel, code_error, errors_is, as_unroutable, is_transient, amqp_code,
  confirm_timeout, mandatory_unroutable, publish_nacked, channel_closed, channel_pool_exhausted,
  connection_blocked, reconnecting, rate_limited, message_too_large, invalid_message,
  confirms_timeout, confirms_nacked, confirms_closed, canceled,
}
use warren.Confirms.{ConfirmError, timeout, nacked, closed, context_done, unroutable}

-- The error that the tracker returns, for the error of the caller's context.
abbrev pub confirm_err : Err → ConfirmError → Err
confirm_err cause timeout = sentinel confirms_timeout
confirm_err cause nacked = sentinel confirms_nacked
confirm_err cause closed = sentinel confirms_closed
confirm_err cause context_done = cause
confirm_err cause (unroutable code) = Err.unroutable code

unfoldable pub map_confirm_error : Err → Err
unfolding errors_is as_unroutable
map_confirm_error e =
    if errors_is e confirms_timeout
    then sentinel confirm_timeout
    else if errors_is e confirms_nacked
    then sentinel publish_nacked
    else if errors_is e confirms_closed
    then sentinel channel_closed
    else (elim (as_unroutable e) [
      | some code ↦ code_error code (sentinel mandatory_unroutable)
      | none ↦ e
    ])

unfoldable pub retry_reason : Err → String
retry_reason e =
    if errors_is e publish_nacked
    then "nacked"
    else if errors_is e confirm_timeout
    then "confirm_timeout"
    else if errors_is e channel_closed
    then "channel_closed"
    else if errors_is e channel_pool_exhausted
    then "pool_exhausted"
    else if errors_is e connection_blocked
    then "blocked"
    else if errors_is e reconnecting
    then "reconnecting"
    else if errors_is e rate_limited
    then "rate_limited"
    else "network"

-- publishOutcome, by its first match.
abbrev pub first_outcome : List (Sentinel × String × String) → Err → String × String
first_outcome [] e = ("error", "error")
first_outcome ((s, l, n) ∷ table) e = if errors_is e s then (l, n) else first_outcome table e

abbrev pub outcome_table : List (Sentinel × String × String)
outcome_table =
    (mandatory_unroutable, "return", "ErrUnroutable")
    ∷ (confirm_timeout, "timeout", "ErrConfirmTimeout")
    ∷ (publish_nacked, "nack", "ErrPublishNacked")
    ∷ (message_too_large, "too_large", "ErrMessageTooLarge")
    ∷ (channel_pool_exhausted, "pool_exhausted", "ErrChannelPoolExhausted")
    ∷ (connection_blocked, "blocked", "ErrConnectionBlocked")
    ∷ (invalid_message, "error", "ErrInvalidMessage")
    ∷ (channel_closed, "error", "ErrChannelClosed")
    ∷ (reconnecting, "error", "ErrReconnecting")
    ∷ (rate_limited, "rate_limited", "ErrRateLimited")
    ∷ []

unfoldable pub publish_outcome : Option Err → String × String
publish_outcome none = ("ack", "")
publish_outcome (some e) = first_outcome outcome_table e

-- What finishPublishSpan writes: the attributes, whether the status is an error, and whether its
-- description is the label alone.
pub record SpanEnd : Type 0 where
  pub outcome : String
  pub error_type : Option String
  pub redacted : Bool

unfoldable pub finish_publish_span : Option Err → SpanEnd
unfolding publish_outcome
finish_publish_span none = record {
  outcome = (publish_outcome none).0;
  error_type = none;
  redacted = false;
}
finish_publish_span (some e) = record {
  outcome = (publish_outcome (some e)).0;
  error_type = some (publish_outcome (some e)).1;
  redacted = errors_is e invalid_message;
}

-- What the caller of an attempt sees for each outcome of the tracker: a timeout, a nack and a closed
-- channel are retryable, each with its metrics label; a returned message is ErrUnroutable with the
-- broker's reply code, which is not retried; with a cancelled context the attempt returns the error of
-- the context, which is not retried either.
pub map_confirm_error_lem :
    (cause : Err) (code : ℕ)
    → let seen = λ (c : ConfirmError). map_confirm_error (confirm_err cause c) in
      (is_transient (some (seen timeout)) ≡ true)
      × (retry_reason (seen timeout) ≡ "confirm_timeout")
      × (is_transient (some (seen nacked)) ≡ true)
      × (retry_reason (seen nacked) ≡ "nacked")
      × (is_transient (some (seen closed)) ≡ true)
      × (retry_reason (seen closed) ≡ "channel_closed")
      × (errors_is (seen (unroutable code)) mandatory_unroutable ≡ true)
      × (amqp_code (some (seen (unroutable code))) ≡ some code)
      × (is_transient (some (seen (unroutable code))) ≡ false)
      × (map_confirm_error (confirm_err (sentinel canceled) context_done) ≡ sentinel canceled)
      × (is_transient (some (map_confirm_error (confirm_err (sentinel canceled) context_done)))
          ≡ false)
unfolding map_confirm_error retry_reason is_transient amqp_code
map_confirm_error_lem cause code =
    (refl, refl, refl, refl, refl, refl, refl, refl, refl, refl, refl)
