-- ===== src/Errors.antt =====
-- Error values and their classification, errors.go and internal/amqperror/translate.go.
--
-- An error is the tree that its Unwrap methods span. A sentinel of `errors.New` is a constructor,
-- `wrap` is fmt.Errorf with one or more %w, `code_error` is *codeError, `amqp` is *amqp091.Error
-- with its reply code, `amqp_closed` the value amqp091.ErrClosed (whose code is 504),
-- `unroutable` the *confirms.UnroutableError, and `foreign` any error of other packages. A Go error
-- that may be nil is an `Option Err`.
pub mod Laws
pub mod Tables
use warren.Prelude.{
  ℕ, zero, suc, ◌+◌, ◌-◌, ◌*◌, ◌/◌, ◌%◌, ◌^◌, ◌≤◌, ◌<◌, min, max, String, ◌≡◌, refl, sym, ap, subst,
  fun_ext, ◌∙◌, ◌≢◌, ◌↔◌, ◌⊎◌, inl, inr, Bool, true, false, not, ◌&&◌, ◌||◌, Option, none, some,
  List, [], ◌∷◌, ◌++◌, map, arith, ltb, leb, nat_eq, if◌then◌else◌, nat_eq_iff, leb_iff, ltb_iff,
  ltb-false, leb-false, Bool-cases, Option-cases, Eq, ◌==◌, nat_Eq, str_eq, str_eq_iff, string_Eq,
  length, get_elem?, take, drop, replicate, length-append, length-drop, drop_all, In, lookup,
  insert, erase, lookup-insert, lookup-erase, if_both, if_true, if_false, ℕ_discrete,
}

-- The sentinels of package warren, of package confirms, and of package context.
pub data Sentinel : Type 0 where
  not_connected already_closed already_resolved shutdown channel_closed connection_blocked :
      Sentinel
  channel_pool_exhausted confirm_timeout mandatory_unroutable publish_nacked partial_batch :
      Sentinel
  batch_too_large message_too_large rate_limited requeue poison max_redeliveries : Sentinel
  consumer_cancelled invalid_message topology_mismatch topology_redeclare_failed : Sentinel
  reconnecting call_timeout invalid_options transient permanent : Sentinel
  content_too_large connection_forced invalid_path access_refused not_found : Sentinel
  resource_locked precondition_failed frame_error syntax_error command_invalid : Sentinel
  channel_error unexpected_frame resource_error not_allowed not_implemented : Sentinel
  internal_error confirms_timeout confirms_nacked confirms_closed : Sentinel
  canceled deadline_exceeded : Sentinel

-- Each sentinel is a pointer of its own: its number stands for the address.
abbrev pub address : Sentinel → ℕ
address not_connected = 1
address already_closed = 2
address already_resolved = 3
address shutdown = 4
address channel_closed = 5
address connection_blocked = 6
address channel_pool_exhausted = 7
address confirm_timeout = 8
address mandatory_unroutable = 9
address publish_nacked = 10
address partial_batch = 11
address batch_too_large = 12
address message_too_large = 13
address rate_limited = 14
address requeue = 15
address poison = 16
address max_redeliveries = 17
address consumer_cancelled = 18
address invalid_message = 19
address topology_mismatch = 20
address topology_redeclare_failed = 21
address reconnecting = 22
address call_timeout = 23
address invalid_options = 24
address transient = 25
address permanent = 26
address content_too_large = 27
address connection_forced = 28
address invalid_path = 29
address access_refused = 30
address not_found = 31
address resource_locked = 32
address precondition_failed = 33
address frame_error = 34
address syntax_error = 35
address command_invalid = 36
address channel_error = 37
address unexpected_frame = 38
address resource_error = 39
address not_allowed = 40
address not_implemented = 41
address internal_error = 42
address confirms_timeout = 43
address confirms_nacked = 44
address confirms_closed = 45
address canceled = 46
address deadline_exceeded = 47

abbrev pub same : Sentinel → Sentinel → Bool
same s t = nat_eq (address s) (address t)

mutual
  pub data Err : Type 0 where
    sentinel : Sentinel → Err
    amqp : ℕ → Err
    amqp_closed : Err
    unroutable : ℕ → Err
    foreign : ℕ → Err
    code_error : ℕ → Err → Err
    wrap : Errs → Err

  pub data Errs : Type 0 where
    nil : Errs
    cons : Err → Errs → Errs

-- fmt.Errorf("%w: …", a) and fmt.Errorf("%w: %w", a, b).
abbrev pub wrap_one : Err → Err
wrap_one a = wrap (cons a nil)

abbrev pub wrap_two : Err → Err → Err
wrap_two a b = wrap (cons a (cons b nil))

-- errors.Is against a sentinel: the tree in pre-order.
unfoldable mutual
  pub errors_is : Err → Sentinel → Bool
  errors_is (sentinel s) t = same s t
  errors_is (amqp n) t = false
  errors_is amqp_closed t = false
  errors_is (unroutable n) t = false
  errors_is (foreign n) t = false
  errors_is (code_error n e) t = errors_is e t
  errors_is (wrap es) t = any_is es t

  pub any_is : Errs → Sentinel → Bool
  any_is nil t = false
  any_is (cons e es) t = errors_is e t || any_is es t

abbrev pub or_else : Option ℕ → Option ℕ → Option ℕ
or_else (some a) o = some a
or_else none o = o

-- errors.As for *codeError, *amqp091.Error and *confirms.UnroutableError: the first in pre-order.
unfoldable mutual
  pub as_code_error : Err → Option ℕ
  as_code_error (sentinel s) = none
  as_code_error (amqp n) = none
  as_code_error amqp_closed = none
  as_code_error (unroutable n) = none
  as_code_error (foreign n) = none
  as_code_error (code_error n e) = some n
  as_code_error (wrap es) = first_code_error es

  pub first_code_error : Errs → Option ℕ
  first_code_error nil = none
  first_code_error (cons e es) = or_else (as_code_error e) (first_code_error es)

unfoldable mutual
  pub as_amqp : Err → Option ℕ
  as_amqp (sentinel s) = none
  as_amqp (amqp n) = some n
  as_amqp amqp_closed = some 504
  as_amqp (unroutable n) = none
  as_amqp (foreign n) = none
  as_amqp (code_error n e) = as_amqp e
  as_amqp (wrap es) = first_amqp es

  pub first_amqp : Errs → Option ℕ
  first_amqp nil = none
  first_amqp (cons e es) = or_else (as_amqp e) (first_amqp es)

unfoldable mutual
  pub as_unroutable : Err → Option ℕ
  as_unroutable (sentinel s) = none
  as_unroutable (amqp n) = none
  as_unroutable amqp_closed = none
  as_unroutable (unroutable n) = some n
  as_unroutable (foreign n) = none
  as_unroutable (code_error n e) = as_unroutable e
  as_unroutable (wrap es) = first_unroutable es

  pub first_unroutable : Errs → Option ℕ
  first_unroutable nil = none
  first_unroutable (cons e es) = or_else (as_unroutable e) (first_unroutable es)

-- errors.Is against the pointer amqp091.ErrClosed.
unfoldable mutual
  pub is_amqp_closed : Err → Bool
  is_amqp_closed (sentinel s) = false
  is_amqp_closed (amqp n) = false
  is_amqp_closed amqp_closed = true
  is_amqp_closed (unroutable n) = false
  is_amqp_closed (foreign n) = false
  is_amqp_closed (code_error n e) = is_amqp_closed e
  is_amqp_closed (wrap es) = any_amqp_closed es

  pub any_amqp_closed : Errs → Bool
  any_amqp_closed nil = false
  any_amqp_closed (cons e es) = is_amqp_closed e || any_amqp_closed es

-- errors.Is of an error that may be nil.
abbrev pub is_err : Option Err → Sentinel → Bool
is_err none s = false
is_err (some e) s = errors_is e s

-- The loops `for _, sentinel := range […] { if errors.Is(err, sentinel) { return true } }`.
unfoldable pub is_any_of : List Sentinel → Err → Bool
is_any_of [] e = false
is_any_of (s ∷ ss) e = errors_is e s || is_any_of ss e

abbrev pub amqp_code_sentinels : List (Sentinel × ℕ)
amqp_code_sentinels =
    (content_too_large, 311)
    ∷ (connection_forced, 320)
    ∷ (invalid_path, 402)
    ∷ (access_refused, 403)
    ∷ (not_found, 404)
    ∷ (resource_locked, 405)
    ∷ (precondition_failed, 406)
    ∷ (frame_error, 501)
    ∷ (syntax_error, 502)
    ∷ (command_invalid, 503)
    ∷ (channel_error, 504)
    ∷ (unexpected_frame, 505)
    ∷ (resource_error, 506)
    ∷ (not_allowed, 530)
    ∷ (not_implemented, 540)
    ∷ (internal_error, 541)
    ∷ []

-- The first entry of the table whose sentinel is in the chain.
unfoldable pub code_of_sentinel : List (Sentinel × ℕ) → Err → Option ℕ
code_of_sentinel [] e = none
code_of_sentinel ((s, c) ∷ table) e = if errors_is e s then some c else code_of_sentinel table e

-- AMQPCode: `none` is the pair (0, false).
unfoldable pub amqp_code : Option Err → Option ℕ
unfolding code_of_sentinel as_code_error first_code_error
amqp_code none = none
amqp_code (some e) = elim (as_code_error e) [
  | some c ↦ some c
  | none ↦ code_of_sentinel amqp_code_sentinels e
]

abbrev pub transient_sentinels : List Sentinel
transient_sentinels =
    channel_pool_exhausted ∷ publish_nacked ∷ connection_blocked ∷ confirm_timeout ∷ channel_closed
    ∷ reconnecting ∷ rate_limited ∷ connection_forced ∷ channel_error ∷ internal_error ∷ []

unfoldable pub is_transient : Option Err → Bool
unfolding is_any_of
is_transient none = false
is_transient (some e) =
    if errors_is e canceled
    then false
    else if errors_is e transient
    then true
    else is_any_of transient_sentinels e

abbrev pub permanent_sentinels : List Sentinel
permanent_sentinels =
    content_too_large ∷ invalid_path ∷ access_refused ∷ not_found ∷ resource_locked
    ∷ precondition_failed ∷ frame_error ∷ syntax_error ∷ command_invalid ∷ unexpected_frame
    ∷ resource_error ∷ not_allowed ∷ not_implemented ∷ []

unfoldable pub is_permanent : Option Err → Bool
unfolding is_any_of
is_permanent none = false
is_permanent (some e) =
    if errors_is e permanent
    then true
    else if errors_is e topology_redeclare_failed
    then true
    else if errors_is e message_too_large
    then true
    else is_any_of permanent_sentinels e

-- amqpCodeTable, built from the list above, and its look-up.
abbrev pub amqp_code_table : ℕ → List (Sentinel × ℕ) → Option Sentinel
amqp_code_table code [] = none
amqp_code_table code ((s, c) ∷ table) = if nat_eq c code then some s else amqp_code_table code table

-- wrapAMQPError. The conversion uint16(amqpErr.Code) keeps the low 16 bits.
unfoldable pub wrap_amqp_error : Option Err → Option Err
wrap_amqp_error none = none
wrap_amqp_error (some e) = elim (as_amqp e) [
  | none ↦ some e
  | some code ↦ elim (amqp_code_table (code % 65536) amqp_code_sentinels) [
    | none ↦ some e
    | some s ↦ some (wrap_two (sentinel s) e)
  ]
]

-- The map literal codeTable of internal/amqperror.
abbrev pub code_table : List (ℕ × Sentinel)
code_table =
    (311, content_too_large)
    ∷ (320, connection_forced)
    ∷ (402, invalid_path)
    ∷ (403, access_refused)
    ∷ (404, not_found)
    ∷ (405, resource_locked)
    ∷ (406, precondition_failed)
    ∷ (501, frame_error)
    ∷ (502, syntax_error)
    ∷ (503, command_invalid)
    ∷ (504, channel_error)
    ∷ (505, unexpected_frame)
    ∷ (506, resource_error)
    ∷ (530, not_allowed)
    ∷ (540, not_implemented)
    ∷ (541, internal_error)
    ∷ []

-- amqperror.Wrap.
unfoldable pub amqperror_wrap : Option Err → Option Err
amqperror_wrap none = none
amqperror_wrap (some e) = elim (as_amqp e) [
  | none ↦ some e
  | some code ↦ elim (lookup (code % 65536) code_table) [
    | none ↦ some e
    | some s ↦ some (wrap_two (sentinel s) e)
  ]
]
