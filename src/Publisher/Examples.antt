-- ===== src/Publisher/Examples.antt =====
-- The theorems about the publisher at concrete inputs.
use warren.Prelude.{
  bytes_Eq, pos, ℕ, ◌+◌, String, ◌≡◌, refl, ◌≢◌, ◌⊎◌, inr, true, false, none, some, List, [], ◌∷◌,
  ◌++◌, arith, nat_Eq, str_eq_iff, string_Eq, lookup,
}
use warren.Errors.{
  sentinel, topology_redeclare_failed, code_error, mandatory_unroutable, foreign, errors_is,
  channel_closed,
}
use warren.Confirms.{new, register, fresh_waiter, unroutable, nacked, Wake}
use warren.Confirms.Preserved.{new-Inv, register-Inv}
use warren.Confirms.Outcomes.{waiter_of-register}
use warren.Pool.{new_pool, opened, publisher_acquire, get_or_open, take_live, got}
use warren.Publisher.Fields.{
  Fields, no_fields, field, item, no_items, int_value, uint_value, table, array, validate_headers,
  invalid,
}
use warren.Publisher.Fields.Normal.{fields_fit, fields_coerced, validate_headers_lem}
use warren.Publisher.Message.{Message, Codec, coded, Checks, encode_msg, accepted}
use warren.Publisher.Message.Accepted.{Checked, encode_msg_lem}
use warren.Publisher.Outcome.{map_confirm_error}
use warren.Publisher.Demux.{Entry, Frame, returned, confirmed}
use warren.Publisher.Demux.Correlated.{
  Awaits, after, demux_all-correlates, are_unrelated, is_unrelated,
}
use warren.Publisher.Attempt.{Options, World, Line, publish_once}
use warren.Publisher.Attempt.Released.{Leaves, publish_once-Leaves}
use warren.Publisher.Attempt.Verdicts.{Usable, Reaches, attempt_error, publish_once-verdict}
use warren.Publisher.Retry.{Calls, publish_loop}
use warren.Publisher.Retry.Stops.{Stops, publish_loop-ends, Justified, publish_loop-Justified}
use warren.Publisher.Bulk.{
  Turn, BatchOptions, publish_batch, run_on, publish_all, publish_one, publish_registered, wait_all,
  wait_one, forgotten_all, forget_all,
}
use warren.Publisher.Bulk.Results.{Complete, publish_batch-Complete}
use warren.Publisher.Bulk.Ids.{run_on-forgets, has_accepted}

-- A table with an int, and an array with an uint in a nested one.
abbrev headers : Fields
headers =
    field "a" (int_value (pos 5))
      (field "b" (table (field "c" (array (item (uint_value 7) no_items)) no_fields)) no_fields)

validate_headers_lem_example :
    ((fields_fit headers 0 ≡ true) × (validate_headers headers ≡ (fields_coerced headers, none)))
    ⊎ ((fields_fit headers 0 ≡ false) × ((validate_headers headers).1 ≡ invalid))
validate_headers_lem_example = validate_headers_lem headers

abbrev order : Message
order = record {
  body = some 1;
  message_id = "m1";
  correlation_id = "c1";
  reply_to = "";
  type_name = "";
  app_id = "";
  user_id = "";
  content_type = "";
  content_encoding = "";
  headers = headers;
  priority = 0;
  timestamp = none;
  expiration = pos 2500000;
  delivery_mode = 1;
  delay = pos 3000000;
}

abbrev json : Codec
json = record {
  default_type = "application/json";
  encode = λ b. coded (b ∷ []) no_fields "";
  encode_with_headers = none;
}

abbrev checks : Checks
checks = record { stamp_user_id = true; auth_user = "guest"; max_message_size_bytes = pos 16 }

encode_msg_lem_example : Checked checks order (encode_msg checks json (inr "m2") 9 order)
encode_msg_lem_example = encode_msg_lem checks json (inr "m2") 9 order

abbrev empty_entry : Entry
empty_entry = record { tracker = new; return_tag_map = []; reported = [] }

abbrev one_published : Entry
one_published = record {
  tracker = (register new 1).0;
  return_tag_map = ("m1", 1) ∷ [];
  reported = [];
}

only_m1 : (k : String) → lookup k one_published.return_tag_map ≡ some 1 → k ≡ "m1"
only_m1 k e = ground (arith, str_eq_iff "m1" k)

one_published-Awaits : Awaits "m1" 1 fresh_waiter (some 1) one_published
unfolding new
one_published-Awaits = record {
  inv = register-Inv new 1 new-Inv;
  waits = waiter_of-register new 1 refl;
  own = only_m1;
  mapped = refl;
}

abbrev m1 : String
m1 = "m1"

m1_named : m1 ≢ ""
m1_named e = ground (arith, str_eq_iff m1 "")

abbrev others : List Frame
others = returned "m0" 404 ∷ confirmed 5 true ∷ []

demux_all-correlates_example :
    (after one_published (others ++ returned "m1" 312 ∷ [] ++ confirmed 1 true ∷ []) 1
      ≡ some (some (unroutable 312)))
    × (after one_published (others ++ returned "m1" 312 ∷ [] ++ confirmed 1 false ∷ []) 1
        ≡ some (some nacked))
    × (after one_published (others ++ confirmed 1 true ∷ []) 1 ≡ some none)
    × (after one_published (others ++ confirmed 1 false ∷ []) 1 ≡ some (some nacked))
unfolding are_unrelated is_unrelated
demux_all-correlates_example =
    demux_all-correlates "m1" 1 312 one_published others [] one_published-Awaits m1_named refl refl

abbrev mandatory : Options
mandatory = record { mandatory = true; is_bounded = true; pool_size = 2 }

abbrev line : Line
line = record {
  pool = new_pool 2;
  inflight = 0;
  gauge = 3;
  entries = λ x. empty_entry;
  throttled = 0;
  samples = [];
}

-- The return and the ack of the message come while Wait blocks.
abbrev unroutable_world : World
unroutable_world = record {
  is_throttled = false;
  limiter_error = none;
  barrier_error = none;
  closed_before = λ x. false;
  opened = opened 7;
  closed_after = λ x. false;
  sequence_number = 1;
  publish_error = none;
  early = others;
  late = returned "m1" 312 ∷ confirmed 1 true ∷ confirmed 9 false ∷ [];
  wake = Wake.confirmed;
  context_error = foreign 2;
}

broker-Reaches : Reaches mandatory unroutable_world line 7
unfolding new_pool publisher_acquire get_or_open take_live
broker-Reaches = record {
  is_mandatory = refl;
  has_token = refl;
  past_barrier = refl;
  has_channel = refl;
  is_written = refl;
  is_woken = refl;
}

empty-Usable : Usable unroutable_world empty_entry
unfolding new
empty-Usable = record { inv = new-Inv; is_open = refl; unused = λ k e. cc e }

publish_once-verdict_example :
    attempt_error (publish_once mandatory unroutable_world "m1" line)
    ≡ some (some (code_error 312 (sentinel mandatory_unroutable)))
unfolding are_unrelated is_unrelated
publish_once-verdict_example =
    publish_once-verdict mandatory unroutable_world "m1" line 7 (some 312) others []
      (confirmed 9 false ∷ []) true broker-Reaches empty-Usable m1_named refl refl refl refl

publish_once-Leaves_example :
    Leaves mandatory unroutable_world "m1" line (publish_once mandatory unroutable_world "m1" line)
unfolding new
publish_once-Leaves_example = publish_once-Leaves mandatory unroutable_world "m1" line (λ x. refl)

-- Every attempt meets a topology that could not be declared.
abbrev degraded_world : World
degraded_world = record unroutable_world {
  barrier_error = some (sentinel topology_redeclare_failed);
}

abbrev calls : Calls
calls = record {
  world = λ k. degraded_world;
  context_done = λ k. false;
  ends_in_backoff = λ k. false;
}

publish_loop-ends_example : Stops 0 4 (publish_loop mandatory (some (pos 3)) calls "m1" 4 0 line)
publish_loop-ends_example = publish_loop-ends mandatory calls "m1" 2 line

publish_loop-Justified_example :
    Justified mandatory
      (some (pos 3))
      calls
      "m1"
      0
      line
      (publish_loop mandatory (some (pos 3)) calls "m1" 4 0 line)
publish_loop-Justified_example = publish_loop-Justified mandatory (some (pos 3)) calls "m1" 4 0 line

abbrev batch_options : BatchOptions
batch_options = record {
  checks = checks;
  codec = json;
  mandatory = true;
  is_bounded = true;
  max_size = pos 0;
  context_error = foreign 2;
}

abbrev turn : ℕ → Turn
turn i = record {
  new_id = inr "m2";
  now = 9;
  sequence_number = i + 1;
  publish_error = none;
  after_publish = [];
  while_waiting = confirmed (i + 1) true ∷ [];
  wake = Wake.confirmed;
}

publish_batch-Complete_example : Complete 2 (
    publish_batch batch_options
      (record { is_closed = false; active = 0 })
      turn
      (λ x. empty_entry)
      (record { barrier_error = none; acquired = got 7 })
      (order ∷ record order { body = none } ∷ []))
publish_batch-Complete_example =
    publish_batch-Complete batch_options (record { is_closed = false; active = 0 }) turn
      (λ x. empty_entry) (record { barrier_error = none; acquired = got 7 })
      (order ∷ record order { body = none } ∷ [])

abbrev closed_entry : Entry
closed_entry = record empty_entry { tracker = record new { is_closed = true } }

-- The channel has closed, so Register refuses the message.
run_on-forgets_example : lookup m1 closed_entry.return_tag_map ≡ none
unfolding run_on publish_all publish_one publish_registered wait_all wait_one forgotten_all
    forget_all register new map_confirm_error errors_is has_accepted
run_on-forgets_example =
    run_on-forgets batch_options turn closed_entry closed_entry (accepted order (1 ∷ []) ∷ [])
      (some (sentinel channel_closed) ∷ []) m1 refl refl refl
