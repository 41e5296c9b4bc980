-- ===== src/Publisher/Message/Accepted.antt =====
-- What encodeMsg lets through to the broker, publisher.go.
use warren.Prelude.{
  is_positive, is_zero, milliseconds, bytes_Eq, ℕ, ◌^◌, ltb, ℤ, pos, negsuc, String, ◌≡◌, refl, ◌∙◌,
  ◌⊎◌, inl, inr, Bool, true, false, not, ◌&&◌, ◌||◌, Option, none, some, List, arith, if◌then◌else◌,
  nat_Eq, str_eq, string_Eq, length, if_both,
}
use warren.Errors.{Err, sentinel, wrap_two, invalid_message, message_too_large, errors_is, any_is}
use warren.Publisher.Fields.{Value, Fields, no_fields, field, validate_headers, invalid}
use warren.Publisher.Fields.Normal.{
  fits, fields_fit, fields_coerced, validate_headers_lem, fields_coerced-fit,
}
use warren.Publisher.Message.{
  Message, Codec, Coding, coded, coding_failed, coding_panicked, Encoded, accepted, rejected,
  Checks, apply_defaults, require, set_field, copy_fields, is_empty, delay_ok, too_large, stamped,
  finish_message, merge_with, merge_coding, encode_some, encode_valid, encode_headers,
  encode_defaulted, encode_msg, safe_encode_body,
}

abbrev pub fits_int32 : ℤ → Bool
fits_int32 (pos n) = ltb n (2 ^ 31)
fits_int32 (negsuc n) = false

delay_ok-fits_int32 : (z : ℤ) → delay_ok z ≡ true → fits_int32 z ≡ true
delay_ok-fits_int32 (pos n) ok = ground arith
delay_ok-fits_int32 (negsuc n) ok = ok

-- What the broker may be sent: a delay that is an x-delay, a TTL that is none or at least 1 ms, no
-- user or that of the connection where it is known, a body under the cap and headers that the encoder knows.
pub record Sendable (p : Checks) (m : Message) (body : List ℕ) : Type 0 where
  pub delay_in_range : fits_int32 (milliseconds m.delay) ≡ true
  pub ttl_in_range : (is_zero m.expiration || is_positive (milliseconds m.expiration)) ≡ true
  pub user_matches :
      (str_eq m.user_id "" || str_eq p.auth_user "" || str_eq m.user_id p.auth_user) ≡ true
  pub under_cap : too_large p.max_message_size_bytes (length body) ≡ false
  pub headers_fit : fields_fit m.headers 0 ≡ true

-- The fields that the caller has set and no check changes.
pub record Same (m n : Message) : Type 0 where
  pub body : n.body ≡ m.body
  pub correlation_id : n.correlation_id ≡ m.correlation_id
  pub delivery_mode : n.delivery_mode ≡ m.delivery_mode
  pub expiration : n.expiration ≡ m.expiration
  pub delay : n.delay ≡ m.delay

unfoldable pub Checked : Checks → Message → Encoded → Type 0
Checked p m (accepted n body) = Sendable p n body × Same m n
Checked p m (rejected e) = (errors_is e invalid_message || errors_is e message_too_large) ≡ true

set_field-fit :
    (k : String) (v : Value) (h : Fields)
    → fits v 0 ≡ true
    → fields_fit h 0 ≡ true
    → fields_fit (set_field k v h) 0 ≡ true
unfolding set_field fields_fit
set_field-fit k v no_fields fv fh = ground arith
set_field-fit k v (field j w h) fv fh = ground (arith, set_field-fit k v h fv)

copy_fields-fit :
    (h ce : Fields)
    → fields_fit h 0 ≡ true
    → fields_fit ce 0 ≡ true
    → fields_fit (copy_fields h ce) 0 ≡ true
unfolding copy_fields fields_fit
copy_fields-fit h no_fields fh fc = fh
copy_fields-fit h (field k v ce) fh fc =
    copy_fields-fit (set_field k v h) ce (set_field-fit k v h (ground arith) fh) (ground arith)

-- A message that has passed the checks before the encoding.
record Ready (p : Checks) (o m : Message) : Type 0 where
  delay_in_range : fits_int32 (milliseconds m.delay) ≡ true
  ttl_in_range : (is_zero m.expiration || is_positive (milliseconds m.expiration)) ≡ true
  user_matches :
      (str_eq m.user_id "" || str_eq p.auth_user "" || str_eq m.user_id p.auth_user) ≡ true
  headers_fit : fields_fit m.headers 0 ≡ true
  same : Same o m

Ready-Sendable :
    (p : Checks) (o m : Message) (body : List ℕ)
    → Ready p o m
    → too_large p.max_message_size_bytes (length body) ≡ false
    → Sendable p m body
Ready-Sendable p o m body r small = record {
  delay_in_range = r.delay_in_range;
  ttl_in_range = r.ttl_in_range;
  user_matches = r.user_matches;
  under_cap = small;
  headers_fit = r.headers_fit;
}

require-Checked :
    (p : Checks) (o : Message) (b : Bool) (e : Err) (r : Encoded)
    → Checked p o (rejected e)
    → (b ≡ true → Checked p o r)
    → Checked p o (require b e r)
require-Checked p o true e r refused go_on = go_on refl
require-Checked p o false e r refused go_on = refused

retyped :
    (p : Checks) (o m : Message) (ct : String)
    → Ready p o m
    → Ready p o (record m { content_type = ct })
retyped p o m ct r = record {
  delay_in_range = r.delay_in_range;
  ttl_in_range = r.ttl_in_range;
  user_matches = r.user_matches;
  headers_fit = r.headers_fit;
  same = record {
    body = r.same.body;
    correlation_id = r.same.correlation_id;
    delivery_mode = r.same.delivery_mode;
    expiration = r.same.expiration;
    delay = r.same.delay;
  };
}

with_headers :
    (p : Checks) (o m : Message) (h : Fields)
    → Ready p o m
    → fields_fit h 0 ≡ true
    → Ready p o (record m { headers = h })
with_headers p o m h r fh = record {
  delay_in_range = r.delay_in_range;
  ttl_in_range = r.ttl_in_range;
  user_matches = r.user_matches;
  headers_fit = fh;
  same = record {
    body = r.same.body;
    correlation_id = r.same.correlation_id;
    delivery_mode = r.same.delivery_mode;
    expiration = r.same.expiration;
    delay = r.same.delay;
  };
}

finish_message-Checked :
    (p : Checks) (o m : Message) (body : List ℕ) (ct : String)
    → Ready p o m
    → Checked p o (finish_message p body ct m)
unfolding finish_message Checked errors_is any_is
finish_message-Checked p o m body ct r =
    require-Checked p o (not (too_large p.max_message_size_bytes (length body))) _ _ refl (λ ok.
      if_both (λ n. Checked p o (accepted n body)) (str_eq ct "") _ _
        (Ready-Sendable p o m body r (ground arith), r.same)
        (Ready-Sendable p o _ body (retyped p o m ct r) (ground arith), (retyped p o m ct r).same))

refused_merge :
    (p : Checks) (o m : Message) (body : List ℕ) (ct : String) (r : Fields × Option Err)
    → r.1 ≡ invalid
    → Checked p o (merge_with p m body ct r)
unfolding Checked errors_is any_is merge_with
refused_merge p o m body ct (h, some e) f = ground arith
refused_merge p o m body ct (h, none) f = cc f

merge_coding-Checked :
    (p : Checks) (o m : Message) (c : Coding) → Ready p o m → Checked p o (merge_coding p m c)
unfolding Checked errors_is any_is merge_coding merge_with
merge_coding-Checked p o m (coded body ce ct) r =
    if_both (Checked p o) (is_empty ce) _ _ (finish_message-Checked p o m body ct r)
      (elim (validate_headers_lem ce) [
        | inl (fit, e) ↦ rw e (
            finish_message-Checked p o _ body ct (
              with_headers p o m _ r (
                copy_fields-fit m.headers (fields_coerced ce) r.headers_fit
                  (fields_coerced-fit ce 0 ∙ fit))))
        | inr (no_fit, e) ↦ refused_merge p o m body ct (validate_headers ce) e
      ])
merge_coding-Checked p o m (coding_failed e) r = ground arith
merge_coding-Checked p o m coding_panicked r = refl

-- A message before the checks of the delay, the TTL and the user.
record Early (o m : Message) : Type 0 where
  headers_fit : fields_fit m.headers 0 ≡ true
  same : Same o m

encode_some-Checked :
    (p : Checks) (c : Codec) (o m : Message) (b : Option ℕ)
    → Early o m
    → (str_eq m.user_id "" || str_eq p.auth_user "" || str_eq m.user_id p.auth_user) ≡ true
    → Checked p o (encode_some p c m b)
unfolding Checked errors_is any_is encode_some
encode_some-Checked p c o m none r user = refl
encode_some-Checked p c o m (some b) r user = require-Checked p o _ _ _ refl (λ delay.
    require-Checked p o _ _ _ refl (λ ttl.
      merge_coding-Checked p o m (safe_encode_body c b) (record {
        delay_in_range = delay_ok-fits_int32 (milliseconds m.delay) delay;
        ttl_in_range = ttl;
        user_matches = user;
        headers_fit = r.headers_fit;
        same = r.same;
      })))

encode_valid-Checked :
    (p : Checks) (c : Codec) (o m : Message) → Early o m → Checked p o (encode_valid p c m)
unfolding Checked errors_is any_is encode_valid
encode_valid-Checked p c o m r =
    require-Checked p o _ _ _ refl (λ user. encode_some-Checked p c o m m.body r user)

stamped-Early : (p : Checks) (o m : Message) → Early o m → Early o (stamped p m)
stamped-Early p o m r =
    if_both (Early o) (p.stamp_user_id && str_eq m.user_id "") _ _
      (record {
        headers_fit = r.headers_fit;
        same = record {
          body = r.same.body;
          correlation_id = r.same.correlation_id;
          delivery_mode = r.same.delivery_mode;
          expiration = r.same.expiration;
          delay = r.same.delay;
        };
      })
      r

refused_headers :
    (p : Checks) (c : Codec) (o m : Message) (r : Fields × Option Err)
    → r.1 ≡ invalid
    → Checked p o (encode_headers p c m r)
unfolding Checked errors_is any_is encode_headers
refused_headers p c o m (h, some e) f = ground arith
refused_headers p c o m (h, none) f = cc f

encode_defaulted-Checked :
    (p : Checks) (c : Codec) (o m : Message) → Same o m → Checked p o (encode_defaulted p c (inr m))
unfolding encode_defaulted encode_headers
encode_defaulted-Checked p c o m s = elim (validate_headers_lem m.headers) [
  | inl (fit, e) ↦ rw e (
      encode_valid-Checked p c o _ (
        stamped-Early p o _ (record {
          headers_fit = fields_coerced-fit m.headers 0 ∙ fit;
          same = record {
            body = s.body;
            correlation_id = s.correlation_id;
            delivery_mode = s.delivery_mode;
            expiration = s.expiration;
            delay = s.delay;
          };
        })))
  | inr (no_fit, e) ↦ refused_headers p c o m (validate_headers m.headers) e
]

no_id :
    (p : Checks) (c : Codec) (m : Message) (e : Err)
    → Checked p m (encode_defaulted p c (inl (wrap_two (sentinel invalid_message) e)))
unfolding Checked errors_is any_is encode_defaulted
no_id p c m e = ground arith

dated :
    (m : Message) (k : String) (now : ℕ) (c : Codec)
    → Same m (record m {
      message_id = k;
      timestamp = elim m.timestamp [ some t ↦ some t | none ↦ some now ];
      content_type = if str_eq m.content_type "" then c.default_type else m.content_type;
    })
dated m k now c = record {
  body = refl;
  correlation_id = refl;
  delivery_mode = refl;
  expiration = refl;
  delay = refl;
}

-- Whatever the codec, the clock and the id generator give, encodeMsg either refuses the message with
-- ErrInvalidMessage or ErrMessageTooLarge, or hands on a message that can be sent as it stands: its
-- delay in whole milliseconds is between 0 and the largest int32, its TTL is none or at least 1 ms, its
-- user is none or the connection's where that is known, its body is under the cap and every header has a supported type. The body,
-- the correlation id, the delivery mode, the TTL and the delay are those of the caller.
pub encode_msg_lem :
    (p : Checks) (c : Codec) (id : Err ⊎ String) (now : ℕ) (m : Message)
    → Checked p m (encode_msg p c id now m)
unfolding encode_msg apply_defaults
encode_msg_lem p c (inl e) now m =
    if_both (λ r. Checked p m (encode_defaulted p c r)) (str_eq m.message_id "") _ _ (no_id p c m e)
      (encode_defaulted-Checked p c m _ (dated m m.message_id now c))
encode_msg_lem p c (inr k) now m =
    if_both (λ r. Checked p m (encode_defaulted p c r)) (str_eq m.message_id "") _ _
      (encode_defaulted-Checked p c m _ (dated m k now c))
      (encode_defaulted-Checked p c m _ (dated m m.message_id now c))
