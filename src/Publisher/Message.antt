-- ===== src/Publisher/Message.antt =====
-- A message, its defaults and the client-side checks: message.go, types.go and encodeMsg of
-- publisher.go.
--
-- Durations are nanoseconds in ℤ. The zero time is `none`, so is a nil Body. The codec is an interface:
-- its calls are parameters, and a panic of one is a result.
pub mod Accepted
use warren.Prelude.{
  is_positive, is_zero, milliseconds, bytes_eq, bytes_eq_iff, bytes_Eq, ℤ, pos, negsuc, ℕ, zero,
  suc, ◌+◌, ◌-◌, ◌*◌, ◌/◌, ◌%◌, ◌^◌, ◌≤◌, ◌<◌, min, max, String, ◌≡◌, refl, sym, ap, subst, fun_ext,
  ◌∙◌, ◌≢◌, ◌↔◌, ◌⊎◌, inl, inr, Bool, true, false, not, ◌&&◌, ◌||◌, Option, none, some, List, [],
  ◌∷◌, ◌++◌, map, arith, ltb, leb, nat_eq, if◌then◌else◌, nat_eq_iff, leb_iff, ltb_iff, ltb-false,
  leb-false, Bool-cases, Option-cases, Eq, ◌==◌, nat_Eq, str_eq, str_eq_iff, string_Eq, length,
  get_elem?, take, drop, replicate, length-append, length-drop, drop_all, In, lookup, insert, erase,
  lookup-insert, lookup-erase, if_both, if_true, if_false, ℕ_discrete,
}
use warren.Errors.{Err, sentinel, wrap_one, wrap_two, foreign, invalid_message, message_too_large}
use warren.Publisher.Fields.{Fields, no_fields, field, Value, validate_headers}

-- DeliveryMode is a uint8, of which two values have a name.
abbrev pub persistent_mode : ℕ
persistent_mode = 0

abbrev pub transient_mode : ℕ
transient_mode = 1

unfoldable pub mode_wire : ℕ → ℕ
mode_wire d = if nat_eq d transient_mode then 1 else 2

unfoldable pub mode_from_wire : ℕ → ℕ
mode_from_wire w = if nat_eq w 2 then persistent_mode else transient_mode

pub record Message : Type 0 where
  pub body : Option ℕ
  pub message_id : String
  pub correlation_id : String
  pub reply_to : String
  pub type_name : String
  pub app_id : String
  pub user_id : String
  pub content_type : String
  pub content_encoding : String
  pub headers : Fields
  pub priority : ℕ
  pub timestamp : Option ℕ
  pub expiration : ℤ
  pub delivery_mode : ℕ
  pub delay : ℤ

-- What a codec's call gives: the bytes, the headers and the content type of a HeaderCodec.
pub data Coding : Type 0 where
  coded : List ℕ → Fields → String → Coding
  coding_failed : Err → Coding
  coding_panicked : Coding

pub record Codec : Type 0 where
  pub default_type : String
  pub encode : ℕ → Coding
  pub encode_with_headers : Option (ℕ → Coding)

-- A plain Codec returns bytes or an error only.
abbrev pub bare : Coding → Coding
bare (coded b h c) = coded b no_fields ""
bare (coding_failed e) = coding_failed e
bare coding_panicked = coding_panicked

unfoldable pub encode_body : Codec → ℕ → Coding
encode_body c body = elim c.encode_with_headers [ some f ↦ f body | none ↦ bare (c.encode body) ]

-- A panic becomes an error that names its type.
abbrev pub codec_panic : Err
codec_panic = foreign 1

abbrev pub recovered : Coding → Coding
recovered (coded b h c) = coded b h c
recovered (coding_failed e) = coding_failed e
recovered coding_panicked = coding_failed codec_panic

unfoldable pub safe_encode_body : Codec → ℕ → Coding
unfolding encode_body
safe_encode_body c body = recovered (encode_body c body)

pub data Encoded : Type 0 where
  accepted : Message → List ℕ → Encoded
  rejected : Err → Encoded

-- Of the publisher: stampUserID, authUser, maxMessageSizeBytes.
pub record Checks : Type 0 where
  pub stamp_user_id : Bool
  pub auth_user : String
  pub max_message_size_bytes : ℤ

-- applyDefaults: what uuid.NewV7 gives and what time.Now reads are given.
unfoldable pub apply_defaults : Err ⊎ String → ℕ → Codec → Message → Err ⊎ Message
apply_defaults id now c m =
    let dated = λ (k : String). record m {
      message_id = k;
      timestamp = elim m.timestamp [ some t ↦ some t | none ↦ some now ];
      content_type = if str_eq m.content_type "" then c.default_type else m.content_type;
    } in
    if str_eq m.message_id ""
    then (elim id [ inl e ↦ inl (wrap_two (sentinel invalid_message) e) | inr k ↦ inr (dated k) ])
    else inr (dated m.message_id)

abbrev pub require : Bool → Err → Encoded → Encoded
require true e r = r
require false e r = rejected e

abbrev pub invalid_error : Err
invalid_error = wrap_one (sentinel invalid_message)

-- maps.Copy.
unfoldable pub set_field : String → Value → Fields → Fields
set_field k v no_fields = field k v no_fields
set_field k v (field j w h) = if str_eq j k then field k v h else field j w (set_field k v h)

unfoldable pub copy_fields : Fields → Fields → Fields
unfolding set_field
copy_fields h no_fields = h
copy_fields h (field k v ce) = copy_fields (set_field k v h) ce

abbrev pub is_empty : Fields → Bool
is_empty no_fields = true
is_empty (field k v h) = false

abbrev pub max_int32 : ℕ
max_int32 = 2 ^ 31 - 1

abbrev pub delay_ok : ℤ → Bool
delay_ok (pos ms) = leb ms max_int32
delay_ok (negsuc n) = false

abbrev pub too_large : ℤ → ℕ → Bool
too_large (pos cap) n = ltb 0 cap && ltb cap n
too_large (negsuc c) n = false

abbrev pub stamped : Checks → Message → Message
stamped p m =
    if p.stamp_user_id && str_eq m.user_id "" then record m { user_id = p.auth_user } else m

-- The end of encodeMsg: the content type of the codec and the size cap.
unfoldable pub finish_message : Checks → List ℕ → String → Message → Encoded
finish_message p body ct m =
    require (not (too_large p.max_message_size_bytes (length body)))
      (wrap_one (sentinel message_too_large))
      (accepted (if str_eq ct "" then m else record m { content_type = ct }) body)

-- The merge of the codec's headers, with their check.
unfoldable pub merge_with : Checks → Message → List ℕ → String → Fields × Option Err → Encoded
unfolding finish_message copy_fields
merge_with p m body ct (ce, some e) = rejected e
merge_with p m body ct (ce, none) =
    finish_message p body ct (record m { headers = copy_fields m.headers ce })

unfoldable pub merge_coding : Checks → Message → Coding → Encoded
unfolding finish_message validate_headers merge_with
merge_coding p m (coded body ce ct) =
    if is_empty ce then finish_message p body ct m else merge_with p m body ct (validate_headers ce)
merge_coding p m (coding_failed e) = rejected (wrap_two (sentinel invalid_message) e)
merge_coding p m coding_panicked = rejected (wrap_two (sentinel invalid_message) codec_panic)

unfoldable pub encode_some : Checks → Codec → Message → Option ℕ → Encoded
unfolding safe_encode_body merge_coding
encode_some p c m none = rejected invalid_error
encode_some p c m (some b) = require (delay_ok (milliseconds m.delay)) invalid_error (
    require (is_zero m.expiration || is_positive (milliseconds m.expiration)) invalid_error
      (merge_coding p m (safe_encode_body c b)))

-- From the stamp of the user to the end.
unfoldable pub encode_valid : Checks → Codec → Message → Encoded
unfolding encode_some
encode_valid p c m =
    require (str_eq m.user_id "" || str_eq p.auth_user "" || str_eq m.user_id p.auth_user)
      invalid_error (encode_some p c m m.body)

unfoldable pub encode_headers : Checks → Codec → Message → Fields × Option Err → Encoded
unfolding encode_valid
encode_headers p c m (h, some e) = rejected e
encode_headers p c m (h, none) = encode_valid p c (stamped p (record m { headers = h }))

unfoldable pub encode_defaulted : Checks → Codec → Err ⊎ Message → Encoded
unfolding validate_headers encode_headers
encode_defaulted p c (inl e) = rejected e
encode_defaulted p c (inr m) = encode_headers p c m (validate_headers m.headers)

unfoldable pub encode_msg : Checks → Codec → Err ⊎ String → ℕ → Message → Encoded
unfolding apply_defaults encode_defaulted
encode_msg p c id now m = encode_defaulted p c (apply_defaults id now c m)
