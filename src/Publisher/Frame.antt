-- ===== src/Publisher/Frame.antt =====
-- The frame of a message and of its return: buildPublishing and callOnReturn of publisher.go.
--
-- Texts whose bytes the code reads or writes are byte strings: the decimal text of fmt.Sprintf("%d")
-- and what strconv.ParseInt makes of one, `none` being its error. int32 and int64 wrap around.
pub mod Decimal
pub mod Echo
use warren.Prelude.{
  is_positive, is_zero, milliseconds, bytes_eq, bytes_eq_iff, bytes_Eq, ℤ, pos, negsuc, ℕ, zero,
  suc, ◌+◌, ◌-◌, ◌*◌, ◌/◌, ◌%◌, ◌^◌, ◌≤◌, ◌<◌, min, max, String, ◌≡◌, refl, sym, ap, subst, fun_ext,
  ◌∙◌, ◌≢◌, ◌↔◌, ◌⊎◌, inl, inr, Bool, true, false, not, ◌&&◌, ◌||◌, Option, none, some, List, [],
  ◌∷◌, ◌++◌, map, arith, ltb, leb, nat_eq, if◌then◌else◌, nat_eq_iff, leb_iff, ltb_iff, ltb-false,
  leb-false, Bool-cases, Option-cases, Eq, ◌==◌, nat_Eq, str_eq, str_eq_iff, string_Eq, length,
  get_elem?, take, drop, replicate, length-append, length-drop, drop_all, In, lookup, insert, erase,
  lookup-insert, lookup-erase, if_both, if_true, if_false, ℕ_discrete,
}
use warren.Publisher.Fields.{Fields, no_fields, field, Value, int32_value}
use warren.Publisher.Message.{Message, mode_wire, mode_from_wire, set_field}

pub record Publishing : Type 0 where
  pub content_type : String
  pub content_encoding : String
  pub headers : Fields
  pub delivery_mode : ℕ
  pub priority : ℕ
  pub correlation_id : String
  pub reply_to : String
  pub expiration : List ℕ
  pub message_id : String
  pub timestamp : Option ℕ
  pub type_name : String
  pub user_id : String
  pub app_id : String
  pub body : List ℕ

-- The digits of n before `rest`, for fuel above n.
unfoldable pub digits : ℕ → ℕ → List ℕ → List ℕ
digits zero n rest = rest
digits (suc fuel) n rest =
    let more = digits fuel (n / 10) ((48 + n % 10) ∷ rest) in
    if ltb n 10 then (48 + n) ∷ rest else more

unfoldable pub decimal : ℤ → List ℕ
unfolding digits
decimal (pos n) = digits (n + 1) n []
decimal (negsuc n) = 45 ∷ digits (n + 2) (n + 1) []

-- The value of a text of digits, read on from `acc`.
unfoldable pub read_digits : ℕ → List ℕ → Option ℕ
read_digits acc [] = some acc
read_digits acc (b ∷ s) =
    let rest = read_digits (acc * 10 + (b - 48)) s in if leb 48 b && leb b 57 then rest else none

abbrev pub within : ℕ → Option ℕ → Option ℕ
within bound none = none
within bound (some n) = if leb n bound then some n else none

unfoldable pub unsigned : List ℕ → ℕ → Option ℕ
unfolding read_digits
unsigned [] bound = none
unsigned (b ∷ s) bound = within bound (read_digits 0 (b ∷ s))

abbrev pub negative : ℕ → ℤ
negative zero = pos 0
negative (suc n) = negsuc n

abbrev pub as_int : (ℕ → ℤ) → Option ℕ → Option ℤ
as_int f none = none
as_int f (some n) = some (f n)

-- strconv.ParseInt(s, 10, 64).
unfoldable pub parse_int : List ℕ → Option ℤ
unfolding unsigned
parse_int [] = none
parse_int (b ∷ s) =
    if nat_eq b 45
    then as_int negative (unsigned s (2 ^ 63))
    else as_int pos (unsigned (if nat_eq b 43 then s else b ∷ s) (2 ^ 63 - 1))

-- The residue of a number as a signed integer of w bits, half being 2 ^ (w - 1).
abbrev pub signed : ℕ → ℕ → ℤ
signed half m = if ltb m half then pos m else negsuc (half + half - 1 - m)

abbrev pub wrapped : ℕ → ℤ → ℤ
wrapped half (pos n) = signed half (n % (half + half))
wrapped half (negsuc n) = signed half (half + half - 1 - n % (half + half))

unfoldable pub to_int32 : ℤ → ℤ
to_int32 z = wrapped (2 ^ 31) z

abbrev pub scaled : ℕ → ℤ → ℤ
scaled k (pos n) = pos (n * k)
scaled k (negsuc n) = negsuc (n * k + k - 1)

-- The product of an int64 and a constant.
unfoldable pub times_int64 : ℕ → ℤ → ℤ
times_int64 k z = wrapped (2 ^ 63) (scaled k z)

unfoldable pub build_publishing : Message → List ℕ → Publishing
unfolding decimal to_int32
build_publishing m body = record {
  content_type = m.content_type;
  content_encoding = m.content_encoding;
  headers =
      if is_positive m.delay
      then set_field "x-delay" (int32_value (to_int32 (milliseconds m.delay))) m.headers
      else m.headers;
  delivery_mode = mode_wire m.delivery_mode;
  priority = m.priority;
  correlation_id = m.correlation_id;
  reply_to = m.reply_to;
  expiration = if is_positive m.expiration then decimal (milliseconds m.expiration) else [];
  message_id = m.message_id;
  timestamp = m.timestamp;
  type_name = m.type_name;
  user_id = m.user_id;
  app_id = m.app_id;
  body = body;
}

-- ReturnedProperties.
pub record ReturnedProperties : Type 0 where
  pub content_type : String
  pub content_encoding : String
  pub headers : Fields
  pub delivery_mode : ℕ
  pub priority : ℕ
  pub correlation_id : String
  pub reply_to : String
  pub expiration : ℤ
  pub message_id : String
  pub timestamp : Option ℕ
  pub type_name : String
  pub user_id : String
  pub app_id : String

unfoldable pub or_no_ttl : Option ℤ → ℤ
or_no_ttl none = pos 0
or_no_ttl (some ms) = times_int64 1000000 ms

abbrev pub is_blank : List ℕ → Bool
is_blank [] = true
is_blank (b ∷ s) = false

-- callOnReturn: the properties that it hands to OnReturn for the properties of a basic.return.
unfoldable pub returned_properties : Publishing → ReturnedProperties
unfolding parse_int mode_from_wire or_no_ttl
returned_properties r = record {
  content_type = r.content_type;
  content_encoding = r.content_encoding;
  headers = r.headers;
  delivery_mode = mode_from_wire r.delivery_mode;
  priority = r.priority;
  correlation_id = r.correlation_id;
  reply_to = r.reply_to;
  expiration = if is_blank r.expiration then pos 0 else or_no_ttl (parse_int r.expiration);
  message_id = r.message_id;
  timestamp = r.timestamp;
  type_name = r.type_name;
  user_id = r.user_id;
  app_id = r.app_id;
}
