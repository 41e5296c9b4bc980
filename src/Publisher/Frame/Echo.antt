-- ===== src/Publisher/Frame/Echo.antt =====
-- The properties of a message on the wire and in the return of it, publisher.go.
use warren.Prelude.{
  bytes_Eq, ℤ, pos, negsuc, ◌*◌, ◌/◌, ◌^◌, String, ◌≡◌, refl, Bool, true, Option, none, some, arith,
  ltb, if◌then◌else◌, nat_Eq, str_eq, str_eq_iff, string_Eq,
}
use warren.Publisher.Fields.{Fields, no_fields, field, Value}
use warren.Publisher.Message.{Message, set_field}

unfoldable pub get_field : String → Fields → Option Value
get_field k no_fields = none
get_field k (field j v h) = if str_eq j k then some v else get_field k h

pub get_field-set_field :
    (k j : String) (v : Value) (h : Fields)
    → get_field j (set_field k v h) ≡ (if str_eq k j then some v else get_field j h)
unfolding get_field set_field
get_field-set_field k j v no_fields = refl
get_field-set_field k j v (field i w h) =
    ground (arith, str_eq_iff k j, str_eq_iff i k, str_eq_iff i j, get_field-set_field k j v h)

-- A duration in whole milliseconds, as nanoseconds.
abbrev pub whole_ms : ℤ → ℤ
whole_ms (pos n) = pos (n / 1000000 * 1000000)
whole_ms (negsuc n) = pos 0

abbrev pub int64_max_ok : ℤ → Bool
int64_max_ok (pos n) = ltb n (2 ^ 63)
int64_max_ok (negsuc n) = true
