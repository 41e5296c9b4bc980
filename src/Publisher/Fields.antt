-- ===== src/Publisher/Fields.antt =====
-- The header table of a message: validateHeaders, message.go.
--
-- A header value is a tree: a nested Headers is a list of keyed values, a []any a list of values. The
-- checks write int64 and uint64 over int and uint in place, so they return the table as it is
-- afterwards, and the error. A map is a list in the order in which `range` visits it, which is any.
-- An integer stands with its type, since only the type is looked at; `other` is a supported scalar,
-- `unsupported` a value of any type outside the switch, amqp091.Decimal and map[string]any among them.
pub mod Normal
use warren.Prelude.{
  is_positive, is_zero, milliseconds, bytes_eq, bytes_eq_iff, bytes_Eq, ℤ, pos, negsuc, ℕ, zero,
  suc, ◌+◌, ◌-◌, ◌*◌, ◌/◌, ◌%◌, ◌^◌, ◌≤◌, ◌<◌, min, max, String, ◌≡◌, refl, sym, ap, subst, fun_ext,
  ◌∙◌, ◌≢◌, ◌↔◌, ◌⊎◌, inl, inr, Bool, true, false, not, ◌&&◌, ◌||◌, Option, none, some, List, [],
  ◌∷◌, ◌++◌, map, arith, ltb, leb, nat_eq, if◌then◌else◌, nat_eq_iff, leb_iff, ltb_iff, ltb-false,
  leb-false, Bool-cases, Option-cases, Eq, ◌==◌, nat_Eq, str_eq, str_eq_iff, string_Eq, length,
  get_elem?, take, drop, replicate, length-append, length-drop, drop_all, In, lookup, insert, erase,
  lookup-insert, lookup-erase, if_both, if_true, if_false, ℕ_discrete,
}
use warren.Errors.{Err, sentinel, wrap_one, invalid_message}

mutual
  pub data Value : Type 0 where
    int_value int32_value int64_value : ℤ → Value
    uint_value uint64_value other unsupported : ℕ → Value
    table : Fields → Value
    array : Items → Value

  pub data Fields : Type 0 where
    no_fields : Fields
    field : String → Value → Fields → Fields

  pub data Items : Type 0 where
    no_items : Items
    item : Value → Items → Items

abbrev pub max_header_depth : ℕ
max_header_depth = 10

abbrev pub invalid : Option Err
invalid = some (wrap_one (sentinel invalid_message))

-- A value after its check, put back with the rest: the check of the rest runs only without an error.
abbrev pub put_field :
    String → Value × Option Err → Fields → Fields × Option Err → Fields × Option Err
put_field k (v, some e) old rest = (field k v old, some e)
put_field k (v, none) old rest = (field k v rest.0, rest.1)

abbrev pub put_item : Value × Option Err → Items → Items × Option Err → Items × Option Err
put_item (v, some e) old rest = (item v old, some e)
put_item (v, none) old rest = (item v rest.0, rest.1)

abbrev pub in_table : Fields × Option Err → Value × Option Err
in_table (h, e) = (table h, e)

abbrev pub in_array : Items × Option Err → Value × Option Err
in_array (l, e) = (array l, e)

-- validateHeadersDepth is `validate_depth` with its loop `validate_fields`. validateHeaderValue is
-- `validate_value`, whose first two clauses are the coercions that both loops do before they call it.
unfoldable mutual
  pub validate_value : Value → ℕ → Value × Option Err
  validate_value (int_value n) depth = (int64_value n, none)
  validate_value (uint_value n) depth = (uint64_value n, none)
  validate_value (int32_value n) depth = (int32_value n, none)
  validate_value (int64_value n) depth = (int64_value n, none)
  validate_value (uint64_value n) depth = (uint64_value n, none)
  validate_value (other n) depth = (other n, none)
  validate_value (unsupported n) depth = (unsupported n, invalid)
  validate_value (table h) depth =
      in_table
        (if ltb max_header_depth (suc depth) then (h, invalid) else validate_fields h (suc depth))
  validate_value (array l) depth = in_array (validate_items l depth)

  pub validate_fields : Fields → ℕ → Fields × Option Err
  validate_fields no_fields depth = (no_fields, none)
  validate_fields (field k v h) depth =
      put_field k (validate_value v depth) h (validate_fields h depth)

  pub validate_items : Items → ℕ → Items × Option Err
  validate_items no_items depth = (no_items, none)
  validate_items (item v l) depth = put_item (validate_value v depth) l (validate_items l depth)

unfoldable pub validate_depth : Fields → ℕ → Fields × Option Err
unfolding validate_fields
validate_depth h depth =
    if ltb max_header_depth depth then (h, invalid) else validate_fields h depth

unfoldable pub validate_headers : Fields → Fields × Option Err
unfolding validate_depth
validate_headers h = validate_depth h 0
